-- ===== src/Config/Parser/Reads.antt =====
-- How the loop of `parse` reads the tokens of a statement.
use creeper_url_shortening_w.Config.{NginxConfigStatement, simple}
use creeper_url_shortening_w.Config.WellFormed.{AllTokens, IsTokens}
use creeper_url_shortening_w.Config.Printer.{indent, more_tokens, join_tokens}
use creeper_url_shortening_w.Config.Token.{
  TokenType, start, normal, start_block, end_block, statement_end, is_blank, ends_word,
}
use creeper_url_shortening_w.Config.Token.Words.{IsToken, parse_token-IsToken}
use creeper_url_shortening_w.Config.Parser.{ParserState, next, on_token, state}
use creeper_url_shortening_w.Config.Parser.Rounds.{parse_from, parse_from-next, parse_from_blank}
use creeper_url_shortening_w.Prelude.Text.{Bytes}
use creeper_url_shortening_w.Prelude.{
  ℕ, zero, suc, true, ◌≡◌, refl, ap, ◌∙◌, List, [], ◌∷◌, ◌++◌, append_assoc, append-nil,
}

-- The types of token after which a statement may begin.
pub data Begins : TokenType → Type 0 where
  at_start : Begins start
  behind_statement : Begins statement_end
  inside_block : Begins start_block
  behind_block : Begins end_block

on_token_first :
    (ss : List NginxConfigStatement) (stack : List (List NginxConfigStatement)) (last : TokenType)
    (t : Bytes)
    → Begins last
    → on_token (state (ss ∷ stack) last) normal t ≡ next ((simple (t ∷ []) ∷ ss) ∷ stack) normal
unfolding on_token
on_token_first ss stack _ t at_start = refl
on_token_first ss stack _ t behind_statement = refl
on_token_first ss stack _ t inside_block = refl
on_token_first ss stack _ t behind_block = refl

module _ (ss : List NginxConfigStatement) (stack : List (List NginxConfigStatement)) where
  on_token_more :
      (us : List Bytes) (t : Bytes)
      → on_token (state ((simple us ∷ ss) ∷ stack) normal) normal t
        ≡ next ((simple (us ++ t ∷ []) ∷ ss) ∷ stack) normal
  unfolding on_token
  on_token_more us t = refl

  -- What follows a token in the text begins with a byte that ends a word.
  more_tokens_byte :
      (ts : List Bytes) (b : ℕ) (rest : Bytes)
      → ends_word b ≡ true
      → (c : ℕ) × (behind : Bytes) × (more_tokens ts ++ b ∷ rest ≡ c ∷ behind)
        × (ends_word c ≡ true)
  unfolding more_tokens ends_word
  more_tokens_byte [] b rest h = (b, rest, refl, h)
  more_tokens_byte (t ∷ ts) b rest h = (b' ', _, refl, refl)

  read_token :
      (s : ParserState) (t : Bytes) (ts : List Bytes) (b : ℕ) (rest : Bytes)
      (stack' : List (List NginxConfigStatement))
      → IsToken t
      → ends_word b ≡ true
      → on_token s normal t ≡ next stack' normal
      → parse_from s (t ++ (more_tokens ts ++ b ∷ rest))
        ≡ parse_from (state stack' normal) (more_tokens ts ++ b ∷ rest)
  read_token s t ts b rest stack' h e f =
      let (c, behind, same, ends) = more_tokens_byte ts b rest e in
      rw same (
        parse_from-next s (t ++ c ∷ behind) normal t (c ∷ behind) stack' normal
          (parse_token-IsToken t c behind h ends) f)

  read_more_tokens :
      (ts us : List Bytes) (b : ℕ) (rest : Bytes)
      → AllTokens ts
      → ends_word b ≡ true
      → parse_from (state ((simple us ∷ ss) ∷ stack) normal) (more_tokens ts ++ b ∷ rest)
        ≡ parse_from (state ((simple (us ++ ts) ∷ ss) ∷ stack) normal) (b ∷ rest)
  unfolding more_tokens
  read_more_tokens [] us b rest h e = rw append-nil
  read_more_tokens (t ∷ ts) us b rest (h, hs) e =
      parse_from_blank _ b' ' ((t ++ more_tokens ts) ++ b ∷ rest) (unfold is_blank in refl)
      ∙ ap (parse_from (state ((simple us ∷ ss) ∷ stack) normal))
          (append_assoc t (more_tokens ts) (b ∷ rest))
      ∙ read_token _ t ts b rest _ h e (on_token_more us t)
      ∙ read_more_tokens ts (us ++ t ∷ []) b rest hs e
      ∙ rw append_assoc

  -- The tokens of a statement are read into a new statement at the back of the innermost block.
  pub read_tokens :
      (ts : List Bytes) (last : TokenType) (b : ℕ) (rest : Bytes)
      → Begins last
      → IsTokens ts
      → ends_word b ≡ true
      → parse_from (state (ss ∷ stack) last) (join_tokens ts ++ b ∷ rest)
        ≡ parse_from (state ((simple ts ∷ ss) ∷ stack) normal) (b ∷ rest)
  unfolding join_tokens
  read_tokens [] last b rest begins h e = absurd h
  read_tokens (t ∷ ts) last b rest begins (h, hs) e =
      ap (parse_from (state (ss ∷ stack) last)) (append_assoc t (more_tokens ts) (b ∷ rest))
      ∙ read_token _ t ts b rest _ h e (on_token_first ss stack last t begins)
      ∙ read_more_tokens ts (t ∷ []) b rest hs e

pub read_indent :
    (s : ParserState) (depth : ℕ) (rest : Bytes)
    → parse_from s (indent depth ++ rest) ≡ parse_from s rest
unfolding indent is_blank
read_indent s zero rest = refl
read_indent s (suc depth) rest =
    parse_from_blank s b' ' _ refl ∙ parse_from_blank s b' ' _ refl ∙ read_indent s depth rest
