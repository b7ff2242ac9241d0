-- ===== src/Config/Parser/Blocks.antt =====
-- How the loop of `parse` reads a statement that has no block, and the braces of a block.
use mathlib.Core.List.{reverse, reverse-cons}
use creeper_url_shortening_w.Config.{
  NginxConfigStatement, simple, block, NginxConfig, empty, item, statements, of_statements,
  of_statements-statements,
}
use creeper_url_shortening_w.Config.WellFormed.{IsTokens}
use creeper_url_shortening_w.Config.Printer.{
  indent, join_tokens, statement_to_string, config_to_string,
}
use creeper_url_shortening_w.Config.Token.{
  TokenType, normal, start_block, end_block, statement_end, is_blank, ends_word, parse_token,
}
use creeper_url_shortening_w.Config.Parser.{next, on_token, state}
use creeper_url_shortening_w.Config.Parser.Rounds.{parse_from, parse_from-next, parse_from_blank}
use creeper_url_shortening_w.Config.Parser.Reads.{
  Begins, behind_statement, behind_block, read_tokens, read_indent,
}
use creeper_url_shortening_w.Prelude.Text.{Bytes}
use creeper_url_shortening_w.Prelude.{
  ℕ, suc, ◌≡◌, refl, sym, ap, ◌∙◌, List, [], ◌∷◌, ◌++◌, append_assoc, append-nil,
}

-- the last token of a statement
abbrev pub last_of : NginxConfigStatement → TokenType
last_of (simple ts) = statement_end
last_of (block ts c) = end_block

abbrev pub last_in : TokenType → NginxConfig → TokenType
last_in last empty = last
last_in last (item s c) = last_in (last_of s) c

pub Begins-last_of : (s : NginxConfigStatement) → Begins (last_of s)
Begins-last_of (simple ts) = behind_statement
Begins-last_of (block ts c) = behind_block

-- the statements of a config, put behind those of a block that is being read
abbrev pub pushed : NginxConfig → List NginxConfigStatement → List NginxConfigStatement
pushed empty ss = ss
pushed (item s c) ss = pushed c (s ∷ ss)

pushed-reverse :
    (c : NginxConfig) (ss : List NginxConfigStatement)
    → reverse (pushed c ss) ≡ reverse ss ++ statements c
pushed-reverse empty ss = sym (append-nil (reverse ss))
pushed-reverse (item s c) ss =
    pushed-reverse c (s ∷ ss)
    ∙ ap (λ l. l ++ statements c) (reverse-cons s ss)
    ∙ append_assoc (reverse ss) (s ∷ []) (statements c)

pub of_statements-pushed : (c : NginxConfig) → of_statements (reverse (pushed c [])) ≡ c
of_statements-pushed c = ap of_statements (pushed-reverse c []) ∙ of_statements-statements c

pub block_text :
    (depth : ℕ) (ts : List Bytes) (c : NginxConfig) (rest : Bytes)
    → statement_to_string depth (block ts c) ++ rest
      ≡ indent depth
        ++ (join_tokens ts
            ++ (b' '
                ∷ b'{'
                ∷ b'\n'
                ∷ (config_to_string (suc depth) c ++ (indent depth ++ (b'}' ∷ b'\n' ∷ rest)))))
unfolding statement_to_string
block_text depth ts c rest = simp append_assoc

pub item_text :
    (depth : ℕ) (s : NginxConfigStatement) (c : NginxConfig) (rest : Bytes)
    → config_to_string depth (item s c) ++ rest
      ≡ statement_to_string depth s ++ (config_to_string depth c ++ rest)
unfolding config_to_string
item_text depth s c rest =
    append_assoc (statement_to_string depth s) (config_to_string depth c) rest

on_token_semicolon :
    (stack : List (List NginxConfigStatement)) (v : Bytes)
    → on_token (state stack normal) statement_end v ≡ next stack statement_end
unfolding on_token
on_token_semicolon stack v = refl

pub empty_text : (depth : ℕ) (rest : Bytes) → config_to_string depth empty ++ rest ≡ rest
unfolding config_to_string
empty_text depth rest = refl

-- The types of token after which a block may close.
data Closes : TokenType → Type 0 where
  after_simple : Closes statement_end
  after_brace : Closes end_block
  when_empty : Closes start_block

Closes-last_in : (c : NginxConfig) (last : TokenType) → Closes last → Closes (last_in last c)
Closes-last_in empty last h = h
Closes-last_in (item (simple ts) c) last h = Closes-last_in c statement_end after_simple
Closes-last_in (item (block ts b) c) last h = Closes-last_in c end_block after_brace

module _ (ss : List NginxConfigStatement) (stack : List (List NginxConfigStatement)) where
  on_token_close :
      (body : List NginxConfigStatement) (ts : List Bytes) (last : TokenType) (v : Bytes)
      → Closes last
      → on_token (state (body ∷ (simple ts ∷ ss) ∷ stack) last) end_block v
        ≡ next ((block ts (of_statements (reverse body)) ∷ ss) ∷ stack) end_block
  unfolding on_token
  on_token_close body ts _ v after_simple = refl
  on_token_close body ts _ v after_brace = refl
  on_token_close body ts _ v when_empty = refl

  on_token_open :
      (ts : List Bytes) (v : Bytes)
      → on_token (state ((simple ts ∷ ss) ∷ stack) normal) start_block v
        ≡ next ([] ∷ (simple ts ∷ ss) ∷ stack) start_block
  unfolding on_token
  on_token_open ts v = refl

  pub read_simple :
      (ts : List Bytes) (depth : ℕ) (last : TokenType) (rest : Bytes)
      → Begins last
      → IsTokens ts
      → parse_from (state (ss ∷ stack) last) (statement_to_string depth (simple ts) ++ rest)
        ≡ parse_from (state ((simple ts ∷ ss) ∷ stack) statement_end) rest
  unfolding statement_to_string
  read_simple ts depth last rest begins h =
      ap (parse_from (state (ss ∷ stack) last)) (simp append_assoc)
      ∙ read_indent _ depth (join_tokens ts ++ b';' ∷ b'\n' ∷ rest)
      ∙ read_tokens ss stack ts last b';' (b'\n' ∷ rest) begins h (unfold ends_word in refl)
      ∙ parse_from-next _ (b';' ∷ b'\n' ∷ rest) statement_end (b';' ∷ []) (b'\n' ∷ rest) _
          statement_end (unfold parse_token in refl) (on_token_semicolon _ (b';' ∷ []))
      ∙ parse_from_blank _ b'\n' rest (unfold is_blank in refl)

  -- The text of a block up to its brace.
  pub read_open :
      (ts : List Bytes) (depth : ℕ) (last : TokenType) (rest : Bytes)
      → Begins last
      → IsTokens ts
      → parse_from
          (state (ss ∷ stack) last)
          (indent depth ++ (join_tokens ts ++ (b' ' ∷ b'{' ∷ b'\n' ∷ rest)))
        ≡ parse_from (state ([] ∷ (simple ts ∷ ss) ∷ stack) start_block) rest
  read_open ts depth last rest begins h =
      read_indent _ depth (join_tokens ts ++ b' ' ∷ b'{' ∷ b'\n' ∷ rest)
      ∙ read_tokens ss stack ts last b' ' (b'{' ∷ b'\n' ∷ rest) begins h (unfold ends_word in refl)
      ∙ parse_from_blank _ b' ' (b'{' ∷ b'\n' ∷ rest) (unfold is_blank in refl)
      ∙ parse_from-next _ (b'{' ∷ b'\n' ∷ rest) start_block (b'{' ∷ []) (b'\n' ∷ rest) _ start_block
          (unfold parse_token in refl) (on_token_open ts (b'{' ∷ []))
      ∙ parse_from_blank _ b'\n' rest (unfold is_blank in refl)

  -- The text of a block from behind its statements.
  pub read_close :
      (c : NginxConfig) (ts : List Bytes) (depth : ℕ) (rest : Bytes)
      → parse_from
          (state (pushed c [] ∷ (simple ts ∷ ss) ∷ stack) (last_in start_block c))
          (indent depth ++ (b'}' ∷ b'\n' ∷ rest))
        ≡ parse_from (state ((block ts c ∷ ss) ∷ stack) end_block) rest
  read_close c ts depth rest =
      read_indent _ depth (b'}' ∷ b'\n' ∷ rest)
      ∙ parse_from-next _ (b'}' ∷ b'\n' ∷ rest) end_block (b'}' ∷ []) (b'\n' ∷ rest) _ end_block
          (unfold parse_token in refl)
          (on_token_close (pushed c []) ts (last_in start_block c) (b'}' ∷ [])
            (Closes-last_in c start_block when_empty))
      ∙ parse_from_blank _ b'\n' rest (unfold is_blank in refl)
      ∙ ap (λ (b : NginxConfig). parse_from (state ((block ts b ∷ ss) ∷ stack) end_block) rest)
          (of_statements-pushed c)
