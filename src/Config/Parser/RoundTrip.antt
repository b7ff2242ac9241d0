-- ===== src/Config/Parser/RoundTrip.antt =====
-- `parse` reads back what `to_string` prints.
use mathlib.Core.List.{reverse}
use creeper_url_shortening_w.Config.{
  NginxConfigStatement, simple, block, NginxConfig, empty, item, of_statements,
}
use creeper_url_shortening_w.Config.WellFormed.{IsStatement, is_simple, is_block, IsConfig, is_item}
use creeper_url_shortening_w.Config.Printer.{indent, statement_to_string, config_to_string}
use creeper_url_shortening_w.Config.Token.{
  TokenType, start, start_block, end_block, statement_end, parse_token,
}
use creeper_url_shortening_w.Config.Parser.{accepted, state, parse_loop, parse}
use creeper_url_shortening_w.Config.Parser.Rounds.{parse_from}
use creeper_url_shortening_w.Config.Parser.Reads.{Begins, at_start, inside_block}
use creeper_url_shortening_w.Config.Parser.Blocks.{
  last_of, last_in, Begins-last_of, pushed, of_statements-pushed, block_text, item_text, empty_text,
  read_simple, read_open, read_close,
}
use creeper_url_shortening_w.Prelude.Text.{Bytes}
use creeper_url_shortening_w.Prelude.{
  ℕ, suc, ◌≡◌, ◌≢◌, refl, sym, ap, ◌∙◌, List, [], ◌∷◌, ◌++◌, append-nil,
}

mutual
  read_statement :
      (s : NginxConfigStatement) (depth : ℕ) (ss : List NginxConfigStatement)
      (stack : List (List NginxConfigStatement)) (last : TokenType) (rest : Bytes)
      → Begins last
      → IsStatement s
      → parse_from (state (ss ∷ stack) last) (statement_to_string depth s ++ rest)
        ≡ parse_from (state ((s ∷ ss) ∷ stack) (last_of s)) rest
  read_statement (simple ts) depth ss stack last rest begins (is_simple h) =
      read_simple ss stack ts depth last rest begins h
  read_statement (block ts c) depth ss stack last rest begins (is_block h k) =
      ap (parse_from (state (ss ∷ stack) last)) (block_text depth ts c rest)
      ∙ read_open ss stack ts depth last _ begins h
      ∙ read_config c (suc depth) [] ((simple ts ∷ ss) ∷ stack) start_block
          (indent depth ++ (b'}' ∷ b'\n' ∷ rest)) inside_block k
      ∙ read_close ss stack c ts depth rest

  pub read_config :
      (c : NginxConfig) (depth : ℕ) (ss : List NginxConfigStatement)
      (stack : List (List NginxConfigStatement)) (last : TokenType) (rest : Bytes)
      → Begins last
      → IsConfig c
      → parse_from (state (ss ∷ stack) last) (config_to_string depth c ++ rest)
        ≡ parse_from (state (pushed c ss ∷ stack) (last_in last c)) rest
  read_config empty depth ss stack last rest begins h =
      ap (parse_from (state (ss ∷ stack) last)) (empty_text depth rest)
  read_config (item s c) depth ss stack last rest begins (is_item h k) =
      ap (parse_from (state (ss ∷ stack) last)) (item_text depth s c rest)
      ∙ read_statement s depth ss stack last (config_to_string depth c ++ rest) begins h
      ∙ read_config c depth (s ∷ ss) stack (last_of s) rest (Begins-last_of s) k

-- The types of token after which the stream may end.
pub data Ends : TokenType → Type 0 where
  simple_last : Ends statement_end
  block_last : Ends end_block

pub Ends-last_of : (s : NginxConfigStatement) → Ends (last_of s)
Ends-last_of (simple ts) = simple_last
Ends-last_of (block ts c) = block_last

pub Ends-last_in : (c : NginxConfig) (last : TokenType) → Ends last → Ends (last_in last c)
Ends-last_in empty last h = h
Ends-last_in (item s c) last h = Ends-last_in c (last_of s) (Ends-last_of s)

read_end :
    (top : List NginxConfigStatement) (last : TokenType)
    → Ends last
    → parse_from (state (top ∷ []) last) [] ≡ accepted (of_statements (reverse top))
unfolding parse_loop parse_token
read_end top _ simple_last = refl
read_end top _ block_last = refl

-- A config that is not empty, and whose statements have tokens that can be read back, is what
-- `parse` makes of its text.
pub parse-config_to_string :
    (c : NginxConfig) → IsConfig c → c ≢ empty → parse (config_to_string 0 c) ≡ accepted c
unfolding parse
parse-config_to_string empty h ne = absurd (ne refl)
parse-config_to_string (item s c) h ne =
    ap (parse_from (state ([] ∷ []) start)) (sym (append-nil (config_to_string 0 (item s c))))
    ∙ read_config (item s c) 0 [] [] start [] at_start h
    ∙ read_end (pushed (item s c) []) (last_in start (item s c))
        (Ends-last_in c (last_of s) (Ends-last_of s))
    ∙ ap accepted (of_statements-pushed (item s c))
