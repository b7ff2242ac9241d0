-- ===== src/Config/Parser/Rounds.antt =====
-- One round of the loop of `parse`, as equations.
use creeper_url_shortening_w.Config.{NginxConfigStatement}
use creeper_url_shortening_w.Config.Token.{TokenType, is_blank, Token, parse_token}
use creeper_url_shortening_w.Config.Token.Steps.{token}
use creeper_url_shortening_w.Config.Token.Words.{parse_token_blank}
use creeper_url_shortening_w.Config.Parser.{
  ParserState, ParseResult, next, on_token, state, round, parse_loop,
}
use creeper_url_shortening_w.Config.Parser.Fuel.{goes_on, parse_loop_fuel}
use creeper_url_shortening_w.Prelude.Text.{Bytes}
use creeper_url_shortening_w.Prelude.{
  ℕ, suc, ◌<◌, true, ◌≡◌, refl, sym, ap, ◌∙◌, List, ◌∷◌, arith, length,
}

-- The loop with the fuel that `parse` gives it.
abbrev pub parse_from : ParserState → Bytes → ParseResult
parse_from s input = parse_loop (suc (length input)) s input

pub parse_loop-suc :
    (fuel : ℕ) (s : ParserState) (input : Bytes)
    → parse_loop (suc fuel) s input ≡ round (parse_loop fuel) s (parse_token input)
unfolding parse_loop
parse_loop-suc fuel s input = refl

round-next :
    (loop : ParserState → Bytes → ParseResult) (s : ParserState) (t : Token)
    (stack : List (List NginxConfigStatement)) (last : TokenType)
    → on_token s t.type t.value ≡ next stack last
    → round loop s t ≡ loop (state stack last) t.rest
unfolding round
round-next loop s t stack last e = rw (e, round)

module _ (s : ParserState) (input : Bytes) (type : TokenType) (v rest : Bytes) where
  pub parse_from-next :
      (stack : List (List NginxConfigStatement)) (last : TokenType)
      → parse_token input ≡ token type v rest
      → on_token s type v ≡ next stack last
      → parse_from s input ≡ parse_from (state stack last) rest
  parse_from-next stack last e f =
      let less : length rest < length input = rw e at (goes_on s input stack last (rw e f)) in
      parse_loop-suc (length input) s input
      ∙ ap (round (parse_loop (length input)) s) e
      ∙ round-next (parse_loop (length input)) s (token type v rest) stack last f
      ∙ parse_loop_fuel (length input) (suc (length rest)) (state stack last) rest less
          (omega arith)

pub parse_from_blank :
    (s : ParserState) (b : ℕ) (rest : Bytes)
    → is_blank b ≡ true
    → parse_from s (b ∷ rest) ≡ parse_from s rest
parse_from_blank s b rest h =
    parse_loop-suc (suc (length rest)) s (b ∷ rest)
    ∙ ap (round (parse_loop (suc (length rest))) s) (parse_token_blank b rest h)
    ∙ sym (parse_loop-suc (suc (length rest)) s rest)
    ∙ parse_loop_fuel (suc (suc (length rest))) (suc (length rest)) s rest (omega arith)
        (omega arith)
