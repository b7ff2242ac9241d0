-- ===== src/Config/Parser/Sound.antt =====
-- Whatever `parse` accepts is well formed, and only an empty stack makes it undefined.
use creeper_url_shortening_w.Config.{NginxConfigStatement, NginxConfig, empty}
use creeper_url_shortening_w.Config.WellFormed.{IsConfig}
use creeper_url_shortening_w.Config.Printer.{config_to_string}
use creeper_url_shortening_w.Config.Token.{TokenType, start, parse_token}
use creeper_url_shortening_w.Config.Token.Sound.{parse_token_sound}
use creeper_url_shortening_w.Config.Parser.{
  ParseResult, accepted, rejected, undefined, out_of_fuel, on_token, state, round, parse_loop,
  parse,
}
use creeper_url_shortening_w.Config.Parser.Invariant.{IsStack, IsSound, on_token-IsRound}
use creeper_url_shortening_w.Config.Parser.Fuel.{Round-cases}
use creeper_url_shortening_w.Config.Parser.RoundTrip.{parse-config_to_string}
use creeper_url_shortening_w.Prelude.Text.{Bytes}
use creeper_url_shortening_w.Prelude.{
  ℕ, zero, suc, length, ◌≡◌, ◌≢◌, sym, ◌∙◌, inl, inr, List, [], ◌∷◌,
}

abbrev Accepts : ParseResult → Type 0
Accepts (accepted c) = IsConfig c × (c ≢ empty)
Accepts _ = Unit

Accepts-of_IsSound :
    (stack : List (List NginxConfigStatement)) (r : ParseResult) → IsSound stack r → Accepts r
Accepts-of_IsSound stack (accepted c) h = h
Accepts-of_IsSound stack rejected h = tt
Accepts-of_IsSound stack undefined h = tt
Accepts-of_IsSound stack out_of_fuel h = tt

parse_loop-Accepts :
    (fuel : ℕ) (stack : List (List NginxConfigStatement)) (last : TokenType) (input : Bytes)
    → IsStack stack last
    → Accepts (parse_loop fuel (state stack last) input)
unfolding parse_loop
parse_loop-Accepts zero stack last input h = tt
parse_loop-Accepts (suc fuel) stack last input h =
    let t = parse_token input in
    let kept = on_token-IsRound stack last t.type t.value h (parse_token_sound input) in
    elim (Round-cases (on_token (state stack last) t.type t.value)) [
      | inl (stack', last', e) ↦
          rw (e, round) (parse_loop-Accepts fuel stack' last' t.rest (rw e at kept))
      | inr (result, e) ↦ rw (e, round) (Accepts-of_IsSound stack result (rw e at kept))
    ]

-- A config that `parse` accepts is not empty, each of its statements has a token, and each token is
-- a word or a quoted text.
pub parse-IsConfig :
    (input : Bytes) (c : NginxConfig) → parse input ≡ accepted c → IsConfig c × (c ≢ empty)
unfolding parse
parse-IsConfig input c e =
    rw e at (parse_loop-Accepts (suc (length input)) ([] ∷ []) start input (tt, tt))

-- The text of a config that was accepted is accepted as the same config.
pub parse-config_to_string-parse :
    (input : Bytes) (c : NginxConfig)
    → parse input ≡ accepted c
    → parse (config_to_string 0 c) ≡ parse input
parse-config_to_string-parse input c e =
    let (h, ne) = parse-IsConfig input c e in parse-config_to_string c h ne ∙ sym e
