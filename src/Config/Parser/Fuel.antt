-- ===== src/Config/Parser/Fuel.antt =====
-- The loop of `parse` ends: its fuel is enough, and more of it changes nothing.
use creeper_url_shortening_w.Config.Token.{TokenType, start, eof, parse_token}
use creeper_url_shortening_w.Config.Token.Steps.{rest-parse_token-lt}
use creeper_url_shortening_w.Config.{NginxConfigStatement}
use creeper_url_shortening_w.Config.Parser.{
  ParserState, ParseResult, out_of_fuel, Round, next, stop, on_token, on_eof, on_normal,
  on_statement_end, on_start_block, on_end_block, state, round, parse_loop, parse,
}
use creeper_url_shortening_w.Prelude.Text.{Bytes}
use creeper_url_shortening_w.Prelude.{
  ℕ, zero, suc, ◌<◌, ◌≡◌, ◌≢◌, ◌⊎◌, inl, inr, refl, List, [], ◌∷◌, arith, length,
}

pub Round-cases :
    (r : Round)
    → ((stack : List (List NginxConfigStatement)) × (last : TokenType) × (r ≡ next stack last))
      ⊎ ((result : ParseResult) × (r ≡ stop result))
Round-cases (next stack last) = inl (stack, last, refl)
Round-cases (stop result) = inr (result, refl)

next-ne-eof :
    (s : ParserState) (v : Bytes) (t : TokenType) (stack : List (List NginxConfigStatement))
    (last : TokenType)
    → on_token s t v ≡ next stack last
    → t ≢ eof
unfolding on_token on_eof
next-ne-eof s v t stack last e = ground arith

pub goes_on :
    (s : ParserState) (input : Bytes) (stack : List (List NginxConfigStatement)) (last : TokenType)
    → on_token s (parse_token input).type (parse_token input).value ≡ next stack last
    → length (parse_token input).rest < length input
goes_on s input stack last e =
    rest-parse_token-lt input
      (next-ne-eof s (parse_token input).value (parse_token input).type stack last e)

-- Two amounts of fuel that are above the length of the stream give the same result.
pub parse_loop_fuel :
    (f g : ℕ) (s : ParserState) (input : Bytes)
    → length input < f
    → length input < g
    → parse_loop f s input ≡ parse_loop g s input
unfolding parse_loop
parse_loop_fuel zero g s input h k = elim h [ ]
parse_loop_fuel (suc f) zero s input h k = elim k [ ]
parse_loop_fuel (suc f) (suc g) s input h k =
    elim (Round-cases (on_token s (parse_token input).type (parse_token input).value)) [
      | inl (stack, last, e) ↦
          let less = goes_on s input stack last e in
          rw (e, round, parse_loop)
            (parse_loop_fuel f g (state stack last) (parse_token input).rest (omega arith)
              (omega arith))
      | inr (result, e) ↦ rw (e, round, parse_loop)
    ]

on_token-ne-out_of_fuel :
    (s : ParserState) (t : TokenType) (v : Bytes) → on_token s t v ≢ stop out_of_fuel
unfolding on_token on_normal on_statement_end on_start_block on_end_block on_eof
on_token-ne-out_of_fuel s t v = ground arith

parse_loop-ne-out_of_fuel :
    (f : ℕ) (s : ParserState) (input : Bytes)
    → length input < f
    → parse_loop f s input ≢ out_of_fuel
unfolding parse_loop
parse_loop-ne-out_of_fuel zero s input h = elim h [ ]
parse_loop-ne-out_of_fuel (suc f) s input h =
    elim (Round-cases (on_token s (parse_token input).type (parse_token input).value)) [
      | inl (stack, last, e) ↦
          let less = goes_on s input stack last e in
          rw (e, round, parse_loop)
            (parse_loop-ne-out_of_fuel f (state stack last) (parse_token input).rest (omega arith))
      | inr (result, e) ↦ rw (e, round, parse_loop) (λ k. on_token-ne-out_of_fuel s _ _ (rw k at e))
    ]

-- The loop of `parse` ends on every stream: the fuel never runs out.
pub parse-ne-out_of_fuel : (input : Bytes) → parse input ≢ out_of_fuel
unfolding parse
parse-ne-out_of_fuel input =
    parse_loop-ne-out_of_fuel (suc (length input)) (state ([] ∷ []) start) input (omega arith)
