-- ===== src/Config/Token/Steps.antt =====
-- One round of the loop of `parse_token`, as equations.
use creeper_url_shortening_w.Config.Token.{
  TokenType, normal, eof, TokenParserState, initial_whitespace, Token, Action, continue, return,
  unget, on_whitespace, on_char, scan, parse_token,
}
use creeper_url_shortening_w.Prelude.Text.{Bytes}
use creeper_url_shortening_w.Prelude.{
  ℕ, ◌≤◌, ◌<◌, ◌≡◌, ◌≢◌, ◌⊎◌, inl, inr, refl, [], ◌∷◌, arith, length,
}

abbrev pub token : TokenType → Bytes → Bytes → Token
token type value rest = record { type = type; value = value; rest = rest }

module _ (s : TokenParserState) (v : Bytes) (c : ℕ) (input : Bytes) where
  pub scan-continue :
      (s' : TokenParserState) (v' : Bytes)
      → on_char s v c ≡ continue s' v'
      → scan s v (c ∷ input) ≡ scan s' v' input
  unfolding scan
  scan-continue s' v' e = rw (e, scan)

  pub scan-return :
      (t : TokenType) (v' : Bytes)
      → on_char s v c ≡ return t v'
      → scan s v (c ∷ input) ≡ token t v' input
  unfolding scan
  scan-return t v' e = rw (e, scan)

  pub scan-unget :
      (v' : Bytes) → on_char s v c ≡ unget v' → scan s v (c ∷ input) ≡ token normal v' (c ∷ input)
  unfolding scan
  scan-unget v' e = rw (e, scan)

pub Action-cases :
    (a : Action)
    → ((s : TokenParserState) × (v : Bytes) × (a ≡ continue s v))
      ⊎ ((t : TokenType) × (v : Bytes) × (a ≡ return t v))
      ⊎ ((v : Bytes) × (a ≡ unget v))
Action-cases (continue s v) = inl (s, v, refl)
Action-cases (return t v) = inr (inl (t, v, refl))
Action-cases (unget v) = inr (inr (v, refl))

-- The stream never grows.
pub rest-scan-le :
    (s : TokenParserState) (value input : Bytes) → length (scan s value input).rest ≤ length input
unfolding scan
rest-scan-le s value [] = omega arith
rest-scan-le s value (c ∷ input) = elim (Action-cases (on_char s value c)) [
  | inl (s', v', e) ↦
      rw (scan-continue s value c input s' v' e) (omega (arith, rest-scan-le s' v' input))
  | inr (inl (t, v', e)) ↦ rw (scan-return s value c input t v' e) (omega arith)
  | inr (inr (v', e)) ↦ rw (scan-unget s value c input v' e) (omega arith)
]

on_whitespace-ne-unget : (v v' : Bytes) (c : ℕ) → on_whitespace v c ≢ unget v'
unfolding on_whitespace
on_whitespace-ne-unget v v' c = ground arith

on_char-initial : (v v' : Bytes) (c : ℕ) → on_char initial_whitespace v c ≢ unget v'
unfolding on_char
on_char-initial v v' c = on_whitespace-ne-unget v v' c

scan-initial-lt :
    (v input : Bytes)
    → (scan initial_whitespace v input).type ≢ eof
    → length (scan initial_whitespace v input).rest < length input
scan-initial-lt v [] h = absurd (h (unfold scan in refl))
scan-initial-lt v (c ∷ input) h = elim (Action-cases (on_char initial_whitespace v c)) [
  | inl (s', v', e) ↦
      rw (scan-continue initial_whitespace v c input s' v' e)
        (omega (arith, rest-scan-le s' v' input))
  | inr (inl (t, v', e)) ↦ rw (scan-return initial_whitespace v c input t v' e) (omega arith)
  | inr (inr (v', e)) ↦ absurd (on_char-initial v v' c e)
]

-- A call of `parse_token` that finds a token takes a byte from the stream.
pub rest-parse_token-lt :
    (input : Bytes)
    → (parse_token input).type ≢ eof
    → length (parse_token input).rest < length input
unfolding parse_token
rest-parse_token-lt input h = scan-initial-lt [] input h
