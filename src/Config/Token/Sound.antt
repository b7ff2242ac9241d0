-- ===== src/Config/Token/Sound.antt =====
-- Whatever `parse_token` returns as a normal token can be read back.
use creeper_url_shortening_w.Config.Token.{
  normal, TokenParserState, initial_whitespace, single_quote, double_quote, token_type_comment,
  token_type_normal, Action, continue, return, unget, is_blank, ends_word, on_whitespace, on_char,
  scan, at_end, parse_token,
}
use creeper_url_shortening_w.Config.Token.Steps.{
  Action-cases, scan-continue, scan-return, scan-unget,
}
use creeper_url_shortening_w.Config.Token.Words.{
  IsToken, word, single_quoted, double_quoted, Avoids, starts_word,
}
use creeper_url_shortening_w.Prelude.Text.{Bytes}
use creeper_url_shortening_w.Prelude.{
  ℕ, Bool, true, false, ◌||◌, ◌≡◌, ◌≢◌, inl, inr, refl, [], ◌∷◌, ◌++◌, arith, ◌==◌, if◌then◌else◌,
}

Avoids-concat :
    (p : ℕ → Bool) (cs : Bytes) (c : ℕ) → Avoids p cs → p c ≡ false → Avoids p (cs ++ c ∷ [])
Avoids-concat p [] c h e = (e, tt)
Avoids-concat p (d ∷ cs) c (k, h) e = (k, Avoids-concat p cs c h e)

-- What is known of `*value` in each state.
data Partial : TokenParserState → Bytes → Type 0 where
  nothing_yet : {v : Bytes} → v ≡ [] → Partial initial_whitespace v
  in_single :
      {v : Bytes} (cs : Bytes)
      → v ≡ b'\'' ∷ cs
      → Avoids (λ c. c == b'\'') cs
      → Partial single_quote v
  in_double :
      {v : Bytes} (cs : Bytes) → v ≡ b'"' ∷ cs → Avoids (λ c. c == b'"') cs → Partial double_quote v
  in_comment : {v : Bytes} → Partial token_type_comment v
  in_word :
      {v : Bytes} (c : ℕ) (cs : Bytes)
      → v ≡ c ∷ cs
      → starts_word c ≡ true
      → Avoids ends_word cs
      → Partial token_type_normal v

abbrev Allowed : Action → Type 0
Allowed (continue s v) = Partial s v
Allowed (return t v) = t ≡ normal → IsToken v
Allowed (unget v) = IsToken v

if_elim {ℓ} :
    {A : Type 0} (P : A → Type ℓ) (b : Bool) (x y : A)
    → (b ≡ true → P x)
    → (b ≡ false → P y)
    → P (if b then x else y)
if_elim P true x y f g = f refl
if_elim P false x y f g = g refl

on_whitespace-Allowed : (c : ℕ) → Allowed (on_whitespace [] c)
unfolding on_whitespace
on_whitespace-Allowed c =
    if_elim Allowed (c == b'{') _ _ (λ _ e. cc)
      λ h1.
        if_elim Allowed (c == b'}') _ _ (λ _ e. cc)
          λ h2.
            if_elim Allowed (c == b'#') _ _ (λ _. in_comment)
              λ h3.
                if_elim Allowed (c == b'"') _ _ (λ h. in_double [] (ground arith) tt)
                  λ h4.
                    if_elim Allowed (c == b'\'') _ _ (λ h. in_single [] (ground arith) tt)
                      λ h5.
                        if_elim Allowed (c == b';') _ _ (λ _ e. cc)
                          λ h6.
                            if_elim Allowed (is_blank c) _ _ (λ _. nothing_yet refl)
                              λ h7. in_word c [] refl (unfold is_blank in ground arith) tt

on_char-Allowed : (s : TokenParserState) (v : Bytes) (c : ℕ) → Partial s v → Allowed (on_char s v c)
unfolding on_char
on_char-Allowed _ v c (nothing_yet e) = rw e (on_whitespace-Allowed c)
on_char-Allowed _ v c (in_single cs e a) =
    if_elim Allowed (c == b'\'') _ _ (λ h _. single_quoted cs (rw e (ground arith)) a)
      λ h. in_single (cs ++ c ∷ []) (rw e) (Avoids-concat _ cs c a h)
on_char-Allowed _ v c (in_double cs e a) =
    if_elim Allowed (c == b'"') _ _ (λ h _. double_quoted cs (rw e (ground arith)) a)
      λ h. in_double (cs ++ c ∷ []) (rw e) (Avoids-concat _ cs c a h)
on_char-Allowed _ v c in_comment =
    if_elim Allowed (c == b'\n' || c == b'\r') _ _ (λ h e. cc) λ h. in_comment
on_char-Allowed _ v c (in_word d cs e h a) =
    if_elim Allowed (ends_word c) _ _ (λ _. rw e (word h a))
      λ k. in_word d (cs ++ c ∷ []) (rw e) h (Avoids-concat ends_word cs c a k)

at_end-ne-normal : (s : TokenParserState) → at_end s ≢ normal
unfolding at_end
at_end-ne-normal initial_whitespace = cc
at_end-ne-normal _ = cc

scan-IsToken :
    (s : TokenParserState) (v input : Bytes)
    → Partial s v
    → (scan s v input).type ≡ normal
    → IsToken (scan s v input).value
scan-IsToken s v [] p e = absurd (at_end-ne-normal s (unfold scan in e))
scan-IsToken s v (c ∷ input) p e = elim (Action-cases (on_char s v c)) [
  | inl (s', v', a) ↦
      let same = scan-continue s v c input s' v' a in
      rw same (scan-IsToken s' v' input (rw a at (on_char-Allowed s v c p)) (rw same at e))
  | inr (inl (t, v', a)) ↦
      let same = scan-return s v c input t v' a in
      let allowed : Allowed (return t v') = rw a at (on_char-Allowed s v c p) in
      rw same (allowed (rw same at e))
  | inr (inr (v', a)) ↦ rw (scan-unget s v c input v' a) (rw a at (on_char-Allowed s v c p))
]

-- A normal token is a word or a quoted text that can be read back.
pub parse_token_sound :
    (input : Bytes) → (parse_token input).type ≡ normal → IsToken (parse_token input).value
unfolding parse_token
parse_token_sound input e = scan-IsToken initial_whitespace [] input (nothing_yet refl) e
