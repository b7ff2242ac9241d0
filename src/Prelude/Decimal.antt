-- ===== src/Prelude/Decimal.antt =====
-- `std::to_string` on numbers that are not negative.
use creeper_url_shortening_w.Prelude.Text.{Bytes, codes}
use creeper_url_shortening_w.Prelude.{
  ℕ, zero, suc, ◌+◌, ◌/◌, ◌%◌, ◌≡◌, refl, [], ◌∷◌, ◌++◌, ltb, if◌then◌else◌, ◌≤◌, ◌<◌, ◌*◌, ◌-◌,
  arith, ◌∙◌, ◌≢◌, inl, inr, Bool-cases,
}

-- The digits of `n`, the most significant first; the fuel `n + 1` is enough.
digits : ℕ → ℕ → Bytes
digits zero n = []
digits (suc f) n =
    let rest = digits f (n / 10) in
    if ltb n 10 then (b'0' + n) ∷ [] else rest ++ (b'0' + n % 10) ∷ []

unfoldable pub dec : ℕ → Bytes
unfolding digits
dec n = digits (suc n) n

dec-204 : dec 204 ≡ codes "204"
unfolding dec
dec-204 = refl

-- A numeral has only digits.
abbrev pub AllDigits : Bytes → Type 0
AllDigits [] = Unit
AllDigits (c ∷ s) = (b'0' ≤ c) × (c ≤ b'9') × AllDigits s

digits_append : (a b : Bytes) → AllDigits a → AllDigits b → AllDigits (a ++ b)
digits_append [] b h k = k
digits_append (c ∷ a) b (h, h', hs) k = (h, h', digits_append a b hs k)

digits-AllDigits : (f n : ℕ) → AllDigits (digits f n)
unfolding digits
digits-AllDigits zero n = tt
digits-AllDigits (suc f) n = elim (Bool-cases (ltb n 10)) [
  | inl e ↦ rw e (omega arith, ground arith, tt)
  | inr e ↦ rw e (
      digits_append (digits f (n / 10)) ((b'0' + n % 10) ∷ []) (digits-AllDigits f (n / 10))
        (omega arith, omega arith, tt))
]

pub dec-AllDigits : (n : ℕ) → AllDigits (dec n)
unfolding dec
dec-AllDigits n = digits-AllDigits (suc n) n

-- `acc` and the digits behind it, read as a number.
unfoldable pub value_of : ℕ → Bytes → ℕ
value_of acc [] = acc
value_of acc (c ∷ s) = value_of (acc * 10 + (c - b'0')) s

value_of-append : (acc : ℕ) (a b : Bytes) → value_of acc (a ++ b) ≡ value_of (value_of acc a) b
unfolding value_of
value_of-append acc [] b = refl
value_of-append acc (c ∷ a) b = value_of-append (acc * 10 + (c - b'0')) a b

value_of-digits : (f n : ℕ) → n < f → value_of 0 (digits f n) ≡ n
unfolding digits value_of
value_of-digits zero n h = absurd (omega arith)
value_of-digits (suc f) n h = elim (Bool-cases (ltb n 10)) [
  | inl e ↦ rw e (omega arith)
  | inr e ↦
      let big : 10 ≤ n = ground arith in
      rw e (
        value_of-append 0 (digits f (n / 10)) ((b'0' + n % 10) ∷ [])
        ∙ omega (arith, value_of-digits f (n / 10) (omega (arith, big, h))))
]

pub value_of-dec : (n : ℕ) → value_of 0 (dec n) ≡ n
unfolding dec
value_of-dec n = value_of-digits (suc n) n (omega arith)

append-ne-nil : (a : Bytes) (c : ℕ) → a ++ c ∷ [] ≢ []
append-ne-nil [] c e = cc
append-ne-nil (x ∷ a) c e = cc

pub dec-ne-nil : (n : ℕ) → dec n ≢ []
unfolding dec digits
dec-ne-nil n = elim (Bool-cases (ltb n 10)) [
  | inl e ↦ rw e (λ f. cc f)
  | inr e ↦ rw e (append-ne-nil (digits n (n / 10)) (b'0' + n % 10))
]
