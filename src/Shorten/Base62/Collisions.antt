-- ===== src/Shorten/Base62/Collisions.antt =====
-- The digits of a short code, and which hash values share one.
use mathlib.Core.Path.{ap₂}
use creeper_url_shortening_w.Prelude.Text.{Bytes}
use creeper_url_shortening_w.Prelude.{
  ℕ, Bool, zero, suc, ◌+◌, ◌*◌, ◌/◌, ◌%◌, ◌^◌, ◌≤◌, ◌<◌, ◌≡◌, refl, sym, ap, ◌∙◌, ◌↔◌, true, false,
  not, ◌||◌, inl, inr, [], ◌∷◌, ◌++◌, arith, ltb, ◌==◌, length, take, Bool-cases, append_assoc,
  append-nil,
}
use creeper_url_shortening_w.Shorten.Base62.{base62_char, convert, pad, base62_encode}
use creeper_url_shortening_w.Shorten.Base62.Laws.{passes_under, passes_under_at}

-- The `k` least significant digits of `n` in base 62, least significant first.
abbrev pub low_digits : ℕ → ℕ → Bytes
low_digits zero n = []
low_digits (suc k) n = base62_char (n % 62) ∷ low_digits k (n / 62)

-- `n` has at least `k` digits.
abbrev HasDigits : ℕ → ℕ → Type 0
HasDigits zero n = Unit
HasDigits (suc k) n = (0 < n) × HasDigits k (n / 62)

convert_appends : (fuel num : ℕ) (s : Bytes) → (tail : Bytes) × (convert fuel num s ≡ s ++ tail)
unfolding convert
convert_appends zero num s = ([], sym (append-nil s))
convert_appends (suc fuel) num s = elim (Bool-cases (num == 0)) [
  | inl e ↦ ([], rw e (sym (append-nil s)))
  | inr e ↦
      let (tail, same) = convert_appends fuel (num / 62) (s ++ base62_char (num % 62) ∷ []) in
      (
        base62_char (num % 62) ∷ tail,
        rw e (same ∙ append_assoc s (base62_char (num % 62) ∷ []) tail),
      )
]

convert-low_digits :
    (k fuel num : ℕ) (s : Bytes)
    → k ≤ fuel
    → HasDigits k num
    → (tail : Bytes) × (convert fuel num s ≡ s ++ (low_digits k num ++ tail))
unfolding convert
convert-low_digits zero fuel num s h d = convert_appends fuel num s
convert-low_digits (suc k) zero num s h d = absurd (omega arith)
convert-low_digits (suc k) (suc fuel) num s h (pos, d) =
    let (tail, same) =
      convert-low_digits k fuel (num / 62) (s ++ base62_char (num % 62) ∷ []) (omega arith) d in
    let e : (num == 0) ≡ false = ground arith in
    (
      tail,
      rw e (same ∙ append_assoc s (base62_char (num % 62) ∷ []) (low_digits k (num / 62) ++ tail)),
    )

length-low_digits : (k n : ℕ) → length (low_digits k n) ≡ k
length-low_digits zero n = refl
length-low_digits (suc k) n = ap suc (length-low_digits k (n / 62))

pad_long : (fuel : ℕ) (s : Bytes) → 6 ≤ length s → pad fuel s ≡ s
unfolding pad
pad_long zero s h = refl
pad_long (suc fuel) s h = let e : ltb (length s) 6 ≡ false = ground arith in rw e

-- A hash value of six digits or more gets its six least significant digits, the least first.
pub base62_encode-low_digits : (num : ℕ) → 62 ^ 5 ≤ num → base62_encode num ≡ low_digits 6 num
unfolding base62_encode
base62_encode-low_digits num h =
    let d : HasDigits 6 num = omega arith in
    let (tail, same) = convert-low_digits 6 (suc num) num [] (omega arith) d in
    ap (λ s. take 6 (pad 6 s)) same
    ∙ ap (take 6) (pad_long 6 (low_digits 6 num ++ tail) (omega arith))

abbrev differs_from : ℕ → ℕ → Bool
differs_from i j = not (base62_char i == base62_char j) || i == j

char_table : passes_under (λ i. passes_under (differs_from i) 62) 62 ≡ true
unfolding passes_under base62_char
char_table = refl

base62_char-injective : (i j : ℕ) → i < 62 → j < 62 → base62_char i ≡ base62_char j → i ≡ j
base62_char-injective i j h k e =
    let row = passes_under_at (λ i. passes_under (differs_from i) 62) 62 char_table i h in
    let cell = passes_under_at (differs_from i) 62 row j k in ground arith

-- The same first character, and the same rest.
cons-injective : (a b : ℕ) (s t : Bytes) → a ∷ s ≡ b ∷ t → (a ≡ b) × (s ≡ t)
cons-injective a b s t e = (cc, cc)

low_digits-injective :
    (k n m : ℕ)
    → low_digits (suc k) n ≡ low_digits (suc k) m
    → (n % 62 ≡ m % 62) × (low_digits k (n / 62) ≡ low_digits k (m / 62))
low_digits-injective k n m e =
    let (c, rest) = cons-injective _ _ _ _ e in
    (base62_char-injective (n % 62) (m % 62) (omega arith) (omega arith) c, rest)

-- The number that the `k` least significant digits of `n` stand for.
abbrev low_value : ℕ → ℕ → ℕ
low_value zero n = 0
low_value (suc k) n = n % 62 + 62 * low_value k (n / 62)

low_value_of_digits : (k n m : ℕ) → low_digits k n ≡ low_digits k m → low_value k n ≡ low_value k m
low_value_of_digits zero n m e = refl
low_value_of_digits (suc k) n m e =
    let (c, rest) = low_digits-injective k n m e in
    omega (arith, c, low_value_of_digits k (n / 62) (m / 62) rest)

digits_of_low_value : (k n m : ℕ) → low_value k n ≡ low_value k m → low_digits k n ≡ low_digits k m
digits_of_low_value zero n m e = refl
digits_of_low_value (suc k) n m e =
    let c : n % 62 ≡ m % 62 = omega arith in
    let rest : low_value k (n / 62) ≡ low_value k (m / 62) = omega arith in
    ap₂ (λ (d : ℕ) s. base62_char d ∷ s) c (digits_of_low_value k (n / 62) (m / 62) rest)

low_value-mod : (n : ℕ) → low_value 6 n ≡ n % 62 ^ 6
low_value-mod n = omega arith

-- Two hash values of six digits or more have the same code exactly when they are equal modulo 62⁶.
pub base62_encode-eq_iff :
    (n m : ℕ)
    → 62 ^ 5 ≤ n
    → 62 ^ 5 ≤ m
    → (base62_encode n ≡ base62_encode m) ↔ (n % 62 ^ 6 ≡ m % 62 ^ 6)
base62_encode-eq_iff n m h k =
    let en = base62_encode-low_digits n h in
    let em = base62_encode-low_digits m k in
    (
      λ e. sym (low_value-mod n) ∙ low_value_of_digits 6 n m (sym en ∙ e ∙ em) ∙ low_value-mod m,
      λ e. en ∙ digits_of_low_value 6 n m (low_value-mod n ∙ e ∙ sym (low_value-mod m)) ∙ sym em,
    )
