-- ===== src/Prelude/Stoi.antt =====
-- `std::stoi` in base 10 and `std::to_string` on an `int`, which has 32 bits.
use creeper_url_shortening_w.Prelude.Decimal.{
  dec, AllDigits, dec-AllDigits, value_of, value_of-dec, dec-ne-nil,
}
use creeper_url_shortening_w.Prelude.Integer.{ℤ, pos, negsuc}
use creeper_url_shortening_w.Prelude.Text.{Bytes, codes}
use creeper_url_shortening_w.Prelude.{
  ℕ, zero, suc, ◌+◌, ◌-◌, ◌*◌, ◌≤◌, ◌≡◌, ◌≢◌, refl, sym, ap, subst, ◌∙◌, Bool, true, false, ◌&&◌,
  ◌||◌, [], ◌∷◌, ◌==◌, arith, leb, length, if◌then◌else◌, inl, inr, Bool-cases,
}

abbrev pub int_max : ℕ
int_max = 2147483647

-- The values of an `int`.
abbrev pub IsInt : ℤ → Type 0
IsInt (pos n) = n ≤ int_max
IsInt (negsuc n) = n ≤ int_max

unfoldable pub int_to_string : ℤ → Bytes
int_to_string (pos n) = dec n
int_to_string (negsuc n) = b'-' ∷ dec (n + 1)

-- What a call does: it returns a number and sets `idx`, or throws.
pub data Stoi : Type 0 where
  number : ℤ → ℕ → Stoi
  invalid_argument out_of_range : Stoi

-- `std::isspace` in the C locale
abbrev is_space : ℕ → Bool
is_space c = c == b' ' || leb 9 c && leb c 13

abbrev is_digit : ℕ → Bool
is_digit c = leb b'0' c && leb c b'9'

unfoldable pub skip_spaces : Bytes → Bytes
skip_spaces [] = []
skip_spaces (c ∷ s) = let rest = skip_spaces s in if is_space c then rest else c ∷ s

-- The digits at the front, as a number behind `acc`, and what follows.
unfoldable pub read_digits : ℕ → Bytes → ℕ × Bytes
read_digits acc [] = (acc, [])
read_digits acc (c ∷ s) =
    let rest = read_digits (acc * 10 + (c - b'0')) s in if is_digit c then rest else (acc, c ∷ s)

abbrev signed : Bool → ℕ → ℕ → Stoi
signed false n idx = if leb n int_max then number (pos n) idx else out_of_range
signed true zero idx = number (pos 0) idx
signed true (suc n) idx = if leb n int_max then number (negsuc n) idx else out_of_range

-- The digits behind the sign; `size` is the length of the whole text.
unfoldable pub unsigned : Bool → ℕ → Bytes → Stoi
unfolding read_digits
unsigned negative size [] = invalid_argument
unsigned negative size (c ∷ s) =
    if is_digit c
    then signed negative (read_digits 0 (c ∷ s)).0 (size - length (read_digits 0 (c ∷ s)).1)
    else invalid_argument

unfoldable pub behind_spaces : ℕ → Bytes → Stoi
unfolding unsigned
behind_spaces size [] = invalid_argument
behind_spaces size (c ∷ s) =
    if c == b'-'
    then unsigned true size s
    else if c == b'+'
    then unsigned false size s
    else unsigned false size (c ∷ s)

unfoldable pub stoi : Bytes → Stoi
unfolding skip_spaces behind_spaces
stoi s = behind_spaces (length s) (skip_spaces s)

stoi_runs :
    (stoi (codes " +12a") ≡ number (pos 12) 4)
    × (stoi (codes "-0") ≡ number (pos 0) 2)
    × (stoi (codes "2147483648") ≡ out_of_range)
    × (stoi (codes "-2147483648") ≡ number (negsuc 2147483647) 11)
    × (stoi (codes "-") ≡ invalid_argument)
unfolding stoi
stoi_runs = (refl, refl, refl, refl, refl)

read_digits-AllDigits :
    (acc : ℕ) (s : Bytes) → AllDigits s → read_digits acc s ≡ (value_of acc s, [])
unfolding read_digits value_of
read_digits-AllDigits acc [] h = refl
read_digits-AllDigits acc (c ∷ s) (h, h', hs) =
    let digit : is_digit c ≡ true = ground arith in
    rw digit (read_digits-AllDigits (acc * 10 + (c - b'0')) s hs)

if-true {ℓ} : {A : Type ℓ} (b : Bool) (x y : A) → b ≡ true → (if b then x else y) ≡ x
if-true b x y e = rw e refl

unsigned-AllDigits :
    (negative : Bool) (size : ℕ) (s : Bytes)
    → s ≢ []
    → AllDigits s
    → unsigned negative size s ≡ signed negative (value_of 0 s) size
unfolding unsigned
unsigned-AllDigits negative size [] some_digit h = absurd (some_digit refl)
unsigned-AllDigits negative size (c ∷ s) some_digit (h, h', hs) =
    let digit : is_digit c ≡ true = ground arith in
    if-true (is_digit c)
      (signed negative (read_digits 0 (c ∷ s)).0 (size - length (read_digits 0 (c ∷ s)).1))
      invalid_argument digit
    ∙ ap (λ (r : ℕ × Bytes). signed negative r.0 (size - length r.1))
        (read_digits-AllDigits 0 (c ∷ s) (h, h', hs))
    ∙ ap (signed negative (value_of 0 (c ∷ s))) (omega arith)

-- Digits are no spaces and no sign.
stoi-AllDigits :
    (s : Bytes) → s ≢ [] → AllDigits s → stoi s ≡ signed false (value_of 0 s) (length s)
unfolding stoi skip_spaces behind_spaces
stoi-AllDigits [] some_digit h = absurd (some_digit refl)
stoi-AllDigits (c ∷ s) some_digit (h, h', hs) =
    let blank : is_space c ≡ false = ground arith in
    let minus : c == b'-' ≡ false = ground arith in
    let plus : c == b'+' ≡ false = ground arith in
    rw (blank, minus, plus)
      (unsigned-AllDigits false (length (c ∷ s)) (c ∷ s) some_digit (h, h', hs))

signed-pos : (n idx : ℕ) → n ≤ int_max → signed false n idx ≡ number (pos n) idx
signed-pos n idx h = let fits : leb n int_max ≡ true = ground arith in rw fits refl

signed-negsuc : (n idx : ℕ) → n ≤ int_max → signed true (suc n) idx ≡ number (negsuc n) idx
signed-negsuc n idx h = let fits : leb n int_max ≡ true = ground arith in rw fits refl

-- What `std::to_string` writes of an `int`, `std::stoi` reads back, and it reads all of it.
pub stoi-int_to_string :
    (z : ℤ) → IsInt z → stoi (int_to_string z) ≡ number z (length (int_to_string z))
unfolding int_to_string stoi
stoi-int_to_string (pos n) h =
    stoi-AllDigits (dec n) (dec-ne-nil n) (dec-AllDigits n)
    ∙ ap (λ m. signed false m (length (dec n))) (value_of-dec n)
    ∙ signed-pos n (length (dec n)) h
stoi-int_to_string (negsuc n) h =
    let size : ℕ = length (b'-' ∷ dec (n + 1)) in
    let read : value_of 0 (dec (n + 1)) ≡ suc n = omega (arith, value_of-dec (n + 1)) in
    unsigned-AllDigits true size (dec (n + 1)) (dec-ne-nil (n + 1)) (dec-AllDigits (n + 1))
    ∙ ap (λ m. signed true m size) read
    ∙ signed-negsuc n size h

signed-IsInt :
    (negative : Bool) (n idx i : ℕ) (z : ℤ) → signed negative n idx ≡ number z i → IsInt z
signed-IsInt false n idx i z e = elim (Bool-cases (leb n int_max)) [
  | inl fits ↦ let same : pos n ≡ z = cc (rw fits at e) in subst IsInt same (ground arith)
  | inr large ↦ cc (rw large at e)
]
signed-IsInt true zero idx i z e = let same : pos 0 ≡ z = cc in subst IsInt same (omega arith)
signed-IsInt true (suc n) idx i z e = elim (Bool-cases (leb n int_max)) [
  | inl fits ↦ let same : negsuc n ≡ z = cc (rw fits at e) in subst IsInt same (ground arith)
  | inr large ↦ cc (rw large at e)
]

unsigned-IsInt :
    (negative : Bool) (size : ℕ) (s : Bytes) (z : ℤ) (i : ℕ)
    → unsigned negative size s ≡ number z i
    → IsInt z
unfolding unsigned
unsigned-IsInt negative size [] z i e = cc
unsigned-IsInt negative size (c ∷ s) z i e = elim (Bool-cases (is_digit c)) [
  | inl digit ↦
      signed-IsInt negative (read_digits 0 (c ∷ s)).0 (size - length (read_digits 0 (c ∷ s)).1) i z
        (sym (
            if-true (is_digit c)
              (signed negative (read_digits 0 (c ∷ s)).0 (size - length (read_digits 0 (c ∷ s)).1))
              invalid_argument digit)
          ∙ e)
  | inr other ↦ cc (rw other at e)
]

behind_spaces-IsInt :
    (size : ℕ) (s : Bytes) (z : ℤ) (i : ℕ) → behind_spaces size s ≡ number z i → IsInt z
unfolding behind_spaces
behind_spaces-IsInt size [] z i e = cc
behind_spaces-IsInt size (c ∷ s) z i e = elim (Bool-cases (c == b'-')) [
  | inl minus ↦ unsigned-IsInt true size s z i (rw (behind_spaces, minus) at e)
  | inr no_minus ↦ elim (Bool-cases (c == b'+')) [
    | inl plus ↦ unsigned-IsInt false size s z i (rw (behind_spaces, no_minus, plus) at e)
    | inr no_plus ↦
        unsigned-IsInt false size (c ∷ s) z i (rw (behind_spaces, no_minus, no_plus) at e)
  ]
]

-- What `std::stoi` returns is an `int`.
pub stoi-IsInt : (s : Bytes) (z : ℤ) (i : ℕ) → stoi s ≡ number z i → IsInt z
unfolding stoi
stoi-IsInt s z i e = behind_spaces-IsInt (length s) (skip_spaces s) z i e
