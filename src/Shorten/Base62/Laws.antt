-- ===== src/Shorten/Base62/Laws.antt =====
-- The shape of a short code, and which hash values share one.
use creeper_url_shortening_w.Prelude.Text.{Bytes}
use creeper_url_shortening_w.Prelude.{
  ℕ, zero, suc, ◌+◌, ◌/◌, ◌%◌, ◌≤◌, ◌<◌, ◌≡◌, refl, Bool, true, ◌&&◌, ◌||◌, inl, inr, [], ◌∷◌, ◌++◌,
  arith, ltb, leb, ◌==◌, length, length-take, take, Bool-cases,
}
use creeper_url_shortening_w.Shorten.Base62.{base62_char, convert, pad, base62_encode}

pub length-pad-ge : (fuel : ℕ) (s : Bytes) → 6 ≤ fuel + length s → 6 ≤ length (pad fuel s)
unfolding pad
length-pad-ge zero s h = omega arith
length-pad-ge (suc fuel) s h = ground (arith, length-pad-ge fuel (b'0' ∷ s))

-- Every short code has six characters.
pub length-base62_encode : (num : ℕ) → length (base62_encode num) ≡ 6
unfolding base62_encode
length-base62_encode num = omega (
  arith,
  length-take 6 (pad 6 (convert (suc num) num [])),
  length-pad-ge 6 (convert (suc num) num []) (omega arith),
)

abbrev pub All : (ℕ → Bool) → Bytes → Type 0
All p [] = Unit
All p (c ∷ cs) = (p c ≡ true) × All p cs

-- A digit or a letter.
abbrev pub is_base62 : ℕ → Bool
is_base62 c = leb b'0' c && leb c b'9' || leb b'a' c && leb c b'z' || leb b'A' c && leb c b'Z'

-- The test passes at each number under the bound.
unfoldable pub passes_under : (ℕ → Bool) → ℕ → Bool
passes_under test zero = true
passes_under test (suc bound) = passes_under test bound && test bound

pub passes_under_at :
    (test : ℕ → Bool) (bound : ℕ)
    → passes_under test bound ≡ true
    → (i : ℕ) → i < bound
    → test i ≡ true
unfolding passes_under
passes_under_at test zero e i h = elim h [ ]
passes_under_at test (suc bound) e i h =
    let smaller : i < bound → test i ≡ true = passes_under_at test bound (ground arith) i in
    ground arith

base62_table : passes_under (λ i. is_base62 (base62_char i)) 62 ≡ true
unfolding passes_under base62_char
base62_table = refl

base62_char-is_base62 : (n : ℕ) → is_base62 (base62_char (n % 62)) ≡ true
base62_char-is_base62 n =
    passes_under_at (λ i. is_base62 (base62_char i)) 62 base62_table (n % 62) (omega arith)

All-append : (p : ℕ → Bool) (xs ys : Bytes) → All p xs → All p ys → All p (xs ++ ys)
All-append p [] ys h k = k
All-append p (x ∷ xs) ys (a, h) k = (a, All-append p xs ys h k)

All-take : (p : ℕ → Bool) (n : ℕ) (xs : Bytes) → All p xs → All p (take n xs)
All-take p zero xs h = tt
All-take p (suc n) [] h = tt
All-take p (suc n) (x ∷ xs) (a, h) = (a, All-take p n xs h)

convert-All : (fuel num : ℕ) (s : Bytes) → All is_base62 s → All is_base62 (convert fuel num s)
unfolding convert
convert-All zero num s h = h
convert-All (suc fuel) num s h = elim (Bool-cases (num == 0)) [
  | inl e ↦ rw e h
  | inr e ↦ rw e (
      convert-All fuel (num / 62) (s ++ base62_char (num % 62) ∷ [])
        (All-append is_base62 s _ h (base62_char-is_base62 num, tt)))
]

pad-All : (fuel : ℕ) (s : Bytes) → All is_base62 s → All is_base62 (pad fuel s)
unfolding pad
pad-All zero s h = h
pad-All (suc fuel) s h = elim (Bool-cases (ltb (length s) 6)) [
  | inl e ↦ rw e (pad-All fuel (b'0' ∷ s) (refl, h))
  | inr e ↦ rw e h
]

-- Every character of a short code is a digit or a letter.
pub base62_encode-All : (num : ℕ) → All is_base62 (base62_encode num)
unfolding base62_encode
base62_encode-All num = All-take is_base62 6 _ (pad-All 6 _ (convert-All (suc num) num [] tt))
