-- ===== src/Prelude/Text.antt =====
-- `std::string` as the list of its bytes, and the operations on it that several parts use.
use Prim.Native.Char.{code}
use Prim.Native.String.{String}
use creeper_url_shortening_w.Prelude.{
  ℕ, ◌≡◌, refl, ◌↔◌, Bool, true, false, ◌&&◌, List, [], ◌∷◌, arith, ◌==◌,
}

abbrev pub Bytes : Type 0
Bytes = List ℕ

-- A text literal; every literal of the source that is used here is ASCII.
abbrev pub codes : String → Bytes
codes String.[] = []
codes (String.◌∷◌ c s) = code c ∷ codes s

-- `a == b` on strings
unfoldable pub str_eq : Bytes → Bytes → Bool
str_eq [] [] = true
str_eq (x ∷ xs) (y ∷ ys) = x == y && str_eq xs ys
str_eq _ _ = false

pub str_eq_iff : (a b : Bytes) → (str_eq a b ≡ true) ↔ (a ≡ b)
unfolding str_eq
str_eq_iff (x ∷ a) (y ∷ b) = ground (arith, str_eq_iff a b)
str_eq_iff _ _ = ground arith

pub str_eq_refl : (a : Bytes) → str_eq a a ≡ true
str_eq_refl a = (str_eq_iff a a).1 refl

-- `s.front() == c`, false on the empty string (where the source never asks)
unfoldable pub front_is : ℕ → Bytes → Bool
front_is b [] = false
front_is b (c ∷ s) = c == b

-- `s.back() == c`
unfoldable pub back_is : ℕ → Bytes → Bool
back_is b [] = false
back_is b (c ∷ []) = c == b
back_is b (c ∷ d ∷ s) = back_is b (d ∷ s)

-- `p` is a prefix of `s`
unfoldable pub is_prefix : Bytes → Bytes → Bool
is_prefix [] s = true
is_prefix (x ∷ p) [] = false
is_prefix (x ∷ p) (y ∷ s) = x == y && is_prefix p s
