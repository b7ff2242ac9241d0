-- ===== src/Prelude/Integer.antt =====
-- The integers over the native numbers, for `int`: `pos n` is n and `negsuc n` is -(n + 1).
use creeper_url_shortening_w.Prelude.{ℕ, ◌≡◌, refl, ◌↔◌, Bool, true, false, arith, ◌==◌, ltb}

pub data ℤ : Type 0 where
  pos negsuc : ℕ → ℤ

-- `a == b`
unfoldable pub int_eq : ℤ → ℤ → Bool
int_eq (pos m) (pos n) = m == n
int_eq (negsuc m) (negsuc n) = m == n
int_eq _ _ = false

-- `a < b`
unfoldable pub int_lt : ℤ → ℤ → Bool
int_lt (pos m) (pos n) = ltb m n
int_lt (pos m) (negsuc n) = false
int_lt (negsuc m) (pos n) = true
int_lt (negsuc m) (negsuc n) = ltb n m

pub int_eq_iff : (a b : ℤ) → (int_eq a b ≡ true) ↔ (a ≡ b)
unfolding int_eq
int_eq_iff (pos m) (pos n) = ground arith
int_eq_iff (negsuc m) (negsuc n) = ground arith
int_eq_iff (pos m) (negsuc n) = ground arith
int_eq_iff (negsuc m) (pos n) = ground arith

pub int_lt_trans : (a b c : ℤ) → int_lt a b ≡ true → int_lt b c ≡ true → int_lt a c ≡ true
unfolding int_lt
int_lt_trans (pos a) (pos b) (pos c) h k = ground arith
int_lt_trans (pos a) (pos b) (negsuc c) h k = ground arith
int_lt_trans (pos a) (negsuc b) c h k = ground arith
int_lt_trans (negsuc a) b (pos c) h k = refl
int_lt_trans (negsuc a) (pos b) (negsuc c) h k = ground arith
int_lt_trans (negsuc a) (negsuc b) (negsuc c) h k = ground arith

pub int_lt_total : (a b : ℤ) → int_eq a b ≡ false → int_lt a b ≡ false → int_lt b a ≡ true
unfolding int_eq int_lt
int_lt_total (pos a) (pos b) h k = ground arith
int_lt_total (pos a) (negsuc b) h k = refl
int_lt_total (negsuc a) (pos b) h k = ground arith
int_lt_total (negsuc a) (negsuc b) h k = ground arith
