-- ===== src/Storage/Real/Names.antt =====
-- The file names that the storage gives: every id has its own.
use creeper_url_shortening_w.Prelude.Decimal.{
  AllDigits, dec, dec-AllDigits, dec-ne-nil, value_of, value_of-dec,
}
use creeper_url_shortening_w.Prelude.Integer.{ℤ, pos, negsuc, int_eq, int_eq_iff}
use creeper_url_shortening_w.Prelude.Stoi.{IsInt, number, stoi, stoi-int_to_string, int_to_string}
use creeper_url_shortening_w.Prelude.Text.{Bytes, str_eq, str_eq_iff}
use creeper_url_shortening_w.Prelude.{
  ℕ, ◌+◌, ◌≡◌, ◌≢◌, refl, sym, ap, ◌∙◌, inl, inr, true, false, ◌&&◌, [], ◌∷◌, ◌==◌, arith, length,
  Bool-cases,
}
use creeper_url_shortening_w.Storage.Disk.{path_eq, is_above, is_plain, is_name}

is_plain-AllDigits : (s : Bytes) → AllDigits s → is_plain s ≡ true
unfolding is_plain
is_plain-AllDigits [] h = refl
is_plain-AllDigits (c ∷ s) (h, h', hs) =
    let slash : c == b'/' ≡ false = ground arith in
    let nul : c == 0 ≡ false = ground arith in rw (slash, nul) (is_plain-AllDigits s hs)

is_name-AllDigits : (s : Bytes) → s ≢ [] → AllDigits s → is_name s ≡ true
unfolding is_name str_eq is_plain
is_name-AllDigits [] some_digit h = absurd (some_digit refl)
is_name-AllDigits (c ∷ s) some_digit (h, h', hs) =
    let dot : c == b'.' ≡ false = ground arith in
    let slash : c == b'/' ≡ false = ground arith in
    let nul : c == 0 ≡ false = ground arith in rw (dot, slash, nul) (is_plain-AllDigits s hs)

pub is_name-int_to_string : (id : ℤ) → is_name (int_to_string id) ≡ true
unfolding int_to_string is_name str_eq is_plain
is_name-int_to_string (pos n) = is_name-AllDigits (dec n) (dec-ne-nil n) (dec-AllDigits n)
is_name-int_to_string (negsuc n) = is_plain-AllDigits (dec (n + 1)) (dec-AllDigits (n + 1))

dec_inj : (m n : ℕ) → dec m ≡ dec n → m ≡ n
dec_inj m n e = sym (value_of-dec m) ∙ ap (value_of 0) e ∙ value_of-dec n

no_sign : (s t : Bytes) → AllDigits s → s ≢ b'-' ∷ t
no_sign [] t h e = cc
no_sign (c ∷ s) t (h, h', hs) e = let same : c ≡ b'-' = cc in omega (arith, same, h)

int_to_string_inj : (a b : ℤ) → int_to_string a ≡ int_to_string b → a ≡ b
unfolding int_to_string
int_to_string_inj (pos m) (pos n) e = ap pos (dec_inj m n e)
int_to_string_inj (pos m) (negsuc n) e = absurd (no_sign (dec m) (dec (n + 1)) (dec-AllDigits m) e)
int_to_string_inj (negsuc m) (pos n) e =
    absurd (no_sign (dec n) (dec (m + 1)) (dec-AllDigits n) (sym e))
int_to_string_inj (negsuc m) (negsuc n) e =
    let same : dec (m + 1) ≡ dec (n + 1) = cc in
    ap negsuc (omega (arith, dec_inj (m + 1) (n + 1) same))

str_eq-int_to_string : (a b : ℤ) → str_eq (int_to_string a) (int_to_string b) ≡ int_eq a b
str_eq-int_to_string a b = elim (Bool-cases (int_eq a b)) [
  | inl e ↦
      (str_eq_iff (int_to_string a) (int_to_string b)).1 (ap int_to_string ((int_eq_iff a b).0 e))
      ∙ sym e
  | inr e ↦ elim (Bool-cases (str_eq (int_to_string a) (int_to_string b))) [
    | inl f ↦
        let same : a ≡ b =
          int_to_string_inj a b ((str_eq_iff (int_to_string a) (int_to_string b)).0 f) in
        cc ((int_eq_iff a b).1 same)
    | inr f ↦ f ∙ sym e
  ]
]

-- Whether two names of the resources' directories are the same path.
pub path_eq_names : (a b s t : Bytes) → path_eq (a ∷ s ∷ []) (b ∷ t ∷ []) ≡ str_eq a b && str_eq s t
unfolding path_eq
path_eq_names a b s t = elim (Bool-cases (str_eq s t)) [ inl e ↦ rw e refl | inr e ↦ rw e refl ]

pub is_above_names : (a b t : Bytes) → is_above (a ∷ t ∷ []) (b ∷ []) ≡ false
unfolding is_above
is_above_names a b t = elim (Bool-cases (str_eq a b)) [ inl e ↦ rw e refl | inr e ↦ rw e refl ]

pub path_eq-int_to_string :
    (a b : Bytes) (id k : ℤ)
    → path_eq (a ∷ int_to_string id ∷ []) (b ∷ int_to_string k ∷ []) ≡ str_eq a b && int_eq id k
path_eq-int_to_string a b id k =
    path_eq_names a b (int_to_string id) (int_to_string k)
    ∙ ap (λ x. str_eq a b && x) (str_eq-int_to_string id k)

-- The number of an id's file name is the id, and only its own name has it.
pub stoi_names :
    (id v : ℤ) (i : ℕ)
    → IsInt id
    → stoi (int_to_string id) ≡ number v i
    → int_to_string id ≡ int_to_string v
stoi_names id v i int e =
    let same : number id (length (int_to_string id)) ≡ number v i =
      sym (stoi-int_to_string id int) ∙ e in
    ap int_to_string cc
