-- ===== src/Dispatcher/LongestPrefix.antt =====
-- `longest_prefix_match` finds the longest route that is a prefix of the URL, in whatever order it
-- walks the map.
use creeper_url_shortening_w.Prelude.Assoc.{Assoc, lookup}
use creeper_url_shortening_w.Prelude.Text.{Bytes, str_eq, str_eq_iff}
use creeper_url_shortening_w.Prelude.{
  ◌≤◌, ◌<◌, true, false, ◌≡◌, refl, sym, ap, ◌∙◌, ◌⊎◌, inl, inr, [], ◌∷◌, arith, ltb, length, take,
  Bool-cases, some,
}
use creeper_url_shortening_w.Dispatcher.{starts_with, improves, match_from, longest_prefix_match}

improves_cases :
    (url before k : Bytes)
    → ((improves url (length before) k ≡ true)
        × (starts_with url k ≡ true)
        × (length before < length k))
      ⊎ ((improves url (length before) k ≡ false)
          × (starts_with url k ≡ true → length k ≤ length before))
unfolding improves
improves_cases url before k = elim (Bool-cases (starts_with url k)) [
  | inl e ↦ elim (Bool-cases (ltb (length before) (length k))) [
    | inl f ↦ inl (rw e f, e, ground arith)
    | inr f ↦ inr (rw e f, λ _. ground arith)
  ]
  | inr e ↦ inr (rw e refl, λ f. cc)
]

pub starts_with_same :
    (url r q : Bytes)
    → starts_with url r ≡ true
    → starts_with url q ≡ true
    → length r ≡ length q
    → r ≡ q
unfolding starts_with
starts_with_same url r q h k e =
    sym ((str_eq_iff _ r).0 h) ∙ ap (λ n. take n url) e ∙ (str_eq_iff _ q).0 k

pub empty_of_length : (r : Bytes) → length r ≤ 0 → r ≡ []
empty_of_length [] h = refl
empty_of_length (c ∷ r) h = absurd (omega arith)

module _ {V : Type 0} where
  -- `k` is the path of a route.
  abbrev pub HasKey : Bytes → Assoc V → Type 0
  HasKey k [] = ⊥
  HasKey k ((j, v) ∷ m) = (k ≡ j) ⊎ HasKey k m

  pub lookup-HasKey : (k : Bytes) (m : Assoc V) → HasKey k m → (v : V) × (lookup k m ≡ some v)
  unfolding lookup
  lookup-HasKey k [] h = absurd h
  lookup-HasKey k ((j, w) ∷ m) h = elim (Bool-cases (str_eq j k)) [
    | inl e ↦ rw e (w, refl)
    | inr e ↦ elim h [
      | inl same ↦ absurd (ground (arith, e, sym same, str_eq_iff j k))
      | inr later ↦ let (v, at) = lookup-HasKey k m later in rw e (v, at)
    ]
  ]

  pub HasKey_of_lookup : (k : Bytes) (m : Assoc V) (v : V) → lookup k m ≡ some v → HasKey k m
  unfolding lookup
  HasKey_of_lookup k [] v e = cc
  HasKey_of_lookup k ((j, w) ∷ m) v e = elim (Bool-cases (str_eq j k)) [
    | inl f ↦ inl (sym ((str_eq_iff j k).0 f))
    | inr f ↦ inr (HasKey_of_lookup k m v (rw f at e))
  ]

  -- `r` is empty or a route that is a prefix of the URL, and no such route is longer.
  pub record IsLongest (routes : Assoc V) (url r : Bytes) : Type 0 where
    pub found : (r ≡ []) ⊎ (HasKey r routes × (starts_with url r ≡ true))
    pub longest : (k : Bytes) → HasKey k routes → starts_with url k ≡ true → length k ≤ length r

  -- The same, where the loop has found `before` already.
  record IsBest (routes : Assoc V) (url before r : Bytes) : Type 0 where
    kept : (r ≡ before) ⊎ (HasKey r routes × (starts_with url r ≡ true))
    grown : length before ≤ length r
    best : (k : Bytes) → HasKey k routes → starts_with url k ≡ true → length k ≤ length r

  match_from-IsBest :
      (url : Bytes) (routes : Assoc V) (before : Bytes)
      → IsBest routes url before (match_from url (length before) before routes)
  unfolding match_from
  match_from-IsBest url [] before = record {
    kept = inl refl;
    grown = omega arith;
    best = λ k h. absurd h;
  }
  match_from-IsBest url ((j, v) ∷ routes) before = elim (improves_cases url before j) [
    | inl (better, starts, longer) ↦
        let b = match_from-IsBest url routes j in
        rw better (record {
          kept = elim b.kept [ inl e ↦ inr (inl e, rw e starts) | inr (h, e) ↦ inr (inr h, e) ];
          grown = omega (arith, b.grown);
          best = λ k h. elim h [ inl e ↦ (λ _. rw e b.grown) | inr later ↦ b.best k later ];
        })
    | inr (worse, bound) ↦
        let b = match_from-IsBest url routes before in
        rw worse (record {
          kept = elim b.kept [ inl e ↦ inl e | inr (h, e) ↦ inr (inr h, e) ];
          grown = b.grown;
          best = λ k h. elim h [
            | inl e ↦ (λ f. omega (arith, bound (rw e at f), ap length e, b.grown))
            | inr later ↦ b.best k later
          ];
        })
  ]

  -- The match is empty or a route that is a prefix of the URL, and no such route is longer.
  pub longest_prefix_match-IsLongest :
      (routes : Assoc V) (url : Bytes) → IsLongest routes url (longest_prefix_match routes url)
  unfolding longest_prefix_match
  longest_prefix_match-IsLongest routes url =
      let b = match_from-IsBest url routes [] in record { found = b.kept; longest = b.best }

  -- Two listings of the same routes have at most one longest match between them.
  IsLongest-unique :
      (url r q : Bytes) (routes others : Assoc V)
      → ((k : Bytes) → HasKey k routes → HasKey k others)
      → ((k : Bytes) → HasKey k others → HasKey k routes)
      → IsLongest routes url r
      → IsLongest others url q
      → r ≡ q
  IsLongest-unique url r q routes others to from a b = elim a.found [
    | inl e ↦ elim b.found [
      | inl f ↦ e ∙ sym f
      | inr (h, f) ↦
          let short = a.longest q (from q h) f in
          e ∙ sym (empty_of_length q (omega (arith, short, ap length e)))
    ]
    | inr (h, e) ↦ elim b.found [
      | inl f ↦
          let short = b.longest r (to r h) e in
          empty_of_length r (omega (arith, short, ap length f)) ∙ sym f
      | inr (k, f) ↦
          let up = b.longest r (to r h) e in
          let down = a.longest q (from q k) f in starts_with_same url r q e f (omega arith)
    ]
  ]

  -- The match does not depend on the order in which the map is walked: two listings with the same
  -- paths have the same match for each URL.
  pub longest_prefix_match_order :
      (routes others : Assoc V) (url : Bytes)
      → ((k : Bytes) → HasKey k routes → HasKey k others)
      → ((k : Bytes) → HasKey k others → HasKey k routes)
      → longest_prefix_match routes url ≡ longest_prefix_match others url
  longest_prefix_match_order routes others url to from =
      IsLongest-unique url _ _ routes others to from (longest_prefix_match-IsLongest routes url)
        (longest_prefix_match-IsLongest others url)
