-- ===== src/Storage/Sim/Ids.antt =====
-- The ids that `create` gives.
use creeper_url_shortening_w.Prelude.Assoc.{lookup}
use creeper_url_shortening_w.Prelude.Integer.{ℤ, pos, negsuc, int_eq, int_eq_iff}
use creeper_url_shortening_w.Prelude.Text.{Bytes, str_eq}
use creeper_url_shortening_w.Prelude.{
  ℕ, ◌+◌, ◌≤◌, ◌<◌, ◌≡◌, ◌≢◌, refl, sym, ap, ◌∙◌, ◌⊎◌, inl, inr, ◌&&◌, [], ◌∷◌, Option, none, some,
  ltb, if◌then◌else◌, arith, Bool-cases, Option-cases,
}
use creeper_url_shortening_w.Storage.Sim.{
  Entities, SimEntityStorage, find, int_max, larger, max_from, next_id, get_next_available_id,
  write, create, retrieve,
}
use creeper_url_shortening_w.Storage.Sim.Laws.{retrieve-write}

pub larger_grows : (n : ℕ) (id : ℤ) → n ≤ larger n id
unfolding larger
larger_grows n (pos k) = ground arith
larger_grows n (negsuc k) = omega arith

pub larger_bounds : (n k : ℕ) → k ≤ larger n (pos k)
unfolding larger
larger_bounds n k = ground arith

pub larger_cases : (n : ℕ) (id : ℤ) → (larger n id ≡ n) ⊎ (id ≡ pos (larger n id))
unfolding larger
larger_cases n (pos k) = elim (Bool-cases (ltb n k)) [
  | inl e ↦ inr (rw e refl)
  | inr e ↦ inl (rw e refl)
]
larger_cases n (negsuc k) = inl refl

max_from_grows : (n : ℕ) (m : Entities) → n ≤ max_from n m
unfolding max_from
max_from_grows n [] = omega arith
max_from_grows n ((id, json) ∷ m) = omega (arith, larger_grows n id, max_from_grows (larger n id) m)

pub max_from_bounds : (n k : ℕ) (m : Entities) → find (pos k) m ≢ none → k ≤ max_from n m
unfolding max_from find
max_from_bounds n k [] h = absurd (h refl)
max_from_bounds n k ((id, json) ∷ m) h = elim (Bool-cases (int_eq id (pos k))) [
  | inl e ↦
      let same : larger n id ≡ larger n (pos k) = ap (larger n) ((int_eq_iff id (pos k)).0 e) in
      omega (arith, larger_bounds n k, same, max_from_grows (larger n id) m)
  | inr e ↦ max_from_bounds (larger n id) k m (rw e at h)
]

pub max_from_reached :
    (n : ℕ) (m : Entities) → (max_from n m ≡ n) ⊎ (find (pos (max_from n m)) m ≢ none)
unfolding max_from find
max_from_reached n [] = inl refl
max_from_reached n ((id, json) ∷ m) = elim (max_from_reached (larger n id) m) [
  | inl e ↦ elim (larger_cases n id) [
    | inl f ↦ inl (e ∙ f)
    | inr f ↦ inr (found (pos (max_from (larger n id) m)) (f ∙ ap pos (sym e)))
  ]
  | inr h ↦ inr (later (pos (max_from (larger n id) m)) h)
]
  where
    found : (k : ℤ) → id ≡ k → find k ((id, json) ∷ m) ≢ none
    found k e f = cc (rw ((int_eq_iff id k).1 e) at f)

    later : (k : ℤ) → find k m ≢ none → find k ((id, json) ∷ m) ≢ none
    later k h = elim (Bool-cases (int_eq id k)) [ inl e ↦ rw e (λ f. cc f) | inr e ↦ rw e h ]

-- The outcome of `create`: a new id, above every id that is stored and below 2^31, with the new
-- entity under it and the others as before; or, where the id 2^31 - 1 or a larger one is stored,
-- nothing.
pub record IsCreated (resource json : Bytes) (before after : SimEntityStorage) (n : ℕ)
    : Type 0 where
  pub positive : 0 < n
  pub bounded : n ≤ int_max
  pub above : (k : ℕ) → retrieve resource (pos k) before ≢ none → k < n
  pub stored :
      (other : Bytes) (k : ℤ)
      → retrieve other k after
        ≡ (if str_eq resource other && int_eq (pos n) k then some json else retrieve other k before)

pub next_id_cases :
    (n : ℕ) → ((n < int_max) × (next_id n ≡ pos (n + 1))) ⊎ ((int_max ≤ n) × (next_id n ≡ negsuc 0))
unfolding next_id
next_id_cases n = elim (Bool-cases (ltb n int_max)) [
  | inl e ↦ inl (ground arith, rw e refl)
  | inr e ↦ inr (ground arith, rw e refl)
]

-- The largest id that is stored, and 0 where there is none.
abbrev max_id_of : Option Entities → ℕ
max_id_of none = 0
max_id_of (some m) = max_from 0 m

get_next_available_id_cases :
    (resource : Bytes) (s : SimEntityStorage)
    → ((n : ℕ) × (0 < n)
        × (n ≤ int_max)
        × ((k : ℕ) → retrieve resource (pos k) s ≢ none → k < n)
        × (get_next_available_id resource s ≡ pos n))
      ⊎ ((k : ℕ) × (int_max ≤ k)
          × (retrieve resource (pos k) s ≢ none)
          × (get_next_available_id resource s ≡ negsuc 0))
unfolding retrieve get_next_available_id
get_next_available_id_cases resource s = elim (Option-cases (lookup resource s)) [
  | inl e ↦ inl (
    1,
    omega arith,
    omega arith,
    λ k h. absurd (h (rw (retrieve, e) refl)),
    rw (get_next_available_id, e) refl,
  )
  | inr (m, e) ↦ elim (next_id_cases (max_from 0 m)) [
    | inl (h, f) ↦ inl (
      max_from 0 m + 1,
      omega arith,
      omega (arith, h),
      λ k g. below m k (λ x. g (rw (retrieve, e) x)),
      rw (get_next_available_id, e) f,
    )
    | inr (h, f) ↦ inr (
      max_from 0 m,
      h,
      elim (max_from_reached 0 m) [
        | inl none_stored ↦ absurd (omega (arith, h, none_stored))
        | inr stored ↦ (λ x. stored (rw (retrieve, e) at x))
      ],
      rw (get_next_available_id, e) f,
    )
  ]
]
  where
    below : (m : Entities) (k : ℕ) → find (pos k) m ≢ none → k < max_from 0 m + 1
    below m k h = omega (arith, max_from_bounds 0 k m h)

-- `create` gives an id that is above every id of the resource, and stores the entity under it and
-- nothing else; or it gives none and changes nothing, and then an id of at least 2^31 - 1 is stored.
pub create_cases :
    (resource json : Bytes) (s : SimEntityStorage)
    → ((n : ℕ) × ((create resource json s).1 ≡ some (pos n))
        × IsCreated resource json s (create resource json s).0 n)
      ⊎ ((k : ℕ) × (int_max ≤ k)
          × (retrieve resource (pos k) s ≢ none)
          × (create resource json s ≡ (s, none)))
unfolding create int_eq
create_cases resource json s = elim (get_next_available_id_cases resource s) [
  | inl (n, positive, bounded, above, e) ↦
      let made : create resource json s ≡ (write resource (pos n) json s, some (pos n)) =
        rw (e, int_eq) refl in
      inl (
        n,
        ap (λ r. r.1) made,
        record {
          positive = positive;
          bounded = bounded;
          above = above;
          stored = λ other k.
              ap (λ r. retrieve other k r.0) made ∙ retrieve-write other resource k (pos n) json s;
        },
      )
  | inr (k, big, stored, e) ↦ inr (k, big, stored, rw (e, int_eq) refl)
]
