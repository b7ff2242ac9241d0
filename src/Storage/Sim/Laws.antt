-- ===== src/Storage/Sim/Laws.antt =====
-- What a storage answers behind each of its operations.
use mathlib.Core.List.{Memᴰ}
use mathlib.Core.List.Memᴰ
use creeper_url_shortening_w.Prelude.Assoc.{lookup, insert, lookup-insert}
use creeper_url_shortening_w.Prelude.Integer.{ℤ, int_eq, int_eq_iff}
use creeper_url_shortening_w.Prelude.Text.{Bytes, str_eq, str_eq_iff}
use creeper_url_shortening_w.Prelude.{
  ◌≡◌, ◌≢◌, ◌↔◌, refl, sym, ap, ◌∙◌, ◌⊎◌, inl, inr, Bool, true, false, ◌&&◌, [], ◌∷◌, Option, none,
  some, if◌then◌else◌, arith, Bool-cases, Option-cases,
}
use creeper_url_shortening_w.Storage.Sim.{
  Entities, SimEntityStorage, find, put, erase, write, entity_of, written_to, retrieve, update,
  remove, ids_of, ids_in, list,
}

find-put :
    (k id : ℤ) (json : Bytes) (m : Entities)
    → find k (put id json m) ≡ (if int_eq id k then some json else find k m)
unfolding find put
find-put k id json [] = refl
find-put k id json ((j, old) ∷ m) =
    ground (arith, int_eq_iff id k, int_eq_iff j id, int_eq_iff j k, find-put k id json m)

find-erase :
    (k id : ℤ) (m : Entities) → find k (erase id m) ≡ (if int_eq id k then none else find k m)
unfolding find erase
find-erase k id [] = elim (Bool-cases (int_eq id k)) [ inl e ↦ rw e refl | inr e ↦ rw e refl ]
find-erase k id ((j, old) ∷ m) =
    ground (arith, int_eq_iff id k, int_eq_iff j id, int_eq_iff j k, find-erase k id m)

entity_of-if :
    (k : ℤ) (b : Bool) (m : Entities) (o : Option Entities)
    → entity_of k (if b then some m else o) ≡ (if b then find k m else entity_of k o)
unfolding entity_of
entity_of-if k true m o = refl
entity_of-if k false m o = refl

entity_of-insert :
    (other resource : Bytes) (k : ℤ) (m : Entities) (s : SimEntityStorage)
    → retrieve other k (insert resource m s)
      ≡ (if str_eq resource other then find k m else retrieve other k s)
unfolding retrieve
entity_of-insert other resource k m s =
    ap (entity_of k) (lookup-insert resource other m s)
    ∙ entity_of-if k (str_eq resource other) m (lookup other s)

entity_of-written_to :
    (k id : ℤ) (json : Bytes) (o : Option Entities)
    → entity_of k (some (written_to id json o)) ≡ (if int_eq id k then some json else entity_of k o)
unfolding entity_of written_to
entity_of-written_to k id json none = find-put k id json []
entity_of-written_to k id json (some m) = find-put k id json m

-- The entry that was written, and the others as before.
pub retrieve-write :
    (other resource : Bytes) (k id : ℤ) (json : Bytes) (s : SimEntityStorage)
    → retrieve other k (write resource id json s)
      ≡ (if str_eq resource other && int_eq id k then some json else retrieve other k s)
unfolding write retrieve entity_of
retrieve-write other resource k id json s =
    entity_of-insert other resource k (written_to id json (lookup resource s)) s
    ∙ elim (Bool-cases (str_eq resource other)) [
      | inl e ↦ rw e (
          entity_of-written_to k id json (lookup resource s)
          ∙ ap (λ r. if int_eq id k then some json else retrieve r k s)
              ((str_eq_iff resource other).0 e))
      | inr e ↦ rw e refl
    ]

-- `update` always answers true, and stores the entity under the id and nothing else.
pub update-retrieve :
    (resource : Bytes) (id : ℤ) (json : Bytes) (s : SimEntityStorage)
    → ((update resource id json s).1 ≡ true)
      × ((other : Bytes) (k : ℤ)
          → retrieve other k (update resource id json s).0
            ≡ (if str_eq resource other && int_eq id k then some json else retrieve other k s))
unfolding update
update-retrieve resource id json s = (refl, λ other k. retrieve-write other resource k id json s)

-- `remove` answers false and changes nothing where the entity is not stored; else it answers true, and
-- takes the entity away and nothing else.
pub remove_cases :
    (resource : Bytes) (id : ℤ) (s : SimEntityStorage)
    → ((retrieve resource id s ≡ none) × (remove resource id s ≡ (s, false)))
      ⊎ ((retrieve resource id s ≢ none)
          × ((remove resource id s).1 ≡ true)
          × ((other : Bytes) (k : ℤ)
              → retrieve other k (remove resource id s).0
                ≡ (if str_eq resource other && int_eq id k then none else retrieve other k s)))
unfolding remove retrieve entity_of
remove_cases resource id s = elim (Option-cases (lookup resource s)) [
  | inl e ↦ inl (rw e refl, rw (remove, e) refl)
  | inr (m, e) ↦ elim (Option-cases (find id m)) [
    | inl f ↦ inl (rw e f, rw (remove, e, f) refl)
    | inr (json, f) ↦
        let made : remove resource id s ≡ (insert resource (erase id m) s, true) =
          rw (remove, e, f) refl in
        inr (
          λ g. cc (rw (e, f) at g),
          ap (λ r. r.1) made,
          λ other k.
              ap (λ r. retrieve other k r.0) made
              ∙ entity_of-insert other resource k (erase id m) s
              ∙ erased other k m e,
        )
  ]
]
  where
    erased :
        (other : Bytes) (k : ℤ) (m : Entities)
        → lookup resource s ≡ some m
        → (if str_eq resource other then find k (erase id m) else retrieve other k s)
          ≡ (if str_eq resource other && int_eq id k then none else retrieve other k s)
    erased other k m e = elim (Bool-cases (str_eq resource other)) [
      | inl g ↦ rw g (
          find-erase k id m
          ∙ ap (λ o. if int_eq id k then none else entity_of k o)
              (sym (ap (λ r. lookup r s) (sym ((str_eq_iff resource other).0 g)) ∙ e)))
      | inr g ↦ rw g refl
    ]

ids_of-find : (id : ℤ) (m : Entities) → Memᴰ id (ids_of m) ↔ (find id m ≢ none)
unfolding ids_of find
ids_of-find id [] = (λ h. absurd (Memᴰ.not-nil h), λ h. absurd (h refl))
ids_of-find id ((j, json) ∷ m) = elim (Bool-cases (int_eq j id)) [
  | inl e ↦ (λ _. rw e (λ f. cc f), λ _. Memᴰ.head (sym ((int_eq_iff j id).0 e)))
  | inr e ↦ (
    λ h. elim h [
      | Memᴰ.head f ↦ absurd (cc (e, (int_eq_iff j id).1 (sym f)))
      | Memᴰ.tail h' ↦ rw e ((ids_of-find id m).0 h')
    ],
    λ h. Memᴰ.tail ((ids_of-find id m).1 (rw e at h)),
  )
]

-- `list` has the ids of the entities that `retrieve` finds, and no others.
pub list-retrieve :
    (resource : Bytes) (id : ℤ) (s : SimEntityStorage)
    → Memᴰ id (list resource s) ↔ (retrieve resource id s ≢ none)
unfolding list ids_in retrieve entity_of
list-retrieve resource id s = elim (Option-cases (lookup resource s)) [
  | inl e ↦ rw (list, e) (λ h. absurd (Memᴰ.not-nil h), λ h. absurd (h refl))
  | inr (m, e) ↦ rw (list, e) (ids_of-find id m)
]
