-- ===== src/Storage/Sim/Implements.antt =====
-- The storage in memory as an implementation of the interface. It never throws, keeps every resource
-- apart from every other, and every state of it is valid.
use creeper_url_shortening_w.Prelude.Integer.{ℤ, pos}
use creeper_url_shortening_w.Prelude.Stoi.{IsInt}
use creeper_url_shortening_w.Prelude.Text.{Bytes}
use creeper_url_shortening_w.Prelude.{
  ◌≡◌, ◌≢◌, sym, ap, subst, ◌∙◌, inl, inr, Bool, true, false, ◌<◌, ℕ, Option-cases, arith, Option,
  none, some,
}
use creeper_url_shortening_w.Storage.{IEntityStorage, Changes}
use creeper_url_shortening_w.Storage.Sim.{SimEntityStorage, create, retrieve, update, remove, list}
use creeper_url_shortening_w.Storage.Sim.Ids.{create_cases}
use creeper_url_shortening_w.Storage.Sim.Laws.{update-retrieve, remove_cases, list-retrieve}

abbrev every : Bytes → Bool
every resource = true

abbrev view : SimEntityStorage → Bytes → ℤ → Option Bytes
view s resource id = retrieve resource id s

abbrev Kept : SimEntityStorage → SimEntityStorage → Type 0
Kept s t = (other : Bytes) (k : ℤ) → every other ≡ true → view t other k ≡ view s other k

kept : (s t : SimEntityStorage) → s ≡ t → Kept s t
kept s t same other k known = ap (λ u. view u other k) (sym same)

pub create_some_lem :
    (resource json : Bytes) (s t : SimEntityStorage) (id : ℤ)
    → some (create resource json s) ≡ some (t, some id)
    → Unit {0}
      × IsInt id
      × (view s resource id ≡ none)
      × Changes every (view s) (view t) resource id (some json)
create_some_lem resource json s t id e = elim (create_cases resource json s) [
  | inl (n, given, is_created) ↦
      let same : pos n ≡ id = cc in
      let after : (create resource json s).0 ≡ t = cc in
      subst
        (λ i.
          Unit
          × IsInt i
          × (view s resource i ≡ none)
          × Changes every (view s) (view t) resource i (some json))
        same
        (
          tt,
          is_created.bounded,
          unused n (is_created.above n),
          λ other k known. ap (λ u. view u other k) (sym after) ∙ is_created.stored other k,
        )
  | inr (k, big, stored, unchanged) ↦ cc
]
  where
    unused : (n : ℕ) → (view s resource (pos n) ≢ none → n < n) → view s resource (pos n) ≡ none
    unused n above = elim (Option-cases (view s resource (pos n))) [
      | inl e ↦ e
      | inr (text, e) ↦
          let stored : view s resource (pos n) ≢ none = λ f. cc in
          absurd (omega (arith, above stored))
    ]

pub create_none_lem :
    (resource json : Bytes) (s t : SimEntityStorage)
    → some (create resource json s) ≡ some (t, none)
    → Kept s t
create_none_lem resource json s t e = elim (create_cases resource json s) [
  | inl (n, given, is_created) ↦ cc
  | inr (k, big, stored, unchanged) ↦ kept s t cc
]

pub update_lem :
    (resource : Bytes) (id : ℤ) (json : Bytes) (s t : SimEntityStorage) (b : Bool)
    → some (update resource id json s) ≡ some (t, b)
    → (b ≡ true) × Changes every (view s) (view t) resource id (some json)
update_lem resource id json s t b e =
    let (answer, writes) = update-retrieve resource id json s in
    let after : (update resource id json s).0 ≡ t = cc in
    let same : (update resource id json s).1 ≡ b = cc in
    (sym same ∙ answer, λ other k known. ap (λ u. view u other k) (sym after) ∙ writes other k)

pub update_false_lem :
    (resource : Bytes) (id : ℤ) (json : Bytes) (s t : SimEntityStorage)
    → some (update resource id json s) ≡ some (t, false)
    → Kept s t
update_false_lem resource id json s t e =
    let (answer, writes) = update_lem resource id json s t false e in cc

pub remove_true_lem :
    (resource : Bytes) (id : ℤ) (s t : SimEntityStorage)
    → some (remove resource id s) ≡ some (t, true)
    → Unit {0} × (view s resource id ≢ none) × Changes every (view s) (view t) resource id none
remove_true_lem resource id s t e = elim (remove_cases resource id s) [
  | inl (absent, unchanged) ↦ cc
  | inr (present, answer, erases) ↦
      let after : (remove resource id s).0 ≡ t = cc in
      (tt, present, λ other k known. ap (λ u. view u other k) (sym after) ∙ erases other k)
]

pub remove_false_lem :
    (resource : Bytes) (id : ℤ) (s t : SimEntityStorage)
    → some (remove resource id s) ≡ some (t, false)
    → Unit {0} × (view s resource id ≡ none) × Kept s t
remove_false_lem resource id s t e = elim (remove_cases resource id s) [
  | inl (absent, unchanged) ↦ (tt, absent, kept s t cc)
  | inr (present, answer, erases) ↦ cc
]

abbrev pub sim_entity_storage : IEntityStorage
sim_entity_storage = record {
  Storage = SimEntityStorage;
  create = λ resource json s. some (create resource json s);
  retrieve = view;
  update = λ resource id json s. some (update resource id json s);
  remove = λ resource id s. some (remove resource id s);
  list = λ s resource. list resource s;
  is_resource = every;
  IsValid = λ s. Unit;
  create_some = λ resource json s t id valid known e. create_some_lem resource json s t id e;
  create_none = λ resource json s t valid known e. (tt, create_none_lem resource json s t e);
  update_true =
      λ resource id json s t valid known int e. (tt, (update_lem resource id json s t true e).1);
  update_false =
      λ resource id json s t valid known int e. (tt, update_false_lem resource id json s t e);
  remove_true = λ resource id s t valid known int e. remove_true_lem resource id s t e;
  remove_false = λ resource id s t valid known int e. remove_false_lem resource id s t e;
  list_iff = λ resource id s valid known int. list-retrieve resource id s;
}
