-- ===== src/Storage/Real/Ids.antt =====
-- Which ids the storage gives and lists.
use mathlib.Core.List.{Memᴰ}
use mathlib.Core.List.Memᴰ
use creeper_url_shortening_w.Prelude.Integer.{ℤ, pos}
use creeper_url_shortening_w.Prelude.Stoi.{
  IsInt, Stoi, number, invalid_argument, out_of_range, stoi, stoi-int_to_string, int_to_string,
}
use creeper_url_shortening_w.Prelude.Text.{Bytes}
use creeper_url_shortening_w.Prelude.{
  ℕ, ◌≤◌, ◌≡◌, ◌≢◌, ◌↔◌, refl, sym, ap, ◌∙◌, ◌⊎◌, inl, inr, Bool, true, false, List, [], ◌∷◌, none,
  some, arith, length,
}
use creeper_url_shortening_w.Storage.Disk.{Disk, Node, absent, directory, file, is_name}
use creeper_url_shortening_w.Storage.Real.{
  make_entity_dir, make_entity_path, larger_of, max_of, is_regular_file, push, ids_among, retrieve,
}
use creeper_url_shortening_w.Storage.Real.Names.{is_name-int_to_string}
use creeper_url_shortening_w.Storage.Real.Valid.{IsValid, text_in, retrieve-text_in}
use creeper_url_shortening_w.Storage.Sim.{larger}
use creeper_url_shortening_w.Storage.Sim.Ids.{larger_grows, larger_bounds}

larger_of_grows : (n : ℕ) (r : Stoi) → n ≤ larger_of n r
larger_of_grows n (number id idx) = larger_grows n id
larger_of_grows n invalid_argument = omega arith
larger_of_grows n out_of_range = omega arith

pub max_of_grows : (n : ℕ) (names : List Bytes) → n ≤ max_of n names
unfolding max_of
max_of_grows n [] = omega arith
max_of_grows n (name ∷ names) =
    omega (arith, larger_of_grows n (stoi name), max_of_grows (larger_of n (stoi name)) names)

-- No number that a file name begins with is above the largest.
pub max_of_bounds :
    (n k i : ℕ) (name : Bytes) (names : List Bytes)
    → Memᴰ name names
    → stoi name ≡ number (pos k) i
    → k ≤ max_of n names
unfolding max_of
max_of_bounds n k i name [] h e = absurd (Memᴰ.not-nil h)
max_of_bounds n k i name (other ∷ names) h e = elim h [
  | Memᴰ.head f ↦
      let same : larger_of n (stoi other) ≡ larger n (pos k) =
        ap (λ s. larger_of n (stoi s)) (sym f) ∙ ap (larger_of n) e in
      omega (arith, larger_bounds n k, same, max_of_grows (larger_of n (stoi other)) names)
  | Memᴰ.tail h' ↦ max_of_bounds (larger_of n (stoi other)) k i name names h' e
]

-- What a file puts into the list.
push-Mem :
    (b : Bool) (r : Stoi) (id : ℤ) (ids : List ℤ)
    → Memᴰ id (push b r ids)
    → ((b ≡ true) × ((i : ℕ) × (r ≡ number id i))) ⊎ Memᴰ id ids
push-Mem true (number v i) id ids h = elim h [
  | Memᴰ.head e ↦ inl (refl, (i, ap (λ z. number z i) (sym e)))
  | Memᴰ.tail h' ↦ inr h'
]
push-Mem true invalid_argument id ids h = inr h
push-Mem true out_of_range id ids h = inr h
push-Mem false r id ids h = inr h

push-keeps : (b : Bool) (r : Stoi) (id : ℤ) (ids : List ℤ) → Memᴰ id ids → Memᴰ id (push b r ids)
push-keeps true (number v i) id ids h = Memᴰ.tail h
push-keeps true invalid_argument id ids h = h
push-keeps true out_of_range id ids h = h
push-keeps false r id ids h = h

module _ (disk : Disk) where
  open disk use {Files, node, names, parent, names_some, names_iff}

  ids_among-Mem :
      (f : Files) (resource : Bytes) (ns : List Bytes) (id : ℤ)
      → Memᴰ id (ids_among disk f resource ns)
      → (name : Bytes) × Memᴰ name ns
        × (is_regular_file (node f (resource ∷ name ∷ [])) ≡ true)
        × ((i : ℕ) × (stoi name ≡ number id i))
  unfolding ids_among
  ids_among-Mem f resource [] id h = absurd (Memᴰ.not-nil h)
  ids_among-Mem f resource (name ∷ ns) id h =
      elim (push-Mem (is_regular_file (node f (resource ∷ name ∷ []))) (stoi name) id
        (ids_among disk f resource ns) h) [
          | inl (regular, read) ↦ (name, Memᴰ.head refl, regular, read)
          | inr later ↦
              let (other, there, regular, read) = ids_among-Mem f resource ns id later in
              (other, Memᴰ.tail there, regular, read)
        ]

  Mem-ids_among :
      (f : Files) (resource name : Bytes) (ns : List Bytes) (id : ℤ) (i : ℕ)
      → Memᴰ name ns
      → is_regular_file (node f (resource ∷ name ∷ [])) ≡ true
      → stoi name ≡ number id i
      → Memᴰ id (ids_among disk f resource ns)
  unfolding ids_among
  Mem-ids_among f resource name [] id i h regular read = absurd (Memᴰ.not-nil h)
  Mem-ids_among f resource name (other ∷ ns) id i h regular read = elim h [
    | Memᴰ.head e ↦
        let regular_too : is_regular_file (node f (resource ∷ other ∷ [])) ≡ true =
          ap (λ s. is_regular_file (node f (resource ∷ s ∷ []))) (sym e) ∙ regular in
        let read_too : stoi other ≡ number id i = ap stoi (sym e) ∙ read in
        rw (regular_too, read_too) (Memᴰ.head refl)
    | Memᴰ.tail h' ↦
        push-keeps (is_regular_file (node f (resource ∷ other ∷ []))) (stoi other) id
          (ids_among disk f resource ns) (Mem-ids_among f resource name ns id i h' regular read)
  ]

  regular-text_in : (n : Node) → is_regular_file n ≡ true → text_in n ≢ none
  regular-text_in absent e f = cc
  regular-text_in directory e f = cc
  regular-text_in (file text) e f = cc

  text_in-regular : (n : Node) → text_in n ≢ none → (is_regular_file n ≡ true) × (n ≢ absent)
  text_in-regular absent h = absurd (h refl)
  text_in-regular directory h = absurd (h refl)
  text_in-regular (file text) h = (refl, λ e. cc e)

  pub ids_among-retrieve :
      (f : Files) (resource : Bytes) (ns : List Bytes) (id : ℤ)
      → IsValid disk f
      → is_name resource ≡ true
      → IsInt id
      → names f (make_entity_dir resource) ≡ some ns
      → Memᴰ id (ids_among disk f resource ns) ↔ (retrieve disk f resource id ≢ none)
  ids_among-retrieve f resource ns id valid known int listed = (
    λ h none_found.
        let (name, there, regular, (i, read)) = ids_among-Mem f resource ns id h in
        let (is_a_name, present) = (names_iff f resource name ns known listed).0 there in
        let (found, canonical) = valid resource name known is_a_name present in
        regular-text_in (node f (resource ∷ name ∷ [])) regular (
          ap (λ s. text_in (node f (resource ∷ s ∷ []))) (canonical id i read)
          ∙ sym (retrieve-text_in disk f resource id valid known)
          ∙ none_found),
    λ found.
        let (regular, present) =
          text_in-regular (node f (make_entity_path resource id))
            (λ e. found (retrieve-text_in disk f resource id valid known ∙ e)) in
        Mem-ids_among f resource (int_to_string id) ns id (length (int_to_string id))
          ((names_iff f resource (int_to_string id) ns known listed).1
            (is_name-int_to_string id, present))
          regular (stoi-int_to_string id int),
  )
