-- ===== src/Storage/Real/Races.antt =====
-- Two threads in `create` at a time: the storage has no lock between the choice of an id and the write.
pub mod Lost
use mathlib.Core.List.{Memᴰ}
use mathlib.Core.List.Memᴰ
use creeper_url_shortening_w.Prelude.Integer.{ℤ, pos, negsuc, int_eq, int_eq_iff}
use creeper_url_shortening_w.Prelude.Stoi.{
  IsInt, Stoi, number, invalid_argument, out_of_range, stoi, int_max,
}
use creeper_url_shortening_w.Prelude.Text.{Bytes, str_eq, str_eq_refl}
use creeper_url_shortening_w.Prelude.{
  ℕ, ◌+◌, ◌≤◌, ◌<◌, ◌≡◌, ◌≢◌, ◌↔◌, ◌⊎◌, refl, sym, ap, subst, ◌∙◌, inl, inr, Bool, true, false,
  ◌&&◌, List, [], ◌∷◌, Option, none, some, arith, Bool-cases, Option-cases, if◌then◌else◌,
}
use creeper_url_shortening_w.Storage.Disk.{Disk, is_name}
use creeper_url_shortening_w.Storage.Real.{
  make_entity_dir, make_entity_path, larger_of, max_of, get_next_available_id, retrieve, written,
  create_as, create_in, create,
}
use creeper_url_shortening_w.Storage.Real.Ids.{max_of_grows, max_of_bounds}
use creeper_url_shortening_w.Storage.Real.Valid.{IsValid, Keeps, create_directories-Keeps}
use creeper_url_shortening_w.Storage.Sim.{larger, next_id}
use creeper_url_shortening_w.Storage.Sim.Ids.{larger_cases, next_id_cases}

module _ (disk : Disk) where
  open disk use {Files, node, names, write, names_iff}

  -- `create` up to the id
  unfoldable pub choose : Bytes → Files → Option (Files × ℤ)
  unfolding max_of next_id
  choose resource f = elim (disk.create_directories (make_entity_dir resource) f) [
    | none ↦ none
    | some g ↦ elim (names g (make_entity_dir resource)) [
      | none ↦ none
      | some ns ↦ some (g, get_next_available_id ns)
    ]
  ]

  -- and the rest of it
  abbrev pub create_chosen : Bytes → Bytes → Option (Files × ℤ) → Option (Files × Option ℤ)
  create_chosen resource data_ none = none
  create_chosen resource data_ (some (g, id)) = some (create_as disk resource data_ g id)

  pub create-choose :
      (resource data_ : Bytes) (f : Files)
      → create disk resource data_ f ≡ create_chosen resource data_ (choose resource f)
  unfolding create choose
  create-choose resource data_ f =
      elim (Option-cases (disk.create_directories (make_entity_dir resource) f)) [
        | inl thrown ↦ rw (create, choose, thrown) refl
        | inr (g, made) ↦ elim (Option-cases (names g (make_entity_dir resource))) [
          | inl thrown ↦ rw (create, choose, made, thrown) refl
          | inr (ns, listed) ↦ rw (create, choose, made, listed) refl
        ]
      ]

  abbrev pub second_writes : Bytes → Bytes → ℤ → Files × Option ℤ → Files × Option ℤ × Option ℤ
  second_writes resource second_data id (f, first) = (
    (create_as disk resource second_data f id).0,
    first,
    (create_as disk resource second_data f id).1,
  )

  abbrev pub second_chooses :
      Bytes → Bytes → Bytes → ℤ → Option (Files × ℤ) → Option (Files × Option ℤ × Option ℤ)
  second_chooses resource first_data second_data first none = none
  second_chooses resource first_data second_data first (some (f, second)) =
      some (second_writes resource second_data second (create_as disk resource first_data f first))

  abbrev pub first_chooses :
      Bytes → Bytes → Bytes → Option (Files × ℤ) → Option (Files × Option ℤ × Option ℤ)
  first_chooses resource first_data second_data none = none
  first_chooses resource first_data second_data (some (f, first)) =
      second_chooses resource first_data second_data first (choose resource f)

  -- Two calls, of which both have chosen when the first one writes: the files, and both answers.
  unfoldable pub create_both : Bytes → Bytes → Bytes → Files → Option (Files × Option ℤ × Option ℤ)
  unfolding choose
  create_both resource first_data second_data f =
      first_chooses resource first_data second_data (choose resource f)
