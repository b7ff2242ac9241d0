-- ===== src/Storage/Real/Races/Lost.antt =====
-- What two threads in `create` at a time do: they answer the same id, and one of the texts is lost.
use mathlib.Core.List.{Memᴰ}
use creeper_url_shortening_w.Prelude.Integer.{ℤ, pos, int_eq, int_eq_iff}
use creeper_url_shortening_w.Prelude.Stoi.{
  Stoi, number, invalid_argument, out_of_range, stoi, int_max,
}
use creeper_url_shortening_w.Prelude.Text.{Bytes, str_eq, str_eq_refl}
use creeper_url_shortening_w.Prelude.{
  ℕ, ◌+◌, ◌≤◌, ◌≡◌, ◌⊎◌, refl, sym, ap, subst, ◌∙◌, inl, inr, Bool, true, ◌&&◌, List, [], ◌∷◌,
  Option, none, some, arith, Option-cases, if◌then◌else◌,
}
use creeper_url_shortening_w.Storage.Disk.{Disk, is_name}
use creeper_url_shortening_w.Storage.Real.{
  make_entity_dir, make_entity_path, larger_of, max_of, retrieve, written, create_as,
}
use creeper_url_shortening_w.Storage.Real.Ids.{max_of_bounds}
use creeper_url_shortening_w.Storage.Real.Laws.{write-Becomes}
use creeper_url_shortening_w.Storage.Real.Races.{choose, second_writes, create_both}
use creeper_url_shortening_w.Storage.Real.Valid.{
  IsValid, Keeps, Keeps-IsValid, create_directories-Keeps,
}
use creeper_url_shortening_w.Storage.Sim.{next_id}
use creeper_url_shortening_w.Storage.Sim.Ids.{larger_cases, next_id_cases}

larger_of_cases :
    (n : ℕ) (r : Stoi) → (larger_of n r ≡ n) ⊎ ((i : ℕ) × (r ≡ number (pos (larger_of n r)) i))
larger_of_cases n (number id i) = elim (larger_cases n id) [
  | inl e ↦ inl e
  | inr e ↦ inr (i, ap (λ z. number z i) e)
]
larger_of_cases n invalid_argument = inl refl
larger_of_cases n out_of_range = inl refl

-- The largest number is that of a file name, or the one to begin with.
max_of_reached :
    (n : ℕ) (names : List Bytes)
    → (max_of n names ≡ n)
      ⊎ ((name : Bytes) × Memᴰ name names
          × ((i : ℕ) × (stoi name ≡ number (pos (max_of n names)) i)))
unfolding max_of
max_of_reached n [] = inl refl
max_of_reached n (name ∷ names) = elim (max_of_reached (larger_of n (stoi name)) names) [
  | inr (other, there, read) ↦ inr (other, Memᴰ.tail there, read)
  | inl e ↦ elim (larger_of_cases n (stoi name)) [
    | inl f ↦ inl (e ∙ f)
    | inr (i, f) ↦ inr (name, Memᴰ.head refl, (i, f ∙ ap (λ m. number (pos m) i) (sym e)))
  ]
]

max_of-le :
    (ns ms : List Bytes)
    → ((name : Bytes) → Memᴰ name ns → Memᴰ name ms)
    → max_of 0 ns ≤ max_of 0 ms
max_of-le ns ms h = elim (max_of_reached 0 ns) [
  | inl e ↦ omega (arith, e)
  | inr (name, there, (i, read)) ↦ max_of_bounds 0 (max_of 0 ns) i name ms (h name there) read
]

module _ (disk : Disk) where
  open disk use {Files, node, names, write, names_iff}

  choose_lem :
      (resource : Bytes) (f g : Files) (id : ℤ)
      → is_name resource ≡ true
      → choose disk resource f ≡ some (g, id)
      → Keeps disk f g
        × ((ns : List Bytes) × (names g (make_entity_dir resource) ≡ some ns)
            × (id ≡ next_id (max_of 0 ns)))
  unfolding choose
  choose_lem resource f g id known e =
      elim (Option-cases (disk.create_directories (make_entity_dir resource) f)) [
        | inl thrown ↦ cc (rw (choose, thrown) at e)
        | inr (k, made) ↦ elim (Option-cases (names k (make_entity_dir resource))) [
          | inl thrown ↦ cc (rw (choose, made, thrown) at e)
          | inr (ns, listed) ↦
              let chosen : ◌≡◌ {A = Option (Files × ℤ)} (some (k, next_id (max_of 0 ns)))
                  (some (g, id)) =
                rw (choose, made, listed) at e in
              let same : k ≡ g = cc in
              (
                subst (λ x. Keeps disk f x) same
                    (create_directories-Keeps disk f k resource known made),
                (ns, ap (λ x. names x (make_entity_dir resource)) (sym same) ∙ listed, cc),
              )
        ]
      ]

  -- A second choice before the first one's write is the same.
  choose_again :
      (resource : Bytes) (f g h : Files) (first second : ℤ)
      → is_name resource ≡ true
      → choose disk resource f ≡ some (g, first)
      → choose disk resource g ≡ some (h, second)
      → first ≡ second
  unfolding Keeps
  choose_again resource f g h first second known e k =
      let (kept, (ns, listed, at)) = choose_lem resource f g first known e in
      let (kept_again, (ms, listed_again, at_again)) = choose_lem resource g h second known k in
      let le : max_of 0 ns ≤ max_of 0 ms = max_of-le ns ms (λ name there.
        let (named, present) = (names_iff g resource name ns known listed).0 there in
        (names_iff h resource name ms known listed_again).1
          (named, λ a. present (sym (kept_again resource name known named) ∙ a))) in
      let ge : max_of 0 ms ≤ max_of 0 ns = max_of-le ms ns (λ name there.
        let (named, present) = (names_iff h resource name ms known listed_again).0 there in
        (names_iff g resource name ns known listed).1
          (named, λ a. present (kept_again resource name known named ∙ a))) in
      at ∙ ap next_id (omega (arith, le, ge)) ∙ sym at_again

  -- What is written under an id that was chosen.
  create_as-retrieve :
      (g h : Files) (resource data_ : Bytes) (chosen id : ℤ) (m : ℕ)
      → IsValid disk g
      → is_name resource ≡ true
      → chosen ≡ next_id m
      → create_as disk resource data_ g chosen ≡ (h, some id)
      → (chosen ≡ id) × IsValid disk h × (retrieve disk h resource id ≡ some data_)
  create_as-retrieve g h resource data_ chosen id m valid known next e = elim (next_id_cases m) [
    | inr (large, f) ↦ cc (rw (next ∙ f) at e)
    | inl (small, f) ↦
        by_write (m + 1) (omega (arith, small)) (next ∙ f)
          (write (make_entity_path resource (pos (m + 1))) data_ g) refl (rw (next ∙ f) at e)
  ]
    where
      by_write :
          (n : ℕ)
          → n ≤ int_max
          → chosen ≡ pos n
          → (r : Option Files) → write (make_entity_path resource (pos n)) data_ g ≡ r
          → written disk resource (pos n) data_ g r ≡ (h, some id)
          → (chosen ≡ id) × IsValid disk h × (retrieve disk h resource id ≡ some data_)
      by_write n int is_n none wrote e = cc
      by_write n int is_n (some k) wrote e =
          let same : k ≡ h = cc in
          let own : pos n ≡ id = cc in
          let (still, changes) =
            write-Becomes disk g h resource data_ (pos n) valid known int (wrote ∙ ap some same) in
          (
            is_n ∙ own,
            still,
            ap (retrieve disk h resource) (sym own)
                ∙ changes resource (pos n) known
                ∙ both (str_eq resource resource) (int_eq (pos n) (pos n))
                    (retrieve disk g resource (pos n)) (str_eq_refl resource)
                    ((int_eq_iff (pos n) (pos n)).1 refl),
          )
        where
          both :
              (b c : Bool) (o : Option Bytes)
              → b ≡ true
              → c ≡ true
              → (if b && c then some data_ else o) ≡ some data_
          both b c o e f = rw (e, f) refl

  -- Where both calls have chosen when the first one writes and both answer an id, it is the same id, and
  -- under it the files have the text of the second call.
  pub create_both-retrieve :
      (resource first_data second_data : Bytes) (f g : Files) (first second : ℤ)
      → IsValid disk f
      → is_name resource ≡ true
      → create_both disk resource first_data second_data f ≡ some (g, some first, some second)
      → (first ≡ second) × (retrieve disk g resource first ≡ some second_data)
  unfolding create_both
  create_both-retrieve resource first_data second_data f g first second valid known e =
      elim (Option-cases (choose disk resource f)) [
        | inl thrown ↦ cc (rw (create_both, thrown) at e)
        | inr ((k, a), chosen) ↦ elim (Option-cases (choose disk resource k)) [
          | inl thrown ↦ cc (rw (create_both, chosen, thrown) at e)
          | inr ((l, b), chosen_again) ↦
              by_writes k l a b chosen chosen_again (rw (create_both, chosen, chosen_again) at e)
        ]
      ]
    where
      by_writes :
          (k l : Files) (a b : ℤ)
          → choose disk resource f ≡ some (k, a)
          → choose disk resource k ≡ some (l, b)
          → ◌≡◌ {A = Option (Files × Option ℤ × Option ℤ)}
              (some (
                second_writes disk resource second_data b (create_as disk resource first_data l a)))
              (some (g, some first, some second))
          → (first ≡ second) × (retrieve disk g resource first ≡ some second_data)
      by_writes k l a b chosen chosen_again e =
          let same : a ≡ b = choose_again resource f k l a b known chosen chosen_again in
          let (kept, (ns, listed, at)) = choose_lem resource f k a known chosen in
          let (kept_again, (ms, listed_again, at_again)) =
            choose_lem resource k l b known chosen_again in
          let valid_l : IsValid disk l =
            Keeps-IsValid disk k l kept_again (Keeps-IsValid disk f k kept valid) in
          let mid : Files = (create_as disk resource first_data l a).0 in
          let wrote : create_as disk resource first_data l a ≡ (mid, some first) = cc in
          let wrote_again : create_as disk resource second_data mid b ≡ (g, some second) = cc in
          let (own, still, own_text) =
            create_as-retrieve l mid resource first_data a first (max_of 0 ns) valid_l known at
              wrote in
          let (own_again, still_again, text) =
            create_as-retrieve mid g resource second_data b second (max_of 0 ms) still known
              at_again wrote_again in
          let ids : first ≡ second = sym own ∙ same ∙ own_again in
          (ids, ap (retrieve disk g resource) ids ∙ text)
