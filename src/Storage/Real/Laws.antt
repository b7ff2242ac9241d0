-- ===== src/Storage/Real/Laws.antt =====
-- What the storage on disk does in a valid state.
use creeper_url_shortening_w.Prelude.Integer.{ℤ, pos, int_eq}
use creeper_url_shortening_w.Prelude.Stoi.{IsInt, stoi-int_to_string, int_to_string, int_max}
use creeper_url_shortening_w.Prelude.Text.{Bytes, str_eq}
use creeper_url_shortening_w.Prelude.{
  ℕ, ◌+◌, ◌≤◌, ◌<◌, ◌≡◌, refl, sym, ap, subst, ◌∙◌, inl, inr, true, ◌&&◌, List, [], ◌∷◌, Option,
  none, some, arith, length, Option-cases, if◌then◌else◌,
}
use creeper_url_shortening_w.Storage.{Changes}
use creeper_url_shortening_w.Storage.Disk.{Disk, file, is_name}
use creeper_url_shortening_w.Storage.Real.{
  make_entity_dir, make_entity_path, max_of, retrieve, written, create_as, create,
}
use creeper_url_shortening_w.Storage.Real.Ids.{max_of_bounds}
use creeper_url_shortening_w.Storage.Real.Names.{is_name-int_to_string}
use creeper_url_shortening_w.Storage.Real.Valid.{
  IsValid, text_in, absent_cases, retrieve-text_in, Keeps, Keeps-IsValid, Keeps-retrieve,
  create_directories-Keeps, Sets, Sets-retrieve, entity_path-are_names, names_are,
}
use creeper_url_shortening_w.Storage.Sim.{next_id}
use creeper_url_shortening_w.Storage.Sim.Ids.{next_id_cases}

module _ (disk : Disk) where
  open disk use {
    Files, node, names, write, parent, names_some, names_iff, write_node, remove_true, remove_false,
  }

  abbrev pub Same : Files → Files → Type 0
  Same f g =
      (other : Bytes) (k : ℤ)
      → is_name other ≡ true
      → retrieve disk g other k ≡ retrieve disk f other k

  abbrev pub Becomes : Files → Files → Bytes → ℤ → Option Bytes → Type 0
  Becomes f g resource id text =
      Changes is_name (retrieve disk f) (retrieve disk g) resource id text

  pub write-Becomes :
      (g h : Files) (resource data_ : Bytes) (id : ℤ)
      → IsValid disk g
      → is_name resource ≡ true
      → IsInt id
      → write (make_entity_path resource id) data_ g ≡ some h
      → IsValid disk h × Becomes g h resource id (some data_)
  unfolding Sets
  write-Becomes g h resource data_ id valid known int wrote =
      Sets-retrieve disk g h resource id (file data_) known int (inr (data_, refl)) valid
        (λ other name k l.
          write_node (make_entity_path resource id) data_ g h (other ∷ name ∷ [])
            (entity_path-are_names resource id known) (names_are other name k l) wrote)

  -- A write behind the making of the directory.
  pub write_lem :
      (f g h : Files) (resource data_ : Bytes) (id : ℤ)
      → IsValid disk f
      → is_name resource ≡ true
      → IsInt id
      → disk.create_directories (make_entity_dir resource) f ≡ some g
      → write (make_entity_path resource id) data_ g ≡ some h
      → IsValid disk h × Becomes f h resource id (some data_)
  write_lem f g h resource data_ id valid known int made wrote =
      let kept : Keeps disk f g = create_directories-Keeps disk f g resource known made in
      let (still, changes) =
        write-Becomes g h resource data_ id (Keeps-IsValid disk f g kept valid) known int wrote in
      (
        still,
        λ other k l.
            changes other k l
            ∙ ap (λ t. if str_eq resource other && int_eq id k then some data_ else t)
                (Keeps-retrieve disk f g valid kept other k l),
      )

  pub made_lem :
      (f g : Files) (resource : Bytes)
      → IsValid disk f
      → is_name resource ≡ true
      → disk.create_directories (make_entity_dir resource) f ≡ some g
      → IsValid disk g × Same f g
  made_lem f g resource valid known made =
      let kept : Keeps disk f g = create_directories-Keeps disk f g resource known made in
      (Keeps-IsValid disk f g kept valid, Keeps-retrieve disk f g valid kept)

  -- An id above the largest number of a file name is not in use.
  unused :
      (g : Files) (resource : Bytes) (ns : List Bytes) (n : ℕ)
      → IsValid disk g
      → is_name resource ≡ true
      → names g (make_entity_dir resource) ≡ some ns
      → max_of 0 ns < n
      → n ≤ int_max
      → retrieve disk g resource (pos n) ≡ none
  unused g resource ns n valid known listed above int =
      elim (absent_cases (node g (make_entity_path resource (pos n)))) [
        | inl e ↦ retrieve-text_in disk g resource (pos n) valid known ∙ ap text_in e
        | inr present ↦
            let there =
              (names_iff g resource (int_to_string (pos n)) ns known listed).1
                (is_name-int_to_string (pos n), present) in
            absurd (
              omega (
                arith,
                above,
                max_of_bounds 0 n (length (int_to_string (pos n))) (int_to_string (pos n)) ns there
                    (stoi-int_to_string (pos n) int),
              ))
      ]

  -- The outcome of `create` in a valid state.
  abbrev pub IsCreated : Files → Files → Bytes → Bytes → Option ℤ → Type 0
  IsCreated f h resource data_ (some id) =
      IsValid disk h
      × IsInt id
      × (retrieve disk f resource id ≡ none)
      × Becomes f h resource id (some data_)
  IsCreated f h resource data_ none = IsValid disk h × Same f h

  create_as_lem :
      (f g : Files) (resource data_ : Bytes) (ns : List Bytes)
      → IsValid disk f
      → is_name resource ≡ true
      → disk.create_directories (make_entity_dir resource) f ≡ some g
      → names g (make_entity_dir resource) ≡ some ns
      → IsCreated f
          (create_as disk resource data_ g (next_id (max_of 0 ns))).0
          resource
          data_
          (create_as disk resource data_ g (next_id (max_of 0 ns))).1
  create_as_lem f g resource data_ ns valid known made listed =
      let (still, same) = made_lem f g resource valid known made in
      elim (next_id_cases (max_of 0 ns)) [
        | inr (large, e) ↦ rw e (still, same)
        | inl (small, e) ↦ rw e (
            by_write (max_of 0 ns + 1) (omega arith) (omega (arith, small))
              (write (make_entity_path resource (pos (max_of 0 ns + 1))) data_ g) refl)
      ]
    where
      by_write :
          (n : ℕ)
          → max_of 0 ns < n
          → n ≤ int_max
          → (r : Option Files) → write (make_entity_path resource (pos n)) data_ g ≡ r
          → IsCreated f
              (written disk resource (pos n) data_ g r).0
              resource
              data_
              (written disk resource (pos n) data_ g r).1
      by_write n above int none wrote = made_lem f g resource valid known made
      by_write n above int (some h) wrote =
          let (still, same) = made_lem f g resource valid known made in
          let (valid_too, changes) =
            write_lem f g h resource data_ (pos n) valid known int made wrote in
          (
            valid_too,
            int,
            sym (same resource (pos n) known) ∙ unused g resource ns n still known listed above int,
            changes,
          )

  pub create_lem :
      (f h : Files) (resource data_ : Bytes) (o : Option ℤ)
      → IsValid disk f
      → is_name resource ≡ true
      → create disk resource data_ f ≡ some (h, o)
      → IsCreated f h resource data_ o
  unfolding create
  create_lem f h resource data_ o valid known e =
      elim (Option-cases (disk.create_directories (make_entity_dir resource) f)) [
        | inl thrown ↦ cc (rw (create, thrown) at e)
        | inr (g, made) ↦ elim (Option-cases (names g (make_entity_dir resource))) [
          | inl thrown ↦ cc (rw (create, made, thrown) at e)
          | inr (ns, listed) ↦
              let r : Files × Option ℤ = create_as disk resource data_ g (next_id (max_of 0 ns)) in
              let same : some r ≡ some (h, o) = rw (create, made, listed) at e in
              ended r (create_as_lem f g resource data_ ns valid known made listed) same
        ]
      ]
    where
      ended :
          (r : Files × Option ℤ)
          → IsCreated f r.0 resource data_ r.1
          → ◌≡◌ {A = Option (Files × Option ℤ)} (some r) (some (h, o))
          → IsCreated f h resource data_ o
      ended r made same =
          let left : r.0 ≡ h = cc in
          let right : r.1 ≡ o = cc in
          subst (λ x. IsCreated f x resource data_ o) left
            (subst (λ x. IsCreated f r.0 resource data_ x) right made)
