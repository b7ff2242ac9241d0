-- ===== src/Storage/Real/Implements.antt =====
-- The storage on disk as an implementation of the interface, for the resources that are names: not `.`
-- and not `..`.
use mathlib.Core.List.{Memᴰ}
use mathlib.Core.List.Memᴰ
use creeper_url_shortening_w.Prelude.Integer.{ℤ}
use creeper_url_shortening_w.Prelude.Stoi.{IsInt, int_to_string}
use creeper_url_shortening_w.Prelude.Text.{Bytes}
use creeper_url_shortening_w.Prelude.{
  ◌≡◌, ◌≢◌, ◌↔◌, refl, sym, ap, subst, ◌∙◌, inl, inr, Bool, true, false, List, [], ◌∷◌, Option,
  none, some, Option-cases,
}
use creeper_url_shortening_w.Storage.{IEntityStorage}
use creeper_url_shortening_w.Storage.Disk.{Disk, Node, absent, directory, file, is_name}
use creeper_url_shortening_w.Storage.Real.{
  make_entity_dir, make_entity_path, ids_among, list_node, list, retrieve, create, updated, update,
  remove,
}
use creeper_url_shortening_w.Storage.Real.Names.{is_name-int_to_string}
use creeper_url_shortening_w.Storage.Real.Ids.{ids_among-retrieve}
use creeper_url_shortening_w.Storage.Real.Laws.{Same, Becomes, write_lem, made_lem, create_lem}
use creeper_url_shortening_w.Storage.Real.Valid.{
  IsValid, text_in, absent_cases, retrieve-text_in, Keeps, Keeps-IsValid, Keeps-retrieve, Sets,
  Sets-retrieve, entity_path-are_names, names_are,
}

module _ (disk : Disk) where
  open disk use {Files, node, names, write, parent, names_some, remove_true, remove_false}

  -- The outcome of `update` in a valid state.
  abbrev pub IsUpdated : Files → Files → Bytes → ℤ → Bytes → Bool → Type 0
  IsUpdated f h resource id data_ true = IsValid disk h × Becomes disk f h resource id (some data_)
  IsUpdated f h resource id data_ false = IsValid disk h × Same disk f h

  pub update_lem :
      (f h : Files) (resource : Bytes) (id : ℤ) (data_ : Bytes) (b : Bool)
      → IsValid disk f
      → is_name resource ≡ true
      → IsInt id
      → update disk resource id data_ f ≡ some (h, b)
      → IsUpdated f h resource id data_ b
  unfolding update
  update_lem f h resource id data_ b valid known int e =
      elim (Option-cases (disk.create_directories (make_entity_dir resource) f)) [
        | inl thrown ↦ cc (rw (update, thrown) at e)
        | inr (g, made) ↦
            let same : some (updated disk g (write (make_entity_path resource id) data_ g))
                ≡ some (h, b) =
              rw (update, made) at e in
            by_write g (write (make_entity_path resource id) data_ g) made refl same
      ]
    where
      by_write :
          (g : Files) (r : Option Files)
          → disk.create_directories (make_entity_dir resource) f ≡ some g
          → write (make_entity_path resource id) data_ g ≡ r
          → ◌≡◌ {A = Option (Files × Bool)} (some (updated disk g r)) (some (h, b))
          → IsUpdated f h resource id data_ b
      by_write g none made wrote same =
          let left : g ≡ h = cc in
          let right : false ≡ b = cc in
          subst (λ x. IsUpdated f h resource id data_ x) right
            (subst (λ x. IsUpdated f x resource id data_ false) left
              (made_lem disk f g resource valid known made))
      by_write g (some k) made wrote same =
          let left : k ≡ h = cc in
          let right : true ≡ b = cc in
          subst (λ x. IsUpdated f h resource id data_ x) right
            (subst (λ x. IsUpdated f x resource id data_ true) left
              (write_lem disk f g k resource data_ id valid known int made wrote))

  pub remove_true_lem :
      (resource : Bytes) (id : ℤ) (f h : Files)
      → IsValid disk f
      → is_name resource ≡ true
      → IsInt id
      → remove disk resource id f ≡ some (h, true)
      → IsValid disk h × (retrieve disk f resource id ≢ none) × Becomes disk f h resource id none
  unfolding remove Sets
  remove_true_lem resource id f h valid known int e =
      let path_known = entity_path-are_names resource id known in
      let (still, changes) =
        Sets-retrieve disk f h resource id absent known int (inl refl) valid (λ other name k l.
          (remove_true (make_entity_path resource id) f h (other ∷ name ∷ []) path_known
            (names_are other name k l) e).1) in
      let present : node f (make_entity_path resource id) ≢ absent =
        (remove_true (make_entity_path resource id) f h (make_entity_path resource id) path_known
          path_known e).0 in
      let ((text, found), canonical) =
        valid resource (int_to_string id) known (is_name-int_to_string id) present in
      (
        still,
        λ gone. cc (sym gone ∙ retrieve-text_in disk f resource id valid known ∙ ap text_in found),
        changes,
      )

  pub remove_false_lem :
      (resource : Bytes) (id : ℤ) (f h : Files)
      → IsValid disk f
      → is_name resource ≡ true
      → remove disk resource id f ≡ some (h, false)
      → IsValid disk h × (retrieve disk f resource id ≡ none) × Same disk f h
  unfolding remove Keeps
  remove_false_lem resource id f h valid known e =
      let path_known = entity_path-are_names resource id known in
      let kept : Keeps disk f h = λ other name k l.
        (remove_false (make_entity_path resource id) f h (other ∷ name ∷ []) path_known
          (names_are other name k l) e).1 in
      let gone : node f (make_entity_path resource id) ≡ absent =
        (remove_false (make_entity_path resource id) f h (make_entity_path resource id) path_known
          path_known e).0 in
      (
        Keeps-IsValid disk f h kept valid,
        retrieve-text_in disk f resource id valid known ∙ ap text_in gone,
        Keeps-retrieve disk f h valid kept,
      )

  abbrev pub or_no_ids : Option (List ℤ) → List ℤ
  or_no_ids (some ids) = ids
  or_no_ids none = []

  nothing_in :
      (f : Files) (resource : Bytes)
      → IsValid disk f
      → is_name resource ≡ true
      → node f (make_entity_dir resource) ≢ directory
      → (id : ℤ) → IsInt id
      → Memᴰ id [] ↔ (retrieve disk f resource id ≢ none)
  nothing_in f resource valid known other id int = (
    λ h. absurd (Memᴰ.not-nil h),
    λ found. elim (absent_cases (node f (make_entity_path resource id))) [
      | inl e ↦ absurd (found (retrieve-text_in disk f resource id valid known ∙ ap text_in e))
      | inr present ↦ absurd (other (parent f resource (int_to_string id) present))
    ],
  )

  list_node_lem :
      (f : Files) (resource : Bytes) (n : Node)
      → IsValid disk f
      → is_name resource ≡ true
      → node f (make_entity_dir resource) ≡ n
      → (ids : List ℤ) × (list_node disk f resource n ≡ some ids)
        × ((id : ℤ) → IsInt id → Memᴰ id ids ↔ (retrieve disk f resource id ≢ none))
  list_node_lem f resource directory valid known e =
      let (ns, listed) = names_some f resource e in
      (
        ids_among disk f resource ns,
        rw listed refl,
        λ id int. ids_among-retrieve disk f resource ns id valid known int listed,
      )
  list_node_lem f resource absent valid known e =
      ([], refl, nothing_in f resource valid known (λ g. cc))
  list_node_lem f resource (file text) valid known e =
      ([], refl, nothing_in f resource valid known (λ g. cc))

  -- In a valid state `list` does not throw, and has the ids of the entities that `retrieve` finds.
  pub list_lem :
      (f : Files) (resource : Bytes)
      → IsValid disk f
      → is_name resource ≡ true
      → (ids : List ℤ) × (list disk f resource ≡ some ids)
        × ((id : ℤ) → IsInt id → Memᴰ id ids ↔ (retrieve disk f resource id ≢ none))
  unfolding list
  list_lem f resource valid known =
      list_node_lem f resource (node f (make_entity_dir resource)) valid known refl

  pub list_iff_lem :
      (resource : Bytes) (id : ℤ) (f : Files)
      → IsValid disk f
      → is_name resource ≡ true
      → IsInt id
      → Memᴰ id (or_no_ids (list disk f resource)) ↔ (retrieve disk f resource id ≢ none)
  list_iff_lem resource id f valid known int =
      let (ids, listed, h) = list_lem f resource valid known in
      subst (λ o. Memᴰ id (or_no_ids o) ↔ (retrieve disk f resource id ≢ none)) (sym listed)
        (h id int)

  abbrev pub real_entity_storage : IEntityStorage
  real_entity_storage = record {
    Storage = Files;
    create = create disk;
    retrieve = retrieve disk;
    update = update disk;
    remove = remove disk;
    list = λ f resource. or_no_ids (list disk f resource);
    is_resource = is_name;
    IsValid = IsValid disk;
    create_some = λ resource json f h id valid known e.
        create_lem disk f h resource json (some id) valid known e;
    create_none =
        λ resource json f h valid known e. create_lem disk f h resource json none valid known e;
    update_true = λ resource id json f h valid known int e.
        update_lem f h resource id json true valid known int e;
    update_false = λ resource id json f h valid known int e.
        update_lem f h resource id json false valid known int e;
    remove_true = remove_true_lem;
    remove_false =
        λ resource id f h valid known int e. remove_false_lem resource id f h valid known e;
    list_iff = list_iff_lem;
  }
