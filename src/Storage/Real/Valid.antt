-- ===== src/Storage/Real/Valid.antt =====
-- The states of the disk in which the storage keeps its promises: in the directory of a resource
-- stand only files, and those whose names `std::stoi` reads a number of have the names of ids.
use creeper_url_shortening_w.Prelude.Integer.{ℤ, int_eq}
use creeper_url_shortening_w.Prelude.Stoi.{IsInt, number, stoi, int_to_string}
use creeper_url_shortening_w.Prelude.Text.{Bytes, str_eq, str_eq_iff}
use creeper_url_shortening_w.Prelude.{
  ℕ, ◌≡◌, ◌≢◌, refl, sym, ap, subst, ◌∙◌, ◌⊎◌, inl, inr, Bool, true, false, ◌&&◌, [], ◌∷◌, Option,
  none, some, Bool-cases, if◌then◌else◌,
}
use creeper_url_shortening_w.Storage.Disk.{
  Disk, Node, absent, directory, file, path_eq, is_name, are_names,
}
use creeper_url_shortening_w.Storage.Real.{make_entity_dir, make_entity_path, retrieve}
use creeper_url_shortening_w.Storage.Real.Names.{
  is_name-int_to_string, path_eq_names, is_above_names, path_eq-int_to_string, stoi_names,
}

abbrev pub IsEntity : Bytes → Node → Type 0
IsEntity name n =
    ((text : Bytes) × (n ≡ file text))
    × ((v : ℤ) (i : ℕ) → stoi name ≡ number v i → name ≡ int_to_string v)

-- The text of a file
abbrev pub text_in : Node → Option Bytes
text_in (file text) = some text
text_in absent = none
text_in directory = none

pub absent_cases : (n : Node) → (n ≡ absent) ⊎ (n ≢ absent)
absent_cases absent = inl refl
absent_cases directory = inr (λ e. cc e)
absent_cases (file text) = inr (λ e. cc e)

pub names_are : (a t : Bytes) → is_name a ≡ true → is_name t ≡ true → are_names (a ∷ t ∷ []) ≡ true
unfolding are_names
names_are a t h k = rw (h, k) refl

pub entity_path-are_names :
    (a : Bytes) (id : ℤ) → is_name a ≡ true → are_names (make_entity_path a id) ≡ true
entity_path-are_names a id h = names_are a (int_to_string id) h (is_name-int_to_string id)

pub entity_dir-are_names : (a : Bytes) → is_name a ≡ true → are_names (make_entity_dir a) ≡ true
unfolding are_names
entity_dir-are_names a h = rw h refl

module _ (disk : Disk) where
  open disk use {
    Files, node, names, read, write, read_file, read_absent, write_node, create_directories_keeps,
  }

  abbrev pub IsValid : Files → Type 0
  IsValid f =
      (resource name : Bytes)
      → is_name resource ≡ true
      → is_name name ≡ true
      → node f (resource ∷ name ∷ []) ≢ absent
      → IsEntity name (node f (resource ∷ name ∷ []))

  -- What is stored, as the tree has it.
  pub retrieve-text_in :
      (f : Files) (resource : Bytes) (k : ℤ)
      → IsValid f
      → is_name resource ≡ true
      → retrieve disk f resource k ≡ text_in (node f (make_entity_path resource k))
  unfolding retrieve
  retrieve-text_in f resource k valid known =
      elim (absent_cases (node f (make_entity_path resource k))) [
        | inl e ↦ read_absent f (make_entity_path resource k) e ∙ ap text_in (sym e)
        | inr e ↦
            let ((text, found), canonical) =
              valid resource (int_to_string k) known (is_name-int_to_string k) e in
            read_file f (make_entity_path resource k) text found ∙ ap text_in (sym found)
      ]

  unfoldable pub Keeps : Files → Files → Type 0
  Keeps f g =
      (resource name : Bytes)
      → is_name resource ≡ true
      → is_name name ≡ true
      → node g (resource ∷ name ∷ []) ≡ node f (resource ∷ name ∷ [])

  pub Keeps-IsValid : (f g : Files) → Keeps f g → IsValid f → IsValid g
  unfolding Keeps
  Keeps-IsValid f g kept valid resource name known h there =
      let same = kept resource name known h in
      subst (IsEntity name) (sym same) (valid resource name known h (λ e. there (same ∙ e)))

  pub Keeps-retrieve :
      (f g : Files)
      → IsValid f
      → Keeps f g
      → (other : Bytes) (k : ℤ) → is_name other ≡ true
      → retrieve disk g other k ≡ retrieve disk f other k
  unfolding Keeps
  Keeps-retrieve f g valid kept other k known =
      retrieve-text_in g other k (Keeps-IsValid f g kept valid) known
      ∙ ap text_in (kept other (int_to_string k) known (is_name-int_to_string k))
      ∙ sym (retrieve-text_in f other k valid known)

  -- Making the directory of a resource keeps what is in the directories.
  pub create_directories-Keeps :
      (f g : Files) (resource : Bytes)
      → is_name resource ≡ true
      → disk.create_directories (make_entity_dir resource) f ≡ some g
      → Keeps f g
  unfolding Keeps
  create_directories-Keeps f g resource known made other name h k =
      create_directories_keeps (make_entity_dir resource) f g (other ∷ name ∷ [])
        (entity_dir-are_names resource known) (names_are other name h k) made
        (is_above_names other resource name)

  -- At the path of an entity the node is `n`; the others are as before.
  unfoldable pub Sets : Files → Files → Bytes → ℤ → Node → Type 0
  Sets f g resource id n =
      (other name : Bytes)
      → is_name other ≡ true
      → is_name name ≡ true
      → node g (other ∷ name ∷ []) ≡ (
          if path_eq (make_entity_path resource id) (other ∷ name ∷ [])
          then n
          else node f (other ∷ name ∷ []))

  Sets-IsValid :
      (f g : Files) (resource : Bytes) (id : ℤ) (n : Node)
      → IsInt id
      → (n ≡ absent) ⊎ ((text : Bytes) × (n ≡ file text))
      → Sets f g resource id n
      → IsValid f
      → IsValid g
  unfolding Sets
  Sets-IsValid f g resource id n int shape sets valid other name known h there =
      elim (Bool-cases (path_eq (make_entity_path resource id) (other ∷ name ∷ []))) [
        | inl e ↦
            let same : node g (other ∷ name ∷ []) ≡ n = sets other name known h ∙ rw e refl in
            elim shape [
              | inl gone ↦ absurd (there (same ∙ gone))
              | inr (text, found) ↦ ((text, same ∙ found), canonical (own e))
            ]
        | inr e ↦
            let same : node g (other ∷ name ∷ []) ≡ node f (other ∷ name ∷ []) =
              sets other name known h ∙ rw e refl in
            subst (IsEntity name) (sym same) (valid other name known h (λ a. there (same ∙ a)))
      ]
    where
      own :
          path_eq (make_entity_path resource id) (other ∷ name ∷ []) ≡ true
          → int_to_string id ≡ name
      own e =
          let both : str_eq resource other && str_eq (int_to_string id) name ≡ true =
            sym (path_eq_names resource other (int_to_string id) name) ∙ e in
          (str_eq_iff (int_to_string id) name).0 (second (str_eq resource other) both)
        where
          second : (b : Bool) {c : Bool} → b && c ≡ true → c ≡ true
          second true e = e
          second false e = cc

      canonical :
          int_to_string id ≡ name
          → (v : ℤ) (i : ℕ) → stoi name ≡ number v i
          → name ≡ int_to_string v
      canonical own_name v i e = sym own_name ∙ stoi_names id v i int (ap stoi own_name ∙ e)

  if-text_in :
      (b : Bool) (n m : Node) → text_in (if b then n else m) ≡ (if b then text_in n else text_in m)
  if-text_in true n m = refl
  if-text_in false n m = refl

  -- A file that was written or removed: the state stays valid, and the entity changes, and no other.
  pub Sets-retrieve :
      (f g : Files) (resource : Bytes) (id : ℤ) (n : Node)
      → is_name resource ≡ true
      → IsInt id
      → (n ≡ absent) ⊎ ((text : Bytes) × (n ≡ file text))
      → IsValid f
      → Sets f g resource id n
      → IsValid g
        × ((other : Bytes) (k : ℤ)
            → is_name other ≡ true
            → retrieve disk g other k ≡ (
                if str_eq resource other && int_eq id k
                then text_in n
                else retrieve disk f other k))
  unfolding Sets
  Sets-retrieve f g resource id n known int shape valid sets =
      let still : IsValid g = Sets-IsValid f g resource id n int shape sets valid in
      (
        still,
        λ other k h.
            retrieve-text_in g other k still h
            ∙ ap text_in (
                sets other (int_to_string k) h (is_name-int_to_string k)
                ∙ ap (λ b. if b then n else node f (make_entity_path other k))
                    (path_eq-int_to_string resource other id k))
            ∙ if-text_in (str_eq resource other && int_eq id k) n
                (node f (make_entity_path other k))
            ∙ ap (λ t. if str_eq resource other && int_eq id k then text_in n else t)
                (sym (retrieve-text_in f other k valid h)),
      )
