-- ===== src/Tests/Disks.antt =====
-- A disk whose resources all have directories.
use mathlib.Core.List.{Memᴰ}
use mathlib.Core.List.Memᴰ
use creeper_url_shortening_w.Prelude.Assoc
use creeper_url_shortening_w.Prelude.Assoc.{Assoc, insert, lookup-insert}
use creeper_url_shortening_w.Prelude.Text.{Bytes, str_eq, str_eq_iff}
use creeper_url_shortening_w.Prelude.{
  ◌≡◌, ◌≢◌, ◌↔◌, ◌⊎◌, inl, inr, refl, sym, ap, subst, ◌∙◌, Bool, true, false, List, [], ◌∷◌, Option,
  none, some, Bool-cases, arith, if◌then◌else◌,
}
use creeper_url_shortening_w.Storage.Disk.{
  Disk, FilePath, Node, absent, directory, file, path_eq, is_above, is_name, are_names,
}
use creeper_url_shortening_w.Storage.Real.Valid.{IsValid, text_in}

-- The files of each resource.
abbrev pub Files : Type 0
Files = Bytes → Assoc Bytes

abbrev pub node_of : Option Bytes → Node
node_of none = absent
node_of (some text) = file text

abbrev pub node : Files → FilePath → Node
node f [] = directory
node f (r ∷ []) = directory
node f (r ∷ t ∷ []) = node_of (Assoc.lookup t (f r))
node f (r ∷ t ∷ u ∷ p) = absent

unfoldable pub keys : Assoc Bytes → List Bytes
keys [] = []
keys ((t, text) ∷ m) = let rest = keys m in if is_name t then t ∷ rest else rest

keys-lookup :
    (name : Bytes) (m : Assoc Bytes)
    → Memᴰ name (keys m) ↔ ((is_name name ≡ true) × (node_of (Assoc.lookup name m) ≢ absent))
unfolding keys Assoc.lookup
keys-lookup name [] = (λ h. absurd (Memᴰ.not-nil h), λ h. absurd (h.1 refl))
keys-lookup name ((t, text) ∷ m) = elim (Bool-cases (is_name t)) [
  | inl named ↦ elim (Bool-cases (str_eq t name)) [
    | inl e ↦
        let same : t ≡ name = (str_eq_iff t name).0 e in
        (λ h. (ap is_name (sym same) ∙ named, rw e (λ g. cc)), λ h. rw named (Memᴰ.head (sym same)))
    | inr e ↦ (
      λ h. rw e (
          (keys-lookup name m).0 (elim (rw named at h) [
            | Memᴰ.head f ↦ absurd (cc (e, (str_eq_iff t name).1 (sym f)))
            | Memᴰ.tail h' ↦ h'
          ])),
      λ h. rw named (Memᴰ.tail ((keys-lookup name m).1 (rw e at h))),
    )
  ]
  | inr other ↦ elim (Bool-cases (str_eq t name)) [
    | inl e ↦
        let same : t ≡ name = (str_eq_iff t name).0 e in
        (
          λ h. absurd (cc (ap is_name same, ((keys-lookup name m).0 (rw other at h)).0, other)),
          λ h. absurd (cc (ap is_name same, h.0, other)),
        )
    | inr e ↦ (
      λ h. rw e ((keys-lookup name m).0 (rw other at h)),
      λ h. rw other ((keys-lookup name m).1 (rw e at h)),
    )
  ]
]

abbrev pub names : Files → FilePath → Option (List Bytes)
names f (r ∷ []) = some (keys (f r))
names f _ = none

abbrev pub change : Files → Bytes → Assoc Bytes → Files
change f r m a = if str_eq r a then m else f a

abbrev pub put_file : FilePath → Bytes → Files → Option Files
put_file (r ∷ t ∷ []) text f = some (change f r (insert t text (f r)))
put_file _ text f = none

unfoldable pub drop_entry : Bytes → Assoc Bytes → Assoc Bytes
drop_entry k [] = []
drop_entry k ((j, w) ∷ m) = let rest = drop_entry k m in if str_eq j k then rest else (j, w) ∷ rest

lookup-drop_entry :
    (k j : Bytes) (m : Assoc Bytes)
    → Assoc.lookup j (drop_entry k m) ≡ (if str_eq k j then none else Assoc.lookup j m)
unfolding Assoc.lookup drop_entry
lookup-drop_entry k j [] = ground arith
lookup-drop_entry k j ((i, w) ∷ m) =
    ground (arith, str_eq_iff k j, str_eq_iff i k, str_eq_iff i j, lookup-drop_entry k j m)

abbrev pub erased : Bytes → Bytes → Files → Option Bytes → Files × Bool
erased r t f none = (f, false)
erased r t f (some text) = (change f r (drop_entry t (f r)), true)

abbrev pub take_file : FilePath → Files → Option (Files × Bool)
take_file (r ∷ t ∷ []) f = some (erased r t f (Assoc.lookup t (f r)))
take_file _ f = none

-- One directory is changed at one name.
change_node :
    (f : Files) (r t : Bytes) (m : Assoc Bytes) (o : Option Bytes) (q : FilePath)
    → ((j : Bytes) → Assoc.lookup j m ≡ (if str_eq t j then o else Assoc.lookup j (f r)))
    → node (change f r m) q ≡ (if path_eq (r ∷ t ∷ []) q then node_of o else node f q)
unfolding path_eq
change_node f r t m o [] h = refl
change_node f r t m o (a ∷ []) h = elim (Bool-cases (str_eq r a)) [
  | inl e ↦ rw e refl
  | inr e ↦ rw e refl
]
change_node f r t m o (a ∷ b ∷ c ∷ q) h = elim (Bool-cases (str_eq r a)) [
  | inl e ↦ elim (Bool-cases (str_eq t b)) [ inl k ↦ rw (e, k) refl | inr k ↦ rw (e, k) refl ]
  | inr e ↦ rw e refl
]
change_node f r t m o (a ∷ b ∷ []) h = elim (Bool-cases (str_eq r a)) [
  | inr e ↦ rw e refl
  | inl e ↦
      let same : f a ≡ f r = ap f (sym ((str_eq_iff r a).0 e)) in
      elim (Bool-cases (str_eq t b)) [
        | inl k ↦ rw (e, k) (ap node_of (h b ∙ rw k refl))
        | inr k ↦ rw (e, k) (ap node_of (h b ∙ rw k (ap (Assoc.lookup b) (sym same))))
      ]
]

pub read_file_lem :
    (f : Files) (p : FilePath) (text : Bytes)
    → node f p ≡ file text
    → text_in (node f p) ≡ some text
read_file_lem f p text e = ap text_in e

pub write_node_lem :
    (p : FilePath) (text : Bytes) (f g : Files) (q : FilePath)
    → are_names p ≡ true
    → are_names q ≡ true
    → put_file p text f ≡ some g
    → node g q ≡ (if path_eq p q then file text else node f q)
write_node_lem [] text f g q h k e = cc
write_node_lem (r ∷ []) text f g q h k e = cc
write_node_lem (r ∷ t ∷ u ∷ p) text f g q h k e = cc
write_node_lem (r ∷ t ∷ []) text f g q h k e =
    let same : change f r (insert t text (f r)) ≡ g = cc in
    ap (λ x. node x q) (sym same)
    ∙ change_node f r t (insert t text (f r)) (some text) q (λ j. lookup-insert t j text (f r))

erased-node :
    (f g : Files) (r t : Bytes) (o : Option Bytes) (b : Bool)
    → Assoc.lookup t (f r) ≡ o
    → ◌≡◌ {A = Option (Files × Bool)} (some (erased r t f o)) (some (g, b))
    → ((b ≡ true)
        × (o ≢ none)
        × ((q : FilePath) → node g q ≡ (if path_eq (r ∷ t ∷ []) q then absent else node f q)))
      ⊎ ((b ≡ false) × (o ≡ none) × (f ≡ g))
erased-node f g r t none b here e = inr (cc, refl, cc)
erased-node f g r t (some text) b here e =
    let same : change f r (drop_entry t (f r)) ≡ g = cc in
    inl (
      cc,
      λ h. cc,
      λ q.
          ap (λ x. node x q) (sym same)
          ∙ change_node f r t (drop_entry t (f r)) none q (λ j. lookup-drop_entry t j (f r)),
    )

remove_cases_at :
    (p : FilePath) (f g : Files) (b : Bool)
    → take_file p f ≡ some (g, b)
    → ((b ≡ true)
        × (node f p ≢ absent)
        × ((q : FilePath) → node g q ≡ (if path_eq p q then absent else node f q)))
      ⊎ ((b ≡ false) × (node f p ≡ absent) × (f ≡ g))
remove_cases_at [] f g b e = cc
remove_cases_at (r ∷ []) f g b e = cc
remove_cases_at (r ∷ t ∷ u ∷ p) f g b e = cc
remove_cases_at (r ∷ t ∷ []) f g b e = elim (erased-node f g r t (Assoc.lookup t (f r)) b refl e) [
  | inl (told, present, changed) ↦
      inl (told, node_of-ne-absent (Assoc.lookup t (f r)) present, changed)
  | inr (told, gone, same) ↦ inr (told, ap node_of gone, same)
]
  where
    node_of-ne-absent : (o : Option Bytes) → o ≢ none → node_of o ≢ absent
    node_of-ne-absent none h = absurd (h refl)
    node_of-ne-absent (some text) h = λ e. cc

pub remove_true_at :
    (p : FilePath) (f g : Files) (q : FilePath)
    → are_names p ≡ true
    → are_names q ≡ true
    → take_file p f ≡ some (g, true)
    → (node f p ≢ absent) × (node g q ≡ (if path_eq p q then absent else node f q))
remove_true_at p f g q h k e = elim (remove_cases_at p f g true e) [
  | inl (told, present, changed) ↦ (present, changed q)
  | inr (told, gone, same) ↦ cc
]

pub remove_false_at :
    (p : FilePath) (f g : Files) (q : FilePath)
    → are_names p ≡ true
    → are_names q ≡ true
    → take_file p f ≡ some (g, false)
    → (node f p ≡ absent) × (node g q ≡ node f q)
remove_false_at p f g q h k e = elim (remove_cases_at p f g false e) [
  | inl (told, present, changed) ↦ cc
  | inr (told, gone, same) ↦ (gone, ap (λ x. node x q) (sym same))
]

pub keys_at :
    (f : Files) (resource name : Bytes) (ns : List Bytes)
    → is_name resource ≡ true
    → names f (resource ∷ []) ≡ some ns
    → Memᴰ name ns ↔ ((is_name name ≡ true) × (node f (resource ∷ name ∷ []) ≢ absent))
keys_at f resource name ns h e =
    let same : keys (f resource) ≡ ns = cc in
    subst (λ l. Memᴰ name l ↔ ((is_name name ≡ true) × (node f (resource ∷ name ∷ []) ≢ absent)))
      same (keys-lookup name (f resource))

pub kept :
    (p : FilePath) (f g : Files) (q : FilePath)
    → are_names p ≡ true
    → are_names q ≡ true
    → ◌≡◌ {A = Option Files} (some f) (some g)
    → is_above q p ≡ false
    → node g q ≡ node f q
kept p f g q h k e apart = let same : f ≡ g = cc in ap (λ x. node x q) (sym same)

abbrev pub disk : Disk
disk = record {
  Files = Files;
  node = node;
  names = names;
  read = λ f p. text_in (node f p);
  write = put_file;
  create_directories = λ p f. some f;
  remove = take_file;
  parent = λ f resource name present. refl;
  names_some = λ f resource h. (keys (f resource), refl);
  names_iff = keys_at;
  read_file = read_file_lem;
  read_absent = λ f p e. ap text_in e;
  write_node = write_node_lem;
  create_directories_keeps = kept;
  remove_true = remove_true_at;
  remove_false = remove_false_at;
}

abbrev pub new_disk : Files
new_disk resource = []

pub new_disk-IsValid : IsValid disk new_disk
unfolding Assoc.lookup
new_disk-IsValid resource name known h there = absurd (there refl)
