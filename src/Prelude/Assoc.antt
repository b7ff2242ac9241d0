-- ===== src/Prelude/Assoc.antt =====
-- A map with string keys as an association list: the `std::unordered_map`s and the tables of the
-- program that are only searched and written by key.
use creeper_url_shortening_w.Prelude.Text.{Bytes, str_eq, str_eq_iff}
use creeper_url_shortening_w.Prelude.{
  ◌≡◌, refl, List, [], ◌∷◌, Option, none, some, arith, if◌then◌else◌,
}

abbrev pub Assoc {ℓ} : Type ℓ → Type ℓ
Assoc V = List (Bytes × V)

module _ {ℓ} {V : Type ℓ} where
  -- `m.find(k)`
  unfoldable pub lookup : Bytes → Assoc V → Option V
  lookup k [] = none
  lookup k ((j, v) ∷ m) = if str_eq j k then some v else lookup k m

  -- `m[k] = v`
  unfoldable pub insert : Bytes → V → Assoc V → Assoc V
  insert k v [] = (k, v) ∷ []
  insert k v ((j, w) ∷ m) = if str_eq j k then (k, v) ∷ m else (j, w) ∷ insert k v m

  pub lookup-insert :
      (k j : Bytes) (v : V) (m : Assoc V)
      → lookup j (insert k v m) ≡ (if str_eq k j then some v else lookup j m)
  unfolding lookup insert
  lookup-insert k j v [] = refl
  lookup-insert k j v ((i, w) ∷ m) =
      ground (arith, str_eq_iff k j, str_eq_iff i k, str_eq_iff i j, lookup-insert k j v m)
