-- ===== src/Tests/Entities.antt =====
-- The storage in memory.
use mathlib.Core.List.{Memᴰ}
use creeper_url_shortening_w.Prelude.Assoc.{lookup}
use creeper_url_shortening_w.Prelude.Integer.{ℤ, pos, negsuc, int_eq}
use creeper_url_shortening_w.Prelude.Text.{Bytes, codes, str_eq}
use creeper_url_shortening_w.Prelude.{
  ℕ, ◌≤◌, ◌≡◌, ◌≢◌, ◌↔◌, ◌⊎◌, refl, true, false, ◌&&◌, [], ◌∷◌, none, some, if◌then◌else◌,
}
use creeper_url_shortening_w.Storage.Sim.{SimEntityStorage, int_max, create, retrieve, remove, list}
use creeper_url_shortening_w.Storage.Sim.Ids.{IsCreated, create_cases}
use creeper_url_shortening_w.Storage.Sim.Laws.{remove_cases, list-retrieve}

abbrev books : SimEntityStorage
books = (codes "Books", (negsuc 4, codes "[]") ∷ (pos 1, codes "{}") ∷ (pos 7, codes "1") ∷ []) ∷ []

created_8 : (create (codes "Books") (codes "2") books).1 ≡ some (pos 8)
unfolding create str_eq int_eq lookup
created_8 = refl

create_cases_example :
    ((n : ℕ) × ((create (codes "Books") (codes "2") books).1 ≡ some (pos n))
      × IsCreated (codes "Books") (codes "2") books (create (codes "Books") (codes "2") books).0 n)
    ⊎ ((k : ℕ) × (int_max ≤ k)
        × (retrieve (codes "Books") (pos k) books ≢ none)
        × (create (codes "Books") (codes "2") books ≡ (books, none)))
create_cases_example = create_cases (codes "Books") (codes "2") books

remove_cases_example :
    ((retrieve (codes "Books") (pos 1) books ≡ none)
      × (remove (codes "Books") (pos 1) books ≡ (books, false)))
    ⊎ ((retrieve (codes "Books") (pos 1) books ≢ none)
        × ((remove (codes "Books") (pos 1) books).1 ≡ true)
        × ((other : Bytes) (k : ℤ)
            → retrieve other k (remove (codes "Books") (pos 1) books).0 ≡ (
                if str_eq (codes "Books") other && int_eq (pos 1) k
                then none
                else retrieve other k books)))
remove_cases_example = remove_cases (codes "Books") (pos 1) books

list-retrieve_example :
    Memᴰ (pos 7) (list (codes "Books") books) ↔ (retrieve (codes "Books") (pos 7) books ≢ none)
list-retrieve_example = list-retrieve (codes "Books") (pos 7) books
