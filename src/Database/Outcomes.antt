-- ===== src/Database/Outcomes.antt =====
-- What the client answers, over a server that keeps the documented behaviour of its queries.
use creeper_url_shortening_w.Database.{
  Query, upsert, select, PgResult, command_ok, tuples_ok, other_status, Poll, input_error, busy,
  no_result, result, Sending, c_str, first_row, store_loop, lookup_loop, store_on, lookup_on, store,
  lookup,
}
use creeper_url_shortening_w.Pool.{Connections, release}
use creeper_url_shortening_w.Prelude.Text.{Bytes, str_eq}
use creeper_url_shortening_w.Prelude.{
  ℕ, ◌≡◌, ◌≢◌, ◌∙◌, refl, ap, ◌⊎◌, inl, inr, Bool, true, false, List, [], ◌∷◌, ◌++◌, Option, none,
  some, if◌then◌else◌, Bool-cases,
}

-- The rounds behind a result: it was the only one, or the connection is lost.
pub data Closing : List Poll → Type 0 where
  closing_busy : (rounds : List Poll) → Closing rounds → Closing (busy ∷ rounds)
  closed : (rounds : List Poll) → Closing (no_result ∷ rounds)
  closing_lost : (rounds : List Poll) → Closing (input_error ∷ rounds)

-- The rounds behind a query that was sent: its result comes, or an error.
pub data Replying (answer : PgResult) : List Poll → Type 0 where
  reply_busy : (rounds : List Poll) → Replying answer rounds → Replying answer (busy ∷ rounds)
  answered : (rounds : List Poll) → Closing rounds → Replying answer (result answer ∷ rounds)
  refused : (rounds : List Poll) → Closing rounds → Replying answer (result other_status ∷ rounds)
  lost : (rounds : List Poll) → Replying answer (input_error ∷ rounds)

-- What arrives first.
unfoldable pub arrives : List Poll → Option PgResult
arrives [] = none
arrives (busy ∷ rounds) = arrives rounds
arrives (result answer ∷ rounds) = some answer
arrives (_ ∷ rounds) = none

abbrev pub rows : Option Bytes → List Bytes
rows none = []
rows (some long_url) = long_url ∷ []

module _ {Db : Type 0} (view : Db → Bytes → Option Bytes) where
  abbrev pub Writes : Db → Db → Bytes → Bytes → Type 0
  Writes d e k v = (j : Bytes) → view e j ≡ (if str_eq k j then some v else view d j)

  abbrev pub Keeps : Db → Db → Type 0
  Keeps d e = (j : Bytes) → view e j ≡ view d j

-- Postgres and libpq. A query that was sent is answered; where an upsert is said to be done it is, and
-- where it is not, or no answer comes, it was done as a whole or not at all.
pub record Postgres : Type 1 where
  pub Db : Type 0
  pub view : Db → Bytes → Option Bytes
  pub send : Db → Query → Sending Db
  pub upsert_replies :
      (d : Db) (k v : Bytes)
      → (send d (upsert k v)).sent ≡ true
      → Replying command_ok (send d (upsert k v)).rounds
  pub upsert_done :
      (d : Db) (k v : Bytes)
      → (send d (upsert k v)).sent ≡ true
      → arrives (send d (upsert k v)).rounds ≡ some command_ok
      → Writes view d (send d (upsert k v)).db k v
  pub upsert_unknown :
      (d : Db) (k v : Bytes)
      → Writes view d (send d (upsert k v)).db k v ⊎ Keeps view d (send d (upsert k v)).db
  pub upsert_unsent :
      (d : Db) (k v : Bytes)
      → (send d (upsert k v)).sent ≡ false
      → Keeps view d (send d (upsert k v)).db
  pub select_replies :
      (d : Db) (k : Bytes)
      → (send d (select k)).sent ≡ true
      → Replying (tuples_ok (rows (view d k))) (send d (select k)).rounds
  pub select_keeps : (d : Db) (k : Bytes) → Keeps view d (send d (select k)).db

store_loop-Closing :
    (success : Bool) (rounds : List Poll)
    → Closing rounds
    → store_loop success rounds ≡ some success
unfolding store_loop
store_loop-Closing success rounds (closing_busy rest h) = store_loop-Closing success rest h
store_loop-Closing success rounds (closed rest) = refl
store_loop-Closing success rounds (closing_lost rest) = refl

-- The loop ends, and says that the upsert is done where its result arrives.
store_loop-Replying :
    (rounds : List Poll)
    → Replying command_ok rounds
    → ((arrives rounds ≡ some command_ok) × (store_loop false rounds ≡ some true))
      ⊎ ((arrives rounds ≢ some command_ok) × (store_loop false rounds ≡ some false))
unfolding store_loop arrives
store_loop-Replying rounds (reply_busy rest h) = store_loop-Replying rest h
store_loop-Replying rounds (answered rest h) = inl (refl, store_loop-Closing true rest h)
store_loop-Replying rounds (refused rest h) = inr (λ e. cc e, store_loop-Closing false rest h)
store_loop-Replying rounds (lost rest) = inr (λ e. cc e, refl)

lookup_loop-Closing :
    (found : Option Bytes) (rounds : List Poll)
    → Closing rounds
    → lookup_loop found rounds ≡ some found
unfolding lookup_loop
lookup_loop-Closing found rounds (closing_busy rest h) = lookup_loop-Closing found rest h
lookup_loop-Closing found rounds (closed rest) = refl
lookup_loop-Closing found rounds (closing_lost rest) = refl

first_row-rows : (o : Option Bytes) → first_row (rows o) none ≡ o
first_row-rows none = refl
first_row-rows (some long_url) = refl

lookup_loop-Replying :
    (o : Option Bytes) (rounds : List Poll)
    → Replying (tuples_ok (rows o)) rounds
    → ((arrives rounds ≡ some (tuples_ok (rows o))) × (lookup_loop none rounds ≡ some o))
      ⊎ ((arrives rounds ≢ some (tuples_ok (rows o))) × (lookup_loop none rounds ≡ some none))
unfolding lookup_loop arrives
lookup_loop-Replying o rounds (reply_busy rest h) = lookup_loop-Replying o rest h
lookup_loop-Replying o rounds (answered rest h) =
    inl (refl, lookup_loop-Closing (first_row (rows o) none) rest h ∙ ap some (first_row-rows o))
lookup_loop-Replying o rounds (refused rest h) = inr (λ e. cc e, refl)
lookup_loop-Replying o rounds (lost rest) = inr (λ e. cc e, refl)

module _ (postgres : Postgres) where
  open postgres use {
    Db, view, send, upsert_replies, upsert_done, upsert_unknown, upsert_unsent, select_replies,
    select_keeps,
  }

  -- What `store` did: it answers true and the upsert is done; or it answers false, and then it did not
  -- send the query and nothing is changed, or the result did not arrive.
  abbrev pub IsStored : Db → Db → Bytes → Bytes → Bool → Type 0
  IsStored d e k v true = Writes view d e k v
  IsStored d e k v false =
      (((send d (upsert k v)).sent ≡ false) × Keeps view d e)
      ⊎ ((arrives (send d (upsert k v)).rounds ≢ some command_ok)
          × (Writes view d e k v ⊎ Keeps view d e))

  store_on_lem :
      (d : Db) (k v : Bytes) (conn : ℕ) (rest : Connections)
      → (b : Bool) × (store_on send (send d (upsert k v)) conn rest
          ≡ some ((send d (upsert k v)).db, release conn rest, b))
        × IsStored d (send d (upsert k v)).db k v b
  store_on_lem d k v conn rest = elim (Bool-cases (send d (upsert k v)).sent) [
    | inl sent ↦
        elim (store_loop-Replying (send d (upsert k v)).rounds (upsert_replies d k v sent)) [
          | inl (arrived, e) ↦ (true, rw (sent, e) refl, upsert_done d k v sent arrived)
          | inr (missed, e) ↦ (false, rw (sent, e) refl, inr (missed, upsert_unknown d k v))
        ]
    | inr unsent ↦ (false, rw unsent refl, inl (unsent, upsert_unsent d k v unsent))
  ]

  -- `store` on a pool with a connection ends and gives the connection back. Where it answers true, the
  -- table has the URL under the code, both up to their first NUL byte, and is else as before; where it
  -- answers false, the query was not sent and the table is as before, or its result did not arrive, and
  -- then the upsert was done as a whole or not at all.
  pub store-IsStored :
      (d : Db) (short_code long_url : Bytes) (conn : ℕ) (rest : Connections)
      → (e : Db) × (b : Bool) × (store send d short_code long_url (conn ∷ rest)
          ≡ some (e, rest ++ conn ∷ [], b))
        × IsStored d e (c_str short_code) (c_str long_url) b
  unfolding store release
  store-IsStored d short_code long_url conn rest =
      let (b, e, h) = store_on_lem d (c_str short_code) (c_str long_url) conn rest in
      ((send d (upsert (c_str short_code) (c_str long_url))).db, b, e, h)

  -- What `lookup` answers: the table's entry, or, where the query was not sent or its result did not
  -- arrive, nothing.
  abbrev pub IsFound : Db → Bytes → Option Bytes → Type 0
  IsFound d k answer =
      (answer ≡ view d k)
      ⊎ ((answer ≡ none)
          × (((send d (select k)).sent ≡ false)
              ⊎ (arrives (send d (select k)).rounds ≢ some (tuples_ok (rows (view d k))))))

  lookup_on_lem :
      (d : Db) (k : Bytes) (conn : ℕ) (rest : Connections)
      → (answer : Option Bytes) × (lookup_on send (send d (select k)) conn rest
          ≡ some ((send d (select k)).db, release conn rest, answer))
        × IsFound d k answer
  lookup_on_lem d k conn rest = elim (Bool-cases (send d (select k)).sent) [
    | inl sent ↦
        elim (lookup_loop-Replying (view d k) (send d (select k)).rounds
          (select_replies d k sent)) [
            | inl (arrived, e) ↦ (view d k, rw (sent, e) refl, inl refl)
            | inr (missed, e) ↦ (none, rw (sent, e) refl, inr (refl, inr missed))
          ]
    | inr unsent ↦ (none, rw unsent refl, inr (refl, inl unsent))
  ]

  -- `lookup` on a pool with a connection ends, gives the connection back and keeps the table. It answers
  -- the URL that the table has under the code up to its first NUL byte, if any; or it answers nothing,
  -- and then the query was not sent or its result did not arrive.
  pub lookup-IsFound :
      (d : Db) (short_code : Bytes) (conn : ℕ) (rest : Connections)
      → (e : Db) × (answer : Option Bytes) × (lookup send d short_code (conn ∷ rest)
          ≡ some (e, rest ++ conn ∷ [], answer))
        × Keeps view d e
        × IsFound d (c_str short_code) answer
  unfolding lookup release
  lookup-IsFound d short_code conn rest =
      let (answer, e, h) = lookup_on_lem d (c_str short_code) conn rest in
      ((send d (select (c_str short_code))).db, answer, e, select_keeps d (c_str short_code), h)
