-- ===== src/Tests/Databases.antt =====
-- The client of the URL table, over a server that answers every query.
use creeper_url_shortening_w.Database.{
  Query, upsert, select, PgResult, command_ok, tuples_ok, Poll, busy, no_result, result, Sending,
  c_str, store, lookup,
}
use creeper_url_shortening_w.Database.Outcomes.{
  Postgres, Replying, reply_busy, answered, closing_busy, closed, rows, IsStored, store-IsStored,
  IsFound, Keeps, lookup-IsFound,
}
use creeper_url_shortening_w.Prelude.Assoc
use creeper_url_shortening_w.Prelude.Assoc.{Assoc, insert, lookup-insert}
use creeper_url_shortening_w.Prelude.Text.{Bytes, codes, str_eq}
use creeper_url_shortening_w.Prelude.{
  ◌≡◌, refl, inl, Bool, true, false, List, [], ◌∷◌, ◌++◌, Option, some,
}

abbrev reply : PgResult → List Poll
reply answer = busy ∷ result answer ∷ busy ∷ no_result ∷ []

abbrev sending : Assoc Bytes → Query → Sending (Assoc Bytes)
sending db (upsert k v) = record { db = insert k v db; sent = true; rounds = reply command_ok }
sending db (select k) = record {
  db = db;
  sent = true;
  rounds = reply (tuples_ok (rows (Assoc.lookup k db)));
}

replies : (answer : PgResult) → Replying answer (reply answer)
replies answer =
    reply_busy (result answer ∷ busy ∷ no_result ∷ [])
      (answered (busy ∷ no_result ∷ []) (closing_busy (no_result ∷ []) (closed [])))

never :
    (d : Assoc Bytes) (k v : Bytes)
    → true ≡ false
    → (j : Bytes) → Assoc.lookup j (insert k v d) ≡ Assoc.lookup j d
never d k v e = cc

abbrev table : Postgres
table = record {
  Db = Assoc Bytes;
  view = λ db k. Assoc.lookup k db;
  send = sending;
  upsert_replies = λ d k v sent. replies command_ok;
  upsert_done = λ d k v sent arrived j. lookup-insert k j v d;
  upsert_unknown = λ d k v. inl (λ j. lookup-insert k j v d);
  upsert_unsent = λ d k v unsent. never d k v unsent;
  select_replies = λ d k sent. replies (tuples_ok (rows (Assoc.lookup k d)));
  select_keeps = λ d k j. refl;
}

store-IsStored_example :
    (e : Assoc Bytes) × (b : Bool) × (store sending [] (codes "a") (codes "http://x") (1 ∷ 2 ∷ [])
      ≡ some (e, 2 ∷ [] ++ 1 ∷ [], b))
    × IsStored table [] e (c_str (codes "a")) (c_str (codes "http://x")) b
store-IsStored_example = store-IsStored table [] (codes "a") (codes "http://x") 1 (2 ∷ [])

abbrev stored : Assoc Bytes
stored = (codes "a", codes "http://x") ∷ []

lookup_run :
    lookup sending stored (codes "a") (1 ∷ 2 ∷ [])
    ≡ some (stored, 2 ∷ 1 ∷ [], some (codes "http://x"))
unfolding lookup Assoc.lookup c_str str_eq
lookup_run = refl

lookup-IsFound_example :
    (e : Assoc Bytes) × (answer : Option Bytes) × (lookup sending stored (codes "a") (1 ∷ 2 ∷ [])
      ≡ some (e, 2 ∷ [] ++ 1 ∷ [], answer))
    × Keeps (λ db k. Assoc.lookup k db) stored e
    × IsFound table stored (c_str (codes "a")) answer
lookup-IsFound_example = lookup-IsFound table stored (codes "a") 1 (2 ∷ [])
