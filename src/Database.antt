-- ===== src/Database.antt =====
-- src/real_database_client.cc: the client of the URL table in Postgres, on a connection of its pool.
-- libpq and the server are an argument, which tells what each round of the loops meets.
pub mod Outcomes
use creeper_url_shortening_w.Pool.{Connections, acquire, release}
use creeper_url_shortening_w.Prelude.Text.{Bytes, str_eq}
use creeper_url_shortening_w.Prelude.{
  ℕ, ◌≡◌, ◌⊎◌, Bool, true, false, List, [], ◌∷◌, Option, none, some, ◌==◌, if◌then◌else◌,
}

-- A text parameter ends at its first NUL byte; its entry in `paramLengths` is not read.
unfoldable pub c_str : Bytes → Bytes
c_str [] = []
c_str (c ∷ s) = let rest = c_str s in if c == 0 then [] else c ∷ rest

-- The two queries, with their parameters.
pub data Query : Type 0 where
  upsert : Bytes → Bytes → Query
  select : Bytes → Query

-- `PQresultStatus`, and of rows the first column.
pub data PgResult : Type 0 where
  command_ok : PgResult
  tuples_ok : List Bytes → PgResult
  other_status : PgResult

-- What a round of a loop meets: `PQconsumeInput` fails, `PQisBusy`, or `PQgetResult` returns a null
-- pointer or a result.
pub data Poll : Type 0 where
  input_error busy no_result : Poll
  result : PgResult → Poll

-- The loop of `store`; `none` where it is not at its end behind the rounds.
unfoldable pub store_loop : Bool → List Poll → Option Bool
store_loop success [] = none
store_loop success (input_error ∷ rounds) = some success
store_loop success (busy ∷ rounds) = store_loop success rounds
store_loop success (no_result ∷ rounds) = some success
store_loop success (result command_ok ∷ rounds) = store_loop true rounds
store_loop success (result _ ∷ rounds) = store_loop success rounds

-- `if (PQntuples(res) > 0) result = PQgetvalue(res, 0, 0)`
abbrev pub first_row : List Bytes → Option Bytes → Option Bytes
first_row [] found = found
first_row (value ∷ values) found = some value

-- The loop of `lookup`.
unfoldable pub lookup_loop : Option Bytes → List Poll → Option (Option Bytes)
lookup_loop found [] = none
lookup_loop found (input_error ∷ rounds) = some found
lookup_loop found (busy ∷ rounds) = lookup_loop found rounds
lookup_loop found (no_result ∷ rounds) = some found
lookup_loop found (result (tuples_ok values) ∷ rounds) = lookup_loop (first_row values found) rounds
lookup_loop found (result _ ∷ rounds) = some found

-- A table, and what sending a query does: the table behind it, whether `PQsendQueryParams` returns 1,
-- and the rounds that follow.
pub record Sending (Db : Type 0) : Type 0 where
  pub db : Db
  pub sent : Bool
  pub rounds : List Poll

module _ {Db : Type 0} (send : Db → Query → Sending Db) where
  -- The connection goes back to the pool behind the loop, and where the query could not be sent.
  abbrev pub given_back :
      {A : Type 0} → Db → ℕ → Connections → Option A → Option (Db × Connections × A)
  given_back d conn rest none = none
  given_back d conn rest (some answer) = some (d, release conn rest, answer)

  abbrev pub store_on : Sending Db → ℕ → Connections → Option (Db × Connections × Bool)
  store_on sending conn rest =
      if sending.sent
      then given_back sending.db conn rest (store_loop false sending.rounds)
      else given_back sending.db conn rest (some false)

  -- `none` where the thread waits for a connection, or polls on.
  unfoldable pub store : Db → Bytes → Bytes → Connections → Option (Db × Connections × Bool)
  unfolding acquire c_str store_loop release
  store d short_code long_url connections = elim (acquire connections) [
    | none ↦ none
    | some (conn, rest) ↦ store_on (send d (upsert (c_str short_code) (c_str long_url))) conn rest
  ]

  abbrev pub lookup_on : Sending Db → ℕ → Connections → Option (Db × Connections × Option Bytes)
  lookup_on sending conn rest =
      if sending.sent
      then given_back sending.db conn rest (lookup_loop none sending.rounds)
      else given_back sending.db conn rest (some none)

  unfoldable pub lookup : Db → Bytes → Connections → Option (Db × Connections × Option Bytes)
  unfolding acquire c_str lookup_loop release
  lookup d short_code connections = elim (acquire connections) [
    | none ↦ none
    | some (conn, rest) ↦ lookup_on (send d (select (c_str short_code))) conn rest
  ]
