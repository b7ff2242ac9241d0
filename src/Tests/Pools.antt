-- ===== src/Tests/Pools.antt =====
-- A pool of two connections.
use creeper_url_shortening_w.Prelude.{
  ℕ, Bool, true, ◌==◌, ◌+◌, ◌≤◌, ◌<◌, ◌≡◌, ◌≢◌, refl, [], ◌∷◌, none, some, length,
}
use creeper_url_shortening_w.Pool.{
  Connections, connection_pool, size_of, acquire, release, replied, threw, redis_get, redis_gets,
}
use creeper_url_shortening_w.Pool.Opened.{connection_pool-exclusive}
use creeper_url_shortening_w.Prelude.Integer.{pos}
use creeper_url_shortening_w.Pool.Leaks.{errors, redis_gets-errors, redis_get_waits}
use creeper_url_shortening_w.Pool.Leases.{
  Shared, shared, acquired, released, Steps, done, more, count_all, Steps-count,
}

abbrev two : Connections
two = 1 ∷ 2 ∷ []

-- One thread takes a connection, then another one, and the first gives its own back.
turns : Steps (shared two []) (shared (1 ∷ []) (2 ∷ []))
unfolding acquire release
turns =
    more (acquired two (2 ∷ []) 1 [] refl)
      (more (acquired (2 ∷ []) [] 2 (1 ∷ []) refl) (more (released [] (2 ∷ []) 1 []) done))

Steps-count_example : count_all 1 (shared (1 ∷ []) (2 ∷ [])) ≡ count_all 1 (shared two [])
Steps-count_example = Steps-count 1 turns

abbrev first_two : Connections
first_two = 0 ∷ 1 ∷ []

abbrev opens : ℕ → Bool
opens i = true

opened_two : connection_pool opens (pos 2) ≡ some (0 ∷ 1 ∷ [])
unfolding connection_pool
opened_two = refl

-- One connection that does not open ends the process.
opened_none : connection_pool (λ i. i == 0) (pos 2) ≡ none
unfolding connection_pool
opened_none = refl

connection_pool-exclusive_example :
    (length first_two ≡ size_of (pos 2))
    × ((s : Shared) → Steps (shared first_two []) s → (c : ℕ) → count_all c s ≤ 1)
connection_pool-exclusive_example = connection_pool-exclusive opens (pos 2) first_two opened_two

redis_gets-errors_example :
    (errors (threw ∷ []) < length two → redis_gets (threw ∷ []) two ≢ none)
    × ((left : Connections)
        → redis_gets (threw ∷ []) two ≡ some left
        → length left + errors (threw ∷ []) ≡ length two)
redis_gets-errors_example = redis_gets-errors (threw ∷ []) two

redis_get_waits_example : redis_get (replied none) [] ≡ none
unfolding redis_gets errors
redis_get_waits_example = redis_get_waits (threw ∷ threw ∷ []) two [] (replied none) refl refl
