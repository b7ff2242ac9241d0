-- ===== src/Pool.antt =====
-- src/database_connection_pool.cc and src/redis_connection_pool.cc, which keep their connections in the
-- same way, and the use that src/real_redis_client.cc makes of its pool. A connection is a number. The
-- mutex makes each operation one step, and `cv_.wait` ends where the queue is not empty.
pub mod Leases
pub mod Leaks
pub mod Opened
use creeper_url_shortening_w.Prelude.Text.{Bytes}
use creeper_url_shortening_w.Prelude.Integer.{ℤ, pos, negsuc}
use creeper_url_shortening_w.Prelude.{
  zero, suc, ◌+◌, ◌-◌, ◌^◌, if◌then◌else◌, Bool, true, false, ℕ, List, [], ◌∷◌, ◌++◌, Option, none,
  some,
}

-- `connections_`, its front first
abbrev pub Connections : Type 0
Connections = List ℕ

-- `none`: the caller waits.
unfoldable pub acquire : Connections → Option (ℕ × Connections)
acquire [] = none
acquire (conn ∷ connections) = some (conn, connections)

unfoldable pub release : ℕ → Connections → Connections
release conn connections = connections ++ conn ∷ []

-- What `conn->get` does.
pub data Reply : Type 0 where
  replied : Option Bytes → Reply
  threw : Reply

-- behind `acquire`; an exception skips `release`
unfoldable pub after_reply : Reply → ℕ → Connections → Connections × Option Bytes
unfolding release
after_reply (replied result) conn connections = (release conn connections, result)
after_reply threw conn connections = (connections, none)

-- `RealRedisClient::get`; `none` where it waits.
unfoldable pub redis_get : Reply → Connections → Option (Connections × Option Bytes)
unfolding acquire after_reply
redis_get reply connections = elim (acquire connections) [
  | none ↦ none
  | some (conn, rest) ↦ some (after_reply reply conn rest)
]

-- One call after the other, up to the first that waits.
unfoldable pub redis_gets : List Reply → Connections → Option Connections
unfolding redis_get
redis_gets [] connections = some connections
redis_gets (reply ∷ replies) connections = elim (redis_get reply connections) [
  | none ↦ none
  | some (rest, result) ↦ redis_gets replies rest
]

-- `RealRedisClient::set`: whether `conn->set` returns; where it throws the process exits.
pub data Set : Type 0 where
  set_done : Connections → Set
  exits : Set

abbrev pub after_set : Bool → ℕ → Connections → Set
after_set true conn connections = set_done (release conn connections)
after_set false conn connections = exits

-- `none` where it waits.
unfoldable pub redis_set : Bool → Connections → Option Set
unfolding acquire release
redis_set ok connections = elim (acquire connections) [
  | none ↦ none
  | some (conn, rest) ↦ some (after_set ok conn rest)
]

-- The `int` of the config as the `size_t` of the constructors.
unfoldable pub size_of : ℤ → ℕ
size_of (pos n) = n
size_of (negsuc n) = 2 ^ 64 - 1 - n

abbrev push_front : ℕ → Option Connections → Option Connections
push_front conn none = none
push_front conn (some connections) = some (conn ∷ connections)

-- The loop of the constructors: whether each connection opens, and for Redis answers a ping. `none`:
-- the process exits.
unfoldable pub opened : (ℕ → Bool) → ℕ → ℕ → Option Connections
opened opens i zero = some []
opened opens i (suc n) =
    let rest = opened opens (i + 1) n in if opens i then push_front i rest else none

unfoldable pub connection_pool : (ℕ → Bool) → ℤ → Option Connections
unfolding opened size_of
connection_pool opens pool_size = opened opens 0 (size_of pool_size)
