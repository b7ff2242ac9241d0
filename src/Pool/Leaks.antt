-- ===== src/Pool/Leaks.antt =====
-- What the errors of Redis leave of the pool.
use creeper_url_shortening_w.Prelude.{
  ℕ, suc, ◌+◌, ◌<◌, ◌≡◌, ◌≢◌, refl, ap, List, [], ◌∷◌, ◌++◌, none, some, length, length-append,
  arith,
}
use creeper_url_shortening_w.Pool.{Connections, Reply, replied, threw, redis_get, redis_gets}

-- How many of the calls throw.
unfoldable pub errors : List Reply → ℕ
errors [] = 0
errors (threw ∷ replies) = suc (errors replies)
errors (replied result ∷ replies) = errors replies

same_length : (a b : Connections) → some a ≡ some b → length b + 0 ≡ length a
same_length a b e = let same : a ≡ b = cc in omega (arith, ap length same)

-- Each error takes one connection out of the pool for good. As long as there are fewer errors than
-- connections every call is answered; once there are as many, the next call waits.
pub redis_gets-errors :
    (replies : List Reply) (connections : Connections)
    → (errors replies < length connections → redis_gets replies connections ≢ none)
      × ((left : Connections)
          → redis_gets replies connections ≡ some left
          → length left + errors replies ≡ length connections)
unfolding redis_gets errors
redis_gets-errors [] connections = (λ h f. cc f, λ left e. same_length connections left e)
redis_gets-errors (reply ∷ replies) [] = (λ h. absurd (omega (arith, h)), λ left e. cc e)
redis_gets-errors (threw ∷ replies) (conn ∷ connections) =
    let (answered, kept) = redis_gets-errors replies connections in
    (λ h. answered (omega (arith, h)), λ left e. omega (arith, kept left e))
redis_gets-errors (replied result ∷ replies) (conn ∷ connections) =
    let (answered, kept) = redis_gets-errors replies (connections ++ conn ∷ []) in
    let size = length-append connections (conn ∷ []) in
    (λ h. answered (omega (arith, h, size)), λ left e. omega (arith, kept left e, size))

-- Where as many calls have thrown as there were connections, the next call waits for ever.
pub redis_get_waits :
    (replies : List Reply) (connections left : Connections) (reply : Reply)
    → redis_gets replies connections ≡ some left
    → errors replies ≡ length connections
    → redis_get reply left ≡ none
unfolding redis_get
redis_get_waits replies connections [] reply e h = refl
redis_get_waits replies connections (conn ∷ left) reply e h =
    let kept = (redis_gets-errors replies connections).1 (conn ∷ left) e in
    absurd (omega (arith, kept, h))
