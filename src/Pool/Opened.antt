-- ===== src/Pool/Opened.antt =====
-- A pool that its constructor has filled.
use creeper_url_shortening_w.Prelude.Integer.{ℤ}
use creeper_url_shortening_w.Prelude.{
  ℕ, zero, suc, ◌+◌, ◌≤◌, ◌<◌, ◌≡◌, refl, subst, inl, inr, Bool, [], ◌∷◌, some, length, arith,
  Bool-cases, Option-cases,
}
use creeper_url_shortening_w.Pool.{Connections, opened, size_of, connection_pool}
use creeper_url_shortening_w.Pool.Leases.{Shared, shared, Steps, count, count_all, Steps-exclusive}

-- Each connection is there once, and none before the first number.
opened-count :
    (opens : ℕ → Bool) (i n : ℕ) (pool : Connections)
    → opened opens i n ≡ some pool
    → (length pool ≡ n) × ((c : ℕ) → (count c pool ≤ 1) × (c < i → count c pool ≡ 0))
unfolding opened count
opened-count opens i zero pool e = ended pool cc
  where
    ended :
        (pool : Connections)
        → [] ≡ pool
        → (length pool ≡ 0) × ((c : ℕ) → (count c pool ≤ 1) × (c < i → count c pool ≡ 0))
    ended [] e = (refl, λ c. (omega arith, λ h. refl))
    ended (conn ∷ rest) e = cc
opened-count opens i (suc n) pool e = elim (Bool-cases (opens i)) [
  | inr failed ↦ cc (rw failed at e)
  | inl opens_i ↦ elim (Option-cases (opened opens (i + 1) n)) [
    | inl exited ↦ cc (rw (opens_i, exited) at e)
    | inr (rest, made) ↦
        let same : i ∷ rest ≡ pool = cc (rw (opens_i, made) at e) in
        let (size, once) = opened-count opens (i + 1) n rest made in
        subst (λ p. (length p ≡ suc n) × ((c : ℕ) → (count c p ≤ 1) × (c < i → count c p ≡ 0))) same
          (omega (arith, size), λ c. with_first c rest (once c).0 (once c).1)
  ]
]
  where
    with_first :
        (c : ℕ) (rest : Connections)
        → count c rest ≤ 1
        → (c < i + 1 → count c rest ≡ 0)
        → (count c (i ∷ rest) ≤ 1) × (c < i → count c (i ∷ rest) ≡ 0)
    with_first c rest le zero_before = ground arith

-- Behind the constructor the pool has as many connections as its size says, and no two threads ever
-- hold the same one.
pub connection_pool-exclusive :
    (opens : ℕ → Bool) (pool_size : ℤ) (pool : Connections)
    → connection_pool opens pool_size ≡ some pool
    → (length pool ≡ size_of pool_size)
      × ((s : Shared) → Steps (shared pool []) s → (c : ℕ) → count_all c s ≤ 1)
unfolding connection_pool
connection_pool-exclusive opens pool_size pool e =
    let (size, once) = opened-count opens 0 (size_of pool_size) pool e in
    (size, λ s steps c. Steps-exclusive pool s (λ d. (once d).0) steps c)
