-- ===== src/Pool/Leases.antt =====
-- Threads that acquire and release connections, in whatever order their steps come.
use creeper_url_shortening_w.Prelude.{
  ℕ, suc, ◌+◌, ◌≤◌, ◌≡◌, refl, ap, ◌∙◌, List, [], ◌∷◌, ◌++◌, some, ◌==◌, if◌then◌else◌, arith,
}
use creeper_url_shortening_w.Pool.{Connections, acquire, release}

-- The pool, and the connections that threads hold.
pub record Shared : Type 0 where
  pub connections : Connections
  pub held : List ℕ

abbrev pub shared : Connections → List ℕ → Shared
shared connections held = record { connections = connections; held = held }

-- One thread gets a connection, or gives back one that it holds.
pub data Step : Shared → Shared → Type 0 where
  acquired :
      (connections rest : Connections) (conn : ℕ) (held : List ℕ)
      → acquire connections ≡ some (conn, rest)
      → Step (shared connections held) (shared rest (conn ∷ held))
  released :
      (connections : Connections) (before : List ℕ) (conn : ℕ) (after : List ℕ)
      → Step
          (shared connections (before ++ conn ∷ after))
          (shared (release conn connections) (before ++ after))

pub data Steps : Shared → Shared → Type 0 where
  done : {s : Shared} → Steps s s
  more : {s t u : Shared} → Step s t → Steps t u → Steps s u

-- How often the connection stands in the list.
unfoldable pub count : ℕ → List ℕ → ℕ
count conn [] = 0
count conn (c ∷ cs) = let rest = count conn cs in if c == conn then suc rest else rest

count-append : (c : ℕ) (xs ys : List ℕ) → count c (xs ++ ys) ≡ count c xs + count c ys
unfolding count
count-append c [] ys = omega arith
count-append c (x ∷ xs) ys = ground (arith, count-append c xs ys)

count_middle :
    (c conn : ℕ) (xs ys : List ℕ)
    → count c (xs ++ conn ∷ ys) ≡ count c (conn ∷ []) + count c (xs ++ ys)
unfolding count
count_middle c conn xs ys = ground (arith, count-append c xs (conn ∷ ys), count-append c xs ys)

-- In the pool and in the hands of threads together.
abbrev pub count_all : ℕ → Shared → ℕ
count_all c s = count c s.connections + count c s.held

acquire-count :
    (c conn : ℕ) (connections rest : Connections)
    → acquire connections ≡ some (conn, rest)
    → count c connections ≡ count c (conn ∷ []) + count c rest
unfolding acquire count
acquire-count c conn [] rest e = cc e
acquire-count c conn (x ∷ xs) rest e =
    let head : x ≡ conn = cc in let tail : xs ≡ rest = cc in ground (arith, head, ap (count c) tail)

Step-count : (c : ℕ) {s t : Shared} → Step s t → count_all c t ≡ count_all c s
unfolding release
Step-count c (acquired connections rest conn held e) =
    omega (arith, acquire-count c conn connections rest e, count_middle c conn [] held)
Step-count c (released connections before conn after) =
    omega (arith, count-append c connections (conn ∷ []), count_middle c conn before after)

-- However the steps of the threads are mixed, no connection is lost and none is made: each stands in
-- the pool and with the threads together as often as before.
pub Steps-count : (c : ℕ) {s t : Shared} → Steps s t → count_all c t ≡ count_all c s
Steps-count c done = refl
Steps-count c (more step steps) = Steps-count c steps ∙ Step-count c step

-- Where every connection stands in the pool once and no thread holds any, no two threads hold the same
-- connection later, and none that a thread holds is in the pool.
pub Steps-exclusive :
    (connections : Connections) (s : Shared)
    → ((c : ℕ) → count c connections ≤ 1)
    → Steps (shared connections []) s
    → (c : ℕ) → count_all c s ≤ 1
unfolding count
Steps-exclusive connections s once steps c = omega (arith, once c, Steps-count c steps)
