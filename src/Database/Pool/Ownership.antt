-- ===== src/Database/Pool/Ownership.antt =====
-- Who holds the indexes of the pool.
use ecs_asio_server.Common.{
  ℕ, zero, suc, ◌+◌, ◌≤◌, ◌≡◌, refl, sym, ap, ◌∙◌, List, [], ◌∷◌, Bool, true, false, Option, none,
  some, ◌==◌, ltb, leb, ◌&&◌, if◌then◌else◌, arith, if_cases, Bool-cases, inl, inr, length,
  replicate, length-replicate, times, times-append,
}
use ecs_asio_server.Common.Tables.{
  find, erase_key, assign, NoRepeat, erase_key-NoRepeat, assign-NoRepeat, erase_key_absent,
  find-erase_key,
}
use ecs_asio_server.Database.Pool.{
  connected, Pool, Holding, new_pool, set_at, open_turn, open_loop, open_pool, opened, release,
  released, acquire, taken, acquire_into, drop_connection, move_connection, put, raw, close_pool,
}

-- How often an index stands among what the variables hold, and in one variable.
pub held_times : ℕ → List (ℕ × ℕ) → ℕ
held_times i [] = 0
held_times i ((v, x) ∷ held) = (if i == x then 1 else 0) + held_times i held

abbrev pub holds : ℕ → Option ℕ → ℕ
holds i none = 0
holds i (some x) = if i == x then 1 else 0

abbrev pub owned_times : ℕ → Holding → ℕ
owned_times i h = times i h.pool.free_indices + held_times i h.held

held_times-erase_key :
    (i v : ℕ) (held : List (ℕ × ℕ))
    → NoRepeat held
    → held_times i held ≡ holds i (find v held) + held_times i (erase_key v held)
unfolding held_times find erase_key
held_times-erase_key i v [] k = refl
held_times-erase_key i v ((w, x) ∷ held) k = elim (Bool-cases (v == w)) [
  | inl q ↦ rw q (
      ap (λ t. (if i == x then 1 else 0) + held_times i t)
        (sym (erase_key_absent v held (ground (arith, k.0)))))
  | inr q ↦ rw q (omega (arith, held_times-erase_key i v held k.1))
]

released_lem :
    (i : ℕ) (o : Option ℕ) (p : Pool)
    → times i (released o p).free_indices ≡ times i p.free_indices + holds i o
unfolding release
released_lem i none p = omega arith
released_lem i (some x) p = times-append i p.free_indices (x ∷ []) ∙ unfold times in omega arith

put_lem :
    (i v : ℕ) (o : Option ℕ) (held : List (ℕ × ℕ))
    → held_times i (put v o held) ≡ holds i o + held_times i (erase_key v held)
unfolding held_times assign
put_lem i v none held = omega arith
put_lem i v (some x) held = refl

put-NoRepeat :
    (v : ℕ) (o : Option ℕ) (held : List (ℕ × ℕ)) → NoRepeat held → NoRepeat (put v o held)
put-NoRepeat v none held k = erase_key-NoRepeat v held k
put-NoRepeat v (some x) held k = assign-NoRepeat v x held k

acquire_lem :
    (i : ℕ) (p : Pool)
    → times i p.free_indices ≡ times i (acquire p).0.free_indices + holds i (acquire p).1
unfolding acquire
acquire_lem i p = by_free p.free_indices refl
  where
    by_free :
        (xs : List ℕ)
        → p.free_indices ≡ xs
        → times i p.free_indices ≡ times i (taken xs p).0.free_indices + holds i (taken xs p).1
    by_free [] e = omega arith
    by_free (x ∷ xs) e = ap (times i) e ∙ unfold times in omega arith

-- What the program does with its variables.
pub data Call : Type 0 where
  acquires : ℕ → Call
  destroys : ℕ → Call
  moves : ℕ → ℕ → Call

unfoldable pub call : Call → Holding → Holding
call (acquires v) h = acquire_into v h
call (destroys v) h = drop_connection v h
call (moves v o) h = move_connection v o h

unfoldable pub calls : List Call → Holding → Holding
calls [] h = h
calls (c ∷ cs) h = calls cs (call c h)

call-owned_times :
    (i : ℕ) (c : Call) (h : Holding)
    → NoRepeat h.held
    → NoRepeat (call c h).held × (owned_times i (call c h) ≡ owned_times i h)
unfolding call acquire_into drop_connection move_connection
call-owned_times i (acquires v) h k =
    let got = (acquire h.pool).1 in
    (
      put-NoRepeat v got h.held k,
      omega (
        arith,
        acquire_lem i h.pool,
        released_lem i (find v h.held) (acquire h.pool).0,
        put_lem i v got h.held,
        held_times-erase_key i v h.held k,
      ),
    )
call-owned_times i (destroys v) h k = (
  erase_key-NoRepeat v h.held k,
  omega (arith, released_lem i (find v h.held) h.pool, held_times-erase_key i v h.held k),
)
call-owned_times i (moves v o) h k =
    if_cases (λ (g : Holding). NoRepeat g.held × (owned_times i g ≡ owned_times i h)) (v == o)
      (λ same. (k, refl))
      (λ differ.
        let rest = erase_key o h.held in
        let kept = erase_key-NoRepeat o h.held k in
        let alike : find v rest ≡ find v h.held =
          ground (arith, find-erase_key o v h.held, differ) in
        (
          put-NoRepeat v (find o h.held) rest kept,
          omega (
            arith,
            released_lem i (find v h.held) h.pool,
            put_lem i v (find o h.held) rest,
            held_times-erase_key i o h.held k,
            held_times-erase_key i v rest kept,
            ap (holds i) alike,
          ),
        ))

calls-owned_times :
    (i : ℕ) (cs : List Call) (h : Holding)
    → NoRepeat h.held
    → NoRepeat (calls cs h).held × (owned_times i (calls cs h) ≡ owned_times i h)
unfolding calls
calls-owned_times i [] h k = (k, refl)
calls-owned_times i (c ∷ cs) h k =
    let one = call-owned_times i c h k in
    let rest = calls-owned_times i cs (call c h) one.0 in (rest.0, rest.1 ∙ one.1)

raw-set_at :
    (j i c : ℕ) (cs : List (Option ℕ))
    → raw j (set_at i c cs) ≡ (if j == i && ltb i (length cs) then some (some c) else raw j cs)
unfolding raw
raw-set_at j i c [] = ground arith
raw-set_at zero zero c (x ∷ cs) = ground arith
raw-set_at zero (suc i) c (x ∷ cs) = ground arith
raw-set_at (suc j) zero c (x ∷ cs) = ground arith
raw-set_at (suc j) (suc i) c (x ∷ cs) = ground (arith, raw-set_at j i c cs)

length-set_at : (i c : ℕ) (cs : List (Option ℕ)) → length (set_at i c cs) ≡ length cs
length-set_at i c [] = refl
length-set_at zero c (x ∷ cs) = refl
length-set_at (suc i) c (x ∷ cs) = ap suc (length-set_at i c cs)

abbrev between : ℕ → ℕ → ℕ → Bool
between i j k = leb i j && ltb j k

module _ (handle : ℕ → ℕ) where
  open_loop_lem :
      (i left j : ℕ) (p : Pool)
      → i + left ≤ length p.connections
      → ((open_loop (λ n. connected (handle n)) i left (true, p)).0 ≡ true)
        × (times j (open_loop (λ n. connected (handle n)) i left (true, p)).1.free_indices
            ≡ times j p.free_indices + (if between i j (i + left) then 1 else 0))
        × (raw j (open_loop (λ n. connected (handle n)) i left (true, p)).1.connections
            ≡ (if between i j (i + left) then some (some (handle j)) else raw j p.connections))
  unfolding open_loop
  open_loop_lem i zero j p h = (refl, ground arith, ground arith)
  open_loop_lem i (suc left) j p h =
      let q = (open_turn i (connected (handle i)) p).1 in
      let rest =
        open_loop_lem (i + 1) left j q (omega (arith, length-set_at i (handle i) p.connections)) in
      (
        rest.0,
        rest.1 ∙ ground (arith, times-append j p.free_indices (i ∷ []), one j i),
        rest.2 ∙ ground (arith, raw-set_at j i (handle i) p.connections, h, ap handle),
      )
    where
      one : (j i : ℕ) → times j (i ∷ []) ≡ (if j == i then 1 else 0)
      one j i = unfold times in omega arith

released-connections : (o : Option ℕ) (p : Pool) → (released o p).connections ≡ p.connections
unfolding release
released-connections none p = refl
released-connections (some x) p = refl

call-connections : (c : Call) (h : Holding) → (call c h).pool.connections ≡ h.pool.connections
unfolding call acquire_into drop_connection move_connection acquire
call-connections (acquires v) h = released-connections (find v h.held) _ ∙ kept h.pool.free_indices
  where
    kept : (xs : List ℕ) → (taken xs h.pool).0.connections ≡ h.pool.connections
    kept [] = refl
    kept (x ∷ xs) = refl
call-connections (destroys v) h = released-connections (find v h.held) h.pool
call-connections (moves v o) h =
    if_cases (λ (g : Holding). g.pool.connections ≡ h.pool.connections) (v == o) (λ _. refl)
      (λ _. released-connections (find v h.held) h.pool)

calls-connections :
    (cs : List Call) (h : Holding) → (calls cs h).pool.connections ≡ h.pool.connections
unfolding calls
calls-connections [] h = refl
calls-connections (c ∷ cs) h = calls-connections cs (call c h) ∙ call-connections c h

abbrev vacant : Option ℕ
vacant = none

raw-replicate : (j n : ℕ) → raw j (replicate n vacant) ≡ (if ltb j n then some none else none)
unfolding raw
raw-replicate j zero = ground arith
raw-replicate zero (suc n) = ground arith
raw-replicate (suc j) (suc n) = ground (arith, raw-replicate j n)

-- A pool of n connections, just opened, and no variable that holds one.
abbrev pub fresh_pool : (ℕ → ℕ) → ℕ → Holding
fresh_pool handle n = record {
  pool = (open_pool (λ k. connected (handle k)) n new_pool).1;
  held = [];
}

-- A pool of n connections that MySQL all grants. Whatever variables then acquire, move and destroy: every
-- index below n stands once, either among the free ones or in one variable, and no other index does;
-- and raw gives each index below n the connection that was opened for it.
pub calls-owned_once :
    (handle : ℕ → ℕ) (n : ℕ) (cs : List Call) (i : ℕ)
    → (owned_times i (calls cs (fresh_pool handle n)) ≡ (if ltb i n then 1 else 0))
      × (raw i (calls cs (fresh_pool handle n)).pool.connections
          ≡ (if ltb i n then some (some (handle i)) else none))
unfolding open_pool
calls-owned_once handle n cs i =
    let start : Pool = record new_pool { connections = replicate n none } in
    let r = open_loop (λ k. connected (handle k)) 0 n (true, start) in
    let (ok, free, handles) =
      open_loop_lem handle 0 n i start (omega (arith, length-replicate n vacant)) in
    let done = opened_lem r ok in
    (
      (calls-owned_times i cs (fresh_pool handle n) tt).1
          ∙ ground
              (arith, ap (λ (p : Pool). times i p.free_indices) done, free, none_free, none_yet),
      ap (raw i) (calls-connections cs (fresh_pool handle n))
          ∙ ground (arith, ap (λ (p : Pool). raw i p.connections) done, handles, raw-replicate i n),
    )
  where
    opened_lem : (r : Bool × Pool) → r.0 ≡ true → (opened r).1 ≡ record r.1 { is_open = true }
    opened_lem (true, p) e = refl
    opened_lem (false, p) e = absurd cc

    none_yet : held_times i [] ≡ 0
    none_yet = unfold held_times in refl

    none_free : times i [] ≡ 0
    none_free = unfold times in refl

-- A variable holds the index i when the pool is closed. When it is destroyed after that, i is free
-- again, so the next acquire of the closed pool gives i, and raw reads connections_ out of its range.
pub close_pool-stale :
    (v i : ℕ) (h : Holding)
    → find v h.held ≡ some i
    → ((acquire (drop_connection v (record h { pool = close_pool h.pool })).pool).1 ≡ some i)
      × (raw i (drop_connection v (record h { pool = close_pool h.pool })).pool.connections ≡ none)
      × ((drop_connection v (record h { pool = close_pool h.pool })).pool.is_open ≡ false)
unfolding drop_connection close_pool acquire release raw
close_pool-stale v i h e = (rw e refl, rw e refl, rw e refl)
