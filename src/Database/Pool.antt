-- ===== src/Database/Pool.antt =====
-- server/db/db_connection.cpp: the pool of the connections to MySQL and the DbConnection objects that
-- hold one each. mtx_ guards every call of the pool, so each is one step.
pub mod Ownership
use ecs_asio_server.Common.{
  ℕ, zero, suc, ◌+◌, List, [], ◌∷◌, ◌++◌, map, Bool, true, false, Option, none, some, replicate,
  ◌==◌, if◌then◌else◌,
}
use ecs_asio_server.Common.Tables.{find, erase_key, assign}

-- What mysql_init and mysql_real_connect answer: nothing, a handle that is not connected, or a connection.
pub data MysqlAnswer : Type 0 where
  no_handle : MysqlAnswer
  refused : ℕ → MysqlAnswer
  connected : ℕ → MysqlAnswer

-- connections_ holds a null pointer where no connection is; `ended` are the handles that were given to
-- mysql_close, the last one first.
pub record Pool : Type 0 where
  pub connections : List (Option ℕ)
  pub free_indices : List ℕ
  pub is_open : Bool
  pub ended : List ℕ

abbrev pub new_pool : Pool
new_pool = record { connections = []; free_indices = []; is_open = false; ended = [] }

unfoldable pub end_all : List (Option ℕ) → List ℕ → List ℕ
end_all [] ended = ended
end_all (none ∷ cs) ended = end_all cs ended
end_all (some c ∷ cs) ended = end_all cs (c ∷ ended)

unfoldable pub close_pool : Pool → Pool
close_pool p = record {
  connections = [];
  free_indices = [];
  is_open = false;
  ended = end_all p.connections p.ended;
}

-- `connections_[i] = c`
abbrev pub set_at : ℕ → ℕ → List (Option ℕ) → List (Option ℕ)
set_at i c [] = []
set_at zero c (x ∷ cs) = some c ∷ cs
set_at (suc i) c (x ∷ cs) = x ∷ set_at i c cs

-- The loop of open from an index on, with as many turns left; `answer` is what MySQL answers to a turn.
abbrev pub open_turn : ℕ → MysqlAnswer → Pool → Bool × Pool
open_turn i no_handle p = (false, close_pool p)
open_turn i (refused c) p = (false, close_pool (record p { ended = c ∷ p.ended }))
open_turn i (connected c) p = (
  true,
  record p { connections = set_at i c p.connections; free_indices = p.free_indices ++ (i ∷ []) },
)

abbrev pub opened : Bool × Pool → Bool × Pool
opened (true, p) = (true, record p { is_open = true })
opened (false, p) = (false, p)

module _ (answer : ℕ → MysqlAnswer) where
  unfoldable pub open_loop : ℕ → ℕ → Bool × Pool → Bool × Pool
  open_loop i zero r = r
  open_loop i (suc left) (false, p) = (false, p)
  open_loop i (suc left) (true, p) = open_loop (i + 1) left (open_turn i (answer i) p)

  -- connections_.resize on a pool that is not open finds it empty.
  unfoldable pub open_pool : ℕ → Pool → Bool × Pool
  open_pool pool_size p =
      if p.is_open
      then (true, p)
      else opened
          (open_loop 0 pool_size (true, record p { connections = replicate pool_size none }))

-- The pool and the DbConnection variables that hold an index, each by a name.
pub record Holding : Type 0 where
  pub pool : Pool
  pub held : List (ℕ × ℕ)

unfoldable pub release : ℕ → Pool → Pool
release index p = record p { free_indices = p.free_indices ++ (index ∷ []) }

-- None where nothing is free within the five seconds.
abbrev pub taken : List ℕ → Pool → Pool × Option ℕ
taken [] p = (p, none)
taken (index ∷ rest) p = (record p { free_indices = rest }, some index)

unfoldable pub acquire : Pool → Pool × Option ℕ
acquire p = taken p.free_indices p

-- `pool_->release(index_)` where the variable holds one.
abbrev pub released : Option ℕ → Pool → Pool
released none p = p
released (some index) p = release index p

-- The destructor.
unfoldable pub drop_connection : ℕ → Holding → Holding
drop_connection v h = record { pool = released (find v h.held) h.pool; held = erase_key v h.held }

abbrev pub put : ℕ → Option ℕ → List (ℕ × ℕ) → List (ℕ × ℕ)
put v none held = erase_key v held
put v (some index) held = assign v index held

-- The move assignment `v = std::move(o)` between two variables.
unfoldable pub move_connection : ℕ → ℕ → Holding → Holding
move_connection v o h = if v == o then h else record {
  pool = released (find v h.held) h.pool;
  held = put v (find o h.held) (erase_key o h.held);
}

-- `v = pool.acquire()`: the connection is acquired before that of v is released.
unfoldable pub acquire_into : ℕ → Holding → Holding
acquire_into v h =
    let (p, got) = acquire h.pool in
    record { pool = released (find v h.held) p; held = put v got h.held }

unfoldable pub raw : ℕ → List (Option ℕ) → Option (Option ℕ)
raw index [] = none
raw zero (c ∷ cs) = some c
raw (suc index) (c ∷ cs) = raw index cs
