-- ===== src/Database/PlayerDao.antt =====
-- server/db/dao/player_dao.cpp: the attempts of its calls. What the pool and the database answer to each
-- attempt is a parameter: a function of the number of the attempt.
pub mod Attempts
use ecs_asio_server.Common.{
  ℕ, zero, suc, ◌+◌, ◌*◌, List, [], ◌∷◌, Bool, true, false, ◌||◌, Option, none, some, ltb, ◌==◌,
  if◌then◌else◌,
}

-- db_connection.hpp
unfoldable pub is_retryable_mysql_error : ℕ → Bool
is_retryable_mysql_error err = (err == 2006) || ((err == 2013) || ((err == 1213) || (err == 1205)))

abbrev pub max_attempts : ℕ
max_attempts = 3

-- acquire() gives no valid connection; mysql_query is done, or fails with an error. The first number of
-- each is the milliseconds that acquire() waited.
pub data Reply : Type 0 where
  no_connection : ℕ → Reply
  done : ℕ → Reply
  failed : ℕ → ℕ → Reply

-- The milliseconds of retry_delay, 0 after the last attempt.
unfoldable pub delay : ℕ → ℕ
delay attempt = if ltb attempt max_attempts then 50 * attempt else 0

-- A result, and the milliseconds that acquire() and retry_delay took; the time of MySQL is not counted.
abbrev pub later : {A : Type 0} → ℕ → A × ℕ → A × ℕ
later ms (a, total) = (a, ms + total)

unfoldable pub save_turn : ℕ → Reply → Bool × ℕ → Bool × ℕ
save_turn attempt (no_connection waited) rest = (false, waited)
save_turn attempt (done waited) rest = (true, waited)
save_turn attempt (failed waited err) rest =
    if is_retryable_mysql_error err then later (waited + delay attempt) rest else (false, waited)

-- The loop of save_position and save_stats from an attempt on, with as many left.
unfoldable pub save_loop : (ℕ → Reply) → ℕ → ℕ → Bool × ℕ
save_loop reply attempt zero = (false, 0)
save_loop reply attempt (suc left) =
    save_turn attempt (reply attempt) (save_loop reply (attempt + 1) left)

unfoldable pub save_position : (ℕ → Reply) → Bool × ℕ
save_position reply = save_loop reply 1 max_attempts

unfoldable pub save_stats : (ℕ → Reply) → Bool × ℕ
save_stats reply = save_loop reply 1 max_attempts

-- The INSERT of an attempt: executed, not prepared, or refused with an error. A SELECT that fails gives
-- none, as one without a row does.
pub data Insert : Type 0 where
  executed : Insert
  unprepared : Insert
  refused : ℕ → Insert

pub data Attempt (A : Type 0) : Type 0 where
  unconnected : ℕ → Attempt A
  connected : ℕ → Insert → Option A → Attempt A

module _ {A : Type 0} where
  abbrev pub selected : ℕ → ℕ → Option A → Option A × ℕ → Option A × ℕ
  selected attempt waited (some r) rest = (some r, waited)
  selected attempt waited none rest = later (waited + delay attempt) rest

  unfoldable pub find_turn : ℕ → Attempt A → Option A × ℕ → Option A × ℕ
  find_turn attempt (unconnected waited) rest = (none, waited)
  find_turn attempt (connected waited executed r) rest = selected attempt waited r rest
  find_turn attempt (connected waited unprepared r) rest = selected attempt waited r rest
  find_turn attempt (connected waited (refused err) r) rest =
      if is_retryable_mysql_error err then later (waited + delay attempt) rest else (none, waited)

  unfoldable pub find_loop : (ℕ → Attempt A) → ℕ → ℕ → Option A × ℕ
  find_loop reply attempt zero = (none, 0)
  find_loop reply attempt (suc left) =
      find_turn attempt (reply attempt) (find_loop reply (attempt + 1) left)

  unfoldable pub find_or_create : (ℕ → Attempt A) → Option A × ℕ
  find_or_create reply = find_loop reply 1 max_attempts
