-- ===== src/Database/PlayerDao/Attempts.antt =====
-- When a call of the player DAO succeeds, and how long it waits.
use ecs_asio_server.Common.{ℕ, ◌+◌, ◌≤◌, ◌≡◌, refl, Bool, true, false, ◌||◌, ◌&&◌, arith}
use ecs_asio_server.Database.PlayerDao.{
  is_retryable_mysql_error, Reply, no_connection, done, failed, delay, save_turn, save_loop,
  save_position, save_stats,
}

-- The reply that ends the loop with success, and those after which it goes on.
abbrev pub is_done : Reply → Bool
is_done (no_connection waited) = false
is_done (done waited) = true
is_done (failed waited err) = false

abbrev pub goes_on : Reply → Bool
goes_on (no_connection waited) = false
goes_on (done waited) = false
goes_on (failed waited err) = is_retryable_mysql_error err

abbrev pub waited_of : Reply → ℕ
waited_of (no_connection waited) = waited
waited_of (done waited) = waited
waited_of (failed waited err) = waited

turn_lem :
    (attempt : ℕ) (r : Reply) (rest : Bool × ℕ)
    → ((save_turn attempt r rest).0 ≡ (is_done r || (goes_on r && rest.0)))
      × ((save_turn attempt r rest).1 ≤ waited_of r + delay attempt + rest.1)
unfolding save_turn
turn_lem attempt (no_connection waited) rest = (refl, omega arith)
turn_lem attempt (done waited) rest = (refl, omega arith)
turn_lem attempt (failed waited err) rest = ground arith

-- Whatever the database answers, where acquire waits 5 seconds at most for a connection: save_position
-- and save_stats succeed exactly if one of the first three attempts does and each attempt before it failed
-- with an error that may be tried again. The time that acquire and the delays between the attempts take is
-- 15150 milliseconds at most in all; what MySQL takes for its queries is not counted.
pub save-attempts :
    (reply : ℕ → Reply)
    → ((attempt : ℕ) → waited_of (reply attempt) ≤ 5000)
    → ((save_position reply).0 ≡ (
        is_done (reply 1)
        || (goes_on (reply 1) && (is_done (reply 2) || (goes_on (reply 2) && is_done (reply 3))))))
      × ((save_position reply).1 ≤ 15150)
      × (save_stats reply ≡ save_position reply)
unfolding save_position save_stats save_loop delay
save-attempts reply five =
    let third = turn_lem 3 (reply 3) (false, 0) in
    let second = turn_lem 2 (reply 2) (save_turn 3 (reply 3) (false, 0)) in
    let first = turn_lem 1 (reply 1) (save_turn 2 (reply 2) (save_turn 3 (reply 3) (false, 0))) in
    (
      ground (arith, third.0, second.0, first.0),
      omega (arith, third.1, second.1, first.1, five 1, five 2, five 3),
      refl,
    )
