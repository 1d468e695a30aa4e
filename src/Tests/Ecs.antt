-- ===== src/Tests/Ecs.antt =====
-- Entities, stores and components at concrete inputs.
use ecs_asio_server.Common.{ℕ, refl, List, [], ◌∷◌, true, arith}
use ecs_asio_server.Ecs.Entities.{fresh_manager}
use ecs_asio_server.Ecs.Entities.Accounts.{Ok}
use ecs_asio_server.Ecs.Entities.Calls.{
  Call, create, create_many, destroy, destroy_many, run, fresh_manager-Ok, run-Ok,
}
use ecs_asio_server.Ecs.Store.{has}
use ecs_asio_server.Ecs.Store.Laws.{Keys}
use ecs_asio_server.Ecs.Health.{Health, Sound}

abbrev calls : List Call
calls = create ∷ create_many 3 ∷ destroy 2 ∷ destroy_many (1 ∷ 7 ∷ []) ∷ []

run-Ok_example : Ok (run calls fresh_manager)
run-Ok_example = run-Ok calls fresh_manager fresh_manager-Ok (omega arith)

abbrev two : List (ℕ × ℕ)
two = (1, 10) ∷ (2, 20) ∷ []

two-Keys : Keys two
unfolding has
two-Keys = (refl, (refl, tt))

abbrev wounded : Health
wounded = record { hp = 40; max_hp = 100; mp = 50; max_mp = 50; is_alive = true }

wounded-Sound : Sound wounded
wounded-Sound = record { within = omega arith; alive = refl; word = omega arith }
