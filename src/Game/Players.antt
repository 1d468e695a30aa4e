-- ===== src/Game/Players.antt =====
-- server/game/handlers/player_handlers.cpp, as it is built without a database and without Redis. A
-- result none means that mtx_ is locked twice and the handler does not return.
pub mod Attack
pub mod Maps
pub mod Moves
use ecs_asio_server.Common.{
  ℕ, ◌+◌, ◌*◌, ◌%◌, ◌^◌, List, [], ◌∷◌, ◌++◌, Bool, true, false, ◌||◌, Option, none, some, ◌==◌,
  if◌then◌else◌,
}
use ecs_asio_server.Common.Tables.{find, has_key, erase_key, assign}
use ecs_asio_server.Wire.{write_le32, write_float_le}
use ecs_asio_server.Protocol.Base.Defs.{LoginReq, parse_login_req, serialize_login_res}
use ecs_asio_server.Protocol.Player.Defs.{PlayerMoveReq, parse_player_move_req}
use ecs_asio_server.Protocol.Combat.Defs.{
  AttackReq, parse_attack_req, serialize_attack_res, serialize_damage_notify,
}
use ecs_asio_server.Protocol.Map.Defs.{MapEnterReq, parse_map_enter_req, serialize_map_enter_res}
use ecs_asio_server.Ecs.Entities.{create_entity}
use ecs_asio_server.Ecs.Store.{get, add}
use ecs_asio_server.Ecs.Health.{new_health}
use ecs_asio_server.Ecs.Objects.{Player, new_player}
use ecs_asio_server.Game.Combat.{take_damage, get_hp}
use ecs_asio_server.Game.Threads.Map.{MapPacket}
use ecs_asio_server.Game.Threads.Main.{MainThreadManager, handle_global_chat, forward_packet}
use ecs_asio_server.Game.World.{World, Service, Position, service_destroy}
use ecs_asio_server.Game.Net.{
  on_parsed, ◌>>=◌, broadcast, broadcast_except, send_test_frame, send_unlocked, entity_or_zero,
}
use ecs_asio_server.Game.Guilds.{text_ok}

-- The entity of a login, with its four components.
unfoldable pub spawn_player : ℕ → List ℕ → Service → Service × ℕ
spawn_player channel_id player_name s =
    let (entities, player) = create_entity s.entities in
    let origin : Position = record { x = 0; y = 0; z = 0 } in
    (
      record s {
        entities = entities;
        positions = add player origin s.positions;
        velocities = add player origin s.velocities;
        players = add player (new_player player_name player channel_id 1) s.players;
        healths = add player (new_health 100 50) s.healths;
      },
      player,
    )

-- The state before the answer, and the entity: 0 without the ECS.
unfoldable pub login_entity : ℕ → LoginReq → World → World × ℕ
login_entity channel_id req w =
    let (service, player) = spawn_player channel_id req.player_name w.service in
    if w.use_ecs
    then (
      record w {
        service = service;
        channel_to_entity = assign channel_id player w.channel_to_entity;
      },
      player,
    )
    else (w, 0)

unfoldable pub login : ℕ → LoginReq → World → World
login channel_id req w =
    let (w', player) = login_entity channel_id req w in
    send_unlocked channel_id 1001
      (serialize_login_res
        (record { success = true; message = text_ok; player_id = player; map_id = 1 }))
      w'

unfoldable pub handle_login : ℕ → List ℕ → World → Option World
handle_login channel_id bytes w =
    on_parsed w (λ req. some (login channel_id req w)) (parse_login_req bytes)
