-- ===== src/Tests/Saves.antt =====
-- A server with a database on which players log in, fight and leave.
use ecs_asio_server.Common.{
  ℕ, ◌≡◌, refl, List, [], ◌∷◌, ◌++◌, true, false, ◌&&◌, Option, none, some, ◌==◌, arith,
  if◌then◌else◌,
}
use ecs_asio_server.Common.Tables.{find, has_key, assign, erase_key}
use ecs_asio_server.Channel.{start}
use ecs_asio_server.Channel.Send.{
  batch_loop, close, do_write, enqueue_send, make_batch, send, try_write,
}
use ecs_asio_server.Frame.Codec.{pack, pack_header, pack_tail}
use ecs_asio_server.Frame.Crc.{crc32, crc_loop, shift_bit, shift_bits, table}
use ecs_asio_server.Wire.{
  write_bool, write_le16, write_le32, write_lp_string, need, read_le32, read_float_le,
}
use ecs_asio_server.Protocol.Base.Defs.{serialize_login_res}
use ecs_asio_server.Protocol.Combat.Defs.{
  parse_attack_req, serialize_attack_res, serialize_damage_notify,
}
use ecs_asio_server.Ecs.Entities.{contains, insert, erase, create_entity, destroy_entity}
use ecs_asio_server.Ecs.Store.{get, add}
use ecs_asio_server.Ecs.Health as Health
use ecs_asio_server.Game.Combat as Combat
use ecs_asio_server.Game.World.{new_world, service_destroy, remove_all_components}
use ecs_asio_server.Game.Net.{
  accept, frame_for, entity_or_zero, send_locked, send_test_frame, send_test_found,
  broadcast_except, broadcast_loop,
}
use ecs_asio_server.Game.Players.Attack.{
  handle_attack, handle_attack_req, strike, bury, attack_damage,
}
use ecs_asio_server.Game.Persistence.{
  DbServer, PlayerRecord, save, to_save, login_db, on_accept_db, on_close_db, welcome, send_db,
  send_found_db, enter_record, login_answer, spawn_record, on_found,
}
use ecs_asio_server.Game.Persistence.Jobs.{flush_players}
use ecs_asio_server.Game.Persistence.Saves.{known}
use ecs_asio_server.Game.Persistence.Saves.Events.{
  Event, event, accepts, asks, finds, attacks, flushes, events, is_peaceful, events-on_close_db,
}

abbrev record_of : PlayerRecord
record_of = record {
  id = 8;
  level = 30;
  exp = 500;
  hp = 70;
  max_hp = 100;
  pos = record { x = 12; y = 0; z = 0 };
  map_id = 2;
}

abbrev nobody_there : DbServer
nobody_there = record {
  world = new_world true [];
  has_dao = true;
  channel_to_db_id = [];
  db_strands = [];
  jobs = [];
  callbacks = [];
  sink = record { is_open = true; file = []; stderr = [] };
}

-- The player of channel 1 logs in and attacks itself, with the target 1 and the skill 12.
abbrev fatal : List ℕ
fatal =
    (1 ∷ 0 ∷ 0 ∷ 0 ∷ [])
    ++ ((12 ∷ 0 ∷ 0 ∷ 0 ∷ [])
        ++ ((0 ∷ 0 ∷ 0 ∷ 0 ∷ 0 ∷ 0 ∷ 0 ∷ 0 ∷ []) ++ (0 ∷ 0 ∷ 0 ∷ 0 ∷ 0 ∷ 0 ∷ 0 ∷ 0 ∷ [])))

abbrev evening : List Event
evening =
    accepts 0
    ∷ asks 1 (record { player_name = b'h' ∷ []; session_token = [] })
    ∷ finds (record { channel_id = 1; player_name = b'h' ∷ []; rec = some record_of })
    ∷ attacks 1 fatal
    ∷ flushes
    ∷ []

abbrev or_nobody : Option DbServer → DbServer
or_nobody none = nobody_there
or_nobody (some d) = d

abbrev afterwards : DbServer
afterwards = or_nobody (events evening nobody_there)

in_game :
    (events evening nobody_there ≡ some afterwards)
    × (known 1 afterwards ≡ true)
    × ((entity_or_zero (find 1 afterwards.world.channel_to_entity) == 0) ≡ true)
unfolding find has_key contains insert assign erase_key events event flush_players on_found login_db
    on_accept_db accept welcome send_db send_found_db enter_record start batch_loop close do_write
    enqueue_send make_batch send try_write pack pack_header pack_tail crc32 crc_loop shift_bit
    shift_bits table frame_for login_answer spawn_record create_entity serialize_login_res
    write_bool write_le16 write_le32 write_lp_string handle_attack handle_attack_req strike bury
    attack_damage parse_attack_req need read_le32 read_float_le get add Combat.take_damage
    Combat.get_hp Health.take_damage send_locked send_test_frame send_test_found broadcast_except
    broadcast_loop serialize_attack_res serialize_damage_notify service_destroy
    remove_all_components destroy_entity erase Combat.hurt
in_game = (refl, refl, refl)

events-on_close_db_example :
    let db_id = entity_or_zero (find 1 afterwards.channel_to_db_id) in
    let entity = entity_or_zero (find 1 afterwards.world.channel_to_entity) in
    (has_key 1 afterwards.world.channels ≡ true)
    × ((on_close_db 1 afterwards).jobs ≡ (
        if entity == 0
        then afterwards.jobs
        else afterwards.jobs ++ ((1, save (to_save db_id entity afterwards.world.service)) ∷ [])))
    × ((is_peaceful evening && (entity == 0)) ≡ false)
events-on_close_db_example =
    events-on_close_db 1 evening nobody_there afterwards (refl, refl, refl, refl, omega arith)
      (omega arith) in_game.0 in_game.1
