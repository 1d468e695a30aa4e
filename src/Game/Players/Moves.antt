-- ===== src/Game/Players/Moves.antt =====
-- The handlers of 1002, MOVE, and 1003, CHAT.
use ecs_asio_server.Common.{ℕ, List, [], ◌∷◌, ◌++◌, Option, none, some, ◌==◌, if◌then◌else◌}
use ecs_asio_server.Common.Tables.{find}
use ecs_asio_server.Wire.{write_le32, write_float_le}
use ecs_asio_server.Protocol.Player.Defs.{PlayerMoveReq, parse_player_move_req}
use ecs_asio_server.Ecs.Store.{get, add}
use ecs_asio_server.Game.Threads.Main.{MainThreadManager, handle_global_chat, forward_packet}
use ecs_asio_server.Game.World.{World, Position}
use ecs_asio_server.Game.Net.{
  on_parsed, ◌>>=◌, broadcast, broadcast_except, send_test_frame, entity_or_zero,
}
use ecs_asio_server.Game.Guilds.{text_ok}
use ecs_asio_server.Game.Players.Maps.{get_player_map}

unfoldable pub route_packet_to_map : ℕ → ℕ → List ℕ → MainThreadManager → World → World
route_packet_to_map channel_id cmd bytes m w = record w {
  main_thread_manager = some (
      forward_packet (get_player_map channel_id w)
        (record { channel_id = channel_id; cmd = cmd; bytes = bytes }) m);
}

abbrev pub placed : Position → Option Position → ℕ → List (ℕ × Position) → List (ℕ × Position)
placed p none entity s = s
placed p (some old) entity s = add entity p s

unfoldable pub set_position : ℕ → Position → World → World
set_position channel_id p w =
    let entity = entity_or_zero (find channel_id w.channel_to_entity) in
    let positions = placed p (get entity w.service.positions) entity w.service.positions in
    if w.use_ecs
    then if entity == 0
      then w
      else record w { service = record w.service { positions = positions } }
    else w

unfoldable pub move : ℕ → List ℕ → PlayerMoveReq → World → Option MainThreadManager → Option World
move channel_id bytes req w (some m) = some (route_packet_to_map channel_id 4097 bytes m w)
move channel_id bytes req w none =
    let bcast =
      write_le32 channel_id
      ++ (write_float_le req.x ++ (write_float_le req.y ++ write_float_le req.z)) in
    broadcast_except channel_id 1002 bcast
      (set_position channel_id (record { x = req.x; y = req.y; z = req.z }) w)
    >>= send_test_frame channel_id 1002 text_ok

unfoldable pub handle_move : ℕ → List ℕ → World → Option World
handle_move channel_id bytes w =
    on_parsed w (λ req. move channel_id bytes req w w.main_thread_manager)
      (parse_player_move_req bytes)

abbrev pub chat_success : List ℕ
chat_success =
    b'C' ∷ b'H' ∷ b'A' ∷ b'T' ∷ b'_' ∷ b'S' ∷ b'U' ∷ b'C' ∷ b'C' ∷ b'E' ∷ b'S' ∷ b'S' ∷ []

unfoldable pub talk : ℕ → List ℕ → World → Option MainThreadManager → Option World
talk channel_id message w (some m) =
    some (record w { main_thread_manager = some (handle_global_chat channel_id message m) })
talk channel_id message w none =
    broadcast 1003 (write_le32 channel_id ++ message) w
    >>= send_test_frame channel_id 1003 chat_success

unfoldable pub handle_chat : ℕ → List ℕ → World → Option World
handle_chat channel_id bytes w = talk channel_id bytes w w.main_thread_manager
