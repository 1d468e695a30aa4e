-- ===== src/Game/Players/Maps.antt =====
-- The map of a channel, and the handler of 1005, MAP_ENTER.
use ecs_asio_server.Common.{ℕ, List, [], ◌∷◌, true, false, Option, none, some, ◌==◌, if◌then◌else◌}
use ecs_asio_server.Common.Tables.{find, assign}
use ecs_asio_server.Protocol.Map.Defs.{MapEnterReq, parse_map_enter_req, serialize_map_enter_res}
use ecs_asio_server.Ecs.Store.{get, add}
use ecs_asio_server.Ecs.Objects.{Player}
use ecs_asio_server.Game.Threads.Main.{MainThreadManager}
use ecs_asio_server.Game.World.{World, Service}
use ecs_asio_server.Game.Net.{on_parsed, send_test_frame}
use ecs_asio_server.Game.Guilds.{text_ok}

abbrev pub map_or_first : Option ℕ → ℕ
map_or_first none = 1
map_or_first (some map_id) = map_id

unfoldable pub get_player_map : ℕ → World → ℕ
get_player_map channel_id w = map_or_first (find channel_id w.player_map_mapping)

unfoldable pub update_player_map : ℕ → ℕ → World → World
update_player_map channel_id map_id w = record w {
  player_map_mapping = assign channel_id map_id w.player_map_mapping;
}

abbrev pub map_not_found : List ℕ
map_not_found =
    b'm' ∷ b'a' ∷ b'p' ∷ b' ' ∷ b'n' ∷ b'o' ∷ b't' ∷ b' ' ∷ b'f' ∷ b'o' ∷ b'u' ∷ b'n' ∷ b'd' ∷ []

abbrev pub moved : ℕ → ℕ → Option Player → List (ℕ × Player) → List (ℕ × Player)
moved entity map_id none s = s
moved entity map_id (some p) s = add entity (record p { map_id = map_id }) s

abbrev pub set_map : ℕ → Option ℕ → Service → Service
set_map map_id none s = s
set_map map_id (some entity) s = record s {
  players = moved entity map_id (get entity s.players) s.players;
}

abbrev pub remember_map : ℕ → ℕ → Option MainThreadManager → World → World
remember_map channel_id map_id none w = w
remember_map channel_id map_id (some m) w =
    if get_player_map channel_id w == map_id then w else update_player_map channel_id map_id w

-- `map_cfg` is the name of the first map with the identifier.
unfoldable pub enter : ℕ → MapEnterReq → World → Option (List ℕ) → Option World
enter channel_id req w none =
    send_test_frame channel_id 1005
      (serialize_map_enter_res (record {
        success = false;
        message = map_not_found;
        map_id = 0;
        map_name = [];
        x = 0;
        y = 0;
        z = 0;
        player_count = 0;
      }))
      w
enter channel_id req w (some name) =
    let w₁ = remember_map channel_id req.map_id w.main_thread_manager w in
    let w₂ = record w₁ {
      service = set_map req.map_id (find channel_id w₁.channel_to_entity) w₁.service;
    } in
    send_test_frame channel_id 1005
      (serialize_map_enter_res (record {
        success = true;
        message = text_ok;
        map_id = req.map_id;
        map_name = name;
        x = req.x;
        y = req.y;
        z = req.z;
        player_count = 0;
      }))
      w₂

unfoldable pub handle_map_enter : ℕ → List ℕ → World → Option World
handle_map_enter channel_id bytes w =
    on_parsed w (λ req. enter channel_id req w (find req.map_id w.maps)) (parse_map_enter_req bytes)
