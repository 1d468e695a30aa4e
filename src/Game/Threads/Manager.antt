-- ===== src/Game/Threads/Manager.antt =====
-- server/game/threading/map_thread_manager.cpp: the threads by the identifier of their map, and the
-- map of each player. Every operation holds map_threads_mutex_ from its first line to its last.
use ecs_asio_server.Common.{
  ℕ, ◌-◌, ◌^◌, List, [], ◌∷◌, Bool, false, Option, none, some, if◌then◌else◌,
}
use ecs_asio_server.Common.Tables.{find, has_key, erase_key, assign, adjust}
use ecs_asio_server.Ecs.Entities.{EntityManager, create_entity}
use ecs_asio_server.Game.Threads.Map.{
  MapPacket, MapThread, new_map_thread, start, add_packet, add_player, remove_player,
}

pub record MapThreadManager : Type 0 where
  pub map_threads : List (ℕ × MapThread)
  pub player_map_mapping : List (ℕ × ℕ)

abbrev pub no_threads : MapThreadManager
no_threads = record { map_threads = []; player_map_mapping = [] }

-- The constructor of MapThread takes an entity from the service.
unfoldable pub create_map_thread :
    ℕ → List ℕ → MapThreadManager → EntityManager → MapThreadManager × EntityManager
create_map_thread map_id map_name m entities =
    if has_key map_id m.map_threads
    then (m, entities)
    else let (entities', map_entity) = create_entity entities in
      (
        record m {
          map_threads = (map_id, start (new_map_thread map_name map_entity)) ∷ m.map_threads;
        },
        entities',
      )

unfoldable pub destroy_map_thread : ℕ → MapThreadManager → MapThreadManager
destroy_map_thread map_id m = record m { map_threads = erase_key map_id m.map_threads }

unfoldable pub send_packet_to_map : ℕ → MapPacket → MapThreadManager → MapThreadManager
send_packet_to_map map_id p m = record m {
  map_threads = adjust map_id (add_packet p) m.map_threads;
}

unfoldable pub update_player_map : ℕ → ℕ → MapThreadManager → MapThreadManager
update_player_map channel_id map_id m = record m {
  player_map_mapping = assign channel_id map_id m.player_map_mapping;
}

unfoldable pub add_player_to_map : ℕ → ℕ → ℕ → MapThreadManager → MapThreadManager
add_player_to_map map_id channel_id player_entity m =
    if has_key map_id m.map_threads
    then update_player_map channel_id map_id (record m {
      map_threads = adjust map_id (add_player channel_id player_entity) m.map_threads;
    })
    else m

unfoldable pub remove_player_from_map : ℕ → ℕ → MapThreadManager → MapThreadManager
remove_player_from_map map_id channel_id m =
    if has_key map_id m.map_threads
    then record m {
      map_threads = adjust map_id (remove_player channel_id) m.map_threads;
      player_map_mapping = erase_key channel_id m.player_map_mapping;
    }
    else m

-- The player is added with a new entity, whatever entity it had.
unfoldable pub move_player_to_map :
    ℕ → ℕ → ℕ → MapThreadManager → EntityManager → MapThreadManager × EntityManager
move_player_to_map channel_id from_map to_map m entities =
    let left = record m {
      map_threads = adjust from_map (remove_player channel_id) m.map_threads;
    } in
    if has_key to_map left.map_threads
    then (let (entities', player_entity) = create_entity entities in
        (
          update_player_map channel_id to_map (record left {
            map_threads = adjust to_map (add_player channel_id player_entity) left.map_threads;
          }),
          entities',
        ))
    else (left, entities)

abbrev pub running_of : Option MapThread → Bool
running_of none = false
running_of (some t) = t.running

unfoldable pub is_map_thread_running : ℕ → MapThreadManager → Bool
is_map_thread_running map_id m = running_of (find map_id m.map_threads)

abbrev pub count_of : Option MapThread → ℕ
count_of none = 0
count_of (some t) = t.player_count

unfoldable pub get_map_player_count : ℕ → MapThreadManager → ℕ
get_map_player_count map_id m = count_of (find map_id m.map_threads)

unfoldable pub active_ids : List (ℕ × MapThread) → List ℕ
active_ids [] = []
active_ids ((map_id, t) ∷ rest) =
    let ids = active_ids rest in if t.running then map_id ∷ ids else ids

unfoldable pub get_active_map_ids : MapThreadManager → List ℕ
get_active_map_ids m = active_ids m.map_threads

-- Every thread is stopped and joined before the table is cleared.
unfoldable pub stop_all_map_threads : MapThreadManager → MapThreadManager
stop_all_map_threads m = record m { map_threads = [] }

-- -1 as the pattern of an int.
abbrev pub map_or_none : Option ℕ → ℕ
map_or_none none = 2 ^ 32 - 1
map_or_none (some map_id) = map_id

unfoldable pub get_player_map : ℕ → MapThreadManager → ℕ
get_player_map channel_id m = map_or_none (find channel_id m.player_map_mapping)
