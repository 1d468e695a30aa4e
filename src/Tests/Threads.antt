-- ===== src/Tests/Threads.antt =====
-- The threads of the maps, the map system, the packet buffer and the database calls at concrete inputs.
use ecs_asio_server.Common.{
  Bool, ℕ, ◌≤◌, ◌≡◌, refl, List, [], ◌∷◌, true, false, not, arith, if◌then◌else◌, ◌==◌, ◌&&◌, ◌||◌,
  ltb, leb, All, if_cases,
}
use ecs_asio_server.Common.Tables.{find, has_key, on_some}
use ecs_asio_server.Ecs.Entities.{fresh_manager, contains}
use ecs_asio_server.Ecs.Store.{get}
use ecs_asio_server.Game.Threads.Map.{MapThread}
use ecs_asio_server.Game.Threads.Manager.{
  MapThreadManager, no_threads, move_player_to_map, get_player_map, get_map_player_count,
}
use ecs_asio_server.Game.Threads.Placement.{Listed, in_map, move_player_to_map-in_map}
use ecs_asio_server.Game.Threads.Counts as Counts
use ecs_asio_server.Game.Threads.Counts.{number_of, run-counts}
use ecs_asio_server.Game.Threads.Main.{
  MainThreadManager, Transfer, new_main, global_chat, guild_system, process_global_systems,
}
use ecs_asio_server.Game.Threads.Main.Chat.{receive, process_global_systems-find}
use ecs_asio_server.Game.Threads.Main.Tasks.{Task, less, Drains, done, take_top}
use ecs_asio_server.Game.Maps.{Maps, MapBounds, check_map_collisions, get_objects_in_map}
use ecs_asio_server.Game.Maps.Bounds.{Inside, Comparisons, check_map_collisions-Inside}
use ecs_asio_server.Buffers.Vector.{Memory}
use ecs_asio_server.Buffers.PacketBuffer.{PacketBuffer, dynamic}
use ecs_asio_server.Buffers.PacketBuffer.Append.{Left, zeros, appends, appends-dynamic}
use ecs_asio_server.Database.PlayerDao.{Reply, save_position, save_stats}
use ecs_asio_server.Database.PlayerDao as Dao
use ecs_asio_server.Database.PlayerDao.Attempts.{is_done, goes_on, waited_of, save-attempts}

-- Two maps, with player 7 in the first.
abbrev forest : MapThread
forest = record {
  map_name = b'F' ∷ [];
  map_entity = 1;
  running = true;
  packet_queue = [];
  local_players = 7 ∷ [];
  player_count = 1;
  object_players = [];
}

abbrev desert : MapThread
desert = record forest {
  map_name = b'D' ∷ [];
  map_entity = 2;
  local_players = [];
  player_count = 0;
}

abbrev two_maps : MapThreadManager
two_maps = record { map_threads = (1, forest) ∷ (2, desert) ∷ []; player_map_mapping = (7, 1) ∷ [] }

two_maps-Listed : (g : ℕ) → Listed (find g two_maps.map_threads)
unfolding find contains
two_maps-Listed g =
    if_cases Listed (g == 1) (λ _. (refl, tt)) (λ _. if_cases Listed (g == 2) (λ _. tt) (λ _. tt))

-- Map 3 is not there.
move_player_to_map-in_map_example :
    (in_map 7 1 (move_player_to_map 7 1 3 two_maps fresh_manager).0 ≡ false)
    × (get_player_map 7 (move_player_to_map 7 1 3 two_maps fresh_manager).0 ≡ 1)
unfolding find has_key get_player_map
move_player_to_map-in_map_example =
    move_player_to_map-in_map 7 1 3 7 1 two_maps fresh_manager two_maps-Listed

abbrev calls : List Counts.Call
calls =
    Counts.create_map 1 []
    ∷ Counts.add_to_map 1 7 100
    ∷ Counts.add_to_map 1 8 101
    ∷ Counts.add_to_map 1 7 102
    ∷ Counts.remove_from_map 1 8
    ∷ []

run-counts_example :
    Listed (find 1 (Counts.run calls (no_threads, fresh_manager)).0.map_threads)
    × (get_map_player_count 1 (Counts.run calls (no_threads, fresh_manager)).0
        ≡ number_of (find 1 (Counts.run calls (no_threads, fresh_manager)).0.map_threads))
run-counts_example = run-counts calls 1

abbrev talking : MainThreadManager
talking = record new_main {
  map_thread_manager = two_maps;
  global_tasks = global_chat 7 (b'h' ∷ []) ∷ guild_system 7 [] ∷ [];
}

process_global_systems-find_example :
    (find 2 (process_global_systems talking).map_thread_manager.map_threads
      ≡ on_some
          (receive (record { channel_id = 7; cmd = 4100; bytes = b'h' ∷ [] } ∷ []))
          (find 2 two_maps.map_threads))
    × ((process_global_systems talking).global_tasks ≡ [])
process_global_systems-find_example =
    process_global_systems-find talking 2 (unfold has_key in (refl, (refl, tt)))

abbrev transfer : Transfer
transfer = record { channel_id = 7; from_map = 1; to_map = 2 }

abbrev tasks : List Task
tasks = (1, transfer) ∷ (0, transfer) ∷ []

tasks-Drains : Drains tasks ((0, transfer) ∷ (1, transfer) ∷ [])
unfolding less
tasks-Drains = take_top ((1, transfer) ∷ []) [] (refl, tt) (take_top [] [] tt done)

-- The objects 5 and 6 of map 1 stand outside of its bounds.
abbrev box : MapBounds
box = record { min_x = 0; min_y = 0; min_z = 0; max_x = 9; max_y = 9; max_z = 9 }

abbrev outside : Maps
outside = record {
  entities = fresh_manager;
  maps = [];
  objects = (1, record { players = 5 ∷ 6 ∷ []; monsters = []; npcs = []; items = [] }) ∷ [];
  bounds = (1, box) ∷ [];
  positions = (5, record { x = 20; y = 0; z = 3 }) ∷ (6, record { x = 99; y = 0; z = 3 }) ∷ [];
  players = [];
  monsters = [];
  npcs = [];
  items = [];
  map_object_cache = [];
  cache_dirty = false;
}

-- Whole numbers, and 99 for a NaN.
abbrev less_number : ℕ → ℕ → Bool
less_number a b = not (a == 99) && (not (b == 99) && ltb a b)

abbrev at_most_number : ℕ → ℕ → Bool
at_most_number a b = not (a == 99) && (not (b == 99) && leb a b)

numbers : Comparisons less_number at_most_number
numbers = record {
  of_numbers = λ a b h. (ground (arith, h), ground (arith, h));
  opposite = λ a b h k. ground (arith, h, k);
}

check_map_collisions-Inside_example :
    All
      (λ object.
        Inside less_number at_most_number box
          (get object (check_map_collisions less_number at_most_number 1 outside).positions))
      (get_objects_in_map 1 outside)
check_map_collisions-Inside_example =
    check_map_collisions-Inside less_number at_most_number numbers box 1 outside (refl, refl, refl)
      (unfold get in refl)

abbrev exactly : ℕ → ℕ → ℕ
exactly old wanted = wanted

-- Four bytes of memory at address 100, one of which is taken.
abbrev small : PacketBuffer
small = record {
  dynamic_buffer = record { elements = []; capacity = 0 };
  external_buffer = 100;
  size = 4;
  offset = 1;
  option = 0;
  is_dynamic = false;
  is_owner = false;
}

abbrev eight : List ℕ
eight = 8 ∷ 9 ∷ []

abbrev blank : Memory
blank x = 0

appends-dynamic_example :
    Left
      (λ s. (s.0.offset ≡ 3) × (s.0.dynamic_buffer.elements ≡ zeros 3) × (s.1 ≡ blank))
      (appends exactly (eight ∷ (7 ∷ []) ∷ []) (dynamic exactly 64 0) blank)
appends-dynamic_example =
    appends-dynamic exactly 64 0 (eight ∷ (7 ∷ []) ∷ []) blank (omega arith) (omega arith)

-- The connection is lost at the first attempt and back at the second.
abbrev lost_once : ℕ → Reply
lost_once n = if n == 1 then Dao.failed 5000 2006 else Dao.done 3

save-attempts_example :
    ((save_position lost_once).0 ≡ (
      is_done (lost_once 1)
      || (goes_on (lost_once 1)
          && (is_done (lost_once 2) || (goes_on (lost_once 2) && is_done (lost_once 3))))))
    × ((save_position lost_once).1 ≤ 15150)
    × (save_stats lost_once ≡ save_position lost_once)
save-attempts_example =
    save-attempts lost_once
      λ n. if_cases (λ r. waited_of r ≤ 5000) (n == 1) (λ _. omega arith) (λ _. omega arith)
