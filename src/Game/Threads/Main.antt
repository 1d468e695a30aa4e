-- ===== src/Game/Threads/Main.antt =====
-- server/game/threading/main_thread_manager.cpp: the queues of the main thread and the tasks that the
-- server gives it. A task is a closure in the source: here a value that says which.
pub mod Tasks
pub mod Chat
use ecs_asio_server.Common.{ℕ, List, [], ◌∷◌, ◌++◌, Bool, true, false, if◌then◌else◌}
use ecs_asio_server.Ecs.Entities.{EntityManager}
use ecs_asio_server.Game.Threads.Map.{MapPacket}
use ecs_asio_server.Game.Threads.Manager.{
  MapThreadManager, no_threads, send_packet_to_map, get_active_map_ids, move_player_to_map,
  stop_all_map_threads,
}

pub data GlobalTask : Type 0 where
  global_chat : ℕ → List ℕ → GlobalTask
  guild_system : ℕ → List ℕ → GlobalTask
  friend_system : ℕ → List ℕ → GlobalTask

-- A task for task_queue_: channel, from and to.
pub record Transfer : Type 0 where
  pub channel_id : ℕ
  pub from_map : ℕ
  pub to_map : ℕ

pub record MainThreadManager : Type 0 where
  pub running : Bool
  pub map_thread_manager : MapThreadManager
  pub global_tasks : List GlobalTask
  -- The elements of the priority queue, in no order.
  pub task_queue : List (ℕ × Transfer)

abbrev pub new_main : MainThreadManager
new_main = record {
  running = false;
  map_thread_manager = no_threads;
  global_tasks = [];
  task_queue = [];
}

unfoldable pub start_main : MainThreadManager → MainThreadManager
start_main m = if m.running then m else record m { running = true }

unfoldable pub stop_main : MainThreadManager → MainThreadManager
stop_main m =
    if m.running
    then record m {
      running = false;
      map_thread_manager = stop_all_map_threads m.map_thread_manager;
    }
    else m

unfoldable pub add_global_task : GlobalTask → MainThreadManager → MainThreadManager
add_global_task t m = record m { global_tasks = m.global_tasks ++ (t ∷ []) }

unfoldable pub handle_global_chat : ℕ → List ℕ → MainThreadManager → MainThreadManager
handle_global_chat channel_id message = add_global_task (global_chat channel_id message)

unfoldable pub handle_guild_system : ℕ → List ℕ → MainThreadManager → MainThreadManager
handle_guild_system channel_id message = add_global_task (guild_system channel_id message)

unfoldable pub handle_friend_system : ℕ → List ℕ → MainThreadManager → MainThreadManager
handle_friend_system channel_id message = add_global_task (friend_system channel_id message)

unfoldable pub add_task : Transfer → ℕ → MainThreadManager → MainThreadManager
add_task t priority m = record m { task_queue = (priority, t) ∷ m.task_queue }

unfoldable pub handle_map_transfer : ℕ → ℕ → ℕ → MainThreadManager → MainThreadManager
handle_map_transfer channel_id from_map to_map =
    add_task (record { channel_id = channel_id; from_map = from_map; to_map = to_map }) 1

unfoldable pub run_transfer :
    Transfer → MapThreadManager × EntityManager → MapThreadManager × EntityManager
run_transfer t (m, entities) = move_player_to_map t.channel_id t.from_map t.to_map m entities

-- The loop of the closure of handle_global_chat.
unfoldable pub send_to_maps : List ℕ → MapPacket → MapThreadManager → MapThreadManager
send_to_maps [] p m = m
send_to_maps (map_id ∷ ids) p m = send_to_maps ids p (send_packet_to_map map_id p m)

unfoldable pub run_global_task : GlobalTask → MapThreadManager → MapThreadManager
run_global_task (global_chat channel_id message) m =
    send_to_maps (get_active_map_ids m)
      (record { channel_id = channel_id; cmd = 4100; bytes = message }) m
run_global_task (guild_system channel_id message) m = m
run_global_task (friend_system channel_id message) m = m

-- global_mutex_ is held throughout, so nothing is added meanwhile.
unfoldable pub run_global_tasks : List GlobalTask → MapThreadManager → MapThreadManager
run_global_tasks [] m = m
run_global_tasks (t ∷ ts) m = run_global_tasks ts (run_global_task t m)

unfoldable pub process_global_systems : MainThreadManager → MainThreadManager
process_global_systems m = record m {
  map_thread_manager = run_global_tasks m.global_tasks m.map_thread_manager;
  global_tasks = [];
}

unfoldable pub forward_packet : ℕ → MapPacket → MainThreadManager → MainThreadManager
forward_packet map_id p m = record m {
  map_thread_manager = send_packet_to_map map_id p m.map_thread_manager;
}
