-- ===== src/Game/Threads/Main/Chat.antt =====
-- The global tasks: what a chat message puts into the queues of the maps.
use ecs_asio_server.Common.{
  ℕ, ◌≡◌, refl, sym, ap, ◌∙◌, List, [], ◌∷◌, ◌++◌, true, false, Option, none, some, ◌==◌,
  if◌then◌else◌, arith, ==→eq, append-nil, append_assoc, if_cases,
}
use ecs_asio_server.Common.Tables.{
  find, has_key, adjust, on_some, find-adjust, NoRepeat, has_key-adjust, has_key-find, is_some_of,
}
use ecs_asio_server.Ecs.Entities.{contains}
use ecs_asio_server.Ecs.Entities.Accounts.{Unique}
use ecs_asio_server.Game.Threads.Map.{MapPacket, MapThread, add_packet}
use ecs_asio_server.Game.Threads.Manager.{
  MapThreadManager, send_packet_to_map, get_active_map_ids, active_ids, running_of,
}
use ecs_asio_server.Game.Threads.Main.{
  MainThreadManager, GlobalTask, global_chat, guild_system, friend_system, send_to_maps,
  run_global_task, run_global_tasks, process_global_systems,
}

-- The packets of the chat messages among the tasks.
abbrev pub chats : List GlobalTask → List MapPacket
chats [] = []
chats (global_chat channel_id message ∷ ts) =
    record { channel_id = channel_id; cmd = 4100; bytes = message } ∷ chats ts
chats (guild_system channel_id message ∷ ts) = chats ts
chats (friend_system channel_id message ∷ ts) = chats ts

-- A thread with more packets, if it runs.
abbrev pub receive : List MapPacket → MapThread → MapThread
receive ps t = if t.running then record t { packet_queue = t.packet_queue ++ ps } else t

absent_running :
    (id j : ℕ) (t : List (ℕ × MapThread))
    → has_key j t ≡ false
    → (id == j) ≡ true
    → running_of (find id t) ≡ false
absent_running id j t h e =
    none_running (find id t) (sym (has_key-find id t) ∙ (ap (λ k. has_key k t) (==→eq id j e) ∙ h))
  where
    none_running : (r : Option MapThread) → is_some_of r ≡ false → running_of r ≡ false
    none_running none k = refl
    none_running (some x) k = absurd cc

active_ids-contains :
    (id : ℕ) (t : List (ℕ × MapThread))
    → NoRepeat t
    → contains id (active_ids t) ≡ running_of (find id t)
unfolding contains active_ids find
active_ids-contains id [] u = refl
active_ids-contains id ((j, x) ∷ t) u =
    ground (arith, active_ids-contains id t u.1, absent_running id j t u.0)

absent_inactive :
    (id : ℕ) (t : List (ℕ × MapThread)) → has_key id t ≡ false → contains id (active_ids t) ≡ false
unfolding contains active_ids has_key
absent_inactive id [] h = refl
absent_inactive id ((j, x) ∷ t) h = ground (arith, absent_inactive id t)

active_ids-Unique : (t : List (ℕ × MapThread)) → NoRepeat t → Unique (active_ids t)
unfolding active_ids
active_ids-Unique [] u = tt
active_ids-Unique ((j, x) ∷ t) u =
    if_cases Unique x.running (λ _. (absent_inactive j t u.0, active_ids-Unique t u.1))
      (λ _. active_ids-Unique t u.1)

send_to_maps-find :
    (ids : List ℕ) (p : MapPacket) (id : ℕ) (m : MapThreadManager)
    → Unique ids
    → find id (send_to_maps ids p m).map_threads ≡ (
        if contains id ids
        then on_some (add_packet p) (find id m.map_threads)
        else find id m.map_threads)
unfolding send_to_maps contains
send_to_maps-find [] p id m u = refl
send_to_maps-find (i ∷ ids) p id m u =
    ground (arith, send_to_maps-find ids p id (send_packet_to_map i p m) u.1, sent, clash)
  where
    sent : find id (send_packet_to_map i p m).map_threads ≡ (
        if id == i then on_some (add_packet p) (find id m.map_threads) else find id m.map_threads)
    sent = unfold send_packet_to_map in find-adjust i id (add_packet p) m.map_threads

    clash : (id == i) ≡ true → contains id ids ≡ false
    clash e = ap (λ x. contains x ids) (==→eq id i e) ∙ u.0

receive_one :
    (p : MapPacket) (r : Option MapThread)
    → (if running_of r then on_some (add_packet p) r else r) ≡ on_some (receive (p ∷ [])) r
unfolding add_packet
receive_one p none = refl
receive_one p (some t) = ground arith

receive_none : (r : Option MapThread) → r ≡ on_some (receive []) r
receive_none none = refl
receive_none (some t) = ground (arith, append-nil t.packet_queue)

receive_more :
    (p : MapPacket) (ps : List MapPacket) (r : Option MapThread)
    → on_some (receive ps) (on_some (receive (p ∷ [])) r) ≡ on_some (receive (p ∷ ps)) r
receive_more p ps none = refl
receive_more p ps (some t) = ground (arith, append_assoc t.packet_queue (p ∷ []) ps)

run_global_task-find :
    (t : GlobalTask) (id : ℕ) (m : MapThreadManager)
    → NoRepeat m.map_threads
    → find id (run_global_task t m).map_threads
      ≡ on_some (receive (chats (t ∷ []))) (find id m.map_threads)
unfolding run_global_task get_active_map_ids
run_global_task-find (global_chat channel_id message) id m u =
    send_to_maps-find (active_ids m.map_threads) _ id m (active_ids-Unique m.map_threads u)
    ∙ (ap
          (λ b.
            if b
            then on_some
                (add_packet (record { channel_id = channel_id; cmd = 4100; bytes = message }))
                (find id m.map_threads)
            else find id m.map_threads)
          (active_ids-contains id m.map_threads u)
        ∙ receive_one _ (find id m.map_threads))
run_global_task-find (guild_system channel_id message) id m u = receive_none (find id m.map_threads)
run_global_task-find (friend_system channel_id message) id m u =
    receive_none (find id m.map_threads)

adjust-NoRepeat :
    (k : ℕ) (f : MapThread → MapThread) (t : List (ℕ × MapThread))
    → NoRepeat t
    → NoRepeat (adjust k f t)
unfolding adjust
adjust-NoRepeat k f [] u = tt
adjust-NoRepeat k f ((j, x) ∷ t) u =
    if_cases NoRepeat (k == j) (λ _. u)
      (λ _. (has_key-adjust k j f t ∙ u.0, adjust-NoRepeat k f t u.1))

send_to_maps-NoRepeat :
    (ids : List ℕ) (p : MapPacket) (m : MapThreadManager)
    → NoRepeat m.map_threads
    → NoRepeat (send_to_maps ids p m).map_threads
unfolding send_to_maps send_packet_to_map
send_to_maps-NoRepeat [] p m u = u
send_to_maps-NoRepeat (i ∷ ids) p m u =
    send_to_maps-NoRepeat ids p _ (adjust-NoRepeat i (add_packet p) m.map_threads u)

run_global_task-NoRepeat :
    (t : GlobalTask) (m : MapThreadManager)
    → NoRepeat m.map_threads
    → NoRepeat (run_global_task t m).map_threads
unfolding run_global_task
run_global_task-NoRepeat (global_chat channel_id message) m u =
    send_to_maps-NoRepeat (get_active_map_ids m) _ m u
run_global_task-NoRepeat (guild_system channel_id message) m u = u
run_global_task-NoRepeat (friend_system channel_id message) m u = u

run_global_tasks-find :
    (ts : List GlobalTask) (id : ℕ) (m : MapThreadManager)
    → NoRepeat m.map_threads
    → find id (run_global_tasks ts m).map_threads
      ≡ on_some (receive (chats ts)) (find id m.map_threads)
unfolding run_global_tasks
run_global_tasks-find [] id m u = receive_none (find id m.map_threads)
run_global_tasks-find (t ∷ ts) id m u =
    run_global_tasks-find ts id (run_global_task t m) (run_global_task-NoRepeat t m u)
    ∙ (ap (on_some (receive (chats ts))) (run_global_task-find t id m u)
        ∙ joined t ts (find id m.map_threads))
  where
    joined :
        (t : GlobalTask) (ts : List GlobalTask) (r : Option MapThread)
        → on_some (receive (chats ts)) (on_some (receive (chats (t ∷ []))) r)
          ≡ on_some (receive (chats (t ∷ ts))) r
    joined (global_chat channel_id message) ts r = receive_more _ (chats ts) r
    joined (guild_system channel_id message) ts r =
        ap (on_some (receive (chats ts))) (sym (receive_none r))
    joined (friend_system channel_id message) ts r =
        ap (on_some (receive (chats ts))) (sym (receive_none r))

-- When the main thread has processed its global tasks, with each map once in the table of the threads,
-- every running thread has one packet 0x1004 for each chat message that was waiting, in the order of
-- the calls and behind the packets that it had; a thread that does not run has what it had, no thread
-- comes or goes, and no task is left. (What the threads take from their queues meanwhile is not counted.)
pub process_global_systems-find :
    (m : MainThreadManager) (id : ℕ)
    → NoRepeat m.map_thread_manager.map_threads
    → (find id (process_global_systems m).map_thread_manager.map_threads
        ≡ on_some (receive (chats m.global_tasks)) (find id m.map_thread_manager.map_threads))
      × ((process_global_systems m).global_tasks ≡ [])
unfolding process_global_systems
process_global_systems-find m id u =
    (run_global_tasks-find m.global_tasks id m.map_thread_manager u, refl)
