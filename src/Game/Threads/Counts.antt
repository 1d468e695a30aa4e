-- ===== src/Game/Threads/Counts.antt =====
-- The number of the players of a map.
use ecs_asio_server.Common.{
  ℕ, ◌≡◌, refl, sym, List, [], ◌∷◌, Option, none, some, ◌==◌, if_cases, length, subst, Bool-cases,
  inl, inr,
}
use ecs_asio_server.Common.Tables.{find, has_key, adjust, on_some, find-adjust, find-erase_key}
use ecs_asio_server.Ecs.Entities.{EntityManager, contains, insert, fresh_manager}
use ecs_asio_server.Ecs.Entities.Accounts.{Unique, erase-Unique}
use ecs_asio_server.Game.Threads.Map.{
  MapPacket, MapThread, new_map_thread, start, add_packet, add_player, remove_player,
}
use ecs_asio_server.Game.Threads.Manager.{
  MapThreadManager, no_threads, create_map_thread, destroy_map_thread, send_packet_to_map,
  update_player_map, add_player_to_map, remove_player_from_map, move_player_to_map,
  stop_all_map_threads, get_map_player_count, count_of,
}
use ecs_asio_server.Game.Threads.Placement.{Listed}

insert-Unique : (c : ℕ) (xs : List ℕ) → Unique xs → Unique (insert c xs)
unfolding insert
insert-Unique c xs u = elim (Bool-cases (contains c xs)) [ inl h ↦ rw h u | inr h ↦ rw h (h, u) ]

-- Each player of a thread is listed once, and player_count_ is the number of them.
abbrev pub Counted : Option MapThread → Type 0
Counted none = Unit {0}
Counted (some t) = Unique t.local_players × (t.player_count ≡ length t.local_players)

abbrev pub AllCounted : MapThreadManager → Type 0
AllCounted m = (g : ℕ) → Counted (find g m.map_threads)

adjust-Counted :
    (k : ℕ) (f : MapThread → MapThread) (t : List (ℕ × MapThread))
    → ((r : Option MapThread) → Counted r → Counted (on_some f r))
    → ((g : ℕ) → Counted (find g t))
    → (g : ℕ) → Counted (find g (adjust k f t))
adjust-Counted k f t keeps v g =
    subst Counted (sym (find-adjust k g f t))
      (if_cases Counted (g == k) (λ _. keeps (find g t) (v g)) (λ _. v g))

add_packet-Counted :
    (p : MapPacket) (r : Option MapThread) → Counted r → Counted (on_some (add_packet p) r)
unfolding add_packet
add_packet-Counted p none h = tt
add_packet-Counted p (some t) h = h

add_player-Counted :
    (c e : ℕ) (r : Option MapThread) → Counted r → Counted (on_some (add_player c e) r)
unfolding add_player
add_player-Counted c e none h = tt
add_player-Counted c e (some t) h = (insert-Unique c t.local_players h.0, refl)

remove_player-Counted :
    (c : ℕ) (r : Option MapThread) → Counted r → Counted (on_some (remove_player c) r)
unfolding remove_player
remove_player-Counted c none h = tt
remove_player-Counted c (some t) h = (erase-Unique c t.local_players h.0, refl)

-- A call of the manager.
pub data Call : Type 0 where
  create_map : ℕ → List ℕ → Call
  destroy_map : ℕ → Call
  send_packet : ℕ → MapPacket → Call
  add_to_map : ℕ → ℕ → ℕ → Call
  remove_from_map : ℕ → ℕ → Call
  move_to_map : ℕ → ℕ → ℕ → Call
  stop_all : Call

abbrev pub run : List Call → MapThreadManager × EntityManager → MapThreadManager × EntityManager
run [] s = s
run (create_map id name ∷ cs) (m, entities) = run cs (create_map_thread id name m entities)
run (destroy_map id ∷ cs) (m, entities) = run cs (destroy_map_thread id m, entities)
run (send_packet id p ∷ cs) (m, entities) = run cs (send_packet_to_map id p m, entities)
run (add_to_map id c e ∷ cs) (m, entities) = run cs (add_player_to_map id c e m, entities)
run (remove_from_map id c ∷ cs) (m, entities) = run cs (remove_player_from_map id c m, entities)
run (move_to_map c from to ∷ cs) (m, entities) = run cs (move_player_to_map c from to m entities)
run (stop_all ∷ cs) (m, entities) = run cs (stop_all_map_threads m, entities)

create_map_thread-AllCounted :
    (id : ℕ) (name : List ℕ) (m : MapThreadManager) (entities : EntityManager)
    → AllCounted m
    → AllCounted (create_map_thread id name m entities).0
unfolding create_map_thread start new_map_thread find
create_map_thread-AllCounted id name m entities v =
    if_cases (λ (r : MapThreadManager × EntityManager). AllCounted r.0) (has_key id m.map_threads)
      (λ _. v) (λ _ g. if_cases Counted (g == id) (λ _. (tt, refl)) (λ _. v g))

destroy_map_thread-AllCounted :
    (id : ℕ) (m : MapThreadManager) → AllCounted m → AllCounted (destroy_map_thread id m)
unfolding destroy_map_thread
destroy_map_thread-AllCounted id m v g =
    subst Counted (sym (find-erase_key id g m.map_threads))
      (if_cases Counted (g == id) (λ _. tt) (λ _. v g))

add_player_to_map-AllCounted :
    (id c e : ℕ) (m : MapThreadManager) → AllCounted m → AllCounted (add_player_to_map id c e m)
unfolding add_player_to_map update_player_map
add_player_to_map-AllCounted id c e m v =
    if_cases AllCounted (has_key id m.map_threads)
      (λ _. adjust-Counted id _ m.map_threads (add_player-Counted c e) v) (λ _. v)

remove_player_from_map-AllCounted :
    (id c : ℕ) (m : MapThreadManager) → AllCounted m → AllCounted (remove_player_from_map id c m)
unfolding remove_player_from_map
remove_player_from_map-AllCounted id c m v =
    if_cases AllCounted (has_key id m.map_threads)
      (λ _. adjust-Counted id _ m.map_threads (remove_player-Counted c) v) (λ _. v)

move_player_to_map-AllCounted :
    (c from to : ℕ) (m : MapThreadManager) (entities : EntityManager)
    → AllCounted m
    → AllCounted (move_player_to_map c from to m entities).0
unfolding move_player_to_map update_player_map
move_player_to_map-AllCounted c from to m entities v =
    let left = adjust-Counted from _ m.map_threads (remove_player-Counted c) v in
    if_cases (λ (r : MapThreadManager × EntityManager). AllCounted r.0)
      (has_key to (adjust from (remove_player c) m.map_threads))
      (λ _. adjust-Counted to _ _ (add_player-Counted c _) left) (λ _. left)

run-AllCounted :
    (cs : List Call) (m : MapThreadManager) (entities : EntityManager)
    → AllCounted m
    → AllCounted (run cs (m, entities)).0
run-AllCounted [] m entities v = v
run-AllCounted (create_map id name ∷ cs) m entities v =
    run-AllCounted cs _ _ (create_map_thread-AllCounted id name m entities v)
run-AllCounted (destroy_map id ∷ cs) m entities v =
    run-AllCounted cs _ entities (destroy_map_thread-AllCounted id m v)
run-AllCounted (send_packet id p ∷ cs) m entities v =
    run-AllCounted cs _ entities
      (unfold send_packet_to_map in adjust-Counted id _ m.map_threads (add_packet-Counted p) v)
run-AllCounted (add_to_map id c e ∷ cs) m entities v =
    run-AllCounted cs _ entities (add_player_to_map-AllCounted id c e m v)
run-AllCounted (remove_from_map id c ∷ cs) m entities v =
    run-AllCounted cs _ entities (remove_player_from_map-AllCounted id c m v)
run-AllCounted (move_to_map c from to ∷ cs) m entities v =
    run-AllCounted cs _ _ (move_player_to_map-AllCounted c from to m entities v)
run-AllCounted (stop_all ∷ cs) m entities v =
    run-AllCounted cs _ entities (unfold stop_all_map_threads find in λ g. tt)

abbrev pub number_of : Option MapThread → ℕ
number_of none = 0
number_of (some t) = length t.local_players

-- Whatever calls the manager gets, in any order, from the empty one on: in the thread of every map each
-- player is listed once, and get_map_player_count is the number of the listed players, 0 for a map that
-- is not there.
pub run-counts :
    (cs : List Call) (g : ℕ)
    → let m = (run cs (no_threads, fresh_manager)).0 in
      Listed (find g m.map_threads) × (get_map_player_count g m ≡ number_of (find g m.map_threads))
unfolding get_map_player_count
run-counts cs g =
    counted (find g _) (run-AllCounted cs no_threads fresh_manager (unfold find in λ h. tt) g)
  where
    counted : (r : Option MapThread) → Counted r → Listed r × (count_of r ≡ number_of r)
    counted none h = (tt, refl)
    counted (some t) h = h
