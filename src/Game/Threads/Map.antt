-- ===== src/Game/Threads/Map.antt =====
-- server/game/threading/map_thread.hpp and map_thread.cpp: the queue of packets and the players of the
-- thread of one map. Each operation holds packet_mutex_ or objects_mutex_; process_packets lets go of
-- packet_mutex_ between two packets, so its state is the queue that it finds at each turn.
use ecs_asio_server.Common.{
  ℕ, List, [], ◌∷◌, ◌++◌, Bool, true, false, length, take, drop, ltb, ◌==◌, if◌then◌else◌,
}
use ecs_asio_server.Ecs.Entities.{insert, erase}

pub record MapPacket : Type 0 where
  pub channel_id : ℕ
  pub cmd : ℕ
  pub bytes : List ℕ

-- local_players_ and the players of map_objects_component_ are sets: lists without repetition.
pub record MapThread : Type 0 where
  pub map_name : List ℕ
  pub map_entity : ℕ
  pub running : Bool
  pub packet_queue : List MapPacket
  pub local_players : List ℕ
  pub player_count : ℕ
  pub object_players : List ℕ

unfoldable pub new_map_thread : List ℕ → ℕ → MapThread
new_map_thread map_name map_entity = record {
  map_name = map_name;
  map_entity = map_entity;
  running = false;
  packet_queue = [];
  local_players = [];
  player_count = 0;
  object_players = [];
}

unfoldable pub start : MapThread → MapThread
start t = if t.running then t else record t { running = true }

unfoldable pub stop : MapThread → MapThread
stop t = if t.running then record t { running = false } else t

unfoldable pub add_packet : MapPacket → MapThread → MapThread
add_packet p t = record t { packet_queue = t.packet_queue ++ (p ∷ []) }

-- What a handler of a packet reports; x, y and z are the four bytes that memcpy reads.
pub data Report : Type 0 where
  movement : ℕ → List ℕ → List ℕ → List ℕ → Report
  combat : ℕ → Report
  interaction : ℕ → Report
  chat : ℕ → Report
  unknown : ℕ → Report

unfoldable pub handle_movement_packet : ℕ → List ℕ → List Report
handle_movement_packet channel_id bytes =
    if ltb (length bytes) 12
    then []
    else movement channel_id (take 4 bytes) (take 4 (drop 4 bytes)) (take 4 (drop 8 bytes)) ∷ []

unfoldable pub process_single_packet : MapPacket → List Report
process_single_packet p =
    if p.cmd == 4097
    then handle_movement_packet p.channel_id p.bytes
    else if p.cmd == 4098
    then combat p.channel_id ∷ []
    else if p.cmd == 4099
    then interaction p.channel_id ∷ []
    else if p.cmd == 4100
    then chat p.channel_id ∷ []
    else unknown p.cmd ∷ []

-- The loop where nothing is added meanwhile.
unfoldable pub process_queue : List MapPacket → List Report
process_queue [] = []
process_queue (p ∷ rest) = process_single_packet p ++ process_queue rest

unfoldable pub process_packets : MapThread → MapThread × List Report
process_packets t = (record t { packet_queue = [] }, process_queue t.packet_queue)

unfoldable pub add_player : ℕ → ℕ → MapThread → MapThread
add_player channel_id player_entity t =
    let players = insert channel_id t.local_players in
    record t {
      local_players = players;
      player_count = length players;
      object_players = insert player_entity t.object_players;
    }

-- The entity stays in map_objects_component_.
unfoldable pub remove_player : ℕ → MapThread → MapThread
remove_player channel_id t =
    let players = erase channel_id t.local_players in
    record t { local_players = players; player_count = length players }
