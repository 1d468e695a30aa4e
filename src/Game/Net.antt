-- ===== src/Game/Net.antt =====
-- server/game/game_server.cpp and server/network/asio_server.cpp: the table of the channels, the frames
-- that the server sends, and the lock mtx_ around them.
pub mod Broadcast
pub mod Room
use ecs_asio_server.Common.{
  ℕ, ◌+◌, ◌%◌, ◌^◌, List, [], ◌∷◌, ◌++◌, Bool, true, false, not, ◌&&◌, Option, none, some, length,
  ltb, ◌==◌, if◌then◌else◌,
}
use ecs_asio_server.Common.Tables.{find, has_key, is_some_of, erase_key, assign}
use ecs_asio_server.Wire.{Parsed, ok, reject, fault}
use ecs_asio_server.Frame.Codec.{pack}
use ecs_asio_server.Channel.{Channel, start, fresh}
use ecs_asio_server.Channel.Send.{send}
use ecs_asio_server.Game.World.{World, Service, service_destroy}

-- The rest of a call that may take mtx_ twice.
infixl 5 ◌>>=◌
abbrev pub ◌>>=◌ {ℓ κ} : {A : Type ℓ} {B : Type κ} → Option A → (A → Option B) → Option B
none >>= f = none
some a >>= f = f a

-- A handler behind the parse of its payload: a parse that returns false is logged and nothing else
-- happens.
abbrev pub on_parsed : {A : Type 0} → World → (A → Option World) → Parsed A → Option World
on_parsed w f (ok req rest) = f req
on_parsed w f reject = some w
on_parsed w f fault = none

unfoldable pub frame_for : ℕ → List ℕ → List ℕ
frame_for cmd bytes = pack (record { cmd = cmd; flags = 0; ver = 1; seq = 0; payload = bytes })

-- A send under mtx_. If it closes the channel, on_close takes mtx_ again in the same thread, which
-- std::mutex does not allow: the call does not return.
unfoldable pub send_locked : List ℕ → Channel → Option Channel
send_locked pkt c =
    let d = send pkt c in if length c.close_calls == length d.close_calls then some d else none

-- The loop of broadcast_except; `exclude` is none for broadcast.
unfoldable pub broadcast_loop :
    (ℕ → Bool) → List ℕ → List (ℕ × Channel) → Option (List (ℕ × Channel))
broadcast_loop skip pkt [] = some []
broadcast_loop skip pkt ((id, c) ∷ t) =
    let all = send_locked pkt c >>= λ d. broadcast_loop skip pkt t >>= λ u. some ((id, d) ∷ u) in
    let others = broadcast_loop skip pkt t >>= λ u. some ((id, c) ∷ u) in
    if skip id then others else all

unfoldable pub broadcast : ℕ → List ℕ → World → Option World
broadcast cmd bytes w = broadcast_loop (λ id. false) (frame_for cmd bytes) w.channels >>= λ t.
    some (record w { channels = t })

unfoldable pub broadcast_except : ℕ → ℕ → List ℕ → World → Option World
broadcast_except exclude cmd bytes w =
    broadcast_loop (λ id. id == exclude) (frame_for cmd bytes) w.channels >>= λ t.
    some (record w { channels = t })

unfoldable pub send_test_found : ℕ → ℕ → List ℕ → World → Option Channel → Option World
send_test_found channel_id cmd bytes w none = some w
send_test_found channel_id cmd bytes w (some c) = send_locked (frame_for cmd bytes) c >>= λ d.
    some (record w { channels = assign channel_id d w.channels })

unfoldable pub send_test_frame : ℕ → ℕ → List ℕ → World → Option World
send_test_frame channel_id cmd bytes w =
    send_test_found channel_id cmd bytes w (find channel_id w.channels)

-- A new channel: its number, its place in the table, start() and on_accept.
unfoldable pub accept : ℕ → World → World
accept now w =
    let id = w.next_channel_id in
    record w {
      next_channel_id = (id + 1) % 2 ^ 32;
      channels = assign id (start now fresh) w.channels;
      player_map_mapping =
          if is_some_of w.main_thread_manager
          then assign id 1 w.player_map_mapping
          else w.player_map_mapping;
    }

abbrev pub entity_or_zero : Option ℕ → ℕ
entity_or_zero none = 0
entity_or_zero (some e) = e

-- The channel that reports its end is gone from the tables when this returns.
unfoldable pub on_close : ℕ → World → World
on_close channel_id w =
    let entity = entity_or_zero (find channel_id w.channel_to_entity) in
    record w {
      channels = erase_key channel_id w.channels;
      channel_to_entity = erase_key channel_id w.channel_to_entity;
      player_map_mapping =
          if is_some_of w.main_thread_manager
          then erase_key channel_id w.player_map_mapping
          else w.player_map_mapping;
      service =
          if not (entity == 0) && w.use_ecs then service_destroy entity w.service else w.service;
    }

unfoldable pub send_found : ℕ → ℕ → List ℕ → World → Option Channel → World
send_found channel_id cmd bytes w none = w
send_found channel_id cmd bytes w (some c) =
    let d = send (frame_for cmd bytes) c in
    let u = record w { channels = assign channel_id d w.channels } in
    if length c.close_calls == length d.close_calls then u else on_close channel_id u

-- The channel is looked up under mtx_, and send_frame is called after it is released.
unfoldable pub send_unlocked : ℕ → ℕ → List ℕ → World → World
send_unlocked channel_id cmd bytes w =
    send_found channel_id cmd bytes w (find channel_id w.channels)
