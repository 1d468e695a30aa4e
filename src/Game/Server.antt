-- ===== src/Game/Server.antt =====
-- common/network/message_dispatcher.hpp, the handlers that init and its bind_… functions put into it
-- (server/game/game_server.cpp, handlers/*.cpp), and the calls that the network makes.
pub mod Links
pub mod Effects
pub mod Handlers
pub mod Kills
pub mod Damage
pub mod Run
use ecs_asio_server.Common.{ℕ, List, [], ◌∷◌, Option, none, some}
use ecs_asio_server.Common.Tables.{find, erase_key, assign, adjust}
use ecs_asio_server.Channel.{Channel}
use ecs_asio_server.Game.World.{World, spawn_monster}
use ecs_asio_server.Game.Net.{◌>>=◌, accept, on_close, send_test_frame, send_unlocked}
use ecs_asio_server.Game.Guilds.{
  Guilds, Answer, handle_guild_create, handle_guild_join, handle_guild_leave,
}
use ecs_asio_server.Game.Players.{handle_login}
use ecs_asio_server.Game.Players.Moves.{handle_move, handle_chat}
use ecs_asio_server.Game.Players.Attack.{handle_attack}
use ecs_asio_server.Game.Players.Maps.{handle_map_enter}

module _ {ℓ} {H : Type ℓ} where
  unfoldable pub bind : ℕ → H → List (ℕ × H) → List (ℕ × H)
  bind msg_id h table = assign msg_id h table

  unfoldable pub unbind : ℕ → List (ℕ × H) → List (ℕ × H)
  unbind msg_id table = erase_key msg_id table

-- Channel, payload and state; none means that the handler does not return.
abbrev pub Handler : Type 0
Handler = ℕ → List ℕ → World → Option World

abbrev pub called : Option Handler → Handler
called none channel_id bytes w = some w
called (some h) channel_id bytes w = h channel_id bytes w

unfoldable pub dispatch : List (ℕ × Handler) → ℕ → Handler
dispatch table msg_id = called (find msg_id table)

abbrev pub pong : List ℕ
pong = b'P' ∷ b'O' ∷ b'N' ∷ b'G' ∷ []

unfoldable pub handle_ping : Handler
handle_ping channel_id bytes w = some (send_unlocked channel_id 2 pong w)

unfoldable pub handle_echo : Handler
handle_echo channel_id bytes w = some (send_unlocked channel_id 100 bytes w)

unfoldable pub answered : ℕ → Answer → World → Option World
answered channel_id none w = some w
answered channel_id (some (cmd, payload)) w = send_test_frame channel_id cmd payload w

-- A handler of the guilds in the server: its change, and its answer by send_test_frame.
unfoldable pub guild_handler : (ℕ → List ℕ → Guilds → Guilds × Answer) → Handler
guild_handler f channel_id bytes w =
    let (guilds, answer) = f channel_id bytes w.guilds in
    answered channel_id answer (record w { guilds = guilds })

unfoldable pub bind_player_handlers : List (ℕ × Handler) → List (ℕ × Handler)
bind_player_handlers table = bind 1005 handle_map_enter (
    bind 1004 handle_attack
      (bind 1003 handle_chat (bind 1002 handle_move (bind 1001 handle_login table))))

unfoldable pub bind_guild_handlers : List (ℕ × Handler) → List (ℕ × Handler)
bind_guild_handlers table = bind 2003 (guild_handler handle_guild_leave) (
    bind 2002 (guild_handler handle_guild_join)
      (bind 2001 (guild_handler handle_guild_create) table))

-- The table after init.
unfoldable pub dispatcher : List (ℕ × Handler)
dispatcher =
    bind_guild_handlers (bind_player_handlers (bind 100 handle_echo (bind 1 handle_ping [])))

-- What the network reports: a connection at a time, a frame of a channel, the end of a channel; and
-- what a channel does by itself between the calls of the server, which leaves it in any state, and a
-- monster that the thread of a map spawns.
pub data Event : Type 0 where
  accepted : ℕ → Event
  frame : ℕ → ℕ → List ℕ → Event
  ended : ℕ → Event
  changed : ℕ → Channel → Event
  spawned : ℕ → ℕ → Event

unfoldable pub serve : Event → World → Option World
serve (accepted now) w = some (accept now w)
serve (frame channel_id cmd bytes) w = dispatch dispatcher cmd channel_id bytes w
serve (ended channel_id) w = some (on_close channel_id w)
serve (changed channel_id c) w =
    some (record w { channels = adjust channel_id (λ d. c) w.channels })
serve (spawned x z) w = some (record w { service = (spawn_monster x z w.service).0 })

unfoldable pub serve_all : List Event → World → Option World
serve_all [] w = some w
serve_all (e ∷ es) w = serve e w >>= serve_all es
