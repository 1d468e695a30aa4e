-- ===== src/Tests/Game.antt =====
-- The game server, its guilds and the database calls at concrete inputs.
use ecs_asio_server.Common.{
  ℕ, ◌≡◌, refl, List, [], ◌∷◌, true, false, none, some, arith, if◌then◌else◌, ◌==◌,
}
use ecs_asio_server.Channel.{fresh}
use ecs_asio_server.Common.Tables.{find}
use ecs_asio_server.Protocol.Combat.Defs.{AttackReq}
use ecs_asio_server.Game.Players.Attack.{handle_attack_req}
use ecs_asio_server.Game.Server.Damage.{Struck, handle_attack_req-Struck}
use ecs_asio_server.Game.World.{World, new_world, new_service}
use ecs_asio_server.Game.Net.{frame_for, broadcast, broadcast_except}
use ecs_asio_server.Game.Net.Room.{Yields}
use ecs_asio_server.Game.Net.Broadcast.{outcome, delivered, stuck, rest, broadcast-delivers}
use ecs_asio_server.Game.Guilds.{no_guilds}
use ecs_asio_server.Game.Guilds.Consistency.{Consistent, no_guilds-Consistent}
use ecs_asio_server.Game.Guilds.Refinement.{
  Packet, create_packet, join_packet, leave_packet, handle_all, spec_handle_all, view,
  handle_all_refines,
}
use ecs_asio_server.Game.Server.{Event, accepted, frame, ended, serve_all}
use ecs_asio_server.Game.Server.Effects.{Returns, Sound}
use ecs_asio_server.Game.Server.Run.{serve_all-Sound}
use ecs_asio_server.Game.World.{init_world}

-- Channel 3 founds a guild named g, channel 4 joins it and channel 3 leaves.
abbrev visits : List Packet
visits =
    create_packet 3 (1 ∷ 0 ∷ 0 ∷ 0 ∷ b'g' ∷ 0 ∷ 0 ∷ 0 ∷ 0 ∷ [])
    ∷ join_packet 4 (1 ∷ 0 ∷ 0 ∷ 0 ∷ 0 ∷ 0 ∷ 0 ∷ 0 ∷ [])
    ∷ leave_packet 3 []
    ∷ []

handle_all_refines_example :
    Consistent (handle_all visits no_guilds).0
    × ((view (handle_all visits no_guilds).0, (handle_all visits no_guilds).1)
        ≡ spec_handle_all visits (view no_guilds))
handle_all_refines_example = handle_all_refines visits no_guilds no_guilds-Consistent (omega arith)

-- Two connections, and a frame for one of them.
abbrev two : World
two = record (new_world false []) { channels = (1, fresh) ∷ (2, fresh) ∷ [] }

abbrev hi : List ℕ
hi = 104 ∷ 105 ∷ []

broadcast-delivers_example :
    (outcome (broadcast 1003 hi two) ≡ (
      if stuck (λ id. false) (frame_for 1003 hi) two.channels
      then none
      else some (delivered (λ id. false) (frame_for 1003 hi) two.channels, rest two)))
    × (outcome (broadcast_except 2 1003 hi two) ≡ (
        if stuck (λ id. id == 2) (frame_for 1003 hi) two.channels
        then none
        else some (delivered (λ id. id == 2) (frame_for 1003 hi) two.channels, rest two)))
broadcast-delivers_example =
    broadcast-delivers 2 1003 hi two (omega arith) (omega arith, (omega arith, tt))

-- Two connections log in, the first attacks the second, and ends.
abbrev day : List Event
day =
    accepted 1000
    ∷ accepted 1001
    ∷ frame 1 1001 (1 ∷ 0 ∷ 0 ∷ 0 ∷ b'a' ∷ 0 ∷ 0 ∷ 0 ∷ 0 ∷ [])
    ∷ frame 2 1001 (1 ∷ 0 ∷ 0 ∷ 0 ∷ b'b' ∷ 0 ∷ 0 ∷ 0 ∷ 0 ∷ [])
    ∷ frame 1 1004 (
        2 ∷ 0 ∷ 0 ∷ 0 ∷ 1 ∷ 0 ∷ 0 ∷ 0 ∷ 0 ∷ 0 ∷ 0 ∷ 0 ∷ 0 ∷ 0 ∷ 0 ∷ 0 ∷ 0 ∷ 0 ∷ 0 ∷ 0 ∷ 9 ∷ 0 ∷ 0
        ∷ 0 ∷ [])
    ∷ ended 1
    ∷ []

serve_all-Sound_example : Returns Sound (serve_all day (init_world true ((1, b'F' ∷ []) ∷ [])))
serve_all-Sound_example = serve_all-Sound true ((1, b'F' ∷ []) ∷ []) day (omega arith)

-- Channel 1 with entity 5 attacks channel 2 with entity 6, which has 12 hp, with the skill 1.
abbrev duel : World
duel = record (new_world true []) {
  channels = (1, fresh) ∷ (2, fresh) ∷ [];
  channel_to_entity = (1, 5) ∷ (2, 6) ∷ [];
  service = record new_service {
    healths = (6, record { hp = 12; max_hp = 100; mp = 0; max_mp = 0; is_alive = true }) ∷ [];
  };
}

abbrev blow : AttackReq
blow = record { target_id = 2; skill_id = 1; x = 0; y = 0; z = 0; timestamp = 9 }

handle_attack_req-Struck_example : Yields (Struck blow 6 6 duel) (handle_attack_req 1 blow duel)
handle_attack_req-Struck_example =
    handle_attack_req-Struck 1 blow 5 6 6 duel (unfold find in refl) (unfold find in refl)
      (omega arith) (omega arith) (omega arith, (omega arith, tt))
