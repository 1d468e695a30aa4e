-- ===== src/Game/Server/Run.antt =====
-- The server over every sequence of what the network reports.
use ecs_asio_server.Common.{
  ℕ, ◌+◌, ◌<◌, ◌≤◌, ◌^◌, sym, List, [], ◌∷◌, Bool, true, false, ◌==◌, arith, if_cases, length,
  subst,
}
use ecs_asio_server.Common.Tables.{find, has_key, find-assign}
use ecs_asio_server.Ecs.Entities.{EntityManager, fresh_manager}
use ecs_asio_server.Game.Threads.Manager.{MapThreadManager, no_threads, create_map_thread}
use ecs_asio_server.Ecs.Entities.Calls.{next_create}
use ecs_asio_server.Game.World.{
  spawn_monster, World, create_maps, initialize_threading_system, init_world,
}
use ecs_asio_server.Game.Guilds.{handle_guild_create, handle_guild_join, handle_guild_leave}
use ecs_asio_server.Game.Threads.Main.{start_main}
use ecs_asio_server.Game.Net.{send_unlocked, accept}
use ecs_asio_server.Game.Server.{
  bind, Handler, called, dispatch, pong, handle_ping, handle_echo, bind_player_handlers,
  bind_guild_handlers, dispatcher, Event, accepted, frame, ended, changed, spawned, serve,
  serve_all,
}
use ecs_asio_server.Game.Server.Links.{Linked, create-Linked, fresh_manager-Linked}
use ecs_asio_server.Game.Server.Effects.{
  Sound, next_id, Returns, then-Returns, Kept, Fine, on_close-Fine, send_unlocked-Fine,
}
use ecs_asio_server.Game.Server.Kills.{handle_attack-Fine}
use ecs_asio_server.Game.Server.Handlers.{
  handle_login-Fine, handle_move-Kept, handle_chat-Kept, handle_map_enter-Kept, guild_handler-Kept,
  Kept-Returns,
}

-- A handler that keeps the invariant.
abbrev Good : Handler → Type 0
Good h =
    (channel_id : ℕ) (bytes : List ℕ) (w : World)
    → Sound w
    → next_id w + 1 < 2 ^ 32
    → Returns (Fine w) (h channel_id bytes w)

Kept-Good :
    (h : Handler) → ((c : ℕ) (bytes : List ℕ) (w : World) → Returns (Kept w) (h c bytes w)) → Good h
Kept-Good h k c bytes w v small = Kept-Returns w (h c bytes w) v (k c bytes w)

-- A table all of whose handlers do.
abbrev AllGood : List (ℕ × Handler) → Type 0
AllGood t = (k : ℕ) → Good (called (find k t))

bind-AllGood :
    (msg_id : ℕ) (h : Handler) (t : List (ℕ × Handler))
    → Good h
    → AllGood t
    → AllGood (bind msg_id h t)
unfolding bind
bind-AllGood msg_id h t g a k =
    subst (λ r. Good (called r)) (sym (find-assign msg_id k h t))
      (if_cases (λ r. Good (called r)) (k == msg_id) (λ _. g) (λ _. a k))

dispatcher-AllGood : AllGood dispatcher
unfolding dispatcher bind_player_handlers bind_guild_handlers find handle_echo handle_ping
dispatcher-AllGood = bind-AllGood 2003 _ _ (Kept-Good _ (guild_handler-Kept handle_guild_leave)) (
    bind-AllGood 2002 _ _ (Kept-Good _ (guild_handler-Kept handle_guild_join)) (
      bind-AllGood 2001 _ _ (Kept-Good _ (guild_handler-Kept handle_guild_create)) (
        bind-AllGood 1005 _ _ (Kept-Good _ handle_map_enter-Kept) (
          bind-AllGood 1004 _ _ (λ c b w v small. handle_attack-Fine c b w v)
            (bind-AllGood 1003 _ _ (Kept-Good _ handle_chat-Kept) (
              bind-AllGood 1002 _ _ (Kept-Good _ handle_move-Kept) (
                bind-AllGood 1001 _ _ handle_login-Fine (
                  bind-AllGood 100 _ _ (λ c b w v small. sent c 100 b w v)
                    (bind-AllGood 1 _ _ (λ c b w v small. sent c 2 pong w v)
                      (λ k c b w v small. (v, omega arith)))))))))))
  where
    sent : (c cmd : ℕ) (b : List ℕ) (w : World) → Sound w → Fine w (send_unlocked c cmd b w)
    sent c cmd b w v = let s = send_unlocked-Fine c cmd b w v in (s.0, omega (arith, s.1))

serve-Fine :
    (e : Event) (w : World) → Sound w → next_id w + 1 < 2 ^ 32 → Returns (Fine w) (serve e w)
unfolding serve accept dispatch spawn_monster
serve-Fine (accepted now) w v h = (v, omega arith)
serve-Fine (frame channel_id cmd bytes) w v h = dispatcher-AllGood cmd channel_id bytes w v h
serve-Fine (changed channel_id c) w v h = (v, omega arith)
serve-Fine (spawned x z) w v h = (
  create-Linked w.channel_to_entity w.service.entities v h,
  omega (arith, next_create w.service.entities h),
)
serve-Fine (ended channel_id) w v h =
    let c = on_close-Fine channel_id w v in (c.0, omega (arith, c.1))

serve_all_from :
    (es : List Event) (w : World)
    → Sound w
    → next_id w + length es < 2 ^ 32
    → Returns Sound (serve_all es w)
unfolding serve_all
serve_all_from [] w v h = v
serve_all_from (e ∷ es) w v h =
    then-Returns (Fine w) Sound (serve e w) (serve_all es) (serve-Fine e w v (omega (arith, h)))
      (λ u f. serve_all_from es u f.0 (omega (arith, h, f.1)))

create_map_thread-Linked :
    (id : ℕ) (name : List ℕ) (m : MapThreadManager) (t : List (ℕ × ℕ)) (entities : EntityManager)
    → Linked t entities
    → entities.next_entity_id + 1 < 2 ^ 32
    → Linked t (create_map_thread id name m entities).1
      × ((create_map_thread id name m entities).1.next_entity_id ≤ entities.next_entity_id + 1)
unfolding create_map_thread
create_map_thread-Linked id name m t entities v h =
    if_cases
      (λ (p : MapThreadManager × EntityManager).
        Linked t p.1 × (p.1.next_entity_id ≤ entities.next_entity_id + 1))
      (has_key id m.map_threads) (λ _. (v, omega arith))
      (λ _. (create-Linked t entities v h, omega (arith, next_create entities h)))

create_maps-Linked :
    (maps : List (ℕ × List ℕ)) (m : MapThreadManager) (t : List (ℕ × ℕ)) (entities : EntityManager)
    → Linked t entities
    → entities.next_entity_id + length maps < 2 ^ 32
    → Linked t (create_maps maps m entities).1
      × ((create_maps maps m entities).1.next_entity_id ≤ entities.next_entity_id + length maps)
unfolding create_maps
create_maps-Linked [] m t entities v h = (v, omega arith)
create_maps-Linked ((id, name) ∷ maps) m t entities v h =
    let one = create_map_thread-Linked id name m t entities v (omega (arith, h)) in
    let all =
      create_maps-Linked maps (create_map_thread id name m entities).0 t _ one.0
        (omega (arith, h, one.1)) in
    (all.0, omega (arith, all.1, one.1))

init_world-Sound :
    (use_ecs : Bool) (maps : List (ℕ × List ℕ))
    → 1 + length maps < 2 ^ 32
    → Sound (init_world use_ecs maps) × (next_id (init_world use_ecs maps) ≤ 1 + length maps)
unfolding init_world initialize_threading_system start_main
init_world-Sound true maps h =
    create_maps-Linked maps no_threads [] fresh_manager fresh_manager-Linked (omega (arith, h))
init_world-Sound false maps h = (fresh_manager-Linked, omega arith)

-- From the start of the server on, with or without the ECS, whatever the network reports: connections,
-- frames with any command and payload, ends of channels, and any change of a channel and any monster
-- spawned in between, in any order. As long as the maps and the reports are fewer than 2^32 - 2
-- together, in the state that is left (if no handler locked mtx_ twice): every channel in
-- channel_to_entity_ has an active entity, which is not 0, no two channels have the same entity, and the
-- entity manager is sound (Ecs.Entities.Accounts.Ok).
pub serve_all-Sound :
    (use_ecs : Bool) (maps : List (ℕ × List ℕ)) (es : List Event)
    → 2 + length maps + length es < 2 ^ 32
    → Returns Sound (serve_all es (init_world use_ecs maps))
serve_all-Sound use_ecs maps es h =
    let start = init_world-Sound use_ecs maps (omega (arith, h)) in
    serve_all_from es (init_world use_ecs maps) start.0 (omega (arith, h, start.1))
