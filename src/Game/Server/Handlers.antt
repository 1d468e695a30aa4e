-- ===== src/Game/Server/Handlers.antt =====
-- What each handler does to the entities of the channels.
use ecs_asio_server.Common.{
  ℕ, ◌+◌, ◌<◌, ◌^◌, refl, ◌∙◌, List, Option, none, some, ◌==◌, arith, if_cases,
}
use ecs_asio_server.Common.Tables.{find}
use ecs_asio_server.Wire.{Parsed, ok, reject, fault}
use ecs_asio_server.Protocol.Base.Defs.{LoginReq, parse_login_req}
use ecs_asio_server.Ecs.Entities.Calls.{next_create}
use ecs_asio_server.Game.World.{World, Position}
use ecs_asio_server.Game.Players.{spawn_player, login_entity, login, handle_login}
use ecs_asio_server.Game.Players.Moves.{
  handle_move, move, set_position, route_packet_to_map, handle_chat, talk, chat_success,
}
use ecs_asio_server.Game.Players.Maps.{
  handle_map_enter, enter, get_player_map, update_player_map, remember_map, set_map,
}
use ecs_asio_server.Protocol.Player.Defs.{PlayerMoveReq, parse_player_move_req}
use ecs_asio_server.Protocol.Map.Defs.{MapEnterReq, parse_map_enter_req}
use ecs_asio_server.Game.Guilds.{text_ok, Guilds, Answer}
use ecs_asio_server.Game.Threads.Main.{MainThreadManager}
use ecs_asio_server.Game.Net.{on_parsed, ◌>>=◌, entity_or_zero, send_test_frame}
use ecs_asio_server.Game.Server.{answered, guild_handler}
use ecs_asio_server.Game.Server.Links.{link-Linked}
use ecs_asio_server.Game.Server.Effects.{
  Sound, next_id, Returns, Kept, Fine, Kept-Fine, send_test_frame-Kept, broadcast-Kept,
  broadcast_except-Kept, send_unlocked-Fine,
}

login_entity-Fine :
    (channel_id : ℕ) (req : LoginReq) (w : World)
    → Sound w
    → next_id w + 1 < 2 ^ 32
    → Fine w (login_entity channel_id req w).0
unfolding login_entity spawn_player
login_entity-Fine channel_id req w v h =
    if_cases (λ (p : World × ℕ). Fine w p.0) w.use_ecs
      (λ _. (
        link-Linked channel_id w.channel_to_entity w.service.entities v h,
        omega (arith, next_create w.service.entities h),
      ))
      (λ _. (v, omega arith))

login-Fine :
    (channel_id : ℕ) (req : LoginReq) (w : World)
    → Sound w
    → next_id w + 1 < 2 ^ 32
    → Fine w (login channel_id req w)
unfolding login
login-Fine channel_id req w v h =
    let f = login_entity-Fine channel_id req w v h in
    let s = send_unlocked-Fine channel_id 1001 _ (login_entity channel_id req w).0 f.0 in
    (s.0, omega (arith, s.1, f.1))

pub both-Kept :
    (w : World) (r : Option World) (f : World → Option World)
    → Returns (Kept w) r
    → ((u : World) → Returns (Kept u) (f u))
    → Returns (Kept w) (r >>= f)
both-Kept w none f h g = tt
both-Kept w (some u) f h g = chained (f u) (g u)
  where
    chained : (r : Option World) → Returns (Kept u) r → Returns (Kept w) r
    chained none k = tt
    chained (some x) k = (k.0 ∙ h.0, k.1 ∙ h.1)

pub Kept-Returns :
    (w : World) (r : Option World) → Sound w → Returns (Kept w) r → Returns (Fine w) r
Kept-Returns w none v k = tt
Kept-Returns w (some u) v k = Kept-Fine w u v k

pub parsed-Returns :
    {A : Type 0} (P : World → Type 0) (w : World) (f : A → Option World) (r : Parsed A)
    → P w
    → ((a : A) → Returns P (f a))
    → Returns P (on_parsed w f r)
parsed-Returns P w f (ok req rest) h g = g req
parsed-Returns P w f reject h g = h
parsed-Returns P w f fault h g = tt

pub handle_login-Fine :
    (channel_id : ℕ) (bytes : List ℕ) (w : World)
    → Sound w
    → next_id w + 1 < 2 ^ 32
    → Returns (Fine w) (handle_login channel_id bytes w)
unfolding handle_login
handle_login-Fine channel_id bytes w v h =
    parsed-Returns (Fine w) w _ (parse_login_req bytes) (v, omega arith)
      (λ req. login-Fine channel_id req w v h)

set_position-Kept :
    (channel_id : ℕ) (p : Position) (w : World) → Kept w (set_position channel_id p w)
unfolding set_position
set_position-Kept channel_id p w =
    if_cases (Kept w) w.use_ecs
      (λ _.
        if_cases (Kept w) (entity_or_zero (find channel_id w.channel_to_entity) == 0)
          (λ _. (refl, refl)) (λ _. (refl, refl)))
      (λ _. (refl, refl))

after-Kept : (w u : World) (r : Option World) → Kept w u → Returns (Kept u) r → Returns (Kept w) r
after-Kept w u none k h = tt
after-Kept w u (some x) k h = (h.0 ∙ k.0, h.1 ∙ k.1)

pub handle_move-Kept :
    (channel_id : ℕ) (bytes : List ℕ) (w : World)
    → Returns (Kept w) (handle_move channel_id bytes w)
unfolding handle_move
handle_move-Kept channel_id bytes w =
    parsed-Returns (Kept w) w _ (parse_player_move_req bytes) (refl, refl)
      (λ req. moved req w.main_thread_manager)
  where
    moved :
        (req : PlayerMoveReq) (m : Option MainThreadManager)
        → Returns (Kept w) (move channel_id bytes req w m)
    moved req (some m) = unfold move route_packet_to_map in (refl, refl)
    moved req none =
        let p : Position = record { x = req.x; y = req.y; z = req.z } in
        let u = set_position channel_id p w in
        unfold move in
        both-Kept w _ (send_test_frame channel_id 1002 text_ok)
          (after-Kept w u _ (set_position-Kept channel_id p w)
            (broadcast_except-Kept channel_id 1002 _ u))
          (λ x. send_test_frame-Kept channel_id 1002 text_ok x)

pub handle_chat-Kept :
    (channel_id : ℕ) (bytes : List ℕ) (w : World)
    → Returns (Kept w) (handle_chat channel_id bytes w)
unfolding handle_chat
handle_chat-Kept channel_id bytes w = talked w.main_thread_manager
  where
    talked : (m : Option MainThreadManager) → Returns (Kept w) (talk channel_id bytes w m)
    talked (some m) = unfold talk in (refl, refl)
    talked none =
        unfold talk in
        both-Kept w _ (send_test_frame channel_id 1003 chat_success) (broadcast-Kept 1003 _ w)
          (λ x. send_test_frame-Kept channel_id 1003 chat_success x)

pub handle_map_enter-Kept :
    (channel_id : ℕ) (bytes : List ℕ) (w : World)
    → Returns (Kept w) (handle_map_enter channel_id bytes w)
unfolding handle_map_enter
handle_map_enter-Kept channel_id bytes w =
    parsed-Returns (Kept w) w _ (parse_map_enter_req bytes) (refl, refl)
      (λ req. entered req (find req.map_id w.maps))
  where
    remembered :
        (map_id : ℕ) (m : Option MainThreadManager) → Kept w (remember_map channel_id map_id m w)
    remembered map_id none = (refl, refl)
    remembered map_id (some m) =
        if_cases (Kept w) (get_player_map channel_id w == map_id) (λ _. (refl, refl))
          (λ _. unfold update_player_map in (refl, refl))

    placed :
        (u : World) (map_id : ℕ) (e : Option ℕ)
        → Kept w u
        → Kept w (record u { service = set_map map_id e u.service })
    placed u map_id none k = k
    placed u map_id (some e) k = k

    entered :
        (req : MapEnterReq) (r : Option (List ℕ)) → Returns (Kept w) (enter channel_id req w r)
    entered req none = unfold enter in send_test_frame-Kept channel_id 1005 _ w
    entered req (some name) =
        let w₁ = remember_map channel_id req.map_id w.main_thread_manager w in
        let e = find channel_id w₁.channel_to_entity in
        unfold enter in
        after-Kept w (record w₁ { service = set_map req.map_id e w₁.service }) _
          (placed w₁ req.map_id e (remembered req.map_id w.main_thread_manager))
          (send_test_frame-Kept channel_id 1005 _ _)

pub guild_handler-Kept :
    (f : ℕ → List ℕ → Guilds → Guilds × Answer) (channel_id : ℕ) (bytes : List ℕ) (w : World)
    → Returns (Kept w) (guild_handler f channel_id bytes w)
unfolding guild_handler
guild_handler-Kept f channel_id bytes w = replied (f channel_id bytes w.guilds).1
  where
    replied :
        (a : Answer)
        → Returns
            (Kept w)
            (answered channel_id a (record w { guilds = (f channel_id bytes w.guilds).0 }))
    replied none = unfold answered in (refl, refl)
    replied (some (cmd, payload)) = unfold answered in send_test_frame-Kept channel_id cmd payload _
