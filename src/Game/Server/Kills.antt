-- ===== src/Game/Server/Kills.antt =====
-- What the handler of an attack does to the entities of the channels.
use ecs_asio_server.Common.{
  ℕ, ◌≡◌, ap, ◌∙◌, List, true, false, ◌||◌, Option, none, some, ◌==◌, arith, if_cases,
}
use ecs_asio_server.Common.Tables.{find}
use ecs_asio_server.Ecs.Entities.Calls.{next_destroy}
use ecs_asio_server.Game.World.{World, service_destroy, remove_all_components}
use ecs_asio_server.Game.Players.Attack.{handle_attack, handle_attack_req, strike, bury}
use ecs_asio_server.Protocol.Combat.Defs.{AttackReq, parse_attack_req}
use ecs_asio_server.Game.Net.{entity_or_zero, broadcast_except}
use ecs_asio_server.Game.Server.Links.{holds, unlink-Linked}
use ecs_asio_server.Game.Server.Effects.{
  Sound, next_id, Returns, then-Returns, Kept, Kept-Sound, Fine, Kept-Fine, send_test_frame-Kept,
  broadcast_except-Kept,
}
use ecs_asio_server.Game.Server.Handlers.{parsed-Returns, both-Kept, Kept-Returns}

bury-Sound :
    (c e : ℕ) (w : World)
    → holds e (find c w.channel_to_entity) ≡ true
    → Sound w
    → (Sound (bury c e w)) × (next_id (bury c e w) ≡ next_id w)
unfolding bury service_destroy remove_all_components
bury-Sound c e w h v = (
  unlink-Linked c e w.channel_to_entity w.service.entities h v,
  next_destroy e w.service.entities,
)

strike-Fine :
    (channel_id : ℕ) (req : AttackReq) (e : ℕ) (w : World)
    → holds e (find req.target_id w.channel_to_entity) ≡ true
    → Sound w
    → Returns (Fine w) (strike channel_id req e w)
unfolding strike
strike-Fine channel_id req e w h v =
    then-Returns (Kept w) (Fine w) _ _
      (both-Kept w _ (broadcast_except channel_id 1004 _) (send_test_frame-Kept channel_id 1004 _ _)
        (λ u. broadcast_except-Kept channel_id 1004 _ u))
      λ u k.
        let b =
          bury-Sound req.target_id e u (ap (λ t. holds e (find req.target_id t)) k.0 ∙ h)
            (Kept-Sound w u k v) in
        if_cases (Fine w) _ (λ _. (b.0, omega (arith, b.1, (Kept-Fine w u v k).1)))
          (λ _. Kept-Fine w u v k)

pub handle_attack-Fine :
    (channel_id : ℕ) (bytes : List ℕ) (w : World)
    → Sound w
    → Returns (Fine w) (handle_attack channel_id bytes w)
unfolding handle_attack handle_attack_req
handle_attack-Fine channel_id bytes w v =
    parsed-Returns (Fine w) w _ (parse_attack_req bytes) (v, omega arith) (λ req. attacked req)
  where
    found :
        (a : ℕ) (r : Option ℕ)
        → ((a == 0) || (entity_or_zero r == 0)) ≡ false
        → holds (entity_or_zero r) r ≡ true
    found a none h = ground arith
    found a (some e) h = ground arith

    attacked : (req : AttackReq) → Returns (Fine w) (handle_attack_req channel_id req w)
    attacked req =
        let r = find req.target_id w.channel_to_entity in
        if_cases (Returns (Fine w))
          ((entity_or_zero (find channel_id w.channel_to_entity) == 0) || (entity_or_zero r == 0))
          (λ _. Kept-Returns w _ v (send_test_frame-Kept channel_id 1004 _ w))
          (λ h. strike-Fine channel_id req (entity_or_zero r) w (found _ r h) v)
