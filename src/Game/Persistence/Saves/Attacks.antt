-- ===== src/Game/Persistence/Saves/Attacks.antt =====
-- handlers/player_handlers.cpp: an attack on a server with a database. handle_attack calls neither on_close
-- nor the database, so it is the handler of the server without one; what it leaves of the channels.
use ecs_asio_server.Common.{
  ℕ, ◌≡◌, refl, sym, ap, ◌∙◌, List, [], ◌∷◌, Bool, true, ◌||◌, Option, none, some, ◌==◌, arith,
  if_cases, subst, Bool-cases, inl, inr, ==→eq,
}
use ecs_asio_server.Common.Tables.{find, has_key, assign, is_some_of, has_key-assign, has_key-find}
use ecs_asio_server.Channel.{Channel}
use ecs_asio_server.Ecs.Entities.Calls.{next_destroy}
use ecs_asio_server.Protocol.Combat.Defs.{AttackReq, parse_attack_req}
use ecs_asio_server.Game.World.{World, service_destroy, remove_all_components}
use ecs_asio_server.Game.Net.{
  ◌>>=◌, send_locked, broadcast_loop, broadcast_except, send_test_found, send_test_frame,
  entity_or_zero, frame_for,
}
use ecs_asio_server.Game.Players.Attack.{handle_attack, handle_attack_req, strike, bury}
use ecs_asio_server.Game.Server.Effects.{next_id, Returns}
use ecs_asio_server.Game.Server.Handlers.{parsed-Returns}

-- The same channels are there, and the entities have the same counter.
abbrev pub SameKeys : World → World → Type 0
SameKeys w u =
    ((id : ℕ) → has_key id u.channels ≡ has_key id w.channels)
    × (u.use_ecs ≡ w.use_ecs)
    × (next_id u ≡ next_id w)

SameKeys-chain : (w u x : World) → SameKeys w u → SameKeys u x → SameKeys w x
SameKeys-chain w u x h k = ((λ id. k.0 id ∙ h.0 id), k.1 ∙ h.1, k.2 ∙ h.2)

abbrev HasKeys : List (ℕ × Channel) → Option (List (ℕ × Channel)) → Type 0
HasKeys t none = Unit {0}
HasKeys t (some u) = (id : ℕ) → has_key id u ≡ has_key id t

broadcast_loop-HasKeys :
    (skip : ℕ → Bool) (pkt : List ℕ) (t : List (ℕ × Channel))
    → HasKeys t (broadcast_loop skip pkt t)
unfolding broadcast_loop has_key
broadcast_loop-HasKeys skip pkt [] = λ id. refl
broadcast_loop-HasKeys skip pkt ((i, c) ∷ t) =
    let rest = broadcast_loop-HasKeys skip pkt t in
    if_cases (HasKeys ((i, c) ∷ t)) (skip i) (λ _. behind c (broadcast_loop skip pkt t) rest)
      (λ _. sent (send_locked pkt c) rest)
  where
    behind :
        (d : Channel) (r : Option (List (ℕ × Channel)))
        → HasKeys t r
        → HasKeys ((i, c) ∷ t) (r >>= λ u. some ((i, d) ∷ u))
    behind d none h = tt
    behind d (some u) h = λ id. ground (arith, h id)

    sent :
        (r : Option Channel)
        → HasKeys t (broadcast_loop skip pkt t)
        → HasKeys ((i, c) ∷ t) (r >>= λ d. broadcast_loop skip pkt t >>= λ u. some ((i, d) ∷ u))
    sent none h = tt
    sent (some d) h = behind d (broadcast_loop skip pkt t) h

broadcast_except-SameKeys :
    (exclude cmd : ℕ) (bytes : List ℕ) (w : World)
    → Returns (SameKeys w) (broadcast_except exclude cmd bytes w)
unfolding broadcast_except
broadcast_except-SameKeys exclude cmd bytes w =
    updated (broadcast_loop (λ id. id == exclude) (frame_for cmd bytes) w.channels)
      (broadcast_loop-HasKeys (λ id. id == exclude) (frame_for cmd bytes) w.channels)
  where
    updated :
        (r : Option (List (ℕ × Channel)))
        → HasKeys w.channels r
        → Returns (SameKeys w) (r >>= λ t. some (record w { channels = t }))
    updated none h = tt
    updated (some t) h = (h, refl, refl)

send_test_frame-SameKeys :
    (id cmd : ℕ) (bytes : List ℕ) (w : World)
    → Returns (SameKeys w) (send_test_frame id cmd bytes w)
unfolding send_test_frame send_test_found
send_test_frame-SameKeys id cmd bytes w = found (find id w.channels) refl
  where
    updated :
        (r : Option Channel)
        → has_key id w.channels ≡ true
        → Returns (SameKeys w) (r >>= λ d. some (record w { channels = assign id d w.channels }))
    updated none h = tt
    updated (some d) h = (
      (λ j.
          let keyed = has_key-assign id j d w.channels in
          elim (Bool-cases (j == id)) [
            | inl q ↦
                ground
                  (arith, keyed, q, subst (λ i. has_key i w.channels ≡ true) (sym (==→eq j id q)) h)
            | inr q ↦ ground (arith, keyed, q)
          ]),
      refl,
      refl,
    )

    found :
        (r : Option Channel)
        → find id w.channels ≡ r
        → Returns (SameKeys w) (send_test_found id cmd bytes w r)
    found none e = ((λ j. refl), refl, refl)
    found (some c) e =
        updated (send_locked (frame_for cmd bytes) c) (has_key-find id w.channels ∙ ap is_some_of e)

after :
    (w : World) (r : Option World) (f : World → Option World)
    → Returns (SameKeys w) r
    → ((u : World) → Returns (SameKeys u) (f u))
    → Returns (SameKeys w) (r >>= f)
after w none f h g = tt
after w (some u) f h g = chained (f u) (g u)
  where
    chained : (r : Option World) → Returns (SameKeys u) r → Returns (SameKeys w) r
    chained none k = tt
    chained (some x) k = SameKeys-chain w u x h k

strike-SameKeys :
    (channel_id : ℕ) (req : AttackReq) (e : ℕ) (w : World)
    → Returns (SameKeys w) (strike channel_id req e w)
unfolding strike bury service_destroy remove_all_components
strike-SameKeys channel_id req e w =
    after w _ _
      (after w _ _ (send_test_frame-SameKeys channel_id 1004 _ _)
        (λ u. broadcast_except-SameKeys channel_id 1004 _ u))
      λ u.
        if_cases (SameKeys u) _ (λ _. ((λ id. refl), refl, next_destroy e u.service.entities))
          (λ _. ((λ id. refl), refl, refl))

-- An attack, if its handler returns, leaves the channels and the counter of the entities.
pub handle_attack-SameKeys :
    (channel_id : ℕ) (bytes : List ℕ) (w : World)
    → Returns (SameKeys w) (handle_attack channel_id bytes w)
unfolding handle_attack handle_attack_req
handle_attack-SameKeys channel_id bytes w =
    parsed-Returns (SameKeys w) w _ (parse_attack_req bytes) ((λ id. refl), refl, refl)
      λ req.
        if_cases (Returns (SameKeys w))
          ((entity_or_zero (find channel_id w.channel_to_entity) == 0)
            || (entity_or_zero (find req.target_id w.channel_to_entity) == 0))
          (λ _. send_test_frame-SameKeys channel_id 1004 _ w)
          (λ _. strike-SameKeys channel_id req _ w)
