-- ===== src/Game/Server/Damage.antt =====
-- What an attack does to the world.
use ecs_asio_server.Common.{
  ℕ, ◌+◌, ◌-◌, ◌*◌, ◌%◌, ◌^◌, ◌<◌, ◌≡◌, refl, sym, ap, ◌∙◌, List, Bool, true, false, ◌||◌, Option,
  none, some, ◌≤◌, length, ◌==◌, if◌then◌else◌, arith, if_cases, subst, ==→eq,
}
use ecs_asio_server.Common.Tables.{find, erase_key}
use ecs_asio_server.Protocol.Combat.Defs.{
  AttackReq, AttackRes, serialize_attack_res, DamageNotify, serialize_damage_notify,
}
use ecs_asio_server.Game.Net.Room.{
  Roomy, Yields, Roomy-less, send_test_frame-Yields, broadcast_except-Yields,
}
use ecs_asio_server.Wire.{sizes}
use ecs_asio_server.Ecs.Entities.{destroy_entity}
use ecs_asio_server.Ecs.Store.{get, add}
use ecs_asio_server.Ecs.Store.Laws.{get-add}
use ecs_asio_server.Ecs.Health.{Health}
use ecs_asio_server.Game.Combat.{hurt, take_damage, get_hp, hp_of}
use ecs_asio_server.Game.World.{World, service_destroy, remove_all_components}
use ecs_asio_server.Game.Net.{◌>>=◌}
use ecs_asio_server.Game.Players.Attack.{
  handle_attack_req, strike, bury, attack_damage, hit_or_killed,
}
use ecs_asio_server.Game.Server.Effects.{
  Returns, then-Returns, send_test_frame-Returns, broadcast_except-Returns,
}

-- The health behind the damage: it does not go below 0.
abbrev pub struck : ℕ → Option Health → Option Health
struck damage none = none
struck damage (some h) = some (record h { hp = h.hp - damage })

hurt_lem : (damage : ℕ) (h : Health) → hurt damage h ≡ record h { hp = h.hp - damage }
unfolding hurt
hurt_lem damage h = ap (λ n. record h { hp = n }) (ground arith)

take_damage-get :
    (e f damage : ℕ) (s : List (ℕ × Health))
    → get f (take_damage e damage s) ≡ (if f == e then struck damage (get e s) else get f s)
unfolding take_damage
take_damage-get e f damage s = by_get (get e s) refl
  where
    same : (f == e) ≡ true → get f s ≡ get e s
    same k = ap (λ x. get x s) (==→eq f e k)

    by_get :
        (r : Option Health)
        → get e s ≡ r
        → get f (elim r [ none ↦ s | some h ↦ add e (hurt damage h) s ])
          ≡ (if f == e then struck damage r else get f s)
    by_get none k = if_cases (λ v. get f s ≡ v) (f == e) (λ q. same q ∙ k) (λ _. refl)
    by_get (some h) k =
        get-add e f (hurt damage h) s
        ∙ ap (λ v. if f == e then some v else get f s) (hurt_lem damage h)

-- The target is dead when its hp is used up; without a Health its hp counts as 0.
abbrev pub dies : ℕ → Option Health → Bool
dies damage h = hp_of (struck damage h) == 0

abbrev pub Struck : AttackReq → ℕ → ℕ → World → World → Type 0
Struck req e f w u =
    let damage = (10 + req.skill_id * 5) % 2 ^ 32 in
    let dead = dies damage (get e w.service.healths) in
    (get f u.service.healths
      ≡ (if f == e then struck damage (get e w.service.healths) else get f w.service.healths))
    × (u.channel_to_entity
        ≡ (if dead then erase_key req.target_id w.channel_to_entity else w.channel_to_entity))
    × (u.service.entities
        ≡ (if dead then destroy_entity e w.service.entities else w.service.entities))

strike-Struck :
    (channel_id : ℕ) (req : AttackReq) (e f : ℕ) (w : World)
    → Returns (Struck req e f w) (strike channel_id req e w)
unfolding strike attack_damage get_hp bury service_destroy remove_all_components
strike-Struck channel_id req e f w =
    then-Returns Hit (Struck req e f w) _ _
      (then-Returns Hit Hit _ _
        (send_test_frame-Returns Hit channel_id 1004 _ _ (λ t. (refl, refl, refl)))
        (λ u h. broadcast_except-Returns Hit channel_id 1004 _ u (λ t. h)))
      (λ u h. buried u h)
  where
    damage : ℕ
    damage = (10 + req.skill_id * 5) % 2 ^ 32

    healths : List (ℕ × Health)
    healths = take_damage e damage w.service.healths

    Hit : World → Type 0
    Hit u =
        (u.service.healths ≡ healths)
        × (u.channel_to_entity ≡ w.channel_to_entity)
        × (u.service.entities ≡ w.service.entities)

    buried :
        (u : World)
        → Hit u
        → Struck req e f w (if hp_of (get e healths) == 0 then bury req.target_id e u else u)
    buried u h =
        subst (λ c. D u (dies damage old) (if c then bury req.target_id e u else u))
          (sym (ap (λ r. hp_of r == 0) own)) (by_dead (dies damage old))
      where
        old : Option Health
        old = get e w.service.healths

        own : get e healths ≡ struck damage old
        own =
            take_damage-get e e damage w.service.healths
            ∙ if_cases (λ v. v ≡ struck damage old) (e == e) (λ _. refl)
                (λ n. absurd (ground (arith, n)))

        D : World → Bool → World → Type 0
        D u b x =
            (get f x.service.healths
              ≡ (if f == e then struck damage old else get f w.service.healths))
            × (x.channel_to_entity
                ≡ (if b then erase_key req.target_id w.channel_to_entity else w.channel_to_entity))
            × (x.service.entities
                ≡ (if b then destroy_entity e w.service.entities else w.service.entities))

        hit :
            get f u.service.healths
            ≡ (if f == e then struck damage old else get f w.service.healths)
        hit = ap (get f) h.0 ∙ take_damage-get e f damage w.service.healths

        by_dead : (b : Bool) → D u b (if b then bury req.target_id e u else u)
        by_dead true = (hit, ap (erase_key req.target_id) h.1, ap (destroy_entity e) h.2)
        by_dead false = (hit, h.1, h.2)

attack_res_size : (m : AttackRes) → length (serialize_attack_res m) ≡ 17 + length m.message
unfolding serialize_attack_res
attack_res_size m = omega sizes

damage_notify_size : (m : DamageNotify) → length (serialize_damage_notify m) ≡ 24
unfolding serialize_damage_notify
damage_notify_size m = omega sizes

message_size : (b : Bool) → length (hit_or_killed b) ≤ 6
message_size true = omega arith
message_size false = omega arith

then_some :
    (P : World → Type 0) (r : Option World) (f : World → World)
    → Yields P r
    → Yields (λ u. Unit {0}) (r >>= λ u. some (f u))
then_some P none f y = y
then_some P (some u) f y = tt

strike-Yields :
    (channel_id : ℕ) (req : AttackReq) (e : ℕ) (w : World)
    → Roomy 128 w.channels
    → Yields (λ u. Unit {0}) (strike channel_id req e w)
unfolding strike
strike-Yields channel_id req e w room =
    then_some (λ u. Roomy 0 u.channels) _ _
      (chained _ _
        (send_test_frame-Yields 64 channel_id 1004 _ _
          (omega (arith, attack_res_size _, message_size _))
          (Roomy-less 128 _ w.channels (omega (arith, attack_res_size _, message_size _)) room))
        (λ u r.
          broadcast_except-Yields 0 channel_id 1004 _ u (omega (arith, damage_notify_size _))
            (Roomy-less 64 _ u.channels (omega (arith, damage_notify_size _)) r)))
  where
    chained :
        (r : Option World) (f : World → Option World)
        → Yields (λ u. Roomy 64 u.channels) r
        → ((u : World) → Roomy 64 u.channels → Yields (λ v. Roomy 0 v.channels) (f u))
        → Yields (λ v. Roomy 0 v.channels) (r >>= f)
    chained none f y k = y
    chained (some u) f y k = k u y

Returns-Yields :
    (P : World → Type 0) (r : Option World) → Returns P r → Yields (λ u. Unit {0}) r → Yields P r
Returns-Yields P none h y = y
Returns-Yields P (some u) h y = h

-- An attack of a channel with an entity on a channel with an entity, where each channel has room for
-- 128 bytes: the handler returns, the health of the target falls by 10 + 5 * skill_id modulo 2^32, but
-- not below 0, and no other entity's health changes. If the target has no hp left then, its channel has
-- no entity any more and the entity is destroyed; if it has some, neither changes.
pub handle_attack_req-Struck :
    (channel_id : ℕ) (req : AttackReq) (a e f : ℕ) (w : World)
    → find channel_id w.channel_to_entity ≡ some a
    → find req.target_id w.channel_to_entity ≡ some e
    → 0 < a
    → 0 < e
    → Roomy 128 w.channels
    → Yields (Struck req e f w) (handle_attack_req channel_id req w)
unfolding handle_attack_req
handle_attack_req-Struck channel_id req a e f w attacker target real_a real_e room =
    rw (attacker, target)
      (if_cases (Yields (Struck req e f w)) ((a == 0) || (e == 0)) (λ z. absurd (ground (arith, z)))
        (λ _.
          Returns-Yields (Struck req e f w) (strike channel_id req e w)
            (strike-Struck channel_id req e f w) (strike-Yields channel_id req e w room)))
