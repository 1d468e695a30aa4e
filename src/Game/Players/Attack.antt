-- ===== src/Game/Players/Attack.antt =====
-- The handler of 1004, ATTACK.
use ecs_asio_server.Common.{
  ℕ, ◌+◌, ◌*◌, ◌%◌, ◌^◌, List, [], ◌∷◌, Bool, true, false, ◌||◌, Option, some, ◌==◌, if◌then◌else◌,
}
use ecs_asio_server.Common.Tables.{find, erase_key}
use ecs_asio_server.Protocol.Combat.Defs.{
  AttackReq, parse_attack_req, serialize_attack_res, serialize_damage_notify,
}
use ecs_asio_server.Game.Combat.{take_damage, get_hp}
use ecs_asio_server.Game.World.{World, service_destroy}
use ecs_asio_server.Game.Net.{on_parsed, ◌>>=◌, broadcast_except, send_test_frame, entity_or_zero}

abbrev pub target_not_found : List ℕ
target_not_found =
    b't' ∷ b'a' ∷ b'r' ∷ b'g' ∷ b'e' ∷ b't' ∷ b' ' ∷ b'n' ∷ b'o' ∷ b't' ∷ b' ' ∷ b'f' ∷ b'o' ∷ b'u'
    ∷ b'n' ∷ b'd' ∷ []

abbrev pub hit_or_killed : Bool → List ℕ
hit_or_killed true = b'k' ∷ b'i' ∷ b'l' ∷ b'l' ∷ b'e' ∷ b'd' ∷ []
hit_or_killed false = b'h' ∷ b'i' ∷ b't' ∷ []

-- `10 + req.skill_id * 5` in std::uint32_t.
unfoldable pub attack_damage : ℕ → ℕ
attack_damage skill_id = (10 + skill_id * 5) % 2 ^ 32

unfoldable pub bury : ℕ → ℕ → World → World
bury target_channel target_entity w = record w {
  service = service_destroy target_entity w.service;
  channel_to_entity = erase_key target_channel w.channel_to_entity;
}

-- The attack of one entity on another, both found.
unfoldable pub strike : ℕ → AttackReq → ℕ → World → Option World
strike channel_id req target_entity w =
    let damage = attack_damage req.skill_id in
    let healths = take_damage target_entity damage w.service.healths in
    let remaining_hp = get_hp target_entity healths in
    let target_dead = remaining_hp == 0 in
    let res = serialize_attack_res (record {
      success = true;
      message = hit_or_killed target_dead;
      attack_id = 1;
      damage = damage;
      target_remaining_hp = remaining_hp;
    }) in
    let notify = serialize_damage_notify (record {
      attacker_id = channel_id;
      target_id = req.target_id;
      damage = damage;
      remaining_hp = remaining_hp;
      attack_id = 1;
      timestamp = req.timestamp;
    }) in
    send_test_frame channel_id 1004 res
      (record w { service = record w.service { healths = healths } })
    >>= broadcast_except channel_id 1004 notify
    >>= λ w'. some (if target_dead then bury req.target_id target_entity w' else w')

unfoldable pub handle_attack_req : ℕ → AttackReq → World → Option World
handle_attack_req channel_id req w =
    let attacker_entity = entity_or_zero (find channel_id w.channel_to_entity) in
    let target_entity = entity_or_zero (find req.target_id w.channel_to_entity) in
    if (attacker_entity == 0) || (target_entity == 0)
    then send_test_frame channel_id 1004
        (serialize_attack_res (record {
          success = false;
          message = target_not_found;
          attack_id = 0;
          damage = 0;
          target_remaining_hp = 0;
        }))
        w
    else strike channel_id req target_entity w

unfoldable pub handle_attack : ℕ → List ℕ → World → Option World
handle_attack channel_id bytes w =
    on_parsed w (λ req. handle_attack_req channel_id req w) (parse_attack_req bytes)
