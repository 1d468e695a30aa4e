-- ===== src/Protocol/Combat/RoundTrip.antt =====
-- The messages of common/protocol/protocol_combat.hpp as Message gathers them: serialized and parsed.
use ecs_asio_server.Common.{ℕ, List, ◌++◌, ◌≡◌, ◌≤◌, length}
use ecs_asio_server.Wire.{ok, IsU32, IsText, sizes, run_parser, need_front, ◌>>=◌, map_parser, ◌>>◌}
use ecs_asio_server.Protocol.Combat.Defs.{
  AttackReq, serialize_attack_req, parse_attack_req, AttackRes, serialize_attack_res,
  parse_attack_res, DamageNotify, serialize_damage_notify, parse_damage_notify, SkillUseReq,
  serialize_skill_use_req, parse_skill_use_req, SkillUseRes, serialize_skill_use_res,
  parse_skill_use_res, StatusEffectNotify, serialize_status_effect_notify,
  parse_status_effect_notify,
}
use ecs_asio_server.Protocol.Combat.Message.{CombatMessage, Fits, kind, serialize, parse}

attack_req_size : (m : AttackReq) → 24 ≤ length (serialize_attack_req m)
unfolding serialize_attack_req
attack_req_size m = omega sizes

parse-serialize_attack_req :
    (m : AttackReq) (rest : List ℕ)
    → IsU32 m.target_id × IsU32 m.skill_id × IsU32 m.x × IsU32 m.y × IsU32 m.z × IsU32 m.timestamp
    → parse_attack_req (serialize_attack_req m ++ rest) ≡ ok m rest
unfolding parse_attack_req
parse-serialize_attack_req m rest h =
    rw (need_front 24 (serialize_attack_req m) (attack_req_size m), ◌>>=◌, ◌>>◌)
      (unfold serialize_attack_req in simp (run_parser, h.0, h.1, h.2, h.3, h.4, h.5))

attack_res_size : (m : AttackRes) → 12 ≤ length (serialize_attack_res m)
unfolding serialize_attack_res
attack_res_size m = omega sizes

parse-serialize_attack_res :
    (m : AttackRes) (rest : List ℕ)
    → IsText m.message × IsU32 m.attack_id × IsU32 m.damage × IsU32 m.target_remaining_hp
    → parse_attack_res (serialize_attack_res m ++ rest) ≡ ok m rest
unfolding parse_attack_res
parse-serialize_attack_res m rest h =
    rw (need_front 12 (serialize_attack_res m) (attack_res_size m), ◌>>=◌, ◌>>◌)
      (unfold serialize_attack_res in simp (run_parser, h.0, h.1, h.2, h.3))

damage_notify_size : (m : DamageNotify) → 24 ≤ length (serialize_damage_notify m)
unfolding serialize_damage_notify
damage_notify_size m = omega sizes

parse-serialize_damage_notify :
    (m : DamageNotify) (rest : List ℕ)
    → IsU32 m.attacker_id
      × IsU32 m.target_id
      × IsU32 m.damage
      × IsU32 m.remaining_hp
      × IsU32 m.attack_id
      × IsU32 m.timestamp
    → parse_damage_notify (serialize_damage_notify m ++ rest) ≡ ok m rest
unfolding parse_damage_notify
parse-serialize_damage_notify m rest h =
    rw (need_front 24 (serialize_damage_notify m) (damage_notify_size m), ◌>>=◌, ◌>>◌)
      (unfold serialize_damage_notify in simp (run_parser, h.0, h.1, h.2, h.3, h.4, h.5))

skill_use_req_size : (m : SkillUseReq) → 24 ≤ length (serialize_skill_use_req m)
unfolding serialize_skill_use_req
skill_use_req_size m = omega sizes

parse-serialize_skill_use_req :
    (m : SkillUseReq) (rest : List ℕ)
    → IsU32 m.skill_id × IsU32 m.target_id × IsU32 m.x × IsU32 m.y × IsU32 m.z × IsU32 m.timestamp
    → parse_skill_use_req (serialize_skill_use_req m ++ rest) ≡ ok m rest
unfolding parse_skill_use_req
parse-serialize_skill_use_req m rest h =
    rw (need_front 24 (serialize_skill_use_req m) (skill_use_req_size m), ◌>>=◌, ◌>>◌)
      (unfold serialize_skill_use_req in simp (run_parser, h.0, h.1, h.2, h.3, h.4, h.5))

skill_use_res_size : (m : SkillUseRes) → 12 ≤ length (serialize_skill_use_res m)
unfolding serialize_skill_use_res
skill_use_res_size m = omega sizes

parse-serialize_skill_use_res :
    (m : SkillUseRes) (rest : List ℕ)
    → IsText m.message × IsU32 m.skill_id × IsU32 m.cooldown_time × IsU32 m.mana_cost
    → parse_skill_use_res (serialize_skill_use_res m ++ rest) ≡ ok m rest
unfolding parse_skill_use_res
parse-serialize_skill_use_res m rest h =
    rw (need_front 12 (serialize_skill_use_res m) (skill_use_res_size m), ◌>>=◌, ◌>>◌)
      (unfold serialize_skill_use_res in simp (run_parser, h.0, h.1, h.2, h.3))

status_effect_notify_size :
    (m : StatusEffectNotify) → 21 ≤ length (serialize_status_effect_notify m)
unfolding serialize_status_effect_notify
status_effect_notify_size m = omega sizes

parse-serialize_status_effect_notify :
    (m : StatusEffectNotify) (rest : List ℕ)
    → IsU32 m.target_id × IsU32 m.effect_id × IsU32 m.duration × IsU32 m.value × IsU32 m.timestamp
    → parse_status_effect_notify (serialize_status_effect_notify m ++ rest) ≡ ok m rest
unfolding parse_status_effect_notify
parse-serialize_status_effect_notify m rest h =
    rw (need_front 21 (serialize_status_effect_notify m) (status_effect_notify_size m), ◌>>=◌, ◌>>◌)
      (unfold serialize_status_effect_notify in simp (run_parser, h.0, h.1, h.2, h.3, h.4))

-- Every message of protocol_combat.hpp whose fields fit is read back from what it is serialized to, whatever
-- bytes follow it, and those bytes are left.
pub parse-serialize_combat :
    (m : CombatMessage) (rest : List ℕ) → Fits m → parse (kind m) (serialize m ++ rest) ≡ ok m rest
unfolding parse kind serialize map_parser
parse-serialize_combat (CombatMessage.attack_req m) rest h =
    rw (◌>>=◌, parse-serialize_attack_req m rest h)
parse-serialize_combat (CombatMessage.attack_res m) rest h =
    rw (◌>>=◌, parse-serialize_attack_res m rest h)
parse-serialize_combat (CombatMessage.damage_notify m) rest h =
    rw (◌>>=◌, parse-serialize_damage_notify m rest h)
parse-serialize_combat (CombatMessage.skill_use_req m) rest h =
    rw (◌>>=◌, parse-serialize_skill_use_req m rest h)
parse-serialize_combat (CombatMessage.skill_use_res m) rest h =
    rw (◌>>=◌, parse-serialize_skill_use_res m rest h)
parse-serialize_combat (CombatMessage.status_effect_notify m) rest h =
    rw (◌>>=◌, parse-serialize_status_effect_notify m rest h)
