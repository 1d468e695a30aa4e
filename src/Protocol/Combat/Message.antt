-- ===== src/Protocol/Combat/Message.antt =====
-- One message of common/protocol/protocol_combat.hpp: its struct, its serialize() and the parse() that its kind
-- selects.
use ecs_asio_server.Common.{ℕ, List}
use ecs_asio_server.Wire.{Parser, map_parser, IsU32, IsText}
use ecs_asio_server.Protocol.Combat.Defs.{
  AttackReq, serialize_attack_req, parse_attack_req, AttackRes, serialize_attack_res,
  parse_attack_res, DamageNotify, serialize_damage_notify, parse_damage_notify, SkillUseReq,
  serialize_skill_use_req, parse_skill_use_req, SkillUseRes, serialize_skill_use_res,
  parse_skill_use_res, StatusEffectNotify, serialize_status_effect_notify,
  parse_status_effect_notify,
}

pub data CombatKind : Type 0 where
  attack_req attack_res damage_notify skill_use_req skill_use_res status_effect_notify : CombatKind

pub data CombatMessage : Type 0 where
  attack_req : AttackReq → CombatMessage
  attack_res : AttackRes → CombatMessage
  damage_notify : DamageNotify → CombatMessage
  skill_use_req : SkillUseReq → CombatMessage
  skill_use_res : SkillUseRes → CombatMessage
  status_effect_notify : StatusEffectNotify → CombatMessage

unfoldable pub kind : CombatMessage → CombatKind
kind (CombatMessage.attack_req m) = CombatKind.attack_req
kind (CombatMessage.attack_res m) = CombatKind.attack_res
kind (CombatMessage.damage_notify m) = CombatKind.damage_notify
kind (CombatMessage.skill_use_req m) = CombatKind.skill_use_req
kind (CombatMessage.skill_use_res m) = CombatKind.skill_use_res
kind (CombatMessage.status_effect_notify m) = CombatKind.status_effect_notify

unfoldable pub serialize : CombatMessage → List ℕ
serialize (CombatMessage.attack_req m) = serialize_attack_req m
serialize (CombatMessage.attack_res m) = serialize_attack_res m
serialize (CombatMessage.damage_notify m) = serialize_damage_notify m
serialize (CombatMessage.skill_use_req m) = serialize_skill_use_req m
serialize (CombatMessage.skill_use_res m) = serialize_skill_use_res m
serialize (CombatMessage.status_effect_notify m) = serialize_status_effect_notify m

unfoldable pub parse : CombatKind → Parser CombatMessage
parse CombatKind.attack_req = map_parser CombatMessage.attack_req parse_attack_req
parse CombatKind.attack_res = map_parser CombatMessage.attack_res parse_attack_res
parse CombatKind.damage_notify = map_parser CombatMessage.damage_notify parse_damage_notify
parse CombatKind.skill_use_req = map_parser CombatMessage.skill_use_req parse_skill_use_req
parse CombatKind.skill_use_res = map_parser CombatMessage.skill_use_res parse_skill_use_res
parse CombatKind.status_effect_notify =
    map_parser CombatMessage.status_effect_notify parse_status_effect_notify

-- The values that the fields of the struct can hold: 32 bits in a number, a length of 32 bits in a text.
abbrev pub Fits : CombatMessage → Type 0
Fits (CombatMessage.attack_req m) =
    IsU32 m.target_id × IsU32 m.skill_id × IsU32 m.x × IsU32 m.y × IsU32 m.z × IsU32 m.timestamp
Fits (CombatMessage.attack_res m) =
    IsText m.message × IsU32 m.attack_id × IsU32 m.damage × IsU32 m.target_remaining_hp
Fits (CombatMessage.damage_notify m) =
    IsU32 m.attacker_id
    × IsU32 m.target_id
    × IsU32 m.damage
    × IsU32 m.remaining_hp
    × IsU32 m.attack_id
    × IsU32 m.timestamp
Fits (CombatMessage.skill_use_req m) =
    IsU32 m.skill_id × IsU32 m.target_id × IsU32 m.x × IsU32 m.y × IsU32 m.z × IsU32 m.timestamp
Fits (CombatMessage.skill_use_res m) =
    IsText m.message × IsU32 m.skill_id × IsU32 m.cooldown_time × IsU32 m.mana_cost
Fits (CombatMessage.status_effect_notify m) =
    IsU32 m.target_id × IsU32 m.effect_id × IsU32 m.duration × IsU32 m.value × IsU32 m.timestamp
