-- ===== src/Protocol/Combat/Defs.antt =====
-- The messages of common/protocol/protocol_combat.hpp: the fields of each struct, its serialize() and its parse().
-- A float field holds the bit pattern of the float.
use ecs_asio_server.Common.{ℕ, List, Bool, ◌∷◌, ◌++◌}
use ecs_asio_server.Wire.{
  Parser, ◌>>=◌, ◌>>◌, accept, need, write_le32, write_float_le, write_bool, write_lp_string,
  read_u8, read_bool, read_le32, read_float_le, read_lp_string,
}

pub record AttackReq : Type 0 where
  pub target_id : ℕ
  pub skill_id : ℕ
  pub x : ℕ
  pub y : ℕ
  pub z : ℕ
  pub timestamp : ℕ

unfoldable pub serialize_attack_req : AttackReq → List ℕ
serialize_attack_req m =
    write_le32 m.target_id
    ++ (write_le32 m.skill_id
        ++ (write_float_le m.x
            ++ (write_float_le m.y ++ (write_float_le m.z ++ write_le32 m.timestamp))))

unfoldable pub parse_attack_req : Parser AttackReq
parse_attack_req = do
  need 24
  target_id ← read_le32
  skill_id ← read_le32
  x ← read_float_le
  y ← read_float_le
  z ← read_float_le
  timestamp ← read_le32
  accept (record {
    target_id = target_id;
    skill_id = skill_id;
    x = x;
    y = y;
    z = z;
    timestamp = timestamp;
  })

pub record AttackRes : Type 0 where
  pub success : Bool
  pub message : List ℕ
  pub attack_id : ℕ
  pub damage : ℕ
  pub target_remaining_hp : ℕ

unfoldable pub serialize_attack_res : AttackRes → List ℕ
serialize_attack_res m =
    write_bool m.success
    ++ (write_lp_string m.message
        ++ (write_le32 m.attack_id ++ (write_le32 m.damage ++ write_le32 m.target_remaining_hp)))

unfoldable pub parse_attack_res : Parser AttackRes
parse_attack_res = do
  need 12
  success ← read_bool
  message ← read_lp_string
  attack_id ← read_le32
  damage ← read_le32
  target_remaining_hp ← read_le32
  accept (record {
    success = success;
    message = message;
    attack_id = attack_id;
    damage = damage;
    target_remaining_hp = target_remaining_hp;
  })

pub record DamageNotify : Type 0 where
  pub attacker_id : ℕ
  pub target_id : ℕ
  pub damage : ℕ
  pub remaining_hp : ℕ
  pub attack_id : ℕ
  pub timestamp : ℕ

unfoldable pub serialize_damage_notify : DamageNotify → List ℕ
serialize_damage_notify m =
    write_le32 m.attacker_id
    ++ (write_le32 m.target_id
        ++ (write_le32 m.damage
            ++ (write_le32 m.remaining_hp ++ (write_le32 m.attack_id ++ write_le32 m.timestamp))))

unfoldable pub parse_damage_notify : Parser DamageNotify
parse_damage_notify = do
  need 24
  attacker_id ← read_le32
  target_id ← read_le32
  damage ← read_le32
  remaining_hp ← read_le32
  attack_id ← read_le32
  timestamp ← read_le32
  accept (record {
    attacker_id = attacker_id;
    target_id = target_id;
    damage = damage;
    remaining_hp = remaining_hp;
    attack_id = attack_id;
    timestamp = timestamp;
  })

pub record SkillUseReq : Type 0 where
  pub skill_id : ℕ
  pub target_id : ℕ
  pub x : ℕ
  pub y : ℕ
  pub z : ℕ
  pub timestamp : ℕ

unfoldable pub serialize_skill_use_req : SkillUseReq → List ℕ
serialize_skill_use_req m =
    write_le32 m.skill_id
    ++ (write_le32 m.target_id
        ++ (write_float_le m.x
            ++ (write_float_le m.y ++ (write_float_le m.z ++ write_le32 m.timestamp))))

unfoldable pub parse_skill_use_req : Parser SkillUseReq
parse_skill_use_req = do
  need 24
  skill_id ← read_le32
  target_id ← read_le32
  x ← read_float_le
  y ← read_float_le
  z ← read_float_le
  timestamp ← read_le32
  accept (record {
    skill_id = skill_id;
    target_id = target_id;
    x = x;
    y = y;
    z = z;
    timestamp = timestamp;
  })

pub record SkillUseRes : Type 0 where
  pub success : Bool
  pub message : List ℕ
  pub skill_id : ℕ
  pub cooldown_time : ℕ
  pub mana_cost : ℕ

unfoldable pub serialize_skill_use_res : SkillUseRes → List ℕ
serialize_skill_use_res m =
    write_bool m.success
    ++ (write_lp_string m.message
        ++ (write_le32 m.skill_id ++ (write_le32 m.cooldown_time ++ write_le32 m.mana_cost)))

unfoldable pub parse_skill_use_res : Parser SkillUseRes
parse_skill_use_res = do
  need 12
  success ← read_bool
  message ← read_lp_string
  skill_id ← read_le32
  cooldown_time ← read_le32
  mana_cost ← read_le32
  accept (record {
    success = success;
    message = message;
    skill_id = skill_id;
    cooldown_time = cooldown_time;
    mana_cost = mana_cost;
  })

pub record StatusEffectNotify : Type 0 where
  pub target_id : ℕ
  pub effect_id : ℕ
  pub effect_type : ℕ
  pub duration : ℕ
  pub value : ℕ
  pub timestamp : ℕ

unfoldable pub serialize_status_effect_notify : StatusEffectNotify → List ℕ
serialize_status_effect_notify m =
    write_le32 m.target_id
    ++ (write_le32 m.effect_id
        ++ (m.effect_type
            ∷ (write_le32 m.duration ++ (write_le32 m.value ++ write_le32 m.timestamp))))

unfoldable pub parse_status_effect_notify : Parser StatusEffectNotify
parse_status_effect_notify = do
  need 21
  target_id ← read_le32
  effect_id ← read_le32
  effect_type ← read_u8
  duration ← read_le32
  value ← read_le32
  timestamp ← read_le32
  accept (record {
    target_id = target_id;
    effect_id = effect_id;
    effect_type = effect_type;
    duration = duration;
    value = value;
    timestamp = timestamp;
  })
