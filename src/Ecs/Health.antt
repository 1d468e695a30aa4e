-- ===== src/Ecs/Health.antt =====
-- Health and Status of server/game/components/health.hpp. The numbers are std::uint32_t.
use ecs_asio_server.Common.{
  ℕ, ◌+◌, ◌-◌, ◌%◌, ◌^◌, ◌≤◌, ◌<◌, ◌≡◌, Bool, true, false, arith, ltb, leb, if◌then◌else◌,
}

pub record Health : Type 0 where
  pub hp : ℕ
  pub max_hp : ℕ
  pub mp : ℕ
  pub max_mp : ℕ
  pub is_alive : Bool

unfoldable pub new_health : ℕ → ℕ → Health
new_health max_hp max_mp = record {
  hp = max_hp;
  max_hp = max_hp;
  mp = max_mp;
  max_mp = max_mp;
  is_alive = true;
}

unfoldable pub clone_health : Health → Health
clone_health h = record (new_health h.max_hp h.max_mp) {
  hp = h.hp;
  mp = h.mp;
  is_alive = h.is_alive;
}

unfoldable pub take_damage : ℕ → Health → Health
take_damage damage h =
    if leb h.hp damage
    then record h { hp = 0; is_alive = false }
    else record h { hp = h.hp - damage }

-- `std::min(hp + amount, max_hp)`, where the sum wraps.
abbrev pub healed : ℕ → Health → ℕ
healed amount h = let sum = (h.hp + amount) % 2 ^ 32 in if ltb h.max_hp sum then h.max_hp else sum

unfoldable pub heal : ℕ → Health → Health
heal amount h = record h {
  hp = healed amount h;
  is_alive = if ltb 0 (healed amount h) then true else h.is_alive;
}

pub record Status : Type 0 where
  pub level : ℕ
  pub experience : ℕ
  pub gold : ℕ
  pub is_in_combat : Bool
  pub is_moving : Bool

unfoldable pub new_status : ℕ → Status
new_status level = record {
  level = level;
  experience = 0;
  gold = 0;
  is_in_combat = false;
  is_moving = false;
}

unfoldable pub clone_status : Status → Status
clone_status s = record (new_status s.level) {
  experience = s.experience;
  gold = s.gold;
  is_in_combat = s.is_in_combat;
  is_moving = s.is_moving;
}

unfoldable pub add_experience : ℕ → Status → Status
add_experience exp s = record s { experience = (s.experience + exp) % 2 ^ 32 }

unfoldable pub add_gold : ℕ → Status → Status
add_gold amount s = record s { gold = (s.gold + amount) % 2 ^ 32 }

unfoldable pub spend_gold : ℕ → Status → Status × Bool
spend_gold amount s =
    if leb amount s.gold then (record s { gold = s.gold - amount }, true) else (s, false)

-- The hp is within the maximum, and is_alive says whether any is left.
pub record Sound (h : Health) : Type 0 where
  pub within : h.hp ≤ h.max_hp
  pub alive : h.is_alive ≡ ltb 0 h.hp
  pub word : h.max_hp < 2 ^ 32

-- Damage and healing keep the hp within the maximum and is_alive true exactly while hp is left; a
-- healing whose sum stays below 2 ^ 32 does not lower the hp, and damage takes off what is there at most.
pub health_laws :
    (h : Health) (n : ℕ)
    → Sound h
    → h.hp + n < 2 ^ 32
    → Sound (take_damage n h)
      × Sound (heal n h)
      × (h.hp ≤ (heal n h).hp)
      × ((take_damage n h).hp ≡ h.hp - n)
unfolding take_damage heal
health_laws h n v k = (
  ground (arith, v.within, v.alive, v.word),
  ground (arith, v.within, v.alive, v.word),
  ground (arith, v.within),
  ground arith,
)

-- What was spent can be earned back, and a purse that is too small is left alone.
pub spend_gold-add_gold :
    (s : Status) (n : ℕ) → s.gold + n < 2 ^ 32 → spend_gold n (add_gold n s) ≡ (s, true)
unfolding spend_gold add_gold
spend_gold-add_gold s n h = ground arith
