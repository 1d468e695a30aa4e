-- ===== src/Game/Combat.antt =====
-- server/game/systems/combat_system.cpp: the damage that the system does to the Health of an entity.
use ecs_asio_server.Common.{
  ℕ, ◌+◌, ◌-◌, ◌%◌, ◌^◌, List, Bool, false, Option, none, some, ltb, if◌then◌else◌,
}
use ecs_asio_server.Ecs.Store.{get, add}
use ecs_asio_server.Ecs.Health.{Health}
use ecs_asio_server.Ecs.Objects.{Monster}

-- is_alive is left as it is.
unfoldable pub hurt : ℕ → Health → Health
hurt damage h = record h { hp = if ltb damage h.hp then h.hp - damage else 0 }

unfoldable pub take_damage : ℕ → ℕ → List (ℕ × Health) → List (ℕ × Health)
take_damage entity damage s = elim (get entity s) [
  | none ↦ s
  | some h ↦ add entity (hurt damage h) s
]

unfoldable pub attack : ℕ → ℕ → List (ℕ × Health) → List (ℕ × Health)
attack attacker target s = take_damage target 10 s

-- `std::min(health->max_hp, health->hp + amount)`, where the sum wraps.
unfoldable pub mend : ℕ → Health → Health
mend amount h =
    let sum = (h.hp + amount) % 2 ^ 32 in
    record h { hp = if ltb sum h.max_hp then sum else h.max_hp }

unfoldable pub heal : ℕ → ℕ → List (ℕ × Health) → List (ℕ × Health)
heal entity amount s = elim (get entity s) [ none ↦ s | some h ↦ add entity (mend amount h) s ]

abbrev pub fights : Option Health → Bool
fights none = false
fights (some h) = ltb h.hp h.max_hp

unfoldable pub is_in_combat : ℕ → List (ℕ × Health) → Bool
is_in_combat entity s = fights (get entity s)

abbrev pub target_of : Option Monster → ℕ
target_of none = 0
target_of (some m) = m.target_entity

unfoldable pub get_target : ℕ → List (ℕ × Monster) → ℕ
get_target entity s = target_of (get entity s)

abbrev pub hp_of : Option Health → ℕ
hp_of none = 0
hp_of (some h) = h.hp

unfoldable pub get_hp : ℕ → List (ℕ × Health) → ℕ
get_hp entity s = hp_of (get entity s)

abbrev pub max_hp_of : Option Health → ℕ
max_hp_of none = 0
max_hp_of (some h) = h.max_hp

unfoldable pub get_max_hp : ℕ → List (ℕ × Health) → ℕ
get_max_hp entity s = max_hp_of (get entity s)
