-- ===== src/Ecs/Systems.antt =====
-- server/game/ecs/system.hpp and system.cpp: the systems by their type, and the order in which update_all
-- calls them. systems_mutex_ is held by every operation.
pub mod Order
use ecs_asio_server.Common.{
  ℕ, List, [], ◌∷◌, map, Bool, true, false, Option, none, some, length, if◌then◌else◌,
}
use ecs_asio_server.Common.Tables.{find, has_key, erase_key, assign, adjust}

-- What SystemManager reads of a system.
pub record System : Type 0 where
  pub enabled : Bool
  pub priority : ℕ

abbrev pub new_system : System
new_system = record { enabled = true; priority = 0 }

-- A system is known by the number of its type, also in update_order_, which holds pointers.
pub record SystemManager : Type 0 where
  pub systems : List (ℕ × System)
  pub update_order : List ℕ

abbrev pub no_systems : SystemManager
no_systems = record { systems = []; update_order = [] }

unfoldable pub set_enabled : ℕ → Bool → SystemManager → SystemManager
set_enabled type_id enabled m = record m {
  systems = adjust type_id (λ s. record s { enabled = enabled }) m.systems;
}

-- The order is not rebuilt.
unfoldable pub set_priority : ℕ → ℕ → SystemManager → SystemManager
set_priority type_id priority m = record m {
  systems = adjust type_id (λ s. record s { priority = priority }) m.systems;
}

unfoldable pub get_system : ℕ → SystemManager → Option System
get_system type_id m = find type_id m.systems

unfoldable pub get_system_count : SystemManager → ℕ
get_system_count m = length m.systems

-- What is sorted: each type with its priority.
unfoldable pub entries : List (ℕ × System) → List (ℕ × ℕ)
entries [] = []
entries ((type_id, s) ∷ systems) = (type_id, s.priority) ∷ entries systems

-- std::sort by the priority, which leaves open the order of equal ones.
module _ (sort : List (ℕ × ℕ) → List (ℕ × ℕ)) where
  unfoldable pub rebuild_update_order : SystemManager → SystemManager
  rebuild_update_order m = record m { update_order = map (λ e. e.0) (sort (entries m.systems)) }

  unfoldable pub register_system : ℕ → System → SystemManager → SystemManager
  register_system type_id s m =
      if has_key type_id m.systems
      then m
      else rebuild_update_order (record m { systems = assign type_id s m.systems })

  unfoldable pub unregister_system : ℕ → SystemManager → SystemManager
  unregister_system type_id m =
      rebuild_update_order (record m { systems = erase_key type_id m.systems })

abbrev pub update_next {ℓ} : {S : Type ℓ} → Option S → (S → Option S) → Option S
update_next none next = none
update_next (some state) next = next state

-- A call of a system through its pointer: none if the system is gone.
module _ {ℓ} {S : Type ℓ} (update : ℕ → S → S) where
  abbrev pub updated : ℕ → Option System → S → Option S
  updated type_id none state = none
  updated type_id (some s) state = some (if s.enabled then update type_id state else state)

  unfoldable pub update_each : List ℕ → List (ℕ × System) → S → Option S
  update_each [] systems state = some state
  update_each (type_id ∷ order) systems state =
      update_next (updated type_id (find type_id systems) state)
        (λ next. update_each order systems next)

  unfoldable pub update_all : SystemManager → S → Option S
  update_all m state = update_each m.update_order m.systems state

-- game_service.cpp: the systems that initialize registers, in its order. The numbers stand for
-- MovementSystem, AISystem, CombatSystem and MapSystem.
pub record ServiceSystems : Type 0 where
  pub initialized : Bool
  pub manager : SystemManager

module _ (sort : List (ℕ × ℕ) → List (ℕ × ℕ)) where
  abbrev pub default_systems : SystemManager
  default_systems = register_system sort 3 new_system (
      register_system sort 2 new_system
        (register_system sort 1 new_system (register_system sort 0 new_system no_systems)))

  unfoldable pub initialize : ServiceSystems → ServiceSystems
  initialize s =
      if s.initialized then s else record { initialized = true; manager = default_systems }

unfoldable pub shutdown : ServiceSystems → ServiceSystems
shutdown s = if s.initialized then record { initialized = false; manager = no_systems } else s

unfoldable pub update_service : {S : Type 0} → (ℕ → S → S) → ServiceSystems → S → Option S
update_service update s state =
    if s.initialized then update_all update s.manager state else some state
