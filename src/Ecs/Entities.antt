-- ===== src/Ecs/Entities.antt =====
-- server/game/ecs/entity.cpp: the identifiers of the entities. The set of the active ones is a list
-- without repetition; every operation holds the mutex from its first line to its last.
pub mod Accounts
pub mod Calls
use ecs_asio_server.Common.{
  ℕ, zero, suc, ◌+◌, ◌-◌, ◌%◌, ◌^◌, List, [], ◌∷◌, Bool, false, ◌||◌, ◌==◌, if◌then◌else◌,
}

pub record EntityManager : Type 0 where
  pub active_entities : List ℕ
  pub next_entity_id : ℕ
  pub entity_count : ℕ

unfoldable pub contains : ℕ → List ℕ → Bool
contains e [] = false
contains e (x ∷ xs) = e == x || contains e xs

unfoldable pub insert : ℕ → List ℕ → List ℕ
insert e xs = if contains e xs then xs else e ∷ xs

unfoldable pub erase : ℕ → List ℕ → List ℕ
erase e [] = []
erase e (x ∷ xs) = let rest = erase e xs in if e == x then xs else x ∷ rest

-- `fetch_add` and `fetch_sub` on a std::uint32_t.
abbrev pub add32 : ℕ → ℕ → ℕ
add32 a b = (a + b) % 2 ^ 32

abbrev pub pred32 : ℕ → ℕ
pred32 a = (a + (2 ^ 32 - 1)) % 2 ^ 32

abbrev pub fresh_manager : EntityManager
fresh_manager = record { active_entities = []; next_entity_id = 1; entity_count = 0 }

unfoldable pub create_entity : EntityManager → EntityManager × ℕ
create_entity m = (
  record {
    active_entities = insert m.next_entity_id m.active_entities;
    next_entity_id = add32 m.next_entity_id 1;
    entity_count = add32 m.entity_count 1;
  },
  m.next_entity_id,
)

unfoldable pub destroy_entity : ℕ → EntityManager → EntityManager
destroy_entity e m =
    if contains e m.active_entities
    then record m {
      active_entities = erase e m.active_entities;
      entity_count = pred32 m.entity_count;
    }
    else m

unfoldable pub is_valid : ℕ → EntityManager → Bool
is_valid e m = contains e m.active_entities

-- The loop has the body of destroy_entity.
unfoldable pub destroy_entities : List ℕ → EntityManager → EntityManager
destroy_entities [] m = m
destroy_entities (e ∷ es) m = destroy_entities es (destroy_entity e m)

-- The loop of create_entities, which leaves entity_count for the end.
unfoldable pub create_loop : ℕ → EntityManager → EntityManager × List ℕ
create_loop zero m = (m, [])
create_loop (suc n) m =
    let (m', entities) = create_loop n (record m {
      active_entities = insert m.next_entity_id m.active_entities;
      next_entity_id = add32 m.next_entity_id 1;
    }) in
    (m', m.next_entity_id ∷ entities)

unfoldable pub create_entities : ℕ → EntityManager → EntityManager × List ℕ
create_entities count m =
    let (m', entities) = create_loop count m in
    (record m' { entity_count = add32 m'.entity_count count }, entities)
