-- ===== src/Ecs/Entities/Calls.antt =====
-- Histories of calls on the manager.
use ecs_asio_server.Common.{
  ℕ, zero, suc, ◌+◌, ◌%◌, ◌^◌, ◌<◌, ◌≡◌, refl, ◌∙◌, List, [], ◌∷◌, arith, if_cases,
}
use ecs_asio_server.Ecs.Entities.{
  EntityManager, contains, insert, create_entity, destroy_entity, destroy_entities, create_loop,
  create_entities, fresh_manager,
}
use ecs_asio_server.Ecs.Entities.Accounts.{
  Ok, create_entity-Ok, destroy_entity-Ok, destroy_entities-Ok, create_entities-Ok,
}

-- The calls that change the manager.
pub data Call : Type 0 where
  create : Call
  create_many : ℕ → Call
  destroy : ℕ → Call
  destroy_many : List ℕ → Call

abbrev pub run : List Call → EntityManager → EntityManager
run [] m = m
run (create ∷ cs) m = run cs (create_entity m).0
run (create_many n ∷ cs) m = run cs (create_entities n m).0
run (destroy e ∷ cs) m = run cs (destroy_entity e m)
run (destroy_many es ∷ cs) m = run cs (destroy_entities es m)

-- How many identifiers the calls issue.
abbrev pub issues : List Call → ℕ
issues [] = 0
issues (create ∷ cs) = 1 + issues cs
issues (create_many n ∷ cs) = n + issues cs
issues (destroy e ∷ cs) = issues cs
issues (destroy_many es ∷ cs) = issues cs

pub fresh_manager-Ok : Ok fresh_manager
fresh_manager-Ok = record {
  unique = tt;
  issued = tt;
  counted = refl;
  room = omega arith;
  small = omega arith;
}

pub next_create :
    (m : EntityManager)
    → m.next_entity_id + 1 < 2 ^ 32
    → (create_entity m).0.next_entity_id ≡ m.next_entity_id + 1
unfolding create_entity
next_create m h = omega (arith, h)

pub next_destroy :
    (e : ℕ) (m : EntityManager) → (destroy_entity e m).next_entity_id ≡ m.next_entity_id
unfolding destroy_entity
next_destroy e m =
    if_cases (λ (d : EntityManager). d.next_entity_id ≡ m.next_entity_id)
      (contains e m.active_entities) (λ _. refl) (λ _. refl)

next_destroy_many :
    (es : List ℕ) (m : EntityManager) → (destroy_entities es m).next_entity_id ≡ m.next_entity_id
unfolding destroy_entities
next_destroy_many [] m = refl
next_destroy_many (e ∷ es) m = next_destroy_many es (destroy_entity e m) ∙ next_destroy e m

next_create_loop :
    (n : ℕ) (m : EntityManager)
    → m.next_entity_id + n < 2 ^ 32
    → (create_loop n m).0.next_entity_id ≡ m.next_entity_id + n
unfolding create_loop
next_create_loop zero m h = omega arith
next_create_loop (suc n) m h = omega (
  arith,
  h,
  next_create_loop n
      (record m {
        active_entities = insert m.next_entity_id m.active_entities;
        next_entity_id = (m.next_entity_id + 1) % 2 ^ 32;
      })
      (omega (arith, h)),
)

next_create_many :
    (n : ℕ) (m : EntityManager)
    → m.next_entity_id + n < 2 ^ 32
    → (create_entities n m).0.next_entity_id ≡ m.next_entity_id + n
unfolding create_entities
next_create_many n m h = next_create_loop n m h

-- As long as the identifiers stay below 2 ^ 32, whatever is created and destroyed from a sound manager
-- on, one by one or in bulk: no identifier is active twice, every active one is below next_entity_id,
-- and entity_count is the number of the active ones.
pub run-Ok :
    (cs : List Call) (m : EntityManager)
    → Ok m
    → m.next_entity_id + issues cs < 2 ^ 32
    → Ok (run cs m)
run-Ok [] m v h = v
run-Ok (create ∷ cs) m v h =
    run-Ok cs (create_entity m).0 (create_entity-Ok m v (omega (arith, h)))
      (omega (arith, h, next_create m (omega (arith, h))))
run-Ok (create_many n ∷ cs) m v h =
    run-Ok cs (create_entities n m).0 (create_entities-Ok n m v (omega (arith, h)))
      (omega (arith, h, next_create_many n m (omega (arith, h))))
run-Ok (destroy e ∷ cs) m v h =
    run-Ok cs (destroy_entity e m) (destroy_entity-Ok e m v) (omega (arith, h, next_destroy e m))
run-Ok (destroy_many es ∷ cs) m v h =
    run-Ok cs (destroy_entities es m) (destroy_entities-Ok es m v)
      (omega (arith, h, next_destroy_many es m))
