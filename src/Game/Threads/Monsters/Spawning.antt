-- ===== src/Game/Threads/Monsters/Spawning.antt =====
-- The number of the monsters of a map, and what each of them has.
use ecs_asio_server.Common.{
  ℕ, zero, suc, ◌+◌, ◌^◌, ◌≤◌, ◌<◌, ◌≡◌, refl, sym, ap, ◌∙◌, subst, List, [], ◌∷◌, true, Option,
  none, some, length, leb, leb→le, if◌then◌else◌, arith, All, if_cases, Bool-cases, inl, inr,
}
use Prim.Native.Nat.{min}
use ecs_asio_server.Ecs.Entities.{EntityManager, insert, contains, create_entity}
use ecs_asio_server.Ecs.Entities.Accounts.{Unique, contains-issued, issued_mono}
use ecs_asio_server.Ecs.Store.{get, has}
use ecs_asio_server.Ecs.Store.Laws.{has-add_still, has-add_same}
use ecs_asio_server.Game.World.{Position, Service, spawn_monster}
use ecs_asio_server.Game.Floats.{Floats}
use ecs_asio_server.Game.Maps.{MapBounds}
use ecs_asio_server.Game.Threads.Monsters.{
  Area, rand_below, next_seed, max_monsters, spawn_interval, spawn_one, spawn_loop, spawn_count,
  spawn_monsters, with_timer, moved_object, update_object_position, update_objects, update_monsters,
  update_npcs, update_map,
}

-- The components that a monster of a map has.
abbrev pub Equipped : Service → ℕ → Type 0
Equipped s e =
    (has e s.positions ≡ true)
    × (has e s.velocities ≡ true)
    × (has e s.healths ≡ true)
    × (has e s.monsters ≡ true)

-- The monsters of a map: ten at most, each once, counted, issued and with its components.
pub record Peopled (a : Area) : Type 0 where
  pub unique : Unique a.map.local_monsters
  pub few : length a.map.local_monsters ≤ max_monsters
  pub counted : a.map.monster_count ≡ length a.map.local_monsters
  pub issued : All (λ e. e < a.service.entities.next_entity_id) a.map.local_monsters
  pub equipped : All (Equipped a.service) a.map.local_monsters

spawn_monster-Equipped :
    (x z : ℕ) (s : Service) (es : List ℕ)
    → All (Equipped s) es
    → All (Equipped (spawn_monster x z s).0) es
unfolding spawn_monster
spawn_monster-Equipped x z s [] h = tt
spawn_monster-Equipped x z s (e ∷ es) h =
    let new = (create_entity s.entities).1 in
    (
      (
        has-add_still new e _ s.positions h.0.0,
        has-add_still new e _ s.velocities h.0.1,
        has-add_still new e _ s.healths h.0.2,
        has-add_still new e _ s.monsters h.0.3,
      ),
      spawn_monster-Equipped x z s es h.1,
    )

spawned-Equipped :
    (x z : ℕ) (s : Service) → Equipped (spawn_monster x z s).0 (spawn_monster x z s).1
unfolding spawn_monster
spawned-Equipped x z s =
    let new = (create_entity s.entities).1 in
    (
      has-add_same new _ s.positions,
      has-add_same new _ s.velocities,
      has-add_same new _ s.healths,
      has-add_same new _ s.monsters,
    )

spawned_next :
    (x z : ℕ) (s : Service)
    → s.entities.next_entity_id + 1 < 2 ^ 32
    → ((spawn_monster x z s).0.entities.next_entity_id ≡ s.entities.next_entity_id + 1)
      × ((spawn_monster x z s).1 ≡ s.entities.next_entity_id)
unfolding spawn_monster create_entity
spawned_next x z s h = (omega arith, refl)

module _ (fl : Floats) where
  -- A turn of the loop adds one monster.
  spawn_one-Peopled :
      (a : Area)
      → Peopled a
      → length a.map.local_monsters < max_monsters
      → a.service.entities.next_entity_id + 1 < 2 ^ 32
      → Peopled (spawn_one fl a)
        × (length (spawn_one fl a).map.local_monsters ≡ length a.map.local_monsters + 1)
        × ((spawn_one fl a).service.entities.next_entity_id ≡ a.service.entities.next_entity_id + 1)
  unfolding spawn_one insert
  spawn_one-Peopled a h less room =
      let x = rand_below fl (next_seed a.seed) a.map.width in
      let z = rand_below fl (next_seed (next_seed a.seed)) a.map.height in
      let (next, made) = spawned_next x z a.service room in
      let n = a.service.entities.next_entity_id in
      let monsters = a.map.local_monsters in
      let absent = ap (λ e. contains e monsters) made ∙ contains-issued n monsters h.issued in
      let entity = (spawn_monster x z a.service).1 in
      let list : insert entity monsters ≡ entity ∷ monsters = rw absent refl in
      (
        record {
          unique = subst Unique (sym list) (absent, h.unique);
          few = omega (arith, ap length list);
          counted = refl;
          issued =
              subst (All (λ e. e < (spawn_monster x z a.service).0.entities.next_entity_id))
                (sym list)
                (
                  omega (arith, next, made),
                  issued_mono n _ monsters (omega (arith, next)) h.issued,
                );
          equipped = subst (All (Equipped (spawn_monster x z a.service).0)) (sym list) (
            spawned-Equipped x z a.service,
            spawn_monster-Equipped x z a.service monsters h.equipped,
          );
        },
        omega (arith, ap length list),
        next,
      )

  spawn_loop-Peopled :
      (n : ℕ) (a : Area)
      → Peopled a
      → length a.map.local_monsters + n ≤ max_monsters
      → a.service.entities.next_entity_id + n < 2 ^ 32
      → Peopled (spawn_loop fl n a)
        × (length (spawn_loop fl n a).map.local_monsters ≡ length a.map.local_monsters + n)
        × ((spawn_loop fl n a).service.entities.next_entity_id
            ≡ a.service.entities.next_entity_id + n)
  unfolding spawn_loop
  spawn_loop-Peopled zero a h less room = (h, omega arith, omega arith)
  spawn_loop-Peopled (suc n) a h less room =
      let (one, more, next) = spawn_one-Peopled a h (omega arith) (omega arith) in
      let rest =
        spawn_loop-Peopled n (spawn_one fl a) one (omega (arith, more)) (omega (arith, next)) in
      (rest.0, omega (arith, rest.1, more), omega (arith, rest.2, next))

  with_timer-Peopled : (t : ℕ) (a : Area) → Peopled a → Peopled (with_timer t a)
  with_timer-Peopled t a h = record {
    unique = h.unique;
    few = h.few;
    counted = h.counted;
    issued = h.issued;
    equipped = h.equipped;
  }

  moved_object-kept :
      (b : MapBounds) (delta_time entity : ℕ) (p v : Option Position) (s : Service) (es : List ℕ)
      → All (Equipped s) es
      → All (Equipped (moved_object fl b delta_time entity p v s)) es
        × ((moved_object fl b delta_time entity p v s).entities ≡ s.entities)
  unfolding moved_object
  moved_object-kept b delta_time entity none v s es h = (h, refl)
  moved_object-kept b delta_time entity (some p) none s es h = (h, refl)
  moved_object-kept b delta_time entity (some p) (some v) s [] h = (tt, refl)
  moved_object-kept b delta_time entity (some p) (some v) s (e ∷ es) h = (
    (
      (has-add_still entity e _ s.positions h.0.0, h.0.1, h.0.2, h.0.3),
      (moved_object-kept b delta_time entity (some p) (some v) s es h.1).0,
    ),
    refl,
  )

  update_objects-kept :
      (b : MapBounds) (delta_time : ℕ) (moving : List ℕ) (s : Service) (es : List ℕ)
      → All (Equipped s) es
      → All (Equipped (update_objects fl b delta_time moving s)) es
        × ((update_objects fl b delta_time moving s).entities ≡ s.entities)
  unfolding update_objects update_object_position
  update_objects-kept b delta_time [] s es h = (h, refl)
  update_objects-kept b delta_time (e ∷ moving) s es h =
      let one = moved_object-kept b delta_time e (get e s.positions) (get e s.velocities) s es h in
      let rest = update_objects-kept b delta_time moving _ es one.0 in (rest.0, rest.1 ∙ one.1)

  moved-Peopled :
      (delta_time : ℕ) (a : Area)
      → Peopled a
      → Peopled (update_npcs fl delta_time (update_monsters fl delta_time a))
        × ((update_npcs fl delta_time (update_monsters fl delta_time a)).service.entities
            ≡ a.service.entities)
  unfolding update_npcs update_monsters
  moved-Peopled delta_time a h =
      let m = a.map in
      let one =
        update_objects-kept m.bounds delta_time m.local_monsters a.service m.local_monsters
          h.equipped in
      let two = update_objects-kept m.bounds delta_time m.local_npcs _ m.local_monsters one.0 in
      let same = two.1 ∙ one.1 in
      (
        record {
          unique = h.unique;
          few = h.few;
          counted = h.counted;
          issued =
              subst (λ (t : EntityManager). All (λ e. e < t.next_entity_id) m.local_monsters)
                (sym same) h.issued;
          equipped = two.0;
        },
        same,
      )

  -- Between the updates of a map it has ten monsters at most, each once, monster_count is their number,
  -- and each has a position, a velocity, a health and a monster component. An update keeps this, while
  -- the entities issued stay below 2 ^ 32. It spawns nothing while the timer is below the interval of
  -- thirty seconds; else it spawns three monsters, or as many as are missing to ten if these are fewer.
  pub update_map-Peopled :
      (delta_time : ℕ) (a : Area)
      → Peopled a
      → a.service.entities.next_entity_id + 3 < 2 ^ 32
      → Peopled (update_map fl delta_time a)
        × (length (update_map fl delta_time a).map.local_monsters ≡ (
            if fl.lt (fl.plus a.map.spawn_timer delta_time) spawn_interval
            then length a.map.local_monsters
            else min max_monsters (length a.map.local_monsters + 3)))
  unfolding update_map spawn_monsters update_npcs update_monsters
  update_map-Peopled delta_time a h room =
      let timer = fl.plus a.map.spawn_timer delta_time in
      let b = update_npcs fl delta_time (update_monsters fl delta_time a) in
      let (kept, same) = moved-Peopled delta_time a h in
      let n = length a.map.local_monsters in
      let rested = with_timer-Peopled 0 b kept in
      let P = λ (k : ℕ) (c : Area). Peopled c × (length c.map.local_monsters ≡ k) in
      elim (Bool-cases (fl.lt timer spawn_interval)) [
        | inl q ↦ rw q (with_timer-Peopled timer b kept, refl)
        | inr q ↦ rw q (
            if_cases (P (min max_monsters (n + 3))) (leb max_monsters n)
              (λ full. (rested, omega (arith, leb→le max_monsters n full, h.few)))
              (λ some_missing.
                let next = ap (λ (t : EntityManager). t.next_entity_id) same in
                let spawned =
                  spawn_loop-Peopled (spawn_count b) (with_timer 0 b) rested (omega (arith, h.few))
                    (omega (arith, next)) in
                (spawned.0, omega (arith, spawned.1, h.few))))
      ]
