-- ===== src/Game/Threads/Monsters.antt =====
-- server/game/threading/map_thread.cpp: the monsters of a map, which update_map spawns and moves. Each of
-- its steps holds objects_mutex_. What the source leaves empty (the updates of players and items, the AI
-- and the collisions of an object) does nothing here.
pub mod Spawning
use Prim.Native.Nat.{min}
use ecs_asio_server.Common.{
  ℕ, zero, suc, ◌+◌, ◌-◌, ◌*◌, ◌%◌, ◌^◌, List, [], ◌∷◌, Bool, true, Option, none, some, length, leb,
  if◌then◌else◌,
}
use ecs_asio_server.Ecs.Entities.{insert}
use ecs_asio_server.Ecs.Store.{get, add}
use ecs_asio_server.Game.World.{Position, Service, spawn_monster}
use ecs_asio_server.Game.Floats.{Floats, advance}
use ecs_asio_server.Game.Maps.{MapBounds, is_inside, clamped, inside_of}

-- The fields of a MapThread for its objects; object_monsters are those of map_objects_component_.
pub record MapObjectsState : Type 0 where
  pub width : ℕ
  pub height : ℕ
  pub bounds : MapBounds
  pub spawn_timer : ℕ
  pub local_monsters : List ℕ
  pub local_npcs : List ℕ
  pub monster_count : ℕ
  pub object_monsters : List ℕ

-- One map, the static `seed` of spawn_monsters and the service.
pub record Area : Type 0 where
  pub map : MapObjectsState
  pub seed : ℕ
  pub service : Service

-- 30.0f and 10000.0f
abbrev pub spawn_interval : ℕ
spawn_interval = 1106247680

abbrev pub ten_thousand : ℕ
ten_thousand = 1176256512

abbrev pub max_monsters : ℕ
max_monsters = 10

-- The next state of the linear congruence, in std::uint32_t.
unfoldable pub next_seed : ℕ → ℕ
next_seed seed = (seed * 1664525 + 1013904223) % 2 ^ 32

abbrev pub with_timer : ℕ → Area → Area
with_timer t a = record a { map = record a.map { spawn_timer = t } }

abbrev pub spawn_count : Area → ℕ
spawn_count a = min 3 (max_monsters - length a.map.local_monsters)

module _ (fl : Floats) where
  -- `(seed % 10000) / 10000.0f * max`
  abbrev pub rand_below : ℕ → ℕ → ℕ
  rand_below seed max = fl.times (fl.over (fl.of_int (seed % 10000)) ten_thousand) max

  -- A turn of the loop: x is drawn first, then z.
  unfoldable pub spawn_one : Area → Area
  spawn_one a =
      let seed1 = next_seed a.seed in
      let seed2 = next_seed seed1 in
      let (service, entity) =
        spawn_monster (rand_below seed1 a.map.width) (rand_below seed2 a.map.height) a.service in
      let monsters = insert entity a.map.local_monsters in
      record {
        map = record a.map {
          local_monsters = monsters;
          monster_count = length monsters;
          object_monsters = insert entity a.map.object_monsters;
        };
        seed = seed2;
        service = service;
      }

  unfoldable pub spawn_loop : ℕ → Area → Area
  spawn_loop zero a = a
  spawn_loop (suc n) a = spawn_loop n (spawn_one a)

  unfoldable pub spawn_monsters : ℕ → Area → Area
  spawn_monsters delta_time a =
      let timer = fl.plus a.map.spawn_timer delta_time in
      if fl.lt timer spawn_interval
      then with_timer timer a
      else if leb max_monsters (length a.map.local_monsters)
      then with_timer 0 a
      else spawn_loop (spawn_count a) (with_timer 0 a)

  -- A position and a velocity, where there are both; then the bounds of the map.
  abbrev pub place_in : MapBounds → Position → Position
  place_in b p = if is_inside fl.lt fl.le b p then p else clamped fl.lt fl.le b p

  unfoldable pub moved_object :
      MapBounds → ℕ → ℕ → Option Position → Option Position → Service → Service
  moved_object b delta_time entity none v s = s
  moved_object b delta_time entity (some p) none s = s
  moved_object b delta_time entity (some p) (some v) s = record s {
    positions = add entity (place_in b (advance fl delta_time v p)) s.positions;
  }

  unfoldable pub update_object_position : MapBounds → ℕ → ℕ → Service → Service
  update_object_position b delta_time entity s =
      moved_object b delta_time entity (get entity s.positions) (get entity s.velocities) s

  unfoldable pub update_objects : MapBounds → ℕ → List ℕ → Service → Service
  update_objects b delta_time [] s = s
  update_objects b delta_time (entity ∷ entities) s =
      update_objects b delta_time entities (update_object_position b delta_time entity s)

  unfoldable pub update_monsters : ℕ → Area → Area
  update_monsters delta_time a = record a {
    service = update_objects a.map.bounds delta_time a.map.local_monsters a.service;
  }

  unfoldable pub update_npcs : ℕ → Area → Area
  update_npcs delta_time a = record a {
    service = update_objects a.map.bounds delta_time a.map.local_npcs a.service;
  }

  unfoldable pub update_map : ℕ → Area → Area
  update_map delta_time a =
      spawn_monsters delta_time (update_npcs delta_time (update_monsters delta_time a))
