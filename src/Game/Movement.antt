-- ===== src/Game/Movement.antt =====
-- server/game/systems/movement_system.cpp: positions that move with their velocities, the limits of the
-- world and the collisions.
pub mod Collisions
use ecs_asio_server.Common.{ℕ, List, [], ◌∷◌, map, Option, none, some, if◌then◌else◌}
use ecs_asio_server.Ecs.Store.{get, add, snapshot_entities}
use ecs_asio_server.Game.World.{Position, Service}
use ecs_asio_server.Game.Floats.{Floats, norm, apart, advance}
use ecs_asio_server.Game.Maps.{thousand}

-- `-1000.0f` and `COLLISION_RADIUS * 2`.
abbrev pub min_bound : ℕ
min_bound = 3296329728

abbrev pub two_radii : ℕ
two_radii = 1073741824

unfoldable pub get_position : ℕ → Service → Option Position
get_position entity s = get entity s.positions

unfoldable pub get_velocity : ℕ → Service → Option Position
get_velocity entity s = get entity s.velocities

abbrev pub sped : ℕ → Position → Option Position → Service → Service
sped entity v none s = s
sped entity v (some old) s = record s { velocities = add entity v s.velocities }

unfoldable pub set_velocity : ℕ → Position → Service → Service
set_velocity entity v s = sped entity v (get_velocity entity s) s

unfoldable pub stop_entity : ℕ → Service → Service
stop_entity entity = set_velocity entity (record { x = 0; y = 0; z = 0 })

-- A loop over the positions, each of which is changed in its place.
unfoldable pub each : (ℕ → Position → Position) → List (ℕ × Position) → List (ℕ × Position)
each f [] = []
each f ((entity, p) ∷ positions) = (entity, f entity p) ∷ each f positions

module _ (fl : Floats) where
  -- The sums and differences of coordinates.
  abbrev pub shifted : Position → Position → Position
  shifted p d = record { x = fl.plus p.x d.x; y = fl.plus p.y d.y; z = fl.plus p.z d.z }

  abbrev pub moved_by : ℕ → Position → Option Position → Service → Service
  moved_by entity d none s = s
  moved_by entity d (some p) s = record s { positions = add entity (shifted p d) s.positions }

  unfoldable pub move_entity : ℕ → Position → Service → Service
  move_entity entity d s = moved_by entity d (get entity s.positions) s

  unfoldable pub in_range : Position → ℕ → List (ℕ × Position) → List ℕ
  in_range centre range [] = []
  in_range centre range ((entity, p) ∷ positions) =
      let rest = in_range centre range positions in
      if fl.le (norm fl (apart fl p centre)) range then entity ∷ rest else rest

  unfoldable pub get_entities_in_range : Position → ℕ → Service → List ℕ
  get_entities_in_range centre range s = in_range centre range s.positions

  abbrev pub carried : ℕ → Option Position → Position → Position
  carried delta_time none p = p
  carried delta_time (some velocity) p = advance fl delta_time velocity p

  unfoldable pub update_positions : ℕ → Service → Service
  update_positions delta_time s = record s {
    positions = each (λ entity p. carried delta_time (get entity s.velocities) p) s.positions;
  }

  abbrev pub kept_within : ℕ → ℕ
  kept_within v =
      let u = if fl.lt v min_bound then min_bound else v in if fl.lt thousand u then thousand else u

  abbrev pub confined : Position → Position
  confined p = record { x = kept_within p.x; y = kept_within p.y; z = kept_within p.z }

  unfoldable pub check_boundaries : Service → Service
  check_boundaries s = record s { positions = each (λ entity p. confined p) s.positions }

  -- How far the two are moved: `dx / distance * separation`, and so for y and z.
  abbrev pub push : ℕ → Position → Position
  push distance d =
      let separation = fl.over (fl.minus two_radii distance) two_radii in
      record {
        x = fl.times (fl.over d.x distance) separation;
        y = fl.times (fl.over d.y distance) separation;
        z = fl.times (fl.over d.z distance) separation;
      }

  unfoldable pub separate :
      ℕ → ℕ → Option Position → Option Position → List (ℕ × Position) → List (ℕ × Position)
  separate entity1 entity2 none q positions = positions
  separate entity1 entity2 (some p) none positions = positions
  separate entity1 entity2 (some p) (some q) positions =
      let d = apart fl p q in
      let distance = norm fl d in
      if fl.lt distance two_radii
      then add entity2 (apart fl q (push distance d))
          (add entity1 (shifted p (push distance d)) positions)
      else positions

  -- A pair (i, j), the pairs with one i, and all pairs with i < j.
  unfoldable pub collide : ℕ → ℕ → List (ℕ × Position) → List (ℕ × Position)
  collide entity1 entity2 positions =
      separate entity1 entity2 (get entity1 positions) (get entity2 positions) positions

  unfoldable pub collide_with : ℕ → List ℕ → List (ℕ × Position) → List (ℕ × Position)
  collide_with entity1 [] positions = positions
  collide_with entity1 (entity2 ∷ entities) positions =
      collide_with entity1 entities (collide entity1 entity2 positions)

  unfoldable pub collide_all : List ℕ → List (ℕ × Position) → List (ℕ × Position)
  collide_all [] positions = positions
  collide_all (entity ∷ entities) positions =
      collide_all entities (collide_with entity entities positions)

  unfoldable pub handle_collisions : Service → Service
  handle_collisions s = record s {
    positions = collide_all (snapshot_entities s.positions) s.positions;
  }

  unfoldable pub update : ℕ → Service → Service
  update delta_time s = handle_collisions (check_boundaries (update_positions delta_time s))
