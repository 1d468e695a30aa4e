-- ===== src/Game/Maps.antt =====
-- server/game/systems/map_system.cpp and the components of server/game/components/map.hpp. A float is its
-- bit pattern; `flt` and `fle` are the comparisons < and <= of floats, and `near` is the test of
-- get_objects_in_range, the distance that std::sqrt and std::pow compute against the range.
pub mod Bounds
use ecs_asio_server.Common.{
  ℕ, ◌+◌, ◌%◌, ◌^◌, List, [], ◌∷◌, ◌++◌, Bool, true, false, ◌&&◌, ◌||◌, Option, none, some, map,
  length, if◌then◌else◌,
}
use ecs_asio_server.Common.Tables.{assign}
use ecs_asio_server.Ecs.Entities.{EntityManager, create_entity, destroy_entity, insert, erase}
use ecs_asio_server.Ecs.Store.{get, has, add}
use ecs_asio_server.Game.World.{Position}

pub record MapComponent : Type 0 where
  pub map_id : ℕ
  pub map_name : List ℕ
  pub width : ℕ
  pub height : ℕ
  pub max_players : ℕ

pub record MapObjects : Type 0 where
  pub players : List ℕ
  pub monsters : List ℕ
  pub npcs : List ℕ
  pub items : List ℕ

abbrev pub no_objects : MapObjects
no_objects = record { players = []; monsters = []; npcs = []; items = [] }

pub record MapBounds : Type 0 where
  pub min_x : ℕ
  pub min_y : ℕ
  pub min_z : ℕ
  pub max_x : ℕ
  pub max_y : ℕ
  pub max_z : ℕ

-- The entities, the stores that the system reads and writes, and its cache. Of the components that
-- tell the kind of an object only the keys are kept.
pub record Maps : Type 0 where
  pub entities : EntityManager
  pub maps : List (ℕ × MapComponent)
  pub objects : List (ℕ × MapObjects)
  pub bounds : List (ℕ × MapBounds)
  pub positions : List (ℕ × Position)
  pub players : List (ℕ × Unit {0})
  pub monsters : List (ℕ × Unit {0})
  pub npcs : List (ℕ × Unit {0})
  pub items : List (ℕ × Unit {0})
  pub map_object_cache : List (ℕ × List ℕ)
  pub cache_dirty : Bool

-- `1000.0f`
abbrev pub thousand : ℕ
thousand = 1148846080

unfoldable pub create_map : ℕ → List ℕ → ℕ → ℕ → ℕ → Maps → Maps × ℕ
create_map map_id map_name width height max_players s =
    let (entities, map_entity) = create_entity s.entities in
    let info : MapComponent = record {
      map_id = map_id;
      map_name = map_name;
      width = width;
      height = height;
      max_players = max_players;
    } in
    let box : MapBounds = record {
      min_x = 0;
      min_y = 0;
      min_z = 0;
      max_x = width;
      max_y = height;
      max_z = thousand;
    } in
    (
      record s {
        entities = entities;
        maps = add map_entity info s.maps;
        objects = add map_entity no_objects s.objects;
        bounds = add map_entity box s.bounds;
      },
      map_entity,
    )

-- remove_all_components takes nothing out of the stores.
unfoldable pub destroy_each : List ℕ → EntityManager → EntityManager
destroy_each [] m = m
destroy_each (e ∷ es) m = destroy_each es (destroy_entity e m)

abbrev pub destroy_objects : Option MapObjects → EntityManager → EntityManager
destroy_objects none m = m
destroy_objects (some o) m =
    destroy_each o.items (destroy_each o.npcs (destroy_each o.monsters (destroy_each o.players m)))

unfoldable pub destroy_map : ℕ → Maps → Maps
destroy_map map_entity s = record s {
  entities = destroy_entity map_entity (destroy_objects (get map_entity s.objects) s.entities);
}

-- What becomes of the sets where an object of some kind comes or goes: the first component that it has
-- tells its kind.
unfoldable pub sorted : (ℕ → List ℕ → List ℕ) → ℕ → Maps → MapObjects → MapObjects
sorted f object s o =
    if has object s.players
    then record o { players = f object o.players }
    else if has object s.monsters
    then record o { monsters = f object o.monsters }
    else if has object s.npcs
    then record o { npcs = f object o.npcs }
    else if has object s.items
    then record o { items = f object o.items }
    else o

abbrev pub changed : (ℕ → List ℕ → List ℕ) → ℕ → ℕ → Maps → Option MapObjects → Maps
changed f map_entity object s none = s
changed f map_entity object s (some o) = record s {
  objects = add map_entity (sorted f object s o) s.objects;
  cache_dirty = true;
}

unfoldable pub add_object_to_map : ℕ → ℕ → Maps → Maps
add_object_to_map map_entity object s =
    changed insert map_entity object s (get map_entity s.objects)

unfoldable pub remove_object_from_map : ℕ → ℕ → Maps → Maps
remove_object_from_map map_entity object s =
    changed erase map_entity object s (get map_entity s.objects)

abbrev pub objects_of : Option MapObjects → List ℕ
objects_of none = []
objects_of (some o) = o.players ++ (o.monsters ++ (o.npcs ++ o.items))

unfoldable pub get_objects_in_map : ℕ → Maps → List ℕ
get_objects_in_map map_entity s = objects_of (get map_entity s.objects)

abbrev pub players_of : Option MapObjects → ℕ
players_of none = 0
players_of (some o) = length o.players

unfoldable pub get_player_count : ℕ → Maps → ℕ
get_player_count map_entity s = players_of (get map_entity s.objects)

abbrev pub monsters_of : Option MapObjects → ℕ
monsters_of none = 0
monsters_of (some o) = length o.monsters

unfoldable pub get_monster_count : ℕ → Maps → ℕ
get_monster_count map_entity s = monsters_of (get map_entity s.objects)

-- The sum of the sizes, as an int.
abbrev pub all_of : Option MapObjects → ℕ
all_of none = 0
all_of (some o) = (length o.players + length o.monsters + length o.npcs + length o.items) % 2 ^ 32

unfoldable pub get_total_object_count : ℕ → Maps → ℕ
get_total_object_count map_entity s = all_of (get map_entity s.objects)

unfoldable pub update_object_cache : List (ℕ × MapComponent) → Maps → Maps
update_object_cache [] s = s
update_object_cache ((map_entity, info) ∷ maps) s = update_object_cache maps (record s {
  map_object_cache = assign map_entity (get_objects_in_map map_entity s) s.map_object_cache;
})

abbrev pub within_range : (Position → Bool) → ℕ → Option Position → List ℕ → List ℕ
within_range near object none rest = rest
within_range near object (some p) rest = if near p then object ∷ rest else rest

unfoldable pub in_range_loop : (Position → Bool) → List (ℕ × Position) → List ℕ → List ℕ
in_range_loop near positions [] = []
in_range_loop near positions (object ∷ objects) =
    within_range near object (get object positions) (in_range_loop near positions objects)

unfoldable pub get_objects_in_range : (Position → Bool) → ℕ → Maps → List ℕ
get_objects_in_range near map_entity s =
    in_range_loop near s.positions (get_objects_in_map map_entity s)

module _ (flt fle : ℕ → ℕ → Bool) where
  unfoldable pub is_inside : MapBounds → Position → Bool
  is_inside b p =
      fle b.min_x p.x
      && (fle p.x b.max_x
          && (fle b.min_y p.y && (fle p.y b.max_y && (fle b.min_z p.z && fle p.z b.max_z))))

  -- `std::clamp`
  unfoldable pub clamp : ℕ → ℕ → ℕ → ℕ
  clamp v lo hi = if flt v lo then lo else if flt hi v then hi else v

  unfoldable pub clamped : MapBounds → Position → Position
  clamped b p = record {
    x = clamp p.x b.min_x b.max_x;
    y = clamp p.y b.min_y b.max_y;
    z = clamp p.z b.min_z b.max_z;
  }

  abbrev pub inside_of : Option MapBounds → Option Position → Bool
  inside_of none p = false
  inside_of (some b) none = false
  inside_of (some b) (some p) = is_inside b p

  unfoldable pub is_object_in_bounds : ℕ → ℕ → Maps → Bool
  is_object_in_bounds map_entity object s =
      inside_of (get map_entity s.bounds) (get object s.positions)

  abbrev pub put_back : ℕ → Option MapBounds → Option Position → Maps → Maps
  put_back object none p s = s
  put_back object (some b) none s = s
  put_back object (some b) (some p) s = record s {
    positions = add object (clamped b p) s.positions;
  }

  unfoldable pub clamp_object_to_bounds : ℕ → ℕ → Maps → Maps
  clamp_object_to_bounds map_entity object s =
      put_back object (get map_entity s.bounds) (get object s.positions) s

  unfoldable pub collision_loop : ℕ → List ℕ → Maps → Maps
  collision_loop map_entity [] s = s
  collision_loop map_entity (object ∷ objects) s = collision_loop map_entity objects (
      if is_object_in_bounds map_entity object s
      then s
      else clamp_object_to_bounds map_entity object s)

  unfoldable pub check_map_collisions : ℕ → Maps → Maps
  check_map_collisions map_entity s = collision_loop map_entity (get_objects_in_map map_entity s) s

  -- update_map_objects and process_map_events do nothing.
  unfoldable pub update_maps : List (ℕ × MapComponent) → Maps → Maps
  update_maps [] s = s
  update_maps ((map_entity, info) ∷ maps) s = update_maps maps (check_map_collisions map_entity s)

  unfoldable pub update : Maps → Maps
  update s =
      let s₁ = update_maps s.maps s in
      let s₂ = update_object_cache s₁.maps (record s₁ { map_object_cache = [] }) in
      if s₁.cache_dirty then record s₂ { cache_dirty = false } else s₁
