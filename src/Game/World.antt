-- ===== src/Game/World.antt =====
-- The state of game_server (server/game/game_server.hpp) and of the GameService behind it, as it is built
-- without a database and without Redis.
use ecs_asio_server.Common.{ℕ, List, [], ◌∷◌, Bool, Option, none, some, if◌then◌else◌}
use ecs_asio_server.Channel.{Channel}
use ecs_asio_server.Ecs.Store.{add}
use ecs_asio_server.Ecs.Entities.{EntityManager, create_entity, destroy_entity, fresh_manager}
use ecs_asio_server.Ecs.Health.{Health, new_health}
use ecs_asio_server.Ecs.Objects.{Player, Monster, new_monster}
use ecs_asio_server.Game.Threads.Manager.{MapThreadManager, create_map_thread}
use ecs_asio_server.Game.Threads.Main.{MainThreadManager, new_main, start_main}
use ecs_asio_server.Game.Guilds.{Guilds, no_guilds}

-- server/game/components/transform.hpp; a float is the bit pattern that is copied.
pub record Position : Type 0 where
  pub x : ℕ
  pub y : ℕ
  pub z : ℕ

-- The entity manager of GameService and the stores of the components that the handlers use.
pub record Service : Type 0 where
  pub entities : EntityManager
  pub positions : List (ℕ × Position)
  pub velocities : List (ℕ × Position)
  pub players : List (ℕ × Player)
  pub healths : List (ℕ × Health)
  pub monsters : List (ℕ × Monster)

abbrev pub new_service : Service
new_service = record {
  entities = fresh_manager;
  positions = [];
  velocities = [];
  players = [];
  healths = [];
  monsters = [];
}

-- remove_all_components goes through the stores and takes nothing out of them.
unfoldable pub remove_all_components : ℕ → Service → Service
remove_all_components entity s = s

unfoldable pub service_destroy : ℕ → Service → Service
service_destroy entity s =
    let t = remove_all_components entity s in
    record t { entities = destroy_entity entity t.entities }

-- A turn of the loop of spawn_monsters, in the thread of a map: `x` and `z` are the random floats. The
-- GameObject that it adds too is not among the stores.
unfoldable pub spawn_monster : ℕ → ℕ → Service → Service × ℕ
spawn_monster x z s =
    let (entities, entity) = create_entity s.entities in
    let place : Position = record { x = x; y = 0; z = z } in
    let still : Position = record { x = 0; y = 0; z = 0 } in
    (
      record s {
        entities = entities;
        positions = add entity place s.positions;
        velocities = add entity still s.velocities;
        healths = add entity (new_health 100 0) s.healths;
        monsters = add entity (new_monster 1 1) s.monsters;
      },
      entity,
    )

pub record World : Type 0 where
  pub use_ecs : Bool
  -- `config_.maps`: the identifiers and names.
  pub maps : List (ℕ × List ℕ)
  -- The channels by the address that the table holds: here the channel itself.
  pub channels : List (ℕ × Channel)
  pub channel_to_entity : List (ℕ × ℕ)
  pub player_map_mapping : List (ℕ × ℕ)
  pub next_channel_id : ℕ
  pub service : Service
  pub guilds : Guilds
  pub main_thread_manager : Option MainThreadManager

-- The loop of initialize_threading_system.
unfoldable pub create_maps :
    List (ℕ × List ℕ) → MapThreadManager → EntityManager → MapThreadManager × EntityManager
create_maps [] m entities = (m, entities)
create_maps ((id, name) ∷ maps) m entities =
    let (m', entities') = create_map_thread id name m entities in create_maps maps m' entities'

unfoldable pub initialize_threading_system : World → World
initialize_threading_system w =
    let started = start_main new_main in
    let (m, entities) = create_maps w.maps started.map_thread_manager w.service.entities in
    record w {
      main_thread_manager = some (record started { map_thread_manager = m });
      service = record w.service { entities = entities };
    }

unfoldable pub shutdown_threading_system : World → World
shutdown_threading_system w = record w { main_thread_manager = none }

abbrev pub new_world : Bool → List (ℕ × List ℕ) → World
new_world use_ecs maps = record {
  use_ecs = use_ecs;
  maps = maps;
  channels = [];
  channel_to_entity = [];
  player_map_mapping = [];
  next_channel_id = 1;
  service = new_service;
  guilds = no_guilds;
  main_thread_manager = none;
}

-- The state after init.
unfoldable pub init_world : Bool → List (ℕ × List ℕ) → World
init_world use_ecs maps =
    if use_ecs then initialize_threading_system (new_world use_ecs maps) else new_world use_ecs maps
