-- ===== src/Game/Persistence.antt =====
-- server/game/game_server.cpp and handlers/player_handlers.cpp as they are built with MySQL and without
-- Redis: the jobs that the server posts to the threads of the database, and what these do.
pub mod Jobs
pub mod Logins
pub mod Sessions
pub mod Saves
use ecs_asio_server.Common.{
  ℕ, ◌+◌, ◌%◌, ◌^◌, ◌-◌, List, [], ◌∷◌, ◌++◌, Bool, true, false, not, ◌&&◌, Option, none, some, ltb,
  ◌==◌, length, if◌then◌else◌,
}
use ecs_asio_server.Common.Tables.{find, has_key, erase_key, assign, is_some_of}
use ecs_asio_server.Wire.{Parsed, ok, reject, fault}
use ecs_asio_server.Protocol.Base.Defs.{LoginReq, parse_login_req, serialize_login_res}
use ecs_asio_server.Channel.{Channel}
use ecs_asio_server.Channel.Send.{send}
use ecs_asio_server.Ecs.Entities.{create_entity, insert, erase, contains}
use ecs_asio_server.Ecs.Store.{get, add}
use ecs_asio_server.Ecs.Health.{Health, new_health}
use ecs_asio_server.Ecs.Objects.{Player, new_player}
use ecs_asio_server.Database.PlayerDao.{Reply, Attempt, find_or_create}
use ecs_asio_server.Database.PlayerDao as Dao
use ecs_asio_server.Database.FailureSink.{FailureSink}
use ecs_asio_server.Game.World.{World, Service, Position}
use ecs_asio_server.Game.Net.{accept, on_close, frame_for, entity_or_zero}
use ecs_asio_server.Game.Guilds.{text_ok}
use ecs_asio_server.Game.Players.{login_entity}

-- dao/player_dao.hpp. The numbers are the bit patterns of their types.
pub record PlayerRecord : Type 0 where
  pub id : ℕ
  pub level : ℕ
  pub exp : ℕ
  pub hp : ℕ
  pub max_hp : ℕ
  pub pos : Position
  pub map_id : ℕ

-- What the closure of on_close captures.
pub record Saved : Type 0 where
  pub db_id : ℕ
  pub pos : Position
  pub map_id : ℕ
  pub level : ℕ
  pub exp : ℕ
  pub hp : ℕ
  pub player_name : List ℕ

pub data Job : Type 0 where
  save : Saved → Job
  flush : ℕ → Position → ℕ → Job
  look_up : List ℕ → Job

-- What a thread of the database posts to the io_context after a look_up.
pub record Found : Type 0 where
  pub channel_id : ℕ
  pub player_name : List ℕ
  pub rec : Option PlayerRecord

-- game_server with its members for the database: has_dao is player_dao_, db_strands the channels that
-- have a strand, jobs what is posted to the strand of each channel, the oldest first.
pub record DbServer : Type 0 where
  pub world : World
  pub has_dao : Bool
  pub channel_to_db_id : List (ℕ × ℕ)
  pub db_strands : List ℕ
  pub jobs : List (ℕ × Job)
  pub callbacks : List Found
  pub sink : FailureSink

-- `db_id > 0` in std::int64_t.
abbrev pub positive : ℕ → Bool
positive db_id = ltb 0 db_id && ltb db_id (2 ^ 63)

abbrev pub origin : Position
origin = record { x = 0; y = 0; z = 0 }

abbrev pub pos_of : Option Position → Position
pos_of none = origin
pos_of (some p) = p

abbrev pub map_of : Option Player → ℕ
map_of none = 1
map_of (some p) = p.map_id

abbrev pub name_of : Option Player → List ℕ
name_of none = []
name_of (some p) = p.player_name

abbrev pub health_of : Option Health → ℕ
health_of none = 100
health_of (some h) = h.hp

-- The variables that on_close fills: level and exp keep their first values.
unfoldable pub to_save : ℕ → ℕ → Service → Saved
to_save db_id entity s = record {
  db_id = db_id;
  pos = pos_of (get entity s.positions);
  map_id = map_of (get entity s.players);
  level = 1;
  exp = 0;
  hp = health_of (get entity s.healths);
  player_name = name_of (get entity s.players);
}

-- `asio::post` to the strand of a channel.
abbrev pub post : ℕ → Job → DbServer → DbServer
post channel_id job d = record d { jobs = d.jobs ++ ((channel_id, job) ∷ []) }

unfoldable pub on_accept_db : ℕ → DbServer → DbServer
on_accept_db now d = record d {
  world = accept now d.world;
  db_strands = insert d.world.next_channel_id d.db_strands;
}

-- The guard of the save in on_close.
abbrev pub must_save : ℕ → DbServer → Bool
must_save channel_id d =
    contains channel_id d.db_strands
    && (d.has_dao
        && (positive (entity_or_zero (find channel_id d.channel_to_db_id))
            && not (entity_or_zero (find channel_id d.world.channel_to_entity) == 0)))

unfoldable pub on_close_db : ℕ → DbServer → DbServer
on_close_db channel_id d =
    let entity = entity_or_zero (find channel_id d.world.channel_to_entity) in
    let db_id = entity_or_zero (find channel_id d.channel_to_db_id) in
    let rest : DbServer = record d {
      world = on_close channel_id d.world;
      channel_to_db_id = erase_key channel_id d.channel_to_db_id;
      db_strands = erase channel_id d.db_strands;
    } in
    if must_save channel_id d
    then post channel_id (save (to_save db_id entity d.world.service)) rest
    else rest

-- send_frame, with the on_close that it may cause.
unfoldable pub send_found_db : ℕ → ℕ → List ℕ → DbServer → Option Channel → DbServer
send_found_db channel_id cmd bytes d none = d
send_found_db channel_id cmd bytes d (some c) =
    let sent = send (frame_for cmd bytes) c in
    let u : DbServer = record d {
      world = record d.world { channels = assign channel_id sent d.world.channels };
    } in
    if length c.close_calls == length sent.close_calls then u else on_close_db channel_id u

unfoldable pub send_db : ℕ → ℕ → List ℕ → DbServer → DbServer
send_db channel_id cmd bytes d =
    send_found_db channel_id cmd bytes d (find channel_id d.world.channels)

abbrev pub db_error : List ℕ
db_error = b'd' ∷ b'b' ∷ b'_' ∷ b'e' ∷ b'r' ∷ b'r' ∷ b'o' ∷ b'r' ∷ []

unfoldable pub login_answer : Bool → List ℕ → ℕ → ℕ → List ℕ
login_answer success message player_id map_id =
    serialize_login_res
      (record { success = success; message = message; player_id = player_id; map_id = map_id })

-- Without a DAO the login is that of a server without a database.
unfoldable pub login_default : ℕ → LoginReq → DbServer → DbServer
login_default channel_id req d =
    let (w, player) = login_entity channel_id req d.world in
    send_db channel_id 1001 (login_answer true text_ok player 1) (record d { world = w })

unfoldable pub login_db : ℕ → LoginReq → DbServer → DbServer
login_db channel_id req d =
    if d.has_dao
    then if contains channel_id d.db_strands then post channel_id (look_up req.player_name) d else d
    else login_default channel_id req d

-- The entity of a record of the database.
unfoldable pub spawn_record : ℕ → List ℕ → PlayerRecord → Service → Service × ℕ
spawn_record channel_id player_name rec s =
    let (entities, player) = create_entity s.entities in
    let player_id = (if positive rec.id then rec.id else player) % 2 ^ 32 in
    (
      record s {
        entities = entities;
        positions = add player rec.pos s.positions;
        velocities = add player origin s.velocities;
        players = add player (new_player player_name player_id channel_id rec.map_id) s.players;
        healths = add player (record (new_health rec.max_hp 50) { hp = rec.hp }) s.healths;
      },
      player,
    )

unfoldable pub enter_record : ℕ → List ℕ → PlayerRecord → DbServer → DbServer × ℕ
enter_record channel_id player_name rec d =
    let (service, player) = spawn_record channel_id player_name rec d.world.service in
    if d.world.use_ecs
    then (
      record d {
        world = record d.world {
          service = service;
          channel_to_entity = assign channel_id player d.world.channel_to_entity;
        };
        channel_to_db_id =
            if positive rec.id
            then assign channel_id rec.id d.channel_to_db_id
            else d.channel_to_db_id;
      },
      player,
    )
    else (d, 0)

unfoldable pub welcome : ℕ → List ℕ → PlayerRecord → DbServer → DbServer
welcome channel_id player_name rec d =
    let (e, player) = enter_record channel_id player_name rec d in
    let resp_id = (if positive rec.id then rec.id else player) % 2 ^ 32 in
    send_db channel_id 1001 (login_answer true text_ok resp_id rec.map_id) e

abbrev pub answer_login : ℕ → List ℕ → Option PlayerRecord → DbServer → DbServer
answer_login channel_id player_name none d =
    send_db channel_id 1001 (login_answer false db_error 0 0) d
answer_login channel_id player_name (some rec) d = welcome channel_id player_name rec d

-- The callback on the io_context: nothing for a channel that is gone.
unfoldable pub on_found : Found → DbServer → DbServer
on_found f d =
    if has_key f.channel_id d.world.channels
    then answer_login f.channel_id f.player_name f.rec d
    else d
