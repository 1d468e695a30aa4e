-- ===== src/Game/Persistence/Logins.antt =====
-- A player who comes and goes, with a database.
use ecs_asio_server.Common.{
  ℕ, ◌%◌, ◌^◌, ◌≡◌, ◌≢◌, refl, ap, ◌∙◌, List, [], ◌∷◌, ◌++◌, true, Option, none, some, ◌==◌, length,
  if◌then◌else◌, arith, if_cases, ne→==, eq→==,
}
use ecs_asio_server.Common.Tables.{find, has_key, find-assign, assign, find-erase_key}
use ecs_asio_server.Channel.{Channel}
use ecs_asio_server.Channel.Send.{send}
use ecs_asio_server.Ecs.Entities.{create_entity, contains}
use ecs_asio_server.Ecs.Store.Laws.{get-add_same}
use ecs_asio_server.Ecs.Health.{new_health}
use ecs_asio_server.Ecs.Objects.{new_player}
use ecs_asio_server.Game.World.{Service}
use ecs_asio_server.Game.Net.{frame_for}
use ecs_asio_server.Game.Persistence.{
  DbServer, Job, save, Saved, PlayerRecord, positive, to_save, on_close_db, send_found_db, pos_of,
  map_of, health_of, name_of, send_db, spawn_record, enter_record, welcome, on_found,
}

-- What is saved of a record that was not changed: its level and its experience are not.
abbrev pub saved_of : List ℕ → PlayerRecord → Saved
saved_of player_name rec = record {
  db_id = rec.id;
  pos = rec.pos;
  map_id = rec.map_id;
  level = 1;
  exp = 0;
  hp = rec.hp;
  player_name = player_name;
}

to_save-spawn_record :
    (channel_id : ℕ) (player_name : List ℕ) (rec : PlayerRecord) (s : Service)
    → to_save rec.id
        (spawn_record channel_id player_name rec s).1
        (spawn_record channel_id player_name rec s).0
      ≡ saved_of player_name rec
unfolding to_save spawn_record new_player
to_save-spawn_record channel_id player_name rec s =
    let e = (create_entity s.entities).1 in
    let player_id = (if positive rec.id then rec.id else e) % 2 ^ 32 in
    let player =
      get-add_same e (new_player player_name player_id channel_id rec.map_id) s.players in
    let health = get-add_same e (record (new_health rec.max_hp 50) { hp = rec.hp }) s.healths in
    λ i. record {
      db_id = rec.id;
      pos = pos_of (get-add_same e rec.pos s.positions i);
      map_id = map_of (player i);
      level = 1;
      exp = 0;
      hp = health_of (health i);
      player_name = name_of (player i);
    }

-- The state before the answer to the login.
entered :
    (channel_id : ℕ) (player_name : List ℕ) (rec : PlayerRecord) (d : DbServer)
    → d.world.use_ecs ≡ true
    → positive rec.id ≡ true
    → let e = (enter_record channel_id player_name rec d).0 in
      let player = (spawn_record channel_id player_name rec d.world.service).1 in
      (find channel_id e.world.channel_to_entity ≡ some player)
      × (find channel_id e.channel_to_db_id ≡ some rec.id)
      × (e.world.service ≡ (spawn_record channel_id player_name rec d.world.service).0)
      × (e.db_strands ≡ d.db_strands)
      × (e.has_dao ≡ d.has_dao)
      × (e.jobs ≡ d.jobs)
unfolding enter_record
entered channel_id player_name rec d ecs known =
    let player = (spawn_record channel_id player_name rec d.world.service).1 in
    (
      ground (arith, ecs, find-assign channel_id channel_id player d.world.channel_to_entity),
      ground (arith, ecs, known, find-assign channel_id channel_id rec.id d.channel_to_db_id),
      ground (arith, ecs),
      ground (arith, ecs),
      ground (arith, ecs),
      ground (arith, ecs),
    )

-- A channel whose close posts the job that saves `s` behind the jobs `js`.
record Tracked (channel_id : ℕ) (s : Saved) (js : List (ℕ × Job)) (d : DbServer) : Type 0 where
  player : ℕ
  db_id : ℕ
  entity : find channel_id d.world.channel_to_entity ≡ some player
  there : player ≢ 0
  known : find channel_id d.channel_to_db_id ≡ some db_id
  valid : positive db_id ≡ true
  strand : contains channel_id d.db_strands ≡ true
  dao : d.has_dao ≡ true
  state : to_save db_id player d.world.service ≡ s
  posted : d.jobs ≡ js

on_close_db-posts :
    (channel_id : ℕ) (s : Saved) (js : List (ℕ × Job)) (d : DbServer)
    → Tracked channel_id s js d
    → ((on_close_db channel_id d).jobs ≡ js ++ ((channel_id, save s) ∷ []))
      × (find channel_id (on_close_db channel_id d).channel_to_db_id ≡ none)
unfolding on_close_db
on_close_db-posts channel_id s js d t =
    let gone = find-erase_key channel_id channel_id d.channel_to_db_id in
    let absent = ne→== t.player 0 t.there in
    rw (t.entity, t.known, t.valid, t.strand, t.dao, absent, t.posted, t.state)
      (refl, gone ∙ rw (eq→== channel_id channel_id refl) refl)

on_close_db-silent :
    (channel_id : ℕ) (d : DbServer)
    → find channel_id d.channel_to_db_id ≡ none
    → (on_close_db channel_id d).jobs ≡ d.jobs
unfolding on_close_db
on_close_db-silent channel_id d h = ground (arith, h)

send_found_db-posts :
    (channel_id cmd : ℕ) (bytes : List ℕ) (s : Saved) (js : List (ℕ × Job)) (d : DbServer)
    (o : Option Channel)
    → Tracked channel_id s js d
    → (on_close_db channel_id (send_found_db channel_id cmd bytes d o)).jobs
      ≡ js ++ ((channel_id, save s) ∷ [])
unfolding send_found_db
send_found_db-posts channel_id cmd bytes s js d none t = (on_close_db-posts channel_id s js d t).0
send_found_db-posts channel_id cmd bytes s js d (some c) t =
    let u : DbServer = record d {
      world = record d.world {
        channels = assign channel_id (send (frame_for cmd bytes) c) d.world.channels;
      };
    } in
    let still : Tracked channel_id s js u = record {
      player = t.player;
      db_id = t.db_id;
      entity = t.entity;
      there = t.there;
      known = t.known;
      valid = t.valid;
      strand = t.strand;
      dao = t.dao;
      state = t.state;
      posted = t.posted;
    } in
    let closed = on_close_db-posts channel_id s js u still in
    if_cases (λ (g : DbServer). (on_close_db channel_id g).jobs ≡ js ++ ((channel_id, save s) ∷ []))
      (length c.close_calls == length (send (frame_for cmd bytes) c).close_calls) (λ _. closed.0)
      (λ _. on_close_db-silent channel_id (on_close_db channel_id u) closed.1 ∙ closed.0)

-- On a server with a database and with the ECS, whose next entity is not 0, the database finds the record
-- of a player, with an identifier above 0, who logs in on a channel that is there and has a strand, and the
-- channel closes next: by the answer to the login or after it. Exactly one job is posted, which saves the position, the map and the hp of the record under its identifier, with
-- the level 1 and the experience 0, whatever the record has.
pub on_found-on_close_db :
    (channel_id : ℕ) (player_name : List ℕ) (rec : PlayerRecord) (d : DbServer)
    → has_key channel_id d.world.channels ≡ true
    → d.world.use_ecs ≡ true
    → d.has_dao ≡ true
    → contains channel_id d.db_strands ≡ true
    → positive rec.id ≡ true
    → d.world.service.entities.next_entity_id ≢ 0
    → (on_close_db channel_id (
        on_found
          (record { channel_id = channel_id; player_name = player_name; rec = some rec })
          d)).jobs
      ≡ d.jobs ++ ((channel_id, save (saved_of player_name rec)) ∷ [])
unfolding on_found welcome send_db
on_found-on_close_db channel_id player_name rec d here ecs dao strand valid fresh =
    let e = (enter_record channel_id player_name rec d).0 in
    let (entity, known, service, strands, daos, jobs) =
      entered channel_id player_name rec d ecs valid in
    let made = (spawn_record channel_id player_name rec d.world.service).1 in
    let tracked : Tracked channel_id (saved_of player_name rec) d.jobs e = record {
      player = made;
      db_id = rec.id;
      entity = entity;
      there = unfold spawn_record create_entity in fresh;
      known = known;
      valid = valid;
      strand = ap (contains channel_id) strands ∙ strand;
      dao = daos ∙ dao;
      state =
          ap (to_save rec.id made) service
          ∙ to_save-spawn_record channel_id player_name rec d.world.service;
      posted = jobs;
    } in
    rw here (
      send_found_db-posts channel_id 1001 _ (saved_of player_name rec) d.jobs e
        (find channel_id e.world.channels) tracked)
