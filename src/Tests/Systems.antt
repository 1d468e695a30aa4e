-- ===== src/Tests/Systems.antt =====
-- The AI, the movement, the monsters of a map and the server with a database at concrete inputs.
use ecs_asio_server.Common.{
  ℕ, ◌+◌, ◌-◌, ◌*◌, ◌/◌, ◌≡◌, ◌⊎◌, refl, List, [], ◌∷◌, ◌++◌, Bool, true, false, ◌&&◌, ◌||◌, Option,
  none, some, ltb, leb, ◌==◌, arith, if◌then◌else◌, length, times,
}
use Prim.Native.Nat.{min}
use ecs_asio_server.Common.Tables.{find, has_key}
use ecs_asio_server.Channel.{fresh}
use ecs_asio_server.Ecs.Entities.{contains}
use ecs_asio_server.Ecs.Store.{get, has}
use ecs_asio_server.Ecs.Health.{Health}
use ecs_asio_server.Ecs.Objects.{Monster}
use ecs_asio_server.Game.World.{Position, Service, new_service, new_world}
use ecs_asio_server.Game.Floats.{Floats}
use ecs_asio_server.Game.Ai.{sight, set_target, find_nearest_target, aim, wound}
use ecs_asio_server.Game.Ai.Targets.{NoneNearer, InSight, find_nearest_target-Nearest}
use ecs_asio_server.Game.Ai.Attacks.{Fight, turns, turns-kill}
use ecs_asio_server.Game.Movement.{handle_collisions}
use ecs_asio_server.Game.Movement.Collisions.{NanLaws, Lost, updates, handle_collisions-Lost}
use ecs_asio_server.Game.Threads.Monsters.{Area, max_monsters, spawn_interval, update_map}
use ecs_asio_server.Game.Threads.Monsters.Spawning.{Peopled, update_map-Peopled}
use ecs_asio_server.Database.Pool.{Holding, raw}
use ecs_asio_server.Database.Pool.Ownership.{
  Call, acquires, destroys, moves, calls, owned_times, calls-owned_once, close_pool-stale,
}
use ecs_asio_server.Database.Pool.Ownership as Ownership
use ecs_asio_server.Database.FailureSink.{FailureSink}
use ecs_asio_server.Game.Persistence.{
  DbServer, PlayerRecord, Saved, save, look_up, on_found, on_close_db,
}
use ecs_asio_server.Protocol.Base.Defs.{LoginReq}
use ecs_asio_server.Game.Persistence.Sessions.{
  SessionServer, login_session, set_token-login_session,
}
use ecs_asio_server.Game.Persistence.Logins.{saved_of, on_found-on_close_db}
use ecs_asio_server.Channel.Receive.{read_all}
use ecs_asio_server.Client.GameBot.{GameBot, recv_loop}
use ecs_asio_server.Client.GameBot.Reading.{mirror, recv_loop-read_all}
use ecs_asio_server.Database.Redis as Redis
use ecs_asio_server.Database.Redis.{
  Hiredis, RedisClient, set_token, get_player_id_by_token, exec_set, reconnect_if_needed,
}
use ecs_asio_server.Database.Redis.Tokens.{Stores, set_token-get_player_id_by_token}
use ecs_asio_server.Ecs.Systems.{new_system, no_systems, update_all}
use ecs_asio_server.Ecs.Systems.Order as Order
use ecs_asio_server.Ecs.Systems.Order.{note, is_on, update_all-once}

abbrev zero_monsters : ℕ
zero_monsters = 0

-- Whole numbers in place of floats, with one number that stands for a NaN.
abbrev not_a_number : ℕ
not_a_number = 4294967295

abbrev is_nan : ℕ → Bool
is_nan a = a == not_a_number

abbrev unless_nan : ℕ → ℕ → ℕ → ℕ
unless_nan a b c = if is_nan a || is_nan b then not_a_number else c

abbrev whole : Floats
whole = record {
  plus = λ a b. unless_nan a b (a + b);
  minus = λ a b. unless_nan a b (a - b);
  times = λ a b. unless_nan a b (a * b);
  over = λ a b. if b == 0 then not_a_number else unless_nan a b (a / b);
  sqrt = λ a. a;
  lt = λ a b. if is_nan a || is_nan b then false else ltb a b;
  le = λ a b. if is_nan a || is_nan b then false else leb a b;
  of_int = λ a. a;
}

whole-NanLaws : NanLaws whole is_nan
whole-NanLaws = record {
  plus_nan = λ a b h. ground (arith, h);
  nan_plus = λ a b h. ground (arith, h);
  minus_nan = λ a b h. ground (arith, h);
  nan_minus = λ a b h. ground (arith, h);
  times_nan = λ a b h. ground (arith, h);
  sqrt_nan = λ a h. h;
  zero_over_zero = refl;
  lt_nan = λ a b h. ground (arith, h);
  nan_lt = λ a b h. ground (arith, h);
  of_zero = refl;
  zero_lt_two = refl;
}

lt-irreflexive : (a : ℕ) → whole.lt a a ≡ false
lt-irreflexive a = ground arith

lt-transitive : (a b c : ℕ) → whole.lt a b ≡ true → whole.lt b c ≡ true → whole.lt a c ≡ true
lt-transitive a b c h k = ground (arith, h, k)

abbrev at : ℕ → Position
at x = record { x = x; y = 0; z = 0 }

-- The monster 1, and the players 2 and 3, of whom 3 is nearer.
abbrev meadow : Service
meadow = record new_service {
  positions = (1, at 10) ∷ (2, at 90) ∷ (3, at 20) ∷ [];
  players =
      (
        2,
        record {
          player_name = [];
          player_id = 2;
          level = 1;
          experience = 0;
          map_id = 1;
          channel_id = 1;
        },
      )
      ∷ (
        3,
        record {
          player_name = [];
          player_id = 3;
          level = 1;
          experience = 0;
          map_id = 1;
          channel_id = 2;
        },
      )
      ∷ [];
}

find_nearest_target-Nearest_example :
    ((find_nearest_target whole 1 meadow ≡ meadow)
      × NoneNearer whole (at 10) sight meadow.positions meadow.players)
    ⊎ ((player : ℕ) × (d : ℕ) × (find_nearest_target whole 1 meadow ≡ set_target 1 player meadow)
        × InSight whole (at 10) meadow.positions meadow.players player d
        × NoneNearer whole (at 10) d meadow.positions meadow.players)
unfolding has get
find_nearest_target-Nearest_example =
    find_nearest_target-Nearest whole lt-irreflexive lt-transitive 1 (at 10) meadow refl refl refl

abbrev goblin : Monster
goblin = record { monster_type = 1; level = 1; hp = 100; max_hp = 100; target_entity = 2 }

abbrev hero : Health
hero = record { hp = 25; max_hp = 100; mp = 0; max_mp = 0; is_alive = true }

abbrev duel : Service
duel = record new_service { monsters = (1, goblin) ∷ []; healths = (2, hero) ∷ [] }

duel-Fight : Fight 1 2 goblin hero duel
unfolding get
duel-Fight = record {
  monster = refl;
  aimed = refl;
  alone = omega arith;
  health = refl;
  alive = refl;
}

turns-kill_example :
    (after : Health) × (get 2 (turns whole 1 3 duel).healths ≡ some after)
    × (after.hp ≡ 25 - 10 * 3)
    × (after.is_alive ≡ ltb (10 * 3) 25)
    × (get 1 (turns whole 1 3 duel).monsters ≡ some goblin)
    × (turns whole 1 4 duel ≡ (
        if ltb (10 * 3) 25
        then wound 2 (some after) (turns whole 1 3 duel)
        else aim 1 0 (some goblin) (turns whole 1 3 duel)))
turns-kill_example = turns-kill whole 1 2 goblin 3 hero duel duel-Fight (omega arith)

abbrev crowd : Service
crowd = record new_service { positions = (4, at 7) ∷ (5, at 7) ∷ (6, at 9) ∷ [] }

handle_collisions-Lost_example :
    Lost is_nan (get 4 (updates whole (1 ∷ 1 ∷ []) (handle_collisions whole crowd)).positions)
    × Lost is_nan (get 5 (updates whole (1 ∷ 1 ∷ []) (handle_collisions whole crowd)).positions)
handle_collisions-Lost_example =
    handle_collisions-Lost whole is_nan whole-NanLaws 4 5 (at 7) ((6, at 9) ∷ []) crowd (1 ∷ 1 ∷ [])
      (omega arith) refl refl

abbrev plain : Area
plain = record {
  map = record {
    width = 100;
    height = 100;
    bounds = record { min_x = 0; min_y = 0; min_z = 0; max_x = 100; max_y = 100; max_z = 100 };
    spawn_timer = 0;
    local_monsters = [];
    local_npcs = [];
    monster_count = 0;
    object_monsters = [];
  };
  seed = 42;
  service = new_service;
}

plain-Peopled : Peopled plain
plain-Peopled = record {
  unique = tt;
  few = omega arith;
  counted = refl;
  issued = tt;
  equipped = tt;
}

update_map-Peopled_example :
    Peopled (update_map whole spawn_interval plain)
    × (length (update_map whole spawn_interval plain).map.local_monsters ≡ (
        if whole.lt (whole.plus 0 spawn_interval) spawn_interval
        then zero_monsters
        else min max_monsters (zero_monsters + 3)))
update_map-Peopled_example =
    update_map-Peopled whole spawn_interval plain plain-Peopled (omega arith)

abbrev uses : List Call
uses = acquires 1 ∷ acquires 2 ∷ acquires 3 ∷ moves 1 2 ∷ destroys 1 ∷ acquires 1 ∷ []

calls-owned_once_example :
    (owned_times 1 (calls uses (Ownership.fresh_pool (λ k. k + 100) 2)) ≡ 1)
    × (raw 1 (calls uses (Ownership.fresh_pool (λ k. k + 100) 2)).pool.connections
        ≡ some (some 101))
calls-owned_once_example = calls-owned_once (λ k. k + 100) 2 uses 1

abbrev lent : Holding
lent = record {
  pool = record { connections = some 100 ∷ []; free_indices = []; is_open = true; ended = [] };
  held = (1, 0) ∷ [];
}

abbrev format : Saved → List ℕ → ℕ → List ℕ → List ℕ → List ℕ
format s operation attempts name error = operation ++ (name ++ error)

abbrev record_of : PlayerRecord
record_of = record { id = 8; level = 30; exp = 500; hp = 70; max_hp = 100; pos = at 12; map_id = 2 }

abbrev empty_sink : FailureSink
empty_sink = record { is_open = true; file = []; stderr = [] }

abbrev persistent : DbServer
persistent = record {
  world = record (new_world true []) { channels = (1, fresh) ∷ [] };
  has_dao = true;
  channel_to_db_id = [];
  db_strands = 1 ∷ [];
  jobs = [];
  callbacks = [];
  sink = empty_sink;
}

on_found-on_close_db_example :
    (on_close_db 1 (
      on_found
        (record { channel_id = 1; player_name = b'h' ∷ []; rec = some record_of })
        persistent)).jobs
    ≡ (1, save (saved_of (b'h' ∷ []) record_of)) ∷ []
unfolding has_key contains
on_found-on_close_db_example =
    on_found-on_close_db 1 (b'h' ∷ []) record_of persistent refl refl refl refl refl (omega arith)

-- A bot that reads the ping of the server, cut in two.
abbrev bot : GameBot
bot = record {
  player_name = b'h' ∷ [];
  session_token = [];
  acc = [];
  acc_offset = 0;
  sent = [];
  calls = [];
}

abbrev ping_chunks : List (List ℕ)
ping_chunks = (12 ∷ 0 ∷ 0 ∷ 0 ∷ 1 ∷ []) ∷ (0 ∷ 0 ∷ 1 ∷ 0 ∷ 0 ∷ 0 ∷ 0 ∷ 0 ∷ 0 ∷ 0 ∷ 0 ∷ []) ∷ []

recv_loop-read_all_example :
    recv_loop ping_chunks (mirror bot fresh) ≡ mirror bot (read_all ping_chunks fresh)
recv_loop-read_all_example = recv_loop-read_all ping_chunks bot fresh

-- A Redis server that holds the last value that was set, under its key.
abbrev Kept : Type 0
Kept = List ℕ × List ℕ

abbrev same_text : List ℕ → List ℕ → Bool
same_text [] [] = true
same_text [] (y ∷ ys) = false
same_text (x ∷ xs) [] = false
same_text (x ∷ xs) (y ∷ ys) = x == y && same_text xs ys

same_text_refl : (xs : List ℕ) → same_text xs xs ≡ true
same_text_refl [] = refl
same_text_refl (x ∷ xs) = ground (arith, same_text_refl xs)

abbrev obey : Redis.Command → Kept → Kept × Option Redis.RedisReply × Bool
obey (Redis.auth password) w = (w, some Redis.other, false)
obey (Redis.select n) w = (w, some Redis.other, false)
obey (Redis.set_key key value ttl) w = ((key, value), some Redis.other, false)
obey (Redis.get_key key) (held, value) =
    ((held, value), some (if same_text key held then Redis.string value else Redis.other), false)
obey (Redis.del_key key) w = (([], []), some Redis.other, false)

abbrev toy : Hiredis Kept
toy = record { connect_with_timeout = λ w. (w, some false); command = obey }

toy-Stores : Stores toy
toy-Stores w key value ttl_sec h = (refl, ground (arith, same_text_refl key))

abbrev client : RedisClient
client = record { password = b'p' ∷ []; db_index = 2; ctx = none }

set_token-get_player_id_by_token_example :
    let t = set_token toy (b'a' ∷ []) 42 60 client ([], []) in
    ((get_player_id_by_token toy (b'a' ∷ []) t.1 t.0).2 ≡ some 42)
    × ((get_player_id_by_token toy (b'a' ∷ 0 ∷ b'x' ∷ []) t.1 t.0).2 ≡ some 42)
unfolding set_token exec_set reconnect_if_needed
set_token-get_player_id_by_token_example =
    set_token-get_player_id_by_token toy (b'a' ∷ []) (b'x' ∷ []) 42 60 client ([], []) toy-Stores
      (omega arith) refl

abbrev switching : List Order.Call
switching =
    Order.registers 0 new_system
    ∷ Order.registers 1 new_system
    ∷ Order.registers 1 new_system
    ∷ Order.enables 0 false
    ∷ Order.prioritises 1 5
    ∷ Order.unregisters 3
    ∷ []

update_all-once_example :
    (l : List ℕ) × (update_all note (Order.calls (λ l. l) switching no_systems) [] ≡ some l)
    × (times 1 l ≡ (
        if is_on (find 1 (Order.calls (λ l. l) switching no_systems).systems)
        then 1
        else zero_monsters))
update_all-once_example = update_all-once (λ l. l) switching 1 (λ l t. refl)

set_token-login_session_example :
    let t = set_token toy (b'a' ∷ []) 42 60 client ([], []) in
    let s : SessionServer Kept = record {
      server = persistent;
      redis_client = some t.1;
      remote = t.0;
    } in
    let own : LoginReq = record { player_name = b'h' ∷ []; session_token = b'a' ∷ [] } in
    let longer : LoginReq = record {
      player_name = b'h' ∷ [];
      session_token = b'a' ∷ 0 ∷ b'x' ∷ [];
    } in
    ((login_session toy 1 own s).server.jobs ≡ (1, look_up (b'h' ∷ [])) ∷ [])
    × ((login_session toy 1 longer s).server.jobs ≡ (1, look_up (b'h' ∷ [])) ∷ [])
unfolding set_token exec_set reconnect_if_needed contains
set_token-login_session_example =
    set_token-login_session toy 1 42 60 b'a' [] (b'x' ∷ []) (b'h' ∷ []) client ([], []) persistent
      toy-Stores (omega arith) refl refl refl
