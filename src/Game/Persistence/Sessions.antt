-- ===== src/Game/Persistence/Sessions.antt =====
-- handlers/player_handlers.cpp: the session token of a login, with Redis. The cache of the players, which
-- the jobs of a login fill, is left out: nothing reads it.
use ecs_asio_server.Common.{
  ℕ, ◌^◌, ◌<◌, ◌≡◌, refl, ap, ◌∙◌, List, [], ◌∷◌, ◌++◌, true, false, Option, none, some,
  if◌then◌else◌,
}
use ecs_asio_server.Wire.{Parsed, ok, reject, fault}
use ecs_asio_server.Protocol.Base.Defs.{LoginReq, parse_login_req}
use ecs_asio_server.Ecs.Entities.{contains}
use ecs_asio_server.Database.Redis.{
  Hiredis, RedisClient, set_token, get_player_id_by_token, is_empty_text,
}
use ecs_asio_server.Database.Redis.Tokens.{Stores, set_token-get_player_id_by_token}
use ecs_asio_server.Game.Persistence.{DbServer, look_up, send_db, login_answer, login_db}

-- The server, redis_client_, and what the client talks to.
pub record SessionServer (W : Type 0) : Type 0 where
  pub server : DbServer
  pub redis_client : Option RedisClient
  pub remote : W

abbrev pub invalid_token : List ℕ
invalid_token =
    b'i' ∷ b'n' ∷ b'v' ∷ b'a' ∷ b'l' ∷ b'i' ∷ b'd' ∷ b'_' ∷ b't' ∷ b'o' ∷ b'k' ∷ b'e' ∷ b'n' ∷ []

module _ {W : Type 0} (hi : Hiredis W) where
  -- What the lookup of the token answers. The player that it names is only logged.
  abbrev pub on_player_id : ℕ → LoginReq → DbServer → W × RedisClient × Option ℕ → SessionServer W
  on_player_id channel_id req d (w, c, none) = record {
    server = send_db channel_id 1001 (login_answer false invalid_token 0 0) d;
    redis_client = some c;
    remote = w;
  }
  on_player_id channel_id req d (w, c, some pid) = record {
    server = login_db channel_id req d;
    redis_client = some c;
    remote = w;
  }

  abbrev pub check_token : ℕ → LoginReq → Option RedisClient → SessionServer W → SessionServer W
  check_token channel_id req none s = record s { server = login_db channel_id req s.server }
  check_token channel_id req (some c) s =
      if is_empty_text req.session_token
      then record s { server = login_db channel_id req s.server }
      else on_player_id channel_id req s.server
          (get_player_id_by_token hi req.session_token c s.remote)

  unfoldable pub login_session : ℕ → LoginReq → SessionServer W → SessionServer W
  login_session channel_id req s = check_token channel_id req s.redis_client s

  abbrev pub on_login_req : ℕ → Parsed LoginReq → SessionServer W → Option (SessionServer W)
  on_login_req channel_id (ok req rest) s = some (login_session channel_id req s)
  on_login_req channel_id reject s = some s
  on_login_req channel_id fault s = none

  unfoldable pub handle_login_session : ℕ → List ℕ → SessionServer W → Option (SessionServer W)
  handle_login_session channel_id bytes s = on_login_req channel_id (parse_login_req bytes) s

  accepted_lem :
      (channel_id : ℕ) (req : LoginReq) (d : DbServer) (r : W × RedisClient × Option ℕ) (pid : ℕ)
      → r.2 ≡ some pid
      → (on_player_id channel_id req d r).server ≡ login_db channel_id req d
  accepted_lem channel_id req d (w, c, none) pid h = absurd cc
  accepted_lem channel_id req d (w, c, some p) pid h = refl

  -- A token is stored for one player, whose identifier is below 2^63, in a Redis that keeps what it is
  -- given (Stores). A login that presents it next to a server with a database, on a channel with a strand,
  -- is accepted under any name, as is one that presents the token with a byte 0 and anything behind it:
  -- the record of that name is looked up, whoever the token was stored for.
  pub set_token-login_session :
      (channel_id player_id ttl_sec : ℕ) (letter : ℕ) (token rest name : List ℕ) (c : RedisClient)
      (w : W) (d : DbServer)
      → Stores hi
      → player_id < 2 ^ 63
      → (set_token hi (letter ∷ token) player_id ttl_sec c w).2 ≡ true
      → d.has_dao ≡ true
      → contains channel_id d.db_strands ≡ true
      → let t = set_token hi (letter ∷ token) player_id ttl_sec c w in
        let s : SessionServer W = record { server = d; redis_client = some t.1; remote = t.0 } in
        let own : LoginReq = record { player_name = name; session_token = letter ∷ token } in
        let longer : LoginReq = record {
          player_name = name;
          session_token = letter ∷ (token ++ (0 ∷ rest));
        } in
        ((login_session channel_id own s).server.jobs ≡ d.jobs ++ ((channel_id, look_up name) ∷ []))
        × ((login_session channel_id longer s).server.jobs
            ≡ d.jobs ++ ((channel_id, look_up name) ∷ []))
  unfolding login_session login_db
  set_token-login_session channel_id player_id ttl_sec letter token rest name c w d stores small set
        dao strand =
      let t = set_token hi (letter ∷ token) player_id ttl_sec c w in
      let (own, longer) =
        set_token-get_player_id_by_token hi (letter ∷ token) rest player_id ttl_sec c w stores small
          set in
      let posted : (token' : List ℕ)
          → (login_db channel_id (record { player_name = name; session_token = token' }) d).jobs
            ≡ d.jobs ++ ((channel_id, look_up name) ∷ []) =
        λ token'. rw (dao, strand) refl in
      (
        ap (λ (e : DbServer). e.jobs) (accepted_lem channel_id _ d _ player_id own) ∙ posted _,
        ap (λ (e : DbServer). e.jobs) (accepted_lem channel_id _ d _ player_id longer) ∙ posted _,
      )
