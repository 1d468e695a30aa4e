-- ===== src/Database/Redis.antt =====
-- server/db/redis_client.cpp: the client of Redis, with what hiredis and the Redis server do as
-- parameters. Each public operation holds mtx_ from its first line to its last.
pub mod Tokens
use ecs_asio_server.Common.{
  ℕ, List, [], ◌∷◌, ◌++◌, Bool, true, false, not, ◌&&◌, Option, none, some, ◌==◌, if◌then◌else◌,
}
use ecs_asio_server.Common.Decimal.{to_string, stoll}

-- The commands that the client formats. A text is what `%s` copies: the bytes before the first 0.
pub data Command : Type 0 where
  auth : List ℕ → Command
  select : ℕ → Command
  set_key : List ℕ → List ℕ → ℕ → Command
  get_key : List ℕ → Command
  del_key : List ℕ → Command

-- A redisReply by its type: REDIS_REPLY_ERROR, REDIS_REPLY_STRING, or any other.
pub data RedisReply : Type 0 where
  error : RedisReply
  string : List ℕ → RedisReply
  other : RedisReply

-- What redisConnectWithTimeout gives: no context, or one that has an error or not; and what redisCommand
-- gives: a reply or a null pointer, with whether the context has an error after it.
pub record Hiredis {ℓ} (W : Type ℓ) : Type ℓ where
  pub connect_with_timeout : W → W × Option Bool
  pub command : Command → W → W × Option RedisReply × Bool

-- The configuration that is used, and ctx_: none for a null pointer, else whether it has an error.
pub record RedisClient : Type 0 where
  pub password : List ℕ
  pub db_index : ℕ
  pub ctx : Option Bool

unfoldable pub c_str : List ℕ → List ℕ
c_str [] = []
c_str (c ∷ cs) = let rest = c_str cs in if c == 0 then [] else c ∷ rest

-- `r && r->type != REDIS_REPLY_ERROR`
abbrev pub is_accepted : Option RedisReply → Bool
is_accepted none = false
is_accepted (some error) = false
is_accepted (some (string v)) = true
is_accepted (some other) = true

abbrev pub is_reply : Option RedisReply → Bool
is_reply none = false
is_reply (some r) = true

abbrev pub text_of : Option RedisReply → Option (List ℕ)
text_of none = none
text_of (some error) = none
text_of (some (string v)) = some v
text_of (some other) = none

abbrev pub healthy : Option Bool → Bool
healthy none = false
healthy (some broken) = not broken

abbrev pub is_empty_text : List ℕ → Bool
is_empty_text [] = true
is_empty_text (c ∷ cs) = false

unfoldable pub is_connected : RedisClient → Bool
is_connected c = healthy c.ctx

unfoldable pub disconnect : RedisClient → RedisClient
disconnect c = record c { ctx = none }

abbrev pub token_prefix : List ℕ
token_prefix = b't' ∷ b'o' ∷ b'k' ∷ b'e' ∷ b'n' ∷ b':' ∷ []

abbrev pub player_prefix : List ℕ
player_prefix = b'p' ∷ b'l' ∷ b'a' ∷ b'y' ∷ b'e' ∷ b'r' ∷ b':' ∷ []

abbrev pub data_suffix : List ℕ
data_suffix = b':' ∷ b'd' ∷ b'a' ∷ b't' ∷ b'a' ∷ []

abbrev pub player_key : ℕ → List ℕ
player_key player_id = player_prefix ++ (to_string player_id ++ data_suffix)

abbrev pub number_in : Option (List ℕ) → Option ℕ
number_in none = none
number_in (some text) = stoll text

module _ {ℓ} {W : Type ℓ} (hi : Hiredis W) where
  -- A command on the context that is there, and the context after it.
  abbrev pub send_command : Command → RedisClient → W → W × RedisClient × Option RedisReply
  send_command cmd c w =
      let (w', r, broken) = hi.command cmd w in (w', record c { ctx = some broken }, r)

  abbrev pub or_free : W × RedisClient × Option RedisReply → W × RedisClient × Bool
  or_free (w, c, r) = if is_accepted r then (w, c, true) else (w, record c { ctx = none }, false)

  abbrev pub select_db : W × RedisClient × Bool → W × RedisClient × Bool
  select_db (w, c, false) = (w, c, false)
  select_db (w, c, true) =
      if c.db_index == 0 then (w, c, true) else or_free (send_command (select c.db_index) c w)

  abbrev pub authenticate : W → RedisClient → W × RedisClient × Bool
  authenticate w c =
      if is_empty_text c.password
      then (w, c, true)
      else or_free (send_command (auth (c_str c.password)) c w)

  abbrev pub on_context : RedisClient → W × Option Bool → W × RedisClient × Bool
  on_context c (w, none) = (w, record c { ctx = none }, false)
  on_context c (w, some true) = (w, record c { ctx = none }, false)
  on_context c (w, some false) = select_db (authenticate w (record c { ctx = some false }))

  -- A context that connect finds in ctx_ is overwritten.
  unfoldable pub connect : RedisClient → W → W × RedisClient × Bool
  connect c w = on_context c (hi.connect_with_timeout w)

  unfoldable pub reconnect_if_needed : RedisClient → W → W × RedisClient × Bool
  reconnect_if_needed c w =
      if healthy c.ctx then (w, c, true) else on_context c (hi.connect_with_timeout w)

  abbrev pub when_connected :
      {A : Type 0}
      → A
      → (Option RedisReply → A)
      → Command
      → W × RedisClient × Bool
      → W × RedisClient × A
  when_connected fail f cmd (w, c, false) = (w, c, fail)
  when_connected fail f cmd (w, c, true) = let (w', c', r) = send_command cmd c w in (w', c', f r)

  unfoldable pub exec_set : List ℕ → List ℕ → ℕ → RedisClient → W → W × RedisClient × Bool
  exec_set key value ttl_sec c w =
      when_connected false is_accepted (set_key (c_str key) (c_str value) ttl_sec)
        (reconnect_if_needed c w)

  unfoldable pub exec_get : List ℕ → RedisClient → W → W × RedisClient × Option (List ℕ)
  exec_get key c w = when_connected none text_of (get_key (c_str key)) (reconnect_if_needed c w)

  unfoldable pub exec_del : List ℕ → RedisClient → W → W × RedisClient × Bool
  exec_del key c w = when_connected false is_reply (del_key (c_str key)) (reconnect_if_needed c w)

  unfoldable pub set_token : List ℕ → ℕ → ℕ → RedisClient → W → W × RedisClient × Bool
  set_token token player_id ttl_sec = exec_set (token_prefix ++ token) (to_string player_id) ttl_sec

  unfoldable pub get_player_id_by_token : List ℕ → RedisClient → W → W × RedisClient × Option ℕ
  get_player_id_by_token token c w =
      let (w', c', text) = exec_get (token_prefix ++ token) c w in (w', c', number_in text)

  unfoldable pub del_token : List ℕ → RedisClient → W → W × RedisClient × Bool
  del_token token = exec_del (token_prefix ++ token)

  unfoldable pub set_player_cache : ℕ → List ℕ → ℕ → RedisClient → W → W × RedisClient × Bool
  set_player_cache player_id json_data ttl_sec = exec_set (player_key player_id) json_data ttl_sec

  unfoldable pub get_player_cache : ℕ → RedisClient → W → W × RedisClient × Option (List ℕ)
  get_player_cache player_id = exec_get (player_key player_id)

  unfoldable pub del_player_cache : ℕ → RedisClient → W → W × RedisClient × Bool
  del_player_cache player_id = exec_del (player_key player_id)
