-- ===== src/Database/Redis/Tokens.antt =====
-- The session tokens, from set_token to get_player_id_by_token, and the state that connect leaves.
use ecs_asio_server.Common.{
  ℕ, zero, suc, ◌+◌, ◌^◌, ◌/◌, ◌%◌, ◌<◌, ◌≡◌, refl, ap, sym, ◌∙◌, List, [], ◌∷◌, ◌++◌, Bool, true,
  false, Option, none, some, ◌==◌, lt→ltb, arith, if_cases,
}
use ecs_asio_server.Common.Tables.{is_some_of}
use ecs_asio_server.Common.Decimal.{digits, to_string, stoll, stoll-to_string}
use ecs_asio_server.Database.Redis.{
  Command, auth, select, is_empty_text, set_key, get_key, string, Hiredis, RedisClient, c_str,
  is_accepted, text_of, number_in, healthy, connect, reconnect_if_needed, on_context, authenticate,
  select_db, or_free, send_command, when_connected, exec_set, exec_get, token_prefix, set_token,
  get_player_id_by_token,
}

c_str-append_zero : (text rest : List ℕ) → c_str (text ++ (0 ∷ rest)) ≡ c_str text
unfolding c_str
c_str-append_zero [] rest = refl
c_str-append_zero (c ∷ cs) rest = ground (arith, c_str-append_zero cs rest)

c_str-digits :
    (fuel n : ℕ) (after : List ℕ)
    → c_str after ≡ after
    → c_str (digits fuel n after) ≡ digits fuel n after
unfolding digits c_str
c_str-digits zero n after h = h
c_str-digits (suc fuel) n after h =
    let here : c_str ((48 + n % 10) ∷ after) ≡ (48 + n % 10) ∷ after = ground (arith, h) in
    if_cases (λ t. c_str t ≡ t) (n / 10 == 0) (λ _. here)
      (λ _. c_str-digits fuel (n / 10) ((48 + n % 10) ∷ after) here)

c_str-to_string : (n : ℕ) → n < 2 ^ 63 → c_str (to_string n) ≡ to_string n
unfolding to_string
c_str-to_string n h = rw (lt→ltb n (2 ^ 63) h) (c_str-digits 20 n [] (unfold c_str in refl))

-- What Redis documents of SET and GET: a key that was just set answers with its value.
abbrev pub Stores {ℓ} : {W : Type ℓ} → Hiredis W → Type ℓ
Stores {W = W} hi =
    (w : W) (key value : List ℕ) (ttl_sec : ℕ)
    → is_accepted (hi.command (set_key key value ttl_sec) w).1 ≡ true
    → ((hi.command (set_key key value ttl_sec) w).2 ≡ false)
      × ((hi.command (get_key key) (hi.command (set_key key value ttl_sec) w).0).1
          ≡ some (string value))

module _ {ℓ} {W : Type ℓ} (hi : Hiredis W) where
  -- ctx_ is there exactly when the call says that it is connected.
  or_free_lem :
      (c : RedisClient) (w : W) (cmd : Command)
      → (or_free hi (send_command hi cmd c w)).2
        ≡ is_some_of (or_free hi (send_command hi cmd c w)).1.ctx
  or_free_lem c w cmd =
      if_cases (λ (r : W × RedisClient × Bool). r.2 ≡ is_some_of r.1.ctx)
        (is_accepted (hi.command cmd w).1) (λ _. refl) (λ _. refl)

  select_db_lem :
      (r : W × RedisClient × Bool)
      → r.2 ≡ is_some_of r.1.ctx
      → (select_db hi r).2 ≡ is_some_of (select_db hi r).1.ctx
  select_db_lem (w, c, false) h = h
  select_db_lem (w, c, true) h =
      if_cases (λ (r : W × RedisClient × Bool). r.2 ≡ is_some_of r.1.ctx) (c.db_index == 0) (λ _. h)
        (λ _. or_free_lem c w (select c.db_index))

  authenticate_lem :
      (w : W) (c : RedisClient)
      → is_some_of c.ctx ≡ true
      → (authenticate hi w c).2 ≡ is_some_of (authenticate hi w c).1.ctx
  authenticate_lem w c h =
      if_cases (λ (r : W × RedisClient × Bool). r.2 ≡ is_some_of r.1.ctx) (is_empty_text c.password)
        (λ _. sym h) (λ _. or_free_lem c w (auth (c_str c.password)))

  on_context_lem :
      (c : RedisClient) (r : W × Option Bool)
      → (on_context hi c r).2 ≡ is_some_of (on_context hi c r).1.ctx
  on_context_lem c (w, none) = refl
  on_context_lem c (w, some true) = refl
  on_context_lem c (w, some false) =
      select_db_lem _ (authenticate_lem w (record c { ctx = some false }) refl)

  healthy_some : (o : Option Bool) → healthy o ≡ true → is_some_of o ≡ true
  healthy_some none h = absurd cc
  healthy_some (some b) h = refl

  -- After connect, and after reconnect_if_needed, a context is kept exactly if the call returned true:
  -- one that was refused the password or the index of the database is freed.
  pub connect-ctx :
      (c : RedisClient) (w : W)
      → ((connect hi c w).2 ≡ is_some_of (connect hi c w).1.ctx)
        × ((reconnect_if_needed hi c w).2 ≡ is_some_of (reconnect_if_needed hi c w).1.ctx)
  unfolding connect reconnect_if_needed
  connect-ctx c w = (
    on_context_lem c (hi.connect_with_timeout w),
    if_cases (λ (r : W × RedisClient × Bool). r.2 ≡ is_some_of r.1.ctx) (healthy c.ctx)
        (λ q. sym (healthy_some c.ctx q)) (λ _. on_context_lem c (hi.connect_with_timeout w)),
  )

  get_stored :
      (key asked value : List ℕ) (ttl_sec : ℕ) (r : W × RedisClient × Bool)
      → Stores hi
      → (when_connected hi false is_accepted (set_key (c_str key) (c_str value) ttl_sec) r).2 ≡ true
      → c_str asked ≡ c_str key
      → let t = when_connected hi false is_accepted (set_key (c_str key) (c_str value) ttl_sec) r in
        (exec_get hi asked t.1 t.0).2 ≡ some (c_str value)
  unfolding exec_get reconnect_if_needed
  get_stored key asked value ttl_sec (w, c, false) stores h same = absurd cc
  get_stored key asked value ttl_sec (w, c, true) stores h same =
      let (whole, found) = stores w (c_str key) (c_str value) ttl_sec h in
      rw (whole, same) (ap text_of found)

  -- A token that set_token stores leads to its player, if it is asked for next: for the token itself,
  -- and for the token with a byte 0 and anything else behind it, since the key is cut there.
  pub set_token-get_player_id_by_token :
      (token rest : List ℕ) (player_id ttl_sec : ℕ) (c : RedisClient) (w : W)
      → Stores hi
      → player_id < 2 ^ 63
      → (set_token hi token player_id ttl_sec c w).2 ≡ true
      → let t = set_token hi token player_id ttl_sec c w in
        ((get_player_id_by_token hi token t.1 t.0).2 ≡ some player_id)
        × ((get_player_id_by_token hi (token ++ (0 ∷ rest)) t.1 t.0).2 ≡ some player_id)
  unfolding set_token exec_set get_player_id_by_token
  set_token-get_player_id_by_token token rest player_id ttl_sec c w stores small h =
      let key = token_prefix ++ token in
      let r = reconnect_if_needed hi c w in
      let cut : c_str (token_prefix ++ (token ++ (0 ∷ rest))) ≡ c_str key =
        c_str-append_zero key rest in
      let back = ap stoll (c_str-to_string player_id small) ∙ stoll-to_string player_id small in
      (
        ap number_in (get_stored key key (to_string player_id) ttl_sec r stores h refl) ∙ back,
        ap number_in (
              get_stored key (token_prefix ++ (token ++ (0 ∷ rest))) (to_string player_id) ttl_sec r
                stores h cut)
            ∙ back,
      )
