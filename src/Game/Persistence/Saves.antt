-- ===== src/Game/Persistence/Saves.antt =====
-- The players of the database that are in the game (game_server.cpp): what the server keeps of each.
use ecs_asio_server.Common.{
  ℕ, zero, suc, ◌+◌, ◌%◌, ◌^◌, ◌≤◌, ◌<◌, ◌≡◌, refl, sym, ap, ◌∙◌, subst, List, [], ◌∷◌, ◌++◌, Bool,
  true, false, not, ◌&&◌, ◌||◌, Option, none, some, ltb, ◌==◌, length, if◌then◌else◌, arith,
  if_cases, Bool-cases, inl, ==→eq, inr,
}
use ecs_asio_server.Common.Tables.{
  find, has_key, assign, erase_key, is_some_of, find-assign, find-erase_key, has_key-assign,
  has_key-erase_key, has_key-find,
}
use ecs_asio_server.Channel.{Channel, start, fresh}
use ecs_asio_server.Channel.Send.{send}
use ecs_asio_server.Ecs.Entities.{create_entity, destroy_entity, contains, insert, erase}
use ecs_asio_server.Protocol.Base.Defs.{LoginReq}
use ecs_asio_server.Game.World.{World, Service, service_destroy, remove_all_components}
use ecs_asio_server.Game.Net.{accept, on_close, frame_for, entity_or_zero}
use ecs_asio_server.Game.Persistence.{
  DbServer, Job, save, Saved, Found, PlayerRecord, positive, to_save, on_accept_db, on_close_db,
  must_save, send_found_db, send_db, spawn_record, enter_record, welcome, on_found, answer_login,
  login_answer, login_db, db_error,
}
use ecs_asio_server.Game.Persistence.Jobs.{flush_players}
pub mod Attacks
pub mod Logins
pub mod Events

abbrev pub known : ℕ → DbServer → Bool
known ch d = is_some_of (find ch d.channel_to_db_id)

-- What holds of one channel: it has a strand while it is there, and if its player has an identifier of
-- the database, it is there and the identifier is above 0. Where nobody is attacked it has an entity too.
pub record Kept (peaceful : Bool) (ch : ℕ) (d : DbServer) : Type 0 where
  pub strand : has_key ch d.world.channels ≡ true → contains ch d.db_strands ≡ true
  pub there : known ch d ≡ true → has_key ch d.world.channels ≡ true
  pub entity :
      peaceful ≡ true
      → known ch d ≡ true
      → (entity_or_zero (find ch d.world.channel_to_entity) == 0) ≡ false
  pub valid : known ch d ≡ true → positive (entity_or_zero (find ch d.channel_to_db_id)) ≡ true
  pub dao : d.has_dao ≡ true
  pub ecs : d.world.use_ecs ≡ true

-- The counter of the entities stays above 0 and leaves room for n more.
abbrev pub Room : ℕ → DbServer → Type 0
Room n d =
    (0 < d.world.service.entities.next_entity_id)
    × (d.world.service.entities.next_entity_id + n < 2 ^ 32)

-- What holds of one channel and of the counter.
abbrev pub Fine : Bool → ℕ → ℕ → DbServer → Type 0
Fine peaceful ch n d = Kept peaceful ch d × Room n d

contains-erase_other :
    (f e : ℕ) (xs : List ℕ) → (f == e) ≡ false → contains f (erase e xs) ≡ contains f xs
unfolding contains erase
contains-erase_other f e [] h = refl
contains-erase_other f e (x ∷ xs) h = ground (arith, contains-erase_other f e xs h, h)

contains-insert_still :
    (f e : ℕ) (xs : List ℕ) → contains f xs ≡ true → contains f (insert e xs) ≡ true
unfolding contains insert
contains-insert_still f e xs h = ground (arith, h)

contains-insert_same : (e : ℕ) (xs : List ℕ) → contains e (insert e xs) ≡ true
unfolding contains insert
contains-insert_same e xs = ground arith

module _ (peaceful : Bool) where
  pub on_accept_db-Kept :
      (ch now : ℕ) (d : DbServer) → Kept peaceful ch d → Kept peaceful ch (on_accept_db now d)
  unfolding on_accept_db accept
  on_accept_db-Kept ch now d k =
      let id = d.world.next_channel_id in
      let keyed = has_key-assign id ch (start now fresh) d.world.channels in
      record {
        strand = λ h. elim (Bool-cases (ch == id)) [
          | inl q ↦
              subst (λ j. contains j (insert id d.db_strands) ≡ true) (sym (==→eq ch id q))
                (contains-insert_same id d.db_strands)
          | inr q ↦
              contains-insert_still ch id d.db_strands (k.strand (ground (arith, keyed, h, q)))
        ];
        there = λ h. ground (arith, keyed, k.there h);
        entity = k.entity;
        valid = k.valid;
        dao = k.dao;
        ecs = k.ecs;
      }

  pub on_close_db-Kept :
      (ch gone : ℕ) (d : DbServer) → Kept peaceful ch d → Kept peaceful ch (on_close_db gone d)
  unfolding on_close_db on_close
  on_close_db-Kept ch gone d k =
      let entity = entity_or_zero (find gone d.world.channel_to_entity) in
      let db_id = entity_or_zero (find gone d.channel_to_db_id) in
      if_cases (Kept peaceful ch) (must_save gone d)
        (λ _. kept (d.jobs ++ ((gone, save (to_save db_id entity d.world.service)) ∷ [])))
        (λ _. kept d.jobs)
    where
      channels :
          has_key ch (erase_key gone d.world.channels)
          ≡ (if ch == gone then false else has_key ch d.world.channels)
      channels = has_key-erase_key gone ch d.world.channels

      ids :
          find ch (erase_key gone d.channel_to_db_id)
          ≡ (if ch == gone then none else find ch d.channel_to_db_id)
      ids = find-erase_key gone ch d.channel_to_db_id

      entities :
          find ch (erase_key gone d.world.channel_to_entity)
          ≡ (if ch == gone then none else find ch d.world.channel_to_entity)
      entities = find-erase_key gone ch d.world.channel_to_entity

      other : is_some_of (find ch (erase_key gone d.channel_to_db_id)) ≡ true → (ch == gone) ≡ false
      other h = ground (arith, ids, h)

      same :
          (ch == gone) ≡ false
          → find ch (erase_key gone d.channel_to_db_id) ≡ find ch d.channel_to_db_id
      same q = ground (arith, ids, q)

      kept :
          (js : List (ℕ × Job))
          → Kept peaceful ch (record d {
            world = on_close gone d.world;
            channel_to_db_id = erase_key gone d.channel_to_db_id;
            db_strands = erase gone d.db_strands;
            jobs = js;
          })
      kept js = record {
        strand = λ h.
            let q : (ch == gone) ≡ false = ground (arith, channels, h) in
            contains-erase_other ch gone d.db_strands q ∙ k.strand (ground (arith, channels, h, q));
        there = λ h.
            let q = other h in
            ground (arith, channels, q, k.there (ap is_some_of (sym (same q)) ∙ h));
        entity = λ calm h.
            let q = other h in
            ground (arith, entities, q, k.entity calm (ap is_some_of (sym (same q)) ∙ h));
        valid = λ h.
            let q = other h in
            ap (λ o. positive (entity_or_zero o)) (same q)
            ∙ k.valid (ap is_some_of (sym (same q)) ∙ h);
        dao = k.dao;
        ecs = k.ecs;
      }

  destroy-next :
      (e : ℕ) (s : Service)
      → (service_destroy e s).entities.next_entity_id ≡ s.entities.next_entity_id
  unfolding service_destroy remove_all_components destroy_entity
  destroy-next e s = ground arith

  pub on_close_db-Room : (ch n : ℕ) (d : DbServer) → Room n d → Room n (on_close_db ch d)
  unfolding on_close_db on_close
  on_close_db-Room ch n d r = if_cases (Room n) (must_save ch d) (λ _. after) (λ _. after)
    where
      after : Room n (record d { world = on_close ch d.world })
      after =
          let entity = entity_or_zero (find ch d.world.channel_to_entity) in
          let same = destroy-next entity d.world.service in
          if_cases
            (λ (s : Service).
              (0 < s.entities.next_entity_id) × (s.entities.next_entity_id + n < 2 ^ 32))
            (not (entity == 0) && d.world.use_ecs)
            (λ _. (omega (arith, same, r.0), omega (arith, same, r.1))) (λ _. r)

  pub reposted :
      (ch n : ℕ) (d : DbServer)
      → Fine peaceful ch n d
      → (js : List (ℕ × Job)) → Fine peaceful ch n (record d { jobs = js })
  reposted ch n d (k, r) js = (
    record {
      strand = k.strand;
      there = k.there;
      entity = k.entity;
      valid = k.valid;
      dao = k.dao;
      ecs = k.ecs;
    },
    r,
  )

  resent-Kept :
      (ch id : ℕ) (c sent : Channel) (d : DbServer)
      → find id d.world.channels ≡ some c
      → Kept peaceful ch d
      → Kept peaceful ch
          (record d { world = record d.world { channels = assign id sent d.world.channels } })
  resent-Kept ch id c sent d e k =
      let keyed = has_key-assign id ch sent d.world.channels in
      let here : has_key id d.world.channels ≡ true =
        has_key-find id d.world.channels ∙ ap is_some_of e in
      record {
        strand = λ h. elim (Bool-cases (ch == id)) [
          | inl q ↦
              k.strand (subst (λ j. has_key j d.world.channels ≡ true) (sym (==→eq ch id q)) here)
          | inr q ↦ k.strand (ground (arith, keyed, h, q))
        ];
        there = λ h. ground (arith, keyed, k.there h);
        entity = k.entity;
        valid = k.valid;
        dao = k.dao;
        ecs = k.ecs;
      }

  pub send_found_db-Fine :
      (ch n id cmd : ℕ) (bytes : List ℕ) (d : DbServer) (o : Option Channel)
      → find id d.world.channels ≡ o
      → Fine peaceful ch n d
      → Fine peaceful ch n (send_found_db id cmd bytes d o)
  unfolding send_found_db
  send_found_db-Fine ch n id cmd bytes d none e f = f
  send_found_db-Fine ch n id cmd bytes d (some c) e f =
      let sent = send (frame_for cmd bytes) c in
      let u : DbServer = record d {
        world = record d.world { channels = assign id sent d.world.channels };
      } in
      let kept = resent-Kept ch id c sent d e f.0 in
      if_cases (Fine peaceful ch n) (length c.close_calls == length sent.close_calls)
        (λ _. (kept, f.1)) (λ _. (on_close_db-Kept ch id u kept, on_close_db-Room id n u f.1))
