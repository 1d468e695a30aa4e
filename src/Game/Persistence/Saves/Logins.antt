-- ===== src/Game/Persistence/Saves/Logins.antt =====
-- What a login with the database leaves of the channels (handlers/player_handlers.cpp).
use ecs_asio_server.Common.{
  ℕ, suc, ◌+◌, ◌^◌, ◌<◌, ◌≡◌, refl, sym, ap, ◌∙◌, subst, List, Bool, true, false, Option, none,
  some, ◌==◌, if◌then◌else◌, arith, if_cases, Bool-cases, inl, ==→eq, inr,
}
use ecs_asio_server.Common.Tables.{find, has_key, assign, is_some_of, find-assign}
use ecs_asio_server.Ecs.Entities.{create_entity}
use ecs_asio_server.Game.World.{World, Service}
use ecs_asio_server.Game.Net.{entity_or_zero}
use ecs_asio_server.Game.Persistence.{
  DbServer, Found, PlayerRecord, positive, send_db, spawn_record, enter_record, welcome, on_found,
  answer_login,
}
use ecs_asio_server.Game.Persistence.Saves.{Kept, Fine, send_found_db-Fine}

spawned_next :
    (id : ℕ) (name : List ℕ) (rec : PlayerRecord) (s : Service)
    → s.entities.next_entity_id + 1 < 2 ^ 32
    → ((spawn_record id name rec s).0.entities.next_entity_id ≡ s.entities.next_entity_id + 1)
      × ((spawn_record id name rec s).1 ≡ s.entities.next_entity_id)
unfolding spawn_record create_entity
spawned_next id name rec s h = (omega arith, refl)

module _ (peaceful : Bool) where
  -- The entity of a login, with its identifier in the first case.
  entered-Kept :
      (ch id made : ℕ) (w : World) (rec : PlayerRecord) (d : DbServer)
      → has_key id d.world.channels ≡ true
      → (made == 0) ≡ false
      → w.channels ≡ d.world.channels
      → w.use_ecs ≡ d.world.use_ecs
      → w.channel_to_entity ≡ assign id made d.world.channel_to_entity
      → Kept peaceful ch d
      → Kept peaceful ch (record d {
        world = w;
        channel_to_db_id =
            if positive rec.id then assign id rec.id d.channel_to_db_id else d.channel_to_db_id;
      })
  entered-Kept ch id made w rec d here some_entity chans ecs ents k =
      let same_keys = ap (has_key ch) chans in
      let entities = ap (find ch) ents ∙ find-assign id ch made d.world.channel_to_entity in
      let strand = λ (h : has_key ch w.channels ≡ true). k.strand (sym same_keys ∙ h) in
      let Q =
        λ (ids : List (ℕ × ℕ)). Kept peaceful ch (record d { world = w; channel_to_db_id = ids }) in
      if_cases Q (positive rec.id)
        (λ good.
          let ids = find-assign id ch rec.id d.channel_to_db_id in
          record {
            strand = strand;
            there = λ h. elim (Bool-cases (ch == id)) [
              | inl q ↦
                  same_keys
                  ∙ subst (λ j. has_key j d.world.channels ≡ true) (sym (==→eq ch id q)) here
              | inr q ↦ same_keys ∙ k.there (ground (arith, ids, h, q))
            ];
            entity = λ calm h. elim (Bool-cases (ch == id)) [
              | inl q ↦ ground (arith, entities, q, some_entity)
              | inr q ↦ ground (arith, entities, q, k.entity calm (ground (arith, ids, h, q)))
            ];
            valid = λ h. elim (Bool-cases (ch == id)) [
              | inl q ↦
                  let e : find ch (assign id rec.id d.channel_to_db_id) ≡ some rec.id =
                    ground (arith, ids, q) in
                  ap (λ o. positive (entity_or_zero o)) e ∙ good
              | inr q ↦
                  let e : find ch (assign id rec.id d.channel_to_db_id)
                      ≡ find ch d.channel_to_db_id =
                    ground (arith, ids, q) in
                  ap (λ o. positive (entity_or_zero o)) e ∙ k.valid (sym (ap is_some_of e) ∙ h)
            ];
            dao = k.dao;
            ecs = ecs ∙ k.ecs;
          })
        (λ _. record {
          strand = strand;
          there = λ h. same_keys ∙ k.there h;
          entity = λ calm h. elim (Bool-cases (ch == id)) [
            | inl q ↦ ground (arith, entities, q, some_entity)
            | inr q ↦ ground (arith, entities, q, k.entity calm h)
          ];
          valid = k.valid;
          dao = k.dao;
          ecs = ecs ∙ k.ecs;
        })

  enter_record-Fine :
      (ch n id : ℕ) (name : List ℕ) (rec : PlayerRecord) (d : DbServer)
      → has_key id d.world.channels ≡ true
      → Fine peaceful ch (suc n) d
      → Fine peaceful ch n (enter_record id name rec d).0
  unfolding enter_record
  enter_record-Fine ch n id name rec d here (k, r) =
      let made = (spawn_record id name rec d.world.service).1 in
      let (next, first) = spawned_next id name rec d.world.service (omega (arith, r.1)) in
      if_cases (λ (p : DbServer × ℕ). Fine peaceful ch n p.0) d.world.use_ecs
        (λ _. (
          entered-Kept ch id made _ rec d here (ground (arith, first, r.0)) refl refl refl k,
          (omega (arith, next, r.0), omega (arith, next, r.1)),
        ))
        (λ no. absurd (ground (arith, k.ecs, no)))

  pub on_found-Fine :
      (ch n : ℕ) (f : Found) (d : DbServer)
      → Fine peaceful ch (suc n) d
      → Fine peaceful ch n (on_found f d)
  unfolding on_found
  on_found-Fine ch n f d fine =
      let less : Fine peaceful ch n d = (fine.0, (fine.1.0, omega (arith, fine.1.1))) in
      if_cases (Fine peaceful ch n) (has_key f.channel_id d.world.channels)
        (λ here. answered f.rec here) (λ _. less)
    where
      answered :
          (r : Option PlayerRecord)
          → has_key f.channel_id d.world.channels ≡ true
          → Fine peaceful ch n (answer_login f.channel_id f.player_name r d)
      answered none here =
          unfold send_db in
          send_found_db-Fine peaceful ch n f.channel_id 1001 _ d _ refl
            (fine.0, (fine.1.0, omega (arith, fine.1.1)))
      answered (some rec) here =
          unfold welcome send_db in
          send_found_db-Fine peaceful ch n f.channel_id 1001 _ _ _ refl
            (enter_record-Fine ch n f.channel_id f.player_name rec d here fine)
