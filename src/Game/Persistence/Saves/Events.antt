-- ===== src/Game/Persistence/Saves/Events.antt =====
-- Which players of the database leave with a save (game_server.cpp, handlers/player_handlers.cpp).
use ecs_asio_server.Common.{
  ℕ, suc, ◌+◌, ◌^◌, ◌<◌, ◌≡◌, refl, sym, ap, ◌∙◌, subst, List, [], ◌∷◌, ◌++◌, Bool, true, false,
  not, ◌&&◌, Option, none, some, ◌==◌, length, if◌then◌else◌, arith, if_cases, Bool-cases, inl, inr,
}
use ecs_asio_server.Common.Tables.{find, has_key, is_some_of, adjust, has_key-adjust}
use ecs_asio_server.Channel.{Channel}
use ecs_asio_server.Ecs.Entities.{create_entity, contains}
use ecs_asio_server.Protocol.Base.Defs.{LoginReq}
use ecs_asio_server.Game.World.{World}
use ecs_asio_server.Game.Net.{accept, entity_or_zero}
use ecs_asio_server.Game.Persistence.{
  DbServer, save, Found, to_save, on_accept_db, on_close_db, must_save, send_db, on_found, login_db,
}
use ecs_asio_server.Game.Persistence.Jobs.{flush_players}
use ecs_asio_server.Game.Persistence.Saves.{
  known, Kept, Fine, on_accept_db-Kept, on_close_db-Kept, on_close_db-Room, reposted,
  send_found_db-Fine,
}
use ecs_asio_server.Game.Players.Attack.{handle_attack}
use ecs_asio_server.Game.Net.{◌>>=◌}
use ecs_asio_server.Game.Server.Effects.{Returns}
use ecs_asio_server.Game.Persistence.Saves.Attacks.{SameKeys, handle_attack-SameKeys}
use ecs_asio_server.Game.Persistence.Saves.Logins.{on_found-Fine}

-- What happens to a server with a database. `asks` is a login, `finds` the answer of the database to
-- it, and `sends` a frame to a client. `stirs` is what a channel does by itself, its reads, writes and
-- timers. `changes` stands for the other frames of clients and for the threads of the maps: it may
-- change the world, but not the channels, which of them has which entity, the counter of the entities
-- or use_ecs. `spawns` is a new entity that no channel has.
pub data Event : Type 0 where
  accepts : ℕ → Event
  closes : ℕ → Event
  asks : ℕ → LoginReq → Event
  finds : Found → Event
  attacks : ℕ → List ℕ → Event
  sends : ℕ → ℕ → List ℕ → Event
  stirs : ℕ → (Channel → Channel) → Event
  changes : (World → World) → Event
  spawns : Event
  flushes : Event

abbrev pub changed : World → World → World
changed w u = record u {
  channels = w.channels;
  channel_to_entity = w.channel_to_entity;
  use_ecs = w.use_ecs;
  service = record u.service { entities = w.service.entities };
}

abbrev pub with_new_entity : World → World
with_new_entity w = record w {
  service = record w.service { entities = (create_entity w.service.entities).0 };
}

abbrev pub attacked : DbServer → Option World → Option DbServer
attacked d none = none
attacked d (some w) = some (record d { world = w })

-- None if the handler of an attack locks mtx_ twice and does not return.
unfoldable pub event : Event → DbServer → Option DbServer
event (accepts now) d = some (on_accept_db now d)
event (closes channel_id) d = some (on_close_db channel_id d)
event (asks channel_id req) d = some (login_db channel_id req d)
event (finds f) d = some (on_found f d)
event (attacks channel_id bytes) d = attacked d (handle_attack channel_id bytes d.world)
event (sends channel_id cmd bytes) d = some (send_db channel_id cmd bytes d)
event (stirs channel_id f) d =
    some (record d { world = record d.world { channels = adjust channel_id f d.world.channels } })
event (changes f) d = some (record d { world = changed d.world (f d.world) })
event spawns d = some (record d { world = with_new_entity d.world })
event flushes d = some (flush_players d)

unfoldable pub events : List Event → DbServer → Option DbServer
events [] d = some d
events (e ∷ es) d = event e d >>= λ d'. events es d'

abbrev pub is_attack : Event → Bool
is_attack (attacks channel_id bytes) = true
is_attack _ = false

abbrev pub is_peaceful : List Event → Bool
is_peaceful [] = true
is_peaceful (e ∷ es) = not (is_attack e) && is_peaceful es

abbrev Leaves : (DbServer → Type 0) → Option DbServer → Type 0
Leaves P none = Unit {0}
Leaves P (some d) = P d

module _ (peaceful : Bool) where
  attacked-Fine :
      (ch n : ℕ) (d : DbServer) (r : Option World)
      → Returns (SameKeys d.world) r
      → peaceful ≡ false
      → Fine peaceful ch n d
      → Leaves (Fine peaceful ch n) (attacked d r)
  attacked-Fine ch n d none h p f = tt
  attacked-Fine ch n d (some w) h p (k, r) = (
    record {
      strand = λ j. k.strand (sym (h.0 ch) ∙ j);
      there = λ j. h.0 ch ∙ k.there j;
      entity = λ calm. absurd (ground (arith, p, calm));
      valid = k.valid;
      dao = k.dao;
      ecs = h.1 ∙ k.ecs;
    },
    (omega (arith, h.2, r.0), omega (arith, h.2, r.1)),
  )

  event-Fine :
      (ch n : ℕ) (e : Event) (d : DbServer)
      → (peaceful && is_attack e) ≡ false
      → Fine peaceful ch (suc n) d
      → Leaves (Fine peaceful ch n) (event e d)
  unfolding event login_db flush_players on_accept_db accept create_entity
  event-Fine ch n e d calm (k, (above, below)) = go e calm
    where
      less : Fine peaceful ch n d
      less = (k, (above, omega (arith, below)))

      same : (u : World) → Kept peaceful ch (record d { world = changed d.world u })
      same u = record {
        strand = k.strand;
        there = k.there;
        entity = k.entity;
        valid = k.valid;
        dao = k.dao;
        ecs = k.ecs;
      }

      go : (e : Event) → (peaceful && is_attack e) ≡ false → Leaves (Fine peaceful ch n) (event e d)
      go (accepts now) q = (on_accept_db-Kept peaceful ch now d k, less.1)
      go (closes id) q =
          (on_close_db-Kept peaceful ch id d k, on_close_db-Room peaceful id n d less.1)
      go (asks id req) q =
          if_cases (Fine peaceful ch n) d.has_dao
            (λ _.
              if_cases (Fine peaceful ch n) (contains id d.db_strands)
                (λ _. reposted peaceful ch n d less _) (λ _. less))
            (λ no. absurd (ground (arith, k.dao, no)))
      go (finds f) q = on_found-Fine peaceful ch n f d (k, (above, below))
      go (attacks id bytes) q =
          attacked-Fine ch n d (handle_attack id bytes d.world)
            (handle_attack-SameKeys id bytes d.world) (ground (arith, q)) less
      go (sends id cmd bytes) q =
          unfold send_db in send_found_db-Fine peaceful ch n id cmd bytes d _ refl less
      go (stirs id f) q =
          let keys = has_key-adjust id ch f d.world.channels in
          (
            record {
              strand = λ h. k.strand (sym keys ∙ h);
              there = λ h. keys ∙ k.there h;
              entity = k.entity;
              valid = k.valid;
              dao = k.dao;
              ecs = k.ecs;
            },
            less.1,
          )
      go (changes f) q = (same (f d.world), less.1)
      go spawns q = (
        record {
          strand = k.strand;
          there = k.there;
          entity = k.entity;
          valid = k.valid;
          dao = k.dao;
          ecs = k.ecs;
        },
        (omega (arith, above, below), omega (arith, above, below)),
      )
      go flushes q =
          if_cases (Fine peaceful ch n) d.has_dao (λ _. reposted peaceful ch n d less _) (λ _. less)

  events-Fine :
      (ch : ℕ) (es : List Event) (d : DbServer)
      → (peaceful && not (is_peaceful es)) ≡ false
      → Fine peaceful ch (length es) d
      → Leaves (Fine peaceful ch 0) (events es d)
  unfolding events
  events-Fine ch [] d q f = f
  events-Fine ch (e ∷ es) d q f =
      go_on es (event e d) (event-Fine ch (length es) e d (ground (arith, q)) f)
        (λ d' h. events-Fine ch es d' (ground (arith, q)) h)
    where
      go_on :
          (es : List Event) (r : Option DbServer)
          → Leaves (Fine peaceful ch (length es)) r
          → ((d' : DbServer)
              → Fine peaceful ch (length es) d'
              → Leaves (Fine peaceful ch 0) (events es d'))
          → Leaves (Fine peaceful ch 0) (r >>= λ d'. events es d')
      go_on es none h g = tt
      go_on es (some d') h g = g d' h

-- The database of a server that starts is there, and no one is on it.
abbrev pub Starts : DbServer → Type 0
Starts d =
    (d.has_dao ≡ true)
    × (d.world.use_ecs ≡ true)
    × (d.world.channels ≡ [])
    × (d.channel_to_db_id ≡ [])
    × (0 < d.world.service.entities.next_entity_id)

starts-Kept : (peaceful : Bool) (ch : ℕ) (d : DbServer) → Starts d → Kept peaceful ch d
unfolding find has_key
starts-Kept peaceful ch d (dao, ecs, none_there, none_known, _) =
    let nobody : known ch d ≡ false = ap (λ ids. is_some_of (find ch ids)) none_known in
    let empty : has_key ch d.world.channels ≡ false = ap (has_key ch) none_there in
    record {
      strand = λ h. absurd (ground (arith, empty, h));
      there = λ h. absurd (ground (arith, nobody, h));
      entity = λ _ h. absurd (ground (arith, nobody, h));
      valid = λ h. absurd (ground (arith, nobody, h));
      dao = dao;
      ecs = ecs;
    }

kept-must_save :
    (peaceful : Bool) (ch : ℕ) (d : DbServer)
    → Kept peaceful ch d
    → known ch d ≡ true
    → must_save ch d ≡ not (entity_or_zero (find ch d.world.channel_to_entity) == 0)
kept-must_save peaceful ch d k h =
    let strand = k.strand (k.there h) in let valid = k.valid h in rw (strand, k.dao, valid) refl

-- A server with a database starts without channels, with an entity counter above 0 that the events do
-- not bring to 2 ^ 32. Whatever connections, closes, logins, answers of the database, attacks, frames
-- to clients, changes of a channel, other changes of the world that leave the channels and their
-- entities, new entities and flushes follow, in any order, with every handler returning: if a channel
-- has an identifier of the database then, it is still there, and its close posts one save, of that
-- identifier and of the entity that the channel has, if it has one, and nothing if it has none. It has
-- one if no attack was among the events.
pub events-on_close_db :
    (ch : ℕ) (es : List Event) (d e : DbServer)
    → Starts d
    → d.world.service.entities.next_entity_id + length es < 2 ^ 32
    → events es d ≡ some e
    → known ch e ≡ true
    → let db_id = entity_or_zero (find ch e.channel_to_db_id) in
      let entity = entity_or_zero (find ch e.world.channel_to_entity) in
      (has_key ch e.world.channels ≡ true)
      × ((on_close_db ch e).jobs ≡ (
          if entity == 0
          then e.jobs
          else e.jobs ++ ((ch, save (to_save db_id entity e.world.service)) ∷ [])))
      × ((is_peaceful es && (entity == 0)) ≡ false)
unfolding on_close_db
events-on_close_db ch es d e starts room left h =
    let peaceful = is_peaceful es in
    let fine : Fine peaceful ch 0 e = subst (Leaves (Fine peaceful ch 0)) left (
      events-Fine peaceful ch es d (ground arith)
        (starts-Kept peaceful ch d starts, (starts.4, room))) in
    let k = fine.0 in
    let saves = kept-must_save peaceful ch e k h in
    let entity = entity_or_zero (find ch e.world.channel_to_entity) in
    (
      k.there h,
      if_cases (λ js. (on_close_db ch e).jobs ≡ js) (entity == 0) (λ q. rw (saves, q) refl)
          (λ q. rw (saves, q) refl),
      elim (Bool-cases peaceful) [
        | inl q ↦ ground (arith, k.entity q h)
        | inr q ↦ ground (arith, q)
      ],
    )
