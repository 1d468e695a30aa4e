-- ===== src/Game/Guilds/Refinement.antt =====
-- The handlers against a specification that keeps one table: which channel is in which guild.
use ecs_asio_server.Common.{
  ℕ, ◌+◌, ◌%◌, ◌^◌, ◌<◌, ◌≤◌, ◌≡◌, refl, ap, ◌∙◌, List, [], ◌∷◌, true, false, Option, none, some,
  length, if◌then◌else◌, arith, Bool-cases, inl, inr,
}
use ecs_asio_server.Common.Tables.{find, has_key, erase_key, assign, has_key-find}
use ecs_asio_server.Protocol.Guild.Defs.{
  GuildCreateReq, parse_guild_create_req, GuildJoinReq, parse_guild_join_req,
}
use ecs_asio_server.Wire.{Parsed, ok, reject, fault}
use ecs_asio_server.Game.Guilds.{
  GuildData, Guilds, Answer, create, create_answer, join, join_guild, join_answer, leave_answer,
  leave_guild, text_ok, already_in_a_guild, guild_not_found, handle_guild_create, handle_guild_join,
  handle_guild_leave,
}
use ecs_asio_server.Game.Guilds.Roster.{inhabited}
use ecs_asio_server.Game.Guilds.Consistency.{
  Consistent, create-Consistent, join_guild-Consistent, leave_guild-Consistent,
}

-- What the channels ask for, once parsed.
pub data Request : Type 0 where
  creates : ℕ → GuildCreateReq → Request
  joins : ℕ → GuildJoinReq → Request
  leaves : ℕ → Request

unfoldable pub serve : Request → Guilds → Guilds × Answer
serve (creates c req) s = create c req s
serve (joins c req) s = join c req s
serve (leaves c) s = leave_guild c s (find c s.channel_to_guild)

-- A frame for one of the handlers: the channel and the payload.
pub data Packet : Type 0 where
  create_packet join_packet leave_packet : ℕ → List ℕ → Packet

-- The binding of bind_guild_handlers.
unfoldable pub handle : Packet → Guilds → Guilds × Answer
handle (create_packet c bytes) s = handle_guild_create c bytes s
handle (join_packet c bytes) s = handle_guild_join c bytes s
handle (leave_packet c bytes) s = handle_guild_leave c bytes s

-- The answers to a row of frames, and the state behind them.
abbrev pub handle_all : List Packet → Guilds → Guilds × List Answer
handle_all [] s = (s, [])
handle_all (p ∷ ps) s =
    let (s1, a) = handle p s in let (s2, answers) = handle_all ps s1 in (s2, a ∷ answers)

abbrev created : ℕ → Parsed GuildCreateReq → Option Request
created c (ok req rest) = some (creates c req)
created c reject = none
created c fault = none

abbrev joined : ℕ → Parsed GuildJoinReq → Option Request
joined c (ok req rest) = some (joins c req)
joined c reject = none
joined c fault = none

-- What a frame asks for; a payload that does not parse asks for nothing.
abbrev pub request_of : Packet → Option Request
request_of (create_packet c bytes) = created c (parse_guild_create_req bytes)
request_of (join_packet c bytes) = joined c (parse_guild_join_req bytes)
request_of (leave_packet c bytes) = some (leaves c)

-- The specification: a table from channels to guilds, and the next identifier. A guild is nothing but
-- the channels in it.
pub record Spec : Type 0 where
  pub guild_of : List (ℕ × ℕ)
  pub next : ℕ

abbrev spec_serve : Request → Spec → Spec × Answer
spec_serve (creates c req) t =
    if has_key c t.guild_of then (t, create_answer false already_in_a_guild 0) else (
      record { guild_of = assign c t.next t.guild_of; next = (t.next + 1) % 2 ^ 32 },
      create_answer true text_ok t.next,
    )
spec_serve (joins c req) t =
    if inhabited req.guild_id t.guild_of
    then if has_key c t.guild_of
      then (t, join_answer false already_in_a_guild)
      else (record t { guild_of = assign c req.guild_id t.guild_of }, join_answer true text_ok)
    else (t, join_answer false guild_not_found)
spec_serve (leaves c) t =
    if has_key c t.guild_of
    then (record t { guild_of = erase_key c t.guild_of }, leave_answer)
    else (t, none)

abbrev spec_asked : Option Request → Spec → Spec × Answer
spec_asked none t = (t, none)
spec_asked (some r) t = spec_serve r t

abbrev pub spec_handle_all : List Packet → Spec → Spec × List Answer
spec_handle_all [] t = (t, [])
spec_handle_all (p ∷ ps) t =
    let (t1, a) = spec_asked (request_of p) t in
    let (t2, answers) = spec_handle_all ps t1 in (t2, a ∷ answers)

abbrev pub view : Guilds → Spec
view s = record { guild_of = s.channel_to_guild; next = s.next_guild_id }

serve-Consistent :
    (r : Request) (s : Guilds)
    → Consistent s
    → s.next_guild_id + 1 < 2 ^ 32
    → Consistent (serve r s).0
unfolding serve join
serve-Consistent (creates c req) s v h = create-Consistent c req s v h
serve-Consistent (joins c req) s v h =
    join_guild-Consistent c req.guild_id s (find req.guild_id s.guilds) refl v
serve-Consistent (leaves c) s v h = leave_guild-Consistent c s (find c s.channel_to_guild) refl v

-- How far one request moves the next identifier.
serve_next :
    (r : Request) (s : Guilds)
    → s.next_guild_id + 1 < 2 ^ 32
    → (serve r s).0.next_guild_id ≤ s.next_guild_id + 1
unfolding serve create join
serve_next (creates c req) s h = ground arith
serve_next (joins c req) s h = found_guild (find req.guild_id s.guilds)
  where
    found_guild :
        (o : Option GuildData)
        → (join_guild c req.guild_id s o).0.next_guild_id ≤ s.next_guild_id + 1
    found_guild none = unfold join_guild in omega arith
    found_guild (some d) = unfold join_guild in ground arith
serve_next (leaves c) s h = left (find c s.channel_to_guild)
  where
    left : (o : Option ℕ) → (leave_guild c s o).0.next_guild_id ≤ s.next_guild_id + 1
    left none = unfold leave_guild in omega arith
    left (some g) = unfold leave_guild in omega arith

serve_refines :
    (r : Request) (s : Guilds)
    → Consistent s
    → (view (serve r s).0, (serve r s).1) ≡ spec_serve r (view s)
unfolding serve create join
serve_refines (creates c req) s v = elim (Bool-cases (has_key c s.channel_to_guild)) [
  | inl q ↦ rw q refl
  | inr q ↦ rw q refl
]
serve_refines (joins c req) s v = found_guild (find req.guild_id s.guilds) refl
  where
    found_guild :
        (o : Option GuildData)
        → find req.guild_id s.guilds ≡ o
        → (view (join_guild c req.guild_id s o).0, (join_guild c req.guild_id s o).1)
          ≡ spec_serve (joins c req) (view s)
    found_guild none e =
        let q : inhabited req.guild_id s.channel_to_guild ≡ false =
          ground (arith, v.known req.guild_id, has_key-find req.guild_id s.guilds) in
        unfold join_guild in rw q refl
    found_guild (some d) e =
        let q : inhabited req.guild_id s.channel_to_guild ≡ true =
          ground (arith, v.known req.guild_id, has_key-find req.guild_id s.guilds) in
        unfold join_guild in
        rw q (elim (Bool-cases (has_key c s.channel_to_guild)) [
          | inl k ↦ rw k refl
          | inr k ↦ rw k refl
        ])
serve_refines (leaves c) s v = left (find c s.channel_to_guild) refl
  where
    left :
        (o : Option ℕ)
        → find c s.channel_to_guild ≡ o
        → (view (leave_guild c s o).0, (leave_guild c s o).1) ≡ spec_serve (leaves c) (view s)
    left none e =
        let q : has_key c s.channel_to_guild ≡ false =
          ground (arith, has_key-find c s.channel_to_guild) in
        unfold leave_guild in rw q refl
    left (some g) e =
        let q : has_key c s.channel_to_guild ≡ true =
          ground (arith, has_key-find c s.channel_to_guild) in
        unfold leave_guild in rw q refl

abbrev asked : Option Request → Guilds → Guilds × Answer
asked none s = (s, none)
asked (some r) s = serve r s

handle-asked : (p : Packet) (s : Guilds) → handle p s ≡ asked (request_of p) s
unfolding handle handle_guild_create handle_guild_join handle_guild_leave serve
handle-asked (create_packet c bytes) s = by_parse (parse_guild_create_req bytes)
  where
    by_parse :
        (x : Parsed GuildCreateReq)
        → (elim x [ ok req rest ↦ create c req s | reject ↦ (s, none) | fault ↦ (s, none) ])
          ≡ asked (created c x) s
    by_parse (ok req rest) = refl
    by_parse reject = refl
    by_parse fault = refl
handle-asked (join_packet c bytes) s = by_parse (parse_guild_join_req bytes)
  where
    by_parse :
        (x : Parsed GuildJoinReq)
        → (elim x [ ok req rest ↦ join c req s | reject ↦ (s, none) | fault ↦ (s, none) ])
          ≡ asked (joined c x) s
    by_parse (ok req rest) = refl
    by_parse reject = refl
    by_parse fault = refl
handle-asked (leave_packet c bytes) s = refl

module _ (s : Guilds) (v : Consistent s) (h : s.next_guild_id + 1 < 2 ^ 32) where
  asked-Consistent : (o : Option Request) → Consistent (asked o s).0
  asked-Consistent none = v
  asked-Consistent (some r) = serve-Consistent r s v h

  asked_next : (o : Option Request) → (asked o s).0.next_guild_id ≤ s.next_guild_id + 1
  asked_next none = omega arith
  asked_next (some r) = serve_next r s h

  asked_refines : (o : Option Request) → (view (asked o s).0, (asked o s).1) ≡ spec_asked o (view s)
  asked_refines none = refl
  asked_refines (some r) = serve_refines r s v

-- Whatever bytes the channels send to the guild handlers, as long as fewer frames come than there are
-- identifiers left, the tables stay consistent: a channel is on a guild's list exactly if the other table
-- says so, a guild is there exactly as long as some channel is in it, and no channel is in two. The
-- answers are those of the specification that keeps only which channel is in which guild, and so is the
-- table behind them.
pub handle_all_refines :
    (ps : List Packet) (s : Guilds)
    → Consistent s
    → s.next_guild_id + length ps < 2 ^ 32
    → Consistent (handle_all ps s).0
      × ((view (handle_all ps s).0, (handle_all ps s).1) ≡ spec_handle_all ps (view s))
handle_all_refines [] s v h = (v, refl)
handle_all_refines (p ∷ ps) s v h =
    let e = handle-asked p s in
    let one : s.next_guild_id + 1 < 2 ^ 32 = omega (arith, h) in
    let (w, f) =
      handle_all_refines ps (handle p s).0 (rw e (asked-Consistent s v one (request_of p))) (
        omega (
          arith,
          h,
          asked_next s v one (request_of p),
          ap (λ (q : Guilds × Answer). q.0.next_guild_id) e,
        )) in
    (
      w,
      ap (λ (q : Spec × List Answer). (q.0, (handle p s).1 ∷ q.1)) f
          ∙ ap
              (λ (q : Spec × Answer).
                ((spec_handle_all ps q.0).0, q.1 ∷ (spec_handle_all ps q.0).1))
              (ap (λ (q : Guilds × Answer). (view q.0, q.1)) e
                ∙ asked_refines s v one (request_of p)),
    )
