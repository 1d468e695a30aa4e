-- ===== src/Game/Guilds/Consistency.antt =====
-- The two tables of the guilds, one against the other.
use ecs_asio_server.Common.{
  ℕ, ◌+◌, ◌^◌, ◌<◌, ◌≤◌, ◌≡◌, refl, sym, ◌∙◌, List, [], ◌∷◌, ◌++◌, Bool, true, false, not, Option,
  none, some, ◌==◌, if◌then◌else◌, arith, if_cases, Bool-cases, inl, inr,
}
use ecs_asio_server.Common.Tables.{
  find, has_key, erase_key, assign, NoRepeat, has_key-find, find-erase_key, find-assign,
  has_key-assign, has_key-erase_key, erase_key-NoRepeat, assign-NoRepeat,
}
use ecs_asio_server.Protocol.Guild.Defs.{GuildCreateReq}
use ecs_asio_server.Game.Guilds.{
  GuildData, Guilds, Answer, no_guilds, create, join_guild, leave_guild, without, remove_member,
  is_empty,
}
use ecs_asio_server.Game.Guilds.Roster.{
  in_guild, inhabited, is_member, inhabited-members, inhabited_ext, in_guild-erase_key,
  in_guild-assign, inhabited-assign, is_member-remove_member, is_member-append,
}

-- What the list of a guild says of a channel.
abbrev pub lists : ℕ → Option GuildData → Bool
lists c none = false
lists c (some d) = is_member c d.members

pub record Consistent (s : Guilds) : Type 0 where
  -- A channel is on the list of a guild exactly if the table of the channels says so,
  pub agree : (c g : ℕ) → lists c (find g s.guilds) ≡ in_guild c g s.channel_to_guild
  -- a guild is there exactly as long as some channel is in it,
  pub known : (g : ℕ) → has_key g s.guilds ≡ inhabited g s.channel_to_guild
  -- the identifiers still to come are free,
  pub fresh : (g : ℕ) → s.next_guild_id ≤ g → has_key g s.guilds ≡ false
  -- and no channel is in two guilds.
  pub single : NoRepeat s.channel_to_guild

pub no_guilds-Consistent : Consistent no_guilds
unfolding find in_guild has_key inhabited
no_guilds-Consistent = record {
  agree = λ c g. refl;
  known = λ g. refl;
  fresh = λ g h. refl;
  single = tt;
}

module _ (s : Guilds) (v : Consistent s) where
  in_guild_absent :
      (c g : ℕ) → has_key c s.channel_to_guild ≡ false → in_guild c g s.channel_to_guild ≡ false
  unfolding in_guild
  in_guild_absent c g h = ground (arith, has_key-find c s.channel_to_guild)

  lists_absent : (c g : ℕ) → has_key g s.guilds ≡ false → in_guild c g s.channel_to_guild ≡ false
  lists_absent c g h = sym (v.agree c g) ∙ ground (arith, has_key-find g s.guilds)

  -- A state whose tables list the channel `c` for `g` too.
  module _ (c g : ℕ) (out : has_key c s.channel_to_guild ≡ false) (d : GuildData)
      (listed : (x : ℕ)
        → is_member x d.members ≡ (if x == c then true else in_guild x g s.channel_to_guild)) where
    enter-agree :
        (x h : ℕ)
        → lists x (find h (assign g d s.guilds)) ≡ in_guild x h (assign c g s.channel_to_guild)
    enter-agree x h = ground (
      arith,
      find-assign g h d s.guilds,
      in_guild-assign c x g h s.channel_to_guild,
      listed x,
      v.agree x h,
      in_guild_absent c h out,
    )

    enter-known :
        (h : ℕ) → has_key h (assign g d s.guilds) ≡ inhabited h (assign c g s.channel_to_guild)
    enter-known h = ground (
      arith,
      has_key-assign g h d s.guilds,
      inhabited-assign c g h s.channel_to_guild out,
      v.known h,
    )

    enter_fresh :
        (h : ℕ)
        → has_key h s.guilds ≡ false
        → (h == g) ≡ false
        → has_key h (assign g d s.guilds) ≡ false
    enter_fresh h e n = ground (arith, has_key-assign g h d s.guilds)

pub create-Consistent :
    (c : ℕ) (req : GuildCreateReq) (s : Guilds)
    → Consistent s
    → s.next_guild_id + 1 < 2 ^ 32
    → Consistent (create c req s).0
unfolding create
create-Consistent c req s v room =
    if_cases (λ (r : Guilds × Answer). Consistent r.0) (has_key c s.channel_to_guild) (λ _. v)
      λ out. record {
        agree = enter-agree s v c s.next_guild_id out _ (first out);
        known = enter-known s v c s.next_guild_id out _ (first out);
        fresh = λ g h.
            enter_fresh s v c s.next_guild_id out _ (first out) g (v.fresh g (omega (arith, room)))
              (ground (arith, room));
        single = assign-NoRepeat c s.next_guild_id s.channel_to_guild v.single;
      }
  where
    first :
        has_key c s.channel_to_guild ≡ false
        → (x : ℕ)
        → is_member x (c ∷ [])
          ≡ (if x == c then true else in_guild x s.next_guild_id s.channel_to_guild)
    first out x =
        unfold is_member in
        ground (arith, lists_absent s v x s.next_guild_id (v.fresh s.next_guild_id (omega arith)))

pub join_guild-Consistent :
    (c g : ℕ) (s : Guilds) (o : Option GuildData)
    → find g s.guilds ≡ o
    → Consistent s
    → Consistent (join_guild c g s o).0
unfolding join_guild
join_guild-Consistent c g s none e v = v
join_guild-Consistent c g s (some d) e v =
    if_cases (λ (r : Guilds × Answer). Consistent r.0) (has_key c s.channel_to_guild) (λ _. v)
      λ out. record {
        agree = enter-agree s v c g out _ longer;
        known = enter-known s v c g out _ longer;
        fresh = λ h l.
            enter_fresh s v c g out _ longer h (v.fresh h l)
              (ground (arith, has_key-find g s.guilds, v.fresh g, v.fresh h));
        single = assign-NoRepeat c g s.channel_to_guild v.single;
      }
  where
    longer :
        (x : ℕ)
        → is_member x (d.members ++ (c ∷ []))
          ≡ (if x == c then true else in_guild x g s.channel_to_guild)
    longer x = ground (arith, is_member-append c x d.members, v.agree x g, e)

empty_list : (x : ℕ) (ms : List ℕ) → is_empty ms ≡ true → is_member x ms ≡ false
unfolding is_member
empty_list x [] h = refl
empty_list x (y ∷ ms) h = cc

-- The channel `c` leaves the guild `g`, which has `d`.
module _ (s : Guilds) (v : Consistent s) (c g : ℕ) (e : find c s.channel_to_guild ≡ some g) where
  rest_members :
      (d : GuildData)
      → find g s.guilds ≡ some d
      → (x : ℕ)
      → is_member x (remove_member c d.members) ≡ in_guild x g (erase_key c s.channel_to_guild)
  rest_members d f x = ground (
    arith,
    is_member-remove_member c x d.members,
    in_guild-erase_key c x g s.channel_to_guild,
    v.agree x g,
    f,
  )

  others_stay :
      (h x : ℕ)
      → (h == g) ≡ false
      → in_guild x h (erase_key c s.channel_to_guild) ≡ in_guild x h s.channel_to_guild
  unfolding in_guild
  others_stay h x n = ground (arith, find-erase_key c x s.channel_to_guild, e)

  found : (o : Option GuildData) → find g s.guilds ≡ o → (d : GuildData) × (o ≡ some d)
  unfolding in_guild
  found none f = absurd (ground (arith, v.agree c g, f, e))
  found (some d) f = (d, refl)

  left : NoRepeat (erase_key c s.channel_to_guild)
  left = erase_key-NoRepeat c s.channel_to_guild v.single

  module _ (d : GuildData) (f : find g s.guilds ≡ some d) where
    left-inhabited :
        (h : ℕ)
        → inhabited h (erase_key c s.channel_to_guild) ≡ (
            if h == g
            then not (is_empty (remove_member c d.members))
            else inhabited h s.channel_to_guild)
    left-inhabited h = elim (Bool-cases (h == g)) [
      | inl q ↦
          let same : h ≡ g = ground arith in
          rw q (
            rw same (
              inhabited-members g (erase_key c s.channel_to_guild) (remove_member c d.members) left
                (rest_members d f)))
      | inr q ↦ rw q (
          inhabited_ext h (erase_key c s.channel_to_guild) s.channel_to_guild left v.single
            (λ x. others_stay h x q))
    ]

    left-agree :
        (x h : ℕ)
        → lists x (find h (without c g s.guilds (some d)))
          ≡ in_guild x h (erase_key c s.channel_to_guild)
    unfolding without
    left-agree x h = elim (Bool-cases (h == g)) [
      | inl q ↦
          let same : h ≡ g = ground arith in
          rw (same, ← rest_members d f x)
            (ground (
              arith,
              find-erase_key g g s.guilds,
              find-assign g g (record d { members = remove_member c d.members }) s.guilds,
              empty_list x (remove_member c d.members),
            ))
      | inr q ↦ rw (others_stay h x q) (
          ground (
            arith,
            q,
            find-erase_key g h s.guilds,
            find-assign g h (record d { members = remove_member c d.members }) s.guilds,
            v.agree x h,
          ))
    ]

    left-known :
        (h : ℕ)
        → has_key h (without c g s.guilds (some d)) ≡ inhabited h (erase_key c s.channel_to_guild)
    unfolding without
    left-known h = ground (
      arith,
      left-inhabited h,
      v.known h,
      has_key-erase_key g h s.guilds,
      has_key-assign g h (record d { members = remove_member c d.members }) s.guilds,
    )

    left-fresh : (h : ℕ) → s.next_guild_id ≤ h → has_key h (without c g s.guilds (some d)) ≡ false
    unfolding without
    left-fresh h l = ground (
      arith,
      v.fresh h l,
      v.fresh g,
      has_key-find g s.guilds,
      f,
      has_key-erase_key g h s.guilds,
      has_key-assign g h (record d { members = remove_member c d.members }) s.guilds,
    )

pub leave_guild-Consistent :
    (c : ℕ) (s : Guilds) (o : Option ℕ)
    → find c s.channel_to_guild ≡ o
    → Consistent s
    → Consistent (leave_guild c s o).0
unfolding leave_guild
leave_guild-Consistent c s none e v = v
leave_guild-Consistent c s (some g) e v =
    let (d, f) = found s v c g e (find g s.guilds) refl in
    rw f (record {
      agree = left-agree s v c g e d f;
      known = left-known s v c g e d f;
      fresh = left-fresh s v c g e d f;
      single = erase_key-NoRepeat c s.channel_to_guild v.single;
    })
