-- ===== src/Game/Guilds.antt =====
-- server/game/handlers/guild_handlers.cpp: the guilds in memory and the three handlers. Each holds
-- guild_mutex_ from its first access to its end, and answers at most once: the result is the command
-- and the payload that send_test_frame is given. A channel id is the 32-bit pattern of an int.
pub mod Roster
pub mod Consistency
pub mod Refinement
use ecs_asio_server.Common.{
  ℕ, ◌+◌, ◌%◌, ◌^◌, List, [], ◌∷◌, ◌++◌, Bool, true, false, ◌||◌, Option, none, some, ◌==◌,
  if◌then◌else◌,
}
use ecs_asio_server.Common.Tables.{find, has_key, erase_key, assign}
use ecs_asio_server.Wire.{Parsed, ok, reject, fault}
use ecs_asio_server.Protocol.Guild.Defs.{
  GuildCreateReq, parse_guild_create_req, serialize_guild_create_res, GuildJoinReq,
  parse_guild_join_req, serialize_guild_join_res, serialize_guild_leave_res,
}

pub record GuildData : Type 0 where
  pub id : ℕ
  pub name : List ℕ
  pub description : List ℕ
  pub master_channel_id : ℕ
  pub members : List ℕ

pub record Guilds : Type 0 where
  pub guilds : List (ℕ × GuildData)
  pub channel_to_guild : List (ℕ × ℕ)
  pub next_guild_id : ℕ

abbrev pub no_guilds : Guilds
no_guilds = record { guilds = []; channel_to_guild = []; next_guild_id = 1 }

abbrev pub Answer : Type 0
Answer = Option (ℕ × List ℕ)

abbrev pub text_ok : List ℕ
text_ok = b'o' ∷ b'k' ∷ []

abbrev pub already_in_a_guild : List ℕ
already_in_a_guild =
    b'a' ∷ b'l' ∷ b'r' ∷ b'e' ∷ b'a' ∷ b'd' ∷ b'y' ∷ b' ' ∷ b'i' ∷ b'n' ∷ b' ' ∷ b'a' ∷ b' ' ∷ b'g'
    ∷ b'u' ∷ b'i' ∷ b'l' ∷ b'd' ∷ []

abbrev pub guild_not_found : List ℕ
guild_not_found =
    b'g' ∷ b'u' ∷ b'i' ∷ b'l' ∷ b'd' ∷ b' ' ∷ b'n' ∷ b'o' ∷ b't' ∷ b' ' ∷ b'f' ∷ b'o' ∷ b'u' ∷ b'n'
    ∷ b'd' ∷ []

abbrev pub create_answer : Bool → List ℕ → ℕ → Answer
create_answer success message guild_id = some (
  2001,
  serialize_guild_create_res (record { success = success; message = message; guild_id = guild_id }),
)

abbrev pub join_answer : Bool → List ℕ → Answer
join_answer success message = some (
  2002,
  serialize_guild_join_res (record { success = success; message = message; application_id = 0 }),
)

abbrev pub leave_answer : Answer
leave_answer = some (2003, serialize_guild_leave_res (record { success = true; message = text_ok }))

-- The handler behind the parse.
unfoldable pub create : ℕ → GuildCreateReq → Guilds → Guilds × Answer
create channel_id req s =
    if has_key channel_id s.channel_to_guild
    then (s, create_answer false already_in_a_guild 0)
    else (
      record {
        guilds =
            assign s.next_guild_id
              (record {
                id = s.next_guild_id;
                name = req.guild_name;
                description = req.guild_description;
                master_channel_id = channel_id;
                members = channel_id ∷ [];
              })
              s.guilds;
        channel_to_guild = assign channel_id s.next_guild_id s.channel_to_guild;
        next_guild_id = (s.next_guild_id + 1) % 2 ^ 32;
      },
      create_answer true text_ok s.next_guild_id,
    )

-- A parse that returns false is logged and nothing else happens.
unfoldable pub handle_guild_create : ℕ → List ℕ → Guilds → Guilds × Answer
handle_guild_create channel_id bytes s = elim (parse_guild_create_req bytes) [
  | ok req rest ↦ create channel_id req s
  | reject ↦ (s, none)
  | fault ↦ (s, none)
]

unfoldable pub join_guild : ℕ → ℕ → Guilds → Option GuildData → Guilds × Answer
join_guild channel_id guild_id s none = (s, join_answer false guild_not_found)
join_guild channel_id guild_id s (some guild) =
    if has_key channel_id s.channel_to_guild then (s, join_answer false already_in_a_guild) else (
      record s {
        guilds =
            assign guild_id (record guild { members = guild.members ++ (channel_id ∷ []) })
              s.guilds;
        channel_to_guild = assign channel_id guild_id s.channel_to_guild;
      },
      join_answer true text_ok,
    )

unfoldable pub join : ℕ → GuildJoinReq → Guilds → Guilds × Answer
join channel_id req s = join_guild channel_id req.guild_id s (find req.guild_id s.guilds)

unfoldable pub handle_guild_join : ℕ → List ℕ → Guilds → Guilds × Answer
handle_guild_join channel_id bytes s = elim (parse_guild_join_req bytes) [
  | ok req rest ↦ join channel_id req s
  | reject ↦ (s, none)
  | fault ↦ (s, none)
]

-- `members.erase(std::remove(…), members.end())`
unfoldable pub remove_member : ℕ → List ℕ → List ℕ
remove_member c [] = []
remove_member c (x ∷ xs) = let rest = remove_member c xs in if c == x then rest else x ∷ rest

abbrev pub is_empty : List ℕ → Bool
is_empty [] = true
is_empty (x ∷ xs) = false

-- What a guild becomes when a member leaves: it goes with its last member.
unfoldable pub without : ℕ → ℕ → List (ℕ × GuildData) → Option GuildData → List (ℕ × GuildData)
without channel_id guild_id guilds none = guilds
without channel_id guild_id guilds (some guild) =
    let members = remove_member channel_id guild.members in
    if is_empty members
    then erase_key guild_id guilds
    else assign guild_id (record guild { members = members }) guilds

unfoldable pub leave_guild : ℕ → Guilds → Option ℕ → Guilds × Answer
leave_guild channel_id s none = (s, none)
leave_guild channel_id s (some guild_id) = (
  record s {
    guilds = without channel_id guild_id s.guilds (find guild_id s.guilds);
    channel_to_guild = erase_key channel_id s.channel_to_guild;
  },
  leave_answer,
)

-- The payload is not read.
unfoldable pub handle_guild_leave : ℕ → List ℕ → Guilds → Guilds × Answer
handle_guild_leave channel_id bytes s =
    leave_guild channel_id s (find channel_id s.channel_to_guild)
