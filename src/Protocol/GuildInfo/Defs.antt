-- ===== src/Protocol/GuildInfo/Defs.antt =====
-- The messages of common/protocol/protocol_guild.hpp: the fields of each struct, its serialize() and its parse().
-- A float field holds the bit pattern of the float.
use ecs_asio_server.Common.{ℕ, List, ◌∷◌, ◌++◌}
use ecs_asio_server.Wire.{
  Parser, ◌>>=◌, ◌>>◌, accept, need, skip, write_le32, write_lp_string, read_u8, read_le32,
  read_lp_string,
}

pub record GuildInfoRes : Type 0 where
  pub guild_id : ℕ
  pub guild_name : List ℕ
  pub guild_description : List ℕ
  pub member_count : ℕ
  pub max_members : ℕ
  pub guild_type : ℕ
  pub guild_level : ℕ
  pub guild_exp : ℕ
  pub leader_id : ℕ
  pub leader_name : List ℕ

unfoldable pub serialize_guild_info_res : GuildInfoRes → List ℕ
serialize_guild_info_res m =
    write_le32 m.guild_id
    ++ (write_lp_string m.guild_name
        ++ (write_lp_string m.guild_description
            ++ (write_le32 m.member_count
                ++ (write_le32 m.max_members
                    ++ (m.guild_type
                        ∷ (write_le32 m.guild_level
                            ++ (write_le32 m.guild_exp
                                ++ (write_le32 m.leader_id ++ write_lp_string m.leader_name))))))))

unfoldable pub parse_guild_info_res : Parser GuildInfoRes
parse_guild_info_res = do
  need 24
  guild_id ← read_le32
  guild_name ← read_lp_string
  guild_description ← read_lp_string
  member_count ← read_le32
  max_members ← read_le32
  guild_type ← read_u8
  skip 1
  guild_level ← read_le32
  guild_exp ← read_le32
  leader_id ← read_le32
  leader_name ← read_lp_string
  accept (record {
    guild_id = guild_id;
    guild_name = guild_name;
    guild_description = guild_description;
    member_count = member_count;
    max_members = max_members;
    guild_type = guild_type;
    guild_level = guild_level;
    guild_exp = guild_exp;
    leader_id = leader_id;
    leader_name = leader_name;
  })

pub record GuildMemberInfo : Type 0 where
  pub player_id : ℕ
  pub player_name : List ℕ
  pub level : ℕ
  pub rank : ℕ
  pub join_date : ℕ
  pub last_online : ℕ

unfoldable pub serialize_guild_member_info : GuildMemberInfo → List ℕ
serialize_guild_member_info m =
    write_le32 m.player_id
    ++ (write_lp_string m.player_name
        ++ (write_le32 m.level ++ (m.rank ∷ (write_le32 m.join_date ++ write_le32 m.last_online))))

unfoldable pub parse_guild_member_info : Parser GuildMemberInfo
parse_guild_member_info = do
  need 16
  player_id ← read_le32
  player_name ← read_lp_string
  level ← read_le32
  rank ← read_u8
  skip 1
  join_date ← read_le32
  last_online ← read_le32
  accept (record {
    player_id = player_id;
    player_name = player_name;
    level = level;
    rank = rank;
    join_date = join_date;
    last_online = last_online;
  })
