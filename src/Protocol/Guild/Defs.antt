-- ===== src/Protocol/Guild/Defs.antt =====
-- The messages of common/protocol/protocol_guild.hpp: the fields of each struct, its serialize() and its parse().
-- A float field holds the bit pattern of the float.
use ecs_asio_server.Common.{ℕ, List, Bool, [], ◌∷◌, ◌++◌}
use ecs_asio_server.Wire.{
  Parser, ◌>>=◌, ◌>>◌, accept, need, write_le32, write_bool, write_lp_string, read_u8, read_bool,
  read_le32, read_lp_string,
}

pub record GuildCreateReq : Type 0 where
  pub guild_name : List ℕ
  pub guild_description : List ℕ
  pub max_members : ℕ
  pub guild_type : ℕ

unfoldable pub serialize_guild_create_req : GuildCreateReq → List ℕ
serialize_guild_create_req m =
    write_lp_string m.guild_name
    ++ (write_lp_string m.guild_description ++ (write_le32 m.max_members ++ (m.guild_type ∷ [])))

unfoldable pub parse_guild_create_req : Parser GuildCreateReq
parse_guild_create_req = do
  guild_name ← read_lp_string
  guild_description ← read_lp_string
  need 4
  max_members ← read_le32
  need 1
  guild_type ← read_u8
  accept (record {
    guild_name = guild_name;
    guild_description = guild_description;
    max_members = max_members;
    guild_type = guild_type;
  })

pub record GuildCreateRes : Type 0 where
  pub success : Bool
  pub message : List ℕ
  pub guild_id : ℕ

unfoldable pub serialize_guild_create_res : GuildCreateRes → List ℕ
serialize_guild_create_res m =
    write_bool m.success ++ (write_lp_string m.message ++ write_le32 m.guild_id)

unfoldable pub parse_guild_create_res : Parser GuildCreateRes
parse_guild_create_res = do
  need 1
  success ← read_bool
  message ← read_lp_string
  need 4
  guild_id ← read_le32
  accept (record { success = success; message = message; guild_id = guild_id })

pub record GuildJoinReq : Type 0 where
  pub guild_id : ℕ
  pub application_message : List ℕ

unfoldable pub serialize_guild_join_req : GuildJoinReq → List ℕ
serialize_guild_join_req m = write_le32 m.guild_id ++ write_lp_string m.application_message

unfoldable pub parse_guild_join_req : Parser GuildJoinReq
parse_guild_join_req = do
  need 4
  guild_id ← read_le32
  application_message ← read_lp_string
  accept (record { guild_id = guild_id; application_message = application_message })

pub record GuildJoinRes : Type 0 where
  pub success : Bool
  pub message : List ℕ
  pub application_id : ℕ

unfoldable pub serialize_guild_join_res : GuildJoinRes → List ℕ
serialize_guild_join_res m =
    write_bool m.success ++ (write_lp_string m.message ++ write_le32 m.application_id)

unfoldable pub parse_guild_join_res : Parser GuildJoinRes
parse_guild_join_res = do
  need 1
  success ← read_bool
  message ← read_lp_string
  need 4
  application_id ← read_le32
  accept (record { success = success; message = message; application_id = application_id })

pub record GuildLeaveReq : Type 0 where
  pub guild_id : ℕ
  pub reason : List ℕ

unfoldable pub serialize_guild_leave_req : GuildLeaveReq → List ℕ
serialize_guild_leave_req m = write_le32 m.guild_id ++ write_lp_string m.reason

unfoldable pub parse_guild_leave_req : Parser GuildLeaveReq
parse_guild_leave_req = do
  need 4
  guild_id ← read_le32
  reason ← read_lp_string
  accept (record { guild_id = guild_id; reason = reason })

pub record GuildLeaveRes : Type 0 where
  pub success : Bool
  pub message : List ℕ

unfoldable pub serialize_guild_leave_res : GuildLeaveRes → List ℕ
serialize_guild_leave_res m = write_bool m.success ++ write_lp_string m.message

unfoldable pub parse_guild_leave_res : Parser GuildLeaveRes
parse_guild_leave_res = do
  need 1
  success ← read_bool
  message ← read_lp_string
  accept (record { success = success; message = message })

pub record GuildInfoReq : Type 0 where
  pub guild_id : ℕ

unfoldable pub serialize_guild_info_req : GuildInfoReq → List ℕ
serialize_guild_info_req m = write_le32 m.guild_id

unfoldable pub parse_guild_info_req : Parser GuildInfoReq
parse_guild_info_req = do need 4; guild_id ← read_le32; accept (record { guild_id = guild_id })

pub record GuildMemberListReq : Type 0 where
  pub guild_id : ℕ
  pub page : ℕ
  pub page_size : ℕ

unfoldable pub serialize_guild_member_list_req : GuildMemberListReq → List ℕ
serialize_guild_member_list_req m =
    write_le32 m.guild_id ++ (write_le32 m.page ++ write_le32 m.page_size)

unfoldable pub parse_guild_member_list_req : Parser GuildMemberListReq
parse_guild_member_list_req = do
  need 12
  guild_id ← read_le32
  page ← read_le32
  page_size ← read_le32
  accept (record { guild_id = guild_id; page = page; page_size = page_size })
