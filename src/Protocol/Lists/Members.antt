-- ===== src/Protocol/Lists/Members.antt =====
-- guild_member_info, guild_info_res and guild_member_list_res, whose parse() skips a byte too many.
use ecs_asio_server.Common.{ℕ, ◌^◌, ◌≤◌, ◌<◌, ◌≡◌, refl, List, [], ◌∷◌, append-nil, length, arith}
use ecs_asio_server.Wire.{
  ok, reject, fault, ◌>>=◌, ◌>>◌, need, skip, read_bytes, read_lp_string, write_lp_string,
  read_le32, write_le32, IsU32, IsText, need_ok, read_le32-write_le32, run_parser, sizes,
}
use ecs_asio_server.Protocol.GuildInfo.Defs.{
  GuildMemberInfo, serialize_guild_member_info, parse_guild_member_info, GuildInfoRes,
  serialize_guild_info_res, parse_guild_info_res,
}
use ecs_asio_server.Protocol.Lists.Defs.{
  GuildMemberListRes, serialize_guild_member_list_res, parse_guild_member_list_res, read_entries,
  by_value,
}

guild_member_info_size : (m : GuildMemberInfo) → 16 ≤ length (serialize_guild_member_info m)
unfolding serialize_guild_member_info
guild_member_info_size m = omega sizes

-- The parser of guild_member_info reads past the end of what its own serialize() wrote.
pub parse-serialize_guild_member_info :
    (m : GuildMemberInfo)
    → IsU32 m.player_id × IsText m.player_name × IsU32 m.level
    → parse_guild_member_info (serialize_guild_member_info m) ≡ fault
unfolding parse_guild_member_info
parse-serialize_guild_member_info m h =
    rw (need_ok 16 (serialize_guild_member_info m) (guild_member_info_size m), ◌>>=◌, ◌>>◌)
      (unfold serialize_guild_member_info in
        simp (run_parser, h.0, h.1, h.2) (unfold skip write_le32 read_le32 in refl))

one_member :
    (s : List ℕ)
    → parse_guild_member_info s ≡ fault
    → read_entries 1 (by_value parse_guild_member_info) s ≡ fault
unfolding read_entries by_value
one_member s e = rw (e, ◌>>=◌)

guild_member_list_res_size :
    (m : GuildMemberListRes) → 16 ≤ length (serialize_guild_member_list_res m)
unfolding serialize_guild_member_list_res
guild_member_list_res_size m = omega sizes

-- The parser of guild_member_list_res reads past the end of a list of one member.
pub parse-serialize_guild_member_list_res :
    (guild_id total_members page page_size : ℕ) (m : GuildMemberInfo)
    → IsU32 guild_id × IsU32 total_members × IsU32 page × IsU32 page_size
    → IsU32 m.player_id × IsText m.player_name × IsU32 m.level
    → parse_guild_member_list_res (
        serialize_guild_member_list_res (record {
          guild_id = guild_id;
          total_members = total_members;
          page = page;
          page_size = page_size;
          members = m ∷ [];
        }))
      ≡ fault
unfolding parse_guild_member_list_res
parse-serialize_guild_member_list_res guild_id total_members page page_size m h k =
    let e = one_member (serialize_guild_member_info m) (parse-serialize_guild_member_info m k) in
    rw (need_ok 16 (serialize_guild_member_list_res _) (guild_member_list_res_size _), ◌>>=◌, ◌>>◌)
      (unfold serialize_guild_member_list_res in
        simp (
          run_parser,
          h.0,
          h.1,
          h.2,
          h.3,
          append-nil (serialize_guild_member_info m),
          read_le32-write_le32 1 (omega arith),
          e,
        ))

skip-cons : (b : ℕ) (s : List ℕ) → skip 1 (b ∷ s) ≡ ok tt s
unfolding skip
skip-cons b s = ground arith

-- A length whose highest byte is not 0, in front of fewer than 2 ^ 24 bytes.
long_text :
    (a b c d : ℕ) (s : List ℕ)
    → 0 < d
    → length s < 2 ^ 24
    → read_lp_string (a ∷ b ∷ c ∷ d ∷ s) ≡ reject
unfolding read_lp_string need read_le32 read_bytes
long_text a b c d s h k = ground arith

guild_info_res_size : (m : GuildInfoRes) → 24 ≤ length (serialize_guild_info_res m)
unfolding serialize_guild_info_res
guild_info_res_size m = omega sizes

-- The parser of guild_info_res refuses what its own serialize() wrote if the leader's name is not
-- empty, does not start with the byte 0 and has fewer than 2 ^ 24 bytes.
pub parse-serialize_guild_info_res :
    (m : GuildInfoRes) (letter : ℕ) (letters : List ℕ)
    → m.leader_name ≡ letter ∷ letters
    → 0 < letter
    → length letters < 2 ^ 24
    → IsU32 m.guild_id
      × IsText m.guild_name
      × IsText m.guild_description
      × IsU32 m.member_count
      × IsU32 m.max_members
    → parse_guild_info_res (serialize_guild_info_res m) ≡ reject
unfolding parse_guild_info_res
parse-serialize_guild_info_res m letter letters name h l k =
    rw (need_ok 24 (serialize_guild_info_res m) (guild_info_res_size m), ◌>>=◌, ◌>>◌)
      (unfold serialize_guild_info_res in
        simp (run_parser, k.0, k.1, k.2, k.3, k.4)
          (unfold write_le32 read_le32 write_lp_string in
            rw (name, skip-cons, ◌>>◌, ◌>>=◌, long_text _ _ _ letter letters h l, ◌>>=◌) refl))
