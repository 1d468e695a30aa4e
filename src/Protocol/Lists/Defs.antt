-- ===== src/Protocol/Lists/Defs.antt =====
-- combat_result_notify (protocol_combat.hpp), map_objects_update (protocol_map.hpp) and
-- guild_member_list_res (protocol_guild.hpp): a count on 32 bits, then the entries.
use ecs_asio_server.Common.{ℕ, zero, suc, ◌%◌, ◌^◌, List, [], ◌∷◌, ◌++◌, length, flat, map}
use ecs_asio_server.Wire.{
  ok, reject, fault, Parser, ◌>>=◌, ◌>>◌, accept, need, write_le32, read_le32,
}
use ecs_asio_server.Protocol.Map.Defs.{
  MapObjectInfo, serialize_map_object_info, parse_map_object_info,
}
use ecs_asio_server.Protocol.GuildInfo.Defs.{
  GuildMemberInfo, serialize_guild_member_info, parse_guild_member_info,
}

-- The loop over `count` entries.
unfoldable pub read_entries {ℓ} : {A : Type ℓ} → ℕ → Parser A → Parser (List A)
read_entries zero entry s = ok [] s
read_entries (suc n) entry s = (entry >>= λ x. read_entries n entry >>= λ xs. accept (x ∷ xs)) s

-- A parse() of another struct takes `p` by value: the caller's `p` stays where it is.
unfoldable pub by_value {ℓ} : {A : Type ℓ} → Parser A → Parser A
by_value entry s = elim (entry s) [ ok a rest ↦ ok a s | reject ↦ reject | fault ↦ fault ]

pub record CombatResultNotify : Type 0 where
  pub winner_id : ℕ
  pub loser_id : ℕ
  pub experience_gained : ℕ
  pub gold_gained : ℕ
  pub item_ids : List ℕ
  pub timestamp : ℕ

unfoldable pub serialize_combat_result_notify : CombatResultNotify → List ℕ
serialize_combat_result_notify m =
    write_le32 m.winner_id
    ++ (write_le32 m.loser_id
        ++ (write_le32 m.experience_gained
            ++ (write_le32 m.gold_gained
                ++ (write_le32 (length m.item_ids % 2 ^ 32)
                    ++ (flat (map write_le32 m.item_ids) ++ write_le32 m.timestamp)))))

unfoldable pub read_item : Parser ℕ
read_item = do need 4; read_le32

unfoldable pub parse_combat_result_notify : Parser CombatResultNotify
parse_combat_result_notify = do
  need 20
  winner_id ← read_le32
  loser_id ← read_le32
  experience_gained ← read_le32
  gold_gained ← read_le32
  item_count ← read_le32
  item_ids ← read_entries item_count read_item
  need 4
  timestamp ← read_le32
  accept (record {
    winner_id = winner_id;
    loser_id = loser_id;
    experience_gained = experience_gained;
    gold_gained = gold_gained;
    item_ids = item_ids;
    timestamp = timestamp;
  })

pub record MapObjectsUpdate : Type 0 where
  pub map_id : ℕ
  pub update_type : ℕ
  pub objects : List MapObjectInfo
  pub timestamp : ℕ

unfoldable pub serialize_map_objects_update : MapObjectsUpdate → List ℕ
serialize_map_objects_update m =
    write_le32 m.map_id
    ++ (write_le32 m.update_type
        ++ (write_le32 (length m.objects % 2 ^ 32)
            ++ (flat (map serialize_map_object_info m.objects) ++ write_le32 m.timestamp)))

unfoldable pub parse_map_objects_update : Parser MapObjectsUpdate
parse_map_objects_update = do
  need 12
  map_id ← read_le32
  update_type ← read_le32
  object_count ← read_le32
  objects ← read_entries object_count (by_value parse_map_object_info)
  need 4
  timestamp ← read_le32
  accept (record {
    map_id = map_id;
    update_type = update_type;
    objects = objects;
    timestamp = timestamp;
  })

pub record GuildMemberListRes : Type 0 where
  pub guild_id : ℕ
  pub total_members : ℕ
  pub page : ℕ
  pub page_size : ℕ
  pub members : List GuildMemberInfo

unfoldable pub serialize_guild_member_list_res : GuildMemberListRes → List ℕ
serialize_guild_member_list_res m =
    write_le32 m.guild_id
    ++ (write_le32 m.total_members
        ++ (write_le32 m.page
            ++ (write_le32 m.page_size
                ++ (write_le32 (length m.members % 2 ^ 32)
                    ++ flat (map serialize_guild_member_info m.members)))))

unfoldable pub parse_guild_member_list_res : Parser GuildMemberListRes
parse_guild_member_list_res = do
  need 16
  guild_id ← read_le32
  total_members ← read_le32
  page ← read_le32
  page_size ← read_le32
  member_count ← read_le32
  members ← read_entries member_count (by_value parse_guild_member_info)
  accept (record {
    guild_id = guild_id;
    total_members = total_members;
    page = page;
    page_size = page_size;
    members = members;
  })
