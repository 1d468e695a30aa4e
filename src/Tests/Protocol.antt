-- ===== src/Tests/Protocol.antt =====
-- Messages of common/protocol at concrete inputs.
use ecs_asio_server.Common.{◌≡◌, ◌≢◌, refl, [], ◌∷◌, ◌++◌, drop, arith}
use ecs_asio_server.Wire.{ok, reject, fault}
use ecs_asio_server.Protocol.Base.Message.{BaseMessage}
use ecs_asio_server.Protocol.Messages.{Message, kind, serialize, parse, parse-serialize_message}
use ecs_asio_server.Protocol.Map.Defs.{MapObjectInfo}
use ecs_asio_server.Protocol.GuildInfo.Defs.{
  GuildMemberInfo, GuildInfoRes, serialize_guild_info_res, parse_guild_info_res,
}
use ecs_asio_server.Protocol.Requests.{chat, parse_request, parse_request-ne-fault}
use ecs_asio_server.Protocol.Lists.Defs.{
  CombatResultNotify, serialize_map_objects_update, parse_map_objects_update,
}
use ecs_asio_server.Protocol.Lists.Objects.{parse-serialize_map_objects_update}
use ecs_asio_server.Protocol.Lists.Members.{parse-serialize_guild_info_res}

abbrev login : BaseMessage
login = BaseMessage.login_req (record { player_name = 97 ∷ []; session_token = [] })

parse-serialize_message_example :
    parse (kind (Message.base login)) (serialize (Message.base login) ++ (7 ∷ []))
    ≡ ok (Message.base login) (7 ∷ [])
parse-serialize_message_example =
    parse-serialize_message (Message.base login) (7 ∷ []) (omega arith, omega arith)

parse_request-ne-fault_example : parse_request chat (2 ∷ 0 ∷ 0 ∷ 0 ∷ 65 ∷ []) ≢ fault
parse_request-ne-fault_example = parse_request-ne-fault chat (2 ∷ 0 ∷ 0 ∷ 0 ∷ 65 ∷ [])

abbrev won : CombatResultNotify
won = record {
  winner_id = 1;
  loser_id = 2;
  experience_gained = 3;
  gold_gained = 4;
  item_ids = 10 ∷ 11 ∷ [];
  timestamp = 5;
}

abbrev tree : MapObjectInfo
tree = record {
  object_id = 42;
  object_type = 1;
  object_name = [];
  x = 0;
  y = 0;
  z = 0;
  rotation = 0;
  level = 1;
  hp = 1;
  max_hp = 1;
}

parse-serialize_map_objects_update_example :
    parse_map_objects_update (
      serialize_map_objects_update (record {
        map_id = 1;
        update_type = 2;
        objects = tree ∷ record tree { object_id = 43 } ∷ [];
        timestamp = 99;
      })
      ++ [])
    ≡ ok
        (record { map_id = 1; update_type = 2; objects = tree ∷ tree ∷ []; timestamp = 42 })
        (drop 16 (
          serialize_map_objects_update (record {
            map_id = 1;
            update_type = 2;
            objects = tree ∷ record tree { object_id = 43 } ∷ [];
            timestamp = 99;
          })
          ++ []))
parse-serialize_map_objects_update_example =
    parse-serialize_map_objects_update 1 2 99 tree (record tree { object_id = 43 } ∷ []) []
      (omega arith, omega arith)
      (
        omega arith,
        omega arith,
        omega arith,
        omega arith,
        omega arith,
        omega arith,
        omega arith,
        omega arith,
        omega arith,
      )
      (omega arith)

abbrev member : GuildMemberInfo
member = record {
  player_id = 7;
  player_name = 65 ∷ [];
  level = 2;
  rank = 1;
  join_date = 3;
  last_online = 4;
}

abbrev guild : GuildInfoRes
guild = record {
  guild_id = 1;
  guild_name = 71 ∷ [];
  guild_description = [];
  member_count = 1;
  max_members = 50;
  guild_type = 0;
  guild_level = 1;
  guild_exp = 0;
  leader_id = 7;
  leader_name = 65 ∷ 66 ∷ [];
}

parse-serialize_guild_info_res_example :
    parse_guild_info_res (serialize_guild_info_res guild) ≡ reject
parse-serialize_guild_info_res_example =
    parse-serialize_guild_info_res guild 65 (66 ∷ []) refl (omega arith) (omega arith)
      (omega arith, omega arith, omega arith, omega arith, omega arith)
