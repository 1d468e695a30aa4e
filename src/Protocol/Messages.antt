-- ===== src/Protocol/Messages.antt =====
-- The messages of all the headers of common/protocol together, but for guild_info_res, guild_member_info,
-- guild_member_list_res and map_objects_update, whose parsers do not read back what serialize() wrote.
use ecs_asio_server.Common.{ℕ, ◌^◌, ◌<◌, ◌≡◌, ap, List, ◌++◌, length, All}
use ecs_asio_server.Wire.{IsU32, Parser, Parsed, ok, reject, fault}
use ecs_asio_server.Protocol.Lists.Defs.{
  CombatResultNotify, serialize_combat_result_notify, parse_combat_result_notify,
}
use ecs_asio_server.Protocol.Lists.Items.{parse-serialize_combat_result_notify}
use ecs_asio_server.Protocol.Base.Message as Base
use ecs_asio_server.Protocol.Chat.Message as Chat
use ecs_asio_server.Protocol.Player.Message as Player
use ecs_asio_server.Protocol.Combat.Message as Combat
use ecs_asio_server.Protocol.Map.Message as Map
use ecs_asio_server.Protocol.Guild.Message as Guild
use ecs_asio_server.Protocol.Base.RoundTrip.{parse-serialize_base}
use ecs_asio_server.Protocol.Chat.RoundTrip.{parse-serialize_chat}
use ecs_asio_server.Protocol.Player.RoundTrip.{parse-serialize_player}
use ecs_asio_server.Protocol.Combat.RoundTrip.{parse-serialize_combat}
use ecs_asio_server.Protocol.Map.RoundTrip.{parse-serialize_map}
use ecs_asio_server.Protocol.Guild.RoundTrip.{parse-serialize_guild}

pub data Message : Type 0 where
  base : Base.BaseMessage → Message
  chat : Chat.ChatMessage → Message
  player : Player.PlayerMessage → Message
  combat : Combat.CombatMessage → Message
  map : Map.MapMessage → Message
  guild : Guild.GuildMessage → Message
  result : CombatResultNotify → Message

pub data Kind : Type 0 where
  base_kind : Base.BaseKind → Kind
  chat_kind : Chat.ChatKind → Kind
  player_kind : Player.PlayerKind → Kind
  combat_kind : Combat.CombatKind → Kind
  map_kind : Map.MapKind → Kind
  guild_kind : Guild.GuildKind → Kind
  result_kind : Kind

abbrev pub kind : Message → Kind
kind (base m) = base_kind (Base.kind m)
kind (chat m) = chat_kind (Chat.kind m)
kind (player m) = player_kind (Player.kind m)
kind (combat m) = combat_kind (Combat.kind m)
kind (map m) = map_kind (Map.kind m)
kind (guild m) = guild_kind (Guild.kind m)
kind (result m) = result_kind

abbrev pub serialize : Message → List ℕ
serialize (base m) = Base.serialize m
serialize (chat m) = Chat.serialize m
serialize (player m) = Player.serialize m
serialize (combat m) = Combat.serialize m
serialize (map m) = Map.serialize m
serialize (guild m) = Guild.serialize m
serialize (result m) = serialize_combat_result_notify m

abbrev pub read_as : {A : Type 0} → (A → Message) → Parsed A → Parsed Message
read_as f (ok a rest) = ok (f a) rest
read_as f reject = reject
read_as f fault = fault

abbrev pub parse : Kind → Parser Message
parse (base_kind k) s = read_as base (Base.parse k s)
parse (chat_kind k) s = read_as chat (Chat.parse k s)
parse (player_kind k) s = read_as player (Player.parse k s)
parse (combat_kind k) s = read_as combat (Combat.parse k s)
parse (map_kind k) s = read_as map (Map.parse k s)
parse (guild_kind k) s = read_as guild (Guild.parse k s)
parse result_kind s = read_as result (parse_combat_result_notify s)

abbrev pub Fits : Message → Type 0
Fits (base m) = Base.Fits m
Fits (chat m) = Chat.Fits m
Fits (player m) = Player.Fits m
Fits (combat m) = Combat.Fits m
Fits (map m) = Map.Fits m
Fits (guild m) = Guild.Fits m
Fits (result m) =
    (IsU32 m.winner_id
      × IsU32 m.loser_id
      × IsU32 m.experience_gained
      × IsU32 m.gold_gained
      × IsU32 m.timestamp)
    × All IsU32 m.item_ids
    × (length m.item_ids < 2 ^ 32)

-- Every message of the six headers but guild_info_res, guild_member_info, guild_member_list_res and
-- map_objects_update, with fields that fit their widths, is read back from what it is serialized to by the
-- parser of its struct, whatever bytes follow it, and those bytes are left.
pub parse-serialize_message :
    (m : Message) (rest : List ℕ) → Fits m → parse (kind m) (serialize m ++ rest) ≡ ok m rest
parse-serialize_message (base m) rest h = ap (read_as base) (parse-serialize_base m rest h)
parse-serialize_message (chat m) rest h = ap (read_as chat) (parse-serialize_chat m rest h)
parse-serialize_message (player m) rest h = ap (read_as player) (parse-serialize_player m rest h)
parse-serialize_message (combat m) rest h = ap (read_as combat) (parse-serialize_combat m rest h)
parse-serialize_message (map m) rest h = ap (read_as map) (parse-serialize_map m rest h)
parse-serialize_message (guild m) rest h = ap (read_as guild) (parse-serialize_guild m rest h)
parse-serialize_message (result m) rest h =
    ap (read_as result) (parse-serialize_combat_result_notify m rest h.0 h.1 h.2)
