-- ===== src/Protocol/Chat/Message.antt =====
-- One message of common/protocol/protocol_chat.hpp: its struct, its serialize() and the parse() that its kind
-- selects.
use ecs_asio_server.Common.{ℕ, List}
use ecs_asio_server.Wire.{Parser, map_parser, IsU32, IsText}
use ecs_asio_server.Protocol.Chat.Defs.{
  ChatReq, serialize_chat_req, parse_chat_req, ChatRes, serialize_chat_res, parse_chat_res,
  ChatBroadcast, serialize_chat_broadcast, parse_chat_broadcast, ChatSystemMessage,
  serialize_chat_system_message, parse_chat_system_message, ChatFilterReq,
  serialize_chat_filter_req, parse_chat_filter_req, ChatFilterRes, serialize_chat_filter_res,
  parse_chat_filter_res,
}

pub data ChatKind : Type 0 where
  chat_req chat_res chat_broadcast chat_system_message chat_filter_req chat_filter_res : ChatKind

pub data ChatMessage : Type 0 where
  chat_req : ChatReq → ChatMessage
  chat_res : ChatRes → ChatMessage
  chat_broadcast : ChatBroadcast → ChatMessage
  chat_system_message : ChatSystemMessage → ChatMessage
  chat_filter_req : ChatFilterReq → ChatMessage
  chat_filter_res : ChatFilterRes → ChatMessage

unfoldable pub kind : ChatMessage → ChatKind
kind (ChatMessage.chat_req m) = ChatKind.chat_req
kind (ChatMessage.chat_res m) = ChatKind.chat_res
kind (ChatMessage.chat_broadcast m) = ChatKind.chat_broadcast
kind (ChatMessage.chat_system_message m) = ChatKind.chat_system_message
kind (ChatMessage.chat_filter_req m) = ChatKind.chat_filter_req
kind (ChatMessage.chat_filter_res m) = ChatKind.chat_filter_res

unfoldable pub serialize : ChatMessage → List ℕ
serialize (ChatMessage.chat_req m) = serialize_chat_req m
serialize (ChatMessage.chat_res m) = serialize_chat_res m
serialize (ChatMessage.chat_broadcast m) = serialize_chat_broadcast m
serialize (ChatMessage.chat_system_message m) = serialize_chat_system_message m
serialize (ChatMessage.chat_filter_req m) = serialize_chat_filter_req m
serialize (ChatMessage.chat_filter_res m) = serialize_chat_filter_res m

unfoldable pub parse : ChatKind → Parser ChatMessage
parse ChatKind.chat_req = map_parser ChatMessage.chat_req parse_chat_req
parse ChatKind.chat_res = map_parser ChatMessage.chat_res parse_chat_res
parse ChatKind.chat_broadcast = map_parser ChatMessage.chat_broadcast parse_chat_broadcast
parse ChatKind.chat_system_message =
    map_parser ChatMessage.chat_system_message parse_chat_system_message
parse ChatKind.chat_filter_req = map_parser ChatMessage.chat_filter_req parse_chat_filter_req
parse ChatKind.chat_filter_res = map_parser ChatMessage.chat_filter_res parse_chat_filter_res

-- The values that the fields of the struct can hold: 32 bits in a number, a length of 32 bits in a text.
abbrev pub Fits : ChatMessage → Type 0
Fits (ChatMessage.chat_req m) = IsText m.message × IsU32 m.target_id
Fits (ChatMessage.chat_res m) = IsText m.message
Fits (ChatMessage.chat_broadcast m) =
    IsU32 m.sender_id × IsText m.sender_name × IsText m.message × IsU32 m.timestamp
Fits (ChatMessage.chat_system_message m) =
    IsU32 m.message_type × IsText m.title × IsText m.content × IsU32 m.priority × IsU32 m.timestamp
Fits (ChatMessage.chat_filter_req m) = IsText m.target_message × IsU32 m.reporter_id
Fits (ChatMessage.chat_filter_res m) = IsText m.message × IsU32 m.case_id
