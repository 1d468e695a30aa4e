-- ===== src/Protocol/Chat/RoundTrip.antt =====
-- The messages of common/protocol/protocol_chat.hpp as Message gathers them: serialized and parsed.
use ecs_asio_server.Common.{ℕ, List, ◌++◌, ◌≡◌, ◌≤◌, length}
use ecs_asio_server.Wire.{ok, IsU32, IsText, sizes, run_parser, need_front, ◌>>=◌, map_parser, ◌>>◌}
use ecs_asio_server.Protocol.Chat.Defs.{
  ChatReq, serialize_chat_req, parse_chat_req, ChatRes, serialize_chat_res, parse_chat_res,
  ChatBroadcast, serialize_chat_broadcast, parse_chat_broadcast, ChatSystemMessage,
  serialize_chat_system_message, parse_chat_system_message, ChatFilterReq,
  serialize_chat_filter_req, parse_chat_filter_req, ChatFilterRes, serialize_chat_filter_res,
  parse_chat_filter_res,
}
use ecs_asio_server.Protocol.Chat.Message.{ChatMessage, Fits, kind, serialize, parse}

parse-serialize_chat_req :
    (m : ChatReq) (rest : List ℕ)
    → IsText m.message × IsU32 m.target_id
    → parse_chat_req (serialize_chat_req m ++ rest) ≡ ok m rest
unfolding parse_chat_req serialize_chat_req
parse-serialize_chat_req m rest h = simp (run_parser, h.0, h.1)

parse-serialize_chat_res :
    (m : ChatRes) (rest : List ℕ)
    → IsText m.message
    → parse_chat_res (serialize_chat_res m ++ rest) ≡ ok m rest
unfolding parse_chat_res serialize_chat_res
parse-serialize_chat_res m rest h = simp (run_parser, h)

parse-serialize_chat_broadcast :
    (m : ChatBroadcast) (rest : List ℕ)
    → IsU32 m.sender_id × IsText m.sender_name × IsText m.message × IsU32 m.timestamp
    → parse_chat_broadcast (serialize_chat_broadcast m ++ rest) ≡ ok m rest
unfolding parse_chat_broadcast serialize_chat_broadcast
parse-serialize_chat_broadcast m rest h = simp (run_parser, h.0, h.1, h.2, h.3)

chat_system_message_size : (m : ChatSystemMessage) → 12 ≤ length (serialize_chat_system_message m)
unfolding serialize_chat_system_message
chat_system_message_size m = omega sizes

parse-serialize_chat_system_message :
    (m : ChatSystemMessage) (rest : List ℕ)
    → IsU32 m.message_type
      × IsText m.title
      × IsText m.content
      × IsU32 m.priority
      × IsU32 m.timestamp
    → parse_chat_system_message (serialize_chat_system_message m ++ rest) ≡ ok m rest
unfolding parse_chat_system_message
parse-serialize_chat_system_message m rest h =
    rw (need_front 12 (serialize_chat_system_message m) (chat_system_message_size m), ◌>>=◌, ◌>>◌)
      (unfold serialize_chat_system_message in simp (run_parser, h.0, h.1, h.2, h.3, h.4))

parse-serialize_chat_filter_req :
    (m : ChatFilterReq) (rest : List ℕ)
    → IsText m.target_message × IsU32 m.reporter_id
    → parse_chat_filter_req (serialize_chat_filter_req m ++ rest) ≡ ok m rest
unfolding parse_chat_filter_req serialize_chat_filter_req
parse-serialize_chat_filter_req m rest h = simp (run_parser, h.0, h.1)

parse-serialize_chat_filter_res :
    (m : ChatFilterRes) (rest : List ℕ)
    → IsText m.message × IsU32 m.case_id
    → parse_chat_filter_res (serialize_chat_filter_res m ++ rest) ≡ ok m rest
unfolding parse_chat_filter_res serialize_chat_filter_res
parse-serialize_chat_filter_res m rest h = simp (run_parser, h.0, h.1)

-- Every message of protocol_chat.hpp whose fields fit is read back from what it is serialized to, whatever
-- bytes follow it, and those bytes are left.
pub parse-serialize_chat :
    (m : ChatMessage) (rest : List ℕ) → Fits m → parse (kind m) (serialize m ++ rest) ≡ ok m rest
unfolding parse kind serialize map_parser
parse-serialize_chat (ChatMessage.chat_req m) rest h = rw (◌>>=◌, parse-serialize_chat_req m rest h)
parse-serialize_chat (ChatMessage.chat_res m) rest h = rw (◌>>=◌, parse-serialize_chat_res m rest h)
parse-serialize_chat (ChatMessage.chat_broadcast m) rest h =
    rw (◌>>=◌, parse-serialize_chat_broadcast m rest h)
parse-serialize_chat (ChatMessage.chat_system_message m) rest h =
    rw (◌>>=◌, parse-serialize_chat_system_message m rest h)
parse-serialize_chat (ChatMessage.chat_filter_req m) rest h =
    rw (◌>>=◌, parse-serialize_chat_filter_req m rest h)
parse-serialize_chat (ChatMessage.chat_filter_res m) rest h =
    rw (◌>>=◌, parse-serialize_chat_filter_res m rest h)
