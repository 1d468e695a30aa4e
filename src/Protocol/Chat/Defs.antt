-- ===== src/Protocol/Chat/Defs.antt =====
-- The messages of common/protocol/protocol_chat.hpp: the fields of each struct, its serialize() and its parse().
-- A float field holds the bit pattern of the float.
use ecs_asio_server.Common.{ℕ, List, Bool, ◌∷◌, ◌++◌}
use ecs_asio_server.Wire.{
  Parser, ◌>>=◌, ◌>>◌, accept, need, write_le32, write_bool, write_lp_string, read_u8, read_bool,
  read_le32, read_lp_string,
}

pub record ChatReq : Type 0 where
  pub message : List ℕ
  pub channel : ℕ
  pub target_id : ℕ

unfoldable pub serialize_chat_req : ChatReq → List ℕ
serialize_chat_req m = write_lp_string m.message ++ (m.channel ∷ write_le32 m.target_id)

unfoldable pub parse_chat_req : Parser ChatReq
parse_chat_req = do
  message ← read_lp_string
  need 1
  channel ← read_u8
  need 4
  target_id ← read_le32
  accept (record { message = message; channel = channel; target_id = target_id })

pub record ChatRes : Type 0 where
  pub success : Bool
  pub message : List ℕ

unfoldable pub serialize_chat_res : ChatRes → List ℕ
serialize_chat_res m = write_bool m.success ++ write_lp_string m.message

unfoldable pub parse_chat_res : Parser ChatRes
parse_chat_res = do
  need 1
  success ← read_bool
  message ← read_lp_string
  accept (record { success = success; message = message })

pub record ChatBroadcast : Type 0 where
  pub sender_id : ℕ
  pub sender_name : List ℕ
  pub message : List ℕ
  pub channel : ℕ
  pub timestamp : ℕ

unfoldable pub serialize_chat_broadcast : ChatBroadcast → List ℕ
serialize_chat_broadcast m =
    write_le32 m.sender_id
    ++ (write_lp_string m.sender_name
        ++ (write_lp_string m.message ++ (m.channel ∷ write_le32 m.timestamp)))

unfoldable pub parse_chat_broadcast : Parser ChatBroadcast
parse_chat_broadcast = do
  need 4
  sender_id ← read_le32
  sender_name ← read_lp_string
  message ← read_lp_string
  need 1
  channel ← read_u8
  need 4
  timestamp ← read_le32
  accept (record {
    sender_id = sender_id;
    sender_name = sender_name;
    message = message;
    channel = channel;
    timestamp = timestamp;
  })

pub record ChatSystemMessage : Type 0 where
  pub message_type : ℕ
  pub title : List ℕ
  pub content : List ℕ
  pub priority : ℕ
  pub timestamp : ℕ

unfoldable pub serialize_chat_system_message : ChatSystemMessage → List ℕ
serialize_chat_system_message m =
    write_le32 m.message_type
    ++ (write_lp_string m.title
        ++ (write_lp_string m.content ++ (write_le32 m.priority ++ write_le32 m.timestamp)))

unfoldable pub parse_chat_system_message : Parser ChatSystemMessage
parse_chat_system_message = do
  need 12
  message_type ← read_le32
  title ← read_lp_string
  content ← read_lp_string
  priority ← read_le32
  timestamp ← read_le32
  accept (record {
    message_type = message_type;
    title = title;
    content = content;
    priority = priority;
    timestamp = timestamp;
  })

pub record ChatFilterReq : Type 0 where
  pub filter_type : ℕ
  pub target_message : List ℕ
  pub reporter_id : ℕ

unfoldable pub serialize_chat_filter_req : ChatFilterReq → List ℕ
serialize_chat_filter_req m =
    m.filter_type ∷ (write_lp_string m.target_message ++ write_le32 m.reporter_id)

unfoldable pub parse_chat_filter_req : Parser ChatFilterReq
parse_chat_filter_req = do
  need 1
  filter_type ← read_u8
  target_message ← read_lp_string
  need 4
  reporter_id ← read_le32
  accept (record {
    filter_type = filter_type;
    target_message = target_message;
    reporter_id = reporter_id;
  })

pub record ChatFilterRes : Type 0 where
  pub success : Bool
  pub message : List ℕ
  pub case_id : ℕ

unfoldable pub serialize_chat_filter_res : ChatFilterRes → List ℕ
serialize_chat_filter_res m =
    write_bool m.success ++ (write_lp_string m.message ++ write_le32 m.case_id)

unfoldable pub parse_chat_filter_res : Parser ChatFilterRes
parse_chat_filter_res = do
  need 1
  success ← read_bool
  message ← read_lp_string
  need 4
  case_id ← read_le32
  accept (record { success = success; message = message; case_id = case_id })
