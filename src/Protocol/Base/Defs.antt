-- ===== src/Protocol/Base/Defs.antt =====
-- The messages of common/protocol/protocol_base.hpp: the fields of each struct, its serialize() and its parse().
-- A float field holds the bit pattern of the float.
use ecs_asio_server.Common.{ℕ, List, Bool, ◌++◌}
use ecs_asio_server.Wire.{
  Parser, ◌>>=◌, ◌>>◌, accept, need, write_le32, write_bool, write_lp_string, read_bool, read_le32,
  read_lp_string,
}

pub record EchoReq : Type 0 where
  pub text : List ℕ

unfoldable pub serialize_echo_req : EchoReq → List ℕ
serialize_echo_req m = write_lp_string m.text

unfoldable pub parse_echo_req : Parser EchoReq
parse_echo_req = do text ← read_lp_string; accept (record { text = text })

pub record EchoRes : Type 0 where
  pub text : List ℕ

unfoldable pub serialize_echo_res : EchoRes → List ℕ
serialize_echo_res m = write_lp_string m.text

unfoldable pub parse_echo_res : Parser EchoRes
parse_echo_res = do text ← read_lp_string; accept (record { text = text })

pub record LoginReq : Type 0 where
  pub player_name : List ℕ
  pub session_token : List ℕ

unfoldable pub serialize_login_req : LoginReq → List ℕ
serialize_login_req m = write_lp_string m.player_name ++ write_lp_string m.session_token

unfoldable pub parse_login_req : Parser LoginReq
parse_login_req = do
  player_name ← read_lp_string
  session_token ← read_lp_string
  accept (record { player_name = player_name; session_token = session_token })

pub record LoginRes : Type 0 where
  pub success : Bool
  pub message : List ℕ
  pub player_id : ℕ
  pub map_id : ℕ

unfoldable pub serialize_login_res : LoginRes → List ℕ
serialize_login_res m =
    write_bool m.success
    ++ (write_lp_string m.message ++ (write_le32 m.player_id ++ write_le32 m.map_id))

unfoldable pub parse_login_res : Parser LoginRes
parse_login_res = do
  need 1
  success ← read_bool
  message ← read_lp_string
  need 8
  player_id ← read_le32
  map_id ← read_le32
  accept (record { success = success; message = message; player_id = player_id; map_id = map_id })
