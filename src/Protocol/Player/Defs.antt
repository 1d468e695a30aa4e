-- ===== src/Protocol/Player/Defs.antt =====
-- The messages of common/protocol/protocol_player.hpp: the fields of each struct, its serialize() and its parse().
-- A float field holds the bit pattern of the float.
use ecs_asio_server.Common.{ℕ, List, ◌++◌}
use ecs_asio_server.Wire.{
  Parser, ◌>>=◌, ◌>>◌, accept, need, write_le32, write_float_le, write_lp_string, read_le32,
  read_float_le, read_lp_string,
}

pub record PlayerMoveReq : Type 0 where
  pub x : ℕ
  pub y : ℕ
  pub z : ℕ
  pub rotation : ℕ
  pub timestamp : ℕ

unfoldable pub serialize_player_move_req : PlayerMoveReq → List ℕ
serialize_player_move_req m =
    write_float_le m.x
    ++ (write_float_le m.y
        ++ (write_float_le m.z ++ (write_float_le m.rotation ++ write_le32 m.timestamp)))

unfoldable pub parse_player_move_req : Parser PlayerMoveReq
parse_player_move_req = do
  need 20
  x ← read_float_le
  y ← read_float_le
  z ← read_float_le
  rotation ← read_float_le
  timestamp ← read_le32
  accept (record { x = x; y = y; z = z; rotation = rotation; timestamp = timestamp })

pub record PlayerMoveRes : Type 0 where
  pub player_id : ℕ
  pub x : ℕ
  pub y : ℕ
  pub z : ℕ
  pub rotation : ℕ
  pub timestamp : ℕ

unfoldable pub serialize_player_move_res : PlayerMoveRes → List ℕ
serialize_player_move_res m =
    write_le32 m.player_id
    ++ (write_float_le m.x
        ++ (write_float_le m.y
            ++ (write_float_le m.z ++ (write_float_le m.rotation ++ write_le32 m.timestamp))))

unfoldable pub parse_player_move_res : Parser PlayerMoveRes
parse_player_move_res = do
  need 24
  player_id ← read_le32
  x ← read_float_le
  y ← read_float_le
  z ← read_float_le
  rotation ← read_float_le
  timestamp ← read_le32
  accept (record {
    player_id = player_id;
    x = x;
    y = y;
    z = z;
    rotation = rotation;
    timestamp = timestamp;
  })

pub record PlayerInfoReq : Type 0 where
  pub player_id : ℕ

unfoldable pub serialize_player_info_req : PlayerInfoReq → List ℕ
serialize_player_info_req m = write_le32 m.player_id

unfoldable pub parse_player_info_req : Parser PlayerInfoReq
parse_player_info_req = do need 4; player_id ← read_le32; accept (record { player_id = player_id })

pub record PlayerInfoRes : Type 0 where
  pub player_id : ℕ
  pub player_name : List ℕ
  pub level : ℕ
  pub experience : ℕ
  pub x : ℕ
  pub y : ℕ
  pub z : ℕ
  pub rotation : ℕ
  pub map_id : ℕ

unfoldable pub serialize_player_info_res : PlayerInfoRes → List ℕ
serialize_player_info_res m =
    write_le32 m.player_id
    ++ (write_lp_string m.player_name
        ++ (write_le32 m.level
            ++ (write_le32 m.experience
                ++ (write_float_le m.x
                    ++ (write_float_le m.y
                        ++ (write_float_le m.z
                            ++ (write_float_le m.rotation ++ write_le32 m.map_id)))))))

unfoldable pub parse_player_info_res : Parser PlayerInfoRes
parse_player_info_res = do
  need 28
  player_id ← read_le32
  player_name ← read_lp_string
  level ← read_le32
  experience ← read_le32
  x ← read_float_le
  y ← read_float_le
  z ← read_float_le
  rotation ← read_float_le
  map_id ← read_le32
  accept (record {
    player_id = player_id;
    player_name = player_name;
    level = level;
    experience = experience;
    x = x;
    y = y;
    z = z;
    rotation = rotation;
    map_id = map_id;
  })

pub record PlayerStatusUpdate : Type 0 where
  pub player_id : ℕ
  pub status : ℕ
  pub timestamp : ℕ

unfoldable pub serialize_player_status_update : PlayerStatusUpdate → List ℕ
serialize_player_status_update m =
    write_le32 m.player_id ++ (write_le32 m.status ++ write_le32 m.timestamp)

unfoldable pub parse_player_status_update : Parser PlayerStatusUpdate
parse_player_status_update = do
  need 12
  player_id ← read_le32
  status ← read_le32
  timestamp ← read_le32
  accept (record { player_id = player_id; status = status; timestamp = timestamp })
