-- ===== src/Protocol/Map/Defs.antt =====
-- The messages of common/protocol/protocol_map.hpp: the fields of each struct, its serialize() and its parse().
-- A float field holds the bit pattern of the float.
use ecs_asio_server.Common.{ℕ, List, Bool, ◌∷◌, ◌++◌}
use ecs_asio_server.Wire.{
  Parser, ◌>>=◌, ◌>>◌, accept, need, write_le32, write_float_le, write_bool, write_lp_string,
  read_u8, read_bool, read_le32, read_float_le, read_lp_string,
}

pub record MapEnterReq : Type 0 where
  pub map_id : ℕ
  pub x : ℕ
  pub y : ℕ
  pub z : ℕ
  pub timestamp : ℕ

unfoldable pub serialize_map_enter_req : MapEnterReq → List ℕ
serialize_map_enter_req m =
    write_le32 m.map_id
    ++ (write_float_le m.x
        ++ (write_float_le m.y ++ (write_float_le m.z ++ write_le32 m.timestamp)))

unfoldable pub parse_map_enter_req : Parser MapEnterReq
parse_map_enter_req = do
  need 20
  map_id ← read_le32
  x ← read_float_le
  y ← read_float_le
  z ← read_float_le
  timestamp ← read_le32
  accept (record { map_id = map_id; x = x; y = y; z = z; timestamp = timestamp })

pub record MapEnterRes : Type 0 where
  pub success : Bool
  pub message : List ℕ
  pub map_id : ℕ
  pub map_name : List ℕ
  pub x : ℕ
  pub y : ℕ
  pub z : ℕ
  pub player_count : ℕ

unfoldable pub serialize_map_enter_res : MapEnterRes → List ℕ
serialize_map_enter_res m =
    write_bool m.success
    ++ (write_lp_string m.message
        ++ (write_le32 m.map_id
            ++ (write_lp_string m.map_name
                ++ (write_float_le m.x
                    ++ (write_float_le m.y ++ (write_float_le m.z ++ write_le32 m.player_count))))))

unfoldable pub parse_map_enter_res : Parser MapEnterRes
parse_map_enter_res = do
  need 20
  success ← read_bool
  message ← read_lp_string
  map_id ← read_le32
  map_name ← read_lp_string
  x ← read_float_le
  y ← read_float_le
  z ← read_float_le
  player_count ← read_le32
  accept (record {
    success = success;
    message = message;
    map_id = map_id;
    map_name = map_name;
    x = x;
    y = y;
    z = z;
    player_count = player_count;
  })

pub record MapLeaveReq : Type 0 where
  pub map_id : ℕ
  pub timestamp : ℕ

unfoldable pub serialize_map_leave_req : MapLeaveReq → List ℕ
serialize_map_leave_req m = write_le32 m.map_id ++ write_le32 m.timestamp

unfoldable pub parse_map_leave_req : Parser MapLeaveReq
parse_map_leave_req = do
  need 8
  map_id ← read_le32
  timestamp ← read_le32
  accept (record { map_id = map_id; timestamp = timestamp })

pub record MapLeaveRes : Type 0 where
  pub success : Bool
  pub message : List ℕ
  pub map_id : ℕ

unfoldable pub serialize_map_leave_res : MapLeaveRes → List ℕ
serialize_map_leave_res m =
    write_bool m.success ++ (write_lp_string m.message ++ write_le32 m.map_id)

unfoldable pub parse_map_leave_res : Parser MapLeaveRes
parse_map_leave_res = do
  need 8
  success ← read_bool
  message ← read_lp_string
  map_id ← read_le32
  accept (record { success = success; message = message; map_id = map_id })

pub record MapObjectInfo : Type 0 where
  pub object_id : ℕ
  pub object_type : ℕ
  pub object_name : List ℕ
  pub x : ℕ
  pub y : ℕ
  pub z : ℕ
  pub rotation : ℕ
  pub level : ℕ
  pub hp : ℕ
  pub max_hp : ℕ

unfoldable pub serialize_map_object_info : MapObjectInfo → List ℕ
serialize_map_object_info m =
    write_le32 m.object_id
    ++ (m.object_type
        ∷ (write_lp_string m.object_name
            ++ (write_float_le m.x
                ++ (write_float_le m.y
                    ++ (write_float_le m.z
                        ++ (write_float_le m.rotation
                            ++ (write_le32 m.level
                                ++ (write_le32 m.hp ++ write_le32 m.max_hp))))))))

unfoldable pub parse_map_object_info : Parser MapObjectInfo
parse_map_object_info = do
  need 28
  object_id ← read_le32
  object_type ← read_u8
  object_name ← read_lp_string
  x ← read_float_le
  y ← read_float_le
  z ← read_float_le
  rotation ← read_float_le
  level ← read_le32
  hp ← read_le32
  max_hp ← read_le32
  accept (record {
    object_id = object_id;
    object_type = object_type;
    object_name = object_name;
    x = x;
    y = y;
    z = z;
    rotation = rotation;
    level = level;
    hp = hp;
    max_hp = max_hp;
  })

pub record MapInfoReq : Type 0 where
  pub map_id : ℕ

unfoldable pub serialize_map_info_req : MapInfoReq → List ℕ
serialize_map_info_req m = write_le32 m.map_id

unfoldable pub parse_map_info_req : Parser MapInfoReq
parse_map_info_req = do need 4; map_id ← read_le32; accept (record { map_id = map_id })

pub record MapInfoRes : Type 0 where
  pub map_id : ℕ
  pub map_name : List ℕ
  pub map_description : List ℕ
  pub map_width : ℕ
  pub map_height : ℕ
  pub max_players : ℕ
  pub current_players : ℕ
  pub map_type : ℕ
  pub required_level : ℕ

unfoldable pub serialize_map_info_res : MapInfoRes → List ℕ
serialize_map_info_res m =
    write_le32 m.map_id
    ++ (write_lp_string m.map_name
        ++ (write_lp_string m.map_description
            ++ (write_le32 m.map_width
                ++ (write_le32 m.map_height
                    ++ (write_le32 m.max_players
                        ++ (write_le32 m.current_players
                            ++ (m.map_type ∷ write_le32 m.required_level)))))))

unfoldable pub parse_map_info_res : Parser MapInfoRes
parse_map_info_res = do
  need 24
  map_id ← read_le32
  map_name ← read_lp_string
  map_description ← read_lp_string
  map_width ← read_le32
  map_height ← read_le32
  max_players ← read_le32
  current_players ← read_le32
  map_type ← read_u8
  required_level ← read_le32
  accept (record {
    map_id = map_id;
    map_name = map_name;
    map_description = map_description;
    map_width = map_width;
    map_height = map_height;
    max_players = max_players;
    current_players = current_players;
    map_type = map_type;
    required_level = required_level;
  })
