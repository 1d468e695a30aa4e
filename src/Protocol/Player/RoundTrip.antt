-- ===== src/Protocol/Player/RoundTrip.antt =====
-- The messages of common/protocol/protocol_player.hpp as Message gathers them: serialized and parsed.
use ecs_asio_server.Common.{ℕ, List, ◌++◌, ◌≡◌, ◌≤◌, length}
use ecs_asio_server.Wire.{ok, IsU32, IsText, sizes, run_parser, need_front, ◌>>=◌, map_parser, ◌>>◌}
use ecs_asio_server.Protocol.Player.Defs.{
  PlayerMoveReq, serialize_player_move_req, parse_player_move_req, PlayerMoveRes,
  serialize_player_move_res, parse_player_move_res, PlayerInfoReq, serialize_player_info_req,
  parse_player_info_req, PlayerInfoRes, serialize_player_info_res, parse_player_info_res,
  PlayerStatusUpdate, serialize_player_status_update, parse_player_status_update,
}
use ecs_asio_server.Protocol.Player.Message.{PlayerMessage, Fits, kind, serialize, parse}

player_move_req_size : (m : PlayerMoveReq) → 20 ≤ length (serialize_player_move_req m)
unfolding serialize_player_move_req
player_move_req_size m = omega sizes

parse-serialize_player_move_req :
    (m : PlayerMoveReq) (rest : List ℕ)
    → IsU32 m.x × IsU32 m.y × IsU32 m.z × IsU32 m.rotation × IsU32 m.timestamp
    → parse_player_move_req (serialize_player_move_req m ++ rest) ≡ ok m rest
unfolding parse_player_move_req
parse-serialize_player_move_req m rest h =
    rw (need_front 20 (serialize_player_move_req m) (player_move_req_size m), ◌>>=◌, ◌>>◌)
      (unfold serialize_player_move_req in simp (run_parser, h.0, h.1, h.2, h.3, h.4))

player_move_res_size : (m : PlayerMoveRes) → 24 ≤ length (serialize_player_move_res m)
unfolding serialize_player_move_res
player_move_res_size m = omega sizes

parse-serialize_player_move_res :
    (m : PlayerMoveRes) (rest : List ℕ)
    → IsU32 m.player_id × IsU32 m.x × IsU32 m.y × IsU32 m.z × IsU32 m.rotation × IsU32 m.timestamp
    → parse_player_move_res (serialize_player_move_res m ++ rest) ≡ ok m rest
unfolding parse_player_move_res
parse-serialize_player_move_res m rest h =
    rw (need_front 24 (serialize_player_move_res m) (player_move_res_size m), ◌>>=◌, ◌>>◌)
      (unfold serialize_player_move_res in simp (run_parser, h.0, h.1, h.2, h.3, h.4, h.5))

parse-serialize_player_info_req :
    (m : PlayerInfoReq) (rest : List ℕ)
    → IsU32 m.player_id
    → parse_player_info_req (serialize_player_info_req m ++ rest) ≡ ok m rest
unfolding parse_player_info_req serialize_player_info_req
parse-serialize_player_info_req m rest h = simp (run_parser, h)

player_info_res_size : (m : PlayerInfoRes) → 28 ≤ length (serialize_player_info_res m)
unfolding serialize_player_info_res
player_info_res_size m = omega sizes

parse-serialize_player_info_res :
    (m : PlayerInfoRes) (rest : List ℕ)
    → IsU32 m.player_id
      × IsText m.player_name
      × IsU32 m.level
      × IsU32 m.experience
      × IsU32 m.x
      × IsU32 m.y
      × IsU32 m.z
      × IsU32 m.rotation
      × IsU32 m.map_id
    → parse_player_info_res (serialize_player_info_res m ++ rest) ≡ ok m rest
unfolding parse_player_info_res
parse-serialize_player_info_res m rest h =
    rw (need_front 28 (serialize_player_info_res m) (player_info_res_size m), ◌>>=◌, ◌>>◌)
      (unfold serialize_player_info_res in
        simp (run_parser, h.0, h.1, h.2, h.3, h.4, h.5, h.6, h.7, h.8))

player_status_update_size :
    (m : PlayerStatusUpdate) → 12 ≤ length (serialize_player_status_update m)
unfolding serialize_player_status_update
player_status_update_size m = omega sizes

parse-serialize_player_status_update :
    (m : PlayerStatusUpdate) (rest : List ℕ)
    → IsU32 m.player_id × IsU32 m.status × IsU32 m.timestamp
    → parse_player_status_update (serialize_player_status_update m ++ rest) ≡ ok m rest
unfolding parse_player_status_update
parse-serialize_player_status_update m rest h =
    rw (need_front 12 (serialize_player_status_update m) (player_status_update_size m), ◌>>=◌, ◌>>◌)
      (unfold serialize_player_status_update in simp (run_parser, h.0, h.1, h.2))

-- Every message of protocol_player.hpp whose fields fit is read back from what it is serialized to, whatever
-- bytes follow it, and those bytes are left.
pub parse-serialize_player :
    (m : PlayerMessage) (rest : List ℕ) → Fits m → parse (kind m) (serialize m ++ rest) ≡ ok m rest
unfolding parse kind serialize map_parser
parse-serialize_player (PlayerMessage.player_move_req m) rest h =
    rw (◌>>=◌, parse-serialize_player_move_req m rest h)
parse-serialize_player (PlayerMessage.player_move_res m) rest h =
    rw (◌>>=◌, parse-serialize_player_move_res m rest h)
parse-serialize_player (PlayerMessage.player_info_req m) rest h =
    rw (◌>>=◌, parse-serialize_player_info_req m rest h)
parse-serialize_player (PlayerMessage.player_info_res m) rest h =
    rw (◌>>=◌, parse-serialize_player_info_res m rest h)
parse-serialize_player (PlayerMessage.player_status_update m) rest h =
    rw (◌>>=◌, parse-serialize_player_status_update m rest h)
