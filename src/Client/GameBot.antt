-- ===== src/Client/GameBot.antt =====
-- client/game_bot.cpp: what the bot writes and what it does with the bytes that it reads. What it prints
-- is left out, and with it the parse of a LOGIN_RES, which is only printed.
pub mod Reading
use ecs_asio_server.Common.{
  ℕ, zero, suc, ◌+◌, ◌*◌, ◌/◌, ◌%◌, List, [], ◌∷◌, ◌++◌, Bool, length, drop, ltb, ◌==◌,
  if◌then◌else◌,
}
use ecs_asio_server.Common.Decimal.{to_string}
use ecs_asio_server.Frame.Codec.{HeaderV1, Attempt, nothing, frame, overread, try_parse_one, pack}
use ecs_asio_server.Protocol.Base.Defs.{serialize_login_req}
use ecs_asio_server.Protocol.Player.Defs.{serialize_player_move_req}

-- `sent` are the buffers that were given to asio::write, and `calls` the command and payload of each call
-- of on_frame, the oldest first.
pub record GameBot : Type 0 where
  pub player_name : List ℕ
  pub session_token : List ℕ
  pub acc : List ℕ
  pub acc_offset : ℕ
  pub sent : List (List ℕ)
  pub calls : List (ℕ × List ℕ)

-- What on_frame adds to.
pub record Log : Type 0 where
  pub log_sent : List (List ℕ)
  pub log_calls : List (ℕ × List ℕ)

unfoldable pub send_frame : ℕ → List ℕ → List (List ℕ) → List (List ℕ)
send_frame cmd bytes sent =
    sent ++ (pack (record { cmd = cmd; flags = 0; ver = 1; seq = 0; payload = bytes }) ∷ [])

unfoldable pub send_login : GameBot → GameBot
send_login b = record b {
  sent =
      send_frame 1001
        (serialize_login_req
          (record { player_name = b.player_name; session_token = b.session_token }))
        b.sent;
}

-- connect: authenticate gives the empty token.
unfoldable pub log_in : GameBot → GameBot
log_in b = send_login (record b { session_token = [] })

-- x and z are bit patterns; the rotation is 0.f and the timestamp 0.
unfoldable pub send_move : ℕ → ℕ → ℕ → GameBot → GameBot
send_move x y z b = record b {
  sent =
      send_frame 1002
        (serialize_player_move_req (record { x = x; y = y; z = z; rotation = 0; timestamp = 0 }))
        b.sent;
}

unfoldable pub send_chat : List ℕ → GameBot → GameBot
send_chat msg b = record b { sent = send_frame 1003 msg b.sent }

unfoldable pub send_ping : GameBot → GameBot
send_ping b = record b { sent = send_frame 1 [] b.sent }

abbrev pub step_text : ℕ → List ℕ → List ℕ
step_text i name =
    (b's' ∷ b't' ∷ b'e' ∷ b'p' ∷ b'=' ∷ [])
    ++ (to_string i ++ ((b' ' ∷ b'f' ∷ b'r' ∷ b'o' ∷ b'm' ∷ b' ' ∷ []) ++ name))

-- A turn of the loop of run, where the bot is not stopped meanwhile; `float` is the conversion of an int.
unfoldable pub run_turn : (ℕ → ℕ) → ℕ → GameBot → GameBot
run_turn float i b =
    let moved = send_move (float (i * 5)) 0 (float (i * 3)) b in
    if i % 3 == 0 then send_chat (step_text i b.player_name) moved else moved

unfoldable pub run_loop : (ℕ → ℕ) → ℕ → ℕ → GameBot → GameBot
run_loop float i zero b = b
run_loop float i (suc left) b = run_loop float (i + 1) left (run_turn float i b)

unfoldable pub run : (ℕ → ℕ) → ℕ → GameBot → GameBot
run float move_count b = send_ping (run_loop float 0 move_count b)

-- A ping is answered; every other command is only printed.
unfoldable pub on_frame : ℕ → List ℕ → Log → Log
on_frame cmd payload log = record {
  log_sent = if cmd == 1 then send_frame 2 [] log.log_sent else log.log_sent;
  log_calls = log.log_calls ++ ((cmd, payload) ∷ []);
}

-- How the inner loop of recv_loop ends: with the offset and the log, with a read outside of acc_,
-- or, in the model only, for want of fuel.
pub data Parsing : Type 0 where
  ended : ℕ → Log → Parsing
  outside : Parsing
  starved : Parsing

unfoldable pub frame_loop : ℕ → List ℕ → ℕ → Log → Parsing
frame_loop zero acc offset log = starved
frame_loop (suc fuel) acc offset log = elim (try_parse_one acc offset) [
  | nothing o ↦ ended o log
  | frame hdr payload crc_ok o ↦
      frame_loop fuel acc o (if crc_ok then on_frame hdr.cmd payload log else log)
  | overread ↦ outside
]

unfoldable pub shrink : GameBot → GameBot
shrink b =
    if ltb (length b.acc / 2) b.acc_offset
    then record b { acc = drop b.acc_offset b.acc; acc_offset = 0 }
    else b

unfoldable pub after_frames : GameBot → Parsing → GameBot
after_frames b (ended o log) =
    shrink (record b { acc_offset = o; sent = log.log_sent; calls = log.log_calls })
after_frames b outside = b
after_frames b starved = b

-- A turn of recv_loop, which read `chunk`.
unfoldable pub receive : List ℕ → GameBot → GameBot
receive chunk b =
    let acc = b.acc ++ chunk in
    after_frames (record b { acc = acc })
      (frame_loop (length acc + 1) acc b.acc_offset
        (record { log_sent = b.sent; log_calls = b.calls }))

unfoldable pub recv_loop : List (List ℕ) → GameBot → GameBot
recv_loop [] b = b
recv_loop (chunk ∷ chunks) b = recv_loop chunks (receive chunk b)
