-- ===== src/Client/GameBot/Reading.antt =====
-- The reads of the bot beside those of a channel of the server.
use ecs_asio_server.Common.{
  ℕ, zero, suc, ◌+◌, ◌≡◌, refl, sym, ap, ◌∙◌, List, [], ◌∷◌, ◌++◌, true, false, length, arith, ◌==◌,
  if◌then◌else◌, append_assoc, append-nil,
}
use ecs_asio_server.Frame.Codec.{Attempt, nothing, frame, overread, try_parse_one}
use ecs_asio_server.Channel.{Channel}
use ecs_asio_server.Channel.Receive.{
  Outcome, done, outside, stuck, parse_loop, compact, after_loop, parse_frames, on_read, read_all,
}
use ecs_asio_server.Client.GameBot.{
  GameBot, Log, send_frame, on_frame, Parsing, ended, starved, frame_loop, shrink, after_frames,
  receive, recv_loop,
}
use ecs_asio_server.Client.GameBot as Bot

-- The answers of the bot to a row of frames: a pong for each ping.
pub answers : List (ℕ × List ℕ) → List (List ℕ) → List (List ℕ)
answers [] sent = sent
answers ((cmd, payload) ∷ fs) sent = answers fs (if cmd == 1 then send_frame 2 [] sent else sent)

answers-append :
    (fs gs : List (ℕ × List ℕ)) (sent : List (List ℕ))
    → answers (fs ++ gs) sent ≡ answers gs (answers fs sent)
unfolding answers
answers-append [] gs sent = refl
answers-append ((cmd, payload) ∷ fs) gs sent = answers-append fs gs _

-- The log after a row of frames.
abbrev on_frames : List (ℕ × List ℕ) → Log → Log
on_frames fs l = record { log_sent = answers fs l.log_sent; log_calls = l.log_calls ++ fs }

on_frames-append :
    (fs gs : List (ℕ × List ℕ)) (l : Log) → on_frames (fs ++ gs) l ≡ on_frames gs (on_frames fs l)
on_frames-append fs gs l = rw (answers-append fs gs l.log_sent, append_assoc l.log_calls fs gs) refl

abbrev alike : Log → Outcome → Parsing
alike sent (done o fs dropped) = ended o (on_frames fs sent)
alike sent outside = Bot.outside
alike sent stuck = starved

frame_loop-parse_loop :
    (fuel : ℕ) (acc : List ℕ) (o : ℕ) (fs : List (ℕ × List ℕ)) (d : ℕ) (sent : Log)
    → frame_loop fuel acc o (on_frames fs sent) ≡ alike sent (parse_loop fuel acc o fs d)
unfolding frame_loop parse_loop
frame_loop-parse_loop zero acc o fs d sent = refl
frame_loop-parse_loop (suc fuel) acc o fs d sent =
    by_attempt (λ o' gs e. frame_loop-parse_loop fuel acc o' gs e sent) (try_parse_one acc o) refl
  where
    good :
        (cmd : ℕ) (payload : List ℕ)
        → on_frame cmd payload (on_frames fs sent) ≡ on_frames (fs ++ ((cmd, payload) ∷ [])) sent
    good cmd payload =
        sym (on_frames-append fs ((cmd, payload) ∷ []) sent ∙ unfold answers on_frame in refl)

    by_attempt :
        ((o' : ℕ) (gs : List (ℕ × List ℕ)) (e : ℕ)
          → frame_loop fuel acc o' (on_frames gs sent) ≡ alike sent (parse_loop fuel acc o' gs e))
        → (a : Attempt) → try_parse_one acc o ≡ a
        → frame_loop (suc fuel) acc o (on_frames fs sent)
          ≡ alike sent (parse_loop (suc fuel) acc o fs d)
    by_attempt ih (nothing o') e = rw (e, frame_loop, parse_loop) refl
    by_attempt ih (frame hdr payload true o') e =
        rw (e, frame_loop, parse_loop)
          (ap (frame_loop fuel acc o') (good hdr.cmd payload)
            ∙ ih o' (fs ++ ((hdr.cmd, payload) ∷ [])) d)
    by_attempt ih (frame hdr payload false o') e = rw (e, frame_loop, parse_loop) (ih o' fs (d + 1))
    by_attempt ih overread e = rw (e, frame_loop, parse_loop) refl

-- The bot whose accumulator is that of a channel, that has called on_frame for the channel's frames, in
-- their order, and has answered each ping among them.
abbrev pub mirror : GameBot → Channel → GameBot
mirror b c = record b {
  acc = c.frame_acc;
  acc_offset = c.frame_acc_offset;
  sent = answers c.delivered b.sent;
  calls = b.calls ++ c.delivered;
}

abbrev log_of : GameBot → Log
log_of b = record { log_sent = b.sent; log_calls = b.calls }

shrink-compact : (b : GameBot) (c : Channel) → shrink (mirror b c) ≡ mirror b (compact c)
unfolding shrink compact
shrink-compact b c = ground arith

after_frames-after_loop :
    (b : GameBot) (c : Channel) (acc : List ℕ) (r : Outcome)
    → after_frames (record (mirror b c) { acc = acc }) (alike (on_frames c.delivered (log_of b)) r)
      ≡ mirror b (after_loop (record c { frame_acc = acc }) r)
unfolding after_frames after_loop
after_frames-after_loop b c acc (done o fs dropped) =
    ap
      (λ (l : Log).
        shrink (record b { acc = acc; acc_offset = o; sent = l.log_sent; calls = l.log_calls }))
      (sym (on_frames-append c.delivered fs (log_of b)))
    ∙ shrink-compact b _
after_frames-after_loop b c acc outside = refl
after_frames-after_loop b c acc stuck = refl

receive-on_read :
    (chunk : List ℕ) (b : GameBot) (c : Channel)
    → receive chunk (mirror b c) ≡ mirror b (on_read chunk c)
unfolding receive on_read parse_frames answers
receive-on_read chunk b c =
    let acc = c.frame_acc ++ chunk in
    let sent : Log = on_frames c.delivered (log_of b) in
    let none_new : sent ≡ on_frames [] sent =
      ap (λ fs. record { log_sent = answers c.delivered b.sent; log_calls = fs })
        (sym (append-nil (b.calls ++ c.delivered))) in
    ap (after_frames (record (mirror b c) { acc = acc })) (
      ap (frame_loop (length acc + 1) acc c.frame_acc_offset) none_new
      ∙ frame_loop-parse_loop (length acc + 1) acc c.frame_acc_offset [] 0 sent)
    ∙ after_frames-after_loop b c acc (parse_loop (length acc + 1) acc c.frame_acc_offset [] 0)

-- The bot and a channel of the server that start from one accumulator and read the same chunks, whatever
-- these are, have one accumulator and one offset after them. The bot has called on_frame with the commands
-- and payloads of just the frames that the channel has delivered, in their order, and has sent a pong for
-- each ping among them.
pub recv_loop-read_all :
    (chunks : List (List ℕ)) (b : GameBot) (c : Channel)
    → recv_loop chunks (mirror b c) ≡ mirror b (read_all chunks c)
unfolding recv_loop read_all
recv_loop-read_all [] b c = refl
recv_loop-read_all (chunk ∷ chunks) b c =
    ap (recv_loop chunks) (receive-on_read chunk b c)
    ∙ recv_loop-read_all chunks b (on_read chunk c)
