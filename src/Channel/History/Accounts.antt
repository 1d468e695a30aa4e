-- ===== src/Channel/History/Accounts.antt =====
-- The accounts of the write side over the histories of a channel.
use ecs_asio_server.Common.{ℕ, ◌≡◌, refl, [], length, arith}
use ecs_asio_server.Frame.Codec.{Message, pack, proto_ver}
use ecs_asio_server.Frame.Codec.Steps.{length-pack}
use ecs_asio_server.Channel.{Channel, start, fresh}
use ecs_asio_server.Channel.Send.{send_ping, on_ping_timer}
use ecs_asio_server.Channel.Send.Invariant.{
  Inv, send-Inv, close-Inv, on_read-Inv, on_written-Inv, on_write_error-Inv, on_idle_timer-Inv,
}
use ecs_asio_server.Channel.History.{
  Step, Reach, sends, reads, reports, fails, closes, idles, pings, here, next,
}

pub start-Inv : (now : ℕ) → Inv (start now fresh)
unfolding start
start-Inv now = record {
  counted = refl;
  bounded = omega arith;
  peak = omega arith;
  busy = refl;
  once = refl;
  ended = refl;
}

abbrev pub ping : Message
ping = record { cmd = 1; flags = 0; ver = proto_ver; seq = 0; payload = [] }

pub length-ping : length (pack ping) ≡ 16
length-ping = length-pack ping

on_ping_timer-Inv : (c : Channel) → Inv c → Inv (on_ping_timer c).0
unfolding on_ping_timer send_ping
on_ping_timer-Inv c v = ground (arith, send-Inv c (pack ping), length-ping)

-- Every step keeps the accounts.
Step-Inv : {c d : Channel} → Step c d → Inv c → Inv d
Step-Inv {c} (sends bytes h) v = send-Inv c bytes h v
Step-Inv {c} (reads chunk) v = on_read-Inv c chunk v
Step-Inv {c} (reports now msgs bytes e) v = on_written-Inv c now msgs bytes e v
Step-Inv {c} (fails b e) v = on_write_error-Inv c b e v
Step-Inv {c} (closes reason) v = close-Inv c reason v
Step-Inv {c} (idles now) v = on_idle_timer-Inv c now v
Step-Inv {c} pings v = on_ping_timer-Inv c v

pub Reach_from-Inv : {s c : Channel} → Reach s c → Inv s → Inv c
Reach_from-Inv here v = v
Reach_from-Inv (next r t) v = Step-Inv t (Reach_from-Inv r v)

-- In every history of a started channel, current_queue_bytes is the bytes that are queued, being
-- written, or of an async_write that failed; it stays within peak_queued and that within 256 KiB.
-- writing_ is set exactly while an async_write has not been reported and, for good, after one was reported
-- to have failed: then the channel is closed and none is in flight.
pub Reach-Inv : (now : ℕ) {c : Channel} → Reach (start now fresh) c → Inv c
Reach-Inv now r = Reach_from-Inv r (start-Inv now)
