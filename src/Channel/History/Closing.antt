-- ===== src/Channel/History/Closing.antt =====
-- How often on_close runs.
use ecs_asio_server.Common.{
  ℕ, ◌≡◌, refl, List, [], ◌∷◌, length, Bool, true, false, arith, if_cases, length-append, ◌==◌,
}
use ecs_asio_server.Channel.{Channel, CloseFunction, start, fresh, write, timeout, force_closed}
use ecs_asio_server.Channel.Receive.{parse_frames, after_loop, compact, on_read}
use ecs_asio_server.Channel.Send.{
  send, send_ping, close, enqueue_send, do_write, try_write, on_written, on_ping_timer,
  on_idle_timer, on_write_error, is_empty,
}
use ecs_asio_server.Channel.History.{
  Step, Reach, sends, reads, reports, fails, closes, idles, pings, here, next,
}

abbrev once : Bool → ℕ
once true = 1
once false = 0

-- on_close has run exactly if the channel is closed, and then once.
abbrev pub ClosedOnce : Channel → Type 0
ClosedOnce c = length c.close_calls ≡ once c.closed

close-ClosedOnce :
    (c : Channel) (reason : CloseFunction) → ClosedOnce c → ClosedOnce (close reason c).0
unfolding close
close-ClosedOnce c reason h = ground (arith, length-append c.close_calls (reason ∷ []))

try_write-ClosedOnce : (c : Channel) → ClosedOnce c → ClosedOnce (try_write c)
unfolding try_write do_write
try_write-ClosedOnce c h = ground arith

enqueue_send-ClosedOnce :
    (c : Channel) (bytes : List ℕ) → ClosedOnce c → ClosedOnce (enqueue_send bytes c).0
unfolding enqueue_send
enqueue_send-ClosedOnce c bytes h = ground arith

send-ClosedOnce : (c : Channel) (bytes : List ℕ) → ClosedOnce c → ClosedOnce (send bytes c)
unfolding send
send-ClosedOnce c bytes h =
    let k = enqueue_send-ClosedOnce c bytes h in
    if_cases ClosedOnce c.closed (λ _. h)
      λ _.
        if_cases ClosedOnce (length bytes == 0) (λ _. h)
          λ _.
            if_cases ClosedOnce (enqueue_send bytes c).1
              (λ _. try_write-ClosedOnce (enqueue_send bytes c).0 k)
              (λ _. close-ClosedOnce _ force_closed k)

Step-ClosedOnce : {c d : Channel} → Step c d → ClosedOnce c → ClosedOnce d
unfolding on_read parse_frames after_loop compact on_written on_idle_timer on_ping_timer send_ping
    on_write_error
Step-ClosedOnce {c} (sends bytes b) h = send-ClosedOnce c bytes h
Step-ClosedOnce (reads chunk) h = ground arith
Step-ClosedOnce {c} (reports now msgs bytes e) h =
    if_cases ClosedOnce (is_empty c.write_queue) (λ _. h) (λ _. try_write-ClosedOnce _ h)
Step-ClosedOnce {c} (fails b e) h = close-ClosedOnce _ write h
Step-ClosedOnce {c} (closes reason) h = close-ClosedOnce c reason h
Step-ClosedOnce {c} (idles now) h = ground (arith, close-ClosedOnce c timeout h)
Step-ClosedOnce {c} pings h =
    if_cases (λ (r : Channel × Bool). ClosedOnce r.0) c.closed (λ _. h) (λ _. send-ClosedOnce c _ h)

-- However a channel is closed, by the server, a timer, a failed read or write, a refused message or
-- several of these, on_close has run once if it is closed and not at all if it is not.
pub Reach-ClosedOnce : (now : ℕ) {c : Channel} → Reach (start now fresh) c → ClosedOnce c
unfolding start
Reach-ClosedOnce now here = refl
Reach-ClosedOnce now (next r s) = Step-ClosedOnce s (Reach-ClosedOnce now r)
