-- ===== src/Channel/History/Idle.antt =====
-- The idle timer. No handler stores last_recv_ms after start.
use ecs_asio_server.Common.{
  ℕ, ◌+◌, ◌^◌, ◌<◌, ◌≤◌, ◌≡◌, refl, ◌∙◌, List, [], ◌∷◌, ◌++◌, Bool, true, false, arith, if_cases,
}
use ecs_asio_server.Channel.{Channel, start, fresh, timeout}
use ecs_asio_server.Channel.Receive.{parse_frames, after_loop, compact, on_read}
use ecs_asio_server.Channel.Send.{
  send, send_ping, close, enqueue_send, do_write, try_write, on_written, on_ping_timer,
  on_idle_timer, on_write_error, idle_limit_ms,
}
use ecs_asio_server.Channel.History.{
  Step, Reach, sends, reads, reports, fails, closes, idles, pings, here, next,
}

send_keeps : (c : Channel) (bytes : List ℕ) → (send bytes c).last_recv_ms ≡ c.last_recv_ms
unfolding send enqueue_send try_write do_write close
send_keeps c bytes = ground arith

Step-last_recv_ms : {c d : Channel} → Step c d → d.last_recv_ms ≡ c.last_recv_ms
unfolding on_read parse_frames after_loop compact on_written on_idle_timer on_ping_timer send_ping
    on_write_error close try_write do_write
Step-last_recv_ms {c} (sends bytes b) = send_keeps c bytes
Step-last_recv_ms (reads chunk) = ground arith
Step-last_recv_ms (reports now msgs bytes e) = ground arith
Step-last_recv_ms (fails b e) = ground arith
Step-last_recv_ms (closes reason) = ground arith
Step-last_recv_ms (idles now) = ground arith
Step-last_recv_ms {c} pings =
    if_cases (λ (r : Channel × Bool). r.0.last_recv_ms ≡ c.last_recv_ms) c.closed (λ _. refl)
      (λ _. send_keeps c _)

Reach-last_recv_ms : {s c : Channel} → Reach s c → c.last_recv_ms ≡ s.last_recv_ms
Reach-last_recv_ms here = refl
Reach-last_recv_ms (next r s) = Step-last_recv_ms s ∙ Reach-last_recv_ms r

-- Thirty seconds after start the idle timer closes the channel with the reason timeout, whatever has
-- been received since: any history of reads, sends and reports leads there if the channel is open.
pub idle_closes_active :
    (begin now : ℕ) {c : Channel}
    → Reach (start begin fresh) c
    → c.closed ≡ false
    → begin + idle_limit_ms ≤ now
    → now < 2 ^ 64
    → ((on_idle_timer now c).0.closed ≡ true)
      × ((on_idle_timer now c).0.close_calls ≡ c.close_calls ++ (timeout ∷ []))
      × ((on_idle_timer now c).1 ≡ false)
unfolding start on_idle_timer close
idle_closes_active begin now r open_ late small = ground (arith, Reach-last_recv_ms r)
