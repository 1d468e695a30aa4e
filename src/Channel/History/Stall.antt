-- ===== src/Channel/History/Stall.antt =====
-- A message that is longer than a batch at the front of the write queue.
use ecs_asio_server.Common.{
  ℕ, ◌<◌, ◌≤◌, ◌≡◌, refl, ap, ◌∙◌, List, [], ◌∷◌, ◌++◌, length, Bool, true, false, none, arith,
  if_cases, ltb, leb, ◌==◌,
}
use ecs_asio_server.Channel.{Channel, CloseFunction, force_closed, timeout}
use ecs_asio_server.Channel.Receive.{parse_frames, after_loop, compact, on_read}
use ecs_asio_server.Channel.Send.{
  send, send_ping, close, enqueue_send, make_batch, do_write, try_write, on_ping_timer,
  on_idle_timer, on_write_error, max_batch_bytes, max_queue_bytes, add64, sub64, idle_limit_ms,
}
use ecs_asio_server.Channel.Send.Batching.{make_batch_long}
use ecs_asio_server.Channel.History.{
  Step, Reach, sends, reads, reports, fails, closes, idles, pings, here, next,
}

-- The channel has the long message `front` first in its queue, writes nothing, and has handed over
-- what `s` had.
pub record Stalled (front : List ℕ) (s c : Channel) : Type 0 where
  pub behind : List (List ℕ)
  pub queued : c.write_queue ≡ front ∷ behind
  pub idle : c.in_flight ≡ none
  pub nothing : c.handed ≡ s.handed

module _ (front : List ℕ) (long : max_batch_bytes < length front) (s : Channel) where
  do_write-Stalled : (c : Channel) → Stalled front s c → Stalled front s (do_write c)
  unfolding do_write
  do_write-Stalled c v =
      let e = ap make_batch v.queued ∙ make_batch_long front v.behind long in
      ground (arith, e, v.queued, v.idle, v.nothing)

  try_write-Stalled : (c : Channel) → Stalled front s c → Stalled front s (try_write c)
  unfolding try_write
  try_write-Stalled c v =
      if_cases (Stalled front s) c.writing (λ _. v)
        (λ _.
          do_write-Stalled (record c { writing = true })
            (record { behind = v.behind; queued = v.queued; idle = v.idle; nothing = v.nothing }))

  close-Stalled :
      (c : Channel) (reason : CloseFunction)
      → Stalled front s c
      → Stalled front s (close reason c).0
  unfolding close
  close-Stalled c reason v =
      if_cases (λ (r : Channel × Bool). Stalled front s r.0) c.closed (λ _. v)
        (λ _. record { behind = v.behind; queued = v.queued; idle = v.idle; nothing = v.nothing })

  enqueue_send-Stalled :
      (c : Channel) (bytes : List ℕ) → Stalled front s c → Stalled front s (enqueue_send bytes c).0
  unfolding enqueue_send
  enqueue_send-Stalled c bytes v =
      if_cases (λ (r : Channel × Bool). Stalled front s r.0) (length bytes == 0) (λ _. v)
        λ _.
          if_cases (λ (r : Channel × Bool). Stalled front s r.0)
            (ltb max_queue_bytes (add64 c.current_queue_bytes (length bytes)))
            (λ _. record {
              behind = v.behind;
              queued = v.queued;
              idle = v.idle;
              nothing = v.nothing;
            })
            (λ _. record {
              behind = v.behind ++ (bytes ∷ []);
              queued = ap (λ q. q ++ (bytes ∷ [])) v.queued;
              idle = v.idle;
              nothing = v.nothing;
            })

  send-Stalled : (c : Channel) (bytes : List ℕ) → Stalled front s c → Stalled front s (send bytes c)
  unfolding send
  send-Stalled c bytes v =
      let w = enqueue_send-Stalled c bytes v in
      if_cases (Stalled front s) c.closed (λ _. v)
        λ _.
          if_cases (Stalled front s) (length bytes == 0) (λ _. v)
            λ _.
              if_cases (Stalled front s) (enqueue_send bytes c).1
                (λ _. try_write-Stalled (enqueue_send bytes c).0 w)
                (λ _. close-Stalled _ force_closed (record {
                  behind = w.behind;
                  queued = w.queued;
                  idle = w.idle;
                  nothing = w.nothing;
                }))

  Step-Stalled : {c d : Channel} → Step c d → Stalled front s c → Stalled front s d
  unfolding on_read parse_frames after_loop compact on_idle_timer on_ping_timer send_ping
      on_write_error
  Step-Stalled {c} (sends bytes b) v = send-Stalled c bytes v
  Step-Stalled (reads chunk) v = ground (arith, v.queued, v.idle, v.nothing)
  Step-Stalled (reports now msgs bytes e) v = let i = v.idle in cc
  Step-Stalled (fails b e) v = let i = v.idle in cc
  Step-Stalled {c} (closes reason) v = close-Stalled c reason v
  Step-Stalled {c} (idles now) v =
      if_cases (λ (r : Channel × Bool). Stalled front s r.0) c.closed (λ _. v)
        λ _.
          if_cases (λ (r : Channel × Bool). Stalled front s r.0)
            (leb idle_limit_ms (sub64 now c.last_recv_ms)) (λ _. close-Stalled c timeout v) (λ _. v)
  Step-Stalled {c} pings v =
      if_cases (λ (r : Channel × Bool). Stalled front s r.0) c.closed (λ _. v)
        (λ _. send-Stalled c _ v)

  Reach_from-Stalled : {c d : Channel} → Reach c d → Stalled front s c → Stalled front s d
  Reach_from-Stalled here v = v
  Reach_from-Stalled (next r t) v = Step-Stalled t (Reach_from-Stalled r v)

  module _ (open_ : s.closed ≡ false) (quiet : s.writing ≡ false) (empty : s.write_queue ≡ [])
      (idle : s.in_flight ≡ none) (zeroed : s.current_queue_bytes ≡ 0)
      (fits : length front ≤ max_queue_bytes) where
    enqueued-Stalled : (enqueue_send front s).1 ≡ true × Stalled front s (enqueue_send front s).0
    unfolding enqueue_send
    enqueued-Stalled =
        if_cases (λ (r : Channel × Bool). (r.1 ≡ true) × Stalled front s r.0) (length front == 0)
          (λ z. absurd (ground (arith, long)))
          λ _.
            if_cases (λ (r : Channel × Bool). (r.1 ≡ true) × Stalled front s r.0)
              (ltb max_queue_bytes (add64 s.current_queue_bytes (length front)))
              (λ z. absurd (ground arith))
              (λ _. (
                refl,
                record {
                  behind = [];
                  queued = ap (λ q. q ++ (front ∷ [])) empty;
                  idle = idle;
                  nothing = refl;
                },
              ))

    -- An open, idle channel accepts a message of more than 64 KiB and at most 256 KiB.
    accepted-Stalled : Stalled front s (send front s)
    unfolding send
    accepted-Stalled =
        if_cases (Stalled front s) s.closed (λ e. absurd cc)
          λ _.
            if_cases (Stalled front s) (length front == 0) (λ z. absurd (ground (arith, long)))
              λ _.
                if_cases (Stalled front s) (enqueue_send front s).1
                  (λ _. try_write-Stalled (enqueue_send front s).0 enqueued-Stalled.1)
                  (λ e. let t = enqueued-Stalled.0 in absurd cc)

-- A message of more than 64 KiB and at most 256 KiB that an open and idle channel accepts is never
-- written, nor is anything behind it: after any steps it is still first in the queue, no write is in
-- flight and async_write has been given nothing more.
pub send_long-Stalled :
    (front : List ℕ) (s : Channel) {c : Channel}
    → max_batch_bytes < length front
    → length front ≤ max_queue_bytes
    → s.closed ≡ false
    → s.writing ≡ false
    → s.write_queue ≡ []
    → s.in_flight ≡ none
    → s.current_queue_bytes ≡ 0
    → Reach (send front s) c
    → Stalled front s c
send_long-Stalled front s long fits open_ quiet empty idle zeroed r =
    Reach_from-Stalled front long s r
      (accepted-Stalled front long s open_ quiet empty idle zeroed fits)
