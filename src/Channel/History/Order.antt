-- ===== src/Channel/History/Order.antt =====
-- The order of the bytes that async_write is given.
use ecs_asio_server.Common.{
  ℕ, ◌+◌, ◌^◌, ◌<◌, ◌≤◌, ◌≡◌, refl, ap, sym, ◌∙◌, List, [], ◌∷◌, ◌++◌, append-nil, append_assoc,
  length, flat, flat-snoc, Bool, true, false, arith, if_cases, ltb, ◌==◌, if◌then◌else◌,
}
use ecs_asio_server.Frame.Codec.{pack}
use ecs_asio_server.Channel.{Channel, CloseFunction, force_closed}
use ecs_asio_server.Channel.Receive.{parse_frames, after_loop, compact, on_read}
use ecs_asio_server.Channel.Send.{
  send, send_ping, close, enqueue_send, make_batch, do_write, try_write, on_written, on_ping_timer,
  on_idle_timer, on_write_error, is_empty, max_queue_bytes,
}
use ecs_asio_server.Channel.Send.Batching.{make_batch-Takes}
use ecs_asio_server.Channel.Send.Invariant.{Inv}
use ecs_asio_server.Channel.History.{
  Step, Reach, sends, reads, reports, fails, closes, idles, pings, here, next,
}
use ecs_asio_server.Channel.History.Accounts.{ping, length-ping, Reach_from-Inv}

-- What was handed to async_write, and what is queued behind it.
abbrev pub stream : Channel → List ℕ
stream c = c.handed ++ flat c.write_queue

-- What a `send` adds: the message, unless the channel is closed or has no room for it.
abbrev pub accepts : List ℕ → Channel → List ℕ
accepts bytes c =
    if c.closed
    then []
    else if ltb max_queue_bytes (c.current_queue_bytes + length bytes)
    then []
    else bytes

do_write-stream : (c : Channel) → stream (do_write c) ≡ stream c
unfolding do_write
do_write-stream c =
    if_cases (λ d. stream d ≡ stream c) (ltb 0 (make_batch c.write_queue).out_msgs)
      (λ _.
        append_assoc c.handed (make_batch c.write_queue).out (flat (make_batch c.write_queue).left)
        ∙ ap (◌++◌ c.handed) (make_batch-Takes c.write_queue).bytes)
      (λ _. refl)

try_write-stream : (c : Channel) → stream (try_write c) ≡ stream c
unfolding try_write
try_write-stream c =
    if_cases (λ d. stream d ≡ stream c) c.writing (λ _. refl)
      (λ _. do_write-stream (record c { writing = true }))

close-stream : (c : Channel) (reason : CloseFunction) → stream (close reason c).0 ≡ stream c
unfolding close
close-stream c reason = ground arith

enqueue_send-stream :
    (c : Channel) (bytes : List ℕ)
    → length bytes < 2 ^ 31
    → c.current_queue_bytes ≤ max_queue_bytes
    → c.closed ≡ false
    → stream (enqueue_send bytes c).0 ≡ stream c ++ accepts bytes c
unfolding enqueue_send
enqueue_send-stream c [] h v o = ground (arith, append-nil (stream c))
enqueue_send-stream c (b ∷ bs) h v o = ground (
  arith,
  append-nil (stream c),
  flat-snoc c.write_queue (b ∷ bs),
  append_assoc c.handed (flat c.write_queue) (b ∷ bs),
)

pub send-stream :
    (c : Channel) (bytes : List ℕ)
    → length bytes < 2 ^ 31
    → c.current_queue_bytes ≤ max_queue_bytes
    → stream (send bytes c) ≡ stream c ++ accepts bytes c
unfolding send
send-stream c bytes h v =
    if_cases P c.closed
      (λ o. sym (ap (◌++◌ (stream c)) (ap (λ b. if b then [] else room) o) ∙ append-nil (stream c)))
      λ o.
        if_cases P (length bytes == 0) (λ z. empty bytes (ground arith))
          λ z.
            let taken = enqueue_send-stream c bytes h v o in
            if_cases P (enqueue_send bytes c).1
              (λ _. try_write-stream (enqueue_send bytes c).0 ∙ taken)
              (λ _. close-stream _ force_closed ∙ taken)
  where
    P : Channel → Type 0
    P d = stream d ≡ stream c ++ accepts bytes c

    room : List ℕ
    room = if ltb max_queue_bytes (c.current_queue_bytes + length bytes) then [] else bytes

    empty : (xs : List ℕ) → length xs ≡ 0 → stream c ≡ stream c ++ accepts xs c
    empty [] e = ground (arith, append-nil (stream c))
    empty (x ∷ xs) e = absurd (omega arith)

-- What a step adds to the stream.
abbrev pub adds : {c d : Channel} → Step c d → List ℕ
adds {c} (sends bytes h) = accepts bytes c
adds {c} pings = accepts (pack ping) c
adds (reads chunk) = []
adds (reports now msgs bytes e) = []
adds (fails b e) = []
adds (closes reason) = []
adds (idles now) = []

abbrev pub adds_all : {s c : Channel} → Reach s c → List ℕ
adds_all here = []
adds_all (next r s) = adds_all r ++ adds s

on_written-stream : (c : Channel) (now n msgs : ℕ) → stream (on_written now n msgs c) ≡ stream c
unfolding on_written
on_written-stream c now n msgs =
    if_cases (λ d. stream d ≡ stream c) (is_empty c.write_queue) (λ _. refl)
      (λ _. try_write-stream _)

on_read-stream : (c : Channel) (chunk : List ℕ) → stream (on_read chunk c) ≡ stream c
unfolding on_read parse_frames after_loop compact
on_read-stream c chunk = ground arith

on_idle-stream : (c : Channel) (now : ℕ) → stream (on_idle_timer now c).0 ≡ stream c
unfolding on_idle_timer close
on_idle-stream c now = ground arith

on_ping-stream :
    (c : Channel)
    → c.current_queue_bytes ≤ max_queue_bytes
    → stream (on_ping_timer c).0 ≡ stream c ++ accepts (pack ping) c
unfolding on_ping_timer send_ping
on_ping-stream c v =
    if_cases (λ (r : Channel × Bool). stream r.0 ≡ stream c ++ accepts (pack ping) c) c.closed
      (λ o. ground (arith, append-nil (stream c)))
      (λ o. send-stream c (pack ping) (omega (arith, length-ping)) v)

Step-stream : {c d : Channel} (s : Step c d) → Inv c → stream d ≡ stream c ++ adds s
unfolding on_write_error
Step-stream {c} (sends bytes h) v = send-stream c bytes h (omega (arith, v.bounded, v.peak))
Step-stream {c} pings v = on_ping-stream c (omega (arith, v.bounded, v.peak))
Step-stream {c} (reads chunk) v = on_read-stream c chunk ∙ sym (append-nil (stream c))
Step-stream {c} (reports now msgs bytes e) v =
    on_written-stream c now (length bytes) msgs ∙ sym (append-nil (stream c))
Step-stream {c} (fails b e) v = close-stream _ _ ∙ sym (append-nil (stream c))
Step-stream {c} (closes reason) v = close-stream c reason ∙ sym (append-nil (stream c))
Step-stream {c} (idles now) v = on_idle-stream c now ∙ sym (append-nil (stream c))

-- In every history the bytes handed to async_write, with those still queued behind them, are the
-- messages that were accepted, whole and in the order of the calls: none is lost, repeated, split by
-- another or overtaken.
pub Reach-stream :
    {s c : Channel} (r : Reach s c)
    → Inv s
    → c.handed ++ flat c.write_queue ≡ stream s ++ adds_all r
Reach-stream {s} here v = sym (append-nil (stream s))
Reach-stream {s} (next r t) v =
    Step-stream t (Reach_from-Inv r v)
    ∙ ap (λ x. x ++ adds t) (Reach-stream r v)
    ∙ append_assoc (stream s) (adds_all r) (adds t)
