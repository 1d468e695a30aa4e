-- ===== src/Channel/Send/Invariant.antt =====
-- The accounts of the write side under the handlers of the channel.
use ecs_asio_server.Common.{
  ℕ, ◌+◌, ◌^◌, ◌≤◌, ◌<◌, ◌≡◌, refl, sym, ap, ◌∙◌, List, length, flat, flat-snoc, arith, Bool, true,
  false, not, ◌&&◌, ◌||◌, Option, none, some, length-append, ◌==◌, if_cases,
}
use ecs_asio_server.Channel.{Channel, CloseFunction, timeout}
use ecs_asio_server.Channel.Receive.{compact, after_loop, parse_frames, on_read}
use ecs_asio_server.Channel.Send.{
  max_queue_bytes, add64, sub64, enqueue_send, make_batch, do_write, try_write, send, close,
  on_written, on_write_error, on_idle_timer, is_empty,
}
use ecs_asio_server.Channel.Send.Batching.{make_batch-Takes}

abbrev pub flying : Option (List ℕ × ℕ) → ℕ
flying none = 0
flying (some (bytes, msgs)) = length bytes

abbrev pub is_some : Option (List ℕ × ℕ) → Bool
is_some none = false
is_some (some b) = true

pub record Inv (c : Channel) : Type 0 where
  -- The counter is what is queued, what is being written and what a failed write leaves counted.
  pub counted :
      c.current_queue_bytes ≡ length (flat c.write_queue) + flying c.in_flight + flying c.failed
  -- It never passes the limit, nor does its record.
  pub bounded : c.current_queue_bytes ≤ c.peak_queued
  pub peak : c.peak_queued ≤ max_queue_bytes
  -- The flag says that an async_write has not been reported, or that one has failed.
  pub busy : c.writing ≡ (is_some c.in_flight || is_some c.failed)
  pub once : (is_some c.in_flight && is_some c.failed) ≡ false
  pub ended : (is_some c.failed && not c.closed) ≡ false

enqueue_send-Inv :
    (c : Channel) (bytes : List ℕ) → length bytes < 2 ^ 31 → Inv c → Inv (enqueue_send bytes c).0
unfolding enqueue_send
enqueue_send-Inv c bytes h v =
    ground
      (arith, ap length (flat-snoc c.write_queue bytes), length-append (flat c.write_queue) bytes)

do_write-Inv :
    (c : Channel)
    → Inv (record c { writing = false })
    → c.in_flight ≡ none
    → Inv (do_write (record c { writing = true }))
unfolding do_write
do_write-Inv c v e =
    let t = make_batch-Takes c.write_queue in
    ground (
      arith,
      t.bytes,
      ap length t.bytes,
      length-append (make_batch c.write_queue).out (flat (make_batch c.write_queue).left),
    )

none_flying : (o : Option (List ℕ × ℕ)) → is_some o ≡ false → o ≡ none
none_flying none q = refl
none_flying (some b) q = cc

try_write-Inv : (c : Channel) → Inv c → Inv (try_write c)
unfolding try_write
try_write-Inv c v =
    if_cases Inv c.writing (λ _. v)
      λ e.
        do_write-Inv c
          (record {
            counted = v.counted;
            bounded = v.bounded;
            peak = v.peak;
            busy = sym e ∙ v.busy;
            once = v.once;
            ended = v.ended;
          })
          (none_flying c.in_flight (ground (arith, v.busy, e)))

pub close-Inv : (c : Channel) (reason : CloseFunction) → Inv c → Inv (close reason c).0
unfolding close
close-Inv c reason v = ground arith

pub send-Inv : (c : Channel) (bytes : List ℕ) → length bytes < 2 ^ 31 → Inv c → Inv (send bytes c)
unfolding send
send-Inv c bytes h v =
    let w = enqueue_send-Inv c bytes h v in
    if_cases Inv c.closed (λ _. v)
      λ _.
        if_cases Inv (length bytes == 0) (λ _. v)
          λ _.
            if_cases Inv (enqueue_send bytes c).1 (λ _. try_write-Inv (enqueue_send bytes c).0 w)
              λ _. close-Inv _ _ (record {
                counted = w.counted;
                bounded = w.bounded;
                peak = w.peak;
                busy = w.busy;
                once = w.once;
                ended = w.ended;
              })

-- The counters when a write of `bytes` has been reported.
pub on_written-Inv :
    (c : Channel) (now msgs : ℕ) (bytes : List ℕ)
    → c.in_flight ≡ some (bytes, msgs)
    → Inv c
    → Inv (on_written now (length bytes) msgs c)
unfolding on_written
on_written-Inv c now msgs bytes e v =
    if_cases Inv (is_empty c.write_queue) (λ _. w) (λ _. try_write-Inv _ w)
  where
    size : flying c.in_flight ≡ length bytes
    size = ap flying e

    well : is_some c.failed ≡ false
    well = ground (arith, v.once, ap is_some e)

    none_lost : flying c.failed ≡ 0
    none_lost = ap flying (none_flying c.failed well)

    w : Inv (record c {
      in_flight = none;
      current_queue_bytes = sub64 c.current_queue_bytes (length bytes);
      deq_msgs = add64 c.deq_msgs msgs;
      bytes_sent = add64 c.bytes_sent (length bytes);
      last_send_ms = now;
      writing = false;
    })
    w = record {
      counted = omega (arith, size, none_lost, v.counted, v.bounded, v.peak);
      bounded = omega (arith, size, none_lost, v.counted, v.bounded, v.peak);
      peak = v.peak;
      busy = sym well;
      once = refl;
      ended = v.ended;
    }

-- A write that fails: its bytes stay counted and writing_ stays set.
pub on_write_error-Inv :
    (c : Channel) (b : List ℕ × ℕ) → c.in_flight ≡ some b → Inv c → Inv (on_write_error c)
unfolding on_write_error close
on_write_error-Inv c b e v =
    let now : is_some c.in_flight ≡ true = ap is_some e in
    let well : is_some c.failed ≡ false = ground (arith, v.once, now) in
    let none_lost : flying c.failed ≡ 0 = ap flying (none_flying c.failed well) in
    if_cases (λ (r : Channel × Bool). Inv r.0) c.closed
      (λ h. record {
        counted = omega (arith, v.counted, none_lost);
        bounded = v.bounded;
        peak = v.peak;
        busy = ground (arith, v.busy, now);
        once = refl;
        ended = ground (arith, h);
      })
      (λ _. record {
        counted = omega (arith, v.counted, none_lost);
        bounded = v.bounded;
        peak = v.peak;
        busy = ground (arith, v.busy, now);
        once = refl;
        ended = ground arith;
      })

parse_frames-Inv : (c : Channel) → Inv c → Inv (parse_frames c)
unfolding parse_frames after_loop compact
parse_frames-Inv c v = ground arith

pub on_read-Inv : (c : Channel) (chunk : List ℕ) → Inv c → Inv (on_read chunk c)
unfolding on_read
on_read-Inv c chunk v = parse_frames-Inv _ (record {
  counted = v.counted;
  bounded = v.bounded;
  peak = v.peak;
  busy = v.busy;
  once = v.once;
  ended = v.ended;
})

pub on_idle_timer-Inv : (c : Channel) (now : ℕ) → Inv c → Inv (on_idle_timer now c).0
unfolding on_idle_timer
on_idle_timer-Inv c now v = ground (arith, close-Inv c timeout v)
