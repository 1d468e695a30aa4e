-- ===== src/Channel/History/Drain.antt =====
-- The writes that follow one another once asio reports each of them.
use ecs_asio_server.Common.{
  ℕ, zero, suc, ◌+◌, ◌<◌, ◌≤◌, ◌≡◌, refl, sym, ap, ◌∙◌, List, [], ◌∷◌, ◌++◌, append-nil,
  append_assoc, length, flat, All, false, Option, none, some, arith, if_cases, ltb, if◌then◌else◌,
  subst,
}
use ecs_asio_server.Channel.{Channel}
use ecs_asio_server.Channel.Send.{
  Batch, batch_loop, make_batch, do_write, try_write, on_written, max_batch_bytes, max_batch_msgs,
  is_empty, add64, sub64,
}
use ecs_asio_server.Channel.Send.Batching.{make_batch-Takes, make_batch_first}

-- The write in flight is reported as written in full; a channel that writes nothing is left alone.
abbrev pub report_of : ℕ → Option (List ℕ × ℕ) → Channel → Channel
report_of now none c = c
report_of now (some (bytes, msgs)) c = on_written now (length bytes) msgs c

abbrev pub reports_in_turn : ℕ → ℕ → Channel → Channel
reports_in_turn now zero c = c
reports_in_turn now (suc n) c = reports_in_turn now n (report_of now c.in_flight c)

-- A message that fits a batch.
abbrev pub Short : List ℕ → Type 0
Short message = length message ≤ max_batch_bytes

batch_loop_left :
    (queue : List (List ℕ)) (out : List ℕ) (acc n : ℕ)
    → All Short queue
    → All Short (batch_loop queue out acc n).left
unfolding batch_loop
batch_loop_left [] out acc n h = tt
batch_loop_left (front ∷ rest) out acc n h =
    if_cases (λ (b : Batch). All Short b.left) (ltb n max_batch_msgs)
      (λ _.
        if_cases (λ (b : Batch). All Short b.left) (ltb max_batch_bytes (acc + length front))
          (λ _. h) (λ _. batch_loop_left rest (out ++ front) (acc + length front) (n + 1) h.1))
      (λ _. h)

make_batch_left : (queue : List (List ℕ)) → All Short queue → All Short (make_batch queue).left
unfolding make_batch
make_batch_left queue h = batch_loop_left queue [] 0 0 h

pub record Drained (c d : Channel) : Type 0 where
  pub nothing_queued : d.write_queue ≡ []
  pub nothing_in_flight : d.in_flight ≡ none
  pub all_handed : d.handed ≡ c.handed ++ flat c.write_queue

-- One report: the queue is empty and nothing is in flight, or a shorter queue waits for the next one.
data Reported (c d : Channel) : Type 0 where
  last :
      c.write_queue ≡ []
      → d.write_queue ≡ []
      → d.in_flight ≡ none
      → d.handed ≡ c.handed
      → Reported c d
  more :
      (b : List ℕ × ℕ)
      → d.in_flight ≡ some b
      → length d.write_queue < length c.write_queue
      → All Short d.write_queue
      → d.handed ++ flat d.write_queue ≡ c.handed ++ flat c.write_queue
      → Reported c d

-- A free writer takes at least one message of a queue that is not empty.
try_write-Reported :
    (c : Channel) (front : List ℕ) (rest : List (List ℕ))
    → c.write_queue ≡ front ∷ rest
    → c.writing ≡ false
    → All Short (front ∷ rest)
    → Reported c (try_write c)
unfolding try_write do_write
try_write-Reported c front rest e free h =
    let t = make_batch-Takes c.write_queue in
    let some_taken : 0 < (make_batch c.write_queue).out_msgs =
      subst (λ q. 0 < (make_batch q).out_msgs) (sym e) (make_batch_first front rest h.0) in
    if_cases (Reported c) c.writing (λ z. absurd cc)
      λ _.
        if_cases (Reported c) (ltb 0 (make_batch c.write_queue).out_msgs)
          (λ _.
            more ((make_batch c.write_queue).out, (make_batch c.write_queue).out_msgs) refl
              (omega (arith, t.msgs)) (make_batch_left c.write_queue (subst (All Short) (sym e) h))
              (append_assoc c.handed (make_batch c.write_queue).out
                  (flat (make_batch c.write_queue).left)
                ∙ ap (◌++◌ c.handed) t.bytes))
          (λ z. absurd (ground arith))

abbrev written : Channel → ℕ → ℕ → ℕ → Channel
written c now n msgs = record c {
  in_flight = none;
  current_queue_bytes = sub64 c.current_queue_bytes n;
  deq_msgs = add64 c.deq_msgs msgs;
  bytes_sent = add64 c.bytes_sent n;
  last_send_ms = now;
  writing = false;
}

on_written-Reported :
    (c : Channel) (now n msgs : ℕ) → All Short c.write_queue → Reported c (on_written now n msgs c)
unfolding on_written
on_written-Reported c now n msgs h = by_queue c.write_queue refl
  where
    of_written : {d : Channel} → Reported (written c now n msgs) d → Reported c d
    of_written (last e f g i) = last e f g i
    of_written (more b f g i j) = more b f g i j

    by_queue :
        (q : List (List ℕ))
        → c.write_queue ≡ q
        → Reported c (if is_empty q then written c now n msgs else try_write (written c now n msgs))
    by_queue [] e = last e e refl refl
    by_queue (front ∷ rest) e =
        of_written
          (try_write-Reported (written c now n msgs) front rest e refl (subst (All Short) e h))

still : (now n : ℕ) (c : Channel) → c.in_flight ≡ none → reports_in_turn now n c ≡ c
still now zero c e = refl
still now (suc n) c e = ap (λ o. reports_in_turn now n (report_of now o c)) e ∙ still now n c e

-- Once every message that is queued fits a batch and a write is in flight if any is queued, as many
-- reports as there are messages, and one more, empty the queue: nothing is in flight and every byte
-- was handed to async_write in its order.
pub reports_in_turn-Drained :
    (now n : ℕ) (c : Channel)
    → All Short c.write_queue
    → (c.in_flight ≡ none → c.write_queue ≡ [])
    → length c.write_queue < n
    → Drained c (reports_in_turn now n c)
reports_in_turn-Drained now zero c h k l = absurd (omega (arith, l))
reports_in_turn-Drained now (suc n) c h k l =
    by_flight (λ d i f q. reports_in_turn-Drained now n d i f q) c.in_flight refl
  where
    Rest : Type 0
    Rest =
        (d : Channel)
        → All Short d.write_queue
        → (d.in_flight ≡ none → d.write_queue ≡ [])
        → length d.write_queue < n
        → Drained d (reports_in_turn now n d)

    after : Rest → {d : Channel} → Reported c d → Drained c (reports_in_turn now n d)
    after rest {d} (last e q f g) = subst (Drained c) (sym (still now n d f)) (record {
      nothing_queued = q;
      nothing_in_flight = f;
      all_handed = g ∙ sym (ap (λ x. c.handed ++ flat x) e ∙ append-nil c.handed);
    })
    after rest {d} (more b f q i g) =
        let r = rest d i (λ z. absurd cc) (omega (arith, l, q)) in
        record {
          nothing_queued = r.nothing_queued;
          nothing_in_flight = r.nothing_in_flight;
          all_handed = r.all_handed ∙ g;
        }

    by_flight :
        Rest
        → (o : Option (List ℕ × ℕ)) → c.in_flight ≡ o
        → Drained c (reports_in_turn now n (report_of now o c))
    by_flight rest none e = subst (Drained c) (sym (still now n c e)) (record {
      nothing_queued = k e;
      nothing_in_flight = e;
      all_handed = sym (ap (λ q. c.handed ++ flat q) (k e) ∙ append-nil c.handed);
    })
    by_flight rest (some (bytes, msgs)) e =
        after rest (on_written-Reported c now (length bytes) msgs h)
