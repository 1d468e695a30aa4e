-- ===== src/Channel/Send/Batching.antt =====
-- What make_batch_ takes from the write queue.
use ecs_asio_server.Common.{
  ℕ, ◌+◌, ◌≤◌, ◌<◌, ◌≡◌, ◌⊎◌, inl, inr, refl, ◌∙◌, List, [], ◌∷◌, ◌++◌, append_assoc, length, flat,
  arith, length-append, ltb, le→ltb, Bool-cases,
}
use ecs_asio_server.Channel.Send.{Batch, max_batch_bytes, max_batch_msgs, batch_loop, make_batch}

-- Why the loop stops with `left` still queued: the batch is full of messages, or the next one is too
-- long for it.
abbrev pub Full : Batch → List (List ℕ) → Type 0
Full b [] = Unit {0}
Full b (front ∷ rest) =
    (b.out_msgs ≡ max_batch_msgs) ⊎ (max_batch_bytes < length b.out + length front)

record Loops (queue : List (List ℕ)) (out : List ℕ) (n : ℕ) (b : Batch) : Type 0 where
  bytes : b.out ++ flat b.left ≡ out ++ flat queue
  msgs : b.out_msgs + length b.left ≡ n + length queue
  few : b.out_msgs ≤ max_batch_msgs
  more : n ≤ b.out_msgs
  short : length b.out ≤ max_batch_bytes
  full : Full b b.left

stops-Loops :
    (front : List ℕ) (rest : List (List ℕ)) (out : List ℕ) (n : ℕ)
    → n ≤ max_batch_msgs
    → length out ≤ max_batch_bytes
    → (n ≡ max_batch_msgs) ⊎ (max_batch_bytes < length out + length front)
    → Loops (front ∷ rest) out n (record { out = out; out_msgs = n; left = front ∷ rest })
stops-Loops front rest out n h k why = record {
  bytes = refl;
  msgs = refl;
  few = h;
  more = omega arith;
  short = k;
  full = why;
}

goes_on-Loops :
    (front : List ℕ) (rest : List (List ℕ)) (out : List ℕ) (n : ℕ) (b : Batch)
    → Loops rest (out ++ front) (n + 1) b
    → Loops (front ∷ rest) out n b
goes_on-Loops front rest out n b l = record {
  bytes = l.bytes ∙ append_assoc out front (flat rest);
  msgs = omega (arith, l.msgs);
  few = l.few;
  more = omega (arith, l.more);
  short = l.short;
  full = l.full;
}

batch_loop-Loops :
    (queue : List (List ℕ)) (out : List ℕ) (acc n : ℕ)
    → acc ≡ length out
    → n ≤ max_batch_msgs
    → length out ≤ max_batch_bytes
    → Loops queue out n (batch_loop queue out acc n)
unfolding batch_loop
batch_loop-Loops [] out acc n e h k = record {
  bytes = refl;
  msgs = refl;
  few = h;
  more = omega arith;
  short = k;
  full = tt;
}
batch_loop-Loops (front ∷ rest) out acc n e h k = elim (Bool-cases (ltb n max_batch_msgs)) [
  | inr many ↦ rw (many, batch_loop) (stops-Loops front rest out n h k (inl (ground arith)))
  | inl few ↦ elim (Bool-cases (ltb max_batch_bytes (acc + length front))) [
    | inl long ↦ rw (few, long, batch_loop) (stops-Loops front rest out n h k (inr (ground arith)))
    | inr fits ↦
        rw (few, fits, batch_loop)
          (goes_on-Loops front rest out n _ (
            batch_loop-Loops rest (out ++ front) (acc + length front) (n + 1)
              (omega (arith, length-append out front)) (ground arith)
              (ground (arith, length-append out front))))
  ]
]

-- What a batch is to the queue that it is taken from: whole messages from the front, in order, within
-- the limits, and as many as the limits allow.
pub record Takes (queue : List (List ℕ)) (b : Batch) : Type 0 where
  pub bytes : b.out ++ flat b.left ≡ flat queue
  pub msgs : b.out_msgs + length b.left ≡ length queue
  pub few : b.out_msgs ≤ max_batch_msgs
  pub short : length b.out ≤ max_batch_bytes
  pub full : Full b b.left

-- make_batch_ takes whole messages from the front of the queue in their order, at most 64 of them and
-- at most 64 KiB, and stops only at the end of the queue or where the next message breaks a limit.
pub make_batch-Takes : (queue : List (List ℕ)) → Takes queue (make_batch queue)
unfolding make_batch
make_batch-Takes queue =
    let l = batch_loop-Loops queue [] 0 0 refl (omega arith) (omega arith) in
    record {
      bytes = l.bytes;
      msgs = omega (arith, l.msgs);
      few = l.few;
      short = l.short;
      full = l.full;
    }

-- A first message that fits a batch is taken.
pub make_batch_first :
    (front : List ℕ) (rest : List (List ℕ))
    → length front ≤ max_batch_bytes
    → 0 < (make_batch (front ∷ rest)).out_msgs
unfolding make_batch batch_loop
make_batch_first front rest h =
    let l = batch_loop-Loops rest front (0 + length front) 1 (omega arith) (omega arith) h in
    rw (le→ltb max_batch_bytes (0 + length front) (omega arith), batch_loop) (omega (arith, l.more))

-- A first message that is longer than a batch stops the loop at once.
pub make_batch_long :
    (front : List ℕ) (rest : List (List ℕ))
    → max_batch_bytes < length front
    → make_batch (front ∷ rest) ≡ record { out = []; out_msgs = 0; left = front ∷ rest }
unfolding make_batch batch_loop
make_batch_long front rest h = ground arith
