-- ===== src/Game/Net/Room.antt =====
-- Sends under mtx_ to channels with room, which return.
use ecs_asio_server.Common.{
  ℕ, ◌+◌, ◌^◌, ◌<◌, ◌≤◌, ◌≡◌, sym, List, [], ◌∷◌, Bool, Option, none, some, length, ◌==◌, arith,
  if_cases, subst,
}
use ecs_asio_server.Common.Tables.{find, erase_key, assign}
use ecs_asio_server.Channel.{Channel}
use ecs_asio_server.Channel.Send.{send, close, enqueue_send, try_write, do_write, max_queue_bytes}
use ecs_asio_server.Game.World.{World}
use ecs_asio_server.Game.Net.{
  ◌>>=◌, frame_for, send_locked, broadcast_loop, broadcast_except, send_test_found, send_test_frame,
}
use ecs_asio_server.Game.Net.Broadcast.{send_locked_lem, frame_for-size, backlogged}

-- Every channel has room for `n` bytes.
abbrev pub Roomy : ℕ → List (ℕ × Channel) → Type 0
Roomy n [] = Unit {0}
Roomy n ((id, c) ∷ t) = (c.current_queue_bytes + n ≤ max_queue_bytes) × Roomy n t

-- A result that is there.
abbrev pub Yields {ℓ} : {A : Type ℓ} → (A → Type 0) → Option A → Type 0
Yields P none = ⊥
Yields P (some a) = P a

try_write-queue : (c : Channel) → (try_write c).current_queue_bytes ≡ c.current_queue_bytes
unfolding try_write do_write
try_write-queue c = ground arith

enqueue_send-queue :
    (pkt : List ℕ) (c : Channel)
    → length pkt < 2 ^ 31
    → c.current_queue_bytes ≤ max_queue_bytes
    → (enqueue_send pkt c).0.current_queue_bytes ≤ c.current_queue_bytes + length pkt
unfolding enqueue_send
enqueue_send-queue pkt c short v = ground arith

send-queue :
    (pkt : List ℕ) (c : Channel)
    → length pkt < 2 ^ 31
    → c.current_queue_bytes ≤ max_queue_bytes
    → (send pkt c).current_queue_bytes ≤ c.current_queue_bytes + length pkt
unfolding send close
send-queue pkt c short v =
    ground (arith, enqueue_send-queue pkt c short v, try_write-queue (enqueue_send pkt c).0)

send_locked-Yields :
    (n : ℕ) (pkt : List ℕ) (c : Channel)
    → 0 < length pkt
    → length pkt < 2 ^ 31
    → c.current_queue_bytes + (length pkt + n) ≤ max_queue_bytes
    → Yields (λ (d : Channel). d.current_queue_bytes + n ≤ max_queue_bytes) (send_locked pkt c)
send_locked-Yields n pkt c h short room =
    subst (Yields (λ (d : Channel). d.current_queue_bytes + n ≤ max_queue_bytes))
      (sym (send_locked_lem pkt c h short (omega (arith, room))))
      (if_cases (Yields (λ (d : Channel). d.current_queue_bytes + n ≤ max_queue_bytes))
        (backlogged (length pkt) c) (λ b. absurd (ground (arith, b, room)))
        (λ _. omega (arith, room, send-queue pkt c short (omega (arith, room)))))

pub Roomy-less : (m n : ℕ) (t : List (ℕ × Channel)) → n ≤ m → Roomy m t → Roomy n t
Roomy-less m n [] h r = tt
Roomy-less m n ((id, c) ∷ t) h r = (omega (arith, h, r.0), Roomy-less m n t h r.1)

erase_key-Roomy : (k n : ℕ) (t : List (ℕ × Channel)) → Roomy n t → Roomy n (erase_key k t)
unfolding erase_key
erase_key-Roomy k n [] r = tt
erase_key-Roomy k n ((j, c) ∷ t) r =
    if_cases (Roomy n) (k == j) (λ _. erase_key-Roomy k n t r.1)
      (λ _. (r.0, erase_key-Roomy k n t r.1))

abbrev RoomFor : ℕ → Option Channel → Type 0
RoomFor n none = Unit {0}
RoomFor n (some c) = c.current_queue_bytes + n ≤ max_queue_bytes

find-RoomFor : (k n : ℕ) (t : List (ℕ × Channel)) → Roomy n t → RoomFor n (find k t)
unfolding find
find-RoomFor k n [] r = tt
find-RoomFor k n ((j, c) ∷ t) r =
    if_cases (RoomFor n) (k == j) (λ _. r.0) (λ _. find-RoomFor k n t r.1)

broadcast_loop-Yields :
    (skip : ℕ → Bool) (n : ℕ) (pkt : List ℕ) (t : List (ℕ × Channel))
    → 0 < length pkt
    → length pkt < 2 ^ 31
    → Roomy (length pkt + n) t
    → Yields (Roomy n) (broadcast_loop skip pkt t)
unfolding broadcast_loop
broadcast_loop-Yields skip n pkt [] h short r = tt
broadcast_loop-Yields skip n pkt ((id, c) ∷ t) h short r =
    if_cases (Yields (Roomy n)) (skip id)
      (λ _. others (broadcast_loop skip pkt t) (broadcast_loop-Yields skip n pkt t h short r.1))
      (λ _.
        all (send_locked pkt c) (broadcast_loop skip pkt t) (send_locked-Yields n pkt c h short r.0)
          (broadcast_loop-Yields skip n pkt t h short r.1))
  where
    others :
        (u : Option (List (ℕ × Channel)))
        → Yields (Roomy n) u
        → Yields (Roomy n) (u >>= λ v. some ((id, c) ∷ v))
    others none y = y
    others (some v) y = (omega (arith, r.0), y)

    all :
        (d : Option Channel) (u : Option (List (ℕ × Channel)))
        → Yields (λ (x : Channel). x.current_queue_bytes + n ≤ max_queue_bytes) d
        → Yields (Roomy n) u
        → Yields (Roomy n) (d >>= λ x. u >>= λ v. some ((id, x) ∷ v))
    all none u y z = absurd y
    all (some x) none y z = z
    all (some x) (some v) y z = (y, z)

pub send_test_frame-Yields :
    (n channel_id cmd : ℕ) (bytes : List ℕ) (w : World)
    → length bytes + 16 < 2 ^ 31
    → Roomy (16 + length bytes + n) w.channels
    → Yields (λ u. Roomy n u.channels) (send_test_frame channel_id cmd bytes w)
unfolding send_test_frame send_test_found assign
send_test_frame-Yields n channel_id cmd bytes w short r =
    found (find channel_id w.channels)
      (find-RoomFor channel_id (16 + length bytes + n) w.channels r)
  where
    pkt : List ℕ
    pkt = frame_for cmd bytes

    less : Roomy n w.channels
    less = Roomy-less (16 + length bytes + n) n w.channels (omega arith) r

    sent :
        (d : Option Channel)
        → Yields (λ (x : Channel). x.current_queue_bytes + n ≤ max_queue_bytes) d
        → Yields
            (λ (u : World). Roomy n u.channels)
            (d >>= λ x.
              some (record w { channels = (channel_id, x) ∷ erase_key channel_id w.channels }))
    sent none y = y
    sent (some x) y = (y, erase_key-Roomy channel_id n w.channels less)

    found :
        (c : Option Channel)
        → RoomFor (16 + length bytes + n) c
        → Yields (λ (u : World). Roomy n u.channels) (send_test_found channel_id cmd bytes w c)
    found none room = less
    found (some c) room =
        let size = frame_for-size cmd bytes in
        sent (send_locked pkt c) (
          send_locked-Yields n pkt c (omega (arith, size)) (omega (arith, size, short))
            (omega (arith, size, room)))

pub broadcast_except-Yields :
    (n exclude cmd : ℕ) (bytes : List ℕ) (w : World)
    → length bytes + 16 < 2 ^ 31
    → Roomy (16 + length bytes + n) w.channels
    → Yields (λ u. Roomy n u.channels) (broadcast_except exclude cmd bytes w)
unfolding broadcast_except
broadcast_except-Yields n exclude cmd bytes w short r =
    let size = frame_for-size cmd bytes in
    sent (broadcast_loop (λ id. id == exclude) (frame_for cmd bytes) w.channels) (
      broadcast_loop-Yields (λ id. id == exclude) n (frame_for cmd bytes) w.channels
        (omega (arith, size)) (omega (arith, size, short))
        (Roomy-less (16 + length bytes + n) (length (frame_for cmd bytes) + n) w.channels
          (omega (arith, size)) r))
  where
    sent :
        (t : Option (List (ℕ × Channel)))
        → Yields (Roomy n) t
        → Yields (λ (u : World). Roomy n u.channels) (t >>= λ x. some (record w { channels = x }))
    sent none y = y
    sent (some x) y = y
