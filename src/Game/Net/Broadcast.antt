-- ===== src/Game/Net/Broadcast.antt =====
-- What a broadcast does to the channels, and when it does not return.
use ecs_asio_server.Common.{
  ℕ, ◌+◌, ◌^◌, ◌<◌, ◌≤◌, ◌≡◌, refl, List, [], ◌∷◌, ◌++◌, Bool, true, false, not, ◌&&◌, ◌||◌, Option,
  none, some, length, ltb, ◌==◌, if◌then◌else◌, arith, length-append, append-nil,
}
use ecs_asio_server.Channel.{Channel, force_closed}
use ecs_asio_server.Channel.Send.{send, close, enqueue_send, try_write, do_write, max_queue_bytes}
use ecs_asio_server.Channel.History.Order.{stream, send-stream}
use ecs_asio_server.Frame.Codec.Steps.{length-pack}
use ecs_asio_server.Game.World.{World}
use ecs_asio_server.Game.Net.{
  ◌>>=◌, frame_for, send_locked, broadcast_loop, broadcast, broadcast_except,
}

-- An open channel that has no room for `n` bytes.
abbrev pub backlogged : ℕ → Channel → Bool
backlogged n c = not c.closed && ltb max_queue_bytes (c.current_queue_bytes + n)

try_write-close_calls : (c : Channel) → (try_write c).close_calls ≡ c.close_calls
unfolding try_write do_write
try_write-close_calls c = ground arith

enqueue_send-taken :
    (pkt : List ℕ) (c : Channel)
    → 0 < length pkt
    → length pkt < 2 ^ 31
    → c.current_queue_bytes ≤ max_queue_bytes
    → ((enqueue_send pkt c).1 ≡ not (ltb max_queue_bytes (c.current_queue_bytes + length pkt)))
      × ((enqueue_send pkt c).0.close_calls ≡ c.close_calls)
      × ((enqueue_send pkt c).0.closed ≡ c.closed)
unfolding enqueue_send
enqueue_send-taken pkt c h short v = ground arith

-- send calls on_close exactly for a backlogged channel.
send-close_calls :
    (pkt : List ℕ) (c : Channel)
    → 0 < length pkt
    → length pkt < 2 ^ 31
    → c.current_queue_bytes ≤ max_queue_bytes
    → length (send pkt c).close_calls
      ≡ length c.close_calls + (if backlogged (length pkt) c then 1 else 0)
unfolding send close
send-close_calls pkt c h short v = ground (
  arith,
  enqueue_send-taken pkt c h short v,
  try_write-close_calls (enqueue_send pkt c).0,
  length-append c.close_calls (force_closed ∷ []),
)

pub send_locked_lem :
    (pkt : List ℕ) (c : Channel)
    → 0 < length pkt
    → length pkt < 2 ^ 31
    → c.current_queue_bytes ≤ max_queue_bytes
    → send_locked pkt c ≡ (if backlogged (length pkt) c then none else some (send pkt c))
unfolding send_locked
send_locked_lem pkt c h short v = ground (arith, send-close_calls pkt c h short v)

-- Whether a channel that the loop does not skip has no room for the packet.
abbrev pub stuck : (ℕ → Bool) → List ℕ → List (ℕ × Channel) → Bool
stuck skip pkt [] = false
stuck skip pkt ((id, c) ∷ t) = (not (skip id) && backlogged (length pkt) c) || stuck skip pkt t

-- What was handed or queued to each channel.
abbrev pub streams : List (ℕ × Channel) → List (ℕ × List ℕ)
streams [] = []
streams ((id, c) ∷ t) = (id, stream c) ∷ streams t

-- The streams after the packet went to every open channel that is not skipped.
abbrev pub delivered : (ℕ → Bool) → List ℕ → List (ℕ × Channel) → List (ℕ × List ℕ)
delivered skip pkt [] = []
delivered skip pkt ((id, c) ∷ t) =
    (id, if skip id then stream c else if c.closed then stream c else stream c ++ pkt)
    ∷ delivered skip pkt t

abbrev pub Within : List (ℕ × Channel) → Type 0
Within [] = Unit {0}
Within ((id, c) ∷ t) = (c.current_queue_bytes ≤ max_queue_bytes) × Within t

abbrev streams_of : Option (List (ℕ × Channel)) → Option (List (ℕ × List ℕ))
streams_of none = none
streams_of (some t) = some (streams t)

send-stream_room :
    (pkt : List ℕ) (c : Channel)
    → length pkt < 2 ^ 31
    → c.current_queue_bytes ≤ max_queue_bytes
    → backlogged (length pkt) c ≡ false
    → stream (send pkt c) ≡ (if c.closed then stream c else stream c ++ pkt)
send-stream_room pkt c short v room =
    ground (arith, send-stream c pkt short v, append-nil (stream c))

broadcast_loop-streams :
    (skip : ℕ → Bool) (pkt : List ℕ) (t : List (ℕ × Channel))
    → 0 < length pkt
    → length pkt < 2 ^ 31
    → Within t
    → streams_of (broadcast_loop skip pkt t)
      ≡ (if stuck skip pkt t then none else some (delivered skip pkt t))
unfolding broadcast_loop
broadcast_loop-streams skip pkt [] h short v = refl
broadcast_loop-streams skip pkt ((id, c) ∷ t) h short v =
    head (broadcast_loop skip pkt t) (stuck skip pkt t)
      (broadcast_loop-streams skip pkt t h short v.1)
  where
    head :
        (r : Option (List (ℕ × Channel))) (b : Bool)
        → streams_of r ≡ (if b then none else some (delivered skip pkt t))
        → streams_of (
            if skip id
            then (r >>= λ u. some ((id, c) ∷ u))
            else (send_locked pkt c >>= λ d. r >>= λ u. some ((id, d) ∷ u)))
          ≡ (if (not (skip id) && backlogged (length pkt) c) || b
              then none
              else some (delivered skip pkt ((id, c) ∷ t)))
    head none true e = ground (arith, send_locked_lem pkt c h short v.0)
    head none false e = ground (arith, e)
    head (some u) true e = ground (arith, e)
    head (some u) false e =
        ground (arith, e, send_locked_lem pkt c h short v.0, send-stream_room pkt c short v.0)

abbrev pub rest : World → World
rest w = record w { channels = [] }

-- The streams of the channels, and the state beside the channels.
abbrev pub outcome : Option World → Option (List (ℕ × List ℕ) × World)
outcome none = none
outcome (some w) = some (streams w.channels, rest w)

outcome-loop :
    (r : Option (List (ℕ × Channel))) (w : World) (b : Bool) (l : List (ℕ × List ℕ))
    → streams_of r ≡ (if b then none else some l)
    → outcome (r >>= λ t. some (record w { channels = t })) ≡ (if b then none else some (l, rest w))
outcome-loop none w true l e = refl
outcome-loop none w false l e = ground (arith, e)
outcome-loop (some t) w true l e = ground (arith, e)
outcome-loop (some t) w false l e = ground (arith, e)

pub frame_for-size : (cmd : ℕ) (bytes : List ℕ) → length (frame_for cmd bytes) ≡ 16 + length bytes
unfolding frame_for
frame_for-size cmd bytes = length-pack _

-- For every table of channels whose queues are within their limit, and every payload below 2^31 - 16
-- bytes: if a channel that the call does not skip is open and has no room for the frame, broadcast and
-- broadcast_except do not return, since mtx_ is locked twice; otherwise they return, every open channel
-- that is not skipped has the frame as the end of its stream, the stream of each other channel is
-- what it was, and so is everything beside the channels. broadcast skips no channel, broadcast_except
-- the one with the given identifier.
pub broadcast-delivers :
    (exclude cmd : ℕ) (bytes : List ℕ) (w : World)
    → length bytes + 16 < 2 ^ 31
    → Within w.channels
    → (outcome (broadcast cmd bytes w) ≡ (
        if stuck (λ id. false) (frame_for cmd bytes) w.channels
        then none
        else some (delivered (λ id. false) (frame_for cmd bytes) w.channels, rest w)))
      × (outcome (broadcast_except exclude cmd bytes w) ≡ (
          if stuck (λ id. id == exclude) (frame_for cmd bytes) w.channels
          then none
          else some (delivered (λ id. id == exclude) (frame_for cmd bytes) w.channels, rest w)))
unfolding broadcast broadcast_except
broadcast-delivers exclude cmd bytes w small v =
    (outcome-loop _ w _ _ (each (λ id. false)), outcome-loop _ w _ _ (each (λ id. id == exclude)))
  where
    each :
        (skip : ℕ → Bool)
        → streams_of (broadcast_loop skip (frame_for cmd bytes) w.channels) ≡ (
            if stuck skip (frame_for cmd bytes) w.channels
            then none
            else some (delivered skip (frame_for cmd bytes) w.channels))
    each skip =
        broadcast_loop-streams skip (frame_for cmd bytes) w.channels
          (omega (arith, frame_for-size cmd bytes)) (omega (arith, frame_for-size cmd bytes)) v
