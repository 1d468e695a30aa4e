-- ===== src/Channel/Receive/Loop.antt =====
-- The loop of parse_frames_ on an arbitrary accumulator.
use ecs_asio_server.Common.{
  ℕ, zero, suc, ◌+◌, ◌-◌, ◌^◌, ◌≤◌, ◌<◌, ◌≡◌, refl, List, true, false, length, arith,
}
use ecs_asio_server.Frame.Codec.{Attempt, nothing, frame, overread, try_parse_one}
use ecs_asio_server.Frame.Codec.Bounds.{StaysWithin, try_parse_one-StaysWithin}
use ecs_asio_server.Channel.Receive.{Outcome, done, outside, stuck, parse_loop}

-- An end by `break` with an offset within the accumulator that did not go back.
abbrev pub EndsWithin : ℕ → ℕ → Outcome → Type 0
EndsWithin size offset (done o frames dropped) = (offset ≤ o) × (o ≤ size)
EndsWithin size offset outside = ⊥
EndsWithin size offset stuck = ⊥

EndsWithin-mono :
    (size : ℕ) {o p : ℕ} (r : Outcome) → o ≤ p → EndsWithin size p r → EndsWithin size o r
EndsWithin-mono size (done q frames dropped) h e = (omega arith, e.1)
EndsWithin-mono size outside h e = e
EndsWithin-mono size stuck h e = e

-- Whatever bytes have come in, parse_frames_ leaves its loop by the break, without a read outside the
-- accumulator; the fuel of a round for each byte that is left and one more is enough.
pub parse_loop-EndsWithin :
    (fuel : ℕ) (acc : List ℕ) (offset : ℕ) (frames : List (ℕ × List ℕ)) (dropped : ℕ)
    → offset ≤ length acc
    → length acc < 2 ^ 64
    → length acc - offset < fuel
    → EndsWithin (length acc) offset (parse_loop fuel acc offset frames dropped)
unfolding parse_loop
parse_loop-EndsWithin zero acc offset frames dropped h small enough = absurd (omega arith)
parse_loop-EndsWithin (suc fuel) acc offset frames dropped h small enough =
    go (try_parse_one acc offset) refl (try_parse_one-StaysWithin acc offset h small)
      (λ o fs d k l. parse_loop-EndsWithin fuel acc o fs d k small l)
  where
    go :
        (a : Attempt)
        → try_parse_one acc offset ≡ a
        → StaysWithin (length acc) offset a
        → ((o : ℕ) (fs : List (ℕ × List ℕ)) (d : ℕ)
            → o ≤ length acc
            → length acc - o < fuel
            → EndsWithin (length acc) o (parse_loop fuel acc o fs d))
        → EndsWithin (length acc) offset (parse_loop (suc fuel) acc offset frames dropped)
    go (nothing o) e w next = rw (e, parse_loop) w
    go (frame hdr payload true o) e w next =
        rw (e, parse_loop)
          (EndsWithin-mono (length acc) _ (omega arith)
            (next o _ dropped (omega arith) (omega arith)))
    go (frame hdr payload false o) e w next =
        rw (e, parse_loop)
          (EndsWithin-mono (length acc) _ (omega arith)
            (next o _ (dropped + 1) (omega arith) (omega arith)))
    go overread e w next = absurd w
