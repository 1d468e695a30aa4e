-- ===== src/Channel/Receive/Stream.antt =====
-- A row of frames from the peer, cut into reads, and what the server is told.
use ecs_asio_server.Common.{
  ℕ, ◌+◌, ◌%◌, ◌^◌, ◌/◌, ◌≤◌, ◌<◌, ◌≡◌, refl, sym, ap, ap₂, ◌∙◌, List, [], ◌∷◌, ◌++◌, map,
  append-nil, append_assoc, length, subst, drop, flat, All, arith, ltb, length-append, length-drop,
  drop-append, All-front, All-back, Bool-cases, inl, inr,
}
use mathlib.Core.List.{map-append}
use native.Mathlib.Nat.{mod-eq_of_lt}
use ecs_asio_server.Frame.Codec.{Message, pack}
use ecs_asio_server.Frame.Codec.Steps.{Fits, length-pack}
use ecs_asio_server.Channel.{Channel}
use ecs_asio_server.Channel.Receive.{
  parse_loop, compact, after_loop, parse_frames, on_read, read_all,
}
use ecs_asio_server.Channel.Receive.Frames.{
  packs, notice, Partial, Stops, Partial-Stops, split, parse_loop-packs,
}

-- The bytes that have come in and are not parsed yet.
pub record Pending (c : Channel) (t : List ℕ) : Type 0 where
  pub front : List ℕ
  pub acc : c.frame_acc ≡ front ++ t
  pub offset : c.frame_acc_offset ≡ length front

compact-Pending : (c : Channel) (t : List ℕ) → Pending c t → Pending (compact c) t
unfolding compact
compact-Pending c t p = elim (Bool-cases (ltb (length c.frame_acc / 2) c.frame_acc_offset)) [
  | inl e ↦
      rw (e, compact)
        (record {
          front = [];
          acc = ap₂ drop p.offset p.acc ∙ drop-append p.front t (length p.front) refl;
          offset = refl;
        })
  | inr e ↦ rw (e, compact) p
]

compact_keeps :
    (c : Channel)
    → ((compact c).delivered ≡ c.delivered)
      × ((compact c).drops ≡ c.drops)
      × (length (compact c).frame_acc ≤ length c.frame_acc)
unfolding compact
compact_keeps c = ground (arith, length-drop c.frame_acc_offset c.frame_acc)

length-packs : (ms : List Message) → length ms ≤ length (packs ms)
length-packs [] = omega arith
length-packs (m ∷ ms) =
    omega (arith, length-append (pack m) (packs ms), length-pack m, length-packs ms)

-- A read that completes the frames of `ms` and leaves `t'`.
record Reads (c : Channel) (chunk : List ℕ) (ms : List Message) (t' : List ℕ) : Type 0 where
  pending : Pending (on_read chunk c) t'
  delivered : (on_read chunk c).delivered ≡ c.delivered ++ map notice ms
  drops : (on_read chunk c).drops ≡ c.drops % 2 ^ 64
  size : length (on_read chunk c).frame_acc ≤ length c.frame_acc + length chunk

-- The channel when the loop has ended, before the accumulator is compacted.
abbrev looped : Channel → List ℕ → ℕ → List Message → Channel
looped c chunk o ms = record c {
  frame_acc = c.frame_acc ++ chunk;
  frame_acc_offset = o;
  delivered = c.delivered ++ map notice ms;
  drops = (c.drops + 0) % 2 ^ 64;
}

module _ (c : Channel) (chunk t t' : List ℕ) (ms : List Message) (p : Pending c t)
    (e : t ++ chunk ≡ packs ms ++ t') where
  joined : c.frame_acc ++ chunk ≡ p.front ++ (packs ms ++ t')
  joined = ap (λ x. x ++ chunk) p.acc ∙ append_assoc p.front t chunk ∙ ap (◌++◌ p.front) e

  joined_size : length (p.front ++ (packs ms ++ t')) ≡ length c.frame_acc + length chunk
  joined_size = sym (ap length joined) ∙ length-append c.frame_acc chunk

  on_read_lem :
      All Fits ms
      → Stops t'
      → length c.frame_acc + length chunk < 2 ^ 64
      → on_read chunk c ≡ compact (looped c chunk (length p.front + length (packs ms)) ms)
  unfolding on_read parse_frames after_loop
  on_read_lem f stop small = ap (after_loop (record c { frame_acc = c.frame_acc ++ chunk })) (
      ap₂ (λ acc o. parse_loop (length (c.frame_acc ++ chunk) + 1) acc o [] 0) joined p.offset
      ∙ parse_loop-packs ms _ p.front t' [] 0 f stop room (omega (arith, joined_size)))
    where
      room : length ms < length (c.frame_acc ++ chunk) + 1
      room = omega (
        arith,
        length-packs ms,
        length-append c.frame_acc chunk,
        joined_size,
        length-append p.front (packs ms ++ t'),
        length-append (packs ms) t',
      )

  on_read-Reads :
      All Fits ms → Stops t' → length c.frame_acc + length chunk < 2 ^ 64 → Reads c chunk ms t'
  on_read-Reads f stop small =
      let s = looped c chunk (length p.front + length (packs ms)) ms in
      let e' = on_read_lem f stop small in
      let (same, dropped, size) = compact_keeps s in
      record {
        pending = rw e' (
            compact-Pending s t' (record {
              front = p.front ++ packs ms;
              acc = joined ∙ sym (append_assoc p.front (packs ms) t');
              offset = sym (length-append p.front (packs ms));
            }));
        delivered = rw e' same;
        drops = rw e' (dropped ∙ ap (λ d. d % 2 ^ 64) (omega arith));
        size = rw e' (omega (arith, size, length-append c.frame_acc chunk));
      }

-- The peer sends the frames of messages one behind the other, each message with a payload of at most
-- 2^20 - 12 bytes and with fields that fit their widths (Fits), and fewer than 2^64 bytes come in all.
-- Then the messages reach on_frame_ whole, in order and once each, wherever the reads cut the stream, and
-- nothing is dropped. `t` is what an earlier read left of the first frame.
pub read_all-packs :
    (chunks : List (List ℕ)) (c : Channel) (t : List ℕ) (ms : List Message)
    → Pending c t
    → Partial t ms
    → t ++ flat chunks ≡ packs ms
    → All Fits ms
    → c.drops < 2 ^ 64
    → length c.frame_acc + length (flat chunks) < 2 ^ 64
    → ((read_all chunks c).delivered ≡ c.delivered ++ map notice ms)
      × ((read_all chunks c).drops ≡ c.drops)
unfolding read_all
read_all-packs [] c t [] p part e f d small = (sym (append-nil c.delivered), refl)
read_all-packs [] c t (m ∷ ms) p part e f d small =
    absurd (omega (arith, ap length e, length-append t [], length-append (pack m) (packs ms)))
read_all-packs (chunk ∷ chunks) c t ms p part e f d small =
    let (whole, rest, t', a, b, q, part') =
      split ms (t ++ chunk) (flat chunks) (append_assoc t chunk (flat chunks) ∙ e) in
    let fits : All Fits (whole ++ rest) = subst (All Fits) a f in
    let size = length-append chunk (flat chunks) in
    let r =
      on_read-Reads c chunk t t' whole p b (All-front Fits whole rest fits)
        (Partial-Stops t' (flat chunks) rest (All-back Fits whole rest fits) q part')
        (omega (arith, size)) in
    let same : (on_read chunk c).drops ≡ c.drops = r.drops ∙ mod-eq_of_lt d in
    let (told, kept) =
      read_all-packs chunks (on_read chunk c) t' rest r.pending part' q
        (All-back Fits whole rest fits) (omega (arith, same)) (omega (arith, size, r.size)) in
    (
      told
          ∙ ap (λ x. x ++ map notice rest) r.delivered
          ∙ append_assoc c.delivered (map notice whole) (map notice rest)
          ∙ ap (◌++◌ c.delivered) (sym (map-append notice whole rest) ∙ ap (map notice) (sym a)),
      kept ∙ same,
    )
