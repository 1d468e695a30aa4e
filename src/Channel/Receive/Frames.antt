-- ===== src/Channel/Receive/Frames.antt =====
-- A byte stream that is a row of frames, and how a front of it splits.
use ecs_asio_server.Common.{
  ℕ, zero, suc, ◌+◌, ◌^◌, ◌≤◌, ◌<◌, ◌≡◌, refl, sym, ap, ap₂, ◌∙◌, List, [], ◌∷◌, ◌++◌, map,
  append-nil, append_assoc, length, All, arith, leb, length-append, Bool-cases, inl, inr,
}
use mathlib.Core.List.{tail-eq_of_cons-eq, head-eq_of_cons-eq}
use ecs_asio_server.Frame.Codec.{Message, nothing, header_of, pack, try_parse_one}
use ecs_asio_server.Frame.Codec.Steps.{Fits, try_parse_one_few}
use ecs_asio_server.Frame.Codec.RoundTrip.{try_parse_one-pack, try_parse_one_incomplete}
use ecs_asio_server.Channel.Receive.{done, parse_loop}

-- What the peer sends for a row of messages.
abbrev pub packs : List Message → List ℕ
packs [] = []
packs (m ∷ ms) = pack m ++ packs ms

-- What on_frame_ is told of a message.
abbrev pub notice : Message → ℕ × List ℕ
notice m = (m.cmd, m.payload)

-- `t` is a front of the row that holds no whole frame.
abbrev pub Partial : List ℕ → List Message → Type 0
Partial t [] = t ≡ []
Partial t (m ∷ ms) = length t < length (pack m)

-- The loop ends at `t`, wherever it stands.
abbrev pub Stops : List ℕ → Type 0
Stops t =
    (front : List ℕ)
    → length (front ++ t) < 2 ^ 64
    → try_parse_one (front ++ t) (length front) ≡ nothing (length front)

pub Partial-Stops :
    (t v : List ℕ) (ms : List Message) → All Fits ms → t ++ v ≡ packs ms → Partial t ms → Stops t
Partial-Stops t v [] f e p front small =
    try_parse_one_few front t small (omega (arith, ap length p))
Partial-Stops t v (m ∷ ms) f e p front small =
    try_parse_one_incomplete front m t v (packs ms) f.0 e p small

append_split :
    (xs u v w : List ℕ)
    → length xs ≤ length u
    → u ++ v ≡ xs ++ w
    → (u' : List ℕ) × (u ≡ xs ++ u') × (u' ++ v ≡ w)
append_split [] u v w h e = (u, refl, e)
append_split (x ∷ xs) [] v w h e = absurd (omega arith)
append_split (x ∷ xs) (y ∷ u) v w h e =
    let (u', p, q) = append_split xs u v w (omega arith) (tail-eq_of_cons-eq e) in
    (u', cc (head-eq_of_cons-eq e), q)

-- A front `u` of the row is some whole frames and a partial one.
pub split :
    (ms : List Message) (u v : List ℕ)
    → u ++ v ≡ packs ms
    → (whole rest : List Message) × (t : List ℕ) × (ms ≡ whole ++ rest)
      × (u ≡ packs whole ++ t)
      × (t ++ v ≡ packs rest)
      × Partial t rest
split [] [] v e = ([], [], [], refl, refl, e, refl)
split [] (x ∷ u) v e = absurd (omega (arith, ap length e))
split (m ∷ ms) u v e = elim (Bool-cases (leb (length (pack m)) (length u))) [
  | inl whole ↦
      let (u', p, q) = append_split (pack m) u v (packs ms) (ground arith) e in
      let (ms1, ms2, t, a, b, c, d) = split ms u' v q in
      (
        m ∷ ms1,
        ms2,
        t,
        ap (◌∷◌ m) a,
        p ∙ ap (◌++◌ (pack m)) b ∙ sym (append_assoc (pack m) (packs ms1) t),
        c,
        d,
      )
  | inr part ↦ ([], m ∷ ms, u, refl, refl, e, ground arith)
]

pub parse_loop-packs :
    (ms : List Message) (fuel : ℕ) (front t : List ℕ) (fs : List (ℕ × List ℕ)) (d : ℕ)
    → All Fits ms
    → Stops t
    → length ms < fuel
    → length (front ++ (packs ms ++ t)) < 2 ^ 64
    → parse_loop fuel (front ++ (packs ms ++ t)) (length front) fs d
      ≡ done (length front + length (packs ms)) (fs ++ map notice ms) d
unfolding parse_loop header_of
parse_loop-packs ms zero front t fs d f stop enough small = absurd (omega arith)
parse_loop-packs [] (suc fuel) front t fs d f stop enough small =
    rw (stop front small, parse_loop, append-nil) (ap (λ o. done o fs d) (omega arith))
parse_loop-packs (m ∷ ms) (suc fuel) front t fs d f stop enough small =
    ap (λ x. parse_loop (suc fuel) x (length front) fs d) behind
    ∙ rw (try_parse_one-pack front m (packs ms ++ t) f.0 (rw behind at small), parse_loop)
        (ap₂ (λ x o. parse_loop fuel x o (fs ++ (notice m ∷ [])) d)
            (sym (append_assoc front (pack m) (packs ms ++ t))) (sym (length-append front (pack m)))
          ∙ parse_loop-packs ms fuel (front ++ pack m) t (fs ++ (notice m ∷ [])) d f.1 stop
              (omega arith) small'
          ∙ ap₂ (λ o l. done o l d)
              (omega (arith, length-append front (pack m), length-append (pack m) (packs ms)))
              (append_assoc fs (notice m ∷ []) (map notice ms)))
  where
    behind : front ++ (packs (m ∷ ms) ++ t) ≡ front ++ (pack m ++ (packs ms ++ t))
    behind = ap (◌++◌ front) (append_assoc (pack m) (packs ms) t)

    small' : length ((front ++ pack m) ++ (packs ms ++ t)) < 2 ^ 64
    small' =
        omega (arith, small, ap length (behind ∙ sym (append_assoc front (pack m) (packs ms ++ t))))
