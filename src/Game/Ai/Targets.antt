-- ===== src/Game/Ai/Targets.antt =====
-- What find_nearest_target finds.
use ecs_asio_server.Common.{
  ℕ, ◌≡◌, ◌⊎◌, inl, inr, refl, List, [], ◌∷◌, true, false, ◌&&◌, Option, none, some, arith, All,
  Bool-cases, ne→==, subst, sym, ap, ◌∙◌,
}
use ecs_asio_server.Ecs.Store.{get, has}
use ecs_asio_server.Ecs.Objects.{Player}
use ecs_asio_server.Game.World.{Position, Service}
use ecs_asio_server.Game.Floats.{Floats, norm, apart}
use ecs_asio_server.Game.Ai.{
  sight, float_max, nearer, nearest_loop, look_from, set_target, find_nearest_target,
}

abbrev pub distance : Floats → Position → Position → ℕ
distance fl own p = norm fl (apart fl p own)

-- A position, if there is one, is not in sight and nearer than `d`.
abbrev pub NotNearer : Floats → Position → ℕ → Option Position → Type 0
NotNearer fl own d none = Unit {0}
NotNearer fl own d (some p) =
    (fl.lt (distance fl own p) d && fl.lt (distance fl own p) sight) ≡ false

abbrev pub NoneNearer : Floats → Position → ℕ → List (ℕ × Position) → List (ℕ × Player) → Type 0
NoneNearer fl own d positions players = All (λ c. NotNearer fl own d (get c.0 positions)) players

-- A player in sight at the distance `d`.
abbrev pub InSight : Floats → Position → List (ℕ × Position) → List (ℕ × Player) → ℕ → ℕ → Type 0
InSight fl own positions players player d =
    (p : Position) × (has player players ≡ true)
    × (get player positions ≡ some p)
    × (d ≡ distance fl own p)
    × (fl.lt d sight ≡ true)

-- `<` among floats that are numbers.
module _ (fl : Floats) (irreflexive : (a : ℕ) → fl.lt a a ≡ false)
    (transitive : (a b c : ℕ) → fl.lt a b ≡ true → fl.lt b c ≡ true → fl.lt a c ≡ true) where
  -- One player: the best so far grows no farther, and is either the old one or that player.
  nearer_lem :
      (own : Position) (player : ℕ) (o : Option Position) (best : ℕ × ℕ)
      → ((x : ℕ) → fl.lt x (nearer fl own player o best).1 ≡ true → fl.lt x best.1 ≡ true)
        × ((x : ℕ)
            → ((y : ℕ) → fl.lt y x ≡ true → fl.lt y (nearer fl own player o best).1 ≡ true)
            → NotNearer fl own x o)
        × ((nearer fl own player o best ≡ best)
            ⊎ ((p : Position) × (o ≡ some p)
                × (nearer fl own player o best ≡ (player, distance fl own p))
                × (fl.lt (distance fl own p) sight ≡ true)))
  nearer_lem own player none best = (λ x h. h, λ x h. tt, inl refl)
  nearer_lem own player (some p) best =
      let d : ℕ = distance fl own p in
      elim (Bool-cases (fl.lt d best.1 && fl.lt d sight)) [
        | inl q ↦ (
          λ x h. ground (arith, q, h, transitive x d best.1),
          λ x h. ground (arith, q, h d, irreflexive d),
          inr (p, refl, ground (arith, q), ground (arith, q)),
        )
        | inr q ↦
            (λ x h. ground (arith, q, h), λ x h. ground (arith, q, h d), inl (ground (arith, q)))
      ]

  Chosen : Position → List (ℕ × Position) → List (ℕ × Player) → ℕ × ℕ → Type 0
  Chosen own positions players r = InSight fl own positions players r.0 r.1

  has_later :
      (e player : ℕ) (c : Player) (players : List (ℕ × Player))
      → has e players ≡ true
      → has e ((player, c) ∷ players) ≡ true
  unfolding has
  has_later e player c players h = ground (arith, h)

  has_first :
      (player : ℕ) (c : Player) (players : List (ℕ × Player))
      → has player ((player, c) ∷ players) ≡ true
  unfolding has
  has_first player c players = ground arith

  loop_lem :
      (own : Position) (positions : List (ℕ × Position)) (players : List (ℕ × Player))
      (best : ℕ × ℕ)
      → ((x : ℕ)
          → fl.lt x (nearest_loop fl own positions players best).1 ≡ true
          → fl.lt x best.1 ≡ true)
        × NoneNearer fl own (nearest_loop fl own positions players best).1 positions players
        × ((nearest_loop fl own positions players best ≡ best)
            ⊎ Chosen own positions players (nearest_loop fl own positions players best))
  unfolding nearest_loop Chosen
  loop_lem own positions [] best = (λ x h. h, tt, inl refl)
  loop_lem own positions ((player, c) ∷ players) best =
      let o = get player positions in
      let next = nearer fl own player o best in
      let r = nearest_loop fl own positions players next in
      let one = nearer_lem own player o best in
      let rest = loop_lem own positions players next in
      (
        λ x h. one.0 x (rest.0 x h),
        (one.1 r.1 rest.0, rest.1),
        elim rest.2 [
          | inl same ↦ elim one.2 [
            | inl old ↦ inl (same ∙ old)
            | inr (p, found, e, near) ↦ inr (
                subst (λ (b : ℕ × ℕ). InSight fl own positions ((player, c) ∷ players) b.0 b.1)
                  (sym (same ∙ e)) (p, has_first player c players, found, refl, near))
          ]
          | inr (p, listed, found, far, near) ↦
              inr (p, has_later r.0 player c players listed, found, far, near)
        ],
      )

  in_sight :
      (own : Position) (o : Option Position)
      → fl.lt sight float_max ≡ true
      → NotNearer fl own float_max o
      → NotNearer fl own sight o
  in_sight own none far h = tt
  in_sight own (some p) far h =
      ground (arith, h, transitive (distance fl own p) sight float_max, far)

  none_in_sight :
      (own : Position) (positions : List (ℕ × Position)) (players : List (ℕ × Player))
      → fl.lt sight float_max ≡ true
      → NoneNearer fl own float_max positions players
      → NoneNearer fl own sight positions players
  none_in_sight own positions [] far h = tt
  none_in_sight own positions ((player, c) ∷ players) far h =
      (in_sight own (get player positions) far h.0, none_in_sight own positions players far h.1)

  -- A monster at a position looks for a target. Either no player is in sight, nearer than 20 units, and
  -- nothing changes; or the target is a player in sight, and no player in sight is nearer. No player is
  -- the entity 0, and `<` is irreflexive and transitive, with 20 below the largest float.
  pub find_nearest_target-Nearest :
      (entity : ℕ) (own : Position) (s : Service)
      → fl.lt sight float_max ≡ true
      → has 0 s.players ≡ false
      → get entity s.positions ≡ some own
      → ((find_nearest_target fl entity s ≡ s) × NoneNearer fl own sight s.positions s.players)
        ⊎ ((player : ℕ) × (d : ℕ) × (find_nearest_target fl entity s ≡ set_target entity player s)
            × InSight fl own s.positions s.players player d
            × NoneNearer fl own d s.positions s.players)
  unfolding find_nearest_target Chosen
  find_nearest_target-Nearest entity own s far nobody here =
      let start : ℕ × ℕ = (0, float_max) in
      let r = nearest_loop fl own s.positions s.players start in
      let l = loop_lem own s.positions s.players start in
      elim l.2 [
        | inl same ↦ inl (
          ap (λ o. look_from fl entity o s) here ∙ ground (arith, ap (λ (b : ℕ × ℕ). b.0) same),
          none_in_sight own s.positions s.players far
              (subst (λ (b : ℕ × ℕ). NoneNearer fl own b.1 s.positions s.players) same l.1),
        )
        | inr (p, listed, found, d, near) ↦ inr (
          r.0,
          r.1,
          ap (λ o. look_from fl entity o s) here
              ∙ ground (
                arith,
                ne→== r.0 0 (λ z. ground (ap (λ e. has e s.players) z, listed, nobody, arith)),
              ),
          (p, listed, found, d, near),
          l.1,
        )
      ]
