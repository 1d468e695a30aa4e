-- ===== src/Game/Movement/Collisions.antt =====
-- Two entities at one place, which the collisions of the movement system take apart.
use ecs_asio_server.Common.{
  ℕ, ◌≡◌, ◌≢◌, refl, sym, ap, ◌∙◌, subst, List, [], ◌∷◌, Bool, true, false, Option, none, some,
  arith, if_cases,
}
use ecs_asio_server.Common.Tables.{on_some}
use ecs_asio_server.Ecs.Store.{get, add, snapshot_entities}
use ecs_asio_server.Ecs.Store.Laws.{get-add}
use ecs_asio_server.Game.World.{Position, Service}
use ecs_asio_server.Game.Floats.{Floats, norm, apart, advance}
use ecs_asio_server.Game.Maps.{thousand}
use ecs_asio_server.Game.Movement.{
  min_bound, two_radii, each, shifted, carried, confined, push, separate, collide, collide_with,
  collide_all, handle_collisions, update_positions, check_boundaries, update,
}

-- What IEEE 754 says of a NaN and of zero.
pub record NanLaws (fl : Floats) (is_nan : ℕ → Bool) : Type 0 where
  pub plus_nan : (a b : ℕ) → is_nan a ≡ true → is_nan (fl.plus a b) ≡ true
  pub nan_plus : (a b : ℕ) → is_nan b ≡ true → is_nan (fl.plus a b) ≡ true
  pub minus_nan : (a b : ℕ) → is_nan a ≡ true → is_nan (fl.minus a b) ≡ true
  pub nan_minus : (a b : ℕ) → is_nan b ≡ true → is_nan (fl.minus a b) ≡ true
  pub times_nan : (a b : ℕ) → is_nan a ≡ true → is_nan (fl.times a b) ≡ true
  pub sqrt_nan : (a : ℕ) → is_nan a ≡ true → is_nan (fl.sqrt a) ≡ true
  pub zero_over_zero : is_nan (fl.over 0 0) ≡ true
  pub lt_nan : (a b : ℕ) → is_nan a ≡ true → fl.lt a b ≡ false
  pub nan_lt : (a b : ℕ) → is_nan b ≡ true → fl.lt a b ≡ false
  pub of_zero : fl.sqrt (fl.plus (fl.plus (fl.times 0 0) (fl.times 0 0)) (fl.times 0 0)) ≡ 0
  pub zero_lt_two : fl.lt 0 two_radii ≡ true

each_lem :
    (f : ℕ → Position → Position) (e : ℕ) (ps : List (ℕ × Position))
    → get e (each f ps) ≡ on_some (f e) (get e ps)
unfolding get each
each_lem f e [] = refl
each_lem f e ((g, p) ∷ ps) = ground (arith, each_lem f e ps, ap (λ k. f k p))

-- A position with no coordinate that is a number.
abbrev pub Lost : (ℕ → Bool) → Option Position → Type 0
Lost is_nan o =
    (p : Position) × (o ≡ some p) × (is_nan p.x ≡ true) × (is_nan p.y ≡ true) × (is_nan p.z ≡ true)

module _ (fl : Floats) (is_nan : ℕ → Bool) (laws : NanLaws fl is_nan) where
  norm_nan : (d : Position) → is_nan d.x ≡ true → is_nan (norm fl d) ≡ true
  norm_nan d h = laws.sqrt_nan _ (
      laws.plus_nan _ (fl.times d.z d.z)
        (laws.plus_nan _ (fl.times d.y d.y) (laws.times_nan d.x d.x h)))

  -- Whether one of the two is lost decides nothing but that the pair is left alone.
  separate_near :
      (e1 e2 f : ℕ) (p q : Position) (ps : List (ℕ × Position))
      → get e1 ps ≡ some p
      → get e2 ps ≡ some q
      → Lost is_nan (get f ps)
      → Lost is_nan (get f (separate fl e1 e2 (some p) (some q) ps))
  unfolding separate
  separate_near e1 e2 f p q ps h1 h2 (r, found, x, y, z) =
      let d = apart fl p q in
      let distance = norm fl d in
      let p' = shifted fl p (push fl distance d) in
      let q' = apart fl q (push fl distance d) in
      if_cases (λ qs. Lost is_nan (get f qs)) (fl.lt distance two_radii)
        (λ near. (
          r,
          ground (
            arith,
            get-add e2 f q' (add e1 p' ps),
            get-add e1 f p' ps,
            found,
            h1,
            h2,
            near,
            laws.lt_nan distance two_radii,
            norm_nan d,
            laws.minus_nan p.x q.x,
            laws.nan_minus p.x q.x,
          ),
          x,
          y,
          z,
        ))
        (λ far. (r, found, x, y, z))

  collide-Lost :
      (e1 e2 f : ℕ) (o1 o2 : Option Position) (ps : List (ℕ × Position))
      → get e1 ps ≡ o1
      → get e2 ps ≡ o2
      → Lost is_nan (get f ps)
      → Lost is_nan (get f (separate fl e1 e2 o1 o2 ps))
  unfolding separate
  collide-Lost e1 e2 f none o2 ps h1 h2 lost = lost
  collide-Lost e1 e2 f (some p) none ps h1 h2 lost = lost
  collide-Lost e1 e2 f (some p) (some q) ps h1 h2 lost = separate_near e1 e2 f p q ps h1 h2 lost

  collide_with-Lost :
      (e f : ℕ) (es : List ℕ) (ps : List (ℕ × Position))
      → Lost is_nan (get f ps)
      → Lost is_nan (get f (collide_with fl e es ps))
  unfolding collide_with collide
  collide_with-Lost e f [] ps lost = lost
  collide_with-Lost e f (g ∷ es) ps lost =
      collide_with-Lost e f es _ (collide-Lost e g f (get e ps) (get g ps) ps refl refl lost)

  collide_all-Lost :
      (f : ℕ) (es : List ℕ) (ps : List (ℕ × Position))
      → Lost is_nan (get f ps)
      → Lost is_nan (get f (collide_all fl es ps))
  unfolding collide_all
  collide_all-Lost f [] ps lost = lost
  collide_all-Lost f (e ∷ es) ps lost =
      collide_all-Lost f es (collide_with fl e es ps) (collide_with-Lost e f es ps lost)

  carried-Lost :
      (delta_time : ℕ) (v : Option Position) (p : Position)
      → Lost is_nan (some p)
      → Lost is_nan (some (carried fl delta_time v p))
  carried-Lost delta_time none p lost = lost
  carried-Lost delta_time (some v) p (r, same, x, y, z) = (
    advance fl delta_time v p,
    refl,
    laws.plus_nan _ _ (ground (arith, same, x)),
    laws.plus_nan _ _ (ground (arith, same, y)),
    laws.plus_nan _ _ (ground (arith, same, z)),
  )

  update-Lost :
      (delta_time f : ℕ) (s : Service)
      → Lost is_nan (get f s.positions)
      → Lost is_nan (get f (update fl delta_time s).positions)
  unfolding update handle_collisions update_positions check_boundaries
  update-Lost delta_time f s (r, found, x, y, z) =
      collide_all-Lost f (snapshot_entities kept) kept stays
    where
      moved : List (ℕ × Position)
      moved = each (λ e p. carried fl delta_time (get e s.velocities) p) s.positions

      kept : List (ℕ × Position)
      kept = each (λ e p. confined fl p) moved

      stays : Lost is_nan (get f kept)
      stays =
          let (q, same, a, b, c) =
            carried-Lost delta_time (get f s.velocities) r (r, refl, x, y, z) in
          (
            confined fl q,
            each_lem (λ e p. confined fl p) f moved
                ∙ ap (on_some (confined fl)) (
                    each_lem (λ e p. carried fl delta_time (get e s.velocities) p) f s.positions
                    ∙ ap (on_some (carried fl delta_time (get f s.velocities))) found
                    ∙ same),
            ground (arith, laws.lt_nan q.x min_bound, laws.nan_lt thousand q.x),
            ground (arith, laws.lt_nan q.y min_bound, laws.nan_lt thousand q.y),
            ground (arith, laws.lt_nan q.z min_bound, laws.nan_lt thousand q.z),
          )

  -- A push from where the other one stands.
  collide-same :
      (e1 e2 : ℕ) (p : Position) (ps : List (ℕ × Position))
      → e1 ≢ e2
      → apart fl p p ≡ record { x = 0; y = 0; z = 0 }
      → Lost is_nan (get e1 (separate fl e1 e2 (some p) (some p) ps))
        × Lost is_nan (get e2 (separate fl e1 e2 (some p) (some p) ps))
  unfolding separate
  collide-same e1 e2 p ps differ h =
      let still : Position = record { x = 0; y = 0; z = 0 } in
      let d = push fl 0 still in
      let gone =
        laws.times_nan (fl.over 0 0) (fl.over (fl.minus two_radii 0) two_radii)
          laws.zero_over_zero in
      let q = apart fl p d in
      let ps' = add e1 (shifted fl p d) ps in
      let near : fl.lt (norm fl still) two_radii ≡ true =
        ap (λ k. fl.lt k two_radii) laws.of_zero ∙ laws.zero_lt_two in
      let e : separate fl e1 e2 (some p) (some p) ps ≡ add e2 q ps' =
        ground (arith, h, near, laws.of_zero) in
      (
        subst (λ qs. Lost is_nan (get e1 qs)) (sym e)
            (
              shifted fl p d,
              ground (arith, get-add e2 e1 q ps', get-add e1 e1 (shifted fl p d) ps, differ),
              laws.nan_plus _ _ gone,
              laws.nan_plus _ _ gone,
              laws.nan_plus _ _ gone,
            ),
        subst (λ qs. Lost is_nan (get e2 qs)) (sym e)
            (
              q,
              ground (arith, get-add e2 e2 q ps'),
              laws.nan_minus _ _ gone,
              laws.nan_minus _ _ gone,
              laws.nan_minus _ _ gone,
            ),
      )

-- A number of updates with the times that they are given.
pub updates : Floats → List ℕ → Service → Service
updates fl [] s = s
updates fl (delta_time ∷ times) s = updates fl times (update fl delta_time s)

module _ (fl : Floats) (is_nan : ℕ → Bool) (laws : NanLaws fl is_nan) where
  updates-Lost :
      (times : List ℕ) (f : ℕ) (s : Service)
      → Lost is_nan (get f s.positions)
      → Lost is_nan (get f (updates fl times s).positions)
  unfolding updates
  updates-Lost [] f s lost = lost
  updates-Lost (t ∷ times) f s lost =
      updates-Lost times f (update fl t s) (update-Lost fl is_nan laws t f s lost)

  -- Two entities, the first two of the store, stand at one place whose coordinates are finite (each less
  -- itself is zero). After handle_collisions no coordinate of either is a number, and so it stays after
  -- any number of updates. The laws of a NaN are those of IEEE 754.
  pub handle_collisions-Lost :
      (e1 e2 : ℕ) (p : Position) (rest : List (ℕ × Position)) (s : Service) (times : List ℕ)
      → e1 ≢ e2
      → apart fl p p ≡ record { x = 0; y = 0; z = 0 }
      → s.positions ≡ (e1, p) ∷ ((e2, p) ∷ rest)
      → Lost is_nan (get e1 (updates fl times (handle_collisions fl s)).positions)
        × Lost is_nan (get e2 (updates fl times (handle_collisions fl s)).positions)
  unfolding handle_collisions snapshot_entities collide_all collide_with collide
  handle_collisions-Lost e1 e2 p rest s times differ h e =
      let ps : List (ℕ × Position) = (e1, p) ∷ ((e2, p) ∷ rest) in
      let es = snapshot_entities rest in
      let both = collide-same fl is_nan laws e1 e2 p ps differ h in
      let met : collide fl e1 e2 ps ≡ separate fl e1 e2 (some p) (some p) ps =
        unfold get in ground (arith, differ) in
      let later : (f : ℕ)
          → Lost is_nan (get f (separate fl e1 e2 (some p) (some p) ps))
          → Lost is_nan (get f (handle_collisions fl s).positions) =
        λ f lost.
          subst (λ qs. Lost is_nan (get f (collide_all fl (snapshot_entities qs) qs))) (sym e)
            (collide_all-Lost fl is_nan laws f (e2 ∷ es) _ (
              collide_with-Lost fl is_nan laws e1 f es _
                (subst (λ qs. Lost is_nan (get f qs)) (sym met) lost))) in
      (
        updates-Lost times e1 (handle_collisions fl s) (later e1 both.0),
        updates-Lost times e2 (handle_collisions fl s) (later e2 both.1),
      )
