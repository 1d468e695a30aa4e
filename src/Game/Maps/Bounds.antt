-- ===== src/Game/Maps/Bounds.antt =====
-- The bounds of a map.
use ecs_asio_server.Common.{
  ℕ, ◌≡◌, refl, sym, ap, ◌∙◌, List, [], ◌∷◌, Bool, true, not, Bool-cases, inl, inr, ◌&&◌, Option,
  none, some, ◌==◌, if◌then◌else◌, arith, All, if_cases, subst,
}
use ecs_asio_server.Ecs.Store.{get}
use ecs_asio_server.Ecs.Store.Laws.{get-add}
use ecs_asio_server.Game.World.{Position}
use ecs_asio_server.Game.Maps.{
  Maps, MapBounds, get_objects_in_map, is_inside, clamp, clamped, inside_of, is_object_in_bounds,
  put_back, clamp_object_to_bounds, collision_loop, check_map_collisions,
}

-- No coordinate is a NaN: each is at most itself.
abbrev pub are_numbers : (ℕ → ℕ → Bool) → Position → Bool
are_numbers fle p = fle p.x p.x && (fle p.y p.y && fle p.z p.z)

-- A position, if there is one, is inside the bounds exactly if no coordinate is a NaN.
abbrev pub Inside : (ℕ → ℕ → Bool) → (ℕ → ℕ → Bool) → MapBounds → Option Position → Type 0
Inside flt fle b none = Unit {0}
Inside flt fle b (some p) = is_inside flt fle b p ≡ are_numbers fle p

-- Bounds whose minima do not exceed their maxima.
abbrev pub Proper : (ℕ → ℕ → Bool) → MapBounds → Type 0
Proper fle b =
    (fle b.min_x b.max_x ≡ true) × (fle b.min_y b.max_y ≡ true) × (fle b.min_z b.max_z ≡ true)

-- The comparisons of floats, as IEEE 754 has them: <= holds between numbers only, not for a NaN, and
-- between numbers it is the opposite of >.
pub record Comparisons (flt fle : ℕ → ℕ → Bool) : Type 0 where
  pub of_numbers : (a b : ℕ) → fle a b ≡ true → (fle a a ≡ true) × (fle b b ≡ true)
  pub opposite : (a b : ℕ) → fle a a ≡ true → fle b b ≡ true → fle a b ≡ not (flt b a)

module _ (flt fle : ℕ → ℕ → Bool) (laws : Comparisons flt fle) where
  clamp-within :
      (v lo hi : ℕ)
      → fle lo hi ≡ true
      → (fle lo (clamp flt fle v lo hi) && fle (clamp flt fle v lo hi) hi)
        ≡ fle (clamp flt fle v lo hi) (clamp flt fle v lo hi)
  unfolding clamp
  clamp-within v lo hi h =
      let (low, high) = laws.of_numbers lo hi h in
      elim (Bool-cases (fle v v)) [
        | inl q ↦
            ground (arith, h, low, high, q, laws.opposite lo v low q, laws.opposite v hi q high)
        | inr q ↦
            let below = λ (k : fle lo v ≡ true). (laws.of_numbers lo v k).1 in
            elim (Bool-cases (fle lo v)) [
              | inl k ↦ absurd (ground (arith, below k, q))
              | inr k ↦ ground (arith, h, low, high, q, k)
            ]
      ]

  inside-numbers :
      (b : MapBounds) (p : Position) → is_inside flt fle b p ≡ true → are_numbers fle p ≡ true
  unfolding is_inside
  inside-numbers b p h =
      let x = (laws.of_numbers b.min_x p.x (ground (arith, h))).1 in
      let y = (laws.of_numbers b.min_y p.y (ground (arith, h))).1 in
      let z = (laws.of_numbers b.min_z p.z (ground (arith, h))).1 in ground (arith, x, y, z)

  clamped-inside :
      (b : MapBounds) (p : Position)
      → Proper fle b
      → is_inside flt fle b (clamped flt fle b p) ≡ are_numbers fle (clamped flt fle b p)
  unfolding is_inside clamped
  clamped-inside b p h = ground (
    arith,
    clamp-within p.x b.min_x b.max_x h.0,
    clamp-within p.y b.min_y b.max_y h.1,
    clamp-within p.z b.min_z b.max_z h.2,
  )

  abbrev turn : ℕ → ℕ → Maps → Maps
  turn map_entity object s =
      if is_object_in_bounds flt fle map_entity object s
      then s
      else clamp_object_to_bounds flt fle map_entity object s

  put_back-Inside :
      (b : MapBounds) (object f : ℕ) (s : Maps) (r : Option Position)
      → Proper fle b
      → get object s.positions ≡ r
      → (Inside flt fle b (get object (put_back flt fle object (some b) r s).positions))
        × (Inside flt fle b (get f s.positions)
            → Inside flt fle b (get f (put_back flt fle object (some b) r s).positions))
  put_back-Inside b object f s none h e = (subst (Inside flt fle b) (sym e) tt, λ i. i)
  put_back-Inside b object f s (some p) h e =
      let c = clamped flt fle b p in
      (
        subst (Inside flt fle b) (sym (get-add object object c s.positions)) (
            if_cases (Inside flt fle b) (object == object) (λ _. clamped-inside b p h)
              (λ n. absurd (ground (arith, n)))),
        λ i.
            subst (Inside flt fle b) (sym (get-add object f c s.positions))
              (if_cases (Inside flt fle b) (f == object) (λ _. clamped-inside b p h) (λ _. i)),
      )

  turn-Inside :
      (b : MapBounds) (map_entity object f : ℕ) (s : Maps)
      → Proper fle b
      → get map_entity s.bounds ≡ some b
      → ((turn map_entity object s).bounds ≡ s.bounds)
        × (Inside flt fle b (get object (turn map_entity object s).positions))
        × (Inside flt fle b (get f s.positions)
            → Inside flt fle b (get f (turn map_entity object s).positions))
  unfolding is_object_in_bounds clamp_object_to_bounds
  turn-Inside b map_entity object f s h e =
      subst (λ o. P (if inside_of flt fle o r then s else put_back flt fle object o r s)) (sym e)
        (if_cases P (inside_of flt fle (some b) r) (λ k. (refl, within r k, λ i. i))
          (λ _. let back = put_back-Inside b object f s r h refl in (kept r, back.0, back.1)))
    where
      r : Option Position
      r = get object s.positions

      P : Maps → Type 0
      P t =
          (t.bounds ≡ s.bounds)
          × (Inside flt fle b (get object t.positions))
          × (Inside flt fle b (get f s.positions) → Inside flt fle b (get f t.positions))

      within : (o : Option Position) → inside_of flt fle (some b) o ≡ true → Inside flt fle b o
      within none k = tt
      within (some p) k = k ∙ sym (inside-numbers b p k)

      kept : (o : Option Position) → (put_back flt fle object (some b) o s).bounds ≡ s.bounds
      kept none = refl
      kept (some p) = refl

  loop-Inside :
      (b : MapBounds) (map_entity : ℕ) (objects : List ℕ) (f : ℕ) (s : Maps)
      → Proper fle b
      → get map_entity s.bounds ≡ some b
      → (All
          (λ object.
            Inside flt fle b (get object (collision_loop flt fle map_entity objects s).positions))
          objects)
        × (Inside flt fle b (get f s.positions)
            → Inside flt fle b (get f (collision_loop flt fle map_entity objects s).positions))
  unfolding collision_loop
  loop-Inside b map_entity [] f s h e = (tt, λ i. i)
  loop-Inside b map_entity (object ∷ objects) f s h e =
      let t = turn map_entity object s in
      let own = turn-Inside b map_entity object object s h e in
      let one = turn-Inside b map_entity object f s h e in
      let found = ap (get map_entity) one.0 ∙ e in
      let rest = loop-Inside b map_entity objects f t h found in
      (((loop-Inside b map_entity objects object t h found).1 own.1, rest.0), λ i. rest.1 (one.2 i))

  -- After check_map_collisions, every object of a map that has bounds, with no minimum above its
  -- maximum, has no position, or one that is inside them exactly if none of its coordinates is a NaN.
  -- The comparisons of floats are those of IEEE 754: <= holds between numbers only, and between these it
  -- is the opposite of >.
  pub check_map_collisions-Inside :
      (b : MapBounds) (map_entity : ℕ) (s : Maps)
      → Proper fle b
      → get map_entity s.bounds ≡ some b
      → All
          (λ object.
            Inside flt fle b (get object (check_map_collisions flt fle map_entity s).positions))
          (get_objects_in_map map_entity s)
  unfolding check_map_collisions
  check_map_collisions-Inside b map_entity s h e =
      (loop-Inside b map_entity (get_objects_in_map map_entity s) 0 s h e).0
