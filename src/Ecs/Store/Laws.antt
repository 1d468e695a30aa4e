-- ===== src/Ecs/Store/Laws.antt =====
-- A component store is a finite map.
use ecs_asio_server.Common.{
  ℕ, ◌≡◌, refl, List, [], ◌∷◌, true, false, none, some, ◌==◌, if◌then◌else◌, if_cases, arith,
}
use ecs_asio_server.Ecs.Store.{get, has, add, remove}

module _ {ℓ} {A : Type ℓ} where
  -- No entity twice.
  abbrev pub Keys : List (ℕ × A) → Type 0
  Keys [] = Unit {0}
  Keys ((e, c) ∷ s) = (has e s ≡ false) × Keys s

  pub get-add :
      (e f : ℕ) (c : A) (s : List (ℕ × A))
      → get f (add e c s) ≡ (if f == e then some c else get f s)
  unfolding get add
  get-add e f c [] = refl
  get-add e f c ((g, d) ∷ s) = ground (arith, get-add e f c s)

  pub get-add_same : (e : ℕ) (c : A) (s : List (ℕ × A)) → get e (add e c s) ≡ some c
  get-add_same e c s = ground (arith, get-add e e c s)

  has-add :
      (e f : ℕ) (c : A) (s : List (ℕ × A)) → has f (add e c s) ≡ (if f == e then true else has f s)
  unfolding has add
  has-add e f c [] = refl
  has-add e f c ((g, d) ∷ s) = ground (arith, has-add e f c s)

  pub has-add_still :
      (e f : ℕ) (c : A) (s : List (ℕ × A)) → has f s ≡ true → has f (add e c s) ≡ true
  has-add_still e f c s h = ground (arith, has-add e f c s, h)

  pub has-add_same : (e : ℕ) (c : A) (s : List (ℕ × A)) → has e (add e c s) ≡ true
  has-add_same e c s = ground (arith, has-add e e c s)

  has-remove_other : (e f : ℕ) (s : List (ℕ × A)) → has f s ≡ false → has f (remove e s) ≡ false
  unfolding has remove
  has-remove_other e f [] h = refl
  has-remove_other e f ((g, d) ∷ s) h = ground (arith, has-remove_other e f s)

  get_absent : (e : ℕ) (s : List (ℕ × A)) → has e s ≡ false → get e s ≡ none
  unfolding has get
  get_absent e [] h = refl
  get_absent e ((g, d) ∷ s) h = ground (arith, get_absent e s)

  remove-Keys : (e : ℕ) (s : List (ℕ × A)) → Keys s → Keys (remove e s)
  unfolding remove
  remove-Keys e [] k = tt
  remove-Keys e ((g, d) ∷ s) k =
      if_cases Keys (e == g) (λ _. k.1) (λ _. (has-remove_other e g s k.0, remove-Keys e s k.1))

  get-remove :
      (e f : ℕ) (s : List (ℕ × A))
      → Keys s
      → get f (remove e s) ≡ (if f == e then none else get f s)
  unfolding get remove
  get-remove e f [] k = ground arith
  get-remove e f ((g, d) ∷ s) k = ground (arith, get-remove e f s k.1, get_absent f s)

  add-Keys : (e : ℕ) (c : A) (s : List (ℕ × A)) → Keys s → Keys (add e c s)
  unfolding add
  add-Keys e c [] k = (unfold has in refl, tt)
  add-Keys e c ((g, d) ∷ s) k =
      if_cases Keys (e == g) (λ q. ground (arith, k.0, k.1))
        (λ q. (ground (arith, has-add e g c s, k.0), add-Keys e c s k.1))

  -- A store with each entity once stays one, and get answers what was added last and not removed since:
  -- the new component for the entity of an add, nothing for that of a remove, and what it was for every
  -- other entity.
  pub store_laws :
      (e f : ℕ) (c : A) (s : List (ℕ × A))
      → Keys s
      → Keys (add e c s)
        × Keys (remove e s)
        × (get f (add e c s) ≡ (if f == e then some c else get f s))
        × (get f (remove e s) ≡ (if f == e then none else get f s))
  store_laws e f c s k = (add-Keys e c s k, remove-Keys e s k, get-add e f c s, get-remove e f s k)
