-- ===== src/Common/Tables.antt =====
-- std::unordered_map with an integer key: an association list, with each key once. The order of its
-- entries is unspecified in the source.
use Prim.Native.Nat.{ℕ}
use mathlib.Core.Path.{◌≡◌, refl, ◌∙◌}
use mathlib.Core.Bool.{Bool, true, false}
use mathlib.Core.Option.{Option, none, some}
use mathlib.Core.List.{List, [], ◌∷◌}
use native.Mathlib.Omega.{arith}
use ecs_asio_server.Common.Tests.{◌==◌, if◌then◌else◌, if_cases}

module _ {ℓ} {A : Type ℓ} where
  -- `find`
  unfoldable pub find : ℕ → List (ℕ × A) → Option A
  find k [] = none
  find k ((j, v) ∷ t) = let rest = find k t in if k == j then some v else rest

  -- `count(k)`, and the test of `find` against `end()`
  unfoldable pub has_key : ℕ → List (ℕ × A) → Bool
  has_key k [] = false
  has_key k ((j, v) ∷ t) = let rest = has_key k t in if k == j then true else rest

  unfoldable pub erase_key : ℕ → List (ℕ × A) → List (ℕ × A)
  erase_key k [] = []
  erase_key k ((j, v) ∷ t) = let rest = erase_key k t in if k == j then rest else (j, v) ∷ rest

  -- `t[k] = v`
  unfoldable pub assign : ℕ → A → List (ℕ × A) → List (ℕ × A)
  assign k v t = (k, v) ∷ erase_key k t

  pub find-erase_key :
      (k j : ℕ) (t : List (ℕ × A)) → find j (erase_key k t) ≡ (if j == k then none else find j t)
  unfolding find erase_key
  find-erase_key k j [] = ground arith
  find-erase_key k j ((i, v) ∷ t) = ground (arith, find-erase_key k j t)

  pub has_key-erase_key :
      (k j : ℕ) (t : List (ℕ × A))
      → has_key j (erase_key k t) ≡ (if j == k then false else has_key j t)
  unfolding has_key erase_key
  has_key-erase_key k j [] = ground arith
  has_key-erase_key k j ((i, v) ∷ t) = ground (arith, has_key-erase_key k j t)

  pub find-assign :
      (k j : ℕ) (v : A) (t : List (ℕ × A))
      → find j (assign k v t) ≡ (if j == k then some v else find j t)
  unfolding find assign
  find-assign k j v t = ground (arith, find-erase_key k j t)

  pub has_key-assign :
      (k j : ℕ) (v : A) (t : List (ℕ × A))
      → has_key j (assign k v t) ≡ (if j == k then true else has_key j t)
  unfolding has_key assign
  has_key-assign k j v t = ground (arith, has_key-erase_key k j t)

  abbrev pub is_some_of : Option A → Bool
  is_some_of none = false
  is_some_of (some a) = true

  pub has_key-find : (k : ℕ) (t : List (ℕ × A)) → has_key k t ≡ is_some_of (find k t)
  unfolding has_key find
  has_key-find k [] = refl
  has_key-find k ((j, v) ∷ t) = ground (arith, has_key-find k t)

  pub erase_key_absent : (k : ℕ) (t : List (ℕ × A)) → has_key k t ≡ false → erase_key k t ≡ t
  unfolding has_key erase_key
  erase_key_absent k [] h = refl
  erase_key_absent k ((j, v) ∷ t) h = ground (arith, erase_key_absent k t)

  abbrev pub NoRepeat : List (ℕ × A) → Type 0
  NoRepeat [] = Unit {0}
  NoRepeat ((k, v) ∷ t) = (has_key k t ≡ false) × NoRepeat t

  pub erase_key-NoRepeat : (k : ℕ) (t : List (ℕ × A)) → NoRepeat t → NoRepeat (erase_key k t)
  unfolding erase_key
  erase_key-NoRepeat k [] h = tt
  erase_key-NoRepeat k ((j, v) ∷ t) h =
      if_cases NoRepeat (k == j) (λ _. erase_key-NoRepeat k t h.1)
        (λ _. (ground (arith, has_key-erase_key k j t, h.0), erase_key-NoRepeat k t h.1))

  pub assign-NoRepeat : (k : ℕ) (v : A) (t : List (ℕ × A)) → NoRepeat t → NoRepeat (assign k v t)
  unfolding assign
  assign-NoRepeat k v t h = (ground (arith, has_key-erase_key k k t), erase_key-NoRepeat k t h)

pub ruleset table_laws = (find-erase_key, has_key-erase_key, find-assign, has_key-assign)

module _ {ℓ} {A : Type ℓ} where
  -- A change of what a key holds, which does nothing where the key is absent.
  unfoldable pub adjust : ℕ → (A → A) → List (ℕ × A) → List (ℕ × A)
  adjust k f [] = []
  adjust k f ((j, v) ∷ t) =
      let rest = adjust k f t in if k == j then (j, f v) ∷ t else (j, v) ∷ rest

  abbrev pub on_some : (A → A) → Option A → Option A
  on_some f none = none
  on_some f (some a) = some (f a)

  pub find-adjust :
      (k j : ℕ) (f : A → A) (t : List (ℕ × A))
      → find j (adjust k f t) ≡ (if j == k then on_some f (find j t) else find j t)
  unfolding find adjust
  find-adjust k j f [] = ground arith
  find-adjust k j f ((i, v) ∷ t) = ground (arith, find-adjust k j f t)

  pub has_key-adjust :
      (k j : ℕ) (f : A → A) (t : List (ℕ × A)) → has_key j (adjust k f t) ≡ has_key j t
  unfolding has_key adjust
  has_key-adjust k j f [] = refl
  has_key-adjust k j f ((i, v) ∷ t) = ground (arith, has_key-adjust k j f t)

  pub adjust-NoRepeat :
      (k : ℕ) (f : A → A) (t : List (ℕ × A)) → NoRepeat t → NoRepeat (adjust k f t)
  unfolding adjust
  adjust-NoRepeat k f [] h = tt
  adjust-NoRepeat k f ((j, v) ∷ t) h =
      if_cases NoRepeat (k == j) (λ _. h)
        (λ _. (has_key-adjust k j f t ∙ h.0, adjust-NoRepeat k f t h.1))
