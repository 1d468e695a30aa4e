-- ===== src/Ecs/Store.antt =====
-- ComponentStore of server/game/ecs/component.hpp: the components of one type by entity. The
-- unordered_map is an association list with each entity once; its order is unspecified in the source.
pub mod Laws
use ecs_asio_server.Common.{
  ℕ, suc, List, [], ◌∷◌, Bool, true, false, Option, none, some, map, length, ◌==◌, if◌then◌else◌,
}

module _ {ℓ} {A : Type ℓ} where
  unfoldable pub get : ℕ → List (ℕ × A) → Option A
  get e [] = none
  get e ((f, c) ∷ s) = let rest = get e s in if e == f then some c else rest

  unfoldable pub has : ℕ → List (ℕ × A) → Bool
  has e [] = false
  has e ((f, c) ∷ s) = let rest = has e s in if e == f then true else rest

  -- `components_[entity] = std::move(component)`
  unfoldable pub add : ℕ → A → List (ℕ × A) → List (ℕ × A)
  add e c [] = (e, c) ∷ []
  add e c ((f, d) ∷ s) = let rest = add e c s in if e == f then (e, c) ∷ s else (f, d) ∷ rest

  unfoldable pub remove : ℕ → List (ℕ × A) → List (ℕ × A)
  remove e [] = []
  remove e ((f, d) ∷ s) = let rest = remove e s in if e == f then s else (f, d) ∷ rest

  unfoldable pub snapshot_entities : List (ℕ × A) → List ℕ
  snapshot_entities s = map (λ p. p.0) s

  unfoldable pub size : List (ℕ × A) → ℕ
  size s = length s
