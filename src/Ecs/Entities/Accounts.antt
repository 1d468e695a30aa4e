-- ===== src/Ecs/Entities/Accounts.antt =====
-- The identifiers in use and the count of the active entities.
use ecs_asio_server.Common.{
  ℕ, zero, suc, ◌+◌, ◌%◌, ◌^◌, ◌≤◌, ◌<◌, ◌≡◌, refl, ap, ◌∙◌, List, [], ◌∷◌, true, false, length,
  All, arith, if_cases, ◌==◌, ◌||◌, Bool-cases, inl, inr,
}
use ecs_asio_server.Ecs.Entities.{
  EntityManager, contains, insert, erase, create_entity, destroy_entity, is_valid, destroy_entities,
  create_loop, create_entities,
}

abbrev pub Unique : List ℕ → Type 0
Unique [] = Unit {0}
Unique (x ∷ xs) = (contains x xs ≡ false) × Unique xs

-- What holds of the manager between the calls, as long as fewer than 2 ^ 32 identifiers were issued.
pub record Ok (m : EntityManager) : Type 0 where
  pub unique : Unique m.active_entities
  pub issued : All (λ e. e < m.next_entity_id) m.active_entities
  pub counted : m.entity_count ≡ length m.active_entities
  pub room : length m.active_entities < m.next_entity_id
  pub small : m.next_entity_id < 2 ^ 32

pub contains-issued : (n : ℕ) (xs : List ℕ) → All (λ e. e < n) xs → contains n xs ≡ false
unfolding contains
contains-issued n [] h = refl
contains-issued n (x ∷ xs) h = ground (arith, contains-issued n xs h.1)

pub issued_mono : (n m : ℕ) (xs : List ℕ) → n ≤ m → All (λ e. e < n) xs → All (λ e. e < m) xs
issued_mono n m [] k h = tt
issued_mono n m (x ∷ xs) k h = (omega (arith, h.0), issued_mono n m xs k h.1)

length-erase : (e : ℕ) (xs : List ℕ) → contains e xs ≡ true → length (erase e xs) + 1 ≡ length xs
unfolding contains erase
length-erase e [] h = absurd cc
length-erase e (x ∷ xs) h = elim (Bool-cases (e == x)) [
  | inl q ↦ rw (q, erase) (omega arith)
  | inr q ↦ rw (q, erase) (omega (arith, length-erase e xs (ground arith)))
]

contains-erase : (e f : ℕ) (xs : List ℕ) → contains f xs ≡ false → contains f (erase e xs) ≡ false
unfolding contains erase
contains-erase e f [] h = refl
contains-erase e f (x ∷ xs) h = ground (arith, contains-erase e f xs)

pub erase-Unique : (e : ℕ) (xs : List ℕ) → Unique xs → Unique (erase e xs)
unfolding erase
erase-Unique e [] h = tt
erase-Unique e (x ∷ xs) h =
    if_cases Unique (e == x) (λ _. h.1) (λ _. (contains-erase e x xs h.0, erase-Unique e xs h.1))

erase-issued : (e n : ℕ) (xs : List ℕ) → All (λ f. f < n) xs → All (λ f. f < n) (erase e xs)
unfolding erase
erase-issued e n [] h = tt
erase-issued e n (x ∷ xs) h =
    if_cases (All (λ f. f < n)) (e == x) (λ _. h.1) (λ _. (h.0, erase-issued e n xs h.1))

pub length-insert :
    (e : ℕ) (xs : List ℕ) → contains e xs ≡ false → length (insert e xs) ≡ length xs + 1
unfolding insert
length-insert e xs h = rw h (omega arith)

pub create_entity-Ok :
    (m : EntityManager) → Ok m → m.next_entity_id + 1 < 2 ^ 32 → Ok (create_entity m).0
unfolding create_entity insert
create_entity-Ok m v h =
    let new = contains-issued m.next_entity_id m.active_entities v.issued in
    let next : (m.next_entity_id + 1) % 2 ^ 32 ≡ m.next_entity_id + 1 = omega arith in
    rw (new, next)
      (record {
        unique = (new, v.unique);
        issued = (
          omega arith,
          issued_mono m.next_entity_id (m.next_entity_id + 1) m.active_entities (omega arith)
              v.issued,
        );
        counted = omega (arith, v.counted, v.room);
        room = omega (arith, v.room);
        small = h;
      })

pub destroy_entity-Ok : (e : ℕ) (m : EntityManager) → Ok m → Ok (destroy_entity e m)
unfolding destroy_entity
destroy_entity-Ok e m v =
    if_cases Ok (contains e m.active_entities)
      (λ c.
        let l = length-erase e m.active_entities c in
        record {
          unique = erase-Unique e m.active_entities v.unique;
          issued = erase-issued e m.next_entity_id m.active_entities v.issued;
          counted = omega (arith, v.counted, v.room, v.small, l);
          room = omega (arith, v.room, l);
          small = v.small;
        })
      (λ _. v)

pub destroy_entities-Ok : (es : List ℕ) (m : EntityManager) → Ok m → Ok (destroy_entities es m)
unfolding destroy_entities
destroy_entities-Ok [] m v = v
destroy_entities-Ok (e ∷ es) m v =
    destroy_entities-Ok es (destroy_entity e m) (destroy_entity-Ok e m v)

-- The `n` identifiers from `first` on.
abbrev pub identifiers : ℕ → ℕ → List ℕ
identifiers first zero = []
identifiers first (suc n) = first ∷ identifiers (first + 1) n

abbrev recounted : EntityManager → EntityManager
recounted m = record m { entity_count = length m.active_entities }

record Created (n : ℕ) (m : EntityManager) (r : EntityManager × List ℕ) : Type 0 where
  ok : Ok (recounted r.0)
  longer : length r.0.active_entities ≡ n + length m.active_entities
  kept : r.0.entity_count ≡ m.entity_count
  ids : r.1 ≡ identifiers m.next_entity_id n

create_loop-Created :
    (n : ℕ) (m : EntityManager)
    → Ok (recounted m)
    → m.next_entity_id + n < 2 ^ 32
    → Created n m (create_loop n m)
unfolding create_loop create_entity
create_loop-Created zero m v h = record { ok = v; longer = omega arith; kept = refl; ids = refl }
create_loop-Created (suc n) m v h =
    let w = create_entity-Ok (recounted m) v (omega (arith, h)) in
    let m1 : EntityManager = record m {
      active_entities = insert m.next_entity_id m.active_entities;
      next_entity_id = (m.next_entity_id + 1) % 2 ^ 32;
    } in
    let next : (m.next_entity_id + 1) % 2 ^ 32 ≡ m.next_entity_id + 1 = omega (arith, h) in
    let r =
      create_loop-Created n m1
        (record {
          unique = w.unique;
          issued = w.issued;
          counted = refl;
          room = w.room;
          small = w.small;
        })
        (omega (arith, h)) in
    record {
      ok = r.ok;
      longer = omega (
        arith,
        r.longer,
        length-insert m.next_entity_id m.active_entities
            (contains-issued m.next_entity_id m.active_entities v.issued),
      );
      kept = r.kept;
      ids = ap (◌∷◌ m.next_entity_id) (r.ids ∙ ap (λ x. identifiers x n) next);
    }

pub create_entities-Ok :
    (n : ℕ) (m : EntityManager) → Ok m → m.next_entity_id + n < 2 ^ 32 → Ok (create_entities n m).0
unfolding create_entities
create_entities-Ok n m v h =
    let r =
      create_loop-Created n m
        (record {
          unique = v.unique;
          issued = v.issued;
          counted = refl;
          room = v.room;
          small = v.small;
        })
        h in
    record {
      unique = r.ok.unique;
      issued = r.ok.issued;
      counted = omega (arith, v.counted, r.longer, r.kept, r.ok.room, r.ok.small);
      room = r.ok.room;
      small = r.ok.small;
    }

-- The identifier that create_entity issues was not active before and is active afterwards, and no other
-- identifier changes its state.
pub create_entity_fresh :
    (m : EntityManager) (f : ℕ)
    → Ok m
    → (is_valid (create_entity m).1 m ≡ false)
      × (is_valid f (create_entity m).0 ≡ (f == (create_entity m).1 || is_valid f m))
unfolding create_entity is_valid insert
create_entity_fresh m f v =
    let new = contains-issued m.next_entity_id m.active_entities v.issued in
    rw new (refl, unfold contains in refl)
