-- ===== src/Game/Server/Links.antt =====
-- The entities of the channels: what the tables of the server and the entity manager say together.
use ecs_asio_server.Common.{
  ℕ, ◌+◌, ◌^◌, ◌<◌, ◌≡◌, refl, sym, ap, ◌∙◌, List, [], ◌∷◌, Bool, true, false, Option, none, some,
  ◌==◌, arith, ==→eq, Bool-cases, inl, inr,
}
use ecs_asio_server.Common.Tables.{find, erase_key, assign, find-erase_key, find-assign}
use ecs_asio_server.Ecs.Entities.{
  EntityManager, create_entity, destroy_entity, is_valid, contains, erase, fresh_manager,
}
use ecs_asio_server.Ecs.Entities.Calls.{next_create, next_destroy, fresh_manager-Ok}
use ecs_asio_server.Ecs.Entities.Accounts.{
  Ok, create_entity-Ok, destroy_entity-Ok, create_entity_fresh,
}

-- Whether a channel holds the entity.
abbrev pub holds : ℕ → Option ℕ → Bool
holds e none = false
holds e (some f) = e == f

-- What holds of channel_to_entity_ and the entities between the calls.
pub record Linked (t : List (ℕ × ℕ)) (m : EntityManager) : Type 0 where
  pub sound : Ok m
  -- The entity of a channel is active and not 0,
  pub live : (c e : ℕ) → holds e (find c t) ≡ true → is_valid e m ≡ true
  pub real : (c : ℕ) → holds 0 (find c t) ≡ false
  -- no two channels have the same one,
  pub single : (c d e : ℕ) → holds e (find c t) ≡ true → holds e (find d t) ≡ true → c ≡ d
  -- and 0 will not be issued.
  pub start : 0 < m.next_entity_id

pub create-Linked :
    (t : List (ℕ × ℕ)) (m : EntityManager)
    → Linked t m
    → m.next_entity_id + 1 < 2 ^ 32
    → Linked t (create_entity m).0
create-Linked t m v h = record {
  sound = create_entity-Ok m v.sound h;
  live = λ c e x. ground (arith, v.live c e x, create_entity_fresh m e v.sound);
  real = v.real;
  single = v.single;
  start = omega (arith, next_create m h);
}

created : (m : EntityManager) → (create_entity m).1 ≡ m.next_entity_id
unfolding create_entity
created m = refl

pub link-Linked :
    (c : ℕ) (t : List (ℕ × ℕ)) (m : EntityManager)
    → Linked t m
    → m.next_entity_id + 1 < 2 ^ 32
    → Linked (assign c (create_entity m).1 t) (create_entity m).0
link-Linked c t m v h = record {
  sound = create_entity-Ok m v.sound h;
  live = λ d e x.
      ground
        (arith, find-assign c d (create_entity m).1 t, v.live d e, create_entity_fresh m e v.sound);
  real = λ d. ground (arith, find-assign c d (create_entity m).1 t, v.real d, created m);
  single = λ d f e x y. ground (
    arith,
    find-assign c d (create_entity m).1 t,
    find-assign c f (create_entity m).1 t,
    v.single d f e,
    v.live d e,
    v.live f e,
    create_entity_fresh m e v.sound,
  );
  start = omega (arith, next_create m h);
}

pub forget-Linked :
    (c : ℕ) (t : List (ℕ × ℕ)) (m : EntityManager) → Linked t m → Linked (erase_key c t) m
forget-Linked c t m v = record {
  sound = v.sound;
  live = λ d e x. ground (arith, find-erase_key c d t, v.live d e);
  real = λ d. ground (arith, find-erase_key c d t, v.real d);
  single = λ d f e x y. ground (arith, find-erase_key c d t, find-erase_key c f t, v.single d f e);
  start = v.start;
}

contains-erase_other :
    (e f : ℕ) (xs : List ℕ) → (f == e) ≡ false → contains f (erase e xs) ≡ contains f xs
unfolding contains erase
contains-erase_other e f [] n = refl
contains-erase_other e f (x ∷ xs) n = ground (arith, contains-erase_other e f xs n)

valid_destroy :
    (e f : ℕ) (m : EntityManager)
    → (f == e) ≡ false
    → is_valid f (destroy_entity e m) ≡ is_valid f m
unfolding is_valid destroy_entity
valid_destroy e f m n = ground (arith, contains-erase_other e f m.active_entities n)

-- The entity goes with the channel that holds it.
pub unlink-Linked :
    (c e : ℕ) (t : List (ℕ × ℕ)) (m : EntityManager)
    → holds e (find c t) ≡ true
    → Linked t m
    → Linked (erase_key c t) (destroy_entity e m)
unlink-Linked c e t m held v = record {
  sound = destroy_entity-Ok e m v.sound;
  live = λ d f x. ground (arith, find-erase_key c d t, v.live d f, other d f, valid_destroy e f m);
  real = λ d. ground (arith, find-erase_key c d t, v.real d);
  single = λ d f g x y. ground (arith, find-erase_key c d t, find-erase_key c f t, v.single d f g);
  start = omega (arith, v.start, next_destroy e m);
}
  where
    other : (d f : ℕ) → (d == c) ≡ false → holds f (find d t) ≡ true → (f == e) ≡ false
    other d f n x = elim (Bool-cases (f == e)) [
      | inl q ↦ absurd (
          ground
            (arith, v.single c d e held (ap (λ g. holds g (find d t)) (sym (==→eq f e q)) ∙ x)))
      | inr q ↦ q
    ]

pub fresh_manager-Linked : Linked [] fresh_manager
unfolding find
fresh_manager-Linked = record {
  sound = fresh_manager-Ok;
  live = λ c e x. absurd (cc);
  real = λ c. refl;
  single = λ c d e x y. absurd (cc);
  start = omega arith;
}
