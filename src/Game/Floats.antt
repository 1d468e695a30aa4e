-- ===== src/Game/Floats.antt =====
-- The operations on float that the systems of server/game/systems and the map threads call. A float is
-- the bit pattern of 32 bits; what the operations answer is a parameter.
use ecs_asio_server.Common.{ℕ, Bool}
use ecs_asio_server.Game.World.{Position}

-- `+`, `-`, `*`, `/`, std::sqrt, `<`, `<=` and the conversion of an integer.
pub record Floats : Type 0 where
  pub plus : ℕ → ℕ → ℕ
  pub minus : ℕ → ℕ → ℕ
  pub times : ℕ → ℕ → ℕ
  pub over : ℕ → ℕ → ℕ
  pub sqrt : ℕ → ℕ
  pub lt : ℕ → ℕ → Bool
  pub le : ℕ → ℕ → Bool
  pub of_int : ℕ → ℕ

-- `std::sqrt(dx*dx + dy*dy + dz*dz)`
abbrev pub norm : Floats → Position → ℕ
norm fl d = fl.sqrt (fl.plus (fl.plus (fl.times d.x d.x) (fl.times d.y d.y)) (fl.times d.z d.z))

-- The differences of the coordinates.
abbrev pub apart : Floats → Position → Position → Position
apart fl p q = record { x = fl.minus p.x q.x; y = fl.minus p.y q.y; z = fl.minus p.z q.z }

-- `position->x += velocity->x * delta_time`, and so for y and z.
abbrev pub advance : Floats → ℕ → Position → Position → Position
advance fl delta_time velocity p = record {
  x = fl.plus p.x (fl.times velocity.x delta_time);
  y = fl.plus p.y (fl.times velocity.y delta_time);
  z = fl.plus p.z (fl.times velocity.z delta_time);
}

-- `dx / distance * k`, and so for y and z.
abbrev pub scaled : Floats → ℕ → ℕ → Position → Position
scaled fl distance k d = record {
  x = fl.times (fl.over d.x distance) k;
  y = fl.times (fl.over d.y distance) k;
  z = fl.times (fl.over d.z distance) k;
}
