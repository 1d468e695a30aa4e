-- ===== src/Tests/Long.antt =====
-- Long byte strings, which nothing computes.
use ecs_asio_server.Common.{ℕ, ◌≡◌, List, length, replicate, length-replicate}

pub zeros : (n : ℕ) → (xs : List ℕ) × (length xs ≡ n)
zeros n = (replicate n 0, length-replicate n 0)
