-- ===== src/Buffers/PacketBuffer/Append.antt =====
-- What append leaves in the buffer.
use ecs_asio_server.Common.{
  ℕ, zero, suc, ◌+◌, ◌-◌, ◌^◌, ◌≤◌, ◌<◌, ◌≡◌, refl, sym, ap, ◌∙◌, List, [], ◌∷◌, ◌++◌, true, false,
  Option, none, some, length, take, replicate, ltb, leb, ◌||◌, ◌==◌, if◌then◌else◌, arith,
  Bool-cases, inl, inr, length-replicate, if_cases, subst,
}
use ecs_asio_server.Buffers.Vector.{
  Vector, Memory, reserve, overwrite, poke, peek, poke_other, poke_past, peek-poke, overwrite_past,
}
use ecs_asio_server.Buffers.PacketBuffer.{
  PacketBuffer, dynamic, append, write, written, ensure_capacity, at_least,
}

-- append of at least one byte, so that offset_ + length stays below 2^31, to a buffer that was given its
-- memory by the caller: without room it throws; with room offset_ moves behind the bytes, they are read back
-- from external_buffer_ + offset_ on in the memory that is left, and every address before or behind them
-- holds what it held.
pub append-external :
    (grown : ℕ → ℕ → ℕ) (bytes : List ℕ) (p : PacketBuffer) (m : Memory) (x : ℕ)
    → p.is_dynamic ≡ false
    → 0 < length bytes
    → p.offset + length bytes < 2 ^ 31
    → let a = p.external_buffer + p.offset in
      let after = poke a bytes m in
      (append grown bytes p m ≡ (
        if ltb p.size (p.offset + length bytes)
        then none
        else some (record p { offset = p.offset + length bytes }, after)))
      × (peek (length bytes) a after ≡ bytes)
      × (after x ≡ (if ltb x a || leb (a + length bytes) x then m x else after x))
unfolding append ensure_capacity write
append-external grown bytes p m x e some_bytes small =
    let a = p.external_buffer + p.offset in
    let before = poke_other a bytes m x in
    (
      ground (arith, e, some_bytes, small),
      peek-poke a bytes m,
      elim (Bool-cases (ltb x a)) [
        | inl h ↦ rw h (before h)
        | inr h ↦ rw h (
            if_cases (λ v. poke a bytes m x ≡ v) (leb (a + length bytes) x)
              (λ k. poke_past a bytes m x (ground (arith, k))) (λ _. refl))
      ],
    )

abbrev pub zeros : ℕ → List ℕ
zeros n = replicate n 0

-- A buffer of its own with `n` bytes in it, all of them 0.
abbrev Zeros : ℕ → PacketBuffer → Type 0
Zeros n p = (p.is_dynamic ≡ true) × (p.offset ≡ n) × (p.dynamic_buffer.elements ≡ zeros n)

abbrev pub Left : (PacketBuffer × Memory → Type 0) → Option (PacketBuffer × Memory) → Type 0
Left P none = ⊥
Left P (some s) = P s

length-zeros : (n : ℕ) → length (zeros n) ≡ n
length-zeros n = length-replicate n zero

zeros-append : (m n : ℕ) → zeros m ++ zeros n ≡ zeros (m + n)
zeros-append zero n = ap zeros (omega arith)
zeros-append (suc m) n =
    let shift : suc m + n ≡ suc (m + n) = omega arith in
    ap (◌∷◌ 0) (zeros-append m n) ∙ ap zeros (sym shift)

take_all : (n : ℕ) (xs : List ℕ) → length xs ≤ n → take n xs ≡ xs
take_all zero [] h = refl
take_all zero (x ∷ xs) h = absurd (omega (arith, h))
take_all (suc n) [] h = refl
take_all (suc n) (x ∷ xs) h = ap (λ l. x ∷ l) (take_all n xs (omega (arith, h)))

write-Zeros :
    (grown : ℕ → ℕ → ℕ) (n : ℕ) (bytes : List ℕ) (p : PacketBuffer) (m : Memory)
    → Zeros n p
    → Zeros (n + length bytes) (write grown bytes p m).0 × ((write grown bytes p m).1 ≡ m)
unfolding write
write-Zeros grown n bytes p m z = rw z.0 ((refl, omega (arith, z.1), elements), refl)
  where
    old : overwrite p.offset bytes p.dynamic_buffer.elements ≡ zeros n
    old =
        overwrite_past p.offset bytes p.dynamic_buffer.elements
          (omega (arith, z.1, ap length z.2, length-zeros n))
        ∙ z.2

    size : at_least (p.offset + length bytes) (length p.dynamic_buffer.elements) ≡ n + length bytes
    size = ground (arith, z.1, ap length z.2, length-zeros n)

    rest : n + length bytes - length (zeros n) ≡ length bytes
    rest = omega (arith, length-zeros n)

    elements :
        take
            (at_least (p.offset + length bytes) (length p.dynamic_buffer.elements))
            (overwrite p.offset bytes p.dynamic_buffer.elements)
          ++ zeros (
              at_least (p.offset + length bytes) (length p.dynamic_buffer.elements)
              - length (overwrite p.offset bytes p.dynamic_buffer.elements))
        ≡ zeros (n + length bytes)
    elements =
        rw (size, old, rest, take_all (n + length bytes) (zeros n) (omega (arith, length-zeros n)))
          (zeros-append n (length bytes))

reserve-elements :
    (grown : ℕ → ℕ → ℕ) (n : ℕ) (v : Vector) → (reserve grown n v).elements ≡ v.elements
reserve-elements grown n v =
    if_cases (λ (u : Vector). u.elements ≡ v.elements) (ltb v.capacity n) (λ _. refl) (λ _. refl)

append-Zeros :
    (grown : ℕ → ℕ → ℕ) (n : ℕ) (bytes : List ℕ) (p : PacketBuffer) (m : Memory)
    → Zeros n p
    → n + length bytes < 2 ^ 31
    → Left (λ s. Zeros (n + length bytes) s.0 × (s.1 ≡ m)) (append grown bytes p m)
unfolding append ensure_capacity
append-Zeros grown n bytes p m z small =
    if_cases (Left (λ s. Zeros (n + length bytes) s.0 × (s.1 ≡ m))) (length bytes == 0)
      (λ e.
        ((z.0, omega (arith, z.1, none_more e), z.2 ∙ ap zeros (omega (arith, none_more e))), refl))
      (λ _.
        if_cases (Left (λ s. Zeros (n + length bytes) s.0 × (s.1 ≡ m)))
          (leb (2 ^ 31) (p.offset + length bytes)) (λ big. absurd (ground (arith, big, z.1, small)))
          λ _.
            if_cases
              (λ r. Left (λ s. Zeros (n + length bytes) s.0 × (s.1 ≡ m)) (written grown bytes m r))
              p.is_dynamic
              (λ _.
                write-Zeros grown n bytes q m (
                  z.0,
                  z.1,
                  reserve-elements grown (p.offset + length bytes) p.dynamic_buffer ∙ z.2,
                ))
              (λ e. absurd (ground (arith, e, z.0))))
  where
    q : PacketBuffer
    q = record p { dynamic_buffer = reserve grown (p.offset + length bytes) p.dynamic_buffer }

    none_more : (length bytes == 0) ≡ true → length bytes ≡ 0
    none_more e = ground arith

abbrev pub total : List (List ℕ) → ℕ
total [] = 0
total (bytes ∷ chunks) = length bytes + total chunks

abbrev and_then :
    (ℕ → ℕ → ℕ) → List (List ℕ) → Option (PacketBuffer × Memory) → Option (PacketBuffer × Memory)
and_then grown chunks none = none
and_then grown [] (some s) = some s
and_then grown (bytes ∷ chunks) (some (p, m)) = and_then grown chunks (append grown bytes p m)

-- The appends of several chunks, in their order.
abbrev pub appends :
    (ℕ → ℕ → ℕ) → List (List ℕ) → PacketBuffer → Memory → Option (PacketBuffer × Memory)
appends grown chunks p m = and_then grown chunks (some (p, m))

appends-Zeros :
    (grown : ℕ → ℕ → ℕ) (chunks : List (List ℕ)) (n : ℕ) (m : Memory)
    (r : Option (PacketBuffer × Memory))
    → Left (λ s. Zeros n s.0 × (s.1 ≡ m)) r
    → n + total chunks < 2 ^ 31
    → Left (λ s. Zeros (n + total chunks) s.0 × (s.1 ≡ m)) (and_then grown chunks r)
appends-Zeros grown chunks n m none h small = absurd h
appends-Zeros grown [] n m (some (p, k)) h small =
    let same : n ≡ n + 0 = omega arith in ((h.0.0, h.0.1 ∙ same, h.0.2 ∙ ap zeros same), h.1)
appends-Zeros grown (bytes ∷ chunks) n m (some (p, k)) h small =
    let same : n + length bytes + total chunks ≡ n + (length bytes + total chunks) = omega arith in
    subst
      (λ i. Left (λ s. Zeros i s.0 × (s.1 ≡ m)) (and_then grown chunks (append grown bytes p k)))
      same
      (appends-Zeros grown chunks (n + length bytes) m (append grown bytes p k)
        (subst (λ x. Left (λ s. Zeros (n + length bytes) s.0 × (s.1 ≡ x)) (append grown bytes p k))
          h.1 (append-Zeros grown n bytes p k h.0 (omega (arith, small))))
        (omega (arith, small)))

-- A new buffer of its own, of an initial capacity below 2^31, is given chunks of fewer than 2^31 bytes in
-- all. Whatever these are, and whatever capacities the vector takes, as long as there is memory for them:
-- nothing is thrown, offset_ is the number of the bytes, and the vector holds as many bytes, but each of
-- them is 0.
pub appends-dynamic :
    (grown : ℕ → ℕ → ℕ) (capacity option : ℕ) (chunks : List (List ℕ)) (m : Memory)
    → capacity < 2 ^ 31
    → total chunks < 2 ^ 31
    → Left
        (λ s.
          (s.0.offset ≡ total chunks)
          × (s.0.dynamic_buffer.elements ≡ zeros (total chunks))
          × (s.1 ≡ m))
        (appends grown chunks (dynamic grown capacity option) m)
unfolding dynamic
appends-dynamic grown capacity option chunks m room small =
    weaken (appends grown chunks (dynamic grown capacity option) m) (
      appends-Zeros grown chunks 0 m (some (dynamic grown capacity option, m))
        ((refl, refl, new), refl) (omega (arith, small)))
  where
    new : (dynamic grown capacity option).dynamic_buffer.elements ≡ zeros 0
    new = if_cases (λ (v : Vector). v.elements ≡ zeros 0) (ltb 0 capacity) (λ _. refl) (λ _. refl)

    weaken :
        (r : Option (PacketBuffer × Memory))
        → Left (λ s. Zeros (0 + total chunks) s.0 × (s.1 ≡ m)) r
        → Left
            (λ s.
              (s.0.offset ≡ total chunks)
              × (s.0.dynamic_buffer.elements ≡ zeros (total chunks))
              × (s.1 ≡ m))
            r
    weaken none h = absurd h
    weaken (some s) h =
        let same : 0 + total chunks ≡ total chunks = omega arith in
        (h.0.1 ∙ same, h.0.2 ∙ ap zeros same, h.1)
