-- ===== src/Buffers/Vector.antt =====
-- What common/core/packet_buffer.cpp uses of std::vector<char> and of the memory behind a char*. The
-- capacity that a vector takes when it grows is its own choice: a parameter `grown` of the current
-- capacity and of the one that is wanted.
use ecs_asio_server.Common.{
  ℕ, zero, suc, ◌+◌, ◌-◌, ◌≤◌, ◌≡◌, refl, ap, ◌∙◌, List, [], ◌∷◌, ◌++◌, true, length, take,
  replicate, ltb, ◌==◌, if◌then◌else◌, arith,
}

pub record Vector : Type 0 where
  pub elements : List ℕ
  pub capacity : ℕ

abbrev pub empty_vector : Vector
empty_vector = record { elements = []; capacity = 0 }

abbrev pub clear : Vector → Vector
clear v = record v { elements = [] }

abbrev pub reserve : (ℕ → ℕ → ℕ) → ℕ → Vector → Vector
reserve grown n v = if ltb v.capacity n then record v { capacity = grown v.capacity n } else v

-- The new elements are zero.
abbrev pub resize : (ℕ → ℕ → ℕ) → ℕ → Vector → Vector
resize grown n v = record (reserve grown n v) {
  elements = take n v.elements ++ replicate (n - length v.elements) 0;
}

-- A memcpy to data() + offset inside the capacity. What lies beyond size() is no element.
unfoldable pub overwrite : ℕ → List ℕ → List ℕ → List ℕ
overwrite offset bytes [] = []
overwrite offset [] (x ∷ xs) = x ∷ xs
overwrite zero (b ∷ bytes) (x ∷ xs) = b ∷ overwrite zero bytes xs
overwrite (suc offset) (b ∷ bytes) (x ∷ xs) = x ∷ overwrite offset (b ∷ bytes) xs

-- A memory: the byte at each address.
abbrev pub Memory : Type 0
Memory = ℕ → ℕ

unfoldable pub poke : ℕ → List ℕ → Memory → Memory
poke a [] m x = m x
poke a (b ∷ bytes) m x = let rest = poke (a + 1) bytes m x in if x == a then b else rest

unfoldable pub peek : ℕ → ℕ → Memory → List ℕ
peek zero a m = []
peek (suc n) a m = m a ∷ peek n (a + 1) m

pub poke_other :
    (a : ℕ) (bytes : List ℕ) (m : Memory) (x : ℕ) → ltb x a ≡ true → poke a bytes m x ≡ m x
unfolding poke
poke_other a [] m x h = refl
poke_other a (b ∷ bytes) m x h = ground (arith, poke_other (a + 1) bytes m x)

pub poke_past :
    (a : ℕ) (bytes : List ℕ) (m : Memory) (x : ℕ) → a + length bytes ≤ x → poke a bytes m x ≡ m x
unfolding poke
poke_past a [] m x h = refl
poke_past a (b ∷ bytes) m x h = ground (arith, poke_past (a + 1) bytes m x (omega (arith, h)))

peek_ext : (n a : ℕ) (m₁ m₂ : Memory) → ((x : ℕ) → a ≤ x → m₁ x ≡ m₂ x) → peek n a m₁ ≡ peek n a m₂
unfolding peek
peek_ext zero a m₁ m₂ h = refl
peek_ext (suc n) a m₁ m₂ h =
    ap (λ b. b ∷ peek n (a + 1) m₁) (h a (omega arith))
    ∙ ap (λ l. m₂ a ∷ l) (peek_ext n (a + 1) m₁ m₂ (λ x k. h x (omega (arith, k))))

pub peek-poke :
    (a : ℕ) (bytes : List ℕ) (m : Memory) → peek (length bytes) a (poke a bytes m) ≡ bytes
unfolding peek poke
peek-poke a [] m = refl
peek-poke a (b ∷ bytes) m =
    let rest =
      peek_ext (length bytes) (a + 1) (poke a (b ∷ bytes) m) (poke (a + 1) bytes m)
        (λ x h. ground (arith, h)) in
    ground (arith, rest, peek-poke (a + 1) bytes m)

pub overwrite_past :
    (offset : ℕ) (bytes xs : List ℕ) → length xs ≤ offset → overwrite offset bytes xs ≡ xs
unfolding overwrite
overwrite_past offset bytes [] h = refl
overwrite_past offset [] (x ∷ xs) h = refl
overwrite_past zero (b ∷ bytes) (x ∷ xs) h = absurd (omega (arith, h))
overwrite_past (suc offset) (b ∷ bytes) (x ∷ xs) h =
    ap (λ l. x ∷ l) (overwrite_past offset (b ∷ bytes) xs (omega (arith, h)))
