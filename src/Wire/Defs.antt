-- ===== src/Wire/Defs.antt =====
-- The definitions of protocol_base.hpp: write_le16 to read_lp_string, and the results of a parser.
use ecs_asio_server.Common.{
  ℕ, ◌+◌, ◌*◌, ◌/◌, ◌%◌, ◌^◌, List, [], ◌∷◌, ◌++◌, length, take, drop, Bool, leb, ltb,
  if◌then◌else◌,
}

-- What a parser does: it gives a value and the bytes that it left, it answers false, or it reads
-- (or steps) past `end`, which the source leaves undefined.
pub data Parsed {ℓ} (A : Type ℓ) : Type ℓ where
  ok : A → List ℕ → Parsed A
  reject : Parsed A
  fault : Parsed A

abbrev pub Parser {ℓ} : Type ℓ → Type ℓ
Parser A = List ℕ → Parsed A

infixl 5 ◌>>=◌ ◌>>◌
abbrev pub ◌>>=◌ {ℓ κ} : {A : Type ℓ} {B : Type κ} → Parser A → (A → Parser B) → Parser B
◌>>=◌ m f s = elim (m s) [ ok a rest ↦ f a rest | reject ↦ reject | fault ↦ fault ]

abbrev pub ◌>>◌ {ℓ} : {B : Type ℓ} → Parser (Unit {0}) → Parser B → Parser B
m >> k = m >>= λ _. k

-- The end of a parse that returns true.
abbrev pub accept {ℓ} : {A : Type ℓ} → A → Parser A
accept a s = ok a s

-- `p + n <= end`, where the other answer makes the parse return false.
unfoldable pub need : ℕ → Parser (Unit {0})
need n s = if leb n (length s) then ok tt s else reject

-- `*p++`
unfoldable pub read_u8 : Parser ℕ
read_u8 [] = fault
read_u8 (b ∷ s) = ok b s

-- `*p++ != 0`
unfoldable pub read_bool : Parser Bool
read_bool [] = fault
read_bool (b ∷ s) = ok (ltb 0 b) s

-- `p += n` with no read.
unfoldable pub skip : ℕ → Parser (Unit {0})
skip n s = if leb n (length s) then ok tt (drop n s) else fault

unfoldable pub write_le16 : ℕ → List ℕ
write_le16 v = v % 256 ∷ v / 2 ^ 8 % 256 ∷ []

unfoldable pub write_le32 : ℕ → List ℕ
write_le32 v = v % 256 ∷ v / 2 ^ 8 % 256 ∷ v / 2 ^ 16 % 256 ∷ v / 2 ^ 24 % 256 ∷ []

-- The bytes fill disjoint places, so the source's `|` is a sum.
unfoldable pub read_le16 : Parser ℕ
read_le16 (a ∷ b ∷ s) = ok (a + b * 2 ^ 8) s
read_le16 (a ∷ []) = fault
read_le16 [] = fault

unfoldable pub read_le32 : Parser ℕ
read_le32 (a ∷ b ∷ c ∷ d ∷ s) = ok (a + b * 2 ^ 8 + c * 2 ^ 16 + d * 2 ^ 24) s
read_le32 (a ∷ b ∷ c ∷ []) = fault
read_le32 (a ∷ b ∷ []) = fault
read_le32 (a ∷ []) = fault
read_le32 [] = fault

-- A float is the bit pattern that memcpy copies.
unfoldable pub write_float_le : ℕ → List ℕ
write_float_le v = write_le32 v

unfoldable pub read_float_le : Parser ℕ
read_float_le s = read_le32 s

unfoldable pub write_bool : Bool → List ℕ
write_bool b = (if b then 1 else 0) ∷ []

unfoldable pub write_lp_string : List ℕ → List ℕ
write_lp_string s = write_le32 (length s % 2 ^ 32) ++ s

-- The `len` bytes that follow the length, which must not go past `end`.
unfoldable pub read_bytes : ℕ → Parser (List ℕ)
read_bytes len s = if ltb (length s) len then reject else ok (take len s) (drop len s)

unfoldable pub read_lp_string : Parser (List ℕ)
read_lp_string = do need 4; len ← read_le32; read_bytes len

-- A parser whose value is put into a larger type.
unfoldable pub map_parser {ℓ κ} : {A : Type ℓ} {B : Type κ} → (A → B) → Parser A → Parser B
map_parser f p = do a ← p; accept (f a)
