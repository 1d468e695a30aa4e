-- ===== src/Wire/RoundTrip.antt =====
-- What each reader gives on what its writer wrote, whatever bytes follow.
use ecs_asio_server.Common.{
  ℕ, suc, ◌+◌, ◌*◌, ◌/◌, ◌%◌, ◌^◌, ◌≤◌, ◌<◌, ◌≡◌, refl, ap, sym, ◌∙◌, List, [], ◌∷◌, ◌++◌, length,
  Bool, true, false, length-append, take-append, drop-append, append_assoc, arith, leb, ltb, le→leb,
  le→ltb, if◌then◌else◌,
}
use native.Mathlib.Nat.{mod-eq_of_lt}
use ecs_asio_server.Wire.Defs.{
  ok, ◌>>=◌, ◌>>◌, accept, need, read_u8, read_bool, write_le16, write_le32, read_le16, read_le32,
  write_float_le, read_float_le, write_bool, write_lp_string, read_bytes, read_lp_string,
}

abbrev pub IsU8 : ℕ → Type 0
IsU8 v = v < 2 ^ 8

abbrev pub IsU16 : ℕ → Type 0
IsU16 v = v < 2 ^ 16

abbrev pub IsU32 : ℕ → Type 0
IsU32 v = v < 2 ^ 32

-- A string that the 32-bit length can describe.
abbrev pub IsText : List ℕ → Type 0
IsText t = length t < 2 ^ 32

pub need_ok : (n : ℕ) (s : List ℕ) → n ≤ length s → need n s ≡ ok tt s
unfolding need
need_ok n s h = rw (le→leb n (length s) h)

pub need_front :
    (n : ℕ) (xs : List ℕ) → n ≤ length xs → (ys : List ℕ) → need n (xs ++ ys) ≡ ok tt (xs ++ ys)
need_front n xs h ys = need_ok n (xs ++ ys) (omega (arith, length-append xs ys))

pub need-write_le32 : (v : ℕ) (s : List ℕ) → need 4 (write_le32 v ++ s) ≡ ok tt (write_le32 v ++ s)
unfolding need write_le32
need-write_le32 v s = ground arith

pub need-write_le32_two :
    (v w : ℕ) (s : List ℕ)
    → need 8 (write_le32 v ++ (write_le32 w ++ s)) ≡ ok tt (write_le32 v ++ (write_le32 w ++ s))
unfolding need write_le32
need-write_le32_two v w s = ground arith

pub need-cons : (b : ℕ) (s : List ℕ) → need 1 (b ∷ s) ≡ ok tt (b ∷ s)
unfolding need
need-cons b s = ground arith

pub need-write_bool :
    (b : Bool) (s : List ℕ) → need 1 (write_bool b ++ s) ≡ ok tt (write_bool b ++ s)
unfolding write_bool
need-write_bool b s = need-cons _ s

pub read_le16-write_le16 : (v : ℕ) → IsU16 v → (s : List ℕ) → read_le16 (write_le16 v ++ s) ≡ ok v s
unfolding read_le16 write_le16
read_le16-write_le16 v h s = ap (λ x. ok x s) (omega arith)

pub read_le32-write_le32 : (v : ℕ) → IsU32 v → (s : List ℕ) → read_le32 (write_le32 v ++ s) ≡ ok v s
unfolding read_le32 write_le32
read_le32-write_le32 v h s = ground arith

pub read_float_le-write_float_le :
    (v : ℕ) → IsU32 v → (s : List ℕ) → read_float_le (write_float_le v ++ s) ≡ ok v s
unfolding read_float_le write_float_le
read_float_le-write_float_le v h s = read_le32-write_le32 v h s

pub read_bool-write_bool : (b : Bool) (s : List ℕ) → read_bool (write_bool b ++ s) ≡ ok b s
unfolding read_bool write_bool
read_bool-write_bool true s = refl
read_bool-write_bool false s = refl

pub read_u8-cons : (b : ℕ) (s : List ℕ) → read_u8 (b ∷ s) ≡ ok b s
unfolding read_u8
read_u8-cons b s = refl

pub length-write_le32 : (v : ℕ) → length (write_le32 v) ≡ 4
unfolding write_le32
length-write_le32 v = refl

pub length-write_float_le : (v : ℕ) → length (write_float_le v) ≡ 4
unfolding write_float_le
length-write_float_le v = length-write_le32 v

pub length-write_bool : (b : Bool) → length (write_bool b) ≡ 1
unfolding write_bool
length-write_bool b = refl

pub length-write_lp_string : (t : List ℕ) → length (write_lp_string t) ≡ 4 + length t
unfolding write_lp_string
length-write_lp_string t =
    omega (
      arith,
      length-append (write_le32 (length t % 2 ^ 32)) t,
      length-write_le32 (length t % 2 ^ 32),
    )

read_bytes-append : (t s : List ℕ) → read_bytes (length t) (t ++ s) ≡ ok t s
unfolding read_bytes
read_bytes-append t s = rw (
  le→ltb (length (t ++ s)) (length t) (omega (arith, length-append t s)),
  take-append t s (length t) refl,
  drop-append t s (length t) refl,
)

pub read_lp_string-write_lp_string :
    (t : List ℕ) → IsText t → (s : List ℕ) → read_lp_string (write_lp_string t ++ s) ≡ ok t s
unfolding read_lp_string write_lp_string
read_lp_string-write_lp_string t h s = simp (
  mod-eq_of_lt h,
  append_assoc,
  need-write_le32,
  read_le32-write_le32 (length t) h,
  read_bytes-append,
  ◌>>=◌,
  ◌>>◌,
)

pub length-bytes : (xs ys : List ℕ) → length (xs ++ ys) ≡ length xs + length ys
length-bytes = length-append

-- The size of what the writers append.
pub ruleset sizes = (
  arith, length-bytes, length-write_le32, length-write_float_le, length-write_bool,
  length-write_lp_string,
)

-- Running a parser on what was serialized, one field after the other.
pub ruleset run_parser = (
  ◌>>=◌, ◌>>◌, accept, append_assoc, need-write_le32, need-write_le32_two, need-cons,
  need-write_bool, read_u8-cons, read_bool-write_bool, read_le32-write_le32,
  read_float_le-write_float_le, read_lp_string-write_lp_string,
)
