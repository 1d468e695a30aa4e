-- ===== src/Frame/Crc/Rounds.antt =====
-- The table against the shift register that it tabulates. A round of the register is linear over `^`,
-- loses nothing, and lets zeros fall out with no trace.
use ecs_asio_server.Common.{
  ℕ, zero, suc, ◌+◌, ◌*◌, ◌/◌, ◌%◌, ◌^◌, ◌<◌, ◌≡◌, refl, sym, ap, ap₂, ◌∙◌, List, [], ◌∷◌, bit_xor,
  All, arith,
}
use ecs_asio_server.Common.Bits.{
  zero-xor, xor_comm, xor_assoc, xor-div_two, xor-mod_two, xor-div, xor-lt, xor_fields, bit_and-one,
  bit_and_byte, xor_cancel_left, mul-two-pow,
}
use ecs_asio_server.Wire.{IsU8}
use ecs_asio_server.Frame.Crc.{polynomial, shift_bit, shift_bits, table, update, crc_loop, crc32}

-- What a round adds to the shifted register: the polynomial, if the bit that falls out is set.
feedback : ℕ → ℕ
feedback zero = 0
feedback (suc p) = polynomial

shift_bit_lem : (c : ℕ) → shift_bit c ≡ bit_xor (feedback (c % 2)) (c / 2)
unfolding shift_bit feedback
shift_bit_lem c = ground (arith, bit_and-one c, zero-xor (c / 2))

feedback-xor :
    (p q : ℕ) → p < 2 → q < 2 → feedback ((p + q) % 2) ≡ bit_xor (feedback p) (feedback q)
unfolding feedback
feedback-xor zero zero h k = refl
feedback-xor zero (suc zero) h k = refl
feedback-xor zero (suc (suc q)) h k = absurd (omega arith)
feedback-xor (suc zero) zero h k = refl
feedback-xor (suc zero) (suc zero) h k = refl
feedback-xor (suc zero) (suc (suc q)) h k = absurd (omega arith)
feedback-xor (suc (suc p)) q h k = absurd (omega arith)

xor_swap : (a b c d : ℕ) → bit_xor (bit_xor a b) (bit_xor c d) ≡ bit_xor (bit_xor a c) (bit_xor b d)
xor_swap a b c d =
    xor_assoc a b (bit_xor c d)
    ∙ ap (bit_xor a)
        (sym (xor_assoc b c d) ∙ ap (λ t. bit_xor t d) (xor_comm b c) ∙ xor_assoc c b d)
    ∙ sym (xor_assoc a c (bit_xor b d))

-- A round is linear over `^`.
shift_bit-xor : (a b : ℕ) → shift_bit (bit_xor a b) ≡ bit_xor (shift_bit a) (shift_bit b)
shift_bit-xor a b =
    rw
      (
        shift_bit_lem,
        xor-mod_two,
        xor-div_two,
        feedback-xor (a % 2) (b % 2) (omega arith) (omega arith),
      )
      (xor_swap (feedback (a % 2)) (feedback (b % 2)) (a / 2) (b / 2)
        ∙ sym (ap₂ bit_xor (shift_bit_lem a) (shift_bit_lem b)))

shift_bits-xor :
    (k a b : ℕ) → shift_bits k (bit_xor a b) ≡ bit_xor (shift_bits k a) (shift_bits k b)
unfolding shift_bits
shift_bits-xor zero a b = refl
shift_bits-xor (suc k) a b =
    ap (shift_bits k) (shift_bit-xor a b) ∙ shift_bits-xor k (shift_bit a) (shift_bit b)

-- A round loses nothing: the top bit of the result tells whether the polynomial was added.
feedback_top : (p : ℕ) → p < 2 → feedback p / 2 ^ 31 ≡ p
unfolding feedback
feedback_top zero h = refl
feedback_top (suc zero) h = refl
feedback_top (suc (suc p)) h = absurd (omega arith)

top_bit : (c : ℕ) → c < 2 ^ 32 → shift_bit c / 2 ^ 31 ≡ c % 2
top_bit c h =
    rw (shift_bit_lem, xor-div 31)
      (ap₂ bit_xor (feedback_top (c % 2) (omega arith)) fallen
        ∙ xor_comm (c % 2) 0
        ∙ zero-xor (c % 2))
  where
    fallen : c / 2 / 2 ^ 31 ≡ 0
    fallen = omega arith

shift_bit_injective : (c d : ℕ) → c < 2 ^ 32 → d < 2 ^ 32 → shift_bit c ≡ shift_bit d → c ≡ d
shift_bit_injective c d h k e =
    let same : c % 2 ≡ d % 2 = sym (top_bit c h) ∙ ap (λ t. t / 2 ^ 31) e ∙ top_bit d k in
    omega (
      arith,
      same,
      xor_cancel_left (feedback (c % 2)) (c / 2) (d / 2) (
          sym (shift_bit_lem c)
          ∙ e
          ∙ shift_bit_lem d
          ∙ ap (λ t. bit_xor (feedback t) (d / 2)) (sym same)),
    )

feedback-lt : (p : ℕ) → feedback p < 2 ^ 32
unfolding feedback
feedback-lt zero = omega arith
feedback-lt (suc p) = omega arith

shift_bit-lt : (c : ℕ) → c < 2 ^ 32 → shift_bit c < 2 ^ 32
shift_bit-lt c h = rw shift_bit_lem (xor-lt 32 _ _ (feedback-lt (c % 2)) (omega arith))

pub shift_bits-lt : (k c : ℕ) → c < 2 ^ 32 → shift_bits k c < 2 ^ 32
unfolding shift_bits
shift_bits-lt zero c h = h
shift_bits-lt (suc k) c h = shift_bits-lt k (shift_bit c) (shift_bit-lt c h)

pub shift_bits_injective :
    (k c d : ℕ) → c < 2 ^ 32 → d < 2 ^ 32 → shift_bits k c ≡ shift_bits k d → c ≡ d
unfolding shift_bits
shift_bits_injective zero c d h l e = e
shift_bits_injective (suc k) c d h l e =
    shift_bit_injective c d h l
      (shift_bits_injective k (shift_bit c) (shift_bit d) (shift_bit-lt c h) (shift_bit-lt d l) e)

-- Zeros fall out with no trace.
shift_bits-mul : (k y : ℕ) → shift_bits k (y * 2 ^ k) ≡ y
unfolding shift_bits feedback
shift_bits-mul zero y = omega arith
shift_bits-mul (suc k) y = ap (shift_bits k) shifted ∙ shift_bits-mul k y
  where
    even : y * 2 ^ suc k % 2 ≡ 0
    even = omega (arith, mul-two-pow y k)

    half : y * 2 ^ suc k / 2 ≡ y * 2 ^ k
    half = omega (arith, mul-two-pow y k)

    shifted : shift_bit (y * 2 ^ suc k) ≡ y * 2 ^ k
    shifted = shift_bit_lem _ ∙ rw (even, half) (zero-xor (y * 2 ^ k))

-- The specification: the register takes the byte in and then shifts eight times.
unfoldable pub reference_update : ℕ → ℕ → ℕ
reference_update c b = shift_bits 8 (bit_xor c b)

pub reference_loop : ℕ → List ℕ → ℕ
unfolding reference_update
reference_loop c [] = c
reference_loop c (b ∷ bs) = reference_loop (reference_update c b) bs

pub reference_crc32 : List ℕ → ℕ
unfolding reference_loop
reference_crc32 bytes = bit_xor (reference_loop 0xFFFFFFFF bytes) 0xFFFFFFFF

pub update-reference : (c b : ℕ) → b < 256 → update c b ≡ reference_update c b
unfolding update reference_update table
update-reference c b h = rw bit_and_byte (
    ap (bit_xor (shift_bits 8 (x % 256))) (sym (shift_bits-mul 8 (c / 2 ^ 8)))
    ∙ sym (shift_bits-xor 8 (x % 256) (c / 2 ^ 8 * 2 ^ 8))
    ∙ ap (shift_bits 8) whole)
  where
    x : ℕ
    x = bit_xor c b

    gone : b / 2 ^ 8 ≡ 0
    gone = omega arith

    high : x / 2 ^ 8 ≡ c / 2 ^ 8
    high = xor-div 8 c b ∙ ap (bit_xor (c / 2 ^ 8)) gone ∙ xor_comm _ 0 ∙ zero-xor _

    whole : bit_xor (x % 256) (c / 2 ^ 8 * 2 ^ 8) ≡ x
    whole =
        xor_comm (x % 256) _
        ∙ xor_fields 8 (c / 2 ^ 8) (x % 256) (omega arith)
        ∙ omega (arith, high)

crc_loop-reference : (c : ℕ) (bs : List ℕ) → All IsU8 bs → crc_loop c bs ≡ reference_loop c bs
unfolding crc_loop reference_loop
crc_loop-reference c [] h = refl
crc_loop-reference c (b ∷ bs) h =
    ap (λ t. crc_loop t bs) (update-reference c b h.0)
    ∙ crc_loop-reference (reference_update c b) bs h.1

-- On every byte string the table-driven checksum is the one of the shift register that is fed one
-- byte and shifted eight times, with both complements.
pub crc32-eq-reference_crc32 :
    (bytes : List ℕ) → All IsU8 bytes → crc32 bytes ≡ reference_crc32 bytes
unfolding crc32 reference_crc32
crc32-eq-reference_crc32 bytes h =
    ap (λ t. bit_xor t 0xFFFFFFFF) (crc_loop-reference 0xFFFFFFFF bytes h)
