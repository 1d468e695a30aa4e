-- ===== src/Common/Bits.antt =====
-- Laws of `^` and of `&` with a low mask at every width, from the digit that each step peels off.
use Prim.Native.Nat.{ℕ, zero, suc, ◌+◌, ◌*◌, ◌/◌, ◌%◌, ◌^◌, ◌≤◌, ◌<◌, min, differ, digits}
use Prim.Native.Nat.{bit_and, bit_xor, bit_and-bitwise, bit_xor-bitwise}
use mathlib.Core.Path.{◌≡◌, refl, ap, ap₂, sym, ◌∙◌}
use native.Mathlib.Omega.{arith}
use native.Mathlib.Nat.{pow-suc, mul_comm, div-div-eq-div-mul, div-one}

-- The fuel of `digits` does not matter once it reaches the number.
module _ (rest : ℕ → ℕ) (digit : ℕ → ℕ → ℕ) where
  same_digits : (x y j k : ℕ) → x ≤ k → x ≤ j → digits rest digit j x y ≡ digits rest digit k x y
  same_digits zero y (suc j) (suc k) h l = refl
  same_digits zero y (suc j) zero h l = refl
  same_digits zero y zero (suc k) h l = refl
  same_digits x y zero zero h l = refl
  same_digits (suc x) y zero (suc k) h l = absurd (omega (arith, l))
  same_digits (suc x) y (suc j) zero h l = absurd (omega (arith, h))
  same_digits (suc x) y (suc j) (suc k) h l =
      omega (arith, same_digits (suc x / 2) (y / 2) j k (omega arith) (omega arith))

bit_and_step : (a b : ℕ) → bit_and a b ≡ bit_and (a / 2) (b / 2) * 2 + min (a % 2) (b % 2)
bit_and_step zero b = omega (arith, bit_and-bitwise 0 b, bit_and-bitwise 0 (b / 2))
bit_and_step (suc a) b = omega (
  arith,
  bit_and-bitwise (suc a) b,
  bit_and-bitwise (suc a / 2) (b / 2),
  same_digits (λ _. 0) min (suc a / 2) (b / 2) a (suc a / 2) (omega arith) (omega arith),
)

pub zero-xor : (b : ℕ) → bit_xor 0 b ≡ b
zero-xor b = bit_xor-bitwise 0 b

differ-digit : (p q : ℕ) → p < 2 → q < 2 → differ p q ≡ (p + q) % 2
differ-digit zero q h k = omega arith
differ-digit (suc zero) zero h k = refl
differ-digit (suc zero) (suc zero) h k = refl
differ-digit (suc zero) (suc (suc q)) h k = absurd (omega arith)
differ-digit (suc (suc p)) q h k = absurd (omega arith)

xor_step : (a b : ℕ) → bit_xor a b ≡ bit_xor (a / 2) (b / 2) * 2 + (a % 2 + b % 2) % 2
xor_step zero b = omega (arith, zero-xor b, zero-xor (b / 2))
xor_step (suc a) b = omega (
  arith,
  bit_xor-bitwise (suc a) b,
  differ-digit (suc a % 2) (b % 2) (omega arith) (omega arith),
  bit_xor-bitwise (suc a / 2) (b / 2),
  same_digits (λ y. y) differ (suc a / 2) (b / 2) a (suc a / 2) (omega arith) (omega arith),
)

pub xor-div_two : (a b : ℕ) → bit_xor a b / 2 ≡ bit_xor (a / 2) (b / 2)
xor-div_two a b = omega (arith, xor_step a b)

pub xor-mod_two : (a b : ℕ) → bit_xor a b % 2 ≡ (a % 2 + b % 2) % 2
xor-mod_two a b = omega (arith, xor_step a b)

-- Laws that hold at the halves and at the last digit; `n` bounds the numbers.
xor_comm_fuel : (n a b : ℕ) → a ≤ n → b ≤ n → bit_xor a b ≡ bit_xor b a
xor_comm_fuel zero zero zero p q = refl
xor_comm_fuel zero zero (suc b) p q = absurd (omega arith)
xor_comm_fuel zero (suc a) b p q = absurd (omega arith)
xor_comm_fuel (suc n) a b p q =
    omega (
      arith,
      xor_step a b,
      xor_step b a,
      xor_comm_fuel n (a / 2) (b / 2) (omega arith) (omega arith),
    )

pub xor_comm : (a b : ℕ) → bit_xor a b ≡ bit_xor b a
xor_comm a b = xor_comm_fuel (a + b) a b (omega arith) (omega arith)

xor_self_fuel : (n a : ℕ) → a ≤ n → bit_xor a a ≡ 0
xor_self_fuel zero zero p = refl
xor_self_fuel zero (suc a) p = absurd (omega arith)
xor_self_fuel (suc n) a p = omega (arith, xor_step a a, xor_self_fuel n (a / 2) (omega arith))

pub xor_self : (a : ℕ) → bit_xor a a ≡ 0
xor_self a = xor_self_fuel a a (omega arith)

xor_assoc_fuel :
    (n a b c : ℕ) → a ≤ n → b ≤ n → c ≤ n → bit_xor (bit_xor a b) c ≡ bit_xor a (bit_xor b c)
xor_assoc_fuel zero zero zero zero p q r = refl
xor_assoc_fuel zero zero zero (suc c) p q r = absurd (omega arith)
xor_assoc_fuel zero zero (suc b) c p q r = absurd (omega arith)
xor_assoc_fuel zero (suc a) b c p q r = absurd (omega arith)
xor_assoc_fuel (suc n) a b c p q r = omega (
  arith,
  xor_step (bit_xor a b) c,
  xor_step a (bit_xor b c),
  xor-mod_two a b,
  xor-mod_two b c,
  ap (λ t. bit_xor t (c / 2)) (xor-div_two a b),
  ap (bit_xor (a / 2)) (xor-div_two b c),
  xor_assoc_fuel n (a / 2) (b / 2) (c / 2) (omega arith) (omega arith) (omega arith),
)

pub xor_assoc : (a b c : ℕ) → bit_xor (bit_xor a b) c ≡ bit_xor a (bit_xor b c)
xor_assoc a b c = xor_assoc_fuel (a + b + c) a b c (omega arith) (omega arith) (omega arith)

pub xor_cancel_left : (a b c : ℕ) → bit_xor a b ≡ bit_xor a c → b ≡ c
xor_cancel_left a b c h = sym (undo b) ∙ ap (bit_xor a) h ∙ undo c
  where
    undo : (x : ℕ) → bit_xor a (bit_xor a x) ≡ x
    undo x = sym (xor_assoc a a x) ∙ ap (λ t. bit_xor t x) (xor_self a) ∙ zero-xor x

pub xor_cancel_right : (a b c : ℕ) → bit_xor b a ≡ bit_xor c a → b ≡ c
xor_cancel_right a b c h = xor_cancel_left a b c (xor_comm a b ∙ h ∙ xor_comm c a)

-- The bits above the lowest `k`.
pub xor-div : (k a b : ℕ) → bit_xor a b / 2 ^ k ≡ bit_xor (a / 2 ^ k) (b / 2 ^ k)
xor-div zero a b = div-one (bit_xor a b) ∙ sym (ap₂ bit_xor (div-one a) (div-one b))
xor-div (suc k) a b =
    halve (bit_xor a b)
    ∙ ap (λ t. t / 2 ^ k) (xor-div_two a b)
    ∙ xor-div k (a / 2) (b / 2)
    ∙ sym (ap₂ bit_xor (halve a) (halve b))
  where
    halve : (x : ℕ) → x / 2 ^ suc k ≡ x / 2 / 2 ^ k
    halve x =
        ap (λ t. x / t) (pow-suc 2 k ∙ mul_comm (2 ^ k) 2) ∙ sym (div-div-eq-div-mul x 2 (2 ^ k))

-- Numbers below a power of two stay below it.
pub xor-lt : (k a b : ℕ) → a < 2 ^ k → b < 2 ^ k → bit_xor a b < 2 ^ k
xor-lt zero a b h l = omega (arith, xor_step a b, zero-xor (b / 2), ap (λ t. bit_xor t (b / 2)) low)
  where
    low : a / 2 ≡ 0
    low = omega arith
xor-lt (suc k) a b h l = omega (
  arith,
  xor_step a b,
  pow-suc 2 k,
  xor-lt k (a / 2) (b / 2) (omega (arith, pow-suc 2 k)) (omega (arith, pow-suc 2 k)),
)

pub mul-two-pow : (x k : ℕ) → x * 2 ^ suc k ≡ x * 2 ^ k * 2
mul-two-pow x k = omega (arith, ap (λ (t : ℕ). x * t) (pow-suc 2 k))

-- Numbers with no bit in common.
pub xor_fields : (k hi lo : ℕ) → lo < 2 ^ k → bit_xor (hi * 2 ^ k) lo ≡ hi * 2 ^ k + lo
xor_fields zero hi lo h =
    let none_left : lo ≡ 0 = omega arith in
    rw none_left (omega (arith, xor_comm (hi * 1) 0, zero-xor (hi * 1)))
xor_fields (suc k) hi lo h = omega (
  arith,
  xor_step (hi * 2 ^ suc k) lo,
  mul-two-pow hi k,
  ap (λ t. bit_xor t (lo / 2)) halved,
  xor_fields k hi (lo / 2) (omega (arith, pow-suc 2 k)),
)
  where
    halved : hi * 2 ^ suc k / 2 ≡ hi * 2 ^ k
    halved = omega (arith, mul-two-pow hi k)

bit_and-zero_fuel : (n a : ℕ) → a ≤ n → bit_and a 0 ≡ 0
bit_and-zero_fuel zero zero p = refl
bit_and-zero_fuel zero (suc a) p = absurd (omega arith)
bit_and-zero_fuel (suc n) a p =
    omega (arith, bit_and_step a 0, bit_and-zero_fuel n (a / 2) (omega arith))

pub bit_and-one : (a : ℕ) → bit_and a 1 ≡ a % 2
bit_and-one a = omega (arith, bit_and_step a 1, bit_and-zero_fuel (a / 2) (a / 2) (omega arith))

bit_and_seven : (a : ℕ) → bit_and a 7 ≡ a % 8
bit_and_seven a = omega (arith, bit_and_step a 7, bit_and_step (a / 2) 3, bit_and-one (a / 2 / 2))

bit_and_63 : (a : ℕ) → bit_and a 63 ≡ a % 64
bit_and_63 a = omega (
  arith,
  bit_and_step a 63,
  bit_and_step (a / 2) 31,
  bit_and_step (a / 2 / 2) 15,
  bit_and_seven (a / 2 / 2 / 2),
)

-- `a & 0xFF`
pub bit_and_byte : (a : ℕ) → bit_and a 0xff ≡ a % 256
bit_and_byte a =
    omega (arith, bit_and_step a 0xff, bit_and_step (a / 2) 127, bit_and_63 (a / 2 / 2))
