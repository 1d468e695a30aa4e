-- ===== src/Common/Decimal.antt =====
-- std::to_string and std::stoll of a std::int64_t, which is the bit pattern of 64 bits.
use Prim.Native.Nat.{ℕ, zero, suc, ◌+◌, ◌-◌, ◌*◌, ◌/◌, ◌%◌, ◌^◌, ◌<◌, ◌≤◌}
use mathlib.Core.Path.{◌≡◌, refl, ap, ◌∙◌}
use mathlib.Core.Bool.{Bool, true, false, ◌&&◌, ◌||◌}
use mathlib.Core.Option.{Option, none, some}
use mathlib.Core.List.{List, [], ◌∷◌}
use native.Mathlib.Omega.{arith}
use ecs_asio_server.Common.Tests.{ltb, leb, ◌==◌, if◌then◌else◌, if_cases, lt→ltb}

-- The digits of a number in front of others.
unfoldable pub digits : ℕ → ℕ → List ℕ → List ℕ
digits zero n after = after
digits (suc fuel) n after =
    let more = digits fuel (n / 10) ((48 + n % 10) ∷ after) in
    if n / 10 == 0 then (48 + n % 10) ∷ after else more

unfoldable pub to_string : ℕ → List ℕ
to_string n =
    let minus = b'-' ∷ digits 20 (2 ^ 64 - n) [] in if ltb n (2 ^ 63) then digits 20 n [] else minus

abbrev pub is_digit : ℕ → Bool
is_digit c = leb 48 c && leb c 57

abbrev pub is_space : ℕ → Bool
is_space c = c == 32 || (leb 9 c && leb c 13)

-- The number that the front of a text spells, if it begins with a digit.
unfoldable pub scan : ℕ → Bool → List ℕ → Option ℕ
scan n seen [] = if seen then some n else none
scan n seen (c ∷ cs) =
    let rest = scan (n * 10 + (c - 48)) true cs in
    if is_digit c then rest else if seen then some n else none

unfoldable pub skip_space : List ℕ → List ℕ
skip_space [] = []
skip_space (c ∷ cs) = let rest = skip_space cs in if is_space c then rest else c ∷ cs

-- A magnitude that is out of range throws, as a text without a number does.
abbrev pub positive_number : Option ℕ → Option ℕ
positive_number none = none
positive_number (some n) = if ltb n (2 ^ 63) then some n else none

abbrev pub negative_number : Option ℕ → Option ℕ
negative_number none = none
negative_number (some n) = if leb n (2 ^ 63) then some ((2 ^ 64 - n) % 2 ^ 64) else none

abbrev pub signed : List ℕ → Option ℕ
signed [] = none
signed (c ∷ cs) =
    if c == b'-'
    then negative_number (scan 0 false cs)
    else if c == b'+'
    then positive_number (scan 0 false cs)
    else positive_number (scan 0 false (c ∷ cs))

-- None where std::stoll throws.
unfoldable pub stoll : List ℕ → Option ℕ
stoll text = signed (skip_space text)

one_digit :
    (m d : ℕ) (seen : Bool) (after : List ℕ)
    → d < 10
    → scan m seen ((48 + d) ∷ after) ≡ scan (m * 10 + d) true after
unfolding scan
one_digit m d seen after h = ground arith

last_digit :
    (n : ℕ) (seen : Bool) (after : List ℕ)
    → n < 10
    → scan 0 seen ((48 + n % 10) ∷ after) ≡ scan n true after
last_digit n seen after h =
    one_digit 0 (n % 10) seen after (omega arith) ∙ ap (λ k. scan k true after) (omega arith)

pow_suc : (k : ℕ) → 10 ^ suc k ≡ 10 * 10 ^ k
pow_suc k = omega arith

scan-digits :
    (fuel n : ℕ) (seen : Bool) (after : List ℕ)
    → n < 10 ^ suc fuel
    → scan 0 seen (digits (suc fuel) n after) ≡ scan n true after
unfolding digits
scan-digits zero n seen after h =
    if_cases (λ t. scan 0 seen t ≡ scan n true after) (n / 10 == 0)
      (λ _. last_digit n seen after (omega (arith, h)))
      (λ _. last_digit n seen after (omega (arith, h)))
scan-digits (suc fuel) n seen after h =
    if_cases (λ t. scan 0 seen t ≡ scan n true after) (n / 10 == 0)
      (λ q. last_digit n seen after (ground (arith, q)))
      (λ _.
        scan-digits fuel (n / 10) seen ((48 + n % 10) ∷ after) (omega (arith, pow_suc (suc fuel)))
        ∙ one_digit (n / 10) (n % 10) true after (omega arith)
        ∙ ap (λ k. scan k true after) (omega arith))

-- The first character is a digit.
abbrev StartsWithDigit : List ℕ → Type 0
StartsWithDigit [] = ⊥
StartsWithDigit (c ∷ cs) = (48 ≤ c) × (c ≤ 57)

digits-StartsWithDigit : (fuel n : ℕ) (after : List ℕ) → StartsWithDigit (digits (suc fuel) n after)
unfolding digits
digits-StartsWithDigit zero n after =
    if_cases StartsWithDigit (n / 10 == 0) (λ _. (omega arith, omega arith))
      (λ _. (omega arith, omega arith))
digits-StartsWithDigit (suc fuel) n after =
    if_cases StartsWithDigit (n / 10 == 0) (λ _. (omega arith, omega arith))
      (λ _. digits-StartsWithDigit fuel (n / 10) ((48 + n % 10) ∷ after))

stoll_digits :
    (text : List ℕ) → StartsWithDigit text → stoll text ≡ positive_number (scan 0 false text)
unfolding stoll skip_space
stoll_digits [] h = absurd h
stoll_digits (c ∷ cs) h = ground (arith, h.0, h.1)

-- Reading back what was written.
pub stoll-to_string : (n : ℕ) → n < 2 ^ 63 → stoll (to_string n) ≡ some n
unfolding to_string
stoll-to_string n h =
    let start = digits-StartsWithDigit 19 n [] in
    let read = scan-digits 19 n false [] (omega arith) in
    rw (lt→ltb n (2 ^ 63) h) (
      stoll_digits (digits 20 n []) start
      ∙ ap positive_number (read ∙ ended)
      ∙ rw (lt→ltb n (2 ^ 63) h) refl)
  where
    ended : scan n true [] ≡ some n
    ended = unfold scan in refl
