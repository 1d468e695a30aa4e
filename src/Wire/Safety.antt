-- ===== src/Wire/Safety.antt =====
-- Parsers that stay within the bytes that they are given.
use ecs_asio_server.Common.{
  ℕ, ◌+◌, ◌-◌, ◌≤◌, ◌≡◌, ◌≢◌, refl, List, [], ◌∷◌, length, Bool, true, arith, leb, ltb, Bool-cases,
  inl, inr, leb→le,
}
use ecs_asio_server.Wire.Defs.{
  Parsed, ok, reject, fault, Parser, ◌>>=◌, ◌>>◌, accept, need, read_u8, read_bool, read_le32,
  read_float_le, read_bytes, read_lp_string,
}

-- With at least `k` bytes left, the parser does not read past `end`.
pub record Stays {ℓ} {A : Type ℓ} (k : ℕ) (p : Parser A) : Type ℓ where
  pub stays : (s : List ℕ) → k ≤ length s → p s ≢ fault

module _ {ℓ} {B : Type ℓ} where
  pub Stays-accept : (k : ℕ) (b : B) → Stays k (accept b)
  Stays-accept k b = record { stays = λ s h e. cc }

  pub Stays-need : (k n : ℕ) (p : Parser B) → Stays n p → Stays k (need n >> p)
  unfolding need
  Stays-need k n p h = record {
    stays = λ s room. elim (Bool-cases (leb n (length s))) [
      | inl enough ↦ rw (◌>>=◌, enough) (h.stays s (leb→le n (length s) enough))
      | inr few ↦ rw (◌>>=◌, few) (λ e. cc)
    ];
  }

  -- A read of `n` bytes, of which `k` are known to be there.
  Stays-read :
      {A : Type 0} (n k : ℕ) (r : Parser A) (f : A → Parser B)
      → ((s : List ℕ)
          → n ≤ length s
          → (a : A) × (t : List ℕ) × (r s ≡ ok a t) × (length s ≡ n + length t))
      → leb n k ≡ true
      → ((a : A) → Stays (k - n) (f a))
      → Stays k (r >>= f)
  Stays-read n k r f reads fits h = record {
    stays = λ s room.
        let le = leb→le n k fits in
        let (a, t, e, size) = reads s (omega arith) in rw (◌>>=◌, e) ((h a).stays t (omega arith));
  }

module _ {ℓ} {B : Type ℓ} (k : ℕ) where
  pub Stays-read_u8 :
      (f : ℕ → Parser B)
      → leb 1 k ≡ true
      → ((a : ℕ) → Stays (k - 1) (f a))
      → Stays k (read_u8 >>= f)
  unfolding read_u8
  Stays-read_u8 f = Stays-read 1 k read_u8 f reads
    where
      reads :
          (s : List ℕ)
          → 1 ≤ length s
          → (a : ℕ) × (t : List ℕ) × (read_u8 s ≡ ok a t) × (length s ≡ 1 + length t)
      reads [] h = absurd (omega arith)
      reads (b ∷ s) h = (b, s, refl, omega arith)

  pub Stays-read_bool :
      (f : Bool → Parser B)
      → leb 1 k ≡ true
      → ((a : Bool) → Stays (k - 1) (f a))
      → Stays k (read_bool >>= f)
  unfolding read_bool
  Stays-read_bool f = Stays-read 1 k read_bool f reads
    where
      reads :
          (s : List ℕ)
          → 1 ≤ length s
          → (a : Bool) × (t : List ℕ) × (read_bool s ≡ ok a t) × (length s ≡ 1 + length t)
      reads [] h = absurd (omega arith)
      reads (b ∷ s) h = (ltb 0 b, s, refl, omega arith)

read_le32_reads :
    (s : List ℕ)
    → 4 ≤ length s
    → (a : ℕ) × (t : List ℕ) × (read_le32 s ≡ ok a t) × (length s ≡ 4 + length t)
unfolding read_le32
read_le32_reads (a ∷ b ∷ c ∷ d ∷ s) h = (_, s, refl, omega arith)
read_le32_reads (a ∷ b ∷ c ∷ []) h = absurd (omega arith)
read_le32_reads (a ∷ b ∷ []) h = absurd (omega arith)
read_le32_reads (a ∷ []) h = absurd (omega arith)
read_le32_reads [] h = absurd (omega arith)

read_float_le_reads :
    (s : List ℕ)
    → 4 ≤ length s
    → (a : ℕ) × (t : List ℕ) × (read_float_le s ≡ ok a t) × (length s ≡ 4 + length t)
unfolding read_float_le
read_float_le_reads s h = read_le32_reads s h

-- A length-prefixed string checks all that it reads: it needs nothing to be known.
read_lp_string_checks : Stays 0 read_lp_string
unfolding read_lp_string read_bytes
read_lp_string_checks = record {
  stays = λ s room.
      (Stays-need 0 4 _ (
          Stays-read 4 4 read_le32 _ read_le32_reads refl (λ len. record {
            stays = λ t _. elim (Bool-cases (ltb (length t) len)) [
              | inl long ↦ rw long (λ e. cc)
              | inr fits ↦ rw fits (λ e. cc)
            ];
          }))).stays
        s room;
}

module _ {ℓ} {B : Type ℓ} (k : ℕ) where
  pub Stays-read_le32 :
      (f : ℕ → Parser B)
      → leb 4 k ≡ true
      → ((a : ℕ) → Stays (k - 4) (f a))
      → Stays k (read_le32 >>= f)
  Stays-read_le32 f = Stays-read 4 k read_le32 f read_le32_reads

  pub Stays-read_float_le :
      (f : ℕ → Parser B)
      → leb 4 k ≡ true
      → ((a : ℕ) → Stays (k - 4) (f a))
      → Stays k (read_float_le >>= f)
  Stays-read_float_le f = Stays-read 4 k read_float_le f read_float_le_reads

  pub Stays-read_lp_string :
      (f : List ℕ → Parser B) → ((t : List ℕ) → Stays 0 (f t)) → Stays k (read_lp_string >>= f)
  Stays-read_lp_string f h = record { stays = λ s _. go s (read_lp_string s) refl }
    where
      go :
          (s : List ℕ) (r : Parsed (List ℕ))
          → read_lp_string s ≡ r
          → (read_lp_string >>= f) s ≢ fault
      go s (ok t rest) e = rw (◌>>=◌, e) ((h t).stays rest (omega arith))
      go s reject e = rw (◌>>=◌, e) (λ q. cc)
      go s fault e = absurd (read_lp_string_checks.stays s (omega arith) e)

pub ruleset checked_reads = (
  Stays-accept, Stays-need, Stays-read_u8, Stays-read_bool, Stays-read_le32, Stays-read_float_le,
  Stays-read_lp_string,
)
