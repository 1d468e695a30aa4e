-- ===== src/Database/FailureSink/Escape.antt =====
-- What the escapes of the failure sink keep.
use ecs_asio_server.Common.{
  ℕ, ◌≡◌, refl, ap, ◌∙◌, List, [], ◌∷◌, ◌++◌, Bool, true, false, Option, none, some, ◌==◌,
  if◌then◌else◌, arith, Bool-cases, inl, inr, ==→eq,
}
use ecs_asio_server.Database.FailureSink.{esc}

-- What is read with a byte before it.
abbrev pub prefixed : ℕ → Option (List ℕ × List ℕ) → Option (List ℕ × List ℕ)
prefixed c none = none
prefixed c (some (text, rest)) = some (c ∷ text, rest)

-- The flag says that a backslash stands before.
unfoldable pub unescape : Bool → List ℕ → Option (List ℕ × List ℕ)
unescape escaped [] = none
unescape escaped (c ∷ s) =
    let plain = prefixed c (unescape false s) in
    let after = unescape true s in
    if escaped
    then plain
    else if c == b'"'
    then some ([], s)
    else if c == b'\\'
    then after
    else plain

-- Reading a JSON string back: the escapes of any text, with the closing quote behind them, are read as
-- that text, whatever follows; no byte of the text closes the string.
pub unescape-esc :
    (src rest : List ℕ) → unescape false (esc src ++ (b'"' ∷ rest)) ≡ some (src, rest)
unfolding unescape esc
unescape-esc [] rest = refl
unescape-esc (c ∷ src) rest = elim (Bool-cases (c == b'"')) [
  | inl q ↦ rw q (
      ap (prefixed b'"') (unescape-esc src rest)
      ∙ ap (λ x. some (x ∷ src, rest)) (==→eq b'"' c (ground arith)))
  | inr q ↦ elim (Bool-cases (c == b'\\')) [
    | inl r ↦
        rw (q, r)
          (ap (prefixed b'\\') (unescape-esc src rest)
            ∙ ap (λ x. some (x ∷ src, rest)) (==→eq b'\\' c (ground arith)))
    | inr r ↦ rw (q, r) (ground (arith, q, r, unescape-esc src rest))
  ]
]
