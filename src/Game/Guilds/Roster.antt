-- ===== src/Game/Guilds/Roster.antt =====
-- What the table from channels to guilds says of a guild.
use ecs_asio_server.Common.{
  ℕ, ◌≡◌, sym, ap, ◌∙◌, List, [], ◌∷◌, ◌++◌, Bool, true, false, not, Option, none, some, ◌==◌,
  if◌then◌else◌, arith, Bool-cases, inl, inr,
}
use ecs_asio_server.Common.Tables.{
  find, has_key, erase_key, assign, NoRepeat, has_key-find, find-erase_key, find-assign,
  erase_key_absent,
}
use ecs_asio_server.Game.Guilds.{remove_member, is_empty}

abbrev pub is_guild : ℕ → Option ℕ → Bool
is_guild g none = false
is_guild g (some h) = h == g

-- The channel is in the guild.
unfoldable pub in_guild : ℕ → ℕ → List (ℕ × ℕ) → Bool
in_guild c g t = is_guild g (find c t)

-- Some channel is in the guild.
unfoldable pub inhabited : ℕ → List (ℕ × ℕ) → Bool
inhabited g [] = false
inhabited g ((c, h) ∷ t) = let rest = inhabited g t in if h == g then true else rest

unfoldable pub is_member : ℕ → List ℕ → Bool
is_member c [] = false
is_member c (x ∷ xs) = let rest = is_member c xs in if c == x then true else rest

pub inhabited_by : (c g : ℕ) (t : List (ℕ × ℕ)) → in_guild c g t ≡ true → inhabited g t ≡ true
unfolding in_guild find inhabited
inhabited_by c g [] h = cc
inhabited_by c g ((d, k) ∷ t) h = ground (arith, inhabited_by c g t)

pub inhabitant :
    (g : ℕ) (t : List (ℕ × ℕ))
    → NoRepeat t
    → inhabited g t ≡ true
    → (c : ℕ) × (in_guild c g t ≡ true)
unfolding in_guild inhabited find
inhabitant g [] n h = absurd cc
inhabitant g ((d, k) ∷ t) n h = elim (Bool-cases (k == g)) [
  | inl q ↦ (d, ground arith)
  | inr q ↦
      let (c, e) = inhabitant g t n.1 (ground arith) in
      (c, ground (arith, n.0, e, has_key-find d t))
]

-- A guild whose list of members agrees with the table is inhabited exactly if the list is not empty.
pub inhabited-members :
    (g : ℕ) (t : List (ℕ × ℕ)) (ms : List ℕ)
    → NoRepeat t
    → ((c : ℕ) → is_member c ms ≡ in_guild c g t)
    → inhabited g t ≡ not (is_empty ms)
unfolding is_member
inhabited-members g t [] n h = elim (Bool-cases (inhabited g t)) [
  | inl q ↦ let (c, e) = inhabitant g t n q in let k = h c in absurd cc
  | inr q ↦ q
]
inhabited-members g t (c ∷ ms) n h = inhabited_by c g t (sym (h c) ∙ ground arith)

pub inhabited_ext :
    (g : ℕ) (t u : List (ℕ × ℕ))
    → NoRepeat t
    → NoRepeat u
    → ((c : ℕ) → in_guild c g t ≡ in_guild c g u)
    → inhabited g t ≡ inhabited g u
inhabited_ext g t u n m h = elim (Bool-cases (inhabited g t)) [
  | inl p ↦ let (c, e) = inhabitant g t n p in p ∙ sym (inhabited_by c g u (sym (h c) ∙ e))
  | inr p ↦ elim (Bool-cases (inhabited g u)) [
    | inl q ↦ let (c, e) = inhabitant g u m q in let k = inhabited_by c g t (h c ∙ e) in cc
    | inr q ↦ p ∙ sym q
  ]
]

pub in_guild-erase_key :
    (k c g : ℕ) (t : List (ℕ × ℕ))
    → in_guild c g (erase_key k t) ≡ (if c == k then false else in_guild c g t)
unfolding in_guild
in_guild-erase_key k c g t = ground (arith, find-erase_key k c t)

pub in_guild-assign :
    (k c h g : ℕ) (t : List (ℕ × ℕ))
    → in_guild c g (assign k h t) ≡ (if c == k then h == g else in_guild c g t)
unfolding in_guild
in_guild-assign k c h g t = ground (arith, find-assign k c h t)

pub is_member-remove_member :
    (k c : ℕ) (ms : List ℕ)
    → is_member c (remove_member k ms) ≡ (if c == k then false else is_member c ms)
unfolding is_member remove_member
is_member-remove_member k c [] = ground arith
is_member-remove_member k c (x ∷ ms) = ground (arith, is_member-remove_member k c ms)

pub is_member-append :
    (k c : ℕ) (ms : List ℕ)
    → is_member c (ms ++ (k ∷ [])) ≡ (if c == k then true else is_member c ms)
unfolding is_member
is_member-append k c [] = ground arith
is_member-append k c (x ∷ ms) = ground (arith, is_member-append k c ms)

pub inhabited-assign :
    (c g h : ℕ) (t : List (ℕ × ℕ))
    → has_key c t ≡ false
    → inhabited h (assign c g t) ≡ (if g == h then true else inhabited h t)
unfolding inhabited assign
inhabited-assign c g h t out =
    ap (λ u. if g == h then true else inhabited h u) (erase_key_absent c t out)
