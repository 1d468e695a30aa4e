-- ===== src/Ecs/Systems/Order.antt =====
-- The order of the systems, and what a call of update_all updates.
use ecs_asio_server.Common.{
  ℕ, ◌+◌, ◌≤◌, ◌≡◌, refl, ap, ◌∙◌, List, [], ◌∷◌, ◌++◌, map, Bool, true, false, Option, none, some,
  ◌==◌, if◌then◌else◌, arith, if_cases, Bool-cases, inl, inr, times, times-append, ==→eq,
}
use ecs_asio_server.Common.Tables.{
  find, has_key, adjust, NoRepeat, erase_key-NoRepeat, assign-NoRepeat, adjust-NoRepeat,
  has_key-adjust, has_key-find, is_some_of,
}
use ecs_asio_server.Ecs.Systems.{
  System, SystemManager, no_systems, set_enabled, set_priority, entries, rebuild_update_order,
  register_system, unregister_system, updated, update_next, update_each, update_all,
}

-- What is documented of std::sort: it only moves the elements.
abbrev pub Rearranges : (List (ℕ × ℕ) → List (ℕ × ℕ)) → Type 0
Rearranges sort =
    (l : List (ℕ × ℕ)) (t : ℕ) → times t (map (λ e. e.0) (sort l)) ≡ times t (map (λ e. e.0) l)

times-entries :
    (t : ℕ) (s : List (ℕ × System))
    → NoRepeat s
    → times t (map (λ e. e.0) (entries s)) ≡ (if has_key t s then 1 else 0)
unfolding times entries has_key
times-entries t [] k = refl
times-entries t ((u, c) ∷ s) k = ground (arith, times-entries t s k.1, k.0)

-- Each registered system stands in the order once.
record Ordered (m : SystemManager) : Type 0 where
  norepeat : NoRepeat m.systems
  once : (t : ℕ) → times t m.update_order ≡ (if has_key t m.systems then 1 else 0)

pub data Call : Type 0 where
  registers : ℕ → System → Call
  unregisters : ℕ → Call
  enables : ℕ → Bool → Call
  prioritises : ℕ → ℕ → Call

module _ (sort : List (ℕ × ℕ) → List (ℕ × ℕ)) where
  unfoldable pub call : Call → SystemManager → SystemManager
  call (registers t s) m = register_system sort t s m
  call (unregisters t) m = unregister_system sort t m
  call (enables t b) m = set_enabled t b m
  call (prioritises t p) m = set_priority t p m

  unfoldable pub calls : List Call → SystemManager → SystemManager
  calls [] m = m
  calls (c ∷ cs) m = calls cs (call c m)

  rebuild-Ordered :
      (m : SystemManager)
      → Rearranges sort
      → NoRepeat m.systems
      → Ordered (rebuild_update_order sort m)
  unfolding rebuild_update_order
  rebuild-Ordered m sorts k = record {
    norepeat = k;
    once = λ t. sorts (entries m.systems) t ∙ times-entries t m.systems k;
  }

  adjust-Ordered :
      (t : ℕ) (f : System → System) (m : SystemManager)
      → Ordered m
      → Ordered (record m { systems = adjust t f m.systems })
  adjust-Ordered t f m o = record {
    norepeat = adjust-NoRepeat t f m.systems o.norepeat;
    once = λ u. ground (arith, o.once u, has_key-adjust t u f m.systems);
  }

  call-Ordered : (c : Call) (m : SystemManager) → Rearranges sort → Ordered m → Ordered (call c m)
  unfolding call register_system unregister_system set_enabled set_priority
  call-Ordered (registers t s) m sorts o =
      if_cases Ordered (has_key t m.systems) (λ _. o)
        (λ _. rebuild-Ordered _ sorts (assign-NoRepeat t s m.systems o.norepeat))
  call-Ordered (unregisters t) m sorts o =
      rebuild-Ordered _ sorts (erase_key-NoRepeat t m.systems o.norepeat)
  call-Ordered (enables t b) m sorts o = adjust-Ordered t _ m o
  call-Ordered (prioritises t p) m sorts o = adjust-Ordered t _ m o

  calls-Ordered :
      (cs : List Call) (m : SystemManager) → Rearranges sort → Ordered m → Ordered (calls cs m)
  unfolding calls
  calls-Ordered [] m sorts o = o
  calls-Ordered (c ∷ cs) m sorts o = calls-Ordered cs (call c m) sorts (call-Ordered c m sorts o)

-- An update that notes its system.
abbrev pub note : ℕ → List ℕ → List ℕ
note t seen = seen ++ (t ∷ [])

abbrev pub is_on : Option System → Bool
is_on none = false
is_on (some s) = s.enabled

-- One system of the order.
turn_lem :
    (t u : ℕ) (order : List ℕ) (systems : List (ℕ × System)) (seen : List ℕ) (s : System)
    → find u systems ≡ some s
    → times t (if s.enabled then note u seen else seen)
        + (if is_on (find t systems) then times t order else 0)
      ≡ times t seen + (if is_on (find t systems) then times t (u ∷ order) else 0)
turn_lem t u order systems seen s e = elim (Bool-cases (t == u)) [
  | inl q ↦
      let same : is_on (find t systems) ≡ s.enabled =
        ap (λ k. is_on (find k systems)) (==→eq t u q) ∙ ap is_on e in
      unfold times in ground (arith, same, q, times-append t seen (u ∷ []))
  | inr q ↦ unfold times in ground (arith, q, times-append t seen (u ∷ []))
]

update_each_lem :
    (t : ℕ) (order : List ℕ) (systems : List (ℕ × System)) (seen : List ℕ)
    → ((u : ℕ) → 1 ≤ times u order → is_some_of (find u systems) ≡ true)
    → (l : List ℕ) × (update_each note order systems seen ≡ some l)
      × (times t l ≡ times t seen + (if is_on (find t systems) then times t order else 0))
unfolding update_each
update_each_lem t [] systems seen known = (seen, refl, unfold times in ground arith)
update_each_lem t (u ∷ order) systems seen known =
    by_system (find u systems) refl (known u (unfold times in ground arith)) (λ next.
      update_each_lem t order systems next (λ v h. known v (unfold times in omega (arith, h))))
  where
    by_system :
        (o : Option System)
        → find u systems ≡ o
        → is_some_of (find u systems) ≡ true
        → ((next : List ℕ)
            → (l : List ℕ) × (update_each note order systems next ≡ some l)
              × (times t l ≡ times t next + (if is_on (find t systems) then times t order else 0)))
        → (l : List ℕ) × (update_each note (u ∷ order) systems seen ≡ some l)
          × (times t l ≡ times t seen + (if is_on (find t systems) then times t (u ∷ order) else 0))
    by_system none e some_system rest = absurd (ground (arith, e, some_system))
    by_system (some s) e some_system rest =
        let next = if s.enabled then note u seen else seen in
        let (l, p, q) = rest next in
        let here : updated note u (find u systems) seen ≡ some next =
          ap (λ o. updated note u o seen) e in
        (
          l,
          ap (λ o. update_next o (λ n. update_each note order systems n)) here ∙ p,
          q ∙ turn_lem t u order systems seen s e,
        )

-- Systems are registered and unregistered, switched on and off, and given other priorities, in any order.
-- Then update_all comes to its end, no pointer in the order is that of a system that is gone, and each
-- system is updated exactly once if it is registered and enabled, else not at all. std::sort only
-- moves the elements.
pub update_all-once :
    (sort : List (ℕ × ℕ) → List (ℕ × ℕ)) (cs : List Call) (t : ℕ)
    → Rearranges sort
    → (l : List ℕ) × (update_all note (calls sort cs no_systems) [] ≡ some l)
      × (times t l ≡ (if is_on (find t (calls sort cs no_systems).systems) then 1 else 0))
unfolding update_all
update_all-once sort cs t sorts =
    let m = calls sort cs no_systems in
    let none_yet : Ordered no_systems = record {
      norepeat = tt;
      once = λ u. unfold times has_key in refl;
    } in
    let o = calls-Ordered sort cs no_systems sorts none_yet in
    let (l, p, q) =
      update_each_lem t m.update_order m.systems []
        (λ u h. ground (arith, o.once u, h, has_key-find u m.systems)) in
    (l, p, q ∙ (unfold times in ground (arith, o.once t, has_key-find t m.systems, on_some t m)))
  where
    on_some :
        (t : ℕ) (m : SystemManager)
        → is_on (find t m.systems) ≡ true
        → is_some_of (find t m.systems) ≡ true
    on_some t m h = by_case (find t m.systems) h
      where
        by_case : (o : Option System) → is_on o ≡ true → is_some_of o ≡ true
        by_case none k = k
        by_case (some s) k = refl
