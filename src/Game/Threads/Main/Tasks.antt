-- ===== src/Game/Threads/Main/Tasks.antt =====
-- The order in which process_task_queue and process_tasks run the tasks. A std::priority_queue gives an
-- element that is not less than any other; which one of several, the standard leaves open.
use ecs_asio_server.Common.{ℕ, ◌≤◌, ◌≡◌, List, [], ◌∷◌, ◌++◌, Bool, false, ltb, arith, All}
use mathlib.Core.List.{Perm, perm_middle}
use mathlib.Core.List.Perm as Perm
use ecs_asio_server.Game.Threads.Main.{Transfer}

abbrev pub Task : Type 0
Task = ℕ × Transfer

-- operator< of MapTask and MainTask: by a greater priority.
unfoldable pub less : Task → Task → Bool
less (priority, t) (other, u) = ltb other priority

-- The runs of the loop of process_task_queue from a queue to the empty one, where no task is added
-- meanwhile: at each turn top() and pop() take one of the elements that no element exceeds.
pub data Drains : List Task → List Task → Type 0 where
  done : Drains [] []
  take_top :
      (front behind : List Task) {order : List Task} {t : Task}
      → All (λ u. less t u ≡ false) (front ++ behind)
      → Drains (front ++ behind) order
      → Drains (front ++ (t ∷ behind)) (t ∷ order)

abbrev pub Ascending : List Task → Type 0
Ascending [] = Unit {0}
Ascending (t ∷ ts) = All (λ (u : Task). t.0 ≤ u.0) ts × Ascending ts

All-middle :
    (P : Task → Type 0) (front behind : List Task) (t : Task)
    → All P (front ++ (t ∷ behind))
    → P t × All P (front ++ behind)
All-middle P [] behind t h = h
All-middle P (x ∷ front) behind t h = let r = All-middle P front behind t h.1 in (r.0, (h.0, r.1))

Drains-All : (P : Task → Type 0) {q order : List Task} → Drains q order → All P q → All P order
Drains-All P done h = tt
Drains-All P (take_top front behind {order} {t} top d) h =
    let r = All-middle P front behind t h in (r.0, Drains-All P d r.1)

less_le : (t u : Task) → less t u ≡ false → t.0 ≤ u.0
unfolding less
less_le (p, t) (q, u) h = ground arith

All-le :
    (t : Task) (us : List Task) → All (λ u. less t u ≡ false) us → All (λ (u : Task). t.0 ≤ u.0) us
All-le t [] h = tt
All-le t (u ∷ us) h = (less_le t u h.0, All-le t us h.1)

-- Whichever way the queue settles ties, the loop runs exactly the tasks that were queued, each as often
-- as it was, in ascending order of their priority: one with priority 1 only after every one with
-- priority 0.
pub Drains-Ascending : {q order : List Task} → Drains q order → Perm order q × Ascending order
Drains-Ascending done = (Perm.nil, tt)
Drains-Ascending (take_top front behind {order} {t} top d) =
    let r = Drains-Ascending d in
    (
      Perm.trans (Perm.cons t r.0) (Perm.symm (perm_middle front behind)),
      (Drains-All (λ (u : Task). t.0 ≤ u.0) d (All-le t (front ++ behind) top), r.1),
    )
