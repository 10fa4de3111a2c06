-- ===== src/Runtime/TimerQueue/Front.antt =====
-- The front of the heap: the timer with the earliest deadline.
use dns_pro.Base.{
  ℕ, ◌≤◌, ◌≡◌, refl, ap, ◌↔◌, ◌⊎◌, inl, inr, true, none, some, List, [], ◌∷◌, arith, Option-cases,
  length, get_elem?, lt-get_elem?,
}
use dns_pro.Runtime.TimerQueue.{TimerQueue, this_queue}
use dns_pro.Runtime.TimerQueue.Expiry.{next_deadline, front_is_due}
use dns_pro.Runtime.TimerQueue.Order.{root_least}
use dns_pro.Runtime.TimerQueue.Nodes.{rank, key, key_of}
use dns_pro.Runtime.TimerQueue.Remove.{IsQueue}

abbrev pub IsArmed : TimerQueue → ℕ → Type 0
IsArmed q id = (q.store id).owner ≡ this_queue

abbrev pub Due : TimerQueue → ℕ → Type 0
Due q now = (id : ℕ) × IsArmed q id × ((q.store id).deadline ≤ now)

module _ (q : TimerQueue) (w : IsQueue q) (id : ℕ) (front : get_elem? q.heap 0 ≡ some id) where
  pub front-IsArmed : IsArmed q id
  front-IsArmed = w.heaped id (0, front)

  pub front_rank : (other : ℕ) → IsArmed q other → rank (q.store id) ≤ rank (q.store other)
  front_rank other ours =
      let (i, here) = w.owned other ours in
      let least =
        root_least (key q) (length q.heap) i w.ordered (lt-get_elem? q.heap i other here) in
      omega (arith, least, ap (key_of q.store) front, ap (key_of q.store) here)

  pub front_deadline :
      (other : ℕ) → IsArmed q other → (q.store id).deadline ≤ (q.store other).deadline
  front_deadline other ours =
      omega (arith, front_rank other ours, w.valid.numbered id, w.valid.numbered other)

-- The next deadline is the least one of the armed timers; there is none where no timer is armed.
pub next_deadline_lem :
    (q : TimerQueue)
    → IsQueue q
    → ((next_deadline q ≡ none) × (q.heap ≡ []) × ((id : ℕ) → ¬ IsArmed q id))
      ⊎ ((id : ℕ) × IsArmed q id
          × (next_deadline q ≡ some (q.store id).deadline)
          × ((other : ℕ) → IsArmed q other → (q.store id).deadline ≤ (q.store other).deadline))
unfolding next_deadline
next_deadline_lem q w = elim (Option-cases (get_elem? q.heap 0)) [
  | inl nothing ↦ inl (
    ground (arith, nothing),
    no_front q.heap nothing,
    λ id ours.
        let (i, here) = w.owned id ours in absurd (ground (arith, no_front q.heap nothing, here)),
  )
  | inr (id, front) ↦
      inr (id, front-IsArmed q w id front, ground (arith, front), front_deadline q w id front)
]
  where
    no_front : (heap : List ℕ) → get_elem? heap 0 ≡ none → heap ≡ []
    no_front [] e = refl
    no_front (x ∷ heap) e = absurd (ground (arith, e))

pub front_is_due_iff :
    (q : TimerQueue) (now : ℕ) → IsQueue q → (front_is_due q now ≡ true) ↔ Due q now
unfolding front_is_due
front_is_due_iff q now w = elim (next_deadline_lem q w) [
  | inl (nothing, _, nobody) ↦
      (λ e. absurd (ground (arith, e, nothing)), λ (id, ours, due). absurd (nobody id ours))
  | inr (id, ours, next, least) ↦ (
    λ e. (id, ours, ground (arith, e, next)),
    λ (other, theirs, due).
        let bound : (q.store id).deadline ≤ now = omega (arith, least other theirs, due) in
        ground (arith, next, bound),
  )
]
