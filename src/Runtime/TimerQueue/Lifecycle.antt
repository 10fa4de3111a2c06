-- ===== src/Runtime/TimerQueue/Lifecycle.antt =====
-- start, close and stop, and the states that a queue can reach by its operations.
use dns_pro.Base.{
  ℕ, ◌^◌, ◌<◌, ◌≡◌, refl, sym, ap, ◌∙◌, subst, ◌⊎◌, inl, inr, Bool, true, false, not, ◌&&◌, ◌||◌,
  Option, none, some, arith, Bool-cases, length, ok, Ensures, Ensures-mono, Ensures-ok,
}
use dns_pro.Runtime.TimerQueue.{
  TimerQueue, no_queue, not_in_heap, Store, new_queue, start, close, stop, is_empty,
  on_owner_thread, ArmResult,
}
use dns_pro.Runtime.TimerQueue.Arming.{arm, disarm, abandon}
use dns_pro.Runtime.TimerQueue.Expiry.{Callbacks, expire, cancel_all, DispatchResult}
use dns_pro.Runtime.TimerQueue.Remove.{IsQueue, owners-apart}
use dns_pro.Runtime.TimerQueue.Leave.{Left, on_owner_thread-running, disarm-Left, abandon-Left}
use dns_pro.Runtime.TimerQueue.Arm.{arm-Entered}
use dns_pro.Runtime.TimerQueue.Dispatch.{expire-Dispatched, cancel_all-IsEmpty}

-- Registrations that are in no queue.
abbrev pub AreFresh : Store → Type 0
AreFresh store =
    (id : ℕ)
    → ((store id).owner ≡ no_queue)
      × ((store id).heap_index ≡ not_in_heap)
      × ((store id).sequence < 2 ^ 64)

new_queue-IsQueue : (store : Store) → AreFresh store → IsQueue (new_queue store)
new_queue-IsQueue store fresh = record {
  valid = record { placed = λ i id h. absurd (ground (arith, h)); numbered = λ id. (fresh id).2 };
  ordered = λ p c edge within. absurd (omega arith);
  owned = λ id ours. absurd (owners-apart (sym ours ∙ (fresh id).0));
  heaped = λ id (i, h). absurd (ground (arith, h));
  apart = λ id free. (fresh id).1;
  word = omega arith;
  called = λ id ours. absurd (owners-apart (sym ours ∙ (fresh id).0));
}

-- The invariant is one of the heap, the store and the next sequence number.
same-IsQueue :
    (q : TimerQueue) (scheduler owner_thread : Option ℕ) (sequence failures : ℕ)
    (running accepting : Bool)
    → sequence < 2 ^ 64
    → IsQueue q
    → IsQueue (record {
      heap = q.heap;
      store = q.store;
      scheduler = scheduler;
      owner_thread = owner_thread;
      next_sequence = sequence;
      invariant_failures = failures;
      running = running;
      accepting = accepting;
      calls = q.calls;
    })
same-IsQueue q scheduler owner_thread sequence failures running accepting word w = record {
  valid = record { placed = w.valid.placed; numbered = w.valid.numbered };
  ordered = w.ordered;
  owned = w.owned;
  heaped = w.heaped;
  apart = w.apart;
  word = word;
  called = w.called;
}

-- A queue whose timers, where it has some, are of a run between start and stop.
pub record IsSound (q : TimerQueue) : Type 0 where
  pub queue : IsQueue q
  pub idle : (q.running ≡ true) ⊎ (length q.heap ≡ 0)

start-IsSound :
    (q : TimerQueue) (scheduler : ℕ) (owns : Bool) (current : ℕ)
    → IsSound q
    → IsSound (start q scheduler owns current).1
unfolding start
start-IsSound q scheduler owns current w =
    elim (Bool-cases (q.running || not (is_empty q) || not owns)) [
      | inl refused ↦ rw (refused, start) w
      | inr accepted ↦
          rw (accepted, start)
            (record {
              queue =
                  same-IsQueue q (some scheduler) (some current) 0 0 true true (omega arith)
                    w.queue;
              idle = inl refl;
            })
    ]

close-IsSound : (q : TimerQueue) (current : ℕ) → IsSound q → IsSound (close q current).1
unfolding close
close-IsSound q current w = elim (Bool-cases (q.running && not (on_owner_thread q current))) [
  | inl refused ↦ rw (refused, close) w
  | inr accepted ↦
      rw (accepted, close)
        (record {
          queue =
              same-IsQueue q q.scheduler q.owner_thread q.next_sequence q.invariant_failures
                q.running false w.queue.word w.queue;
          idle = w.idle;
        })
]

stop-IsSound : (q : TimerQueue) (current : ℕ) → IsSound q → IsSound (stop q current).1
unfolding stop
stop-IsSound q current w = elim (Bool-cases (q.running && not (on_owner_thread q current))) [
  | inl refused ↦ rw (refused, stop) w
  | inr accepted ↦ elim (Bool-cases (not (is_empty q))) [
    | inl busy ↦ rw (accepted, busy, stop) w
    | inr nothing ↦
        rw (accepted, nothing, stop)
          (record {
            queue =
                same-IsQueue q none none q.next_sequence q.invariant_failures false false
                  w.queue.word w.queue;
            idle = inr (ground (arith, nothing));
          })
  ]
]

-- The steps of a queue: its operations, with any arguments.
pub data Step (invoke : Callbacks) : TimerQueue → TimerQueue → Type 0 where
  starts :
      (q : TimerQueue) (scheduler : ℕ) (owns : Bool) (current : ℕ)
      → Step invoke q (start q scheduler owns current).1
  closes : (q : TimerQueue) (current : ℕ) → Step invoke q (close q current).1
  stops : (q : TimerQueue) (current : ℕ) → Step invoke q (stop q current).1
  arms :
      (q : TimerQueue) (current id deadline : ℕ) (completion context : Option ℕ)
      (r : ArmResult × TimerQueue)
      → arm q current id deadline completion context ≡ ok r
      → Step invoke q r.1
  disarms :
      (q : TimerQueue) (current id : ℕ) (r : Bool × TimerQueue)
      → disarm q current id ≡ ok r
      → Step invoke q r.1
  abandons :
      (q : TimerQueue) (current id : ℕ) (after : TimerQueue)
      → abandon q current id ≡ ok (some after)
      → Step invoke q after
  expires :
      (q : TimerQueue) (current now budget : ℕ) (r : TimerQueue × DispatchResult)
      → expire invoke q current now budget ≡ ok r
      → Step invoke q r.0
  cancels :
      (q : TimerQueue) (current : ℕ) (r : TimerQueue × DispatchResult)
      → cancel_all invoke q current ≡ ok r
      → Step invoke q r.0

pub data Steps (invoke : Callbacks) : TimerQueue → TimerQueue → Type 0 where
  done : (q : TimerQueue) → Steps invoke q q
  more : (q r s : TimerQueue) → Step invoke q r → Steps invoke r s → Steps invoke q s

runs_on :
    (q : TimerQueue) (current : ℕ)
    → on_owner_thread q current ≡ true
    → (q.running ≡ true) ⊎ (length q.heap ≡ 0)
runs_on q current on = inl (on_owner_thread-running q current on)

-- A timer that leaves keeps the queue sound.
Left-IsSound :
    (q : TimerQueue) (id : ℕ) (after : TimerQueue) → IsSound q → Left q id after → IsSound after
Left-IsSound q id after w h = record {
  queue = h.valid;
  idle = elim w.idle [
    | inl runs ↦ inl (ap TimerQueue.running h.rest ∙ runs)
    | inr nothing ↦ inr (omega (arith, h.same_size, nothing))
  ];
}

module _ (invoke : Callbacks) (q : TimerQueue) (w : IsSound q) where
  arm-IsSound :
      (current id deadline : ℕ) (completion context : Option ℕ)
      → Ensures (λ r. IsSound r.1) (arm q current id deadline completion context)
  arm-IsSound current id deadline completion context =
      Ensures-mono _ _ (arm q current id deadline completion context)
        (arm-Entered q current id deadline completion context w.queue)
        (λ r h. elim h [
          | inl (may, (callback, _, _, entered)) ↦ record {
            queue = entered.valid;
            idle = inl (
                ap TimerQueue.running entered.rest
                ∙ on_owner_thread-running q current (ground (arith, may)));
          }
          | inr (_, _, same) ↦ subst IsSound (sym same) w
        ])

  disarm-IsSound : (current id : ℕ) → Ensures (λ r. IsSound r.1) (disarm q current id)
  disarm-IsSound current id =
      Ensures-mono _ _ (disarm q current id) (disarm-Left q current id w.queue) (λ r h. elim h [
        | inl (_, _, left) ↦ Left-IsSound q id r.1 w left
        | inr (_, same) ↦ subst IsSound (sym (ap (λ (t : Bool × TimerQueue). t.1) same)) w
      ])

  abandon-IsSound :
      (current id : ℕ)
      → Ensures (λ r. (after : TimerQueue) → r ≡ some after → IsSound after) (abandon q current id)
  abandon-IsSound current id =
      Ensures-mono _ _ (abandon q current id) (abandon-Left q current id w.queue)
        (λ r h after is_after. elim h [
          | inl (_, same) ↦ subst IsSound (some_queue r same is_after) w
          | inr (inl (_, _, nothing)) ↦ absurd (ground (arith, nothing, is_after))
          | inr (inr (_, _, (other, same, left))) ↦
              subst IsSound (some_queue r same is_after) (Left-IsSound q id other w left)
        ])
    where
      some_queue : (r : Option TimerQueue) {a b : TimerQueue} → r ≡ some a → r ≡ some b → a ≡ b
      some_queue r e f = cc

  expire-IsSound :
      (current now budget : ℕ) → Ensures (λ r. IsSound r.0) (expire invoke q current now budget)
  expire-IsSound current now budget =
      Ensures-mono _ _ (expire invoke q current now budget)
        (expire-Dispatched invoke q current now budget w.queue)
        (λ r h. elim h [
          | inl (_, same) ↦
              subst IsSound (sym (ap (λ (t : TimerQueue × DispatchResult). t.0) same)) w
          | inr (on, dispatched, _, _, _) ↦ record {
            queue = dispatched.valid;
            idle =
                inl (ap TimerQueue.running dispatched.rest ∙ on_owner_thread-running q current on);
          }
        ])

  cancel_all-IsSound : (current : ℕ) → Ensures (λ r. IsSound r.0) (cancel_all invoke q current)
  cancel_all-IsSound current =
      Ensures-mono _ _ (cancel_all invoke q current) (cancel_all-IsEmpty invoke q current w.queue)
        (λ r h. elim h [
          | inl (_, same) ↦
              subst IsSound (sym (ap (λ (t : TimerQueue × DispatchResult). t.0) same)) w
          | inr (_, all) ↦ record { queue = all.valid; idle = inr all.nothing }
        ])

Step-IsSound : (invoke : Callbacks) (q r : TimerQueue) → Step invoke q r → IsSound q → IsSound r
Step-IsSound invoke _ _ (starts q scheduler owns current) w =
    start-IsSound q scheduler owns current w
Step-IsSound invoke _ _ (closes q current) w = close-IsSound q current w
Step-IsSound invoke _ _ (stops q current) w = stop-IsSound q current w
Step-IsSound invoke _ _ (arms q current id deadline completion context r e) w =
    Ensures-ok _ _ r (arm-IsSound invoke q w current id deadline completion context) e
Step-IsSound invoke _ _ (disarms q current id r e) w =
    Ensures-ok _ _ r (disarm-IsSound invoke q w current id) e
Step-IsSound invoke _ _ (abandons q current id after e) w =
    Ensures-ok _ _ (some after) (abandon-IsSound invoke q w current id) e after refl
Step-IsSound invoke _ _ (expires q current now budget r e) w =
    Ensures-ok _ _ r (expire-IsSound invoke q w current now budget) e
Step-IsSound invoke _ _ (cancels q current r e) w =
    Ensures-ok _ _ r (cancel_all-IsSound invoke q w current) e

Steps-IsSound : (invoke : Callbacks) (q r : TimerQueue) → Steps invoke q r → IsSound q → IsSound r
Steps-IsSound invoke _ _ (done q) w = w
Steps-IsSound invoke _ _ (more q r s step steps) w =
    Steps-IsSound invoke r s steps (Step-IsSound invoke q r step w)

-- In every state that a new queue reaches by its operations, with any arguments and on any threads,
-- the heap is in order, holds exactly the registrations that the queue owns, each of which knows its
-- place and has a callback, and is empty outside of a run between start and stop.
pub Steps-new_queue :
    (invoke : Callbacks) (store : Store) (q : TimerQueue)
    → AreFresh store
    → Steps invoke (new_queue store) q
    → IsSound q
Steps-new_queue invoke store q fresh steps =
    Steps-IsSound invoke (new_queue store) q steps
      (record { queue = new_queue-IsQueue store fresh; idle = inr refl })
