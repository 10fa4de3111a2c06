-- ===== src/Runtime/TimerQueue/Dispatch.antt =====
-- expire and cancel_all: which timers they complete, and that they end.
use dns_pro.Base.{
  ℕ, zero, suc, ◌+◌, ◌≤◌, ◌<◌, max, ◌≡◌, refl, ap, ◌∙◌, ◌↔◌, ◌⊎◌, inl, inr, Bool, true, false, ◌&&◌,
  some, arith, ltb, Bool-cases, Option-cases, length, get_elem?, lt-get_elem?, ok, ◌>>=◌, Ensures,
  Ensures-bind, Ensures-mono,
}
use dns_pro.Runtime.TimerQueue.{
  TimerRegistration, TimerQueue, TimerCompletion, expired, cancelled, on_owner_thread, is_empty,
}
use dns_pro.Runtime.TimerQueue.Expiry.{
  DispatchResult, no_result, Callbacks, front_is_due, complete_front, expire, expire_loop,
  cancel_all, cancel_loop, next_deadline,
}
use dns_pro.Runtime.TimerQueue.Remove.{IsQueue, HasCallback}
use dns_pro.Runtime.TimerQueue.Leave.{detached, on_owner_thread-running}
use dns_pro.Runtime.TimerQueue.Front.{IsArmed, Due, front_is_due_iff}
use dns_pro.Runtime.TimerQueue.Completed.{
  AllCancelled, Completed, Dispatched, Dispatched-refl, Dispatched-trans,
}
use dns_pro.Runtime.TimerQueue.Completion.{complete_front-Dispatched}
use dns_pro.Runtime.TimerQueue.Calls.{times, Every-mono}
use dns_pro.Protocol.Wire.Reads.{get_elem?-lt}

abbrev pub NotAfter : ℕ → ℕ → Type 0
NotAfter now deadline = deadline ≤ now

module _ (fuel : ℕ) (invoke : Callbacks) (q : TimerQueue) (now budget : ℕ)
    (result : DispatchResult) where
  expire_loop-stops :
      (ltb result.dispatched budget && front_is_due q now) ≡ false
      → expire_loop (suc fuel) invoke q now budget result ≡ ok (q, result)
  unfolding expire_loop
  expire_loop-stops stops = ground (arith, stops)

  expire_loop-goes_on :
      (ltb result.dispatched budget && front_is_due q now) ≡ true
      → expire_loop (suc fuel) invoke q now budget result ≡ (
          complete_front invoke q expired result >>= λ r.
          expire_loop fuel invoke r.0 now budget r.1)
  unfolding expire_loop
  expire_loop-goes_on goes_on = ground (arith, goes_on)

-- The front that is due.
due_front :
    (q : TimerQueue) (now : ℕ)
    → front_is_due q now ≡ true
    → (id : ℕ) × (get_elem? q.heap 0 ≡ some id) × ((q.store id).deadline ≤ now)
unfolding front_is_due next_deadline
due_front q now due = elim (Option-cases (get_elem? q.heap 0)) [
  | inl nothing ↦ absurd (ground (arith, nothing, due))
  | inr (id, front) ↦ (id, front, ground (arith, front, due))
]

Expired : Callbacks → TimerQueue → ℕ → ℕ → DispatchResult → TimerQueue × DispatchResult → Type 0
Expired invoke q now budget start r =
    Dispatched invoke expired (NotAfter now) q r.0 start r.1
    × (r.1.dispatched ≤ max budget start.dispatched)
    × ((ltb r.1.dispatched budget && front_is_due r.0 now) ≡ false)

expire_loop-Expired :
    (fuel : ℕ) (invoke : Callbacks) (q : TimerQueue) (now budget : ℕ) (result : DispatchResult)
    → IsQueue q
    → length q.heap < fuel
    → Ensures (Expired invoke q now budget result) (expire_loop fuel invoke q now budget result)
unfolding Expired
expire_loop-Expired zero invoke q now budget result w enough = absurd (omega arith)
expire_loop-Expired (suc fuel) invoke q now budget result w enough =
    elim (Bool-cases (ltb result.dispatched budget && front_is_due q now)) [
      | inr stops ↦
          rw (expire_loop-stops fuel invoke q now budget result stops)
            (Dispatched-refl invoke expired (NotAfter now) q result w, omega arith, stops)
      | inl goes_on ↦
          let (id, front, due) = due_front q now (ground (arith, goes_on)) in
          let room : result.dispatched < budget = ground (arith, goes_on) in
          rw (expire_loop-goes_on fuel invoke q now budget result goes_on) (
            Ensures-bind _ (Expired invoke q now budget result)
              (complete_front invoke q expired result) _
              (complete_front-Dispatched (NotAfter now) q w id front due invoke expired result)
              (λ r h.
                Ensures-mono (Expired invoke r.0 now budget r.1)
                  (Expired invoke q now budget result) (expire_loop fuel invoke r.0 now budget r.1)
                  (expire_loop-Expired fuel invoke r.0 now budget r.1 h.0.valid
                    (omega (arith, h.0.dispatches, h.1)))
                  (λ last k. (
                    Dispatched-trans invoke expired (NotAfter now) q r.0 last.0 result r.1 last.1
                        h.0 k.0,
                    omega (arith, k.1, h.1, room),
                    k.2,
                  ))))
    ]

with_due :
    (invoke : Callbacks) (completion : TimerCompletion) (P : ℕ → Type 0) (before after : TimerQueue)
    (start result : DispatchResult)
    → Dispatched invoke completion P before after start result
    → (due : Bool)
    → Dispatched invoke completion P before after start (record result { has_due = due })
with_due invoke completion P before after start result h due = record {
  valid = h.valid;
  rest = h.rest;
  failures = h.failures;
  dispatches = h.dispatches;
  ids = h.ids;
  calls = h.calls;
  refused = h.refused;
  members = h.members;
  order = h.order;
  fates = h.fates;
  earliest = h.earliest;
}

stopped :
    (invoke : Callbacks) (q : TimerQueue) (now budget : ℕ) (r : TimerQueue × DispatchResult)
    → Expired invoke q now budget no_result r
    → (r.1.dispatched ≡ budget) ⊎ ¬ Due r.0 now
unfolding Expired
stopped invoke q now budget r h = elim (Bool-cases (front_is_due r.0 now)) [
  | inl due ↦ inl (ground (arith, h.1, h.2, due))
  | inr not_due ↦ inr (λ due. ground (arith, not_due, (front_is_due_iff r.0 now h.0.valid).1 due))
]

module _ (invoke : Callbacks) (q : TimerQueue) (current now budget : ℕ) where
  expire-elsewhere :
      on_owner_thread q current ≡ false → expire invoke q current now budget ≡ ok (q, no_result)
  unfolding expire
  expire-elsewhere elsewhere = ground (arith, elsewhere)

  expire-here :
      on_owner_thread q current ≡ true
      → expire invoke q current now budget ≡ (
          expire_loop (length q.heap + 1) invoke q now budget no_result >>= λ r.
          ok (r.0, record r.1 { has_due = front_is_due r.0 now }))
  unfolding expire
  expire-here on = let runs = on_owner_thread-running q current on in ground (arith, on, runs)

-- Expire, on the owner's thread, returns. It completes only timers that are due, not more than its
-- budget, and none that comes after a timer that stays, by their deadlines and then their sequence
-- numbers. Each of these leaves the queue, and its own callback is called once, with its context and
-- Expired, in that order; no other callback is called, and all other timers stay. Where it stops
-- below its budget no timer is due, and it tells whether one is. The failures that it reports are
-- the calls that were answered with false, and it adds them to the count of failures. On another
-- thread it does nothing.
pub expire-Dispatched :
    (invoke : Callbacks) (q : TimerQueue) (current now budget : ℕ)
    → IsQueue q
    → Ensures
        (λ r.
          ((on_owner_thread q current ≡ false) × (r ≡ (q, no_result)))
          ⊎ ((on_owner_thread q current ≡ true)
              × Dispatched invoke expired (NotAfter now) q r.0 no_result r.1
              × (r.1.dispatched ≤ budget)
              × ((r.1.dispatched ≡ budget) ⊎ ¬ Due r.0 now)
              × ((r.1.has_due ≡ true) ↔ Due r.0 now)))
        (expire invoke q current now budget)
unfolding Expired
expire-Dispatched invoke q current now budget w = elim (Bool-cases (on_owner_thread q current)) [
  | inr elsewhere ↦
      rw (expire-elsewhere invoke q current now budget elsewhere) (inl (elsewhere, refl))
  | inl on ↦ rw (expire-here invoke q current now budget on) (
      Ensures-bind (Expired invoke q now budget no_result) _
        (expire_loop (length q.heap + 1) invoke q now budget no_result) _
        (expire_loop-Expired (length q.heap + 1) invoke q now budget no_result w (omega arith))
        (λ r h. inr (
          on,
          with_due invoke expired (NotAfter now) q r.0 no_result r.1 h.0 (front_is_due r.0 now),
          omega (arith, h.1),
          stopped invoke q now budget r h,
          front_is_due_iff r.0 now h.0.valid,
        )))
]

abbrev pub Always : ℕ → Type 0
Always deadline = Unit {0}

first_node : (q : TimerQueue) → is_empty q ≡ false → (id : ℕ) × (get_elem? q.heap 0 ≡ some id)
first_node q some_node = get_elem?-lt q.heap 0 (ground (arith, some_node))

module _ (fuel : ℕ) (invoke : Callbacks) (q : TimerQueue) (result : DispatchResult) where
  cancel_loop-stops : is_empty q ≡ true → cancel_loop (suc fuel) invoke q result ≡ ok (q, result)
  unfolding cancel_loop
  cancel_loop-stops nothing = ground (arith, nothing)

  cancel_loop-goes_on :
      is_empty q ≡ false
      → cancel_loop (suc fuel) invoke q result
        ≡ (complete_front invoke q cancelled result >>= λ r. cancel_loop fuel invoke r.0 r.1)
  unfolding cancel_loop
  cancel_loop-goes_on more = ground (arith, more)

abbrev Cancelled : Callbacks → TimerQueue → DispatchResult → TimerQueue × DispatchResult → Type 0
Cancelled invoke q start r =
    Dispatched invoke cancelled Always q r.0 start r.1 × (length r.0.heap ≡ 0)

cancel_loop-Cancelled :
    (fuel : ℕ) (invoke : Callbacks) (q : TimerQueue) (result : DispatchResult)
    → IsQueue q
    → length q.heap < fuel
    → Ensures (Cancelled invoke q result) (cancel_loop fuel invoke q result)
cancel_loop-Cancelled zero invoke q result w enough = absurd (omega arith)
cancel_loop-Cancelled (suc fuel) invoke q result w enough = elim (Bool-cases (is_empty q)) [
  | inl nothing ↦
      rw (cancel_loop-stops fuel invoke q result nothing)
        (Dispatched-refl invoke cancelled Always q result w, ground (arith, nothing))
  | inr more ↦
      let (id, front) = first_node q more in
      rw (cancel_loop-goes_on fuel invoke q result more) (
        Ensures-bind _ (Cancelled invoke q result) (complete_front invoke q cancelled result) _
          (complete_front-Dispatched Always q w id front tt invoke cancelled result)
          (λ r h.
            Ensures-mono (Cancelled invoke r.0 r.1) (Cancelled invoke q result)
              (cancel_loop fuel invoke r.0 r.1)
              (cancel_loop-Cancelled fuel invoke r.0 r.1 h.0.valid
                (omega (arith, h.0.dispatches, h.1)))
              (λ last k. (
                Dispatched-trans invoke cancelled Always q r.0 last.0 result r.1 last.1 h.0 k.0,
                k.1,
              ))))
]

module _ (invoke : Callbacks) (q : TimerQueue) (current : ℕ) where
  cancel_all-elsewhere :
      on_owner_thread q current ≡ false → cancel_all invoke q current ≡ ok (q, no_result)
  unfolding cancel_all
  cancel_all-elsewhere elsewhere = ground (arith, elsewhere)

  cancel_all-here :
      on_owner_thread q current ≡ true
      → cancel_all invoke q current ≡ cancel_loop (length q.heap + 1) invoke q no_result
  unfolding cancel_all
  cancel_all-here on = let runs = on_owner_thread-running q current on in ground (arith, on, runs)

-- Every timer that was armed was completed once, in a queue that was emptied.
emptied :
    (invoke : Callbacks) (q : TimerQueue) (r : TimerQueue × DispatchResult)
    → (h : Cancelled invoke q no_result r) → (id : ℕ) → IsArmed q id
    → (times id h.0.ids ≡ 1) × (r.0.store id ≡ detached (q.store id))
emptied invoke q r h id ours = elim (h.0.fates id) [
  | inl (_, stayed) ↦
      let (i, here) = h.0.valid.owned id (ap TimerRegistration.owner stayed ∙ ours) in
      absurd (omega (arith, lt-get_elem? r.0.heap i id here, h.1))
  | inr (once, (_, _, gone)) ↦ (once, gone)
]

Cancelled-AllCancelled :
    (invoke : Callbacks) (q : TimerQueue) (r : TimerQueue × DispatchResult)
    → Cancelled invoke q no_result r
    → AllCancelled invoke q r.0 r.1
Cancelled-AllCancelled invoke q r h = record {
  valid = h.0.valid;
  rest = h.0.rest;
  nothing = h.1;
  dispatched = omega (arith, h.0.dispatches, h.1);
  ids = h.0.ids;
  once = λ id ours. (emptied invoke q r h id ours).0;
  only =
      Every-mono (Completed q r.0) (λ id. IsArmed q id × HasCallback (q.store id))
        (λ id was. (was.0, was.1)) h.0.ids h.0.members;
  order = h.0.order;
  calls = h.0.calls;
  refused = omega (arith, h.0.refused);
  failures = omega (arith, h.0.failures);
  free = λ id ours. (emptied invoke q r h id ours).1;
  others = λ id away. elim (h.0.fates id) [
    | inl (_, stayed) ↦ stayed
    | inr (_, (ours, _, _)) ↦ absurd (away ours)
  ];
}

-- cancel_all, on the owner's thread, returns, and by then it has completed every timer that was
-- armed: each left the queue and is free again, and its own callback was called once, with its
-- context and Cancelled, in the order of the deadlines and then the sequence numbers. No other
-- callback was called, and no other registration changed, its heap index aside; the heap is empty,
-- the count is that of the timers, and the failures are the calls that were answered with false. On another thread it
-- does nothing.
pub cancel_all-IsEmpty :
    (invoke : Callbacks) (q : TimerQueue) (current : ℕ)
    → IsQueue q
    → Ensures
        (λ r.
          ((on_owner_thread q current ≡ false) × (r ≡ (q, no_result)))
          ⊎ ((on_owner_thread q current ≡ true) × AllCancelled invoke q r.0 r.1))
        (cancel_all invoke q current)
cancel_all-IsEmpty invoke q current w = elim (Bool-cases (on_owner_thread q current)) [
  | inr elsewhere ↦ rw (cancel_all-elsewhere invoke q current elsewhere) (inl (elsewhere, refl))
  | inl on ↦ rw (cancel_all-here invoke q current on) (
      Ensures-mono (Cancelled invoke q no_result) _
        (cancel_loop (length q.heap + 1) invoke q no_result)
        (cancel_loop-Cancelled (length q.heap + 1) invoke q no_result w (omega arith))
        (λ r h. inr (on, Cancelled-AllCancelled invoke q r h)))
]
