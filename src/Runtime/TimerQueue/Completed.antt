-- ===== src/Runtime/TimerQueue/Completed.antt =====
-- What it is for timers to be completed, one after the other, and that such runs compose.
use dns_pro.Base.{
  ℕ, ◌+◌, ◌≤◌, ◌≡◌, refl, sym, ap, ap₂, ◌∙◌, subst, ◌⊎◌, inl, inr, List, [], ◌++◌, append-nil,
  append_assoc, map-append, arith, length,
}
use dns_pro.Runtime.TimerQueue.{
  TimerRegistration, TimerQueue, Call, no_queue, TimerCompletion, cancelled,
}
use dns_pro.Runtime.TimerQueue.Expiry.{DispatchResult, Callbacks}
use dns_pro.Runtime.TimerQueue.Calls.{
  Every, Every-mono, Every-append, times, times-append, Ascending, Ascending-append,
  Ascending-agree, call_of, calls_of, calls_of-agree, refusals, refusals-append,
}
use dns_pro.Runtime.TimerQueue.Nodes.{rank}
use dns_pro.Runtime.TimerQueue.Remove.{IsQueue, HasCallback, owners-apart}
use dns_pro.Runtime.TimerQueue.Leave.{Stayed, detached}
use dns_pro.Runtime.TimerQueue.Front.{IsArmed}

abbrev pub WasDispatched : (ℕ → Type 0) → TimerQueue → TimerQueue → ℕ → Type 0
WasDispatched P before after id =
    IsArmed before id × P (before.store id).deadline × (after.store id ≡ detached (before.store id))

-- What holds of a timer that was completed.
abbrev pub Completed : TimerQueue → TimerQueue → ℕ → Type 0
Completed before after id = IsArmed before id × HasCallback (before.store id) × ¬ IsArmed after id

-- The earliest timers, ids, with deadlines of which P holds, left the queue one after the other, the
-- own callback of each was called once, in that order, and the others stayed.
pub record Dispatched (invoke : Callbacks) (completion : TimerCompletion) (P : ℕ → Type 0)
    (before after : TimerQueue) (start result : DispatchResult) : Type 0 where
  pub valid : IsQueue after
  pub rest : after ≡ record before {
    heap = after.heap;
    store = after.store;
    invariant_failures = after.invariant_failures;
    calls = after.calls;
  }
  pub failures :
      after.invariant_failures + start.schedule_failures
      ≡ before.invariant_failures + result.schedule_failures
  pub dispatches : length after.heap + result.dispatched ≡ length before.heap + start.dispatched
  pub ids : List ℕ
  pub calls : after.calls ≡ before.calls ++ calls_of completion before.store ids
  pub refused :
      result.schedule_failures
      ≡ start.schedule_failures
        + refusals invoke before.calls (calls_of completion before.store ids)
  pub members : Every (Completed before after) ids
  pub order : Ascending before.store ids
  pub fates :
      (id : ℕ)
      → ((times id ids ≡ 0) × Stayed before after id)
        ⊎ ((times id ids ≡ 1) × WasDispatched P before after id)
  pub earliest :
      (a b : ℕ)
      → IsArmed before a
      → ¬ IsArmed after a
      → IsArmed after b
      → rank (before.store a) ≤ rank (before.store b)

pub Dispatched-refl :
    (invoke : Callbacks) (completion : TimerCompletion) (P : ℕ → Type 0) (q : TimerQueue)
    (result : DispatchResult)
    → IsQueue q
    → Dispatched invoke completion P q q result result
Dispatched-refl invoke completion P q result w = record {
  valid = w;
  rest = refl;
  failures = refl;
  dispatches = refl;
  ids = [];
  calls = sym (append-nil q.calls);
  refused = omega arith;
  members = tt;
  order = tt;
  fates = λ id. inl (refl, refl);
  earliest = λ a b ours not_ours theirs. absurd (not_ours ours);
}

-- A timer that is armed after some completions was armed before, and stayed.
pub IsArmed-stays :
    (invoke : Callbacks) (completion : TimerCompletion) (P : ℕ → Type 0) (a b : TimerQueue)
    (r s : DispatchResult)
    → Dispatched invoke completion P a b r s
    → (id : ℕ) → IsArmed b id
    → IsArmed a id × Stayed a b id
IsArmed-stays invoke completion P a b r s h id ours = elim (h.fates id) [
  | inl (_, stayed) ↦ (sym (ap TimerRegistration.owner stayed) ∙ ours, stayed)
  | inr (_, (_, _, gone)) ↦ absurd (owners-apart (sym ours ∙ ap TimerRegistration.owner gone))
]

module _ (invoke : Callbacks) (completion : TimerCompletion) (P : ℕ → Type 0) (a b c : TimerQueue)
    (r s t : DispatchResult) (h : Dispatched invoke completion P a b r s)
    (k : Dispatched invoke completion P b c s t) where
  abbrev both : List ℕ
  both = h.ids ++ k.ids

  stays_b : (id : ℕ) → IsArmed b id → IsArmed a id × Stayed a b id
  stays_b = IsArmed-stays invoke completion P a b r s h

  stays_c : (id : ℕ) → IsArmed c id → IsArmed b id × Stayed b c id
  stays_c = IsArmed-stays invoke completion P b c s t k

  fates_trans :
      (id : ℕ)
      → ((times id both ≡ 0) × Stayed a c id) ⊎ ((times id both ≡ 1) × WasDispatched P a c id)
  fates_trans id = elim (h.fates id) [
    | inl (never, stayed) ↦ elim (k.fates id) [
      | inl (never', stayed') ↦ inl (
        omega (arith, never, never', times-append id h.ids k.ids),
        stayed'
            ∙ ap (λ (x : TimerRegistration). record x { heap_index = (c.store id).heap_index })
                stayed,
      )
      | inr (once, (ours, p, gone)) ↦ inr (
        omega (arith, never, once, times-append id h.ids k.ids),
        (
          sym (ap TimerRegistration.owner stayed) ∙ ours,
          subst P (ap TimerRegistration.deadline stayed) p,
          gone ∙ ap detached stayed,
        ),
      )
    ]
    | inr (once, (ours, p, gone)) ↦ elim (k.fates id) [
      | inl (never, stayed) ↦
          let free : (c.store id).owner ≡ no_queue =
            ap TimerRegistration.owner stayed ∙ ap TimerRegistration.owner gone in
          inr (
            omega (arith, never, once, times-append id h.ids k.ids),
            (
              ours,
              p,
              stayed
                  ∙ ap₂ (λ (x : TimerRegistration) (i : ℕ). record x { heap_index = i }) gone
                      (k.valid.apart id free),
            ),
          )
      | inr (_, (theirs, _, _)) ↦
          absurd (owners-apart (sym theirs ∙ ap TimerRegistration.owner gone))
    ]
  ]

  earliest_trans :
      (x y : ℕ) → IsArmed a x → ¬ IsArmed c x → IsArmed c y → rank (a.store x) ≤ rank (a.store y)
  earliest_trans x y ours not_ours theirs =
      let theirs_b = stays_c y theirs in
      let theirs_a = stays_b y theirs_b.0 in
      elim (h.fates x) [
        | inl (_, stayed) ↦
            let ours_b : IsArmed b x = ap TimerRegistration.owner stayed ∙ ours in
            omega (arith, k.earliest x y ours_b not_ours theirs, ap rank theirs_a.1, ap rank stayed)
        | inr (_, (_, _, gone)) ↦
            h.earliest x y ours
              (λ still. owners-apart (sym still ∙ ap TimerRegistration.owner gone)) theirs_b.0
      ]

  agree : calls_of completion b.store k.ids ≡ calls_of completion a.store k.ids
  agree = calls_of-agree completion b.store a.store k.ids (
      Every-mono (Completed b c)
        (λ id. call_of completion (b.store id) ≡ call_of completion (a.store id))
        (λ id was. ap (call_of completion) (stays_b id was.0).1) k.ids k.members)

  calls_both :
      calls_of completion a.store both
      ≡ calls_of completion a.store h.ids ++ calls_of completion b.store k.ids
  calls_both =
      map-append (λ id. call_of completion (a.store id)) h.ids k.ids
      ∙ ap (λ (cs : List Call). calls_of completion a.store h.ids ++ cs) (sym agree)

  calls_trans : c.calls ≡ a.calls ++ calls_of completion a.store both
  calls_trans =
      k.calls
      ∙ ap (λ (cs : List Call). cs ++ calls_of completion b.store k.ids) h.calls
      ∙ append_assoc a.calls (calls_of completion a.store h.ids) (calls_of completion b.store k.ids)
      ∙ ap (λ (cs : List Call). a.calls ++ cs) (sym calls_both)

  refused_trans :
      t.schedule_failures
      ≡ r.schedule_failures + refusals invoke a.calls (calls_of completion a.store both)
  refused_trans =
      let split =
        refusals-append invoke a.calls (calls_of completion a.store h.ids)
          (calls_of completion b.store k.ids) in
      let whole = ap (λ (cs : List Call). refusals invoke a.calls cs) calls_both in
      let later =
        ap (λ (e : List Call). refusals invoke e (calls_of completion b.store k.ids)) h.calls in
      omega (arith, h.refused, k.refused, split, whole, later)

  members_trans : Every (Completed a c) both
  members_trans =
      Every-append (Completed a c) h.ids k.ids
        (Every-mono (Completed a b) (Completed a c)
          (λ id (ours, callback, gone). (ours, callback, λ still. gone (stays_c id still).0)) h.ids
          h.members)
        (Every-mono (Completed b c) (Completed a c)
          (λ id (ours, (callback, given), gone).
            let (was, stayed) = stays_b id ours in
            (was, (callback, sym (ap TimerRegistration.completion stayed) ∙ given), gone))
          k.ids k.members)

  order_trans : Ascending a.store both
  order_trans =
      Ascending-append a.store h.ids k.ids h.order
        (Ascending-agree b.store a.store k.ids
          (Every-mono (Completed b c) (λ id. rank (b.store id) ≡ rank (a.store id))
            (λ id was. ap rank (stays_b id was.0).1) k.ids k.members)
          k.order)
        (Every-mono (Completed a b) (λ x. Every (λ y. rank (a.store x) ≤ rank (a.store y)) k.ids)
          (λ x (ours, _, gone).
            Every-mono (Completed b c) (λ y. rank (a.store x) ≤ rank (a.store y))
              (λ y was. h.earliest x y ours gone was.0) k.ids k.members)
          h.ids h.members)

  pub Dispatched-trans : Dispatched invoke completion P a c r t
  Dispatched-trans = record {
    valid = k.valid;
    rest =
        k.rest
        ∙ ap
            (λ (q : TimerQueue). record q {
              heap = c.heap;
              store = c.store;
              invariant_failures = c.invariant_failures;
              calls = c.calls;
            })
            h.rest;
    failures = omega (arith, h.failures, k.failures);
    dispatches = omega (arith, h.dispatches, k.dispatches);
    ids = both;
    calls = calls_trans;
    refused = refused_trans;
    members = members_trans;
    order = order_trans;
    fates = fates_trans;
    earliest = earliest_trans;
  }

-- What cancel_all leaves of a queue: an empty heap. The armed timers, ids, were completed, each of
-- them once, by a call of its own callback with Cancelled, by their deadlines and then their
-- sequence numbers; the failures are the calls that were answered with false.
pub record AllCancelled (invoke : Callbacks) (before after : TimerQueue) (result : DispatchResult)
    : Type 0 where
  pub valid : IsQueue after
  pub rest : after ≡ record before {
    heap = after.heap;
    store = after.store;
    invariant_failures = after.invariant_failures;
    calls = after.calls;
  }
  pub nothing : length after.heap ≡ 0
  pub dispatched : result.dispatched ≡ length before.heap
  pub ids : List ℕ
  pub once : (id : ℕ) → IsArmed before id → times id ids ≡ 1
  pub only : Every (λ id. IsArmed before id × HasCallback (before.store id)) ids
  pub order : Ascending before.store ids
  pub calls : after.calls ≡ before.calls ++ calls_of cancelled before.store ids
  pub refused :
      result.schedule_failures ≡ refusals invoke before.calls (calls_of cancelled before.store ids)
  pub failures : after.invariant_failures ≡ before.invariant_failures + result.schedule_failures
  pub free : (id : ℕ) → IsArmed before id → after.store id ≡ detached (before.store id)
  pub others : (id : ℕ) → ¬ IsArmed before id → Stayed before after id
