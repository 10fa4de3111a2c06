-- ===== src/Runtime/TimerQueue/Completion.antt =====
-- complete_front: the front of the heap leaves, and its callback is called.
use dns_pro.Base.{
  ℕ, ◌+◌, ◌≤◌, ◌≡◌, refl, sym, ap, ◌∙◌, subst, ◌⊎◌, inl, inr, Bool, true, false, some, List, [],
  ◌∷◌, ◌++◌, arith, get_elem?, Ensures, Ensures-bind,
}
use dns_pro.Runtime.TimerQueue.{
  TimerRegistration, TimerQueue, Call, no_queue, not_in_heap, TimerCompletion, remove_at,
  forget_callback,
}
use dns_pro.Runtime.TimerQueue.Expiry.{
  DispatchResult, Callbacks, complete_front, count_dispatch, call_back,
}
use dns_pro.Runtime.TimerQueue.Calls.{times, call_of, refusals}
use dns_pro.Runtime.TimerQueue.Nodes.{rank}
use dns_pro.Runtime.TimerQueue.Remove.{IsQueue, same-cases, owners-apart}
use dns_pro.Runtime.TimerQueue.Detach.{remove_at-Removed}
use dns_pro.Runtime.TimerQueue.Leave.{Stayed, Left, forget-Left}
use dns_pro.Runtime.TimerQueue.Front.{IsArmed, front-IsArmed, front_rank}
use dns_pro.Runtime.TimerQueue.Completed.{WasDispatched, Dispatched}

-- A queue with other counts of failures and another record of its calls.
recounted-IsQueue :
    (q : TimerQueue) (failures : ℕ) (calls : List Call)
    → IsQueue q
    → IsQueue (record q { invariant_failures = failures; calls = calls })
recounted-IsQueue q failures calls w = record {
  valid = record { placed = w.valid.placed; numbered = w.valid.numbered };
  ordered = w.ordered;
  owned = w.owned;
  heaped = w.heaped;
  apart = w.apart;
  word = w.word;
  called = w.called;
}

module _ (P : ℕ → Type 0) (q : TimerQueue) (w : IsQueue q) (id : ℕ)
    (front : get_elem? q.heap 0 ≡ some id) (p : P (q.store id).deadline) where
  Left-fates :
      (after : TimerQueue)
      → Left q id after
      → (other : ℕ)
      → ((times other (id ∷ []) ≡ 0) × Stayed q after other)
        ⊎ ((times other (id ∷ []) ≡ 1) × WasDispatched P q after other)
  Left-fates after h other = elim (same-cases other id) [
    | inl same ↦ inr (
      ground (arith, same),
      subst (WasDispatched P q after) (sym same) (front-IsArmed q w id front, p, h.gone),
    )
    | inr differs ↦ inl (ground (arith, differs), h.others other differs)
  ]

  Left-earliest :
      (after : TimerQueue)
      → Left q id after
      → (a b : ℕ) → IsArmed q a
      → ¬ IsArmed after a
      → IsArmed after b
      → rank (q.store a) ≤ rank (q.store b)
  Left-earliest after h a b ours not_ours theirs =
      let armed_b : IsArmed q b = elim (Left-fates after h b) [
        | inl (_, stayed) ↦ sym (ap TimerRegistration.owner stayed) ∙ theirs
        | inr (_, (was, _, _)) ↦ was
      ] in
      elim (same-cases a id) [
        | inl same ↦
            subst (λ t. rank (q.store t) ≤ rank (q.store b)) (sym same)
              (front_rank q w id front b armed_b)
        | inr differs ↦ absurd (not_ours (ap TimerRegistration.owner (h.others a differs) ∙ ours))
      ]

  module _ (invoke : Callbacks) (completion : TimerCompletion) where
    abbrev front_call : Call
    front_call = call_of completion (q.store id)

    -- What a callback that answered in some way leaves, and what is counted.
    called-Dispatched :
        (after : TimerQueue) (failures : ℕ) (start result : DispatchResult)
        → Left q id after
        → failures + start.schedule_failures ≡ q.invariant_failures + result.schedule_failures
        → result.dispatched ≡ start.dispatched + 1
        → result.schedule_failures
          ≡ start.schedule_failures + refusals invoke q.calls (front_call ∷ [])
        → Dispatched invoke completion P q
            (record after { invariant_failures = failures; calls = q.calls ++ front_call ∷ [] })
            start
            result
    called-Dispatched after failures start result h counted one refused = record {
      valid = recounted-IsQueue after failures (q.calls ++ front_call ∷ []) h.valid;
      rest =
          ap
            (λ (x : TimerQueue). record x {
              invariant_failures = failures;
              calls = q.calls ++ front_call ∷ [];
            })
            h.rest;
      failures = counted;
      dispatches = omega (arith, h.same_size, one);
      ids = id ∷ [];
      calls = refl;
      refused = refused;
      members = (
        (
          front-IsArmed q w id front,
          w.called id (front-IsArmed q w id front),
          λ still. owners-apart (sym still ∙ ap TimerRegistration.owner h.gone),
        ),
        tt,
      );
      order = (tt, tt);
      fates = Left-fates after h;
      earliest = Left-earliest after h;
    }

    -- The front's callback was called in a queue that it had left.
    count_dispatch-Dispatched :
        (success : Bool) (after : TimerQueue) (result : DispatchResult)
        → Left q id after
        → invoke q.calls front_call ≡ success
        → let counted : TimerQueue × DispatchResult =
            count_dispatch success (record after { calls = q.calls ++ front_call ∷ [] }) result in
          Dispatched invoke completion P q counted.0 result counted.1
          × (counted.1.dispatched ≡ result.dispatched + 1)
    unfolding count_dispatch
    count_dispatch-Dispatched true after result h answer = (
      called-Dispatched after after.invariant_failures result _ h
          (ap (λ t. t + result.schedule_failures) (ap TimerQueue.invariant_failures h.rest)) refl
          (ground (arith, answer)),
      refl,
    )
    count_dispatch-Dispatched false after result h answer = (
      called-Dispatched after (after.invariant_failures + 1) result _ h
          (omega (arith, ap TimerQueue.invariant_failures h.rest)) refl (ground (arith, answer)),
      refl,
    )

    -- The callback that is called is that of the front.
    call_back_lem :
        (after : TimerQueue) (r : TimerRegistration)
        → after.calls ≡ q.calls
        → (r.completion ≡ (q.store id).completion)
        → (r.context ≡ (q.store id).context)
        → call_back invoke after r.completion r.context completion
          ≡ (invoke q.calls front_call, record after { calls = q.calls ++ front_call ∷ [] })
    unfolding call_back
    call_back_lem after r same_calls same_completion same_context =
        let (callback, given) = w.called id (front-IsArmed q w id front) in
        rw (same_completion, same_context, given, same_calls) refl

    pub complete_front-Dispatched :
        (result : DispatchResult)
        → Ensures
            (λ r.
              Dispatched invoke completion P q r.0 result r.1
              × (r.1.dispatched ≡ result.dispatched + 1))
            (complete_front invoke q completion result)
    unfolding complete_front forget_callback
    complete_front-Dispatched result =
        Ensures-bind _ _ (remove_at q 0) _ (remove_at-Removed q w 0 id front) (λ r h.
          let gone =
            subst
              (λ t.
                r.1.store t ≡ record (q.store id) { owner = no_queue; heap_index = not_in_heap })
              (sym h.0) h.1.gone in
          let left =
            subst (λ t. Left q id (forget_callback r.1 t)) (sym h.0) (forget-Left q id r.1 h.1) in
          rw
            (call_back_lem (forget_callback r.1 r.0) (r.1.store r.0) (ap TimerQueue.calls h.1.rest)
              (ap TimerRegistration.completion gone) (ap TimerRegistration.context gone))
            (count_dispatch-Dispatched _ (forget_callback r.1 r.0) result left refl))
