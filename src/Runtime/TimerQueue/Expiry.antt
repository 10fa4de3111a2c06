-- ===== src/Runtime/TimerQueue/Expiry.antt =====
-- next_deadline, expire, cancel_all and the destructor of runtime/TimerQueue.cpp.
use dns_pro.Base.{
  ℕ, zero, suc, ◌+◌, Bool, true, false, not, ◌&&◌, ◌||◌, Option, none, some, List, [], ◌∷◌, ◌++◌,
  ltb, leb, if◌then◌else◌, length, get_elem?, Outcome, ok, out_of_fuel, ◌>>=◌,
}
use dns_pro.Runtime.TimerQueue.{
  TimerRegistration, Call, TimerQueue, TimerCompletion, expired, cancelled, on_owner_thread,
  is_empty, remove_at, forget_callback, count_failure,
}

unfoldable pub next_deadline : TimerQueue → Option ℕ
next_deadline q = elim (get_elem? q.heap 0) [ none ↦ none | some id ↦ some ((q.store id).deadline) ]

pub record DispatchResult : Type 0 where
  pub dispatched : ℕ
  pub schedule_failures : ℕ
  pub has_due : Bool

abbrev pub no_result : DispatchResult
no_result = record { dispatched = 0; schedule_failures = 0; has_due = false }

-- What the callbacks answer to a call, after the calls before it. They leave the queue alone.
abbrev pub Callbacks : Type 0
Callbacks = List Call → Call → Bool

-- callback != nullptr && callback(context, completion)
unfoldable pub call_back :
    Callbacks → TimerQueue → Option ℕ → Option ℕ → TimerCompletion → Bool × TimerQueue
call_back invoke q none context completion = (false, q)
call_back invoke q (some callback) context completion =
    let call : Call = record { callback = callback; context = context; completion = completion } in
    (invoke q.calls call, record q { calls = q.calls ++ call ∷ [] })

unfoldable pub count_dispatch : Bool → TimerQueue → DispatchResult → TimerQueue × DispatchResult
count_dispatch true q result = (q, record result { dispatched = result.dispatched + 1 })
count_dispatch false q result = (
  count_failure q,
  record result {
    dispatched = result.dispatched + 1;
    schedule_failures = result.schedule_failures + 1;
  },
)

unfoldable pub complete_front :
    Callbacks
    → TimerQueue
    → TimerCompletion
    → DispatchResult
    → Outcome ⊥ (TimerQueue × DispatchResult)
complete_front invoke q completion result = remove_at q 0 >>= λ r.
    let registration : TimerRegistration = r.1.store r.0 in
    let called : Bool × TimerQueue =
      call_back invoke (forget_callback r.1 r.0) registration.completion registration.context
        completion in
    ok (count_dispatch called.0 called.1 result)

-- !heap_.empty() && heap_.front()->deadline_ <= now
unfoldable pub front_is_due : TimerQueue → ℕ → Bool
front_is_due q now = elim (next_deadline q) [ none ↦ false | some deadline ↦ leb deadline now ]

-- The loop of expire, within a budget.
unfoldable pub expire_loop :
    ℕ → Callbacks → TimerQueue → ℕ → ℕ → DispatchResult → Outcome ⊥ (TimerQueue × DispatchResult)
expire_loop zero invoke q now budget result = out_of_fuel
expire_loop (suc fuel) invoke q now budget result =
    elim (ltb result.dispatched budget && front_is_due q now) [
      | false ↦ ok (q, result)
      | true ↦
          complete_front invoke q expired result >>= λ r. expire_loop fuel invoke r.0 now budget r.1
    ]

unfoldable pub expire : Callbacks → TimerQueue → ℕ → ℕ → ℕ → Outcome ⊥ (TimerQueue × DispatchResult)
expire invoke q current now budget =
    if not q.running || not (on_owner_thread q current)
    then ok (q, no_result)
    else (expire_loop (length q.heap + 1) invoke q now budget no_result >>= λ r.
        ok (r.0, record r.1 { has_due = front_is_due r.0 now }))

unfoldable pub cancel_loop :
    ℕ → Callbacks → TimerQueue → DispatchResult → Outcome ⊥ (TimerQueue × DispatchResult)
cancel_loop zero invoke q result = out_of_fuel
cancel_loop (suc fuel) invoke q result = elim (is_empty q) [
  | true ↦ ok (q, result)
  | false ↦ complete_front invoke q cancelled result >>= λ r. cancel_loop fuel invoke r.0 r.1
]

unfoldable pub cancel_all : Callbacks → TimerQueue → ℕ → Outcome ⊥ (TimerQueue × DispatchResult)
cancel_all invoke q current =
    if not q.running || not (on_owner_thread q current)
    then ok (q, no_result)
    else cancel_loop (length q.heap + 1) invoke q no_result

-- The destructor of the queue.
unfoldable pub detach_loop : ℕ → TimerQueue → Outcome ⊥ TimerQueue
detach_loop zero q = out_of_fuel
detach_loop (suc fuel) q = elim (is_empty q) [
  | true ↦ ok q
  | false ↦ remove_at q 0 >>= λ r. detach_loop fuel (forget_callback r.1 r.0)
]
