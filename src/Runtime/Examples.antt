-- ===== src/Runtime/Examples.antt =====
-- Runs of the runtime: a queue that is started on thread 7, and timers armed on it.
use dns_pro.Base.{
  ℕ, ◌+◌, ◌-◌, ◌^◌, ◌≤◌, ◌<◌, min, ◌≡◌, refl, ◌≢◌, ◌↔◌, ◌⊎◌, true, false, not, ◌&&◌, Option, none,
  some, [], ◌∷◌, arith, Outcome, ok, err, out_of_bounds, out_of_fuel, Ensures,
}
use dns_pro.Runtime.TimerQueue.{
  TimerQueue, Call, expired, cancelled, remove_at, sift, sift_down, earliest_child, release,
  forget_callback, no_queue, this_queue, not_in_heap, Store, new_queue, start, on_owner_thread,
  armed, ArmResult, sift_up, assign, earlier, swap_nodes, place,
}
use dns_pro.Runtime.TimerQueue.Arming.{arm, disarm, abandon, is_ours, arm_callback, enqueue}
use dns_pro.Runtime.TimerQueue.Expiry.{
  Callbacks, DispatchResult, expire, cancel_all, no_result, expire_loop, cancel_loop,
  complete_front, call_back, count_dispatch, front_is_due, next_deadline,
}
use dns_pro.Runtime.TimerQueue.Remove.{IsQueue}
use dns_pro.Runtime.TimerQueue.Leave.{Left, disarm-Left, abandon-Left}
use dns_pro.Runtime.TimerQueue.Arm.{Entered, may_arm, arm-Entered}
use dns_pro.Runtime.TimerQueue.Front.{IsArmed, Due}
use dns_pro.Runtime.TimerQueue.Completed.{Dispatched, AllCancelled}
use dns_pro.Runtime.TimerQueue.Dispatch.{NotAfter, expire-Dispatched, cancel_all-IsEmpty}
use dns_pro.Runtime.TimerQueue.Wait.{
  wait_timeout, wait_timeout_lem, int_max, ceil_milliseconds, sleep_deadline, sleep_deadline_lem,
  epoch,
}
use dns_pro.Runtime.TimerQueue.Lifecycle.{
  AreFresh, IsSound, Steps, starts, arms, done, more, Steps-new_queue,
}

abbrev fresh_store : Store
fresh_store id = record {
  owner = no_queue;
  deadline = 0;
  sequence = 0;
  heap_index = not_in_heap;
  completion = none;
  context = none;
}

fresh_store-AreFresh : AreFresh fresh_store
fresh_store-AreFresh id = (refl, refl, omega arith)

abbrev all_succeed : Callbacks
all_succeed calls call = true

abbrev thread : ℕ
thread = 7

abbrev started : TimerQueue
started = record (new_queue fresh_store) {
  scheduler = some 1;
  owner_thread = some thread;
  running = true;
  accepting = true;
}

start-started : start (new_queue fresh_store) 1 true thread ≡ (true, started)
unfolding start
start-started = refl

abbrev resulting : Outcome ⊥ (ArmResult × TimerQueue) → TimerQueue
resulting (ok r) = r.1
resulting (err e) = started
resulting out_of_bounds = started
resulting out_of_fuel = started

-- Two timers, the second one the earlier.
abbrev one_timer : TimerQueue
one_timer = resulting (arm started thread 1 2000 (some 3) none)

abbrev two_timers : TimerQueue
two_timers = resulting (arm one_timer thread 2 1000 (some 3) none)

armed_one : arm started thread 1 2000 (some 3) none ≡ ok (armed, one_timer)
unfolding arm on_owner_thread arm_callback enqueue sift_up assign
armed_one = refl

armed_two : arm one_timer thread 2 1000 (some 3) none ≡ ok (armed, two_timers)
unfolding arm on_owner_thread arm_callback enqueue sift_up assign earlier swap_nodes place
armed_two = refl

two_timers-heap : two_timers.heap ≡ 2 ∷ 1 ∷ []
unfolding arm on_owner_thread arm_callback enqueue sift_up assign earlier swap_nodes place
two_timers-heap = refl

two_timers-Steps : Steps all_succeed (new_queue fresh_store) two_timers
unfolding start
two_timers-Steps =
    more (new_queue fresh_store) started two_timers (starts (new_queue fresh_store) 1 true thread) (
      more started one_timer two_timers
        (arms started thread 1 2000 (some 3) none (armed, one_timer) armed_one)
        (more one_timer two_timers two_timers
          (arms one_timer thread 2 1000 (some 3) none (armed, two_timers) armed_two)
          (done two_timers)))

Steps-new_queue_example : IsSound two_timers
Steps-new_queue_example =
    Steps-new_queue all_succeed fresh_store two_timers fresh_store-AreFresh two_timers-Steps

two_timers-IsQueue : IsQueue two_timers
two_timers-IsQueue =
    (Steps-new_queue all_succeed fresh_store two_timers fresh_store-AreFresh two_timers-Steps).queue

abbrev given : Option ℕ
given = some 3

arm-Entered_example :
    Ensures
      (λ r.
        ((may_arm two_timers thread 5 ≡ true)
          × ((callback : ℕ) × (given ≡ some callback)
              × (r.0 ≡ armed)
              × Entered two_timers 5 500 callback none r.1))
        ⊎ (((may_arm two_timers thread 5 ≡ false) ⊎ (given ≡ none))
            × (r.0 ≢ armed)
            × (r.1 ≡ two_timers)))
      (arm two_timers thread 5 500 given none)
arm-Entered_example = arm-Entered two_timers thread 5 500 given none two_timers-IsQueue

disarm-Left_example :
    Ensures
      (λ r.
        ((on_owner_thread two_timers thread && is_ours (two_timers.store 2) ≡ true)
          × (r.0 ≡ true)
          × Left two_timers 2 r.1)
        ⊎ ((on_owner_thread two_timers thread && is_ours (two_timers.store 2) ≡ false)
            × (r ≡ (false, two_timers))))
      (disarm two_timers thread 2)
disarm-Left_example = disarm-Left two_timers thread 2 two_timers-IsQueue

abandon-Left_example :
    Ensures
      (λ r.
        (((two_timers.store 1).owner ≢ this_queue) × (r ≡ some two_timers))
        ⊎ (((two_timers.store 1).owner ≡ this_queue)
            × (two_timers.running && not (on_owner_thread two_timers 8) ≡ true)
            × (r ≡ none))
        ⊎ (((two_timers.store 1).owner ≡ this_queue)
            × (two_timers.running && not (on_owner_thread two_timers 8) ≡ false)
            × ((after : TimerQueue) × (r ≡ some after) × Left two_timers 1 after)))
      (abandon two_timers 8 1)
abandon-Left_example = abandon-Left two_timers 8 1 two_timers-IsQueue

expire-Dispatched_example :
    Ensures
      (λ r.
        ((on_owner_thread two_timers thread ≡ false) × (r ≡ (two_timers, no_result)))
        ⊎ ((on_owner_thread two_timers thread ≡ true)
            × Dispatched all_succeed expired (NotAfter 1500) two_timers r.0 no_result r.1
            × (r.1.dispatched ≤ 10)
            × ((r.1.dispatched ≡ 10) ⊎ ¬ Due r.0 1500)
            × ((r.1.has_due ≡ true) ↔ Due r.0 1500)))
      (expire all_succeed two_timers thread 1500 10)
expire-Dispatched_example =
    expire-Dispatched all_succeed two_timers thread 1500 10 two_timers-IsQueue

cancel_all-IsEmpty_example :
    Ensures
      (λ r.
        ((on_owner_thread two_timers thread ≡ false) × (r ≡ (two_timers, no_result)))
        ⊎ ((on_owner_thread two_timers thread ≡ true)
            × AllCancelled all_succeed two_timers r.0 r.1))
      (cancel_all all_succeed two_timers thread)
cancel_all-IsEmpty_example = cancel_all-IsEmpty all_succeed two_timers thread two_timers-IsQueue

abbrev dispatched_queue : Outcome ⊥ (TimerQueue × DispatchResult) → TimerQueue
dispatched_queue (ok r) = r.0
dispatched_queue (err e) = started
dispatched_queue out_of_bounds = started
dispatched_queue out_of_fuel = started

abbrev cancellation : Call
cancellation = record { callback = 3; context = none; completion = cancelled }

abbrev expiration : Call
expiration = record { callback = 3; context = none; completion = expired }

cancel_all-calls :
    (dispatched_queue (cancel_all all_succeed two_timers thread)).calls
    ≡ cancellation ∷ cancellation ∷ []
unfolding arm on_owner_thread arm_callback enqueue sift_up assign earlier swap_nodes place
    cancel_all cancel_loop complete_front call_back count_dispatch remove_at sift sift_down
    earliest_child release forget_callback
cancel_all-calls = refl

expire-calls :
    (dispatched_queue (expire all_succeed two_timers thread 1500 10)).calls ≡ expiration ∷ []
unfolding arm on_owner_thread arm_callback enqueue sift_up assign earlier swap_nodes place expire
    expire_loop complete_front call_back count_dispatch remove_at sift sift_down earliest_child
    release forget_callback front_is_due next_deadline
expire-calls = refl

two_timers_words : (id : ℕ) → (two_timers.store id).deadline < 2 ^ 64
unfolding arm on_owner_thread arm_callback enqueue sift_up assign earlier swap_nodes place
two_timers_words id = ground arith

wait_timeout_lem_example :
    ((wait_timeout two_timers 400 ≡ ok none) × ((id : ℕ) → ¬ IsArmed two_timers id))
    ⊎ ((id : ℕ) × IsArmed two_timers id
        × ((other : ℕ)
            → IsArmed two_timers other
            → (two_timers.store id).deadline ≤ (two_timers.store other).deadline)
        × (wait_timeout two_timers 400
            ≡ ok (some (min int_max (ceil_milliseconds ((two_timers.store id).deadline - 400))))))
wait_timeout_lem_example =
    wait_timeout_lem two_timers 400 two_timers-IsQueue two_timers_words (omega arith)

sleep_deadline_lem_example :
    sleep_deadline 1000 (epoch + 500) ≡ ok (min (2 ^ 64 - 1) (1000 + (epoch + 500 - epoch)))
sleep_deadline_lem_example = sleep_deadline_lem 1000 (epoch + 500) (omega arith) (omega arith)
