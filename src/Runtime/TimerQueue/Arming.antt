-- ===== src/Runtime/TimerQueue/Arming.antt =====
-- arm, disarm and abandon of runtime/TimerQueue.cpp.
use dns_pro.Base.{
  ℕ, ◌+◌, ◌%◌, ◌^◌, Bool, true, false, not, ◌&&◌, ◌||◌, Option, none, some, List, [], ◌∷◌, ◌++◌,
  ◌==◌, if◌then◌else◌, length, get_elem?, Outcome, ok, ◌>>=◌,
}
use dns_pro.Runtime.TimerQueue.{
  TimerRegistration, TimerQueue, no_queue, this_queue, another_queue, ArmResult, armed, not_running,
  closed, wrong_thread, already_armed, invalid_callback, not_in_heap, assign, on_owner_thread,
  sift_up, remove_at, release, forget_callback, count_failure,
}

abbrev pub is_free : TimerRegistration → Bool
is_free registration = elim registration.owner [
  | no_queue ↦ registration.heap_index == not_in_heap
  | this_queue ↦ false
  | another_queue ↦ false
]

abbrev pub is_ours : TimerRegistration → Bool
is_ours registration = elim registration.owner [
  | no_queue ↦ false
  | this_queue ↦ true
  | another_queue ↦ false
]

-- The queue with a registration behind its last node.
unfoldable pub enqueue : TimerQueue → ℕ → ℕ → ℕ → Option ℕ → TimerQueue
enqueue q id deadline callback context = record q {
  heap = q.heap ++ id ∷ [];
  next_sequence = (q.next_sequence + 1) % 2 ^ 64;
  store = assign q.store id (record {
    owner = this_queue;
    deadline = deadline;
    sequence = q.next_sequence;
    heap_index = length q.heap;
    completion = some callback;
    context = context;
  });
}

unfoldable pub arm_callback :
    TimerQueue → ℕ → ℕ → Option ℕ → Option ℕ → Outcome ⊥ (ArmResult × TimerQueue)
arm_callback q id deadline none context = ok (invalid_callback, q)
arm_callback q id deadline (some callback) context =
    sift_up (length q.heap + 1) (enqueue q id deadline callback context) (length q.heap)
    >>= λ after. ok (armed, after)

unfoldable pub arm :
    TimerQueue → ℕ → ℕ → ℕ → Option ℕ → Option ℕ → Outcome ⊥ (ArmResult × TimerQueue)
arm q current id deadline completion context =
    if not q.running
    then ok (not_running, q)
    else if not (on_owner_thread q current)
    then ok (wrong_thread, q)
    else if not q.accepting
    then ok (closed, q)
    else if not (is_free (q.store id))
    then ok (already_armed, q)
    else arm_callback q id deadline completion context

-- index < heap_.size() && heap_[index] == &registration
unfoldable pub is_at : TimerQueue → ℕ → ℕ → Bool
is_at q id index = elim (get_elem? q.heap index) [ none ↦ false | some found ↦ found == id ]

unfoldable pub disarm : TimerQueue → ℕ → ℕ → Outcome ⊥ (Bool × TimerQueue)
disarm q current id =
    if not q.running || not (on_owner_thread q current) || not (is_ours (q.store id))
    then ok (false, q)
    else if not (is_at q id (q.store id).heap_index)
    then ok (false, count_failure q)
    else remove_at q (q.store id).heap_index >>= λ r. ok (true, forget_callback r.1 id)

-- std::find over the heap.
unfoldable pub find_node : List ℕ → ℕ → Option ℕ
find_node [] id = none
find_node (found ∷ heap) id =
    if found == id
    then some 0
    else elim (find_node heap id) [ none ↦ none | some index ↦ some (index + 1) ]

unfoldable pub abandon_lost : TimerQueue → ℕ → Option ℕ → Outcome ⊥ TimerQueue
abandon_lost q id none = ok (count_failure (forget_callback (release q id) id))
abandon_lost q id (some index) =
    remove_at (count_failure q) index >>= λ r. ok (forget_callback r.1 id)

unfoldable pub remove_node : TimerQueue → ℕ → Outcome ⊥ TimerQueue
remove_node q id =
    if is_at q id (q.store id).heap_index
    then (remove_at q (q.store id).heap_index >>= λ r. ok (forget_callback r.1 id))
    else abandon_lost q id (find_node q.heap id)

-- The destructor of a registration; `none` is std::terminate.
unfoldable pub abandon : TimerQueue → ℕ → ℕ → Outcome ⊥ (Option TimerQueue)
abandon q current id =
    if not (is_ours (q.store id))
    then ok (some q)
    else if q.running && not (on_owner_thread q current)
    then ok none
    else (remove_node q id >>= λ after. ok (some after))
