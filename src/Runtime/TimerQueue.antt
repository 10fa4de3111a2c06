-- ===== src/Runtime/TimerQueue.antt =====
-- runtime/TimerQueue.h and runtime/TimerQueue.cpp: a binary heap of borrowed registrations. A
-- registration is named by a number, its address, and lies in a store; a time point is the count of
-- nanoseconds since TimePoint::min(), so that the clock's epoch is 2 ^ 63.
pub mod Arming
pub mod Expiry
pub mod Calls
pub mod Order
pub mod Nodes
pub mod Sift
pub mod Remove
pub mod Detach
pub mod Leave
pub mod Arm
pub mod Front
pub mod Completed
pub mod Completion
pub mod Dispatch
pub mod Wait
pub mod Lifecycle
use dns_pro.Base.{
  ℕ, zero, suc, ◌>>◌, ◌+◌, ◌-◌, ◌*◌, ◌/◌, ◌^◌, Bool, true, false, not, ◌&&◌, ◌||◌, Option, none,
  some, List, [], ltb, leb, ◌==◌, if◌then◌else◌, length, get_elem?, take, set, Outcome, ok,
  out_of_fuel, ◌>>=◌, in_bounds,
}

pub data TimerCompletion : Type 0 where
  expired cancelled : TimerCompletion

-- The owner of a registration, as this queue sees it.
pub data Owner : Type 0 where
  no_queue this_queue another_queue : Owner

pub record TimerRegistration : Type 0 where
  pub owner : Owner
  pub deadline : ℕ
  pub sequence : ℕ
  pub heap_index : ℕ
  pub completion : Option ℕ
  pub context : Option ℕ

abbrev pub not_in_heap : ℕ
not_in_heap = 2 ^ 64 - 1

pub data ArmResult : Type 0 where
  armed not_running closed wrong_thread already_armed invalid_callback : ArmResult

abbrev pub Store : Type 0
Store = ℕ → TimerRegistration

unfoldable pub assign : Store → ℕ → TimerRegistration → Store
assign store id registration other = if id == other then registration else store other

-- A call of a callback.
pub record Call : Type 0 where
  pub callback : ℕ
  pub context : Option ℕ
  pub completion : TimerCompletion

-- calls are not kept by the code: they record the callbacks that were called with so far.
pub record TimerQueue : Type 0 where
  pub heap : List ℕ
  pub store : Store
  pub scheduler : Option ℕ
  pub owner_thread : Option ℕ
  pub next_sequence : ℕ
  pub invariant_failures : ℕ
  pub running : Bool
  pub accepting : Bool
  pub calls : List Call

-- A queue before its start, with the registrations that its clients have.
abbrev pub new_queue : Store → TimerQueue
new_queue store = record {
  heap = [];
  store = store;
  scheduler = none;
  owner_thread = none;
  next_sequence = 0;
  invariant_failures = 0;
  running = false;
  accepting = false;
  calls = [];
}

abbrev pub is_empty : TimerQueue → Bool
is_empty q = length q.heap == 0

abbrev pub same_thread : Option ℕ → ℕ → Bool
same_thread none current = false
same_thread (some thread) current = thread == current

unfoldable pub on_owner_thread : TimerQueue → ℕ → Bool
on_owner_thread q current = q.running && same_thread q.owner_thread current

-- scheduler.owns_current_thread() is the third argument.
unfoldable pub start : TimerQueue → ℕ → Bool → ℕ → Bool × TimerQueue
start q scheduler owns_current_thread current =
    if q.running || not (is_empty q) || not owns_current_thread then (false, q) else (
      true,
      record q {
        scheduler = some scheduler;
        owner_thread = some current;
        next_sequence = 0;
        invariant_failures = 0;
        running = true;
        accepting = true;
      },
    )

unfoldable pub close : TimerQueue → ℕ → Bool × TimerQueue
close q current =
    if q.running && not (on_owner_thread q current)
    then (false, q)
    else (true, record q { accepting = false })

unfoldable pub stop : TimerQueue → ℕ → Bool × TimerQueue
stop q current =
    if q.running && not (on_owner_thread q current)
    then (false, q)
    else if not (is_empty q)
    then (false, q)
    else (
      true,
      record q { scheduler = none; owner_thread = none; running = false; accepting = false },
    )

unfoldable pub earlier : TimerRegistration → TimerRegistration → Bool
earlier left right =
    if left.deadline == right.deadline
    then ltb left.sequence right.sequence
    else ltb left.deadline right.deadline

abbrev pub node : TimerQueue → ℕ → Outcome ⊥ ℕ
node q index = in_bounds (get_elem? q.heap index)

-- heap_[index] = registration; registration->heap_index_ = index
unfoldable pub place : TimerQueue → ℕ → ℕ → TimerQueue
place q index id = record q {
  heap = set q.heap index id;
  store = assign q.store id (record (q.store id) { heap_index = index });
}

unfoldable pub swap_nodes : TimerQueue → ℕ → ℕ → Outcome ⊥ TimerQueue
swap_nodes q left right = do a ← node q left; b ← node q right; ok (place (place q left b) right a)

abbrev pub earlier_nodes : TimerQueue → ℕ → ℕ → Outcome ⊥ Bool
earlier_nodes q left right = do
  a ← node q left
  b ← node q right
  ok (earlier (q.store a) (q.store b))

unfoldable pub sift_up : ℕ → TimerQueue → ℕ → Outcome ⊥ TimerQueue
sift_up zero q index = out_of_fuel
sift_up (suc fuel) q index = elim (index == 0) [
  | true ↦ ok q
  | false ↦ earlier_nodes q index ((index - 1) / 2) >>= λ rises. elim rises [
    | false ↦ ok q
    | true ↦
        swap_nodes q index ((index - 1) / 2) >>= λ swapped. sift_up fuel swapped ((index - 1) / 2)
  ]
]

-- The earlier of the children of a node, the left one of which is inside.
unfoldable pub earliest_child : TimerQueue → ℕ → Outcome ⊥ ℕ
earliest_child q index =
    if ltb (index * 2 + 2) (length q.heap)
    then (earlier_nodes q (index * 2 + 2) (index * 2 + 1) >>= λ right_first.
        ok (if right_first then index * 2 + 2 else index * 2 + 1))
    else ok (index * 2 + 1)

unfoldable pub sift_down : ℕ → TimerQueue → ℕ → Outcome ⊥ TimerQueue
sift_down zero q index = out_of_fuel
sift_down (suc fuel) q index = elim (leb (length q.heap) (index * 2 + 1)) [
  | true ↦ ok q
  | false ↦ earliest_child q index >>= λ earliest. earlier_nodes q earliest index >>= λ sinks.
      elim sinks [
        | false ↦ ok q
        | true ↦ swap_nodes q index earliest >>= λ swapped. sift_down fuel swapped earliest
      ]
]

-- The node at an index goes up or down to its place.
unfoldable pub sift : TimerQueue → ℕ → Outcome ⊥ TimerQueue
sift q index =
    if index == 0
    then sift_down (length q.heap + 1) q index
    else (earlier_nodes q index ((index - 1) / 2) >>= λ rises.
        if rises then sift_up (index + 1) q index else sift_down (length q.heap + 1) q index)

-- owner_ = nullptr; heap_index_ = not_in_heap
unfoldable pub release : TimerQueue → ℕ → TimerQueue
release q id = record q {
  store = assign q.store id (record (q.store id) { owner = no_queue; heap_index = not_in_heap });
}

unfoldable pub remove_at : TimerQueue → ℕ → Outcome ⊥ (ℕ × TimerQueue)
remove_at q index = do
  removed ← node q index
  tail ← node q (length q.heap - 1)
  let popped : TimerQueue = record q { heap = take (length q.heap - 1) q.heap }
  sifted ←
      (if ltb index (length popped.heap) then sift (place popped index tail) index else ok popped)
  ok (removed, release sifted removed)

-- completion_ = nullptr; context_ = nullptr
unfoldable pub forget_callback : TimerQueue → ℕ → TimerQueue
forget_callback q id = record q {
  store = assign q.store id (record (q.store id) { completion = none; context = none });
}

abbrev pub count_failure : TimerQueue → TimerQueue
count_failure q = record q { invariant_failures = q.invariant_failures + 1 }
