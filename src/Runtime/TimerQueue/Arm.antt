-- ===== src/Runtime/TimerQueue/Arm.antt =====
-- arm: a timer enters the queue.
use dns_pro.Base.{
  ℕ, ◌+◌, ◌%◌, ◌^◌, ◌<◌, ◌≡◌, refl, sym, ap, ◌∙◌, subst, ◌≢◌, ◌⊎◌, inl, inr, Bool, true, false,
  ◌&&◌, Option, none, some, [], ◌∷◌, arith, ◌==◌, Bool-cases, length, get_elem?, length-append,
  get_elem?-append_one, lt-get_elem?, ok, ◌>>=◌, Ensures, Ensures-bind,
}
use dns_pro.Runtime.TimerQueue.{
  TimerRegistration, TimerQueue, no_queue, this_queue, not_in_heap, sift_up, on_owner_thread,
  ArmResult, armed, not_running, wrong_thread, closed, already_armed, invalid_callback,
}
use dns_pro.Runtime.TimerQueue.Arming.{enqueue, is_free, arm, arm_callback}
use dns_pro.Runtime.TimerQueue.Order.{OrderedUp}
use dns_pro.Runtime.TimerQueue.Nodes.{
  rank, key, key_of, InHeap, IsPlaced, assign-same, assign-other,
}
use dns_pro.Runtime.TimerQueue.Sift.{Sifted, sift_up-Sifted}
use dns_pro.Runtime.TimerQueue.Remove.{IsQueue, HasCallback, same-cases, owners-apart}
use dns_pro.Runtime.TimerQueue.Leave.{Stayed, on_owner_thread-running}
use dns_pro.Protocol.Wire.Reads.{get_elem?-lt}

-- The registration of a timer that is armed, but for its place in the heap.
abbrev pub armed_registration : TimerQueue → ℕ → ℕ → Option ℕ → ℕ → TimerRegistration
armed_registration q deadline callback context index = record {
  owner = this_queue;
  deadline = deadline;
  sequence = q.next_sequence;
  heap_index = index;
  completion = some callback;
  context = context;
}

-- One timer entered the queue, and the others stayed.
pub record Entered (before : TimerQueue) (id deadline callback : ℕ) (context : Option ℕ)
    (after : TimerQueue) : Type 0 where
  pub valid : IsQueue after
  pub rest : after ≡ record before {
    heap = after.heap;
    store = after.store;
    next_sequence = (before.next_sequence + 1) % 2 ^ 64;
  }
  pub same_size : length after.heap ≡ length before.heap + 1
  pub entered :
      after.store id
      ≡ armed_registration before deadline callback context (after.store id).heap_index
  pub others : (other : ℕ) → other ≢ id → Stayed before after other

module _ (q : TimerQueue) (w : IsQueue q) (id deadline callback : ℕ) (context : Option ℕ)
    (away : (q.store id).owner ≢ this_queue) where
  abbrev queued : TimerQueue
  queued = enqueue q id deadline callback context

  abbrev fresh : TimerRegistration
  fresh = armed_registration q deadline callback context (length q.heap)

  queued-id : queued.store id ≡ fresh
  unfolding enqueue
  queued-id = assign-same q.store id fresh

  queued-other : (other : ℕ) → other ≢ id → queued.store other ≡ q.store other
  unfolding enqueue
  queued-other other differs = assign-other q.store id other fresh (λ e. differs (sym e))

  queued-size : length queued.heap ≡ length q.heap + 1
  unfolding enqueue
  queued-size = length-append q.heap (id ∷ [])

  not_in : ¬ InHeap q id
  not_in inside = away (w.heaped id inside)

  queued-node :
      (i other : ℕ)
      → get_elem? queued.heap i ≡ some other
      → ((i ≡ length q.heap) × (other ≡ id))
        ⊎ ((get_elem? q.heap i ≡ some other) × (other ≢ id) × (i < length q.heap))
  unfolding enqueue
  queued-node i other h =
      let split = sym (get_elem?-append_one q.heap id i) ∙ h in
      elim (Bool-cases (length q.heap == i)) [
        | inl at_end ↦ inl (ground (arith, at_end), ground (arith, split, at_end))
        | inr before_end ↦
            let here : get_elem? q.heap i ≡ some other = ground (arith, split, before_end) in
            inr (here, λ e. not_in (i, here ∙ ap some e), lt-get_elem? q.heap i other here)
      ]

  queued-old : (i : ℕ) → i < length q.heap → get_elem? queued.heap i ≡ get_elem? q.heap i
  unfolding enqueue
  queued-old i below = get_elem?-append_one q.heap id i ∙ ground (arith, below)

  queued-last : get_elem? queued.heap (length q.heap) ≡ some id
  unfolding enqueue
  queued-last = get_elem?-append_one q.heap id (length q.heap) ∙ ground arith

  queued-IsPlaced : IsPlaced queued
  queued-IsPlaced = record {
    placed = λ i other h. elim (queued-node i other h) [
      | inl (e, same) ↦
          subst (λ t. (queued.store t).heap_index ≡ i) (sym same)
            (ap TimerRegistration.heap_index queued-id ∙ sym e)
      | inr (here, differs, _) ↦
          ap TimerRegistration.heap_index (queued-other other differs) ∙ w.valid.placed i other here
    ];
    numbered = λ other. elim (same-cases other id) [
      | inl same ↦
          subst (λ t. (queued.store t).sequence < 2 ^ 64) (sym same)
            (omega (arith, w.word, ap TimerRegistration.sequence queued-id))
      | inr differs ↦ omega (
        arith,
        w.valid.numbered other,
        ap TimerRegistration.sequence (queued-other other differs),
      )
    ];
  }

  queued-key : (i : ℕ) → i < length q.heap → key queued i ≡ key q i
  queued-key i below =
      let (other, here) = get_elem?-lt q.heap i below in
      let differs : other ≢ id = λ e. not_in (i, here ∙ ap some e) in
      ap (key_of queued.store) (queued-old i below ∙ here)
      ∙ ap rank (queued-other other differs)
      ∙ sym (ap (key_of q.store) here)

  queued-OrderedUp : OrderedUp (key queued) (length queued.heap) (length q.heap)
  queued-OrderedUp = (
    λ p c edge within not_last.
        let below : c < length q.heap = omega (arith, within, not_last, queued-size) in
        omega (
          arith,
          w.ordered p c edge below,
          queued-key p (omega (arith, edge, below)),
          queued-key c below,
        ),
    λ p c over under within. absurd (omega (arith, under, within, queued-size)),
  )

  module _ (after : TimerQueue) (s : Sifted queued after) where
    after-owner : (other : ℕ) → (after.store other).owner ≡ (queued.store other).owner
    after-owner other = ap TimerRegistration.owner (s.0.timers other)

    owner-id : (after.store id).owner ≡ this_queue
    owner-id = after-owner id ∙ ap TimerRegistration.owner queued-id

    owner-other : (other : ℕ) → other ≢ id → (after.store other).owner ≡ (q.store other).owner
    owner-other other differs =
        after-owner other ∙ ap TimerRegistration.owner (queued-other other differs)

    sifted-owned : (other : ℕ) → (after.store other).owner ≡ this_queue → InHeap after other
    sifted-owned other ours = elim (same-cases other id) [
      | inl same ↦ s.0.into other (length q.heap, queued-last ∙ ap some (sym same))
      | inr differs ↦
          let (i, here) = w.owned other (sym (owner-other other differs) ∙ ours) in
          s.0.into other (i, queued-old i (lt-get_elem? q.heap i other here) ∙ here)
    ]

    sifted-heaped : (other : ℕ) → InHeap after other → (after.store other).owner ≡ this_queue
    sifted-heaped other inside =
        let (i, here) = s.0.from other inside in
        elim (queued-node i other here) [
          | inl (_, same) ↦ subst (λ t. (after.store t).owner ≡ this_queue) (sym same) owner-id
          | inr (old, differs, _) ↦ owner-other other differs ∙ w.heaped other (i, old)
        ]

    sifted-apart :
        (other : ℕ)
        → (after.store other).owner ≡ no_queue
        → (after.store other).heap_index ≡ not_in_heap
    sifted-apart other free =
        let differs : other ≢ id =
          λ e. owners-apart (sym owner-id ∙ ap (λ t. (after.store t).owner) (sym e) ∙ free) in
        let outside : ¬ InHeap queued other =
          λ inside. owners-apart (sym (sifted-heaped other (s.0.into other inside)) ∙ free) in
        ap TimerRegistration.heap_index (s.0.aside other outside ∙ queued-other other differs)
        ∙ w.apart other (sym (owner-other other differs) ∙ free)

    sifted-called :
        (other : ℕ) → (after.store other).owner ≡ this_queue → HasCallback (after.store other)
    sifted-called other ours = elim (same-cases other id) [
      | inl same ↦
          subst (λ t. HasCallback (after.store t)) (sym same)
            (callback, ap TimerRegistration.completion (s.0.timers id ∙ relabelled))
      | inr differs ↦
          let (given, has) = w.called other (sym (owner-other other differs) ∙ ours) in
          (
            given,
            ap TimerRegistration.completion (s.0.timers other)
                ∙ ap TimerRegistration.completion (queued-other other differs)
                ∙ has,
          )
    ]
      where
        relabelled :
            record (queued.store id) { heap_index = (after.store id).heap_index }
            ≡ record fresh { heap_index = (after.store id).heap_index }
        relabelled =
            ap (λ (r : TimerRegistration). record r { heap_index = (after.store id).heap_index })
              queued-id

    sifted-Entered : Entered q id deadline callback context after
    unfolding enqueue
    sifted-Entered = record {
      valid = record {
        valid = s.0.valid;
        ordered = s.1;
        owned = sifted-owned;
        heaped = sifted-heaped;
        apart = sifted-apart;
        word = omega (arith, ap TimerQueue.next_sequence s.0.rest);
        called = sifted-called;
      };
      rest = s.0.rest;
      same_size = s.0.same_size ∙ queued-size;
      entered =
          s.0.timers id
          ∙ ap (λ (r : TimerRegistration). record r { heap_index = (after.store id).heap_index })
              queued-id;
      others = λ other differs.
          s.0.timers other
          ∙ ap (λ (r : TimerRegistration). record r { heap_index = (after.store other).heap_index })
              (queued-other other differs);
    }

abbrev pub may_arm : TimerQueue → ℕ → ℕ → Bool
may_arm q current id = on_owner_thread q current && q.accepting && is_free (q.store id)

free-away : (r : TimerRegistration) → is_free r ≡ true → r.owner ≢ this_queue
free-away r free ours = ground (arith, free, ours)

module _ (q : TimerQueue) (current id deadline : ℕ) (context : Option ℕ) where
  arm-accepted :
      (callback : ℕ)
      → may_arm q current id ≡ true
      → arm q current id deadline (some callback) context ≡ (
          sift_up (length q.heap + 1) (enqueue q id deadline callback context) (length q.heap)
          >>= λ after. ok (armed, after))
  unfolding arm arm_callback
  arm-accepted callback may =
      let on : on_owner_thread q current ≡ true = ground (arith, may) in
      let runs = on_owner_thread-running q current on in
      let free : is_free (q.store id) ≡ true = ground (arith, may) in
      ground (arith, may, on, runs, free)

  arm-refused :
      (completion : Option ℕ)
      → (may_arm q current id ≡ false) ⊎ (completion ≡ none)
      → (reason : ArmResult) × (reason ≢ armed)
        × (arm q current id deadline completion context ≡ ok (reason, q))
  unfolding arm arm_callback
  arm-refused completion why = elim (Bool-cases q.running) [
    | inr stopped ↦ (not_running, λ e. cc, ground (arith, stopped))
    | inl runs ↦ elim (Bool-cases (on_owner_thread q current)) [
      | inr elsewhere ↦ (wrong_thread, λ e. cc, ground (arith, runs, elsewhere))
      | inl on ↦ elim (Bool-cases q.accepting) [
        | inr shut ↦ (closed, λ e. cc, ground (arith, runs, on, shut))
        | inl accepts ↦ elim (Bool-cases (is_free (q.store id))) [
          | inr held ↦ (already_armed, λ e. cc, ground (arith, runs, on, accepts, held))
          | inl free ↦ elim why [
            | inl may_not ↦ absurd (ground (arith, may_not, on, accepts, free))
            | inr nothing ↦
                (invalid_callback, λ e. cc, ground (arith, runs, on, accepts, free, nothing))
          ]
        ]
      ]
    ]
  ]

-- Arm, on the owner's thread, while the queue accepts timers, with a registration that is free and a
-- callback, puts the timer with the next sequence number into the heap, whose order it keeps; in
-- every other case it answers with a reason and changes nothing.
pub arm-Entered :
    (q : TimerQueue) (current id deadline : ℕ) (completion context : Option ℕ)
    → IsQueue q
    → Ensures
        (λ r.
          ((may_arm q current id ≡ true)
            × ((callback : ℕ) × (completion ≡ some callback)
                × (r.0 ≡ armed)
                × Entered q id deadline callback context r.1))
          ⊎ (((may_arm q current id ≡ false) ⊎ (completion ≡ none)) × (r.0 ≢ armed) × (r.1 ≡ q)))
        (arm q current id deadline completion context)
arm-Entered q current id deadline none context w =
    let (reason, not_armed, e) = arm-refused q current id deadline context none (inr refl) in
    rw e (inr (inr refl, not_armed, refl))
arm-Entered q current id deadline (some callback) context w =
    elim (Bool-cases (may_arm q current id)) [
      | inl may ↦
          let away = free-away (q.store id) (ground (arith, may)) in
          let start = enqueue q id deadline callback context in
          rw (arm-accepted q current id deadline context callback may) (
            Ensures-bind (Sifted start) _ (sift_up (length q.heap + 1) start (length q.heap)) _
              (sift_up-Sifted (length q.heap + 1) start (length q.heap)
                (queued-IsPlaced q w id deadline callback context away)
                (omega (arith, queued-size q w id deadline callback context away)) (omega arith)
                (queued-OrderedUp q w id deadline callback context away))
              (λ after s. inl (
                may,
                (
                  callback,
                  refl,
                  refl,
                  sifted-Entered q w id deadline callback context away after s,
                ),
              )))
      | inr may_not ↦
          let (reason, not_armed, e) =
            arm-refused q current id deadline context (some callback) (inl may_not) in
          rw e (inr (inl may_not, not_armed, refl))
    ]
