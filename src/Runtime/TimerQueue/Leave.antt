-- ===== src/Runtime/TimerQueue/Leave.antt =====
-- disarm and the destructor of a registration: one timer leaves the queue.
use dns_pro.Base.{
  ℕ, ◌+◌, ◌≡◌, refl, sym, ap, ap₂, ◌∙◌, subst, ◌≢◌, ◌↔◌, ◌⊎◌, inl, inr, true, false, not, ◌&&◌,
  Option, none, some, arith, Bool-cases, length, get_elem?, ok, ◌>>=◌, Ensures, Ensures-bind,
}
use dns_pro.Runtime.TimerQueue.{
  TimerRegistration, TimerQueue, Owner, no_queue, this_queue, another_queue, not_in_heap, assign,
  remove_at, forget_callback, on_owner_thread,
}
use dns_pro.Runtime.TimerQueue.Arming.{is_ours, is_at, disarm, remove_node, abandon}
use dns_pro.Runtime.TimerQueue.Order.{Ordered-agree}
use dns_pro.Runtime.TimerQueue.Nodes.{rank, key, key_of, assign-same, assign-other}
use dns_pro.Runtime.TimerQueue.Remove.{IsQueue, HasCallback, Removed, same-cases, owners-apart}
use dns_pro.Runtime.TimerQueue.Detach.{remove_at-Removed}

-- A registration as it was before it was armed, but for its deadline and sequence number.
abbrev pub detached : TimerRegistration → TimerRegistration
detached r = record r {
  owner = no_queue;
  heap_index = not_in_heap;
  completion = none;
  context = none;
}

abbrev pub Stayed : TimerQueue → TimerQueue → ℕ → Type 0
Stayed before after id =
    after.store id ≡ record (before.store id) { heap_index = (after.store id).heap_index }

-- One timer left the queue with its callback, and the others stayed.
pub record Left (before : TimerQueue) (id : ℕ) (after : TimerQueue) : Type 0 where
  pub valid : IsQueue after
  pub rest : after ≡ record before { heap = after.heap; store = after.store }
  pub same_size : length after.heap + 1 ≡ length before.heap
  pub gone : after.store id ≡ detached (before.store id)
  pub others : (other : ℕ) → other ≢ id → Stayed before after other

module _ (q : TimerQueue) (w : IsQueue q) (id : ℕ) where
  abbrev cleared : TimerQueue
  cleared = forget_callback q id

  recalled :
      (other : ℕ) (completion context : Option ℕ)
      → cleared.store other ≡ record (q.store other) { completion = completion; context = context }
      → cleared.store other ≡ record (q.store other) {
        completion = (cleared.store other).completion;
        context = (cleared.store other).context;
      }
  recalled other completion context e =
      e
      ∙ ap₂ (λ (f c : Option ℕ). record (q.store other) { completion = f; context = c })
          (sym (ap TimerRegistration.completion e)) (sym (ap TimerRegistration.context e))

  cleared-store :
      (other : ℕ)
      → cleared.store other ≡ record (q.store other) {
        completion = (cleared.store other).completion;
        context = (cleared.store other).context;
      }
  unfolding forget_callback
  cleared-store other = elim (same-cases id other) [
    | inl e ↦
        let same : cleared.store other
            ≡ record (q.store other) { completion = none; context = none } =
          subst (λ t. cleared.store t ≡ record (q.store t) { completion = none; context = none }) e
            (assign-same q.store id (record (q.store id) { completion = none; context = none })) in
        recalled other none none same
    | inr differs ↦ recalled other (q.store other).completion (q.store other).context (
        assign-other q.store id other (record (q.store id) { completion = none; context = none })
          differs)
  ]

  cleared-key_of : (o : Option ℕ) → key_of q.store o ≡ key_of cleared.store o
  cleared-key_of none = refl
  cleared-key_of (some other) = sym (ap rank (cleared-store other))

  cleared-called :
      (q.store id).owner ≢ this_queue
      → (other : ℕ) → (cleared.store other).owner ≡ this_queue
      → HasCallback (cleared.store other)
  unfolding forget_callback
  cleared-called away other ours =
      let theirs : (q.store other).owner ≡ this_queue =
        sym (ap TimerRegistration.owner (cleared-store other)) ∙ ours in
      let differs : id ≢ other = λ e. away (ap (λ t. (q.store t).owner) e ∙ theirs) in
      let (callback, given) = w.called other theirs in
      (
        callback,
        ap TimerRegistration.completion (
              assign-other q.store id other
                (record (q.store id) { completion = none; context = none }) differs)
            ∙ given,
      )

  cleared-IsQueue : (q.store id).owner ≢ this_queue → IsQueue cleared
  unfolding forget_callback
  cleared-IsQueue away = record {
    valid = record {
      placed = λ i other at.
          ap TimerRegistration.heap_index (cleared-store other) ∙ w.valid.placed i other at;
      numbered = λ other.
          omega
            (arith, w.valid.numbered other, ap TimerRegistration.sequence (cleared-store other));
    };
    ordered =
        Ordered-agree (key q) (key cleared) (length q.heap) 0
          (λ i _. cleared-key_of (get_elem? q.heap i)) w.ordered;
    owned =
        λ other ours. w.owned other (sym (ap TimerRegistration.owner (cleared-store other)) ∙ ours);
    heaped =
        λ other inside. ap TimerRegistration.owner (cleared-store other) ∙ w.heaped other inside;
    apart = λ other free.
        ap TimerRegistration.heap_index (cleared-store other)
        ∙ w.apart other (sym (ap TimerRegistration.owner (cleared-store other)) ∙ free);
    word = w.word;
    called = cleared-called away;
  }

pub forget-Left :
    (before : TimerQueue) (id : ℕ) (after : TimerQueue)
    → Removed before id after
    → Left before id (forget_callback after id)
unfolding forget_callback
forget-Left before id after h =
    let forgotten : TimerRegistration = record (after.store id) {
      completion = none;
      context = none;
    } in
    let away = λ (other : ℕ) (differs : other ≢ id).
      assign-other after.store id other forgotten (λ e. differs (sym e)) in
    record {
      valid =
          cleared-IsQueue after h.valid id
            (λ ours. owners-apart (sym ours ∙ ap TimerRegistration.owner h.gone));
      rest = ap (λ (q : TimerQueue). record q { store = assign after.store id forgotten }) h.rest;
      same_size = h.same_size;
      gone =
          assign-same after.store id forgotten
          ∙ ap (λ (r : TimerRegistration). record r { completion = none; context = none }) h.gone;
      others = λ other differs.
          away other differs
          ∙ h.others other differs
          ∙ ap (λ (i : ℕ). record (before.store other) { heap_index = i })
              (sym (ap TimerRegistration.heap_index (away other differs)));
    }

pub is_ours_iff : (r : TimerRegistration) → (is_ours r ≡ true) ↔ (r.owner ≡ this_queue)
is_ours_iff r = owner_iff r.owner
  where
    owner_iff :
        (o : Owner)
        → ((elim o [ no_queue ↦ false | this_queue ↦ true | another_queue ↦ false ]) ≡ true)
          ↔ (o ≡ this_queue)
    owner_iff no_queue = (λ e. absurd (ground (arith, e)), λ e. absurd (ground (arith, e)))
    owner_iff this_queue = (λ e. refl, λ e. refl)
    owner_iff another_queue = (λ e. absurd (ground (arith, e)), λ e. absurd (ground (arith, e)))

-- What disarm and the destructor have in common.
module _ (q : TimerQueue) (w : IsQueue q) (id : ℕ) (ours : (q.store id).owner ≡ this_queue) where
  at_index : get_elem? q.heap (q.store id).heap_index ≡ some id
  at_index =
      let (i, at) = w.owned id ours in
      subst (λ t. get_elem? q.heap t ≡ some id) (sym (w.valid.placed i id at)) at

  is_at_index : is_at q id (q.store id).heap_index ≡ true
  unfolding is_at
  is_at_index = ground (arith, at_index)

  leave :
      Ensures (Left q id) (remove_at q (q.store id).heap_index >>= λ r. ok (forget_callback r.1 id))
  leave =
      Ensures-bind _ (Left q id) (remove_at q (q.store id).heap_index) _
        (remove_at-Removed q w (q.store id).heap_index id at_index)
        (λ r h. forget-Left q id r.1 h.1)

pub on_owner_thread-running :
    (q : TimerQueue) (current : ℕ) → on_owner_thread q current ≡ true → q.running ≡ true
unfolding on_owner_thread
on_owner_thread-running q current h = ground (arith, h)

module _ (q : TimerQueue) (current id : ℕ) where
  disarm-accepted :
      (on_owner_thread q current && is_ours (q.store id)) ≡ true
      → is_at q id (q.store id).heap_index ≡ true
      → disarm q current id
        ≡ (remove_at q (q.store id).heap_index >>= λ r. ok (true, forget_callback r.1 id))
  unfolding disarm
  disarm-accepted may found =
      let on : on_owner_thread q current ≡ true = ground (arith, may) in
      let runs = on_owner_thread-running q current on in ground (arith, may, on, runs, found)

  disarm-refused :
      (on_owner_thread q current && is_ours (q.store id)) ≡ false
      → disarm q current id ≡ ok (false, q)
  unfolding disarm
  disarm-refused may_not = ground (arith, may_not)

module _ (q : TimerQueue) (current id : ℕ) where
  abandon-foreign : is_ours (q.store id) ≡ false → abandon q current id ≡ ok (some q)
  unfolding abandon
  abandon-foreign foreign = ground (arith, foreign)

  abandon-elsewhere :
      is_ours (q.store id) ≡ true
      → (q.running && not (on_owner_thread q current)) ≡ true
      → abandon q current id ≡ ok none
  unfolding abandon
  abandon-elsewhere owned elsewhere = ground (arith, owned, elsewhere)

  abandon-here :
      is_ours (q.store id) ≡ true
      → (q.running && not (on_owner_thread q current)) ≡ false
      → is_at q id (q.store id).heap_index ≡ true
      → abandon q current id ≡ (
          (remove_at q (q.store id).heap_index >>= λ r. ok (forget_callback r.1 id)) >>= λ after.
          ok (some after))
  unfolding abandon remove_node
  abandon-here owned here found = ground (arith, owned, here, found)

-- Disarm, on the owner's thread and for a timer of this queue, removes exactly that timer with its
-- callback from the heap, whose order is restored; otherwise it changes nothing and answers false.
pub disarm-Left :
    (q : TimerQueue) (current id : ℕ)
    → IsQueue q
    → Ensures
        (λ r.
          ((on_owner_thread q current && is_ours (q.store id) ≡ true)
            × (r.0 ≡ true)
            × Left q id r.1)
          ⊎ ((on_owner_thread q current && is_ours (q.store id) ≡ false) × (r ≡ (false, q))))
        (disarm q current id)
disarm-Left q current id w = elim (Bool-cases (on_owner_thread q current && is_ours (q.store id))) [
  | inl may ↦
      let ours : (q.store id).owner ≡ this_queue =
        (is_ours_iff (q.store id)).0 (ground (arith, may)) in
      rw (disarm-accepted q current id may (is_at_index q w id ours)) (
        Ensures-bind _ _ (remove_at q (q.store id).heap_index) _
          (remove_at-Removed q w (q.store id).heap_index id (at_index q w id ours))
          (λ r h. inl (may, refl, forget-Left q id r.1 h.1)))
  | inr may_not ↦ rw (disarm-refused q current id may_not) (inr (may_not, refl))
]

-- The destructor of a registration that is armed on this queue removes it, with its callback, and
-- leaves the others; on another thread than that of a running queue it terminates the program. For
-- a registration that is not armed on this queue it does nothing.
pub abandon-Left :
    (q : TimerQueue) (current id : ℕ)
    → IsQueue q
    → Ensures
        (λ r.
          (((q.store id).owner ≢ this_queue) × (r ≡ some q))
          ⊎ (((q.store id).owner ≡ this_queue)
              × (q.running && not (on_owner_thread q current) ≡ true)
              × (r ≡ none))
          ⊎ (((q.store id).owner ≡ this_queue)
              × (q.running && not (on_owner_thread q current) ≡ false)
              × ((after : TimerQueue) × (r ≡ some after) × Left q id after)))
        (abandon q current id)
abandon-Left q current id w = elim (Bool-cases (is_ours (q.store id))) [
  | inl owned ↦
      let ours : (q.store id).owner ≡ this_queue = (is_ours_iff (q.store id)).0 owned in
      elim (Bool-cases (q.running && not (on_owner_thread q current))) [
        | inl elsewhere ↦
            rw (abandon-elsewhere q current id owned elsewhere) (inr (inl (ours, elsewhere, refl)))
        | inr here ↦
            let found = is_at_index q w id ours in
            rw (abandon-here q current id owned here found) (
              Ensures-bind (Left q id) _
                (remove_at q (q.store id).heap_index >>= λ r. ok (forget_callback r.1 id)) _
                (leave q w id ours) (λ after h. inr (inr (ours, here, (after, refl, h)))))
      ]
  | inr foreign ↦
      rw (abandon-foreign q current id foreign)
        (inl (λ ours. ground (arith, foreign, (is_ours_iff (q.store id)).1 ours), refl))
]
