-- ===== src/Runtime/TimerQueue/Remove.antt =====
-- What holds of a queue, and what it is for a registration to leave it.
use dns_pro.Base.{
  ℕ, ◌+◌, ◌^◌, ◌<◌, ◌≡◌, refl, sym, ap, ap₂, ◌∙◌, subst, ◌≢◌, ◌⊎◌, inl, inr, Option, none, some,
  arith, ◌==◌, Bool-cases, length, get_elem?,
}
use dns_pro.Runtime.TimerQueue.{
  TimerRegistration, TimerQueue, Owner, no_queue, this_queue, not_in_heap, release,
}
use dns_pro.Runtime.TimerQueue.Order.{Ordered, Ordered-agree}
use dns_pro.Runtime.TimerQueue.Nodes.{
  rank, key, key_of, InHeap, IsPlaced, assign-same, assign-other,
}
use dns_pro.Runtime.TimerQueue.Sift.{Sifted}

abbrev pub HasCallback : TimerRegistration → Type 0
HasCallback r = (callback : ℕ) × (r.completion ≡ some callback)

-- A heap in order, of exactly the registrations that the queue owns.
pub record IsQueue (q : TimerQueue) : Type 0 where
  pub valid : IsPlaced q
  pub ordered : Ordered (key q) (length q.heap)
  pub owned : (id : ℕ) → (q.store id).owner ≡ this_queue → InHeap q id
  pub heaped : (id : ℕ) → InHeap q id → (q.store id).owner ≡ this_queue
  pub apart : (id : ℕ) → (q.store id).owner ≡ no_queue → (q.store id).heap_index ≡ not_in_heap
  pub word : q.next_sequence < 2 ^ 64
  pub called : (id : ℕ) → (q.store id).owner ≡ this_queue → HasCallback (q.store id)

-- One registration left the queue, and the others stayed.
pub record Removed (before : TimerQueue) (removed : ℕ) (after : TimerQueue) : Type 0 where
  pub valid : IsQueue after
  pub rest : after ≡ record before { heap = after.heap; store = after.store }
  pub same_size : length after.heap + 1 ≡ length before.heap
  pub gone :
      after.store removed
      ≡ record (before.store removed) { owner = no_queue; heap_index = not_in_heap }
  pub others :
      (id : ℕ)
      → id ≢ removed
      → after.store id ≡ record (before.store id) { heap_index = (after.store id).heap_index }

-- The heap without the node that goes, before its order is restored.
pub record Opened (before : TimerQueue) (removed : ℕ) (after : TimerQueue) : Type 0 where
  pub valid : IsPlaced after
  pub rest : after ≡ record before { heap = after.heap; store = after.store }
  pub same_size : length after.heap + 1 ≡ length before.heap
  pub timers :
      (id : ℕ)
      → after.store id ≡ record (before.store id) { heap_index = (after.store id).heap_index }
  pub same : after.store removed ≡ before.store removed
  pub aside : (id : ℕ) → ¬ InHeap before id → after.store id ≡ before.store id
  pub into : (id : ℕ) → id ≢ removed → InHeap before id → InHeap after id
  pub from : (id : ℕ) → InHeap after id → InHeap before id × (id ≢ removed)

pub same-cases : (a b : ℕ) → (a ≡ b) ⊎ (a ≢ b)
same-cases a b = elim (Bool-cases (a == b)) [
  | inl same ↦ inl (ground (arith, same))
  | inr differs ↦ inr (ground (arith, differs))
]

pub owners-apart : this_queue ≢ no_queue
owners-apart e = cc

module _ (before : TimerQueue) (removed : ℕ) (opened after : TimerQueue) (w : IsQueue before)
    (o : Opened before removed opened) (s : Sifted opened after) where
  abbrev released : TimerQueue
  released = release after removed

  still : after.store removed ≡ before.store removed
  still = s.0.aside removed (λ inside. (o.from removed inside).1 refl) ∙ o.same

  released-gone :
      released.store removed
      ≡ record (before.store removed) { owner = no_queue; heap_index = not_in_heap }
  unfolding release
  released-gone =
      assign-same after.store removed
        (record (after.store removed) { owner = no_queue; heap_index = not_in_heap })
      ∙ ap (λ (r : TimerRegistration). record r { owner = no_queue; heap_index = not_in_heap })
          still

  released-other : (id : ℕ) → id ≢ removed → released.store id ≡ after.store id
  unfolding release
  released-other id differs =
      assign-other after.store removed id
        (record (after.store removed) { owner = no_queue; heap_index = not_in_heap })
        (λ e. differs (sym e))

  after-timers :
      (id : ℕ)
      → after.store id ≡ record (before.store id) { heap_index = (after.store id).heap_index }
  after-timers id =
      s.0.timers id
      ∙ ap (λ (r : TimerRegistration). record r { heap_index = (after.store id).heap_index })
          (o.timers id)

  abbrev relabel : ℕ → TimerRegistration → TimerRegistration
  relabel id r = record r {
    owner = (released.store id).owner;
    heap_index = (released.store id).heap_index;
  }

  relabelled :
      (id : ℕ) (owner : Owner) (index : ℕ)
      → released.store id ≡ record (after.store id) { owner = owner; heap_index = index }
      → released.store id ≡ relabel id (after.store id)
  relabelled id owner index e =
      e
      ∙ ap₂ (λ (o : Owner) (i : ℕ). record (after.store id) { owner = o; heap_index = i })
          (sym (ap TimerRegistration.owner e)) (sym (ap TimerRegistration.heap_index e))

  released-timers : (id : ℕ) → released.store id ≡ relabel id (after.store id)
  unfolding release
  released-timers id = elim (same-cases id removed) [
    | inl e ↦ relabelled id no_queue not_in_heap (
        subst
          (λ t.
            released.store t
            ≡ record (after.store t) { owner = no_queue; heap_index = not_in_heap })
          (sym e)
          (assign-same after.store removed
            (record (after.store removed) { owner = no_queue; heap_index = not_in_heap })))
    | inr differs ↦
        relabelled id (after.store id).owner (after.store id).heap_index (released-other id differs)
  ]

  released-key_of : (o : Option ℕ) → key_of after.store o ≡ key_of released.store o
  released-key_of none = refl
  released-key_of (some id) = sym (ap rank (released-timers id))

  released-key : (i : ℕ) → key after i ≡ key released i
  unfolding release
  released-key i = released-key_of (get_elem? after.heap i)

  outside : (id : ℕ) → InHeap after id → id ≢ removed
  outside id inside = (o.from id (s.0.from id inside)).1

  released-owner : (id : ℕ) → id ≢ removed → (released.store id).owner ≡ (before.store id).owner
  released-owner id differs =
      ap TimerRegistration.owner (released-other id differs ∙ after-timers id)

  released-apart :
      (id : ℕ) → (released.store id).owner ≡ no_queue → (released.store id).heap_index ≡ not_in_heap
  released-apart id free = elim (same-cases id removed) [
    | inl e ↦
        subst (λ t. (released.store t).heap_index ≡ not_in_heap) (sym e)
          (ap TimerRegistration.heap_index released-gone)
    | inr differs ↦
        let free' : (before.store id).owner ≡ no_queue = sym (released-owner id differs) ∙ free in
        let away : ¬ InHeap before id = λ inside. owners-apart (sym (w.heaped id inside) ∙ free') in
        ap TimerRegistration.heap_index (
          released-other id differs
          ∙ s.0.aside id (λ inside. away (o.from id inside).0)
          ∙ o.aside id away)
        ∙ w.apart id free'
  ]

  released-owned : (id : ℕ) → (released.store id).owner ≡ this_queue → InHeap released id
  unfolding release
  released-owned id ours = elim (same-cases id removed) [
    | inl e ↦ absurd (
        owners-apart (
          sym ours
          ∙ ap (λ t. (released.store t).owner) e
          ∙ ap TimerRegistration.owner released-gone))
    | inr differs ↦
        s.0.into id (o.into id differs (w.owned id (sym (released-owner id differs) ∙ ours)))
  ]

  released-called :
      (id : ℕ) → (released.store id).owner ≡ this_queue → HasCallback (released.store id)
  released-called id ours = elim (same-cases id removed) [
    | inl e ↦ absurd (
        owners-apart (
          sym ours
          ∙ ap (λ t. (released.store t).owner) e
          ∙ ap TimerRegistration.owner released-gone))
    | inr differs ↦
        let (callback, given) = w.called id (sym (released-owner id differs) ∙ ours) in
        (
          callback,
          ap TimerRegistration.completion (released-other id differs ∙ after-timers id) ∙ given,
        )
  ]

  released-IsQueue : IsQueue released
  unfolding release
  released-IsQueue = record {
    valid = record {
      placed = λ i id at.
          ap TimerRegistration.heap_index (released-other id (outside id (i, at)))
          ∙ s.0.valid.placed i id at;
      numbered = λ id.
          omega (arith, s.0.valid.numbered id, ap TimerRegistration.sequence (released-timers id));
    };
    ordered =
        Ordered-agree (key after) (key released) (length after.heap) 0 (λ i _. released-key i) s.1;
    owned = released-owned;
    heaped = λ id inside.
        released-owner id (outside id inside) ∙ w.heaped id (o.from id (s.0.from id inside)).0;
    apart = released-apart;
    word =
        omega
          (arith, w.word, ap TimerQueue.next_sequence s.0.rest, ap TimerQueue.next_sequence o.rest);
    called = released-called;
  }

  pub released-Removed : Removed before removed released
  unfolding release
  released-Removed = record {
    valid = released-IsQueue;
    rest =
        ap (λ (q : TimerQueue). record q { store = released.store })
          (s.0.rest
            ∙ ap (λ (q : TimerQueue). record q { heap = after.heap; store = after.store }) o.rest);
    same_size = omega (arith, s.0.same_size, o.same_size);
    gone = released-gone;
    others = λ id differs.
        released-other id differs
        ∙ after-timers id
        ∙ ap (λ (i : ℕ). record (before.store id) { heap_index = i })
            (sym (ap TimerRegistration.heap_index (released-other id differs)));
  }
