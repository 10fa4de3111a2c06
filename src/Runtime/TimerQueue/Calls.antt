-- ===== src/Runtime/TimerQueue/Calls.antt =====
-- The calls of callbacks that timers lead to, in the order in which the timers are completed.
use dns_pro.Base.{
  ℕ, ◌+◌, ◌≤◌, ◌≡◌, refl, ap, ap₂, Option, none, some, List, [], ◌∷◌, ◌++◌, map, append-nil,
  append_assoc, arith, ◌==◌, if◌then◌else◌,
}
use dns_pro.Runtime.TimerQueue.{TimerRegistration, Call, TimerCompletion, Store}
use dns_pro.Runtime.TimerQueue.Expiry.{Callbacks}
use dns_pro.Runtime.TimerQueue.Nodes.{rank}

abbrev pub Every : (ℕ → Type 0) → List ℕ → Type 0
Every P [] = Unit {0}
Every P (x ∷ xs) = P x × Every P xs

pub Every-mono :
    (P Q : ℕ → Type 0) → ((x : ℕ) → P x → Q x) → (xs : List ℕ) → Every P xs → Every Q xs
Every-mono P Q f [] all = tt
Every-mono P Q f (x ∷ xs) (p, all) = (f x p, Every-mono P Q f xs all)

pub Every-append : (P : ℕ → Type 0) (xs ys : List ℕ) → Every P xs → Every P ys → Every P (xs ++ ys)
Every-append P [] ys all all' = all'
Every-append P (x ∷ xs) ys (p, all) all' = (p, Every-append P xs ys all all')

-- How often a number is in a list.
abbrev pub times : ℕ → List ℕ → ℕ
times id [] = 0
times id (x ∷ xs) = (if id == x then 1 else 0) + times id xs

pub times-append : (id : ℕ) (xs ys : List ℕ) → times id (xs ++ ys) ≡ times id xs + times id ys
times-append id [] ys = omega arith
times-append id (x ∷ xs) ys = omega (arith, times-append id xs ys)

-- The timers of a list, by their deadlines and then their sequence numbers.
abbrev pub Ascending : Store → List ℕ → Type 0
Ascending store [] = Unit {0}
Ascending store (x ∷ xs) = Every (λ y. rank (store x) ≤ rank (store y)) xs × Ascending store xs

pub Ascending-append :
    (store : Store) (xs ys : List ℕ)
    → Ascending store xs
    → Ascending store ys
    → Every (λ x. Every (λ y. rank (store x) ≤ rank (store y)) ys) xs
    → Ascending store (xs ++ ys)
Ascending-append store [] ys up up' below = up'
Ascending-append store (x ∷ xs) ys (least, up) up' (first, below) = (
  Every-append (λ y. rank (store x) ≤ rank (store y)) xs ys least first,
  Ascending-append store xs ys up up' below,
)

pub Ascending-agree :
    (s t : Store) (xs : List ℕ)
    → Every (λ x. rank (s x) ≡ rank (t x)) xs
    → Ascending s xs
    → Ascending t xs
Ascending-agree s t [] same up = tt
Ascending-agree s t (x ∷ xs) (e, same) (least, up) =
    (bounded s t x e xs same least, Ascending-agree s t xs same up)
  where
    bounded :
        (s t : Store) (x : ℕ)
        → rank (s x) ≡ rank (t x)
        → (xs : List ℕ) → Every (λ y. rank (s y) ≡ rank (t y)) xs
        → Every (λ y. rank (s x) ≤ rank (s y)) xs
        → Every (λ y. rank (t x) ≤ rank (t y)) xs
    bounded s t x e [] same least = tt
    bounded s t x e (y ∷ ys) (f, same) (under, least) =
        (omega (arith, e, f, under), bounded s t x e ys same least)

-- A registration's callback, by its number.
abbrev pub callback_of : Option ℕ → ℕ
callback_of none = 0
callback_of (some callback) = callback

-- The call of a registration's own callback, with its context.
abbrev pub call_of : TimerCompletion → TimerRegistration → Call
call_of completion r = record {
  callback = callback_of r.completion;
  context = r.context;
  completion = completion;
}

abbrev pub calls_of : TimerCompletion → Store → List ℕ → List Call
calls_of completion store ids = map (λ id. call_of completion (store id)) ids

pub calls_of-agree :
    (completion : TimerCompletion) (s t : Store) (ids : List ℕ)
    → Every (λ id. call_of completion (s id) ≡ call_of completion (t id)) ids
    → calls_of completion s ids ≡ calls_of completion t ids
calls_of-agree completion s t [] same = refl
calls_of-agree completion s t (id ∷ ids) (e, same) =
    ap₂ (λ (c : Call) (cs : List Call). c ∷ cs) e (calls_of-agree completion s t ids same)

-- How many of the calls that follow on earlier ones are answered with false.
abbrev pub refusals : Callbacks → List Call → List Call → ℕ
refusals invoke earlier [] = 0
refusals invoke earlier (call ∷ calls) =
    (if invoke earlier call then 0 else 1) + refusals invoke (earlier ++ call ∷ []) calls

pub refusals-append :
    (invoke : Callbacks) (earlier xs ys : List Call)
    → refusals invoke earlier (xs ++ ys)
      ≡ refusals invoke earlier xs + refusals invoke (earlier ++ xs) ys
refusals-append invoke earlier [] ys =
    let same = ap (λ (e : List Call). refusals invoke e ys) (append-nil earlier) in
    omega (arith, same)
refusals-append invoke earlier (x ∷ xs) ys =
    let step = refusals-append invoke (earlier ++ x ∷ []) xs ys in
    let regroup : refusals invoke ((earlier ++ x ∷ []) ++ xs) ys
        ≡ refusals invoke (earlier ++ x ∷ xs) ys =
      ap (λ (e : List Call). refusals invoke e ys) (append_assoc earlier (x ∷ []) xs) in
    omega (arith, step, regroup)
