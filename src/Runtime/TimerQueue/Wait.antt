-- ===== src/Runtime/TimerQueue/Wait.antt =====
-- wait_timeout and sleep_for, whose arithmetic is on the signed words of the clock.
use dns_pro.Base.{
  ℕ, ◌+◌, ◌-◌, ◌*◌, ◌/◌, ◌^◌, ◌≤◌, ◌<◌, min, ◌≡◌, ◌⊎◌, inl, inr, Bool, true, false, ◌&&◌, ◌||◌,
  Option, none, some, arith, ltb, leb, if◌then◌else◌, Bool-cases, Outcome, ok, err, ◌>>=◌, ◌>>◌,
  refuse_if,
}
use dns_pro.Runtime.TimerQueue.{TimerQueue}
use dns_pro.Runtime.TimerQueue.Expiry.{next_deadline}
use dns_pro.Runtime.TimerQueue.Remove.{IsQueue}
use dns_pro.Runtime.TimerQueue.Front.{IsArmed, next_deadline_lem}

pub data ClockFault : Type 0 where
  signed_overflow : ClockFault

-- The clock's epoch, and the zero of a duration, as distances from the least value.
abbrev pub epoch : ℕ
epoch = 2 ^ 63

-- The difference of two time points, the first of which is later.
abbrev pub difference : ℕ → ℕ → Outcome ClockFault ℕ
difference later earlier_point = do
  refuse_if (leb (2 ^ 63) (later - earlier_point)) signed_overflow
  ok (later - earlier_point)

abbrev pub int_max : ℕ
int_max = 2 ^ 31 - 1

abbrev pub milliseconds : ℕ
milliseconds = 10 ^ 6

abbrev pub maximum_wait : ℕ
maximum_wait = int_max * milliseconds

-- Across the epoch, a half that is too long already.
unfoldable pub is_far : ℕ → ℕ → Bool
is_far deadline now =
    ltb now epoch
    && leb epoch deadline
    && (leb (epoch + maximum_wait) deadline || leb (now + maximum_wait) epoch)

-- std::chrono::ceil
abbrev pub ceil_milliseconds : ℕ → ℕ
ceil_milliseconds wait_duration = (wait_duration + (milliseconds - 1)) / milliseconds

unfoldable pub clamped_wait : ℕ → ℕ
clamped_wait wait_duration =
    if leb maximum_wait wait_duration
    then int_max
    else if leb int_max (ceil_milliseconds wait_duration)
    then int_max
    else ceil_milliseconds wait_duration

unfoldable pub wait_until : ℕ → ℕ → Outcome ClockFault ℕ
wait_until deadline now =
    if leb deadline now
    then ok 0
    else if is_far deadline now
    then ok int_max
    else (difference deadline now >>= λ wait_duration. ok (clamped_wait wait_duration))

-- `none` is the timeout -1, of a wait without an end.
unfoldable pub wait_timeout : TimerQueue → ℕ → Outcome ClockFault (Option ℕ)
wait_timeout q now = elim (next_deadline q) [
  | none ↦ ok none
  | some deadline ↦ wait_until deadline now >>= λ wait. ok (some wait)
]

-- The deadline of sleep_for, at a time and for a delay.
unfoldable pub sleep_deadline : ℕ → ℕ → Outcome ClockFault ℕ
sleep_deadline now delay =
    if leb delay epoch
    then ok now
    else if ltb epoch now && ltb (2 ^ 63 - 1 - (now - epoch)) (delay - epoch)
    then ok (2 ^ 64 - 1)
    else if leb (2 ^ 64) (now + (delay - epoch))
    then err signed_overflow
    else ok (now + (delay - epoch))

is_far-long : (deadline now : ℕ) → is_far deadline now ≡ true → maximum_wait ≤ deadline - now
unfolding is_far
is_far-long deadline now far = ground (arith, far)

near-fits :
    (deadline now : ℕ)
    → deadline < 2 ^ 64
    → is_far deadline now ≡ false
    → leb (2 ^ 63) (deadline - now) ≡ false
unfolding is_far
near-fits deadline now small near = ground (arith, small, near)

long_wait : (wait : ℕ) → maximum_wait ≤ wait → min int_max (ceil_milliseconds wait) ≡ int_max
long_wait wait long = omega (arith, long)

clamped_wait_lem : (wait : ℕ) → clamped_wait wait ≡ min int_max (ceil_milliseconds wait)
unfolding clamped_wait
clamped_wait_lem wait = ground arith

wait_until_lem :
    (deadline now : ℕ)
    → deadline < 2 ^ 64
    → now < 2 ^ 64
    → wait_until deadline now ≡ ok (min int_max (ceil_milliseconds (deadline - now)))
unfolding wait_until
wait_until_lem deadline now small small' = elim (Bool-cases (leb deadline now)) [
  | inl due ↦ ground (arith, due)
  | inr later ↦ elim (Bool-cases (is_far deadline now)) [
    | inl far ↦
        let long : maximum_wait ≤ deadline - now = is_far-long deadline now far in
        ground (arith, later, far, long_wait (deadline - now) long)
    | inr near ↦
        let fits : leb (2 ^ 63) (deadline - now) ≡ false = near-fits deadline now small near in
        ground (arith, later, near, fits, clamped_wait_lem (deadline - now))
  ]
]

-- The timeout is without end where no timer is armed, and else the time to the earliest deadline in
-- milliseconds, rounded up, no more than INT_MAX, and zero for a timer that is due. No subtraction
-- of two time points overflows.
pub wait_timeout_lem :
    (q : TimerQueue) (now : ℕ)
    → IsQueue q
    → ((id : ℕ) → (q.store id).deadline < 2 ^ 64)
    → now < 2 ^ 64
    → ((wait_timeout q now ≡ ok none) × ((id : ℕ) → ¬ IsArmed q id))
      ⊎ ((id : ℕ) × IsArmed q id
          × ((other : ℕ) → IsArmed q other → (q.store id).deadline ≤ (q.store other).deadline)
          × (wait_timeout q now
              ≡ ok (some (min int_max (ceil_milliseconds ((q.store id).deadline - now))))))
unfolding wait_timeout
wait_timeout_lem q now w words word = elim (next_deadline_lem q w) [
  | inl (nothing, _, nobody) ↦ inl (ground (arith, nothing), nobody)
  | inr (id, ours, next, least) ↦ inr (
    id,
    ours,
    least,
    ground (arith, next, wait_until_lem (q.store id).deadline now (words id) word),
  )
]

-- A sleep ends at the time that the delay gives, or at the last time point where that is past it; a
-- delay that is not positive ends now. No addition overflows.
pub sleep_deadline_lem :
    (now delay : ℕ)
    → now < 2 ^ 64
    → delay < 2 ^ 64
    → sleep_deadline now delay ≡ ok (min (2 ^ 64 - 1) (now + (delay - epoch)))
unfolding sleep_deadline
sleep_deadline_lem now delay small small' = ground (arith, small, small')
