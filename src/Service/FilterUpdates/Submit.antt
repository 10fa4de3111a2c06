-- ===== src/Service/FilterUpdates/Submit.antt =====
-- Which submissions are queued.
use dns_pro.Base.{
  ℕ, ◌+◌, ◌≤◌, ◌<◌, ◌≡◌, refl, sym, subst, ◌⊎◌, inl, inr, false, none, some, List, arith,
  Option-cases, length, Ensures, Ensures-mono,
}
use dns_pro.Protocol.Wire.{Bytes}
use dns_pro.Service.FilterUpdates.{
  FilterUpdateError, FilterUpdateController, maximum_pending_updates, rejection, enqueue,
  answer_new, submit_measured, submit_with, submit_replace,
}
use dns_pro.Service.FilterUpdates.Rules.{Fits, raw_total, validate_filter_rule_set_lem}
use dns_pro.Service.FilterUpdates.Queue.{
  IsController, enqueue-IsController, answer_new-IsController,
}

-- When an update is accepted.
abbrev pub MayQueue : FilterUpdateController → List Bytes → Type 0
MayQueue c rules =
    Fits rules c.limits
    × (c.sealed ≡ false)
    × (length c.pending < maximum_pending_updates)
    × (c.queued_rule_bytes + raw_total rules ≤ c.limits.maximum_queued_rule_bytes)

rejection-cases :
    (c : FilterUpdateController) (size : ℕ)
    → IsController c
    → ((rejection c size ≡ none)
        × (c.sealed ≡ false)
        × (length c.pending < maximum_pending_updates)
        × (c.queued_rule_bytes + size ≤ c.limits.maximum_queued_rule_bytes))
      ⊎ ((error : FilterUpdateError) × (rejection c size ≡ some error)
          × (¬ (
              (c.sealed ≡ false)
              × (length c.pending < maximum_pending_updates)
              × (c.queued_rule_bytes + size ≤ c.limits.maximum_queued_rule_bytes))))
unfolding rejection
rejection-cases c size w = elim (Option-cases (rejection c size)) [
  | inl e ↦ inl (e, ground (arith, e), ground (arith, e), ground (arith, e, w.bounded))
  | inr (error, e) ↦ inr (error, e, λ h. ground (arith, e, h.0, h.1, h.2, w.bounded))
]

pub submit_replace_lem :
    (c : FilterUpdateController) (rules : List Bytes)
    → IsController c
    → Ensures
        (λ after.
          (MayQueue c rules × (after ≡ enqueue c rules (raw_total rules)))
          ⊎ ((¬ MayQueue c rules) × ((error : FilterUpdateError) × (after ≡ answer_new c error))))
        (submit_replace c rules)
unfolding submit_replace submit_with submit_measured
submit_replace_lem c rules w = elim (validate_filter_rule_set_lem rules c.limits) [
  | inl (fits, e) ↦ elim (rejection-cases c (raw_total rules) w) [
    | inl (none_why, unsealed, room, bytes) ↦
        rw (e, none_why, submit_with, submit_measured) (inl ((fits, unsealed, room, bytes), refl))
    | inr (error, why, may_not) ↦
        rw (e, why, submit_with, submit_measured)
          (inr (λ h. may_not (h.1, h.2, h.3), (error, refl)))
  ]
  | inr (inl (over, (error, e, code))) ↦
      rw (e, submit_with) (inr (λ h. omega (arith, over, h.0.0), (error, refl)))
  | inr (inr (_, unfit, (error, e, code))) ↦
      rw (e, submit_with) (inr (λ h. unfit h.0, (error, refl)))
]

pub submit_replace-IsController :
    (c : FilterUpdateController) (rules : List Bytes)
    → IsController c
    → Ensures IsController (submit_replace c rules)
submit_replace-IsController c rules w =
    Ensures-mono _ IsController (submit_replace c rules) (submit_replace_lem c rules w) (λ after h.
      elim h [
        | inl ((_, unsealed, room, fits), same) ↦
            subst IsController (sym same)
              (enqueue-IsController c rules (raw_total rules) w unsealed room fits)
        | inr (_, (error, same)) ↦ subst IsController (sym same) (answer_new-IsController c error w)
      ])
