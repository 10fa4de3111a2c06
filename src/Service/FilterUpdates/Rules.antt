-- ===== src/Service/FilterUpdates/Rules.antt =====
-- The limits on a set of rules.
use dns_pro.Base.{
  ℕ, ◌+◌, ◌≤◌, ◌<◌, ◌≡◌, refl, sym, ap, ap₂, ◌∙◌, subst, ◌⊎◌, inl, inr, List, [], ◌∷◌, arith, ltb,
  Bool-cases, length, Outcome, ok, err, out_of_bounds, out_of_fuel, Returns,
}
use dns_pro.Protocol.Wire.{Bytes}
use dns_pro.Protocol.DomainName.{DomainName, DomainNameError, from_text}
use dns_pro.Protocol.DomainName.Total.{Returns-from_text}
use dns_pro.Service.FilterUpdates.{
  FilterUpdateErrorCode, rule_count_limit_exceeded, rule_bytes_limit_exceeded, FilterUpdateError,
  FilterUpdateLimits, FilterRuleMeasurement, exceeds, measure_name, measure_rule, measure_rules,
  validate_filter_rule_set, update_error, bytes_error,
}

-- The bytes of all rules, and of the keys of those that are names.
abbrev pub raw_total : List Bytes → ℕ
raw_total [] = 0
raw_total (rule ∷ rules) = length rule + raw_total rules

abbrev pub key_size : Outcome DomainNameError DomainName → ℕ
key_size (ok name) = length name.canonical_key
key_size (err e) = 0
key_size out_of_bounds = 0
key_size out_of_fuel = 0

abbrev pub normalized_total : List Bytes → ℕ
normalized_total [] = 0
normalized_total (rule ∷ rules) = key_size (from_text rule) + normalized_total rules

abbrev pub total_of : FilterRuleMeasurement → List Bytes → FilterRuleMeasurement
total_of m rules = record {
  raw_bytes = m.raw_bytes + raw_total rules;
  normalized_bytes = m.normalized_bytes + normalized_total rules;
}

abbrev pub FitsBytes : FilterUpdateLimits → FilterRuleMeasurement → Type 0
FitsBytes limits m =
    (m.raw_bytes ≤ limits.maximum_normalized_rule_bytes)
    × (m.normalized_bytes ≤ limits.maximum_normalized_rule_bytes)

abbrev pub IsRefused : {A : Type 0} → Outcome FilterUpdateError A → FilterUpdateErrorCode → Type 0
IsRefused m code = (e : FilterUpdateError) × (m ≡ err e) × (e.code ≡ code)

-- The measurement after a rule.
abbrev pub add_rule : FilterRuleMeasurement → Bytes → FilterRuleMeasurement
add_rule m rule = record {
  raw_bytes = m.raw_bytes + length rule;
  normalized_bytes = m.normalized_bytes + key_size (from_text rule);
}

measurement :
    {raw raw' bytes bytes' : ℕ}
    → raw ≡ raw'
    → bytes ≡ bytes'
    → Path FilterRuleMeasurement
        (record { raw_bytes = raw; normalized_bytes = bytes })
        (record { raw_bytes = raw'; normalized_bytes = bytes' })
measurement e f = ap₂ (λ (r n : ℕ). record { raw_bytes = r; normalized_bytes = n }) e f

measure_name_lem :
    (limits : FilterUpdateLimits) (m : FilterRuleMeasurement)
    (parsed : Outcome DomainNameError DomainName)
    → Returns parsed
    → m.normalized_bytes ≤ limits.maximum_normalized_rule_bytes
    → ((m.normalized_bytes + key_size parsed ≤ limits.maximum_normalized_rule_bytes)
        × (measure_name limits m parsed
            ≡ ok (record m { normalized_bytes = m.normalized_bytes + key_size parsed })))
      ⊎ ((limits.maximum_normalized_rule_bytes < m.normalized_bytes + key_size parsed)
          × IsRefused (measure_name limits m parsed) rule_bytes_limit_exceeded)
unfolding measure_name
measure_name_lem limits m (ok name) h fits =
    elim (Bool-cases (
      exceeds (length name.canonical_key) m.normalized_bytes
        limits.maximum_normalized_rule_bytes)) [
          | inl over ↦ inr (
            ground (arith, over, fits),
            (
              bytes_error limits m.normalized_bytes (length name.canonical_key),
              ground (arith, over),
              refl,
            ),
          )
          | inr under ↦ inl (ground (arith, under, fits), ground (arith, under))
        ]
measure_name_lem limits m (err e) h fits =
    inl (omega (arith, fits), ap ok (measurement refl (omega arith)))
measure_name_lem limits m out_of_bounds h fits = absurd h
measure_name_lem limits m out_of_fuel h fits = absurd h

measure_rule_lem :
    (limits : FilterUpdateLimits) (m : FilterRuleMeasurement) (rule : Bytes)
    → FitsBytes limits m
    → (FitsBytes limits (add_rule m rule) × (measure_rule limits m rule ≡ ok (add_rule m rule)))
      ⊎ ((¬ FitsBytes limits (add_rule m rule))
          × IsRefused (measure_rule limits m rule) rule_bytes_limit_exceeded)
unfolding measure_rule
measure_rule_lem limits m rule fits =
    elim (Bool-cases (exceeds (length rule) m.raw_bytes limits.maximum_normalized_rule_bytes)) [
      | inl over ↦ inr (
        λ h. ground (arith, over, fits.0, h.0),
        (bytes_error limits m.raw_bytes (length rule), ground (arith, over), refl),
      )
      | inr under ↦
          let longer : FilterRuleMeasurement = record m { raw_bytes = m.raw_bytes + length rule } in
          elim (measure_name_lem limits longer (from_text rule) (Returns-from_text rule) fits.1) [
            | inl (small, e) ↦
                inl ((ground (arith, under, fits.0), small), ground (arith, under, e))
            | inr (big, (error, e, code)) ↦
                inr (λ h. omega (arith, big, h.1), (error, ground (arith, under, e), code))
          ]
    ]

measure_rules_lem :
    (limits : FilterUpdateLimits) (m : FilterRuleMeasurement) (rules : List Bytes)
    → FitsBytes limits m
    → (FitsBytes limits (total_of m rules) × (measure_rules limits m rules ≡ ok (total_of m rules)))
      ⊎ ((¬ FitsBytes limits (total_of m rules))
          × IsRefused (measure_rules limits m rules) rule_bytes_limit_exceeded)
unfolding measure_rules
measure_rules_lem limits m [] fits =
    let same : m ≡ total_of m [] = measurement (omega arith) (omega arith) in
    inl (subst (FitsBytes limits) same fits, ap ok same)
measure_rules_lem limits m (rule ∷ rules) fits =
    let same : total_of (add_rule m rule) rules ≡ total_of m (rule ∷ rules) =
      measurement (omega arith) (omega arith) in
    elim (measure_rule_lem limits m rule fits) [
      | inl (fits', e) ↦ elim (measure_rules_lem limits (add_rule m rule) rules fits') [
        | inl (fits'', e') ↦
            inl (subst (FitsBytes limits) same fits'', ground (arith, e) ∙ e' ∙ ap ok same)
        | inr (over, (error, e', code)) ↦ inr (
          λ h. over (subst (FitsBytes limits) (sym same) h),
          (error, ground (arith, e) ∙ e', code),
        )
      ]
      | inr (over, (error, e, code)) ↦
          inr (λ h. over (omega (arith, h.0), omega (arith, h.1)), (error, ground (arith, e), code))
    ]

abbrev pub Fits : List Bytes → FilterUpdateLimits → Type 0
Fits rules limits =
    (length rules ≤ limits.maximum_rule_count)
    × (raw_total rules ≤ limits.maximum_normalized_rule_bytes)
    × (normalized_total rules ≤ limits.maximum_normalized_rule_bytes)

-- A set of rules is accepted exactly when it has no more rules than the limit, and neither the bytes
-- of all rules nor those of the keys of its names are more than the limit; the measurement is then
-- these two sums. Otherwise the error names the count, where that is too large, or else the bytes.
pub validate_filter_rule_set_lem :
    (rules : List Bytes) (limits : FilterUpdateLimits)
    → (Fits rules limits
        × (validate_filter_rule_set rules limits
            ≡ ok (record {
              raw_bytes = raw_total rules;
              normalized_bytes = normalized_total rules;
            })))
      ⊎ ((limits.maximum_rule_count < length rules)
          × IsRefused (validate_filter_rule_set rules limits) rule_count_limit_exceeded)
      ⊎ ((length rules ≤ limits.maximum_rule_count)
          × (¬ Fits rules limits)
          × IsRefused (validate_filter_rule_set rules limits) rule_bytes_limit_exceeded)
unfolding validate_filter_rule_set
validate_filter_rule_set_lem rules limits =
    let nothing : FilterRuleMeasurement = record { raw_bytes = 0; normalized_bytes = 0 } in
    let same : total_of nothing rules
        ≡ record { raw_bytes = raw_total rules; normalized_bytes = normalized_total rules } =
      measurement (omega arith) (omega arith) in
    elim (Bool-cases (ltb limits.maximum_rule_count (length rules))) [
      | inl over ↦ inr (
          inl (
            ground (arith, over),
            (
              update_error rule_count_limit_exceeded (length rules) limits.maximum_rule_count,
              ground (arith, over),
              refl,
            ),
          ))
      | inr under ↦ elim (measure_rules_lem limits nothing rules (omega arith, omega arith)) [
        | inl (fits, e) ↦ inl (
          (ground (arith, under), omega (arith, fits.0), omega (arith, fits.1)),
          ground (arith, under) ∙ e ∙ ap ok same,
        )
        | inr (big, (error, e, code)) ↦ inr (
            inr (
              ground (arith, under),
              λ h. big (omega (arith, h.1), omega (arith, h.2)),
              (error, ground (arith, under) ∙ e, code),
            ))
      ]
    ]
