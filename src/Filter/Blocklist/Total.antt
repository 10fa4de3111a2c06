-- ===== src/Filter/Blocklist/Total.antt =====
-- The rounds that the building of a blocklist takes.
use dns_pro.Base.{
  ℕ, zero, suc, ◌+◌, ◌-◌, ◌*◌, ◌/◌, ◌^◌, ◌≤◌, ◌<◌, sym, ap, ◌∙◌, ◌⊎◌, inl, inr, Bool, true, false,
  Option, none, some, List, [], ◌∷◌, arith, ltb, Bool-cases, length, ok, ◌>>◌, refuse_if, or_fail,
  Returns, Returns-bind,
}
use native.Mathlib.Nat.{pow-succ', mul_assoc}
use dns_pro.Protocol.Wire.{Bytes}
use dns_pro.Protocol.DomainName.{DomainName}
use dns_pro.Filter.RadixTree.{TrieNode, new_node}
use dns_pro.Filter.RadixTree
use dns_pro.Filter.Cuckoo.{CuckooFilter, new_filter, insert}
use dns_pro.Filter.Blocklist.{
  BuildFailure, DomainBlocklist, build_error, capacity_overflow, cancelled, length_error,
  insert_keys, insert_names, finish_candidate, try_candidate, build_loop, initial_bucket_count,
}

Returns-refuse_if : (test : Bool) (e : BuildFailure) → Returns (refuse_if test e)
Returns-refuse_if true e = tt
Returns-refuse_if false e = tt

Returns-or_fail : (o : Option CuckooFilter) (e : BuildFailure) → Returns (or_fail o e)
Returns-or_fail none e = tt
Returns-or_fail (some f) e = tt

module _ (hash : Bytes → ℕ) (stop_requested : ℕ → Bool) where
  insert_keys-Returns :
      (calls index : ℕ) (names : List DomainName) (f : CuckooFilter)
      → Returns (insert_keys hash stop_requested calls index names f)
  unfolding insert_keys
  insert_keys-Returns calls index [] f = tt
  insert_keys-Returns calls index (name ∷ names) f =
      Returns-bind (refuse_if (stop_requested calls) (build_error cancelled index)) _
        (Returns-refuse_if (stop_requested calls) (build_error cancelled index))
        (λ _ _. elim (Bool-cases (insert hash f name.canonical_key).1) [
          | inl placed ↦ rw placed (
              insert_keys-Returns (calls + 1) (index + 1) names
                (insert hash f name.canonical_key).0)
          | inr refused ↦ rw refused tt
        ])

  insert_names-Returns :
      (calls index : ℕ) (names : List DomainName) (t : TrieNode)
      → Returns (insert_names hash stop_requested calls index names t)
  unfolding insert_names
  insert_names-Returns calls index [] t = tt
  insert_names-Returns calls index (name ∷ names) t =
      Returns-bind (refuse_if (stop_requested calls) (build_error cancelled index)) _
        (Returns-refuse_if (stop_requested calls) (build_error cancelled index))
        (λ _ _. insert_names-Returns (calls + 1) (index + 1) names (RadixTree.insert name t).0)

  finish_candidate-Returns :
      (calls : ℕ) (inserted : CuckooFilter × Bool) (names : List DomainName)
      → Returns (finish_candidate hash stop_requested calls inserted names)
  unfolding finish_candidate
  finish_candidate-Returns calls (prefilter, false) names = tt
  finish_candidate-Returns calls (prefilter, true) names =
      Returns-bind (insert_names hash stop_requested calls 0 names new_node) _
        (insert_names-Returns calls 0 names new_node) (λ _ _. tt)

  try_candidate-Returns :
      (maximum_kicks calls bucket_count : ℕ) (names : List DomainName)
      → Returns (try_candidate hash stop_requested maximum_kicks calls bucket_count names)
  unfolding try_candidate
  try_candidate-Returns maximum_kicks calls bucket_count names =
      Returns-bind (refuse_if (stop_requested calls) (build_error cancelled 0)) _
        (Returns-refuse_if (stop_requested calls) (build_error cancelled 0))
        (λ _ _.
          Returns-bind (or_fail (new_filter bucket_count maximum_kicks) length_error) _
            (Returns-or_fail (new_filter bucket_count maximum_kicks) length_error)
            (λ empty _.
              Returns-bind (insert_keys hash stop_requested (calls + 1) 0 names empty) _
                (insert_keys-Returns (calls + 1) 0 names empty)
                (λ r _. finish_candidate-Returns r.1 r.0 names)))

  -- The rounds have to be enough to double the count to 2 ^ 64.
  build_loop-Returns :
      (fuel calls bucket_count : ℕ) (names : List DomainName)
      → bucket_count < 2 ^ 64
      → 2 ^ 64 ≤ bucket_count * 2 ^ fuel
      → Returns (build_loop hash stop_requested fuel calls bucket_count names)
  unfolding build_loop
  build_loop-Returns zero calls bucket_count names small enough = absurd (omega arith)
  build_loop-Returns (suc fuel) calls bucket_count names small enough =
      Returns-bind (try_candidate hash stop_requested 500 calls bucket_count names) _
        (try_candidate-Returns 500 calls bucket_count names)
        (λ tried _.
          again
            (λ calls' h. build_loop-Returns fuel calls' (bucket_count * 2) names h (
              omega (
                arith,
                enough,
                mul_assoc bucket_count 2 (2 ^ fuel)
                    ∙ ap (◌*◌ bucket_count) (sym (pow-succ' 2 fuel)),
              )))
            tried)
    where
      again :
          ((calls' : ℕ)
            → bucket_count * 2 < 2 ^ 64
            → Returns (build_loop hash stop_requested fuel calls' (bucket_count * 2) names))
          → (tried : DomainBlocklist ⊎ ℕ)
          → Returns {A = DomainBlocklist} (elim tried [
            | inl candidate ↦ ok candidate
            | inr calls' ↦
                refuse_if (ltb ((2 ^ 64 - 1) / 2) bucket_count) (build_error capacity_overflow 0)
                >> build_loop hash stop_requested fuel calls' (bucket_count * 2) names
          ])
      again next (inl candidate) = tt
      again next (inr calls') = elim (Bool-cases (ltb ((2 ^ 64 - 1) / 2) bucket_count)) [
        | inl large ↦ rw large tt
        | inr room ↦ rw room (next calls' (ground (arith, room)))
      ]

  -- From the bucket count that `build` starts with, for fewer than 2 ^ 64 names, the loop that builds
  -- a blocklist returns a blocklist, an error or an exception within its 65 rounds, whatever the
  -- filter refuses and whenever a stop is requested.
  pub Returns-build_loop :
      (calls : ℕ) (names : List DomainName)
      → length names < 2 ^ 64
      → Returns
          (build_loop hash stop_requested 65 calls (initial_bucket_count (length names)) names)
  unfolding initial_bucket_count
  Returns-build_loop calls names h =
      build_loop-Returns 65 calls (initial_bucket_count (length names)) names (ground (arith, h))
        (ground (arith, h))
