-- ===== src/Filter/Blocklist.antt =====
-- DomainBlocklist.h and DomainBlocklist.cpp. The n-th call of stop_requested() answers
-- `stop_requested n`, and the number of calls made is passed along. The set of keys is the list of
-- them. The constructor of the Cuckoo filter throws for a count that is too large: `length_error`.
pub mod Matches
pub mod Total
use dns_pro.Base.{
  ℕ, zero, suc, ◌+◌, ◌-◌, ◌*◌, ◌/◌, ◌^◌, ◌⊎◌, inl, inr, Bool, true, false, ◌&&◌, ◌||◌, List, [],
  ◌∷◌, ◌++◌, ltb, ◌==◌, if◌then◌else◌, length, bytes_eq, Outcome, ok, err, out_of_bounds,
  out_of_fuel, ◌>>=◌, ◌>>◌, refuse_if, or_fail,
}
use dns_pro.Protocol.Wire.{Bytes}
use dns_pro.Protocol.DomainName.{DomainName, from_text, is_root, canonical_suffix_key}
use dns_pro.Filter.RadixTree
use dns_pro.Filter.RadixTree.{TrieNode, new_node, search}
use dns_pro.Filter.Cuckoo
use dns_pro.Filter.Cuckoo.{CuckooFilter, new_filter, contains}

pub data BlocklistBuildErrorCode : Type 0 where
  invalid_domain root_rule_not_allowed wildcard_not_supported : BlocklistBuildErrorCode
  capacity_overflow cancelled : BlocklistBuildErrorCode

-- A BlocklistBuildError, or the exception of the Cuckoo filter's constructor.
pub data BuildFailure : Type 0 where
  build_error : BlocklistBuildErrorCode → ℕ → BuildFailure
  length_error : BuildFailure

pub record DomainBlocklist : Type 0 where
  pub prefilter : CuckooFilter
  pub tree : TrieNode
  pub rule_count : ℕ
  pub normalized_rule_bytes : ℕ

label_has_wildcard : Bytes → Bool
label_has_wildcard [] = false
label_has_wildcard (c ∷ label) = c == b'*' || c == b'?' || label_has_wildcard label

labels_have_wildcard : List Bytes → Bool
unfolding label_has_wildcard
labels_have_wildcard [] = false
labels_have_wildcard (label ∷ labels) = label_has_wildcard label || labels_have_wildcard labels

unfoldable pub contains_unsupported_wildcard : DomainName → Bool
unfolding labels_have_wildcard
contains_unsupported_wildcard name = labels_have_wildcard name.labels

unfoldable pub initial_bucket_count : ℕ → ℕ
initial_bucket_count item_count = if ltb item_count 4 then 4 else item_count / 3 + 1

is_member : List Bytes → Bytes → Bool
is_member [] key = false
is_member (k ∷ keys) key = bytes_eq k key || is_member keys key

-- The name of a rule, if it is one that the blocklist takes.
unfoldable pub parse_rule : Bytes → ℕ → Outcome BuildFailure DomainName
parse_rule text index = elim (from_text text) [
  | ok name ↦
      refuse_if (is_root name) (build_error root_rule_not_allowed index)
      >> (refuse_if (contains_unsupported_wildcard name) (build_error wildcard_not_supported index)
          >> ok name)
  | err e ↦ err (build_error invalid_domain index)
  | out_of_bounds ↦ out_of_bounds
  | out_of_fuel ↦ out_of_fuel
]

abbrev total_key_bytes : List DomainName → ℕ
total_key_bytes [] = 0
total_key_bytes (rule ∷ rules) = length rule.canonical_key + total_key_bytes rules

module _ (hash : Bytes → ℕ) (stop_requested : ℕ → Bool) where
  -- The loop over the rules: the names, each once, and the calls of stop_requested made.
  unfoldable pub collect_rules :
      ℕ → ℕ → List Bytes → List Bytes → List DomainName → Outcome BuildFailure (List DomainName × ℕ)
  unfolding is_member
  collect_rules calls index [] unique_rules canonical_rules = ok (canonical_rules, calls)
  collect_rules calls index (text ∷ rules) unique_rules canonical_rules = do
    refuse_if (stop_requested calls) (build_error cancelled index)
    name ← parse_rule text index
    elim (is_member unique_rules name.canonical_key) [
      | true ↦ collect_rules (calls + 1) (index + 1) rules unique_rules canonical_rules
      | false ↦
          collect_rules (calls + 1) (index + 1) rules (name.canonical_key ∷ unique_rules)
            (canonical_rules ++ name ∷ [])
    ]

  -- The prefilter with all keys, or false behind the first key that it refuses.
  unfoldable pub insert_keys :
      ℕ → ℕ → List DomainName → CuckooFilter → Outcome BuildFailure ((CuckooFilter × Bool) × ℕ)
  insert_keys calls index [] prefilter = ok ((prefilter, true), calls)
  insert_keys calls index (name ∷ names) prefilter =
      refuse_if (stop_requested calls) (build_error cancelled index)
      >> (let (prefilter', placed) = Cuckoo.insert hash prefilter name.canonical_key in
          elim placed [
            | true ↦ insert_keys (calls + 1) (index + 1) names prefilter'
            | false ↦ ok ((prefilter', false), calls + 1)
          ])

  unfoldable pub insert_names : ℕ → ℕ → List DomainName → TrieNode → Outcome BuildFailure TrieNode
  insert_names calls index [] tree = ok tree
  insert_names calls index (name ∷ names) tree =
      refuse_if (stop_requested calls) (build_error cancelled index)
      >> insert_names (calls + 1) (index + 1) names (RadixTree.insert name tree).0

  unfoldable pub finish_candidate :
      ℕ → CuckooFilter × Bool → List DomainName → Outcome BuildFailure (DomainBlocklist ⊎ ℕ)
  finish_candidate calls (prefilter, false) names = ok (inr calls)
  finish_candidate calls (prefilter, true) names = insert_names calls 0 names new_node >>= λ tree.
      ok (
        inl (record {
          prefilter = prefilter;
          tree = tree;
          rule_count = length names;
          normalized_rule_bytes = total_key_bytes names;
        }))

  -- A candidate whose prefilter took all keys, or the calls made.
  unfoldable pub try_candidate :
      ℕ → ℕ → ℕ → List DomainName → Outcome BuildFailure (DomainBlocklist ⊎ ℕ)
  try_candidate maximum_kicks calls bucket_count names = do
    refuse_if (stop_requested calls) (build_error cancelled 0)
    empty ← or_fail (new_filter bucket_count maximum_kicks) length_error
    (inserted, calls') ← insert_keys (calls + 1) 0 names empty
    finish_candidate calls' inserted names

  -- Each further round doubles the count, which 64 rounds bring to the end of size_t.
  unfoldable pub build_loop : ℕ → ℕ → ℕ → List DomainName → Outcome BuildFailure DomainBlocklist
  build_loop zero calls bucket_count names = out_of_fuel
  build_loop (suc fuel) calls bucket_count names =
      try_candidate 500 calls bucket_count names >>= λ tried. elim tried [
        | inl candidate ↦ ok candidate
        | inr calls' ↦
            refuse_if (ltb ((2 ^ 64 - 1) / 2) bucket_count) (build_error capacity_overflow 0)
            >> build_loop fuel calls' (bucket_count * 2) names
      ]

  unfoldable pub build : List Bytes → Outcome BuildFailure DomainBlocklist
  build rules = do
    refuse_if (stop_requested 0) (build_error cancelled 0)
    (names, calls) ← collect_rules 1 0 rules [] []
    build_loop 65 calls (initial_bucket_count (length names)) names

module _ (hash : Bytes → ℕ) where
  unfoldable pub any_suffix : CuckooFilter → DomainName → ℕ → ℕ → Bool
  any_suffix prefilter query first_label zero = false
  any_suffix prefilter query first_label (suc more) =
      contains hash prefilter (canonical_suffix_key query first_label)
      || any_suffix prefilter query (first_label + 1) more

  unfoldable pub matches : DomainBlocklist → DomainName → Bool
  unfolding any_suffix
  matches b query = any_suffix b.prefilter query 0 (length query.labels) && search query b.tree

  unfoldable pub matches_text : DomainBlocklist → Bytes → Bool
  matches_text b query = elim (from_text query) [ ok name ↦ matches b name | _ ↦ false ]
