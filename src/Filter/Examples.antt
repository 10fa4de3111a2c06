-- ===== src/Filter/Examples.antt =====
-- Runs of the filter's structures and of their theorems: the rules a.bc and x, and a table of four
-- buckets under a concrete hash.
use dns_pro.Filter.Blocklist
use dns_pro.Filter.Cuckoo
use dns_pro.Filter.RadixTree
use dns_pro.Protocol.DomainName
use dns_pro.Base.{bytes_eq}
use dns_pro.Filter.Blocklist.{BuildFailure, DomainBlocklist, build_loop, matches}
use dns_pro.Filter.Blocklist.{initial_bucket_count}
use dns_pro.Filter.Blocklist.Total.{Returns-build_loop}
use dns_pro.Base.{Returns, ◌==◌}
use dns_pro.Filter.Blocklist.Matches.{build_loop-matches}
use dns_pro.Base.{
  Outcome, true, false, zero, ℕ, ◌≡◌, refl, ◌||◌, ◌<◌, ◌+◌, ◌^◌, suc, inl, List, [], ◌∷◌, arith, ok,
  length,
}
use dns_pro.Protocol.Wire.{Bytes}
use dns_pro.Protocol.DomainName.{DomainName, from_labels, check_labels}
use dns_pro.Protocol.DomainName.Valid.{IsDomain, named, from_labels-IsDomain}
use dns_pro.Filter.RadixTree.{new_node, insert_path, search}
use dns_pro.Filter.RadixTree.Paths.{ends_at, paths_eq, ends_at-insert_path}
use dns_pro.Filter.RadixTree.Rules.{insert_all, blocks, search-insert_all}
use dns_pro.Filter.Cuckoo.{
  CuckooFilter, no_failure, load_limited, calc_fp, alternate_index, index_of, bucket_at, insert,
  contains, insert_fp, find_fp, holds, splitmix64, load_limit, find_empty_slot,
}
use dns_pro.Filter.Cuckoo.Kicks.{IsTable}
use dns_pro.Filter.Cuckoo.Insert.{contains-insert}
use dns_pro.Filter.Cuckoo.Refused.{insert-IsUnchanged, IsUnchanged}
use dns_pro.Filter.Cuckoo.Index.{index_of-alternate_index}

abbrev rule_abc : List Bytes
rule_abc = (b'a' ∷ []) ∷ (b'b' ∷ b'c' ∷ []) ∷ []

abbrev rule_x : List Bytes
rule_x = (b'x' ∷ []) ∷ []

abbrev queried : List Bytes
queried = (b'w' ∷ []) ∷ rule_abc

rule_abc-from_labels : from_labels rule_abc ≡ ok (named rule_abc)
unfolding from_labels check_labels
rule_abc-from_labels = refl

rule_x-from_labels : from_labels rule_x ≡ ok (named rule_x)
unfolding from_labels check_labels
rule_x-from_labels = refl

queried-from_labels : from_labels queried ≡ ok (named queried)
unfolding from_labels check_labels
queried-from_labels = refl

accepted : (labels : List Bytes) → from_labels labels ≡ ok (named labels) → IsDomain (named labels)
accepted labels e = (from_labels-IsDomain labels (named labels) e).0

search-insert_all_example :
    search (named queried) (insert_all (named rule_abc ∷ named rule_x ∷ []) new_node)
    ≡ blocks (named rule_abc ∷ named rule_x ∷ []) (named queried)
search-insert_all_example =
    search-insert_all (named rule_abc ∷ named rule_x ∷ []) (named queried)
      (
        (accepted rule_abc rule_abc-from_labels, omega arith),
        ((accepted rule_x rule_x-from_labels, omega arith), tt),
      )
      (accepted queried queried-from_labels)

ends_at-insert_path_example :
    ends_at rule_x (insert_path rule_abc new_node).0
    ≡ (paths_eq rule_abc rule_x || ends_at rule_x new_node)
ends_at-insert_path_example = ends_at-insert_path rule_x rule_abc new_node

abbrev small_filter : CuckooFilter
small_filter = record {
  buckets =
      (0 ∷ 0 ∷ 0 ∷ 0 ∷ [])
      ∷ (7 ∷ 0 ∷ 0 ∷ 0 ∷ [])
      ∷ (0 ∷ 0 ∷ 0 ∷ 0 ∷ [])
      ∷ (0 ∷ 0 ∷ 0 ∷ 0 ∷ [])
      ∷ [];
  size = 1;
  maximum_kicks = 500;
  rng_state = 42;
  last_failure = no_failure;
}

abbrev toy_hash : Bytes → ℕ
toy_hash item = length item + 2 ^ 48

index_of-alternate_index_example :
    (let index1 = index_of toy_hash small_filter (b'x' ∷ []) in
      let fingerprint = calc_fp (toy_hash (b'x' ∷ [])) in
      let index2 = alternate_index 4 index1 fingerprint in
      (index1 < 4)
      × (index2 < 4)
      × (alternate_index 4 index2 fingerprint ≡ index1)
      × (0 < fingerprint)
      × (fingerprint < 2 ^ 16))
index_of-alternate_index_example =
    index_of-alternate_index toy_hash small_filter 2 (b'x' ∷ []) (omega arith) refl

small-IsTable : IsTable small_filter.buckets
unfolding bucket_at
small-IsTable = record { bits = 2; some_bit = omega arith; size = refl; four_slots = four }
  where
    four : (j : ℕ) → j < 4 → length (bucket_at small_filter.buckets j) ≡ 4
    four zero h = refl
    four (suc zero) h = refl
    four (suc (suc zero)) h = refl
    four (suc (suc (suc zero))) h = refl
    four (suc (suc (suc (suc j)))) h = absurd (omega arith)

abbrev grown : CuckooFilter
grown = (insert toy_hash small_filter (b'x' ∷ [])).0

small_filter-insert : insert toy_hash small_filter (b'x' ∷ []) ≡ (grown, true)
unfolding insert insert_fp find_fp holds bucket_at index_of calc_fp alternate_index splitmix64
    load_limit find_empty_slot
small_filter-insert = refl

contains-insert_example :
    (contains toy_hash grown (b'x' ∷ []) ≡ true)
    × IsTable grown.buckets
    × (length grown.buckets ≡ 4)
contains-insert_example =
    contains-insert toy_hash small_filter grown (b'x' ∷ []) (b'x' ∷ []) small-IsTable
      small_filter-insert (inl refl)

abbrev no_room : CuckooFilter
no_room = record small_filter { size = 15; last_failure = load_limited }

no_room-insert : insert toy_hash no_room (b'x' ∷ []) ≡ (no_room, false)
unfolding insert insert_fp find_fp holds bucket_at index_of calc_fp alternate_index splitmix64
    load_limit find_empty_slot
no_room-insert = refl

insert-IsUnchanged_example : IsUnchanged no_room no_room
insert-IsUnchanged_example =
    insert-IsUnchanged toy_hash no_room no_room (b'x' ∷ []) small-IsTable no_room-insert

abbrev two_rules : List DomainName
two_rules = named rule_abc ∷ named rule_x ∷ []

abbrev candidate_of : Outcome BuildFailure DomainBlocklist → DomainBlocklist
candidate_of (ok b) = b
candidate_of _ = record {
  prefilter = small_filter;
  tree = new_node;
  rule_count = 0;
  normalized_rule_bytes = 0;
}

abbrev two_rule_list : DomainBlocklist
two_rule_list = candidate_of (build_loop toy_hash (λ _. false) 65 1 4 two_rules)

two_rules-build_loop : build_loop toy_hash (λ _. false) 65 1 4 two_rules ≡ ok two_rule_list
unfolding build_loop Blocklist.try_candidate Blocklist.insert_keys Blocklist.finish_candidate
    Blocklist.insert_names Cuckoo.new_filter Cuckoo.normalize_bucket_count Cuckoo.bit_ceil_from
    Cuckoo.replicate_bucket Cuckoo.empty_from Cuckoo.set_slot insert insert_fp find_fp holds
    bucket_at index_of calc_fp alternate_index splitmix64 load_limit find_empty_slot
    DomainName.key_of DomainName.canonical_label DomainName.label_offset DomainName.ascii_lower
    RadixTree.insert insert_path RadixTree.at_child RadixTree.labels_backwards bytes_eq
two_rules-build_loop = refl

build_loop-matches_example :
    matches toy_hash two_rule_list (named queried) ≡ blocks two_rules (named queried)
build_loop-matches_example =
    build_loop-matches toy_hash (λ _. false) 65 1 4 two_rules two_rule_list (named queried)
      two_rules-build_loop
      (
        (accepted rule_abc rule_abc-from_labels, omega arith),
        ((accepted rule_x rule_x-from_labels, omega arith), tt),
      )
      (accepted queried queried-from_labels)

Returns-build_loop_example :
    Returns (build_loop toy_hash (λ calls. calls == 3) 65 1 (initial_bucket_count 2) two_rules)
Returns-build_loop_example =
    Returns-build_loop toy_hash (λ calls. calls == 3) 1 two_rules (omega arith)
