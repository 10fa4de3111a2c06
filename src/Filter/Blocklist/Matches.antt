-- ===== src/Filter/Blocklist/Matches.antt =====
-- What a blocklist that was built answers.
use dns_pro.Base.{
  ℕ, zero, suc, ◌+◌, ◌-◌, ◌*◌, ◌/◌, ◌^◌, ◌≤◌, ◌<◌, ◌≡◌, refl, sym, ap, ◌∙◌, ◌⊎◌, inl, inr, Bool,
  true, false, Option, none, some, List, [], ◌∷◌, map, arith, ltb, ◌==◌, Bool-cases, length, drop,
  All, length-append, length-map, Outcome, ok, ◌>>◌, refuse_if, or_fail, bind-eq-ok,
}
use dns_pro.Protocol.Wire.{Bytes}
use dns_pro.Protocol.DomainName.{DomainName, ascii_lower, is_subdomain_of, canonical_suffix_key}
use dns_pro.Protocol.DomainName.Valid.{IsDomain, from_labels_iff}
use dns_pro.Protocol.DomainName.Canonical.{
  lowered, is_subdomain_of_iff, canonical_suffix_key_lem, key_of-lowered, EndsWith-drop,
}
use dns_pro.Filter.RadixTree.{TrieNode, new_node, search}
use dns_pro.Filter.RadixTree
use dns_pro.Filter.RadixTree.Rules.{insert_all, blocks, IsRule, search-insert_all}
use dns_pro.Filter.Cuckoo.{CuckooFilter, insert, contains}
use dns_pro.Filter.Cuckoo.Kicks.{IsTable}
use dns_pro.Filter.Cuckoo.Insert.{contains-insert}
use dns_pro.Filter.Cuckoo.{new_filter}
use dns_pro.Filter.Cuckoo.Fresh.{new_filter-IsTable}
use dns_pro.Filter.Blocklist.{
  length_error, build_error, capacity_overflow, cancelled, total_key_bytes, build_loop,
  BuildFailure, DomainBlocklist, insert_keys, insert_names, finish_candidate, try_candidate,
  matches, any_suffix,
}

module _ (hash : Bytes → ℕ) where
  -- A suffix of the query whose key the prefilter contains is found.
  any_suffix-contains :
      (prefilter : CuckooFilter) (query : DomainName) (first more n : ℕ)
      → first ≤ n
      → n < first + more
      → contains hash prefilter (canonical_suffix_key query n) ≡ true
      → any_suffix hash prefilter query first more ≡ true
  unfolding any_suffix
  any_suffix-contains prefilter query first zero n h k found = absurd (omega arith)
  any_suffix-contains prefilter query first (suc more) n h k found =
      elim (Bool-cases (first == n)) [
        | inl here ↦ ground (arith, found, here)
        | inr later ↦
            let rest =
              any_suffix-contains prefilter query (first + 1) more n (ground (arith, later))
                (omega arith) found in
            ground (arith, rest)
      ]

  -- The key of a rule above the query is a suffix key of the query.
  suffix_key-rule :
      (query rule : DomainName)
      → IsDomain query
      → IsRule rule
      → is_subdomain_of query rule ≡ true
      → (n : ℕ) × (n < length query.labels) × (canonical_suffix_key query n ≡ rule.canonical_key)
  suffix_key-rule query rule domain (is_domain, not_root) below =
      let ends = (is_subdomain_of_iff query rule).0 below in
      let n : ℕ = length query.labels - length rule.labels in
      let size : length rule.labels ≤ length query.labels = omega (
        arith,
        ap length ends.1,
        length-append ends.0 (lowered rule.labels),
        length-map (map ascii_lower) query.labels,
        length-map (map ascii_lower) rule.labels,
      ) in
      (
        n,
        omega arith,
        canonical_suffix_key_lem query.labels query n
              ((from_labels_iff query.labels query).1 domain) (omega arith)
            ∙ key_of-lowered (drop n query.labels) rule.labels
                (EndsWith-drop query.labels rule.labels ends)
            ∙ ap (λ d. d.canonical_key) (sym is_domain.1),
      )

  blocks-any_suffix :
      (prefilter : CuckooFilter) (names : List DomainName) (query : DomainName)
      → IsDomain query
      → All IsRule names
      → All (λ name. contains hash prefilter name.canonical_key ≡ true) names
      → blocks names query ≡ true
      → any_suffix hash prefilter query 0 (length query.labels) ≡ true
  unfolding blocks
  blocks-any_suffix prefilter [] query domain rules held e = absurd (ground (arith, e))
  blocks-any_suffix prefilter (name ∷ names) query domain (rule, rules) (held, rest) e =
      elim (Bool-cases (is_subdomain_of query name)) [
        | inl below ↦
            let (n, inside, same) = suffix_key-rule query name domain rule below in
            any_suffix-contains prefilter query 0 (length query.labels) n (omega arith)
              (omega arith) (ap (contains hash prefilter) same ∙ held)
        | inr above ↦
            blocks-any_suffix prefilter names query domain rules rest (ground (arith, above, e))
      ]

or_fail-ok :
    (o : Option CuckooFilter) (f : CuckooFilter) → or_fail o length_error ≡ ok f → o ≡ some f
or_fail-ok none f e = absurd (ground (arith, e))
or_fail-ok (some g) f e = ground (arith, e)

abbrev built : CuckooFilter → TrieNode → List DomainName → DomainBlocklist
built prefilter tree names = record {
  prefilter = prefilter;
  tree = tree;
  rule_count = length names;
  normalized_rule_bytes = total_key_bytes names;
}

module _ (hash : Bytes → ℕ) (stop_requested : ℕ → Bool) where
  insert_keys-cons :
      (calls index : ℕ) (name : DomainName) (names : List DomainName) (f f' : CuckooFilter)
      (calls' : ℕ)
      → insert_keys hash stop_requested calls index (name ∷ names) f ≡ ok ((f', true), calls')
      → (g : CuckooFilter) × (insert hash f name.canonical_key ≡ (g, true))
        × (insert_keys hash stop_requested (calls + 1) (index + 1) names g
            ≡ ok ((f', true), calls'))
  unfolding insert_keys
  insert_keys-cons calls index name names f f' calls' e =
      let (_, _, inner) = bind-eq-ok (refuse_if (stop_requested calls) _) _ e in
      let r : CuckooFilter × Bool = insert hash f name.canonical_key in
      elim (Bool-cases r.1) [
        | inl placed ↦ (r.0, ap (λ b. (r.0, b)) placed, ground (arith, placed, inner))
        | inr refused ↦ absurd (ground (arith, refused, inner))
      ]

  insert_names-all :
      (calls index : ℕ) (names : List DomainName) (t t' : TrieNode)
      → insert_names hash stop_requested calls index names t ≡ ok t'
      → t' ≡ insert_all names t
  unfolding insert_names insert_all
  insert_names-all calls index [] t t' e = ground (arith, e)
  insert_names-all calls index (name ∷ names) t t' e =
      let (_, _, inner) = bind-eq-ok (refuse_if (stop_requested calls) _) _ e in
      insert_names-all (calls + 1) (index + 1) names (RadixTree.insert name t).0 t' inner

  insert_keys-nil :
      (calls index : ℕ) (f f' : CuckooFilter) (calls' : ℕ)
      → insert_keys hash stop_requested calls index [] f ≡ ok ((f', true), calls')
      → f ≡ f'
  unfolding insert_keys
  insert_keys-nil calls index f f' calls' e = ground (arith, e)

  -- A prefilter that took every key contains them all, and what it contained before.
  insert_keys-contains :
      (calls index : ℕ) (names : List DomainName) (f f' : CuckooFilter) (calls' : ℕ)
      → IsTable f.buckets
      → insert_keys hash stop_requested calls index names f ≡ ok ((f', true), calls')
      → All (λ name. contains hash f' name.canonical_key ≡ true) names
        × ((other : Bytes) → contains hash f other ≡ true → contains hash f' other ≡ true)
  insert_keys-contains calls index [] f f' calls' t e =
      let same : f ≡ f' = insert_keys-nil calls index f f' calls' e in
      (tt, λ other h. sym (ap (λ g. contains hash g other) same) ∙ h)
  insert_keys-contains calls index (name ∷ names) f f' calls' t e =
      let key : Bytes = name.canonical_key in
      let (g, placed, rest) = insert_keys-cons calls index name names f f' calls' e in
      let (here, t', _) = contains-insert hash f g key key t placed (inl refl) in
      let (all, kept) = insert_keys-contains (calls + 1) (index + 1) names g f' calls' t' rest in
      (
        (kept key here, all),
        λ other h. kept other ((contains-insert hash f g key other t placed (inr h)).0),
      )

  matches-candidate :
      (b : DomainBlocklist) (names : List DomainName) (query : DomainName)
      → All IsRule names
      → IsDomain query
      → All (λ name. contains hash b.prefilter name.canonical_key ≡ true) names
      → b.tree ≡ insert_all names new_node
      → matches hash b query ≡ blocks names query
  unfolding matches
  matches-candidate b names query rules domain held is_tree =
      let searched = ap (search query) is_tree ∙ search-insert_all names query rules domain in
      elim (Bool-cases (blocks names query)) [
        | inl blocked ↦ ground (
          arith,
          searched,
          blocked,
          blocks-any_suffix hash b.prefilter names query domain rules held blocked,
        )
        | inr allowed ↦ ground (arith, searched, allowed)
      ]

  finish_candidate-inl :
      (calls : ℕ) (inserted : CuckooFilter × Bool) (names : List DomainName) (b : DomainBlocklist)
      → finish_candidate hash stop_requested calls inserted names ≡ ok (inl b)
      → (inserted ≡ (b.prefilter, true)) × (b.tree ≡ insert_all names new_node)
  unfolding finish_candidate
  finish_candidate-inl calls (prefilter, false) names b e = absurd (ground (arith, e))
  finish_candidate-inl calls (prefilter, true) names b e =
      let (tree, made, is) =
        bind-eq-ok (insert_names hash stop_requested calls 0 names new_node) _ e in
      let same : built prefilter tree names ≡ b = ground (arith, is) in
      (
        ap (λ (c : DomainBlocklist). (c.prefilter, true)) same,
        sym (ap (λ (c : DomainBlocklist). c.tree) same)
            ∙ insert_names-all calls 0 names new_node tree made,
      )

  try_candidate-matches :
      (maximum_kicks calls bucket_count : ℕ) (names : List DomainName) (b : DomainBlocklist)
      (query : DomainName)
      → try_candidate hash stop_requested maximum_kicks calls bucket_count names ≡ ok (inl b)
      → All IsRule names
      → IsDomain query
      → matches hash b query ≡ blocks names query
  unfolding try_candidate
  try_candidate-matches maximum_kicks calls bucket_count names b query e rules domain =
      let (_, _, e1) =
        bind-eq-ok (refuse_if (stop_requested calls) (build_error cancelled 0)) _ e in
      let (empty, is_empty, e2) =
        bind-eq-ok (or_fail (new_filter bucket_count maximum_kicks) length_error) _ e1 in
      let ((inserted, calls'), keys, e3) =
        bind-eq-ok (insert_keys hash stop_requested (calls + 1) 0 names empty) _ e2 in
      let (took, is_tree) = finish_candidate-inl calls' inserted names b e3 in
      let t =
        new_filter-IsTable bucket_count maximum_kicks empty
          (or_fail-ok (new_filter bucket_count maximum_kicks) empty is_empty) in
      let (held, _) =
        insert_keys-contains (calls + 1) 0 names empty b.prefilter calls' t
          (keys ∙ ap (λ i. ok (i, calls')) took) in
      matches-candidate b names query rules domain held is_tree

  -- What a round of the loop does with its candidate.
  abbrev after_try :
      ℕ → ℕ → List DomainName → DomainBlocklist ⊎ ℕ → Outcome BuildFailure DomainBlocklist
  after_try fuel bucket_count names tried = elim tried [
    | inl candidate ↦ ok candidate
    | inr calls' ↦
        refuse_if (ltb ((2 ^ 64 - 1) / 2) bucket_count) (build_error capacity_overflow 0)
        >> build_loop hash stop_requested fuel calls' (bucket_count * 2) names
  ]

  after_try-cases :
      (fuel bucket_count : ℕ) (names : List DomainName) (tried : DomainBlocklist ⊎ ℕ)
      (b : DomainBlocklist)
      → after_try fuel bucket_count names tried ≡ ok b
      → (tried ≡ inl b)
        ⊎ ((calls' : ℕ) × (build_loop hash stop_requested fuel calls' (bucket_count * 2) names
              ≡ ok b))
  after_try-cases fuel bucket_count names (inl candidate) b e = inl (ground (arith, e))
  after_try-cases fuel bucket_count names (inr calls') b e =
      let (_, _, again) =
        bind-eq-ok
          (refuse_if (ltb ((2 ^ 64 - 1) / 2) bucket_count) (build_error capacity_overflow 0)) _ e in
      inr (calls', again)

  -- A blocklist that was built from rules, each a domain name but not the root, answers for a domain
  -- name exactly whether it is a subdomain of, or the same as, one of the rules: the prefilter never
  -- hides a match, whatever the hash, and however often the table was built anew with more buckets.
  pub build_loop-matches :
      (fuel calls bucket_count : ℕ) (names : List DomainName) (b : DomainBlocklist)
      (query : DomainName)
      → build_loop hash stop_requested fuel calls bucket_count names ≡ ok b
      → All IsRule names
      → IsDomain query
      → matches hash b query ≡ blocks names query
  unfolding build_loop
  build_loop-matches zero calls bucket_count names b query e rules domain =
      absurd (ground (arith, e))
  build_loop-matches (suc fuel) calls bucket_count names b query e rules domain =
      let (tried, is_tried, next) =
        bind-eq-ok (try_candidate hash stop_requested 500 calls bucket_count names) _ e in
      elim (after_try-cases fuel bucket_count names tried b next) [
        | inl same ↦
            try_candidate-matches 500 calls bucket_count names b query (is_tried ∙ ap ok same) rules
              domain
        | inr (calls', again) ↦
            build_loop-matches fuel calls' (bucket_count * 2) names b query again rules domain
      ]
