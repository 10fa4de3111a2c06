-- ===== src/Filter/RadixTree/Rules.antt =====
-- The trie built from a list of rules answers for a domain exactly when it is one of the rules or
-- below one.
use dns_pro.Base.{
  ℕ, zero, suc, ◌≤◌, ◌<◌, ◌≡◌, refl, sym, ap, ap₂, ◌∙◌, inl, inr, Bool, true, false, ◌||◌, some,
  List, [], ◌∷◌, ◌++◌, map, arith, Bool-cases, length, get_elem?, take, All, length-append,
  length-map,
}
use mathlib.Core.List.{reverse, reverse-append, reverse-reverse, reverse-cons}
use dns_pro.Protocol.Wire.{Bytes}
use dns_pro.Protocol.Wire.Reads.{get_elem?-lt}
use dns_pro.Protocol.DomainName.{DomainName, ascii_lower, is_subdomain_of}
use dns_pro.Protocol.DomainName.Valid.{IsDomain, named}
use dns_pro.Protocol.DomainName.Canonical.{
  lowered, lowered-append, is_subdomain_of_iff, canonical_label_lem,
}
use dns_pro.Filter.RadixTree.{TrieNode, new_node, labels_backwards, insert, search, search_path}
use dns_pro.Filter.RadixTree.Paths.{
  ends_at, paths_eq, paths_eq_iff, ends_at-insert_path, ends_at-new_node, search_path-finds,
  search_path-Hit, search_path-nil,
}

take_elem :
    (xs : List Bytes) (i : ℕ) (x : Bytes)
    → get_elem? xs i ≡ some x
    → take (suc i) xs ≡ take i xs ++ x ∷ []
take_elem [] i x e = absurd (ground arith)
take_elem (y ∷ []) zero x e = ground arith
take_elem (y ∷ z ∷ xs) zero x e = ground arith
take_elem (y ∷ xs) (suc i) x e = ap (◌∷◌ y) (take_elem xs i x e)

labels_backwards-reverse :
    (labels : List Bytes) (count : ℕ)
    → count ≤ length labels
    → labels_backwards (named labels) count ≡ reverse (lowered (take count labels))
unfolding labels_backwards
labels_backwards-reverse labels zero h = refl
labels_backwards-reverse labels (suc count) h =
    let (label, found) = get_elem?-lt labels count h in
    ap₂ ◌∷◌ (canonical_label_lem labels count label found)
      (labels_backwards-reverse labels count (omega arith))
    ∙ sym (
        ap reverse (
          ap lowered (take_elem labels count label found)
          ∙ lowered-append (take count labels) (label ∷ []))
        ∙ reverse-append (lowered (take count labels)) (map ascii_lower label ∷ []))

take_all : {A : Type 0} (xs : List A) → take (length xs) xs ≡ xs
take_all [] = refl
take_all (x ∷ xs) = ap (◌∷◌ x) (take_all xs)

-- The path of a domain in the trie.
abbrev pub path_of : DomainName → List Bytes
path_of name = reverse (lowered name.labels)

path_of_lem :
    (name : DomainName) → IsDomain name → labels_backwards name (length name.labels) ≡ path_of name
path_of_lem name domain =
    ap (λ d. labels_backwards d (length name.labels)) domain.1
    ∙ labels_backwards-reverse name.labels (length name.labels) (omega arith)
    ∙ ap (λ labels. reverse (lowered labels)) (take_all name.labels)

-- The rules are inserted one after the other.
unfoldable pub insert_all : List DomainName → TrieNode → TrieNode
insert_all [] t = t
insert_all (rule ∷ rules) t = insert_all rules (insert rule t).0

-- What a blocklist means: the domain is a subdomain of some rule.
unfoldable pub blocks : List DomainName → DomainName → Bool
blocks [] query = false
blocks (rule ∷ rules) query = is_subdomain_of query rule || blocks rules query

-- A rule that is a domain and not the root.
abbrev pub IsRule : DomainName → Type 0
IsRule rule = IsDomain rule × (0 < length rule.labels)

member : List DomainName → List Bytes → Bool
member [] p = false
member (rule ∷ rules) p = paths_eq (path_of rule) p || member rules p

or_swap : (a b c : Bool) → (a || (b || c)) ≡ ((b || a) || c)
or_swap a b c = ground arith

ends_at-insert_all :
    (rules : List DomainName) (p : List Bytes) (t : TrieNode)
    → All IsRule rules
    → ends_at p (insert_all rules t) ≡ (member rules p || ends_at p t)
unfolding insert_all member insert
ends_at-insert_all [] p t h = refl
ends_at-insert_all (rule ∷ rules) p t h = ground (
  arith,
  path_of_lem rule h.0.0,
  ends_at-insert_path p (path_of rule) t,
  ends_at-insert_all rules p (insert rule t).0 h.1,
)

-- A subdomain has the path of its parent as a front.
subdomain-path :
    (query rule : DomainName)
    → is_subdomain_of query rule ≡ true
    → (rest : List Bytes) × (path_of query ≡ path_of rule ++ rest)
subdomain-path query rule h =
    let (front, e) = (is_subdomain_of_iff query rule).0 h in
    (reverse front, ap reverse e ∙ reverse-append front (lowered rule.labels))

path-subdomain :
    (query rule : DomainName) (rest : List Bytes)
    → path_of query ≡ path_of rule ++ rest
    → is_subdomain_of query rule ≡ true
path-subdomain query rule rest e = (is_subdomain_of_iff query rule).1 (
  reverse rest,
  sym (reverse-reverse (lowered query.labels))
      ∙ ap reverse e
      ∙ reverse-append (path_of rule) rest
      ∙ ap (◌++◌ (reverse rest)) (reverse-reverse (lowered rule.labels)),
)

member-blocks :
    (rules : List DomainName) (query : DomainName) (p rest : List Bytes)
    → member rules p ≡ true
    → path_of query ≡ p ++ rest
    → blocks rules query ≡ true
unfolding member blocks
member-blocks [] query p rest h e = h
member-blocks (rule ∷ rules) query p rest h e = elim (Bool-cases (paths_eq (path_of rule) p)) [
  | inl same ↦
      let hit =
        path-subdomain query rule rest
          (e ∙ ap (λ xs. xs ++ rest) (sym ((paths_eq_iff _ _).0 same))) in
      rw hit
  | inr differs ↦ ground (arith, differs, member-blocks rules query p rest (ground arith) e)
]

length-reverse : {A : Type 0} (xs : List A) → length (reverse xs) ≡ length xs
length-reverse [] = refl
length-reverse (x ∷ xs) =
    omega
      (arith, ap length (reverse-cons x xs), length-append (reverse xs) (x ∷ []), length-reverse xs)

length-path_of : (name : DomainName) → length (path_of name) ≡ length name.labels
length-path_of name =
    length-reverse (lowered name.labels) ∙ length-map (map ascii_lower) name.labels

-- The front at which the search stops, for a domain that is blocked.
record Stop (rules : List DomainName) (query : DomainName) : Type 0 where
  first : Bytes
  more : List Bytes
  rest : List Bytes
  on_path : path_of query ≡ first ∷ (more ++ rest)
  is_rule : member rules (first ∷ more) ≡ true

rule_on_path :
    (rules : List DomainName) (query : DomainName) (p rest : List Bytes)
    → 0 < length p
    → path_of query ≡ p ++ rest
    → member rules p ≡ true
    → Stop rules query
rule_on_path rules query [] rest h e m = absurd (omega arith)
rule_on_path rules query (l ∷ p) rest h e m = record {
  first = l;
  more = p;
  rest = rest;
  on_path = e;
  is_rule = m;
}

blocks-Stop :
    (rules : List DomainName) (query : DomainName)
    → All IsRule rules
    → blocks rules query ≡ true
    → Stop rules query
unfolding blocks member
blocks-Stop [] query h e = absurd (ground arith)
blocks-Stop (rule ∷ rules) query h e = elim (Bool-cases (is_subdomain_of query rule)) [
  | inl below ↦
      let (rest, on_path) = subdomain-path query rule below in
      rule_on_path (rule ∷ rules) query (path_of rule) rest
        (omega (arith, length-path_of rule, h.0.1)) on_path
        (rw ((paths_eq_iff (path_of rule) (path_of rule)).1 refl))
  | inr apart ↦
      let stop = blocks-Stop rules query h.1 (ground (arith, apart)) in
      record {
        first = stop.first;
        more = stop.more;
        rest = stop.rest;
        on_path = stop.on_path;
        is_rule = ground (arith, stop.is_rule);
      }
]

abbrev built : List DomainName → TrieNode
built rules = insert_all rules new_node

ends_at-built :
    (rules : List DomainName) (p : List Bytes)
    → All IsRule rules
    → ends_at p (built rules) ≡ member rules p
ends_at-built rules p h = ground (arith, ends_at-insert_all rules p new_node h, ends_at-new_node p)

member-root : (rules : List DomainName) → All IsRule rules → member rules [] ≡ false
unfolding member
member-root [] h = refl
member-root (rule ∷ rules) h =
    let no_root : (path_of rule ≡ []) → ⊥ =
      λ e. omega (arith, ap length e, length-path_of rule, h.0.1) in
    ground (arith, paths_eq_iff (path_of rule) [], no_root, member-root rules h.1)

Bool_ext : (a b : Bool) → (a ≡ true → b ≡ true) → (b ≡ true → a ≡ true) → a ≡ b
Bool_ext true true f g = refl
Bool_ext true false f g = sym (f refl)
Bool_ext false true f g = g refl
Bool_ext false false f g = refl

module _ (rules : List DomainName) (h : All IsRule rules) where
  searched-blocks :
      (query : DomainName) (path : List Bytes)
      → path_of query ≡ path
      → search_path path (built rules) ≡ true
      → blocks rules query ≡ true
  searched-blocks query [] e found =
      absurd (
        ground
          (arith, search_path-nil (built rules), ends_at-built rules [] h, member-root rules h))
  searched-blocks query (l ∷ path) e found =
      let hit = search_path-Hit l path (built rules) found in
      member-blocks rules query (hit.first ∷ hit.more) hit.rest
        (sym (ends_at-built rules (hit.first ∷ hit.more) h) ∙ hit.ends) (e ∙ hit.splits)

  blocks-searched :
      (query : DomainName)
      → blocks rules query ≡ true
      → search_path (path_of query) (built rules) ≡ true
  blocks-searched query e =
      let stop = blocks-Stop rules query h e in
      ap (λ p. search_path p (built rules)) stop.on_path
      ∙ search_path-finds stop.first stop.more stop.rest (built rules)
          (ends_at-built rules (stop.first ∷ stop.more) h ∙ stop.is_rule)

-- A trie into which a list of rules was inserted, each a domain name but not the root, answers for a
-- domain name exactly whether it is a subdomain of, or the same as, one of the rules.
pub search-insert_all :
    (rules : List DomainName) (query : DomainName)
    → All IsRule rules
    → IsDomain query
    → search query (insert_all rules new_node) ≡ blocks rules query
unfolding search
search-insert_all rules query h domain =
    ap (λ p. search_path p (built rules)) (path_of_lem query domain)
    ∙ Bool_ext (search_path (path_of query) (built rules)) (blocks rules query)
        (searched-blocks rules h query (path_of query) refl) (blocks-searched rules h query)
