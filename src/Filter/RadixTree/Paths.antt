-- ===== src/Filter/RadixTree/Paths.antt =====
-- The trie as a set of label paths: what insertion adds and what a search finds.
use dns_pro.Base.{
  ◌≡◌, refl, ap, ◌∙◌, ◌↔◌, inl, inr, Bool, true, false, not, ◌&&◌, ◌||◌, Option, none, some, List,
  [], ◌∷◌, ◌++◌, arith, if◌then◌else◌, Bool-cases, Option-cases, bytes_eq, bytes_eq_iff,
}
use dns_pro.Protocol.Wire.{Bytes}
use dns_pro.Filter.RadixTree.{
  TrieNode, Children, node, empty_map, child, new_node, is_end_of_domain, find_child, at_child,
  insert_path, search_path,
}

-- Exact membership of a path.
pub ends_at : List Bytes → TrieNode → Bool
ends_at [] (node end children) = end
ends_at (label ∷ labels) (node end children) = elim (find_child label children) [
  | none ↦ false
  | some t ↦ ends_at labels t
]

pub paths_eq : List Bytes → List Bytes → Bool
paths_eq [] [] = true
paths_eq [] (y ∷ ys) = false
paths_eq (x ∷ xs) [] = false
paths_eq (x ∷ xs) (y ∷ ys) = bytes_eq x y && paths_eq xs ys

pub paths_eq_iff : (xs ys : List Bytes) → (paths_eq xs ys ≡ true) ↔ (xs ≡ ys)
unfolding paths_eq
paths_eq_iff [] [] = ground arith
paths_eq_iff [] (y ∷ ys) = ground arith
paths_eq_iff (x ∷ xs) [] = ground arith
paths_eq_iff (x ∷ xs) (y ∷ ys) = ground (arith, bytes_eq_iff x y, paths_eq_iff xs ys)

abbrev child_or_new : Option TrieNode → TrieNode
child_or_new none = new_node
child_or_new (some t) = t

find_child-at_child :
    (k label : Bytes) (walk : TrieNode → TrieNode × Bool) (children : Children)
    → find_child k (at_child label walk children).0 ≡ (
        if bytes_eq label k
        then some (walk (child_or_new (find_child label children))).0
        else find_child k children)
unfolding find_child at_child
find_child-at_child k label walk empty_map = refl
find_child-at_child k label walk (child key t rest) = ground (
  arith,
  bytes_eq_iff key label,
  bytes_eq_iff key k,
  bytes_eq_iff label k,
  find_child-at_child k label walk rest,
)

pub ends_at-new_node : (p : List Bytes) → ends_at p new_node ≡ false
unfolding ends_at find_child
ends_at-new_node [] = refl
ends_at-new_node (l ∷ p) = refl

-- Insertion adds its path and no other.
pub ends_at-insert_path :
    (p q : List Bytes) (t : TrieNode)
    → ends_at p (insert_path q t).0 ≡ (paths_eq q p || ends_at p t)
unfolding ends_at insert_path paths_eq
ends_at-insert_path [] [] (node end children) = refl
ends_at-insert_path [] (x ∷ q) (node end children) = refl
ends_at-insert_path (y ∷ p) [] (node end children) = refl
ends_at-insert_path (y ∷ p) (x ∷ q) (node end children) = ground (
  arith,
  find_child-at_child y x (insert_path q) children,
  bytes_eq_iff x y,
  ends_at-new_node p,
  ends_at-insert_path p q (child_or_new (find_child x children)),
)

at_child_fresh :
    (label : Bytes) (walk : TrieNode → TrieNode × Bool) (children : Children)
    → (at_child label walk children).1 ≡ (walk (child_or_new (find_child label children))).1
unfolding find_child at_child
at_child_fresh label walk empty_map = refl
at_child_fresh label walk (child key t rest) = ground (arith, at_child_fresh label walk rest)

pub insert_path_fresh : (q : List Bytes) (t : TrieNode) → (insert_path q t).1 ≡ not (ends_at q t)
unfolding insert_path ends_at
insert_path_fresh [] (node end children) = refl
insert_path_fresh (x ∷ q) (node end children) =
    at_child_fresh x (insert_path q) children
    ∙ insert_path_fresh q (child_or_new (find_child x children))
    ∙ ground (arith, ends_at-new_node q)

pub ends_at-nil : (t : TrieNode) → ends_at [] t ≡ is_end_of_domain t
unfolding ends_at
ends_at-nil (node end children) = refl

-- A search finds every path that ends on the way, the root's own end aside.
pub search_path-finds :
    (l : Bytes) (p rest : List Bytes) (t : TrieNode)
    → ends_at (l ∷ p) t ≡ true
    → search_path (l ∷ (p ++ rest)) t ≡ true
unfolding ends_at search_path
search_path-finds l [] rest (node end children) e = elim (Option-cases (find_child l children)) [
  | inl missing ↦ ground (arith, missing)
  | inr (t, found) ↦ ground (arith, found, ends_at-nil t)
]
search_path-finds l (m ∷ p) rest (node end children) e =
    elim (Option-cases (find_child l children)) [
      | inl missing ↦ ground (arith, missing)
      | inr (t, found) ↦ ground (arith, found, search_path-finds m p rest t)
    ]

-- A front of the path, not empty, at which a path ends.
pub record Hit (path : List Bytes) (t : TrieNode) : Type 0 where
  pub first : Bytes
  pub more : List Bytes
  pub rest : List Bytes
  pub splits : path ≡ first ∷ (more ++ rest)
  pub ends : ends_at (first ∷ more) t ≡ true

ends_at-cons :
    (l : Bytes) (p : List Bytes) (end : Bool) (children : Children) (t : TrieNode)
    → find_child l children ≡ some t
    → ends_at (l ∷ p) (node end children) ≡ ends_at p t
unfolding ends_at
ends_at-cons l p end children t found = ground (arith, found)

pub search_path-Hit :
    (l : Bytes) (q : List Bytes) (t : TrieNode) → search_path (l ∷ q) t ≡ true → Hit (l ∷ q) t
unfolding search_path
search_path-Hit l [] (node end children) e = elim (Option-cases (find_child l children)) [
  | inl missing ↦ absurd (ground (arith, missing))
  | inr (t, found) ↦ record {
    first = l;
    more = [];
    rest = [];
    splits = refl;
    ends = ends_at-cons l [] end children t found ∙ ground (arith, found, ends_at-nil t);
  }
]
search_path-Hit l (m ∷ q) (node end children) e = elim (Option-cases (find_child l children)) [
  | inl missing ↦ absurd (ground (arith, missing))
  | inr (t, found) ↦ elim (Bool-cases (is_end_of_domain t)) [
    | inl ends ↦ record {
      first = l;
      more = [];
      rest = m ∷ q;
      splits = refl;
      ends = ends_at-cons l [] end children t found ∙ ends_at-nil t ∙ ends;
    }
    | inr passes ↦
        let hit = search_path-Hit m q t (ground (arith, found)) in
        record {
          first = l;
          more = hit.first ∷ hit.more;
          rest = hit.rest;
          splits = ap (◌∷◌ l) hit.splits;
          ends = ends_at-cons l (hit.first ∷ hit.more) end children t found ∙ hit.ends;
        }
  ]
]

pub search_path-nil : (t : TrieNode) → search_path [] t ≡ ends_at [] t
unfolding search_path ends_at
search_path-nil (node end children) = refl
