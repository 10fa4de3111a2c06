-- ===== src/Filter/RadixTree.antt =====
-- RadixTree.h and RadixTree.cpp. A node owns its children in a map from canonical labels; the map is
-- an association list in which a label stands once, and a walk over node pointers is a recursion on
-- the labels left, last label of the domain first.
pub mod Paths
pub mod Rules
use dns_pro.Base.{
  ℕ, zero, suc, Bool, true, false, not, Option, none, some, List, [], ◌∷◌, if◌then◌else◌, length,
  bytes_eq, ok,
}
use dns_pro.Protocol.Wire.{Bytes}
use dns_pro.Protocol.DomainName.{DomainName, canonical_label, from_text}

mutual
  pub data TrieNode : Type 0 where
    node : Bool → Children → TrieNode

  pub data Children : Type 0 where
    empty_map : Children
    child : Bytes → TrieNode → Children → Children

abbrev pub new_node : TrieNode
new_node = node false empty_map

abbrev pub is_end_of_domain : TrieNode → Bool
is_end_of_domain (node end children) = end

unfoldable pub find_child : Bytes → Children → Option TrieNode
find_child label empty_map = none
find_child label (child key t rest) = if bytes_eq key label then some t else find_child label rest

-- try_emplace of a new node, then the rest of the walk below that child.
unfoldable pub at_child : Bytes → (TrieNode → TrieNode × Bool) → Children → Children × Bool
at_child label walk empty_map = let (t, fresh) = walk new_node in (child label t empty_map, fresh)
at_child label walk (child key t rest) =
    let (t', fresh) = walk t in
    let (rest', fresh') = at_child label walk rest in
    if bytes_eq key label then (child key t' rest, fresh) else (child key t rest', fresh')

-- The walk of `insert`, and whether the domain is newly inserted.
unfoldable pub insert_path : List Bytes → TrieNode → TrieNode × Bool
insert_path [] (node end children) = (node true children, not end)
insert_path (label ∷ labels) (node end children) =
    let (children', fresh) = at_child label (insert_path labels) children in
    (node end children', fresh)

unfoldable pub search_path : List Bytes → TrieNode → Bool
search_path [] (node end children) = end
search_path (label ∷ labels) (node end children) = elim (find_child label children) [
  | none ↦ false
  | some t ↦ if is_end_of_domain t then true else search_path labels t
]

-- The canonical labels with an index below `count`, from the last to the first.
unfoldable pub labels_backwards : DomainName → ℕ → List Bytes
labels_backwards name zero = []
labels_backwards name (suc index) = canonical_label name index ∷ labels_backwards name index

unfoldable pub insert : DomainName → TrieNode → TrieNode × Bool
insert domain root = insert_path (labels_backwards domain (length domain.labels)) root

unfoldable pub search : DomainName → TrieNode → Bool
search domain root = search_path (labels_backwards domain (length domain.labels)) root

-- The overloads on text, which refuse what is no domain name.
unfoldable pub insert_text : Bytes → TrieNode → TrieNode × Bool
insert_text domain root = elim (from_text domain) [ ok name ↦ insert name root | _ ↦ (root, false) ]

unfoldable pub search_text : Bytes → TrieNode → Bool
search_text domain root = elim (from_text domain) [ ok name ↦ search name root | _ ↦ false ]
