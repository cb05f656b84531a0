-- ===== src/Radix/Found.antt =====
-- The radix lookup of src/backends/fce_backend_radix.c on nodes whose edges are ordered.
use fast_cache_engine.Bytes.Compare.{key_equal, range_ok}
use fast_cache_engine.Bytes.Range.{key_equal_iff, range_ok_iff}
use fast_cache_engine.Bytes.Words.{Bytes}
use fast_cache_engine.Common.{
  Bool-cases, List, [], arith, false, get_elem?, get_elem?-lt, ap, ltb→le, inl, inr, length, ltb,
  lt→ltb, ltb→lt, refl, some, sym, true, ℕ, ◌<◌, ◌∷◌, ◌∙◌, ◌≡◌, ◌==◌, ==_iff,
}
use fast_cache_engine.Radix.{
  RadixEdge, RadixHeader, RadixNode, RadixValue, edge_of, get_radix, node_answer, radix_answer,
  radix_find_child, radix_node, radix_parts, radix_walk, search_edges, take_edge, take_radix_value,
  radix_no_value,
}
use fast_cache_engine.Radix.Stored.{HasChild, HasEntry, Stores}
use fast_cache_engine.Search.{lower_bound}
use fast_cache_engine.Search.Bound.{Holds, Falls, lower_bound-IsBound}
use fast_cache_engine.Status.{ok}
use mathlib.Core.Path.{subst}

-- The labels ascend strictly.
abbrev pub Ascend : List RadixEdge → Type 0
Ascend es =
    (i j : ℕ) (a b : RadixEdge)
    → i < j
    → get_elem? es i ≡ some a
    → get_elem? es j ≡ some b
    → a.label < b.label

-- All edges of a node lie in the index, in the order of their labels.
abbrev pub IsOrdered : RadixHeader → Bytes → RadixNode → Type 0
IsOrdered h index node =
    (es : List RadixEdge) × (length es ≡ node.edge_count)
    × Holds (edge_of h index node) (λ e. false) es
    × Ascend es

module _ (h : RadixHeader) (index : Bytes) (node : RadixNode) (label : ℕ) (es : List RadixEdge)
    (holds : Holds (edge_of h index node) (λ e. ltb e.label label) es) (ascend : Ascend es) where
  falls : Falls (edge_of h index node) (λ e. ltb e.label label) es
  falls i j a b l p q under = lt→ltb a.label label (ltb_trans (ascend i j a b l p q))
    where
      ltb_trans : a.label < b.label → a.label < label
      ltb_trans l2 = let l3 = ltb→lt b.label label under in omega arith

  search-k :
      (k : ℕ) (e : RadixEdge)
      → get_elem? es k ≡ some e
      → e.label ≡ label
      → k < length es
      → lower_bound (edge_of h index node) (λ x. ltb x.label label) (length es) 0 (length es) ≡ ok k
  search-k k e at same l =
      let (lo, found, in_range, under, over) =
        lower_bound-IsBound (edge_of h index node) (λ x. ltb x.label label) es holds falls in
      let not_before : ltb k lo ≡ false = elim (Bool-cases (ltb k lo)) [
        | inl q ↦
            let less = ltb→lt e.label label (under k e (ltb→lt k lo q) at) in absurd (omega arith)
        | inr q ↦ q
      ] in
      let not_behind : ltb lo k ≡ false = elim (Bool-cases (ltb lo k)) [
        | inl q ↦
            let (a, p) = get_elem?-lt es lo (grind (arith, ltb→lt)) in
            let less = ascend lo k a e (ltb→lt lo k q) p at in
            let more = ltb→le a.label label (over lo a (omega arith) p) in absurd (omega arith)
        | inr q ↦ q
      ] in
      let k_le = ltb→le lo k not_behind in
      let lo_le = ltb→le k lo not_before in let here : lo ≡ k = omega arith in found ∙ ap ok here

node_unique : {a b : RadixNode} → some a ≡ some b → a ≡ b
node_unique p = cc

edge_unique : {a b : RadixEdge} → some a ≡ some b → a ≡ b
edge_unique p = cc

take_edge-child :
    (h : RadixHeader) (index : Bytes) (label child lo : ℕ) (node : RadixNode) (edge : RadixEdge)
    → lo < node.edge_count
    → edge_of h index node lo ≡ some edge
    → edge.label ≡ label
    → edge.child_index ≡ child
    → take_edge h index label node lo ≡ ok (some child)
unfolding take_edge
take_edge-child h index label child lo node edge l p same leads =
    let within = lt→ltb lo node.edge_count l in
    let is_label : (edge.label == label) ≡ true = (==_iff edge.label label).1 same in
    rw (within, p, is_label) (ap (λ x. ok (some x)) leads)

search_edges-child :
    (h : RadixHeader) (index : Bytes) (label child k : ℕ) (node : RadixNode) (edge : RadixEdge)
    → IsOrdered h index node
    → k < node.edge_count
    → edge_of h index node k ≡ some edge
    → edge.label ≡ label
    → edge.child_index ≡ child
    → search_edges h index label node ≡ ok (some child)
unfolding search_edges
search_edges-child h index label child k node edge (es, size, holds, ascend) l p same leads =
    let (e, at, reads_e) = holds k (omega arith) in
    let label_e : e.label ≡ label = ap (λ x. x.label) (edge_unique (sym reads_e ∙ p)) ∙ same in
    let found =
      subst (λ n. lower_bound (edge_of h index node) (λ x. ltb x.label label) n 0 n ≡ ok k) size
        (search-k h index node label es holds ascend k e at label_e (omega arith)) in
    rw found (take_edge-child h index label child k node edge l p same leads)

radix_find_child-child :
    (h : RadixHeader) (index : Bytes) (parent label child : ℕ) (node : RadixNode)
    → radix_node h index parent ≡ some node
    → IsOrdered h index node
    → HasChild h index parent label child
    → radix_find_child h index parent label ≡ ok (some child)
unfolding radix_find_child
radix_find_child-child h index parent label child node there_is ordered
      (n, k, edge, p, l, q, same, leads) =
    let is_n : n ≡ node = node_unique (sym p ∙ there_is) in
    rw p (
      search_edges-child h index label child k n edge (subst (IsOrdered h index) (sym is_n) ordered)
        l q same leads)

-- A way of edges on which every node that is left has its edges in the order of their labels.
pub data OrderedWay (h : RadixHeader) (index : Bytes) : ℕ → Bytes → ℕ → Type 0 where
  arrived : {node : ℕ} → OrderedWay h index node [] node
  step :
      {parent child last label : ℕ} {labels : Bytes} {node : RadixNode}
      → radix_node h index parent ≡ some node
      → IsOrdered h index node
      → HasChild h index parent label child
      → OrderedWay h index child labels last
      → OrderedWay h index parent (label ∷ labels) last

radix_walk-OrderedWay :
    (h : RadixHeader) (index : Bytes) {labels : Bytes} {first last : ℕ}
    → OrderedWay h index first labels last
    → radix_walk h index labels first ≡ ok (some last)
unfolding radix_walk
radix_walk-OrderedWay h index arrived = refl
radix_walk-OrderedWay h index
      (step {parent = parent} {child = child} {label = label} {node = node} there_is ordered has
        way) =
    rw (radix_find_child-child h index parent label child node there_is ordered has)
      (radix_walk-OrderedWay h index way)

node_answer-value :
    (h : RadixHeader) (index keys values key value : Bytes) (i : ℕ) (v : RadixValue)
    → HasEntry h index i v
    → Stores keys values key value v
    → radix_answer h index keys values key (some i) ≡ ok value
unfolding radix_answer node_answer take_radix_value
node_answer-value h index keys values key value i v (node, p, full, q) (a, b, c, d) =
    let is_key : key_equal keys v.key_offset v.key_len key ≡ true =
      (key_equal_iff keys v.key_offset v.key_len key).1 (a, b) in
    let in_range : range_ok v.value_offset v.value_len (length values) ≡ true =
      (range_ok_iff v.value_offset v.value_len (length values)).1 c in
    let has_value : (node.value_index == radix_no_value) ≡ false = ground arith in
    rw (p, has_value, q, is_key, in_range) (ap ok d)

-- The lookup finds what the index stores: where the bytes of a key lead from the root to a node, and the
-- edges of the nodes on the way are in the order of their labels, as the search among them needs, and
-- the entry of the node has the key in the blob of the keys, the lookup answers with its value.
pub get_radix-found :
    (h : RadixHeader) (index keys values key value : Bytes) (i : ℕ) (v : RadixValue)
    → radix_parts index ≡ some h
    → OrderedWay h index 0 key i
    → HasEntry h index i v
    → Stores keys values key value v
    → get_radix index keys values key ≡ ok value
unfolding get_radix
get_radix-found h index keys values key value i v parts way entry stored =
    rw (parts, radix_walk-OrderedWay h index way, get_radix)
      (node_answer-value h index keys values key value i v entry stored)
