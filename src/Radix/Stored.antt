-- ===== src/Radix/Stored.antt =====
-- What the radix lookup of src/backends/fce_backend_radix.c answers with.
use fast_cache_engine.Bytes.Range.{key_equal_iff, range_ok-le, slice}
use fast_cache_engine.Bytes.Words.{Bytes}
use fast_cache_engine.Common.{Option, Option-cases, Bool-cases, [], arith}
use fast_cache_engine.Common.{inl, inr, length, ltb, none, some, ℕ, ◌%◌, ◌+◌, ◌==◌, ltb→lt}
use fast_cache_engine.Common.{◌^◌, ◌∷◌, ◌≡◌, ◌≢◌, ◌≤◌, ◌<◌}
use fast_cache_engine.Radix.{RadixHeader, RadixNode, RadixEdge, RadixValue, radix_parts, radix_node}
use fast_cache_engine.Radix.{
  radix_edge, radix_value, radix_find_child, radix_walk, take_radix_value, child_under, edge_of,
  take_edge, search_edges, node_answer,
}
use fast_cache_engine.Radix.{radix_answer, get_radix, reads, radix_no_value}
use mathlib.Core.Path.{subst}
use fast_cache_engine.Search.{lower_bound}
use fast_cache_engine.Status.{>>=-eq-ok, Result, corrupt, err, not_found, ok}

-- A node has a child under a label: one of its edges in the index has both.
abbrev pub HasChild : RadixHeader → Bytes → ℕ → ℕ → ℕ → Type 0
HasChild h index parent label child =
    (node : RadixNode) × (k : ℕ) × (edge : RadixEdge) × (radix_node h index parent ≡ some node)
    × (k < node.edge_count)
    × (radix_edge h index ((node.first_edge + k) % 2 ^ 32) ≡ some edge)
    × (edge.label ≡ label)
    × (edge.child_index ≡ child)

-- The bytes are the labels on a way of edges from one node to another.
pub data Way (h : RadixHeader) (index : Bytes) : ℕ → Bytes → ℕ → Type 0 where
  arrived : {node : ℕ} → Way h index node [] node
  step :
      {parent child last label : ℕ} {labels : Bytes}
      → HasChild h index parent label child
      → Way h index child labels last
      → Way h index parent (label ∷ labels) last

-- An entry of the index in the blobs of the keys and of the values.
abbrev pub Stores : Bytes → Bytes → Bytes → Bytes → RadixValue → Type 0
Stores keys values key value v =
    (v.key_offset + v.key_len ≤ length keys)
    × (slice keys v.key_offset v.key_len ≡ key)
    × (v.value_offset + v.value_len ≤ length values)
    × (slice values v.value_offset v.value_len ≡ value)

-- The entry that a node has in the index: one of the array of values, by the number in the node.
abbrev pub HasEntry : RadixHeader → Bytes → ℕ → RadixValue → Type 0
HasEntry h index i v =
    (node : RadixNode) × (radix_node h index i ≡ some node)
    × (node.value_index ≢ radix_no_value)
    × (radix_value h index node.value_index ≡ some v)

reads-ok {ℓ} : {A : Type ℓ} (o : Option A) {a : A} → reads o ≡ ok a → o ≡ some a
reads-ok none h = cc
reads-ok (some a) h = cc

abbrev pure_none : Result (Option ℕ)
pure_none = ok none

take_edge-HasChild :
    (h : RadixHeader) (index : Bytes) (parent label child lo : ℕ) (node : RadixNode)
    → radix_node h index parent ≡ some node
    → take_edge h index label node lo ≡ ok (some child)
    → HasChild h index parent label child
unfolding take_edge
take_edge-HasChild h index parent label child lo node p e =
    elim (Bool-cases (ltb lo node.edge_count)) [
      | inr past ↦ let no_child : pure_none ≡ ok (some child) = rw past at e in cc
      | inl within ↦
          let (edge, q, g) =
            >>=-eq-ok (reads (edge_of h index node lo)) (λ x. ok (child_under label x))
              {b = some child} (rw within at e) in
          (
            node,
            lo,
            edge,
            p,
            ltb→lt lo node.edge_count within,
            reads-ok (edge_of h index node lo) q,
            ground arith,
            ground arith,
          )
    ]

radix_find_child-HasChild :
    (h : RadixHeader) (index : Bytes) (parent label child : ℕ)
    → radix_find_child h index parent label ≡ ok (some child)
    → HasChild h index parent label child
unfolding radix_find_child search_edges
radix_find_child-HasChild h index parent label child e =
    let (node, p, f) =
      >>=-eq-ok (reads (radix_node h index parent)) (search_edges h index label) {b = some child}
        e in
    let (lo, q, g) =
      >>=-eq-ok
        (lower_bound (edge_of h index node) (λ e. ltb e.label label) node.edge_count 0
          node.edge_count)
        (take_edge h index label node) {b = some child} f in
    take_edge-HasChild h index parent label child lo node (reads-ok (radix_node h index parent) p) g

radix_walk-Way :
    (h : RadixHeader) (index labels : Bytes) (first last : ℕ)
    → radix_walk h index labels first ≡ ok (some last)
    → Way h index first labels last
unfolding radix_walk
radix_walk-Way h index [] first last e =
    let same : first ≡ last = cc in subst (λ x. Way h index first [] x) same arrived
radix_walk-Way h index (p ∷ ps) first last e =
    let (found, q, g) =
      >>=-eq-ok (radix_find_child h index first p)
        (λ child. elim child [ none ↦ ok none | some c ↦ radix_walk h index ps c ]) {b = some last}
        e in
    elim (Option-cases found) [
      | inl p0 ↦ let no_child : pure_none ≡ ok (some last) = rw p0 at g in cc
      | inr (c, p1) ↦
          step (radix_find_child-HasChild h index first p c (rw p1 at q))
            (radix_walk-Way h index ps c last (rw p1 at g))
    ]

node_answer-Stores :
    (h : RadixHeader) (index keys values key value : Bytes) (i : ℕ) (node : RadixNode)
    → radix_node h index i ≡ some node
    → node_answer h index keys values key node ≡ ok value
    → (v : RadixValue) × HasEntry h index i v × Stores keys values key value v
unfolding node_answer take_radix_value
node_answer-Stores h index keys values key value i node p e =
    elim (Bool-cases (node.value_index == radix_no_value)) [
      | inl empty ↦ let nothing : err not_found ≡ ok value = rw empty at e in cc
      | inr full ↦
          let (v, q, g) =
            >>=-eq-ok (reads (radix_value h index node.value_index))
              (take_radix_value keys values key) {b = value} (rw full at e) in
          let same = (key_equal_iff keys v.key_offset v.key_len key).0 (ground arith) in
          (
            v,
            (node, p, ground arith, reads-ok (radix_value h index node.value_index) q),
            (
              same.0,
              same.1,
              range_ok-le v.value_offset v.value_len (length values) (ground arith),
              ground arith,
            ),
          )
    ]

-- What the lookup found: an entry of the index at the end of the way from the root along the key.
abbrev pub StoresAt : Bytes → Bytes → Bytes → Bytes → Bytes → Type 0
StoresAt index keys values key value =
    (h : RadixHeader) × (i : ℕ) × (v : RadixValue) × (radix_parts index ≡ some h)
    × Way h index 0 key i
    × HasEntry h index i v
    × Stores keys values key value v

found_answer-StoresAt :
    (h : RadixHeader) (index keys values key value : Bytes) (found : Option ℕ)
    → radix_parts index ≡ some h
    → radix_walk h index key 0 ≡ ok found
    → radix_answer h index keys values key found ≡ ok value
    → StoresAt index keys values key value
unfolding radix_answer
found_answer-StoresAt h index keys values key value none there_is walked e = cc
found_answer-StoresAt h index keys values key value (some i) there_is walked e =
    let (node, p, f) =
      >>=-eq-ok (reads (radix_node h index i)) (node_answer h index keys values key) {b = value}
        e in
    let (v, entry, stored) =
      node_answer-Stores h index keys values key value i node (reads-ok (radix_node h index i) p)
        f in
    (h, i, v, there_is, radix_walk-Way h index key 0 i walked, entry, stored)

-- An answer of the lookup is a value that the index stores together with the key: the bytes of the key
-- are the labels on a way of edges of the index from its root to a node, and the entry of that node,
-- the element of the array of values that it numbers, has the key itself in the blob of the keys and
-- the value in the blob of the values.
pub get_radix-StoresAt :
    (index keys values key value : Bytes)
    → get_radix index keys values key ≡ ok value
    → StoresAt index keys values key value
unfolding get_radix
get_radix-StoresAt index keys values key value e = elim (Option-cases (radix_parts index)) [
  | inl none_there ↦ let corrupted : err corrupt ≡ ok value = rw (none_there, get_radix) at e in cc
  | inr (h, there_is) ↦
      let (found, p, f) =
        >>=-eq-ok (radix_walk h index key 0) (radix_answer h index keys values key) {b = value}
          (rw (there_is, get_radix) at e) in
      found_answer-StoresAt h index keys values key value found there_is p f
]
