-- ===== src/Radix.antt =====
-- `RadixHeader`, `RadixNode`, `RadixEdge` and `RadixValue` of src/internal/fce_internal.h, and the lookup
-- of src/backends/fce_backend_radix.c.
pub mod Found
pub mod Stored
use fast_cache_engine.Bytes.Compare.{key_equal, range_ok}
use fast_cache_engine.Bytes.Range.{key_equal_iff, range_ok-le, slice}
use fast_cache_engine.Bytes.Words.{Bytes}
use fast_cache_engine.Common.{List, Option, Option-cases, [], arith, drop, if◌then◌else◌}
use fast_cache_engine.Common.{inl, inr, length, ltb, none, not, some, ℕ, ◌%◌, ◌+◌, ◌==◌}
use fast_cache_engine.Common.{◌^◌, ◌∷◌, ◌≡◌, ◌≤◌}
use fast_cache_engine.Layout.{element, fetch, field}
use fast_cache_engine.Search.{lower_bound}
use fast_cache_engine.Status.{>>=-eq-ok, Result, corrupt, err, fault, not_found, ok, ◌>>=◌}

abbrev pub radix_magic : ℕ
radix_magic = 0x3158444152454346

abbrev pub radix_no_value : ℕ
radix_no_value = 0xffffffff

-- The widths of the fields; `reserved0` and the padding are fields of their own.
abbrev pub radix_header_layout : List ℕ
radix_header_layout = 8 ∷ 8 ∷ 8 ∷ 8 ∷ 8 ∷ 8 ∷ 8 ∷ []

abbrev pub radix_node_layout : List ℕ
radix_node_layout = 4 ∷ 4 ∷ 4 ∷ 4 ∷ []

abbrev pub radix_edge_layout : List ℕ
radix_edge_layout = 1 ∷ 3 ∷ 4 ∷ []

abbrev pub radix_value_layout : List ℕ
radix_value_layout = 8 ∷ 4 ∷ 4 ∷ 8 ∷ []

pub record RadixHeader : Type 0 where
  pub magic : ℕ
  pub node_count : ℕ
  pub edge_count : ℕ
  pub value_count : ℕ
  pub nodes_offset : ℕ
  pub edges_offset : ℕ
  pub values_offset : ℕ

pub record RadixNode : Type 0 where
  pub first_edge : ℕ
  pub edge_count : ℕ
  pub value_index : ℕ

pub record RadixEdge : Type 0 where
  pub label : ℕ
  pub child_index : ℕ

pub record RadixValue : Type 0 where
  pub key_offset : ℕ
  pub key_len : ℕ
  pub value_len : ℕ
  pub value_offset : ℕ

-- The struct at the front of the index, or `none` where the index is shorter.
unfoldable pub radix_header : Bytes → Option RadixHeader
radix_header index = elim (fetch radix_header_layout index) [
  | none ↦ none
  | some vs ↦ some (record {
    magic = field 0 vs;
    node_count = field 1 vs;
    edge_count = field 2 vs;
    value_count = field 3 vs;
    nodes_offset = field 4 vs;
    edges_offset = field 5 vs;
    values_offset = field 6 vs;
  })
]

-- The elements of the three arrays behind it; `none` lies outside of the index.
unfoldable pub radix_node : RadixHeader → Bytes → ℕ → Option RadixNode
radix_node h index i = elim (element radix_node_layout (drop h.nodes_offset index) i) [
  | none ↦ none
  | some vs ↦
      some (record { first_edge = field 0 vs; edge_count = field 1 vs; value_index = field 2 vs })
]

unfoldable pub radix_edge : RadixHeader → Bytes → ℕ → Option RadixEdge
radix_edge h index i = elim (element radix_edge_layout (drop h.edges_offset index) i) [
  | none ↦ none
  | some vs ↦ some (record { label = field 0 vs; child_index = field 2 vs })
]

unfoldable pub radix_value : RadixHeader → Bytes → ℕ → Option RadixValue
radix_value h index i = elim (element radix_value_layout (drop h.values_offset index) i) [
  | none ↦ none
  | some vs ↦ some (record {
    key_offset = field 0 vs;
    key_len = field 1 vs;
    value_len = field 2 vs;
    value_offset = field 3 vs;
  })
]

-- The header, if the index has one with the right magic.
unfoldable pub radix_parts : Bytes → Option RadixHeader
radix_parts index = elim (radix_header index) [
  | none ↦ none
  | some h ↦ if h.magic == radix_magic then some h else none
]

-- What the C code reads, or a read outside of the index.
abbrev pub reads {ℓ} : {A : Type ℓ} → Option A → Result A
reads none = fault
reads (some a) = ok a

-- The edges of a node are counted from its first one, in 32 bits.
abbrev pub edge_of : RadixHeader → Bytes → RadixNode → ℕ → Option RadixEdge
edge_of h index node i = radix_edge h index ((node.first_edge + i) % 2 ^ 32)

abbrev pub child_under : ℕ → RadixEdge → Option ℕ
child_under label e = if e.label == label then some e.child_index else none

-- After the search among the edges of a node.
unfoldable pub take_edge : RadixHeader → Bytes → ℕ → RadixNode → ℕ → Result (Option ℕ)
take_edge h index label node lo =
    if ltb lo node.edge_count
    then (reads (edge_of h index node lo) >>= λ e. ok (child_under label e))
    else ok none

-- The first edge whose label is not below the one that is looked for.
unfoldable pub search_edges : RadixHeader → Bytes → ℕ → RadixNode → Result (Option ℕ)
unfolding take_edge
search_edges h index label node =
    lower_bound (edge_of h index node) (λ e. ltb e.label label) node.edge_count 0 node.edge_count
    >>= take_edge h index label node

-- The child under a label, if the edge that the search finds has that label.
unfoldable pub radix_find_child : RadixHeader → Bytes → ℕ → ℕ → Result (Option ℕ)
unfolding search_edges
radix_find_child h index node_index label =
    reads (radix_node h index node_index) >>= search_edges h index label

-- The loop over the bytes of the key: the node that they lead to.
unfoldable pub radix_walk : RadixHeader → Bytes → Bytes → ℕ → Result (Option ℕ)
unfolding radix_find_child
radix_walk h index [] node = ok (some node)
radix_walk h index (p ∷ ps) node = radix_find_child h index node p >>= λ child. elim child [
  | none ↦ ok none
  | some c ↦ radix_walk h index ps c
]

-- The value of the node that was found.
unfoldable pub take_radix_value : Bytes → Bytes → Bytes → RadixValue → Result Bytes
take_radix_value keys values key v =
    if not (key_equal keys v.key_offset v.key_len key)
    then err not_found
    else if not (range_ok v.value_offset v.value_len (length values))
    then err corrupt
    else ok (slice values v.value_offset v.value_len)

-- What a node answers for the key.
unfoldable pub node_answer : RadixHeader → Bytes → Bytes → Bytes → Bytes → RadixNode → Result Bytes
unfolding take_radix_value
node_answer h index keys values key node =
    if node.value_index == radix_no_value
    then err not_found
    else (reads (radix_value h index node.value_index) >>= take_radix_value keys values key)

-- After the walk.
unfoldable pub radix_answer : RadixHeader → Bytes → Bytes → Bytes → Bytes → Option ℕ → Result Bytes
unfolding node_answer
radix_answer h index keys values key none = err not_found
radix_answer h index keys values key (some i) =
    reads (radix_node h index i) >>= node_answer h index keys values key

unfoldable pub get_radix : Bytes → Bytes → Bytes → Bytes → Result Bytes
unfolding radix_walk radix_answer
get_radix index keys values key = elim (radix_parts index) [
  | none ↦ err corrupt
  | some h ↦ radix_walk h index key 0 >>= radix_answer h index keys values key
]
