-- ===== src/Tests/Radix.antt =====
-- A radix index of one key of one byte (src/backends/fce_backend_radix.c).
use fast_cache_engine.Bytes.Compare.{key_equal, memcmp, range_ok}
use fast_cache_engine.Bytes.Words.{Bytes, le, load, split, un_le}
use fast_cache_engine.Common.{[], arith, get_elem?, refl, some, suc, zero, ℕ, ◌++◌, ◌<◌, ◌∷◌, ◌≡◌}
use fast_cache_engine.Layout.{element, fetch, skip, store, store_all}
use fast_cache_engine.Radix.{
  RadixEdge, RadixHeader, RadixNode, RadixValue, edge_of, get_radix, node_answer,
}
use fast_cache_engine.Radix.{radix_answer, search_edges, take_edge}
use fast_cache_engine.Radix.{radix_edge, radix_edge_layout, radix_find_child, radix_header}
use fast_cache_engine.Radix.{radix_header_layout, radix_magic, radix_no_value, radix_node}
use fast_cache_engine.Radix.{radix_node_layout, radix_parts, radix_value, radix_value_layout}
use fast_cache_engine.Radix.{radix_walk, take_radix_value}
use fast_cache_engine.Radix.Found.{IsOrdered, arrived, get_radix-found, step}
use fast_cache_engine.Radix.Stored.{StoresAt, get_radix-StoresAt}
use fast_cache_engine.Search.{lower_bound}
use fast_cache_engine.Status.{ok}

abbrev one_key_index : Bytes
one_key_index =
    store radix_header_layout (radix_magic ∷ 2 ∷ 1 ∷ 1 ∷ 56 ∷ 88 ∷ 96 ∷ [])
    ++ (store_all radix_node_layout ((0 ∷ 1 ∷ radix_no_value ∷ 0 ∷ []) ∷ (1 ∷ 0 ∷ 0 ∷ 0 ∷ []) ∷ [])
        ++ (store radix_edge_layout (7 ∷ 0 ∷ 1 ∷ [])
            ++ store radix_value_layout (0 ∷ 1 ∷ 1 ∷ 0 ∷ [])))

one_key_found : get_radix one_key_index (7 ∷ []) (8 ∷ []) (7 ∷ []) ≡ ok (8 ∷ [])
unfolding get_radix radix_parts radix_header radix_walk radix_find_child search_edges take_edge
    node_answer radix_node radix_edge lower_bound radix_answer radix_value take_radix_value element
    fetch skip load split un_le store store_all le key_equal range_ok memcmp
one_key_found = refl

get_radix-StoresAt_example : StoresAt one_key_index (7 ∷ []) (8 ∷ []) (7 ∷ []) (8 ∷ [])
get_radix-StoresAt_example =
    get_radix-StoresAt one_key_index (7 ∷ []) (8 ∷ []) (7 ∷ []) (8 ∷ []) one_key_found

abbrev one_key_header : RadixHeader
one_key_header = record {
  magic = radix_magic;
  node_count = 2;
  edge_count = 1;
  value_count = 1;
  nodes_offset = 56;
  edges_offset = 88;
  values_offset = 96;
}

abbrev root : RadixNode
root = record { first_edge = 0; edge_count = 1; value_index = radix_no_value }

abbrev root_edge : RadixEdge
root_edge = record { label = 7; child_index = 1 }

abbrev leaf : RadixNode
leaf = record { first_edge = 1; edge_count = 0; value_index = 0 }

abbrev leaf_value : RadixValue
leaf_value = record { key_offset = 0; key_len = 1; value_len = 1; value_offset = 0 }

one_key_parts : radix_parts one_key_index ≡ some one_key_header
unfolding radix_parts radix_header fetch skip load split un_le store store_all le
one_key_parts = refl

root_there : radix_node one_key_header one_key_index 0 ≡ some root
unfolding radix_node element fetch skip load split un_le store store_all le
root_there = refl

root_edge_there : radix_edge one_key_header one_key_index 0 ≡ some root_edge
unfolding radix_edge element fetch skip load split un_le store store_all le
root_edge_there = refl

leaf_there : radix_node one_key_header one_key_index 1 ≡ some leaf
unfolding radix_node element fetch skip load split un_le store store_all le
leaf_there = refl

leaf_value_there : radix_value one_key_header one_key_index 0 ≡ some leaf_value
unfolding radix_value element fetch skip load split un_le store store_all le
leaf_value_there = refl

root-IsOrdered : IsOrdered one_key_header one_key_index root
root-IsOrdered = (root_edge ∷ [], refl, root_edges, ascends)
  where
    root_edges :
        (i : ℕ)
        → i < 1
        → (e : RadixEdge) × (get_elem? (root_edge ∷ []) i ≡ some e)
          × (edge_of one_key_header one_key_index root i ≡ some e)
    root_edges zero l = (root_edge, refl, root_edge_there)
    root_edges (suc i) l = absurd (omega arith)

    ascends :
        (i j : ℕ) (a b : RadixEdge)
        → i < j
        → get_elem? (root_edge ∷ []) i ≡ some a
        → get_elem? (root_edge ∷ []) j ≡ some b
        → a.label < b.label
    ascends i zero a b l p q = absurd (omega arith)
    ascends i (suc j) a b l p q = cc

get_radix-found_example : get_radix one_key_index (7 ∷ []) (8 ∷ []) (7 ∷ []) ≡ ok (8 ∷ [])
get_radix-found_example =
    get_radix-found one_key_header one_key_index (7 ∷ []) (8 ∷ []) (7 ∷ []) (8 ∷ []) 1 leaf_value
      one_key_parts
      (step root_there root-IsOrdered
        (root, 0, root_edge, root_there, omega arith, root_edge_there, refl, refl) arrived)
      (leaf, leaf_there, omega arith, leaf_value_there) (omega arith, refl, omega arith, refl)
