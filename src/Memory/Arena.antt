-- ===== src/Memory/Arena.antt =====
-- The arena of src/core/fce_memory.c: the blocks and the cleanups that `fce_arena_destroy` runs.
use fast_cache_engine.Builder.{len}
use fast_cache_engine.Common.{Bool, List, Option, [], if◌then◌else◌, none, not, some, ℕ}
use fast_cache_engine.Common.{◌&&◌, ◌==◌, ◌∷◌}
use fast_cache_engine.Memory.{Memory, fce_free, fce_xcalloc, fce_xmalloc}
use fast_cache_engine.Status.{Result, err, invalid_argument, io, ok, out_of_memory}

-- A registered cleanup: which function, and its context.
pub record ArenaCleanup : Type 0 where
  pub cleanup : ℕ
  pub ctx : ℕ

-- The node of a list and what it holds are blocks of the allocator; a list begins with its newest.
pub record FceArena : Type 0 where
  pub self : ℕ
  pub ptrs : List (ℕ × ℕ)
  pub cleanups : List (ℕ × ArenaCleanup)

-- `lock` says whether the lock can be initialised; the struct has `size` bytes.
unfoldable pub fce_arena_create : Option ℕ → Bool → Bool → ℕ → Memory → Memory × Result FceArena
fce_arena_create got node lock size m =
    let (next, block) = fce_xcalloc got node 1 size m in
    elim block [
      | none ↦ (next, err out_of_memory)
      | some p ↦
          if lock
          then (next, ok (record { self = p; ptrs = []; cleanups = [] }))
          else (fce_free p next, err io)
    ]

-- The block, then its node of 16 bytes, then the lock: what fails later frees what came before.
unfoldable pub fce_arena_alloc :
    Option ℕ → Bool → Option ℕ → Bool → Bool → ℕ → FceArena → Memory → Memory × FceArena × Option ℕ
fce_arena_alloc got node got_node node_node lock size a m =
    let (next, block) = fce_xmalloc got node size m in
    let (later, list_node) = fce_xmalloc got_node node_node 16 next in
    elim block [
      | none ↦ (next, a, none)
      | some p ↦ elim list_node [
        | none ↦ (fce_free p later, a, none)
        | some n ↦
            if lock
            then (later, record a { ptrs = (n, p) ∷ a.ptrs }, some p)
            else (fce_free p (fce_free n later), a, none)
      ]
    ]

-- The copy of `len` bytes from a pointer that is null or not.
unfoldable pub fce_arena_memdup :
    Option ℕ
    → Bool
    → Option ℕ
    → Bool
    → Bool
    → Bool
    → ℕ
    → FceArena
    → Memory
    → Memory × FceArena × Option ℕ
fce_arena_memdup got node got_node node_node lock null_data len a m =
    if null_data && not (len == 0)
    then (m, a, none)
    else fce_arena_alloc got node got_node node_node lock (if len == 0 then 1 else len) a m

-- `none` for the function is a null pointer; the node has 24 bytes.
unfoldable pub fce_arena_register_cleanup :
    Option ℕ
    → Bool
    → Bool
    → Option ℕ
    → ℕ
    → FceArena
    → Memory
    → Memory × FceArena × Result (Unit {0})
fce_arena_register_cleanup got node lock none ctx a m = (m, a, err invalid_argument)
fce_arena_register_cleanup got node lock (some cleanup) ctx a m =
    let (next, block) = fce_xmalloc got node 24 m in
    elim block [
      | none ↦ (next, a, err out_of_memory)
      | some n ↦
          if lock
          then (
            next,
            record a { cleanups = (n, record { cleanup = cleanup; ctx = ctx }) ∷ a.cleanups },
            ok tt,
          )
          else (fce_free n next, a, err io)
    ]

-- The first loop of `fce_arena_destroy`: `call` is what a cleanup does to the memory.
unfoldable pub run_cleanups :
    (ArenaCleanup → Memory → Memory) → List (ℕ × ArenaCleanup) → Memory → Memory
run_cleanups call [] m = m
run_cleanups call ((node, c) ∷ rest) m = run_cleanups call rest (fce_free node (call c m))

-- The second loop.
unfoldable pub free_ptrs : List (ℕ × ℕ) → Memory → Memory
free_ptrs [] m = m
free_ptrs ((node, p) ∷ rest) m = free_ptrs rest (fce_free node (fce_free p m))

unfoldable pub fce_arena_destroy : (ArenaCleanup → Memory → Memory) → FceArena → Memory → Memory
fce_arena_destroy call a m = fce_free a.self (free_ptrs a.ptrs (run_cleanups call a.cleanups m))
