-- ===== src/Memory.antt =====
-- The accounting allocator of src/core/fce_memory.c. Every function runs under one lock, so that
-- calls are a sequence of steps.
pub mod Consistent
pub mod Arena
use fast_cache_engine.Common.{Bool, List, Option, [], false, if◌then◌else◌, leb, ltb, none}
use fast_cache_engine.Common.{not, some, true, ℕ, ◌%◌, ◌&&◌, ◌*◌, ◌+◌, ◌-◌, ◌/◌, ◌==◌, ◌∷◌}
use fast_cache_engine.Hash.{u64}

-- A node of the list of live blocks.
pub record FceAllocation : Type 0 where
  pub ptr : ℕ
  pub size : ℕ

pub record FceMemoryStats : Type 0 where
  pub active_allocations : ℕ
  pub active_bytes : ℕ
  pub total_allocations : ℕ
  pub total_frees : ℕ
  pub peak_bytes : ℕ

-- The two global variables.
pub record Memory : Type 0 where
  pub stats : FceMemoryStats
  pub allocations : List FceAllocation

abbrev pub initial_memory : Memory
initial_memory = record {
  stats = record {
    active_allocations = 0;
    active_bytes = 0;
    peak_bytes = 0;
    total_allocations = 0;
    total_frees = 0;
  };
  allocations = [];
}

abbrev peak_of : ℕ → ℕ → ℕ
peak_of active peak = if ltb peak active then active else peak

unfoldable pub add_stats : ℕ → FceMemoryStats → FceMemoryStats
add_stats n s =
    let active = (s.active_bytes + n) % u64 in
    record {
      active_allocations = (s.active_allocations + 1) % u64;
      active_bytes = active;
      peak_bytes = peak_of active s.peak_bytes;
      total_allocations = (s.total_allocations + 1) % u64;
      total_frees = s.total_frees;
    }

-- The size of the first node with the pointer.
unfoldable pub find_allocation : ℕ → List FceAllocation → Option ℕ
find_allocation ptr [] = none
find_allocation ptr (a ∷ rest) = if a.ptr == ptr then some a.size else find_allocation ptr rest

-- The first node with the pointer is taken out.
unfoldable pub unlink : ℕ → List FceAllocation → List FceAllocation
unlink ptr [] = []
unlink ptr (a ∷ rest) = if a.ptr == ptr then rest else a ∷ unlink ptr rest

-- The first node with the pointer gets a new pointer and size.
unfoldable pub relink : ℕ → FceAllocation → List FceAllocation → List FceAllocation
relink ptr new [] = []
relink ptr new (a ∷ rest) = if a.ptr == ptr then new ∷ rest else a ∷ relink ptr new rest

-- `got` is what `malloc` of the block returns, `node` whether that of the node succeeds.
unfoldable pub fce_xmalloc : Option ℕ → Bool → ℕ → Memory → Memory × Option ℕ
fce_xmalloc none node size m = (m, none)
fce_xmalloc (some p) false size m = (m, none)
fce_xmalloc (some p) true size m =
    let n = if size == 0 then 1 else size in
    (
      record {
        stats = add_stats n m.stats;
        allocations = record { ptr = p; size = n } ∷ m.allocations;
      },
      some p,
    )

unfoldable pub fce_xcalloc : Option ℕ → Bool → ℕ → ℕ → Memory → Memory × Option ℕ
fce_xcalloc got node count size m =
    if not (size == 0) && ltb ((u64 - 1) / size) count
    then (m, none)
    else fce_xmalloc got node (count * size) m

unfoldable pub free_stats : ℕ → FceMemoryStats → FceMemoryStats
free_stats size s = record {
  active_allocations = if s.active_allocations == 0 then 0 else s.active_allocations - 1;
  active_bytes = if leb size s.active_bytes then s.active_bytes - size else s.active_bytes;
  peak_bytes = s.peak_bytes;
  total_allocations = s.total_allocations;
  total_frees = (s.total_frees + 1) % u64;
}

-- The pointer 0 is `NULL`.
unfoldable pub fce_free : ℕ → Memory → Memory
fce_free ptr m = if ptr == 0 then m else elim (find_allocation ptr m.allocations) [
  | none ↦ m
  | some size ↦ record { stats = free_stats size m.stats; allocations = unlink ptr m.allocations }
]

unfoldable pub resize_stats : ℕ → ℕ → FceMemoryStats → FceMemoryStats
resize_stats old size s =
    let active =
      if leb old size
      then (s.active_bytes + (size - old)) % u64
      else (s.active_bytes + u64 - (old - size)) % u64 in
    record {
      active_allocations = s.active_allocations;
      active_bytes = active;
      peak_bytes = peak_of active s.peak_bytes;
      total_allocations = s.total_allocations;
      total_frees = s.total_frees;
    }

-- `got` is what `realloc` (or, for `NULL`, `malloc`) returns.
unfoldable pub fce_xrealloc : Option ℕ → Bool → ℕ → ℕ → Memory → Memory × Option ℕ
fce_xrealloc got node ptr size m =
    if ptr == 0
    then fce_xmalloc got node size m
    else if size == 0
    then (fce_free ptr m, none)
    else elim (find_allocation ptr m.allocations) [
      | none ↦ (m, none)
      | some old ↦ elim got [
        | none ↦ (m, none)
        | some p ↦ (
          record {
            stats = resize_stats old size m.stats;
            allocations = relink ptr (record { ptr = p; size = size }) m.allocations;
          },
          some p,
        )
      ]
    ]

unfoldable pub fce_memory_stats : Memory → FceMemoryStats
fce_memory_stats m = m.stats

-- A call to the allocator, with the answers of the C library.
pub data MemoryCall : Type 0 where
  xmalloc : Option ℕ → Bool → ℕ → MemoryCall
  xcalloc : Option ℕ → Bool → ℕ → ℕ → MemoryCall
  xrealloc : Option ℕ → Bool → ℕ → ℕ → MemoryCall
  free : ℕ → MemoryCall

unfoldable pub step : MemoryCall → Memory → Memory
step (xmalloc got node size) m = (fce_xmalloc got node size m).0
step (xcalloc got node count size) m = (fce_xcalloc got node count size m).0
step (xrealloc got node ptr size) m = (fce_xrealloc got node ptr size m).0
step (free ptr) m = fce_free ptr m

unfoldable pub run : List MemoryCall → Memory → Memory
unfolding step
run [] m = m
run (c ∷ cs) m = run cs (step c m)
