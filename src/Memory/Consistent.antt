-- ===== src/Memory/Consistent.antt =====
-- The statistics of src/core/fce_memory.c agree with the blocks that are live.
use fast_cache_engine.Common.{Bool, Bool-cases, List, Option, Option-cases, [], arith, false}
use fast_cache_engine.Common.{inl, inr, length, ltb, none, not, refl, some, true, ℕ, ◌&&◌}
use fast_cache_engine.Common.{◌*◌, ◌+◌, ◌-◌, ◌/◌, ◌<◌, ◌==◌, ◌∷◌, ◌≡◌, ◌≤◌}
use fast_cache_engine.Hash.{u64}
use fast_cache_engine.Memory.{FceAllocation, Memory, MemoryCall, add_stats, fce_free, fce_xcalloc}
use fast_cache_engine.Memory.{fce_xmalloc, fce_xrealloc, find_allocation, free, free_stats}
use fast_cache_engine.Memory.{initial_memory, relink, resize_stats, run, step, unlink, xcalloc}
use fast_cache_engine.Memory.{xmalloc, xrealloc}

abbrev pub bytes_of : List FceAllocation → ℕ
bytes_of [] = 0
bytes_of (a ∷ rest) = a.size + bytes_of rest

-- The counters are those of the list: live blocks and bytes, all allocations so far, and a peak that
-- is no less than what is live.
pub record IsConsistent (m : Memory) : Type 0 where
  pub blocks : m.stats.active_allocations ≡ length m.allocations
  pub bytes : m.stats.active_bytes ≡ bytes_of m.allocations
  pub frees : m.stats.total_allocations ≡ m.stats.total_frees + length m.allocations
  pub peak : m.stats.active_bytes ≤ m.stats.peak_bytes

-- What a call may add to the live bytes.
abbrev pub cost : MemoryCall → ℕ
cost (xmalloc got node size) = size + 1
cost (xcalloc got node count size) = count * size + 1
cost (xrealloc got node ptr size) = size + 1
cost (free ptr) = 0

abbrev pub costs : List MemoryCall → ℕ
costs [] = 0
costs (c ∷ cs) = cost c + costs cs

find_unlink :
    (ptr : ℕ) (list : List FceAllocation) (size : ℕ)
    → find_allocation ptr list ≡ some size
    → (bytes_of list ≡ size + bytes_of (unlink ptr list))
      × (length list ≡ 1 + length (unlink ptr list))
unfolding find_allocation unlink
find_unlink ptr [] size h = cc
find_unlink ptr (a ∷ rest) size h = elim (Bool-cases (a.ptr == ptr)) [
  | inl k ↦ rw k (ground arith)
  | inr k ↦ let (p, q) = find_unlink ptr rest size (rw k at h) in rw k (omega arith, omega arith)
]

find_relink :
    (ptr : ℕ) (new : FceAllocation) (list : List FceAllocation) (size : ℕ)
    → find_allocation ptr list ≡ some size
    → (bytes_of (relink ptr new list) + size ≡ bytes_of list + new.size)
      × (length (relink ptr new list) ≡ length list)
unfolding find_allocation relink
find_relink ptr new [] size h = cc
find_relink ptr new (a ∷ rest) size h = elim (Bool-cases (a.ptr == ptr)) [
  | inl k ↦ rw k (ground arith)
  | inr k ↦
      let (p, q) = find_relink ptr new rest size (rw k at h) in rw k (omega arith, omega arith)
]

-- Room for `n` more bytes and `k` more calls.
abbrev HasRoom : ℕ → ℕ → Memory → Type 0
HasRoom n k m = (bytes_of m.allocations + n < u64) × (m.stats.total_allocations + k < u64)

-- A step that keeps the counters right and adds at most `n` bytes and one allocation.
abbrev Grows : ℕ → Memory → Memory → Type 0
Grows n m after =
    IsConsistent after
    × (bytes_of after.allocations ≤ bytes_of m.allocations + n)
    × (after.stats.total_allocations ≤ m.stats.total_allocations + 1)

unchanged : (n : ℕ) (m : Memory) → IsConsistent m → Grows n m m
unchanged n m c = (c, omega arith, omega arith)

xmalloc-IsConsistent :
    (got : Option ℕ) (node : Bool) (size : ℕ) (m : Memory)
    → HasRoom (size + 1) 1 m
    → IsConsistent m
    → Grows (size + 1) m (fce_xmalloc got node size m).0
unfolding fce_xmalloc add_stats
xmalloc-IsConsistent none node size m room c = unchanged (size + 1) m c
xmalloc-IsConsistent (some p) false size m room c = unchanged (size + 1) m c
xmalloc-IsConsistent (some p) true size m room c =
    let frees = c.frees in
    let blocks = c.blocks in
    let bytes = c.bytes in
    let peak = c.peak in
    (
      record {
        blocks = ground arith;
        bytes = ground arith;
        frees = ground arith;
        peak = ground arith;
      },
      ground arith,
      ground arith,
    )

free-IsConsistent :
    (ptr : ℕ) (m : Memory) → HasRoom 0 0 m → IsConsistent m → Grows 0 m (fce_free ptr m)
unfolding fce_free free_stats
free-IsConsistent ptr m room c = elim (Bool-cases (ptr == 0)) [
  | inl k ↦ rw k (unchanged 0 m c)
  | inr k ↦ elim (Option-cases (find_allocation ptr m.allocations)) [
    | inl f ↦ rw (k, f) (unchanged 0 m c)
    | inr (size, f) ↦
        let (p, q) = find_unlink ptr m.allocations size f in
        let frees = c.frees in
        let blocks = c.blocks in
        let bytes = c.bytes in
        let peak = c.peak in
        rw (k, f)
          (
            record {
              blocks = ground arith;
              bytes = ground arith;
              frees = ground arith;
              peak = ground arith;
            },
            omega arith,
            omega arith,
          )
  ]
]

xrealloc-IsConsistent :
    (got : Option ℕ) (node : Bool) (ptr size : ℕ) (m : Memory)
    → HasRoom (size + 1) 1 m
    → IsConsistent m
    → Grows (size + 1) m (fce_xrealloc got node ptr size m).0
unfolding fce_xrealloc resize_stats
xrealloc-IsConsistent got node ptr size m room c = elim (Bool-cases (ptr == 0)) [
  | inl k ↦ rw k (xmalloc-IsConsistent got node size m room c)
  | inr k ↦ elim (Bool-cases (size == 0)) [
    | inl l ↦
        let (d, p, q) = free-IsConsistent ptr m (omega arith, omega arith) c in
        rw (k, l) (d, omega arith, q)
    | inr l ↦ elim (Option-cases (find_allocation ptr m.allocations)) [
      | inl f ↦ rw (k, l, f) (unchanged (size + 1) m c)
      | inr (old, f) ↦ elim (Option-cases got) [
        | inl g ↦ rw (k, l, f, g) (unchanged (size + 1) m c)
        | inr (p, g) ↦
            let (u, v) = find_relink ptr (record { ptr = p; size = size }) m.allocations old f in
            let frees = c.frees in
            let blocks = c.blocks in
            let bytes = c.bytes in
            let peak = c.peak in
            let (room1, room2) = room in
            rw (k, l, f, g)
              (
                record {
                  blocks = omega arith;
                  bytes = ground arith;
                  frees = omega arith;
                  peak = ground arith;
                },
                omega arith,
                omega arith,
              )
      ]
    ]
  ]
]

xcalloc-IsConsistent :
    (got : Option ℕ) (node : Bool) (count size : ℕ) (m : Memory)
    → HasRoom (count * size + 1) 1 m
    → IsConsistent m
    → Grows (count * size + 1) m (fce_xcalloc got node count size m).0
unfolding fce_xcalloc
xcalloc-IsConsistent got node count size m room c =
    elim (Bool-cases (not (size == 0) && ltb ((u64 - 1) / size) count)) [
      | inl k ↦ rw (k, fce_xcalloc) (unchanged (count * size + 1) m c)
      | inr k ↦ rw (k, fce_xcalloc) (xmalloc-IsConsistent got node (count * size) m room c)
    ]

step-IsConsistent :
    (call : MemoryCall) (m : Memory)
    → HasRoom (cost call) 1 m
    → IsConsistent m
    → Grows (cost call) m (step call m)
unfolding step fce_xcalloc
step-IsConsistent (xmalloc got node size) m room c = xmalloc-IsConsistent got node size m room c
step-IsConsistent (xcalloc got node count size) m room c =
    xcalloc-IsConsistent got node count size m room c
step-IsConsistent (xrealloc got node ptr size) m room c =
    xrealloc-IsConsistent got node ptr size m room c
step-IsConsistent (free ptr) m room c = free-IsConsistent ptr m (omega arith, omega arith) c

run_from :
    (calls : List MemoryCall) (m : Memory)
    → HasRoom (costs calls) (length calls) m
    → IsConsistent m
    → IsConsistent (run calls m)
unfolding run
run_from [] m room c = c
run_from (call ∷ calls) m room c =
    let (d, p, q) = step-IsConsistent call m (omega arith, omega arith) c in
    run_from calls (step call m) (omega arith, omega arith) d

-- After any sequence of allocator calls, with whatever answers of the C library, the statistics are
-- those of the live blocks: as long as the calls ask for fewer than 2^64 bytes in all, counting one
-- more for each, and are fewer than 2^64, `active_allocations` and `active_bytes` are their number and
-- their bytes, `total_allocations` is `total_frees` and the live blocks together, and
-- `peak_bytes` is at least `active_bytes`.
pub run-IsConsistent :
    (calls : List MemoryCall)
    → costs calls < u64
    → length calls < u64
    → IsConsistent (run calls initial_memory)
run-IsConsistent calls a b =
    run_from calls initial_memory (omega arith, omega arith)
      (record { blocks = refl; bytes = refl; frees = refl; peak = omega arith })
