-- ===== src/Entry/Order.antt =====
-- `cmp_sorted_entry` of src/core/fce_build_records.c orders by the hash first.
use fast_cache_engine.Common.{Bool, arith, false, ltb, true, ◌&&◌, ◌==◌, ◌||◌, ◌≡◌, ◌≢◌}
use fast_cache_engine.Entry.{SortedEntry, cmp_sorted_entry}
use fast_cache_engine.Hash.{Hash128}
use Prim.Native.Nat.{Ordering}

-- The hash of the entry is less than `h`: the test of the binary search.
unfoldable pub hash_below : SortedEntry → Hash128 → Bool
hash_below e h = ltb e.hash_hi h.hi || ((e.hash_hi == h.hi) && ltb e.hash_lo h.lo)

unfoldable pub hash_is : SortedEntry → Hash128 → Bool
hash_is e h = (e.hash_hi == h.hi) && (e.hash_lo == h.lo)

-- Where entries ascend, so do their hashes.
pub hash_below_antitone :
    (a b : SortedEntry) (h : Hash128)
    → cmp_sorted_entry a b ≢ Ordering.gt
    → hash_below b h ≡ true
    → hash_below a h ≡ true
unfolding cmp_sorted_entry hash_below
hash_below_antitone a b h c k = ground arith

-- An entry above a hash has only others above after it.
pub hash_above :
    (a b : SortedEntry) (h : Hash128)
    → cmp_sorted_entry a b ≢ Ordering.gt
    → hash_below a h ≡ false
    → hash_is a h ≡ false
    → hash_is b h ≡ false
unfolding cmp_sorted_entry hash_below hash_is
hash_above a b h c k l = ground arith
