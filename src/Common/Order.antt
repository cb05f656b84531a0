-- ===== src/Common/Order.antt =====
-- What a comparison function answers, the sign of a C `int`, and what it means to order by it.
pub use Prim.Native.Nat.{Ordering}

-- Two comparisons in a row: the second decides where the first finds no difference.
abbrev pub then_by : Ordering → Ordering → Ordering
then_by Ordering.lt o = Ordering.lt
then_by Ordering.eq o = o
then_by Ordering.gt o = Ordering.gt

abbrev pub flip : Ordering → Ordering
flip Ordering.lt = Ordering.gt
flip Ordering.eq = Ordering.eq
flip Ordering.gt = Ordering.lt
