-- ===== src/Comparator/Order.antt =====
-- What follows from the laws of a comparator's order.
use leveldb_windows.Base.{◌≡◌, ◌≢◌, arith, Bytes}
use leveldb_windows.Comparator.{Comparator, IsOrder}
use Prim.Native.Nat.{lt, eq, gt}

module _ (user : Comparator) (order : IsOrder user) where
  pub compare_self : (a : Bytes) → user.compare_keys a a ≡ eq
  compare_self a = ground (arith, order.flipped a a)

  pub eq_right :
      (x y z : Bytes) → user.compare_keys y z ≡ eq → user.compare_keys x y ≡ user.compare_keys x z
  eq_right x y z h = ground (arith, order.eq_lt y z x, order.flipped y x, order.flipped z x)

  pub lt_le_trans :
      (x y z : Bytes)
      → user.compare_keys x y ≡ lt
      → user.compare_keys y z ≢ gt
      → user.compare_keys x z ≡ lt
  lt_le_trans x y z h k = ground (arith, order.lt_trans x y z, eq_right x y z)

  pub le_lt_trans :
      (x y z : Bytes)
      → user.compare_keys x y ≢ gt
      → user.compare_keys y z ≡ lt
      → user.compare_keys x z ≡ lt
  le_lt_trans x y z h k = ground (arith, order.lt_trans x y z, order.eq_lt x y z)

  pub le_trans :
      (x y z : Bytes)
      → user.compare_keys x y ≢ gt
      → user.compare_keys y z ≢ gt
      → user.compare_keys x z ≢ gt
  le_trans x y z h k = ground (arith, lt_le_trans x y z, order.eq_lt x y z)
