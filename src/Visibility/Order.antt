-- ===== src/Visibility/Order.antt =====
-- `compare_winner` is a total order, so the better of two winners is a join.
use Prim.Native.Nat.Ordering.{lt, eq}
use searchnos_db.Prelude.{◌≡◌, arith, reversed, IsTotalOrder, cmp_bytes-IsTotalOrder}
use searchnos_db.Visibility.Summary.{Winner, compare_winner, better}

compare_winner_self : (a : Winner) → compare_winner a a ≡ eq
unfolding compare_winner
compare_winner_self a = ground (arith, cmp_bytes-IsTotalOrder.cmp-self a.id)

eq_of_compare_winner : (a b : Winner) → compare_winner a b ≡ eq → a ≡ b
unfolding compare_winner
eq_of_compare_winner a b h = ground (arith, cmp_bytes-IsTotalOrder.eq_of_cmp a.id b.id)

compare_winner-reversed : (a b : Winner) → compare_winner b a ≡ reversed (compare_winner a b)
unfolding compare_winner
compare_winner-reversed a b = ground (arith, cmp_bytes-IsTotalOrder.cmp-reversed a.id b.id)

compare_winner-lt_trans :
    (a b c : Winner) → compare_winner a b ≡ lt → compare_winner b c ≡ lt → compare_winner a c ≡ lt
unfolding compare_winner
compare_winner-lt_trans a b c h k = ground (arith, cmp_bytes-IsTotalOrder.lt_trans a.id b.id c.id)

pub compare_winner-IsTotalOrder : IsTotalOrder compare_winner
compare_winner-IsTotalOrder = record {
  cmp-self = compare_winner_self;
  eq_of_cmp = eq_of_compare_winner;
  cmp-reversed = compare_winner-reversed;
  lt_trans = compare_winner-lt_trans;
}

open compare_winner-IsTotalOrder use {eq_of_cmp, cmp-reversed, lt_trans}

pub better_comm : (u v : Winner) → better u v ≡ better v u
better_comm u v = ground (arith, eq_of_cmp u v, cmp-reversed u v)

pub better_assoc : (u v w : Winner) → better (better u v) w ≡ better u (better v w)
better_assoc u v w = ground (
  arith,
  eq_of_cmp u v,
  eq_of_cmp v w,
  eq_of_cmp u w,
  cmp-reversed u v,
  cmp-reversed v w,
  cmp-reversed u w,
  lt_trans u v w,
  lt_trans v u w,
  lt_trans w v u,
  lt_trans v w u,
  lt_trans u w v,
  lt_trans w u v,
)
