-- ===== src/Subscription/Identifiers.antt =====
-- Whatever happens to a manager, its identifiers are distinct until the counter wraps.
use searchnos_db.Prelude.{
  ℕ, ◌+◌, ◌%◌, ◌^◌, ◌<◌, Bool, false, ◌==◌, ==_iff, List, [], ◌∷◌, ◌++◌, ◌≡◌, arith, All,
  All-append, length, Bool-cases, inl, inr,
}
use searchnos_db.Subscription.{
  SubscriptionEntry, SubscriptionManager, new_manager, register, retain_others, unregister, send_to,
  broadcast_packet, Operation, registered, unregistered, broadcast, apply_operation,
  apply_operations, collect_matching_senders,
}
use searchnos_db.Subscription.Broadcast.{AreDistinct}

module _ {ℓ} {Filter : Type ℓ} where
  abbrev Differs : ℕ → SubscriptionEntry Filter → Type 0
  Differs id other = (id == other.id) ≡ false

  All-retain_others :
      (id own : ℕ) (entries : List (SubscriptionEntry Filter))
      → All (Differs own) entries
      → All (Differs own) (retain_others id entries)
  unfolding retain_others
  All-retain_others id own [] h = h
  All-retain_others id own (entry ∷ entries) h =
      let ih = All-retain_others id own entries h.1 in
      elim (Bool-cases (entry.id == id)) [ inl same ↦ rw same ih | inr other ↦ rw other (h.0, ih) ]

  retain_others-AreDistinct :
      (id bound : ℕ) (entries : List (SubscriptionEntry Filter))
      → AreDistinct bound entries
      → AreDistinct bound (retain_others id entries)
  unfolding retain_others
  retain_others-AreDistinct id bound [] d = d
  retain_others-AreDistinct id bound (entry ∷ entries) (below, others, d) =
      let ih = retain_others-AreDistinct id bound entries d in
      elim (Bool-cases (entry.id == id)) [
        | inl same ↦ rw same ih
        | inr other ↦ rw other (below, All-retain_others id entry.id entries others, ih)
      ]

  append-AreDistinct :
      (bound : ℕ) (filters : List Filter) (entries : List (SubscriptionEntry Filter))
      → AreDistinct bound entries
      → AreDistinct (bound + 1) (entries ++ record { id = bound; filters = filters } ∷ [])
  append-AreDistinct bound filters [] d = (omega arith, tt, tt)
  append-AreDistinct bound filters (entry ∷ entries) (below, others, d) = (
    omega arith,
    All-append (Differs entry.id) entries (record { id = bound; filters = filters } ∷ []) others
        (ground (arith, ==_iff entry.id bound), tt),
    append-AreDistinct bound filters entries d,
  )

  -- The counter is above every identifier and leaves room for more.
  record HasRoom (room : ℕ) (m : SubscriptionManager Filter) : Type 0 where
    distinct : AreDistinct m.next_id m.entries
    counter : m.next_id + room < 2 ^ 64

  send_to-HasRoom :
      (room : ℕ) (try_send : ℕ → Bool) (targets : List ℕ) (m : SubscriptionManager Filter)
      → HasRoom room m
      → HasRoom room (send_to try_send targets m).1
  unfolding send_to unregister
  send_to-HasRoom room try_send [] m v = v
  send_to-HasRoom room try_send (target ∷ targets) m v = elim (Bool-cases (try_send target)) [
    | inl taken ↦ rw (taken, send_to) (send_to-HasRoom room try_send targets m v)
    | inr refused ↦
        rw (refused, send_to)
          (send_to-HasRoom room try_send targets (unregister target m) (record {
            distinct = retain_others-AreDistinct target m.next_id m.entries v.distinct;
            counter = v.counter;
          }))
  ]

  apply_operation-HasRoom :
      (room : ℕ) (operation : Operation Filter) (m : SubscriptionManager Filter)
      → HasRoom (room + 1) m
      → HasRoom room (apply_operation operation m)
  unfolding apply_operation register unregister broadcast_packet collect_matching_senders
  apply_operation-HasRoom room (registered filters) m v =
      let next : (m.next_id + 1) % 2 ^ 64 ≡ m.next_id + 1 = omega (arith, v.counter) in
      record {
        distinct = rw next (append-AreDistinct m.next_id filters m.entries v.distinct);
        counter = rw next (omega (arith, v.counter));
      }
  apply_operation-HasRoom room (unregistered id) m v = record {
    distinct = retain_others-AreDistinct id m.next_id m.entries v.distinct;
    counter = omega (arith, v.counter);
  }
  apply_operation-HasRoom room (broadcast matches_filter try_send) m v =
      send_to-HasRoom room try_send (collect_matching_senders matches_filter m) m
        (record { distinct = v.distinct; counter = omega (arith, v.counter) })

  operations-HasRoom :
      (operations : List (Operation Filter)) (m : SubscriptionManager Filter)
      → HasRoom (length operations) m
      → HasRoom 0 (apply_operations operations m)
  unfolding apply_operations
  operations-HasRoom [] m v = v
  operations-HasRoom (operation ∷ operations) m v =
      operations-HasRoom operations (apply_operation operation m) (
        apply_operation-HasRoom (length operations) operation m
          (record { distinct = v.distinct; counter = omega (arith, v.counter) }))

  -- After fewer than 2^64 - 1 operations on a new manager, its identifiers are distinct and below
  -- the next one.
  pub apply_operations-AreDistinct :
      (capacity : ℕ) (operations : List (Operation Filter))
      → length operations + 1 < 2 ^ 64
      → AreDistinct
          (apply_operations operations (new_manager capacity)).next_id
          (apply_operations operations (new_manager capacity)).entries
  unfolding new_manager
  apply_operations-AreDistinct capacity operations h =
      (operations-HasRoom operations (new_manager capacity)
        (record { distinct = tt; counter = omega arith })).distinct
