-- ===== src/SidecarQueue/Progress.antt =====
-- The threads that sleep while no guard is held (storage/sidecar_queue.rs).
use searchnos_db.Prelude.{
  ◌+◌, ◌<◌, false, ltb, List, [], ◌∷◌, ◌++◌, ◌≡◌, refl, ap, arith, length, length-append,
  Bool-cases, inl, inr,
}
use searchnos_db.SidecarQueue.{
  SidecarUpdateKind, compaction, reindex, is_compaction, announce, must_wait, enter, release,
  System, idle, Step, ask, sleep, wake, take, drop_guard, Reach, here, next,
}
use searchnos_db.SidecarQueue.Exclusion.{
  IsExclusive, Reach-IsExclusive, compactions, compactions-remove,
}

-- While no guard is held no compaction sleeps, and if a reindex sleeps a compaction is awake.
record IsAwake (s : System) : Type 0 where
  no_compaction : s.state.active ≡ false → compactions s.sleeping ≡ 0
  some_awake : s.state.active ≡ false → 0 < length s.sleeping → 0 < compactions s.waiting

shorter :
    (kind : SidecarUpdateKind) (kinds before after : List SidecarUpdateKind)
    → kinds ≡ before ++ kind ∷ after
    → 0 < length kinds
shorter kind kinds before after e = rw e (omega (arith, length-append before (kind ∷ after)))

Step-IsAwake : {s t : System} → Step s t → IsExclusive s → IsAwake s → IsAwake t
unfolding announce enter release must_wait compactions
Step-IsAwake (ask s compaction) v a = record {
  no_compaction = a.no_compaction;
  some_awake = λ free some. omega arith;
}
Step-IsAwake (ask s reindex) v a = record {
  no_compaction = a.no_compaction;
  some_awake = a.some_awake;
}
Step-IsAwake (sleep s compaction before after e busy) v a = record {
  no_compaction = λ free. cc;
  some_awake = λ free some. cc;
}
Step-IsAwake (sleep s reindex before after e busy) v a = record {
  no_compaction = a.no_compaction;
  some_awake = λ free some.
      ground (
        arith,
        v.counted,
        a.no_compaction free,
        compactions-remove reindex s.waiting before after e,
      );
}
Step-IsAwake (wake s compaction before after e) v a = record {
  no_compaction = λ free.
      omega (arith, a.no_compaction free, compactions-remove compaction s.sleeping before after e);
  some_awake = λ free some. omega arith;
}
Step-IsAwake (wake s reindex before after e) v a = record {
  no_compaction = λ free.
      omega (arith, a.no_compaction free, compactions-remove reindex s.sleeping before after e);
  some_awake = λ free some. a.some_awake free (shorter reindex s.sleeping before after e);
}
Step-IsAwake (take s compaction before after e free) v a = record {
  no_compaction = λ idle_again. cc;
  some_awake = λ idle_again some. cc;
}
Step-IsAwake (take s reindex before after e free) v a = record {
  no_compaction = λ idle_again. cc;
  some_awake = λ idle_again some. cc;
}
Step-IsAwake (drop_guard s kind before after e) v a = record {
  no_compaction = λ free. refl;
  some_awake = λ free some. absurd (omega arith);
}

Reach-IsAwake : {s : System} → Reach idle s → IsAwake s
unfolding compactions
Reach-IsAwake here = record {
  no_compaction = λ free. refl;
  some_awake = λ free some. absurd (omega arith);
}
Reach-IsAwake (next r st) = Step-IsAwake st (Reach-IsExclusive r) (Reach-IsAwake r)

some_compaction :
    (kinds : List SidecarUpdateKind)
    → 0 < compactions kinds
    → (before : List SidecarUpdateKind) × (after : List SidecarUpdateKind) × (kinds
        ≡ before ++ compaction ∷ after)
unfolding compactions
some_compaction [] h = absurd (omega arith)
some_compaction (compaction ∷ kinds) h = ([], kinds, refl)
some_compaction (reindex ∷ kinds) h =
    let (before, after, e) = some_compaction kinds h in
    (reindex ∷ before, after, ap (λ ks. reindex ∷ ks) e)

first_reindex :
    (kinds : List SidecarUpdateKind)
    → 0 < length kinds
    → compactions kinds ≡ 0
    → (after : List SidecarUpdateKind) × (kinds ≡ reindex ∷ after)
unfolding compactions
first_reindex [] some h = absurd (omega arith)
first_reindex (compaction ∷ kinds) some h = absurd (omega arith)
first_reindex (reindex ∷ kinds) some h = (kinds, refl)

-- In every state that the queue reaches from its start in which no guard is held and a thread asks
-- for one, awake or asleep, a thread is awake whose test lets it take the queue, so no wake-up is
-- lost. It is a compaction if one asks, and then a reindex must wait.
pub no_wake_up_lost :
    {s : System}
    → Reach idle s
    → length s.holding ≡ 0
    → 0 < length s.waiting + length s.sleeping
    → (kind : SidecarUpdateKind) × (before : List SidecarUpdateKind) × (after : List
        SidecarUpdateKind)
      × (s.waiting ≡ before ++ kind ∷ after)
      × (must_wait kind s.state ≡ false)
      × (must_wait reindex s.state ≡ is_compaction kind)
      × (ltb 0 (compactions s.waiting + compactions s.sleeping) ≡ is_compaction kind)
unfolding must_wait
no_wake_up_lost {s} r none some =
    let v = Reach-IsExclusive r in
    let a = Reach-IsAwake r in
    let free : s.state.active ≡ false = ground (arith, v.active_iff) in
    let asleep = a.no_compaction free in
    elim (Bool-cases (ltb 0 (compactions s.waiting))) [
      | inl asks ↦
          let (before, after, e) = some_compaction s.waiting (ground arith) in
          (compaction, before, after, e, free, ground (arith, v.counted), ground arith)
      | inr absent ↦
          let none_asleep : length s.sleeping ≡ 0 = ground (arith, a.some_awake free) in
          let (after, e) = first_reindex s.waiting (omega arith) (ground arith) in
          (
            reindex,
            [],
            after,
            e,
            ground (arith, v.counted),
            ground (arith, v.counted),
            ground arith,
          )
    ]
