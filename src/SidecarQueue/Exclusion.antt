-- ===== src/SidecarQueue/Exclusion.antt =====
-- The guards that are held, and the count of the compactions that ask for one.
use searchnos_db.Prelude.{
  ℕ, ◌+◌, ◌≤◌, false, ltb, List, [], ◌∷◌, ◌++◌, ◌≡◌, arith, length, length-append,
}
use searchnos_db.SidecarQueue.{
  SidecarUpdateKind, compaction, reindex, announce, must_wait, enter, release, System, idle, Step,
  ask, sleep, wake, take, drop_guard, notify_all, Reach, here, next,
}

-- How many of the threads are compactions.
unfoldable pub compactions : List SidecarUpdateKind → ℕ
compactions [] = 0
compactions (compaction ∷ kinds) = compactions kinds + 1
compactions (reindex ∷ kinds) = compactions kinds

pub compactions-append :
    (xs ys : List SidecarUpdateKind) → compactions (xs ++ ys) ≡ compactions xs + compactions ys
unfolding compactions
compactions-append [] ys = omega arith
compactions-append (compaction ∷ xs) ys = omega (arith, compactions-append xs ys)
compactions-append (reindex ∷ xs) ys = omega (arith, compactions-append xs ys)

-- At most one guard is held, `active` says whether one is, and `pending_compactions` counts the
-- compactions that ask for one, awake or asleep.
pub record IsExclusive (s : System) : Type 0 where
  pub one_guard : length s.holding ≤ 1
  pub active_iff : s.state.active ≡ ltb 0 (length s.holding)
  pub counted : s.state.pending_compactions ≡ compactions s.waiting + compactions s.sleeping

ask-IsExclusive :
    (s : System) (kind : SidecarUpdateKind)
    → IsExclusive s
    → IsExclusive (record s { state = announce kind s.state; waiting = kind ∷ s.waiting })
unfolding announce compactions
ask-IsExclusive s compaction v = ground arith
ask-IsExclusive s reindex v = ground arith

-- Taking a waiting thread away.
pub compactions-remove :
    (kind : SidecarUpdateKind) (waiting before after : List SidecarUpdateKind)
    → waiting ≡ before ++ kind ∷ after
    → compactions waiting ≡ compactions (kind ∷ []) + compactions (before ++ after)
unfolding compactions
compactions-remove compaction waiting before after e =
    rw e (
      omega
        (arith, compactions-append before (compaction ∷ after), compactions-append before after))
compactions-remove reindex waiting before after e =
    rw e
      (omega (arith, compactions-append before (reindex ∷ after), compactions-append before after))

take-IsExclusive :
    (s : System) (kind : SidecarUpdateKind) (before after : List SidecarUpdateKind)
    → s.waiting ≡ before ++ kind ∷ after
    → must_wait kind s.state ≡ false
    → IsExclusive s
    → IsExclusive (record s {
      state = enter kind s.state;
      waiting = before ++ after;
      holding = kind ∷ s.holding;
    })
unfolding enter must_wait compactions
take-IsExclusive s compaction before after e free v =
    ground (arith, compactions-remove compaction s.waiting before after e)
take-IsExclusive s reindex before after e free v =
    ground (arith, compactions-remove reindex s.waiting before after e)

length-remove :
    (kind : SidecarUpdateKind) (holding before after : List SidecarUpdateKind)
    → holding ≡ before ++ kind ∷ after
    → length holding ≡ 1 + length (before ++ after)
length-remove kind holding before after e =
    rw e (omega (arith, length-append {0} before (kind ∷ after), length-append {0} before after))

drop_guard-IsExclusive :
    (s : System) (kind : SidecarUpdateKind) (before after : List SidecarUpdateKind)
    → s.holding ≡ before ++ kind ∷ after
    → IsExclusive s
    → IsExclusive (notify_all (record s { state = release s.state; holding = before ++ after }))
unfolding release compactions
drop_guard-IsExclusive s kind before after e v =
    ground
      (arith, length-remove kind s.holding before after e, compactions-append s.sleeping s.waiting)

sleep-IsExclusive :
    (s : System) (kind : SidecarUpdateKind) (before after : List SidecarUpdateKind)
    → s.waiting ≡ before ++ kind ∷ after
    → IsExclusive s
    → IsExclusive (record s { waiting = before ++ after; sleeping = kind ∷ s.sleeping })
unfolding compactions
sleep-IsExclusive s compaction before after e v =
    ground (arith, compactions-remove compaction s.waiting before after e)
sleep-IsExclusive s reindex before after e v =
    ground (arith, compactions-remove reindex s.waiting before after e)

wake-IsExclusive :
    (s : System) (kind : SidecarUpdateKind) (before after : List SidecarUpdateKind)
    → s.sleeping ≡ before ++ kind ∷ after
    → IsExclusive s
    → IsExclusive (record s { waiting = kind ∷ s.waiting; sleeping = before ++ after })
unfolding compactions
wake-IsExclusive s compaction before after e v =
    ground (arith, compactions-remove compaction s.sleeping before after e)
wake-IsExclusive s reindex before after e v =
    ground (arith, compactions-remove reindex s.sleeping before after e)

Step-IsExclusive : {s t : System} → Step s t → IsExclusive s → IsExclusive t
Step-IsExclusive (ask s kind) v = ask-IsExclusive s kind v
Step-IsExclusive (take s kind before after e free) v = take-IsExclusive s kind before after e free v
Step-IsExclusive (sleep s kind before after e busy) v = sleep-IsExclusive s kind before after e v
Step-IsExclusive (wake s kind before after e) v = wake-IsExclusive s kind before after e v
Step-IsExclusive (drop_guard s kind before after e) v =
    drop_guard-IsExclusive s kind before after e v

-- In every state that the queue reaches from its start, at most one guard is held, `active` says
-- whether one is held, and `pending_compactions` is the number of compactions that wait.
pub Reach-IsExclusive : {s : System} → Reach idle s → IsExclusive s
unfolding compactions
Reach-IsExclusive here = ground arith
Reach-IsExclusive (next r st) = Step-IsExclusive st (Reach-IsExclusive r)
