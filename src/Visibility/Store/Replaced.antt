-- ===== src/Visibility/Store/Replaced.antt =====
-- The database of winners holds for each address the best winner that any summary had for it.
use searchnos_db.Prelude.{
  Bytes, Bool, true, false, if◌then◌else◌, Option, none, some, [], ◌∷◌, ok, ◌≡◌, inl, inr, refl,
  sym, subst, ap, ◌∙◌, ◌=?◌, =?_iff, bytes_eq, All, fold_result, fold_result-eq-ok, Bool-cases,
  is_lt,
}
use searchnos_db.Prelude.Dict.{Dict, join, join_assoc, join_comm, gathered}
use searchnos_db.Visibility.Address.{ReplaceableKey, key_eq}
use searchnos_db.Visibility.Summary.{Winner, better, compare_winner}
use searchnos_db.Visibility.Order.{better_assoc, better_comm}
use searchnos_db.Visibility.Store.{Lmdb, strfry_replace_key, winner_value, write_winner}
use searchnos_db.Visibility.Store.Keys.{
  IsLmdb, IsAddress, IsWinner, strfry_replace_key-eq, parse_winner_value-winner_value,
}

abbrev pub AreWinners : Option Winner → Type 0
AreWinners none = Unit
AreWinners (some w) = IsWinner w

abbrev pub stored_value : Option Winner → Option Bytes
stored_value none = none
stored_value (some w) = some (winner_value w)

pub IsWinner-better : (u v : Winner) → IsWinner u → IsWinner v → IsWinner (better u v)
IsWinner-better u v x y = elim (Bool-cases (is_lt (compare_winner u v))) [
  | inl first ↦ rw first x
  | inr second ↦ rw second y
]

AreWinners-join : (o q : Option Winner) → AreWinners o → AreWinners q → AreWinners (join better o q)
AreWinners-join none q u v = v
AreWinners-join (some w) none u v = u
AreWinners-join (some w) (some x) u v = IsWinner-better w x u v

module _ (lmdb : Lmdb) (sha256 : Bytes → Bytes) (laws : IsLmdb lmdb) where
  -- For each address the database holds this winner.
  pub record Holds (db : lmdb.Database) (winner_of : ReplaceableKey → Option Winner) : Type 0 where
    pub value :
        (key : ReplaceableKey)
        → IsAddress key
        → lmdb.get db (strfry_replace_key key) ≡ stored_value (winner_of key)
    pub winners : (key : ReplaceableKey) → AreWinners (winner_of key)

  abbrev pub proposed_to :
      (ReplaceableKey → Option Winner) → ReplaceableKey × Winner → ReplaceableKey → Option Winner
  proposed_to winner_of (own, winner) key =
      if own =? key then join better (some winner) (winner_of key) else winner_of key

  -- What a write does to the value of the winner's own address.
  written_value :
      (db db' : lmdb.Database) (own : ReplaceableKey) (winner : Winner) (o : Option Winner)
      → AreWinners o
      → lmdb.get db (strfry_replace_key own) ≡ stored_value o
      → write_winner lmdb sha256 db (own, winner) ≡ ok db'
      → (lmdb.get db' (strfry_replace_key own) ≡ stored_value (join better (some winner) o))
        × ((other : Bytes)
            → (strfry_replace_key own =? other) ≡ false
            → lmdb.get db' other ≡ lmdb.get db other)
  unfolding write_winner
  written_value db db' own winner none v e h =
      let put : lmdb.put db (strfry_replace_key own) (winner_value winner) ≡ ok db' =
        rw (e, write_winner) at h in
      let after = laws.get-put db db' (strfry_replace_key own) (winner_value winner) in
      (
        after (strfry_replace_key own) put
            ∙ rw ((=?_iff (strfry_replace_key own) (strfry_replace_key own)).1 refl) refl,
        λ other different. after other put ∙ rw different refl,
      )
  written_value db db' own winner (some w) v e h =
      let k = rw (e, write_winner) at h in
      let k' = rw (parse_winner_value-winner_value w v) at k in
      elim (Bool-cases (is_lt (compare_winner winner w))) [
        | inl first ↦
            let put : lmdb.put db (strfry_replace_key own) (winner_value winner) ≡ ok db' =
              rw first at k' in
            let after = laws.get-put db db' (strfry_replace_key own) (winner_value winner) in
            (
              after (strfry_replace_key own) put
                  ∙ rw ((=?_iff (strfry_replace_key own) (strfry_replace_key own)).1 refl)
                      (rw first refl),
              λ other different. after other put ∙ rw different refl,
            )
        | inr second ↦
            let same : ok db ≡ ok db' = rw second at k' in
            let same' : db ≡ db' = cc in
            (rw (← same') (e ∙ rw second refl), λ other different. rw same' refl)
      ]

  Holds-write_winner :
      (db db' : lmdb.Database) (winner_of : ReplaceableKey → Option Winner)
      (entry : ReplaceableKey × Winner)
      → Holds db winner_of
      → IsAddress entry.0
      → IsWinner entry.1
      → write_winner lmdb sha256 db entry ≡ ok db'
      → Holds db' (proposed_to winner_of entry)
  Holds-write_winner db db' winner_of (own, winner) v address w h =
      let (here, others) =
        written_value db db' own winner (winner_of own) (v.winners own) (v.value own address) h in
      record {
        value = λ key valid. elim (Bool-cases (own =? key)) [
          | inl same ↦ rw same (rw (← (=?_iff own key).0 same) here)
          | inr different ↦ rw different (
              others (strfry_replace_key key)
                (strfry_replace_key-eq own key address valid ∙ different)
              ∙ v.value key valid)
        ];
        winners = λ key. elim (Bool-cases (own =? key)) [
          | inl same ↦ rw same (AreWinners-join (some winner) (winner_of key) w (v.winners key))
          | inr different ↦ rw different (v.winners key)
        ];
      }

  pub Holds-of_eq :
      (db : lmdb.Database) (winner_of winner_of' : ReplaceableKey → Option Winner)
      → ((key : ReplaceableKey) → winner_of key ≡ winner_of' key)
      → Holds db winner_of
      → Holds db winner_of'
  Holds-of_eq db winner_of winner_of' same v = record {
    value = λ key valid. v.value key valid ∙ ap stored_value (same key);
    winners = λ key. subst AreWinners (same key) (v.winners key);
  }

  rotate :
      (hit : Bool) (w : Winner) (o q : Option Winner)
      → join better o (if hit then join better (some w) q else q)
        ≡ join better (if hit then join better (some w) o else o) q
  rotate false w o q = refl
  rotate true w o q =
      sym (join_assoc better better_assoc o (some w) q)
      ∙ ap (λ x. join better x q) (join_comm better better_comm o (some w))

  -- The loop over the winners of a summary.
  pub Holds-write_winners :
      (db db' : lmdb.Database) (winner_of : ReplaceableKey → Option Winner)
      (entries : Dict ReplaceableKey Winner)
      → Holds db winner_of
      → All (λ (entry : ReplaceableKey × Winner). IsAddress entry.0 × IsWinner entry.1) entries
      → fold_result (write_winner lmdb sha256) db entries ≡ ok db'
      → Holds db' (λ key. join better (gathered better key entries) (winner_of key))
  unfolding gathered
  Holds-write_winners db db' winner_of [] v valid h = let same : db ≡ db' = cc in rw (← same) v
  Holds-write_winners db db' winner_of (entry ∷ entries) v valid h =
      let (between, e, rest) = fold_result-eq-ok (write_winner lmdb sha256) db entry entries h in
      let (address, winner) = valid.0 in
      let written = Holds-write_winner db between winner_of entry v address winner e in
      Holds-of_eq db'
        (λ key. join better (gathered better key entries) (proposed_to winner_of entry key)) _
        (λ key. rotate (entry.0 =? key) entry.1 (gathered better key entries) (winner_of key))
        (Holds-write_winners between db' (proposed_to winner_of entry) entries written valid.1 rest)
