-- ===== src/Visibility/Store/Deleted.antt =====
-- The databases of deletions hold what the summaries mark: pairs of an identifier and an author,
-- and addresses with a time.
use searchnos_db.Prelude.{
  ℕ, Bytes, Bool, not, ◌||◌, ◌&&◌, List, [], ◌∷◌, ◌++◌, ok, ◌≡◌, refl, sym, ◌∙◌, arith, ◌=?◌,
  =?_iff, bytes_eq, length, append_inj, All, fold_result, fold_result-eq-ok, contains, any,
  Bool-cases, inl, inr,
}
use searchnos_db.Prelude.Dict.{Dict}
use searchnos_db.Visibility.Address.{ReplaceableKey}
use searchnos_db.Visibility.DeletedIds.{marked}
use searchnos_db.Visibility.Store.{
  Lmdb, strfry_deletion_key, is_missing, write_deletion, write_deletions, write_address,
  strfry_replace_deletion_key,
}
use searchnos_db.Visibility.Store.Keys.{IsLmdb}

strfry_deletion_key-eq :
    (id pubkey id' pubkey' : Bytes)
    → length id ≡ length id'
    → (strfry_deletion_key id pubkey =? strfry_deletion_key id' pubkey')
      ≡ (id =? id' && pubkey =? pubkey')
strfry_deletion_key-eq id pubkey id' pubkey' h = ground (
  arith,
  =?_iff (id ++ pubkey) (id' ++ pubkey'),
  =?_iff id id',
  =?_iff pubkey pubkey',
  append_inj id id' pubkey pubkey' h,
)

module _ (lmdb : Lmdb) (sha256 : Bytes → Bytes) (laws : IsLmdb lmdb) where
  -- The pairs that the database has.
  abbrev pub Marks : lmdb.Database → (Bytes → Bytes → Bool) → Type 0
  Marks db is_marked =
      (id pubkey : Bytes)
      → length id ≡ 32
      → is_missing (lmdb.get db (strfry_deletion_key id pubkey)) ≡ not (is_marked id pubkey)

  missing_after :
      (db db' : lmdb.Database) (key other : Bytes)
      → lmdb.put db key [] ≡ ok db'
      → is_missing (lmdb.get db' other) ≡ (not (key =? other) && is_missing (lmdb.get db other))
  missing_after db db' key other put =
      rw (laws.get-put db db' key [] other put) (elim (Bool-cases (key =? other)) [
        | inl same ↦ rw same refl
        | inr different ↦ rw different refl
      ])

  Marks-write_deletions :
      (id : Bytes) (pubkeys : List Bytes) (db db' : lmdb.Database)
      (is_marked : Bytes → Bytes → Bool)
      → length id ≡ 32
      → Marks db is_marked
      → fold_result (write_deletion lmdb sha256 id) db pubkeys ≡ ok db'
      → Marks db' (λ i p. id =? i && contains pubkeys p || is_marked i p)
  unfolding write_deletion
  Marks-write_deletions id [] db db' is_marked l v h =
      let same : db ≡ db' = cc in λ i p n. rw (← same) (v i p n ∙ ground arith)
  Marks-write_deletions id (pubkey ∷ pubkeys) db db' is_marked l v h =
      let (between, e, rest) =
        fold_result-eq-ok (write_deletion lmdb sha256 id) db pubkey pubkeys h in
      let written : Marks between (λ i p. id =? i && pubkey =? p || is_marked i p) = λ i p n.
        missing_after db between (strfry_deletion_key id pubkey) (strfry_deletion_key i p) e
        ∙ rw (v i p n) (rw (strfry_deletion_key-eq id pubkey i p (l ∙ sym n)) (ground arith)) in
      λ i p n. Marks-write_deletions id pubkeys between db' _ l written rest i p n ∙ ground arith

  -- The loop over the deleted identifiers of a summary.
  pub Marks-write_deleted_ids :
      (entries : Dict Bytes (List Bytes)) (db db' : lmdb.Database)
      (is_marked : Bytes → Bytes → Bool)
      → All (λ (entry : Bytes × List Bytes). length entry.0 ≡ 32) entries
      → Marks db is_marked
      → fold_result (write_deletions lmdb sha256) db entries ≡ ok db'
      → Marks db' (λ i p. marked i p entries || is_marked i p)
  unfolding write_deletions
  Marks-write_deleted_ids [] db db' is_marked l v h = let same : db ≡ db' = cc in rw (← same) v
  Marks-write_deleted_ids ((id, pubkeys) ∷ entries) db db' is_marked l v h =
      let (between, e, rest) =
        fold_result-eq-ok (write_deletions lmdb sha256) db (id, pubkeys) entries h in
      let written = Marks-write_deletions id pubkeys db between is_marked l.0 v e in
      λ i p n. Marks-write_deleted_ids entries between db' _ l.1 written rest i p n ∙ ground arith

  -- The keys that the database has.
  abbrev pub HasKeys : lmdb.Database → (Bytes → Bool) → Type 0
  HasKeys db is_key = (key : Bytes) → is_missing (lmdb.get db key) ≡ not (is_key key)

  abbrev pub is_key_of : Dict ReplaceableKey ℕ → Bytes → Bool
  is_key_of entries stored =
      any
        (λ (entry : ReplaceableKey × ℕ).
          strfry_replace_deletion_key sha256 entry.0 entry.1 =? stored)
        entries

  -- The loop over the deleted addresses of a summary.
  pub HasKeys-write_addresses :
      (entries : Dict ReplaceableKey ℕ) (db db' : lmdb.Database) (is_key : Bytes → Bool)
      → HasKeys db is_key
      → fold_result (write_address lmdb sha256) db entries ≡ ok db'
      → HasKeys db' (λ key. is_key_of entries key || is_key key)
  unfolding write_address
  HasKeys-write_addresses [] db db' is_key v h = let same : db ≡ db' = cc in rw (← same) v
  HasKeys-write_addresses ((key, created_at) ∷ entries) db db' is_key v h =
      let (between, e, rest) =
        fold_result-eq-ok (write_address lmdb sha256) db (key, created_at) entries h in
      let own = strfry_replace_deletion_key sha256 key created_at in
      let written : HasKeys between (λ other. own =? other || is_key other) =
        λ other. missing_after db between own other e ∙ rw (v other) (ground arith) in
      λ other. HasKeys-write_addresses entries between db' _ written rest other ∙ ground arith
