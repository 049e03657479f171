-- ===== src/Examples/Lmdb.antt =====
-- A database in memory with the documented behaviour of LMDB.
use searchnos_db.Prelude.{
  Bytes, Bool, true, false, if◌then◌else◌, Option, none, some, List, [], ◌∷◌, ok, ◌≡◌, ◌↔◌, refl,
  sym, ◌∙◌, subst, arith, ◌=?◌, =?_iff, bytes_eq, ◌∈◌, All, inl, inr, Bool-cases, is_lt, cmp_bytes,
  cmp_bytes-IsTotalOrder,
}
use searchnos_db.Prelude.Dict.{Dict, lookup, upsert, lookup-upsert, updated}
use searchnos_db.Visibility.Store.{Lmdb, is_missing}
use searchnos_db.Visibility.Store.Range.{IsAscending}
use searchnos_db.Visibility.Store.Keys.{IsLmdb}
open cmp_bytes-IsTotalOrder use {cmp-reversed, eq_of_cmp, lt_trans}

-- A key among ascending ones, once.
unfoldable pub insert_key : Bytes → List Bytes → List Bytes
insert_key key [] = key ∷ []
insert_key key (k ∷ keys) =
    let rest = insert_key key keys in
    if is_lt (cmp_bytes key k) then key ∷ k ∷ keys else if key =? k then k ∷ keys else k ∷ rest

unfoldable pub keys_of : Dict Bytes Bytes → List Bytes
keys_of [] = []
keys_of ((key, value) ∷ db) = insert_key key (keys_of db)

unfoldable pub not_below : Bytes → List Bytes → List Bytes
not_below start [] = []
not_below start (k ∷ keys) =
    let rest = not_below start keys in if is_lt (cmp_bytes k start) then rest else k ∷ rest

abbrev pub memory : Lmdb
memory = record {
  Database = Dict Bytes Bytes;
  get = λ db key. lookup key db;
  put = λ db key value. ok (upsert key (λ _. value) value db);
  keys_from = λ db start. not_below start (keys_of db);
}

After : Bytes → List Bytes → Type 0
After k keys = All (λ other. is_lt (cmp_bytes k other) ≡ true) keys

lt_lt :
    (a b c : Bytes)
    → is_lt (cmp_bytes a b) ≡ true
    → is_lt (cmp_bytes b c) ≡ true
    → is_lt (cmp_bytes a c) ≡ true
lt_lt a b c h k = ground (arith, lt_trans a b c)

After-lt :
    (a b : Bytes) (keys : List Bytes) → is_lt (cmp_bytes a b) ≡ true → After b keys → After a keys
unfolding After
After-lt a b [] h k = tt
After-lt a b (x ∷ keys) h k = (lt_lt a b x h k.0, After-lt a b keys h k.1)

After-insert_key :
    (k key : Bytes) (keys : List Bytes)
    → is_lt (cmp_bytes k key) ≡ true
    → After k keys
    → After k (insert_key key keys)
unfolding insert_key After
After-insert_key k key [] h a = (h, tt)
After-insert_key k key (x ∷ keys) h a = elim (Bool-cases (is_lt (cmp_bytes key x))) [
  | inl below ↦ rw below (h, a)
  | inr not_lt ↦ rw not_lt (elim (Bool-cases (key =? x)) [
    | inl same ↦ rw same a
    | inr other ↦ rw other (a.0, After-insert_key k key keys h a.1)
  ])
]

insert_key-IsAscending :
    (key : Bytes) (keys : List Bytes) → IsAscending keys → IsAscending (insert_key key keys)
unfolding insert_key After
insert_key-IsAscending key [] a = (tt, tt)
insert_key-IsAscending key (x ∷ keys) a = elim (Bool-cases (is_lt (cmp_bytes key x))) [
  | inl below ↦ rw below ((below, After-lt key x keys below a.0), a)
  | inr not_lt ↦ rw not_lt (elim (Bool-cases (key =? x)) [
    | inl same ↦ rw same a
    | inr other ↦ rw other (
      After-insert_key x key keys
          (ground (arith, cmp-reversed key x, eq_of_cmp key x, =?_iff key x)) a.0,
      insert_key-IsAscending key keys a.1,
    )
  ])
]

keys_of-IsAscending : (db : Dict Bytes Bytes) → IsAscending (keys_of db)
unfolding keys_of
keys_of-IsAscending [] = tt
keys_of-IsAscending ((key, value) ∷ db) =
    insert_key-IsAscending key (keys_of db) (keys_of-IsAscending db)

After-not_below :
    (k start : Bytes) (keys : List Bytes) → After k keys → After k (not_below start keys)
unfolding not_below After
After-not_below k start [] a = tt
After-not_below k start (x ∷ keys) a = elim (Bool-cases (is_lt (cmp_bytes x start))) [
  | inl below ↦ rw below (After-not_below k start keys a.1)
  | inr above ↦ rw above (a.0, After-not_below k start keys a.1)
]

not_below-IsAscending :
    (start : Bytes) (keys : List Bytes) → IsAscending keys → IsAscending (not_below start keys)
unfolding not_below After
not_below-IsAscending start [] a = tt
not_below-IsAscending start (x ∷ keys) a = elim (Bool-cases (is_lt (cmp_bytes x start))) [
  | inl below ↦ rw below (not_below-IsAscending start keys a.1)
  | inr above ↦ rw above (After-not_below x start keys a.0, not_below-IsAscending start keys a.1)
]

mem-insert_key :
    (x key : Bytes) (keys : List Bytes) → (x ∈ insert_key key keys) ↔ (x ∈ (key ∷ keys))
unfolding insert_key
mem-insert_key x key [] = (λ m. m, λ m. m)
mem-insert_key x key (k ∷ keys) = elim (Bool-cases (is_lt (cmp_bytes key k))) [
  | inl below ↦ rw below (λ m. m, λ m. m)
  | inr not_lt ↦ rw not_lt (elim (Bool-cases (key =? k)) [
    | inl same ↦
        rw same
          (λ m. inr m, λ m. elim m [ inl e ↦ inl (sym ((=?_iff key k).0 same) ∙ e) | inr n ↦ n ])
    | inr other ↦ rw other (swap x key k keys (mem-insert_key x key keys))
  ])
]
  where
    swap :
        (y a b : Bytes) (ys : List Bytes)
        → (y ∈ insert_key a ys) ↔ (y ∈ (a ∷ ys))
        → (y ∈ (b ∷ insert_key a ys)) ↔ (y ∈ (a ∷ b ∷ ys))
    swap y a b ys h = (
      λ m. elim m [
        | inl e ↦ inr (inl e)
        | inr n ↦ elim (h.0 n) [ inl e ↦ inl e | inr o ↦ inr (inr o) ]
      ],
      λ m. elim m [
        | inl e ↦ inr (h.1 (inl e))
        | inr n ↦ elim n [ inl e ↦ inl e | inr o ↦ inr (h.1 (inr o)) ]
      ],
    )

mem-keys_of :
    (x : Bytes) (db : Dict Bytes Bytes) → (x ∈ keys_of db) ↔ (is_missing (lookup x db) ≡ false)
unfolding keys_of lookup
mem-keys_of x [] = (λ m. elim m [ ], λ h. cc)
mem-keys_of x ((key, value) ∷ db) =
    let inserted = mem-insert_key x key (keys_of db) in
    let ih = mem-keys_of x db in
    elim (Bool-cases (key =? x)) [
      | inl same ↦ rw same (λ m. refl, λ h. inserted.1 (inl ((=?_iff key x).0 same)))
      | inr other ↦ rw other (
        λ m. elim (inserted.0 m) [ inl e ↦ absurd (unequal other e) | inr n ↦ ih.0 n ],
        λ h. inserted.1 (inr (ih.1 h)),
      )
    ]
  where
    unequal : (key =? x) ≡ false → key ≡ x → ⊥
    unequal other e = ground (arith, (=?_iff key x).1 e)

mem-not_below :
    (x start : Bytes) (keys : List Bytes)
    → (x ∈ not_below start keys) ↔ ((x ∈ keys) × (is_lt (cmp_bytes x start) ≡ false))
unfolding not_below
mem-not_below x start [] = (λ m. elim m [ ], λ h. h.0)
mem-not_below x start (k ∷ keys) =
    let ih = mem-not_below x start keys in
    elim (Bool-cases (is_lt (cmp_bytes k start))) [
      | inl below ↦ rw below (
        λ m. (inr (ih.0 m).0, (ih.0 m).1),
        λ h. elim h.0 [
          | inl e ↦
              absurd (clash below (subst (λ y. is_lt (cmp_bytes y start) ≡ false) (sym e) h.1))
          | inr n ↦ ih.1 (n, h.1)
        ],
      )
      | inr above ↦ rw above (
        λ m. elim m [
          | inl e ↦ (inl e, subst (λ y. is_lt (cmp_bytes y start) ≡ false) e above)
          | inr n ↦ (inr (ih.0 n).0, (ih.0 n).1)
        ],
        λ h. elim h.0 [ inl e ↦ inl e | inr n ↦ inr (ih.1 (n, h.1)) ],
      )
    ]
  where
    clash : is_lt (cmp_bytes k start) ≡ true → is_lt (cmp_bytes k start) ≡ false → ⊥
    clash a b = cc

ok_inj : {A : Type 0} {a b : A} → ok a ≡ ok b → a ≡ b
ok_inj h = cc

pub memory-IsLmdb : IsLmdb memory
memory-IsLmdb = record {
  get-put = λ db db' key value other h.
      subst
        (λ (d : Dict Bytes Bytes).
          lookup other d ≡ (if key =? other then some value else lookup other db))
        (ok_inj h)
        (lookup-upsert key other (λ _. value) value db
          ∙ constant (lookup key db) (key =? other) value (lookup other db));
  keys_from_iff = λ db start key. (
    λ m.
        let (n, above) = (mem-not_below key start (keys_of db)).0 m in
        (above, (mem-keys_of key db).0 n),
    λ h. (mem-not_below key start (keys_of db)).1 ((mem-keys_of key db).1 h.1, h.0),
  );
  keys_from-IsAscending =
      λ db start. not_below-IsAscending start (keys_of db) (keys_of-IsAscending db);
}
  where
    constant :
        (o : Option Bytes) (hit : Bool) (value : Bytes) (other : Option Bytes)
        → (if hit then some (updated (λ _. value) value o) else other)
          ≡ (if hit then some value else other)
    constant none hit value other = refl
    constant (some w) hit value other = refl
