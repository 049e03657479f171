-- ===== src/PurgePolicy.antt =====
-- The policy on the age of events and its texts (db/purge_policy.rs): a `Duration` is its number of
-- seconds, since only whole seconds are made here; the map by kind keeps the ascending order of a
-- `BTreeMap`.
pub mod Entries
pub mod Duration
pub mod Specs
use searchnos_db.Prelude.{
  ℕ, ◌+◌, ◌*◌, ◌^◌, ltb, ◌==◌, if◌then◌else◌, Bool, true, false, ◌&&◌, ◌||◌, Option, none, some,
  List, [], ◌∷◌, Bytes,
}
use searchnos_db.Text.{
  trim, split_once, to_ascii_lowercase, eq_ignore_ascii_case, is_ascii_alphabetic, parse_unsigned,
}

pub data PurgeSetting : Type 0 where
  retain : ℕ → PurgeSetting
  never : PurgeSetting
  purge : PurgeSetting

pub record PurgePolicy : Type 0 where
  pub default_setting : Option PurgeSetting
  pub per_kind : List (ℕ × PurgeSetting)

-- The reasons, one for each of the texts that the source gives.
pub data Reason : Type 0 where
  empty_specification : Reason
  missing_kind_or_window : Reason
  invalid_kind_identifier : Reason
  empty_duration : Reason
  missing_duration_suffix : Reason
  missing_duration_value : Reason
  unknown_duration_suffix : Reason
  invalid_duration_value : Reason
  duration_exceeds_limit : Reason

pub data PurgeSpecError : Type 0 where
  no_specs : PurgeSpecError
  invalid_spec : Bytes → Reason → PurgeSpecError

pub data Parsed (E A : Type 0) : Type 0 where
  parsed : A → Parsed E A
  failed : E → Parsed E A

-- `BTreeMap::get` and `BTreeMap::insert`
unfoldable pub get : ℕ → List (ℕ × PurgeSetting) → Option PurgeSetting
get kind [] = none
get kind ((k, s) ∷ m) = if k == kind then some s else get kind m

unfoldable pub insert : ℕ → PurgeSetting → List (ℕ × PurgeSetting) → List (ℕ × PurgeSetting)
insert kind setting [] = (kind, setting) ∷ []
insert kind setting ((k, s) ∷ m) =
    let rest = insert kind setting m in
    if k == kind
    then (kind, setting) ∷ m
    else if ltb kind k
    then (kind, setting) ∷ (k, s) ∷ m
    else (k, s) ∷ rest

-- `Option::or`
abbrev pub or_else : Option PurgeSetting → Option PurgeSetting → Option PurgeSetting
or_else (some s) other = some s
or_else none other = other

unfoldable pub setting_for_kind : PurgePolicy → ℕ → Option PurgeSetting
setting_for_kind p kind = or_else (get kind (p.per_kind)) (p.default_setting)

abbrev pub retained : Option PurgeSetting → Option ℕ
retained (some (retain duration)) = some duration
retained _ = none

unfoldable pub purge_after_for_kind : PurgePolicy → ℕ → Option ℕ
purge_after_for_kind p kind = retained (setting_for_kind p kind)

unfoldable pub should_purge_immediately : PurgePolicy → ℕ → Bool
should_purge_immediately p kind = elim (setting_for_kind p kind) [
  | some (retain duration) ↦ false
  | some never ↦ false
  | some purge ↦ true
  | none ↦ false
]

unfoldable pub has_override : PurgePolicy → ℕ → Bool
has_override p kind = elim (get kind (p.per_kind)) [ some setting ↦ true | none ↦ false ]

abbrev pub retained_entries : List (ℕ × PurgeSetting) → List (ℕ × ℕ)
retained_entries [] = []
retained_entries ((k, retain duration) ∷ m) = (k, duration) ∷ retained_entries m
retained_entries ((k, never) ∷ m) = retained_entries m
retained_entries ((k, purge) ∷ m) = retained_entries m

unfoldable pub purge_overrides : PurgePolicy → List (ℕ × ℕ)
purge_overrides p = retained_entries (p.per_kind)

unfoldable pub default_duration : PurgePolicy → Option ℕ
default_duration p = retained (p.default_setting)

-- The seconds of a unit, by its letter in lower case.
unfoldable pub unit_seconds : ℕ → Option ℕ
unit_seconds c =
    if c == b'y'
    then some (86400 * 365)
    else if c == b'd'
    then some 86400
    else if c == b'h'
    then some 3600
    else if c == b'm'
    then some 60
    else if c == b's'
    then some 1
    else none

-- All characters but the last, and the last.
unfoldable pub split_last : ℕ → Bytes → Bytes × ℕ
split_last c [] = ([], c)
split_last c (d ∷ ds) = let (front, last) = split_last d ds in (c ∷ front, last)

unfoldable pub scaled : ℕ → ℕ → Parsed Reason ℕ
scaled amount multiplier =
    if ltb (amount * multiplier) (2 ^ 64)
    then parsed (amount * multiplier)
    else failed duration_exceeds_limit

-- What follows the test on the last character.
unfoldable pub parse_amount : Bytes → ℕ → Parsed Reason ℕ
parse_amount [] last = failed missing_duration_value
parse_amount (c ∷ cs) last = elim (unit_seconds (to_ascii_lowercase last)) [
  | none ↦ failed unknown_duration_suffix
  | some multiplier ↦ elim (parse_unsigned (2 ^ 64) (c ∷ cs)) [
    | none ↦ failed invalid_duration_value
    | some amount ↦ scaled amount multiplier
  ]
]

abbrev pub parse_trimmed : Bytes → Parsed Reason ℕ
parse_trimmed [] = failed empty_duration
parse_trimmed (c ∷ cs) =
    let (number_part, last) = split_last c cs in
    if is_ascii_alphabetic last
    then parse_amount number_part last
    else failed missing_duration_suffix

unfoldable pub parse_duration : Bytes → Parsed Reason ℕ
parse_duration value = parse_trimmed (trim value)

abbrev pub never_text : Bytes
never_text = b'n' ∷ b'e' ∷ b'v' ∷ b'e' ∷ b'r' ∷ []

abbrev pub purge_text : Bytes
purge_text = b'p' ∷ b'u' ∷ b'r' ∷ b'g' ∷ b'e' ∷ []

-- The window of a specification: one of two words or a duration.
unfoldable pub parse_setting : Bytes → Parsed Reason PurgeSetting
parse_setting window =
    if eq_ignore_ascii_case window never_text
    then parsed never
    else if eq_ignore_ascii_case window purge_text
    then parsed purge
    else elim (parse_duration window) [
      | parsed duration ↦ parsed (retain duration)
      | failed reason ↦ failed reason
    ]

abbrev pub with_kind : PurgePolicy → ℕ → PurgeSetting → PurgePolicy
with_kind p kind setting = record {
  default_setting = p.default_setting;
  per_kind = insert kind setting (p.per_kind);
}

abbrev pub with_default : PurgePolicy → PurgeSetting → PurgePolicy
with_default p setting = record { default_setting = some setting; per_kind = p.per_kind }

-- A specification for one kind, its two parts trimmed.
unfoldable pub apply_kind_spec : PurgePolicy → Bytes → Bytes → Parsed Reason PurgePolicy
apply_kind_spec p [] window = failed missing_kind_or_window
apply_kind_spec p (k ∷ ks) [] = failed missing_kind_or_window
apply_kind_spec p (k ∷ ks) (w ∷ ws) = elim (parse_unsigned (2 ^ 16) (k ∷ ks)) [
  | none ↦ failed invalid_kind_identifier
  | some kind ↦ elim (parse_setting (w ∷ ws)) [
    | parsed setting ↦ parsed (with_kind p kind setting)
    | failed reason ↦ failed reason
  ]
]

-- A specification without a separator.
unfoldable pub apply_default_spec : PurgePolicy → Bytes → Parsed Reason PurgePolicy
apply_default_spec p trimmed = elim (parse_setting trimmed) [
  | parsed setting ↦ parsed (with_default p setting)
  | failed reason ↦ failed reason
]

abbrev pub split_parts : Bytes → Option (Bytes × Bytes)
split_parts trimmed = elim (split_once b':' trimmed) [
  | some parts ↦ some parts
  | none ↦ split_once b'=' trimmed
]

abbrev pub apply_trimmed : PurgePolicy → Bytes → Parsed Reason PurgePolicy
apply_trimmed p [] = failed empty_specification
apply_trimmed p (c ∷ cs) = elim (split_parts (c ∷ cs)) [
  | some (kind_part, window_part) ↦ apply_kind_spec p (trim kind_part) (trim window_part)
  | none ↦ apply_default_spec p (c ∷ cs)
]

-- One turn of the loop.
unfoldable pub apply_spec : PurgePolicy → Bytes → Parsed Reason PurgePolicy
apply_spec p raw = apply_trimmed p (trim raw)

unfoldable pub apply_specs : PurgePolicy → List Bytes → Parsed PurgeSpecError PurgePolicy
apply_specs p [] = parsed p
apply_specs p (raw ∷ specs) = elim (apply_spec p raw) [
  | parsed q ↦ apply_specs q specs
  | failed reason ↦ failed (invalid_spec raw reason)
]

abbrev pub empty_policy : PurgePolicy
empty_policy = record { default_setting = none; per_kind = [] }

-- `seen_any` is set by the first specification that is not refused.
unfoldable pub from_specs : List Bytes → Parsed PurgeSpecError PurgePolicy
from_specs [] = failed no_specs
from_specs (raw ∷ specs) = apply_specs empty_policy (raw ∷ specs)
