-- ===== src/PurgePolicy/Specs.antt =====
-- A policy written as specifications and read back (db/purge_policy.rs).
use searchnos_db.Prelude.{
  ℕ, ◌^◌, ◌<◌, ◌≤◌, ◌==◌, false, if◌then◌else◌, Option, none, some, List, [], ◌∷◌, map, ◌++◌, ◌≡◌,
  ◌≢◌, refl, ap, ◌∙◌, arith, Bytes, All,
}
use searchnos_db.Text.{
  trim, trim_start, trim_end, split_once, is_whitespace, eq_ignore_ascii_case, to_ascii_lowercase,
  parse_unsigned,
}
use searchnos_db.Text.Decimal.{
  to_decimal, to_decimal-head, to_decimal-IsDigit, IsDigit, parse_unsigned-to_decimal,
}
use searchnos_db.PurgePolicy.{
  PurgeSetting, retain, never, purge, PurgePolicy, parsed, get, setting_for_kind, never_text,
  purge_text, split_parts, unit_seconds, parse_setting, parse_duration, apply_kind_spec,
  apply_default_spec, apply_spec, apply_specs, apply_trimmed, from_specs, empty_policy, or_else,
  with_kind, with_default, scaled,
}
use searchnos_db.PurgePolicy.Entries.{get-insert}
use searchnos_db.PurgePolicy.Duration.{
  trim_end-append, trim_end-character, digit-is_whitespace, parse_duration-scaled,
}

-- A setting as text, a duration in seconds.
unfoldable pub setting_text : PurgeSetting → Bytes
setting_text (retain duration) = to_decimal duration ++ b's' ∷ []
setting_text never = never_text
setting_text purge = purge_text

abbrev pub Representable : PurgeSetting → Type 0
Representable (retain duration) = duration < 2 ^ 64
Representable never = ℕ
Representable purge = ℕ

-- A specification as text: for all kinds, or for one.
unfoldable pub spec_text : Option ℕ × PurgeSetting → Bytes
spec_text (none, setting) = setting_text setting
spec_text (some kind, setting) = to_decimal kind ++ b':' ∷ setting_text setting

unfoldable pub enter : PurgePolicy → Option ℕ × PurgeSetting → PurgePolicy
enter p (none, setting) = with_default p setting
enter p (some kind, setting) = with_kind p kind setting

abbrev pub IsSpec : Option ℕ × PurgeSetting → Type 0
IsSpec (none, setting) = Representable setting
IsSpec (some kind, setting) = (kind < 2 ^ 16) × Representable setting

-- Digits have nothing to trim.
digits-trim_end : (c : ℕ) (cs : Bytes) → All IsDigit (c ∷ cs) → trim_end (c ∷ cs) ≡ c ∷ cs
unfolding trim_end
digits-trim_end c [] h = trim_end-character c (digit-is_whitespace c (h.0))
digits-trim_end c (d ∷ cs) h = rw (digits-trim_end d cs (h.1)) refl

to_decimal-trim : (n : ℕ) → trim (to_decimal n) ≡ to_decimal n
unfolding trim trim_start
to_decimal-trim n =
    let (c, cs, e, digit) = to_decimal-head n in
    let digits : All IsDigit (c ∷ cs) = rw e at (to_decimal-IsDigit n) in
    rw e (rw (digit-is_whitespace c digit) (digits-trim_end c cs digits))

-- The end of a setting's text is not whitespace, and neither is its beginning.
setting_text-ends :
    (s : PurgeSetting)
    → (c : ℕ) × (cs : Bytes) × (setting_text s ≡ c ∷ cs)
      × (is_whitespace c ≡ false)
      × (trim_end (c ∷ cs) ≡ c ∷ cs)
unfolding setting_text trim_end is_whitespace
setting_text-ends (retain n) =
    let (c, cs, e, digit) = to_decimal-head n in
    rw e
      (c, cs ++ b's' ∷ [], refl, digit-is_whitespace c digit, trim_end-append (c ∷ cs) b's' [] refl)
setting_text-ends never = (b'n', _, refl, refl, refl)
setting_text-ends purge = (b'p', _, refl, refl, refl)

setting_text-trim : (s : PurgeSetting) → trim (setting_text s) ≡ setting_text s
unfolding trim trim_start
setting_text-trim s = let (c, cs, e, head, end) = setting_text-ends s in rw e (rw head end)

spec_text-trim : (spec : Option ℕ × PurgeSetting) → trim (spec_text spec) ≡ spec_text spec
unfolding spec_text trim trim_start
spec_text-trim (none, s) = setting_text-trim s
spec_text-trim (some kind, s) =
    let (d, ds, e, digit) = to_decimal-head kind in
    let (c, cs, e', head, end) = setting_text-ends s in
    rw (e, e')
      (rw (digit-is_whitespace d digit)
        (trim_end-append (d ∷ ds) b':' (c ∷ cs) (trim_end-append (b':' ∷ []) c cs end)))

-- The first separator after digits is the one that follows them.
split_once-digits :
    (separator : ℕ) (digits rest : Bytes)
    → b'9' < separator
    → All IsDigit digits
    → split_once separator (digits ++ separator ∷ rest) ≡ some (digits, rest)
unfolding split_once
split_once-digits separator [] rest h d = ground arith
split_once-digits separator (c ∷ cs) rest h d =
    let other : (c == separator) ≡ false = ground (arith, d.0) in
    rw other (rw (split_once-digits separator cs rest h (d.1)) refl)

split_once-none :
    (separator : ℕ) (digits : Bytes)
    → b'9' < separator
    → separator < b's'
    → All IsDigit digits
    → split_once separator (digits ++ b's' ∷ []) ≡ none
unfolding split_once
split_once-none separator [] h k d = ground arith
split_once-none separator (c ∷ cs) h k d =
    let other : (c == separator) ≡ false = ground (arith, d.0) in
    rw other (rw (split_once-none separator cs h k (d.1)) refl)

setting_text-split_parts : (s : PurgeSetting) → split_parts (setting_text s) ≡ none
unfolding setting_text split_once
setting_text-split_parts (retain n) =
    rw
      (
        split_once-none b':' (to_decimal n) (omega arith) (omega arith) (to_decimal-IsDigit n),
        split_parts,
      )
      (split_once-none b'=' (to_decimal n) (omega arith) (omega arith) (to_decimal-IsDigit n))
setting_text-split_parts never = refl
setting_text-split_parts purge = refl

digit-eq_ignore_ascii_case :
    (c : ℕ) (cs : Bytes) (w : ℕ) (ws : Bytes)
    → IsDigit c
    → b'a' ≤ w
    → w ≤ b'z'
    → eq_ignore_ascii_case (c ∷ cs) (w ∷ ws) ≡ false
unfolding eq_ignore_ascii_case to_ascii_lowercase
digit-eq_ignore_ascii_case c cs w ws d h k = ground arith

unit_seconds-s : unit_seconds (to_ascii_lowercase b's') ≡ some 1
unfolding unit_seconds to_ascii_lowercase
unit_seconds-s = refl

parse_setting-setting_text :
    (s : PurgeSetting) → Representable s → parse_setting (setting_text s) ≡ parsed s
unfolding parse_setting setting_text eq_ignore_ascii_case to_ascii_lowercase scaled
parse_setting-setting_text (retain n) h =
    let (c, cs, e, digit) = to_decimal-head n in
    let duration : parse_duration (c ∷ cs ++ b's' ∷ []) ≡ scaled n 1 =
      rw e at (parse_duration-scaled n b's' 1 h (unit_seconds-s)) in
    rw e (
      rw (digit-eq_ignore_ascii_case c (cs ++ b's' ∷ []) b'n' _ digit (omega arith) (omega arith)) (
        rw (digit-eq_ignore_ascii_case c (cs ++ b's' ∷ []) b'p' _ digit (omega arith) (omega arith))
          (rw duration (ground arith))))
parse_setting-setting_text never h = refl
parse_setting-setting_text purge h = refl

apply_trimmed-default :
    (p : PurgePolicy) (text : Bytes)
    → text ≢ []
    → split_parts text ≡ none
    → apply_trimmed p text ≡ apply_default_spec p text
apply_trimmed-default p [] n h = elim (n refl) [ ]
apply_trimmed-default p (c ∷ cs) n h = rw (h, apply_trimmed) refl

apply_trimmed-kind :
    (p : PurgePolicy) (text before after : Bytes)
    → text ≢ []
    → split_once b':' text ≡ some (before, after)
    → apply_trimmed p text ≡ apply_kind_spec p (trim before) (trim after)
apply_trimmed-kind p [] before after n h = elim (n refl) [ ]
apply_trimmed-kind p (c ∷ cs) before after n h = rw (h, apply_trimmed, split_parts) refl

apply_kind_spec-texts :
    (p : PurgePolicy) (kind : ℕ) (s : PurgeSetting)
    → kind < 2 ^ 16
    → Representable s
    → apply_kind_spec p (to_decimal kind) (setting_text s) ≡ parsed (with_kind p kind s)
unfolding apply_kind_spec
apply_kind_spec-texts p kind s k h =
    let (d, ds, e, digit) = to_decimal-head kind in
    let (c, cs, e', head, end) = setting_text-ends s in
    let number : parse_unsigned (2 ^ 16) (d ∷ ds) ≡ some kind =
      rw e at (parse_unsigned-to_decimal (2 ^ 16) kind k) in
    let setting : parse_setting (c ∷ cs) ≡ parsed s = rw e' at (parse_setting-setting_text s h) in
    rw (e, e') (rw (number, apply_kind_spec) (rw setting refl))

-- One specification written as text is read back and entered.
apply_spec-spec_text :
    (p : PurgePolicy) (spec : Option ℕ × PurgeSetting)
    → IsSpec spec
    → apply_spec p (spec_text spec) ≡ parsed (enter p spec)
unfolding apply_spec enter setting_text spec_text apply_default_spec
apply_spec-spec_text p (none, s) h =
    let (c, cs, e, head, end) = setting_text-ends s in
    rw (spec_text-trim (none, s)) (
      apply_trimmed-default p (setting_text s) (λ empty. cc) (setting_text-split_parts s)
      ∙ rw (parse_setting-setting_text s h, apply_default_spec) refl)
apply_spec-spec_text p (some kind, s) h =
    let (d, ds, e, digit) = to_decimal-head kind in
    let parts =
      split_once-digits b':' (to_decimal kind) (setting_text s) (omega arith)
        (to_decimal-IsDigit kind) in
    rw (spec_text-trim (some kind, s)) (
      apply_trimmed-kind p (spec_text (some kind, s)) (to_decimal kind) (setting_text s)
        (λ empty. cc (rw e at empty)) parts
      ∙ rw (to_decimal-trim kind, setting_text-trim s) (apply_kind_spec-texts p kind s (h.0) (h.1)))

-- The last setting that was entered for a kind, and the last one for all kinds.
unfoldable pub last_for_kind :
    ℕ → Option PurgeSetting → List (Option ℕ × PurgeSetting) → Option PurgeSetting
last_for_kind kind found [] = found
last_for_kind kind found ((none, s) ∷ specs) = last_for_kind kind found specs
last_for_kind kind found ((some k, s) ∷ specs) =
    last_for_kind kind (if k == kind then some s else found) specs

unfoldable pub last_default :
    Option PurgeSetting → List (Option ℕ × PurgeSetting) → Option PurgeSetting
last_default found [] = found
last_default found ((none, s) ∷ specs) = last_default (some s) specs
last_default found ((some k, s) ∷ specs) = last_default found specs

-- What the list of specifications says of a kind: the last setting of its own, and without one
-- the last setting for all kinds.
unfoldable pub declared_setting : ℕ → List (Option ℕ × PurgeSetting) → Option PurgeSetting
declared_setting kind specs = or_else (last_for_kind kind none specs) (last_default none specs)

apply_specs-spec_text :
    (p : PurgePolicy) (specs : List (Option ℕ × PurgeSetting))
    → All IsSpec specs
    → (q : PurgePolicy) × (apply_specs p (map spec_text specs) ≡ parsed q)
      × ((kind : ℕ) → get kind (q.per_kind) ≡ last_for_kind kind (get kind (p.per_kind)) specs)
      × (q.default_setting ≡ last_default (p.default_setting) specs)
unfolding apply_specs last_for_kind last_default enter
apply_specs-spec_text p [] h = (p, refl, λ kind. refl, refl)
apply_specs-spec_text p ((none, s) ∷ specs) h =
    rw (apply_spec-spec_text p (none, s) (h.0), apply_specs)
      (apply_specs-spec_text (with_default p s) specs (h.1))
apply_specs-spec_text p ((some k, s) ∷ specs) h =
    let (q, e, kinds, default) = apply_specs-spec_text (with_kind p k s) specs (h.1) in
    rw (apply_spec-spec_text p (some k, s) (h.0), apply_specs)
      (
        q,
        e,
        λ kind.
            kinds kind
            ∙ ap (λ found. last_for_kind kind found specs) (get-insert k kind s (p.per_kind)),
        default,
      )

-- A list of specifications that is not empty, written as text with kinds below 2^16 and durations
-- below 2^64 seconds, is accepted by `from_specs`, and the policy gives each kind the last setting
-- written for it, or the last one for all kinds when there is none.
pub from_specs-spec_text :
    (first : Option ℕ × PurgeSetting) (specs : List (Option ℕ × PurgeSetting))
    → All IsSpec (first ∷ specs)
    → (q : PurgePolicy) × (from_specs (map spec_text (first ∷ specs)) ≡ parsed q)
      × ((kind : ℕ) → setting_for_kind q kind ≡ declared_setting kind (first ∷ specs))
unfolding from_specs setting_for_kind declared_setting get
from_specs-spec_text first specs h =
    let (q, e, kinds, default) = apply_specs-spec_text empty_policy (first ∷ specs) h in
    (q, e, λ kind. rw (kinds kind, default, setting_for_kind) refl)
