-- ===== src/LogFilter/Severity.antt =====
-- internal/logfilter/severity.go: levels and fields read off a raw line.
pub mod Fuel
pub mod Logfmt
use zordon.Base.{
  ℕ, zero, suc, ◌+◌, ◌-◌, Bool, true, false, not, ◌&&◌, ◌||◌, List, [], ◌∷◌, ◌++◌, map, Option,
  none, some, ◌==◌, leb, if◌then◌else◌, length, drop, ℤ, pos, negsuc, eqb_ℤ, Bytes, codes, equal,
  index_of, take_while, drop_while,
}

-- `severityUnknown`
abbrev pub severity_unknown : ℤ
severity_unknown = negsuc 0

-- `sevConst`, over `levelNames`
unfoldable pub sev_const : Bytes → Option ℤ
sev_const name =
    if equal name (codes "TRACE")
    then some (pos 0)
    else if equal name (codes "DEBUG")
    then some (pos 1)
    else if equal name (codes "INFO")
    then some (pos 2)
    else if equal name (codes "WARN")
    then some (pos 3)
    else if equal name (codes "ERROR")
    then some (pos 4)
    else if equal name (codes "FATAL")
    then some (pos 5)
    else none

abbrev one_of : Bytes → List Bytes → Bool
one_of tok [] = false
one_of tok (w ∷ ws) = equal tok w || one_of tok ws

-- `levelOrdinal`
unfoldable pub level_ordinal : Bytes → ℤ
level_ordinal tok =
    if equal tok (codes "trace")
    then pos 0
    else if equal tok (codes "debug")
    then pos 1
    else if one_of tok (codes "info" ∷ codes "informational" ∷ codes "notice" ∷ [])
    then pos 2
    else if one_of tok (codes "warn" ∷ codes "warning" ∷ [])
    then pos 3
    else if one_of tok (codes "error" ∷ codes "err" ∷ [])
    then pos 4
    else if one_of tok (
        codes "fatal"
        ∷ codes "critical"
        ∷ codes "crit"
        ∷ codes "panic"
        ∷ codes "emerg"
        ∷ codes "emergency"
        ∷ codes "alert"
        ∷ [])
    then pos 5
    else severity_unknown

-- `isLevelChar`
pub is_level_char : ℕ → Bool
is_level_char c = (leb b'a' c && leb c b'z') || (leb b'A' c && leb c b'Z')

-- the separators that `valueAfterKey` skips
pub is_separator : ℕ → Bool
is_separator c = c == b'"' || c == b':' || c == b'=' || c == b' '

-- `lower`
unfoldable pub lower : Bytes → Bytes
lower = map (λ c. if leb b'A' c && leb c b'Z' then c + (b'a' - b'A') else c)

-- the token of a turn of `valueAfterKey`: what follows the separators at `raw[i:]`
abbrev pub value_at_key : Bytes → Bytes
value_at_key rest = take_while is_level_char (drop_while is_separator rest)

-- what a loop over the line comes to: a value, no value, or no fuel left
pub data Scan : Type 0 where
  found : Bytes → Scan
  missing spent : Scan

-- what the code returns; on a fuel above the length of the line no scan is spent
abbrev pub scanned : Scan → Option Bytes
scanned (found v) = some v
scanned missing = none
scanned spent = none

-- `valueAfterKey` on `raw[from:]`
unfoldable pub value_after_key : ℕ → Bytes → Bytes → Scan
unfolding index_of is_level_char is_separator
value_after_key zero key rest = spent
value_after_key (suc f) key rest = elim (index_of rest key) [
  | none ↦ missing
  | some rel ↦ elim (value_at_key (drop (rel + length key) rest)) [
    | [] ↦ value_after_key f key (drop (rel + length key) rest)
    | c ∷ v ↦ found (c ∷ v)
  ]
]

-- one turn of the loop of `scanSeverity`
unfoldable pub severity_at : Bytes → Bytes → Option ℤ
unfolding value_after_key level_ordinal lower
severity_at raw key = elim (scanned (value_after_key (suc (length raw)) key raw)) [
  | none ↦ none
  | some tok ↦
      let ord = level_ordinal (lower tok) in if eqb_ℤ ord severity_unknown then none else some ord
]

first_of_keys : Bytes → List Bytes → ℤ
first_of_keys raw [] = severity_unknown
first_of_keys raw (k ∷ ks) = elim (severity_at raw k) [
  | some ord ↦ ord
  | none ↦ first_of_keys raw ks
]

-- `scanSeverity`
unfoldable pub scan_severity : Bytes → ℤ
unfolding severity_at first_of_keys
scan_severity raw = first_of_keys raw (codes "level" ∷ codes "severity" ∷ codes "lvl" ∷ [])

-- `abs == 0 || raw[abs-1] == ' '`
unfoldable pub at_boundary : Bytes → ℕ → Bool
at_boundary raw zero = true
at_boundary [] (suc i) = false
at_boundary (c ∷ raw) (suc zero) = c == b' '
at_boundary (c ∷ raw) (suc (suc i)) = at_boundary raw (suc i)

abbrev pub is_not : ℕ → ℕ → Bool
is_not k c = not (c == k)

-- the value at `raw[i:]` behind `key=`: quoted, or up to the next space
unfoldable pub logfmt_value : Bytes → Bytes
logfmt_value [] = []
logfmt_value (c ∷ s) =
    if c == b'"' then take_while (is_not b'"') s else take_while (is_not b' ') (c ∷ s)

-- the loop of `scanLogfmt`, with `needle` the key and its `=`
unfoldable pub logfmt_loop : ℕ → Bytes → Bytes → ℕ → Scan
unfolding index_of at_boundary logfmt_value
logfmt_loop zero raw needle from = spent
logfmt_loop (suc f) raw needle from = elim (index_of (drop from raw) needle) [
  | none ↦ missing
  | some rel ↦ elim (at_boundary raw (from + rel)) [
    | true ↦ found (logfmt_value (drop (from + rel + length needle) raw))
    | false ↦ logfmt_loop f raw needle (from + rel + length needle)
  ]
]

-- `scanLogfmt`
unfoldable pub scan_logfmt : Bytes → Bytes → Option Bytes
unfolding logfmt_loop
scan_logfmt raw key = scanned (logfmt_loop (suc (length raw)) raw (key ++ b'=' ∷ []) 0)
