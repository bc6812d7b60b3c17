-- ===== src/LogFilter/Predicate.antt =====
-- internal/logfilter/logfilter.go: the compiled predicates, their costs, `match` and `sortByCost`.
pub mod Order
use zordon.Base.{
  ◌||◌, ℕ, ◌+◌, Bool, true, false, not, [], Option, none, some, leb, if◌then◌else◌, ℤ, ltb_ℤ, leb_ℤ,
  eqb_ℤ, Bytes, codes, equal, has_prefix, contains, has_suffix,
}
use zordon.LogFilter.Deps.{Deps, JsonResult}
use zordon.LogFilter.Severity.{severity_unknown, scan_severity, scan_logfmt}

-- the modes of `substrPred`: 'c', 'p' and 's'
pub data SubstrMode : Type 0 where
  anywhere prefix suffix : SubstrMode

-- the fields of `metaPred`: 's' and 'v'
pub data MetaField : Type 0 where
  stream service : MetaField

-- the arguments of `match`
pub record Line : Type 0 where
  pub raw : Bytes
  pub stream_name : Bytes
  pub service_name : Bytes

-- `predicate` and its implementations. `kids` is a list of predicates.
mutual
  pub data Predicate (d : Deps) : Type 0 where
    substr_pred : SubstrMode → Bytes → Predicate d
    regex_pred : d.Regex → Option Bytes → Predicate d
    meta_pred : MetaField → Bytes → Bool → Predicate d
    severity_pred : Bytes → ℤ → Predicate d
    json_str_pred : Bytes → Bytes → Bytes → Predicate d
    json_num_pred : Bytes → Bytes → d.Float → Predicate d
    logfmt_pred : Bytes → Bytes → Bytes → Predicate d
    const_pred : Bool → Predicate d
    and_pred : Predicates d → ℕ → Predicate d
    or_pred : Predicates d → ℕ → Predicate d
    not_pred : Predicate d → Predicate d

  pub data Predicates (d : Deps) : Type 0 where
    none_left : Predicates d
    one_more : Predicate d → Predicates d → Predicates d

-- `cmpInt`
unfoldable pub cmp_int : ℤ → Bytes → ℤ → Bool
cmp_int a op b =
    if equal op (codes "==")
    then eqb_ℤ a b
    else if equal op (codes "!=")
    then not (eqb_ℤ a b)
    else if equal op (codes "<")
    then ltb_ℤ a b
    else if equal op (codes "<=")
    then leb_ℤ a b
    else if equal op (codes ">")
    then ltb_ℤ b a
    else if equal op (codes ">=")
    then leb_ℤ b a
    else false

-- `cmpStr`
unfoldable pub cmp_str : Bytes → Bytes → Bytes → Bool
cmp_str a op b = if equal op (codes "!=") then not (equal a b) else equal a b

module _ (d : Deps) where
  -- `cmpFloat`
  unfoldable pub cmp_float : d.Float → Bytes → d.Float → Bool
  cmp_float a op b =
      if equal op (codes "==")
      then d.float_eq a b
      else if equal op (codes "!=")
      then not (d.float_eq a b)
      else if equal op (codes "<")
      then d.float_lt a b
      else if equal op (codes "<=")
      then d.float_le a b
      else if equal op (codes ">")
      then d.float_lt b a
      else if equal op (codes ">=")
      then d.float_le b a
      else false

  -- the method `cost`
  unfoldable pub cost : Predicate d → ℕ
  cost (substr_pred m s) = 1
  cost (regex_pred r p) = 400
  cost (meta_pred f w n) = 0
  cost (severity_pred o t) = 60
  cost (json_str_pred p o w) = 75
  cost (json_num_pred p o w) = 75
  cost (logfmt_pred k o w) = 60
  cost (const_pred b) = 0
  cost (and_pred ks c) = c
  cost (or_pred ks c) = c
  cost (not_pred x) = cost x

  -- a stable sort by cost: `p` goes before the first predicate that is not cheaper
  unfoldable pub insert_by_cost : Predicate d → Predicates d → Predicates d
  unfolding cost
  insert_by_cost p none_left = one_more p none_left
  insert_by_cost p (one_more q qs) =
      if leb (cost p) (cost q) then one_more p (one_more q qs) else one_more q (insert_by_cost p qs)

  -- `sort.SliceStable` of `sortByCost`
  unfoldable pub sort_by_cost : Predicates d → Predicates d
  unfolding insert_by_cost
  sort_by_cost none_left = none_left
  sort_by_cost (one_more p ps) = insert_by_cost p (sort_by_cost ps)

  -- the total that `sortByCost` returns
  unfoldable pub total_cost : Predicates d → ℕ
  unfolding cost
  total_cost none_left = 0
  total_cost (one_more p ps) = cost p + total_cost ps

  unfoldable pub match_substr : SubstrMode → Bytes → Bytes → Bool
  unfolding has_prefix has_suffix contains
  match_substr prefix raw sub = has_prefix raw sub
  match_substr suffix raw sub = has_suffix raw sub
  match_substr anywhere raw sub = contains raw sub

  unfoldable pub match_regex : d.Regex → Option Bytes → Bytes → Bool
  match_regex re none raw = d.regex_match re raw
  match_regex re (some lit) raw = if not (has_prefix raw lit) then false else d.regex_match re raw

  unfoldable pub match_meta : MetaField → Bytes → Bool → Line → Bool
  match_meta stream want ne l =
      if ne then not (equal l.stream_name want) else equal l.stream_name want
  match_meta service want ne l =
      if ne then not (equal l.service_name want) else equal l.service_name want

  unfoldable pub match_severity : Bytes → ℤ → Bytes → Bool
  unfolding cmp_int scan_severity
  match_severity op threshold raw =
      if eqb_ℤ (scan_severity raw) severity_unknown
      then false
      else cmp_int (scan_severity raw) op threshold

  unfoldable pub match_json_str : Bytes → Bytes → Bytes → Bytes → Bool
  unfolding cmp_str
  match_json_str path op want raw =
      if not (d.get_bytes raw path).exists
      then false
      else cmp_str (d.get_bytes raw path).text op want

  unfoldable pub match_json_num : Bytes → Bytes → d.Float → Bytes → Bool
  unfolding cmp_float
  match_json_num path op want raw =
      if not (d.get_bytes raw path).exists || not (d.get_bytes raw path).is_number
      then false
      else cmp_float (d.get_bytes raw path).num op want

  unfoldable pub match_logfmt : Bytes → Bytes → Bytes → Bytes → Bool
  unfolding cmp_str scan_logfmt
  match_logfmt key op want raw = elim (scan_logfmt raw key) [
    | none ↦ false
    | some v ↦ cmp_str v op want
  ]

  -- the method `match`; the loops of `andPred` and `orPred` stop at the first kid that decides
  unfoldable mutual
    unfolding match_substr match_regex match_meta match_severity match_json_str match_json_num
        match_logfmt

    pub match : Line → Predicate d → Bool
    match l (substr_pred m s) = match_substr m l.raw s
    match l (regex_pred r p) = match_regex r p l.raw
    match l (meta_pred f w n) = match_meta f w n l
    match l (severity_pred o t) = match_severity o t l.raw
    match l (json_str_pred p o w) = match_json_str p o w l.raw
    match l (json_num_pred p o w) = match_json_num p o w l.raw
    match l (logfmt_pred k o w) = match_logfmt k o w l.raw
    match l (const_pred b) = b
    match l (and_pred ks c) = match_all l ks
    match l (or_pred ks c) = match_any l ks
    match l (not_pred x) = not (match l x)

    pub match_all : Line → Predicates d → Bool
    match_all l none_left = true
    match_all l (one_more k ks) =
        let later = match_all l ks in if not (match l k) then false else later

    pub match_any : Line → Predicates d → Bool
    match_any l none_left = false
    match_any l (one_more k ks) = let later = match_any l ks in if match l k then true else later

  -- `Filter`: a nil filter keeps every line
  abbrev pub Filter : Type 0
  Filter = Option (Predicate d)

  -- `Drop`
  unfoldable pub drop_line : Filter → Line → Bool
  unfolding match
  drop_line none l = false
  drop_line (some root) l = match l root
