-- ===== src/Imports/Versions.antt =====
-- internal/imports/mvs.go: minimal version selection. The packages are ranged over in the order in which they
-- first occur; their constraints keep their order. `show` prints a number.
pub mod Order
pub mod Grouping
pub mod Selected
use Prim.Native.Char.{Char, code}
use Prim.Native.Nat.{Ordering, compare}
use agentspec.Base.{
  ℕ, zero, suc, ◌+◌, ◌-◌, ◌*◌, String, str_append, List, [], ◌∷◌, ◌++◌, map, Option, none, some,
  Bool, true, false, ◌==◌, ◌&&◌, not, if◌then◌else◌, eqb, leb, ltb, cons_if,
}
use agentspec.Base.Maps.{Map, lookup, insert}
use agentspec.Base.Sort.{sort_by}
use agentspec.State.{Result, ok, err}
use agentspec.Imports.{ResolvedImport}

pub record VersionConstraint : Type 0 where
  pub pkg : String
  pub min_version : String
  pub required_by : String

pub record ResolvedVersion : Type 0 where
  pub pkg : String
  pub version : String

pub record Semver : Type 0 where
  pub major : ℕ
  pub minor : ℕ
  pub patch : ℕ

-- `strconv.Atoi` without its error: 0 for what is no number, the largest int for what is too large.
abbrev pub max_int : ℕ
max_int = 9_223_372_036_854_775_807

abbrev pub add_digit : Option ℕ → Char → Option ℕ
add_digit none c = none
add_digit (some n) c =
    if leb 48 (code c) && leb (code c) 57 then some (n * 10 + (code c - 48)) else none

unfoldable pub digits : String → Option ℕ → Option ℕ
digits String.[] n = n
digits (String.◌∷◌ c s) n = digits s (add_digit n c)

abbrev pub number_or_zero : Option ℕ → ℕ
number_or_zero none = 0
number_or_zero (some n) = if ltb max_int n then max_int else n

unfoldable pub atoi : String → ℕ
unfolding digits
atoi String.[] = 0
atoi (String.◌∷◌ c String.[]) = number_or_zero (digits (String.◌∷◌ c String.[]) (some 0))
atoi (String.◌∷◌ c (String.◌∷◌ d s)) =
    if eqb (code c) 43
    then number_or_zero (digits (String.◌∷◌ d s) (some 0))
    else number_or_zero (digits (String.◌∷◌ c (String.◌∷◌ d s)) (some 0))

unfoldable pub trim_v : String → String
trim_v String.[] = String.[]
trim_v (String.◌∷◌ c s) = if eqb (code c) 118 then s else String.◌∷◌ c s

-- What stands before the first "-".
unfoldable pub before_dash : String → String
before_dash String.[] = String.[]
before_dash (String.◌∷◌ c s) =
    let rest = before_dash s in if eqb (code c) 45 then String.[] else String.◌∷◌ c rest

-- What stands before the first "." and behind it.
unfoldable pub cut_dot : String → String × Option String
cut_dot String.[] = (String.[], none)
cut_dot (String.◌∷◌ c s) =
    let (first, rest) = cut_dot s in
    if eqb (code c) 46 then (String.[], some s) else (String.◌∷◌ c first, rest)

abbrev pub atoi_or_zero : Option String → ℕ
atoi_or_zero none = 0
atoi_or_zero (some s) = atoi s

abbrev pub second_parts : Option String → String × Option String
second_parts none = (String.[], none)
second_parts (some s) = cut_dot s

-- The third part has all that is left, as `SplitN` with 3 cuts twice.
unfoldable pub parse_semver : String → Semver
unfolding atoi trim_v before_dash cut_dot
parse_semver v =
    let (major, behind) = cut_dot (before_dash (trim_v v)) in
    let (minor, patch) = second_parts behind in
    record { major = atoi major; minor = atoi minor; patch = atoi_or_zero patch }

unfoldable pub compare_parts : Semver → Semver → Ordering
compare_parts a b = elim (compare a.major b.major) [
  | Ordering.lt ↦ Ordering.lt
  | Ordering.gt ↦ Ordering.gt
  | Ordering.eq ↦ elim (compare a.minor b.minor) [
    | Ordering.lt ↦ Ordering.lt
    | Ordering.gt ↦ Ordering.gt
    | Ordering.eq ↦ compare a.patch b.patch
  ]
]

unfoldable pub compare_semver : String → String → Ordering
unfolding parse_semver compare_parts
compare_semver a b = compare_parts (parse_semver a) (parse_semver b)

abbrev pub is_greater : Ordering → Bool
is_greater Ordering.gt = true
is_greater Ordering.lt = false
is_greater Ordering.eq = false

abbrev pub or_none : Option (List VersionConstraint) → List VersionConstraint
or_none none = []
or_none (some cs) = cs

-- `byPackage`.
unfoldable pub group :
    List VersionConstraint → Map (List VersionConstraint) → Map (List VersionConstraint)
group [] m = m
group (c ∷ cs) m = group cs (insert c.pkg (or_none (lookup c.pkg m) ++ c ∷ []) m)

-- The loop for the greatest of the least versions.
abbrev pub greater : String → String → String
greater version max_min =
    if max_min == ""
    then version
    else if is_greater (compare_semver version max_min)
    then version
    else max_min

unfoldable pub select : List VersionConstraint → String → String
select [] max_min = max_min
select (c ∷ cs) max_min = select cs (greater c.min_version max_min)

module _ (quote : String → String) where
  abbrev pub add_version :
      String → String → Result (List ResolvedVersion) → Result (List ResolvedVersion)
  add_version pkg version (err e) = err e
  add_version pkg version (ok rs) = ok (record { pkg = pkg; version = version } ∷ rs)

  unfoldable pub resolve : Map (List VersionConstraint) → Result (List ResolvedVersion)
  resolve [] = ok []
  resolve ((pkg, cs) ∷ m) =
      let rest = resolve m in
      let max_min = select cs "" in
      if max_min == ""
      then err (str_append "no version constraint for package " (quote pkg))
      else add_version pkg max_min rest

  abbrev pub sorted : Result (List ResolvedVersion) → Result (List ResolvedVersion)
  sorted (ok rs) = ok (sort_by (λ (r : ResolvedVersion). r.pkg) rs)
  sorted (err e) = err e

  unfoldable pub mvs : List VersionConstraint → Result (List ResolvedVersion)
  unfolding group select resolve
  mvs constraints = sorted (resolve (group constraints []))

unfoldable pub extract_constraints : List ResolvedImport → String → List VersionConstraint
extract_constraints [] required_by = []
extract_constraints (ri ∷ ris) required_by =
    cons_if (ri.kind == "package" && not (ri.version == ""))
      (record { pkg = ri.source; min_version = ri.version; required_by = required_by })
      (extract_constraints ris required_by)
