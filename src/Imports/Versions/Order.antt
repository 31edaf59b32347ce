-- ===== src/Imports/Versions/Order.antt =====
-- The order of versions.
use agentspec.Base.{String, true, false, ◌≡◌, arith, ◌<◌, ◌⊎◌, ◌≤◌}
use agentspec.Imports.Versions.{Semver, parse_semver, compare_parts, compare_semver, is_greater}

-- The first version is not above the second one: by the major number, then the minor, then the patch.
abbrev pub UpToParts : Semver → Semver → Type 0
UpToParts a b =
    (a.major < b.major)
    ⊎ (a.major ≡ b.major) × ((a.minor < b.minor) ⊎ (a.minor ≡ b.minor) × (a.patch ≤ b.patch))

unfoldable pub UpTo : String → String → Type 0
UpTo a b = UpToParts (parse_semver a) (parse_semver b)

parts-UpTo : (a b : Semver) → is_greater (compare_parts a b) ≡ false → UpToParts a b
unfolding compare_parts
parts-UpTo a b h = ground arith

UpTo-parts : (a b : Semver) → UpToParts a b → is_greater (compare_parts a b) ≡ false
unfolding compare_parts
UpTo-parts a b h = ground arith

parts_trans :
    (a b c : Semver)
    → is_greater (compare_parts a b) ≡ false
    → is_greater (compare_parts b c) ≡ false
    → is_greater (compare_parts a c) ≡ false
unfolding compare_parts
parts_trans a b c h k = ground arith

parts_total :
    (a b : Semver) → is_greater (compare_parts a b) ≡ true → is_greater (compare_parts b a) ≡ false
unfolding compare_parts
parts_total a b h = ground arith

parts_refl : (a : Semver) → is_greater (compare_parts a a) ≡ false
unfolding compare_parts
parts_refl a = ground arith

pub UpTo-trans : (a b c : String) → UpTo a b → UpTo b c → UpTo a c
unfolding UpTo compare_semver
UpTo-trans a b c h k = parts-UpTo (parse_semver a) (parse_semver c) (
    parts_trans (parse_semver a) (parse_semver b) (parse_semver c)
      (UpTo-parts (parse_semver a) (parse_semver b) h)
      (UpTo-parts (parse_semver b) (parse_semver c) k))

pub greater-UpTo : (a b : String) → is_greater (compare_semver a b) ≡ true → UpTo b a
unfolding UpTo compare_semver
greater-UpTo a b h =
    parts-UpTo (parse_semver b) (parse_semver a) (parts_total (parse_semver a) (parse_semver b) h)

pub UpTo-refl : (a : String) → UpTo a a
unfolding UpTo compare_semver
UpTo-refl a = parts-UpTo (parse_semver a) (parse_semver a) (parts_refl (parse_semver a))

parts_least :
    (a : Semver) → is_greater (compare_parts (record { major = 0; minor = 0; patch = 0 }) a) ≡ false
unfolding compare_parts
parts_least a = ground arith

-- The empty version reads as 0.0.0.
pub UpTo-least : (a : String) → UpTo "" a
unfolding UpTo compare_semver parse_semver
UpTo-least a = parts-UpTo _ (parse_semver a) (parts_least (parse_semver a))

pub not_greater-UpTo : (a b : String) → is_greater (compare_semver a b) ≡ false → UpTo a b
unfolding UpTo compare_semver
not_greater-UpTo a b h = parts-UpTo (parse_semver a) (parse_semver b) h
