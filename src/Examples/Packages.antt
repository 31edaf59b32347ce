-- ===== src/Examples/Packages.antt =====
-- internal/imports: two constraints on one package, and a lock file of one import.
use agentspec.Base.{ap, sym, ◌∙◌, String, List, [], ◌∷◌, some, ◌≡◌, refl, In, inl, inr, ◌↔◌}
use agentspec.Imports.{ResolvedImport}
use agentspec.Imports.Versions.{VersionConstraint, ResolvedVersion}
use agentspec.Imports.Locking.{validate_lock_file, generate_lock_file}
use agentspec.Imports.Locking.Checks.{Agrees}
use agentspec.Imports.Locking.Agreed.{generate-validate, Consistent}

abbrev quote : String → String
quote s = s

abbrev low : VersionConstraint
low = record { pkg = "log"; min_version = "v1.2.0"; required_by = "a" }

abbrev high : VersionConstraint
high = record { pkg = "log"; min_version = "1.10.3-beta"; required_by = "b" }

abbrev chosen : ResolvedVersion
chosen = record { pkg = "log"; version = "1.10.3-beta" }

abbrev imported : ResolvedImport
imported = record {
  source = "lib";
  kind = "package";
  version = "1.0.0";
  path = "/lib";
  hash = "h1";
}

abbrev changed : ResolvedImport
changed = record imported { hash = "h2" }

one_import : Consistent (imported ∷ [])
one_import a b (inl p) (inl q) e = (
  ap (λ (r : ResolvedImport). r.hash) (sym p ∙ q),
  ap (λ (r : ResolvedImport). r.version) (sym p ∙ q),
)
one_import a b (inl p) (inr n) e = elim n [ ]
one_import a b (inr m) j e = elim m [ ]

generate-validate_example :
    (validate_lock_file (some (generate_lock_file (imported ∷ []))) (changed ∷ []) ≡ []) ↔ (
      (n : ResolvedImport)
      → In n (changed ∷ [])
      → (r : ResolvedImport) → In r (imported ∷ [])
      → r.source ≡ n.source
      → Agrees r n)
generate-validate_example = generate-validate (imported ∷ []) one_import (changed ∷ [])

rejects :
    validate_lock_file (some (generate_lock_file (imported ∷ []))) (changed ∷ [])
    ≡ "lib: hash mismatch (locked: h1, resolved: h2)" ∷ []
unfolding validate_lock_file generate_lock_file agentspec.Base.Maps.lookup agentspec.Base.Maps.has
    agentspec.Base.Maps.insert
rejects = refl
