-- ===== src/Imports/Versions/Selected.antt =====
-- The selected versions satisfy the constraints, and none is higher than some constraint asks for.
use agentspec.Base.{String, List, some, ◌≡◌, In, ◌≢◌}
use agentspec.Base.Maps.{Map, lookup}
use agentspec.Imports.Versions.{VersionConstraint, ResolvedVersion, select}

-- What is resolved of the packages, when nothing fails.
record Resolved (m : Map (List VersionConstraint)) (rs : List ResolvedVersion) : Type 0 where
  each :
      (k : String) (cs : List VersionConstraint)
      → lookup k m ≡ some cs
      → In (record { pkg = k; version = select cs "" }) rs
  from :
      (r : ResolvedVersion)
      → In r rs
      → (cs : List VersionConstraint) × (lookup r.pkg m ≡ some cs)
        × (r.version ≡ select cs "")
        × (r.version ≢ "")
