-- ===== src/Imports.antt =====
-- internal/imports: resolved imports (resolver.go), of which the lock file and the version selection read
-- these fields.
pub mod Versions
pub mod Locking
use agentspec.Base.{String}

pub record ResolvedImport : Type 0 where
  pub source : String
  pub kind : String
  pub version : String
  pub path : String
  pub hash : String
