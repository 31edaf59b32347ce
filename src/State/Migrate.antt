-- ===== src/State/Migrate.antt =====
-- internal/state/migrate.go: `Migrate`, the copy of all entries from one backend to another. The names of
-- the backends' types and the duration are left out of the result. `Skipped` is never written.
pub mod Accounts
use agentspec.Base.{
  ℕ, ◌+◌, suc, String, str_append, List, [], ◌∷◌, ◌++◌, Option, none, some, Bool, true, false,
  length, if◌then◌else◌, ltb,
}
use agentspec.State.{Entry, Backend, Result, ok, err}

pub record MigrationResult : Type 0 where
  pub migrated : ℕ
  pub failures : ℕ
  pub errors : List String

abbrev pub empty_result : MigrationResult
empty_result = record { migrated = 0; failures = 0; errors = [] }

-- One entry of the fallback, with the error of its save.
pub count_save : Entry → Option String → MigrationResult → MigrationResult
count_save e none r = record r { migrated = r.migrated + 1 }
count_save e (some m) r = record r {
  failures = r.failures + 1;
  errors = r.errors ++ str_append (str_append e.fqn ": ") m ∷ [];
}

-- The text of the error that is returned, from the two counts.
module _ {S D : Type 0} (src_load : S → Result (Option (List Entry)) × S) (dst : Backend D)
    (partial_text : ℕ → ℕ → String) where
  -- The loop of the fallback: each entry is saved by itself.
  pub save_each : List Entry → MigrationResult → D → MigrationResult × D
  save_each [] r d = (r, d)
  save_each (e ∷ es) r d =
      let (failed, d') = dst.save (e ∷ []) d in save_each es (count_save e failed r) d'

  pub fallback : List Entry → MigrationResult × D → (MigrationResult × Option String) × D
  fallback es (r, d) =
      ((r, if ltb 0 r.failures then some (partial_text r.failures (length es)) else none), d)

  -- After the bulk save.
  pub after_bulk : List Entry → Option String × D → (MigrationResult × Option String) × D
  after_bulk es (none, d) = ((record empty_result { migrated = length es }, none), d)
  after_bulk es (some m, d) = fallback es (save_each es empty_result d)

  -- After the load from the source, whose list is `none` where Go's is nil.
  pub migrate_entries :
      Bool → Result (Option (List Entry)) → D → (MigrationResult × Option String) × D
  unfolding after_bulk fallback save_each count_save
  migrate_entries dry_run (err m) d =
      ((empty_result, some (str_append "source load failed: " m)), d)
  migrate_entries dry_run (ok none) d = ((empty_result, none), d)
  migrate_entries true (ok (some es)) d = ((record empty_result { migrated = length es }, none), d)
  migrate_entries false (ok (some es)) d = after_bulk es (dst.save es d)

  unfoldable pub migrate : Bool → S → D → (MigrationResult × Option String) × (S × D)
  unfolding migrate_entries
  migrate dry_run s d =
      let (loaded, s') = src_load s in
      let (result, d') = migrate_entries dry_run loaded d in (result, (s', d'))
