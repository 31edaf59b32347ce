-- ===== src/State/Migrate/Accounts.antt =====
-- What a migration reports and what it leaves in the destination.
use agentspec.State.Migrate.{
  migrate, save_each, fallback, after_bulk, migrate_entries, count_save, empty_result,
  MigrationResult,
}
use agentspec.Base.{
  ℕ, List, refl, none, some, length, arith, ◌+◌, true, false, Option, String, ◌≡◌, ◌∷◌, [], suc,
  Bool, Bool-cases, In, ◌↔◌, ltb, inl, inr,
}
use agentspec.State.{Backend, ok, Entry, Result}
use agentspec.Apply.Converge.{Stores}

abbrev pub last_of : Entry → List Entry → Entry
last_of e [] = e
last_of e (x ∷ xs) = last_of x xs

module _ {S D : Type 0} (src_load : S → Result (Option (List Entry)) × S) (dst : Backend D)
    (partial_text : ℕ → ℕ → String) where
  save_each-counts :
      (es : List Entry) (r : MigrationResult) (d : D)
      → (save_each src_load dst partial_text es r d).0.migrated
          + (save_each src_load dst partial_text es r d).0.failures
        ≡ r.migrated + r.failures + length es
  unfolding save_each count_save
  save_each-counts [] r d = ground arith
  save_each-counts (e ∷ es) r d =
      let rest =
        save_each-counts es (count_save e (dst.save (e ∷ []) d).0 r) (dst.save (e ∷ []) d).1 in
      omega (arith, rest, one (dst.save (e ∷ []) d).0)
    where
      one :
          (o : Option String)
          → (count_save e o r).migrated + (count_save e o r).failures
            ≡ suc (r.migrated + r.failures)
      one none = ground arith
      one (some m) = ground arith

  abbrev Accounts : List Entry → (MigrationResult × Option String) × D → Type 0
  Accounts es r =
      (r.0.0.migrated + r.0.0.failures ≡ length es) × ((r.0.1 ≡ none) ↔ (r.0.0.failures ≡ 0))

  fallback-Accounts :
      (es : List Entry) (p : MigrationResult × D)
      → p.0.migrated + p.0.failures ≡ length es
      → Accounts es (fallback src_load dst partial_text es p)
  unfolding fallback
  fallback-Accounts es (r, d) h = elim (Bool-cases (ltb 0 r.failures)) [
    | inl t ↦ rw t (h, (λ q. cc, λ z. absurd (ground (arith, t, z))))
    | inr t ↦ rw t (h, (λ q. ground (arith, t), λ z. refl))
  ]

  bulk-Accounts :
      (es : List Entry) (r : Option String × D)
      → Accounts es (after_bulk src_load dst partial_text es r)
  unfolding after_bulk
  bulk-Accounts es (none, d) = (omega arith, (λ q. refl, λ z. refl))
  bulk-Accounts es (some m, d) =
      fallback-Accounts es (save_each src_load dst partial_text es empty_result d)
        (omega (arith, save_each-counts es empty_result d))

  entries-Accounts :
      (es : List Entry) (d : D) (dry_run : Bool)
      → Accounts es (migrate_entries src_load dst partial_text dry_run (ok (some es)) d)
  unfolding migrate_entries
  entries-Accounts es d true = (omega arith, (λ q. refl, λ z. refl))
  entries-Accounts es d false = bulk-Accounts es (dst.save es d)

  -- A migration counts every entry once, as migrated or as failed, and reports an error exactly when
  -- some entry failed, in a dry run, after a bulk save and after the fallback.
  pub migrate-accounts :
      (dry_run : Bool) (s : S) (d : D) (es : List Entry)
      → (src_load s).0 ≡ ok (some es)
      → ((migrate src_load dst partial_text dry_run s d).0.0.migrated
            + (migrate src_load dst partial_text dry_run s d).0.0.failures
          ≡ length es)
        × (((migrate src_load dst partial_text dry_run s d).0.1 ≡ none)
            ↔ ((migrate src_load dst partial_text dry_run s d).0.0.failures ≡ 0))
  unfolding migrate migrate_entries
  migrate-accounts dry_run s d es h = rw (h, migrate_entries) (entries-Accounts es d dry_run)

  -- Stored is the one entry.
  abbrev HoldsOnly : Entry → D → Type 0
  HoldsOnly e d =
      (stored : List Entry) × ((dst.load d).0 ≡ ok stored)
      × ((x : Entry) → In x stored ↔ In x (e ∷ []))

  save_each-HoldsOnly :
      Stores dst
      → ((e : Entry) (d : D) → (dst.save (e ∷ []) d).0 ≡ none)
      → (e : Entry) (es : List Entry) (r : MigrationResult) (d : D)
      → HoldsOnly (last_of e es) (save_each src_load dst partial_text (e ∷ es) r d).1
  unfolding save_each
  save_each-HoldsOnly stores single e [] r d = stores.save_stores (e ∷ []) d (single e d)
  save_each-HoldsOnly stores single e (x ∷ xs) r d = save_each-HoldsOnly stores single x xs _ _

  -- The fallback overwrites: when the bulk save fails and then each entry's own save succeeds, the
  -- destination holds the last entry only, whatever it held before.
  pub migrate-HoldsOnly :
      Stores dst
      → ((e : Entry) (d : D) → (dst.save (e ∷ []) d).0 ≡ none)
      → (s : S) (d : D) (e : Entry) (es : List Entry) (m : String)
      → (src_load s).0 ≡ ok (some (e ∷ es))
      → (dst.save (e ∷ es) d).0 ≡ some m
      → HoldsOnly (last_of e es) (migrate src_load dst partial_text false s d).1.1
  unfolding migrate migrate_entries after_bulk fallback
  migrate-HoldsOnly stores single s d e es m h f =
      rw (h, f, after_bulk, migrate_entries)
        (save_each-HoldsOnly stores single e es empty_result (dst.save (e ∷ es) d).1)
