-- ===== src/Examples/Migrating.antt =====
-- internal/state/migrate.go into a backend that takes one entry at a time.
use agentspec.Examples.Planning.{old_entry, gone_entry}
use agentspec.Base.{
  ℕ, String, List, [], ◌∷◌, Option, some, none, false, refl, arith, ◌≡◌, ◌+◌, ◌↔◌, inl, inr, In,
  length, ltb, if◌then◌else◌, Bool-cases, ap,
}
use agentspec.State.{Entry, Backend, Result, ok}
use agentspec.State.Migrate.{migrate}
use agentspec.State.Migrate.Accounts.{migrate-accounts, migrate-HoldsOnly}
use agentspec.Apply.Converge.{Stores}

abbrev entries : List Entry
entries = old_entry ∷ gone_entry ∷ []

abbrev source : ℕ → Result (Option (List Entry)) × ℕ
source n = (ok (some entries), n)

single_save : List Entry → List Entry → Option String × List Entry
single_save es s = if ltb 1 (length es) then (some "too large", s) else (none, es)

abbrev one_at_a_time : Backend (List Entry)
unfolding single_save
one_at_a_time = record { load = λ s. (ok s, s); save = single_save; locker = none }

abbrev text : ℕ → ℕ → String
text failures total = "migration partially failed"

single_saved : (es s : List Entry) → (single_save es s).0 ≡ none → (single_save es s).1 ≡ es
unfolding single_save
single_saved es s h = elim (Bool-cases (ltb 1 (length es))) [
  | inl t ↦ absurd (ground (arith, h, t))
  | inr f ↦ rw f refl
]

one_at_a_time-Stores : Stores one_at_a_time
unfolding one_at_a_time
one_at_a_time-Stores = record {
  load_keeps = λ s es h. h;
  save_stores = λ es s h. (es, ap ok (single_saved es s h), λ e. (λ i. i, λ i. i));
  lock_keeps = λ s es h. h;
  unlock_keeps = λ s es h. h;
}

migrate-accounts_example :
    ((migrate source one_at_a_time text false 0 []).0.0.migrated
        + (migrate source one_at_a_time text false 0 []).0.0.failures
      ≡ 2)
    × (((migrate source one_at_a_time text false 0 []).0.1 ≡ none)
        ↔ ((migrate source one_at_a_time text false 0 []).0.0.failures ≡ 0))
migrate-accounts_example = migrate-accounts source one_at_a_time text false 0 [] entries refl

single_works : (e : Entry) (d : List Entry) → (one_at_a_time.save (e ∷ []) d).0 ≡ none
unfolding single_save
single_works e d = refl

bulk_fails : (one_at_a_time.save entries []).0 ≡ some "too large"
unfolding single_save
bulk_fails = refl

migrate-HoldsOnly_example :
    (stored : List Entry) × ((one_at_a_time.load
        (migrate source one_at_a_time text false 0 []).1.1).0
      ≡ ok stored)
    × ((x : Entry) → In x stored ↔ In x (gone_entry ∷ []))
migrate-HoldsOnly_example =
    migrate-HoldsOnly source one_at_a_time text one_at_a_time-Stores single_works 0 [] old_entry
      (gone_entry ∷ []) "too large" refl bulk_fails
