-- ===== src/State/Local/Extras/RoundTrip.antt =====
-- What is written beside the entries is read again, and the rest of the file is kept.
use agentspec.Base.{
  ℕ, List, String, [], ◌∷◌, ◌++◌, refl, none, some, take, length, ap, arith, length-drop, ltb,
  if◌then◌else◌, Bool-cases, inl, inr, ◌≡◌, ◌==◌, ◌-◌, sym, ◌∙◌, take-drop,
}
use agentspec.Base.Maps.{lookup, insert, lookup-insert, Map}
use agentspec.State.Local.{VersionEntry, BudgetState, LocalBackend, StateFile, ok}
use agentspec.State.Local.Coherent.{decoded_file}
use agentspec.State.Local.Extras.{
  retained, versions_of, decode_or_zero, save_version, save_budgets, get_versions, load_budgets,
  read_field, default_version, write_state_file, history,
}

-- The history that is kept is the end of the whole one: all of it up to ten versions, and else the
-- last ten.
pub retained_lem :
    (vs : List VersionEntry)
    → (dropped : List VersionEntry) × (vs ≡ dropped ++ retained vs)
      × (length (retained vs) ≡ (if ltb 10 (length vs) then 10 else length vs))
unfolding retained
retained_lem vs = elim (Bool-cases (ltb 10 (length vs))) [
  | inl t ↦ rw t (
    take (length vs - 10) vs,
    sym (take-drop (length vs - 10) vs),
    ground (arith, length-drop (length vs - 10) vs, t),
  )
  | inr f ↦ rw f ([], refl, refl)
]

default-fields :
    (sf : StateFile)
    → ((default_version sf).entries ≡ sf.entries)
      × ((default_version sf).budgets ≡ sf.budgets)
      × ((default_version sf).agent_versions ≡ sf.agent_versions)
unfolding default_version
default-fields sf = elim (Bool-cases (sf.version == "")) [
  | inl t ↦ rw t (refl, refl, refl)
  | inr f ↦ rw f (refl, refl, refl)
]

history-insert :
    (agent a : String) (kept : List VersionEntry) (m : Map (List VersionEntry))
    → history (lookup a (insert agent kept m)) ≡ (if agent == a then kept else history (lookup a m))
history-insert agent a kept m = ground (arith, lookup-insert agent a kept m)

-- `SaveVersion` without a failing system call: of the agent's history with the new version at its end all
-- is read again up to ten versions, and else the last ten. Every other history, the budgets and the
-- entries are kept as they were read, where a missing or invalid file is read as an empty one and a
-- file with a value of a wrong type as the fields that could be filled.
pub save_version-get_versions :
    (now : ℕ) (agent : String) (entry : VersionEntry) (b : LocalBackend)
    → let all = versions_of agent (decode_or_zero b.disk.main) ++ entry ∷ [] in
      (dropped : List VersionEntry) × (kept : List VersionEntry) × (all ≡ dropped ++ kept)
      × (length kept ≡ (if ltb 10 (length all) then 10 else length all))
      × ((a : String)
          → get_versions none a (save_version none none now agent entry b).1
            ≡ ok (if agent == a then kept else versions_of a (decode_or_zero b.disk.main)))
      × (load_budgets none (save_version none none now agent entry b).1
          ≡ ok (decode_or_zero b.disk.main).budgets)
      × (decoded_file (save_version none none now agent entry b).1.disk.main
          ≡ some (decode_or_zero b.disk.main).entries)
unfolding save_version get_versions load_budgets read_field write_state_file
save_version-get_versions now agent entry b =
    let old = decode_or_zero b.disk.main in
    let kept = retained (versions_of agent old ++ entry ∷ []) in
    let (e, bs, vs) =
      default-fields (record old { agent_versions = insert agent kept old.agent_versions }) in
    let (dropped, split, l) = retained_lem (versions_of agent old ++ entry ∷ []) in
    (
      dropped,
      kept,
      split,
      l,
      λ a.
          ap (λ m. ok (history (lookup a m))) vs
          ∙ ap ok (history-insert agent a kept old.agent_versions),
      ap ok bs,
      ap some e,
    )

-- `SaveBudgets` without a failing system call: the budgets are read again, and the histories and the
-- entries are kept as they were read, where a missing or invalid file is read as an empty one and a
-- file with a value of a wrong type as the fields that could be filled.
pub save_budgets-load_budgets :
    (now : ℕ) (budgets : List BudgetState) (b : LocalBackend)
    → (load_budgets none (save_budgets none none now budgets b).1 ≡ ok budgets)
      × ((a : String)
          → get_versions none a (save_budgets none none now budgets b).1
            ≡ ok (versions_of a (decode_or_zero b.disk.main)))
      × (decoded_file (save_budgets none none now budgets b).1.disk.main
          ≡ some (decode_or_zero b.disk.main).entries)
unfolding save_budgets get_versions load_budgets read_field write_state_file
save_budgets-load_budgets now budgets b =
    let (e, bs, vs) = default-fields (record (decode_or_zero b.disk.main) { budgets = budgets }) in
    (ap ok bs, λ a. ap (λ m. ok (history (lookup a m))) vs, ap some e)
