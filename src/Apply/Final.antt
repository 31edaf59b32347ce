-- ===== src/Apply/Final.antt =====
-- The state map that the local-mcp adapter's results leave: it is in sync with the resources.
use agentspec.Base.{
  ℕ, String, List, Option, none, some, ◌≡◌, ◌≢◌, ◌↔◌, refl, sym, ◌∙◌, ap, arith, In, In-keep,
  keep-In, keep, true, false, Bool-cases, Option-cases, inl, inr,
}
use agentspec.Base.Maps.{lookup, has, values, In-values, values-lookup}
use agentspec.Ir.{Resource}
use agentspec.State.{Entry, failed}
use agentspec.Adapters.{Action}
use agentspec.Plan.{compute_plan, index_entries, index_resources, plan_resource, delete_action}
use agentspec.Plan.Index.{lookup-In, In-lookup, has-In, In-has, index_entries-Unique}
use agentspec.Plan.Closed.{planned}
use agentspec.Plan.Order.{Origin, for_resource, for_orphan, Origin-planned, planned-In, delete-In}
use agentspec.Plan.Sync.{InSync, lookup-index_entries, unchanged_resource}
use agentspec.Apply.{Progress, Summary, not_noop, applied_entry}
use agentspec.Apply.Record.{after, run, run-keeps, run-reaches, Aligned-all, Unique-run}

after-planned :
    (adapter : String) (now : ℕ) (o : Option Entry) (r : Resource)
    → after adapter now (plan_resource o r).0 ≡ some (applied_entry adapter now r.fqn r.hash)
unfolding after plan_resource
after-planned adapter now o r = ground arith

after-delete : (adapter : String) (now : ℕ) (e : Entry) → after adapter now (delete_action e) ≡ none
unfolding after
after-delete adapter now e = refl

pub changed-not_noop :
    (o : Option Entry) (r : Resource)
    → (plan_resource o r).1 ≡ true
    → not_noop (plan_resource o r).0 ≡ true
unfolding plan_resource
changed-not_noop o r h = ground arith

after-fqn :
    (adapter : String) (now : ℕ) (a : Action) (e : Entry)
    → after adapter now a ≡ some e
    → e.fqn ≡ a.fqn
unfolding after
after-fqn adapter now a e h = ground arith

plan_resource-fqn : (o : Option Entry) (r : Resource) → (plan_resource o r).0.fqn ≡ r.fqn
unfolding plan_resource
plan_resource-fqn o r = ground arith

-- Desired resources of one FQN have one hash.
abbrev pub HashesAgree : List Resource → Type 0
HashesAgree desired =
    (r s : Resource) → In r desired → In s desired → r.fqn ≡ s.fqn → r.hash ≡ s.hash

abbrev pub to_apply : List Resource → List Entry → List Action
to_apply desired current = keep not_noop (compute_plan desired current).actions

module _ (adapter : String) (clock : ℕ → ℕ) (desired : List Resource) (current : List Entry)
    (agree : HashesAgree desired) (summary : Summary) where
  abbrev pub todo : List Action
  todo = to_apply desired current

  abbrev pub start : Progress
  start = record { state_map = index_entries current; summary = summary }

  abbrev pub final : Progress
  final = run adapter clock todo 0 todo start

  todo-Origin : (a : Action) → In a todo → Origin desired current a
  todo-Origin a i = Origin-planned desired current a (keep-In not_noop a _ i).0

  -- What `InSync` asks of the entry of a resource.
  abbrev Recorded : Resource → Option Entry → Type 0
  Recorded r o = (e : Entry) × (o ≡ some e) × (e.hash ≡ r.hash) × (e.status ≢ failed)

  clash :
      (k : String)
      → has k (index_resources desired) ≡ false
      → (r : Resource) → In r desired
      → r.fqn ≡ k
      → ⊥
  clash k out r i e = cc (In-has desired r i, ap (λ j. has j (index_resources desired)) e, out)

  Leaves-Recorded :
      (r : Resource)
      → In r desired
      → (a : Action) → In a todo
      → a.fqn ≡ r.fqn
      → (now : ℕ) → Recorded r (after adapter now a)
  Leaves-Recorded r i a j e now = elim (todo-Origin a j) [
    | for_resource s k q ↦ (
      applied_entry adapter now s.fqn s.hash,
      ap (after adapter now) (sym q) ∙ after-planned adapter now _ s,
      agree s r k i (sym (plan_resource-fqn _ s) ∙ ap (λ (x : Action). x.fqn) q ∙ e),
      λ bad. cc,
    )
    | for_orphan x k orphan q ↦
        elim (clash x.fqn orphan r i (sym (ap (λ (x : Action). x.fqn) q ∙ e))) [ ]
  ]

  final-Recorded : (r : Resource) → In r desired → Recorded r (lookup r.fqn final.state_map)
  final-Recorded r i =
      elim (Bool-cases (plan_resource (lookup r.fqn (index_entries current)) r).1) [
        | inl t ↦
            run-reaches adapter clock (Recorded r) r.fqn todo 0 todo start
              (planned (index_entries current) r) (Aligned-all todo) (Leaves-Recorded r i)
              (In-keep not_noop _ _ (planned-In desired current r i) (changed-not_noop _ r t))
              (plan_resource-fqn _ r)
        | inr f ↦
            run-keeps adapter clock (Recorded r) r.fqn todo 0 todo start (Aligned-all todo)
              (Leaves-Recorded r i) (unchanged_resource _ r f)
      ]

  abbrev Keyed : String → Option Entry → Type 0
  Keyed k o = (e : Entry) → o ≡ some e → e.fqn ≡ k

  final-Keyed : (k : String) → Keyed k (lookup k final.state_map)
  final-Keyed k =
      run-keeps adapter clock (Keyed k) k todo 0 todo start (Aligned-all todo)
        (λ a j e now x h. after-fqn adapter now a x h ∙ e) (λ e h. (lookup-In k current e h).1)

  Leaves-none :
      (k : String)
      → has k (index_resources desired) ≡ false
      → (a : Action) → In a todo
      → a.fqn ≡ k
      → (now : ℕ) → after adapter now a ≡ none
  Leaves-none k out a j e now = elim (todo-Origin a j) [
    | for_resource r i q ↦
        elim (clash k out r i (sym (plan_resource-fqn _ r) ∙ ap (λ (x : Action). x.fqn) q ∙ e)) [ ]
    | for_orphan x i orphan q ↦ ap (after adapter now) (sym q) ∙ after-delete adapter now x
  ]

  final-none :
      (k : String) → has k (index_resources desired) ≡ false → lookup k final.state_map ≡ none
  final-none k out = elim (Option-cases (lookup k (index_entries current))) [
    | inl absent ↦
        run-keeps adapter clock (λ o. o ≡ none) k todo 0 todo start (Aligned-all todo)
          (Leaves-none k out) absent
    | inr (e, found) ↦
        let (i, q) = lookup-In k current e found in
        run-reaches adapter clock (λ o. o ≡ none) k todo 0 todo start (delete_action e)
          (Aligned-all todo) (Leaves-none k out)
          (In-keep not_noop _ _
            (delete-In desired current e i (ap (λ j. has j (index_resources desired)) q ∙ out))
            refl)
          q
  ]

  final-In-desired :
      (k : String) (e : Entry)
      → lookup k final.state_map ≡ some e
      → (r : Resource) × In r desired × (r.fqn ≡ k)
  final-In-desired k e h = elim (Bool-cases (has k (index_resources desired))) [
    | inl t ↦ has-In k desired t
    | inr f ↦ cc (final-none k f)
  ]

  stored-lookup :
      (stored : List Entry)
      → ((e : Entry) → In e stored ↔ In e (values final.state_map))
      → (e : Entry) → In e stored
      → (k : String) × (lookup k final.state_map ≡ some e)
  stored-lookup stored same e i =
      values-lookup e final.state_map
        (Unique-run adapter clock todo 0 todo start (Aligned-all todo)
          (index_entries-Unique current))
        ((same e).0 i)

  -- An entry that is stored under the FQN of another is that one.
  stored-same :
      (stored : List Entry)
      → ((e : Entry) → In e stored ↔ In e (values final.state_map))
      → (k : String) (e x : Entry) → lookup k final.state_map ≡ some e
      → In x stored × (x.fqn ≡ e.fqn)
      → x ≡ e
  stored-same stored same k e x found (i, q) =
      let (j, at_j) = stored-lookup stored same x i in
      let j_is_k = sym (final-Keyed j x at_j) ∙ q ∙ final-Keyed k e found in
      cc (sym at_j ∙ ap (λ l. lookup l final.state_map) j_is_k ∙ found)

  -- The final map's values are the entries of a state in sync.
  pub values-InSync :
      (stored : List Entry)
      → ((e : Entry) → In e stored ↔ In e (values final.state_map))
      → InSync desired stored
  values-InSync stored same = record {
    recorded = λ r i.
        let (e, found, h, s) = final-Recorded r i in
        let j = (same e).1 (In-values r.fqn e final.state_map found) in
        let (x, q) = In-lookup stored e j in
        let one = stored-same stored same r.fqn e x found (lookup-In e.fqn stored x q) in
        (
          x,
          sym (lookup-index_entries r.fqn stored)
              ∙ ap (λ k. lookup k (index_entries stored)) (sym (final-Keyed r.fqn e found))
              ∙ q,
          ap (λ (y : Entry). y.hash) one ∙ h,
          λ bad. s (ap (λ (y : Entry). y.status) (sym one) ∙ bad),
        );
    wanted = λ e i.
        let (k, found) = stored-lookup stored same e i in
        let (r, j, q) = final-In-desired k e found in (r, j, q ∙ sym (final-Keyed k e found));
  }
