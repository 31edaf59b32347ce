-- ===== src/Plan/Closed.antt =====
-- The two loops of `ComputePlan` without their accumulators.
use mathlib.Core.List.{append_assoc, append-nil}
use agentspec.Base.{
  List, [], ◌∷◌, ◌++◌, map, ◌≡◌, refl, inl, inr, Bool, true, false, ◌||◌, not, arith, In, keep,
  Bool-cases, sym, ◌∙◌, ap,
}
use agentspec.Base.Maps.{Map, lookup, has}
use agentspec.State.{Entry}
use agentspec.Ir.{Resource}
use agentspec.Adapters.{Action}
use agentspec.Plan.{
  plan_resource, plan_desired, plan_deletes, delete_action, index_entries, index_resources,
  compute_plan, sort_actions,
}

-- The action for one desired resource, and whether it counts as a change.
abbrev pub planned : Map Entry → Resource → Action
planned m r = (plan_resource (lookup r.fqn m) r).0

abbrev pub changed : Map Entry → Resource → Bool
changed m r = (plan_resource (lookup r.fqn m) r).1

abbrev pub orphaned_in : Map Resource → Entry → Bool
orphaned_in desired e = not (has e.fqn desired)

plan_desired-actions :
    (m : Map Entry) (rs : List Resource) (actions : List Action) (c : Bool)
    → (plan_desired m rs actions c).0 ≡ actions ++ map (planned m) rs
unfolding plan_desired
plan_desired-actions m [] actions c = sym (append-nil actions)
plan_desired-actions m (r ∷ rs) actions c =
    plan_desired-actions m rs (actions ++ planned m r ∷ []) (c || changed m r)
    ∙ append_assoc actions (planned m r ∷ []) (map (planned m) rs)

plan_deletes-actions :
    (d : Map Resource) (es : List Entry) (actions : List Action) (c : Bool)
    → (plan_deletes d es actions c).0 ≡ actions ++ map delete_action (keep (orphaned_in d) es)
unfolding plan_deletes keep
plan_deletes-actions d [] actions c = sym (append-nil actions)
plan_deletes-actions d (e ∷ es) actions c = elim (Bool-cases (has e.fqn d)) [
  | inl t ↦ rw (t, plan_deletes) (plan_deletes-actions d es actions c)
  | inr f ↦
      rw (f, plan_deletes)
        (plan_deletes-actions d es (actions ++ delete_action e ∷ []) true
          ∙ append_assoc actions (delete_action e ∷ [])
              (map delete_action (keep (orphaned_in d) es)))
]

module _ (desired : List Resource) (current : List Entry) where
  abbrev pub all_actions : List Action
  all_actions =
      map (planned (index_entries current)) desired
      ++ map delete_action (keep (orphaned_in (index_resources desired)) current)

  pub actions-compute_plan : (compute_plan desired current).actions ≡ sort_actions all_actions
  unfolding compute_plan
  actions-compute_plan = ap sort_actions (
      plan_deletes-actions (index_resources desired) current
        (plan_desired (index_entries current) desired [] false).0
        (plan_desired (index_entries current) desired [] false).1
      ∙ ap (λ l. l ++ map delete_action (keep (orphaned_in (index_resources desired)) current))
          (plan_desired-actions (index_entries current) desired [] false))

-- No change is reported exactly when no loop met one.
plan_desired_unchanged :
    (m : Map Entry) (rs : List Resource) (actions : List Action) (c : Bool)
    → (plan_desired m rs actions c).1 ≡ false
    → (c ≡ false) × ((r : Resource) → In r rs → changed m r ≡ false)
unfolding plan_desired
plan_desired_unchanged m [] actions c h = (h, λ r i. elim i [ ])
plan_desired_unchanged m (r ∷ rs) actions c h =
    let (e, all) = plan_desired_unchanged m rs _ _ h in
    (
      ground arith,
      λ s i. elim i [ inl q ↦ ap (changed m) (sym q) ∙ (ground arith) | inr j ↦ all s j ],
    )

unchanged_plan_desired :
    (m : Map Entry) (rs : List Resource) (actions : List Action)
    → ((r : Resource) → In r rs → changed m r ≡ false)
    → (plan_desired m rs actions false).1 ≡ false
unfolding plan_desired
unchanged_plan_desired m [] actions all = refl
unchanged_plan_desired m (r ∷ rs) actions all =
    rw (all r (inl refl), plan_desired) (unchanged_plan_desired m rs _ (λ s i. all s (inr i)))

plan_deletes_unchanged :
    (d : Map Resource) (es : List Entry) (actions : List Action) (c : Bool)
    → (plan_deletes d es actions c).1 ≡ false
    → (c ≡ false) × ((e : Entry) → In e es → has e.fqn d ≡ true)
unfolding plan_deletes
plan_deletes_unchanged d [] actions c h = (h, λ e i. elim i [ ])
plan_deletes_unchanged d (e ∷ es) actions c h =
    let (k, all) = plan_deletes_unchanged d es _ _ h in
    (
      ground arith,
      λ x i. elim i [
        | inl q ↦ ap (λ (y : Entry). has y.fqn d) (sym q) ∙ (ground arith)
        | inr j ↦ all x j
      ],
    )

unchanged_plan_deletes :
    (d : Map Resource) (es : List Entry) (actions : List Action)
    → ((e : Entry) → In e es → has e.fqn d ≡ true)
    → (plan_deletes d es actions false).1 ≡ false
unfolding plan_deletes
unchanged_plan_deletes d [] actions all = refl
unchanged_plan_deletes d (e ∷ es) actions all =
    rw (all e (inl refl), plan_deletes) (unchanged_plan_deletes d es actions (λ x i. all x (inr i)))

module _ (desired : List Resource) (current : List Entry) where
  -- No change is reported exactly when neither loop met one.
  abbrev pub Unchanged : Type 0
  Unchanged =
      ((r : Resource) → In r desired → changed (index_entries current) r ≡ false)
      × ((e : Entry) → In e current → has e.fqn (index_resources desired) ≡ true)

  pub unchanged_of_has_changes : (compute_plan desired current).has_changes ≡ false → Unchanged
  unfolding compute_plan
  unchanged_of_has_changes h =
      let (quiet, kept) = plan_deletes_unchanged _ current _ _ h in
      ((plan_desired_unchanged _ desired _ _ quiet).1, kept)

  pub has_changes_of_unchanged : Unchanged → (compute_plan desired current).has_changes ≡ false
  unfolding compute_plan
  has_changes_of_unchanged u =
      rw (unchanged_plan_desired (index_entries current) desired [] u.0)
        (unchanged_plan_deletes (index_resources desired) current _ u.1)
