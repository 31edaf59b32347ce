-- ===== src/Plan/Order.antt =====
-- The actions of a plan: which there are, and their order.
use mathlib.Core.List.Permᴰ
use mathlib.Core.List.{Permᴰ, Pairwise, map-append}
use agentspec.Base.{
  String, List, [], ◌∷◌, ◌++◌, ◌||◌, ◌==◌, Bool, not, keep, ap, arith, map, ◌≡◌, inl, inr, false,
  refl, sym, ◌∙◌, In, In-append_cases, In-append_left, In-append_right, map-In, In-map, keep-In,
  In-keep, subst,
}
use agentspec.Base.Maps.{Map, has, lookup, insert, lookup-insert}
use agentspec.Base.Sort.{sort_by-perm, sort_by-Pairwise, sort_by-In, In-sort_by, Before}
use agentspec.State.{Entry}
use agentspec.Ir.{Resource}
use agentspec.Adapters.{Action}
use mathlib.Core.Path.{ap₂, fun_ext}
use agentspec.Plan.{
  compute_plan, plan_resource, index_resources_onto, index_entries, index_resources, sort_actions,
  action_fqn, delete_action,
}
use agentspec.Plan.Closed.{planned, all_actions, actions-compute_plan, orphaned_in}

module _ (desired : List Resource) (current : List Entry) where
  -- The actions stand in the order of their FQNs.
  pub compute_plan-Pairwise : Pairwise (Before action_fqn) (compute_plan desired current).actions
  unfolding sort_actions
  compute_plan-Pairwise =
      subst (Pairwise (Before action_fqn)) (sym (actions-compute_plan desired current))
        (sort_by-Pairwise action_fqn (all_actions desired current))

  -- Where an action of the plan comes from.
  pub data Origin (a : Action) : Type 0 where
    for_resource : (r : Resource) → In r desired → planned (index_entries current) r ≡ a → Origin a
    for_orphan :
        (e : Entry)
        → In e current
        → has e.fqn (index_resources desired) ≡ false
        → delete_action e ≡ a
        → Origin a

  In-actions :
      (a : Action)
      → In a (all_actions desired current)
      → In a (compute_plan desired current).actions
  unfolding sort_actions
  In-actions a i =
      subst (In a) (sym (actions-compute_plan desired current))
        (In-sort_by action_fqn a (all_actions desired current) i)

  actions-In :
      (a : Action)
      → In a (compute_plan desired current).actions
      → In a (all_actions desired current)
  unfolding sort_actions
  actions-In a i =
      sort_by-In action_fqn a (all_actions desired current)
        (subst (In a) (actions-compute_plan desired current) i)

  pub Origin-planned : (a : Action) → In a (compute_plan desired current).actions → Origin a
  Origin-planned a i = elim (In-append_cases a _ _ (actions-In a i)) [
    | inl l ↦ let (r, j, q) = map-In _ a desired l in for_resource r j q
    | inr l ↦
        let (e, j, q) = map-In delete_action a _ l in
        let (k, o) = keep-In (orphaned_in (index_resources desired)) e current j in
        for_orphan e k (ground (arith, o)) q
  ]

  pub planned-In :
      (r : Resource)
      → In r desired
      → In (planned (index_entries current) r) (compute_plan desired current).actions
  planned-In r i = In-actions _ (In-append_left _ _ _ (In-map _ r desired i))

  pub delete-In :
      (e : Entry)
      → In e current
      → has e.fqn (index_resources desired) ≡ false
      → In (delete_action e) (compute_plan desired current).actions
  delete-In e i h = In-actions _ (
      In-append_right _ (map (planned (index_entries current)) desired) _
        (In-map delete_action e _ (In-keep _ e current i (ground arith))))

-- Some desired resource has the FQN.
unfoldable pub is_desired : String → List Resource → Bool
is_desired k [] = false
is_desired k (r ∷ rs) = r.fqn == k || is_desired k rs

has-onto :
    (k : String) (m : Map Resource) (rs : List Resource)
    → has k (index_resources_onto m rs) ≡ (has k m || is_desired k rs)
unfolding index_resources_onto is_desired has
has-onto k m [] = ground arith
has-onto k m (r ∷ rs) = has-onto k (insert r.fqn r m) rs ∙ ground (arith, lookup-insert r.fqn k r m)

has-is_desired : (k : String) (rs : List Resource) → has k (index_resources rs) ≡ is_desired k rs
unfolding index_resources has lookup
has-is_desired k rs = has-onto k [] rs

planned-fqn : (m : Map Entry) (r : Resource) → (planned m r).fqn ≡ r.fqn
unfolding plan_resource
planned-fqn m r = ground arith

abbrev entry_fqn : Entry → String
entry_fqn e = e.fqn

abbrev resource_fqn : Resource → String
resource_fqn r = r.fqn

fqns-planned :
    (m : Map Entry) (rs : List Resource) → map action_fqn (map (planned m) rs) ≡ map resource_fqn rs
fqns-planned m [] = refl
fqns-planned m (r ∷ rs) = ap₂ ◌∷◌ (planned-fqn m r) (fqns-planned m rs)

fqns-deletes : (es : List Entry) → map action_fqn (map delete_action es) ≡ map entry_fqn es
fqns-deletes [] = refl
fqns-deletes (e ∷ es) = ap (◌∷◌ e.fqn) (fqns-deletes es)

-- The plan has one action for each desired resource and one for each entry that no desired resource
-- names, no other, and they stand in the order of their FQNs.
pub compute_plan_lists :
    (desired : List Resource) (current : List Entry)
    → Permᴰ (map action_fqn (compute_plan desired current).actions) (
        map resource_fqn desired
        ++ map entry_fqn (keep (λ e. not (is_desired e.fqn desired)) current))
      × Pairwise (Before action_fqn) (compute_plan desired current).actions
unfolding sort_actions
compute_plan_lists desired current = (
  rw (actions-compute_plan desired current) (
      Permᴰ.trans (Permᴰ.map action_fqn (sort_by-perm action_fqn (all_actions desired current)))
        (subst (Permᴰ _) fqns (Permᴰ.refl _))),
  compute_plan-Pairwise desired current,
)
  where
    fqns :
        map action_fqn (all_actions desired current)
        ≡ map resource_fqn desired
          ++ map entry_fqn (keep (λ e. not (is_desired e.fqn desired)) current)
    fqns =
        map-append action_fqn (map (planned (index_entries current)) desired) _
        ∙ ap₂ ◌++◌ (fqns-planned (index_entries current) desired) (
            fqns-deletes (keep (orphaned_in (index_resources desired)) current)
            ∙ ap (λ (p : Entry → Bool). map entry_fqn (keep p current))
                (fun_ext (λ e. ap not (has-is_desired e.fqn desired))))
