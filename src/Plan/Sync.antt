-- ===== src/Plan/Sync.antt =====
-- When `ComputePlan` reports no change: the state is what the resources ask for.
use agentspec.Base.{
  String, List, [], ◌∷◌, Option, none, some, ◌≡◌, ◌≢◌, ◌↔◌, refl, arith, eq_iff, In, false, ◌==◌,
  if◌then◌else◌, or_else, ◌∙◌, sym, ap,
}
use agentspec.Base.Maps.{Map, lookup, insert, lookup-insert, has}
use agentspec.State.{Entry, failed}
use agentspec.Ir.{Resource}
use agentspec.Plan.{compute_plan, index_entries, index_entries_onto, index_resources, plan_resource}
use agentspec.Plan.Closed.{unchanged_of_has_changes, has_changes_of_unchanged}
use agentspec.Plan.Index.{has-In, In-has}

-- The entry that counts for an FQN: the last one.
unfoldable pub last_entry : String → List Entry → Option Entry
last_entry k [] = none
last_entry k (e ∷ es) = or_else (last_entry k es) (if e.fqn == k then some e else none)

lookup-onto :
    (k : String) (m : Map Entry) (es : List Entry)
    → lookup k (index_entries_onto m es) ≡ or_else (last_entry k es) (lookup k m)
unfolding index_entries_onto last_entry
lookup-onto k m [] = refl
lookup-onto k m (e ∷ es) =
    lookup-onto k (insert e.fqn e m) es ∙ ground (arith, lookup-insert e.fqn k e m)

pub lookup-index_entries :
    (k : String) (es : List Entry) → lookup k (index_entries es) ≡ last_entry k es
unfolding index_entries lookup
lookup-index_entries k es = lookup-onto k [] es ∙ ground arith

-- Each desired resource is recorded under its hash and not as failed, and nothing else is.
pub record InSync (desired : List Resource) (current : List Entry) : Type 0 where
  pub recorded :
      (r : Resource)
      → In r desired
      → (e : Entry) × (last_entry r.fqn current ≡ some e) × (e.hash ≡ r.hash) × (e.status ≢ failed)
  pub wanted : (e : Entry) → In e current → (r : Resource) × In r desired × (r.fqn ≡ e.fqn)

pub unchanged_resource :
    (o : Option Entry) (r : Resource)
    → (plan_resource o r).1 ≡ false
    → (e : Entry) × (o ≡ some e) × (e.hash ≡ r.hash) × (e.status ≢ failed)
unfolding plan_resource
unchanged_resource none r h = cc
unchanged_resource (some e) r h = (e, refl, ground (arith, eq_iff e.hash r.hash), ground arith)

resource_unchanged :
    (o : Option Entry) (r : Resource) (e : Entry)
    → o ≡ some e
    → e.hash ≡ r.hash
    → e.status ≢ failed
    → (plan_resource o r).1 ≡ false
unfolding plan_resource
resource_unchanged none r e q h s = cc
resource_unchanged (some x) r e q h s = ground (arith, eq_iff x.hash r.hash)

-- The plan reports no change exactly when the state is in sync: every desired resource's last
-- entry has the resource's hash and is not failed, and every entry is of a desired resource.
pub has_changes-InSync :
    (desired : List Resource) (current : List Entry)
    → ((compute_plan desired current).has_changes ≡ false) ↔ InSync desired current
has_changes-InSync desired current = (
  λ h.
      let (quiet, kept) = unchanged_of_has_changes desired current h in
      record {
        recorded = λ r i.
            let (e, q, s, f) =
              unchanged_resource (lookup r.fqn (index_entries current)) r (quiet r i) in
            (e, sym (lookup-index_entries r.fqn current) ∙ q, s, f);
        wanted = λ e i. has-In e.fqn desired (kept e i);
      },
  λ sync. has_changes_of_unchanged desired current (
    λ r i.
        let (e, q, s, f) = sync.recorded r i in
        resource_unchanged (lookup r.fqn (index_entries current)) r e
          (lookup-index_entries r.fqn current ∙ q) s f,
    λ e i.
        let (r, j, q) = sync.wanted e i in
        ap (λ k. has k (index_resources desired)) (sym q) ∙ In-has desired r j,
  ),
)
