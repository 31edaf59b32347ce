-- ===== src/Plan/Drift/Quiet.antt =====
-- When no drift is reported.
use agentspec.Base.{
  List, [], ◌∷◌, Option, none, some, ◌≡◌, ◌↔◌, refl, sym, ◌∙◌, ap, arith, eq_iff, In, inl, inr,
  Bool, true, false, subst,
}
use agentspec.Base.Maps.{Map, lookup, has}
use agentspec.Ir.{Resource}
use agentspec.State.{Entry}
use agentspec.Plan.{index_entries, index_resources}
use agentspec.Plan.Index.{has-In, In-has}
use agentspec.Plan.Sync.{last_entry, lookup-index_entries}
use agentspec.Plan.Drift.{
  DriftResult, no_drift, drift_resource, drift_desired, drift_entry, drift_extra, detect_drift,
}

abbrev Recorded : Map Entry → Resource → Type 0
Recorded m r = (e : Entry) × (lookup r.fqn m ≡ some e) × (e.hash ≡ r.hash)

resource-quiet :
    (o : Option Entry) (r : Resource) (d : DriftResult)
    → ((drift_resource o r d).has_drift ≡ false)
      ↔ (d.has_drift ≡ false) × ((e : Entry) × (o ≡ some e) × (e.hash ≡ r.hash))
unfolding drift_resource
resource-quiet none r d = (λ h. cc, λ h. absurd (no_entry h.1.1))
  where
    no_entry : {e : Entry} → none ≡ some e → ⊥
    no_entry q = cc
resource-quiet (some x) r d = (
  λ h. (ground (arith, h), (x, refl, ground (arith, h, eq_iff x.hash r.hash))),
  λ h. ground (arith, h.0, eq_iff x.hash r.hash, same h.1.1, h.1.2),
)
  where
    same : {e : Entry} → some x ≡ some e → x ≡ e
    same q = cc

desired-quiet :
    (m : Map Entry) (rs : List Resource) (d : DriftResult)
    → ((drift_desired m rs d).has_drift ≡ false)
      ↔ (d.has_drift ≡ false) × ((r : Resource) → In r rs → Recorded m r)
unfolding drift_desired
desired-quiet m [] d = (λ h. (h, λ r i. elim i [ ]), λ h. h.0)
desired-quiet m (x ∷ xs) d =
    let rest = desired-quiet m xs (drift_resource (lookup x.fqn m) x d) in
    let here = resource-quiet (lookup x.fqn m) x d in
    (
      λ h. let (a, b) = rest.0 h in let (c, e) = here.0 a in (c, all e b),
      λ h. rest.1 (here.1 (h.0, h.1 x (inl refl)), λ r i. h.1 r (inr i)),
    )
  where
    all :
        Recorded m x
        → ((r : Resource) → In r xs → Recorded m r)
        → (r : Resource) → In r (x ∷ xs)
        → Recorded m r
    all e b r (inl q) = subst (Recorded m) q e
    all e b r (inr i) = b r i

entry-quiet :
    (b : Bool) (e : Entry) (d : DriftResult)
    → ((drift_entry b e d).has_drift ≡ false) ↔ (d.has_drift ≡ false) × (b ≡ true)
entry-quiet true e d = (λ h. (h, refl), λ h. h.0)
entry-quiet false e d = (λ h. cc, λ h. absurd (differ h.1))
  where
    differ : false ≡ true → ⊥
    differ q = cc

extra-quiet :
    (m : Map Resource) (es : List Entry) (d : DriftResult)
    → ((drift_extra m es d).has_drift ≡ false)
      ↔ (d.has_drift ≡ false) × ((e : Entry) → In e es → has e.fqn m ≡ true)
unfolding drift_extra
extra-quiet m [] d = (λ h. (h, λ e i. elim i [ ]), λ h. h.0)
extra-quiet m (x ∷ xs) d =
    let rest = extra-quiet m xs (drift_entry (has x.fqn m) x d) in
    let here = entry-quiet (has x.fqn m) x d in
    (
      λ h. let (a, b) = rest.0 h in let (c, e) = here.0 a in (c, all e b),
      λ h. rest.1 (here.1 (h.0, h.1 x (inl refl)), λ e i. h.1 e (inr i)),
    )
  where
    all :
        has x.fqn m ≡ true
        → ((e : Entry) → In e xs → has e.fqn m ≡ true)
        → (e : Entry) → In e (x ∷ xs)
        → has e.fqn m ≡ true
    all q b e (inl p) = subst (λ y. has y.fqn m ≡ true) p q
    all q b e (inr i) = b e i

-- No drift is reported exactly when the last entry of each desired resource has its hash and every
-- entry is of a desired resource. Failed entries are not looked at.
pub has_drift-quiet :
    (desired : List Resource) (current : List Entry)
    → ((detect_drift desired current).has_drift ≡ false)
      ↔ ((r : Resource)
          → In r desired
          → (e : Entry) × (last_entry r.fqn current ≡ some e) × (e.hash ≡ r.hash))
        × ((e : Entry) → In e current → (r : Resource) × In r desired × (r.fqn ≡ e.fqn))
unfolding detect_drift
has_drift-quiet desired current =
    let extra =
      extra-quiet (index_resources desired) current
        (drift_desired (index_entries current) desired no_drift) in
    let main = desired-quiet (index_entries current) desired no_drift in
    (
      λ h.
          let (a, b) = extra.0 h in
          (
            λ r i.
                let (e, q, s) = (main.0 a).1 r i in
                (e, sym (lookup-index_entries r.fqn current) ∙ q, s),
            λ e i. has-In e.fqn desired (b e i),
          ),
      λ h. extra.1 (
        main.1 (
          refl,
          λ r i. let (e, q, s) = h.0 r i in (e, lookup-index_entries r.fqn current ∙ q, s),
        ),
        λ e i.
            let (r, j, q) = h.1 e i in
            ap (λ k. has k (index_resources desired)) (sym q) ∙ In-has desired r j,
      ),
    )
