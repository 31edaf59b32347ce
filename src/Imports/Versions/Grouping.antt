-- ===== src/Imports/Versions/Grouping.antt =====
-- The constraints by package.
use mathlib.Core.List.{append-nil, append_assoc}
use agentspec.Base.Maps.{lookup, Map, Unique, insert, lookup-insert, insert-Unique}
use agentspec.Base.{
  eq_iff, [], ◌∷◌, some, true, false, inl, inr, List, ◌++◌, In, subst, sym, String, Bool, ◌≡◌, ◌==◌,
  if◌then◌else◌, ◌∙◌, ap, arith, eq_iff, Bool-cases, In-append_cases, In-append_left,
  In-append_right,
}
use agentspec.Imports.Versions.{VersionConstraint, group, or_none}

-- The constraints of a package, among all of them.
pub record Grouped (done : List VersionConstraint) (m : Map (List VersionConstraint)) : Type 0 where
  pub unique : Unique m
  pub all : (c : VersionConstraint) → In c done → In c (or_none (lookup c.pkg m))
  pub only :
      (k : String) (c : VersionConstraint) → In c (or_none (lookup k m)) → In c done × (c.pkg ≡ k)

group-one :
    (done : List VersionConstraint) (c : VersionConstraint) (m : Map (List VersionConstraint))
    → Grouped done m
    → Grouped (done ++ c ∷ []) (insert c.pkg (or_none (lookup c.pkg m) ++ c ∷ []) m)
group-one done c m g = record {
  unique = insert-Unique c.pkg (or_none (lookup c.pkg m) ++ c ∷ []) m g.unique;
  all = λ d i. elim (Bool-cases (c.pkg == d.pkg)) [
    | inl t ↦
        subst (λ o. In d (or_none o)) (sym (found d.pkg true t))
          (elim (In-append_cases d done (c ∷ []) i) [
            | inl old ↦ In-append_left d (or_none (lookup c.pkg m)) (c ∷ []) (
                subst (λ k. In d (or_none (lookup k m))) (sym ((eq_iff c.pkg d.pkg).0 t))
                  (g.all d old))
            | inr new ↦ In-append_right d (or_none (lookup c.pkg m)) (c ∷ []) new
          ])
    | inr f ↦
        subst (λ o. In d (or_none o)) (sym (found d.pkg false f))
          (elim (In-append_cases d done (c ∷ []) i) [
            | inl old ↦ g.all d old
            | inr new ↦ absurd (other d new f)
          ])
  ];
  only = λ k d i. elim (Bool-cases (c.pkg == k)) [
    | inl t ↦
        let e = (eq_iff c.pkg k).0 t in
        elim (In-append_cases d (or_none (lookup c.pkg m)) (c ∷ [])
          (subst (λ o. In d (or_none o)) (found k true t) i)) [
            | inl old ↦ let (j, p) = g.only c.pkg d old in (In-append_left d done (c ∷ []) j, p ∙ e)
            | inr new ↦ (In-append_right d done (c ∷ []) new, same d new ∙ e)
          ]
    | inr f ↦
        let (j, p) = g.only k d (subst (λ o. In d (or_none o)) (found k false f) i) in
        (In-append_left d done (c ∷ []) j, p)
  ];
}
  where
    found :
        (k : String) (b : Bool)
        → (c.pkg == k) ≡ b
        → lookup k (insert c.pkg (or_none (lookup c.pkg m) ++ c ∷ []) m)
          ≡ (if b then some (or_none (lookup c.pkg m) ++ c ∷ []) else lookup k m)
    found k b e =
        lookup-insert c.pkg k (or_none (lookup c.pkg m) ++ c ∷ []) m
        ∙ ap (λ x. if x then some (or_none (lookup c.pkg m) ++ c ∷ []) else lookup k m) e

    same : (d : VersionConstraint) → In d (c ∷ []) → d.pkg ≡ c.pkg
    same d (inl e) = ap (λ (x : VersionConstraint). x.pkg) (sym e)
    same d (inr x) = elim x [ ]

    other : (d : VersionConstraint) → In d (c ∷ []) → (c.pkg == d.pkg) ≡ false → ⊥
    other d new f = ground (arith, f, same d new, eq_iff c.pkg d.pkg)

pub group-Grouped :
    (cs done : List VersionConstraint) (m : Map (List VersionConstraint))
    → Grouped done m
    → Grouped (done ++ cs) (group cs m)
unfolding group
group-Grouped [] done m g = subst (λ l. Grouped l m) (sym (append-nil done)) g
group-Grouped (c ∷ cs) done m g =
    subst (λ l. Grouped l (group (c ∷ cs) m)) (append_assoc done (c ∷ []) cs)
      (group-Grouped cs (done ++ c ∷ []) _ (group-one done c m g))

pub empty-Grouped : Grouped [] []
unfolding lookup
empty-Grouped = record { unique = tt; all = λ c i. elim i [ ]; only = λ k c i. elim i [ ] }
