-- ===== src/Pipeline/Dag/Rounds.antt =====
-- What the loops of the topological sort keep.
use agentspec.Base.{
  ℕ, ◌+◌, ◌-◌, ◌≤◌, ◌<◌, String, List, [], ◌∷◌, ◌++◌, arith, eq_iff, In, inl, inr, ◌≡◌, ◌==◌,
  Bool-cases, if◌then◌else◌, eqb, In-append_cases, ◌≢◌, ltb, subst,
}
use agentspec.Base.Count.{count, count_if, count-append, Distinct, count-In}
use agentspec.Base.Maps.{insert, lookup-insert, Map}
use agentspec.Pipeline.Dag.{release, process_layer}
use agentspec.Pipeline.Dag.Edges.{value, released, adjacent}
use mathlib.Core.List.{append_assoc}

-- The steps seen so far, processed or waiting: their counts are 0, none stands twice, and only steps
-- have counts.
pub record Seen (names seen : List String) (m : Map ℕ) : Type 0 where
  pub at_zero : (k : String) → In k seen → value k m ≡ 0
  pub distinct : Distinct seen
  pub known : (k : String) → In k seen → In k names
  pub positive : (k : String) → 0 < value k m → In k names

value-insert :
    (k j : String) (v : ℕ) (m : Map ℕ) → value j (insert k v m) ≡ (if k == j then v else value j m)
value-insert k j v m = ground (arith, lookup-insert k j v m)

module _ (names : List String) where
  -- A count that is decremented without reaching 0 by that, or from 0.
  lowered :
      (k : String) (seen : List String) (m : Map ℕ)
      → Seen names seen m
      → value k m ≢ 1
      → Seen names seen (insert k (value k m - 1) m)
  lowered k seen m s ne = record {
    at_zero = λ j i. ground (arith, value-insert k j (value k m - 1) m, s.at_zero j i, eq_iff k j);
    distinct = s.distinct;
    known = s.known;
    positive =
        λ j h. s.positive j (ground (arith, h, value-insert k j (value k m - 1) m, eq_iff k j));
  }

  count-snoc :
      (k j : String) (xs : List String) → count j (xs ++ k ∷ []) ≡ count_if (k == j) (count j xs)
  unfolding count
  count-snoc k j xs = ground (arith, count-append j xs (k ∷ []))

  only : {j k : String} → In j (k ∷ []) → k ≡ j
  only (inl e) = e
  only (inr x) = elim x [ ]

  unseen :
      (k : String) (seen : List String) (m : Map ℕ)
      → Seen names seen m
      → value k m ≡ 1
      → count k seen ≡ 0
  unseen k seen m s one = elim (Bool-cases (ltb 0 (count k seen))) [
    | inl t ↦ absurd (omega (arith, one, s.at_zero k (count-In k seen (ground (arith, t)))))
    | inr f ↦ ground (arith, f)
  ]

  -- A count that reaches 0: the step joins.
  joined :
      (k : String) (seen : List String) (m : Map ℕ)
      → Seen names seen m
      → value k m ≡ 1
      → Seen names (seen ++ k ∷ []) (insert k (value k m - 1) m)
  joined k seen m s one = record {
    at_zero = λ j i. elim (In-append_cases j seen (k ∷ []) i) [
      | inl l ↦ ground (arith, value-insert k j (value k m - 1) m, s.at_zero j l, eq_iff k j)
      | inr r ↦ ground (arith, value-insert k j (value k m - 1) m, one, only r, eq_iff k j)
    ];
    distinct =
        λ j. ground (arith, count-snoc k j seen, unseen k seen m s one, s.distinct j, eq_iff k j);
    known = λ j i. elim (In-append_cases j seen (k ∷ []) i) [
      | inl l ↦ s.known j l
      | inr r ↦ subst (λ x. In x names) (only r) (s.positive k (omega (arith, one)))
    ];
    positive =
        λ j h. s.positive j (ground (arith, h, value-insert k j (value k m - 1) m, eq_iff k j));
  }

  -- One dependent released.
  abbrev next_of : String → Map ℕ → List String → List String
  next_of k m next = if eqb (value k m) 1 then next ++ k ∷ [] else next

  release-one :
      (k : String) (before next : List String) (m : Map ℕ)
      → Seen names (before ++ next) m
      → Seen names (before ++ next_of k m next) (insert k (value k m - 1) m)
  release-one k before next m s = elim (Bool-cases (eqb (value k m) 1)) [
    | inl t ↦ rw t (
        subst (λ l. Seen names l (insert k (value k m - 1) m)) (append_assoc before next (k ∷ []))
          (joined k (before ++ next) m s (ground (arith, t))))
    | inr f ↦ rw f (lowered k (before ++ next) m s (ground (arith, f)))
  ]

  -- The dependents of one step.
  pub release-Seen :
      (ks before next : List String) (m : Map ℕ)
      → Seen names (before ++ next) m
      → Seen names (before ++ (release ks m next).1) (release ks m next).0
        × ((j : String) → value j m ≤ value j (release ks m next).0 + count j ks)
  unfolding release count
  release-Seen [] before next m s = (s, λ j. omega arith)
  release-Seen (k ∷ ks) before next m s =
      let (t, budget) =
        release-Seen ks before (next_of k m next) (insert k (value k m - 1) m)
          (release-one k before next m s) in
      (t, λ j. ground (arith, budget j, value-insert k j (value k m - 1) m, eq_iff k j))

  -- The steps of one layer.
  pub process_layer-Seen :
      (adjacency : Map (List String)) (ns before next : List String) (m : Map ℕ)
      → Seen names (before ++ next) m
      → Seen names
          (before ++ (process_layer adjacency ns m next).1)
          (process_layer adjacency ns m next).0
        × ((j : String)
            → value j m ≤ value j (process_layer adjacency ns m next).0 + released adjacency j ns)
  unfolding process_layer released
  process_layer-Seen adjacency [] before next m s = (s, λ j. omega arith)
  process_layer-Seen adjacency (n ∷ ns) before next m s =
      let (t, b) = release-Seen (adjacent n adjacency) before next m s in
      let (u, c) =
        process_layer-Seen adjacency ns before (release (adjacent n adjacency) m next).1
          (release (adjacent n adjacency) m next).0 t in
      (u, λ j. omega (arith, b j, c j))
