-- ===== src/Pipeline/Dag/Linking.antt =====
-- The loops that index and link the steps.
use agentspec.Base.{
  ℕ, ◌+◌, String, List, [], ◌∷◌, ◌++◌, arith, eq_iff, In, inl, inr, refl, map, ◌≡◌, ◌==◌, true,
  false, Bool-cases, if◌then◌else◌, ap, some, In-append_left, In-append_right, In-map, subst, ◌∙◌,
  sym, Bool, eq_refl, In-append_cases,
}
use agentspec.Base.Count.{count, count-append}
use agentspec.Base.Maps.{lookup, insert, lookup-insert, Map, Unique, insert-Unique, values, has}
use agentspec.Pipeline.Dag.{Step, Dag, add_edge, link_deps, link_steps, index_steps, then_do}
use agentspec.Pipeline.Dag.Edges.{Edge, edges, step_edges, into, from, value, adjacent}
use agentspec.State.{ok, err, Result}
use mathlib.Core.List.{append_assoc, append-nil}

abbrev pub step_name : Step → String
step_name s = s.name

abbrev pub names_of : List Step → List String
names_of = map step_name

-- Only the named steps have counts, each once.
pub record Counted (names : List String) (m : Map ℕ) : Type 0 where
  pub unique : Unique m
  pub has_names : (k : String) (c : ℕ) → lookup k m ≡ some c → In k names

Counted-insert :
    (names : List String) (k : String) (c : ℕ) (m : Map ℕ)
    → In k names
    → Counted names m
    → Counted names (insert k c m)
Counted-insert names k c m i n = record {
  unique = insert-Unique k c m n.unique;
  has_names = λ j d h. elim (Bool-cases (k == j)) [
    | inl t ↦ subst (λ x. In x names) ((eq_iff k j).0 t) i
    | inr f ↦ n.has_names j d (ground (arith, lookup-insert k j c m, h, f))
  ];
}

Counted-more : (names more : List String) (m : Map ℕ) → Counted names m → Counted (names ++ more) m
Counted-more names more m n = record {
  unique = n.unique;
  has_names = λ k c h. In-append_left k names more (n.has_names k c h);
}

-- After the indexing of the steps `done`.
pub record Indexed (done : List Step) (dag : Dag) : Type 0 where
  pub all_steps : values dag.steps ≡ done
  pub counted : Counted (names_of done) dag.incoming
  pub at_zero : (k : String) → value k dag.incoming ≡ 0
  pub no_edges : dag.adjacency ≡ []
  pub looked : (s : Step) → In s done → lookup s.name dag.steps ≡ some s

values-insert :
    {V : Type 0} (k : String) (v : V) (m : Map V)
    → has k m ≡ false
    → values (insert k v m) ≡ values m ++ v ∷ []
unfolding has lookup insert
values-insert k v [] h = refl
values-insert k v ((j, w) ∷ m) h = elim (Bool-cases (j == k)) [
  | inl t ↦ absurd (ground (arith, t, h))
  | inr f ↦ rw f (ap (w ∷◌) (values-insert k v m (ground (arith, f, h))))
]

names-append : (xs : List Step) (s : Step) → names_of (xs ++ s ∷ []) ≡ names_of xs ++ s.name ∷ []
names-append [] s = refl
names-append (x ∷ xs) s = ap (x.name ∷◌) (names-append xs s)

index-one :
    (done : List Step) (s : Step) (dag : Dag)
    → has s.name dag.steps ≡ false
    → Indexed done dag
    → Indexed
        (done ++ s ∷ [])
        (record dag { steps = insert s.name s dag.steps; incoming = insert s.name 0 dag.incoming })
unfolding has
index-one done s dag new i = record {
  all_steps = values-insert s.name s dag.steps new ∙ ap (◌++ s ∷ []) i.all_steps;
  counted =
      Counted-insert (names_of (done ++ s ∷ [])) s.name 0 dag.incoming
        (In-map step_name s (done ++ s ∷ []) (In-append_right s done (s ∷ []) (inl refl)))
        (subst (λ l. Counted l dag.incoming) (sym (names-append done s))
          (Counted-more (names_of done) (s.name ∷ []) dag.incoming i.counted));
  at_zero = λ k. ground (arith, lookup-insert s.name k 0 dag.incoming, i.at_zero k);
  no_edges = i.no_edges;
  looked = λ t j. elim (In-append_cases t done (s ∷ []) j) [
    | inl old ↦
        ground (
          arith,
          lookup-insert s.name t.name s dag.steps,
          i.looked t old,
          new,
          eq_iff s.name t.name,
        )
    | inr now ↦ new_step s t dag.steps now
  ];
}
  where
    new_step :
        (s t : Step) (m : Map Step) → In t (s ∷ []) → lookup t.name (insert s.name s m) ≡ some t
    new_step s t m (inl e) =
        subst (λ x. lookup x.name (insert s.name s m) ≡ some x) e
          (ground (arith, lookup-insert s.name s.name s m, eq_refl s.name))
    new_step s t m (inr x) = elim x [ ]

-- What a result without error says of the tests before it.
pub passed :
    {A : Type 0} (b : Bool) (e : String) (r : Result A) (a : A)
    → (if b then err e else r) ≡ ok a
    → (b ≡ false) × (r ≡ ok a)
passed true e r a h = cc
passed false e r a h = (refl, h)

held :
    {A : Type 0} (b : Bool) (e : String) (r : Result A) (a : A)
    → (if b then r else err e) ≡ ok a
    → (b ≡ true) × (r ≡ ok a)
held true e r a h = (refl, h)
held false e r a h = cc

pub then_do-ok :
    {A B : Type 0} (r : Result A) (f : A → Result B) (b : B)
    → then_do r f ≡ ok b
    → (a : A) × (r ≡ ok a) × (f a ≡ ok b)
then_do-ok (ok a) f b h = (a, refl, h)
then_do-ok (err e) f b h = cc

pub ok_same : {A : Type 0} {x y : A} → ok x ≡ ok y → x ≡ y
ok_same e = cc

pub index_steps-Indexed :
    (steps done : List Step) (dag dag' : Dag)
    → Indexed done dag
    → index_steps steps dag ≡ ok dag'
    → Indexed (done ++ steps) dag'
unfolding index_steps
index_steps-Indexed [] done dag dag' i h =
    subst (λ l. Indexed l dag') (sym (append-nil done)) (subst (Indexed done) (ok_same h) i)
index_steps-Indexed (s ∷ rest) done dag dag' i h =
    let (new, r) = passed (has s.name dag.steps) _ _ dag' h in
    subst (λ l. Indexed l dag') (append_assoc done (s ∷ []) rest)
      (index_steps-Indexed rest (done ++ s ∷ []) _ dag' (index-one done s dag new i) r)

-- What linking adds to the two maps.
pub record Links (names : List String) (dag dag' : Dag) (es : List Edge) : Type 0 where
  pub same_steps : dag'.steps ≡ dag.steps
  pub counted : Counted names dag.incoming → Counted names dag'.incoming
  pub adds_into : (k : String) → value k dag'.incoming ≡ value k dag.incoming + into k es
  pub adds_from :
      (d k : String)
      → count k (adjacent d dag'.adjacency) ≡ count k (adjacent d dag.adjacency) + from d k es

Links-nil : (names : List String) (dag : Dag) → Links names dag dag []
unfolding into from
Links-nil names dag = record {
  same_steps = refl;
  counted = λ n. n;
  adds_into = λ k. omega arith;
  adds_from = λ d k. omega arith;
}

pub into-append : (k : String) (xs ys : List Edge) → into k (xs ++ ys) ≡ into k xs + into k ys
unfolding into
into-append k [] ys = omega arith
into-append k (x ∷ xs) ys = ground (arith, into-append k xs ys)

pub from-append :
    (d k : String) (xs ys : List Edge) → from d k (xs ++ ys) ≡ from d k xs + from d k ys
unfolding from
from-append d k [] ys = omega arith
from-append d k (x ∷ xs) ys = ground (arith, from-append d k xs ys)

Links-append :
    (names : List String) (a b c : Dag) (xs ys : List Edge)
    → Links names a b xs
    → Links names b c ys
    → Links names a c (xs ++ ys)
Links-append names a b c xs ys p q = record {
  same_steps = q.same_steps ∙ p.same_steps;
  counted = λ n. q.counted (p.counted n);
  adds_into = λ k. omega (arith, p.adds_into k, q.adds_into k, into-append k xs ys);
  adds_from = λ d k. omega (arith, p.adds_from d k, q.adds_from d k, from-append d k xs ys);
}

pub adjacent-insert :
    (dep d k : String) (l : List String) (m : Map (List String))
    → count k (adjacent d (insert dep l m))
      ≡ (if dep == d then count k l else count k (adjacent d m))
adjacent-insert dep d k l m = ground (arith, lookup-insert dep d l m)

add_edge-Links :
    (names : List String) (dep name : String) (dag : Dag)
    → In name names
    → Links names dag (add_edge dep name dag) ((dep, name) ∷ [])
unfolding add_edge into from count
add_edge-Links names dep name dag i = record {
  same_steps = refl;
  counted = Counted-insert names name (value name dag.incoming + 1) dag.incoming i;
  adds_into = λ k.
      ground
        (arith, lookup-insert name k (value name dag.incoming + 1) dag.incoming, eq_iff name k);
  adds_from = λ d k. ground (
    arith,
    adjacent-insert dep d k (adjacent dep dag.adjacency ++ name ∷ []) dag.adjacency,
    count-append k (adjacent dep dag.adjacency) (name ∷ []),
    eq_iff dep d,
  );
}

link_deps-Links :
    (names : List String) (name : String) (deps : List String) (dag dag' : Dag)
    → In name names
    → link_deps name deps dag ≡ ok dag'
    → Links names dag dag' (step_edges name deps)
unfolding link_deps
link_deps-Links names name [] dag dag' i h =
    subst (λ x. Links names dag x []) (ok_same h) (Links-nil names dag)
link_deps-Links names name (dep ∷ deps) dag dag' i h =
    let (known, r) = held (has dep dag.steps) _ _ dag' h in
    let (other, q) = passed (dep == name) _ _ dag' r in
    Links-append names dag (add_edge dep name dag) dag' ((dep, name) ∷ []) (step_edges name deps)
      (add_edge-Links names dep name dag i)
      (link_deps-Links names name deps (add_edge dep name dag) dag' i q)

pub link_steps-Links :
    (names : List String) (steps : List Step) (dag dag' : Dag)
    → ((s : Step) → In s steps → In s.name names)
    → link_steps steps dag ≡ ok dag'
    → Links names dag dag' (edges steps)
unfolding link_steps
link_steps-Links names [] dag dag' i h =
    subst (λ x. Links names dag x []) (ok_same h) (Links-nil names dag)
link_steps-Links names (s ∷ rest) dag dag' i h =
    let (mid, p, q) =
      then_do-ok (link_deps s.name s.depends_on dag) (λ d. link_steps rest d) dag' h in
    Links-append names dag mid dag' (step_edges s.name s.depends_on) (edges rest)
      (link_deps-Links names s.name s.depends_on dag mid (i s (inl refl)) p)
      (link_steps-Links names rest mid dag' (λ t j. i t (inr j)) q)
