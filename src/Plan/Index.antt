-- ===== src/Plan/Index.antt =====
-- The lookup maps of `ComputePlan`: what the map built from a list of entries answers.
use agentspec.Base.{
  String, List, [], ◌∷◌, some, ◌≡◌, ◌⊎◌, inl, inr, refl, arith, eq_iff, In, true, ◌==◌, Bool-cases,
}
use agentspec.Base.Maps.{Map, lookup, insert, lookup-insert, has, Unique, insert-Unique}
use agentspec.State.{Entry}
use agentspec.Ir.{Resource}
use agentspec.Plan.{index_entries, index_entries_onto, index_resources, index_resources_onto}

-- What a lookup finds was in the map before, or is an entry of the list with that FQN.
lookup-onto :
    (k : String) (m : Map Entry) (es : List Entry) (e : Entry)
    → lookup k (index_entries_onto m es) ≡ some e
    → (lookup k m ≡ some e) ⊎ (In e es × (e.fqn ≡ k))
unfolding index_entries_onto
lookup-onto k m [] e h = inl h
lookup-onto k m (x ∷ es) e h = elim (lookup-onto k (insert x.fqn x m) es e h) [
  | inr (i, q) ↦ inr (inr i, q)
  | inl l ↦ ground (arith, lookup-insert x.fqn k x m, eq_iff x.fqn k)
]

pub lookup-In :
    (k : String) (es : List Entry) (e : Entry)
    → lookup k (index_entries es) ≡ some e
    → In e es × (e.fqn ≡ k)
unfolding index_entries lookup
lookup-In k es e h = elim (lookup-onto k [] es e h) [ inl l ↦ cc | inr r ↦ r ]

-- A key that the map has, or that the list names, is found.
onto-keeps :
    (k : String) (m : Map Entry) (es : List Entry) (e : Entry)
    → lookup k m ≡ some e
    → (e' : Entry) × (lookup k (index_entries_onto m es) ≡ some e')
unfolding index_entries_onto
onto-keeps k m [] e h = (e, h)
onto-keeps k m (x ∷ es) e h = elim (Bool-cases (x.fqn == k)) [
  | inl t ↦ onto-keeps k (insert x.fqn x m) es x (ground (arith, lookup-insert x.fqn k x m))
  | inr f ↦ onto-keeps k (insert x.fqn x m) es e (ground (arith, lookup-insert x.fqn k x m))
]

onto-finds :
    (k : String) (m : Map Entry) (es : List Entry) (e : Entry)
    → In e es
    → e.fqn ≡ k
    → (e' : Entry) × (lookup k (index_entries_onto m es) ≡ some e')
unfolding index_entries_onto
onto-finds k m [] e i q = elim i [ ]
onto-finds k m (x ∷ es) e (inl here) q =
    onto-keeps k (insert x.fqn x m) es x (ground (arith, lookup-insert x.fqn k x m, eq_iff x.fqn k))
onto-finds k m (x ∷ es) e (inr there) q = onto-finds k (insert x.fqn x m) es e there q

pub In-lookup :
    (es : List Entry) (e : Entry)
    → In e es
    → (e' : Entry) × (lookup e.fqn (index_entries es) ≡ some e')
unfolding index_entries
In-lookup es e i = onto-finds e.fqn [] es e i refl

-- The same for the desired resources, of which only the presence is asked.
has-onto :
    (k : String) (m : Map Resource) (rs : List Resource)
    → has k (index_resources_onto m rs) ≡ true
    → (has k m ≡ true) ⊎ ((r : Resource) × In r rs × (r.fqn ≡ k))
unfolding index_resources_onto has
has-onto k m [] h = inl h
has-onto k m (x ∷ rs) h = elim (has-onto k (insert x.fqn x m) rs h) [
  | inr (r, i, q) ↦ inr (r, inr i, q)
  | inl l ↦ elim (Bool-cases (x.fqn == k)) [
    | inl t ↦ inr (x, inl refl, (eq_iff x.fqn k).0 t)
    | inr f ↦ inl (ground (arith, lookup-insert x.fqn k x m))
  ]
]

pub has-In :
    (k : String) (rs : List Resource)
    → has k (index_resources rs) ≡ true
    → (r : Resource) × In r rs × (r.fqn ≡ k)
unfolding index_resources has lookup
has-In k rs h = elim (has-onto k [] rs h) [ inl l ↦ cc | inr r ↦ r ]

onto-has :
    (k : String) (m : Map Resource) (rs : List Resource)
    → has k m ≡ true
    → has k (index_resources_onto m rs) ≡ true
unfolding index_resources_onto has
onto-has k m [] h = h
onto-has k m (x ∷ rs) h =
    onto-has k (insert x.fqn x m) rs (ground (arith, lookup-insert x.fqn k x m))

onto-has_of_In :
    (m : Map Resource) (rs : List Resource) (r : Resource)
    → In r rs
    → has r.fqn (index_resources_onto m rs) ≡ true
unfolding index_resources_onto has
onto-has_of_In m [] r i = elim i [ ]
onto-has_of_In m (x ∷ rs) r (inl here) =
    onto-has r.fqn (insert x.fqn x m) rs
      (ground (arith, lookup-insert x.fqn r.fqn x m, eq_iff x.fqn r.fqn))
onto-has_of_In m (x ∷ rs) r (inr there) = onto-has_of_In (insert x.fqn x m) rs r there

pub In-has : (rs : List Resource) (r : Resource) → In r rs → has r.fqn (index_resources rs) ≡ true
unfolding index_resources
In-has rs r i = onto-has_of_In [] rs r i

onto-Unique : (m : Map Entry) (es : List Entry) → Unique m → Unique (index_entries_onto m es)
unfolding index_entries_onto
onto-Unique m [] u = u
onto-Unique m (e ∷ es) u = onto-Unique (insert e.fqn e m) es (insert-Unique e.fqn e m u)

pub index_entries-Unique : (es : List Entry) → Unique (index_entries es)
unfolding index_entries
index_entries-Unique es = onto-Unique [] es tt
