-- ===== src/Pipeline/Dag/Left.antt =====
-- The layers of an order read from the front.
use agentspec.Base.{String, List, [], ◌∷◌, ◌++◌, ◌⊎◌, inl, inr, In, In-append_cases}
use agentspec.Pipeline.Dag.Edges.{Edge}
use agentspec.Pipeline.Dag.Loop.{Layered, flat}

-- The layers left, when some steps are done: each dependency is done or stands in an earlier layer.
unfoldable pub Left : List Edge → (String → Type 0) → List (List String) → Type 0
Left es Done [] = Unit
Left es Done (l ∷ ls) =
    ((d k : String) → In k l → In (d, k) es → Done d) × Left es (λ x. In x l ⊎ Done x) ls

Left-snoc :
    (es : List Edge) (Done : String → Type 0) (ls : List (List String)) (l : List String)
    → Left es Done ls
    → ((d k : String) → In k l → In (d, k) es → In d (flat ls) ⊎ Done d)
    → Left es Done (ls ++ l ∷ [])
unfolding Left
Left-snoc es Done [] l f h = (λ d k i e. elim (h d k i e) [ inl x ↦ elim x [ ] | inr y ↦ y ], tt)
Left-snoc es Done (m ∷ ls) l (here, f) h = (
  here,
  Left-snoc es (λ x. In x m ⊎ Done x) ls l f
      (λ d k i e. elim (h d k i e) [
        | inl j ↦ elim (In-append_cases d m (flat ls) j) [ inl a ↦ inr (inl a) | inr b ↦ inl b ]
        | inr y ↦ inr (inr y)
      ]),
)

pub Layered-Left : (es : List Edge) (ls : List (List String)) → Layered es ls → Left es (λ x. ⊥) ls
unfolding Left
Layered-Left es _ Layered.start = tt
Layered-Left es _ (Layered.next ls l before h) =
    Left-snoc es (λ x. ⊥) ls l (Layered-Left es ls before) (λ d k i e. inl (h d k i e))

pub Left-mono :
    (es : List Edge) (A B : String → Type 0) (ls : List (List String))
    → ((k : String) → A k → B k)
    → Left es A ls
    → Left es B ls
unfolding Left
Left-mono es A B [] h f = tt
Left-mono es A B (l ∷ ls) h (here, f) = (
  λ d k i e. h d (here d k i e),
  Left-mono es (λ x. In x l ⊎ A x) (λ x. In x l ⊎ B x) ls
      (λ x b. elim b [ inl e ↦ inl e | inr c ↦ inr (h x c) ]) f,
)
