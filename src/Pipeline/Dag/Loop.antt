-- ===== src/Pipeline/Dag/Loop.antt =====
-- The loop over the layers: enough fuel, and the order that it gives.
use agentspec.Base.{
  ℕ, suc, zero, ◌+◌, ◌≤◌, String, List, [], ◌∷◌, ◌++◌, arith, In, refl, ◌≡◌, ap, some,
  length-append, length, Option, In-append_right, subst, ◌∙◌, sym,
}
use agentspec.Base.Count.{
  count-append, Distinct, count-In, In-count, count-Permᴰ, length-Permᴰ, Distinct-length,
}
use agentspec.Base.Maps.{Map}
use agentspec.Base.Sort.{sort_by-perm}
use agentspec.Pipeline.Dag.{process_layer, sort_strings, layers_loop}
use agentspec.Pipeline.Dag.Edges.{released-append, value, released, Edge, Counts, into, released-In}
use agentspec.Pipeline.Dag.Rounds.{Seen, process_layer-Seen}
use mathlib.Core.List.{append_assoc, append-nil, Permᴰ}

abbrev pub flat : List (List String) → List String
flat [] = []
flat (l ∷ ls) = l ++ flat ls

flat-snoc : (ls : List (List String)) (l : List String) → flat (ls ++ l ∷ []) ≡ flat ls ++ l
flat-snoc [] l = append-nil l
flat-snoc (x ∷ xs) l = ap (x ++◌) (flat-snoc xs l) ∙ sym (append_assoc x (flat xs) l)

-- Every dependency of a step stands in an earlier layer.
pub data Layered (es : List Edge) : List (List String) → Type 0 where
  start : Layered es []
  next :
      (layers : List (List String)) (layer : List String)
      → Layered es layers
      → ((d k : String) → In k layer → In (d, k) es → In d (flat layers))
      → Layered es (layers ++ layer ∷ [])

sorted-Permᴰ : (qs : List String) → Permᴰ (sort_strings qs) qs
unfolding sort_strings
sorted-Permᴰ qs = sort_by-perm (λ s. s) qs

module _ (names : List String) (es : List Edge) (adjacency : Map (List String))
    (start_counts : Map ℕ) (counts : Counts adjacency start_counts es) where
  -- Before a round: the layers so far and the queue.
  pub record Round (layers : List (List String)) (queue : List String) (m : Map ℕ) (processed : ℕ)
      : Type 0 where
    pub layered : Layered es layers
    pub seen : Seen names (flat layers ++ queue) m
    pub budget : (k : String) → into k es ≤ value k m + released adjacency k (flat layers)
    pub processed_all : processed ≡ length (flat layers)

  -- The queue sorted.
  Seen-sorted :
      (ps qs : List String) (m : Map ℕ)
      → Seen names (ps ++ qs) m
      → Seen names (ps ++ sort_strings qs) m
  Seen-sorted ps qs m s = record {
    at_zero = λ k i. s.at_zero k (back k i);
    distinct = λ k. omega (
      arith,
      s.distinct k,
      count-append k ps qs,
      count-append k ps (sort_strings qs),
      count-Permᴰ k (sorted-Permᴰ qs),
    );
    known = λ k i. s.known k (back k i);
    positive = s.positive;
  }
    where
      back : (k : String) → In k (ps ++ sort_strings qs) → In k (ps ++ qs)
      back k i = count-In k (ps ++ qs) (
          omega (
            arith,
            In-count k (ps ++ sort_strings qs) i,
            count-append k ps qs,
            count-append k ps (sort_strings qs),
            count-Permᴰ k (sorted-Permᴰ qs),
          ))

  Distinct-left : (xs ys : List String) → Distinct (xs ++ ys) → Distinct xs
  Distinct-left xs ys d k = omega (arith, d k, count-append k xs ys)

  -- A waiting step's dependencies were all processed.
  waiting-In :
      (layers : List (List String)) (layer : List String) (m : Map ℕ) (processed : ℕ)
      → Round layers layer m processed
      → (d k : String) → In k layer
      → In (d, k) es
      → In d (flat layers)
  waiting-In layers layer m processed r d k i e =
      released-In adjacency start_counts es counts k d (flat layers)
        (Distinct-left (flat layers) layer r.seen.distinct)
        (omega (arith, r.budget k, r.seen.at_zero k (In-append_right k (flat layers) layer i))) e

  step-Round :
      (layers : List (List String)) (layer : List String) (m : Map ℕ) (processed : ℕ)
      → Round layers layer m processed
      → Round
          (layers ++ layer ∷ [])
          (process_layer adjacency layer m []).1
          (process_layer adjacency layer m []).0
          (processed + length layer)
  step-Round layers layer m processed r =
      let (s, b) =
        process_layer-Seen names adjacency layer (flat layers ++ layer) [] m
          (subst (λ l. Seen names l m) (sym (append-nil (flat layers ++ layer))) r.seen) in
      record {
        layered = next layers layer r.layered (waiting-In layers layer m processed r);
        seen =
            subst
              (λ l.
                Seen names (l ++ (process_layer adjacency layer m []).1)
                  (process_layer adjacency layer m []).0)
              (sym (flat-snoc layers layer)) s;
        budget = λ k.
            subst
              (λ l.
                into k es ≤ value k (process_layer adjacency layer m []).0 + released adjacency k l)
              (sym (flat-snoc layers layer))
              (omega (arith, b k, r.budget k, released-append adjacency k (flat layers) layer));
        processed_all = omega (
          arith,
          r.processed_all,
          ap length (flat-snoc layers layer),
          length-append (flat layers) layer,
        );
      }

  sort-Round :
      (layers : List (List String)) (qs : List String) (m : Map ℕ) (processed : ℕ)
      → Round layers qs m processed
      → Round layers (sort_strings qs) m processed
  sort-Round layers qs m processed r = record {
    layered = r.layered;
    seen = Seen-sorted (flat layers) qs m r.seen;
    budget = r.budget;
    processed_all = r.processed_all;
  }

  -- What the loop ends with.
  abbrev pub Ends : Option (List (List String) × ℕ) → Type 0
  Ends o =
      (layers : List (List String)) × (m : Map ℕ) × (processed : ℕ) × (o ≡ some (layers, processed))
      × Round layers [] m processed

  pub layers_loop-Ends :
      (fuel : ℕ) (queue : List String) (m : Map ℕ) (layers : List (List String)) (processed : ℕ)
      → Round layers queue m processed
      → length names ≤ fuel + processed
      → Ends (layers_loop fuel adjacency queue m layers processed)
  unfolding layers_loop
  layers_loop-Ends fuel [] m layers processed r enough = (layers, m, processed, refl, r)
  layers_loop-Ends zero (q ∷ qs) m layers processed r enough = absurd (
      omega (
        arith,
        enough,
        r.processed_all,
        length-append (flat layers) (q ∷ qs),
        Distinct-length (flat layers ++ q ∷ qs) names r.seen.distinct r.seen.known,
      ))
  layers_loop-Ends (suc fuel) (q ∷ qs) m layers processed r enough =
      layers_loop-Ends fuel _ _ _ _
        (step-Round layers (sort_strings (q ∷ qs)) m processed
          (sort-Round layers (q ∷ qs) m processed r))
        (omega (arith, enough, length-Permᴰ (sorted-Permᴰ (q ∷ qs))))
