-- ===== src/Tools/Answers.antt =====
-- The results of concurrent calls stand in the order of the calls, under their ids.
use agentspec.Base.{
  ℕ, zero, suc, ◌<◌, String, List, [], ◌∷◌, map, Option, none, some, ◌≡◌, refl, inl, inr, ◌⊎◌,
  arith, In, length, get_elem?, ◌∙◌, sym,
}
use agentspec.State.{Result, ok, err}
use agentspec.Llm.{ToolCall, ToolResult}
use agentspec.Tools.{
  Registry, set_at, zero_result, result_of, execute, run_call, run_calls, execute_concurrent,
}

-- The result at a place answers the call there.
Answered : List ToolCall → List ToolResult → ℕ → Type 0
Answered calls results i =
    (tc : ToolCall)
    → get_elem? calls i ≡ some tc
    → (r : ToolResult) × (get_elem? results i ≡ some r) × (r.tool_use_id ≡ tc.id)

length-set_at : {A : Type 0} (i : ℕ) (a : A) (xs : List A) → length (set_at i a xs) ≡ length xs
unfolding set_at
length-set_at i a [] = refl
length-set_at zero a (x ∷ xs) = refl
length-set_at (suc i) a (x ∷ xs) = omega (arith, length-set_at i a xs)

result_of-id : (tc : ToolCall) (o : Result String) → (result_of tc o).tool_use_id ≡ tc.id
result_of-id tc (ok x) = refl
result_of-id tc (err e) = refl

-- An assignment of an answer keeps what is answered, and answers its place.
set_at-Answered :
    (i j : ℕ) (tc : ToolCall) (a : ToolResult) (calls : List ToolCall) (results : List ToolResult)
    → get_elem? calls i ≡ some tc
    → a.tool_use_id ≡ tc.id
    → length calls ≡ length results
    → (i ≡ j) ⊎ Answered calls results j
    → Answered calls (set_at i a results) j
unfolding set_at Answered
set_at-Answered i j tc a [] results e id len h = λ d g. cc
set_at-Answered i j tc a (c ∷ calls) [] e id len h = absurd (omega (arith, len))
set_at-Answered zero zero tc a (c ∷ calls) (r ∷ results) e id len h = λ d g. (a, refl, cc)
set_at-Answered zero (suc j) tc a (c ∷ calls) (r ∷ results) e id len (inl x) =
    absurd (omega (arith, x))
set_at-Answered zero (suc j) tc a (c ∷ calls) (r ∷ results) e id len (inr h) = h
set_at-Answered (suc i) zero tc a (c ∷ calls) (r ∷ results) e id len (inl x) =
    absurd (omega (arith, x))
set_at-Answered (suc i) zero tc a (c ∷ calls) (r ∷ results) e id len (inr h) = h
set_at-Answered (suc i) (suc j) tc a (c ∷ calls) (r ∷ results) e id len (inl x) =
    set_at-Answered i j tc a calls results e id (omega (arith, len)) (inl (omega (arith, x)))
set_at-Answered (suc i) (suc j) tc a (c ∷ calls) (r ∷ results) e id len (inr h) =
    set_at-Answered i j tc a calls results e id (omega (arith, len)) (inr h)

-- Answers at all places are the ids in order.
all-Answered :
    (calls : List ToolCall) (results : List ToolResult)
    → length calls ≡ length results
    → ((i : ℕ) → Answered calls results i)
    → map (λ (r : ToolResult). r.tool_use_id) results ≡ map (λ (c : ToolCall). c.id) calls
unfolding Answered
all-Answered [] [] len h = refl
all-Answered [] (r ∷ results) len h = absurd (omega (arith, len))
all-Answered (c ∷ calls) [] len h = absurd (omega (arith, len))
all-Answered (c ∷ calls) (r ∷ results) len h =
    let (x, here, id) = h 0 c refl in
    cc (here, id, all-Answered calls results (omega (arith, len)) (λ i. h (suc i)))

get_elem?-cases : (calls : List ToolCall) (j : ℕ) → (j < length calls) ⊎ (get_elem? calls j ≡ none)
get_elem?-cases [] j = inr refl
get_elem?-cases (c ∷ calls) zero = inl (omega arith)
get_elem?-cases (c ∷ calls) (suc j) = elim (get_elem?-cases calls j) [
  | inl h ↦ inl (omega (arith, h))
  | inr e ↦ inr e
]

length-map : (calls : List ToolCall) → length calls ≡ length (map (λ c. zero_result) calls)
length-map [] = refl
length-map (c ∷ calls) = omega (arith, length-map calls)

module _ {S : Type 0} (quote : String → String) (reg : Registry S) where
  run_call-Answered :
      (i j : ℕ) (o : Option ToolCall) (calls : List ToolCall) (results : List ToolResult) (s : S)
      → get_elem? calls i ≡ o
      → length calls ≡ length results
      → (i ≡ j) ⊎ Answered calls results j
      → Answered calls (run_call quote reg i o results s).0 j
  unfolding run_call Answered
  run_call-Answered i j none calls results s e len (inl x) = λ tc g. cc (e, x, g)
  run_call-Answered i j none calls results s e len (inr h) = h
  run_call-Answered i j (some tc) calls results s e len h =
      set_at-Answered i j tc (result_of tc (execute quote reg tc s).0) calls results e
        (result_of-id tc (execute quote reg tc s).0) len h

  length-run_call :
      (i : ℕ) (o : Option ToolCall) (results : List ToolResult) (s : S)
      → length (run_call quote reg i o results s).0 ≡ length results
  unfolding run_call
  length-run_call i none results s = refl
  length-run_call i (some tc) results s = length-set_at i _ results

  length-run_calls :
      (order : List ℕ) (calls : List ToolCall) (results : List ToolResult) (s : S)
      → length (run_calls quote reg order calls results s).0 ≡ length results
  unfolding run_calls
  length-run_calls [] calls results s = refl
  length-run_calls (i ∷ order) calls results s =
      length-run_calls order calls _ _ ∙ length-run_call i (get_elem? calls i) results s

  run_calls-Answered :
      (order : List ℕ) (j : ℕ) (calls : List ToolCall) (results : List ToolResult) (s : S)
      → length calls ≡ length results
      → In j order ⊎ Answered calls results j
      → Answered calls (run_calls quote reg order calls results s).0 j
  unfolding run_calls
  run_calls-Answered [] j calls results s len (inl i) = elim i [ ]
  run_calls-Answered [] j calls results s len (inr h) = h
  run_calls-Answered (i ∷ order) j calls results s len h =
      let next = run_call quote reg i (get_elem? calls i) results s in
      let step = run_call-Answered i j (get_elem? calls i) calls results s refl len in
      run_calls-Answered order j calls next.0 next.1
        (len ∙ sym (length-run_call i (get_elem? calls i) results s))
        (elim h [
          | inl (inl now) ↦ inr (step (inl now))
          | inl (inr later) ↦ inl later
          | inr done ↦ inr (step (inr done))
        ])

  place-cases :
      (order : List ℕ) (calls : List ToolCall) (results : List ToolResult) (j : ℕ)
      → ((i : ℕ) → i < length calls → In i order)
      → In j order ⊎ Answered calls results j
  unfolding Answered
  place-cases order calls results j every = elim (get_elem?-cases calls j) [
    | inl below ↦ inl (every j below)
    | inr out ↦ inr (λ tc g. cc (out, g))
  ]

  -- In whatever order the goroutines of the calls are done, once all are done the results stand in the
  -- order of the calls, each with the id of its call.
  pub execute_concurrent-ids :
      (order : List ℕ) (calls : List ToolCall) (s : S)
      → ((i : ℕ) → i < length calls → In i order)
      → map (λ (r : ToolResult). r.tool_use_id) (execute_concurrent quote reg order calls s).0
        ≡ map (λ (c : ToolCall). c.id) calls
  unfolding execute_concurrent
  execute_concurrent-ids order calls s every =
      let blank = map (λ c. zero_result) calls in
      all-Answered calls _ (length-map calls ∙ sym (length-run_calls order calls blank s)) (λ j.
        (run_calls-Answered order j calls blank s (length-map calls)
          (place-cases order calls blank j every)))
