-- ===== src/Llm/Fallback/First.antt =====
-- The reply of the chain is the reply of the first client that succeeds, or the errors of all.
use agentspec.Base.{
  ℕ, ◌+◌, ◌-◌, String, str_append, List, [], ◌∷◌, ◌++◌, ◌≡◌, refl, ap, ◌∙◌, ◌⊎◌, inl, inr, arith,
  length, length-append, ◌≢◌,
}
use mathlib.Core.List.{append_assoc, append-nil}
use agentspec.State.{Result, ok, err}
use agentspec.Llm.{ChatRequest, Client}
use agentspec.Llm.Fallback.{
  Switch, Tried, join_failures, model_name, after_call, reported, try_clients, chat,
}

module _ {A S : Type 0} (call : Client S → S → ChatRequest → Result A × S) (index_name : ℕ → String)
    (models : List String) (req : ChatRequest) where
  -- Each client in turn fails, with these errors, and leaves the state `s'`.
  abbrev pub Failed : List (Client S) → S → List String → S → Type 0
  Failed [] s errs s' = (errs ≡ []) × (s ≡ s')
  Failed (c ∷ cs) s errs s' =
      (e : String) × (rest : List String) × (between : S) × (call c s req ≡ (err e, between))
      × (errs ≡ e ∷ rest)
      × Failed cs between rest s'

  -- The errors with the clients' names.
  abbrev pub named : ℕ → List String → List String
  named i [] = []
  named i (e ∷ es) =
      str_append (model_name index_name models i) (str_append ": " e) ∷ named (i + 1) es

  -- After the first clients have failed the next one succeeds.
  abbrev pub Succeeds : List (Client S) → S → Tried A S → ℕ → Type 0
  Succeeds clients s t before =
      (first rest : List (Client S)) × (c : Client S) × (errs : List String) × (between : S)
      × (a : A) × (clients ≡ first ++ c ∷ rest)
      × Failed first s errs between
      × (call c between req ≡ (ok a, t.state))
      × (t.reply ≡ ok a)
      × (length t.switches ≡ before + length first)

  -- All clients have failed.
  abbrev pub FailsAll : List (Client S) → S → Tried A S → ℕ → List String → ℕ → Type 0
  FailsAll clients s t i errs before =
      (new : List String) × Failed clients s new t.state
      × (t.reply
          ≡ err (str_append "all LLM clients failed: " (join_failures (errs ++ named i new))))
      × (length t.switches ≡ before + (length clients - 1))

  nil_split :
      (first : List (Client S)) (c : Client S) (rest : List (Client S)) → [] ≢ first ++ c ∷ rest
  nil_split [] c rest e = cc
  nil_split (d ∷ first) c rest e = cc

  after_call-Outcome :
      (c : Client S) (cs : List (Client S)) (s : S) (i : ℕ) (errs : List String)
      (switches : List Switch) (r : Result A × S) (next : String → S → Tried A S)
      → call c s req ≡ r
      → ((e : String) (s' : S)
          → Succeeds cs s' (next e s') (length (reported call index_name models req cs i switches))
            ⊎ FailsAll cs s'
                (next e s')
                (i + 1)
                (errs ++ str_append (model_name index_name models i) (str_append ": " e) ∷ [])
                (length (reported call index_name models req cs i switches)))
      → Succeeds (c ∷ cs) s (after_call switches r next) (length switches)
        ⊎ FailsAll (c ∷ cs) s (after_call switches r next) i errs (length switches)
  unfolding reported
  after_call-Outcome c cs s i errs switches (ok a, s') next e ih =
      inl ([], cs, c, [], s, a, refl, (refl, refl), e, refl, omega arith)
  after_call-Outcome c [] s i errs switches (err x, s') next e ih =
      let label = str_append (model_name index_name models i) (str_append ": " x) in
      let switch : Switch = record {
        from_model = model_name index_name models i;
        to_model = model_name index_name models (i + 1);
      } in
      let message : List String → Result A =
        λ l. err (str_append "all LLM clients failed: " (join_failures l)) in
      elim (ih x s') [
        | inl (first, rest, d, new, between, a, split, _, _, _, _) ↦
            absurd (nil_split first d rest split)
        | inr (new, f, reply, few) ↦ inr (
          x ∷ new,
          (x, new, s', e, refl, f),
          reply ∙ ap message (append_assoc errs (label ∷ []) (named (i + 1) new)),
          few,
        )
      ]
  after_call-Outcome c (d ∷ cs) s i errs switches (err x, s') next e ih =
      let label = str_append (model_name index_name models i) (str_append ": " x) in
      let switch : Switch = record {
        from_model = model_name index_name models i;
        to_model = model_name index_name models (i + 1);
      } in
      let message : List String → Result A =
        λ l. err (str_append "all LLM clients failed: " (join_failures l)) in
      elim (ih x s') [
        | inl (first, rest, c', new, between, a, split, failed, good, reply, count) ↦ inl (
          c ∷ first,
          rest,
          c',
          x ∷ new,
          between,
          a,
          ap (λ l. c ∷ l) split,
          (x, new, s', e, refl, failed),
          good,
          reply,
          omega (arith, count, length-append switches (switch ∷ [])),
        )
        | inr (new, f, reply, few) ↦ inr (
          x ∷ new,
          (x, new, s', e, refl, f),
          reply ∙ ap message (append_assoc errs (label ∷ []) (named (i + 1) new)),
          omega (arith, few, length-append switches (switch ∷ [])),
        )
      ]

  try_clients-Outcome :
      (clients : List (Client S)) (i : ℕ) (errs : List String) (switches : List Switch) (s : S)
      → let t = try_clients call index_name models req clients i errs switches s in
        Succeeds clients s t (length switches) ⊎ FailsAll clients s t i errs (length switches)
  unfolding try_clients
  try_clients-Outcome [] i errs switches s =
      inr ([], (refl, refl), cc (append-nil errs), omega arith)
  try_clients-Outcome (c ∷ cs) i errs switches s =
      after_call-Outcome c cs s i errs switches (call c s req) _ refl
        (λ e s'. try_clients-Outcome cs (i + 1) _ _ s')

-- A chat is answered by the first client that succeeds, after the failures of those before it, each
-- asked once; one fallback is reported for each of these. If all clients fail, the error lists the
-- failures of all, in order, under the models' names, and a fallback is reported for all but the last.
pub chat-Outcome :
    {S : Type 0} (index_name : ℕ → String) (clients : List (Client S)) (models : List String)
    (s : S) (req : ChatRequest)
    → Succeeds
        (λ c. c.chat)
        index_name
        models
        req
        clients
        s
        (chat index_name clients models s req)
        0
      ⊎ FailsAll
          (λ c. c.chat)
          index_name
          models
          req
          clients
          s
          (chat index_name clients models s req)
          0
          []
          0
unfolding chat
chat-Outcome index_name clients models s req =
    try_clients-Outcome (λ c. c.chat) index_name models req clients 0 [] [] s
