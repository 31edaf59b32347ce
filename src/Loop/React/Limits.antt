-- ===== src/Loop/React/Limits.antt =====
-- The limits of a run: its turns and its tokens.
use agentspec.Base.{
  ℕ, zero, suc, ◌+◌, ◌-◌, ◌≤◌, String, List, [], ◌∷◌, Option, none, some, Bool, true, false, not,
  ◌&&◌, ◌||◌, if◌then◌else◌, or_else, ◌≡◌, refl, ◌⊎◌, inl, inr, arith, In, Bool-cases, eqb, subst,
  sym, ltb, ◌∙◌, ap,
}
use agentspec.State.{Result, ok, err}
use agentspec.Llm.{ToolResult, StreamEvent, ChatRequest, ChatResponse, Client, total, TokenUsage}
use agentspec.Llm.Tokens.{TokenTracker, add_usage, check_budget}
use agentspec.Loop.{
  ToolCallRecord, Invocation, ToolExecutor, Ended, response, failed, panicked, Run,
}
use agentspec.Loop.React.{
  Turn, read_events, emit, ask, opened, streamed, answered, max_turns, max_tokens, respond,
  take_results, observe, after_reply, turns_from, execute, no_calls, is_tool_use,
}

emit-ok :
    (e : StreamEvent) (error : Option String)
    (rest : Result (Option ChatResponse) × List StreamEvent) (o : Option ChatResponse)
    → (emit e error rest).0 ≡ ok o
    → rest.0 ≡ ok o
emit-ok e none (reply, later) o h = h
emit-ok e (some x) rest o h = cc

or_else_cases :
    (a b : Option ChatResponse) (r : ChatResponse)
    → or_else a b ≡ some r
    → (a ≡ some r) ⊎ (b ≡ some r)
or_else_cases none b r h = inr h
or_else_cases (some x) b r h = inl h

read_events-In :
    (P : ChatResponse → Type 0) (es : List StreamEvent) (start : Option ChatResponse)
    (resp : ChatResponse)
    → ((r : ChatResponse) → start ≡ some r → P r)
    → ((e : StreamEvent) → In e es → (r : ChatResponse) → e.response ≡ some r → P r)
    → (read_events es start).0 ≡ ok (some resp)
    → P resp
unfolding read_events
read_events-In P [] start resp h each e = h resp (cc e)
read_events-In P (e ∷ es) start resp h each eq =
    read_events-In P es (or_else e.response start) resp
      (λ r o. elim (or_else_cases e.response start r o) [
        | inl new ↦ each e (inl refl) r new
        | inr old ↦ h r old
      ])
      (λ e i. each e (inr i)) (emit-ok e e.error (read_events es (or_else e.response start)) _ eq)

check_cases :
    (b used more : ℕ)
    → (if eqb b 0 then true else if ltb b (used + more) then false else true) ≡ true
    → (b ≡ 0) ⊎ (used + more ≤ b)
check_cases b used more h = elim (Bool-cases (eqb b 0)) [
  | inl t ↦ inl (ground arith)
  | inr f ↦ inr (ground arith)
]

module _ {S : Type 0} (show : ℕ → String) (inv : Invocation) (client : Client S)
    (tools : ToolExecutor S) (listening : Bool) (cap : ℕ)
    (chat_cap : (s after : S) (req : ChatRequest) (resp : ChatResponse)
      → client.chat s req ≡ (ok resp, after)
      → total resp.usage ≤ cap)
    (stream_cap : (s after : S) (req : ChatRequest) (es : List StreamEvent)
      → client.chat_stream s req ≡ (ok es, after)
      → (e : StreamEvent) → In e es
      → (resp : ChatResponse) → e.response ≡ some resp
      → total resp.usage ≤ cap) where
  Capped : Result ChatResponse → Type 0
  Capped (ok resp) = total resp.usage ≤ cap
  Capped (err e) = Unit

  streamed-Capped :
      (n : ℕ) (r : Result (Option ChatResponse)) (events : List StreamEvent) (s : S)
      → ((resp : ChatResponse) → r ≡ ok (some resp) → total resp.usage ≤ cap)
      → Capped (streamed show inv client tools listening n (r, events) s).reply
  unfolding streamed Capped
  streamed-Capped n (err e) events s h = tt
  streamed-Capped n (ok none) events s h = tt
  streamed-Capped n (ok (some resp)) events s h = h resp refl

  opened-Capped :
      (n : ℕ) (s : S) (req : ChatRequest) (r : Result (List StreamEvent)) (after : S)
      → client.chat_stream s req ≡ (r, after)
      → Capped (opened show inv client tools listening n (r, after)).reply
  unfolding opened Capped
  opened-Capped n s req (err e) after h = tt
  opened-Capped n s req (ok es) after h = streamed-Capped n _ _ after (λ resp e.
      read_events-In (λ r. total r.usage ≤ cap) es none resp (λ r e. cc)
        (stream_cap s after req es h) e)

  answered-Capped :
      (n : ℕ) (s : S) (req : ChatRequest) (r : Result ChatResponse) (after : S)
      → client.chat s req ≡ (r, after)
      → Capped (answered show inv client tools listening n (r, after)).reply
  unfolding answered Capped
  answered-Capped n s req (err e) after h = tt
  answered-Capped n s req (ok resp) after h = chat_cap s after req resp h

  ask-Capped :
      (n : ℕ) (req : ChatRequest) (s : S)
      → Capped (ask show inv client tools listening n req s).reply
  unfolding ask
  ask-Capped n req s = elim (Bool-cases (inv.stream && listening)) [
    | inl t ↦
        rw t (opened-Capped n s req (client.chat_stream s req).0 (client.chat_stream s req).1 refl)
    | inr f ↦ rw f (answered-Capped n s req (client.chat s req).0 (client.chat s req).1 refl)
  ]

  abbrev turn_limit : ℕ
  turn_limit = max_turns show inv client tools listening

  abbrev token_limit : ℕ
  token_limit = max_tokens show inv client tools listening

  -- A budget of 0 is unlimited.
  abbrev Affordable : ℕ → Type 0
  Affordable used = (inv.token_budget ≡ 0) ⊎ (used ≤ inv.token_budget + cap - token_limit)

  -- What the loop keeps while some turns are left.
  record Fits (left : ℕ) (t : Turn S) : Type 0 where
    few : t.turns + left ≤ turn_limit
    same : t.tracker.budget ≡ inv.token_budget
    cheap : Affordable (total t.tracker.used)

  abbrev pub Within : Ended → Type 0
  Within (response r) = (r.turns ≤ turn_limit) × Affordable (total r.tokens)
  Within (failed e) = Unit
  Within panicked = Unit

  stop-Within :
      (error : String) (left : ℕ) (t : Turn S)
      → Fits left t
      → Within (respond show inv client tools listening error t).ended
  stop-Within error left t fits = (let h = fits.few in omega (arith, h), fits.cheap)

  take_results-Within :
      (again : Turn S → Run S) (left : ℕ) (resp : ChatResponse) (results : List ToolResult) (s : S)
      (t : Turn S) (records : Option (List ToolCallRecord))
      → ((t : Turn S) → Fits left t → Within (again t).ended)
      → Fits left t
      → Within (take_results show inv client tools listening again resp results s t records).ended
  unfolding take_results
  take_results-Within again left resp results s t none ih fits = tt
  take_results-Within again left resp results s t (some records) ih fits =
      ih _ (record { few = fits.few; same = fits.same; cheap = fits.cheap })

  observe-Within :
      (again : Turn S → Run S) (left : ℕ) (resp : ChatResponse) (t : Turn S)
      → ((t : Turn S) → Fits left t → Within (again t).ended)
      → Fits left t
      → Within (observe show inv client tools listening again resp t).ended
  unfolding observe
  observe-Within again left resp t ih fits =
      elim (Bool-cases (no_calls resp.tool_calls || not (is_tool_use resp.stop_reason))) [
        | inl done ↦ rw done (stop-Within "" left t fits)
        | inr go ↦ rw go (take_results-Within again left resp _ _ t _ ih fits)
      ]

  check-Affordable :
      (left : ℕ) (t : Turn S) (usage : TokenUsage)
      → Fits (suc left) t
      → check_budget token_limit t.tracker ≡ true
      → total usage ≤ cap
      → Affordable (total (add_usage usage t.tracker).used)
  unfolding check_budget add_usage
  check-Affordable left t usage fits checked h =
      elim (check_cases t.tracker.budget (total t.tracker.used) token_limit checked) [
        | inl free ↦ inl (sym fits.same ∙ free)
        | inr fits_budget ↦ inr (let same = fits.same in omega (arith, same, fits_budget, h))
      ]

  after_reply-Within :
      (again : Turn S → Run S) (left : ℕ) (before t : Turn S) (r : Result ChatResponse)
      → ((t : Turn S) → Fits left t → Within (again t).ended)
      → Fits (suc left) before
      → check_budget token_limit before.tracker ≡ true
      → t.turns ≡ before.turns + 1
      → t.tracker ≡ before.tracker
      → Capped r
      → Within (after_reply show inv client tools listening again t r).ended
  unfolding after_reply Capped add_usage
  after_reply-Within again left before t (err e) ih fits checked n same c = tt
  after_reply-Within again left before t (ok resp) ih fits checked n same c =
      observe-Within again left resp _ ih (record {
        few = let h = fits.few in omega (arith, h, n);
        same = ap (λ (tr : TokenTracker). tr.budget) same ∙ fits.same;
        cheap =
            subst (λ tr. Affordable (total (add_usage resp.usage tr).used)) (sym same)
              (check-Affordable left before resp.usage fits checked c);
      })

  turns_from-Within :
      (left : ℕ) (t : Turn S)
      → Fits left t
      → Within (turns_from show inv client tools listening left t).ended
  unfolding turns_from
  turns_from-Within zero t fits = stop-Within "" zero t fits
  turns_from-Within (suc left) t fits = elim (Bool-cases (check_budget token_limit t.tracker)) [
    | inl checked ↦ rw checked (
        after_reply-Within (turns_from show inv client tools listening left) left t _ _
          (turns_from-Within left) fits checked refl refl (ask-Capped (t.turns + 1) _ t.world))
    | inr over ↦ rw over (let h = fits.few in omega (arith, h), fits.cheap)
  ]

  -- A run takes at most its number of turns. If no reply of the client reports more than `cap` tokens, the
  -- tokens that it reports in all are at most `cap` above what a limited budget leaves for one request.
  pub execute-Within : (s : S) → Within (execute show inv client tools listening s).ended
  unfolding execute
  execute-Within s =
      turns_from-Within turn_limit _
        (record { few = omega arith; same = refl; cheap = inr (omega arith) })
