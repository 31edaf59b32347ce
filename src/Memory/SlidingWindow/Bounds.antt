-- ===== src/Memory/SlidingWindow/Bounds.antt =====
-- What a save keeps, and the bounds that it restores.
use agentspec.Base.{
  refl, ℕ, suc, zero, ◌<◌, ◌≤◌, ◌-◌, String, List, [], ◌∷◌, ◌++◌, arith, eq_iff, eq_refl, ap,
  length, length-drop, false, Bool-cases, inl, inr, ◌==◌, some, ltb, ◌≢◌, ◌≡◌, sym, ◌∙◌,
  if◌then◌else◌, take, take-drop,
}
use agentspec.Base.Count.{count, Distinct}
use agentspec.Base.Maps.{lookup, insert, erase, lookup-insert, lookup-erase}
use agentspec.Memory.Lru.{promote, evict, len, split_back}
use agentspec.Memory.Lru.Order.{promote-front, length-split_back, count-split_back, evict-cons}
use agentspec.Memory.SlidingWindow.{SlidingWindow, evict_sessions, save, window, messages_of}

module _ (Message : Type 0) (id : String) (kept : List Message) where
  -- The session just saved stands first, once, and has its messages; no session has an empty name.
  pub record Saved (s : SlidingWindow Message) : Type 0 where
    pub rest : List String
    pub first : s.lru.order ≡ id ∷ rest
    pub once : count id rest ≡ 0
    pub named : count "" s.lru.order ≡ 0
    pub held : lookup id s.sessions ≡ some kept

  abbrev evicted : SlidingWindow Message → SlidingWindow Message
  evicted s = record s { lru = (evict s.lru).1; sessions = erase (evict s.lru).0 s.sessions }

  evict-Saved :
      (s : SlidingWindow Message) (y : String) (ys : List String)
      → s.lru.order ≡ id ∷ y ∷ ys
      → count id (y ∷ ys) ≡ 0
      → count "" s.lru.order ≡ 0
      → lookup id s.sessions ≡ some kept
      → Saved (evicted s) × ((evict s.lru).0 ≢ "") × (len s.lru ≡ suc (len (evict s.lru).1))
  unfolding count
  evict-Saved s y ys e once named held =
      let (v, o) = evict-cons s.lru id y ys e in
      let same = count-split_back id y ys in
      let empty = ap (count "") (sym e) ∙ named in
      let none_empty = count-split_back "" y ys in
      (
        record {
          rest = (split_back y ys).0;
          first = o;
          once = ground (arith, same, once);
          named = ap (count "") o ∙ ground (arith, empty, none_empty);
          held = ground (
            arith,
            lookup-erase (evict s.lru).0 id s.sessions,
            held,
            v,
            same,
            once,
            eq_iff (evict s.lru).0 id,
            eq_iff (split_back y ys).1 id,
          );
        },
        λ q. absurd (ground (arith, empty, none_empty, q, v, eq_iff (split_back y ys).1 "")),
        omega (arith, ap length e, ap length o, length-split_back y ys),
      )

  tail_same : {x : String} {xs ys : List String} → x ∷ xs ≡ x ∷ ys → xs ≡ ys
  tail_same e = cc

  named_test : {x : String} → x ≢ "" → (x == "") ≡ false
  named_test {x} ne = ground (arith, eq_iff x "", ne)

  -- The loop, with enough fuel.
  evict_sessions-Saved :
      (fuel : ℕ) (s : SlidingWindow Message) (rest : List String)
      → s.lru.order ≡ id ∷ rest
      → Saved s
      → 0 < s.max_sessions
      → len s.lru ≤ fuel
      → Saved (evict_sessions Message fuel s)
        × (len (evict_sessions Message fuel s).lru ≤ s.max_sessions)
  unfolding evict_sessions
  evict_sessions-Saved zero s rest e v most enough = absurd (omega (arith, ap length e, enough))
  evict_sessions-Saved (suc fuel) s [] e v most enough =
      elim (Bool-cases (ltb s.max_sessions (len s.lru))) [
        | inl t ↦ absurd (ground (arith, t, most, ap length e))
        | inr f ↦ rw f (v, ground (arith, f))
      ]
  evict_sessions-Saved (suc fuel) s (y ∷ ys) e v most enough =
      elim (Bool-cases (ltb s.max_sessions (len s.lru))) [
        | inl t ↦
            let (w, ne, l) =
              evict-Saved s y ys e (ap (count id) (tail_same (sym e ∙ v.first)) ∙ v.once) v.named
                v.held in
            rw (t, named_test ne)
              (evict_sessions-Saved fuel (evicted s) w.rest w.first w most
                (omega (arith, l, enough)))
        | inr f ↦ rw f (v, ground (arith, f))
      ]

-- The window is the end of the messages, as many of them as it holds.
window_lem :
    {Message : Type 0} (n : ℕ) (ms : List Message)
    → (dropped : List Message) × (ms ≡ dropped ++ window Message n ms)
      × (length (window Message n ms) ≡ (if ltb n (length ms) then n else length ms))
unfolding window
window_lem n ms = elim (Bool-cases (ltb n (length ms))) [
  | inl t ↦ rw t (
    take (length ms - n) ms,
    sym (take-drop (length ms - n) ms),
    ground (arith, length-drop (length ms - n) ms, t),
  )
  | inr f ↦ rw f ([], refl, refl)
]

-- `Save` to a session with a name, with no nameless or repeated session in the tracker and room for one
-- session at least: the session is the most recent one, and no more sessions are tracked than the
-- limit. Its messages are the end of the old ones followed by the new ones: all of these if the window
-- holds as many, and else as many as the window holds.
pub save-Saved :
    (Message : Type 0) (id : String) (messages : List Message) (s : SlidingWindow Message)
    → id ≢ ""
    → Distinct s.lru.order
    → count "" s.lru.order ≡ 0
    → 0 < s.max_sessions
    → let all = messages_of Message (lookup id s.sessions) ++ messages in
      (dropped : List Message) × (kept : List Message) × (all ≡ dropped ++ kept)
      × (length kept ≡ (if ltb s.max_messages (length all) then s.max_messages else length all))
      × Saved Message id kept (save Message id messages s)
      × (len (save Message id messages s).lru ≤ s.max_sessions)
unfolding save count
save-Saved Message id messages s ne distinct named most =
    let kept =
      window Message s.max_messages (messages_of Message (lookup id s.sessions) ++ messages) in
    let promoted = record s { sessions = insert id kept s.sessions; lru = promote id s.lru } in
    let (rest, front, others) = promote-front id s.lru distinct in
    let (v, bound) =
      evict_sessions-Saved Message id kept (len promoted.lru) promoted rest front
        (record {
          rest = rest;
          first = front;
          once = ground (arith, others id, eq_refl id);
          named =
              ap (count "") front
              ∙ ground (arith, others "", named, eq_iff id "", eq_iff "" id, ne);
          held = ground (arith, lookup-insert id id kept s.sessions, eq_refl id);
        })
        most (omega arith) in
    let (dropped, e, l) =
      window_lem s.max_messages (messages_of Message (lookup id s.sessions) ++ messages) in
    (dropped, kept, e, l, v, bound)
