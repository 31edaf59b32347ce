-- ===== src/Session/MemoryStore/Expiry.antt =====
-- No expired session is returned, and a session that is used stays.
use mathlib.Core.List.{append-nil, append_assoc}
use agentspec.Base.{
  ℕ, ◌≤◌, String, List, [], ◌∷◌, ◌++◌, arith, eq_refl, refl, inl, inr, Bool, true, false,
  Bool-cases, if◌then◌else◌, ◌==◌, not, ◌&&◌, some, none, keep, ◌||◌, ◌≡◌, sym, ◌+◌, Option,
  cons_if, ◌∙◌, eqb, leb,
}
use agentspec.Base.Maps.{Map, lookup, lookup-insert, values}
use agentspec.Session.MemoryStore.{
  Session, MemoryStore, expired, scan, list, get, get_found, touch, touch_found, found,
}

abbrev pub wanted : String → Session → Bool
wanted agent sess = agent == "" || (sess.agent_name == agent)

-- A session that has not been idle for longer than the expiry, if there is one.
unfoldable pub live : ℕ → ℕ → Session → Bool
live expiry now s = eqb expiry 0 || leb now (s.last_active + expiry)

expired-live : (expiry now : ℕ) (s : Session) → expired expiry now s ≡ not (live expiry now s)
unfolding expired live
expired-live expiry now s = ground arith

-- The live sessions of an agent, in their order.
abbrev pub listed : ℕ → ℕ → String → List Session → List Session
listed expiry now agent = keep (λ s. live expiry now s && wanted agent s)

-- A session that neither test lets through is skipped.
matching :
    {A B : Type 0} (a b : Bool) (skip take : List A × B) (x : A) (result xs : List A)
    → skip.0 ≡ result ++ xs
    → take.0 ≡ result ++ x ∷ xs
    → (if not a && not b then skip else take).0 ≡ result ++ cons_if (a || b) x xs
matching true b skip take x result xs s t = t
matching false true skip take x result xs s t = t
matching false false skip take x result xs s t = s

scan-listed :
    (expiry now : ℕ) (agent : String) (m : Map Session) (result : List Session) (ids : List String)
    → (scan expiry now agent m result ids).0 ≡ result ++ listed expiry now agent (values m)
unfolding scan keep
scan-listed expiry now agent [] result ids = sym (append-nil result)
scan-listed expiry now agent ((id, sess) ∷ rest) result ids =
    elim (Bool-cases (live expiry now sess)) [
      | inr t ↦
          rw (expired-live expiry now sess, t)
            (scan-listed expiry now agent rest result (ids ++ id ∷ []))
      | inl f ↦
          rw (expired-live expiry now sess, f)
            (matching (agent == "") (sess.agent_name == agent)
              (scan expiry now agent rest result ids)
              (scan expiry now agent rest (result ++ sess ∷ []) ids) sess result
              (listed expiry now agent (values rest)) (scan-listed expiry now agent rest result ids)
              (scan-listed expiry now agent rest (result ++ sess ∷ []) ids
                ∙ append_assoc result (sess ∷ []) (listed expiry now agent (values rest))))
    ]

-- `List` returns the sessions of the agent, or all for no agent, that were active within the expiry, or
-- all these for an expiry of 0, in the order of the map.
pub list-listed :
    (now : ℕ) (agent : String) (s : MemoryStore)
    → (list now agent s).0 ≡ listed s.expiry now agent (values s.sessions)
unfolding list
list-listed now agent s = scan-listed s.expiry now agent s.sessions [] []

get-some :
    (now : ℕ) (id : String) (s : MemoryStore) (o : Option Session) (sess : Session)
    → o ≡ some sess
    → expired s.expiry now sess ≡ false
    → (get_found now id o s).0 ≡ found sess
unfolding get_found
get-some now id s none sess h f = cc
get-some now id s (some x) sess h f = ground arith

touched :
    (now : ℕ) (id : String) (s : MemoryStore) (o : Option Session)
    → (touch_found now id o s).0 ≡ true
    → (sess : Session) × (o ≡ some sess)
      × (lookup id (touch_found now id o s).1.sessions ≡ some (record sess { last_active = now }))
      × ((touch_found now id o s).1.expiry ≡ s.expiry)
unfolding touch_found
touched now id s none h = cc
touched now id s (some sess) h = (
  sess,
  refl,
  ground (arith, lookup-insert id id (record sess { last_active = now }) s.sessions, eq_refl id),
  refl,
)

fresh-expired :
    (expiry now t : ℕ) (sess : Session)
    → sess.last_active ≡ now
    → t ≤ now + expiry
    → expired expiry t sess ≡ false
unfolding expired
fresh-expired expiry now t sess e le = ground (arith, e, le)

-- After a touch without error, `Get` within the expiry finds the session, its time updated.
pub touch-get :
    (now t : ℕ) (id : String) (s : MemoryStore)
    → (touch now id s).0 ≡ true
    → t ≤ now + s.expiry
    → (sess : Session) × (lookup id s.sessions ≡ some sess)
      × ((get t id (touch now id s).1).0 ≡ found (record sess { last_active = now }))
unfolding touch get
touch-get now t id s h le =
    let (sess, e, k, x) = touched now id s (lookup id s.sessions) h in
    (
      sess,
      e,
      get-some t id (touch now id s).1 _ (record sess { last_active = now }) k
          (rw x (fresh-expired s.expiry now t (record sess { last_active = now }) refl le)),
    )
