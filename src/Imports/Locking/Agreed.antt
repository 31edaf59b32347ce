-- ===== src/Imports/Locking/Agreed.antt =====
-- What a generated lock file accepts.
use agentspec.Base.{
  String, List, [], ◌∷◌, some, Bool, true, false, ◌==◌, ◌≡◌, refl, sym, ap, ◌∙◌, subst, ◌⊎◌, inl,
  inr, ◌↔◌, In, arith, eq_iff, Bool-cases, Option-cases, if◌then◌else◌, In-if,
}
use agentspec.Base.Maps.{Map, lookup, insert, has, lookup-insert}
use agentspec.Imports.{ResolvedImport}
use agentspec.Imports.Locking.{
  LockedDep, locked_dep, lock_imports, generate_lock_file, locked, check_import, check_imports,
  validate_lock_file,
}
use agentspec.Imports.Locking.Checks.{Agrees, both-empty, check_import_iff}

-- Each dependency that is locked is an import, and each import's source is locked.
lock_imports-In :
    (rs : List ResolvedImport) (seen : Map Bool) (d : LockedDep)
    → In d (lock_imports rs seen)
    → (r : ResolvedImport) × In r rs × (locked_dep r ≡ d)
unfolding lock_imports
lock_imports-In [] seen d i = elim i [ ]
lock_imports-In (r ∷ rs) seen d i =
    elim (In-if d (has r.source seen) (lock_imports rs seen)
      (locked_dep r ∷ lock_imports rs (insert r.source true seen)) i) [
        | inl j ↦ let (x, k, e) = lock_imports-In rs seen d j in (x, inr k, e)
        | inr (inl e) ↦ (r, inl refl, e)
        | inr (inr j) ↦
            let (x, k, e) = lock_imports-In rs (insert r.source true seen) d j in (x, inr k, e)
      ]

lock_imports-all :
    (rs : List ResolvedImport) (seen : Map Bool) (r : ResolvedImport)
    → In r rs
    → has r.source seen ≡ false
    → (d : LockedDep) × In d (lock_imports rs seen) × (d.source ≡ r.source)
unfolding lock_imports has
lock_imports-all [] seen r i h = elim i [ ]
lock_imports-all (x ∷ rs) seen r i h = elim (Bool-cases (has x.source seen)) [
  | inl t ↦ rw t (elim i [
    | inl e ↦ absurd (ground (arith, t, h, ap (λ (y : ResolvedImport). y.source) e))
    | inr j ↦ lock_imports-all rs seen r j h
  ])
  | inr f ↦ rw f (elim (Bool-cases (x.source == r.source)) [
    | inl same ↦ (locked_dep x, inl refl, (eq_iff x.source r.source).0 same)
    | inr other ↦ elim i [
      | inl e ↦
          absurd (
            ground
              (arith, other, eq_iff x.source r.source, ap (λ (y : ResolvedImport). y.source) e))
      | inr j ↦
          let (d, k, e) =
            lock_imports-all rs (insert x.source true seen) r j
              (ground (arith, lookup-insert x.source r.source true seen, other, h)) in
          (d, inr k, e)
    ]
  ])
]

locked-found :
    (deps : List LockedDep) (m : Map LockedDep) (k : String)
    → (((d : LockedDep) × In d deps × (d.source ≡ k)) ⊎ ((d : LockedDep) × (lookup k m ≡ some d)))
    → (d : LockedDep) × (lookup k (locked deps m) ≡ some d)
unfolding locked
locked-found [] m k h = elim h [ inl (d, i, e) ↦ elim i [ ] | inr p ↦ p ]
locked-found (x ∷ deps) m k h =
    locked-found deps (insert x.source x m) k (elim (Bool-cases (x.source == k)) [
      | inl t ↦ inr (x, lookup-insert x.source k x m ∙ ap (λ b. if b then some x else lookup k m) t)
      | inr f ↦ elim h [
        | inl (d, inl e, same) ↦
            absurd (ground (arith, f, same, eq_iff x.source k, ap (λ (y : LockedDep). y.source) e))
        | inl (d, inr i, same) ↦ inl (d, i, same)
        | inr (d, found) ↦
            inr (
              d,
              lookup-insert x.source k x m ∙ ap (λ b. if b then some x else lookup k m) f ∙ found,
            )
      ]
    ])

locked-In :
    (deps : List LockedDep) (m : Map LockedDep) (k : String) (d : LockedDep)
    → lookup k (locked deps m) ≡ some d
    → (In d deps × (d.source ≡ k)) ⊎ (lookup k m ≡ some d)
unfolding locked
locked-In [] m k d h = inr h
locked-In (x ∷ deps) m k d h = elim (locked-In deps (insert x.source x m) k d h) [
  | inl (i, e) ↦ inl (inr i, e)
  | inr found ↦ elim (Bool-cases (x.source == k)) [
    | inl t ↦
        let e : some x ≡ some d =
          sym (lookup-insert x.source k x m ∙ ap (λ b. if b then some x else lookup k m) t)
          ∙ found in
        let same : x ≡ d = cc e in
        inl (inl same, subst (λ (y : LockedDep). y.source ≡ k) same ((eq_iff x.source k).0 t))
    | inr f ↦
        inr (
          sym (lookup-insert x.source k x m ∙ ap (λ b. if b then some x else lookup k m) f) ∙ found)
  ]
]

-- Imports of one source have one hash and one version.
abbrev pub Consistent : List ResolvedImport → Type 0
Consistent rs =
    (a b : ResolvedImport)
    → In a rs
    → In b rs
    → a.source ≡ b.source
    → (a.hash ≡ b.hash) × (a.version ≡ b.version)

module _ (rs : List ResolvedImport) where
  abbrev entries : Map LockedDep
  entries = locked (lock_imports rs []) []

  -- An entry of the lock file is an import of that source.
  entry-In :
      (k : String) (d : LockedDep)
      → lookup k entries ≡ some d
      → (r : ResolvedImport) × In r rs × (locked_dep r ≡ d) × (r.source ≡ k)
  unfolding lookup
  entry-In k d e = elim (locked-In (lock_imports rs []) [] k d e) [
    | inl (i, same) ↦
        let (r, j, q) = lock_imports-In rs [] d i in
        (r, j, q, ap (λ (y : LockedDep). y.source) q ∙ same)
    | inr none_there ↦ absurd (cc none_there)
  ]

  entry-found :
      (r : ResolvedImport) → In r rs → (d : LockedDep) × (lookup r.source entries ≡ some d)
  unfolding has lookup
  entry-found r i =
      locked-found (lock_imports rs []) [] r.source (inl (lock_imports-all rs [] r i refl))

  -- What the entries say of an import.
  check_entries :
      Consistent rs
      → (now : ResolvedImport)
      → (check_import (lookup now.source entries) now ≡ [])
        ↔ ((r : ResolvedImport) → In r rs → r.source ≡ now.source → Agrees r now)
  unfolding check_import
  check_entries one now = (
    λ e r i s.
        let (d, found) = entry-found r i in
        let (x, j, q, t) = entry-In r.source d found in
        let here : lookup now.source entries ≡ some (locked_dep x) =
          ap (λ k. lookup k entries) (sym s) ∙ found ∙ ap some (sym q) in
        let (h, v) = one x r j i t in
        let (a, b) = (check_import_iff x now).0 (ap (λ o. check_import o now) (sym here) ∙ e) in
        (
          elim a [ inl p ↦ inl (sym h ∙ p) | inr p ↦ inr (sym h ∙ p) ],
          elim b [
            | inl p ↦ inl (sym v ∙ p)
            | inr (inl p) ↦ inr (inl p)
            | inr (inr p) ↦ inr (inr (sym v ∙ p))
          ],
        ),
    λ agree. elim (Option-cases (lookup now.source entries)) [
      | inl e ↦ ap (λ o. check_import o now) e
      | inr (d, e) ↦
          let (x, j, q, t) = entry-In now.source d e in
          ap (λ o. check_import o now) (e ∙ ap some (sym q))
          ∙ (check_import_iff x now).1 (agree x j t)
    ],
  )

  check_all :
      Consistent rs
      → (now : List ResolvedImport)
      → (check_imports entries now ≡ []) ↔ (
          (n : ResolvedImport)
          → In n now
          → (r : ResolvedImport) → In r rs
          → r.source ≡ n.source
          → Agrees r n)
  unfolding check_imports
  check_all one [] = (λ e n i. elim i [ ], λ h. refl)
  check_all one (n ∷ now) =
      let (to, from) =
        both-empty (check_import (lookup n.source entries) n) (check_imports entries now) in
      let (first, second) = check_entries one n in
      let (all, every) = check_all one now in
      (
        λ e m i. elim i [
          | inl q ↦
              subst
                (λ (y : ResolvedImport).
                  (r : ResolvedImport) → In r rs → r.source ≡ y.source → Agrees r y)
                q (first (to e).0)
          | inr j ↦ all (to e).1 m j
        ],
        λ h. from (second (h n (inl refl)), every (λ m j. h m (inr j))),
      )

  -- A lock file that was generated from imports of which those of one source agree has nothing against later
  -- imports just when each of these has the hash and the version of the locked one of its source, as far as
  -- they are given.
  pub generate-validate :
      Consistent rs
      → (now : List ResolvedImport)
      → (validate_lock_file (some (generate_lock_file rs)) now ≡ []) ↔ (
          (n : ResolvedImport)
          → In n now
          → (r : ResolvedImport) → In r rs
          → r.source ≡ n.source
          → Agrees r n)
  unfolding validate_lock_file generate_lock_file
  generate-validate one now = check_all one now
