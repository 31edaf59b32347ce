-- ===== src/Imports/Locking/Checks.antt =====
-- What the checks of one import accept.
use agentspec.Base.{
  String, List, [], ◌∷◌, ◌++◌, some, Bool, true, false, ◌==◌, ◌&&◌, not, ◌≡◌, refl, ◌⊎◌, inl, inr,
  ◌↔◌, eq_iff, if◌then◌else◌,
}
use agentspec.Imports.{ResolvedImport}
use agentspec.Imports.Locking.{locked_dep, check_hash, check_version, check_import}

-- An import has the hash and the version of another one, as far as these are given.
abbrev pub Agrees : ResolvedImport → ResolvedImport → Type 0
Agrees r now =
    ((r.hash ≡ "") ⊎ (r.hash ≡ now.hash))
    × ((r.version ≡ "") ⊎ (now.version ≡ "") ⊎ (r.version ≡ now.version))

-- Two tests that both have to fail for a mismatch.
either-true :
    (a b : Bool) (x : String)
    → ((if not a && not b then x ∷ [] else []) ≡ []) ↔ ((a ≡ true) ⊎ (b ≡ true))
either-true true b x = (λ e. inl refl, λ h. refl)
either-true false true x = (λ e. inr refl, λ h. refl)
either-true false false x = (λ e. absurd (cc e), λ h. elim h [ inl p ↦ cc | inr q ↦ cc ])

check_hash_iff :
    (r now : ResolvedImport)
    → (check_hash (locked_dep r) now ≡ []) ↔ ((r.hash ≡ "") ⊎ (r.hash ≡ now.hash))
unfolding check_hash
check_hash_iff r now =
    let (to, from) = either-true (r.hash == "") (r.hash == now.hash) _ in
    (
      λ e. elim (to e) [
        | inl p ↦ inl ((eq_iff r.hash "").0 p)
        | inr q ↦ inr ((eq_iff r.hash now.hash).0 q)
      ],
      λ h. from (elim h [
        | inl p ↦ inl ((eq_iff r.hash "").1 p)
        | inr q ↦ inr ((eq_iff r.hash now.hash).1 q)
      ]),
    )

one-true :
    (a b c : Bool) (x : String)
    → ((if not a && (not b && not c) then x ∷ [] else []) ≡ [])
      ↔ ((a ≡ true) ⊎ (b ≡ true) ⊎ (c ≡ true))
one-true true b c x = (λ e. inl refl, λ h. refl)
one-true false true c x = (λ e. inr (inl refl), λ h. refl)
one-true false false true x = (λ e. inr (inr refl), λ h. refl)
one-true false false false x =
    (λ e. absurd (cc e), λ h. elim h [ inl p ↦ cc | inr q ↦ elim q [ inl a ↦ cc | inr b ↦ cc ] ])

check_version_iff :
    (r now : ResolvedImport)
    → (check_version (locked_dep r) now ≡ [])
      ↔ ((r.version ≡ "") ⊎ (now.version ≡ "") ⊎ (r.version ≡ now.version))
unfolding check_version
check_version_iff r now =
    let (to, from) = one-true (r.version == "") (now.version == "") (r.version == now.version) _ in
    (
      λ e. elim (to e) [
        | inl p ↦ inl ((eq_iff r.version "").0 p)
        | inr q ↦ elim q [
          | inl a ↦ inr (inl ((eq_iff now.version "").0 a))
          | inr b ↦ inr (inr ((eq_iff r.version now.version).0 b))
        ]
      ],
      λ h. from (elim h [
        | inl p ↦ inl ((eq_iff r.version "").1 p)
        | inr q ↦ elim q [
          | inl a ↦ inr (inl ((eq_iff now.version "").1 a))
          | inr b ↦ inr (inr ((eq_iff r.version now.version).1 b))
        ]
      ]),
    )

pub both-empty : (xs ys : List String) → (xs ++ ys ≡ []) ↔ ((xs ≡ []) × (ys ≡ []))
both-empty [] ys = (λ e. (refl, e), λ h. h.1)
both-empty (x ∷ xs) ys = (λ e. absurd (cc e), λ h. absurd (cc h.0))

pub check_import_iff :
    (r now : ResolvedImport) → (check_import (some (locked_dep r)) now ≡ []) ↔ Agrees r now
unfolding check_import
check_import_iff r now =
    let (to, from) =
      both-empty (check_hash (locked_dep r) now) (check_version (locked_dep r) now) in
    (
      λ e. let (a, b) = to e in ((check_hash_iff r now).0 a, (check_version_iff r now).0 b),
      λ h. from ((check_hash_iff r now).1 h.0, (check_version_iff r now).1 h.1),
    )
