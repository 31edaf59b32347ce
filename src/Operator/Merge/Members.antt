-- ===== src/Operator/Merge/Members.antt =====
-- The members of the unions and of the intersections of a merge.
use agentspec.Base.{
  refl, Bool, ◌≡◌, true, ◌↔◌, List, In, Bool-cases, [], ◌⊎◌, In-if, inl, map, ◌++◌, inr,
  In-append_left, In-append_right, map-In, ◌∷◌, In-append_cases, false, subst, sym, ◌||◌, In-map,
  String, arith, ◌==◌, keep, eq_iff, keep-In, In-keep, ap,
}
use agentspec.Operator.Merge.{
  PolicySpec, contains, add_new, add_all, union_of, is_empty, to_set, sets_of, intersect,
  intersection,
}

module _ {A : Type 0} (same : A → A → Bool)
    (decides : (a b : A) → (same a b ≡ true) ↔ (a ≡ b)) where
  contains-In : (a : A) (xs : List A) → contains same a xs ≡ true → In a xs
  unfolding contains
  contains-In a [] t = cc
  contains-In a (x ∷ xs) t = elim (Bool-cases (same x a)) [
    | inl s ↦ inl ((decides x a).0 s)
    | inr f ↦ inr (contains-In a xs (rest f t))
  ]
    where
      rest : same x a ≡ false → (same x a || contains same a xs) ≡ true → contains same a xs ≡ true
      rest f t = ground (arith, f, t)

  In-contains : (a : A) (xs : List A) → In a xs → contains same a xs ≡ true
  unfolding contains
  In-contains a [] i = elim i [ ]
  In-contains a (x ∷ xs) (inl e) = ground (arith, (decides x a).1 e)
  In-contains a (x ∷ xs) (inr j) = ground (arith, In-contains a xs j)

  add_new-old : (k a : A) (seen : List A) → In k seen → In k (add_new same a seen)
  unfolding add_new
  add_new-old k a seen i = elim (Bool-cases (contains same a seen)) [
    | inl t ↦ rw t i
    | inr f ↦ rw f (In-append_left k seen (a ∷ []) i)
  ]

  add_new-here : (a : A) (seen : List A) → In a (add_new same a seen)
  unfolding add_new
  add_new-here a seen = elim (Bool-cases (contains same a seen)) [
    | inl t ↦ rw t (contains-In a seen t)
    | inr f ↦ rw f (In-append_right a seen (a ∷ []) (inl refl))
  ]

  add_new-cases : (k a : A) (seen : List A) → In k (add_new same a seen) → In k seen ⊎ (a ≡ k)
  unfolding add_new
  add_new-cases k a seen i = elim (In-if k (contains same a seen) seen (seen ++ a ∷ []) i) [
    | inl old ↦ inl old
    | inr j ↦ elim (In-append_cases k seen (a ∷ []) j) [
      | inl old ↦ inl old
      | inr (inl e) ↦ inr e
      | inr (inr none_left) ↦ elim none_left [ ]
    ]
  ]

  add_all-old : (k : A) (seen xs : List A) → In k seen → In k (add_all same seen xs)
  unfolding add_all
  add_all-old k seen [] i = i
  add_all-old k seen (x ∷ xs) i = add_all-old k (add_new same x seen) xs (add_new-old k x seen i)

  add_all-new : (k : A) (seen xs : List A) → In k xs → In k (add_all same seen xs)
  unfolding add_all
  add_all-new k seen [] i = elim i [ ]
  add_all-new k seen (x ∷ xs) (inl e) =
      add_all-old k (add_new same x seen) xs
        (subst (λ k. In k (add_new same x seen)) e (add_new-here x seen))
  add_all-new k seen (x ∷ xs) (inr j) = add_all-new k (add_new same x seen) xs j

  add_all-cases : (k : A) (seen xs : List A) → In k (add_all same seen xs) → In k seen ⊎ In k xs
  unfolding add_all
  add_all-cases k seen [] i = inl i
  add_all-cases k seen (x ∷ xs) i = elim (add_all-cases k (add_new same x seen) xs i) [
    | inl j ↦ elim (add_new-cases k x seen j) [ inl old ↦ inl old | inr e ↦ inr (inl e) ]
    | inr j ↦ inr (inr j)
  ]

  union_of-old :
      (k : A) (seen : List A) (xss : List (List A)) → In k seen → In k (union_of same seen xss)
  unfolding union_of
  union_of-old k seen [] i = i
  union_of-old k seen (xs ∷ xss) i =
      union_of-old k (add_all same seen xs) xss (add_all-old k seen xs i)

  union_of-new :
      (k : A) (seen : List A) (xss : List (List A)) (xs : List A)
      → In xs xss
      → In k xs
      → In k (union_of same seen xss)
  unfolding union_of
  union_of-new k seen [] xs i j = elim i [ ]
  union_of-new k seen (ys ∷ xss) xs (inl e) j =
      union_of-old k (add_all same seen ys) xss
        (add_all-new k seen ys (subst (λ zs. In k zs) (sym e) j))
  union_of-new k seen (ys ∷ xss) xs (inr i) j = union_of-new k (add_all same seen ys) xss xs i j

  union_of-cases :
      (k : A) (seen : List A) (xss : List (List A))
      → In k (union_of same seen xss)
      → In k seen ⊎ ((xs : List A) × In xs xss × In k xs)
  unfolding union_of
  union_of-cases k seen [] i = inl i
  union_of-cases k seen (ys ∷ xss) i = elim (union_of-cases k (add_all same seen ys) xss i) [
    | inl j ↦ elim (add_all-cases k seen ys j) [
      | inl old ↦ inl old
      | inr here ↦ inr (ys, inl refl, here)
    ]
    | inr (xs, there, j) ↦ inr (xs, inr there, j)
  ]

  -- The union of the lists that the policies hold.
  pub union_of-Held :
      (of : PolicySpec → List A) (k : A) (policies : List PolicySpec)
      → In k (union_of same [] (map of policies)) ↔ ((p : PolicySpec) × In p policies × In k (of p))
  union_of-Held of k policies = (
    λ i. elim (union_of-cases k [] (map of policies) i) [
      | inl none_left ↦ elim none_left [ ]
      | inr (xs, there, j) ↦
          let (p, here, e) = map-In of xs policies there in
          (p, here, subst (λ zs. In k zs) (sym e) j)
    ],
    λ (p, here, j). union_of-new k [] (map of policies) (of p) (In-map of p policies here) j,
  )

-- Membership in each of the lists that are not empty.
abbrev pub InAll : String → List (List String) → Type 0
InAll k xss = (xs : List String) → In xs xss → is_empty xs ≡ false → In k xs

pub string_decides : (a b : String) → ((a == b) ≡ true) ↔ (a ≡ b)
string_decides a b = eq_iff a b

to_set-In : (k : String) (xs : List String) → In k (to_set xs) ↔ In k xs
unfolding to_set
to_set-In k xs = (
  λ i. elim (add_all-cases ◌==◌ string_decides k [] xs i) [
    | inl none_left ↦ elim none_left [ ]
    | inr j ↦ j
  ],
  λ i. add_all-new ◌==◌ string_decides k [] xs i,
)

In-intersect :
    (k : String) (s : List String) (ts : List (List String))
    → In k (intersect s ts) ↔ (In k s × ((t : List String) → In t ts → In k t))
unfolding intersect
In-intersect k s [] = (λ i. (i, λ t j. elim j [ ]), λ (i, all). i)
In-intersect k s (t ∷ ts) = (
  λ i.
      let (j, all) = (In-intersect k (keep (λ k. contains ◌==◌ k t) s) ts).0 i in
      let (old, q) = keep-In (λ k. contains ◌==◌ k t) k s j in
      (
        old,
        λ u m. elim m [
          | inl e ↦ subst (λ zs. In k zs) e (contains-In ◌==◌ string_decides k t q)
          | inr l ↦ all u l
        ],
      ),
  λ (i, all). (In-intersect k (keep (λ k. contains ◌==◌ k t) s) ts).1 (
    In-keep (λ k. contains ◌==◌ k t) k s i (In-contains ◌==◌ string_decides k t (all t (inl refl))),
    λ u m. all u (inr m),
  ),
)

sets_of-In :
    (k : String) (xss : List (List String))
    → ((t : List String) → In t (sets_of xss) → In k t) ↔ InAll k xss
unfolding sets_of
sets_of-In k [] = (λ all xs i. elim i [ ], λ all xs i. elim i [ ])
sets_of-In k ([] ∷ xss) = (
  λ all xs i f. elim i [
    | inl e ↦ absurd (ground (arith, ap is_empty e, f))
    | inr j ↦ (sets_of-In k xss).0 all xs j f
  ],
  λ all. (sets_of-In k xss).1 (λ xs i. all xs (inr i)),
)
sets_of-In k ((x ∷ xs) ∷ xss) = (
  λ all ys i f. elim i [
    | inl e ↦ subst (λ zs. In k zs) e ((to_set-In k (x ∷ xs)).0 (all (to_set (x ∷ xs)) (inl refl)))
    | inr j ↦ (sets_of-In k xss).0 (λ t m. all t (inr m)) ys j f
  ],
  λ all t i. elim i [
    | inl e ↦ subst (λ zs. In k zs) e ((to_set-In k (x ∷ xs)).1 (all (x ∷ xs) (inl refl) refl))
    | inr j ↦ (sets_of-In k xss).1 (λ ys m. all ys (inr m)) t j
  ],
)

-- Membership in one of the lists.
abbrev pub InOne : String → List (List String) → Type 0
InOne k xss = (xs : List String) × In xs xss × In k xs

pub intersection-In :
    (k : String) (xss : List (List String))
    → In k (intersection (sets_of xss)) ↔ (InOne k xss × InAll k xss)
unfolding sets_of intersection
intersection-In k [] = (λ i. elim i [ ], λ ((xs, i, j), all). i)
intersection-In k ([] ∷ xss) = (
  λ i.
      let ((xs, m, j), all) = (intersection-In k xss).0 i in
      (
        (xs, inr m, j),
        λ ys n f. elim n [ inl e ↦ absurd (ground (arith, ap is_empty e, f)) | inr l ↦ all ys l f ],
      ),
  λ ((xs, m, j), all). (intersection-In k xss).1 (
    elim m [ inl e ↦ elim (subst (λ zs. In k zs) (sym e) j) [ ] | inr l ↦ (xs, l, j) ],
    λ ys n. all ys (inr n),
  ),
)
intersection-In k ((x ∷ xs) ∷ xss) = (
  λ i.
      let (here, all) = (In-intersect k (to_set (x ∷ xs)) (sets_of xss)).0 i in
      let first = (to_set-In k (x ∷ xs)).0 here in
      (
        (x ∷ xs, inl refl, first),
        λ ys n f. elim n [
          | inl e ↦ subst (λ zs. In k zs) e first
          | inr l ↦ (sets_of-In k xss).0 all ys l f
        ],
      ),
  λ (one, all). (In-intersect k (to_set (x ∷ xs)) (sets_of xss)).1 (
    (to_set-In k (x ∷ xs)).1 (all (x ∷ xs) (inl refl) refl),
    (sets_of-In k xss).1 (λ ys n. all ys (inr n)),
  ),
)
