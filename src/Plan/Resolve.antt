-- ===== src/Plan/Resolve.antt =====
-- What `ResolveBinding` and `ResolveDeployTarget` choose.
use agentspec.Base.{
  String, List, [], ◌∷◌, Option, none, some, ◌≡◌, ◌≢◌, inl, inr, refl, arith, eq_iff, In, Bool,
  true, false, ◌==◌, if◌then◌else◌, Bool-cases, find, find_cases, or_else, not,
}
use agentspec.Ir.{Binding, DeployTarget}
use agentspec.Plan.{resolve_binding, resolve_deploy_target}

-- What a choice among named items, some of them marked as default, has to satisfy.
pub data Chosen {A : Type 0} (name : A → String) (is_default : A → Bool) (target : String)
    (items : List A) : Option A → Type 0 where
  named :
      (a : A)
      → target ≢ ""
      → In a items
      → name a ≡ target
      → Chosen name is_default target items (some a)
  unnamed :
      target ≢ ""
      → ((a : A) → In a items → name a ≢ target)
      → Chosen name is_default target items none
  marked :
      (a : A)
      → target ≡ ""
      → In a items
      → is_default a ≡ true
      → Chosen name is_default target items (some a)
  sole :
      (a : A)
      → target ≡ ""
      → items ≡ a ∷ []
      → is_default a ≡ false
      → Chosen name is_default target items (some a)
  undecided :
      target ≡ ""
      → ((a : A) → In a items → is_default a ≡ false)
      → ((a : A) → items ≢ a ∷ [])
      → Chosen name is_default target items none
  empty : items ≡ [] → Chosen name is_default target items none

abbrev binding_name : Binding → String
binding_name b = b.name

abbrev binding_default : Binding → Bool
binding_default b = b.default

abbrev target_name : DeployTarget → String
target_name t = t.name

abbrev target_default : DeployTarget → Bool
target_default t = t.default

module _ {A : Type 0} (name : A → String) (is_default : A → Bool) (target : String) where
  Chosen-named :
      (xs : List A)
      → target ≢ ""
      → Chosen name is_default target xs (find (λ x. name x == target) xs)
  Chosen-named xs ne = elim (find_cases (λ x. name x == target) xs) [
    | inl (a, e, i, q) ↦ rw e (named a ne i ((eq_iff (name a) target).0 q))
    | inr (e, fails) ↦
        rw e (unnamed ne (λ a i q. ground (arith, fails a i, eq_iff (name a) target)))
  ]

  Chosen-default :
      (xs : List A) (sole_one : Option A)
      → target ≡ ""
      → (((a : A) → In a xs → is_default a ≡ false) → Chosen name is_default target xs sole_one)
      → Chosen name is_default target xs (or_else (find is_default xs) sole_one)
  Chosen-default xs sole_one e rest = elim (find_cases is_default xs) [
    | inl (a, q, i, d) ↦ rw q (marked a e i d)
    | inr (q, fails) ↦ rw q (rest fails)
  ]

module _ {A : Type 0} (name : A → String) (is_default : A → Bool) (target : String) where
  Chosen-one :
      (x : A)
      → Chosen name is_default target (x ∷ []) (
          if not (target == "")
          then find (λ y. name y == target) (x ∷ [])
          else or_else (find is_default (x ∷ [])) (some x))
  Chosen-one x = elim (Bool-cases (target == "")) [
    | inl t ↦
        let e = (eq_iff target "").0 t in
        rw t (
          Chosen-default name is_default target (x ∷ []) (some x) e
            (λ fails. sole x e refl (fails x (inl refl))))
    | inr f ↦
        rw f (Chosen-named name is_default target (x ∷ []) (λ e. ground (arith, eq_iff target "")))
  ]

  Chosen-many :
      (x y : A) (xs : List A)
      → Chosen name is_default target (x ∷ y ∷ xs) (
          if not (target == "")
          then find (λ z. name z == target) (x ∷ y ∷ xs)
          else or_else (find is_default (x ∷ y ∷ xs)) none)
  Chosen-many x y xs = elim (Bool-cases (target == "")) [
    | inl t ↦
        let e = (eq_iff target "").0 t in
        rw t (
          Chosen-default name is_default target (x ∷ y ∷ xs) none e
            (λ fails. undecided e fails (λ a h. cc)))
    | inr f ↦
        rw f
          (Chosen-named name is_default target (x ∷ y ∷ xs) (λ e. ground (arith, eq_iff target "")))
  ]

-- `ResolveBinding` chooses the binding of the given name if a name is given, else a binding marked
-- as default, else the sole binding, and nothing where there is none of these.
pub resolve_binding-Chosen :
    (bindings : List Binding) (target : String)
    → Chosen binding_name binding_default target bindings (resolve_binding bindings target)
unfolding resolve_binding
resolve_binding-Chosen [] target = empty refl
resolve_binding-Chosen (b ∷ []) target = Chosen-one binding_name binding_default target b
resolve_binding-Chosen (b ∷ c ∷ bs) target = Chosen-many binding_name binding_default target b c bs

-- `ResolveDeployTarget` chooses in the same way among the deploy targets.
pub resolve_deploy_target-Chosen :
    (targets : List DeployTarget) (target : String)
    → Chosen target_name target_default target targets (resolve_deploy_target targets target)
unfolding resolve_deploy_target
resolve_deploy_target-Chosen [] target = empty refl
resolve_deploy_target-Chosen (t ∷ []) target = Chosen-one target_name target_default target t
resolve_deploy_target-Chosen (t ∷ u ∷ ts) target =
    Chosen-many target_name target_default target t u ts
