-- ===== src/Base/Maps.antt =====
-- Go's `map[string]V` as an association list: `insert` overwrites in place, so keys that are
-- distinct stay distinct. What the code iterates over is taken in the list's order.
use mathlib.Core.Path.{◌≡◌, refl}
use mathlib.Core.Bool.{Bool, true, false}
use mathlib.Core.Option.{Option, none, some}
use mathlib.Core.List.{List, [], ◌∷◌, map}
use Prim.Native.String.{String}
use mathlib.Core.Logic.{inl, inr}
use agentspec.Base.Tests.{Bool-cases}
use agentspec.Base.Lists.{In}
use native.Mathlib.Omega.{arith}
use text.Mathlib.Text.{◌==◌}
use text.Mathlib.TextEquality.{eq_iff}
use text.Mathlib.TextPositions.{eq_refl}
use agentspec.Base.Tests.{if◌then◌else◌}

abbrev pub Map {ℓ} : Type ℓ → Type ℓ
Map V = List (String × V)

module _ {ℓ} {V : Type ℓ} where
  -- The entry of a key goes, wherever it stands.
  unfoldable pub erase : String → Map V → Map V
  erase key [] = []
  erase key (e ∷ m) = let rest = erase key m in if e.0 == key then rest else e ∷ rest

  unfoldable pub insert : String → V → Map V → Map V
  insert key new [] = (key, new) ∷ []
  insert key new (e ∷ m) =
      let rest = insert key new m in if e.0 == key then (key, new) ∷ m else e ∷ rest

  unfoldable pub lookup : String → Map V → Option V
  lookup key [] = none
  lookup key (e ∷ m) = let later = lookup key m in if e.0 == key then some e.1 else later

  abbrev pub is_some : Option V → Bool
  is_some none = false
  is_some (some v) = true

  unfoldable pub has : String → Map V → Bool
  unfolding lookup
  has k m = is_some (lookup k m)

  abbrev pub values : Map V → List V
  values = map (λ e. e.1)

  abbrev pub keys : Map V → List String
  keys = map (λ e. e.0)

  pub lookup-erase :
      (k j : String) (m : Map V) → lookup j (erase k m) ≡ (if k == j then none else lookup j m)
  unfolding lookup erase
  lookup-erase k j [] = ground arith
  lookup-erase k j ((i, w) ∷ m) =
      ground (arith, eq_iff k j, eq_iff i k, eq_iff i j, lookup-erase k j m)

  pub lookup-insert :
      (set get : String) (new : V) (m : Map V)
      → lookup get (insert set new m) ≡ (if set == get then some new else lookup get m)
  unfolding insert lookup
  lookup-insert set get new [] = refl
  lookup-insert set get new (e ∷ m) =
      ground (arith, lookup-insert set get new m, eq_iff e.0 set, eq_iff e.0 get, eq_iff set get)

  -- No key stands twice.
  abbrev pub Unique : Map V → Type ℓ
  Unique [] = Unit
  Unique ((k, v) ∷ m) = (lookup k m ≡ none) × Unique m

  pub insert-Unique : (k : String) (v : V) (m : Map V) → Unique m → Unique (insert k v m)
  unfolding insert lookup
  insert-Unique k v [] u = (refl, tt)
  insert-Unique k v ((j, w) ∷ m) u = elim (Bool-cases (j == k)) [
    | inl t ↦ rw t (ground (arith, eq_iff j k), u.1)
    | inr f ↦
        rw f
          (ground (arith, lookup-insert k j v m, eq_iff k j, eq_iff j k), insert-Unique k v m u.1)
  ]

  pub erase-Unique : (k : String) (m : Map V) → Unique m → Unique (erase k m)
  unfolding erase lookup
  erase-Unique k [] u = tt
  erase-Unique k ((j, w) ∷ m) u = elim (Bool-cases (j == k)) [
    | inl t ↦ rw t (erase-Unique k m u.1)
    | inr f ↦ rw f (ground (arith, lookup-erase k j m), erase-Unique k m u.1)
  ]

pub ruleset map_laws = (lookup-insert, lookup-erase)

module _ {V : Type 0} where
  pub In-values : (k : String) (v : V) (m : Map V) → lookup k m ≡ some v → In v (values m)
  unfolding lookup
  In-values k v [] h = cc
  In-values k v ((j, w) ∷ m) h = elim (Bool-cases (j == k)) [
    | inl t ↦ inl (ground arith)
    | inr f ↦ inr (In-values k v m (ground arith))
  ]

  -- A value stands under some key, and is found there if no key stands twice.
  pub values-lookup :
      (v : V) (m : Map V) → Unique m → In v (values m) → (k : String) × (lookup k m ≡ some v)
  unfolding lookup
  values-lookup v [] u i = elim i [ ]
  values-lookup v ((j, w) ∷ m) u (inl e) = (j, ground (arith, eq_refl j))
  values-lookup v ((j, w) ∷ m) u (inr i) =
      let (k, e) = values-lookup v m u.1 i in (k, ground (arith, eq_iff j k, u.0))
