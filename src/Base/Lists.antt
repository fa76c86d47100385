-- ===== src/Base/Lists.antt =====
-- Lists measured by native numbers, predicates by recursion, and suffixes of texts.
use Prim.Native.Nat.{ℕ, suc, ◌+◌}
use Prim.Native.String.{String}
use mathlib.Core.Path.{◌≡◌, refl}
use mathlib.Core.Logic.{◌↔◌, inl, inr}
use mathlib.Core.Bool.{Bool, true, false, ◌||◌, ◌&&◌}
use mathlib.Core.Option.{Option, none, some}
use mathlib.Core.List.{List, [], ◌∷◌, ◌++◌, map}
use native.Mathlib.Omega.{arith}
use aws_app_mesh_controller.Base.Equality.{
  Eq, ◌==◌, contains, string_eq, if◌then◌else◌, Option-cases,
}

module _ {ℓ} {A : Type ℓ} where
  abbrev pub length : List A → ℕ
  length [] = 0
  length (x ∷ xs) = suc (length xs)

  pub length-append : (xs ys : List A) → length (xs ++ ys) ≡ length xs + length ys
  length-append [] ys = omega arith
  length-append (x ∷ xs) ys = omega (arith, length-append xs ys)

  abbrev pub is_some : Option A → Bool
  is_some none = false
  is_some (some _) = true

  abbrev pub All {κ} : (A → Type κ) → List A → Type κ
  All P [] = Unit
  All P (x ∷ xs) = P x × All P xs

  -- The elements that pass a Boolean test, in order.
  unfoldable pub select : (A → Bool) → List A → List A
  select p [] = []
  select p (x ∷ xs) = let rest = select p xs in if p x then x ∷ rest else rest

module _ {ℓ κ} {A : Type ℓ} (P : A → Type κ) where
  pub All-append : (xs ys : List A) → All P (xs ++ ys) ↔ (All P xs × All P ys)
  All-append [] ys = (λ h. (tt, h), λ h. h.1)
  All-append (x ∷ xs) ys = (
    λ h. let (a, b) = (All-append xs ys).0 h.1 in ((h.0, a), b),
    λ h. (h.0.0, (All-append xs ys).1 (h.0.1, h.1)),
  )

module _ {ℓ κ} {A : Type ℓ} {B : Type κ} where
  unfoldable pub filter_map : (A → Option B) → List A → List B
  filter_map f [] = []
  filter_map f (x ∷ xs) =
      let rest = filter_map f xs in elim (f x) [ none ↦ rest | some y ↦ y ∷ rest ]

module _ {ℓ} {A : Type ℓ} ⦃e : Eq A⦄ where
  pub contains-append :
      (xs ys : List A) (a : A) → contains (xs ++ ys) a ≡ (contains xs a || contains ys a)
  contains-append [] ys a = refl
  contains-append (x ∷ xs) ys a = ground (arith, contains-append xs ys a)

-- `strings.HasSuffix`.
unfoldable pub ends_with : String → String → Bool
ends_with String.[] t = String.[] == t
ends_with (String.◌∷◌ c s) t = let rest = ends_with s t in String.◌∷◌ c s == t || rest

module _ {ℓ} {A : Type ℓ} ⦃e : Eq A⦄ where
  -- No element occurs twice.
  abbrev pub Distinct : List A → Type 0
  Distinct [] = Unit {0}
  Distinct (x ∷ xs) = (contains xs x ≡ false) × Distinct xs

-- A partial function yields values under their own keys.
module _ {ℓ κ} {K : Type ℓ} {V : Type κ} where
  pub record Keyed (f : V → K) (g : K → Option V) : Type (ℓ ⊔ κ) where
    pub key_of : (k : K) (v : V) → g k ≡ some v → f v ≡ k

module _ {ℓ κ} {K : Type ℓ} {V : Type κ} ⦃e : Eq K⦄ where
  pub All-filter_map {μ} :
      (P : V → Type μ) (g : K → Option V) (ks : List K)
      → ((k : K) (v : V) → g k ≡ some v → P v)
      → All P (filter_map g ks)
  unfolding filter_map
  All-filter_map P g [] h = tt
  All-filter_map P g (k ∷ ks) h = go (g k) refl (All-filter_map P g ks h)
    where
      go :
          (o : Option V)
          → g k ≡ o
          → All P (filter_map g ks)
          → All P (elim o [ none ↦ filter_map g ks | some v ↦ v ∷ filter_map g ks ])
      go none p rest = rest
      go (some v) p rest = (h k v p, rest)

  pub contains-filter_map :
      (f : V → K) (g : K → Option V) (ks : List K) (k : K)
      → Keyed f g
      → contains (map f (filter_map g ks)) k ≡ (contains ks k && is_some (g k))
  unfolding filter_map
  contains-filter_map f g [] k h = refl
  contains-filter_map f g (j ∷ ks) k h = elim (Option-cases (g j)) [
    | inl p ↦ rw (p, contains) (ground (arith, contains-filter_map f g ks k h, p))
    | inr (v, p) ↦
        rw (p, contains) (ground (arith, contains-filter_map f g ks k h, p, h.key_of j v p))
  ]
