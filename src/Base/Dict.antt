-- ===== src/Base/Dict.antt =====
-- Go maps as association lists. The program reads its maps by key, or through sorted key sets, so
-- the order of the entries is not observed. Proofs elsewhere go by the laws.
use aws_app_mesh_controller.Base.Equality.{Eq, ◌==◌, contains, string_eq, option_eq, if◌then◌else◌}
use Prim.Native.String.{String}
use mathlib.Core.Path.{◌≡◌, refl, sym, ◌∙◌, subst}
use mathlib.Core.Bool.{Bool, true, false, ◌||◌, ◌&&◌}
use mathlib.Core.Option.{Option, none, some, some-injective}
use mathlib.Core.List.{List, [], ◌∷◌, map}
use native.Mathlib.Omega.{arith}
use aws_app_mesh_controller.Base.Lists.{is_some, All, filter_map, Keyed, contains-filter_map}

abbrev pub Dict {ℓ κ} : Type ℓ → Type κ → Type (ℓ ⊔ κ)
Dict K V = List (K × V)

unfoldable pub keys {ℓ κ} : {K : Type ℓ} {V : Type κ} → Dict K V → List K
keys [] = []
keys ((k, _) ∷ d) = k ∷ keys d

module _ {ℓ κ} {K : Type ℓ} {V : Type κ} ⦃e : Eq K⦄ where
  -- `v, ok := d[k]`
  unfoldable pub lookup : K → Dict K V → Option V
  lookup k [] = none
  lookup k ((j, v) ∷ d) = if k == j then some v else lookup k d

  -- `d[k] = v`
  unfoldable pub insert : K → V → Dict K V → Dict K V
  insert k v [] = (k, v) ∷ []
  insert k v ((j, w) ∷ d) = if k == j then (k, v) ∷ d else (j, w) ∷ insert k v d

  -- `delete(d, k)`
  unfoldable pub erase : K → Dict K V → Dict K V
  erase k [] = []
  erase k ((j, w) ∷ d) = let rest = erase k d in if k == j then rest else (j, w) ∷ rest

  pub lookup-insert :
      (j k : K) (v : V) (d : Dict K V)
      → lookup j (insert k v d) ≡ (if j == k then some v else lookup j d)
  unfolding insert lookup
  lookup-insert j k v [] = refl
  lookup-insert j k v (_ ∷ d) = ground (arith, lookup-insert j k v d)

  pub lookup-erase :
      (j k : K) (d : Dict K V) → lookup j (erase k d) ≡ (if j == k then none else lookup j d)
  unfolding erase lookup
  lookup-erase j k [] = ground arith
  lookup-erase j k (_ ∷ d) = ground (arith, lookup-erase j k d)

  pub contains-keys : (d : Dict K V) (k : K) → contains (keys d) k ≡ is_some (lookup k d)
  unfolding keys lookup
  contains-keys [] k = refl
  contains-keys (_ ∷ d) k = ground (arith, contains-keys d k)

  pub lookup-nil : (k : K) → lookup k [] ≡ none
  unfolding lookup
  lookup-nil k = refl

module _ {ℓ κ} {K : Type ℓ} {V : Type κ} ⦃e : Eq K⦄ where
  -- `for _, v := range vs { d[f(v)] = v }`
  unfoldable pub index_by : (V → K) → List V → Dict K V → Dict K V
  index_by f [] d = d
  index_by f (v ∷ vs) d = index_by f vs (insert (f v) v d)

  -- `for _, k := range ks { … = append(…, d[k]) }`, where each name is a key of the map.
  unfoldable pub values_of : Dict K V → List K → List V
  values_of d = filter_map (λ k. lookup k d)

  -- Each value stands under its own key.
  abbrev pub IsKeyed : (V → K) → Dict K V → Type (ℓ ⊔ κ)
  IsKeyed f d = Keyed f (λ k. lookup k d)

  insert-IsKeyed : (f : V → K) (v : V) (d : Dict K V) → IsKeyed f d → IsKeyed f (insert (f v) v d)
  insert-IsKeyed f v d h = record {
    key_of = λ k w p. ground (arith, lookup-insert k (f v) v d, h.key_of k w);
  }

  index_by-keeps :
      (f : V → K) (vs : List V) (d : Dict K V) → IsKeyed f d → IsKeyed f (index_by f vs d)
  unfolding index_by
  index_by-keeps f [] d h = h
  index_by-keeps f (v ∷ vs) d h = index_by-keeps f vs (insert (f v) v d) (insert-IsKeyed f v d h)

  pub index_by-IsKeyed : (f : V → K) (vs : List V) → IsKeyed f (index_by f vs [])
  index_by-IsKeyed f vs =
      index_by-keeps f vs [] (record { key_of = λ k v p. cc (lookup-nil {V = V} k) })

  index_by-lookup :
      (f : V → K) (vs : List V) (d : Dict K V) (k : K)
      → is_some (lookup k (index_by f vs d)) ≡ (contains (map f vs) k || is_some (lookup k d))
  unfolding index_by
  index_by-lookup f [] d k = refl
  index_by-lookup f (v ∷ vs) d k =
      ground (arith, index_by-lookup f vs (insert (f v) v d) k, lookup-insert k (f v) v d)

  pub contains-index_by :
      (f : V → K) (vs : List V) (k : K)
      → is_some (lookup k (index_by f vs [])) ≡ contains (map f vs) k
  contains-index_by f vs k = ground (arith, index_by-lookup f vs [] k, lookup-nil {V = V} k)

  pub contains-values_of :
      (f : V → K) (d : Dict K V) (ks : List K) (k : K)
      → IsKeyed f d
      → contains (map f (values_of d ks)) k ≡ (contains ks k && is_some (lookup k d))
  unfolding values_of
  contains-values_of f d ks k h = contains-filter_map f (λ j. lookup j d) ks k h

module _ {ℓ κ μ} {K : Type ℓ} {V : Type κ} ⦃e : Eq K⦄ (P : V → Type μ) (f : V → K) where
  lookup_inserted :
      (k : K) (v : V) (d : Dict K V) (b : Bool)
      → P v
      → ((w : V) → lookup k d ≡ some w → P w)
      → (w : V) → (if b then some v else lookup k d) ≡ some w
      → P w
  lookup_inserted k v d true p h w q = subst P (some-injective v w q) p
  lookup_inserted k v d false p h w q = h w q

  values_satisfy :
      (vs : List V) (d : Dict K V)
      → All P vs
      → ((k : K) (v : V) → lookup k d ≡ some v → P v)
      → (k : K) (v : V) → lookup k (index_by f vs d) ≡ some v
      → P v
  unfolding index_by
  values_satisfy [] d ps h = h
  values_satisfy (v ∷ vs) d ps h =
      values_satisfy vs (insert (f v) v d) ps.1 (λ k w q.
        lookup_inserted k v d (k == f v) ps.0 (h k) w (sym (lookup-insert k (f v) v d) ∙ q))

  -- A value of an index is one of the values that were indexed.
  pub index_by-All :
      (vs : List V) (k : K) (v : V) → All P vs → lookup k (index_by f vs []) ≡ some v → P v
  index_by-All vs k v ps = values_satisfy vs [] ps (λ j w q. cc (lookup-nil {V = V} j)) k v

-- cmp.Equal on maps of texts: the same keys with the same values.
unfoldable pub includes : Dict String String → Dict String String → Bool
includes a [] = true
includes a ((k, v) ∷ rest) = lookup k a == some v && includes a rest

unfoldable pub same_map : Dict String String → Dict String String → Bool
same_map a b = includes a b && includes b a
