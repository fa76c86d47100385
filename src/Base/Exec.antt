-- ===== src/Base/Exec.antt =====
-- Calls that change the world and may fail: what was changed before an error stays changed.
use Prim.Native.String.{String}
use mathlib.Core.Path.{◌≡◌, refl, sym, ap, ◌∙◌, subst}
use mathlib.Core.Bool.{Bool, true, false, ◌||◌}
use aws_app_mesh_controller.Base.Equality.{contains, string_eq, ◌==◌, ==-eq, if◌then◌else◌}
use aws_app_mesh_controller.Base.Lists.{All}
use mathlib.Core.List.{List, [], ◌∷◌, map}
use aws_app_mesh_controller.Base.Errors.{Result, ok, err, panic}

abbrev pub Exec {ℓ κ μ} : Type ℓ → Type κ → Type μ → Type (ℓ ⊔ κ ⊔ μ)
Exec W E A = W → Result E A × W

module _ {ℓ κ μ} {W : Type ℓ} {E : Type κ} {A : Type μ} where
  abbrev pub pure : A → Exec W E A
  pure a w = (ok a, w)

  abbrev pub throw : E → Exec W E A
  throw e w = (err e, w)

  abbrev pub lift : Result E A → Exec W E A
  lift r w = (r, w)

module _ {ℓ κ μ ν} {W : Type ℓ} {E : Type κ} {A : Type μ} {B : Type ν} where
  abbrev pub continue : Result E A → (A → Exec W E B) → Exec W E B
  continue (ok a) f w = f a w
  continue (err e) f w = (err e, w)
  continue panic f w = (panic, w)

  infixl 5 ◌>>=◌ ◌>>◌
  abbrev pub ◌>>=◌ : Exec W E A → (A → Exec W E B) → Exec W E B
  ◌>>=◌ m f w = continue (m w).0 f (m w).1

  abbrev pub ◌>>◌ : Exec W E A → Exec W E B → Exec W E B
  m >> k = m >>= λ _. k

  -- Inversion of a successful bind.
  pub >>=-eq-ok :
      (m : Exec W E A) (f : A → Exec W E B) {w w' : W} {b : B}
      → (m >>= f) w ≡ (ok b, w')
      → (a : A) × (v : W) × (m w ≡ (ok a, v)) × (f a v ≡ (ok b, w'))
  >>=-eq-ok m f {w} {w'} {b} h = go (m w).0 (m w).1 refl h
    where
      go :
          (r : Result E A) (v : W)
          → m w ≡ (r, v)
          → continue r f v ≡ (ok b, w')
          → (a : A) × (v : W) × (m w ≡ (ok a, v)) × (f a v ≡ (ok b, w'))
      go (ok a) v e h = (a, v, e, h)
      go (err x) v e h = cc
      go panic v e h = cc

module _ {ℓ κ μ ν} {W : Type ℓ} {E : Type κ} {A : Type μ} {B : Type ν} where
  -- `for _, a := range list { … if err != nil { return err } … }`
  unfoldable pub for_each : (B → A → Exec W E B) → B → List A → Exec W E B
  for_each f b [] = pure b
  for_each f b (a ∷ as') = f b a >>= λ c. for_each f c as'

-- The entries under the given names satisfy `P` after the run, and the others are as before.
abbrev pub Settles :
    {W V : Type 0} → (W → String → V) → (String → V → Type 0) → List String → W → W → Type 0
Settles view P ns w w' =
    (n : String) → if contains ns n then P n (view w' n) else (view w' n ≡ view w n)

settle_both :
    {V : Type 0} (P : V → Type 0) (t c : Bool) (x y z : V)
    → (if t || false then P y else (y ≡ x))
    → (if c then P z else (z ≡ y))
    → (if t || c then P z else (z ≡ x))
settle_both P true true x y z p q = q
settle_both P true false x y z p q = subst P (sym q) p
settle_both P false true x y z p q = q
settle_both P false false x y z p q = q ∙ p

-- A loop whose every step settles the entry of one name settles the names of its list.
pub for_each-Settles :
    {W E A B V : Type 0} (view : W → String → V) (P : String → V → Type 0) (name : A → String)
    (Q : A → Type 0) (f : B → A → Exec W E B)
    → ((b : B) (a : A) (w : W) (c : B) (w' : W)
        → Q a
        → f b a w ≡ (ok c, w')
        → Settles view P (name a ∷ []) w w')
    → (b : B) (xs : List A) (w : W) (c : B) (w' : W) → All Q xs
    → for_each f b xs w ≡ (ok c, w')
    → Settles view P (map name xs) w w'
unfolding for_each
for_each-Settles view P name Q f step b [] w c w' q e n = ap (λ v. view v n) (sym (ap (λ p. p.1) e))
for_each-Settles view P name Q f step b (a ∷ xs) w c w' q e n =
    let (d, v, e₁, e₂) = >>=-eq-ok (f b a) (λ x. for_each f x xs) e in
    settle_both (P n) (n == name a) (contains (map name xs) n) (view w n) (view v n) (view w' n)
      (step b a w d v q.0 e₁ n) (for_each-Settles view P name Q f step d xs v c w' q.1 e₂ n)

pub Settles-one :
    {W V : Type 0} (view : W → String → V) (P P' : String → V → Type 0) (name : String) (w w' : W)
    → ((o : V) → P name o → P' name o)
    → Settles view P (name ∷ []) w w'
    → Settles view P' (name ∷ []) w w'
Settles-one {V} view P P' name w w' f s n =
    go (n == name) (view w' n ≡ view w n) (λ h. ==-eq h) (s n)
  where
    go :
        (b : Bool) (q : Type 0)
        → (b ≡ true → n ≡ name)
        → (if b || false then P n (view w' n) else q)
        → (if b || false then P' n (view w' n) else q)
    go true q h p =
        subst (λ k. P' k (view w' n)) (sym (h refl)) (f _ (subst (λ k. P k (view w' n)) (h refl) p))
    go false q h p = p

-- What is seen stays as it was.
abbrev pub SameView : {W V : Type 0} → (W → String → V) → W → W → Type 0
SameView view w w' = (n : String) → view w' n ≡ view w n

pub Settles-after :
    {W V : Type 0} (view : W → String → V) (P : String → V → Type 0) (ns : List String) (w v w' : W)
    → SameView view w v
    → Settles view P ns v w'
    → Settles view P ns w w'
Settles-after view P ns w v w' same s n = go (contains ns n) (s n)
  where
    go :
        (b : Bool)
        → (if b then P n (view w' n) else (view w' n ≡ view v n))
        → (if b then P n (view w' n) else (view w' n ≡ view w n))
    go true p = p
    go false p = p ∙ same n

-- What is settled already needs no step.
pub settled_already :
    {W V : Type 0} (view : W → String → V) (P : String → V → Type 0) (name : String) (w : W)
    → P name (view w name)
    → Settles view P (name ∷ []) w w
settled_already view P name w h n = go (n == name) (λ e. ==-eq e)
  where
    go :
        (b : Bool)
        → (b ≡ true → n ≡ name)
        → if b || false then P n (view w n) else (view w n ≡ view w n)
    go true e = subst (λ k. P k (view w k)) (sym (e refl)) h
    go false e = refl
