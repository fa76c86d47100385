-- ===== src/Base/Keeps.antt =====
-- Calls that leave what is seen of the world as it was, whether they succeed or fail.
use mathlib.Core.Path.{◌≡◌, refl, sym, ap, ◌∙◌}
use mathlib.Core.Bool.{Bool, true, false}
use mathlib.Core.List.{List, [], ◌∷◌}
use aws_app_mesh_controller.Base.Equality.{if◌then◌else◌}
use aws_app_mesh_controller.Base.Errors.{Result, ok, err, panic}
use aws_app_mesh_controller.Base.Exec.{Exec, for_each, continue, ◌>>=◌}

module _ {W V : Type 0} (view : W → V) where
  abbrev pub Keeps : {E A : Type 0} → Exec W E A → Type 0
  Keeps m = (w : W) → view (m w).1 ≡ view w

  module _ {E A : Type 0} where
    pub seen_after :
        (m : Exec W E A) {w w' : W} {a : A} → Keeps m → m w ≡ (ok a, w') → view w' ≡ view w
    seen_after m {w} k e = ap (λ p. view p.1) (sym e) ∙ k w

    pub >>=-Keeps :
        {B : Type 0} (m : Exec W E A) (f : A → Exec W E B)
        → Keeps m
        → ((a : A) → Keeps (f a))
        → Keeps (m >>= f)
    >>=-Keeps {B = B} m f p q w = go (m w).0 (m w).1 (p w)
      where
        go : (r : Result E A) (v : W) → view v ≡ view w → view (continue {B = B} r f v).1 ≡ view w
        go (ok a) v e = q a v ∙ e
        go (err x) v e = e
        go panic v e = e

    pub if-Keeps : (b : Bool) (m k : Exec W E A) → Keeps m → Keeps k → Keeps (if b then m else k)
    if-Keeps true m k p q = p
    if-Keeps false m k p q = q

  module _ {E A B : Type 0} where
    pub for_each-Keeps :
        (f : B → A → Exec W E B)
        → ((b : B) (a : A) → Keeps (f b a))
        → (b : B) (xs : List A) → Keeps (for_each f b xs)
    unfolding for_each
    for_each-Keeps f p b [] = λ w. refl
    for_each-Keeps f p b (x ∷ xs) =
        >>=-Keeps (f b x) (λ c. for_each f c xs) (p b x) (λ c. for_each-Keeps f p c xs)
