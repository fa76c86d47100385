-- ===== src/Membership/Candidates.antt =====
-- The loop that collects the objects whose test passes, and what a success of a chain of calls tells.
use aws_app_mesh_controller.Base.{
  Bool, false, List, [], ◌∷◌, Result, ok, err, panic, ◌≡◌, refl, ap, ◌∙◌, ◌↔◌, select, All,
  if◌then◌else◌, ◌>>=◌,
}
use aws_app_mesh_controller.Membership.{candidates, wrap}

abbrev pub positive : {E : Type 0} → Result E Bool → Bool
positive (ok b) = b
positive (err e) = false
positive panic = false

-- The test is answered.
abbrev pub Answered : {E : Type 0} → Result E Bool → Type 0
Answered r = (b : Bool) × (r ≡ ok b)

ok-inj : {E A : Type 0} {x y : A} → Path (Result E A) (ok x) (ok y) → x ≡ y
ok-inj e = cc

pub bind-ok :
    {E A B : Type 0} (r : Result E A) (f : A → Result E B) (b : B)
    → ((r >>= f) ≡ ok b) ↔ ((a : A) × (r ≡ ok a) × (f a ≡ ok b))
bind-ok (ok a) f b = (λ e. (a, refl, e), λ (a', e, h). ap f (ok-inj e) ∙ h)
bind-ok (err e) f b = (λ h. cc, λ h. cc (h.1))
bind-ok panic f b = (λ h. cc, λ h. cc (h.1))

pub wrap-ok : {E F A : Type 0} (f : E → F) (r : Result E A) (a : A) → (wrap f r ≡ ok a) ↔ (r ≡ ok a)
wrap-ok f (ok b) a = (λ e. cc, λ e. cc)
wrap-ok f (err e) a = (λ h. cc, λ h. cc)
wrap-ok f panic a = (λ h. cc, λ h. cc)

module _ {E A : Type 0} (f : A → Result E Bool) where
  -- The loop succeeds exactly when each test is answered, with the elements that pass.
  pub candidates-ok :
      (xs ys : List A)
      → (candidates f xs ≡ ok ys)
        ↔ (All (λ a. Answered (f a)) xs × (select (λ a. positive (f a)) xs ≡ ys))
  unfolding candidates select
  candidates-ok [] ys = (λ e. (tt, cc), λ p. ap (λ (zs : List A). ok zs) p.1)
  candidates-ok (x ∷ xs) ys = step (candidates-ok xs) (f x)
    where
      step :
          ((zs : List A)
            → (candidates f xs ≡ ok zs)
              ↔ (All (λ a. Answered (f a)) xs × (select (λ a. positive (f a)) xs ≡ zs)))
          → (r : Result E Bool)
          → ((do matches ← r; rest ← candidates f xs; ok (if matches then x ∷ rest else rest))
              ≡ ok ys)
            ↔ ((Answered r × All (λ a. Answered (f a)) xs)
                × ((if positive r
                      then x ∷ select (λ a. positive (f a)) xs
                      else select (λ a. positive (f a)) xs)
                    ≡ ys))
      step later (ok b) = (
        λ h.
            let (rest, found, same) = (bind-ok (candidates f xs) _ ys).0 h in
            let (all, these) = (later rest).0 found in
            (((b, refl), all), ap (λ zs. if b then x ∷ zs else zs) these ∙ ok-inj same),
        λ (all, same).
            (bind-ok (candidates f xs) _ ys).1
              (_, (later _).1 (all.1, refl), ap (λ (zs : List A). ok zs) same),
      )
      step later (err e) = (λ h. cc, λ h. cc (h.0.0.1))
      step later panic = (λ h. cc, λ h. cc (h.0.0.1))
