-- ===== src/Base/Errors.antt =====
-- What a Go call hands back: a value, an error value, or a panic (a nil dereference).
pub data Result {ℓ κ} (E : Type ℓ) (A : Type κ) : Type (ℓ ⊔ κ) where
  ok : A → Result E A
  err : E → Result E A
  panic : Result E A

module _ {ℓ κ μ} {E : Type ℓ} {A : Type κ} {B : Type μ} where
  -- A panic unwinds; `if err != nil { return err }`; else the value is passed on.
  infixl 5 ◌>>=◌ ◌>>◌
  abbrev pub ◌>>=◌ : Result E A → (A → Result E B) → Result E B
  ◌>>=◌ panic next = panic
  ◌>>=◌ (err problem) next = err problem
  ◌>>=◌ (ok value) next = next value

  abbrev pub ◌>>◌ : Result E A → Result E B → Result E B
  ◌>>◌ first second = first >>= λ _. second
