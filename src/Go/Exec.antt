-- ===== src/Go/Exec.antt =====
-- Go code that acts on a state and may fail: what was done before a failure stays done, so that the
-- state comes back beside the error too.
use mathlib.Core.Path.{◌≡◌, refl, subst}
use thriftgo.Go.Outcome.{Outcome, ok, err, panic, stuck, map_err}

abbrev pub Exec : Type 0 → Type 0 → Type 0 → Type 0
Exec S E A = S → Outcome E A × S

module _ {S E A : Type 0} where
  abbrev pub pure : A → Exec S E A
  pure a s = (ok a, s)

  abbrev pub fail : E → Exec S E A
  fail e s = (err e, s)

  abbrev pub crash : Exec S E A
  crash s = (panic, s)

  abbrev pub no_fuel : Exec S E A
  no_fuel s = (stuck, s)

  -- A call of a function that does not act on the state.
  abbrev pub lift : Outcome E A → Exec S E A
  lift r s = (r, s)

  -- `if err = f(...); err != nil { return fmt.Errorf("...: %w", err) }`
  abbrev pub wrapping : (E → E) → Exec S E A → Exec S E A
  wrapping f m s = (map_err f (m s).0, (m s).1)

module _ {S E A B : Type 0} where
  abbrev pub continue : Outcome E A → S → (A → Exec S E B) → Outcome E B × S
  continue (ok a) s f = f a s
  continue (err e) s f = (err e, s)
  continue panic s f = (panic, s)
  continue stuck s f = (stuck, s)

  infixl 5 ◌>>=◌ ◌>>◌
  -- Shut, so that a block of steps is taken one by one, by the laws below.
  unfoldable pub ◌>>=◌ : Exec S E A → (A → Exec S E B) → Exec S E B
  ◌>>=◌ m f s = continue (m s).0 (m s).1 f

  abbrev pub ◌>>◌ : Exec S E A → Exec S E B → Exec S E B
  m >> n = m >>= λ _. n

-- `m` runs from `s` to `s'` and returns `a`.
pub record Runs {S E A : Type 0} (m : Exec S E A) (s : S) (a : A) (s' : S) : Type 0 where
  pub runs : m s ≡ (ok a, s')

module _ {S E A B : Type 0} where
  pub Runs-bind :
      (m : Exec S E A) (f : A → Exec S E B) {s s₁ s' : S} {a : A} {b : B}
      → Runs m s a s₁
      → Runs (f a) s₁ b s'
      → Runs (m >>= f) s b s'
  unfolding ◌>>=◌
  Runs-bind m f p q = record { runs = rw p.runs q.runs }

module _ {S E A : Type 0} where
  pub Runs-pure : (a : A) (s : S) → Runs (pure {E = E} a) s a s
  Runs-pure a s = record { runs = refl }

  pub Runs-wrapping :
      (f : E → E) (m : Exec S E A) {s s' : S} {a : A} → Runs m s a s' → Runs (wrapping f m) s a s'
  Runs-wrapping f m p = record { runs = rw p.runs }

  pub Runs-result : {m : Exec S E A} {s s' : S} {a b : A} → a ≡ b → Runs m s a s' → Runs m s b s'
  Runs-result {m} {s} {s'} e r = subst (λ x. Runs m s x s') e r

  pub Runs-end : {m : Exec S E A} {s s₁ s' : S} {a : A} → s₁ ≡ s' → Runs m s a s₁ → Runs m s a s'
  Runs-end {m} {s} {a} e r = subst (λ x. Runs m s a x) e r
