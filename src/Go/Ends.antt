-- ===== src/Go/Ends.antt =====
-- Code that never runs out of the model's fuel, with a property of the values that it returns.
use thriftgo.Go.Outcome.{Outcome, ok, err, panic, stuck, Good, Good-weaken, Good-map_err}
use thriftgo.Go.Exec.{Exec, pure, fail, lift, wrapping, continue, ◌>>=◌}

pub record Ends {S E A : Type 0} (P : A → Type 0) (m : Exec S E A) : Type 0 where
  pub at : (s : S) → Good P (m s).0

module _ {S E A : Type 0} {P : A → Type 0} where
  pub Ends-pure : (a : A) → P a → Ends P (pure {S = S} {E = E} a)
  Ends-pure a h = record { at = λ s. h }

  pub Ends-fail : (e : E) → Ends P (fail {S = S} e)
  Ends-fail e = record { at = λ s. tt }

  pub Ends-lift : (r : Outcome E A) → Good P r → Ends P (lift {S = S} r)
  Ends-lift r h = record { at = λ s. h }

  pub Ends-wrapping : (f : E → E) (m : Exec S E A) → Ends P m → Ends P (wrapping f m)
  Ends-wrapping f m h = record { at = λ s. Good-map_err P f (m s).0 (h.at s) }

pub Ends-weaken :
    {S E A : Type 0} {P Q : A → Type 0} {m : Exec S E A}
    → Ends P m
    → ((a : A) → P a → Q a)
    → Ends Q m
Ends-weaken {P} {Q} {m} p h = record { at = λ s. Good-weaken P Q (m s).0 (p.at s) h }

module _ {S E A B : Type 0} {P : A → Type 0} {Q : B → Type 0} where
  continue-Good :
      (r : Outcome E A) (s : S) (f : A → Exec S E B)
      → Good P r
      → ((a : A) → P a → Ends Q (f a))
      → Good Q (continue r s f).0
  continue-Good (ok a) s f h k = (k a h).at s
  continue-Good (err e) s f h k = tt
  continue-Good panic s f h k = tt
  continue-Good stuck s f h k = elim h [ ]

  pub Ends-bind :
      (m : Exec S E A) (f : A → Exec S E B)
      → Ends P m
      → ((a : A) → P a → Ends Q (f a))
      → Ends Q (m >>= f)
  unfolding ◌>>=◌
  Ends-bind m f h k = record { at = λ s. continue-Good (m s).0 (m s).1 f (h.at s) k }
