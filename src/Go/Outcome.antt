-- ===== src/Go/Outcome.antt =====
-- The result of a Go function with an `error` among its results.
use mathlib.Core.Path.{◌≡◌, refl}
use mathlib.Core.Bool.{Bool, true, false}
use thriftgo.Prelude.{if◌then◌else◌}

-- `panic` is a run-time panic, such as an index out of range. `stuck` is no Go value: a loop of the
-- model ran out of fuel.
pub data Outcome {ℓ} (E : Type 0) (A : Type ℓ) : Type ℓ where
  ok : A → Outcome E A
  err : E → Outcome E A
  panic : Outcome E A
  stuck : Outcome E A

infixl 5 ◌>>=◌
abbrev pub ◌>>=◌ {ℓ κ} :
    {E : Type 0} {A : Type ℓ} {B : Type κ} → Outcome E A → (A → Outcome E B) → Outcome E B
ok a >>= f = f a
err e >>= f = err e
panic >>= f = panic
stuck >>= f = stuck

-- `fmt.Errorf("...: %w", err)` around a call.
abbrev pub map_err {ℓ} : {E : Type 0} {A : Type ℓ} → (E → E) → Outcome E A → Outcome E A
map_err f (ok a) = ok a
map_err f (err e) = err (f e)
map_err f panic = panic
map_err f stuck = stuck

-- The result is no run out of fuel, and a value has the property.
abbrev pub Good {ℓ} : {E : Type 0} {A : Type ℓ} → (A → Type 0) → Outcome E A → Type 0
Good P (ok a) = P a
Good P (err e) = Unit
Good P panic = Unit
Good P stuck = ⊥

pub Good-bind {ℓ κ} :
    {B : Type κ} {A : Type ℓ} {E : Type 0} (P : A → Type 0) (Q : B → Type 0) (m : Outcome E A)
    (f : A → Outcome E B)
    → Good P m
    → ((a : A) → P a → Good Q (f a))
    → Good Q (m >>= f)
Good-bind P Q (ok a) f h k = k a h
Good-bind P Q (err e) f h k = tt
Good-bind P Q panic f h k = tt
Good-bind P Q stuck f h k = elim h [ ]

pub Good-weaken {ℓ} :
    {E : Type 0} {A : Type ℓ} (P Q : A → Type 0) (m : Outcome E A)
    → Good P m
    → ((a : A) → P a → Q a)
    → Good Q m
Good-weaken P Q (ok a) h k = k a h
Good-weaken P Q (err e) h k = tt
Good-weaken P Q panic h k = tt
Good-weaken P Q stuck h k = elim h [ ]

pub Good-map_err {ℓ} :
    {E : Type 0} {A : Type ℓ} (P : A → Type 0) (g : E → E) (m : Outcome E A)
    → Good P m
    → Good P (map_err g m)
Good-map_err P g (ok a) h = h
Good-map_err P g (err e) h = tt
Good-map_err P g panic h = tt
Good-map_err P g stuck h = elim h [ ]

pub Good-not_stuck {ℓ} :
    {E : Type 0} {A : Type ℓ} (P : A → Type 0) (m : Outcome E A) → Good P m → ¬ (m ≡ stuck)
Good-not_stuck P (ok a) h e = cc
Good-not_stuck P (err x) h e = cc
Good-not_stuck P panic h e = cc
Good-not_stuck P stuck h e = elim h [ ]

pub Good-if {ℓ} :
    {E : Type 0} {A : Type ℓ} (P : A → Type 0) (m n : Outcome E A) (b : Bool)
    → Good P m
    → Good P n
    → Good P (if b then m else n)
Good-if P m n true h k = h
Good-if P m n false h k = k

-- The result is no run out of fuel.
abbrev pub Answers {ℓ} : {E : Type 0} {A : Type ℓ} → Outcome E A → Type 0
Answers m = Good (λ a. Unit) m

pub Answers-bind {ℓ κ} :
    {B : Type κ} {A : Type ℓ} {E : Type 0} (m : Outcome E A) (f : A → Outcome E B)
    → Answers m
    → ((a : A) → Answers (f a))
    → Answers (m >>= f)
Answers-bind (ok a) f h k = k a
Answers-bind (err e) f h k = tt
Answers-bind panic f h k = tt
Answers-bind stuck f h k = elim h [ ]

pub Good-Answers {ℓ} :
    {E : Type 0} {A : Type ℓ} (P : A → Type 0) (m : Outcome E A) → Good P m → Answers m
Good-Answers P (ok a) h = tt
Good-Answers P (err e) h = tt
Good-Answers P panic h = tt
Good-Answers P stuck h = elim h [ ]

-- What `m >>= f` returns goes through a value of `m`.
pub bind-ok {ℓ} :
    {E : Type 0} {A B : Type ℓ} (m : Outcome E A) (f : A → Outcome E B) (b : B)
    → (m >>= f) ≡ ok b
    → (a : A) × (m ≡ ok a) × (f a ≡ ok b)
bind-ok (ok a) f b h = (a, refl, h)
bind-ok (err e) f b h = let never : ⊥ = cc in elim never [ ]
bind-ok panic f b h = let never : ⊥ = cc in elim never [ ]
bind-ok stuck f b h = let never : ⊥ = cc in elim never [ ]
