-- ===== src/Align/Bounds.antt =====
-- How large align.go makes a struct.
use thriftgo.Prelude.{
  ℕ, ◌+◌, ◌-◌, ◌*◌, ◌/◌, ◌%◌, ◌==◌, ◌<◌, ◌≤◌, ◌≡◌, refl, false, List, [], ◌∷◌, arith,
}
use native.Mathlib.Nat.{div-add-mod', mod-lt}
use thriftgo.Go.Outcome.{ok}
use thriftgo.Align.{Align, padded, unit_with, place, add, add_all, empty, struct_size}

abbrev pub sum : List ℕ → ℕ
sum [] = 0
sum (s ∷ ss) = s + sum ss

abbrev pub ArePositive : List ℕ → Type 0
ArePositive [] = Unit
ArePositive (s ∷ ss) = (0 < s) × ArePositive ss

between : (q r m s u : ℕ) → q + r ≡ m → m ≡ s + u - 1 → r < u → (s ≤ q) × (q < s + u)
between q r m s u e f h = omega arith

-- The first multiple of the unit, from so many bytes on.
pub record Boundary (u filled p : ℕ) : Type 0 where
  pub times : ℕ
  pub multiple : p ≡ times * u
  pub low : filled ≤ p
  pub high : p < filled + u

pub padded-Boundary :
    (a : Align) → 0 < a.unit → (p : ℕ) × (padded a ≡ ok p) × Boundary a.unit a.size p
unfolding padded
padded-Boundary a h =
    let m = a.size + a.unit - 1 in
    let (low, high) =
      between (m / a.unit * a.unit) (m % a.unit) m a.size a.unit (div-add-mod' m a.unit) refl
        (mod-lt m h) in
    let nonzero : (a.unit == 0) ≡ false = ground arith in
    (
      m / a.unit * a.unit,
      rw (nonzero, padded) refl,
      record { times = m / a.unit; multiple = refl; low = low; high = high },
    )

unit_with-bounds :
    (unit size : ℕ)
    → unit ≤ 8
    → 0 < size
    → (0 < unit_with unit size) × (unit_with unit size ≤ 8) × (unit_with unit size ≤ unit + size)
unit_with-bounds unit size h k = ground arith

place-bounds :
    (size pad : ℕ) (b : Align)
    → b.size ≤ pad
    → (b.size + size ≤ (place size b pad).size) × ((place size b pad).size ≤ b.size + 2 * size)
place-bounds size pad b h = ground arith

-- What a step makes of a layout, where the fields that it adds have `n` bytes.
pub record Grows (n : ℕ) (a b : Align) : Type 0 where
  pub some_unit : 0 < b.unit
  pub small_unit : b.unit ≤ 8
  pub enough : a.size + n ≤ b.size
  pub not_much : b.size ≤ a.size + 2 * n

add-Grows :
    (size : ℕ) (a : Align)
    → a.unit ≤ 8
    → 0 < size
    → (b : Align) × (add size a ≡ ok b) × Grows size a b
unfolding add
add-Grows size a h k =
    let c : Align = record a { unit = unit_with a.unit size } in
    let (some_unit, small_unit, u) = unit_with-bounds a.unit size h k in
    let (pad, e, next) = padded-Boundary c some_unit in
    let (enough, not_much) = place-bounds size pad c next.low in
    (
      place size c pad,
      rw (add, e) refl,
      record {
        some_unit = some_unit;
        small_unit = small_unit;
        enough = enough;
        not_much = not_much;
      },
    )

add_all-Grows :
    (sizes : List ℕ) (a : Align)
    → a.unit ≤ 8
    → 0 < a.unit
    → ArePositive sizes
    → (b : Align) × (add_all sizes a ≡ ok b) × Grows (sum sizes) a b
unfolding add_all
add_all-Grows [] a h k p = (
  a,
  refl,
  record { some_unit = k; small_unit = h; enough = omega arith; not_much = omega arith },
)
add_all-Grows (s ∷ ss) a h k p =
    let (b, e, g) = add-Grows s a h p.0 in
    let (c, f, i) = add_all-Grows ss b g.small_unit g.some_unit p.1 in
    (
      c,
      rw (add_all, e) f,
      record {
        some_unit = i.some_unit;
        small_unit = i.small_unit;
        enough = omega (arith, g.enough, i.enough);
        not_much = omega (arith, g.not_much, i.not_much);
      },
    )

-- The size is no less than the sizes together, and less than twice these and eight bytes.
pub struct_size-bounds :
    (s : ℕ) (ss : List ℕ)
    → ArePositive (s ∷ ss)
    → (n : ℕ) → struct_size (s ∷ ss) ≡ ok n
    → (sum (s ∷ ss) ≤ n) × (n < 2 * sum (s ∷ ss) + 8)
unfolding struct_size add_all
struct_size-bounds s ss p n whole =
    let (b, e, g) = add-Grows s empty (omega arith) p.0 in
    let (c, f, i) = add_all-Grows ss b g.small_unit g.some_unit p.1 in
    let (m, d, next) = padded-Boundary c i.some_unit in
    let found : struct_size (s ∷ ss) ≡ ok m = rw (struct_size, e, f, d) refl in
    let same : m ≡ n = cc in
    (
      omega (arith, same, g.enough, i.enough, next.low),
      omega (arith, same, g.not_much, i.not_much, i.small_unit, next.high),
    )
