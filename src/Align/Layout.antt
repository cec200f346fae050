-- ===== src/Align/Layout.antt =====
-- Where align.go puts the fields of a struct, and how large it makes the struct.
use thriftgo.Prelude.{
  ℕ, ◌+◌, ◌-◌, ◌*◌, ◌<◌, ◌≤◌, ◌≡◌, ◌⊎◌, refl, inl, inr, List, [], ◌∷◌, ltb, Bool-cases, arith,
}
use thriftgo.Go.Outcome.{ok, ◌>>=◌}
use thriftgo.Align.{padded, unit_with, add, add_all, struct_size}
use thriftgo.Align.Bounds.{sum, ArePositive, padded-Boundary, Boundary, struct_size-bounds}

-- The unit `v` of a struct with the unit `u`, once it has a field of a size: the larger of its unit
-- and of the size, which counts as eight bytes at most.
pub record IsUnit (u size v : ℕ) : Type 0 where
  pub kept : u ≤ v
  pub own : (size ≤ v) ⊎ (8 ≤ v)
  pub least : (v ≡ u) ⊎ ((v ≡ size) × (size ≤ 8)) ⊎ ((v ≡ 8) × (8 ≤ size))

-- Where a field of a size starts in a struct of so many bytes: behind them, if it ends at or before
-- the next multiple of the unit, and at that multiple otherwise.
pub data Starts (u filled size : ℕ) : ℕ → Type 0 where
  packed : {p : ℕ} → Boundary u filled p → filled + size ≤ p → Starts u filled size filled
  aligned : {p : ℕ} → Boundary u filled p → p < filled + size → Starts u filled size p

-- The whole of a struct with so many bytes, once the fields of these sizes follow.
pub data Layout : ℕ → ℕ → List ℕ → ℕ → Type 0 where
  closed : {u filled n : ℕ} → Boundary u filled n → Layout u filled [] n
  placed :
      {u v filled size start n : ℕ} {sizes : List ℕ}
      → IsUnit u size v
      → Starts v filled size start
      → Layout v (start + size) sizes n
      → Layout u filled (size ∷ sizes) n

unit_with-IsUnit : (u size : ℕ) → IsUnit u size (unit_with u size)
unit_with-IsUnit u size = record { kept = ground arith; own = ground arith; least = ground arith }

record Added (u filled size : ℕ) : Type 0 where
  unit : ℕ
  start : ℕ
  result :
      add size (record { unit = u; size = filled })
      ≡ ok (record { unit = unit; size = start + size })
  some_unit : 0 < unit
  whose : IsUnit u size unit
  spot : Starts unit filled size start

add-Added : (u filled size : ℕ) → 0 < size → Added u filled size
unfolding add
add-Added u filled size h =
    let v = unit_with u size in
    let some_unit : 0 < v = ground (arith, h) in
    let (p, e, b) = padded-Boundary (record { unit = v; size = filled }) some_unit in
    let low = b.low in
    elim (Bool-cases (ltb (p - filled) size)) [
      | inl over ↦ record {
        unit = v;
        start = p;
        result = rw (add, e, over) refl;
        some_unit = some_unit;
        whose = unit_with-IsUnit u size;
        spot = aligned b (ground (arith, over, low));
      }
      | inr fits ↦ record {
        unit = v;
        start = filled;
        result = rw (add, e, fits) refl;
        some_unit = some_unit;
        whose = unit_with-IsUnit u size;
        spot = packed b (ground (arith, fits, low));
      }
    ]

add_all-Layout :
    (u filled : ℕ) (sizes : List ℕ)
    → 0 < u
    → ArePositive sizes
    → (n : ℕ) × ((add_all sizes (record { unit = u; size = filled }) >>= padded) ≡ ok n)
      × Layout u filled sizes n
unfolding add_all
add_all-Layout u filled [] h p =
    let (n, e, b) = padded-Boundary (record { unit = u; size = filled }) h in (n, e, closed b)
add_all-Layout u filled (s ∷ ss) h p =
    let a = add-Added u filled s p.0 in
    let (n, e, l) = add_all-Layout a.unit (a.start + s) ss a.some_unit p.1 in
    (n, rw (add_all, a.result) e, placed a.whose a.spot l)

-- A struct with a field at least, whose fields all have a size, has one, and it is that of the
-- layout: with the unit of the fields up to a field, that one included, the field lies right behind
-- the others if it ends at or before the next multiple of the unit, and at that multiple otherwise,
-- and the size is the next multiple of the unit of all. It is no less than the sizes together, and
-- less than twice these and eight bytes.
pub struct_size-Layout :
    (s : ℕ) (ss : List ℕ)
    → ArePositive (s ∷ ss)
    → (n : ℕ) × (struct_size (s ∷ ss) ≡ ok n)
      × Layout 0 0 (s ∷ ss) n
      × (sum (s ∷ ss) ≤ n)
      × (n < 2 * sum (s ∷ ss) + 8)
unfolding struct_size add_all
struct_size-Layout s ss p =
    let a = add-Added 0 0 s p.0 in
    let (n, e, l) = add_all-Layout a.unit (a.start + s) ss a.some_unit p.1 in
    let whole : struct_size (s ∷ ss) ≡ ok n = rw (struct_size, add_all, a.result) e in
    let (low, high) = struct_size-bounds s ss p n whole in
    (n, whole, placed a.whose a.spot l, low, high)
