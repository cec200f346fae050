-- ===== src/Align.antt =====
-- generator/golang/align.go: the size of a struct, and the order of its fields that makes it small.
pub mod Bounds
pub mod Layout
pub mod Reorder
mod Tests
use thriftgo.Prelude.{
  ℕ, zero, suc, ◌+◌, ◌-◌, ◌*◌, ◌/◌, ◌==◌, Bool, true, false, Option, none, some, List, [], ◌∷◌, ltb,
  leb, if◌then◌else◌,
}
use thriftgo.Go.Outcome.{Outcome, ok, panic, ◌>>=◌}

-- The cases of parser.Category that `sizeof` has an entry for; any other is `unsized`.
pub data Category : Type 0 where
  bool byte i16 i32 i64 double string binary set list map struct enum unsized : Category

-- `pointerSize` on a 64-bit machine.
abbrev pub pointer_size : ℕ
pointer_size = 8

abbrev pub sizeof : Category → ℕ
sizeof Category.bool = 1
sizeof Category.byte = 1
sizeof Category.i16 = 2
sizeof Category.i32 = 4
sizeof Category.i64 = 8
sizeof Category.double = 8
sizeof Category.string = pointer_size * 2
sizeof Category.binary = pointer_size * 3
sizeof Category.set = pointer_size * 3
sizeof Category.list = pointer_size * 3
sizeof Category.map = pointer_size
sizeof Category.struct = pointer_size
sizeof Category.enum = 8
sizeof Category.unsized = 0

pub record Align : Type 0 where
  pub unit : ℕ
  pub size : ℕ

-- A division by zero panics.
unfoldable pub padded : Align → Outcome (Unit {0}) ℕ
padded a = if a.unit == 0 then panic else ok ((a.size + a.unit - 1) / a.unit * a.unit)

-- The unit once a field of a size is added.
abbrev pub unit_with : ℕ → ℕ → ℕ
unit_with unit size =
    let own = if leb pointer_size size then pointer_size else size in
    if ltb unit own then own else unit

-- `if pad-a.size < size { a.size = pad }; a.size += size`
abbrev pub place : ℕ → Align → ℕ → Align
place size a pad = record a { size = (if ltb (pad - a.size) size then pad else a.size) + size }

unfoldable pub add : ℕ → Align → Outcome (Unit {0}) Align
add size a =
    let b = record a { unit = unit_with a.unit size } in padded b >>= λ pad. ok (place size b pad)

unfoldable pub add_all : List ℕ → Align → Outcome (Unit {0}) Align
add_all [] a = ok a
add_all (s ∷ ss) a = add s a >>= add_all ss

abbrev pub empty : Align
empty = record { unit = 0; size = 0 }

-- The size of a struct whose fields have these sizes.
unfoldable pub struct_size : List ℕ → Outcome (Unit {0}) ℕ
struct_size sizes = add_all sizes empty >>= padded

pub record SizeDiff : Type 0 where
  pub original : ℕ
  pub arranged : ℕ

-- `sort` is sort.Slice with the test that the source gives it, and `redirect` is NeedRedirect.
module _ {Field : Type 0} (category : Field → Category) (redirect : Field → Bool)
    (sort : (Field → Field → Bool) → List Field → List Field) where
  abbrev pub field_size : Field → ℕ
  field_size f = if redirect f then pointer_size else sizeof (category f)

  abbrev pub field_sizes : List Field → List ℕ
  field_sizes [] = []
  field_sizes (f ∷ fs) = field_size f ∷ field_sizes fs

  abbrev pub sorted : List Field → List Field
  sorted = sort (λ f g. leb (field_size g) (field_size f))

  -- The result, which is nil for a struct without fields, and the fields as they are left.
  unfoldable pub reorder_fields : List Field → Outcome (Unit {0}) (Option SizeDiff × List Field)
  reorder_fields [] = ok (none, [])
  reorder_fields (f ∷ fs) = struct_size (field_sizes (f ∷ fs)) >>= λ original.
      struct_size (field_sizes (sorted (f ∷ fs))) >>= λ arranged. ok (
        some (record { original = original; arranged = arranged }),
        (if original == arranged then f ∷ fs else sorted (f ∷ fs)),
      )
