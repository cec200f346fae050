-- ===== src/Unknown/Binary/Counts.antt =====
-- What the readers of binary.go count: on every slice, a read that succeeds has taken a byte at
-- least, and but for strings no more than the slice has.
use thriftgo.Prelude.{
  ℕ, ◌+◌, ◌≤◌, ◌≡◌, List, [], ◌∷◌, arith, ltb, leb, Bool-cases, inl, inr, length, length-drop,
  if◌then◌else◌,
}
use thriftgo.Prelude.Ints.{ℤ, pos, negsuc, eq_ℤ}
use thriftgo.Go.Outcome.{Outcome, ok, err, Good, Good-bind, ◌>>=◌}
use thriftgo.Unknown.Types.{t_stop, Error}
use thriftgo.Unknown.Binary.Read.{
  Slice, Reader, slice_from, slice_between, first_byte, read_byte, read_i16, read_i32, read_i64,
  read_double, read_bool, read_sized, read_string, read_field_begin, checked_size, read_list_begin,
  read_set_begin, read_map_begin,
}

-- `k` bytes at least, and no more than there are.
abbrev pub Takes : {A : Type 0} → ℕ → Slice → A × ℕ → Type 0
Takes k fs r = (k ≤ r.1) × (r.1 ≤ length fs.bytes)

-- The rest of a slice is shorter by what was cut off.
pub slice_from-Good :
    (n : ℕ) (fs : Slice)
    → Good (λ (r : Slice). length r.bytes + n ≡ length fs.bytes) (slice_from n fs)
unfolding slice_from
slice_from-Good n fs = elim (Bool-cases (leb n (length fs.bytes))) [
  | inl h ↦
      rw h
        (let le : n ≤ length fs.bytes = ground arith in omega (arith, le, length-drop n fs.bytes))
  | inr h ↦ rw h tt
]

first_byte-Good : (bs : List ℕ) → Good (λ r. (1 ≤ r.1) × (r.1 ≤ length bs)) (first_byte bs)
unfolding first_byte
first_byte-Good [] = tt
first_byte-Good (b ∷ bs) = omega arith

pub read_byte-Good : (fs : Slice) → Good (Takes 1 fs) (read_byte fs)
unfolding read_byte
read_byte-Good fs = first_byte-Good fs.bytes

-- A word of `n` bytes.
word-Good :
    {A : Type 0} (n : ℕ) (fs : Slice) (a : A) (e : Error)
    → Good (Takes n fs) (if ltb (length fs.bytes) n then err e else ok (a, n))
word-Good n fs a e = elim (Bool-cases (ltb (length fs.bytes) n)) [
  | inl h ↦ rw h tt
  | inr h ↦ rw h (ground arith)
]

pub read_i16-Good : (fs : Slice) → Good (Takes 2 fs) (read_i16 fs)
unfolding read_i16
read_i16-Good fs = word-Good 2 fs _ _

pub read_i32-Good : (fs : Slice) → Good (Takes 4 fs) (read_i32 fs)
unfolding read_i32
read_i32-Good fs = word-Good 4 fs _ _

pub read_i64-Good : (fs : Slice) → Good (Takes 8 fs) (read_i64 fs)
unfolding read_i64
read_i64-Good fs = word-Good 8 fs _ _

pub read_double-Good : (fs : Slice) → Good (Takes 8 fs) (read_double fs)
unfolding read_double
read_double-Good fs = word-Good 8 fs _ _

pub read_bool-Good : (fs : Slice) → Good (Takes 1 fs) (read_bool fs)
unfolding read_bool
read_bool-Good fs = Good-bind (Takes 1 fs) _ (read_byte fs) _ (read_byte-Good fs) (λ r h. h)

read_sized-Good :
    (k : ℕ) (fs : Slice) (l : ℕ) (size : ℤ) → k ≤ l → Good (λ r. k ≤ r.1) (read_sized fs l size)
unfolding read_sized slice_between
read_sized-Good k fs l (pos n) h = ground arith
read_sized-Good k fs l (negsuc n) h = tt

pub read_string-Good : (fs : Slice) → Good (λ r. 4 ≤ r.1) (read_string fs)
unfolding read_string
read_string-Good fs =
    Good-bind (Takes 4 fs) _ (read_i32 fs) _ (read_i32-Good fs)
      (λ r h. read_sized-Good 4 fs r.1 r.0 h.0)

checked_size-Good :
    {A : Type 0} (P : A → Type 0) (size : ℤ) (a : A) → P a → Good P (checked_size size a)
unfolding checked_size
checked_size-Good P (pos n) a h = h
checked_size-Good P (negsuc n) a h = tt

-- A word behind `n` bytes.
behind-Good :
    {A B : Type 0} (fs : Slice) (n k : ℕ) (read : Reader A) (P : B → Type 0)
    (f : A × ℕ → Outcome Error B)
    → ((rest : Slice) → Good (Takes k rest) (read rest))
    → ((r : A × ℕ) → k ≤ r.1 → n + r.1 ≤ length fs.bytes → Good P (f r))
    → Good P (slice_from n fs >>= λ rest. read rest >>= f)
behind-Good fs n k read P f g h =
    Good-bind _ P (slice_from n fs) _ (slice_from-Good n fs)
      λ rest e. Good-bind _ P (read rest) f (g rest) λ r t. h r t.0 (omega arith)

pub read_field_begin-Good : (fs : Slice) → Good (Takes 1 fs) (read_field_begin fs)
unfolding read_field_begin
read_field_begin-Good fs = Good-bind (Takes 1 fs) _ (read_byte fs) _ (read_byte-Good fs) λ r h.
    elim (Bool-cases (eq_ℤ r.0 t_stop)) [
      | inl e ↦ rw e h
      | inr e ↦ rw e (behind-Good fs r.1 2 read_i16 _ _ read_i16-Good (λ q k b. (omega arith, b)))
    ]

pub read_list_begin-Good : (fs : Slice) → Good (Takes 5 fs) (read_list_begin fs)
unfolding read_list_begin
read_list_begin-Good fs = Good-bind (Takes 1 fs) _ (read_byte fs) _ (read_byte-Good fs) λ r h.
    behind-Good fs r.1 4 read_i32 _ _ read_i32-Good
      λ q k b. checked_size-Good _ q.0 _ (omega arith, b)

pub read_set_begin-Good : (fs : Slice) → Good (Takes 5 fs) (read_set_begin fs)
unfolding read_set_begin
read_set_begin-Good fs = Good-bind (Takes 1 fs) _ (read_byte fs) _ (read_byte-Good fs) λ r h.
    behind-Good fs r.1 4 read_i32 _ _ read_i32-Good
      λ q k b. checked_size-Good _ q.0 _ (omega arith, b)

pub read_map_begin-Good : (fs : Slice) → Good (Takes 6 fs) (read_map_begin fs)
unfolding read_map_begin
read_map_begin-Good fs = Good-bind (Takes 1 fs) _ (read_byte fs) _ (read_byte-Good fs) λ r h.
    behind-Good fs r.1 1 read_byte _ _ read_byte-Good λ q k b.
      behind-Good fs (r.1 + q.1) 4 read_i32 _ _ read_i32-Good
        λ t k' b'. checked_size-Good _ t.0 _ (omega arith, b')
