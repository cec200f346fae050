-- ===== src/Unknown/Binary/Overrun.antt =====
-- What ReadString does with a size that the slice does not hold.
use thriftgo.Prelude.{
  ℕ, ◌+◌, ◌≤◌, ◌<◌, ◌≡◌, List, ◌++◌, arith, append_assoc, ltb, leb, length, take, drop,
  length-append, drop-length-append, take-append_le, subst, if◌then◌else◌,
}
use thriftgo.Prelude.Ints.{pos, Fits}
use thriftgo.Go.Outcome.{ok, err, panic}
use thriftgo.Unknown.Types.{m32, invalid_data_length}
use thriftgo.Unknown.Binary.Format.{i32_bytes, length-i32_bytes}
use thriftgo.Unknown.Binary.Read.{Slice, read_string, read_sized, slice_between}
use thriftgo.Unknown.Binary.Gets.{read_i32-Gets}

-- A slice whose first four bytes announce a string of `n` bytes.
abbrev pub announcing : ℕ → List ℕ → List ℕ → Slice
announcing n rest spare = record { bytes = i32_bytes (pos n) ++ rest; spare = spare }

module _ (n : ℕ) (rest spare : List ℕ) (fits : Fits m32 (pos n)) where
  whole : length (i32_bytes (pos n) ++ rest) ≡ 4 + length rest
  whole = omega (arith, length-append (i32_bytes (pos n)) rest, length-i32_bytes (pos n))

  capacity : length ((i32_bytes (pos n) ++ rest) ++ spare) ≡ 4 + length rest + length spare
  capacity = omega (arith, whole, length-append (i32_bytes (pos n) ++ rest) spare)

  beyond : drop 4 ((i32_bytes (pos n) ++ rest) ++ spare) ≡ rest ++ spare
  beyond =
      subst (λ k. drop k ((i32_bytes (pos n) ++ rest) ++ spare) ≡ rest ++ spare)
        (length-i32_bytes (pos n))
        (rw (append_assoc (i32_bytes (pos n)) rest spare)
          (drop-length-append (i32_bytes (pos n)) (rest ++ spare)))

  -- The two tests that ReadString makes, on the size and in the slice expression.
  read_string_tests : read_string (announcing n rest spare) ≡ (
      if ltb (4 + length rest) n
      then err invalid_data_length
      else if leb (4 + n) (4 + length rest + length spare)
      then ok (take n (rest ++ spare), 4 + n)
      else panic)
  unfolding read_string read_sized slice_between
  read_string_tests =
      rw
        (
          (read_i32-Gets (pos n) fits).at rest spare,
          length-i32_bytes (pos n),
          whole,
          capacity,
          beyond,
        )
        (ground arith)

  -- For a size of at most 2^31 - 1 in the first four bytes: a size beyond the length of the whole
  -- slice is refused with InvalidDataLength; a size that the bytes behind it hold is read. Between
  -- the two, a size that passes the test although the bytes behind it are too few, the read panics
  -- if it leaves the capacity of the slice, and otherwise returns bytes from beyond the end of the
  -- slice.
  pub read_string_sizes :
      (4 + length rest < n → read_string (announcing n rest spare) ≡ err invalid_data_length)
      × (n ≤ length rest → read_string (announcing n rest spare) ≡ ok (take n rest, 4 + n))
      × (n ≤ 4 + length rest
          → length rest + length spare < n
          → read_string (announcing n rest spare) ≡ panic)
      × (n ≤ 4 + length rest
          → n ≤ length rest + length spare
          → read_string (announcing n rest spare) ≡ ok (take n (rest ++ spare), 4 + n))
  read_string_sizes = (
    (λ h. rw read_string_tests (ground arith)),
    (λ h. rw (read_string_tests, ← take-append_le n rest spare h) (ground arith)),
    (λ h k. rw read_string_tests (ground arith)),
    (λ h k. rw read_string_tests (ground arith)),
  )
