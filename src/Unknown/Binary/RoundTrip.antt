-- ===== src/Unknown/Binary/RoundTrip.antt =====
-- Each reader of binary.go undoes its writer.
use thriftgo.Prelude.{ℕ, ◌+◌, ◌≤◌, ◌≡◌, List, ◌++◌, String, length, drop, false}
use thriftgo.Prelude.Ints.{ℤ, pos, Fits, eq_ℤ}
use thriftgo.Go.Outcome.{ok}
use thriftgo.Unknown.Types.{m8, m16, m32, m64, t_stop}
use thriftgo.Unknown.Binary.Format.{
  length-i64_bytes, length-field_bytes, length-map_bytes, length-string_bytes,
}
use thriftgo.Unknown.Binary.Length.{i64_length, field_begin_length, map_begin_length, string_length}
use thriftgo.Unknown.Binary.Write.{
  Writer, write_i64, write_field_begin, write_map_begin, write_string,
}
use thriftgo.Unknown.Binary.Read.{Reader, read_i64, read_field_begin, read_map_begin, read_string}
use thriftgo.Unknown.Binary.Puts.{
  Puts, write_i64-Puts, write_field_begin-Puts, write_map_begin-Puts, write_string-Puts,
}
use thriftgo.Unknown.Binary.Gets.{
  Gets, read_i64-Gets, read_field_begin-Gets, read_map_begin-Gets, read_string-Gets,
}

-- The writer returns the count `n`, and the reader takes `a` and the same count from what it wrote.
abbrev pub ReadsBack : {A : Type 0} → Writer → Reader A → A → ℕ → List ℕ → List ℕ → Type 0
ReadsBack w r a n buf spare =
    (buf' : List ℕ) × (w buf ≡ ok (n, buf'))
    × (r (record { bytes = buf'; spare = spare }) ≡ ok (a, n))

reads_back :
    {A : Type 0} {w : Writer} {r : Reader A} {a : A} {bs : List ℕ} (n : ℕ) (buf spare : List ℕ)
    → Puts w bs
    → Gets r bs a
    → length bs ≡ n
    → n ≤ length buf
    → ReadsBack w r a n buf spare
reads_back {bs} n buf spare p g e h =
    (bs ++ drop n buf, rw (← e) (p.at buf (rw e h)), rw (← e) (g.at (drop (length bs) buf) spare))

-- An int64 in a buffer with room for it is written in I64Length bytes and read back with that count.
pub read_i64-write_i64 :
    (z : ℤ) (buf spare : List ℕ)
    → Fits m64 z
    → i64_length z ≤ length buf
    → ReadsBack (write_i64 z) read_i64 z (i64_length z) buf spare
read_i64-write_i64 z buf spare f h =
    reads_back 8 buf spare (write_i64-Puts z) (read_i64-Gets z f) (length-i64_bytes z) h

-- A field header with an int8 type other than stop and an int16 id, in a buffer with
-- FieldBeginLength bytes, is read back, type and id, with that count.
pub read_field_begin-write_field_begin :
    (name : String) (t id : ℤ) (buf spare : List ℕ)
    → Fits m8 t
    → Fits m16 id
    → eq_ℤ t t_stop ≡ false
    → field_begin_length name t id ≤ length buf
    → ReadsBack
        (write_field_begin name t id)
        read_field_begin
        (t, id)
        (field_begin_length name t id)
        buf
        spare
read_field_begin-write_field_begin name t id buf spare f g e h =
    reads_back 3 buf spare (write_field_begin-Puts name t id f) (read_field_begin-Gets t id f g e)
      (length-field_bytes t id) h

-- A map header with int8 types and a size of at most 2^31 - 1, in a buffer with MapBeginLength
-- bytes, is read back, both types and the size, with that count.
pub read_map_begin-write_map_begin :
    (k v : ℤ) (n : ℕ) (buf spare : List ℕ)
    → Fits m8 k
    → Fits m8 v
    → Fits m32 (pos n)
    → map_begin_length k v (pos n) ≤ length buf
    → ReadsBack
        (write_map_begin k v (pos n))
        read_map_begin
        (k, v, pos n)
        (map_begin_length k v (pos n))
        buf
        spare
read_map_begin-write_map_begin k v n buf spare f g e h =
    reads_back 6 buf spare (write_map_begin-Puts k v n f g e) (read_map_begin-Gets k v n f g e)
      (length-map_bytes k v n) h

-- A string shorter than 2^31 bytes, in a buffer with StringLength bytes, is read back with that
-- count, whatever stands behind it.
pub read_string-write_string :
    (s buf spare : List ℕ)
    → Fits m32 (pos (length s))
    → string_length s ≤ length buf
    → ReadsBack (write_string s) read_string s (string_length s) buf spare
read_string-write_string s buf spare f h =
    reads_back (4 + length s) buf spare (write_string-Puts s f) (read_string-Gets s f)
      (length-string_bytes s) h
