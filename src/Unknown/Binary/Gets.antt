-- ===== src/Unknown/Binary/Gets.antt =====
-- What a reader returns on a slice that begins with the bytes of an item: the item, and how many
-- bytes it took.
use thriftgo.Prelude.{
  ℕ, ◌+◌, ◌≤◌, ◌<◌, ◌≡◌, refl, subst, Bool, true, false, List, ◌++◌, arith, append_assoc, ltb,
  leb-true, ltb-false, length, take, length-append, take-length-append, drop-length-append,
}
use thriftgo.Prelude.Ints.{ℤ, pos, Fits, eq_ℤ, unsigned, wrap_int-Fits, unsigned-lt}
use thriftgo.Go.Outcome.{ok}
use thriftgo.Unknown.Types.{m8, m16, m32, m64, t_stop}
use thriftgo.Unknown.Binary.Words.{
  be_bytes, be_word, length-be_bytes, IsWord, IsWord-2, IsWord-4, IsWord-8, be_word-be_bytes,
}
use thriftgo.Unknown.Binary.Format.{
  byte_bytes, i16_bytes, i32_bytes, i64_bytes, double_bytes, bool_bytes, field_bytes, list_bytes,
  map_bytes, string_bytes,
}
use thriftgo.Unknown.Binary.Read.{
  Reader, slice_from, slice_between, read_byte, read_i16, read_i32, read_i64, read_double,
  read_bool, read_sized, read_string, read_binary, read_field_begin, checked_size, read_list_begin,
  read_set_begin, read_map_begin,
}

pub record Gets {A : Type 0} (r : Reader A) (bs : List ℕ) (a : A) : Type 0 where
  pub at :
      (rest spare : List ℕ) → r (record { bytes = bs ++ rest; spare = spare }) ≡ ok (a, length bs)

-- Cutting an item off the front of a slice.
pub slice_from-append :
    (bs rest spare : List ℕ)
    → slice_from (length bs) (record { bytes = bs ++ rest; spare = spare })
      ≡ ok (record { bytes = rest; spare = spare })
unfolding slice_from
slice_from-append bs rest spare =
    let inside : length bs ≤ length (bs ++ rest) = omega (arith, length-append bs rest) in
    rw (leb-true (length bs) (length (bs ++ rest)) inside, drop-length-append bs rest)

word_test : (n v : ℕ) (rest : List ℕ) → ltb (length (be_bytes n v ++ rest)) n ≡ false
word_test n v rest =
    ltb-false (length (be_bytes n v ++ rest)) n
      (omega (arith, length-append (be_bytes n v) rest, length-be_bytes n v))

word_taken : (n v : ℕ) (rest : List ℕ) → IsWord n v → be_word 0 (take n (be_bytes n v ++ rest)) ≡ v
word_taken n v rest h =
    subst (λ k. be_word 0 (take k (be_bytes n v ++ rest)) ≡ v) (length-be_bytes n v)
      (rw (take-length-append (be_bytes n v) rest) (be_word-be_bytes n v h))

pub read_byte-Gets : (z : ℤ) → Fits m8 z → Gets read_byte (byte_bytes z) z
unfolding read_byte byte_bytes
read_byte-Gets z f = record { at = λ rest spare. rw (wrap_int-Fits m8 z f) }

pub read_i16-Gets : (z : ℤ) → Fits m16 z → Gets read_i16 (i16_bytes z) z
read_i16-Gets z f =
    let u = unsigned m16 z in
    let word : IsWord 2 u = IsWord-2 u (unsigned-lt m16 z (omega arith)) in
    record {
      at = λ rest spare.
          unfold read_i16 i16_bytes in
          rw (
            word_test 2 u rest,
            word_taken 2 u rest word,
            length-be_bytes 2 u,
            wrap_int-Fits m16 z f,
          );
    }

pub read_i32-Gets : (z : ℤ) → Fits m32 z → Gets read_i32 (i32_bytes z) z
read_i32-Gets z f =
    let u = unsigned m32 z in
    let word : IsWord 4 u = IsWord-4 u (unsigned-lt m32 z (omega arith)) in
    record {
      at = λ rest spare.
          unfold read_i32 i32_bytes in
          rw (
            word_test 4 u rest,
            word_taken 4 u rest word,
            length-be_bytes 4 u,
            wrap_int-Fits m32 z f,
          );
    }

pub read_i64-Gets : (z : ℤ) → Fits m64 z → Gets read_i64 (i64_bytes z) z
read_i64-Gets z f =
    let u = unsigned m64 z in
    let word : IsWord 8 u = IsWord-8 u (unsigned-lt m64 z (omega arith)) in
    record {
      at = λ rest spare.
          unfold read_i64 i64_bytes in
          rw (
            word_test 8 u rest,
            word_taken 8 u rest word,
            length-be_bytes 8 u,
            wrap_int-Fits m64 z f,
          );
    }

pub read_double-Gets : (bits : ℕ) → bits < m64 → Gets read_double (double_bytes bits) bits
read_double-Gets bits f = record {
  at = λ rest spare.
      unfold read_double double_bytes in
      rw (word_test 8 bits rest, word_taken 8 bits rest (IsWord-8 bits f), length-be_bytes 8 bits);
}

pub read_bool-Gets : (b : Bool) → Gets read_bool (bool_bytes b) b
unfolding read_bool bool_bytes
read_bool-Gets true = record { at = λ rest spare. refl }
read_bool-Gets false = record { at = λ rest spare. refl }

pub read_stop-Gets : Gets read_field_begin (byte_bytes t_stop) (t_stop, pos 0)
unfolding read_field_begin byte_bytes read_byte
read_stop-Gets = record { at = λ rest spare. refl }

-- Reading on behind an item.
behind :
    {A : Type 0} {r : Reader A} {bs : List ℕ} {a : A} (cs rest spare : List ℕ)
    → Gets r bs a
    → r (record { bytes = (bs ++ cs) ++ rest; spare = spare }) ≡ ok (a, length bs)
behind {bs} cs rest spare g = rw (append_assoc bs cs rest) (g.at (cs ++ rest) spare)

cut :
    (bs cs rest spare : List ℕ)
    → slice_from (length bs) (record { bytes = (bs ++ cs) ++ rest; spare = spare })
      ≡ ok (record { bytes = cs ++ rest; spare = spare })
cut bs cs rest spare = rw (append_assoc bs cs rest) (slice_from-append bs (cs ++ rest) spare)

pub read_field_begin-Gets :
    (t id : ℤ)
    → Fits m8 t
    → Fits m16 id
    → eq_ℤ t t_stop ≡ false
    → Gets read_field_begin (field_bytes t id) (t, id)
unfolding read_field_begin field_bytes
read_field_begin-Gets t id f g h = record {
  at = λ rest spare. rw (
    behind (i16_bytes id) rest spare (read_byte-Gets t f),
    h,
    cut (byte_bytes t) (i16_bytes id) rest spare,
    (read_i16-Gets id g).at rest spare,
    length-append (byte_bytes t) (i16_bytes id),
  );
}

pub read_list_begin-Gets :
    (t : ℤ) (n : ℕ)
    → Fits m8 t
    → Fits m32 (pos n)
    → Gets read_list_begin (list_bytes t n) (t, pos n)
unfolding read_list_begin list_bytes checked_size
read_list_begin-Gets t n f g = record {
  at = λ rest spare. rw (
    behind (i32_bytes (pos n)) rest spare (read_byte-Gets t f),
    cut (byte_bytes t) (i32_bytes (pos n)) rest spare,
    (read_i32-Gets (pos n) g).at rest spare,
    length-append (byte_bytes t) (i32_bytes (pos n)),
  );
}

pub read_set_begin-Gets :
    (t : ℤ) (n : ℕ) → Fits m8 t → Fits m32 (pos n) → Gets read_set_begin (list_bytes t n) (t, pos n)
unfolding read_set_begin list_bytes checked_size
read_set_begin-Gets t n f g = record {
  at = λ rest spare. rw (
    behind (i32_bytes (pos n)) rest spare (read_byte-Gets t f),
    cut (byte_bytes t) (i32_bytes (pos n)) rest spare,
    (read_i32-Gets (pos n) g).at rest spare,
    length-append (byte_bytes t) (i32_bytes (pos n)),
  );
}

pub read_map_begin-Gets :
    (k v : ℤ) (n : ℕ)
    → Fits m8 k
    → Fits m8 v
    → Fits m32 (pos n)
    → Gets read_map_begin (map_bytes k v n) (k, v, pos n)
unfolding read_map_begin map_bytes checked_size
read_map_begin-Gets k v n f g h = record {
  at = λ rest spare.
      let tail = i32_bytes (pos n) ++ rest in
      rw (append_assoc (byte_bytes k ++ byte_bytes v) (i32_bytes (pos n)) rest) (
        rw (
          behind (byte_bytes v) tail spare (read_byte-Gets k f),
          cut (byte_bytes k) (byte_bytes v) tail spare,
          (read_byte-Gets v g).at tail spare,
          ← length-append (byte_bytes k) (byte_bytes v),
          slice_from-append (byte_bytes k ++ byte_bytes v) tail spare,
          (read_i32-Gets (pos n) h).at rest spare,
          ← length-append (byte_bytes k ++ byte_bytes v) (i32_bytes (pos n)),
        ));
}

between :
    (bs cs rest spare : List ℕ)
    → slice_between (length bs) (length cs) (record { bytes = (bs ++ cs) ++ rest; spare = spare })
      ≡ ok cs
unfolding slice_between
between bs cs rest spare =
    let all = ((bs ++ cs) ++ rest) ++ spare in
    let room : length bs + length cs ≤ length all = omega (
      arith,
      length-append ((bs ++ cs) ++ rest) spare,
      length-append (bs ++ cs) rest,
      length-append bs cs,
    ) in
    rw (
      leb-true (length bs + length cs) (length all) room,
      append_assoc (bs ++ cs) rest spare,
      append_assoc bs cs (rest ++ spare),
      drop-length-append bs (cs ++ (rest ++ spare)),
      take-length-append cs (rest ++ spare),
    )

sized :
    (s rest spare : List ℕ)
    → read_sized
        (record { bytes = string_bytes s ++ rest; spare = spare })
        (length (i32_bytes (pos (length s))))
        (pos (length s))
      ≡ ok (s, length (string_bytes s))
unfolding string_bytes read_sized
sized s rest spare =
    let e = i32_bytes (pos (length s)) in
    let fits : length s ≤ length ((e ++ s) ++ rest) =
      omega (arith, length-append (e ++ s) rest, length-append e s) in
    rw (ltb-false (length ((e ++ s) ++ rest)) (length s) fits)
      (rw (between e s rest spare, length-append e s))

size_word :
    (s rest spare : List ℕ)
    → Fits m32 (pos (length s))
    → read_i32 (record { bytes = string_bytes s ++ rest; spare = spare })
      ≡ ok (pos (length s), length (i32_bytes (pos (length s))))
unfolding string_bytes
size_word s rest spare f = behind s rest spare (read_i32-Gets (pos (length s)) f)

pub read_string-Gets :
    (s : List ℕ) → Fits m32 (pos (length s)) → Gets read_string (string_bytes s) s
unfolding read_string
read_string-Gets s f = record {
  at = λ rest spare. rw (size_word s rest spare f) (sized s rest spare);
}

pub read_binary-Gets :
    (s : List ℕ) → Fits m32 (pos (length s)) → Gets read_binary (string_bytes s) s
unfolding read_binary read_string
read_binary-Gets s f = read_string-Gets s f
