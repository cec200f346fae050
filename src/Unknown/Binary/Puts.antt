-- ===== src/Unknown/Binary/Puts.antt =====
-- What a writer does to a slice that is long enough: it puts its bytes in front, leaves the rest,
-- and returns their number.
use thriftgo.Prelude.{
  ℕ, ◌+◌, ◌≤◌, ◌≡◌, refl, Bool, true, false, List, [], ◌++◌, String, arith, append_assoc, leb-true,
  length, take, drop, length-append, length-drop, take-length-append, drop-length-append, drop-add,
  take_past,
}
use thriftgo.Prelude.Ints.{ℤ, pos, Fits, unsigned, wrap_int-Fits}
use thriftgo.Go.Outcome.{ok, ◌>>=◌}
use thriftgo.Unknown.Types.{m8, m16, m32, m64, t_stop}
use thriftgo.Unknown.Binary.Words.{be_bytes, length-be_bytes}
use thriftgo.Unknown.Binary.Format.{
  byte_bytes, i16_bytes, i32_bytes, i64_bytes, double_bytes, bool_bytes, field_bytes, list_bytes,
  map_bytes, string_bytes,
}
use thriftgo.Unknown.Binary.Write.{
  Writer, put, copy_in, write_from, then_from, then_after, write_nothing, write_byte, write_i16,
  write_i32, write_i64, write_double, write_bool, write_field_begin, write_field_stop,
  write_map_begin, write_list_begin, write_set_begin, write_string, write_binary,
}

pub record Puts (w : Writer) (bs : List ℕ) : Type 0 where
  pub at :
      (buf : List ℕ) → length bs ≤ length buf → w buf ≡ ok (length bs, bs ++ drop (length bs) buf)

put_lem : (bs buf : List ℕ) → length bs ≤ length buf → put bs buf ≡ ok (bs ++ drop (length bs) buf)
unfolding put
put_lem bs buf h = rw (leb-true (length bs) (length buf) h)

write_from-Puts :
    (bs : List ℕ) (w : Writer) (cs buf : List ℕ)
    → Puts w cs
    → length (bs ++ cs) ≤ length buf
    → write_from (length bs) w (bs ++ drop (length bs) buf)
      ≡ ok (length cs, (bs ++ cs) ++ drop (length (bs ++ cs)) buf)
unfolding write_from
write_from-Puts bs w cs buf p h =
    let d = drop (length bs) buf in
    let inside : length bs ≤ length (bs ++ d) = omega (arith, length-append bs d) in
    let room : length cs ≤ length d =
      omega (arith, length-drop (length bs) buf, length-append bs cs) in
    rw (leb-true (length bs) (length (bs ++ d)) inside, drop-length-append bs d, p.at d room)
      (rw (take-length-append bs d, length-append bs cs, drop-add, append_assoc))

-- At any offset with room behind it.
pub write_from-at :
    (off : ℕ) (w : Writer) (cs buf : List ℕ)
    → Puts w cs
    → off + length cs ≤ length buf
    → write_from off w buf ≡ ok (length cs, take off buf ++ (cs ++ drop (length cs) (drop off buf)))
unfolding write_from
write_from-at off w cs buf p h = rw (
  leb-true off (length buf) (omega arith),
  p.at (drop off buf) (omega (arith, length-drop off buf)),
)

pub then_from-Puts :
    {w₁ w₂ : Writer} {bs cs : List ℕ} (off : ℕ)
    → off ≡ length bs
    → Puts w₁ bs
    → Puts w₂ cs
    → Puts (then_from w₁ off w₂) (bs ++ cs)
unfolding then_from
then_from-Puts {w₁} {w₂} {bs} {cs} off e p q = record {
  at = λ buf h.
      let room : length bs ≤ length buf = omega (arith, length-append bs cs) in
      rw (p.at buf room, e) (rw (write_from-Puts bs w₂ cs buf q h) (rw (length-append bs cs)));
}

then_after-Puts :
    {w₁ w₂ : Writer} {bs cs : List ℕ} → Puts w₁ bs → Puts w₂ cs → Puts (then_after w₁ w₂) (bs ++ cs)
unfolding then_after
then_after-Puts {w₁} {w₂} {bs} {cs} p q = record {
  at = λ buf h.
      let room : length bs ≤ length buf = omega (arith, length-append bs cs) in
      rw (p.at buf room) (rw (write_from-Puts bs w₂ cs buf q h) (rw (length-append bs cs)));
}

-- A word of `n` bytes.
word-Puts :
    (n v : ℕ) (w : Writer)
    → ((buf : List ℕ) → w buf ≡ (put (be_bytes n v) buf >>= λ b. ok (n, b)))
    → Puts w (be_bytes n v)
word-Puts n v w e = record {
  at = λ buf h. rw (e buf, put_lem (be_bytes n v) buf h) (rw (length-be_bytes n v));
}

pub write_nothing-Puts : Puts write_nothing []
write_nothing-Puts = record { at = λ buf h. refl }

pub write_byte-Puts : (z : ℤ) → Puts (write_byte z) (byte_bytes z)
unfolding write_byte byte_bytes
write_byte-Puts z = record { at = λ buf h. rw (put_lem (byte_bytes z) buf h) }

pub write_i16-Puts : (z : ℤ) → Puts (write_i16 z) (i16_bytes z)
unfolding write_i16 i16_bytes
write_i16-Puts z = word-Puts 2 (unsigned m16 z) (write_i16 z) (λ buf. refl)

pub write_i32-Puts : (z : ℤ) → Puts (write_i32 z) (i32_bytes z)
unfolding write_i32 i32_bytes
write_i32-Puts z = word-Puts 4 (unsigned m32 z) (write_i32 z) (λ buf. refl)

pub write_i64-Puts : (z : ℤ) → Puts (write_i64 z) (i64_bytes z)
unfolding write_i64 i64_bytes
write_i64-Puts z = word-Puts 8 (unsigned m64 z) (write_i64 z) (λ buf. refl)

pub write_double-Puts : (bits : ℕ) → Puts (write_double bits) (double_bytes bits)
unfolding write_double double_bytes
write_double-Puts bits = word-Puts 8 bits (write_double bits) (λ buf. refl)

pub write_bool-Puts : (b : Bool) → Puts (write_bool b) (bool_bytes b)
unfolding write_bool bool_bytes
write_bool-Puts true = write_byte-Puts (pos 1)
write_bool-Puts false = write_byte-Puts (pos 0)

pub write_field_stop-Puts : Puts write_field_stop (byte_bytes t_stop)
unfolding write_field_stop
write_field_stop-Puts = write_byte-Puts t_stop

pub write_field_begin-Puts :
    (name : String) (t id : ℤ) → Fits m8 t → Puts (write_field_begin name t id) (field_bytes t id)
unfolding write_field_begin field_bytes byte_bytes
write_field_begin-Puts name t id f =
    rw (wrap_int-Fits m8 t f) (then_from-Puts 1 refl (write_byte-Puts t) (write_i16-Puts id))

pub write_list_begin-Puts :
    (t : ℤ) (n : ℕ)
    → Fits m8 t
    → Fits m32 (pos n)
    → Puts (write_list_begin t (pos n)) (list_bytes t n)
unfolding write_list_begin list_bytes byte_bytes
write_list_begin-Puts t n f g =
    rw (wrap_int-Fits m8 t f, wrap_int-Fits m32 (pos n) g)
      (then_from-Puts 1 refl (write_byte-Puts t) (write_i32-Puts (pos n)))

pub write_set_begin-Puts :
    (t : ℤ) (n : ℕ)
    → Fits m8 t
    → Fits m32 (pos n)
    → Puts (write_set_begin t (pos n)) (list_bytes t n)
unfolding write_set_begin list_bytes byte_bytes
write_set_begin-Puts t n f g =
    rw (wrap_int-Fits m8 t f, wrap_int-Fits m32 (pos n) g)
      (then_from-Puts 1 refl (write_byte-Puts t) (write_i32-Puts (pos n)))

pub write_map_begin-Puts :
    (k v : ℤ) (n : ℕ)
    → Fits m8 k
    → Fits m8 v
    → Fits m32 (pos n)
    → Puts (write_map_begin k v (pos n)) (map_bytes k v n)
unfolding write_map_begin map_bytes byte_bytes
write_map_begin-Puts k v n f g h =
    rw (wrap_int-Fits m8 k f, wrap_int-Fits m8 v g, wrap_int-Fits m32 (pos n) h)
      (then_from-Puts 2 refl (then_from-Puts 1 refl (write_byte-Puts k) (write_byte-Puts v))
        (write_i32-Puts (pos n)))

copy_in-Puts : (s : List ℕ) → Puts (copy_in s) s
unfolding copy_in
copy_in-Puts s = record { at = λ buf h. rw (take_past (length buf) s h) }

pub write_string-Puts :
    (s : List ℕ) → Fits m32 (pos (length s)) → Puts (write_string s) (string_bytes s)
unfolding write_string string_bytes
write_string-Puts s f =
    rw (wrap_int-Fits m32 (pos (length s)) f)
      (then_after-Puts (write_i32-Puts (pos (length s))) (copy_in-Puts s))

pub write_binary-Puts :
    (s : List ℕ) → Fits m32 (pos (length s)) → Puts (write_binary s) (string_bytes s)
unfolding write_binary string_bytes
write_binary-Puts s f =
    rw (wrap_int-Fits m32 (pos (length s)) f)
      (then_after-Puts (write_i32-Puts (pos (length s))) (copy_in-Puts s))
