-- ===== src/Unknown/Binary/Format.antt =====
-- The bytes of the binary protocol, described on their own: what one written item looks like. The
-- lemmas on reading and writing compare the code with these.
use thriftgo.Prelude.{
  ℕ, suc, ◌+◌, ◌≡◌, refl, ap, Bool, true, false, List, [], ◌∷◌, ◌++◌, arith, length, length-append,
}
use thriftgo.Prelude.Ints.{ℤ, pos, unsigned}
use thriftgo.Unknown.Types.{m8, m16, m32, m64}
use thriftgo.Unknown.Binary.Words.{be_bytes, length-be_bytes}

unfoldable pub byte_bytes : ℤ → List ℕ
byte_bytes z = unsigned m8 z ∷ []

unfoldable pub i16_bytes : ℤ → List ℕ
i16_bytes z = be_bytes 2 (unsigned m16 z)

unfoldable pub i32_bytes : ℤ → List ℕ
i32_bytes z = be_bytes 4 (unsigned m32 z)

unfoldable pub i64_bytes : ℤ → List ℕ
i64_bytes z = be_bytes 8 (unsigned m64 z)

unfoldable pub double_bytes : ℕ → List ℕ
double_bytes bits = be_bytes 8 bits

unfoldable pub bool_bytes : Bool → List ℕ
unfolding byte_bytes
bool_bytes true = byte_bytes (pos 1)
bool_bytes false = byte_bytes (pos 0)

unfoldable pub field_bytes : ℤ → ℤ → List ℕ
field_bytes t id = byte_bytes t ++ i16_bytes id

unfoldable pub list_bytes : ℤ → ℕ → List ℕ
list_bytes t n = byte_bytes t ++ i32_bytes (pos n)

unfoldable pub map_bytes : ℤ → ℤ → ℕ → List ℕ
map_bytes k v n = (byte_bytes k ++ byte_bytes v) ++ i32_bytes (pos n)

unfoldable pub string_bytes : List ℕ → List ℕ
string_bytes s = i32_bytes (pos (length s)) ++ s

pub length-byte_bytes : (z : ℤ) → length (byte_bytes z) ≡ 1
unfolding byte_bytes
length-byte_bytes z = refl

pub length-i16_bytes : (z : ℤ) → length (i16_bytes z) ≡ 2
unfolding i16_bytes
length-i16_bytes z = length-be_bytes 2 (unsigned m16 z)

pub length-i32_bytes : (z : ℤ) → length (i32_bytes z) ≡ 4
unfolding i32_bytes
length-i32_bytes z = length-be_bytes 4 (unsigned m32 z)

pub length-i64_bytes : (z : ℤ) → length (i64_bytes z) ≡ 8
unfolding i64_bytes
length-i64_bytes z = length-be_bytes 8 (unsigned m64 z)

pub length-double_bytes : (bits : ℕ) → length (double_bytes bits) ≡ 8
unfolding double_bytes
length-double_bytes bits = length-be_bytes 8 bits

pub length-bool_bytes : (b : Bool) → length (bool_bytes b) ≡ 1
unfolding bool_bytes
length-bool_bytes true = refl
length-bool_bytes false = refl

pub length-field_bytes : (t id : ℤ) → length (field_bytes t id) ≡ 3
unfolding field_bytes byte_bytes
length-field_bytes t id = ap (λ n. suc n) (length-i16_bytes id)

pub length-list_bytes : (t : ℤ) (n : ℕ) → length (list_bytes t n) ≡ 5
unfolding list_bytes byte_bytes
length-list_bytes t n = ap (λ n. suc n) (length-i32_bytes (pos n))

pub length-map_bytes : (k v : ℤ) (n : ℕ) → length (map_bytes k v n) ≡ 6
unfolding map_bytes byte_bytes
length-map_bytes k v n = ap (λ n. suc (suc n)) (length-i32_bytes (pos n))

pub length-string_bytes : (s : List ℕ) → length (string_bytes s) ≡ 4 + length s
unfolding string_bytes
length-string_bytes s =
    omega (arith, length-append (i32_bytes (pos (length s))) s, length-i32_bytes (pos (length s)))
