-- ===== src/Unknown/Value.antt =====
-- What unknown fields stand for: thrift values, their bytes in the binary protocol, and the calls
-- by which a protocol hands one over. The code has no such type; `read` and `write` are compared
-- with it.
use thriftgo.Prelude.{ℕ, suc, ◌<◌, ◌≡◌, refl, Bool, false, some, List, [], ◌∷◌, ◌++◌, length, arith}
use Prim.Native.Nat.{max}
use thriftgo.Prelude.Ints.{ℤ, pos, Fits, eq_ℤ}
use thriftgo.Unknown.Types.{m8, m16, m32, m64, Kind, type_id, kind_of, t_stop}
use thriftgo.Unknown.Binary.Format.{
  byte_bytes, i16_bytes, i32_bytes, i64_bytes, double_bytes, bool_bytes, field_bytes, list_bytes,
  map_bytes, string_bytes,
}

mutual
  pub data Value : Type 0 where
    bool : Bool → Value
    byte : ℤ → Value
    i16 : ℤ → Value
    i32 : ℤ → Value
    i64 : ℤ → Value
    double : ℕ → Value
    string : List ℕ → Value
    set : ℤ → Values → Value
    list : ℤ → Values → Value
    map : ℤ → ℤ → Entries → Value
    struct : Members → Value

  pub data Values : Type 0 where
    nil : Values
    cons : Value → Values → Values

  pub data Entries : Type 0 where
    empty : Entries
    entry : Value → Value → Entries → Entries

  pub data Members : Type 0 where
    stop : Members
    member : ℤ → Value → Members → Members

abbrev pub kind : Value → Kind
kind (Value.bool b) = Kind.bool
kind (Value.byte z) = Kind.byte
kind (Value.i16 z) = Kind.i16
kind (Value.i32 z) = Kind.i32
kind (Value.i64 z) = Kind.i64
kind (Value.double d) = Kind.double
kind (Value.string s) = Kind.string
kind (Value.set t vs) = Kind.set
kind (Value.list t vs) = Kind.list
kind (Value.map k v es) = Kind.map
kind (Value.struct ms) = Kind.struct

abbrev pub type_of : Value → ℤ
type_of v = type_id (kind v)

abbrev pub count_values : Values → ℕ
count_values nil = 0
count_values (cons v vs) = suc (count_values vs)

abbrev pub count_entries : Entries → ℕ
count_entries empty = 0
count_entries (entry k v es) = suc (count_entries es)

-- The integers are in range, the lengths fit an int32, and elements have the declared type.
unfoldable mutual
  pub IsValue : Value → Type 0
  IsValue (Value.bool b) = Unit
  IsValue (Value.byte z) = Fits m8 z
  IsValue (Value.i16 z) = Fits m16 z
  IsValue (Value.i32 z) = Fits m32 z
  IsValue (Value.i64 z) = Fits m64 z
  IsValue (Value.double bits) = bits < m64
  IsValue (Value.string s) = Fits m32 (pos (length s))
  IsValue (Value.set t vs) = Fits m8 t × Fits m32 (pos (count_values vs)) × AreValues t vs
  IsValue (Value.list t vs) = Fits m8 t × Fits m32 (pos (count_values vs)) × AreValues t vs
  IsValue (Value.map k v es) =
      Fits m8 k × Fits m8 v × Fits m32 (pos (count_entries es)) × AreEntries k v es
  IsValue (Value.struct ms) = AreMembers ms

  pub AreValues : ℤ → Values → Type 0
  AreValues t nil = Unit
  AreValues t (cons v vs) = (type_of v ≡ t) × IsValue v × AreValues t vs

  pub AreEntries : ℤ → ℤ → Entries → Type 0
  AreEntries s t empty = Unit
  AreEntries s t (entry k v es) =
      (type_of k ≡ s) × (type_of v ≡ t) × IsValue k × IsValue v × AreEntries s t es

  pub AreMembers : Members → Type 0
  AreMembers stop = Unit
  AreMembers (member id v ms) = Fits m16 id × IsValue v × AreMembers ms

unfoldable mutual
  pub encode : Value → List ℕ
  encode (Value.bool b) = bool_bytes b
  encode (Value.byte z) = byte_bytes z
  encode (Value.i16 z) = i16_bytes z
  encode (Value.i32 z) = i32_bytes z
  encode (Value.i64 z) = i64_bytes z
  encode (Value.double bits) = double_bytes bits
  encode (Value.string s) = string_bytes s
  encode (Value.set t vs) = list_bytes t (count_values vs) ++ encode_values vs
  encode (Value.list t vs) = list_bytes t (count_values vs) ++ encode_values vs
  encode (Value.map k v es) = map_bytes k v (count_entries es) ++ encode_entries es
  encode (Value.struct ms) = encode_members ms

  pub encode_values : Values → List ℕ
  encode_values nil = []
  encode_values (cons v vs) = encode v ++ encode_values vs

  pub encode_entries : Entries → List ℕ
  encode_entries empty = []
  encode_entries (entry k v es) = encode k ++ (encode v ++ encode_entries es)

  pub encode_members : Members → List ℕ
  encode_members stop = byte_bytes t_stop
  encode_members (member id v ms) = field_bytes (type_of v) id ++ (encode v ++ encode_members ms)

-- How deep containers are nested, a scalar counting for one.
unfoldable mutual
  pub depth : Value → ℕ
  depth (Value.set t vs) = suc (depth_values vs)
  depth (Value.list t vs) = suc (depth_values vs)
  depth (Value.map k v es) = suc (depth_entries es)
  depth (Value.struct ms) = suc (depth_members ms)
  depth _ = 1

  pub depth_values : Values → ℕ
  depth_values nil = 0
  depth_values (cons v vs) = max (depth v) (depth_values vs)

  pub depth_entries : Entries → ℕ
  depth_entries empty = 0
  depth_entries (entry k v es) = max (max (depth k) (depth v)) (depth_entries es)

  pub depth_members : Members → ℕ
  depth_members stop = 0
  depth_members (member id v ms) = max (depth v) (depth_members ms)

-- One call of a method of the protocol, with the value that goes over.
pub data Event : Type 0 where
  bool : Bool → Event
  byte : ℤ → Event
  i16 : ℤ → Event
  i32 : ℤ → Event
  i64 : ℤ → Event
  double : ℕ → Event
  string : List ℕ → Event
  set_begin : ℤ → ℤ → Event
  set_end : Event
  list_begin : ℤ → ℤ → Event
  list_end : Event
  map_begin : ℤ → ℤ → ℤ → Event
  map_end : Event
  struct_begin : Event
  struct_end : Event
  field_begin : ℤ → ℤ → Event
  field_end : Event
  field_stop : Event

-- The calls that hand a value over. `start` is the call at the start of a struct: a reader is asked
-- for it, and the writer of this package leaves it out.
unfoldable mutual
  pub calls : List Event → Value → List Event
  calls start (Value.bool b) = Event.bool b ∷ []
  calls start (Value.byte z) = Event.byte z ∷ []
  calls start (Value.i16 z) = Event.i16 z ∷ []
  calls start (Value.i32 z) = Event.i32 z ∷ []
  calls start (Value.i64 z) = Event.i64 z ∷ []
  calls start (Value.double bits) = Event.double bits ∷ []
  calls start (Value.string s) = Event.string s ∷ []
  calls start (Value.set t vs) =
      set_begin t (pos (count_values vs)) ∷ (calls_values start vs ++ (set_end ∷ []))
  calls start (Value.list t vs) =
      list_begin t (pos (count_values vs)) ∷ (calls_values start vs ++ (list_end ∷ []))
  calls start (Value.map k v es) =
      map_begin k v (pos (count_entries es)) ∷ (calls_entries start es ++ (map_end ∷ []))
  calls start (Value.struct ms) = start ++ (calls_members start ms ++ (struct_end ∷ []))

  pub calls_values : List Event → Values → List Event
  calls_values start nil = []
  calls_values start (cons v vs) = calls start v ++ calls_values start vs

  pub calls_entries : List Event → Entries → List Event
  calls_entries start empty = []
  calls_entries start (entry k v es) = calls start k ++ (calls start v ++ calls_entries start es)

  pub calls_members : List Event → Members → List Event
  calls_members start stop = field_stop ∷ []
  calls_members start (member id v ms) =
      field_begin (type_of v) id ∷ (calls start v ++ (field_end ∷ calls_members start ms))

-- What `write` calls, and what `read` is answered.
abbrev pub written : Value → List Event
written v = calls [] v

abbrev pub announced : Value → List Event
announced v = calls (struct_begin ∷ []) v

pub kind_of-type_id : (k : Kind) → kind_of (type_id k) ≡ some k
unfolding kind_of
kind_of-type_id Kind.bool = refl
kind_of-type_id _ = refl

pub type_id-ne-stop : (k : Kind) → eq_ℤ (type_id k) t_stop ≡ false
type_id-ne-stop Kind.bool = refl
type_id-ne-stop _ = refl

pub type_id-Fits : (k : Kind) → Fits m8 (type_id k)
type_id-Fits Kind.bool = omega arith
type_id-Fits _ = omega arith

pub depth-pos : (v : Value) → 0 < depth v
unfolding depth
depth-pos (Value.set t vs) = omega arith
depth-pos (Value.list t vs) = omega arith
depth-pos (Value.map k v es) = omega arith
depth-pos (Value.struct ms) = omega arith
depth-pos _ = omega arith
