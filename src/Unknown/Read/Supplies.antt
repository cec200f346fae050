-- ===== src/Unknown/Read/Supplies.antt =====
-- A protocol that answers a sequence of reads, without an error, with the parts of a value.
use thriftgo.Prelude.{none, List, [], ◌∷◌, ◌++◌, ◌≡◌, refl, String}
use thriftgo.Prelude.Ints.{ℤ}
use thriftgo.Unknown.Types.{t_stop}
use thriftgo.Unknown.Value.{Event}
use thriftgo.Unknown.Protocol.{Protocol}

module _ {S : Type 0} (iprot : Protocol S) where
  -- The read that an event answers. The name of a struct or a field, and the id beside a stop, may
  -- be anything.
  abbrev pub Answers : Event → S → S → Type 0
  Answers (Event.bool b) s s' = iprot.read_bool s ≡ (b, none, s')
  Answers (Event.byte z) s s' = iprot.read_byte s ≡ (z, none, s')
  Answers (Event.i16 z) s s' = iprot.read_i16 s ≡ (z, none, s')
  Answers (Event.i32 z) s s' = iprot.read_i32 s ≡ (z, none, s')
  Answers (Event.i64 z) s s' = iprot.read_i64 s ≡ (z, none, s')
  Answers (Event.double d) s s' = iprot.read_double s ≡ (d, none, s')
  Answers (Event.string t) s s' = iprot.read_string s ≡ (t, none, s')
  Answers (Event.set_begin t n) s s' = iprot.read_set_begin s ≡ ((t, n), none, s')
  Answers Event.set_end s s' = iprot.read_set_end s ≡ (none, s')
  Answers (Event.list_begin t n) s s' = iprot.read_list_begin s ≡ ((t, n), none, s')
  Answers Event.list_end s s' = iprot.read_list_end s ≡ (none, s')
  Answers (Event.map_begin k v n) s s' = iprot.read_map_begin s ≡ ((k, v, n), none, s')
  Answers Event.map_end s s' = iprot.read_map_end s ≡ (none, s')
  Answers Event.struct_begin s s' = (name : String) × (iprot.read_struct_begin s ≡ (name, none, s'))
  Answers Event.struct_end s s' = iprot.read_struct_end s ≡ (none, s')
  Answers (Event.field_begin t id) s s' =
      (name : String) × (iprot.read_field_begin s ≡ ((name, t, id), none, s'))
  Answers Event.field_end s s' = iprot.read_field_end s ≡ (none, s')
  Answers Event.field_stop s s' =
      (name : String) × (id : ℤ) × (iprot.read_field_begin s ≡ ((name, t_stop, id), none, s'))

  -- From `s` the reads are answered in turn, and the protocol ends in `s'`.
  abbrev pub Supplies : S → List Event → S → Type 0
  Supplies s [] s' = s ≡ s'
  Supplies s (e ∷ es) s' = (s₁ : S) × Answers e s s₁ × Supplies s₁ es s'

  pub Supplies-append :
      (xs ys : List Event) (s s' : S)
      → Supplies s (xs ++ ys) s'
      → (m : S) × Supplies s xs m × Supplies m ys s'
  Supplies-append [] ys s s' h = (s, refl, h)
  Supplies-append (x ∷ xs) ys s s' (s₁, p, h) =
      let (m, q, r) = Supplies-append xs ys s₁ s' h in (m, (s₁, p, q), r)
