-- ===== src/Unknown/Write/Accepts.antt =====
-- A protocol that takes a sequence of calls without an error.
use thriftgo.Prelude.{none, List, [], ◌∷◌, ◌++◌, ◌≡◌, refl}
use thriftgo.Unknown.Value.{Event}
use thriftgo.Unknown.Protocol.{Protocol, Acting}

module _ {S : Type 0} (oprot : Protocol S) where
  -- The method of a call.
  abbrev pub perform : Event → Acting S
  perform (Event.bool b) = oprot.write_bool b
  perform (Event.byte z) = oprot.write_byte z
  perform (Event.i16 z) = oprot.write_i16 z
  perform (Event.i32 z) = oprot.write_i32 z
  perform (Event.i64 z) = oprot.write_i64 z
  perform (Event.double d) = oprot.write_double d
  perform (Event.string s) = oprot.write_string s
  perform (Event.set_begin t n) = oprot.write_set_begin t n
  perform Event.set_end = oprot.write_set_end
  perform (Event.list_begin t n) = oprot.write_list_begin t n
  perform Event.list_end = oprot.write_list_end
  perform (Event.map_begin k v n) = oprot.write_map_begin k v n
  perform Event.map_end = oprot.write_map_end
  perform Event.struct_begin = oprot.write_struct_begin ""
  perform Event.struct_end = oprot.write_struct_end
  perform (Event.field_begin t id) = oprot.write_field_begin "" t id
  perform Event.field_end = oprot.write_field_end
  perform Event.field_stop = oprot.write_field_stop

  -- From `s` every call in turn returns no error, and the protocol ends in `s'`.
  abbrev pub Accepts : S → List Event → S → Type 0
  Accepts s [] s' = s ≡ s'
  Accepts s (e ∷ es) s' = (s₁ : S) × (perform e s ≡ (none, s₁)) × Accepts s₁ es s'

  pub Accepts-append :
      (xs ys : List Event) (s s' : S)
      → Accepts s (xs ++ ys) s'
      → (m : S) × Accepts s xs m × Accepts m ys s'
  Accepts-append [] ys s s' h = (s, refl, h)
  Accepts-append (x ∷ xs) ys s s' (s₁, p, h) =
      let (m, q, r) = Accepts-append xs ys s₁ s' h in (m, (s₁, p, q), r)
