-- ===== src/Unknown/Tape.antt =====
-- A protocol for tests: its state is the list of the calls that it takes, or has left to answer.
use thriftgo.Prelude.{
  ℕ, ◌≡◌, refl, sym, subst, Bool, false, Option, none, some, List, [], ◌∷◌, ◌++◌, String,
  append-nil, append_assoc,
}
use thriftgo.Prelude.Ints.{ℤ, pos}
use thriftgo.Unknown.Types.{t_stop, Error, foreign}
use thriftgo.Unknown.Protocol.{Protocol}
use thriftgo.Unknown.Value.{Event}
use thriftgo.Unknown.Write.Accepts.{perform, Accepts}
use thriftgo.Unknown.Read.Supplies.{Answers, Supplies}

abbrev pub Tape : Type 0
Tape = List Event

abbrev broken : Option Error
broken = some (foreign 1)

abbrev pop_bool : Tape → Bool × Option Error × Tape
pop_bool (Event.bool x ∷ s) = (x, none, s)
pop_bool s = (false, broken, s)

abbrev pop_byte : Tape → ℤ × Option Error × Tape
pop_byte (Event.byte x ∷ s) = (x, none, s)
pop_byte s = (pos 0, broken, s)

abbrev pop_i16 : Tape → ℤ × Option Error × Tape
pop_i16 (Event.i16 x ∷ s) = (x, none, s)
pop_i16 s = (pos 0, broken, s)

abbrev pop_i32 : Tape → ℤ × Option Error × Tape
pop_i32 (Event.i32 x ∷ s) = (x, none, s)
pop_i32 s = (pos 0, broken, s)

abbrev pop_i64 : Tape → ℤ × Option Error × Tape
pop_i64 (Event.i64 x ∷ s) = (x, none, s)
pop_i64 s = (pos 0, broken, s)

abbrev pop_double : Tape → ℕ × Option Error × Tape
pop_double (Event.double x ∷ s) = (x, none, s)
pop_double s = (0, broken, s)

abbrev pop_string : Tape → List ℕ × Option Error × Tape
pop_string (Event.string x ∷ s) = (x, none, s)
pop_string s = ([], broken, s)

abbrev pop_set : Tape → (ℤ × ℤ) × Option Error × Tape
pop_set (Event.set_begin t n ∷ s) = ((t, n), none, s)
pop_set s = ((pos 0, pos 0), broken, s)

abbrev pop_list : Tape → (ℤ × ℤ) × Option Error × Tape
pop_list (Event.list_begin t n ∷ s) = ((t, n), none, s)
pop_list s = ((pos 0, pos 0), broken, s)

abbrev pop_map : Tape → (ℤ × ℤ × ℤ) × Option Error × Tape
pop_map (Event.map_begin k v n ∷ s) = ((k, v, n), none, s)
pop_map s = ((pos 0, pos 0, pos 0), broken, s)

abbrev pop_struct : Tape → String × Option Error × Tape
pop_struct (Event.struct_begin ∷ s) = ("", none, s)
pop_struct s = ("", broken, s)

abbrev pop_field : Tape → (String × ℤ × ℤ) × Option Error × Tape
pop_field (Event.field_begin t id ∷ s) = (("", t, id), none, s)
pop_field (Event.field_stop ∷ s) = (("", t_stop, pos 0), none, s)
pop_field s = (("", t_stop, pos 0), broken, s)

abbrev pop_set_end : Tape → Option Error × Tape
pop_set_end (Event.set_end ∷ s) = (none, s)
pop_set_end s = (broken, s)

abbrev pop_list_end : Tape → Option Error × Tape
pop_list_end (Event.list_end ∷ s) = (none, s)
pop_list_end s = (broken, s)

abbrev pop_map_end : Tape → Option Error × Tape
pop_map_end (Event.map_end ∷ s) = (none, s)
pop_map_end s = (broken, s)

abbrev pop_struct_end : Tape → Option Error × Tape
pop_struct_end (Event.struct_end ∷ s) = (none, s)
pop_struct_end s = (broken, s)

abbrev pop_field_end : Tape → Option Error × Tape
pop_field_end (Event.field_end ∷ s) = (none, s)
pop_field_end s = (broken, s)

abbrev push : Event → Tape → Option Error × Tape
push e s = (none, s ++ e ∷ [])

abbrev pub tape : Protocol Tape
tape = record {
  read_bool = pop_bool;
  read_byte = pop_byte;
  read_i16 = pop_i16;
  read_i32 = pop_i32;
  read_i64 = pop_i64;
  read_double = pop_double;
  read_string = pop_string;
  read_set_begin = pop_set;
  read_set_end = pop_set_end;
  read_list_begin = pop_list;
  read_list_end = pop_list_end;
  read_map_begin = pop_map;
  read_map_end = pop_map_end;
  read_struct_begin = pop_struct;
  read_struct_end = pop_struct_end;
  read_field_begin = pop_field;
  read_field_end = pop_field_end;
  write_bool = λ x. push (Event.bool x);
  write_byte = λ x. push (Event.byte x);
  write_i16 = λ x. push (Event.i16 x);
  write_i32 = λ x. push (Event.i32 x);
  write_i64 = λ x. push (Event.i64 x);
  write_double = λ x. push (Event.double x);
  write_string = λ x. push (Event.string x);
  write_set_begin = λ t n. push (Event.set_begin t n);
  write_set_end = push Event.set_end;
  write_list_begin = λ t n. push (Event.list_begin t n);
  write_list_end = push Event.list_end;
  write_map_begin = λ k v n. push (Event.map_begin k v n);
  write_map_end = push Event.map_end;
  write_struct_begin = λ name. push Event.struct_begin;
  write_struct_end = push Event.struct_end;
  write_field_begin = λ name t id. push (Event.field_begin t id);
  write_field_end = push Event.field_end;
  write_field_stop = push Event.field_stop;
}

tape-takes : (e : Event) (s : Tape) → perform tape e s ≡ (none, s ++ e ∷ [])
tape-takes (Event.bool b) s = refl
tape-takes (Event.byte z) s = refl
tape-takes (Event.i16 z) s = refl
tape-takes (Event.i32 z) s = refl
tape-takes (Event.i64 z) s = refl
tape-takes (Event.double d) s = refl
tape-takes (Event.string t) s = refl
tape-takes (Event.set_begin t n) s = refl
tape-takes Event.set_end s = refl
tape-takes (Event.list_begin t n) s = refl
tape-takes Event.list_end s = refl
tape-takes (Event.map_begin k v n) s = refl
tape-takes Event.map_end s = refl
tape-takes Event.struct_begin s = refl
tape-takes Event.struct_end s = refl
tape-takes (Event.field_begin t id) s = refl
tape-takes Event.field_end s = refl
tape-takes Event.field_stop s = refl

pub tape-Accepts : (es s : Tape) → Accepts tape s es (s ++ es)
tape-Accepts [] s = sym (append-nil s)
tape-Accepts (e ∷ es) s = (
  s ++ e ∷ [],
  tape-takes e s,
  subst (Accepts tape (s ++ e ∷ []) es) (append_assoc s (e ∷ []) es)
      (tape-Accepts es (s ++ e ∷ [])),
)

tape-gives : (e : Event) (s : Tape) → Answers tape e (e ∷ s) s
tape-gives (Event.bool b) s = refl
tape-gives (Event.byte z) s = refl
tape-gives (Event.i16 z) s = refl
tape-gives (Event.i32 z) s = refl
tape-gives (Event.i64 z) s = refl
tape-gives (Event.double d) s = refl
tape-gives (Event.string t) s = refl
tape-gives (Event.set_begin t n) s = refl
tape-gives Event.set_end s = refl
tape-gives (Event.list_begin t n) s = refl
tape-gives Event.list_end s = refl
tape-gives (Event.map_begin k v n) s = refl
tape-gives Event.map_end s = refl
tape-gives Event.struct_begin s = ("", refl)
tape-gives Event.struct_end s = refl
tape-gives (Event.field_begin t id) s = ("", refl)
tape-gives Event.field_end s = refl
tape-gives Event.field_stop s = ("", pos 0, refl)

pub tape-Supplies : (es s : Tape) → Supplies tape (es ++ s) es s
tape-Supplies [] s = refl
tape-Supplies (e ∷ es) s = (es ++ s, tape-gives e (es ++ s), tape-Supplies es s)
