-- ===== src/Unknown/Protocol.antt =====
-- The protocol that unknown fields are read from and written to: a third party's thrift.TProtocol,
-- reached through the wrapper of generator/golang/extension/unknown/compatible.go. Nothing is known
-- of it but that its methods act on a state: a read returns a value and an error, a write an error.
use thriftgo.Prelude.{ℕ, Bool, String, List, Option, none, some, ◌≡◌}
use thriftgo.Prelude.Ints.{ℤ}
use thriftgo.Go.Outcome.{Outcome, ok, err}
use thriftgo.Go.Exec.{Exec, Runs}
use thriftgo.Unknown.Types.{Error}

-- A method that returns `(value, err)`, with the value that comes beside an error too.
abbrev pub Returning : Type 0 → Type 0 → Type 0
Returning S A = S → A × Option Error × S

abbrev pub Acting : Type 0 → Type 0
Acting S = S → Option Error × S

pub record Protocol (S : Type 0) : Type 0 where
  pub read_bool : Returning S Bool
  pub read_byte : Returning S ℤ
  pub read_i16 : Returning S ℤ
  pub read_i32 : Returning S ℤ
  pub read_i64 : Returning S ℤ
  pub read_double : Returning S ℕ
  pub read_string : Returning S (List ℕ)
  pub read_map_begin : Returning S (ℤ × ℤ × ℤ)
  pub read_map_end : Acting S
  pub read_list_begin : Returning S (ℤ × ℤ)
  pub read_list_end : Acting S
  pub read_set_begin : Returning S (ℤ × ℤ)
  pub read_set_end : Acting S
  pub read_struct_begin : Returning S String
  pub read_struct_end : Acting S
  pub read_field_begin : Returning S (String × ℤ × ℤ)
  pub read_field_end : Acting S
  pub write_bool : Bool → Acting S
  pub write_byte : ℤ → Acting S
  pub write_i16 : ℤ → Acting S
  pub write_i32 : ℤ → Acting S
  pub write_i64 : ℤ → Acting S
  pub write_double : ℕ → Acting S
  pub write_string : List ℕ → Acting S
  pub write_map_begin : ℤ → ℤ → ℤ → Acting S
  pub write_map_end : Acting S
  pub write_list_begin : ℤ → ℤ → Acting S
  pub write_list_end : Acting S
  pub write_set_begin : ℤ → ℤ → Acting S
  pub write_set_end : Acting S
  pub write_struct_begin : String → Acting S
  pub write_struct_end : Acting S
  pub write_field_begin : String → ℤ → ℤ → Acting S
  pub write_field_end : Acting S
  pub write_field_stop : Acting S

abbrev pub outcome_of : {A : Type 0} → A → Option Error → Outcome Error A
outcome_of a none = ok a
outcome_of a (some e) = err e

-- `if err = p.WriteX(...); err != nil { return err }`
unfoldable pub act : {S : Type 0} → Acting S → Exec S Error (Unit {0})
act f s = let (e, s') = f s in (outcome_of tt e, s')

-- `v, err := p.ReadX(); if err != nil { return err }`
unfoldable pub receive : {S A : Type 0} → Returning S A → Exec S Error A
receive f s = let (a, e, s') = f s in (outcome_of a e, s')

pub act-Runs : {S : Type 0} (f : Acting S) {s s' : S} → f s ≡ (none, s') → Runs (act f) s tt s'
unfolding act
act-Runs f h = record { runs = rw h }
