-- ===== src/Unknown/Read/Errors.antt =====
-- What `read` does with the errors of the protocol, and with its own limit.
use thriftgo.Prelude.{ℕ, suc, ◌≡◌, sym, some}
use thriftgo.Prelude.Ints.{ℤ}
use thriftgo.Unknown.Types.{Kind, type_id, kind_of, Error}
use thriftgo.Unknown.Binary.Format.{i32_bytes, length-i32_bytes}
use thriftgo.Unknown.Binary.Puts.{write_i32-Puts}
use thriftgo.Unknown.Protocol.{Protocol}
use thriftgo.Unknown.Read.{read, read_kind}
use thriftgo.Unknown.Read.Appends.{Appends, read_scalar-Appends}

module _ {S : Type 0} (iprot : Protocol S) where
  -- An error of ReadI32 is lost: whatever error the protocol returns beside a number, read on an
  -- i32, with depth left, ends without an error and has put the bytes of that number into the
  -- buffer.
  pub read-i32_error_lost :
      (fuel depth : ℕ) (z : ℤ) (e : Error) (s s' : S)
      → iprot.read_i32 s ≡ (z, some e, s')
      → Appends (read iprot fuel (suc depth) (type_id Kind.i32)) s (i32_bytes z) s'
  unfolding read read_kind kind_of
  read-i32_error_lost fuel depth z e s s' a =
      read_scalar-Appends _ _ _ a (sym (length-i32_bytes z)) (write_i32-Puts z)
