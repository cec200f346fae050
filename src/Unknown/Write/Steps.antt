-- ===== src/Unknown/Write/Steps.antt =====
-- The steps that `write` is made of, on a slice that holds what they expect.
use thriftgo.Prelude.{ℕ, ◌≡◌, none, List, ◌++◌, length, String}
use native.Mathlib.Nat.{add-zero}
use Prim.Native.Nat.add
use thriftgo.Prelude.Ints.{ℤ}
use thriftgo.Go.Exec.{
  Exec, pure, lift, wrapping, Runs, Runs-pure, Runs-bind, Runs-wrapping, Runs-end, ◌>>=◌, ◌>>◌,
}
use thriftgo.Unknown.Types.{Error}
use thriftgo.Unknown.Binary.Format.{}
use thriftgo.Unknown.Binary.Read.{Slice, Reader, slice_from, read_field_begin}
use thriftgo.Unknown.Binary.Gets.{Gets}
use thriftgo.Unknown.Protocol.{Acting, act, act-Runs}
use thriftgo.Unknown.Value.{}
use thriftgo.Unknown.Write.{write_scalar, read_end}
use thriftgo.Unknown.Write.Cursor.{At, At-start, At-skip, slice_from-At}

module _ {S : Type 0} where
  -- The slice at an offset is handed to `next`.
  pub At-offset :
      {A : Type 0} (next : Slice → Exec S Error A) {fs : Slice} {offset : ℕ} {bs spare : List ℕ}
      {s s' : S} {a : A}
      → At fs offset bs spare
      → Runs (next (record { bytes = bs; spare = spare })) s a s'
      → Runs (lift (slice_from offset fs) >>= next) s a s'
  unfolding ◌>>=◌
  At-offset next at r = record { runs = rw (slice_from-At at) r.runs }

  pub read_end-Runs :
      (msg : String) {fs : Slice} {offset : ℕ} {bs spare : List ℕ} (s : S)
      → At fs offset bs spare
      → Runs (read_end msg fs offset) s offset s
  unfolding read_end ◌>>=◌
  read_end-Runs msg s at = record { runs = rw (slice_from-At at) (rw add-zero) }

  pub write_scalar-Runs :
      {A : Type 0} (read : Reader A) (w : A → Acting S) {bs : List ℕ} {a : A} (rest spare : List ℕ)
      {s s' : S}
      → Gets read bs a
      → w a s ≡ (none, s')
      → Runs (write_scalar read w (record { bytes = bs ++ rest; spare = spare })) s (length bs) s'
  unfolding write_scalar ◌>>=◌ act
  write_scalar-Runs read w rest spare g h = record { runs = rw (g.at rest spare) (rw h) }

  -- A reader at the start of a slice.
  pub lift-Runs :
      {A : Type 0} (read : Reader A) (f : Error → Error) {bs : List ℕ} {a : A} (rest spare : List ℕ)
      (s : S)
      → Gets read bs a
      → Runs
          (wrapping f (lift (read (record { bytes = bs ++ rest; spare = spare }))))
          s
          (a, length bs)
          s
  lift-Runs read f rest spare s g = record { runs = rw (g.at rest spare) }

  -- The end of a container: the reader's end, the protocol's end, and the offset.
  pub closing :
      (msg : String) (f : Error → Error) {fs : Slice} {offset : ℕ} {bs spare : List ℕ}
      (w : Acting S) {s s₁ s' : S}
      → At fs offset bs spare
      → w s ≡ (none, s₁)
      → s₁ ≡ s'
      → Runs (read_end msg fs offset >>= λ offset'. wrapping f (act w) >> pure offset') s offset s'
  closing msg f w {s} at q e = Runs-end e (
      Runs-bind _ _ (read_end-Runs msg s at)
        (Runs-bind _ _ (Runs-wrapping _ _ (act-Runs _ q)) (Runs-pure _ _)))

  -- The header of a field, read at an offset.
  pub header :
      (f : Error → Error) (rest : List ℕ) {fs : Slice} {offset : ℕ} {bs spare : List ℕ} (s : S)
      {h : ℤ × ℤ}
      → At fs offset (bs ++ rest) spare
      → Gets read_field_begin bs h
      → Runs
          (wrapping f (lift (slice_from offset fs) >>= λ r. lift (read_field_begin r)))
          s
          (h, length bs)
          s
  header f rest {spare} s at g =
      Runs-wrapping _ _ (At-offset _ at (record { runs = rw (g.at rest spare) }))

-- Behind the header of a container stand its items.
pub At-items :
    (head items rest spare : List ℕ)
    → At
        (record { bytes = head ++ (items ++ rest); spare = spare })
        (length head)
        (items ++ rest)
        spare
At-items head items rest spare =
    let at = At-skip head (At-start (head ++ (items ++ rest)) spare) in
    rw (← add.zero (length head)) at
