-- ===== src/Unknown/Write/Cursor.antt =====
-- Reading on in a slice: `At fs offset bs spare` says that `fs[offset:]` is `bs`.
use thriftgo.Prelude.{
  ℕ, ◌+◌, ◌≤◌, ◌≡◌, refl, ap, List, ◌++◌, arith, leb-true, length, drop, length-append, length-drop,
  drop-add, drop-length-append,
}
use thriftgo.Go.Outcome.{ok}
use thriftgo.Unknown.Binary.Read.{Slice, slice_from}

pub record At (fs : Slice) (offset : ℕ) (bs spare : List ℕ) : Type 0 where
  pub inside : offset ≤ length fs.bytes
  pub here : drop offset fs.bytes ≡ bs
  pub behind : fs.spare ≡ spare

pub At-start : (bs spare : List ℕ) → At (record { bytes = bs; spare = spare }) 0 bs spare
At-start bs spare = record { inside = omega arith; here = refl; behind = refl }

pub At-skip :
    {fs : Slice} {offset : ℕ} (bs : List ℕ) {cs spare : List ℕ}
    → At fs offset (bs ++ cs) spare
    → At fs (offset + length bs) cs spare
At-skip {fs} {offset} bs {cs} {spare} a = record {
  inside =
      omega (arith, a.inside, length-append bs cs, length-drop offset fs.bytes, ap length a.here);
  here = rw (drop-add, a.here) (drop-length-append bs cs);
  behind = a.behind;
}

pub slice_from-At :
    {fs : Slice} {offset : ℕ} {bs spare : List ℕ}
    → At fs offset bs spare
    → slice_from offset fs ≡ ok (record { bytes = bs; spare = spare })
unfolding slice_from
slice_from-At {fs} {offset} a = rw (leb-true offset (length fs.bytes) a.inside, a.here, a.behind)
