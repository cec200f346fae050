-- ===== src/Unknown/Read/Appends.antt =====
-- Steps of `read` that put bytes behind what the buffer holds up to its offset.
use thriftgo.Prelude.{
  ℕ, ◌+◌, ◌*◌, ◌≤◌, ◌≡◌, refl, sym, subst, none, Option, List, [], ◌++◌, arith, append_assoc,
  append-nil, Bool-cases, inl, inr, ltb, leb-true, length, take, drop, replicate, length-append,
  length-take_le, length-drop, length-replicate, take-length-append, take_past,
}
use thriftgo.Go.Outcome.{ok}
use thriftgo.Go.Exec.{Exec, pure, wrapping, ◌>>=◌, ◌>>◌}
use thriftgo.Unknown.Types.{Error}
use thriftgo.Unknown.Binary.Write.{Writer, copy}
use thriftgo.Unknown.Binary.Puts.{Puts, write_from-at}
use thriftgo.Unknown.Protocol.{Returning, Acting}
use thriftgo.Unknown.Read.{Cursor, ensure_bytes_len, advance, ask, query, tell, read_scalar}

-- The buffer is long enough afterwards, and keeps the bytes up to the offset.
pub record Ensured (buf : List ℕ) (offset l : ℕ) (buf' : List ℕ) : Type 0 where
  pub long : offset + l ≤ length buf'
  pub kept : take offset buf' ≡ take offset buf

enlarged :
    (buf : List ℕ) (offset n : ℕ)
    → offset ≤ length buf
    → offset ≤ n
    → copy (replicate n 0) (take offset buf) ≡ take offset buf ++ drop offset (replicate n 0)
unfolding copy
enlarged buf offset n h k =
    let front = length-take_le offset buf h in
    rw (length-replicate {A = ℕ} n 0, front)
      (rw (take_past n (take offset buf) (omega (arith, front))))

enlarged-Ensured :
    (buf : List ℕ) (offset l n : ℕ)
    → offset ≤ length buf
    → offset + l ≤ n
    → Ensured buf offset l (copy (replicate n 0) (take offset buf))
enlarged-Ensured buf offset l n h k =
    let front = length-take_le offset buf h in
    let back : List ℕ = drop offset (replicate n 0) in
    rw (enlarged buf offset n h (omega arith)) (record {
      long = omega (
        arith,
        front,
        length-append (take offset buf) back,
        length-drop {A = ℕ} offset (replicate n 0),
        length-replicate {A = ℕ} n 0,
      );
      kept =
          subst (λ k. take k (take offset buf ++ back) ≡ take offset buf) front
            (take-length-append (take offset buf) back);
    })

pub ensure_bytes_len-Ensured :
    (buf : List ℕ) (offset l : ℕ)
    → offset ≤ length buf
    → (buf' : List ℕ) × (ensure_bytes_len buf offset l ≡ ok buf') × Ensured buf offset l buf'
unfolding ensure_bytes_len
ensure_bytes_len-Ensured buf offset l h = elim (Bool-cases (ltb (length buf) (offset + l))) [
  | inl short ↦ (
    copy (replicate ((offset + l) * 2) 0) (take offset buf),
    rw (short, leb-true offset (length buf) h),
    enlarged-Ensured buf offset l ((offset + l) * 2) h (omega arith),
  )
  | inr long ↦ (buf, rw long, record { long = ground arith; kept = refl })
]

-- The cursor has moved on by `bs`, and the protocol is in `s'`.
pub record Grown {S : Type 0} (c c' : Cursor S) (bs : List ℕ) (s' : S) : Type 0 where
  pub inside : c'.offset ≤ length c'.buf
  pub text : take c'.offset c'.buf ≡ take c.offset c.buf ++ bs
  pub prot : c'.prot ≡ s'

-- From a cursor inside its buffer, with the protocol in `s`, the step ends without an error, has put
-- `bs` behind what was there, and has left the protocol in `s'`.
pub record Appends {S : Type 0} (m : Exec (Cursor S) Error (Unit {0})) (s : S) (bs : List ℕ)
    (s' : S) : Type 0 where
  pub at :
      (c : Cursor S)
      → c.offset ≤ length c.buf
      → c.prot ≡ s
      → (c' : Cursor S) × (m c ≡ (ok tt, c')) × Grown c c' bs s'

module _ {S : Type 0} where
  pub Appends-pure : (s : S) → Appends (pure tt) s [] s
  Appends-pure s = record {
    at = λ c h p. (c, refl, record { inside = h; text = sym (append-nil _); prot = p });
  }

  pub Appends-then :
      {m n : Exec (Cursor S) Error (Unit {0})} {s s₁ s' : S} {bs cs : List ℕ}
      → Appends m s bs s₁
      → Appends n s₁ cs s'
      → Appends (m >> n) s (bs ++ cs) s'
  unfolding ◌>>=◌
  Appends-then {bs} {cs} p q = record {
    at = λ c h e.
        let (c₁, r₁, g₁) = p.at c h e in
        let (c₂, r₂, g₂) = q.at c₁ g₁.inside g₁.prot in
        (
          c₂,
          rw r₁ r₂,
          record {
            inside = g₂.inside;
            text = rw (g₂.text, g₁.text) (append_assoc (take c.offset c.buf) bs cs);
            prot = g₂.prot;
          },
        );
  }

  pub Appends-wrapping :
      (f : Error → Error) {m : Exec (Cursor S) Error (Unit {0})} {s s' : S} {bs : List ℕ}
      → Appends m s bs s'
      → Appends (wrapping f m) s bs s'
  Appends-wrapping f p = record { at = λ c h e. let (c₁, r₁, g₁) = p.at c h e in (c₁, rw r₁, g₁) }

  pub tell-Appends : (f : Acting S) {s s' : S} → f s ≡ (none, s') → Appends (tell f) s [] s'
  unfolding tell
  tell-Appends f {s} {s'} a = record {
    at = λ c h e. (
      record c { prot = s' },
      rw (e, a),
      record { inside = h; text = sym (append-nil _); prot = refl },
    );
  }

  -- What a read that is answered hands to the rest.
  pub query-Appends :
      {A : Type 0} (g : Error → Error) (f : Returning S A)
      (k : A → Exec (Cursor S) Error (Unit {0})) {s s₁ s' : S} {a : A} {bs : List ℕ}
      → f s ≡ (a, none, s₁)
      → Appends (k a) s₁ bs s'
      → Appends (wrapping g (query f) >>= k) s bs s'
  unfolding query ◌>>=◌
  query-Appends g f k {s₁} e q = record {
    at = λ c h p.
        let (c₂, r₂, g₂) = q.at (record c { prot = s₁ }) h refl in
        (c₂, rw (p, e) r₂, record { inside = g₂.inside; text = g₂.text; prot = g₂.prot });
  }

-- The cursor after a write behind a prefix.
moved :
    {S : Type 0} (c : Cursor S) (buf bs rest : List ℕ)
    → c.offset ≤ length buf
    → take c.offset buf ≡ take c.offset c.buf
    → Grown c
        (record c { buf = take c.offset buf ++ (bs ++ rest); offset = c.offset + length bs })
        bs
        c.prot
moved c buf bs rest h e =
    let front = take c.offset buf in
    let n = length-take_le c.offset buf h in
    let m : length (front ++ bs) ≡ c.offset + length bs =
      omega (arith, n, length-append front bs) in
    record {
      inside = omega (arith, n, length-append front (bs ++ rest), length-append bs rest);
      text = rw (← append_assoc front bs rest, ← m, take-length-append (front ++ bs) rest, e) refl;
      prot = refl;
    }

module _ {S : Type 0} where
  -- A writer that puts its bytes, with the length that is ensured.
  pub advance-Appends :
      {l : ℕ} {w : Writer} {bs : List ℕ} (s : S)
      → l ≡ length bs
      → Puts w bs
      → Appends (advance l w) s bs s
  unfolding advance
  advance-Appends {l} {w} {bs} s e p = record {
    at = λ c h q.
        let (buf, r, g) = ensure_bytes_len-Ensured c.buf c.offset l h in
        let long = g.long in
        let room : c.offset + length bs ≤ length buf = omega (arith, long, e) in
        let grown =
          moved c buf bs (drop (length bs) (drop c.offset buf)) (omega (arith, room)) g.kept in
        (
          _,
          rw (r, write_from-at c.offset w bs buf p room),
          record { inside = grown.inside; text = grown.text; prot = q },
        );
  }

  -- A scalar: what is read is written, whatever error comes with it.
  pub read_scalar-Appends :
      {A : Type 0} (f : Returning S A) (len : A → ℕ) (w : A → Writer) {s s' : S} {a : A}
      {e : Option Error} {bs : List ℕ}
      → f s ≡ (a, e, s')
      → len a ≡ length bs
      → Puts (w a) bs
      → Appends (read_scalar f len w) s bs s'
  unfolding read_scalar ask ◌>>=◌
  read_scalar-Appends f len w {s' = t} q' n p = record {
    at = λ c h q.
        let (c₂, r₂, g₂) = (advance-Appends t n p).at (record c { prot = t }) h refl in
        (c₂, rw (q, q') r₂, record { inside = g₂.inside; text = g₂.text; prot = g₂.prot });
  }
