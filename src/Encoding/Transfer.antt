-- ===== src/Encoding/Transfer.antt =====
-- How an encoder and a decoder meet: what is written at the end of any buffer is read back from
-- wherever it stands in any buffer.
use qtopcua.Prelude.{
  ℕ, ◌+◌, ◌≡◌, sym, ap, ◌∙◌, true, [], ◌++◌, arith, length, drop, length-append, append_assoc,
  append-nil, drop-append, drop-drop,
}
use qtopcua.Qt.Text.{Bytes}
use qtopcua.Encoding.State.{codec}
use qtopcua.Encoding.Decoder.{done, Decoder, return, ◌>>=◌}
use qtopcua.Encoding.Encoder.{Encoder, return_true, ◌>>◌}

-- Where `bytes` stand at the offset, `d` succeeds with `a` and moves the offset behind them.
abbrev pub Reads {ℓ} : {A : Type ℓ} → Decoder A → Bytes → A → Type ℓ
Reads d bytes a =
    (buffer : Bytes) (offset : ℕ) (rest : Bytes)
    → drop offset buffer ≡ bytes ++ rest
    → d (codec buffer offset) ≡ done a (codec buffer (offset + length bytes))

-- `e` succeeds and appends `bytes` to any buffer.
abbrev pub Writes : Encoder → Bytes → Type 0
Writes e bytes =
    (buffer : Bytes) (offset : ℕ) → e (codec buffer offset) ≡ (true, codec (buffer ++ bytes) offset)

-- What `e` appends, `d` reads back as `a`.
pub record RoundTrip {ℓ} {A : Type ℓ} (e : Encoder) (d : Decoder A) (a : A) : Type ℓ where
  pub bytes : Bytes
  pub writes : Writes e bytes
  pub reads : Reads d bytes a

pub Reads-return {ℓ} : {A : Type ℓ} (a : A) → Reads (return a) [] a
Reads-return a buffer offset rest h = let e : offset + 0 ≡ offset = omega arith in rw e

pub Reads-bind {ℓ κ} :
    {A : Type ℓ} {B : Type κ} (d : Decoder A) (f : A → Decoder B) (xs ys : Bytes) (a : A) (b : B)
    → Reads d xs a
    → Reads (f a) ys b
    → Reads (d >>= f) (xs ++ ys) b
Reads-bind d f xs ys a b r s buffer offset rest h =
    rw (r buffer offset (ys ++ rest) (h ∙ append_assoc xs ys rest), ◌>>=◌)
      (s buffer (offset + length xs) rest there ∙ ap (λ k. done b (codec buffer k)) moved)
  where
    there : drop (offset + length xs) buffer ≡ ys ++ rest
    there =
        sym (drop-drop (length xs) offset buffer)
        ∙ ap (drop (length xs)) (h ∙ append_assoc xs ys rest)
        ∙ drop-append xs (ys ++ rest)

    moved : offset + length xs + length ys ≡ offset + length (xs ++ ys)
    moved = omega (arith, length-append xs ys)

pub Writes-return : Writes return_true []
Writes-return buffer offset = rw (append-nil buffer)

pub Writes-then :
    (m k : Encoder) (xs ys : Bytes) → Writes m xs → Writes k ys → Writes (m >> k) (xs ++ ys)
Writes-then m k xs ys r s buffer offset =
    rw (r buffer offset, ◌>>◌)
      (s (buffer ++ xs) offset ∙ ap (λ buf. (true, codec buf offset)) (append_assoc buffer xs ys))

-- The same with the bytes named.
pub record Carries {ℓ} {A : Type ℓ} (e : Encoder) (d : Decoder A) (bytes : Bytes) (a : A)
    : Type ℓ where
  pub writes : Writes e bytes
  pub reads : Reads d bytes a

pub RoundTrip-Carries {ℓ} :
    {A : Type ℓ} {e : Encoder} {d : Decoder A} {bytes : Bytes} {a : A}
    → Carries e d bytes a
    → RoundTrip e d a
RoundTrip-Carries {bytes = bytes} c = record { bytes = bytes; writes = c.writes; reads = c.reads }

-- Fields that are written one after the other are read one after the other.
pub Carries-next {ℓ κ} :
    {A : Type ℓ} {B : Type κ} {m k : Encoder} {d : Decoder A} (f : A → Decoder B) {xs ys : Bytes}
    {a : A} {b : B}
    → Carries m d xs a
    → Carries k (f a) ys b
    → Carries (m >> k) (d >>= f) (xs ++ ys) b
Carries-next {m = m} {k = k} {d = d} f {xs = xs} {ys = ys} {a = a} {b = b} r s = record {
  writes = Writes-then m k xs ys r.writes s.writes;
  reads = Reads-bind d f xs ys a b r.reads s.reads;
}

pub RoundTrip-next {ℓ κ} :
    {A : Type ℓ} {B : Type κ} {m k : Encoder} {d : Decoder A} (f : A → Decoder B) {a : A} {b : B}
    → RoundTrip m d a
    → RoundTrip k (f a) b
    → RoundTrip (m >> k) (d >>= f) b
RoundTrip-next {m = m} {k = k} {d = d} f {a = a} {b = b} r s = record {
  bytes = r.bytes ++ s.bytes;
  writes = Writes-then m k r.bytes s.bytes r.writes s.writes;
  reads = Reads-bind d f r.bytes s.bytes a b r.reads s.reads;
}

pub RoundTrip-return {ℓ} : {A : Type ℓ} (a : A) → RoundTrip return_true (return a) a
RoundTrip-return a = record { bytes = []; writes = Writes-return; reads = Reads-return a }

-- A value that is computed from what was read.
pub Reads-map {ℓ κ} :
    {A : Type ℓ} {B : Type κ} (d : Decoder A) (f : A → B) (bytes : Bytes) (a : A)
    → Reads d bytes a
    → Reads (d >>= λ x. return (f x)) bytes (f a)
Reads-map d f bytes a r buffer offset rest h = rw (r buffer offset rest h, ◌>>=◌)

pub Carries-map {ℓ κ} :
    {A : Type ℓ} {B : Type κ} {e : Encoder} {d : Decoder A} (f : A → B) {bytes : Bytes} {a : A}
    → Carries e d bytes a
    → Carries e (d >>= λ x. return (f x)) bytes (f a)
Carries-map {d = d} f {bytes = bytes} {a = a} c = record {
  writes = c.writes;
  reads = Reads-map d f bytes a c.reads;
}

pub RoundTrip-map {ℓ κ} :
    {A : Type ℓ} {B : Type κ} {e : Encoder} {d : Decoder A} (f : A → B) {a : A}
    → RoundTrip e d a
    → RoundTrip e (d >>= λ x. return (f x)) (f a)
RoundTrip-map {d = d} f {a = a} r = record {
  bytes = r.bytes;
  writes = r.writes;
  reads = Reads-map d f r.bytes a r.reads;
}
