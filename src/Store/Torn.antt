-- ===== src/Store/Torn.antt =====
-- What is read of a journal whose last write failed (`read_records` of node/src/store.rs).
use glade.Prelude.{
  ℕ, zero, suc, ◌+◌, ◌*◌, ◌/◌, ◌%◌, ◌^◌, ◌<◌, ◌≤◌, ◌≡◌, refl, sym, ap, ◌∙◌, none, some, List, [],
  ◌∷◌, ◌++◌, Bytes, length, length-append, Result, ok, All, arith,
}
use mathlib.Core.List.{append-nil, append_assoc}
use glade.External.{External}
use glade.Envelope.Parser.{split}
use glade.Wire.{Op}
use glade.Wire.Decode.{DecodeError}
use glade.Store.Journal.{u32_le, framed, frames, part, read_frame, op_read, read_from, read_log}

-- An op whose encoding is read back, and is short enough for its length to be a u32.
pub record IsReadable (x : External) (op : Op) : Type 0 where
  pub decodes : x.decode_op (x.encode_op op) ≡ ok op
  pub short : length (x.encode_op op) < 2 ^ 32

split-append : (raw rest : Bytes) → split (length raw) (raw ++ rest) ≡ some (raw, rest)
unfolding split
split-append [] rest = refl
split-append (b ∷ raw) rest = ground (arith, split-append raw rest)

split-short : (n : ℕ) (raw : Bytes) → length raw < n → split n raw ≡ none
unfolding split
split-short zero raw h = absurd (omega (arith, h))
split-short (suc n) [] h = refl
split-short (suc n) (b ∷ raw) h = ground (arith, split-short n raw (omega (arith, h)))

length-part : (n : ℕ) (b : ℕ) (raw : Bytes) → length (part n (b ∷ raw)) ≤ length raw
unfolding part
length-part n b [] = omega arith
length-part zero b (c ∷ raw) = omega arith
length-part (suc n) b (c ∷ raw) = omega (arith, length-part n c raw)

u32_value :
    (n : ℕ)
    → n < 2 ^ 32
    → n % 256
        + 256 * ((n / 256) % 256)
        + 65536 * ((n / 65536) % 256)
        + 16777216 * ((n / 16777216) % 256)
      ≡ n
u32_value n h = omega (arith, h)

module _ (x : External) where
  read_frame-framed :
      (op : Op) (rest : Bytes)
      → IsReadable x op
      → read_frame (framed x op ++ rest) ≡ some (x.encode_op op, rest)
  unfolding read_frame framed u32_le
  read_frame-framed op rest h =
      ap (λ n. split n (x.encode_op op ++ rest)) (u32_value (length (x.encode_op op)) h.short)
      ∙ split-append (x.encode_op op) rest

  short_frame :
      (n : ℕ) (raw : Bytes)
      → length raw < 2 ^ 32
      → read_frame (part n (u32_le (length raw) ++ raw)) ≡ none
  unfolding read_frame u32_le part
  short_frame zero raw h = refl
  short_frame (suc zero) raw h = refl
  short_frame (suc (suc zero)) raw h = refl
  short_frame (suc (suc (suc n))) [] h = refl
  short_frame (suc (suc (suc zero))) (b ∷ raw) h = refl
  short_frame (suc (suc (suc (suc n)))) (b ∷ raw) h =
      ap (λ m. split m (part n (b ∷ raw))) (u32_value (length (b ∷ raw)) h)
      ∙ split-short (length (b ∷ raw)) (part n (b ∷ raw)) (omega (arith, length-part n b raw))

  read_from-some :
      (fuel : ℕ) (bytes raw rest : Bytes)
      → read_frame bytes ≡ some (raw, rest)
      → read_from x (suc fuel) bytes ≡ (
        op_read (x.decode_op raw) ++ (read_from x fuel rest).0,
        4 + length raw + (read_from x fuel rest).1,
      )
  unfolding read_from
  read_from-some fuel bytes raw rest h = rw (read_from, h) refl

  read_from-none :
      (fuel : ℕ) (bytes : Bytes) → read_frame bytes ≡ none → read_from x (suc fuel) bytes ≡ ([], 0)
  unfolding read_from
  read_from-none fuel bytes h = rw (read_from, h) refl

  no_frames :
      (fuel : ℕ) (tail : Bytes)
      → read_frame tail ≡ none
      → read_from x (suc fuel) (frames x [] ++ tail) ≡ ([], length (frames x []))
  unfolding frames
  no_frames fuel tail t = read_from-none fuel tail t

  length-framed : (op : Op) → length (framed x op) ≡ 4 + length (x.encode_op op)
  unfolding framed u32_le
  length-framed op = omega arith

  length-frames :
      (op : Op) (ops : List Op)
      → length (frames x (op ∷ ops)) ≡ 4 + length (x.encode_op op) + length (frames x ops)
  unfolding frames
  length-frames op ops = omega (arith, length-append (framed x op) (frames x ops), length-framed op)

  frames_cons :
      (op : Op) (ops : List Op) (tail : Bytes)
      → frames x (op ∷ ops) ++ tail ≡ framed x op ++ (frames x ops ++ tail)
  unfolding frames
  frames_cons op ops tail = append_assoc (framed x op) (frames x ops) tail

  read_from-frames :
      (fuel : ℕ) (ops : List Op) (tail : Bytes)
      → length (frames x ops) < fuel
      → All (IsReadable x) ops
      → read_frame tail ≡ none
      → read_from x fuel (frames x ops ++ tail) ≡ (ops, length (frames x ops))
  unfolding op_read
  read_from-frames zero ops tail f h t = absurd (omega (arith, f))
  read_from-frames (suc fuel) [] tail f h t = no_frames fuel tail t
  read_from-frames (suc fuel) (op ∷ ops) tail f h t =
      let later = read_from-frames fuel ops tail (omega (arith, f, length-frames op ops)) h.1 t in
      ap (read_from x (suc fuel)) (frames_cons op ops tail)
      ∙ read_from-some fuel _ (x.encode_op op) (frames x ops ++ tail)
          (read_frame-framed op (frames x ops ++ tail) h.0)
      ∙ ap
          (λ (r : Result DecodeError Op). (
            op_read r ++ (read_from x fuel (frames x ops ++ tail)).0,
            4 + length (x.encode_op op) + (read_from x fuel (frames x ops ++ tail)).1,
          ))
          h.0.decodes
      ∙ ap (λ (q : List Op × ℕ). (op ∷ q.0, 4 + length (x.encode_op op) + q.1)) later
      ∙ ap (λ (n : ℕ). (op ∷ ops, n)) (sym (length-frames op ops))

  -- A journal of whole records, behind which a write of another may have failed at any byte:
  -- what is read of it is the records' ops, in order, and what it is cut to is the records. Its
  -- ops, and the one torn, are read back by the codec and their encodings are shorter than 2^32
  -- bytes.
  pub read_log-torn :
      (ops : List Op) (op : Op) (n : ℕ)
      → All (IsReadable x) ops
      → IsReadable x op
      → read_log x (frames x ops ++ part n (framed x op)) ≡ (ops, length (frames x ops))
  unfolding read_log framed
  read_log-torn ops op n h o =
      read_from-frames _ ops (part n (framed x op))
        (omega (arith, length-append (frames x ops) (part n (framed x op)))) h
        (short_frame n (x.encode_op op) o.short)

  pub read_log-frames :
      (ops : List Op)
      → All (IsReadable x) ops
      → read_log x (frames x ops) ≡ (ops, length (frames x ops))
  unfolding read_log read_frame
  read_log-frames ops h =
      ap (read_from x (suc (length (frames x ops)))) (sym (append-nil (frames x ops)))
      ∙ read_from-frames _ ops [] (omega arith) h refl
