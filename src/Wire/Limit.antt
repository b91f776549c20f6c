-- ===== src/Wire/Limit.antt =====
-- A frame's size limit (wire-rs/src/frame.rs), on a target whose `usize` has `bits` bits.
use glade.Prelude.{
  ℕ, zero, suc, ◌≤◌, ◌<◌, ◌≡◌, sym, subst, ◌⊎◌, inl, inr, Bool-cases, arith, ◌*◌, ◌^◌, ◌&&◌, ltb,
  leb, if◌then◌else◌, Result, ok, err,
}

abbrev pub max_frame_bytes : ℕ
max_frame_bytes = 16 * 2 ^ 20

-- The refusal, `InvalidData`, names the length claimed.
pub data BadFrame : Type 0 where
  invalid_data : ℕ → BadFrame

-- `usize::try_from` refuses what does not fit below `2 ^ bits`; it comes before the limit's test.
unfoldable pub frame_len : ℕ → ℕ → Result BadFrame ℕ
frame_len bits claimed =
    if ltb claimed (2 ^ bits) && leb claimed max_frame_bytes
    then ok claimed
    else err (invalid_data claimed)

two_pow-le : (bits : ℕ) → 32 ≤ bits → 2 ^ 32 ≤ 2 ^ bits
two_pow-le zero h = absurd (omega arith)
two_pow-le (suc bits) h = elim (Bool-cases (leb 32 bits)) [
  | inl e ↦ omega (arith, two_pow-le bits (ground arith))
  | inr e ↦ last bits (ground arith)
]
  where
    last : (bits : ℕ) → bits ≡ 31 → 2 ^ 32 ≤ 2 ^ suc bits
    last bits e = subst (λ n. 2 ^ 32 ≤ 2 ^ suc n) (sym e) (omega arith)

-- On a target of 32 bits or more, a frame's claimed length is taken as it is where it is at most
-- 16 MiB, and refused where it is more.
pub frame_len_lem :
    (bits claimed : ℕ)
    → 32 ≤ bits
    → ((claimed ≤ max_frame_bytes) × (frame_len bits claimed ≡ ok claimed))
      ⊎ ((max_frame_bytes < claimed) × (frame_len bits claimed ≡ err (invalid_data claimed)))
unfolding frame_len
frame_len_lem bits claimed h = elim (Bool-cases (leb claimed max_frame_bytes)) [
  | inl e ↦ inl (ground arith, ground (arith, two_pow-le bits h))
  | inr e ↦ inr (ground arith, ground arith)
]
