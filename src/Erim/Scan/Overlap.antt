-- ===== src/Erim/Scan/Overlap.antt =====
-- The scan goes on three bytes behind an instruction: nothing starts inside it.
use secpoline.Base.{
  ℕ, ◌+◌, ◌≢◌, ◌⊎◌, inl, inr, refl, ◌/◌, ◌%◌, ◌≡◌, arith, ◌==◌, ◌&&◌, ◌||◌, not, Option, none, some,
  if◌then◌else◌,
}
use native.Mathlib.Nat.{add_assoc}
use secpoline.Erim.Pattern.{
  Memory, Unsafe, wrpkru, xrstor, wrgsbase, classify, is_wrpkru, is_xrstor, is_wrgsbase32,
  is_wrgsbase64,
}

-- `classify` on the five bytes.
classify_bytes : ℕ → ℕ → ℕ → ℕ → ℕ → Option Unsafe
classify_bytes a b c d e =
    if (a == 15) && (b == 1) && (c == 239)
    then some wrpkru
    else if (a == 15) && (b == 174) && not (c / 64 % 4 == 3) && (c / 8 % 8 == 5)
    then some xrstor
    else if ((a == 243) && (b == 15) && (c == 174) && (d / 8 % 32 == 27))
        || ((a == 243) && (b / 16 % 16 == 4) && (c == 15) && (d == 174) && (e / 8 % 32 == 27))
    then some wrgsbase
    else none

-- What the bytes of an unsafe instruction are.
Shape : ℕ → ℕ → ℕ → ℕ → ℕ → Type 0
Shape a b c d e =
    ((a ≡ 15) × (b ≡ 1) × (c ≡ 239))
    ⊎ ((a ≡ 15) × (b ≡ 174) × (c / 8 % 8 ≡ 5))
    ⊎ ((a ≡ 243) × (b ≡ 15) × (c ≡ 174) × (d / 8 % 32 ≡ 27))
    ⊎ ((a ≡ 243) × (b / 16 % 16 ≡ 4) × (c ≡ 15) × (d ≡ 174) × (e / 8 % 32 ≡ 27))

classify_bytes-Shape :
    (a b c d e : ℕ) (k : Unsafe) → classify_bytes a b c d e ≡ some k → Shape a b c d e
unfolding classify_bytes Shape
classify_bytes-Shape a b c d e k h = ground arith

other_start : (a b c d e : ℕ) → a ≢ 15 → a ≢ 243 → classify_bytes a b c d e ≡ none
unfolding classify_bytes
other_start a b c d e h k = ground arith

other_modrm : (b c d e : ℕ) → b ≢ 1 → c / 8 % 8 ≢ 5 → classify_bytes 15 b c d e ≡ none
unfolding classify_bytes
other_modrm b c d e h k = ground arith

bytes_apart :
    (a b c d e f g : ℕ) (k : Unsafe)
    → Shape a b c d e
    → (classify_bytes b c d e f ≡ none) × (classify_bytes c d e f g ≡ none)
unfolding Shape
bytes_apart a b c d e f g k (inl h) = (
  other_start b c d e f (omega arith) (omega arith),
  other_start c d e f g (omega arith) (omega arith),
)
bytes_apart a b c d e f g k (inr (inl h)) = (
  other_start b c d e f (omega arith) (omega arith),
  other_start c d e f g (omega arith) (omega arith),
)
bytes_apart a b c d e f g k (inr (inr (inl h))) = (
  rw h.1 (other_modrm c d e f (omega arith) (omega arith)),
  other_start c d e f g (omega arith) (omega arith),
)
bytes_apart a b c d e f g k (inr (inr (inr h))) = (
  other_start b c d e f (omega arith) (omega arith),
  rw h.2 (other_modrm d e f g (omega arith) (omega arith)),
)

classify-bytes :
    (m : Memory) (p : ℕ)
    → classify m p ≡ classify_bytes (m p) (m (p + 1)) (m (p + 2)) (m (p + 3)) (m (p + 4))
unfolding classify is_wrpkru is_xrstor is_wrgsbase32 is_wrgsbase64 classify_bytes
classify-bytes m p = refl

classify-bytes_at :
    (m : Memory) (p i : ℕ)
    → classify m (p + i)
      ≡ classify_bytes
          (m (p + i))
          (m (p + (i + 1)))
          (m (p + (i + 2)))
          (m (p + (i + 3)))
          (m (p + (i + 4)))
classify-bytes_at m p i =
    rw
      (classify-bytes m (p + i), add_assoc p i 1, add_assoc p i 2, add_assoc p i 3, add_assoc p i 4)
      refl

-- At an address where an unsafe instruction starts, none starts at the next two addresses: the
-- step of three bytes skips nothing.
pub classify-apart :
    (m : Memory) (p : ℕ) (k : Unsafe)
    → classify m p ≡ some k
    → (classify m (p + 1) ≡ none) × (classify m (p + 2) ≡ none)
classify-apart m p k h =
    let s =
      classify_bytes-Shape (m p) (m (p + 1)) (m (p + 2)) (m (p + 3)) (m (p + 4)) k
        (rw (classify-bytes m p) at h) in
    let (one, two) =
      bytes_apart (m p) (m (p + 1)) (m (p + 2)) (m (p + 3)) (m (p + 4)) (m (p + 5)) (m (p + 6)) k
        s in
    (rw (classify-bytes_at m p 1) one, rw (classify-bytes_at m p 2) two)
