-- ===== src/Files/Bitmap/Laws.antt =====
-- Reading the bitmap after an update.
use secpoline.Base.{
  ℕ, zero, suc, ◌+◌, ◌-◌, ◌*◌, ◌/◌, ◌%◌, ◌<◌, ◌≤◌, ◌≡◌, refl, sym, inl, inr, false, [], ◌∷◌, ◌++◌,
  arith, leb, ◌==◌, if◌then◌else◌, length, length-append, Bool-cases,
}
use secpoline.Files.Bitmap.{
  FdBitmap, read_byte, set_byte, unset_byte, byte_at, update_at, zeros, enlarge, set_bit, unset_bit,
  read_bit,
}

module _ {ℓ} (P : ℕ → Type ℓ) where
  -- Eight cases for a position in a byte.
  position : P 0 → P 1 → P 2 → P 3 → P 4 → P 5 → P 6 → P 7 → (k : ℕ) → k < 8 → P k
  position p0 p1 p2 p3 p4 p5 p6 p7 zero h = p0
  position p0 p1 p2 p3 p4 p5 p6 p7 (suc zero) h = p1
  position p0 p1 p2 p3 p4 p5 p6 p7 (suc (suc zero)) h = p2
  position p0 p1 p2 p3 p4 p5 p6 p7 (suc (suc (suc zero))) h = p3
  position p0 p1 p2 p3 p4 p5 p6 p7 (suc (suc (suc (suc zero)))) h = p4
  position p0 p1 p2 p3 p4 p5 p6 p7 (suc (suc (suc (suc (suc zero))))) h = p5
  position p0 p1 p2 p3 p4 p5 p6 p7 (suc (suc (suc (suc (suc (suc zero)))))) h = p6
  position p0 p1 p2 p3 p4 p5 p6 p7 (suc (suc (suc (suc (suc (suc (suc zero))))))) h = p7
  position p0 p1 p2 p3 p4 p5 p6 p7 (suc (suc (suc (suc (suc (suc (suc (suc k)))))))) h =
      ground arith

set_byte-read :
    (k : ℕ)
    → k < 8
    → (j : ℕ) → j < 8
    → (b : ℕ) → read_byte (set_byte k b) j ≡ (if k == j then 1 else read_byte b j)
set_byte-read =
    position
      (λ k.
        (j : ℕ)
        → j < 8
        → (b : ℕ) → read_byte (set_byte k b) j ≡ (if k == j then 1 else read_byte b j))
      (position (λ j. (b : ℕ) → read_byte (set_byte 0 b) j ≡ (if 0 == j then 1 else read_byte b j))
        (λ b. omega arith) (λ b. omega arith) (λ b. omega arith) (λ b. omega arith)
        (λ b. omega arith) (λ b. omega arith) (λ b. omega arith) (λ b. omega arith))
      (position (λ j. (b : ℕ) → read_byte (set_byte 1 b) j ≡ (if 1 == j then 1 else read_byte b j))
        (λ b. omega arith) (λ b. omega arith) (λ b. omega arith) (λ b. omega arith)
        (λ b. omega arith) (λ b. omega arith) (λ b. omega arith) (λ b. omega arith))
      (position (λ j. (b : ℕ) → read_byte (set_byte 2 b) j ≡ (if 2 == j then 1 else read_byte b j))
        (λ b. omega arith) (λ b. omega arith) (λ b. omega arith) (λ b. omega arith)
        (λ b. omega arith) (λ b. omega arith) (λ b. omega arith) (λ b. omega arith))
      (position (λ j. (b : ℕ) → read_byte (set_byte 3 b) j ≡ (if 3 == j then 1 else read_byte b j))
        (λ b. omega arith) (λ b. omega arith) (λ b. omega arith) (λ b. omega arith)
        (λ b. omega arith) (λ b. omega arith) (λ b. omega arith) (λ b. omega arith))
      (position (λ j. (b : ℕ) → read_byte (set_byte 4 b) j ≡ (if 4 == j then 1 else read_byte b j))
        (λ b. omega arith) (λ b. omega arith) (λ b. omega arith) (λ b. omega arith)
        (λ b. omega arith) (λ b. omega arith) (λ b. omega arith) (λ b. omega arith))
      (position (λ j. (b : ℕ) → read_byte (set_byte 5 b) j ≡ (if 5 == j then 1 else read_byte b j))
        (λ b. omega arith) (λ b. omega arith) (λ b. omega arith) (λ b. omega arith)
        (λ b. omega arith) (λ b. omega arith) (λ b. omega arith) (λ b. omega arith))
      (position (λ j. (b : ℕ) → read_byte (set_byte 6 b) j ≡ (if 6 == j then 1 else read_byte b j))
        (λ b. omega arith) (λ b. omega arith) (λ b. omega arith) (λ b. omega arith)
        (λ b. omega arith) (λ b. omega arith) (λ b. omega arith) (λ b. omega arith))
      (position (λ j. (b : ℕ) → read_byte (set_byte 7 b) j ≡ (if 7 == j then 1 else read_byte b j))
        (λ b. omega arith) (λ b. omega arith) (λ b. omega arith) (λ b. omega arith)
        (λ b. omega arith) (λ b. omega arith) (λ b. omega arith) (λ b. omega arith))

unset_byte-read :
    (k : ℕ)
    → k < 8
    → (j : ℕ) → j < 8
    → (b : ℕ) → read_byte (unset_byte k b) j ≡ (if k == j then 0 else read_byte b j)
unset_byte-read =
    position
      (λ k.
        (j : ℕ)
        → j < 8
        → (b : ℕ) → read_byte (unset_byte k b) j ≡ (if k == j then 0 else read_byte b j))
      (position
        (λ j. (b : ℕ) → read_byte (unset_byte 0 b) j ≡ (if 0 == j then 0 else read_byte b j))
        (λ b. omega arith) (λ b. omega arith) (λ b. omega arith) (λ b. omega arith)
        (λ b. omega arith) (λ b. omega arith) (λ b. omega arith) (λ b. omega arith))
      (position
        (λ j. (b : ℕ) → read_byte (unset_byte 1 b) j ≡ (if 1 == j then 0 else read_byte b j))
        (λ b. omega arith) (λ b. omega arith) (λ b. omega arith) (λ b. omega arith)
        (λ b. omega arith) (λ b. omega arith) (λ b. omega arith) (λ b. omega arith))
      (position
        (λ j. (b : ℕ) → read_byte (unset_byte 2 b) j ≡ (if 2 == j then 0 else read_byte b j))
        (λ b. omega arith) (λ b. omega arith) (λ b. omega arith) (λ b. omega arith)
        (λ b. omega arith) (λ b. omega arith) (λ b. omega arith) (λ b. omega arith))
      (position
        (λ j. (b : ℕ) → read_byte (unset_byte 3 b) j ≡ (if 3 == j then 0 else read_byte b j))
        (λ b. omega arith) (λ b. omega arith) (λ b. omega arith) (λ b. omega arith)
        (λ b. omega arith) (λ b. omega arith) (λ b. omega arith) (λ b. omega arith))
      (position
        (λ j. (b : ℕ) → read_byte (unset_byte 4 b) j ≡ (if 4 == j then 0 else read_byte b j))
        (λ b. omega arith) (λ b. omega arith) (λ b. omega arith) (λ b. omega arith)
        (λ b. omega arith) (λ b. omega arith) (λ b. omega arith) (λ b. omega arith))
      (position
        (λ j. (b : ℕ) → read_byte (unset_byte 5 b) j ≡ (if 5 == j then 0 else read_byte b j))
        (λ b. omega arith) (λ b. omega arith) (λ b. omega arith) (λ b. omega arith)
        (λ b. omega arith) (λ b. omega arith) (λ b. omega arith) (λ b. omega arith))
      (position
        (λ j. (b : ℕ) → read_byte (unset_byte 6 b) j ≡ (if 6 == j then 0 else read_byte b j))
        (λ b. omega arith) (λ b. omega arith) (λ b. omega arith) (λ b. omega arith)
        (λ b. omega arith) (λ b. omega arith) (λ b. omega arith) (λ b. omega arith))
      (position
        (λ j. (b : ℕ) → read_byte (unset_byte 7 b) j ≡ (if 7 == j then 0 else read_byte b j))
        (λ b. omega arith) (λ b. omega arith) (λ b. omega arith) (λ b. omega arith)
        (λ b. omega arith) (λ b. omega arith) (λ b. omega arith) (λ b. omega arith))

byte_at-update :
    (i j : ℕ) (f : ℕ → ℕ) (map : FdBitmap)
    → i < length map
    → byte_at (update_at i f map) j ≡ (if i == j then f (byte_at map j) else byte_at map j)
unfolding byte_at update_at
byte_at-update i j f [] h = ground arith
byte_at-update zero zero f (b ∷ bs) h = refl
byte_at-update zero (suc j) f (b ∷ bs) h = ground arith
byte_at-update (suc i) zero f (b ∷ bs) h = ground arith
byte_at-update (suc i) (suc j) f (b ∷ bs) h = ground (arith, byte_at-update i j f bs (omega arith))

byte_at_past : (map : FdBitmap) (i : ℕ) → length map ≤ i → byte_at map i ≡ 0
unfolding byte_at
byte_at_past [] i h = refl
byte_at_past (b ∷ bs) zero h = ground arith
byte_at_past (b ∷ bs) (suc i) h = byte_at_past bs i (omega arith)

byte_at-zeros : (n i : ℕ) → byte_at (zeros n) i ≡ 0
unfolding byte_at zeros
byte_at-zeros zero i = refl
byte_at-zeros (suc n) zero = refl
byte_at-zeros (suc n) (suc i) = byte_at-zeros n i

byte_at-append : (map : FdBitmap) (n i : ℕ) → byte_at (map ++ zeros n) i ≡ byte_at map i
unfolding byte_at
byte_at-append [] n i = byte_at-zeros n i
byte_at-append (b ∷ bs) n zero = refl
byte_at-append (b ∷ bs) n (suc i) = byte_at-append bs n i

length-zeros : (n : ℕ) → length (zeros n) ≡ n
unfolding zeros
length-zeros zero = refl
length-zeros (suc n) = omega (arith, length-zeros n)

byte_at-enlarge : (k i : ℕ) (map : FdBitmap) → byte_at (enlarge k map) i ≡ byte_at map i
unfolding enlarge
byte_at-enlarge k i map = elim (Bool-cases (leb (length map) k)) [
  | inl e ↦ rw e (byte_at-append map ((k / 8 + 1) * 8 - length map) i)
  | inr e ↦ rw e refl
]

length-enlarge : (k : ℕ) (map : FdBitmap) → k < length (enlarge k map)
unfolding enlarge
length-enlarge k map = elim (Bool-cases (leb (length map) k)) [
  | inl e ↦
      let n = (k / 8 + 1) * 8 - length map in
      rw e (ground (arith, length-append map (zeros n), length-zeros n))
  | inr e ↦ rw e (ground arith)
]

zero_bit : (k : ℕ) → k < 8 → read_byte 0 k ≡ 0
zero_bit = position (λ k. read_byte 0 k ≡ 0) refl refl refl refl refl refl refl refl

-- A byte out of range reads as 0, so `read_bit` needs no test of its own.
read_bit-byte : (i : ℕ) (map : FdBitmap) → read_bit i map ≡ read_byte (byte_at map (i / 8)) (i % 8)
unfolding read_bit
read_bit-byte i map = elim (Bool-cases (leb (length map) (i / 8))) [
  | inl e ↦ rw (e, byte_at_past map (i / 8) (ground arith)) (sym (zero_bit (i % 8) (omega arith)))
  | inr e ↦ rw e refl
]

-- An update of one bit of one byte is an update of one bit.
one_bit :
    (i j v b : ℕ) (f : ℕ → ℕ)
    → read_byte (f b) (j % 8) ≡ (if i % 8 == j % 8 then v else read_byte b (j % 8))
    → read_byte (if i / 8 == j / 8 then f b else b) (j % 8)
      ≡ (if i == j then v else read_byte b (j % 8))
one_bit i j v b f h = elim (Bool-cases (i / 8 == j / 8)) [
  | inl e ↦ let same : (i % 8 == j % 8) ≡ (i == j) = ground arith in rw (e, ← same) h
  | inr e ↦ let other : (i == j) ≡ false = ground arith in rw (e, other) refl
]

-- `read_bit` after `set_bit` is 1 at that descriptor, and as before at every other, also when the
-- bitmap had to grow.
pub read_bit-set_bit :
    (i j : ℕ) (map : FdBitmap) → read_bit j (set_bit i map) ≡ (if i == j then 1 else read_bit j map)
unfolding set_bit
read_bit-set_bit i j map =
    let large = enlarge (i / 8) map in
    let b = byte_at map (j / 8) in
    rw
      (
        read_bit-byte j (update_at (i / 8) (set_byte (i % 8)) large),
        read_bit-byte j map,
        byte_at-update (i / 8) (j / 8) (set_byte (i % 8)) large (length-enlarge (i / 8) map),
        byte_at-enlarge (i / 8) (j / 8) map,
      )
      (one_bit i j 1 b (set_byte (i % 8))
        (set_byte-read (i % 8) (omega arith) (j % 8) (omega arith) b))

-- `read_bit` after `unset_bit` is 0 at that descriptor, and as before at every other.
pub read_bit-unset_bit :
    (i j : ℕ) (map : FdBitmap)
    → read_bit j (unset_bit i map) ≡ (if i == j then 0 else read_bit j map)
unfolding unset_bit
read_bit-unset_bit i j map = elim (Bool-cases (leb (length map) (i / 8))) [
  | inl e ↦ rw e (elim (Bool-cases (i == j)) [
    | inl s ↦
        let q : i ≡ j = ground arith in
        rw (s, ← q, read_bit-byte i map, byte_at_past map (i / 8) (ground arith))
          (zero_bit (i % 8) (omega arith))
    | inr s ↦ rw s refl
  ])
  | inr e ↦
      rw
        (
          e,
          read_bit-byte j (update_at (i / 8) (unset_byte (i % 8)) map),
          read_bit-byte j map,
          byte_at-update (i / 8) (j / 8) (unset_byte (i % 8)) map (ground arith),
        )
        (one_bit i j 0 (byte_at map (j / 8)) (unset_byte (i % 8))
          (unset_byte-read (i % 8) (omega arith) (j % 8) (omega arith) (byte_at map (j / 8))))
]
