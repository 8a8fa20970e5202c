-- ===== src/Files/Bitmap.antt =====
-- `fd_bitmap`. The lock, and the constructor's walk over /proc/self/fd, are not part of the model.
pub mod Laws
use secpoline.Base.{
  ℕ, zero, suc, ◌+◌, ◌-◌, ◌*◌, ◌/◌, ◌%◌, ◌^◌, List, [], ◌∷◌, ◌++◌, leb, if◌then◌else◌, length,
}

-- `map`, byte by byte; `size` is its length.
abbrev pub FdBitmap : Type 0
FdBitmap = List ℕ

abbrev pub read_byte : ℕ → ℕ → ℕ
read_byte b k = b / 2 ^ k % 2

-- `b | (1 << k)` and `b & ~(1 << k)`.
abbrev pub set_byte : ℕ → ℕ → ℕ
set_byte k b = b + (1 - read_byte b k) * 2 ^ k

abbrev pub unset_byte : ℕ → ℕ → ℕ
unset_byte k b = b - read_byte b k * 2 ^ k

unfoldable pub byte_at : FdBitmap → ℕ → ℕ
byte_at [] i = 0
byte_at (b ∷ bs) zero = b
byte_at (b ∷ bs) (suc i) = byte_at bs i

unfoldable pub update_at : ℕ → (ℕ → ℕ) → FdBitmap → FdBitmap
update_at i f [] = []
update_at zero f (b ∷ bs) = f b ∷ bs
update_at (suc i) f (b ∷ bs) = b ∷ update_at i f bs

unfoldable pub zeros : ℕ → FdBitmap
zeros zero = []
zeros (suc n) = 0 ∷ zeros n

-- `realloc`, and `memset` of the new part.
unfoldable pub enlarge : ℕ → FdBitmap → FdBitmap
unfolding zeros
enlarge byte_index map =
    if leb (length map) byte_index
    then map ++ zeros ((byte_index / 8 + 1) * 8 - length map)
    else map

unfoldable pub set_bit : ℕ → FdBitmap → FdBitmap
unfolding enlarge
set_bit index map = update_at (index / 8) (set_byte (index % 8)) (enlarge (index / 8) map)

unfoldable pub unset_bit : ℕ → FdBitmap → FdBitmap
unset_bit index map =
    if leb (length map) (index / 8) then map else update_at (index / 8) (unset_byte (index % 8)) map

unfoldable pub read_bit : ℕ → FdBitmap → ℕ
read_bit index map =
    if leb (length map) (index / 8) then 0 else read_byte (byte_at map (index / 8)) (index % 8)
