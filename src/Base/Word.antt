-- ===== src/Base/Word.antt =====
-- 64-bit pointers and sizes as numbers below 2 ^ 64, and the constants of gsreldata.h and
-- sys/mman.h.
use Prim.Native.Nat.{ℕ, ◌+◌, ◌-◌, ◌*◌, ◌/◌, ◌%◌, ◌^◌, ◌≤◌, ◌<◌}
use mathlib.Core.Path.{◌≡◌}
use native.Mathlib.Omega.{arith}

-- `p + n` and `q - p` on `char*` and `size_t`.
unfoldable pub ptr_add : ℕ → ℕ → ℕ
ptr_add p n = (p + n) % 2 ^ 64

unfoldable pub ptr_sub : ℕ → ℕ → ℕ
ptr_sub q p = (q + 2 ^ 64 - p) % 2 ^ 64

abbrev pub page_size : ℕ
page_size = 4096

-- `(size + PAGE_SIZE - 1) & ~(PAGE_SIZE - 1)`: the low twelve bits of the wrapped sum are cleared.
unfoldable pub page_align : ℕ → ℕ
page_align size = (size + page_size - 1) % 2 ^ 64 / page_size * page_size

pub ptr_add_exact : (p n : ℕ) → p + n < 2 ^ 64 → ptr_add p n ≡ p + n
unfolding ptr_add
ptr_add_exact p n h = omega arith

pub ptr_sub_exact : (q p : ℕ) → p ≤ q → q < 2 ^ 64 → ptr_sub q p ≡ q - p
unfolding ptr_sub
ptr_sub_exact q p h fits = omega arith

-- Going back to the end that a size was computed from.
pub ptr_add-ptr_sub : (p q : ℕ) → p < 2 ^ 64 → q < 2 ^ 64 → ptr_add p (ptr_sub q p) ≡ q
unfolding ptr_add ptr_sub
ptr_add-ptr_sub p q hp hq = omega arith

pub ptr_add-lt : (p n : ℕ) → ptr_add p n < 2 ^ 64
unfolding ptr_add
ptr_add-lt p n = omega arith

-- A size that is a multiple of the page size is its own rounding.
pub page_align_self : (k : ℕ) → k * page_size < 2 ^ 64 → page_align (k * page_size) ≡ k * page_size
unfolding page_align
page_align_self k h = omega arith
