-- ===== src/Print.antt =====
-- The printing functions of src/include/nolibc_util.h, which are built with DEBUG: the bytes that
-- they write. A write outside of a buffer is a trap.
pub mod RoundTrip
use secpoline.Base.{
  ltb, leb, ◌==◌, if◌then◌else◌, ltb→lt, leb→le, ==_iff, Bool-cases, Option-cases, length,
  get_elem?, length-append, elem, Run, done, trap, ◌>>=◌, ◌>>◌, nolibc_assert, Ensures, returned,
  trapped, Ensures-bind, Ensures-assert, Ensures-done, Ensures-if, Ensures-then, Ensures-weaken,
  Ensures-run, page_size, ptr_add_exact, ptr_sub_exact, ptr_add-ptr_sub, ptr_add-lt,
  page_align_self, ptr_add, ptr_sub, page_align, ℕ, zero, suc, ◌+◌, ◌-◌, ◌*◌, ◌/◌, ◌%◌, ◌^◌, ◌≤◌,
  ◌<◌, ◌≡◌, refl, sym, ap, ◌∙◌, ◌≢◌, ◌↔◌, ◌⊎◌, inl, inr, Bool, true, false, not, ◌&&◌, ◌||◌, Option,
  none, some, List, [], ◌∷◌, ◌++◌, map, arith,
}

-- `'0' + (tmp % 10)`, and the digits of the hexadecimal numbers.
abbrev pub decimal_digit : ℕ → ℕ
decimal_digit d = 48 + d

abbrev pub hex_digit : ℕ → ℕ
hex_digit d = if ltb d 10 then 48 + d else 97 + d - 10

-- The loop that fills `num_buf` from its place 30 downwards; `places` are left in front.
unfoldable pub write_digits : ℕ → (ℕ → ℕ) → ℕ → ℕ → List ℕ → Run (List ℕ)
write_digits zero digit base tmp num_buf = if tmp == 0 then done num_buf else trap
write_digits (suc places) digit base tmp num_buf =
    if tmp == 0
    then done num_buf
    else write_digits places digit base (tmp / base) (digit (tmp % base) ∷ num_buf)

unfoldable pub write_number : (ℕ → ℕ) → ℕ → ℕ → Run (List ℕ)
write_number digit base value =
    if value == 0 then done (48 ∷ []) else write_digits 31 digit base value []

-- `buf` has 256 bytes.
abbrev pub in_buffer : List ℕ → Run (List ℕ)
in_buffer line = if leb (length line) 256 then done line else trap

-- `if(prefix)`: NULL is none; the string is without its end.
abbrev pub prefix_bytes : Option (List ℕ) → List ℕ
prefix_bytes none = []
prefix_bytes (some p) = p ++ 32 ∷ []

-- "[tid] ".
abbrev pub tid_bytes : List ℕ → List ℕ
tid_bytes tid = 91 ∷ tid ++ 93 ∷ 32 ∷ []

unfoldable pub nolibc_print_size_t : ℕ → Option (List ℕ) → ℕ → Run (List ℕ)
unfolding write_number
nolibc_print_size_t tid prefix value = do
  t ← write_number decimal_digit 10 tid
  v ← write_number decimal_digit 10 value
  in_buffer (tid_bytes t ++ prefix_bytes prefix ++ v ++ 10 ∷ [])

unfoldable pub nolibc_print_size_t_hex : ℕ → Option (List ℕ) → ℕ → Run (List ℕ)
unfolding write_number
nolibc_print_size_t_hex tid prefix value = do
  t ← write_number decimal_digit 10 tid
  v ← write_number hex_digit 16 value
  in_buffer (tid_bytes t ++ (prefix_bytes prefix ++ 48 ∷ 120 ∷ []) ++ v ++ 10 ∷ [])

-- `while (*p && pos < sizeof(buf) - 2)`: `room` bytes are left.
unfoldable pub copy_string : ℕ → List ℕ → List ℕ
copy_string zero s = []
copy_string (suc room) [] = []
copy_string (suc room) (c ∷ s) = c ∷ copy_string room s

unfoldable pub nolibc_print_str : ℕ → List ℕ → Run (List ℕ)
unfolding write_number copy_string
nolibc_print_str tid s = do
  t ← write_number decimal_digit 10 tid
  in_buffer (tid_bytes t ++ copy_string (254 - length (tid_bytes t)) s ++ 10 ∷ [])
