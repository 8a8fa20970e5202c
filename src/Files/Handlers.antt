-- ===== src/Files/Handlers.antt =====
-- The syscall handlers that keep the bitmap and guard the monitor's own descriptors.
pub mod Guard
use secpoline.Base.{
  Run, ℕ, ◌+◌, ◌-◌, ◌*◌, ◌/◌, ◌%◌, ◌^◌, Bool, true, false, ◌&&◌, Option, none, some, List, [], ◌∷◌,
  ltb, leb, ◌==◌, if◌then◌else◌, done, trap, ◌>>◌, nolibc_assert,
}
use secpoline.Files.Bitmap.{FdBitmap, set_bit, unset_bit, read_bit}

-- The registers that the handlers read and write, as 64-bit words.
pub record Gprs : Type 0 where
  pub rax : ℕ
  pub rdi : ℕ
  pub rsi : ℕ
  pub rdx : ℕ

-- `int fd = <long long>`, given as the `size_t` that the bitmap's functions take: the low 32 bits,
-- sign-extended.
unfoldable pub to_fd : ℕ → ℕ
to_fd w = if ltb (w % 2 ^ 32) (2 ^ 31) then w % 2 ^ 32 else w % 2 ^ 32 + 2 ^ 64 - 2 ^ 32

-- `< 0` on a signed 64-bit word.
abbrev pub is_negative : ℕ → Bool
is_negative w = leb (2 ^ 63) w

-- -1 and -EACCES.
abbrev pub invalid : ℕ
invalid = 2 ^ 64 - 1

abbrev pub eacces : ℕ
eacces = 2 ^ 64 - 13

-- The posthandler of the syscalls that return a descriptor.
unfoldable pub save_untrusted_fd : Gprs → FdBitmap → FdBitmap
unfolding to_fd
save_untrusted_fd gprs map =
    if is_negative (to_fd gprs.rax) then map else set_bit (to_fd gprs.rax) map

-- `result` is what the kernel returns for the close.
unfoldable pub close : ℕ → Gprs → FdBitmap → Gprs × FdBitmap
unfolding to_fd
close result gprs map =
    if result == 0
    then (record gprs { rax = 0 }, unset_bit (to_fd gprs.rdi) map)
    else (record gprs { rax = result }, map)

-- `if(!untrusted_fd_bitmap.read_bit(fd)) (*gprs)[REG_RDI] = -1;`
abbrev pub invalidate : ℕ → FdBitmap → Gprs → Gprs
invalidate fd map gprs = if read_bit fd map == 0 then record gprs { rdi = invalid } else gprs

unfoldable pub fd_first_argument_prehandler : FdBitmap → Gprs → Gprs
unfolding to_fd
fd_first_argument_prehandler map gprs =
    if is_negative (to_fd gprs.rdi) then gprs else invalidate (to_fd gprs.rdi) map gprs

unfoldable pub fd_second_argument_prehandler : FdBitmap → Gprs → Gprs
fd_second_argument_prehandler map gprs = invalidate (to_fd gprs.rsi) map gprs

-- The arguments are read before the first change.
unfoldable pub fd_first_second_argument_prehandler : FdBitmap → Gprs → Gprs
fd_first_second_argument_prehandler map gprs =
    invalidate (to_fd gprs.rsi) map (invalidate (to_fd gprs.rdi) map gprs)

unfoldable pub fd_first_third_argument_prehandler : FdBitmap → Gprs → Gprs
fd_first_third_argument_prehandler map gprs =
    invalidate (to_fd gprs.rdx) map (invalidate (to_fd gprs.rdi) map gprs)

-- The loop of `close_range` is behind `assert(0)`.
unfoldable pub close_range : FdBitmap → Gprs → Run Gprs
close_range map gprs = nolibc_assert false >> done gprs

-- What the kernel does: the result of the open that the application asks for, and what fstat says of
-- a descriptor afterwards, the inode and the device; before that, at the first call of the handler,
-- the result of opening /proc/self/mem and what fstat says of that descriptor.
pub record Kernel : Type 0 where
  pub mem_fd : ℕ
  pub mem_stat : Option (ℕ × ℕ)
  pub opened : ℕ
  pub fstat : ℕ → Option (ℕ × ℕ)

-- The static variables `stat_mem` (its inode and device) and `stat_mem_init`.
pub record StatMem : Type 0 where
  pub stat : ℕ × ℕ
  pub init : Bool

-- What the handler does: the registers, and the descriptors that it closes after the application's
-- open.
pub record Opening : Type 0 where
  pub gprs : Gprs
  pub closed : List ℕ

deny : ℕ → Gprs → Opening
deny fd gprs = record { gprs = record gprs { rax = eacces }; closed = fd ∷ [] }

check_file : ℕ × ℕ → ℕ → Gprs → Option (ℕ × ℕ) → Opening
unfolding deny
check_file stat_mem fd gprs none = deny fd gprs
check_file stat_mem fd gprs (some stat) =
    if (stat.0 == stat_mem.0) && (stat.1 == stat_mem.1)
    then deny fd gprs
    else record { gprs = gprs; closed = [] }

-- The first call of the handler. When the fstat fails, `stat_mem` stays as it is.
abbrev pub stat_or : ℕ × ℕ → Option (ℕ × ℕ) → ℕ × ℕ
stat_or old none = old
stat_or old (some stat) = stat

unfoldable pub init_stat_mem : Kernel → StatMem → StatMem × List ℕ
init_stat_mem k s =
    if s.init
    then (s, [])
    else (record { stat = stat_or s.stat k.mem_stat; init = true }, k.mem_fd ∷ [])

unfoldable pub open_application : Kernel → ℕ × ℕ → Gprs → Opening
unfolding check_file
open_application k stat_mem gprs =
    if is_negative k.opened
    then record { gprs = record gprs { rax = k.opened }; closed = [] }
    else check_file stat_mem k.opened (record gprs { rax = k.opened }) (k.fstat k.opened)

-- The static variables afterwards, the descriptors closed by the first call, and the rest.
unfoldable pub open_file : Kernel → StatMem → Gprs → StatMem × List ℕ × Opening
unfolding init_stat_mem open_application
open_file k s gprs =
    let (s', closed) = init_stat_mem k s in (s', closed, open_application k s'.stat gprs)
