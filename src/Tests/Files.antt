-- ===== src/Tests/Files.antt =====
-- The descriptor handlers on small bitmaps.
use secpoline.Base.{
  ◌==◌, if◌then◌else◌, ℕ, ◌≡◌, refl, true, false, none, some, List, [], ◌∷◌, arith,
}
use secpoline.Files.Bitmap.{FdBitmap, read_bit}
use secpoline.Files.Handlers.{
  Gprs, to_fd, is_negative, fd_first_argument_prehandler, fd_second_argument_prehandler,
  fd_first_second_argument_prehandler, fd_first_third_argument_prehandler, Kernel, StatMem,
  init_stat_mem, open_application, open_file,
}
use secpoline.Files.Handlers.Guard.{
  Guarded, prehandlers-Guarded, Event, created, closed, handle_all, effects, handle_all-effects,
  OpenSafe, open_file-OpenSafe,
}

abbrev fds : FdBitmap
fds = 7 ∷ []

abbrev registers : ℕ → ℕ → Gprs
registers rax rdi = record { rax = rax; rdi = rdi; rsi = 1; rdx = 2 }

abbrev history : List Event
history = created (registers 3 0) ∷ closed 0 (registers 3 1) ∷ closed 5 (registers 3 2) ∷ []

handle_all-effects_example :
    read_bit 2 (handle_all history fds) ≡ effects history (λ j. read_bit j fds) 2
handle_all-effects_example = handle_all-effects history fds (λ j. read_bit j fds) (λ j. refl) 2

prehandlers-Guarded_example :
    (is_negative (to_fd 9) ≡ false
      → Guarded fds
          (to_fd 9 ∷ [])
          (registers 0 9)
          (fd_first_argument_prehandler fds (registers 0 9)))
    × (is_negative (to_fd 9) ≡ true
        → fd_first_argument_prehandler fds (registers 0 9) ≡ registers 0 9)
    × Guarded fds (to_fd 1 ∷ []) (registers 0 9) (fd_second_argument_prehandler fds (registers 0 9))
    × Guarded fds
        (to_fd 9 ∷ to_fd 1 ∷ [])
        (registers 0 9)
        (fd_first_second_argument_prehandler fds (registers 0 9))
    × Guarded fds
        (to_fd 9 ∷ to_fd 2 ∷ [])
        (registers 0 9)
        (fd_first_third_argument_prehandler fds (registers 0 9))
prehandlers-Guarded_example = prehandlers-Guarded fds (registers 0 9)

abbrev kernel : Kernel
kernel = record {
  mem_fd = 5;
  mem_stat = some (11, 2);
  opened = 5;
  fstat = λ fd. if fd == 5 then some (11, 2) else none;
}

abbrev fresh : StatMem
fresh = record { stat = (0, 0); init = false }

open_file-OpenSafe_example :
    ((open_file kernel fresh (registers 2 0)).0.init ≡ true)
    × ((open_file kernel fresh (registers 2 0)).0.stat ≡ (11, 2))
    × OpenSafe kernel (11, 2) (open_file kernel fresh (registers 2 0)).2
open_file-OpenSafe_example =
    open_file-OpenSafe kernel (11, 2) fresh (registers 2 0) (λ e. ground (arith, e)) (λ e. refl)

-- When the first call cannot read /proc/self/mem, that file is not refused.
unread : (open_file (record kernel { mem_stat = none }) fresh (registers 2 0)).2.closed ≡ []
unfolding open_file open_application init_stat_mem
unread = refl
