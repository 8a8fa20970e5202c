-- ===== src/Files/Handlers/Guard.antt =====
-- What the handlers guarantee, one by one and over a sequence of syscalls.
use secpoline.Base.{
  ap, ℕ, ◌≡◌, ◌≢◌, ◌⊎◌, ◌&&◌, refl, inl, inr, true, false, not, Option, none, some, List, [], ◌∷◌,
  arith, ◌==◌, if◌then◌else◌, Bool-cases,
}
use secpoline.Files.Bitmap.{FdBitmap, unset_bit, read_bit}
use secpoline.Files.Bitmap.Laws.{read_bit-set_bit, read_bit-unset_bit}
use secpoline.Files.Handlers.{
  Gprs, to_fd, is_negative, invalid, save_untrusted_fd, close, invalidate,
  fd_first_argument_prehandler, fd_second_argument_prehandler, fd_first_second_argument_prehandler,
  fd_first_third_argument_prehandler, Kernel, Opening, StatMem, stat_or, init_stat_mem,
  open_application, open_file, check_file, deny,
}

abbrev pub Tracked : FdBitmap → List ℕ → Type 0
Tracked map [] = Unit {0}
Tracked map (fd ∷ fds) = (read_bit fd map ≢ 0) × Tracked map fds

-- Either the first argument is spoiled, or nothing is changed and the descriptors are tracked.
abbrev pub Guarded : FdBitmap → List ℕ → Gprs → Gprs → Type 0
Guarded map fds gprs gprs' = (gprs'.rdi ≡ invalid) ⊎ ((gprs' ≡ gprs) × Tracked map fds)

invalidate-Guarded :
    (map : FdBitmap) (fd : ℕ) (gprs : Gprs) → Guarded map (fd ∷ []) gprs (invalidate fd map gprs)
invalidate-Guarded map fd gprs = elim (Bool-cases (read_bit fd map == 0)) [
  | inl e ↦ rw e (inl refl)
  | inr e ↦ rw e (inr (refl, (ground arith, tt)))
]

invalidate_two :
    (map : FdBitmap) (fd1 fd2 : ℕ) (gprs : Gprs)
    → Guarded map (fd1 ∷ fd2 ∷ []) gprs (invalidate fd2 map (invalidate fd1 map gprs))
invalidate_two map fd1 fd2 gprs = elim (Bool-cases (read_bit fd2 map == 0)) [
  | inl e ↦ rw e (inl refl)
  | inr e ↦ rw e (elim (Bool-cases (read_bit fd1 map == 0)) [
    | inl d ↦ rw d (inl refl)
    | inr d ↦ rw d (inr (refl, (ground arith, (ground arith, tt))))
  ])
]

-- Each of the four prehandlers either puts -1 in the first argument, or changes nothing, and then
-- every descriptor that it looks at is in the bitmap (for a handler of the first argument only,
-- unless the descriptor is negative).
pub prehandlers-Guarded :
    (map : FdBitmap) (gprs : Gprs)
    → (is_negative (to_fd gprs.rdi) ≡ false
        → Guarded map (to_fd gprs.rdi ∷ []) gprs (fd_first_argument_prehandler map gprs))
      × (is_negative (to_fd gprs.rdi) ≡ true → fd_first_argument_prehandler map gprs ≡ gprs)
      × Guarded map (to_fd gprs.rsi ∷ []) gprs (fd_second_argument_prehandler map gprs)
      × Guarded map
          (to_fd gprs.rdi ∷ to_fd gprs.rsi ∷ [])
          gprs
          (fd_first_second_argument_prehandler map gprs)
      × Guarded map
          (to_fd gprs.rdi ∷ to_fd gprs.rdx ∷ [])
          gprs
          (fd_first_third_argument_prehandler map gprs)
unfolding fd_first_argument_prehandler fd_second_argument_prehandler
    fd_first_second_argument_prehandler fd_first_third_argument_prehandler
prehandlers-Guarded map gprs = (
  λ e. rw e (invalidate-Guarded map (to_fd gprs.rdi) gprs),
  λ e. rw e refl,
  invalidate-Guarded map (to_fd gprs.rsi) gprs,
  invalidate_two map (to_fd gprs.rdi) (to_fd gprs.rsi) gprs,
  invalidate_two map (to_fd gprs.rdi) (to_fd gprs.rdx) gprs,
)

-- A syscall that has returned, with the registers then, or a close with the kernel's result and the
-- registers before.
pub data Event : Type 0 where
  created : Gprs → Event
  closed : ℕ → Gprs → Event

abbrev pub handle : Event → FdBitmap → FdBitmap
handle (created gprs) map = save_untrusted_fd gprs map
handle (closed result gprs) map = (close result gprs map).1

abbrev pub handle_all : List Event → FdBitmap → FdBitmap
handle_all [] map = map
handle_all (e ∷ es) map = handle_all es (handle e map)

-- The abstract table: 1 for the application's descriptors.
abbrev pub effect : Event → (ℕ → ℕ) → ℕ → ℕ
effect (created gprs) table j =
    if not (is_negative (to_fd gprs.rax)) && (to_fd gprs.rax == j) then 1 else table j
effect (closed result gprs) table j = if (result == 0) && (to_fd gprs.rdi == j) then 0 else table j

abbrev pub effects : List Event → (ℕ → ℕ) → ℕ → ℕ
effects [] table = table
effects (e ∷ es) table = effects es (effect e table)

close_done :
    (result : ℕ) (gprs : Gprs) (map : FdBitmap)
    → (result == 0) ≡ true
    → (close result gprs map).1 ≡ unset_bit (to_fd gprs.rdi) map
unfolding close
close_done result gprs map e = rw e refl

close_failed :
    (result : ℕ) (gprs : Gprs) (map : FdBitmap)
    → (result == 0) ≡ false
    → (close result gprs map).1 ≡ map
unfolding close
close_failed result gprs map e = rw e refl

handle-effect :
    (e : Event) (map : FdBitmap) (table : ℕ → ℕ)
    → ((j : ℕ) → read_bit j map ≡ table j)
    → (j : ℕ) → read_bit j (handle e map) ≡ effect e table j
unfolding save_untrusted_fd close
handle-effect (created gprs) map table h j = elim (Bool-cases (is_negative (to_fd gprs.rax))) [
  | inl e ↦ rw e (h j)
  | inr e ↦ rw (e, read_bit-set_bit (to_fd gprs.rax) j map, h j) refl
]
handle-effect (closed result gprs) map table h j = elim (Bool-cases (result == 0)) [
  | inl e ↦
      rw (close_done result gprs map e, read_bit-unset_bit (to_fd gprs.rdi) j map, e, h j) refl
  | inr e ↦ rw (close_failed result gprs map e, e) (h j)
]

-- Over any sequence of syscalls that create and close descriptors, the bitmap holds exactly the
-- abstract table: a descriptor is the application's from its creation to a close that succeeds.
pub handle_all-effects :
    (es : List Event) (map : FdBitmap) (table : ℕ → ℕ)
    → ((j : ℕ) → read_bit j map ≡ table j)
    → (j : ℕ) → read_bit j (handle_all es map) ≡ effects es table j
handle_all-effects [] map table h j = h j
handle_all-effects (e ∷ es) map table h j =
    handle_all-effects es (handle e map) (effect e table) (handle-effect e map table h) j

-- What `open` has done is safe.
abbrev pub OpenSafe : Kernel → ℕ × ℕ → Opening → Type 0
OpenSafe k stat_mem o =
    (is_negative o.gprs.rax ≡ false
      → (o.gprs.rax ≡ k.opened) × (o.closed ≡ []) × (k.fstat k.opened ≢ some stat_mem))
    × (is_negative k.opened ≡ false → is_negative o.gprs.rax ≡ true → o.closed ≡ k.opened ∷ [])

check_file-OpenSafe :
    (k : Kernel) (stat_mem : ℕ × ℕ) (gprs : Gprs) (stat : Option (ℕ × ℕ))
    → gprs.rax ≡ k.opened
    → k.fstat k.opened ≡ stat
    → OpenSafe k stat_mem (check_file stat_mem k.opened gprs stat)
unfolding check_file deny
check_file-OpenSafe k stat_mem gprs none e f = (λ h. ground arith, λ h n. refl)
check_file-OpenSafe k stat_mem gprs (some stat) e f =
    elim (Bool-cases ((stat.0 == stat_mem.0) && (stat.1 == stat_mem.1))) [
      | inl same ↦ rw same (λ h. ground arith, λ h n. refl)
      | inr other ↦ rw other (
        λ h. (
          e,
          refl,
          λ q.
              let q' : some stat ≡ some stat_mem = rw f at q in
              let eq : stat ≡ stat_mem = cc in let other' = rw eq at other in ground arith,
        ),
        λ h n. ground arith,
      )
    ]

open_application_granted :
    (k : Kernel) (stat_mem : ℕ × ℕ) (gprs : Gprs)
    → is_negative k.opened ≡ false
    → open_application k stat_mem gprs
      ≡ check_file stat_mem k.opened (record gprs { rax = k.opened }) (k.fstat k.opened)
unfolding open_application
open_application_granted k stat_mem gprs e = rw e refl

open_application-OpenSafe :
    (k : Kernel) (stat_mem : ℕ × ℕ) (gprs : Gprs)
    → OpenSafe k stat_mem (open_application k stat_mem gprs)
unfolding open_application
open_application-OpenSafe k stat_mem gprs = elim (Bool-cases (is_negative k.opened)) [
  | inl e ↦ rw e (λ h. ground arith, λ h n. ground arith)
  | inr e ↦
      rw (open_application_granted k stat_mem gprs e) (
        check_file-OpenSafe k stat_mem (record gprs { rax = k.opened }) (k.fstat k.opened) refl
          refl)
]

-- The static variables hold what fstat says of /proc/self/mem, when they are set.
abbrev pub Known : ℕ × ℕ → StatMem → Type 0
Known mem s = s.init ≡ true → s.stat ≡ mem

init_stat_mem-Known :
    (k : Kernel) (mem : ℕ × ℕ) (s : StatMem)
    → Known mem s
    → (s.init ≡ false → k.mem_stat ≡ some mem)
    → ((init_stat_mem k s).0.init ≡ true) × ((init_stat_mem k s).0.stat ≡ mem)
unfolding init_stat_mem
init_stat_mem-Known k mem s known probe = elim (Bool-cases s.init) [
  | inl e ↦ rw e (refl, known e)
  | inr e ↦ rw e (refl, ap (stat_or s.stat) (probe e))
]

-- `open` when fstat says `mem` of /proc/self/mem: the first call has read that, or reads it now
-- without a failure. A descriptor that is handed to the application is the one that the kernel has
-- opened, it is left open, and fstat does not say `mem` of it. A descriptor that is refused is
-- closed. Afterwards the static variables hold `mem`, for the next call.
pub open_file-OpenSafe :
    (k : Kernel) (mem : ℕ × ℕ) (s : StatMem) (gprs : Gprs)
    → Known mem s
    → (s.init ≡ false → k.mem_stat ≡ some mem)
    → ((open_file k s gprs).0.init ≡ true)
      × ((open_file k s gprs).0.stat ≡ mem)
      × OpenSafe k mem (open_file k s gprs).2
unfolding open_file
open_file-OpenSafe k mem s gprs known probe =
    let (set, same) = init_stat_mem-Known k mem s known probe in
    (set, same, rw same (open_application-OpenSafe k mem gprs))
