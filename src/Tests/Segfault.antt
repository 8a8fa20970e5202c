-- ===== src/Tests/Segfault.antt =====
-- The segfault handler and the breakpoints on a small process.
use secpoline.Base.{
  ◌==◌, if◌then◌else◌, ==_iff, Bool-cases, length, elem, done, ptr_add, ptr_sub, ℕ, ◌≡◌, refl, sym,
  ap, ◌∙◌, ◌⊎◌, inl, inr, true, false, none, some, List, [], ◌∷◌, arith,
}
use secpoline.VirtPage.{VirtPage, virt_page_overlap_byte, page_end}
use secpoline.PageManager.State.{Manager, virt_page_alloc, splice}
use secpoline.PageManager.Lookup.{lookup_addr}
use secpoline.PageManager.Mprotect.{update_mprotect}
use secpoline.Erim.Pages.{UnsafePage, find_page, find_unsafe_page}
use secpoline.Erim.Pattern.{Memory}
use secpoline.Segfault.Guard.{watches, is_watched, page_of_address, Guarded, Tidy}
use secpoline.Segfault.Close.{SameCode}
use secpoline.Segfault.InStep.{Honest, kernel_prot, InStep}
use secpoline.Segfault.InStep.Guard.{
  KernelGuarded, add_breakpoints-KernelGuarded, KernelFifo, add_breakpoints-KernelFifo,
  secpoline_segfault_handler-KernelGuarded,
}
use secpoline.Segfault.Handler.{Fault, add_breakpoint_wrapper, secpoline_segfault_handler}
use secpoline.Segfault.Handler.Keeps.{Listed, Expected}
use secpoline.Segfault.Handler.Unwatched.{Unwatched}
use secpoline.Segfault.Pages.{
  Hbreakpoint, WatchedPage, Kernel, Process, is_exec, set_page_non_executable,
}
use secpoline.Segfault.Breakpoints.{new_controller, remove_last_page, add_breakpoints}
use secpoline.Segfault.Bounds.{Balanced, total}
use secpoline.Segfault.Watch.{add_breakpoints-Balanced}

-- The pages at 8192 and 12288, of the application.
abbrev group : VirtPage
group = record { start = 8192; size = 8192; prot = 5; flags = 2; cid = 1 }

abbrev old_page : UnsafePage
old_page = record {
  address = 8192;
  trusted_page = false;
  current_perm = 5;
  desired_perm = 5;
  unsafe_instructions = some (8200 ∷ 8300 ∷ 8400 ∷ []);
  unsafe_instructions_size = 3;
}

abbrev new_page : UnsafePage
new_page = record {
  address = 12288;
  trusted_page = false;
  current_perm = 1;
  desired_perm = 5;
  unsafe_instructions = some (12300 ∷ 12400 ∷ []);
  unsafe_instructions_size = 2;
}

abbrev breakpoint : ℕ → ℕ → Hbreakpoint
breakpoint address fd = record { address = address; fd = fd }

abbrev watched : WatchedPage
watched = breakpoint 8200 5 ∷ breakpoint 8300 6 ∷ breakpoint 8400 7 ∷ []

abbrev process : Process
process = record {
  unsafe_pages = old_page ∷ new_page ∷ [];
  manager = record { pages = group ∷ []; free_pages = 5; grants = [] };
  mprotected = [];
  unsafe_page_mutex = false;
  controller = record {
    used_breakpoints = 3;
    max_dynamic_breakpoints = 4;
    static_hbreakpoints = [];
    dynamic_hbreakpoints = watched ∷ [];
  };
  fds = 8 ∷ 9 ∷ [];
}

abbrev kernel : Kernel
kernel = record { mprotect = λ address prot. true; close = λ fd. true }

placed : (p' : Process) × (add_breakpoints kernel new_page false process ≡ done p')
unfolding add_breakpoints remove_last_page set_page_non_executable lookup_addr
    virt_page_overlap_byte page_end ptr_add find_unsafe_page update_mprotect virt_page_alloc
placed = (_, refl)

process-Balanced : Balanced process.controller
unfolding total
process-Balanced = (omega arith, omega arith, omega arith)

add_breakpoints-Balanced_example : Balanced (placed.0).controller
add_breakpoints-Balanced_example =
    add_breakpoints-Balanced kernel new_page false process placed.0 process-Balanced placed.1

-- The old page is executable before.
abbrev initial : ℕ → ℕ
initial a = if a == 8192 then 5 else 1

process-InStep : InStep initial process
unfolding find_page kernel_prot
process-InStep a u found exec = elim (Bool-cases (8192 == a)) [
  | inl e ↦
      let same : old_page ≡ u = some_inj (rw e at found) in
      ap (λ w. is_exec w.current_perm) (sym same)
  | inr e ↦
      let off : (a == 8192) ≡ false = ground (arith, e) in
      let exec' : is_exec 1 ≡ true = rw off at exec in absurd (ground (arith, exec'))
]
  where
    some_inj : some old_page ≡ some u → old_page ≡ u
    some_inj h = cc

kernel-Honest : Honest kernel
kernel-Honest address prot = refl

add_breakpoints-KernelFifo_example : KernelFifo initial new_page process placed.0
add_breakpoints-KernelFifo_example =
    add_breakpoints-KernelFifo initial kernel new_page process placed.0 kernel-Honest process-InStep
      process-Balanced placed.1

old_instructions :
    (i : ℕ) → elem i (8200 ∷ 8300 ∷ 8400 ∷ []) ≡ true → (i ≡ 8200) ⊎ (i ≡ 8300) ⊎ (i ≡ 8400)
old_instructions i h = ground arith

watched-OnePage : (i : ℕ) → elem i (8200 ∷ 8300 ∷ 8400 ∷ []) ≡ true → page_of_address i ≡ 8192
watched-OnePage i h = elim (old_instructions i h) [
  | inl e ↦ omega arith
  | inr (inl e) ↦ omega arith
  | inr (inr e) ↦ omega arith
]

at_old :
    (u : UnsafePage) (xs : List ℕ) (i : ℕ)
    → old_page ≡ u
    → u.unsafe_instructions ≡ some xs
    → elem i xs ≡ true
    → (page_of_address i ≡ 8192) × (is_watched i process.controller ≡ true)
unfolding watches
at_old u xs i same list member =
    let its : some (8200 ∷ 8300 ∷ 8400 ∷ []) ≡ some xs =
      ap (λ w. w.unsafe_instructions) same ∙ list in
    let same_xs : 8200 ∷ 8300 ∷ 8400 ∷ [] ≡ xs = cc in
    let inside : elem i (8200 ∷ 8300 ∷ 8400 ∷ []) ≡ true = ap (elem i) same_xs ∙ member in
    (watched-OnePage i inside, ground (arith, inside))

process-Guarded : Guarded process
unfolding find_page
process-Guarded a u xs i found exec list member = elim (Bool-cases (8192 == a)) [
  | inl e ↦ old (rw e at found) ((==_iff 8192 a).0 e)
  | inr e ↦ elim (Bool-cases (12288 == a)) [
    | inl f ↦ absurd (new (rw (e, f) at found))
    | inr f ↦ absurd (nothing (rw (e, f) at found))
  ]
]
  where
    old :
        some old_page ≡ some u
        → 8192 ≡ a
        → (page_of_address i ≡ a) × (is_watched i process.controller ≡ true)
    old h e = let same : old_page ≡ u = cc in rw (sym e) (at_old u xs i same list member)

    new : some new_page ≡ some u → ⊥
    new h =
        let same : new_page ≡ u = cc in
        let off : is_exec 1 ≡ is_exec u.current_perm = ap (λ w. is_exec w.current_perm) same in
        ground (arith, off ∙ exec)

    nothing : none ≡ some u → ⊥
    nothing h = cc

new_page-Listed : Listed new_page
new_page-Listed xs list =
    let same : 12300 ∷ 12400 ∷ [] ≡ xs = cc in
    (ap length same, λ i member. on i (ap (elem i) same ∙ member))
  where
    on : (i : ℕ) → elem i (12300 ∷ 12400 ∷ []) ≡ true → page_of_address i ≡ 12288
    on i h =
        let either : (i ≡ 12300) ⊎ (i ≡ 12400) = ground arith in
        elim either [ inl e ↦ omega arith | inr e ↦ omega arith ]

add_breakpoints-KernelGuarded_example :
    KernelGuarded initial placed.0
    × InStep initial placed.0
    × Guarded placed.0
    × Tidy (placed.0).controller.dynamic_hbreakpoints
    × ((i : ℕ) → elem i (12300 ∷ 12400 ∷ []) ≡ true → is_watched i (placed.0).controller ≡ true)
    × SameCode process.unsafe_pages (placed.0).unsafe_pages
add_breakpoints-KernelGuarded_example =
    add_breakpoints-KernelGuarded initial kernel new_page (12300 ∷ 12400 ∷ []) process placed.0
      kernel-Honest process-InStep process-Balanced (watched-OnePage, tt) process-Guarded refl refl
      (new_page-Listed (12300 ∷ 12400 ∷ []) refl).1 placed.1

abbrev fault : ℕ → Memory → Fault
fault address memory = record { si_code = 2; si_addr = address; cid = 1; memory = memory }

handled :
    (p' : Process) × (secpoline_segfault_handler kernel (fault 12300 (λ a. 0)) process
      ≡ done (p', 0))
unfolding add_breakpoints secpoline_segfault_handler find_unsafe_page lookup_addr
    virt_page_overlap_byte page_end ptr_add add_breakpoint_wrapper remove_last_page
    set_page_non_executable update_mprotect virt_page_alloc splice ptr_sub
handled = (_, refl)

fault-Expected : Expected (fault 12300 (λ a. 0)) process
unfolding find_unsafe_page find_page
fault-Expected u found =
    let same : new_page ≡ u = cc in rw (sym same) (new_page-Listed, λ w. ground arith)

secpoline_segfault_handler-KernelGuarded_example :
    KernelGuarded initial handled.0 × InStep initial handled.0 × Guarded handled.0
secpoline_segfault_handler-KernelGuarded_example =
    secpoline_segfault_handler-KernelGuarded initial kernel (fault 12300 (λ a. 0)) process handled.0
      0 kernel-Honest process-InStep process-Balanced (watched-OnePage, tt) process-Guarded
      fault-Expected handled.1

-- A page that the application writes code to: it is writable, and wanted executable as well.
abbrev code_page : UnsafePage
code_page = record {
  address = 8192;
  trusted_page = false;
  current_perm = 3;
  desired_perm = 7;
  unsafe_instructions = none;
  unsafe_instructions_size = 0;
}

abbrev code_manager : Manager
code_manager = record {
  pages = record { start = 8192; size = 4096; prot = 3; flags = 2; cid = 1 } ∷ [];
  free_pages = 5;
  grants = [];
}

abbrev writer : Process
writer = record {
  unsafe_pages = code_page ∷ [];
  manager = code_manager;
  mprotected = [];
  unsafe_page_mutex = false;
  controller = new_controller;
  fds = [];
}
