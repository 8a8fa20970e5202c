-- ===== src/Segfault/Handler.antt =====
-- `secpoline_segfault_handler` and `add_breakpoint_wrapper`, on the thread that has the fault. The
-- locks of the handler, the signals to the other threads, which place the same breakpoints, and the
-- copy of the breakpoints for new threads are not part of the model.
pub mod Keeps
pub mod Unwatched
use secpoline.Base.{
  ltb, leb, ◌==◌, if◌then◌else◌, ltb→lt, leb→le, ==_iff, Bool-cases, Option-cases, length,
  get_elem?, length-append, elem, Run, done, trap, ◌>>=◌, ◌>>◌, nolibc_assert, Ensures, returned,
  trapped, Ensures-bind, Ensures-assert, Ensures-done, Ensures-if, Ensures-then, Ensures-weaken,
  Ensures-run, page_size, ptr_add_exact, ptr_sub_exact, ptr_add-ptr_sub, ptr_add-lt,
  page_align_self, ptr_add, ptr_sub, page_align, ℕ, zero, suc, ◌+◌, ◌-◌, ◌*◌, ◌/◌, ◌%◌, ◌^◌, ◌≤◌,
  ◌<◌, ◌≡◌, refl, sym, ap, ◌∙◌, ◌≢◌, ◌↔◌, ◌⊎◌, inl, inr, Bool, true, false, not, ◌&&◌, ◌||◌, Option,
  none, some, List, [], ◌∷◌, ◌++◌, map, arith,
}
use secpoline.VirtPage.{VirtPage}
use secpoline.PageManager.Lookup.{lookup_addr}
use secpoline.Erim.Pattern.{Memory}
use secpoline.Erim.Pages.{UnsafePage, find_page, find_unsafe_page}
use secpoline.Erim.Region.{Input, Scanner, clear_exec, mem_scan_region}
use secpoline.Segfault.Pages.{
  Hbreakpoint, WatchedPage, Controller, Kernel, Process, is_write, is_exec, expect_success,
  secpoline_mprotect, set_current_perm, assign_perm, lock_unsafe_page, clear_exec_of, close_page,
  non_executable_at, set_page_non_executable,
}
use secpoline.Segfault.Breakpoints.{add_breakpoints}

-- SI_USER, SI_TKILL (-6), SEGV_MAPERR, SEGV_BNDERR and SEGV_PKUERR.
abbrev pub si_user : ℕ
si_user = 0

abbrev pub si_tkill : ℕ
si_tkill = 2 ^ 32 - 6

abbrev pub segv_maperr : ℕ
segv_maperr = 1

abbrev pub segv_bnderr : ℕ
segv_bnderr = 3

abbrev pub segv_pkuerr : ℕ
segv_pkuerr = 4

-- What the handler is given: `info->si_code`, `info->si_addr`, `compartment_id_on_entry`, and the
-- memory that a scan reads.
pub record Fault : Type 0 where
  pub si_code : ℕ
  pub si_addr : ℕ
  pub cid : ℕ
  pub memory : Memory

-- `prot & ~PROT_WRITE`.
abbrev pub clear_write : ℕ → ℕ
clear_write prot = prot / 4 * 4 + prot % 2

abbrev pub leave_unless : Bool → ℕ → Process → Run (Process × ℕ) → Run (Process × ℕ)
leave_unless true code p rest = rest
leave_unless false code p rest = done (p, code)

-- `secpoline_mprotect` of the page, and then `current_perm = prot`.
unfoldable pub switch_page : Kernel → UnsafePage → ℕ → ℕ → Process → Run (Process × ℕ)
switch_page k u prot cid p =
    secpoline_mprotect k u.address prot cid p >>= λ p1. done (assign_perm u.address prot p1, 0)

-- The page is read through its pointer again: a scan may have changed it.
unfoldable pub wrap_at : Kernel → Option UnsafePage → Bool → Process → Run Process
wrap_at k none is_static p = trap
wrap_at k (some u) is_static p =
    if is_exec u.current_perm then done p else add_breakpoints k u is_static p

unfoldable pub add_breakpoint_wrapper : Kernel → ℕ → Bool → Process → Run Process
unfolding wrap_at
add_breakpoint_wrapper k address is_static p =
    wrap_at k (find_page address p.unsafe_pages) is_static p

-- The arguments of the scan of the page that is to be executed.
abbrev pub scan_input : Kernel → Fault → UnsafePage → Process → Input
scan_input k f u p = record {
  memory = f.memory;
  groups = p.manager.pages;
  mprotect = λ address prot cid. k.mprotect address prot;
  start = u.address;
  whitelist = none;
  perm = u.desired_perm;
  unsafe_perm = clear_write u.desired_perm;
  trusted_page = u.trusted_page;
}

abbrev pub scanner_of : Process → Scanner
scanner_of p = record { unsafe_pages = p.unsafe_pages; mprotected = []; prev_page_ptr = none }

abbrev pub after_scan : Scanner → Process → Process
after_scan s p = record p {
  unsafe_pages = s.unsafe_pages;
  mprotected = map (λ c. (c.0, c.1)) s.mprotected ++ p.mprotected;
}

-- An executable page is written to.
unfoldable pub to_writable : Kernel → Fault → UnsafePage → Process → Run (Process × ℕ)
unfolding switch_page
to_writable k f u p =
    leave_unless (is_write u.desired_perm) 0 p (switch_page k u (clear_exec u.desired_perm) f.cid p)

-- A writable page is executed: it is scanned, and made executable.
unfoldable pub to_executable : Kernel → Fault → UnsafePage → Process → Run (Process × ℕ)
unfolding switch_page
to_executable k f u p = leave_unless (is_exec u.desired_perm) 4 p (
    mem_scan_region (scan_input k f u p) (scanner_of p) >>= λ (s, found).
    (if found
      then add_breakpoint_wrapper k u.address false (after_scan s p)
      else done (after_scan s p))
    >>= λ p1. switch_page k u 5 f.cid p1)

-- A page that is only read is executed.
unfoldable pub with_breakpoints : Kernel → Fault → UnsafePage → Process → Run (Process × ℕ)
unfolding switch_page
with_breakpoints k f u p =
    leave_unless (is_exec u.desired_perm) 5 p
      (add_breakpoint_wrapper k u.address false p >>= λ p1. switch_page k u 5 f.cid p1)

unfoldable pub read_only :
    Kernel → Fault → UnsafePage → Option (List ℕ) → Process → Run (Process × ℕ)
unfolding with_breakpoints
read_only k f u none p = done (p, 6)
read_only k f u (some xs) p = with_breakpoints k f u p

unfoldable pub owned_page :
    Kernel → Fault → UnsafePage → Option VirtPage → Process → Run (Process × ℕ)
unfolding to_writable to_executable read_only
owned_page k f u none p = done (p, 3)
owned_page k f u (some g) p =
    if is_exec u.current_perm
    then to_writable k f u p
    else if is_write u.current_perm
    then to_executable k f u p
    else read_only k f u u.unsafe_instructions p

unfoldable pub at_page : Kernel → Fault → Option UnsafePage → Process → Run (Process × ℕ)
unfolding owned_page
at_page k f none p = done (p, 2)
at_page k f (some u) p = owned_page k f u (lookup_addr p.manager.pages u.address f.cid) p

unfoldable pub secpoline_segfault_handler : Kernel → Fault → Process → Run (Process × ℕ)
unfolding at_page
secpoline_segfault_handler k f p =
    nolibc_assert (not (f.si_code == si_user) && not (f.si_code == si_tkill))
    >> (nolibc_assert (not (f.si_code == segv_pkuerr))
        >> (if (f.si_code == segv_bnderr) || (f.si_code == segv_maperr)
            then done (p, 1)
            else at_page k f (find_unsafe_page f.si_addr p.unsafe_pages) p))
