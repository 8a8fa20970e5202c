-- ===== src/Segfault/Pages.antt =====
-- The state that the segfault handler works on, and `set_page_non_executable`.
use secpoline.Base.{
  Run, ℕ, ◌/◌, ◌%◌, Bool, true, false, not, Option, none, some, List, [], ◌∷◌, ◌==◌, if◌then◌else◌,
  done, trap, ◌>>=◌, ◌>>◌, nolibc_assert, page_size,
}
use secpoline.VirtPage.{VirtPage}
use secpoline.PageManager.State.{Manager, Status, success, failure, blocked}
use secpoline.PageManager.Lookup.{lookup_addr, any_cid}
use secpoline.PageManager.Mprotect.{update_mprotect}
use secpoline.Erim.Pages.{UnsafePage, find_unsafe_page}

-- `struct hbreakpoint`; `struct watched_page` and `struct hbreakpoint_list` are arrays of
-- MAX_HBREAKPOINTS with their sizes, which the lists have as their lengths.
pub record Hbreakpoint : Type 0 where
  pub address : ℕ
  pub fd : ℕ

abbrev pub WatchedPage : Type 0
WatchedPage = List Hbreakpoint

-- `hbreakpoint_controller`.
pub record Controller : Type 0 where
  pub used_breakpoints : ℕ
  pub max_dynamic_breakpoints : ℕ
  pub static_hbreakpoints : List WatchedPage
  pub dynamic_hbreakpoints : List WatchedPage

-- What the kernel does: whether it carries out a mprotect of one page (address, protection), and
-- whether it closes a descriptor.
pub record Kernel : Type 0 where
  pub mprotect : ℕ → ℕ → Bool
  pub close : ℕ → Bool

-- What the handlers change: the list of unsafe pages, the page manager, the protection changes of
-- the kernel (address and protection, the latest first), `unsafe_page_mutex`, the breakpoints of
-- the thread, and the descriptors that the kernel returns for the coming breakpoints.
pub record Process : Type 0 where
  pub unsafe_pages : List UnsafePage
  pub manager : Manager
  pub mprotected : List (ℕ × ℕ)
  pub unsafe_page_mutex : Bool
  pub controller : Controller
  pub fds : List ℕ

-- PROT_READ (1), PROT_WRITE (2) and PROT_EXEC (4).
abbrev pub is_write : ℕ → Bool
is_write prot = prot / 2 % 2 == 1

abbrev pub is_exec : ℕ → Bool
is_exec prot = prot / 4 % 2 == 1

abbrev pub expect_success : Manager × Status → Run Manager
expect_success (pm, success) = done pm
expect_success (pm, failure) = trap
expect_success (pm, blocked) = trap

-- `secpoline_mprotect` of virt_page_manager.h on one page. It returns 0 when the kernel refuses,
-- too.
unfoldable pub secpoline_mprotect : Kernel → ℕ → ℕ → ℕ → Process → Run Process
secpoline_mprotect k address prot cid p =
    if k.mprotect address prot
    then (update_mprotect address page_size prot cid p.manager >>= expect_success >>= λ pm.
        done (record p { manager = pm; mprotected = (address, prot) ∷ p.mprotected }))
    else done p

-- `page->current_perm = perm` through a pointer to the page at this address.
unfoldable pub set_current_perm : ℕ → ℕ → List UnsafePage → List UnsafePage
set_current_perm a perm [] = []
set_current_perm a perm (u ∷ us) =
    if u.address == a then record u { current_perm = perm } ∷ us else u ∷ set_current_perm a perm us

abbrev pub assign_perm : ℕ → ℕ → Process → Process
assign_perm a perm p = record p { unsafe_pages = set_current_perm a perm p.unsafe_pages }

-- `lock()` on the mutex. A thread that waits for a lock that it has left held waits for ever, which
-- is `trap`.
abbrev pub lock_unsafe_page : Process → Run Process
lock_unsafe_page p =
    if p.unsafe_page_mutex then trap else done (record p { unsafe_page_mutex = true })

-- The branch for PROT_WRITE returns without an unlock.
unfoldable pub clear_exec_of : Kernel → ℕ → UnsafePage → Process → Run Process
unfolding secpoline_mprotect
clear_exec_of k cid u p =
    if is_write u.desired_perm
    then secpoline_mprotect k u.address 3 cid (assign_perm u.address 3 p)
    else secpoline_mprotect k u.address 1 cid (assign_perm u.address 1 p) >>= λ p1.
        done (record p1 { unsafe_page_mutex = false })

-- `page` is read before its test for NULL.
unfoldable pub close_page : Kernel → VirtPage → Option UnsafePage → Process → Run Process
unfolding clear_exec_of
close_page k pm_page none p = trap
close_page k pm_page (some u) p =
    nolibc_assert (if u.trusted_page then pm_page.cid == 0 else true)
    >> (if not (is_exec u.current_perm)
        then done p
        else lock_unsafe_page p >>= λ p1. clear_exec_of k pm_page.cid u p1)

unfoldable pub non_executable_at : Kernel → ℕ → Option VirtPage → Process → Run Process
unfolding close_page
non_executable_at k address none p = trap
non_executable_at k address (some pm_page) p =
    close_page k pm_page (find_unsafe_page address p.unsafe_pages) p

unfoldable pub set_page_non_executable : Kernel → ℕ → Process → Run Process
unfolding non_executable_at
set_page_non_executable k address p =
    non_executable_at k address (lookup_addr p.manager.pages address any_cid) p
