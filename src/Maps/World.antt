-- ===== src/Maps/World.antt =====
-- The state that the mapping handlers work on, and their calls of the kernel.
use secpoline.Base.{
  ◌==◌, Run, done, trap, ◌>>=◌, ◌>>◌, nolibc_assert, page_size, ℕ, zero, suc, ◌+◌, ◌-◌, ◌*◌, ◌/◌,
  ◌%◌, Bool, false, Option, none, some, List, [], ◌∷◌, ◌++◌, map,
}
use secpoline.PageManager.State.{Manager, Status, success, failure, blocked}
use secpoline.PageManager.Add.{add_page}
use secpoline.PageManager.Mprotect.{update_mprotect}
use secpoline.Erim.Pattern.{Memory}
use secpoline.Erim.Pages.{UnsafePage, add_unsafe_page}
use secpoline.Erim.Region.{Input, Scanner, mem_scan_region}

-- A protection that the kernel is asked for, by mmap, mprotect or pkey_mprotect.
pub record Change : Type 0 where
  pub start : ℕ
  pub size : ℕ
  pub prot : ℕ

-- The page manager, the list of unsafe pages, and the changes asked for so far, the latest first.
pub record World : Type 0 where
  pub manager : Manager
  pub unsafe_pages : List UnsafePage
  pub changes : List Change

-- What the kernel answers to a mmap (start, size, protection, flags, fd, offset) and to a mprotect
-- (start, size, protection), the memory that the scans read, and `is_multithreaded`.
pub record Machine : Type 0 where
  pub mmap : ℕ → ℕ → ℕ → ℕ → ℕ → ℕ → ℕ
  pub mprotect : ℕ → ℕ → ℕ → ℕ
  pub memory : Memory
  pub is_multithreaded : Bool

-- PROT_WRITE (2) and PROT_EXEC (4).
abbrev pub is_write : ℕ → Bool
is_write prot = prot / 2 % 2 == 1

abbrev pub is_exec : ℕ → Bool
is_exec prot = prot / 4 % 2 == 1

abbrev pub ask : ℕ → ℕ → ℕ → World → World
ask start size prot w = record w {
  changes = record { start = start; size = size; prot = prot } ∷ w.changes;
}

-- A mprotect, or pkey_mprotect, that the code asserts to succeed.
unfoldable pub must_mprotect : Machine → ℕ → ℕ → ℕ → World → Run World
must_mprotect m start size prot w =
    nolibc_assert (m.mprotect start size prot == 0) >> done (ask start size prot w)

abbrev pub expect_success : World → Manager × Status → Run World
expect_success w (pm, success) = done (record w { manager = pm })
expect_success w (pm, failure) = trap
expect_success w (pm, blocked) = trap

-- `assert(page_manager.add_page(..) == 0)`.
unfoldable pub must_add_page : Machine → ℕ → ℕ → ℕ → ℕ → ℕ → Bool → World → Run World
must_add_page m start size prot flags cid map_fixed w =
    add_page m.is_multithreaded start size prot flags cid map_fixed w.manager >>= expect_success w

-- `assert(page_manager.update_mprotect(..) == 0)`.
unfoldable pub must_update_mprotect : ℕ → ℕ → ℕ → ℕ → World → Run World
must_update_mprotect start size prot cid w =
    update_mprotect start size prot cid w.manager >>= expect_success w

-- The arguments of `erim_memScanRegion` in the mapping handlers.
abbrev pub scan_input : Machine → ℕ → ℕ → ℕ → Option (List ℕ) → World → Input
scan_input m page prot unsafe_prot allow_list w = record {
  memory = m.memory;
  groups = w.manager.pages;
  mprotect = λ address p cid. m.mprotect address page_size p == 0;
  start = page;
  whitelist = allow_list;
  perm = prot;
  unsafe_perm = unsafe_prot;
  trusted_page = false;
}

abbrev pub prev_of : Option ℕ → ℕ
prev_of none = 0
prev_of (some p) = p

-- The changes of a scan, of one page each.
abbrev pub scanned : Scanner → World → World
scanned s w = record w {
  unsafe_pages = s.unsafe_pages;
  changes =
      map (λ c. record { start = c.0; size = page_size; prot = c.1 }) s.mprotected ++ w.changes;
}

-- The scan of one page with `&prev_page`: the state, whether the page is unsafe, and `prev_page`.
unfoldable pub scan_page_of :
    Machine → ℕ → ℕ → ℕ → Option (List ℕ) → ℕ → World → Run (World × Bool × ℕ)
scan_page_of m page prot unsafe_prot allow_list prev_page w =
    mem_scan_region (scan_input m page prot unsafe_prot allow_list w)
      (record { unsafe_pages = w.unsafe_pages; mprotected = []; prev_page_ptr = some prev_page })
    >>= λ (s, found). done (scanned s w, found, prev_of s.prev_page_ptr)

-- The loop that marks `n` pages as wanted executable, with no vector.
unfoldable pub mark_pages : ℕ → ℕ → ℕ → Bool → World → Run World
mark_pages zero address prot trusted w = done w
mark_pages (suc n) address prot trusted w =
    add_unsafe_page
      (record {
        address = address;
        trusted_page = trusted;
        current_perm = prot;
        desired_perm = prot / 8 * 8 + 4 + prot % 4;
        unsafe_instructions = none;
        unsafe_instructions_size = 0;
      })
      w.unsafe_pages
    >>= λ pages. mark_pages n (address + page_size) prot trusted (record w { unsafe_pages = pages })

-- How many pages the loops over a range visit, for a range that does not wrap.
abbrev pub page_count : ℕ → ℕ
page_count size = (size + page_size - 1) / page_size
