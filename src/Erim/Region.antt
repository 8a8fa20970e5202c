-- ===== src/Erim/Region.antt =====
-- `erim_memScanRegion` as a whole: the neighbours of the page, the scans across its borders, the
-- scan of the page, and what is done with the result. The scan's lock and the switches of the PKRU
-- register are not part of the model.
pub mod Effect
pub mod Switched
use secpoline.Base.{
  Run, ℕ, ◌+◌, ◌-◌, ◌*◌, ◌/◌, ◌%◌, ◌^◌, Bool, true, false, not, ◌&&◌, ◌||◌, Option, none, some,
  List, [], ◌∷◌, ltb, leb, ◌==◌, if◌then◌else◌, done, trap, ◌>>=◌, ◌>>◌, nolibc_assert, page_size,
}
use secpoline.VirtPage.{VirtPage}
use secpoline.PageManager.Lookup.{lookup_addr, any_cid}
use secpoline.Erim.Pattern.{Memory, Unsafe, classify}
use secpoline.Erim.Scan.{scan_page}
use secpoline.Erim.Pages.{
  UnsafePage, update_unsafe_page, add_unsafe_page, update_unsafe_instruction,
}

-- `prot & ~PROT_EXEC`.
abbrev pub clear_exec : ℕ → ℕ
clear_exec prot = prot / 8 * 8 + prot % 4

-- What the scan reads: memory, the tracked groups, whether the kernel carries out a protection
-- change (address, protection, compartment), and the arguments of the call.
pub record Input : Type 0 where
  pub memory : Memory
  pub groups : List VirtPage
  pub mprotect : ℕ → ℕ → ℕ → Bool
  pub start : ℕ
  pub whitelist : Option (List ℕ)
  pub perm : ℕ
  pub unsafe_perm : ℕ
  pub trusted_page : Bool

-- What it changes: the list of unsafe pages, the protection changes made so far, the latest first,
-- and `*prev_page_ptr`, which is `none` when the pointer is NULL.
pub record Scanner : Type 0 where
  pub unsafe_pages : List UnsafePage
  pub mprotected : List (ℕ × ℕ × ℕ)
  pub prev_page_ptr : Option ℕ

-- `(char*)-1` and `temp_cid = -1`.
abbrev pub minus_one : ℕ
minus_one = 2 ^ 64 - 1

-- `prev_page` or `next_page`, `temp_prot` and `temp_cid`; NULL is 0.
pub record Neighbour : Type 0 where
  pub page : ℕ
  pub prot : ℕ
  pub cid : ℕ

-- `prev_page_ptr == NULL || *prev_page_ptr == NULL`.
abbrev pub is_first : Option ℕ → Bool
is_first none = true
is_first (some p) = p == 0

-- `temp` of a lookup, at `page`: `before` stands when there is no such page, or no access to it.
abbrev pub neighbour_at : ℕ → Neighbour → Option VirtPage → Neighbour
neighbour_at page before none = before
neighbour_at page before (some g) =
    if g.prot == 0 then before else record { page = page; prot = g.prot; cid = g.cid }

abbrev pub no_neighbour : Neighbour
no_neighbour = record { page = 0; prot = 0; cid = minus_one }

unfoldable pub prev_neighbour : Input → Option ℕ → Neighbour
prev_neighbour i none =
    if leb page_size i.start
    then neighbour_at (i.start - page_size) no_neighbour
        (lookup_addr i.groups (i.start - page_size) any_cid)
    else no_neighbour
prev_neighbour i (some p) =
    if p == 0
    then if leb page_size i.start
      then neighbour_at (i.start - page_size) no_neighbour
          (lookup_addr i.groups (i.start - page_size) any_cid)
      else no_neighbour
    else record { page = p; prot = i.perm; cid = if i.trusted_page then 0 else 1 }

-- The second lookup writes the same `temp_prot` and `temp_cid`.
unfoldable pub next_neighbour : Input → Neighbour → Neighbour
next_neighbour i prev =
    neighbour_at (i.start + page_size) (record prev { page = 0 })
      (lookup_addr i.groups (i.start + page_size) any_cid)

abbrev pub is_some : Option Unsafe → Bool
is_some none = false
is_some (some k) = true

-- `assert(syscall_wrapper(__NR_mprotect, page, PAGE_SIZE, temp_prot & ~PROT_EXEC, ..) == 0)`.
unfoldable pub make_non_executable : Input → ℕ → ℕ → ℕ → Scanner → Run Scanner
make_non_executable i page prot cid s = do
  nolibc_assert (i.mprotect page (clear_exec prot) cid)
  done (record s { mprotected = (page, clear_exec prot, cid) ∷ s.mprotected })

pub note : Input → ℕ → ℕ → Scanner → Run Scanner
note i page ptr s = do
  pages ← update_unsafe_instruction page ptr i.unsafe_perm i.perm i.trusted_page s.unsafe_pages
  done (record s { unsafe_pages = pages })

-- An instruction that starts on the page before.
pub prev_hit : Input → ℕ → Neighbour → ℕ → Scanner → Run Scanner
unfolding note make_non_executable
prev_hit i page n ptr s = note i page ptr s >>= λ s1.
    if is_first s1.prev_page_ptr
    then make_non_executable i page n.prot n.cid s1
    else done (record s1 { prev_page_ptr = some minus_one })

unfoldable pub prev_byte : Input → ℕ → Neighbour → ℕ → Scanner → Run Scanner
unfolding prev_hit
prev_byte i page n ptr s =
    if is_some (classify i.memory ptr) then prev_hit i page n ptr s else done s

-- The offsets -3, -2 and -1.
unfoldable pub scan_prev : Input → ℕ → Neighbour → Scanner → Run Scanner
scan_prev i page n s =
    if page == 0
    then done s
    else prev_byte i page n (i.start - 3) s >>= λ s1.
        prev_byte i page n (i.start - 2) s1 >>= λ s2. prev_byte i page n (i.start - 1) s2

-- An instruction that starts on the first bytes of the page behind.
pub next_hit : Input → Neighbour → ℕ → Scanner → Run Scanner
unfolding note make_non_executable
next_hit i n ptr s = do s1 ← note i n.page ptr s; make_non_executable i n.page n.prot n.cid s1

unfoldable pub next_byte : Input → Neighbour → ℕ → Scanner → Run Scanner
unfolding next_hit
next_byte i n ptr s = if is_some (classify i.memory ptr) then next_hit i n ptr s else done s

-- The offsets 0 to 3.
unfoldable pub scan_next : Input → Neighbour → Scanner → Run Scanner
scan_next i n s =
    if n.page == 0
    then done s
    else next_byte i n n.page s >>= λ s1. next_byte i n (n.page + 1) s1 >>= λ s2.
        next_byte i n (n.page + 2) s2 >>= λ s3. next_byte i n (n.page + 3) s3

abbrev pub page_of : Input → ℕ → List ℕ → UnsafePage
page_of i current_perm reported = record {
  address = i.start;
  trusted_page = i.trusted_page;
  current_perm = current_perm;
  desired_perm = i.perm;
  unsafe_instructions = some reported;
  unsafe_instructions_size = 0;
}

abbrev pub keep_list : List UnsafePage → Option (List UnsafePage) → List UnsafePage
keep_list ps none = ps
keep_list ps (some updated) = updated

-- What follows the loop: `true` stands for the page returned, `false` for NULL.
unfoldable pub conclude : Input → Option (List ℕ) → Scanner → Run (Scanner × Bool)
conclude i none s = trap
conclude i (some []) s = do
  updated ← update_unsafe_page (page_of i i.perm []) s.unsafe_pages
  done (record s { unsafe_pages = keep_list s.unsafe_pages updated }, false)
conclude i (some (a ∷ others)) s = do
  pages ← add_unsafe_page (page_of i i.unsafe_perm (a ∷ others)) s.unsafe_pages
  done (record s { unsafe_pages = pages }, true)

-- `origlength` is PAGE_SIZE, which the code asserts.
unfoldable pub mem_scan_region : Input → Scanner → Run (Scanner × Bool)
unfolding prev_neighbour next_neighbour scan_prev scan_next conclude
mem_scan_region i s =
    let prev = prev_neighbour i s.prev_page_ptr in
    let next = next_neighbour i prev in
    let temp : Neighbour = record next { page = prev.page } in
    scan_prev i prev.page temp s >>= λ s1. scan_next i next s1 >>= λ s2.
    conclude i (scan_page i.memory i.whitelist page_size i.start page_size) s2
