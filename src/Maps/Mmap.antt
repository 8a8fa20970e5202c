-- ===== src/Maps/Mmap.antt =====
-- `secpoline_mmap` and `map_file_baked`. The contents that `map_file_baked` reads into the new
-- mapping are not part of the model.
use secpoline.Base.{
  leb, ◌==◌, if◌then◌else◌, Run, done, ◌>>=◌, ◌>>◌, nolibc_assert, page_size, ℕ, ◌+◌, ◌-◌, ◌/◌, ◌%◌,
  ◌^◌, Bool, true, false, not, ◌&&◌, ◌||◌, Option, none, some,
}
use secpoline.VirtPage.{VirtPage}
use secpoline.PageManager.State.{Status, success, failure, blocked}
use secpoline.PageManager.Lookup.{lookup_range, lookup_range_allow_gaps}
use secpoline.Erim.Region.{clear_exec}
use secpoline.Maps.World.{
  World, Machine, is_write, is_exec, ask, must_mprotect, must_add_page, mark_pages, page_count,
}
use secpoline.Maps.Exec.{has_pkey, scan_exec_mapping}

-- The arguments; `selector_allows` is the test of the selector for the monitor.
pub record Arguments : Type 0 where
  pub start : ℕ
  pub size : ℕ
  pub prot : ℕ
  pub flags : ℕ
  pub fd : ℕ
  pub offset : ℕ
  pub cid : ℕ
  pub selector_allows : Bool

-- MAP_PRIVATE (2), MAP_FIXED (0x10), MAP_ANONYMOUS (0x20) and MAP_HUGETLB (0x40000).
abbrev pub has_bit : ℕ → ℕ → Bool
has_bit k flags = flags / 2 ^ k % 2 == 1

abbrev pub with_bit : ℕ → ℕ → ℕ
with_bit k flags = if has_bit k flags then flags else flags + 2 ^ k

abbrev pub einval : ℕ
einval = 2 ^ 64 - 22

abbrev pub is_error : ℕ → Bool
is_error result = leb (2 ^ 63) result

-- The protection of the first mapping.
abbrev pub first_prot : ℕ → ℕ
first_prot prot =
    if is_exec prot && not (is_write prot)
    then 1
    else if is_exec prot && is_write prot
    then clear_exec prot
    else prot

abbrev pub is_found : Option VirtPage → Bool
is_found none = false
is_found (some g) = true

abbrev pub is_failure : Status → Bool
is_failure success = false
is_failure failure = true
is_failure blocked = false

-- The tests for MAP_FIXED.
unfoldable pub may_replace : Machine → Arguments → World → Run Bool
may_replace m a w =
    if not (has_bit 4 a.flags)
    then done true
    else if m.is_multithreaded
    then (lookup_range w.manager.pages a.start a.size a.cid >>= λ o. done (is_found o))
    else done (not (is_failure (lookup_range_allow_gaps w.manager.pages a.start a.size a.cid)))

-- A mapping of a file is a writable copy at first; its protection comes later.
unfoldable pub map_file_baked : Machine → Arguments → ℕ → World → World × ℕ
map_file_baked m a flags w =
    (ask a.start a.size 3 w, m.mmap a.start a.size 3 (with_bit 5 flags) (2 ^ 64 - 1) 0)

-- `fd != -1 && fd != 0`, on an int.
abbrev pub has_file : ℕ → Bool
has_file fd = not (fd % 2 ^ 32 == 2 ^ 32 - 1) && not (fd % 2 ^ 32 == 0)

unfoldable pub map_pages : Machine → Arguments → ℕ → ℕ → World → World × ℕ
unfolding map_file_baked
map_pages m a prot flags w =
    if has_file a.fd
    then map_file_baked m a flags w
    else (ask a.start a.size prot w, m.mmap a.start a.size prot flags (2 ^ 64 - 1) 0)

-- What follows the mapping at `result`.
unfoldable pub protect_pages : Machine → Arguments → ℕ → ℕ → ℕ → World → Run (World × ℕ)
protect_pages m a prot flags result w =
    if is_exec a.prot && not (is_write a.prot)
    then (scan_exec_mapping m result a.size a.prot (clear_exec a.prot) flags (has_bit 4 flags) a.cid
          none w
        >>= λ w1. done (w1, result))
    else (must_add_page m result a.size prot flags a.cid (has_bit 4 flags) w >>= λ w1.
        must_mprotect m result a.size prot w1 >>= λ w2.
        (if is_exec a.prot && is_write a.prot
          then mark_pages (page_count a.size) result prot (a.cid == 0) w2
          else done w2)
        >>= λ w3. done (w3, result))

unfoldable pub map_and_protect : Machine → Arguments → World → Run (World × ℕ)
unfolding map_pages protect_pages
map_and_protect m a w =
    let flags = with_bit 1 a.flags in
    let prot = first_prot a.prot in
    let (w1, result) = map_pages m a prot flags w in
    if is_error result || (result == 0)
    then done (w1, result)
    else protect_pages m a prot flags result w1

unfoldable pub secpoline_mmap : Machine → Arguments → World → Run (World × ℕ)
unfolding map_and_protect may_replace
secpoline_mmap m a w =
    nolibc_assert (if a.cid == 0 then a.selector_allows else true)
    >> (if not (has_pkey a.cid)
        then done (w, einval)
        else (nolibc_assert (not (has_bit 18 a.flags))
            >> (if (a.size == 0) || not (a.start % page_size == 0)
                then done (w, einval)
                else (may_replace m a w >>= λ allowed.
                    if not allowed then done (w, einval) else map_and_protect m a w))))
