-- ===== src/Maps/Protect.antt =====
-- The mprotect handlers of the main monitor (src/syscall_handlers/main_monitor.cpp) and of the meta
-- monitor (src/syscall_handlers/meta_monitor.cpp).
use secpoline.Base.{
  ◌==◌, if◌then◌else◌, Run, done, ◌>>=◌, ◌>>◌, nolibc_assert, ℕ, Bool, true, false, not, ◌&&◌, none,
}
use secpoline.PageManager.State.{Manager, Status}
use secpoline.PageManager.Lookup.{lookup_range}
use secpoline.PageManager.Mprotect.{update_mprotect}
use secpoline.Erim.Region.{clear_exec}
use secpoline.Maps.World.{
  World, Machine, is_write, is_exec, ask, must_update_mprotect, mark_pages, page_count,
}
use secpoline.Maps.Exec.{scan_exec_mapping_mprotect}
use secpoline.Maps.Mmap.{has_bit, einval, is_error, is_found}

-- PROT_GROWSDOWN (0x01000000).
abbrev pub grows_down : ℕ → Bool
grows_down prot = has_bit 24 prot

-- The page manager, whatever `update_mprotect` returns.
abbrev pub ignore_status : World → Manager × Status → Run World
ignore_status w (pm, status) = done (record w { manager = pm })

-- PROT_WRITE and PROT_EXEC together: writable for now. `update` is the update of the page manager,
-- which the main monitor asserts to succeed.
unfoldable pub protect_writable :
    Machine → (World → Run World) → ℕ → ℕ → ℕ → Bool → World → Run (World × ℕ)
protect_writable m update start size prot trusted w =
    let result = m.mprotect start size (clear_exec prot) in
    let w1 = ask start size (clear_exec prot) w in
    if result == 0
    then (update w1 >>= λ w2.
        mark_pages (page_count size) start (clear_exec prot) trusted w2 >>= λ w3. done (w3, result))
    else done (w1, result)

-- PROT_EXEC without PROT_WRITE.
unfoldable pub protect_executable : Machine → ℕ → ℕ → ℕ → ℕ → World → Run (World × ℕ)
protect_executable m start size prot cid w =
    let result = m.mprotect start size 1 in
    let w1 = ask start size 1 w in
    if is_error result
    then done (w1, result)
    else (scan_exec_mapping_mprotect m start size prot (clear_exec prot) cid none w1 >>= λ w2.
        done (w2, 0))

-- No PROT_EXEC: the page manager is updated whatever the kernel answers.
unfoldable pub protect_plain : Machine → ℕ → ℕ → ℕ → ℕ → World → Run (World × ℕ)
protect_plain m start size prot cid w =
    must_update_mprotect start size prot cid (ask start size prot w) >>= λ w1.
    done (w1, m.mprotect start size prot)

unfoldable pub protect_owned : Machine → ℕ → ℕ → ℕ → World → Run (World × ℕ)
unfolding protect_writable protect_executable protect_plain
protect_owned m start size prot w =
    nolibc_assert (not (grows_down prot))
    >> (if is_exec prot && is_write prot
        then protect_writable m (must_update_mprotect start size (clear_exec prot) 1) start size
            prot false w
        else if is_exec prot
        then protect_executable m start size prot 1 w
        else protect_plain m start size prot 1 w)

-- The main monitor's handler; the result is what RAX receives.
unfoldable pub syscall_handler_mprotect : Machine → ℕ → ℕ → ℕ → World → Run (World × ℕ)
unfolding protect_owned
syscall_handler_mprotect m start size prot w = lookup_range w.manager.pages start size 1 >>= λ o.
    if not (is_found o) then done (w, einval) else protect_owned m start size prot w

-- The branch of `meta_monitor`, for the monitor itself.
unfoldable pub meta_mprotect : Machine → ℕ → ℕ → ℕ → World → Run (World × ℕ)
unfolding protect_writable protect_executable protect_plain
meta_mprotect m start size prot w =
    nolibc_assert (not (has_bit 18 prot))
    >> (if is_exec prot && is_write prot
        then protect_writable m
            (λ w1. update_mprotect start size (clear_exec prot) 0 w1.manager >>= ignore_status w1)
            start size prot true w
        else if is_exec prot
        then protect_executable m start size prot 0 w
        else protect_plain m start size prot 0 w)
