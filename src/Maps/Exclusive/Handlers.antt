-- ===== src/Maps/Exclusive/Handlers.antt =====
-- The handlers of mmap and mprotect as a whole.
use secpoline.Base.{
  ◌==◌, if◌then◌else◌, Bool-cases, Run, ◌>>=◌, Ensures, returned, Ensures-bind, Ensures-assert,
  Ensures-if, Ensures-then, page_size, ℕ, ◌%◌, ◌≡◌, refl, inl, inr, Bool, true, false, not, ◌&&◌,
  ◌||◌, none, arith,
}
use secpoline.PageManager.Mprotect.{update_mprotect}
use secpoline.PageManager.Lookup.{lookup_range}
use secpoline.Erim.Region.{clear_exec}
use secpoline.Maps.World.{World, Machine, is_write, is_exec, ask, must_update_mprotect, page_count}
use secpoline.Maps.Exec.{has_pkey}
use secpoline.Maps.Mmap.{
  map_and_protect, Arguments, has_bit, with_bit, is_error, first_prot, is_found, may_replace,
  map_file_baked, has_file, map_pages, protect_pages, secpoline_mmap,
}
use secpoline.Maps.Protect.{
  protect_owned, grows_down, ignore_status, protect_writable, protect_executable, protect_plain,
  syscall_handler_mprotect, meta_mprotect,
}
use secpoline.Maps.Exclusive.{
  is_both, Exclusive, Safe, clear_exec_single, must_mprotect-Safe, must_add_page-Safe,
  must_update_mprotect-Safe, mark_pages-Safe, scan_exec_mapping-Safe,
  scan_exec_mapping_mprotect-Safe,
}

first_prot_single : (prot : ℕ) → is_both (first_prot prot) ≡ false
first_prot_single prot = elim (Bool-cases (is_exec prot)) [
  | inl x ↦ elim (Bool-cases (is_write prot)) [
    | inl w ↦ rw (x, w) (clear_exec_single prot)
    | inr w ↦ rw (x, w) refl
  ]
  | inr x ↦ rw x (ground (arith, x))
]

map_pages-Safe :
    (m : Machine) (a : Arguments) (flags : ℕ) (w : World)
    → Safe w
    → Safe ((map_pages m a (first_prot a.prot) flags w).0)
unfolding map_pages map_file_baked
map_pages-Safe m a flags w h = elim (Bool-cases (has_file a.fd)) [
  | inl f ↦ rw f (refl, h)
  | inr f ↦ rw f (first_prot_single a.prot, h)
]

protect_pages-Safe :
    (m : Machine) (a : Arguments) (flags result : ℕ) (w : World)
    → Safe w
    → Ensures (λ r. Safe (r.0)) (protect_pages m a (first_prot a.prot) flags result w)
unfolding protect_pages
protect_pages-Safe m a flags result w h =
    Ensures-if (is_exec a.prot && not (is_write a.prot))
      (λ e.
        Ensures-bind
          (scan_exec_mapping-Safe m result a.size a.prot flags (has_bit 4 flags) a.cid none w
            (ground (arith, e)) h)
          (λ w1 h1. returned h1))
      (λ e.
        Ensures-bind
          (must_add_page-Safe m result a.size (first_prot a.prot) flags a.cid (has_bit 4 flags) w h)
          (λ w1 h1.
            Ensures-bind
              (must_mprotect-Safe m result a.size (first_prot a.prot) w1 (first_prot_single a.prot)
                h1)
              (λ w2 h2.
                Ensures-bind {Q = Safe}
                  (Ensures-if (is_exec a.prot && is_write a.prot)
                    (λ _.
                      mark_pages-Safe (page_count a.size) result (first_prot a.prot) (a.cid == 0) w2
                        h2)
                    (λ _. returned {a = w2} h2))
                  (λ w3 h3. returned h3))))

map_and_protect-Safe :
    (m : Machine) (a : Arguments) (w : World)
    → Safe w
    → Ensures (λ r. Safe (r.0)) (map_and_protect m a w)
unfolding map_and_protect
map_and_protect-Safe m a w h =
    let flags = with_bit 1 a.flags in
    let r = map_pages m a (first_prot a.prot) flags w in
    let h1 : Safe r.0 = map_pages-Safe m a flags w h in
    Ensures-if (is_error r.1 || (r.1 == 0)) (λ _. returned {a = r} h1)
      (λ _. protect_pages-Safe m a flags r.1 r.0 h1)

secpoline_mmap-Safe :
    (m : Machine) (a : Arguments) (w : World)
    → Safe w
    → Ensures (λ r. Safe (r.0)) (secpoline_mmap m a w)
unfolding secpoline_mmap
secpoline_mmap-Safe m a w h = Ensures-assert (if a.cid == 0 then a.selector_allows else true) (λ _.
    Ensures-if (not (has_pkey a.cid)) (λ _. returned h)
      (λ _. Ensures-assert (not (has_bit 18 a.flags)) (λ _.
        Ensures-if ((a.size == 0) || not (a.start % page_size == 0)) (λ _. returned h)
          (λ _. Ensures-then (may_replace m a w) (λ allowed.
            Ensures-if (not allowed) (λ _. returned h) (λ _. map_and_protect-Safe m a w h))))))

protect_writable-Safe :
    (m : Machine) (update : World → Run World) (start size prot : ℕ) (trusted : Bool) (w : World)
    → ((v : World) → Safe v → Ensures Safe (update v))
    → Safe w
    → Ensures (λ r. Safe (r.0)) (protect_writable m update start size prot trusted w)
unfolding protect_writable
protect_writable-Safe m update start size prot trusted w u h =
    let w1 = ask start size (clear_exec prot) w in
    let h1 : Safe w1 = (clear_exec_single prot, h) in
    Ensures-if (m.mprotect start size (clear_exec prot) == 0)
      (λ _. Ensures-bind (u w1 h1) (λ w2 h2.
        Ensures-bind (mark_pages-Safe (page_count size) start (clear_exec prot) trusted w2 h2)
          (λ w3 h3. returned h3)))
      (λ _. returned h1)

protect_executable-Safe :
    (m : Machine) (start size prot cid : ℕ) (w : World)
    → is_both prot ≡ false
    → Safe w
    → Ensures (λ r. Safe (r.0)) (protect_executable m start size prot cid w)
unfolding protect_executable
protect_executable-Safe m start size prot cid w p h =
    let w1 = ask start size 1 w in
    let h1 : Safe w1 = (refl, h) in
    Ensures-if (is_error (m.mprotect start size 1)) (λ _. returned h1)
      (λ _.
        Ensures-bind (scan_exec_mapping_mprotect-Safe m start size prot cid none w1 p h1)
          (λ w2 h2. returned h2))

protect_plain-Safe :
    (m : Machine) (start size prot cid : ℕ) (w : World)
    → is_both prot ≡ false
    → Safe w
    → Ensures (λ r. Safe (r.0)) (protect_plain m start size prot cid w)
unfolding protect_plain
protect_plain-Safe m start size prot cid w p h =
    Ensures-bind (must_update_mprotect-Safe start size prot cid (ask start size prot w) (p, h))
      (λ w1 h1. returned h1)

by_prot :
    (prot : ℕ) (x y z : Run (World × ℕ))
    → Ensures (λ r. Safe (r.0)) x
    → (is_both prot ≡ false → Ensures (λ r. Safe (r.0)) y)
    → (is_both prot ≡ false → Ensures (λ r. Safe (r.0)) z)
    → Ensures
        (λ r. Safe (r.0))
        (if is_exec prot && is_write prot then x else if is_exec prot then y else z)
by_prot prot x y z hx hy hz =
    Ensures-if (is_exec prot && is_write prot) (λ _. hx)
      (λ e.
        Ensures-if (is_exec prot) (λ f. hy (ground (arith, e, f))) (λ f. hz (ground (arith, f))))

syscall_handler_mprotect-Safe :
    (m : Machine) (start size prot : ℕ) (w : World)
    → Safe w
    → Ensures (λ r. Safe (r.0)) (syscall_handler_mprotect m start size prot w)
unfolding syscall_handler_mprotect protect_owned
syscall_handler_mprotect-Safe m start size prot w h =
    Ensures-then (lookup_range w.manager.pages start size 1) (λ o.
      Ensures-if (not (is_found o)) (λ _. returned h)
        (λ _. Ensures-assert (not (grows_down prot)) (λ _.
          by_prot prot _ _ _
            (protect_writable-Safe m (must_update_mprotect start size (clear_exec prot) 1) start
              size prot false w
              (λ v hv. must_update_mprotect-Safe start size (clear_exec prot) 1 v hv) h)
            (λ p. protect_executable-Safe m start size prot 1 w p h)
            (λ p. protect_plain-Safe m start size prot 1 w p h))))

meta_mprotect-Safe :
    (m : Machine) (start size prot : ℕ) (w : World)
    → Safe w
    → Ensures (λ r. Safe (r.0)) (meta_mprotect m start size prot w)
unfolding meta_mprotect
meta_mprotect-Safe m start size prot w h = Ensures-assert (not (has_bit 18 prot)) (λ _.
    by_prot prot _ _ _
      (protect_writable-Safe m
        (λ w1. update_mprotect start size (clear_exec prot) 0 w1.manager >>= ignore_status w1) start
        size prot true w
        (λ v hv.
          Ensures-then (update_mprotect start size (clear_exec prot) 0 v.manager)
            (λ (pm, status). returned hv))
        h)
      (λ p. protect_executable-Safe m start size prot 0 w p h)
      (λ p. protect_plain-Safe m start size prot 0 w p h))

-- Writable or executable: whatever is asked for, `secpoline_mmap` and the mprotect handlers of both
-- monitors never ask the kernel for a protection with PROT_WRITE and PROT_EXEC, the changes that
-- the
-- scans of the new code make included. They return, or end the process, with no such change among
-- those asked for, when there was none before.
pub mapping_handlers-Exclusive :
    (m : Machine) (a : Arguments) (start size prot : ℕ) (w : World)
    → Exclusive w.changes
    → Ensures (λ r. Exclusive (r.0).changes) (secpoline_mmap m a w)
      × Ensures (λ r. Exclusive (r.0).changes) (syscall_handler_mprotect m start size prot w)
      × Ensures (λ r. Exclusive (r.0).changes) (meta_mprotect m start size prot w)
mapping_handlers-Exclusive m a start size prot w h = (
  secpoline_mmap-Safe m a w h,
  syscall_handler_mprotect-Safe m start size prot w h,
  meta_mprotect-Safe m start size prot w h,
)
