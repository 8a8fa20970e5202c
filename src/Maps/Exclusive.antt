-- ===== src/Maps/Exclusive.antt =====
-- No handler asks the kernel for a mapping that is writable and executable.
pub mod Handlers
use secpoline.Base.{
  ltb, leb, ◌==◌, if◌then◌else◌, ltb→lt, leb→le, ==_iff, Bool-cases, Option-cases, length,
  get_elem?, length-append, elem, Run, done, trap, ◌>>=◌, ◌>>◌, nolibc_assert, Ensures, returned,
  trapped, Ensures-bind, Ensures-assert, Ensures-done, Ensures-if, Ensures-then, Ensures-weaken,
  Ensures-run, page_size, ptr_add_exact, ptr_sub_exact, ptr_add-ptr_sub, ptr_add-lt,
  page_align_self, ptr_add, ptr_sub, page_align, ℕ, zero, suc, ◌+◌, ◌-◌, ◌*◌, ◌/◌, ◌%◌, ◌^◌, ◌≤◌,
  ◌<◌, ◌≡◌, refl, sym, ap, ◌∙◌, ◌≢◌, ◌↔◌, ◌⊎◌, inl, inr, Bool, true, false, not, ◌&&◌, ◌||◌, Option,
  none, some, List, [], ◌∷◌, ◌++◌, map, arith,
}
use secpoline.PageManager.State.{
  Manager, Status, refuse_unless, prepend, link_page, nodes_per_refill, pool_page, refill_free_list,
  virt_page_alloc, virt_page_free, succeed, insert_after, splice, success, failure, blocked,
}
use secpoline.PageManager.Add.{add_page}
use secpoline.PageManager.Mprotect.{update_mprotect}
use secpoline.PageManager.Lookup.{lookup_range}
use secpoline.Erim.Pages.{UnsafePage, add_unsafe_page}
use secpoline.Erim.Region.{clear_exec, Scanner}
use secpoline.Erim.Region.Switched.{NonExecutable, mem_scan_region-NonExecutable}
use secpoline.Maps.World.{
  Change, World, Machine, is_write, is_exec, ask, must_mprotect, expect_success, must_add_page,
  must_update_mprotect, scan_input, prev_of, scanned, scan_page_of, mark_pages, page_count,
}
use secpoline.Maps.Exec.{
  Group, Loop, crossing, open_group, drop_previous, flush_group, place_page, scan_step, scan_pages,
  no_group, has_pkey, mapping_loop, scan_exec_mapping, mprotect_loop, scan_exec_mapping_mprotect,
}
use secpoline.Maps.Mmap.{
  Arguments, has_bit, with_bit, einval, is_error, first_prot, is_found, is_failure, may_replace,
  map_file_baked, has_file, map_pages, protect_pages, secpoline_mmap,
}
use secpoline.Maps.Protect.{
  grows_down, ignore_status, protect_writable, protect_executable, protect_plain,
  syscall_handler_mprotect, meta_mprotect,
}

abbrev pub is_both : ℕ → Bool
is_both prot = is_write prot && is_exec prot

-- None of the changes asked for gives both.
abbrev pub Exclusive : List Change → Type 0
Exclusive [] = Unit {0}
Exclusive (c ∷ cs) = (is_both c.prot ≡ false) × Exclusive cs

abbrev pub Safe : World → Type 0
Safe w = Exclusive w.changes

pub clear_exec_single : (prot : ℕ) → is_both (clear_exec prot) ≡ false
clear_exec_single prot =
    let e : (prot / 8 * 8 + prot % 4) / 4 % 2 ≡ 0 = omega arith in ground (arith, e)

Exclusive-scan :
    (cs : List (ℕ × ℕ × ℕ)) (rest : List Change)
    → NonExecutable cs
    → Exclusive rest
    → Exclusive (map (λ c. record { start = c.0; size = page_size; prot = c.1 }) cs ++ rest)
Exclusive-scan [] rest n x = x
Exclusive-scan (c ∷ cs) rest (off, n) x = (ground (arith, off), Exclusive-scan cs rest n x)

pub must_mprotect-Safe :
    (m : Machine) (start size prot : ℕ) (w : World)
    → is_both prot ≡ false
    → Safe w
    → Ensures Safe (must_mprotect m start size prot w)
unfolding must_mprotect
must_mprotect-Safe m start size prot w p h =
    Ensures-assert (m.mprotect start size prot == 0) (λ _. returned (p, h))

expect_success-Safe :
    (w : World) (r : Manager × Status) → Safe w → Ensures Safe (expect_success w r)
expect_success-Safe w (pm, success) h = returned h
expect_success-Safe w (pm, failure) h = trapped
expect_success-Safe w (pm, blocked) h = trapped

pub must_add_page-Safe :
    (m : Machine) (start size prot flags cid : ℕ) (fixed : Bool) (w : World)
    → Safe w
    → Ensures Safe (must_add_page m start size prot flags cid fixed w)
unfolding must_add_page
must_add_page-Safe m start size prot flags cid fixed w h =
    Ensures-then (add_page m.is_multithreaded start size prot flags cid fixed w.manager)
      (λ r. expect_success-Safe w r h)

pub must_update_mprotect-Safe :
    (start size prot cid : ℕ) (w : World)
    → Safe w
    → Ensures Safe (must_update_mprotect start size prot cid w)
unfolding must_update_mprotect
must_update_mprotect-Safe start size prot cid w h =
    Ensures-then (update_mprotect start size prot cid w.manager) (λ r. expect_success-Safe w r h)

pub mark_pages-Safe :
    (n address prot : ℕ) (trusted : Bool) (w : World)
    → Safe w
    → Ensures Safe (mark_pages n address prot trusted w)
unfolding mark_pages
mark_pages-Safe zero address prot trusted w h = returned {a = w} h
mark_pages-Safe (suc n) address prot trusted w h =
    Ensures-then (add_unsafe_page _ w.unsafe_pages)
      (λ pages. mark_pages-Safe n (address + page_size) prot trusted _ h)

scan_page_of-Safe :
    (m : Machine) (page prot unsafe_prot : ℕ) (allow : Option (List ℕ)) (prev : ℕ) (w : World)
    → Safe w
    → Ensures (λ r. Safe (r.0)) (scan_page_of m page prot unsafe_prot allow prev w)
unfolding scan_page_of
scan_page_of-Safe m page prot unsafe_prot allow prev w h =
    Ensures-bind
      (mem_scan_region-NonExecutable (scan_input m page prot unsafe_prot allow w)
        (record { unsafe_pages = w.unsafe_pages; mprotected = []; prev_page_ptr = some prev }) tt)
      (λ r n. returned (Exclusive-scan (r.0).mprotected w.changes n h))

-- A loop whose scans and commits ask for nothing that is both.
record LoopSafe (l : Loop) : Type 0 where
  scans : (page prev : ℕ) (w : World) → Safe w → Ensures (λ r. Safe (r.0)) (l.scan page prev w)
  commits :
      (start size prot : ℕ) (w : World)
      → is_both prot ≡ false
      → Safe w
      → Ensures Safe (l.commit start size prot w)
  single : is_both l.prot ≡ false
  unsafe_single : is_both l.unsafe_prot ≡ false

scan_step-Safe :
    (l : Loop) (page : ℕ) (g : Group) (w : World)
    → LoopSafe l
    → Safe w
    → Ensures (λ r. Safe (r.1)) (scan_step l page g w)
unfolding scan_step drop_previous flush_group place_page
scan_step-Safe l page g w s h = Ensures-then (open_group page g) (λ g1.
    Ensures-bind (s.scans page g1.prev_page w h) (λ (w1, found, prev) h1.
      Ensures-bind {Q = λ r. Safe (r.1)}
        (Ensures-if ((prev == crossing) && not (g1.group_size == 0))
          (λ _.
            Ensures-bind
              (s.commits (page - page_size) page_size l.unsafe_prot w1 s.unsafe_single h1)
              (λ w2 h2. returned h2))
          (λ _. returned h1))
        (λ (g2, w2) h2.
          Ensures-bind {Q = λ r. Safe (r.1)}
            (Ensures-if ((found || (prev == crossing)) && not (g2.group_size == 0))
              (λ _.
                Ensures-bind (s.commits g2.start_group g2.group_size l.prot w2 s.single h2)
                  (λ w3 h3. returned h3))
              (λ _. returned h2))
            (λ (g3, w3) h3.
              Ensures-if found
                (λ _.
                  Ensures-bind (s.commits page page_size l.unsafe_prot w3 s.unsafe_single h3)
                    (λ w4 h4. returned h4))
                (λ _. returned h3)))))

scan_pages-Safe :
    (l : Loop) (n page : ℕ) (g : Group) (w : World)
    → LoopSafe l
    → Safe w
    → Ensures Safe (scan_pages l n page g w)
unfolding scan_pages
scan_pages-Safe l zero page g w s h =
    Ensures-if (g.group_size == 0) (λ _. returned {a = w} h)
      (λ _. s.commits g.start_group g.group_size l.prot w s.single h)
scan_pages-Safe l (suc n) page g w s h =
    Ensures-bind (scan_step-Safe l page g w s h)
      (λ (g1, w1) h1. scan_pages-Safe l n (page + page_size) g1 w1 s h1)

mapping_loop-LoopSafe :
    (m : Machine) (prot flags cid : ℕ) (fixed : Bool) (allow : Option (List ℕ))
    → is_both prot ≡ false
    → LoopSafe (mapping_loop m prot (clear_exec prot) flags fixed cid allow)
mapping_loop-LoopSafe m prot flags cid fixed allow p = record {
  scans = λ page prev w h. scan_page_of-Safe m page prot (clear_exec prot) allow prev w h;
  commits = λ start size q w e h.
      Ensures-bind (must_add_page-Safe m start size q flags cid fixed w h)
        (λ w1 h1. must_mprotect-Safe m start size q w1 e h1);
  single = p;
  unsafe_single = clear_exec_single prot;
}

mprotect_loop-LoopSafe :
    (m : Machine) (prot cid : ℕ) (allow : Option (List ℕ))
    → is_both prot ≡ false
    → LoopSafe (mprotect_loop m prot (clear_exec prot) cid allow)
mprotect_loop-LoopSafe m prot cid allow p = record {
  scans = λ page prev w h. scan_page_of-Safe m page prot (clear_exec prot) allow prev w h;
  commits = λ start size q w e h.
      Ensures-bind (must_mprotect-Safe m start size q w e h)
        (λ w1 h1. must_update_mprotect-Safe start size q cid w1 h1);
  single = p;
  unsafe_single = clear_exec_single prot;
}

pub scan_exec_mapping-Safe :
    (m : Machine) (start size prot flags : ℕ) (fixed : Bool) (cid : ℕ) (allow : Option (List ℕ))
    (w : World)
    → is_both prot ≡ false
    → Safe w
    → Ensures Safe (scan_exec_mapping m start size prot (clear_exec prot) flags fixed cid allow w)
unfolding scan_exec_mapping
scan_exec_mapping-Safe m start size prot flags fixed cid allow w p h =
    Ensures-if (not (has_pkey cid)) (λ _. returned {a = w} h)
      (λ _.
        scan_pages-Safe (mapping_loop m prot (clear_exec prot) flags fixed cid allow)
          (page_count size) start no_group w (mapping_loop-LoopSafe m prot flags cid fixed allow p)
          h)

pub scan_exec_mapping_mprotect-Safe :
    (m : Machine) (start size prot cid : ℕ) (allow : Option (List ℕ)) (w : World)
    → is_both prot ≡ false
    → Safe w
    → Ensures Safe (scan_exec_mapping_mprotect m start size prot (clear_exec prot) cid allow w)
unfolding scan_exec_mapping_mprotect
scan_exec_mapping_mprotect-Safe m start size prot cid allow w p h =
    Ensures-if (not (has_pkey cid)) (λ _. returned {a = w} h)
      (λ _.
        scan_pages-Safe (mprotect_loop m prot (clear_exec prot) cid allow) (page_count size) start
          no_group w (mprotect_loop-LoopSafe m prot cid allow p) h)
