-- ===== src/Tests/Mapping.antt =====
-- The mapping handlers on a map of one group.
use secpoline.Base.{
  ◌==◌, if◌then◌else◌, done, Ensures, ptr_add, page_align, ℕ, ◌-◌, ◌*◌, ◌^◌, ◌≡◌, refl, true, false,
  [], ◌∷◌, arith,
}
use secpoline.VirtPage.{page_end, virt_page_overlap}
use secpoline.PageManager.State.{Manager, virt_page_alloc, link_page}
use secpoline.PageManager.Add.{add_page}
use secpoline.Erim.Pages.{add_unsafe_page, update_unsafe_page}
use secpoline.Maps.World.{World, Machine, ask, must_mprotect, must_add_page, mark_pages}
use secpoline.Maps.Exec.{Loop, crossing, scan_pages, no_group}
use secpoline.Maps.Exec.Groups.{scan_pages-Clean, scan_pages_reopened}
use secpoline.Maps.Mmap.{Arguments, secpoline_mmap}
use secpoline.Maps.Protect.{syscall_handler_mprotect, meta_mprotect}
use secpoline.Maps.Exclusive.{Exclusive}
use secpoline.Maps.Exclusive.Handlers.{mapping_handlers-Exclusive}

abbrev manager : Manager
manager = record {
  pages = record { start = 8192; size = 8192; prot = 3; flags = 2; cid = 1 } ∷ [];
  free_pages = 9;
  grants = [];
}

abbrev world : World
world = record { manager = manager; unsafe_pages = []; changes = [] }

-- The kernel maps at 65536.
abbrev machine : Machine
machine = record {
  mmap = λ start size prot flags fd offset. 65536;
  mprotect = λ start size prot. 0;
  memory = λ a. 0;
  is_multithreaded = false;
}

-- A mapping that is asked for with all three protections.
abbrev arguments : Arguments
arguments = record {
  start = 0;
  size = 4096;
  prot = 7;
  flags = 0x22;
  fd = 2 ^ 32 - 1;
  offset = 0;
  cid = 1;
  selector_allows = true;
}

mapped : (w : World) × (secpoline_mmap machine arguments world ≡ done (w, 65536))
unfolding secpoline_mmap must_add_page add_page virt_page_alloc link_page page_end ptr_add
    page_align virt_page_overlap must_mprotect mark_pages add_unsafe_page update_unsafe_page
mapped = (_, refl)

mapping_handlers-Exclusive_example :
    Ensures (λ r. Exclusive (r.0).changes) (secpoline_mmap machine arguments world)
    × Ensures (λ r. Exclusive (r.0).changes) (syscall_handler_mprotect machine 8192 4096 7 world)
    × Ensures (λ r. Exclusive (r.0).changes) (meta_mprotect machine 8192 4096 7 world)
mapping_handlers-Exclusive_example =
    mapping_handlers-Exclusive machine arguments 8192 4096 7 world tt

-- Scans that find nothing but an instruction over the border to the page at `border`.
abbrev loop : ℕ → Loop
loop border = record {
  scan = λ page prev w. done (w, false, if page == border then crossing else prev);
  commit = λ start size prot w. done (ask start size prot w);
  closed = λ page g. g;
  prot = 5;
  unsafe_prot = 1;
}

scan_pages-Clean_example :
    scan_pages (loop 0) 2 8192 no_group world ≡ done (ask 8192 (2 * 4096) 5 world)
scan_pages-Clean_example =
    scan_pages-Clean (loop 0) 1 8192 world world (omega arith)
      (world, 0, refl, refl, (world, 8192, refl, refl, refl))

scan_pages_reopened_example :
    scan_pages (loop 12288) 2 8192 no_group world ≡ done (ask 8192 4096 5 (ask 8192 4096 1 world))
scan_pages_reopened_example =
    scan_pages_reopened (loop 12288) 8192 0 world world world (ask 8192 4096 1 world) (omega arith)
      refl refl refl refl
