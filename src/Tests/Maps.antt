-- ===== src/Tests/Maps.antt =====
-- `handle_mremap` on a mapping of two pages.
use secpoline.Base.{
  ℕ, ◌+◌, ◌≡◌, refl, false, none, some, List, [], ◌∷◌, arith, ◌==◌, if◌then◌else◌, done, page_align,
  ptr_add, ptr_sub,
}
use secpoline.VirtPage.{VirtPage, page_end, shorten, virt_page_overlap_byte}
use secpoline.VirtPage.View.{Ordered, attr, view, Untracked}
use secpoline.VirtPage.View.Frame.{Overlaid}
use secpoline.PageManager.State.{Manager, succeed}
use secpoline.PageManager.Lookup.{lookup_addr, lookup_range}
use secpoline.PageManager.Remove.{remove_page}
use secpoline.Maps.Mremap.{Request, answer, handle_mremap}
use secpoline.Maps.Mremap.Effect.{handle_mremap-grow, handle_mremap_swap}

abbrev group : ℕ → ℕ → ℕ → VirtPage
group start size cid = record { start = start; size = size; prot = 3; flags = 2; cid = cid }

abbrev pages : List VirtPage
pages = group 0 4096 0 ∷ group 8192 8192 1 ∷ group 32768 4096 0 ∷ []

abbrev manager : Manager
manager = record { pages = pages; free_pages = 4; grants = [] }

pages-Ordered : Ordered 0 pages
unfolding page_end ptr_add
pages-Ordered = omega arith

abbrev request : ℕ → Request
request flags = record {
  start = 12288;
  old_size = 4096;
  new_size = 8192;
  flags = flags;
  new_start = 65536;
  cid = 1;
  is_multithreaded = false;
  kernel = λ hint. if hint == 0 then 12288 else hint;
}

handle_mremap-grow_example :
    (pm' : Manager) × (handle_mremap (request 0) manager ≡ answer 12288 pm')
    × Ordered 0 pm'.pages
    × Overlaid (12288 + 4096) (12288 + 8192) (some (attr (group 8192 8192 1))) pages pm'.pages
handle_mremap-grow_example =
    handle_mremap-grow (request 0) manager (group 8192 8192 1) refl refl refl refl pages-Ordered
      (unfold lookup_addr virt_page_overlap_byte page_end ptr_add in refl) (omega arith)
      (omega arith) (unfold page_end ptr_add in refl) gap_free refl
  where
    gap_free : Untracked (12288 + 4096) (12288 + 8192) pages
    gap_free a le lt = unfold view virt_page_overlap_byte page_end ptr_add in ground arith

abbrev halved : Manager
halved = record {
  pages = group 0 4096 0 ∷ group 8192 4096 1 ∷ group 32768 4096 0 ∷ [];
  free_pages = 4;
  grants = [];
}

halved-Ordered : Ordered 0 halved.pages
unfolding page_end ptr_add
halved-Ordered = omega arith

removed : remove_page 12288 4096 1 manager ≡ succeed halved
unfolding remove_page page_end ptr_add ptr_sub page_align shorten
removed = refl

nothing_there : lookup_range pages 65536 8192 1 ≡ done none
unfolding lookup_range virt_page_overlap_byte page_end ptr_add
nothing_there = refl

handle_mremap_swap_example :
    (pm' : Manager) × (handle_mremap (request 3) manager ≡ answer 65536 pm')
    × Overlaid 65536
        (65536 + page_align 8192)
        (some (record { prot = 3; flags = 1; cid = 3 }))
        halved.pages
        pm'.pages
handle_mremap_swap_example =
    handle_mremap_swap (request 3) manager halved (group 8192 8192 1) refl refl refl refl
      (unfold lookup_addr virt_page_overlap_byte page_end ptr_add in refl) nothing_there removed
      halved-Ordered (omega arith) (omega arith) (omega arith) (unfold page_align in omega arith)
      refl (omega arith) far_free
  where
    far_free : Untracked 65536 (65536 + page_align 8192) halved.pages
    far_free a le lt = unfold view virt_page_overlap_byte page_end ptr_add in ground arith
