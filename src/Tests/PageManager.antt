-- ===== src/Tests/PageManager.antt =====
-- The page manager on a small list: a monitor page, two adjacent application groups and another
-- monitor page.
use secpoline.Base.{
  ℕ, ◌+◌, ◌*◌, ◌≤◌, ◌<◌, ◌≡◌, ◌↔◌, refl, true, false, Option, some, List, [], ◌∷◌, arith, done,
  page_size, page_align, ptr_add, ptr_sub,
}
use secpoline.VirtPage.{VirtPage, page_end, shorten, virt_page_overlap_byte}
use secpoline.VirtPage.View.{Ordered, attr, view, Untracked}
use secpoline.VirtPage.View.Frame.{Overlaid}
use secpoline.PageManager.State.{Manager, success, succeed, link_page, refill_free_list}
use secpoline.PageManager.State.Link.{link_page_iff, is_linked}
use secpoline.PageManager.State.Pool.{refill_free_list-effect}
use secpoline.PageManager.Lookup.{lookup_addr, lookup_range, lookup_range_allow_gaps}
use secpoline.PageManager.Lookup.Addr.{Holds, lookup_addr_iff}
use secpoline.PageManager.Lookup.Range.{
  Owned, is_found, no_other, lookup_range_iff, lookup_range_allow_gaps_iff,
}
use secpoline.PageManager.Remove.{remove_page}
use secpoline.PageManager.Remove.Correct.{RemoveResult, remove_page-effect}
use secpoline.PageManager.MapFixed.{remove_page_map_fixed}
use secpoline.PageManager.MapFixed.Correct.{ClearResult, remove_page_map_fixed-effect}
use secpoline.PageManager.Add.{add_page}
use secpoline.PageManager.Add.Effect.{AddResult, group_of, add_page-effect, add_page-free}
use secpoline.PageManager.Mprotect.{update_mprotect}
use secpoline.PageManager.Mprotect.Within.{protect, update_mprotect-within}
use secpoline.PageManager.Mprotect.Across.{update_mprotect-disorder}
use secpoline.PageManager.Resize.{update_size}
use secpoline.PageManager.Resize.Effect.{GivesUp, update_size-grow, update_size-shrink}

abbrev group : ℕ → ℕ → ℕ → ℕ → VirtPage
group start size prot cid = record { start = start; size = size; prot = prot; flags = 2; cid = cid }

abbrev sample_pages : List VirtPage
sample_pages =
    group 0 4096 1 0 ∷ group 8192 8192 3 1 ∷ group 16384 4096 1 1 ∷ group 32768 4096 3 0 ∷ []

abbrev sample : Manager
sample = record { pages = sample_pages; free_pages = 4; grants = 65536 ∷ [] }

sample-Ordered : Ordered 0 sample_pages
unfolding page_end ptr_add
sample-Ordered = omega arith

lookup_addr_iff_example :
    (lookup_addr sample_pages 9000 1 ≡ some (group 8192 8192 3 1))
    ↔ Holds 9000 1 (group 8192 8192 3 1) sample_pages
lookup_addr_iff_example = lookup_addr_iff 0 9000 1 (group 8192 8192 3 1) sample_pages sample-Ordered

lookup_range_iff_example :
    (r : Option VirtPage) × (lookup_range sample_pages 9000 10000 1 ≡ done r)
    × ((is_found r ≡ true) ↔ Owned 9000 (9000 + 10000) 1 sample_pages)
lookup_range_iff_example =
    lookup_range_iff 0 9000 10000 1 (group 0 4096 1 0)
      (group 8192 8192 3 1 ∷ group 16384 4096 1 1 ∷ group 32768 4096 3 0 ∷ []) sample-Ordered
      (omega arith) (omega arith)

lookup_range_allow_gaps_iff_example :
    (lookup_range_allow_gaps sample_pages 8192 20000 1 ≡ success)
    ↔ ((a : ℕ) → 8192 ≤ a → a < 8192 + 20000 → no_other 1 (view sample_pages a) ≡ true)
lookup_range_allow_gaps_iff_example =
    lookup_range_allow_gaps_iff 0 8192 20000 1 sample_pages sample-Ordered (omega arith)
      (omega arith)

link_page_iff_example :
    (is_linked (link_page (group 20480 4096 3 1) false sample_pages) ≡ true)
    ↔ Untracked 20480 (page_end (group 20480 4096 3 1)) sample_pages
link_page_iff_example =
    link_page_iff (group 20480 4096 3 1) false 0 sample_pages sample-Ordered
      (unfold page_end ptr_add in omega arith)

sample_free : Untracked 65536 (65536 + page_size * 2) sample_pages
unfolding view virt_page_overlap_byte page_end ptr_add
sample_free a le lt = ground arith

abbrev drained : Manager
drained = record sample { free_pages = 0 }

refill_free_list-effect_example :
    (pm' : Manager) × (refill_free_list drained ≡ done pm')
    × (pm'.free_pages ≡ drained.free_pages + 127)
    × (pm'.grants ≡ [])
    × Ordered 0 pm'.pages
    × Overlaid 65536
        (65536 + page_size * 2)
        (some (record { prot = 3; flags = 0; cid = 3 }))
        sample_pages
        pm'.pages
refill_free_list-effect_example =
    refill_free_list-effect drained 65536 [] sample-Ordered refl refl (omega arith) sample_free

remove_page-effect_example :
    RemoveResult 0 12288 (12288 + page_align 8000) 1 sample (remove_page 12288 8000 1 sample)
remove_page-effect_example =
    remove_page-effect 0 12288 8000 1 sample sample-Ordered (omega arith)
      (unfold page_align in omega arith)

-- The range ends the first application group and takes the second.
remove_across_groups :
    remove_page 12288 8000 1 sample
    ≡ succeed (record {
      pages = group 0 4096 1 0 ∷ group 8192 4096 3 1 ∷ group 32768 4096 3 0 ∷ [];
      free_pages = 5;
      grants = 65536 ∷ [];
    })
unfolding remove_page page_end ptr_add ptr_sub page_align shorten
remove_across_groups = refl

remove_page_map_fixed-effect_example :
    ClearResult 0 12288
      (12288 + page_align 16000)
      1
      sample
      (remove_page_map_fixed 12288 16000 1 sample)
remove_page_map_fixed-effect_example =
    remove_page_map_fixed-effect 0 12288 16000 1 sample sample-Ordered (omega arith)
      (unfold page_align in omega arith)

add_page-effect_example :
    AddResult true
      (group_of 12288 10000 5 2 1)
      sample
      (add_page false 12288 10000 5 2 1 true sample)
add_page-effect_example =
    add_page-effect false true 12288 10000 5 2 1 sample sample-Ordered (omega arith) (omega arith)
      (omega arith) (unfold page_align in omega arith)

add_page-free_example :
    (pm' : Manager) × (add_page true 65536 8192 5 2 1 false sample ≡ done (pm', success))
add_page-free_example =
    add_page-free true 65536 8192 5 2 1 sample sample-Ordered (omega arith) (omega arith)
      (omega arith) (unfold page_align in omega arith) refl (unfold page_align in sample_free)

abbrev app_group : VirtPage
app_group = group 8192 8192 3 1

find_app_group : lookup_addr sample_pages 12288 1 ≡ some app_group
unfolding lookup_addr virt_page_overlap_byte page_end ptr_add
find_app_group = refl

update_mprotect-within_example :
    (pm' : Manager) × (update_mprotect 12288 4096 5 1 sample ≡ succeed pm')
    × Ordered 0 pm'.pages
    × Overlaid 12288 (12288 + 4096) (some (protect 5 app_group)) sample_pages pm'.pages
update_mprotect-within_example =
    update_mprotect-within 12288 4096 5 1 sample app_group sample-Ordered (omega arith)
      (omega arith) (omega arith) find_app_group refl (unfold page_end ptr_add in omega arith)

update_size-grow_example :
    (pm' : Manager) × (update_size 16384 4096 12288 1 sample ≡ succeed pm')
    × Ordered 0 pm'.pages
    × Overlaid
        (16384 + 4096)
        (16384 + 12288)
        (some (attr (group 16384 4096 1 1)))
        sample_pages
        pm'.pages
update_size-grow_example =
    update_size-grow 16384 4096 12288 1 sample (group 16384 4096 1 1) sample-Ordered
      (unfold lookup_addr virt_page_overlap_byte page_end ptr_add in refl) (omega arith)
      (omega arith) (unfold page_end ptr_add in refl) gap_free
  where
    gap_free : Untracked (16384 + 4096) (16384 + 12288) sample_pages
    gap_free a le lt = unfold view virt_page_overlap_byte page_end ptr_add in ground arith

update_size-shrink_example :
    GivesUp (8192 + 4096) (8192 + 8192) sample (update_size 8192 8192 4096 1 sample)
update_size-shrink_example =
    update_size-shrink 8192 8192 4096 1 sample app_group sample-Ordered (omega arith)
      (unfold lookup_addr virt_page_overlap_byte page_end ptr_add in refl) refl (omega arith)
      (omega arith) (omega arith) (unfold page_end ptr_add in omega arith)

-- Two monitor pages below two application groups that one call of mprotect covers.
abbrev stacked : Manager
stacked = record {
  pages =
      group 0 4096 1 0
      ∷ group 4096 4096 3 0
      ∷ group 8192 8192 3 1
      ∷ group 16384 4096 1 1
      ∷ group 32768 4096 3 0
      ∷ [];
  free_pages = 4;
  grants = [];
}

abbrev unstacked : Manager
unstacked = record {
  pages = group 0 4096 1 0 ∷ group 4096 4096 3 0 ∷ group 32768 4096 3 0 ∷ [];
  free_pages = 6;
  grants = [];
}

update_mprotect-disorder_example :
    (pm' : Manager) × (update_mprotect 8192 12288 5 1 stacked ≡ succeed pm')
    × (pm'.pages
        ≡ group 0 4096 1 0
          ∷ record { start = 8192; size = 12288; prot = 5; flags = 2; cid = 1 }
          ∷ group 4096 4096 3 0
          ∷ group 32768 4096 3 0
          ∷ [])
    × ¬ Ordered 0 pm'.pages
unfolding lookup_addr virt_page_overlap_byte page_end ptr_add remove_page page_align
update_mprotect-disorder_example =
    update_mprotect-disorder 8192 12288 5 1 stacked unstacked app_group (group 0 4096 1 0)
      (group 4096 4096 3 0) (group 32768 4096 3 0 ∷ []) (omega arith) (omega arith) refl refl
      (omega arith) refl refl (omega arith) (omega arith) (omega arith) (omega arith)
