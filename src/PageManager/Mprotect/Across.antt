-- ===== src/PageManager/Mprotect/Across.antt =====
-- `update_mprotect` on a range that spans several groups.
use secpoline.Base.{
  ℕ, ◌+◌, ◌-◌, ◌≤◌, ◌<◌, ◌^◌, ◌≡◌, ◌∙◌, some, List, ◌∷◌, arith, done, ptr_add, ptr_add_exact, refl,
}
use secpoline.VirtPage.{VirtPage, page_end}
use secpoline.VirtPage.View.{Ordered}
use secpoline.PageManager.State.{Manager, success, succeed, insert_after}
use secpoline.PageManager.State.Link.{overlaps_iff}
use secpoline.PageManager.State.Pool.{virt_page_alloc_stocked}
use secpoline.PageManager.Lookup.{lookup_addr}
use secpoline.PageManager.Lookup.Addr.{lookup_addr-holds}
use secpoline.PageManager.Remove.{remove_page}
use secpoline.PageManager.Mprotect.{
  Request, protected, find_place, link_protected, across_groups, update_group, update_found,
  update_mprotect,
}

-- The call reaches the removal and the insertion.
update_mprotect_run :
    (start size prot cid : ℕ) (pm : Manager) (g : VirtPage)
    → 0 < size
    → start + size < 2 ^ 64
    → lookup_addr pm.pages start cid ≡ some g
    → g.cid ≡ cid
    → page_end g < start + size
    → update_mprotect start size prot cid pm
      ≡ across_groups
          (record { start = start; size = size; end = ptr_add start size; prot = prot; cid = cid })
          pm
unfolding update_mprotect update_found update_group
update_mprotect_run start size prot cid pm g pos fits found same far =
    rw (found, update_found)
      (ground (arith, ptr_add_exact start size fits, lookup_addr-holds start cid pm.pages g found))

module _ (r : Request) (a b : VirtPage) (rest : List VirtPage) (below : page_end a ≤ r.start)
    (low : page_end b ≤ r.start) where
  -- The search for a place stops at the first group, although the second lies below the range too.
  find_place-first : find_place r (a ∷ b ∷ rest) ≡ done a
  unfolding find_place
  find_place-first = ground (arith, overlaps_iff b (protected r a))

  link_protected-first :
      (pm : Manager)
      → pm.pages ≡ a ∷ b ∷ rest
      → 0 < pm.free_pages
      → link_protected r (pm, success)
        ≡ succeed (record {
          pages = a ∷ protected r a ∷ b ∷ rest;
          free_pages = pm.free_pages - 1;
          grants = pm.grants;
        })
  unfolding link_protected insert_after
  link_protected-first pm e stocked =
      rw (e, find_place-first, virt_page_alloc_stocked (record pm { pages = a ∷ b ∷ rest }) stocked)
        (ground arith)

-- The bug of `update_mprotect` on a range that spans several groups. The range is not empty and does
-- not wrap, its first address lies in a group of the compartment that ends in front of the range's
-- end, and the removal of the range succeeds and leaves a node in the pool and a list whose first
-- two groups end at the range's start or below, the second of them not empty. Then it returns 0, the
-- new group stands in front of the second group, although it lies behind it, and the list is out of
-- order.
pub update_mprotect-disorder :
    (start size prot cid : ℕ) (pm pm1 : Manager) (g a b : VirtPage) (rest : List VirtPage)
    → 0 < size
    → start + size < 2 ^ 64
    → lookup_addr pm.pages start cid ≡ some g
    → g.cid ≡ cid
    → page_end g < start + size
    → remove_page start size cid pm ≡ done (pm1, success)
    → pm1.pages ≡ a ∷ b ∷ rest
    → 0 < pm1.free_pages
    → page_end a ≤ start
    → b.start < page_end b
    → page_end b ≤ start
    → (pm' : Manager) × (update_mprotect start size prot cid pm ≡ succeed pm')
      × (pm'.pages
          ≡ a
            ∷ record { start = start; size = size; prot = prot; flags = a.flags; cid = cid }
            ∷ b
            ∷ rest)
      × ¬ Ordered 0 pm'.pages
unfolding across_groups
update_mprotect-disorder start size prot cid pm pm1 g a b rest pos fits found same far removed e
      stocked below filled low =
    let r : Request = record {
      start = start;
      size = size;
      end = ptr_add start size;
      prot = prot;
      cid = cid;
    } in
    (
      record {
        pages = a ∷ protected r a ∷ b ∷ rest;
        free_pages = pm1.free_pages - 1;
        grants = pm1.grants;
      },
      update_mprotect_run start size prot cid pm g pos fits found same far
          ∙ rw removed (link_protected-first r a b rest below low pm1 e stocked),
      refl,
      λ o. absurd (omega (arith, o)),
    )
