-- ===== src/VirtPage.antt =====
-- `struct virt_page` (src/include/virt_page_manager.h) and the tests on one node of the page list.
-- The `next` pointer is the order of a list; the padding is left out.
pub mod View
use secpoline.Base.{
  ℕ, ◌≤◌, ◌<◌, ◌≡◌, Bool, true, false, ◌&&◌, Option, none, some, List, [], ◌∷◌, ltb, leb, ◌==◌,
  if◌then◌else◌, ptr_add, ptr_sub,
}

-- An `int`, such as a compartment ID, is its 32-bit pattern.
pub record VirtPage : Type 0 where
  pub start : ℕ
  pub size : ℕ
  pub prot : ℕ
  pub flags : ℕ
  pub cid : ℕ

unfoldable pub page_end : VirtPage → ℕ
page_end g = ptr_add g.start g.size

-- `group->size = e - group->start`
unfoldable pub shorten : VirtPage → ℕ → VirtPage
shorten g e = record g { size = ptr_sub e g.start }

-- `group->size = group_end - e; group->start = e`
unfoldable pub advance : VirtPage → ℕ → VirtPage
advance g e = record g { start = e; size = ptr_sub (page_end g) e }

pub data Overlap : Type 0 where
  disjoint partial same subset superset : Overlap

-- `virt_page_overlap`: its return values 0 to 4. No caller passes NULL.
unfoldable pub virt_page_overlap : VirtPage → ℕ → ℕ → Overlap
virt_page_overlap g start size =
    let end = ptr_add start size in
    if leb end g.start
    then disjoint
    else if leb (page_end g) start
    then disjoint
    else if (g.start == start) && (page_end g == end)
    then same
    else if leb g.start start && leb end (page_end g)
    then subset
    else if ltb start g.start && ltb (page_end g) end
    then superset
    else partial

-- `virt_page_overlap(..) > 0`
abbrev pub overlaps : Overlap → Bool
overlaps disjoint = false
overlaps partial = true
overlaps same = true
overlaps subset = true
overlaps superset = true

-- `virt_page_overlap_byte`
unfoldable pub virt_page_overlap_byte : VirtPage → ℕ → Bool
virt_page_overlap_byte g byte = leb g.start byte && ltb byte (page_end g)
