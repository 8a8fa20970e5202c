-- ===== src/PageManager/Mprotect.antt =====
-- `update_mprotect_locked`.
pub mod Within
pub mod Across
use secpoline.Base.{
  Run, ℕ, Bool, true, false, not, ◌&&◌, ◌||◌, Option, none, some, List, [], ◌∷◌, ltb, leb, ◌==◌,
  if◌then◌else◌, done, trap, ◌>>=◌, ptr_add, ptr_sub,
}
use secpoline.VirtPage.{VirtPage, page_end, shorten, advance, virt_page_overlap, overlaps}
use secpoline.PageManager.State.{
  Manager, Status, success, failure, blocked, succeed, insert_after, splice, virt_page_alloc,
}
use secpoline.PageManager.Lookup.{lookup_addr}
use secpoline.PageManager.Remove.{remove_page}

-- The arguments of the call, with `end` for `start + size`.
pub record Request : Type 0 where
  pub start : ℕ
  pub size : ℕ
  pub end : ℕ
  pub prot : ℕ
  pub cid : ℕ

-- The new group of the request, with the flags of `g`.
abbrev pub protected : Request → VirtPage → VirtPage
protected r g = record {
  start = r.start;
  size = r.size;
  prot = r.prot;
  flags = g.flags;
  cid = r.cid;
}

-- The rest of `g` behind the request.
abbrev pub remainder : Request → VirtPage → VirtPage
remainder r g = record {
  start = r.end;
  size = ptr_sub (page_end g) r.end;
  prot = g.prot;
  flags = g.flags;
  cid = r.cid;
}

-- The request covers the beginning, the end or the middle of `g`, which is split.
split_front : Request → VirtPage → Manager → Run (Manager × Status)
split_front r g pm = do
  pm' ← virt_page_alloc pm
  succeed (record pm' {
    pages =
        splice g.start (record g { prot = r.prot; size = r.size } ∷ remainder r g ∷ []) pm'.pages;
  })

split_back : Request → VirtPage → Manager → Run (Manager × Status)
split_back r g pm = do
  pm' ← virt_page_alloc pm
  succeed (record pm' { pages = splice g.start (shorten g r.start ∷ protected r g ∷ []) pm'.pages })

split_middle : Request → VirtPage → Manager → Run (Manager × Status)
split_middle r g pm = do
  pm1 ← virt_page_alloc pm
  pm2 ← virt_page_alloc pm1
  succeed (record pm2 {
    pages = splice g.start (shorten g r.start ∷ protected r g ∷ remainder r g ∷ []) pm2.pages;
  })

-- The loop that looks for the place of the new group after a removal: the first group that ends at
-- or below `start`, whatever follows it. The traps are its `assert(0)`.
unfoldable pub find_place : Request → List VirtPage → Run VirtPage
find_place r [] = trap
find_place r (g ∷ []) = if leb (page_end g) r.start then done g else trap
find_place r (g ∷ next ∷ rest) =
    if leb (page_end g) r.start
    then if overlaps (virt_page_overlap next r.start r.size) then trap else done g
    else find_place r (next ∷ rest)

link_protected : Request → Manager × Status → Run (Manager × Status)
unfolding find_place
link_protected r (pm, failure) = done (pm, failure)
link_protected r (pm, blocked) = done (pm, failure)
link_protected r (pm, success) = do
  current_page ← find_place r pm.pages
  pm' ← virt_page_alloc pm
  succeed
      (record pm' { pages = insert_after current_page.start (protected r current_page) pm'.pages })

across_groups : Request → Manager → Run (Manager × Status)
unfolding link_protected
across_groups r pm = do removed ← remove_page r.start r.size r.cid pm; link_protected r removed

update_group : Request → VirtPage → Manager → Run (Manager × Status)
unfolding split_front split_back split_middle across_groups
update_group r g pm =
    if not (g.cid == r.cid)
    then done (pm, failure)
    else if r.size == 0
    then done (pm, failure)
    else if ltb r.end r.start
    then done (pm, failure)
    else if ltb r.start g.start || leb (page_end g) r.start
    then done (pm, failure)
    else if r.start == g.start && r.end == page_end g
    then succeed (record pm { pages = splice g.start (record g { prot = r.prot } ∷ []) pm.pages })
    else if r.start == g.start && ltb r.end (page_end g)
    then split_front r g pm
    else if ltb g.start r.start && r.end == page_end g
    then split_back r g pm
    else if ltb g.start r.start && ltb r.end (page_end g)
    then split_middle r g pm
    else across_groups r pm

update_found : Request → Option VirtPage → Manager → Run (Manager × Status)
unfolding update_group
update_found r none pm = done (pm, failure)
update_found r (some g) pm = update_group r g pm

unfoldable pub update_mprotect : ℕ → ℕ → ℕ → ℕ → Manager → Run (Manager × Status)
unfolding update_found
update_mprotect start size prot cid pm =
    update_found
      (record { start = start; size = size; end = ptr_add start size; prot = prot; cid = cid })
      (lookup_addr pm.pages start cid) pm
