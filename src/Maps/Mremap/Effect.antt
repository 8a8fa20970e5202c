-- ===== src/Maps/Mremap/Effect.antt =====
-- What `handle_mremap` does to the map.
use secpoline.Base.{
  ℕ, ◌+◌, ◌%◌, ◌^◌, ◌≤◌, ◌<◌, ◌≡◌, refl, true, false, none, some, arith, ltb, ◌==◌, Bool,
  ptr_add_exact, done, page_size, page_align,
}
use secpoline.VirtPage.{VirtPage, page_end}
use secpoline.VirtPage.View.{Ordered, Untracked, view, attr}
use secpoline.VirtPage.View.Frame.{Overlaid}
use secpoline.PageManager.State.{Manager, success, succeed}
use secpoline.PageManager.Lookup.{lookup_addr, lookup_range}
use secpoline.PageManager.Remove.{remove_page}
use secpoline.PageManager.Add.{add_page}
use secpoline.PageManager.Add.Effect.{AddResult, group_of, add_page-effect, add_page-free}
use secpoline.PageManager.Resize.Effect.{update_size-grow}
use secpoline.Maps.Mremap.{
  Request, is_invalid, may_move, is_fixed, dont_unmap, answer, handle_mremap, in_place, resized,
  move_fixed, fixed_range, leave, then_place, place, tracked,
}

-- An addition to an untracked range succeeds and sets exactly that range.
placed :
    (m : Bool) (start size prot flags cid : ℕ) (pm : Manager)
    → Ordered 0 pm.pages
    → 1 < pm.free_pages
    → 0 < size
    → size + page_size ≤ 2 ^ 64
    → start + page_align size < 2 ^ 64
    → start % page_size ≡ 0
    → Untracked start (start + page_align size) pm.pages
    → (pm' : Manager) × (add_page m start size prot flags cid false pm ≡ done (pm', success))
      × Ordered 0 pm'.pages
      × Overlaid start
          (start + page_align size)
          (some (record { prot = prot; flags = flags; cid = cid }))
          pm.pages
          pm'.pages
unfolding page_end
placed m start size prot flags cid pm o stocked pos small fits aligned free =
    let (pm', run) =
      add_page-free m start size prot flags cid pm o (omega arith) pos small fits aligned free in
    let p = group_of start size prot flags cid in
    let effect : AddResult false p pm (done (pm', success)) =
      rw run at (add_page-effect m false start size prot flags cid pm o stocked pos small fits) in
    let e : page_end p ≡ start + page_align size = ptr_add_exact start (page_align size) fits in
    (pm', run, effect.0, rw e at effect.1)

-- `handle_mremap` that may not move grows a mapping in place: when the arguments are valid, the old
-- range ends where its group ends, the new part is untracked and the kernel leaves the mapping
-- where
-- it is, it returns the start, and the new part is tracked with the attributes of the group. The
-- list is in order and the new range does not wrap.
pub handle_mremap-grow :
    (r : Request) (pm : Manager) (g : VirtPage)
    → is_invalid r ≡ false
    → may_move r.flags ≡ false
    → is_fixed r.flags ≡ false
    → dont_unmap r.flags ≡ false
    → Ordered 0 pm.pages
    → lookup_addr pm.pages r.start r.cid ≡ some g
    → r.old_size < r.new_size
    → r.start + r.new_size < 2 ^ 64
    → page_end g ≡ r.start + r.old_size
    → Untracked (r.start + r.old_size) (r.start + r.new_size) pm.pages
    → r.kernel 0 ≡ r.start
    → (pm' : Manager) × (handle_mremap r pm ≡ answer r.start pm')
      × Ordered 0 pm'.pages
      × Overlaid (r.start + r.old_size) (r.start + r.new_size) (some (attr g)) pm.pages pm'.pages
unfolding handle_mremap in_place resized
handle_mremap-grow r pm g valid stay unfixed unmap o found lt fits ends free kept =
    let (pm', run, order, view) =
      update_size-grow r.start r.old_size r.new_size r.cid pm g o found lt fits ends free in
    let same : (r.start == r.start) ≡ true = ground arith in
    (pm', rw (valid, stay, unfixed, unmap, run, kept, same) refl, order, view)

-- The bug in a move to a fixed address: the new range is tracked for the compartment that the mremap
-- flags spell as a number, with the compartment's number as its flags. Conditions: the arguments are
-- valid, the flags are MREMAP_MAYMOVE and MREMAP_FIXED without MREMAP_DONTUNMAP, the old start is
-- tracked for the compartment, the compartment does not own all of the new range, the removal of the
-- old range succeeds and leaves an ordered list and two free nodes or more, the new size is not 0
-- and at least a page below 2 ^ 64, and the kernel moves the mapping to an untracked, aligned range
-- that does not begin at 0 and does not wrap.
pub handle_mremap_swap :
    (r : Request) (pm pm1 : Manager) (g : VirtPage)
    → is_invalid r ≡ false
    → may_move r.flags ≡ true
    → is_fixed r.flags ≡ true
    → dont_unmap r.flags ≡ false
    → lookup_addr pm.pages r.start r.cid ≡ some g
    → lookup_range pm.pages r.new_start r.new_size r.cid ≡ done none
    → remove_page r.start r.old_size r.cid pm ≡ succeed pm1
    → Ordered 0 pm1.pages
    → 1 < pm1.free_pages
    → 0 < r.new_size
    → r.new_size + page_size ≤ 2 ^ 64
    → r.kernel r.new_start + page_align r.new_size < 2 ^ 64
    → r.kernel r.new_start % page_size ≡ 0
    → 0 < r.kernel r.new_start
    → Untracked (r.kernel r.new_start) (r.kernel r.new_start + page_align r.new_size) pm1.pages
    → (pm' : Manager) × (handle_mremap r pm ≡ answer (r.kernel r.new_start) pm')
      × Overlaid
          (r.kernel r.new_start)
          (r.kernel r.new_start + page_align r.new_size)
          (some (record { prot = g.prot; flags = r.cid; cid = r.flags }))
          pm1.pages
          pm'.pages
unfolding handle_mremap move_fixed fixed_range leave then_place place tracked
handle_mremap_swap r pm pm1 g valid moves fixed unmap found none_there removed o stocked pos small
      fits aligned positive free =
    let (pm', run, order, view) =
      placed r.is_multithreaded (r.kernel r.new_start) r.new_size g.prot r.cid r.flags pm1 o stocked
        pos small fits aligned free in
    let nonzero : ltb 0 (r.kernel r.new_start) ≡ true = ground arith in
    (pm', rw (valid, moves, fixed, found, none_there, unmap, removed, nonzero, run) refl, view)
