-- ===== src/PageManager/MapFixed.antt =====
-- `remove_page_map_fixed_locked`: the removal before a fixed mapping, which allows gaps.
pub mod Effect
pub mod Correct
use secpoline.Base.{
  Run, ℕ, ◌+◌, ◌%◌, Bool, true, false, not, ◌&&◌, List, [], ◌∷◌, ltb, leb, ◌==◌, if◌then◌else◌,
  done, trap, ◌>>=◌, ◌>>◌, nolibc_assert, page_size, ptr_add, page_align,
}
use secpoline.VirtPage.{VirtPage, page_end, shorten, advance}
use secpoline.PageManager.State.{
  Manager, Status, failure, succeed, insert_after, virt_page_alloc, virt_page_free,
}

-- The list as the loop leaves it, with the count of nodes freed; or as it stands when a group is to
-- be split, with the start of that group and the node to be linked behind it.
pub data Edit : Type 0 where
  finished : List VirtPage → ℕ → Edit
  split : List VirtPage → ℕ → ℕ → VirtPage → Edit

abbrev pub keep : VirtPage → Run Edit → Run Edit
keep g trap = trap
keep g (done (finished gs n)) = done (finished (g ∷ gs) n)
keep g (done (split gs n s new_group)) = done (split (g ∷ gs) n s new_group)

abbrev pub unlink : Run Edit → Run Edit
unlink trap = trap
unlink (done (finished gs n)) = done (finished gs (n + 1))
unlink (done (split gs n s new_group)) = done (split gs (n + 1) s new_group)

-- The loop, at `current_page` and the groups behind it.
unfoldable pub clear_from : ℕ → ℕ → ℕ → List VirtPage → Run Edit
clear_from start end cid [] = done (finished [] 0)
clear_from start end cid (g ∷ gs) =
    let rest = clear_from start end cid gs in
    if leb (page_end g) start
    then keep g rest
    else if leb end g.start
    then done (finished (g ∷ gs) 0)
    else if not (g.cid == cid)
    then trap
    else if leb start g.start && leb (page_end g) end
    then unlink rest
    else if leb start g.start && ltb end (page_end g)
    then done (finished (advance g end ∷ gs) 0)
    else if leb (page_end g) end && ltb g.start start
    then keep (shorten g start) rest
    else if ltb g.start start && ltb end (page_end g)
    then done (split (shorten g start ∷ gs) 0 g.start (advance g end))
    else trap

apply_edit : Edit → Manager → Run (Manager × Status)
apply_edit (finished gs n) pm = succeed (virt_page_free n (record pm { pages = gs }))
apply_edit (split gs n s new_group) pm = do
  pm' ← virt_page_alloc (virt_page_free n (record pm { pages = gs }))
  succeed (record pm' { pages = insert_after s new_group pm'.pages })

clear_range : ℕ → ℕ → ℕ → Manager → Run (Manager × Status)
unfolding clear_from apply_edit
clear_range start size cid pm = do
  nolibc_assert (start % page_size == 0)
  if size == 0
      then done (pm, failure)
      else do edit ← clear_from start (ptr_add start size) cid pm.pages; apply_edit edit pm

unfoldable pub remove_page_map_fixed : ℕ → ℕ → ℕ → Manager → Run (Manager × Status)
unfolding clear_range
remove_page_map_fixed start size cid pm = clear_range start (page_align size) cid pm
