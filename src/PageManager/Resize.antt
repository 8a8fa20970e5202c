-- ===== src/PageManager/Resize.antt =====
-- `update_size_locked`.
pub mod Effect
use secpoline.Base.{
  Run, ℕ, Bool, true, false, not, ◌&&◌, Option, none, some, List, [], ◌∷◌, ltb, leb, ◌==◌,
  if◌then◌else◌, done, trap, ◌>>=◌, ptr_add, ptr_sub,
}
use secpoline.VirtPage.{VirtPage, page_end, shorten}
use secpoline.PageManager.State.{
  Manager, Status, success, failure, blocked, succeed, splice, virt_page_alloc,
}
use secpoline.PageManager.Lookup.{lookup_addr}

-- `current_group->next`, of the node that starts at `s`.
unfoldable pub next_of : ℕ → List VirtPage → Option VirtPage
next_of s [] = none
next_of s (g ∷ []) = none
next_of s (g ∷ h ∷ gs) = if g.start == s then some h else next_of s (h ∷ gs)

-- `current_group->next && (new_end > current_group->next->start)`
abbrev pub reaches : ℕ → Option VirtPage → Bool
reaches new_end none = false
reaches new_end (some h) = ltb h.start new_end

grow : ℕ → ℕ → ℕ → VirtPage → Manager → Run (Manager × Status)
unfolding next_of
grow old_end new_end dsize g pm =
    if not (page_end g == old_end)
    then done (pm, blocked)
    else if reaches new_end (next_of g.start pm.pages)
    then done (pm, blocked)
    else succeed (record pm {
      pages = splice g.start (record g { size = ptr_add g.size dsize } ∷ []) pm.pages;
    })

shrink : ℕ → ℕ → ℕ → ℕ → VirtPage → Manager → Run (Manager × Status)
shrink old_end new_end dsize cid g pm =
    if old_end == page_end g
    then succeed (record pm {
      pages = splice g.start (record g { size = ptr_sub g.size dsize } ∷ []) pm.pages;
    })
    else do
      pm' ← virt_page_alloc pm
      succeed (record pm' {
        pages =
            splice g.start
              (shorten g new_end
                ∷ record {
                  start = old_end;
                  size = ptr_sub (page_end g) old_end;
                  prot = g.prot;
                  flags = g.flags;
                  cid = cid;
                }
                ∷ [])
              pm'.pages;
      })

resize_found : ℕ → ℕ → ℕ → ℕ → Option VirtPage → Manager → Run (Manager × Status)
unfolding grow shrink
resize_found start old_size new_size cid none pm = done (pm, failure)
resize_found start old_size new_size cid (some g) pm =
    if old_size == new_size
    then succeed pm
    else if ltb (page_end g) (ptr_add start old_size)
    then done (pm, failure)
    else if ltb old_size new_size
    then grow (ptr_add start old_size) (ptr_add start new_size) (ptr_sub new_size old_size) g pm
    else shrink (ptr_add start old_size) (ptr_add start new_size) (ptr_sub old_size new_size) cid g
        pm

unfoldable pub update_size : ℕ → ℕ → ℕ → ℕ → Manager → Run (Manager × Status)
unfolding resize_found
update_size start old_size new_size cid pm =
    resize_found start old_size new_size cid (lookup_addr pm.pages start cid) pm
