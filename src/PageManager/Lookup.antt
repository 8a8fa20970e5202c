-- ===== src/PageManager/Lookup.antt =====
-- `lookup_addr_locked`, `lookup_range_locked` and `lookup_range_allow_gaps_locked`.
pub mod Addr
pub mod Range
pub mod Place
use secpoline.Base.{
  Run, ℕ, Bool, true, false, not, ◌&&◌, ◌||◌, Option, none, some, List, [], ◌∷◌, ltb, leb, ◌==◌,
  if◌then◌else◌, done, trap, ptr_add,
}
use secpoline.VirtPage.{VirtPage, page_end, virt_page_overlap_byte}
use secpoline.PageManager.State.{Status, success, failure}

-- The compartment -1, which stands for any.
abbrev pub any_cid : ℕ
any_cid = 0xffff_ffff

unfoldable pub lookup_addr : List VirtPage → ℕ → ℕ → Option VirtPage
lookup_addr [] addr cid = none
lookup_addr (g ∷ gs) addr cid =
    if virt_page_overlap_byte g addr && (cid == any_cid || g.cid == cid)
    then some g
    else lookup_addr gs addr cid

-- The second loop of `lookup_range_locked`: every group up to `end_addr` belongs to `cid` and
-- begins where the one before ends.
unfoldable pub range_covered : ℕ → ℕ → VirtPage → List VirtPage → Bool
range_covered end_addr cid g [] = (g.cid == cid) && leb end_addr (page_end g)
range_covered end_addr cid g (next ∷ rest) =
    (g.cid == cid)
    && (leb end_addr (page_end g)
        || ((next.start == page_end g) && range_covered end_addr cid next rest))

-- What follows the first loop, at the group that holds `start_addr`.
unfoldable pub range_from : ℕ → ℕ → VirtPage → List VirtPage → Option VirtPage
unfolding range_covered
range_from end_addr cid g rest =
    if not (g.cid == cid)
    then none
    else if leb end_addr (page_end g)
    then some g
    else if range_covered end_addr cid g rest
    then some g
    else none

unfoldable pub find_range : ℕ → ℕ → ℕ → List VirtPage → Option VirtPage
unfolding range_from
find_range start_addr end_addr cid [] = none
find_range start_addr end_addr cid (g ∷ gs) =
    if virt_page_overlap_byte g start_addr
    then range_from end_addr cid g gs
    else find_range start_addr end_addr cid gs

-- `nolibc_assert(pages != NULL)` comes first.
unfoldable pub lookup_range : List VirtPage → ℕ → ℕ → ℕ → Run (Option VirtPage)
unfolding find_range
lookup_range [] start_addr size cid = trap
lookup_range (g ∷ gs) start_addr size cid =
    done (find_range start_addr (ptr_add start_addr size) cid (g ∷ gs))

unfoldable pub allow_gaps : ℕ → ℕ → ℕ → List VirtPage → Status
allow_gaps start_addr end_addr cid [] = success
allow_gaps start_addr end_addr cid (g ∷ gs) =
    if leb (page_end g) start_addr || leb end_addr g.start
    then allow_gaps start_addr end_addr cid gs
    else if not (g.cid == cid)
    then failure
    else allow_gaps start_addr end_addr cid gs

unfoldable pub lookup_range_allow_gaps : List VirtPage → ℕ → ℕ → ℕ → Status
unfolding allow_gaps
lookup_range_allow_gaps pages start_addr size cid =
    allow_gaps start_addr (ptr_add start_addr size) cid pages
