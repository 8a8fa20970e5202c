-- ===== src/PageManager/Add.antt =====
-- `add_page` and `add_page_locked`.
pub mod Effect
use secpoline.Base.{
  Run, ℕ, ◌+◌, ◌%◌, Bool, true, false, Option, none, some, List, ◌==◌, if◌then◌else◌, done, trap,
  ◌>>=◌, ◌>>◌, nolibc_assert, page_size, page_align,
}
use secpoline.VirtPage.{VirtPage}
use secpoline.PageManager.State.{
  Manager, Status, success, failure, blocked, succeed, link_page, virt_page_alloc, virt_page_free,
}
use secpoline.PageManager.Remove.{remove_page}
use secpoline.PageManager.MapFixed.{remove_page_map_fixed}

-- The removal that precedes a fixed mapping. With several threads no gap is allowed.
unfoldable pub make_room : Bool → Bool → VirtPage → Manager → Run (Manager × Status)
make_room is_multithreaded false p1 pm = succeed pm
make_room true true p1 pm = remove_page p1.start p1.size p1.cid pm
make_room false true p1 pm = remove_page_map_fixed p1.start p1.size p1.cid pm

use_link : Manager → Option (List VirtPage) → Run (Manager × Status)
use_link pm none = done (pm, failure)
use_link pm (some gs) = succeed (record pm { pages = gs })

link_after : VirtPage → Bool → Manager × Status → Run (Manager × Status)
unfolding use_link
link_after p1 map_fixed (pm, failure) = done (pm, failure)
link_after p1 map_fixed (pm, blocked) = done (pm, failure)
link_after p1 map_fixed (pm, success) = link_page p1 map_fixed pm.pages >>= use_link pm

-- `p1` holds the arguments, its size rounded up.
unfoldable pub add_page_locked : Bool → VirtPage → Bool → Manager → Run (Manager × Status)
unfolding make_room link_after
add_page_locked is_multithreaded p1 map_fixed pm = do
  nolibc_assert (p1.start % page_size == 0)
  room ← make_room is_multithreaded map_fixed p1 pm
  link_after p1 map_fixed room

-- The node that was allocated goes back when the insertion is refused.
give_back : Manager × Status → Run (Manager × Status)
give_back (pm, success) = succeed pm
give_back (pm, failure) = done (virt_page_free 1 pm, failure)
give_back (pm, blocked) = done (virt_page_free 1 pm, blocked)

unfoldable pub add_page : Bool → ℕ → ℕ → ℕ → ℕ → ℕ → Bool → Manager → Run (Manager × Status)
unfolding add_page_locked give_back
add_page is_multithreaded start size prot flags cid map_fixed pm = do
  pm' ← virt_page_alloc pm
  added ←
      add_page_locked is_multithreaded
        (record { start = start; size = page_align size; prot = prot; flags = flags; cid = cid })
        map_fixed pm'
  give_back added
