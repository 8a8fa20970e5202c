-- ===== src/PageManager/State.antt =====
-- The state of the page manager, the insertion that ends `add_page_locked`, and the node pool
-- (`refill_free_list`, `virt_page_alloc`, `virt_page_free`).
pub mod Link
pub mod Pool
pub mod Nodes
use secpoline.Base.{
  Run, ℕ, ◌+◌, ◌-◌, ◌*◌, ◌%◌, Bool, true, false, Option, none, some, List, [], ◌∷◌, ◌++◌, ltb, leb,
  ◌==◌, if◌then◌else◌, done, trap, ◌>>=◌, ◌>>◌, nolibc_assert, page_size,
}
use secpoline.VirtPage.{VirtPage, page_end, virt_page_overlap, overlaps}

-- The nodes in use, in order; how many nodes the free list holds; and the addresses that the
-- kernel returns for the coming requests of two pages by `refill_free_list`.
pub record Manager : Type 0 where
  pub pages : List VirtPage
  pub free_pages : ℕ
  pub grants : List ℕ

-- The return values 0, -1 and -2.
pub data Status : Type 0 where
  success failure blocked : Status

-- A refused insertion: `nolibc_assert(!map_fixed); return -1;`.
abbrev pub refuse_unless : Bool → Run (Option (List VirtPage))
refuse_unless true = trap
refuse_unless false = done none

abbrev pub prepend : VirtPage → Run (Option (List VirtPage)) → Run (Option (List VirtPage))
prepend g trap = trap
prepend g (done none) = done none
prepend g (done (some gs)) = done (some (g ∷ gs))

-- The loop of `add_page_locked`, at the node `current_page` and those behind it.
link_behind : VirtPage → Bool → VirtPage → List VirtPage → Run (Option (List VirtPage))
link_behind p1 map_fixed current_page [] =
    if overlaps (virt_page_overlap current_page p1.start p1.size)
    then refuse_unless map_fixed
    else done (some (current_page ∷ p1 ∷ []))
link_behind p1 map_fixed current_page (next ∷ rest) =
    if overlaps (virt_page_overlap current_page p1.start p1.size)
    then trap
    else if leb next.start p1.start
    then prepend current_page (link_behind p1 map_fixed next rest)
    else if ltb next.start (page_end p1)
    then refuse_unless map_fixed
    else done (some (current_page ∷ p1 ∷ next ∷ rest))

-- What `add_page_locked` does once the range is free: `none` is its return of -1.
unfoldable pub link_page : VirtPage → Bool → List VirtPage → Run (Option (List VirtPage))
unfolding link_behind
link_page p1 map_fixed [] = done (some (p1 ∷ []))
link_page p1 map_fixed (g ∷ gs) =
    if leb (page_end p1) g.start then done (some (p1 ∷ g ∷ gs)) else link_behind p1 map_fixed g gs

-- The number of nodes of 64 bytes on the two new pages.
abbrev pub nodes_per_refill : ℕ
nodes_per_refill = 128

-- PROT_READ|PROT_WRITE, and the arguments as `refill_free_list` passes them: TS_MONITOR (0) for the
-- flags and MAP_PRIVATE|MAP_SHARED (3) for the compartment.
abbrev pub pool_page : ℕ → VirtPage
pool_page address = record { start = address; size = page_size * 2; prot = 3; flags = 0; cid = 3 }

-- `nolibc_assert(add_page_locked(..) == 0)` on the pool's own pages. With no address left the
-- mapping has failed, which the assertions turn into a trap.
link_pool : ℕ → List ℕ → Manager → Run Manager
link_pool address rest pm = do
  nolibc_assert (address % page_size == 0)
  linked ← link_page (pool_page address) false pm.pages
  elim linked [
    | none ↦ trap
    | some gs ↦
        done (record {
          pages = gs;
          free_pages = pm.free_pages + (nodes_per_refill - 1);
          grants = rest;
        })
  ]

refill_from : List ℕ → Manager → Run Manager
unfolding link_pool
refill_from [] pm = trap
refill_from (address ∷ rest) pm = link_pool address rest pm

unfoldable pub refill_free_list : Manager → Run Manager
unfolding refill_from
refill_free_list pm = refill_from pm.grants pm

take_node : Manager → Run Manager
take_node pm =
    if pm.free_pages == 0 then trap else done (record pm { free_pages = pm.free_pages - 1 })

unfoldable pub virt_page_alloc : Manager → Run Manager
unfolding take_node refill_free_list
virt_page_alloc pm = if pm.free_pages == 0 then refill_free_list pm >>= take_node else take_node pm

-- `virt_page_free` on `n` nodes.
abbrev pub virt_page_free : ℕ → Manager → Manager
virt_page_free n pm = record pm { free_pages = pm.free_pages + n }

abbrev pub succeed : Manager → Run (Manager × Status)
succeed pm = done (pm, success)

-- `new_group->next = start_page->next; start_page->next = new_group;` at the node that starts at
-- `s`.
unfoldable pub insert_after : ℕ → VirtPage → List VirtPage → List VirtPage
insert_after s new_group [] = []
insert_after s new_group (g ∷ gs) =
    if g.start == s then g ∷ new_group ∷ gs else g ∷ insert_after s new_group gs

-- The node that starts at `s` is rewritten, and new nodes are linked behind it: `nodes` stand in
-- its place.
unfoldable pub splice : ℕ → List VirtPage → List VirtPage → List VirtPage
splice s nodes [] = []
splice s nodes (g ∷ gs) = if g.start == s then nodes ++ gs else g ∷ splice s nodes gs
