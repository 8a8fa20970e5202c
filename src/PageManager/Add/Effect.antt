-- ===== src/PageManager/Add/Effect.antt =====
-- `add_page` sets its range in the map, after the removal that a fixed mapping asks for.
use secpoline.Base.{
  Run, ℕ, ◌+◌, ◌-◌, ◌%◌, ◌≤◌, ◌<◌, ◌^◌, ◌≡◌, refl, Bool, true, false, inl, inr, Option, none, some,
  List, arith, ◌==◌, done, trap, ◌>>=◌, Bool-cases, page_size, page_align, ptr_add_exact,
}
use secpoline.VirtPage.{VirtPage, page_end}
use secpoline.VirtPage.View.{Ordered, attr, Attr, view, Untracked}
use secpoline.VirtPage.View.Frame.{Overlaid}
use secpoline.PageManager.State.{Manager, Status, success, failure, blocked, succeed, link_page}
use secpoline.PageManager.State.Link.{link_page-effect, link_page_iff}
use secpoline.PageManager.State.Pool.{virt_page_alloc_stocked, is_linked-cases}
use secpoline.PageManager.Lookup.Range.{has_cid, no_other}
use secpoline.PageManager.Remove.Correct.{RemoveResult, remove_page-effect}
use secpoline.PageManager.MapFixed.Effect.{Exclusive}
use secpoline.PageManager.MapFixed.Correct.{ClearResult, remove_page_map_fixed-effect}
use secpoline.PageManager.Add.{
  make_room, use_link, link_after, add_page_locked, give_back, add_page,
}

-- Whom the range may have belonged to before: nobody, or with a fixed mapping the compartment.
abbrev pub Allowed : Bool → VirtPage → List VirtPage → Type 0
Allowed false p gs = Untracked p.start (page_end p) gs
Allowed true p gs = Exclusive p.start (page_end p) p.cid gs

-- What an addition that returns 0 has done.
abbrev pub AddResult : Bool → VirtPage → Manager → Run (Manager × Status) → Type 0
AddResult map_fixed p pm trap = Unit {0}
AddResult map_fixed p pm (done (pm', failure)) = Ordered 0 pm'.pages
AddResult map_fixed p pm (done (pm', blocked)) = ⊥
AddResult map_fixed p pm (done (pm', success)) =
    Ordered 0 pm'.pages
    × Overlaid p.start (page_end p) (some (attr p)) pm.pages pm'.pages
    × Allowed map_fixed p pm.pages

-- The state after the removal, which the insertion starts from.
abbrev RoomResult : Bool → VirtPage → Manager → Run (Manager × Status) → Type 0
RoomResult map_fixed p pm trap = Unit {0}
RoomResult map_fixed p pm (done (pm', failure)) = Ordered 0 pm'.pages
RoomResult map_fixed p pm (done (pm', blocked)) = ⊥
RoomResult false p pm (done (pm', success)) = pm' ≡ pm
RoomResult true p pm (done (pm', success)) =
    Ordered 0 pm'.pages
    × Overlaid p.start (page_end p) none pm.pages pm'.pages
    × Exclusive p.start (page_end p) p.cid pm.pages

module _ (p : VirtPage) (pm : Manager) (o : Ordered 0 pm.pages) (stocked : 0 < pm.free_pages)
    (rounded : page_align p.size ≡ p.size) (fits : p.start + p.size < 2 ^ 64) where
  range_end : page_end p ≡ p.start + page_align p.size
  unfolding page_end
  range_end = rw rounded (ptr_add_exact p.start p.size fits)

  remove-RoomResult :
      (r : Run (Manager × Status))
      → RemoveResult 0 p.start (page_end p) p.cid pm r
      → RoomResult true p pm r
  remove-RoomResult trap h = tt
  remove-RoomResult (done (pm', failure)) h = rw h o
  remove-RoomResult (done (pm', blocked)) h = h
  remove-RoomResult (done (pm', success)) h =
      (h.0, h.1, λ a le lt. owned-exclusive p.cid (view pm.pages a) (h.2 a le lt))
    where
      owned-exclusive : (cid : ℕ) (v : Option Attr) → has_cid cid v ≡ true → no_other cid v ≡ true
      owned-exclusive cid none e = refl
      owned-exclusive cid (some q) e = e

  clear-RoomResult :
      (r : Run (Manager × Status))
      → ClearResult 0 p.start (page_end p) p.cid pm r
      → RoomResult true p pm r
  clear-RoomResult trap h = tt
  clear-RoomResult (done (pm', failure)) h = rw h o
  clear-RoomResult (done (pm', blocked)) h = h
  clear-RoomResult (done (pm', success)) h = (h.order, h.removed, h.own)

  make_room-RoomResult :
      (is_multithreaded map_fixed : Bool)
      → RoomResult map_fixed p pm (make_room is_multithreaded map_fixed p pm)
  unfolding make_room
  make_room-RoomResult m false = refl
  make_room-RoomResult true true = remove-RoomResult _ (
      rw range_end
        (remove_page-effect 0 p.start p.size p.cid pm o stocked (omega (arith, rounded))))
  make_room-RoomResult false true = clear-RoomResult _ (
      rw range_end
        (remove_page_map_fixed-effect 0 p.start p.size p.cid pm o stocked (omega (arith, rounded))))

  -- The range is set on top of the list that the removal left.
  Linked-AddResult :
      (map_fixed : Bool) (pm' : Manager) (gs : List VirtPage)
      → RoomResult map_fixed p pm (done (pm', success))
      → Ordered 0 gs
      → Overlaid p.start (page_end p) (some (attr p)) pm'.pages gs
      → Untracked p.start (page_end p) pm'.pages
      → AddResult map_fixed p pm (succeed (record pm' { pages = gs }))
  Linked-AddResult true pm' gs room og set free = (og, λ a. ground (arith, set a, room.1 a), room.2)
  Linked-AddResult false pm' gs room og set free = (og, rw room at set, rw room at free)

  room-Ordered :
      (map_fixed : Bool) (pm' : Manager)
      → RoomResult map_fixed p pm (done (pm', success))
      → Ordered 0 pm'.pages
  room-Ordered true pm' room = room.0
  room-Ordered false pm' room = rw room o

  use_link-AddResult :
      (map_fixed : Bool) (pm' : Manager) (r : Run (Option (List VirtPage)))
      → p.start < page_end p
      → RoomResult map_fixed p pm (done (pm', success))
      → link_page p map_fixed pm'.pages ≡ r
      → AddResult map_fixed p pm (r >>= use_link pm')
  unfolding use_link
  use_link-AddResult m pm' trap pos room e = tt
  use_link-AddResult m pm' (done none) pos room e = room-Ordered m pm' room
  use_link-AddResult m pm' (done (some gs)) pos room e =
      let o' = room-Ordered m pm' room in
      let effect = link_page-effect p m 0 pm'.pages gs o' (omega arith) pos e in
      Linked-AddResult m pm' gs room effect.0 effect.1
        ((link_page_iff p m 0 pm'.pages o' pos).0 (rw e refl))

  link_after-AddResult :
      (map_fixed : Bool) (r : Run (Manager × Status))
      → p.start < page_end p
      → RoomResult map_fixed p pm r
      → AddResult map_fixed p pm (r >>= link_after p map_fixed)
  unfolding link_after
  link_after-AddResult m trap pos room = tt
  link_after-AddResult true (done (pm', failure)) pos room = room
  link_after-AddResult false (done (pm', failure)) pos room = room
  link_after-AddResult true (done (pm', blocked)) pos room = absurd room
  link_after-AddResult false (done (pm', blocked)) pos room = absurd room
  link_after-AddResult m (done (pm', success)) pos room =
      use_link-AddResult m pm' (link_page p m pm'.pages) pos room refl

  -- `add_page_locked` on an ordered list, with a node in the pool and a range of whole pages that
  -- does not wrap and is not empty. When it returns 0 the range has the new attributes, the rest of
  -- the map is the same, the list is in order, and the range was untracked before, or for a fixed
  -- mapping tracked for no other compartment. When it returns -1 the list is in order.
  pub add_page_locked-effect :
      (is_multithreaded map_fixed : Bool)
      → 0 < p.size
      → AddResult map_fixed p pm (add_page_locked is_multithreaded p map_fixed pm)
  unfolding add_page_locked
  add_page_locked-effect m map_fixed pos = elim (Bool-cases (p.start % page_size == 0)) [
    | inr a ↦ rw a tt
    | inl a ↦ rw a (
        link_after-AddResult map_fixed (make_room m map_fixed p pm)
          (omega (arith, range_end, rounded)) (make_room-RoomResult m map_fixed))
  ]

give_back-AddResult :
    (map_fixed : Bool) (p : VirtPage) (pm pm1 : Manager) (r : Run (Manager × Status))
    → pm1.pages ≡ pm.pages
    → AddResult map_fixed p pm1 r
    → AddResult map_fixed p pm (r >>= give_back)
unfolding give_back
give_back-AddResult m p pm pm1 trap e h = tt
give_back-AddResult m p pm pm1 (done (pm', failure)) e h = h
give_back-AddResult m p pm pm1 (done (pm', blocked)) e h = h
give_back-AddResult true p pm pm1 (done (pm', success)) e h = rw (← e) h
give_back-AddResult false p pm pm1 (done (pm', success)) e h = rw (← e) h

-- The page group that a call of `add_page` describes.
abbrev pub group_of : ℕ → ℕ → ℕ → ℕ → ℕ → VirtPage
group_of start size prot flags cid = record {
  start = start;
  size = page_align size;
  prot = prot;
  flags = flags;
  cid = cid;
}

page_align_facts :
    (size : ℕ)
    → 0 < size
    → size + page_size ≤ 2 ^ 64
    → (page_align (page_align size) ≡ page_align size) × (0 < page_align size)
unfolding page_align
page_align_facts size pos fits = (omega arith, omega arith)

-- `add_page` on an ordered list, with two nodes in the pool, a size that is not zero and a range
-- that, rounded up to whole pages, does not wrap. When it returns 0 the rounded range has the new
-- attributes, the rest of the map is the same, the list is in order, and the range was untracked
-- before, or for a fixed mapping tracked for no other compartment. When it returns -1 the list is
-- in order; it does not return -2.
pub add_page-effect :
    (is_multithreaded map_fixed : Bool) (start size prot flags cid : ℕ) (pm : Manager)
    → Ordered 0 pm.pages
    → 1 < pm.free_pages
    → 0 < size
    → size + page_size ≤ 2 ^ 64
    → start + page_align size < 2 ^ 64
    → AddResult map_fixed
        (group_of start size prot flags cid)
        pm
        (add_page is_multithreaded start size prot flags cid map_fixed pm)
unfolding add_page
add_page-effect m map_fixed start size prot flags cid pm o stocked pos small fits =
    let p = group_of start size prot flags cid in
    let pm1 = record pm { free_pages = pm.free_pages - 1 } in
    let rounding = page_align_facts size pos small in
    rw (virt_page_alloc_stocked pm (omega arith)) (
      give_back-AddResult map_fixed p pm pm1 (add_page_locked m p map_fixed pm1) refl
        (add_page_locked-effect p pm1 o (omega arith) rounding.0 fits m map_fixed rounding.1))

add_page_run :
    (is_multithreaded : Bool) (start size prot flags cid : ℕ) (pm : Manager) (gs : List VirtPage)
    → 0 < pm.free_pages
    → start % page_size ≡ 0
    → link_page (group_of start size prot flags cid) false pm.pages ≡ done (some gs)
    → add_page is_multithreaded start size prot flags cid false pm
      ≡ succeed (record { pages = gs; free_pages = pm.free_pages - 1; grants = pm.grants })
unfolding add_page add_page_locked make_room link_after use_link give_back
add_page_run m start size prot flags cid pm gs stocked aligned e =
    rw (virt_page_alloc_stocked pm stocked, aligned, e) refl

-- `add_page` without MAP_FIXED succeeds whenever the start is aligned and the rounded range is
-- untracked, under the same bounds.
pub add_page-free :
    (is_multithreaded : Bool) (start size prot flags cid : ℕ) (pm : Manager)
    → Ordered 0 pm.pages
    → 0 < pm.free_pages
    → 0 < size
    → size + page_size ≤ 2 ^ 64
    → start + page_align size < 2 ^ 64
    → start % page_size ≡ 0
    → Untracked start (start + page_align size) pm.pages
    → (pm' : Manager) × (add_page is_multithreaded start size prot flags cid false pm
        ≡ done (pm', success))
unfolding page_end
add_page-free m start size prot flags cid pm o stocked pos small fits aligned free =
    let p = group_of start size prot flags cid in
    let e : page_end p ≡ start + page_align size = ptr_add_exact start (page_align size) fits in
    let linked =
      (link_page_iff p false 0 pm.pages o (omega (arith, e, page_align_facts size pos small))).1
        (rw e free) in
    let (gs, eq) = is_linked-cases (link_page p false pm.pages) linked in
    (
      record { pages = gs; free_pages = pm.free_pages - 1; grants = pm.grants },
      add_page_run m start size prot flags cid pm gs stocked aligned eq,
    )
