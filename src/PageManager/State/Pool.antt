-- ===== src/PageManager/State/Pool.antt =====
-- The node pool: what an allocation and a refill change.
use secpoline.Base.{
  Run, ℕ, ◌+◌, ◌-◌, ◌*◌, ◌%◌, ◌<◌, ◌^◌, ◌≡◌, refl, true, false, Option, none, some, List, ◌∷◌,
  arith, done, trap, page_size, ptr_add_exact,
}
use secpoline.VirtPage.{VirtPage, page_end}
use secpoline.VirtPage.View.{Ordered, Untracked}
use secpoline.VirtPage.View.Frame.{Overlaid}
use secpoline.PageManager.State.{
  Manager, take_node, virt_page_alloc, refill_free_list, refill_from, link_pool, pool_page,
  link_page,
}
use secpoline.PageManager.State.Link.{is_linked, link_page_iff, link_page-effect}

-- With a node in the pool, an allocation takes it and changes nothing else.
pub virt_page_alloc_stocked :
    (pm : Manager)
    → 0 < pm.free_pages
    → virt_page_alloc pm ≡ done (record pm { free_pages = pm.free_pages - 1 })
unfolding virt_page_alloc take_node
virt_page_alloc_stocked pm h = ground arith

pub is_linked-cases :
    (r : Run (Option (List VirtPage)))
    → is_linked r ≡ true
    → (gs : List VirtPage) × (r ≡ done (some gs))
is_linked-cases trap h = cc
is_linked-cases (done none) h = cc
is_linked-cases (done (some gs)) h = (gs, refl)

pool_page-end :
    (address : ℕ)
    → address + page_size * 2 < 2 ^ 64
    → page_end (pool_page address) ≡ address + page_size * 2
unfolding page_end
pool_page-end address h = ptr_add_exact address (page_size * 2) h

link_pool_run :
    (pm : Manager) (address : ℕ) (rest : List ℕ) (gs : List VirtPage)
    → address % page_size ≡ 0
    → link_page (pool_page address) false pm.pages ≡ done (some gs)
    → link_pool address rest pm
      ≡ done (record { pages = gs; free_pages = pm.free_pages + 127; grants = rest })
unfolding link_pool
link_pool_run pm address rest gs aligned e = rw (aligned, e)

refill_run :
    (pm : Manager) (address : ℕ) (rest : List ℕ) (gs : List VirtPage)
    → pm.grants ≡ address ∷ rest
    → address % page_size ≡ 0
    → link_page (pool_page address) false pm.pages ≡ done (some gs)
    → refill_free_list pm
      ≡ done (record { pages = gs; free_pages = pm.free_pages + 127; grants = rest })
unfolding refill_free_list
refill_run pm address rest gs granted aligned e =
    rw (granted, refill_from) (link_pool_run pm address rest gs aligned e)

-- A refill succeeds when the kernel grants two pages, aligned, that are not tracked yet. It adds
-- 127 nodes, and tracks the pages it got with compartment 3 and flags 0: nothing else changes in
-- the map.
pub refill_free_list-effect :
    (pm : Manager) (address : ℕ) (rest : List ℕ)
    → Ordered 0 pm.pages
    → pm.grants ≡ address ∷ rest
    → address % page_size ≡ 0
    → address + page_size * 2 < 2 ^ 64
    → Untracked address (address + page_size * 2) pm.pages
    → (pm' : Manager) × (refill_free_list pm ≡ done pm')
      × (pm'.free_pages ≡ pm.free_pages + 127)
      × (pm'.grants ≡ rest)
      × Ordered 0 pm'.pages
      × Overlaid address
          (address + page_size * 2)
          (some (record { prot = 3; flags = 0; cid = 3 }))
          pm.pages
          pm'.pages
unfolding refill_free_list
refill_free_list-effect pm address rest o granted aligned fits free =
    let p = pool_page address in
    let e : page_end p ≡ address + page_size * 2 = pool_page-end address fits in
    let linked : is_linked (link_page p false pm.pages) ≡ true =
      (link_page_iff p false 0 pm.pages o (omega (arith, e))).1 (rw e free) in
    let (gs, eq) = is_linked-cases (link_page p false pm.pages) linked in
    let effect = link_page-effect p false 0 pm.pages gs o (omega arith) (omega (arith, e)) eq in
    (
      record { pages = gs; free_pages = pm.free_pages + 127; grants = rest },
      refill_run pm address rest gs granted aligned eq,
      refl,
      refl,
      effect.0,
      λ a. rw e at (effect.1 a),
    )
