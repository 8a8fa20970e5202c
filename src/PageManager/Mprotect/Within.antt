-- ===== src/PageManager/Mprotect/Within.antt =====
-- `update_mprotect` on a range inside one group.
use secpoline.Base.{
  Run, ℕ, ◌+◌, ◌-◌, ◌≤◌, ◌<◌, ◌^◌, ◌≡◌, refl, true, false, ◌||◌, inl, inr, some, List, [], ◌∷◌,
  ◌++◌, arith, ltb, leb, ◌==◌, Bool-cases, ptr_add, ptr_add_exact, ptr_add-ptr_sub,
}
use secpoline.VirtPage.{VirtPage, page_end, shorten}
use secpoline.VirtPage.View.{
  Ordered, top, Attr, view, view_below, view_cons, page_end-lt, shorten_facts,
}
use secpoline.VirtPage.View.Frame.{Overlaid}
use secpoline.PageManager.State.{Manager, Status, succeed, splice}
use secpoline.PageManager.State.Pool.{virt_page_alloc_stocked}
use secpoline.PageManager.Splice.{splice_effect, Place-Ordered}
use secpoline.PageManager.Lookup.{lookup_addr}
use secpoline.PageManager.Lookup.Addr.{lookup_addr-holds}
use secpoline.PageManager.Lookup.Place.{Place, lookup_addr-Place}
use secpoline.PageManager.Mprotect.{
  Request, protected, remainder, split_front, split_back, split_middle, update_group, update_found,
  update_mprotect,
}

-- The attributes of a group under the new protection.
abbrev pub protect : ℕ → VirtPage → Attr
protect prot g = record { prot = prot; flags = g.flags; cid = g.cid }

-- `nodes` may stand for `g` once the range of the request has the new protection.
record Stands (r : Request) (g : VirtPage) (after nodes : List VirtPage) : Type 0 where
  order : Ordered g.start (nodes ++ after)
  view : Overlaid r.start r.end (some (protect r.prot g)) (g ∷ after) (nodes ++ after)

module _ (r : Request) (g : VirtPage) (after : List VirtPage) (o : Ordered (page_end g) after)
    (ends : ptr_add r.start r.size ≡ r.end) (pos : r.start < r.end) (low : g.start ≤ r.start)
    (high : r.end ≤ page_end g) (same : g.cid ≡ r.cid) where
  end_protected : page_end (protected r g) ≡ r.end
  unfolding page_end
  end_protected = ends

  end_remainder : page_end (remainder r g) ≡ page_end g
  end_remainder =
      unfold page_end in
      ptr_add-ptr_sub r.end (page_end g) (omega (arith, page_end-lt g)) (page_end-lt g)

  end_front : r.start ≡ g.start → page_end (record g { prot = r.prot; size = r.size }) ≡ r.end
  end_front e = unfold page_end in (rw e at ends)

  whole-Stands :
      r.start ≡ g.start → r.end ≡ page_end g → Stands r g after (record g { prot = r.prot } ∷ [])
  whole-Stands e f =
      let n = record g { prot = r.prot } in
      let k : page_end n ≡ page_end g = unfold page_end in refl in
      record {
        order = (omega arith, omega (arith, k), rw k o);
        view = λ a.
            ground (
              arith,
              k,
              view_cons n after a,
              view_cons g after a,
              view_below (page_end g) a after o,
            );
      }

  front-Stands :
      r.start ≡ g.start
      → r.end < page_end g
      → Stands r g after (record g { prot = r.prot; size = r.size } ∷ remainder r g ∷ [])
  front-Stands e f =
      let n = record g { prot = r.prot; size = r.size } in
      let m = remainder r g in
      let k = end_front e in
      let l = end_remainder in
      record {
        order = (omega arith, omega (arith, k, e), (omega (arith, k), omega (arith, l), rw l o));
        view = λ a. ground (
          arith,
          k,
          l,
          same,
          view_cons n (m ∷ after) a,
          view_cons m after a,
          view_cons g after a,
          view_below (page_end g) a after o,
        );
      }

  back-Stands :
      g.start < r.start
      → r.end ≡ page_end g
      → Stands r g after (shorten g r.start ∷ protected r g ∷ [])
  back-Stands e f =
      let n = shorten g r.start in
      let m = protected r g in
      let k = shorten_facts g r.start low (omega arith) in
      let l = end_protected in
      record {
        order = (
          omega (arith, k),
          ground (arith, k),
          (omega (arith, k), omega (arith, l), rw l (rw f o)),
        );
        view = λ a. ground (
          arith,
          k,
          l,
          same,
          view_cons n (m ∷ after) a,
          view_cons m after a,
          view_cons g after a,
          view_below (page_end g) a after o,
        );
      }

  middle-Stands :
      g.start < r.start
      → r.end < page_end g
      → Stands r g after (shorten g r.start ∷ protected r g ∷ remainder r g ∷ [])
  middle-Stands e f =
      let n = shorten g r.start in
      let m = protected r g in
      let q = remainder r g in
      let k = shorten_facts g r.start low (omega arith) in
      let l = end_protected in
      let t = end_remainder in
      record {
        order = (
          omega (arith, k),
          ground (arith, k),
          (omega (arith, k), omega (arith, l), (omega (arith, l), omega (arith, t), rw t o)),
        );
        view = λ a. ground (
          arith,
          k,
          l,
          t,
          same,
          view_cons n (m ∷ q ∷ after) a,
          view_cons m (q ∷ after) a,
          view_cons q after a,
          view_cons g after a,
          view_below (page_end g) a after o,
        );
      }

-- The call returns 0, with the range under the new protection and the rest of the map the same.
abbrev pub Protects : ℕ → Request → VirtPage → Manager → Run (Manager × Status) → Type 0
Protects lo r g pm result =
    (pm' : Manager) × (result ≡ succeed pm')
    × Ordered lo pm'.pages
    × Overlaid r.start r.end (some (protect r.prot g)) pm.pages pm'.pages

module _ (lo : ℕ) (r : Request) (g : VirtPage) (pm : Manager) (o : Ordered lo pm.pages)
    (place : Place pm.pages g) where
  right : Ordered (top lo place.before) (g ∷ place.after)
  right = Place-Ordered lo pm.pages g o place

  -- Replacing the node of `g` by nodes that stand for it.
  splice-Protects :
      (nodes : List VirtPage) (free_pages : ℕ)
      → g.start ≤ r.start
      → Stands r g place.after nodes
      → Protects lo r g pm (
          succeed (record {
            pages = splice g.start nodes pm.pages;
            free_pages = free_pages;
            grants = pm.grants;
          }))
  splice-Protects nodes n low s =
      let effect =
        splice_effect lo r.start r.end (some (protect r.prot g)) pm.pages g nodes o place low
          s.order s.view in
      (_, refl, effect.0, effect.1)

  update_group-Protects :
      1 < pm.free_pages
      → ptr_add r.start r.size ≡ r.end
      → 0 < r.size
      → r.start < r.end
      → g.start ≤ r.start
      → r.end ≤ page_end g
      → g.cid ≡ r.cid
      → Protects lo r g pm (update_group r g pm)
  unfolding update_group split_front split_back split_middle
  update_group-Protects stocked ends size pos low high same =
      let after = place.after in
      let c1 : (g.cid == r.cid) ≡ true = ground arith in
      let c2 : (r.size == 0) ≡ false = ground arith in
      let c3 : ltb r.end r.start ≡ false = ground arith in
      let c4 : (ltb r.start g.start || leb (page_end g) r.start) ≡ false = ground arith in
      let a1 = virt_page_alloc_stocked pm (omega arith) in
      let a2 =
        virt_page_alloc_stocked (record pm { free_pages = pm.free_pages - 1 }) (omega arith) in
      elim (Bool-cases (r.start == g.start)) [
        | inl e ↦ elim (Bool-cases (r.end == page_end g)) [
          | inl f ↦
              rw (c1, c2, c3, c4, e, f)
                (splice-Protects (record g { prot = r.prot } ∷ []) pm.free_pages low (
                  whole-Stands r g after right.2 ends pos low high same (ground arith)
                    (ground arith)))
          | inr f ↦
              let f' : ltb r.end (page_end g) ≡ true = ground arith in
              rw (c1, c2, c3, c4, e, f, f', a1)
                (splice-Protects _ (pm.free_pages - 1) low (
                  front-Stands r g after right.2 ends pos low high same (ground arith)
                    (ground arith)))
        ]
        | inr e ↦
            let e' : ltb g.start r.start ≡ true = ground arith in
            elim (Bool-cases (r.end == page_end g)) [
              | inl f ↦
                  rw (c1, c2, c3, c4, e, e', f, a1)
                    (splice-Protects _ (pm.free_pages - 1) low (
                      back-Stands r g after right.2 ends pos low high same (ground arith)
                        (ground arith)))
              | inr f ↦
                  let f' : ltb r.end (page_end g) ≡ true = ground arith in
                  rw (c1, c2, c3, c4, e, e', f, f', a1, a2)
                    (splice-Protects _ (pm.free_pages - 1 - 1) low (
                      middle-Stands r g after right.2 ends pos low high same (ground arith)
                        (ground arith)))
            ]
      ]

-- `update_mprotect` on a range inside one group of the compartment returns 0, sets the protection
-- of exactly that range in the map, and keeps the list in order. The list is in order, the pool has
-- two nodes, the range is not empty and does not wrap.
pub update_mprotect-within :
    (start size prot cid : ℕ) (pm : Manager) (g : VirtPage)
    → Ordered 0 pm.pages
    → 1 < pm.free_pages
    → 0 < size
    → start + size < 2 ^ 64
    → lookup_addr pm.pages start cid ≡ some g
    → g.cid ≡ cid
    → start + size ≤ page_end g
    → (pm' : Manager) × (update_mprotect start size prot cid pm ≡ succeed pm')
      × Ordered 0 pm'.pages
      × Overlaid start (start + size) (some (protect prot g)) pm.pages pm'.pages
unfolding update_mprotect update_found
update_mprotect-within start size prot cid pm g o stocked pos fits found same high =
    let e = ptr_add_exact start size fits in
    let end = ptr_add start size in
    let holds = lookup_addr-holds start cid pm.pages g found in
    let r : Request = record { start = start; size = size; end = end; prot = prot; cid = cid } in
    let (pm', run, order, view) =
      update_group-Protects 0 r g pm o (lookup_addr-Place start cid pm.pages g found) stocked refl
        pos (omega (arith, e)) holds.0 (omega (arith, e)) same in
    (pm', rw (found, update_found) run, order, rw (← e) view)
