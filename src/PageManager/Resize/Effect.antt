-- ===== src/PageManager/Resize/Effect.antt =====
-- What `update_size` changes in the map.
use secpoline.Base.{
  Run, ℕ, ◌+◌, ◌-◌, ◌≤◌, ◌<◌, ◌^◌, ◌≡◌, refl, true, false, inl, inr, Option, none, some, List, [],
  ◌∷◌, ◌++◌, arith, ltb, ◌==◌, Bool-cases, ptr_add, ptr_sub, ptr_add_exact, ptr_add-ptr_sub,
}
use secpoline.VirtPage.{VirtPage, page_end, shorten}
use secpoline.VirtPage.View.{
  Ordered, Ordered-left, Ordered-right, Ordered-lower, Untracked, attr, view_cons, view_below,
  top-le, page_end-lt, shorten_facts,
}
use secpoline.VirtPage.View.Frame.{Overlaid, view_past}
use secpoline.PageManager.State.{Manager, Status, succeed, splice}
use secpoline.PageManager.State.Pool.{virt_page_alloc_stocked}
use secpoline.PageManager.Splice.{splice_effect, Place-Ordered}
use secpoline.PageManager.Lookup.{lookup_addr}
use secpoline.PageManager.Lookup.Addr.{lookup_addr-holds}
use secpoline.PageManager.Lookup.Place.{lookup_addr-Place}
use secpoline.PageManager.Resize.{next_of, reaches, grow, shrink, resize_found, update_size}

head_of : List VirtPage → Option VirtPage
head_of [] = none
head_of (g ∷ gs) = some g

-- `next_of` finds the node behind a place.
next_of_lem :
    (lo : ℕ) (xs : List VirtPage) (g : VirtPage) (ys : List VirtPage)
    → Ordered lo (xs ++ g ∷ ys)
    → next_of g.start (xs ++ g ∷ ys) ≡ head_of ys
unfolding next_of head_of
next_of_lem lo [] g [] o = refl
next_of_lem lo [] g (y ∷ ys) o = ground arith
next_of_lem lo (x ∷ []) g ys o = ground (arith, next_of_lem (page_end x) [] g ys o.2)
next_of_lem lo (x ∷ z ∷ xs) g ys o = ground (
  arith,
  next_of_lem (page_end x) (z ∷ xs) g ys o.2,
  top-le (page_end x) (z ∷ xs) (Ordered-left (page_end x) (z ∷ xs) (g ∷ ys) o.2),
  (Ordered-right (page_end x) (z ∷ xs) (g ∷ ys) o.2).0,
)

module _ (g : VirtPage) (start old_size new_size : ℕ) (low : g.start ≤ start) where
  end_grown :
      old_size ≤ new_size
      → start + new_size < 2 ^ 64
      → page_end g ≡ start + old_size
      → page_end (record g { size = ptr_add g.size (ptr_sub new_size old_size) }) ≡ start + new_size
  unfolding page_end ptr_add ptr_sub
  end_grown le fits e = omega arith

  end_shrunk :
      new_size ≤ old_size
      → start + old_size < 2 ^ 64
      → page_end g ≡ start + old_size
      → page_end (record g { size = ptr_sub g.size (ptr_sub old_size new_size) }) ≡ start + new_size
  unfolding page_end ptr_add ptr_sub
  end_shrunk le fits e = omega arith

-- A free range behind a group is not reached by the next group.
next_free :
    (lo e : ℕ) (xs : List VirtPage) (g : VirtPage) (ys : List VirtPage)
    → Ordered lo (xs ++ g ∷ ys)
    → Untracked (page_end g) e (xs ++ g ∷ ys)
    → reaches e (head_of ys) ≡ false
unfolding head_of
next_free lo e xs g [] o free = refl
next_free lo e xs g (h ∷ ys) o free =
    let left = Ordered-left lo xs (g ∷ h ∷ ys) o in
    let right = Ordered-right lo xs (g ∷ h ∷ ys) o in
    ground (
      arith,
      right.0,
      right.1,
      right.2.0,
      right.2.1,
      free h.start,
      view_past lo xs (g ∷ h ∷ ys) h.start left,
      view_cons g (h ∷ ys) h.start,
      view_cons h ys h.start,
    )

reach_Ordered :
    (t e : ℕ) (ys : List VirtPage) → Ordered t ys → reaches e (head_of ys) ≡ false → Ordered e ys
unfolding head_of
reach_Ordered t e [] o h = tt
reach_Ordered t e (y ∷ ys) o h = (ground arith, o.1, o.2)

grow_run :
    (start old_size new_size cid : ℕ) (pm : Manager) (g : VirtPage)
    → lookup_addr pm.pages start cid ≡ some g
    → old_size < new_size
    → start + new_size < 2 ^ 64
    → page_end g ≡ start + old_size
    → reaches (start + new_size) (next_of g.start pm.pages) ≡ false
    → update_size start old_size new_size cid pm
      ≡ succeed (record pm {
        pages =
            splice g.start
              (record g { size = ptr_add g.size (ptr_sub new_size old_size) } ∷ [])
              pm.pages;
      })
unfolding update_size resize_found grow
grow_run start old_size new_size cid pm g found lt fits ends last =
    let a = ptr_add_exact start old_size (omega arith) in
    let b = ptr_add_exact start new_size fits in
    let c1 : (old_size == new_size) ≡ false = ground arith in
    let c2 : ltb (page_end g) (start + old_size) ≡ false = ground arith in
    let c3 : ltb old_size new_size ≡ true = ground arith in
    let c4 : (page_end g == start + old_size) ≡ true = ground arith in
    rw (found, resize_found, a, b, c1, c2, c3, c4, last)

-- `update_size` that grows: when the old range ends where its group ends, and the new part is
-- untracked, it returns 0, gives the new part the group's attributes and changes nothing else in
-- the map. The list stays in order; the new range does not wrap.
pub update_size-grow :
    (start old_size new_size cid : ℕ) (pm : Manager) (g : VirtPage)
    → Ordered 0 pm.pages
    → lookup_addr pm.pages start cid ≡ some g
    → old_size < new_size
    → start + new_size < 2 ^ 64
    → page_end g ≡ start + old_size
    → Untracked (start + old_size) (start + new_size) pm.pages
    → (pm' : Manager) × (update_size start old_size new_size cid pm ≡ succeed pm')
      × Ordered 0 pm'.pages
      × Overlaid (start + old_size) (start + new_size) (some (attr g)) pm.pages pm'.pages
unfolding update_size
update_size-grow start old_size new_size cid pm g o found lt fits ends free =
    let place = lookup_addr-Place start cid pm.pages g found in
    let holds = lookup_addr-holds start cid pm.pages g found in
    let right = Place-Ordered 0 pm.pages g o place in
    let whole : Ordered 0 (place.before ++ g ∷ place.after) = rw place.whole at o in
    let open_end =
      next_free 0 (start + new_size) place.before g place.after whole
        (rw (← place.whole) (rw ends free)) in
    let n = record g { size = ptr_add g.size (ptr_sub new_size old_size) } in
    let k : page_end n ≡ start + new_size =
      end_grown g start old_size new_size holds.0 (omega arith) fits ends in
    let effect =
      splice_effect 0 (start + old_size) (start + new_size) (some (attr g)) pm.pages g (n ∷ []) o
        place (omega (arith, ends, right.1))
        (
          omega arith,
          omega (arith, k, holds.0, holds.1, ends),
          rw k (reach_Ordered (page_end g) (start + new_size) place.after right.2 open_end),
        )
        (λ a. ground (
          arith,
          k,
          ends,
          right.1,
          view_cons n place.after a,
          view_cons g place.after a,
          view_below (start + new_size) a place.after
              (reach_Ordered (page_end g) (start + new_size) place.after right.2 open_end),
        )) in
    (
      record pm { pages = splice g.start (n ∷ []) pm.pages },
      grow_run start old_size new_size cid pm g found lt fits ends
          (rw place.whole (rw (next_of_lem 0 place.before g place.after whole) open_end)),
      effect.0,
      effect.1,
    )

shrink_end_run :
    (start old_size new_size cid : ℕ) (pm : Manager) (g : VirtPage)
    → lookup_addr pm.pages start cid ≡ some g
    → new_size < old_size
    → start + old_size < 2 ^ 64
    → page_end g ≡ start + old_size
    → update_size start old_size new_size cid pm
      ≡ succeed (record pm {
        pages =
            splice g.start
              (record g { size = ptr_sub g.size (ptr_sub old_size new_size) } ∷ [])
              pm.pages;
      })
unfolding update_size resize_found shrink
shrink_end_run start old_size new_size cid pm g found lt fits ends =
    let a = ptr_add_exact start old_size fits in
    let c1 : (old_size == new_size) ≡ false = ground arith in
    let c2 : ltb (page_end g) (start + old_size) ≡ false = ground arith in
    let c3 : ltb old_size new_size ≡ false = ground arith in
    let c4 : (start + old_size == page_end g) ≡ true = ground arith in
    rw (found, resize_found, a, c1, c2, c3, c4)

-- The part of `g` behind a range that has left its middle.
abbrev tail_of : VirtPage → ℕ → ℕ → VirtPage
tail_of g e cid = record {
  start = e;
  size = ptr_sub (page_end g) e;
  prot = g.prot;
  flags = g.flags;
  cid = cid;
}

end_tail : (g : VirtPage) (e cid : ℕ) → e < 2 ^ 64 → page_end (tail_of g e cid) ≡ page_end g
end_tail g e cid fits = unfold page_end in ptr_add-ptr_sub e (page_end g) fits (page_end-lt g)

shrink_middle_run :
    (start old_size new_size cid : ℕ) (pm : Manager) (g : VirtPage)
    → lookup_addr pm.pages start cid ≡ some g
    → new_size < old_size
    → start + old_size < 2 ^ 64
    → start + old_size < page_end g
    → 0 < pm.free_pages
    → update_size start old_size new_size cid pm
      ≡ succeed (record {
        pages =
            splice g.start
              (shorten g (start + new_size) ∷ tail_of g (start + old_size) cid ∷ [])
              pm.pages;
        free_pages = pm.free_pages - 1;
        grants = pm.grants;
      })
unfolding update_size resize_found shrink
shrink_middle_run start old_size new_size cid pm g found lt fits inside stocked =
    let a = ptr_add_exact start old_size fits in
    let b = ptr_add_exact start new_size (omega arith) in
    let c1 : (old_size == new_size) ≡ false = ground arith in
    let c2 : ltb (page_end g) (start + old_size) ≡ false = ground arith in
    let c3 : ltb old_size new_size ≡ false = ground arith in
    let c4 : (start + old_size == page_end g) ≡ false = ground arith in
    rw (found, resize_found, a, b, c1, c2, c3, c4, virt_page_alloc_stocked pm stocked)

-- The call returns 0, the range [lo, hi) has left the map, and the list is in order.
abbrev pub GivesUp : ℕ → ℕ → Manager → Run (Manager × Status) → Type 0
GivesUp lo hi pm result =
    (pm' : Manager) × (result ≡ succeed pm')
    × Ordered 0 pm'.pages
    × Overlaid lo hi none pm.pages pm'.pages

module _ (start old_size new_size cid : ℕ) (pm : Manager) (g : VirtPage) (o : Ordered 0 pm.pages)
    (found : lookup_addr pm.pages start cid ≡ some g) (pos : 0 < new_size)
    (lt : new_size < old_size) (fits : start + old_size < 2 ^ 64) where
  shrink_end :
      page_end g ≡ start + old_size
      → GivesUp
          (start + new_size)
          (start + old_size)
          pm
          (update_size start old_size new_size cid pm)
  shrink_end ends =
      let place = lookup_addr-Place start cid pm.pages g found in
      let holds = lookup_addr-holds start cid pm.pages g found in
      let right = Place-Ordered 0 pm.pages g o place in
      let n = record g { size = ptr_sub g.size (ptr_sub old_size new_size) } in
      let k : page_end n ≡ start + new_size =
        end_shrunk g start old_size new_size holds.0 (omega arith) fits ends in
      let behind : Ordered (start + new_size) place.after =
        Ordered-lower (start + new_size) (page_end g) place.after (omega (arith, ends)) right.2 in
      let effect =
        splice_effect 0 (start + new_size) (start + old_size) none pm.pages g (n ∷ []) o place
          (omega (arith, holds)) (omega arith, omega (arith, k, holds), rw k behind)
          (λ a. ground (
            arith,
            k,
            ends,
            holds.0,
            view_cons n place.after a,
            view_cons g place.after a,
            view_below (page_end g) a place.after right.2,
          )) in
      (
        record pm { pages = splice g.start (n ∷ []) pm.pages },
        shrink_end_run start old_size new_size cid pm g found lt fits ends,
        effect.0,
        effect.1,
      )

  shrink_middle :
      g.cid ≡ cid
      → 0 < pm.free_pages
      → start + old_size < page_end g
      → GivesUp
          (start + new_size)
          (start + old_size)
          pm
          (update_size start old_size new_size cid pm)
  shrink_middle same stocked inside =
      let place = lookup_addr-Place start cid pm.pages g found in
      let holds = lookup_addr-holds start cid pm.pages g found in
      let right = Place-Ordered 0 pm.pages g o place in
      let n = shorten g (start + new_size) in
      let m = tail_of g (start + old_size) cid in
      let k = shorten_facts g (start + new_size) (omega (arith, holds)) (omega arith) in
      let l : page_end m ≡ page_end g = end_tail g (start + old_size) cid fits in
      let effect =
        splice_effect 0 (start + new_size) (start + old_size) none pm.pages g (n ∷ m ∷ []) o place
          (omega (arith, holds))
          (
            omega (arith, k),
            ground (arith, k, holds),
            (omega (arith, k), omega (arith, l), rw l right.2),
          )
          (λ a. ground (
            arith,
            k,
            l,
            same,
            holds.0,
            view_cons n (m ∷ place.after) a,
            view_cons m place.after a,
            view_cons g place.after a,
            view_below (page_end g) a place.after right.2,
          )) in
      (
        record {
          pages = splice g.start (n ∷ m ∷ []) pm.pages;
          free_pages = pm.free_pages - 1;
          grants = pm.grants;
        },
        shrink_middle_run start old_size new_size cid pm g found lt fits inside stocked,
        effect.0,
        effect.1,
      )

-- `update_size` that shrinks, to a size that is not zero, a range inside one group of the
-- compartment: it returns 0, takes exactly the given-up part out of the map, and keeps the list in
-- order. The old range does not wrap and the pool has a node.
pub update_size-shrink :
    (start old_size new_size cid : ℕ) (pm : Manager) (g : VirtPage)
    → Ordered 0 pm.pages
    → 0 < pm.free_pages
    → lookup_addr pm.pages start cid ≡ some g
    → g.cid ≡ cid
    → 0 < new_size
    → new_size < old_size
    → start + old_size < 2 ^ 64
    → start + old_size ≤ page_end g
    → GivesUp (start + new_size) (start + old_size) pm (update_size start old_size new_size cid pm)
update_size-shrink start old_size new_size cid pm g o stocked found same pos lt fits inside =
    elim (Bool-cases (start + old_size == page_end g)) [
      | inl e ↦ shrink_end start old_size new_size cid pm g o found pos lt fits (ground arith)
      | inr e ↦
          shrink_middle start old_size new_size cid pm g o found pos lt fits same stocked
            (ground arith)
    ]
