-- ===== src/PageManager/State/Link.antt =====
-- The insertion of `add_page_locked`: a free range is linked in order, any other is refused.
use secpoline.Base.{
  ◌↔◌, Run, ℕ, ◌≤◌, ◌<◌, ◌≡◌, refl, inl, inr, Bool, true, false, ◌&&◌, Option, none, some, List, [],
  ◌∷◌, arith, ltb, leb, done, trap, Bool-cases,
}
use secpoline.VirtPage.{VirtPage, page_end, virt_page_overlap, virt_page_overlap_byte, overlaps}
use secpoline.VirtPage.View.{
  Ordered, attr, view, view_below, view_hit, view_skip, view_nil, overlay, Untracked,
}
use secpoline.PageManager.State.{refuse_unless, prepend, link_behind, link_page}

pub overlaps_iff :
    (g p : VirtPage)
    → overlaps (virt_page_overlap g p.start p.size)
      ≡ (ltb g.start (page_end p) && ltb p.start (page_end g))
unfolding virt_page_overlap page_end
overlaps_iff g p = ground arith

-- What an insertion that succeeds has done to the map.
abbrev pub Linked : VirtPage → ℕ → List VirtPage → Run (Option (List VirtPage)) → Type 0
Linked p lo old trap = Unit {0}
Linked p lo old (done none) = Unit {0}
Linked p lo old (done (some gs)) =
    Ordered lo gs
    × ((a : ℕ) → view gs a ≡ overlay p.start (page_end p) (some (attr p)) (view old) a)

-- One group at the front of a list of which the map is known behind it.
view_step :
    (g : VirtPage) (gs hs : List VirtPage) (p : VirtPage)
    → page_end g ≤ p.start
    → ((a : ℕ) → view hs a ≡ overlay p.start (page_end p) (some (attr p)) (view gs) a)
    → (a : ℕ) → view (g ∷ hs) a ≡ overlay p.start (page_end p) (some (attr p)) (view (g ∷ gs)) a
unfolding view virt_page_overlap_byte
view_step g gs hs p h e a = ground (arith, e a)

prepend-Linked :
    (p g : VirtPage) (lo : ℕ) (gs : List VirtPage) (r : Run (Option (List VirtPage)))
    → lo ≤ g.start
    → g.start < page_end g
    → page_end g ≤ p.start
    → Linked p (page_end g) gs r
    → Linked p lo (g ∷ gs) (prepend g r)
prepend-Linked p g lo gs trap h pos apart l = tt
prepend-Linked p g lo gs (done none) h pos apart l = tt
prepend-Linked p g lo gs (done (some hs)) h pos apart l =
    ((h, pos, l.0), view_step g gs hs p apart l.1)

view_front :
    (p : VirtPage) (gs : List VirtPage) (a : ℕ)
    → view (p ∷ gs) a ≡ overlay p.start (page_end p) (some (attr p)) (view gs) a
unfolding view virt_page_overlap_byte
view_front p gs a = ground arith

refuse-Linked :
    (p : VirtPage) (lo : ℕ) (old : List VirtPage) (m : Bool) → Linked p lo old (refuse_unless m)
refuse-Linked p lo old true = tt
refuse-Linked p lo old false = tt

-- The new group directly behind `g`, in front of groups that begin at its end or above.
between-Linked :
    (p g : VirtPage) (lo : ℕ) (gs : List VirtPage)
    → lo ≤ g.start
    → g.start < page_end g
    → p.start < page_end p
    → page_end g ≤ p.start
    → Ordered (page_end p) gs
    → Linked p lo (g ∷ gs) (done (some (g ∷ p ∷ gs)))
between-Linked p g lo gs h gpos pos apart o =
    ((h, gpos, (apart, pos, o)), view_step g gs (p ∷ gs) p apart (view_front p gs))

Ordered-raise :
    (lo hi : ℕ) (g : VirtPage) (gs : List VirtPage)
    → Ordered lo (g ∷ gs)
    → hi ≤ g.start
    → Ordered hi (g ∷ gs)
Ordered-raise lo hi g gs o h = (h, o.1, o.2)

link_behind-Linked :
    (p g : VirtPage) (m : Bool) (lo : ℕ) (gs : List VirtPage)
    → Ordered lo (g ∷ gs)
    → p.start < page_end p
    → g.start < page_end p
    → Linked p lo (g ∷ gs) (link_behind p m g gs)
unfolding link_behind
link_behind-Linked p g m lo [] o pos low =
    elim (Bool-cases (overlaps (virt_page_overlap g p.start p.size))) [
      | inl e ↦ rw e (refuse-Linked p lo (g ∷ []) m)
      | inr e ↦ rw e (between-Linked p g lo [] o.0 o.1 pos (ground (arith, overlaps_iff g p)) tt)
    ]
link_behind-Linked p g m lo (n ∷ gs) o pos low =
    elim (Bool-cases (overlaps (virt_page_overlap g p.start p.size))) [
      | inl e ↦ rw e tt
      | inr e ↦
          let apart : page_end g ≤ p.start = ground (arith, overlaps_iff g p) in
          elim (Bool-cases (leb n.start p.start)) [
            | inl f ↦
                rw (e, f)
                  (prepend-Linked p g lo (n ∷ gs) (link_behind p m n gs) o.0 o.1 apart
                    (link_behind-Linked p n m (page_end g) gs o.2 pos (ground arith)))
            | inr f ↦ elim (Bool-cases (ltb n.start (page_end p))) [
              | inl k ↦ rw (e, f, k) (refuse-Linked p lo (g ∷ n ∷ gs) m)
              | inr k ↦
                  rw (e, f, k)
                    (between-Linked p g lo (n ∷ gs) o.0 o.1 pos apart
                      (Ordered-raise (page_end g) (page_end p) n gs o.2 (ground arith)))
            ]
          ]
    ]

link_page-Linked :
    (p : VirtPage) (m : Bool) (lo : ℕ) (gs : List VirtPage)
    → Ordered lo gs
    → lo ≤ p.start
    → p.start < page_end p
    → Linked p lo gs (link_page p m gs)
unfolding link_page
link_page-Linked p m lo [] o h pos = ((h, pos, tt), view_front p [])
link_page-Linked p m lo (g ∷ gs) o h pos = elim (Bool-cases (leb (page_end p) g.start)) [
  | inl e ↦
      rw e ((h, pos, Ordered-raise lo (page_end p) g gs o (ground arith)), view_front p (g ∷ gs))
  | inr e ↦ rw e (link_behind-Linked p g m lo gs o pos (ground arith))
]

-- An insertion that succeeds keeps the list in order and sets the new range in the map, and
-- nothing else.
pub link_page-effect :
    (p : VirtPage) (m : Bool) (lo : ℕ) (gs hs : List VirtPage)
    → Ordered lo gs
    → lo ≤ p.start
    → p.start < page_end p
    → link_page p m gs ≡ done (some hs)
    → Ordered lo hs
      × ((a : ℕ) → view hs a ≡ overlay p.start (page_end p) (some (attr p)) (view gs) a)
link_page-effect p m lo gs hs o h pos e = rw e at (link_page-Linked p m lo gs o h pos)

abbrev pub is_linked : Run (Option (List VirtPage)) → Bool
is_linked trap = false
is_linked (done none) = false
is_linked (done (some gs)) = true

is_linked-prepend :
    (g : VirtPage) (r : Run (Option (List VirtPage))) → is_linked (prepend g r) ≡ is_linked r
is_linked-prepend g trap = refl
is_linked-prepend g (done none) = refl
is_linked-prepend g (done (some gs)) = refl

is_linked-refuse : (m : Bool) → is_linked (refuse_unless m) ≡ false
is_linked-refuse true = refl
is_linked-refuse false = refl

link_behind_sound :
    (p g : VirtPage) (m : Bool) (lo : ℕ) (gs : List VirtPage)
    → Ordered lo (g ∷ gs)
    → g.start < page_end p
    → is_linked (link_behind p m g gs) ≡ true
    → Untracked p.start (page_end p) (g ∷ gs)
unfolding link_behind
link_behind_sound p g m lo [] o low h a le lt =
    ground (arith, overlaps_iff g p, is_linked-refuse m, view_skip g [] a, view_nil a)
link_behind_sound p g m lo (n ∷ gs) o low h a le lt = ground (
  arith,
  overlaps_iff g p,
  is_linked-refuse m,
  is_linked-prepend g (link_behind p m n gs),
  view_skip g (n ∷ gs) a,
  view_below n.start a (n ∷ gs) (ground arith, o.2.1, o.2.2),
  λ (e : n.start < page_end p) (f : is_linked (link_behind p m n gs) ≡ true).
      link_behind_sound p n m (page_end g) gs o.2 e f a le lt,
)

link_behind_complete :
    (p g : VirtPage) (m : Bool) (lo : ℕ) (gs : List VirtPage)
    → Ordered lo (g ∷ gs)
    → p.start < page_end p
    → g.start < page_end p
    → Untracked p.start (page_end p) (g ∷ gs)
    → is_linked (link_behind p m g gs) ≡ true
unfolding link_behind
link_behind_complete p g m lo [] o pos low h =
    ground
      (arith, overlaps_iff g p, h p.start, h g.start, view_hit g [] p.start, view_hit g [] g.start)
link_behind_complete p g m lo (n ∷ gs) o pos low h = ground (
  arith,
  overlaps_iff g p,
  is_linked-prepend g (link_behind p m n gs),
  h p.start,
  h g.start,
  h n.start,
  view_hit g (n ∷ gs) p.start,
  view_hit g (n ∷ gs) g.start,
  view_skip g (n ∷ gs) n.start,
  view_hit n gs n.start,
  λ (apart : page_end g ≤ p.start) (e : n.start < page_end p).
      link_behind_complete p n m (page_end g) gs o.2 pos e
        (λ a le lt. rw (← view_skip g (n ∷ gs) a (omega arith)) (h a le lt)),
)

link_page_sound :
    (p : VirtPage) (m : Bool) (lo : ℕ) (gs : List VirtPage)
    → Ordered lo gs
    → is_linked (link_page p m gs) ≡ true
    → Untracked p.start (page_end p) gs
unfolding link_page
link_page_sound p m lo [] o h a le lt = view_nil a
link_page_sound p m lo (g ∷ gs) o h a le lt = ground (
  arith,
  view_below g.start a (g ∷ gs) (omega arith, o.1, o.2),
  λ (e : g.start < page_end p) (f : is_linked (link_behind p m g gs) ≡ true).
      link_behind_sound p g m lo gs o e f a le lt,
)

link_page_complete :
    (p : VirtPage) (m : Bool) (lo : ℕ) (gs : List VirtPage)
    → Ordered lo gs
    → p.start < page_end p
    → Untracked p.start (page_end p) gs
    → is_linked (link_page p m gs) ≡ true
unfolding link_page
link_page_complete p m lo [] o pos h = refl
link_page_complete p m lo (g ∷ gs) o pos h =
    ground (arith, λ (e : g.start < page_end p). link_behind_complete p g m lo gs o pos e h)

-- On an ordered list, the insertion of a group that is not empty and does not wrap goes through
-- exactly when no address of its range is tracked.
pub link_page_iff :
    (p : VirtPage) (m : Bool) (lo : ℕ) (gs : List VirtPage)
    → Ordered lo gs
    → p.start < page_end p
    → (is_linked (link_page p m gs) ≡ true) ↔ Untracked p.start (page_end p) gs
link_page_iff p m lo gs o pos = (link_page_sound p m lo gs o, link_page_complete p m lo gs o pos)
