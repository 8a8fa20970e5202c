-- ===== src/PageManager/Lookup/Range.antt =====
-- `lookup_range` and `lookup_range_allow_gaps` decide who owns a range.
use secpoline.Base.{
  ◌↔◌, ℕ, ◌+◌, ◌≤◌, ◌<◌, ◌^◌, ◌≡◌, refl, Bool, true, false, Option, none, some, List, [], ◌∷◌,
  arith, ◌==◌, done, ptr_add, ptr_add_exact,
}
use secpoline.VirtPage.{VirtPage, page_end, virt_page_overlap_byte}
use secpoline.VirtPage.View.{Ordered, Attr, view, view_below, view_hit, view_skip, view_nil}
use secpoline.PageManager.State.{Status, success, failure, blocked}
use secpoline.PageManager.Lookup.{
  range_covered, range_from, find_range, lookup_range, allow_gaps, lookup_range_allow_gaps,
}

-- The address is tracked, for this compartment.
abbrev pub has_cid : ℕ → Option Attr → Bool
has_cid cid none = false
has_cid cid (some p) = p.cid == cid

abbrev pub is_found : Option VirtPage → Bool
is_found none = false
is_found (some g) = true

range_covered_sound :
    (lo end cid a : ℕ) (g : VirtPage) (gs : List VirtPage)
    → Ordered lo (g ∷ gs)
    → range_covered end cid g gs ≡ true
    → g.start ≤ a
    → a < end
    → has_cid cid (view (g ∷ gs) a) ≡ true
unfolding range_covered view virt_page_overlap_byte
range_covered_sound lo end cid a g [] o h le lt = ground arith
range_covered_sound lo end cid a g (x ∷ gs) o h le lt =
    ground (arith, range_covered_sound (page_end g) end cid a x gs o.2)

range_covered_complete :
    (lo end cid : ℕ) (g : VirtPage) (gs : List VirtPage)
    → Ordered lo (g ∷ gs)
    → g.start < end
    → ((a : ℕ) → g.start ≤ a → a < end → has_cid cid (view (g ∷ gs) a) ≡ true)
    → range_covered end cid g gs ≡ true
unfolding range_covered
range_covered_complete lo end cid g [] o lt h = ground (
  arith,
  h g.start,
  h (page_end g),
  view_hit g [] g.start,
  view_skip g [] (page_end g),
  view_below (page_end g) (page_end g) [],
  view_nil (page_end g),
)
range_covered_complete lo end cid g (x ∷ gs) o lt h = ground (
  arith,
  h g.start,
  h (page_end g),
  view_hit g (x ∷ gs) g.start,
  view_skip g (x ∷ gs) (page_end g),
  view_below x.start (page_end g) (x ∷ gs),
  λ (e : x.start < end).
      range_covered_complete (page_end g) end cid x gs o.2 e
        (λ a le below. rw (← view_skip g (x ∷ gs) a (omega arith)) (h a (omega arith) below)),
)

range_from_sound :
    (lo end cid a : ℕ) (g : VirtPage) (gs : List VirtPage)
    → Ordered lo (g ∷ gs)
    → is_found (range_from end cid g gs) ≡ true
    → g.start ≤ a
    → a < end
    → has_cid cid (view (g ∷ gs) a) ≡ true
unfolding range_from
range_from_sound lo end cid a g gs o h le lt =
    ground (arith, view_hit g gs a, range_covered_sound lo end cid a g gs o)

range_from_complete :
    (lo end cid start : ℕ) (g : VirtPage) (gs : List VirtPage)
    → Ordered lo (g ∷ gs)
    → g.start ≤ start
    → start < page_end g
    → start < end
    → ((a : ℕ) → start ≤ a → a < end → has_cid cid (view (g ∷ gs) a) ≡ true)
    → is_found (range_from end cid g gs) ≡ true
unfolding range_from
range_from_complete lo end cid start g gs o le inside lt h = ground (
  arith,
  h start,
  view_hit g gs start,
  range_covered_complete lo end cid g gs o (omega arith)
      (λ a low below. ground (arith, h start, h a, view_hit g gs start, view_hit g gs a)),
)

-- The whole range is tracked for `cid`.
abbrev pub Owned : ℕ → ℕ → ℕ → List VirtPage → Type 0
Owned start end cid gs = (a : ℕ) → start ≤ a → a < end → has_cid cid (view gs a) ≡ true

find_range_low :
    (lo start end cid : ℕ) (gs : List VirtPage)
    → Ordered lo gs
    → start < lo
    → find_range start end cid gs ≡ none
unfolding find_range virt_page_overlap_byte
find_range_low lo start end cid [] o lt = refl
find_range_low lo start end cid (g ∷ gs) o lt =
    ground (arith, find_range_low (page_end g) start end cid gs o.2)

find_range_sound :
    (lo start end cid : ℕ) (gs : List VirtPage)
    → Ordered lo gs
    → is_found (find_range start end cid gs) ≡ true
    → Owned start end cid gs
unfolding find_range virt_page_overlap_byte
find_range_sound lo start end cid [] o h a le lt = ground arith
find_range_sound lo start end cid (g ∷ gs) o h a le lt = ground (
  arith,
  range_from_sound lo end cid a g gs o,
  view_skip g gs a,
  λ (e : is_found (find_range start end cid gs) ≡ true).
      find_range_sound (page_end g) start end cid gs o.2 e a le lt,
  find_range_low (page_end g) start end cid gs o.2,
)

find_range_complete :
    (lo start end cid : ℕ) (gs : List VirtPage)
    → Ordered lo gs
    → start < end
    → Owned start end cid gs
    → is_found (find_range start end cid gs) ≡ true
unfolding find_range virt_page_overlap_byte
find_range_complete lo start end cid [] o lt h = ground (arith, h start, view_nil start)
find_range_complete lo start end cid (g ∷ gs) o lt h = ground (
  arith,
  h start,
  view_below g.start start (g ∷ gs),
  λ (low : g.start ≤ start) (inside : start < page_end g).
      range_from_complete lo end cid start g gs o low inside lt h,
  λ (e : page_end g ≤ start).
      find_range_complete (page_end g) start end cid gs o.2 lt
        (λ a le below. rw (← view_skip g gs a (omega arith)) (h a le below)),
)

-- `lookup_range` on an ordered list that is not empty returns, and it finds a group exactly when
-- every address of the range is tracked for the compartment. The range is not empty and does not
-- wrap.
pub lookup_range_iff :
    (lo start size cid : ℕ) (g : VirtPage) (gs : List VirtPage)
    → Ordered lo (g ∷ gs)
    → 0 < size
    → start + size < 2 ^ 64
    → (r : Option VirtPage) × (lookup_range (g ∷ gs) start size cid ≡ done r)
      × ((is_found r ≡ true) ↔ Owned start (start + size) cid (g ∷ gs))
unfolding lookup_range
lookup_range_iff lo start size cid g gs o pos fits =
    let end = ptr_add start size in
    let e : end ≡ start + size = ptr_add_exact start size fits in
    (
      find_range start end cid (g ∷ gs),
      refl,
      (
        λ h. rw (← e) (find_range_sound lo start end cid (g ∷ gs) o h),
        λ h. find_range_complete lo start end cid (g ∷ gs) o (omega (arith, e)) (rw e h),
      ),
    )

-- No group that meets the range belongs to another compartment.
abbrev pub no_other : ℕ → Option Attr → Bool
no_other cid none = true
no_other cid (some p) = p.cid == cid

abbrev pub is_success : Status → Bool
is_success success = true
is_success failure = false
is_success blocked = false

allow_gaps_sound :
    (lo start end cid a : ℕ) (gs : List VirtPage)
    → Ordered lo gs
    → allow_gaps start end cid gs ≡ success
    → start ≤ a
    → a < end
    → no_other cid (view gs a) ≡ true
unfolding allow_gaps view virt_page_overlap_byte
allow_gaps_sound lo start end cid a [] o h le lt = refl
allow_gaps_sound lo start end cid a (g ∷ gs) o h le lt =
    ground (arith, allow_gaps_sound (page_end g) start end cid a gs o.2)

allow_gaps_complete :
    (lo start end cid : ℕ) (gs : List VirtPage)
    → Ordered lo gs
    → start < end
    → ((a : ℕ) → start ≤ a → a < end → no_other cid (view gs a) ≡ true)
    → allow_gaps start end cid gs ≡ success
unfolding allow_gaps
allow_gaps_complete lo start end cid [] o lt h = refl
allow_gaps_complete lo start end cid (g ∷ gs) o lt h = ground (
  arith,
  h start,
  h g.start,
  view_hit g gs start,
  view_hit g gs g.start,
  allow_gaps_complete (page_end g) start end cid gs o.2 lt (λ a le below. tail a le below),
)
  where
    tail : (a : ℕ) → start ≤ a → a < end → no_other cid (view gs a) ≡ true
    tail a le below =
        ground (arith, h a le below, view_skip g gs a, view_below (page_end g) a gs o.2)

-- `lookup_range_allow_gaps` succeeds exactly when no address of the range is tracked for another
-- compartment. The range is not empty and does not wrap.
pub lookup_range_allow_gaps_iff :
    (lo start size cid : ℕ) (gs : List VirtPage)
    → Ordered lo gs
    → 0 < size
    → start + size < 2 ^ 64
    → (lookup_range_allow_gaps gs start size cid ≡ success)
      ↔ ((a : ℕ) → start ≤ a → a < start + size → no_other cid (view gs a) ≡ true)
unfolding lookup_range_allow_gaps
lookup_range_allow_gaps_iff lo start size cid gs o pos fits =
    let end = ptr_add start size in
    let e : end ≡ start + size = ptr_add_exact start size fits in
    (
      λ h a le lt. allow_gaps_sound lo start end cid a gs o h le (omega (arith, e)),
      λ h. allow_gaps_complete lo start end cid gs o (omega (arith, e)) (rw e h),
    )
