-- ===== src/VirtPage/View.antt =====
-- What a page list promises: its groups are in order and apart, and it denotes a map from addresses
-- to attributes. The operations of the page manager are specified by their effect on that map.
pub mod Frame
use secpoline.Base.{
  ℕ, ◌+◌, ◌≤◌, ◌<◌, ◌^◌, ◌≡◌, refl, ◌∙◌, Bool, true, false, Option, none, some, List, [], ◌∷◌, ◌++◌,
  arith, if◌then◌else◌, leb, ltb, ◌&&◌, ptr_add-ptr_sub, ptr_add-lt,
}
use secpoline.VirtPage.{VirtPage, page_end, shorten, advance, virt_page_overlap_byte}

-- The groups stand in the order of their addresses, from `lo` on, without overlap; none is empty.
abbrev pub Ordered : ℕ → List VirtPage → Type 0
Ordered lo [] = Unit {0}
Ordered lo (g ∷ gs) = (lo ≤ g.start) × (g.start < page_end g) × Ordered (page_end g) gs

-- What the monitor knows of an address.
pub record Attr : Type 0 where
  pub prot : ℕ
  pub flags : ℕ
  pub cid : ℕ

abbrev pub attr : VirtPage → Attr
attr g = record { prot = g.prot; flags = g.flags; cid = g.cid }

-- The attributes of the first group that holds the address.
unfoldable pub view : List VirtPage → ℕ → Option Attr
view [] a = none
view (g ∷ gs) a = if virt_page_overlap_byte g a then some (attr g) else view gs a

abbrev pub in_range : ℕ → ℕ → ℕ → Bool
in_range lo hi a = leb lo a && ltb a hi

-- Where the groups of a list end, if they begin at `lo` or above.
unfoldable pub top : ℕ → List VirtPage → ℕ
top lo [] = lo
top lo (g ∷ gs) = top (page_end g) gs

pub page_end-lt : (g : VirtPage) → page_end g < 2 ^ 64
unfolding page_end
page_end-lt g = ptr_add-lt g.start g.size

pub page_end-shorten :
    (g : VirtPage) (e : ℕ) → g.start < 2 ^ 64 → e < 2 ^ 64 → page_end (shorten g e) ≡ e
unfolding page_end shorten
page_end-shorten g e hs he = ptr_add-ptr_sub g.start e hs he

pub page_end-advance : (g : VirtPage) (e : ℕ) → e < 2 ^ 64 → page_end (advance g e) ≡ page_end g
unfolding advance
page_end-advance g e he = unfold page_end in ptr_add-ptr_sub e (page_end g) he (page_end-lt g)

pub top-le : (lo : ℕ) (gs : List VirtPage) → Ordered lo gs → lo ≤ top lo gs
unfolding top
top-le lo [] h = omega arith
top-le lo (g ∷ gs) h = omega (arith, top-le (page_end g) gs h.2)

pub Ordered-append :
    (lo : ℕ) (xs ys : List VirtPage)
    → Ordered lo xs
    → Ordered (top lo xs) ys
    → Ordered lo (xs ++ ys)
unfolding top
Ordered-append lo [] ys hx hy = hy
Ordered-append lo (x ∷ xs) ys hx hy = (hx.0, hx.1, Ordered-append (page_end x) xs ys hx.2 hy)

pub Ordered-left : (lo : ℕ) (xs ys : List VirtPage) → Ordered lo (xs ++ ys) → Ordered lo xs
Ordered-left lo [] ys h = tt
Ordered-left lo (x ∷ xs) ys h = (h.0, h.1, Ordered-left (page_end x) xs ys h.2)

pub Ordered-right :
    (lo : ℕ) (xs ys : List VirtPage) → Ordered lo (xs ++ ys) → Ordered (top lo xs) ys
unfolding top
Ordered-right lo [] ys h = h
Ordered-right lo (x ∷ xs) ys h = Ordered-right (page_end x) xs ys h.2

pub Ordered-lower : (lo hi : ℕ) (gs : List VirtPage) → lo ≤ hi → Ordered hi gs → Ordered lo gs
Ordered-lower lo hi [] h o = tt
Ordered-lower lo hi (g ∷ gs) h o = (omega arith, o.1, o.2)

-- Nothing is tracked below the first group, nor above the last.
pub view_below : (lo a : ℕ) (gs : List VirtPage) → Ordered lo gs → a < lo → view gs a ≡ none
unfolding view virt_page_overlap_byte
view_below lo a [] h lt = refl
view_below lo a (g ∷ gs) h lt = ground (arith, view_below (page_end g) a gs h.2)

pub view_above : (lo a : ℕ) (gs : List VirtPage) → Ordered lo gs → top lo gs ≤ a → view gs a ≡ none
unfolding view top virt_page_overlap_byte
view_above lo a [] h le = refl
view_above lo a (g ∷ gs) h le =
    ground (arith, view_above (page_end g) a gs h.2, top-le (page_end g) gs h.2)

abbrev pub or_else {ℓ} : {A : Type ℓ} → Option A → Option A → Option A
or_else none y = y
or_else (some x) y = some x

pub view-append :
    (xs ys : List VirtPage) (a : ℕ) → view (xs ++ ys) a ≡ or_else (view xs a) (view ys a)
unfolding view
view-append [] ys a = refl
view-append (x ∷ xs) ys a = ground (arith, view-append xs ys a)

-- One group of the list at a time.
pub view_hit :
    (g : VirtPage) (gs : List VirtPage) (a : ℕ)
    → g.start ≤ a
    → a < page_end g
    → view (g ∷ gs) a ≡ some (attr g)
unfolding view virt_page_overlap_byte
view_hit g gs a h lt = ground arith

pub view_skip :
    (g : VirtPage) (gs : List VirtPage) (a : ℕ) → page_end g ≤ a → view (g ∷ gs) a ≡ view gs a
unfolding view virt_page_overlap_byte
view_skip g gs a h = ground arith

pub view_nil : (a : ℕ) → view [] a ≡ none
unfolding view
view_nil a = refl

-- The map `old` with the range [lo, hi) set to `p`; with the range cleared where `p` is `none`.
abbrev pub overlay : ℕ → ℕ → Option Attr → (ℕ → Option Attr) → ℕ → Option Attr
overlay lo hi p old a = if in_range lo hi a then p else old a

-- No address of the range is tracked.
abbrev pub Untracked : ℕ → ℕ → List VirtPage → Type 0
Untracked lo hi gs = (a : ℕ) → lo ≤ a → a < hi → view gs a ≡ none

pub start-advance : (g : VirtPage) (e : ℕ) → (advance g e).start ≡ e
unfolding advance
start-advance g e = refl

pub start-shorten : (g : VirtPage) (e : ℕ) → (shorten g e).start ≡ g.start
unfolding shorten
start-shorten g e = refl

pub attr-advance : (g : VirtPage) (e : ℕ) → attr (advance g e) ≡ attr g
unfolding advance
attr-advance g e = refl

pub attr-shorten : (g : VirtPage) (e : ℕ) → attr (shorten g e) ≡ attr g
unfolding shorten
attr-shorten g e = refl

-- What is left of a group in front of `e`.
pub shorten_facts :
    (g : VirtPage) (e : ℕ)
    → g.start ≤ e
    → e ≤ page_end g
    → ((shorten g e).start ≡ g.start) × (page_end (shorten g e) ≡ e) × (attr (shorten g e) ≡ attr g)
shorten_facts g e lo hi = (
  start-shorten g e,
  page_end-shorten g e (omega (arith, page_end-lt g)) (omega (arith, page_end-lt g)),
  attr-shorten g e,
)

-- What is left of a group from `e` on.
pub advance_facts :
    (g : VirtPage) (e : ℕ)
    → e ≤ page_end g
    → ((advance g e).start ≡ e)
      × (page_end (advance g e) ≡ page_end g)
      × (attr (advance g e) ≡ attr g)
advance_facts g e hi =
    (start-advance g e, page_end-advance g e (omega (arith, page_end-lt g)), attr-advance g e)

pub view_cons :
    (g : VirtPage) (gs : List VirtPage) (a : ℕ)
    → view (g ∷ gs) a ≡ (if in_range g.start (page_end g) a then some (attr g) else view gs a)
unfolding view virt_page_overlap_byte
view_cons g gs a = refl
