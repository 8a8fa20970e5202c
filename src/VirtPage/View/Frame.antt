-- ===== src/VirtPage/View/Frame.antt =====
-- Changing the map in a range by changing only the groups behind some prefix of the list.
use secpoline.Base.{ℕ, ◌≤◌, ◌≡◌, refl, Option, List, [], ◌∷◌, ◌++◌, arith}
use secpoline.VirtPage.{VirtPage, page_end, virt_page_overlap_byte}
use secpoline.VirtPage.View.{Ordered, Attr, view, top, top-le, overlay, view-append, view_above}

-- The list denotes the map `old`, with the range [s, e) set to `p`.
abbrev pub Overlaid : ℕ → ℕ → Option Attr → List VirtPage → List VirtPage → Type 0
Overlaid s e p old new = (a : ℕ) → view new a ≡ overlay s e p (view old) a

pub overlay_step :
    (s e : ℕ) (p : Option Attr) (g : VirtPage) (gs hs : List VirtPage)
    → page_end g ≤ s
    → Overlaid s e p gs hs
    → Overlaid s e p (g ∷ gs) (g ∷ hs)
unfolding view virt_page_overlap_byte
overlay_step s e p g gs hs h o a = ground (arith, o a)

-- A prefix that ends below the range is kept as it is.
pub overlay_behind :
    (lo s e : ℕ) (p : Option Attr) (xs gs hs : List VirtPage)
    → Ordered lo xs
    → top lo xs ≤ s
    → Overlaid s e p gs hs
    → Overlaid s e p (xs ++ gs) (xs ++ hs)
unfolding top
overlay_behind lo s e p [] gs hs o h v = v
overlay_behind lo s e p (x ∷ xs) gs hs o h v =
    overlay_step s e p x (xs ++ gs) (xs ++ hs) (omega (arith, top-le (page_end x) xs o.2))
      (overlay_behind (page_end x) s e p xs gs hs o.2 h v)

-- Groups that end at or below an address do not count for it.
pub view_past :
    (lo : ℕ) (xs ys : List VirtPage) (a : ℕ)
    → Ordered lo xs
    → top lo xs ≤ a
    → view (xs ++ ys) a ≡ view ys a
view_past lo xs ys a o h = rw (view-append xs ys a, view_above lo a xs o h) refl
