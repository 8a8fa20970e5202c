-- ===== src/PageManager/Splice.antt =====
-- Replacing one node of the list, which every update of a group comes down to.
use secpoline.Base.{ℕ, ◌≤◌, refl, Option, List, ◌∷◌, ◌++◌, arith}
use secpoline.VirtPage.{VirtPage}
use secpoline.VirtPage.View.{
  Ordered, Ordered-append, Ordered-left, Ordered-right, Ordered-lower, Attr, top,
}
use secpoline.VirtPage.View.Frame.{Overlaid, overlay_behind}
use secpoline.PageManager.State.{splice}
use secpoline.PageManager.State.Nodes.{splice_lem}
use secpoline.PageManager.Lookup.Place.{Place}

-- A local change of the map at one group is the change of the whole map.
pub splice_effect :
    (lo s e : ℕ) (p : Option Attr) (gs : List VirtPage) (g : VirtPage) (nodes : List VirtPage)
    → Ordered lo gs
    → (place : Place gs g) → g.start ≤ s
    → Ordered g.start (nodes ++ place.after)
    → Overlaid s e p (g ∷ place.after) (nodes ++ place.after)
    → Ordered lo (splice g.start nodes gs) × Overlaid s e p gs (splice g.start nodes gs)
splice_effect lo s e p gs g nodes o place low order view =
    let o' : Ordered lo (place.before ++ g ∷ place.after) = rw place.whole at o in
    let left = Ordered-left lo place.before (g ∷ place.after) o' in
    let right = Ordered-right lo place.before (g ∷ place.after) o' in
    let put = splice_lem lo g.start place.before g nodes place.after left right.0 refl in
    rw (place.whole, put)
      (
        Ordered-append lo place.before (nodes ++ place.after) left
            (Ordered-lower (top lo place.before) g.start (nodes ++ place.after) right.0 order),
        overlay_behind lo s e p place.before (g ∷ place.after) (nodes ++ place.after) left
            (omega (arith, right.0)) view,
      )

-- The groups behind a place begin at the end of its group.
pub Place-Ordered :
    (lo : ℕ) (gs : List VirtPage) (g : VirtPage)
    → Ordered lo gs
    → (place : Place gs g) → Ordered (top lo place.before) (g ∷ place.after)
Place-Ordered lo gs g o place =
    Ordered-right lo place.before (g ∷ place.after) (rw place.whole at o)
