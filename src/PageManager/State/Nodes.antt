-- ===== src/PageManager/State/Nodes.antt =====
-- Nodes of an ordered list are told apart by where they start.
use secpoline.Base.{ℕ, ◌≤◌, ◌≡◌, List, [], ◌∷◌, ◌++◌, arith}
use secpoline.VirtPage.{VirtPage, page_end}
use secpoline.VirtPage.View.{Ordered, top, top-le}
use secpoline.PageManager.State.{insert_after, splice}

-- The new group is linked behind the node that was shortened: no node before it starts there.
pub insert_after_lem :
    (lo s : ℕ) (xs : List VirtPage) (g n : VirtPage) (ys : List VirtPage)
    → Ordered lo xs
    → top lo xs ≤ s
    → g.start ≡ s
    → insert_after s n (xs ++ g ∷ ys) ≡ xs ++ (g ∷ n ∷ ys)
unfolding insert_after top
insert_after_lem lo s [] g n ys o h e = ground arith
insert_after_lem lo s (x ∷ xs) g n ys o h e =
    ground (arith, insert_after_lem (page_end x) s xs g n ys o.2 h e, top-le (page_end x) xs o.2)

-- The node of an ordered list, found by where it starts.
pub splice_lem :
    (lo s : ℕ) (xs : List VirtPage) (g : VirtPage) (nodes ys : List VirtPage)
    → Ordered lo xs
    → top lo xs ≤ s
    → g.start ≡ s
    → splice s nodes (xs ++ g ∷ ys) ≡ xs ++ (nodes ++ ys)
unfolding splice top
splice_lem lo s [] g nodes ys o h e = ground arith
splice_lem lo s (x ∷ xs) g nodes ys o h e =
    ground (arith, splice_lem (page_end x) s xs g nodes ys o.2 h e, top-le (page_end x) xs o.2)
