-- ===== src/PageManager/Remove/Effect.antt =====
-- A removal takes its range out of the map, and nothing else.
use secpoline.Base.{
  Run, ℕ, ◌-◌, ◌≤◌, ◌<◌, ◌≡◌, refl, sym, ◌∙◌, true, false, inl, inr, none, List, [], ◌∷◌, ◌++◌,
  arith, ◌==◌, done, ◌>>=◌, Bool-cases,
}
use secpoline.VirtPage.{VirtPage, page_end, shorten, advance}
use secpoline.VirtPage.View.{
  Ordered, view, view_hit, view_skip, view_below, top, top-le, start-shorten, Ordered-append,
  Ordered-left, Ordered-right, Ordered-lower, shorten_facts, advance_facts,
}
use secpoline.VirtPage.View.Frame.{Overlaid, overlay_behind, view_past}
use secpoline.PageManager.State.{Manager, Status, success, succeed, insert_after, virt_page_alloc}
use secpoline.PageManager.State.Nodes.{insert_after_lem}
use secpoline.PageManager.State.Pool.{virt_page_alloc_stocked}
use secpoline.PageManager.Remove.{Cut, left_part, right_part, remove_within}
use secpoline.PageManager.Remove.Walk.{groups, start_page, head_or, Found}

-- The part of the last group behind the range stands for that group from the range's end on.
right_part_lem :
    (t end : ℕ) (g : VirtPage) (gs : List VirtPage)
    → Ordered t (g ∷ gs)
    → g.start < end
    → end ≤ page_end g
    → Ordered end (right_part end g ++ gs)
      × ((a : ℕ) → end ≤ a → view (right_part end g ++ gs) a ≡ view (g ∷ gs) a)
right_part_lem t end g gs o lt le = elim (Bool-cases (end == page_end g)) [
  | inl e ↦ rw e (Ordered-lower end (page_end g) gs le o.2, λ a h. ground (arith, view_skip g gs a))
  | inr e ↦
      let f = advance_facts g end le in
      rw e (
        (ground (arith, f), ground (arith, f), rw f.1 o.2),
        λ a h. ground (
          arith,
          f,
          view_hit g gs a,
          view_skip g gs a,
          view_hit (advance g end) gs a,
          view_skip (advance g end) gs a,
        ),
      )
]

-- The part of the first group in front of the range, with groups that begin at its end or above.
left_part_lem :
    (t start end : ℕ) (g : VirtPage) (gs hs : List VirtPage)
    → t ≤ g.start
    → g.start ≤ start
    → start < page_end g
    → start < end
    → Ordered (page_end g) gs
    → Ordered end hs
    → ((a : ℕ) → end ≤ a → view hs a ≡ view (g ∷ gs) a)
    → Ordered t (left_part start g ++ hs)
      × Overlaid start end none (g ∷ gs) (left_part start g ++ hs)
left_part_lem t start end g gs hs tle low high lt o oh h = elim (Bool-cases (start == g.start)) [
  | inl e ↦ rw e (
    Ordered-lower t end hs (ground arith) oh,
    λ a. ground (arith, view_below end a hs oh, view_below g.start a (g ∷ gs), h a),
  )
  | inr e ↦
      let f = shorten_facts g start low (omega arith) in
      let kept : Ordered g.start (shorten g start ∷ hs) = (
        omega (arith, f),
        ground (arith, f),
        rw f.1 (Ordered-lower start end hs (omega arith) oh),
      ) in
      rw e (
        (omega (arith, f, kept.0), kept.1, kept.2),
        λ a. ground (
          arith,
          f,
          view_hit g gs a,
          view_below g.start a (g ∷ gs) (omega arith, omega arith, o),
          view_below g.start a (shorten g start ∷ hs) kept,
          view_hit (shorten g start) hs a,
          view_skip (shorten g start) hs a,
          view_below end a hs oh,
          h a,
        ),
      )
]

-- The list with the range cut out of a span.
abbrev pub trimmed : ℕ → ℕ → Cut → List VirtPage
trimmed start end c =
    c.before
    ++ (left_part start (start_page c.span) ++ (right_part end c.span.end_page ++ c.span.after))

groups_trim :
    (t start end : ℕ) (ps : List VirtPage) (g : VirtPage) (after : List VirtPage)
    → Ordered t (ps ++ g ∷ after)
    → (head_or g ps).start ≤ start
    → start < page_end (head_or g ps)
    → start < end
    → g.start < end
    → end ≤ page_end g
    → let out = left_part start (head_or g ps) ++ (right_part end g ++ after) in
      Ordered t out × Overlaid start end none (ps ++ g ∷ after) out
groups_trim t start end [] g after o low high lt below above =
    let r = right_part_lem t end g after o below above in
    left_part_lem t start end g after (right_part end g ++ after) o.0 low high lt o.2 r.0 r.1
groups_trim t start end (f ∷ ps) g after o low high lt below above =
    let o' : Ordered (top (page_end f) ps) (g ∷ after) =
      Ordered-right (page_end f) ps (g ∷ after) o.2 in
    let r = right_part_lem (top (page_end f) ps) end g after o' below above in
    let past = top-le (page_end f) ps (Ordered-left (page_end f) ps (g ∷ after) o.2) in
    left_part_lem t start end f (ps ++ g ∷ after) (right_part end g ++ after) o.0 low high lt o.2
      r.0
      (λ a h.
        r.1 a h
        ∙ sym (
            view_skip f (ps ++ g ∷ after) a (omega (arith, past, o'.0))
            ∙ view_past (page_end f) ps (g ∷ after) a (Ordered-left (page_end f) ps (g ∷ after) o.2)
                (omega (arith, o'.0))))

head-ge :
    (t : ℕ) (ps : List VirtPage) (g : VirtPage) (after : List VirtPage)
    → Ordered t (ps ++ g ∷ after)
    → t ≤ (head_or g ps).start
head-ge t [] g after o = o.0
head-ge t (p ∷ ps) g after o = o.0

-- Cutting a range that was found takes it out of the map, and keeps the order.
pub trimmed-effect :
    (lo start end cid : ℕ) (gs : List VirtPage) (c : Cut)
    → Ordered lo gs
    → start < end
    → Found start end cid gs c
    → Ordered lo (trimmed start end c) × Overlaid start end none gs (trimmed start end c)
trimmed-effect lo start end cid gs c o lt f =
    let o' : Ordered lo (c.before ++ groups c.span) = rw f.whole at o in
    let left = Ordered-left lo c.before (groups c.span) o' in
    let right = Ordered-right lo c.before (groups c.span) o' in
    let cut =
      groups_trim (top lo c.before) start end c.span.passed c.span.end_page c.span.after right f.low
        f.high lt f.below f.above in
    (
      Ordered-append lo c.before _ left cut.0,
      rw f.whole (
          overlay_behind lo start end none c.before (groups c.span) _ left
            (omega (
              arith,
              f.low,
              head-ge (top lo c.before) c.span.passed c.span.end_page c.span.after right,
            ))
            cut.1),
    )

module _ (lo start end : ℕ) (xs : List VirtPage) (g : VirtPage) (ys : List VirtPage)
    (pm : Manager) where
  -- A removal inside `g` ends with the two parts of `g` in its place.
  abbrev pub Trims : Run (Manager × Status) → Type 0
  Trims r =
      (pm' : Manager) × (r ≡ done (pm', success))
      × (pm'.pages ≡ xs ++ (left_part start g ++ (right_part end g ++ ys)))

  split_run :
      Ordered lo (xs ++ g ∷ ys)
      → 0 < pm.free_pages
      → (do
        pm' ← virt_page_alloc (record pm { pages = xs ++ shorten g start ∷ ys })
        succeed (record pm' { pages = insert_after g.start (advance g end) pm'.pages }))
        ≡ succeed (record {
          pages = xs ++ (shorten g start ∷ advance g end ∷ ys);
          free_pages = pm.free_pages - 1;
          grants = pm.grants;
        })
  split_run o stocked =
      rw
        (
          virt_page_alloc_stocked (record pm { pages = xs ++ shorten g start ∷ ys }) stocked,
          insert_after_lem lo g.start xs (shorten g start) (advance g end) ys
              (Ordered-left lo xs (g ∷ ys) o) (Ordered-right lo xs (g ∷ ys) o).0
              (start-shorten g start),
        )
        refl

  pub remove_within-Trims :
      Ordered lo (xs ++ g ∷ ys) → 0 < pm.free_pages → Trims (remove_within start end xs g ys pm)
  unfolding remove_within
  remove_within-Trims o stocked = elim (Bool-cases (start == g.start)) [
    | inl e ↦
        let e' : (g.start == start) ≡ true = ground arith in
        elim (Bool-cases (end == page_end g)) [
          | inl f ↦
              let f' : (page_end g == end) ≡ true = ground arith in
              rw (e, e', f, f') (_, refl, refl)
          | inr f ↦
              let f' : (page_end g == end) ≡ false = ground arith in
              rw (e, e', f, f') (_, refl, refl)
        ]
    | inr e ↦
        let e' : (g.start == start) ≡ false = ground arith in
        elim (Bool-cases (end == page_end g)) [
          | inl f ↦
              let f' : (page_end g == end) ≡ true = ground arith in
              rw (e, e', f, f') (_, refl, refl)
          | inr f ↦
              let f' : (page_end g == end) ≡ false = ground arith in
              rw (e, e', f, f') (_, split_run o stocked, refl)
        ]
  ]
