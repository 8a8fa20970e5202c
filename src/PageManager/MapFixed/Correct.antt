-- ===== src/PageManager/MapFixed/Correct.antt =====
-- `remove_page_map_fixed`, from the loop to the result.
use secpoline.Base.{
  Run, ℕ, ◌+◌, ◌%◌, ◌<◌, ◌^◌, ◌≡◌, refl, ap, ◌&&◌, inl, inr, List, [], ◌∷◌, ◌++◌, arith, ltb, leb,
  ◌==◌, done, trap, ◌>>=◌, Bool-cases, page_size, page_align, ptr_add, ptr_add_exact,
}
use secpoline.VirtPage.{VirtPage, page_end, shorten}
use secpoline.VirtPage.View.{Ordered, Ordered-left, Ordered-right, view_nil, start-shorten}
use secpoline.PageManager.State.{Manager, Status, success, failure, blocked, virt_page_free}
use secpoline.PageManager.State.Pool.{virt_page_alloc_stocked}
use secpoline.PageManager.State.Nodes.{insert_after_lem}
use secpoline.PageManager.MapFixed.{
  Edit, finished, split, keep, unlink, clear_from, apply_edit, clear_range, remove_page_map_fixed,
}
use secpoline.PageManager.MapFixed.Effect.{
  Cleared, keep-Cleared, unlink-Cleared, shorten-Cleared, behind-Cleared, advance-Cleared,
  split-Cleared,
}

-- The list when a group is to be split: with the new node linked, the range is cleared.
pub record Splits (lo start end cid : ℕ) (old hs : List VirtPage) (s : ℕ) (new_group : VirtPage)
    : Type 0 where
  pub before : List VirtPage
  pub node : VirtPage
  pub after : List VirtPage
  pub whole : hs ≡ before ++ node ∷ after
  pub at : node.start ≡ s
  pub cleared : Cleared lo start end cid old (before ++ (node ∷ new_group ∷ after))

abbrev pub EditResult : ℕ → ℕ → ℕ → ℕ → List VirtPage → Run Edit → Type 0
EditResult lo start end cid old trap = Unit {0}
EditResult lo start end cid old (done (finished hs n)) = Cleared lo start end cid old hs
EditResult lo start end cid old (done (split hs n s g)) = Splits lo start end cid old hs s g

module _ (lo start end cid : ℕ) (g : VirtPage) (gs : List VirtPage) where
  keep-EditResult :
      (k : VirtPage) (r : Run Edit)
      → ((hs : List VirtPage)
          → Cleared (page_end g) start end cid gs hs
          → Cleared lo start end cid (g ∷ gs) (k ∷ hs))
      → EditResult (page_end g) start end cid gs r
      → EditResult lo start end cid (g ∷ gs) (keep k r)
  keep-EditResult k trap f e = tt
  keep-EditResult k (done (finished hs n)) f e = f hs e
  keep-EditResult k (done (split hs n s h)) f e = record {
    before = k ∷ e.before;
    node = e.node;
    after = e.after;
    whole = ap (λ xs. k ∷ xs) e.whole;
    at = e.at;
    cleared = f (e.before ++ (e.node ∷ h ∷ e.after)) e.cleared;
  }

  unlink-EditResult :
      (r : Run Edit)
      → ((hs : List VirtPage)
          → Cleared (page_end g) start end cid gs hs
          → Cleared lo start end cid (g ∷ gs) hs)
      → EditResult (page_end g) start end cid gs r
      → EditResult lo start end cid (g ∷ gs) (unlink r)
  unlink-EditResult trap f e = tt
  unlink-EditResult (done (finished hs n)) f e = f hs e
  unlink-EditResult (done (split hs n s h)) f e = record {
    before = e.before;
    node = e.node;
    after = e.after;
    whole = e.whole;
    at = e.at;
    cleared = f (e.before ++ (e.node ∷ h ∷ e.after)) e.cleared;
  }

clear_from-EditResult :
    (lo start end cid : ℕ) (gs : List VirtPage)
    → Ordered lo gs
    → start < end
    → EditResult lo start end cid gs (clear_from start end cid gs)
unfolding clear_from
clear_from-EditResult lo start end cid [] o lt = record {
  order = tt;
  removed = λ a. ground (arith, view_nil a);
  own = λ a le below. rw (view_nil a) refl;
}
clear_from-EditResult lo start end cid (g ∷ gs) o lt =
    let rest = clear_from-EditResult (page_end g) start end cid gs o.2 lt in
    let after = clear_from start end cid gs in
    elim (Bool-cases (leb (page_end g) start)) [
      | inl a ↦ rw a (
          keep-EditResult lo start end cid g gs g after
            (λ hs. keep-Cleared lo start end cid g gs hs o.0 o.1 (ground arith)) rest)
      | inr a ↦ elim (Bool-cases (leb end g.start)) [
        | inl b ↦ rw (a, b) (behind-Cleared lo start end cid g gs o lt (ground arith))
        | inr b ↦ elim (Bool-cases (g.cid == cid)) [
          | inr c ↦ rw (a, b, c) tt
          | inl c ↦ elim (Bool-cases (leb start g.start && leb (page_end g) end)) [
            | inl d ↦
                rw (a, b, c, d)
                  (unlink-EditResult lo start end cid g gs after
                    (λ hs.
                      unlink-Cleared lo start end cid g gs hs o.0 o.1 c (ground arith)
                        (ground arith))
                    rest)
            | inr d ↦ elim (Bool-cases (leb start g.start && ltb end (page_end g))) [
              | inl e ↦
                  rw (a, b, c, d, e)
                    (advance-Cleared lo start end cid g gs o c (ground arith) (ground arith)
                      (ground arith))
              | inr e ↦ elim (Bool-cases (leb (page_end g) end && ltb g.start start)) [
                | inl f ↦
                    rw (a, b, c, d, e, f)
                      (keep-EditResult lo start end cid g gs (shorten g start) after
                        (λ hs.
                          shorten-Cleared lo start end cid g gs hs o.0 o.1 c (ground arith)
                            (ground arith) (ground arith))
                        rest)
                | inr f ↦ elim (Bool-cases (ltb g.start start && ltb end (page_end g))) [
                  | inr k ↦ rw (a, b, c, d, e, f, k) tt
                  | inl k ↦
                      rw (a, b, c, d, e, f, k)
                        (record {
                          before = [];
                          node = shorten g start;
                          after = gs;
                          whole = refl;
                          at = start-shorten g start;
                          cleared =
                              split-Cleared lo start end cid g gs o c (ground arith) lt
                                (ground arith);
                        })
                ]
              ]
            ]
          ]
        ]
      ]
    ]

-- What the removal has done when it returns: the range is cleared, or nothing has changed.
abbrev pub ClearResult : ℕ → ℕ → ℕ → ℕ → Manager → Run (Manager × Status) → Type 0
ClearResult lo start end cid pm trap = Unit {0}
ClearResult lo start end cid pm (done (pm', success)) = Cleared lo start end cid pm.pages pm'.pages
ClearResult lo start end cid pm (done (pm', failure)) = pm' ≡ pm
ClearResult lo start end cid pm (done (pm', blocked)) = ⊥

apply_edit-ClearResult :
    (lo start end cid : ℕ) (pm : Manager) (r : Run Edit)
    → 0 < pm.free_pages
    → EditResult lo start end cid pm.pages r
    → ClearResult lo start end cid pm (r >>= λ edit. apply_edit edit pm)
unfolding apply_edit
apply_edit-ClearResult lo start end cid pm trap stocked e = tt
apply_edit-ClearResult lo start end cid pm (done (finished hs n)) stocked e = e
apply_edit-ClearResult lo start end cid pm (done (split hs n s h)) stocked e =
    let pm1 = virt_page_free n (record pm { pages = hs }) in
    let behind = e.node ∷ h ∷ e.after in
    rw
      (
        virt_page_alloc_stocked pm1 (omega arith),
        e.whole,
        insert_after_lem lo s e.before e.node h e.after
            (Ordered-left lo e.before behind e.cleared.order)
            (omega (arith, e.at, (Ordered-right lo e.before behind e.cleared.order).0)) e.at,
      )
      e.cleared

clear_range-ClearResult :
    (lo start size cid : ℕ) (pm : Manager)
    → Ordered lo pm.pages
    → 0 < pm.free_pages
    → start + size < 2 ^ 64
    → ClearResult lo start (ptr_add start size) cid pm (clear_range start size cid pm)
unfolding clear_range
clear_range-ClearResult lo start size cid pm o stocked fits =
    elim (Bool-cases (start % page_size == 0)) [
      | inr a ↦ rw a tt
      | inl a ↦ elim (Bool-cases (size == 0)) [
        | inl z ↦ rw (a, z) refl
        | inr z ↦
            let end = ptr_add start size in
            rw (a, z)
              (apply_edit-ClearResult lo start end cid pm (clear_from start end cid pm.pages)
                stocked
                (clear_from-EditResult lo start end cid pm.pages o
                  (ground (arith, ptr_add_exact start size fits))))
      ]
    ]

-- `remove_page_map_fixed` on an ordered list, with a node in the pool and a range that does not
-- wrap. When it returns 0, nothing in the range, rounded up to whole pages, was tracked for another
-- compartment, the range has left the map, the rest of the map is the same and the list is in
-- order. When it returns -1 the state is as it was. It returns no other value.
pub remove_page_map_fixed-effect :
    (lo start size cid : ℕ) (pm : Manager)
    → Ordered lo pm.pages
    → 0 < pm.free_pages
    → start + page_align size < 2 ^ 64
    → ClearResult lo start
        (start + page_align size)
        cid
        pm
        (remove_page_map_fixed start size cid pm)
unfolding remove_page_map_fixed
remove_page_map_fixed-effect lo start size cid pm o stocked fits =
    rw (← ptr_add_exact start (page_align size) fits)
      (clear_range-ClearResult lo start (page_align size) cid pm o stocked fits)
