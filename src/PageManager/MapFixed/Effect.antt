-- ===== src/PageManager/MapFixed/Effect.antt =====
-- A removal for a fixed mapping clears its range of the compartment's groups, gaps included.
use secpoline.Base.{ℕ, ◌≤◌, ◌<◌, ◌≡◌, refl, true, none, List, ◌∷◌, arith, ◌==◌}
use secpoline.VirtPage.{VirtPage, page_end, shorten, advance, virt_page_overlap_byte}
use secpoline.VirtPage.View.{
  Ordered, Ordered-lower, view, view_skip, view_below, attr, overlay, shorten_facts, advance_facts,
}
use secpoline.VirtPage.View.Frame.{Overlaid, overlay_step}
use secpoline.PageManager.Lookup.Range.{no_other}

-- No address of the range is tracked for another compartment.
abbrev pub Exclusive : ℕ → ℕ → ℕ → List VirtPage → Type 0
Exclusive start end cid gs = (a : ℕ) → start ≤ a → a < end → no_other cid (view gs a) ≡ true

-- The range has left the list `old`, which held nothing of another compartment there.
pub record Cleared (lo start end cid : ℕ) (old new : List VirtPage) : Type 0 where
  pub order : Ordered lo new
  pub removed : Overlaid start end none old new
  pub own : Exclusive start end cid old

module _ (lo start end cid : ℕ) (g : VirtPage) (gs hs : List VirtPage) where
  pub keep-Cleared :
      lo ≤ g.start
      → g.start < page_end g
      → page_end g ≤ start
      → Cleared (page_end g) start end cid gs hs
      → Cleared lo start end cid (g ∷ gs) (g ∷ hs)
  keep-Cleared low pos h c = record {
    order = (low, pos, c.order);
    removed = overlay_step start end none g gs hs h c.removed;
    own = λ a le lt. rw (view_skip g gs a (omega arith)) (c.own a le lt);
  }

  own_group : (g.cid == cid) ≡ true → Exclusive start end cid gs → Exclusive start end cid (g ∷ gs)
  unfolding view virt_page_overlap_byte
  own_group e x a le lt = ground (arith, x a le lt)

  pub unlink-Cleared :
      lo ≤ g.start
      → g.start < page_end g
      → (g.cid == cid) ≡ true
      → start ≤ g.start
      → page_end g ≤ end
      → Cleared (page_end g) start end cid gs hs
      → Cleared lo start end cid (g ∷ gs) hs
  unfolding view virt_page_overlap_byte
  unlink-Cleared low pos e h k c = record {
    order = Ordered-lower lo (page_end g) hs (omega arith) c.order;
    removed = λ a. ground (arith, c.removed a);
    own = own_group e c.own;
  }

  pub shorten-Cleared :
      lo ≤ g.start
      → g.start < page_end g
      → (g.cid == cid) ≡ true
      → g.start < start
      → start < page_end g
      → page_end g ≤ end
      → Cleared (page_end g) start end cid gs hs
      → Cleared lo start end cid (g ∷ gs) (shorten g start ∷ hs)
  shorten-Cleared low pos e h inside k c =
      let f = shorten_facts g start (omega arith) (omega arith) in
      record {
        order = (
          omega (arith, f),
          ground (arith, f),
          rw f.1 (Ordered-lower start (page_end g) hs (omega arith) c.order),
        );
        removed = λ a. step f a (c.removed a);
        own = own_group e c.own;
      }
    where
      step :
          ((shorten g start).start ≡ g.start)
            × (page_end (shorten g start) ≡ start)
            × (attr (shorten g start) ≡ attr g)
          → (a : ℕ) → view hs a ≡ overlay start end none (view gs) a
          → view (shorten g start ∷ hs) a ≡ overlay start end none (view (g ∷ gs)) a
      step f a r = unfold view virt_page_overlap_byte in ground (arith, f, r)

module _ (lo start end cid : ℕ) (g : VirtPage) (gs : List VirtPage) (o : Ordered lo (g ∷ gs)) where
  pub behind-Cleared : start < end → end ≤ g.start → Cleared lo start end cid (g ∷ gs) (g ∷ gs)
  behind-Cleared lt h = record {
    order = o;
    removed = λ a. ground (arith, view_below g.start a (g ∷ gs) (omega arith, o.1, o.2));
    own =
        λ a le below. rw (view_below g.start a (g ∷ gs) (omega arith, o.1, o.2) (omega arith)) refl;
  }

  above_own : (g.cid == cid) ≡ true → end ≤ page_end g → Exclusive start end cid (g ∷ gs)
  above_own e h =
      own_group lo start end cid g gs gs e
        (λ a le lt. rw (view_below (page_end g) a gs o.2 (omega arith)) refl)

  pub advance-Cleared :
      (g.cid == cid) ≡ true
      → start ≤ g.start
      → g.start < end
      → end < page_end g
      → Cleared lo start end cid (g ∷ gs) (advance g end ∷ gs)
  advance-Cleared e h below above =
      let f = advance_facts g end (omega arith) in
      record {
        order = (omega (arith, f, o.0), ground (arith, f), rw f.1 o.2);
        removed = λ a. step f a;
        own = above_own e (omega arith);
      }
    where
      step :
          ((advance g end).start ≡ end)
            × (page_end (advance g end) ≡ page_end g)
            × (attr (advance g end) ≡ attr g)
          → (a : ℕ) → view (advance g end ∷ gs) a ≡ overlay start end none (view (g ∷ gs)) a
      step f a =
          let low = view_below (page_end g) a gs o.2 in
          unfold view virt_page_overlap_byte in ground (arith, f, low)

  pub split-Cleared :
      (g.cid == cid) ≡ true
      → g.start < start
      → start < end
      → end < page_end g
      → Cleared lo start end cid (g ∷ gs) (shorten g start ∷ advance g end ∷ gs)
  split-Cleared e h lt above =
      let f = shorten_facts g start (omega arith) (omega arith) in
      let k = advance_facts g end (omega arith) in
      record {
        order = (
          omega (arith, f, o.0),
          ground (arith, f),
          (omega (arith, f, k), ground (arith, k), rw k.1 o.2),
        );
        removed = λ a. step f k a;
        own = above_own e (omega arith);
      }
    where
      step :
          ((shorten g start).start ≡ g.start)
            × (page_end (shorten g start) ≡ start)
            × (attr (shorten g start) ≡ attr g)
          → ((advance g end).start ≡ end)
            × (page_end (advance g end) ≡ page_end g)
            × (attr (advance g end) ≡ attr g)
          → (a : ℕ)
          → view (shorten g start ∷ advance g end ∷ gs) a ≡ overlay start end none (view (g ∷ gs)) a
      step f k a =
          let low = view_below (page_end g) a gs o.2 in
          unfold view virt_page_overlap_byte in ground (arith, f, k, low)
