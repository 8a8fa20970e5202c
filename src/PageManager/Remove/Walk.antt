-- ===== src/PageManager/Remove/Walk.antt =====
-- What the walk of `remove_page_locked` has established when it succeeds.
use secpoline.Base.{
  Run, ℕ, ◌≤◌, ◌<◌, ◌≡◌, refl, ap, true, ◌||◌, inl, inr, Option, none, some, List, [], ◌∷◌, ◌++◌,
  arith, ltb, leb, ◌==◌, done, trap, Bool-cases,
}
use secpoline.VirtPage.{VirtPage, page_end}
use secpoline.VirtPage.View.{Ordered, view_hit, view_skip}
use secpoline.PageManager.Lookup.Range.{Owned}
use secpoline.PageManager.Remove.{
  Span, Cut, pass, begin_behind, skip, reach_end, find_start, first_group, find_cut,
}

-- The groups of a span, in the list's order.
abbrev pub groups : Span → List VirtPage
groups s = s.passed ++ s.end_page ∷ s.after

-- The walk from `start_page`, which heads `gs`: the span is that list, its last group holds the end
-- of the range, and all is owned up to there.
pub record Reached (end cid from : ℕ) (gs : List VirtPage) (s : Span) : Type 0 where
  pub whole : gs ≡ groups s
  pub below : s.end_page.start < end
  pub above : end ≤ page_end s.end_page
  pub owned : Owned from end cid gs

abbrev pub ReachResult : ℕ → ℕ → ℕ → List VirtPage → Run (Option Span) → Type 0
ReachResult end cid from gs trap = Unit {0}
ReachResult end cid from gs (done none) = Unit {0}
ReachResult end cid from gs (done (some s)) = Reached end cid from gs s

Owned-hit :
    (end cid : ℕ) (g : VirtPage) (gs : List VirtPage)
    → (g.cid == cid) ≡ true
    → end ≤ page_end g
    → Owned g.start end cid (g ∷ gs)
Owned-hit end cid g gs h e a le lt = ground (arith, view_hit g gs a)

Owned-step :
    (end cid : ℕ) (g n : VirtPage) (gs : List VirtPage)
    → (g.cid == cid) ≡ true
    → page_end g ≡ n.start
    → Owned n.start end cid (n ∷ gs)
    → Owned g.start end cid (g ∷ n ∷ gs)
Owned-step end cid g n gs h e o a le lt =
    ground (arith, view_hit g (n ∷ gs) a, view_skip g (n ∷ gs) a, λ (k : n.start ≤ a). o a k lt)

pass-ReachResult :
    (end cid : ℕ) (g n : VirtPage) (gs : List VirtPage) (r : Run (Option Span))
    → (g.cid == cid) ≡ true
    → page_end g ≡ n.start
    → ReachResult end cid n.start (n ∷ gs) r
    → ReachResult end cid g.start (g ∷ n ∷ gs) (pass g r)
pass-ReachResult end cid g n gs trap h e r = tt
pass-ReachResult end cid g n gs (done none) h e r = tt
pass-ReachResult end cid g n gs (done (some s)) h e r = record {
  whole = ap (λ xs. g ∷ xs) r.whole;
  below = r.below;
  above = r.above;
  owned = Owned-step end cid g n gs h e r.owned;
}

pub reach_end-Reached :
    (end cid : ℕ) (g : VirtPage) (gs : List VirtPage)
    → ReachResult end cid g.start (g ∷ gs) (reach_end end cid g gs)
unfolding reach_end
reach_end-Reached end cid g [] = elim (Bool-cases (g.cid == cid)) [
  | inr e ↦ rw e tt
  | inl e ↦ elim (Bool-cases (leb end (page_end g))) [
    | inr f ↦ rw (e, f) tt
    | inl f ↦ elim (Bool-cases (leb end g.start)) [
      | inl k ↦ rw (e, f, k) tt
      | inr k ↦
          rw (e, f, k)
            (record {
              whole = refl;
              below = ground arith;
              above = ground arith;
              owned = Owned-hit end cid g [] e (ground arith);
            })
    ]
  ]
]
reach_end-Reached end cid g (n ∷ gs) = elim (Bool-cases (g.cid == cid)) [
  | inr e ↦ rw e tt
  | inl e ↦ elim (Bool-cases (leb end (page_end g))) [
    | inl f ↦ elim (Bool-cases (leb end g.start)) [
      | inl k ↦ rw (e, f, k) tt
      | inr k ↦
          rw (e, f, k)
            (record {
              whole = refl;
              below = ground arith;
              above = ground arith;
              owned = Owned-hit end cid g (n ∷ gs) e (ground arith);
            })
    ]
    | inr f ↦ elim (Bool-cases (page_end g == n.start)) [
      | inr k ↦ rw (e, f, k) tt
      | inl k ↦
          rw (e, f, k)
            (pass-ReachResult end cid g n gs (reach_end end cid n gs) e (ground arith)
              (reach_end-Reached end cid n gs))
    ]
  ]
]

abbrev pub head_or : VirtPage → List VirtPage → VirtPage
head_or g [] = g
head_or g (x ∷ xs) = x

-- `start_page`: the first group of the span.
abbrev pub start_page : Span → VirtPage
start_page s = head_or s.end_page s.passed

head-eq :
    (x g : VirtPage) (xs ps after : List VirtPage) → (x ∷ xs) ≡ ps ++ g ∷ after → head_or g ps ≡ x
head-eq x g xs [] after e = cc
head-eq x g xs (p ∷ ps) after e = cc

-- A range that was found in the list `gs`.
pub record Found (start end cid : ℕ) (gs : List VirtPage) (c : Cut) : Type 0 where
  pub whole : gs ≡ c.before ++ groups c.span
  pub low : (start_page c.span).start ≤ start
  pub high : start < page_end (start_page c.span)
  pub below : c.span.end_page.start < end
  pub above : end ≤ page_end c.span.end_page
  pub owned : Owned start end cid gs

abbrev pub CutResult : ℕ → ℕ → ℕ → List VirtPage → Run (Option Cut) → Type 0
CutResult start end cid gs trap = Unit {0}
CutResult start end cid gs (done none) = Unit {0}
CutResult start end cid gs (done (some c)) = Found start end cid gs c

Owned-cons :
    (start end cid : ℕ) (g : VirtPage) (gs : List VirtPage)
    → page_end g ≤ start
    → Owned start end cid gs
    → Owned start end cid (g ∷ gs)
Owned-cons start end cid g gs h o a le lt = rw (view_skip g gs a (omega arith)) (o a le lt)

begin-CutResult :
    (start end cid : ℕ) (g n : VirtPage) (gs : List VirtPage) (r : Run (Option Span))
    → page_end g ≤ n.start
    → n.start ≤ start
    → start < page_end n
    → ReachResult end cid n.start (n ∷ gs) r
    → CutResult start end cid (g ∷ n ∷ gs) (begin_behind g r)
begin-CutResult start end cid g n gs trap h le lt r = tt
begin-CutResult start end cid g n gs (done none) h le lt r = tt
begin-CutResult start end cid g n gs (done (some s)) h le lt r =
    let e : start_page s ≡ n = head-eq n s.end_page gs s.passed s.after r.whole in
    record {
      whole = ap (λ xs. g ∷ xs) r.whole;
      low = rw e le;
      high = rw e lt;
      below = r.below;
      above = r.above;
      owned =
          Owned-cons start end cid g (n ∷ gs) (omega arith)
            (λ a low below. r.owned a (omega arith) below);
    }

skip-CutResult :
    (start end cid : ℕ) (g : VirtPage) (gs : List VirtPage) (r : Run (Option Cut))
    → page_end g ≤ start
    → CutResult start end cid gs r
    → CutResult start end cid (g ∷ gs) (skip g r)
skip-CutResult start end cid g gs trap h r = tt
skip-CutResult start end cid g gs (done none) h r = tt
skip-CutResult start end cid g gs (done (some c)) h r = record {
  whole = ap (λ xs. g ∷ xs) r.whole;
  low = r.low;
  high = r.high;
  below = r.below;
  above = r.above;
  owned = Owned-cons start end cid g gs h r.owned;
}

find_start-Found :
    (lo start end cid : ℕ) (g : VirtPage) (gs : List VirtPage)
    → Ordered lo (g ∷ gs)
    → page_end g ≤ start
    → CutResult start end cid (g ∷ gs) (find_start start end cid g gs)
unfolding find_start
find_start-Found lo start end cid g [] o h = tt
find_start-Found lo start end cid g (n ∷ []) o h = tt
find_start-Found lo start end cid g (n ∷ m ∷ gs) o h = elim (Bool-cases (ltb start (page_end n))) [
  | inl e ↦ elim (Bool-cases (ltb start n.start || leb (page_end n) start)) [
    | inl f ↦ rw (e, f) tt
    | inr f ↦
        rw (e, f)
          (begin-CutResult start end cid g n (m ∷ gs) (reach_end end cid n (m ∷ gs)) o.2.0
            (ground arith) (ground arith) (reach_end-Reached end cid n (m ∷ gs)))
  ]
  | inr e ↦ rw e (
      skip-CutResult start end cid g (n ∷ m ∷ gs) (find_start start end cid n (m ∷ gs)) h
        (find_start-Found (page_end g) start end cid n (m ∷ gs) o.2 (ground arith)))
]

first_group-CutResult :
    (start end cid : ℕ) (gs : List VirtPage) (r : Run (Option Span))
    → CutResult start end cid gs (first_group r)
unfolding first_group
first_group-CutResult start end cid gs trap = tt
first_group-CutResult start end cid gs (done none) = tt
first_group-CutResult start end cid gs (done (some s)) = tt

pub find_cut-Found :
    (lo start end cid : ℕ) (g n : VirtPage) (gs : List VirtPage)
    → Ordered lo (g ∷ n ∷ gs)
    → CutResult start end cid (g ∷ n ∷ gs) (find_cut start end cid g n gs)
unfolding find_cut
find_cut-Found lo start end cid g n gs o = elim (Bool-cases (ltb start (page_end g))) [
  | inl e ↦ rw e tt
  | inr e ↦ elim (Bool-cases (ltb start n.start)) [
    | inl f ↦ rw (e, f) (first_group-CutResult start end cid (g ∷ n ∷ gs) (reach_end end cid n gs))
    | inr f ↦ rw (e, f) (find_start-Found lo start end cid g (n ∷ gs) o (ground arith))
  ]
]
