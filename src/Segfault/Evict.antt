-- ===== src/Segfault/Evict.antt =====
-- The removal of the oldest pages from the breakpoints.
use secpoline.Base.{
  length, elem, trap, Ensures, returned, trapped, Ensures-bind, Ensures-if, Ensures-weaken,
  page_size, ℕ, ◌+◌, ◌-◌, ◌*◌, ◌/◌, ◌≤◌, ◌<◌, ◌≡◌, refl, sym, ap, ◌∙◌, true, false, some, List, [],
  ◌∷◌, ◌++◌, map, arith,
}
use secpoline.Erim.Pages.{UnsafePage, find_page}
use secpoline.Segfault.Pages.{Hbreakpoint, WatchedPage, Kernel, Process, is_exec}
use secpoline.Segfault.Breakpoints.{
  max_hbreakpoints, remove_oldest, remove_first, remove_last_page, has_free, evict,
}
use secpoline.Segfault.Bounds.{total, Released, close_each-Released}
use secpoline.Segfault.Close.{Closed, SameCode, set_page_non_executable-Closed}

-- The page that the breakpoints are for.
abbrev pub page_address : WatchedPage → ℕ
page_address [] = 0
page_address (b ∷ bs) = b.address / page_size * page_size

-- An executable page has been executable before, and is none of the pages given up.
abbrev pub Retained : List WatchedPage → Process → Process → Type 0
Retained gone p p' =
    (a : ℕ) (u : UnsafePage)
    → find_page a p'.unsafe_pages ≡ some u
    → is_exec u.current_perm ≡ true
    → (elem a (map page_address gone) ≡ false) × (find_page a p.unsafe_pages ≡ some u)

-- The pages of `gone` have been given up, in order, and `kept` are left.
pub record Evicted (gone kept : List WatchedPage) (p p' : Process) : Type 0 where
  pub before : p.controller.dynamic_hbreakpoints ≡ gone ++ kept
  pub after : p'.controller.dynamic_hbreakpoints ≡ kept
  pub used : p'.controller.used_breakpoints + total gone ≡ p.controller.used_breakpoints
  pub max : p'.controller.max_dynamic_breakpoints ≡ p.controller.max_dynamic_breakpoints
  pub statics : p'.controller.static_hbreakpoints ≡ p.controller.static_hbreakpoints
  pub retained : Retained gone p p'
  pub code : SameCode p.unsafe_pages p'.unsafe_pages

Evicted-none : (p : Process) → Evicted [] p.controller.dynamic_hbreakpoints p p
unfolding total
Evicted-none p = record {
  before = refl;
  after = refl;
  used = omega arith;
  max = refl;
  statics = refl;
  retained = λ a u found exec. (refl, found);
  code = λ a u found. (u, found, refl);
}

-- The first page goes, then those of `gone`.
Evicted-cons :
    (page : WatchedPage) (rest gone kept : List WatchedPage) (p p1 p2 : Process)
    → Evicted (page ∷ []) rest p p1
    → Evicted gone kept p1 p2
    → Evicted (page ∷ gone) kept p p2
unfolding total
Evicted-cons page rest gone kept p p1 p2 e f = record {
  before = e.before ∙ ap (λ ps. page ∷ ps) (sym (e.after) ∙ f.before);
  after = f.after;
  used = omega (arith, e.used, f.used);
  max = f.max ∙ e.max;
  statics = f.statics ∙ e.statics;
  retained = λ a u found exec.
      let (there, found1) = f.retained a u found exec in
      let (here, found0) = e.retained a u found1 exec in (ground arith, found0);
  code = λ a u found.
      let (v, found1, same1) = f.code a u found in
      let (w, found0, same0) = e.code a v found1 in (w, found0, same0 ∙ same1);
}

Evicted-oldest :
    (b : Hbreakpoint) (bs : WatchedPage) (rest : List WatchedPage) (p p1 p2 : Process)
    → p.controller.dynamic_hbreakpoints ≡ (b ∷ bs) ∷ rest
    → Closed (page_address (b ∷ bs)) p p1
    → Released (length (b ∷ bs)) p1 p2
    → Evicted
        ((b ∷ bs) ∷ [])
        rest
        p
        (record p2 { controller = record p2.controller { dynamic_hbreakpoints = rest } })
unfolding total
Evicted-oldest b bs rest p p1 p2 e (c, closed, code) (used, most, (st, dy, us)) = record {
  before = e;
  after = refl;
  used = omega (arith, used, ap (λ c. c.used_breakpoints) c);
  max = most ∙ ap (λ c. c.max_dynamic_breakpoints) c;
  statics = st ∙ ap (λ c. c.static_hbreakpoints) c;
  retained = λ a u found exec.
      let (away, found0) = closed a u (rw us at found) exec in (ground arith, found0);
  code = λ a u found. code a u (rw us at found);
}

remove_oldest-Evicted :
    (k : Kernel) (page : WatchedPage) (rest : List WatchedPage) (p : Process)
    → p.controller.dynamic_hbreakpoints ≡ page ∷ rest
    → length page ≤ p.controller.used_breakpoints
    → Ensures (Evicted (page ∷ []) rest p) (remove_oldest k page rest p)
unfolding remove_oldest
remove_oldest-Evicted k [] rest p e le = trapped
remove_oldest-Evicted k (b ∷ bs) rest p e le =
    Ensures-bind (set_page_non_executable-Closed k b.address p) (λ p1 c.
      Ensures-bind (close_each-Released k (b ∷ bs) p1 (rw (sym (c.0)) at le))
        (λ p2 r. returned (Evicted-oldest b bs rest p p1 p2 e c r)))

remove_last_page_oldest :
    (k : Kernel) (page : WatchedPage) (rest : List WatchedPage) (p : Process)
    → p.controller.dynamic_hbreakpoints ≡ page ∷ rest
    → remove_last_page k p ≡ remove_oldest k page rest p
unfolding remove_last_page remove_first
remove_last_page_oldest k page rest p e = ap (λ ps. remove_first k ps p) e

remove_last_page_empty :
    (k : Kernel) (p : Process)
    → p.controller.dynamic_hbreakpoints ≡ []
    → remove_last_page k p ≡ trap
unfolding remove_last_page remove_first
remove_last_page_empty k p e = ap (λ ps. remove_first k ps p) e

remove_last_page-Evicted :
    (k : Kernel) (page : WatchedPage) (rest : List WatchedPage) (p : Process)
    → p.controller.dynamic_hbreakpoints ≡ page ∷ rest
    → length page ≤ p.controller.used_breakpoints
    → Ensures (Evicted (page ∷ []) rest p) (remove_last_page k p)
remove_last_page-Evicted k page rest p e le =
    rw (remove_last_page_oldest k page rest p e) (remove_oldest-Evicted k page rest p e le)

-- Each page that went was needed: without it there were no `n` free breakpoints.
abbrev pub Needed : ℕ → ℕ → List WatchedPage → Type 0
Needed n used [] = Unit {0}
Needed n used (page ∷ gone) = (max_hbreakpoints < used + n) × Needed n (used - length page) gone

-- What the loop has done when it ends.
pub record Room (n : ℕ) (p p' : Process) : Type 0 where
  pub gone : List WatchedPage
  pub kept : List WatchedPage
  pub evicted : Evicted gone kept p p'
  pub needed : Needed n p.controller.used_breakpoints gone
  pub free : p'.controller.used_breakpoints + n ≤ max_hbreakpoints

pub Room-none : (n : ℕ) (p : Process) → has_free n p ≡ true → Room n p p
Room-none n p h = record {
  gone = [];
  kept = p.controller.dynamic_hbreakpoints;
  evicted = Evicted-none p;
  needed = tt;
  free = ground arith;
}

used_after :
    (p p1 : Process) (page : WatchedPage) (rest : List WatchedPage)
    → Evicted (page ∷ []) rest p p1
    → p.controller.used_breakpoints - length page ≡ p1.controller.used_breakpoints
unfolding total
used_after p p1 page rest v = omega (arith, v.used)

pub evict-Room :
    (k : Kernel) (n : ℕ) (pages : List WatchedPage) (p : Process)
    → p.controller.dynamic_hbreakpoints ≡ pages
    → total pages ≤ p.controller.used_breakpoints
    → Ensures (Room n p) (evict k n pages p)
unfolding evict total
evict-Room k n [] p e le =
    Ensures-if (has_free n p) (λ h. returned (Room-none n p h))
      (λ h. rw (remove_last_page_empty k p e) trapped)
evict-Room k n (page ∷ rest) p e le =
    Ensures-if (has_free n p) (λ h. returned (Room-none n p h))
      (λ h. Ensures-bind (remove_last_page-Evicted k page rest p e (omega arith)) (λ p1 v.
        Ensures-weaken
          (λ p2 r. record {
            gone = page ∷ r.gone;
            kept = r.kept;
            evicted = Evicted-cons page rest r.gone r.kept p p1 p2 v r.evicted;
            needed = (ground arith, rw (used_after p p1 page rest v) r.needed);
            free = r.free;
          })
          (evict-Room k n rest p1 v.after (omega (arith, v.used)))))
