-- ===== src/Segfault/Guard.antt =====
-- The pages that the list has as executable, and the breakpoints on their unsafe instructions.
use secpoline.Base.{
  Bool-cases, length, elem, done, page_size, ℕ, ◌*◌, ◌/◌, ◌≡◌, refl, sym, ap, ◌∙◌, inl, inr, Bool,
  true, false, ◌||◌, some, List, [], ◌∷◌, ◌++◌, map, arith,
}
use secpoline.Erim.Pages.{UnsafePage, find_page}
use secpoline.Segfault.Pages.{WatchedPage, Controller, Kernel, Process, is_exec}
use secpoline.Segfault.Breakpoints.{first_of, read_instructions, add_breakpoints}
use secpoline.Segfault.Bounds.{Balanced}
use secpoline.Segfault.Close.{SameCode}
use secpoline.Segfault.Evict.{page_address}
use secpoline.Segfault.Watch.{add_breakpoints-Fifo}

unfoldable pub watches : ℕ → List WatchedPage → Bool
watches i [] = false
watches i (w ∷ ws) = elem i (map (λ b. b.address) w) || watches i ws

abbrev pub is_watched : ℕ → Controller → Bool
is_watched i c = watches i c.static_hbreakpoints || watches i c.dynamic_hbreakpoints

abbrev pub page_of_address : ℕ → ℕ
page_of_address i = i / page_size * page_size

-- The instructions of every page that is listed as executable lie on that page and are watched.
abbrev pub Guarded : Process → Type 0
Guarded p =
    (a : ℕ) (u : UnsafePage) (xs : List ℕ) (i : ℕ)
    → find_page a p.unsafe_pages ≡ some u
    → is_exec u.current_perm ≡ true
    → u.unsafe_instructions ≡ some xs
    → elem i xs ≡ true
    → (page_of_address i ≡ a) × (is_watched i p.controller ≡ true)

-- The breakpoints of a watched page lie on one page.
abbrev pub OnePage : WatchedPage → Type 0
OnePage w = (i : ℕ) → elem i (map (λ b. b.address) w) ≡ true → page_of_address i ≡ page_address w

abbrev pub Tidy : List WatchedPage → Type 0
Tidy [] = Unit {0}
Tidy (w ∷ ws) = OnePage w × Tidy ws

Tidy-split : (gone kept : List WatchedPage) → Tidy (gone ++ kept) → Tidy gone × Tidy kept
Tidy-split [] kept t = (tt, t)
Tidy-split (w ∷ gone) kept t = let (g, k) = Tidy-split gone kept t.1 in ((t.0, g), k)

Tidy-append : (ws : List WatchedPage) (w : WatchedPage) → Tidy ws → OnePage w → Tidy (ws ++ w ∷ [])
Tidy-append [] w t o = (o, tt)
Tidy-append (v ∷ ws) w t o = (t.0, Tidy-append ws w t.1 o)

watches-append :
    (i : ℕ) (ws vs : List WatchedPage) → watches i (ws ++ vs) ≡ (watches i ws || watches i vs)
unfolding watches
watches-append i [] vs = refl
watches-append i (w ∷ ws) vs = ground (arith, watches-append i ws vs)

-- An instruction of a page that stays is not watched by the pages that go.
watches-gone :
    (i : ℕ) (gone : List WatchedPage)
    → Tidy gone
    → elem (page_of_address i) (map page_address gone) ≡ false
    → watches i gone ≡ false
unfolding watches
watches-gone i [] t h = refl
watches-gone i (w ∷ gone) (o, t) h = elim (Bool-cases (elem i (map (λ b. b.address) w))) [
  | inl e ↦ absurd (apart i (page_of_address i) w gone (o i e) h)
  | inr e ↦ rw e (watches-gone i gone t (elem-tail (page_of_address i) (page_address w) _ h))
]
  where
    apart :
        (i a : ℕ) (w : WatchedPage) (gone : List WatchedPage)
        → a ≡ page_address w
        → elem a (map page_address (w ∷ gone)) ≡ false
        → ⊥
    apart i a w gone same h = ground (arith, same, h)

    elem-tail : (a b : ℕ) (bs : List ℕ) → elem a (b ∷ bs) ≡ false → elem a bs ≡ false
    elem-tail a b bs h = ground (arith, h)

first_of_all : (xs : List ℕ) → first_of (length xs) xs ≡ done xs
unfolding first_of
first_of_all [] = refl
first_of_all (x ∷ xs) = rw (first_of_all xs) refl

read_all :
    (u : UnsafePage) (xs ys : List ℕ)
    → u.unsafe_instructions ≡ some xs
    → u.unsafe_instructions_size ≡ length xs
    → read_instructions u u.unsafe_instructions ≡ done ys
    → ys ≡ xs
unfolding read_instructions
read_all u xs ys list size read =
    let e : read_instructions u (some xs) ≡ done xs = rw size (first_of_all xs) in
    let e' : read_instructions u u.unsafe_instructions ≡ done xs =
      ap (read_instructions u) list ∙ e in
    cc

OnePage-of :
    (page : WatchedPage) (xs : List ℕ) (a : ℕ)
    → map (λ b. b.address) page ≡ xs
    → ((i : ℕ) → elem i xs ≡ true → page_of_address i ≡ a)
    → OnePage page
OnePage-of [] xs a e on i h = absurd (ground arith)
OnePage-of (b ∷ bs) xs a e on i h =
    let first : elem b.address (map (λ b. b.address) (b ∷ bs)) ≡ true = ground arith in
    on i (sym (ap (elem i) e) ∙ h) ∙ sym (on b.address (sym (ap (elem b.address) e) ∙ first))

-- What is watched stays watched unless its page goes.
watched_after :
    (i : ℕ) (gone kept statics : List WatchedPage) (page : WatchedPage)
    → watches i gone ≡ false
    → (watches i statics || watches i (gone ++ kept)) ≡ true
    → (watches i statics || watches i (kept ++ page ∷ [])) ≡ true
watched_after i gone kept statics page h w =
    ground (arith, watches-append i gone kept, watches-append i kept (page ∷ []))

watched_new :
    (i : ℕ) (kept statics : List WatchedPage) (page : WatchedPage)
    → elem i (map (λ b. b.address) page) ≡ true
    → (watches i statics || watches i (kept ++ page ∷ [])) ≡ true
unfolding watches
watched_new i kept statics page h = ground (arith, watches-append i kept (page ∷ []))

-- `add_breakpoints` for a page that is not static, when it returns, keeps the pages
-- guarded that are listed as executable: every unsafe instruction of theirs is still watched, although older
-- pages have lost their breakpoints, and the new page's instructions are watched as well. No page's
-- instructions change. The
-- breakpoints of each watched page lie on one page, before and afterwards. Conditions: the counters
-- are in balance, and the new page's vector has the size it says and holds addresses of the page.
pub add_breakpoints-Guarded :
    (k : Kernel) (u : UnsafePage) (xs : List ℕ) (p p' : Process)
    → Balanced p.controller
    → Tidy p.controller.dynamic_hbreakpoints
    → Guarded p
    → u.unsafe_instructions ≡ some xs
    → u.unsafe_instructions_size ≡ length xs
    → ((i : ℕ) → elem i xs ≡ true → page_of_address i ≡ u.address)
    → add_breakpoints k u false p ≡ done p'
    → Guarded p'
      × Tidy p'.controller.dynamic_hbreakpoints
      × ((i : ℕ) → elem i xs ≡ true → is_watched i p'.controller ≡ true)
      × SameCode p.unsafe_pages p'.unsafe_pages
add_breakpoints-Guarded k u xs p p' b t g list size on run =
    let (gone, kept, page, before, after, statics, read, needed, retained, code) =
      add_breakpoints-Fifo k u p p' b run in
    let same = read_all u xs _ list size read in
    let tidy : Tidy (gone ++ kept) = rw before at t in
    let (tidy_gone, tidy_kept) = Tidy-split gone kept tidy in
    (
      λ a v ys i found exec its member.
          let (away, found0) = retained a v found exec in
          let (here, watched) = g a v ys i found0 exec its member in
          (
            here,
            rw (statics, after)
                (watched_after i gone kept p.controller.static_hbreakpoints page
                  (watches-gone i gone tidy_gone (rw (sym here) at away)) (rw before at watched)),
          ),
      rw after (Tidy-append kept page tidy_kept (OnePage-of page xs u.address same on)),
      λ i member.
          rw (statics, after)
            (watched_new i kept p.controller.static_hbreakpoints page (rw (sym same) at member)),
      code,
    )
