-- ===== src/Segfault/Bounds.antt =====
-- The counters of the breakpoint controller, and its four breakpoints.
use secpoline.Base.{
  leb, ◌==◌, if◌then◌else◌, length, done, Ensures, returned, trapped, Ensures-bind, Ensures-assert,
  Ensures-done, Ensures-then, Ensures-weaken, Ensures-run, ℕ, zero, suc, ◌+◌, ◌-◌, ◌≤◌, ◌≡◌, refl,
  sym, ap, ◌∙◌, Bool, true, false, not, Option, none, some, List, [], ◌∷◌, ◌++◌, map, arith,
}
use secpoline.Erim.Pages.{UnsafePage}
use secpoline.Segfault.Pages.{WatchedPage, Controller, Kernel, Process}
use secpoline.Segfault.Breakpoints.{
  max_hbreakpoints, set_from, set_hbreakpoint, count_in, set_each, first_of, read_instructions,
  append_watched, add_watched_page, close_each,
}

unfoldable pub total : List WatchedPage → ℕ
total [] = 0
total (page ∷ pages) = length page + total pages

-- The counters say what the lists hold, and the four breakpoints suffice for it.
abbrev pub Balanced : Controller → Type 0
Balanced c =
    (c.used_breakpoints ≡ total c.static_hbreakpoints + total c.dynamic_hbreakpoints)
    × (c.max_dynamic_breakpoints + total c.static_hbreakpoints ≡ max_hbreakpoints)
    × (c.used_breakpoints ≤ max_hbreakpoints)

total-append :
    (ps : List WatchedPage) (w : WatchedPage) → total (ps ++ w ∷ []) ≡ total ps + length w
unfolding total
total-append [] w = omega arith
total-append (p ∷ ps) w = omega (arith, total-append ps w)

-- The rest of the state stays as it is, the descriptors that are left apart.
abbrev pub SameLists : Process → Process → Type 0
SameLists p p' =
    (p'.controller.static_hbreakpoints ≡ p.controller.static_hbreakpoints)
    × (p'.controller.dynamic_hbreakpoints ≡ p.controller.dynamic_hbreakpoints)
    × (p'.unsafe_pages ≡ p.unsafe_pages)

abbrev pub Released : ℕ → Process → Process → Type 0
Released n p p' =
    (p'.controller.used_breakpoints + n ≡ p.controller.used_breakpoints)
    × (p'.controller.max_dynamic_breakpoints ≡ p.controller.max_dynamic_breakpoints)
    × SameLists p p'

abbrev one_released : Process → Process
one_released p = record p {
  controller = record p.controller { used_breakpoints = p.controller.used_breakpoints - 1 };
}

pub close_each-Released :
    (k : Kernel) (page : WatchedPage) (p : Process)
    → length page ≤ p.controller.used_breakpoints
    → Ensures (Released (length page) p) (close_each k page p)
unfolding close_each
close_each-Released k [] p h = returned {a = p} (omega arith, refl, (refl, refl, refl))
close_each-Released k (b ∷ bs) p h = Ensures-assert (not (b.fd == 0)) (λ _.
    Ensures-assert (k.close b.fd) (λ _.
      Ensures-weaken (λ p' e. (omega (arith, e), e.1, e.2))
        (close_each-Released k bs (one_released p) (omega arith))))

-- `n` breakpoints have been counted.
abbrev pub Counted : Bool → ℕ → Process → Process → Type 0
Counted is_static n p p' =
    (p'.controller.used_breakpoints ≡ p.controller.used_breakpoints + n)
    × (p'.controller.max_dynamic_breakpoints + (if is_static then n else 0)
        ≡ p.controller.max_dynamic_breakpoints)
    × SameLists p p'

set_from-SameLists :
    (fds : List ℕ) (p : Process) → Ensures (λ set. Counted false 0 p (set.0)) (set_from fds p)
unfolding set_from
set_from-SameLists [] p = trapped
set_from-SameLists (fd ∷ rest) p = returned (omega arith, omega arith, (refl, refl, refl))

count_in-Counted :
    (s : Bool) (n : ℕ) (p p1 p2 : Process)
    → (if s then suc n else 0) ≤ p.controller.max_dynamic_breakpoints
    → Counted false 0 p p1
    → Counted s n (count_in s p1) p2
    → Counted s (suc n) p p2
count_in-Counted true n p p1 p2 h c d =
    (omega (arith, c, d), omega (arith, c, d), (d.2.0 ∙ c.2.0, d.2.1 ∙ c.2.1, d.2.2 ∙ c.2.2))
count_in-Counted false n p p1 p2 h c d =
    (omega (arith, c, d), omega (arith, c, d), (d.2.0 ∙ c.2.0, d.2.1 ∙ c.2.1, d.2.2 ∙ c.2.2))

room :
    (s : Bool) (n : ℕ) (p p1 : Process)
    → (if s then suc n else 0) ≤ p.controller.max_dynamic_breakpoints
    → Counted false 0 p p1
    → (if s then n else 0) ≤ (count_in s p1).controller.max_dynamic_breakpoints
room true n p p1 h c = omega (arith, c)
room false n p p1 h c = omega (arith, c)

abbrev pub SetEach : Bool → List ℕ → Process → Process × WatchedPage → Type 0
SetEach s addresses p (p', page) =
    (map (λ b. b.address) page ≡ addresses) × Counted s (length addresses) p p'

pub set_each-SetEach :
    (s : Bool) (addresses : List ℕ) (p : Process)
    → (if s then length addresses else 0) ≤ p.controller.max_dynamic_breakpoints
    → Ensures (SetEach s addresses p) (set_each s addresses p)
unfolding set_each set_hbreakpoint
set_each-SetEach s [] p h = returned {a = (p, [])} (refl, ground arith)
set_each-SetEach s (a ∷ addresses) p h = Ensures-bind (set_from-SameLists p.fds p) (λ set c.
    Ensures-bind
      (set_each-SetEach s addresses (count_in s (set.0)) (room s (length addresses) p (set.0) h c))
      (λ (p', page) e.
        returned (ap (◌∷◌ a) (e.0), count_in-Counted s (length addresses) p (set.0) p' h c (e.1))))

first_of-length : (n : ℕ) (xs : List ℕ) → Ensures (λ ys. length ys ≡ n) (first_of n xs)
unfolding first_of
first_of-length zero xs = returned refl
first_of-length (suc n) [] = trapped
first_of-length (suc n) (x ∷ xs) = Ensures-bind (first_of-length n xs) (λ ys e. returned (ap suc e))

map-length : (ys : WatchedPage) → length (map (λ b. b.address) ys) ≡ length ys
map-length [] = refl
map-length (y ∷ ys) = ap suc (map-length ys)

read_instructions-length :
    (u : UnsafePage) (o : Option (List ℕ)) (ys : List ℕ)
    → read_instructions u o ≡ done ys
    → length ys ≡ u.unsafe_instructions_size
unfolding read_instructions
read_instructions-length u none ys e =
    Ensures-done (first_of-length u.unsafe_instructions_size []) e
read_instructions-length u (some xs) ys e =
    Ensures-done (first_of-length u.unsafe_instructions_size xs) e

-- What `add_watched_page` has done when it returns: one page with the instructions is watched.
pub record Added (u : UnsafePage) (s : Bool) (p p' : Process) : Type 0 where
  pub page : WatchedPage
  pub read : read_instructions u u.unsafe_instructions ≡ done (map (λ b. b.address) page)
  pub size : length page ≡ u.unsafe_instructions_size
  pub fits : u.unsafe_instructions_size + p.controller.used_breakpoints ≤ max_hbreakpoints
  pub used :
      p'.controller.used_breakpoints ≡ p.controller.used_breakpoints + u.unsafe_instructions_size
  pub max :
      p'.controller.max_dynamic_breakpoints + (if s then u.unsafe_instructions_size else 0)
      ≡ p.controller.max_dynamic_breakpoints
  pub statics : p'.controller.static_hbreakpoints ≡ (
      if s then p.controller.static_hbreakpoints ++ page ∷ [] else p.controller.static_hbreakpoints)
  pub dynamics : p'.controller.dynamic_hbreakpoints ≡ (
      if s
      then p.controller.dynamic_hbreakpoints
      else p.controller.dynamic_hbreakpoints ++ page ∷ [])
  pub same : p'.unsafe_pages ≡ p.unsafe_pages

watch : Bool → WatchedPage → Process → Process
watch s page p = record p { controller = append_watched s page p.controller }

Added-watch :
    (u : UnsafePage) (s : Bool) (p p1 : Process) (page : WatchedPage) (addresses : List ℕ)
    → read_instructions u u.unsafe_instructions ≡ done addresses
    → leb (u.unsafe_instructions_size + p.controller.used_breakpoints) max_hbreakpoints ≡ true
    → SetEach s addresses p (p1, page)
    → Added u s p (watch s page p1)
unfolding watch
Added-watch u true p p1 page addresses r f (e, (used, max, (st, dy, us))) =
    let len = read_instructions-length u u.unsafe_instructions addresses r in
    record {
      page = page;
      read = rw e r;
      size = sym (map-length page) ∙ ap length e ∙ len;
      fits = ground arith;
      used = rw len at used;
      max = rw len at max;
      statics = ap (λ ps. ps ++ page ∷ []) st;
      dynamics = dy;
      same = us;
    }
Added-watch u false p p1 page addresses r f (e, (used, max, (st, dy, us))) =
    let len = read_instructions-length u u.unsafe_instructions addresses r in
    record {
      page = page;
      read = rw e r;
      size = sym (map-length page) ∙ ap length e ∙ len;
      fits = ground arith;
      used = rw len at used;
      max = max;
      statics = st;
      dynamics = ap (λ ps. ps ++ page ∷ []) dy;
      same = us;
    }

fits_in :
    (s : Bool) (n m k : ℕ) → (if s then leb n k else true) ≡ true → m ≡ n → (if s then m else 0) ≤ k
fits_in true n m k h e = ground arith
fits_in false n m k h e = omega arith

pub add_watched_page-Added :
    (u : UnsafePage) (s : Bool) (p : Process) → Ensures (Added u s p) (add_watched_page u s p)
unfolding add_watched_page watch
add_watched_page-Added u s p =
    let n = u.unsafe_instructions_size in
    Ensures-assert (leb (n + p.controller.used_breakpoints) max_hbreakpoints) (λ fits.
      Ensures-assert (if s then leb n p.controller.max_dynamic_breakpoints else true) (λ small.
        Ensures-then _ (λ _.
          Ensures-bind (Ensures-run (read_instructions u u.unsafe_instructions)) (λ addresses r.
            Ensures-bind
              (set_each-SetEach s addresses p (
                fits_in s n (length addresses) p.controller.max_dynamic_breakpoints small
                  (read_instructions-length u u.unsafe_instructions addresses r)))
              (λ (p1, page) e. returned (Added-watch u s p p1 page addresses r fits e))))))

-- A page more keeps the balance.
pub Added-Balanced :
    (u : UnsafePage) (s : Bool) (p p' : Process)
    → Added u s p p'
    → Balanced p.controller
    → Balanced p'.controller
Added-Balanced u true p p' a (b, m, le) =
    let st = total-append p.controller.static_hbreakpoints a.page in
    (
      rw (a.statics, a.dynamics, st) (omega (arith, a.used, a.size)),
      rw (a.statics, st) (omega (arith, a.max, a.size)),
      omega (arith, a.used, a.fits),
    )
Added-Balanced u false p p' a (b, m, le) =
    let dy = total-append p.controller.dynamic_hbreakpoints a.page in
    (
      rw (a.statics, a.dynamics, dy) (omega (arith, a.used, a.size)),
      rw a.statics (omega (arith, a.max)),
      omega (arith, a.used, a.fits),
    )
