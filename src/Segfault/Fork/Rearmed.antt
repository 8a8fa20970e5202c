-- ===== src/Segfault/Fork/Rearmed.antt =====
-- A process after a fork watches what its parent watched.
use secpoline.Base.{
  ◌==◌, if◌then◌else◌, ==_iff, length, length-append, done, ◌>>◌, nolibc_assert, Ensures-done, ℕ,
  suc, ◌+◌, ◌≤◌, ◌≡◌, refl, sym, ap, ◌∙◌, Bool, true, false, List, [], ◌∷◌, ◌++◌, map, arith,
}
use secpoline.Segfault.Pages.{WatchedPage, Process}
use secpoline.Segfault.Breakpoints.{set_from, set_hbreakpoint, count_in, set_each}
use secpoline.Segfault.Bounds.{total, Balanced, Counted, set_each-SetEach}
use secpoline.Segfault.Fork.{set_pages, start_over, with_pages, set_all_hbreakpoits}

abbrev pub addresses : List WatchedPage → List (List ℕ)
addresses pages = map (λ page. map (λ b. b.address) page) pages

unfoldable pub descriptors : List WatchedPage → List ℕ
descriptors [] = []
descriptors (page ∷ pages) = map (λ b. b.fd) page ++ descriptors pages

map-length' : (ys : WatchedPage) → length (map (λ b. b.address) ys) ≡ length ys
map-length' [] = refl
map-length' (y ∷ ys) = ap suc (map-length' ys)

-- The events have the next descriptors, in order.
abbrev Served : Bool → List ℕ → Process → Type 0
Served s wanted p =
    (p' : Process) × (page : WatchedPage) × (set_each s wanted p ≡ done (p', page))
    × (map (λ b. b.fd) page ++ p'.fds ≡ p.fds)

set_hbreakpoint_next :
    (fd : ℕ) (fds : List ℕ) (p : Process)
    → p.fds ≡ fd ∷ fds
    → set_hbreakpoint p ≡ done (record p { fds = fds }, fd)
unfolding set_hbreakpoint set_from
set_hbreakpoint_next fd fds p e = ap (λ l. set_from l p) e

set_each-Served :
    (s : Bool) (wanted fds : List ℕ) (p : Process)
    → p.fds ≡ fds
    → length wanted ≤ length fds
    → Served s wanted p
unfolding set_each
set_each-Served s [] fds p e h = (p, [], refl, refl)
set_each-Served s (a ∷ wanted) [] p e h = absurd (omega (arith, h))
set_each-Served s (a ∷ wanted) (fd ∷ fds) p e h =
    let (p', page, run, served) =
      set_each-Served s wanted fds (count_in s (record p { fds = fds })) refl (omega (arith, h)) in
    (
      p',
      record { address = a; fd = fd } ∷ page,
      rw (set_hbreakpoint_next fd fds p e) (rw run refl),
      ap (◌∷◌ fd) served ∙ sym e,
    )

-- A list of pages is watched again, with the next descriptors.
abbrev Again : Bool → List WatchedPage → Process → Type 0
Again s pages p =
    (p' : Process) × (pages' : List WatchedPage) × (set_pages s pages p ≡ done (p', pages'))
    × (addresses pages' ≡ addresses pages)
    × (descriptors pages' ++ p'.fds ≡ p.fds)
    × Counted s (total pages) p p'

append_assoc : (xs ys zs : List ℕ) → (xs ++ ys) ++ zs ≡ xs ++ (ys ++ zs)
append_assoc [] ys zs = refl
append_assoc (x ∷ xs) ys zs = ap (◌∷◌ x) (append_assoc xs ys zs)

map-fds : (page : WatchedPage) → length (map (λ b. b.fd) page) ≡ length page
map-fds [] = refl
map-fds (b ∷ bs) = ap suc (map-fds bs)

Counted-add :
    (s : Bool) (n m : ℕ) (p p1 p2 : Process)
    → Counted s n p p1
    → Counted s m p1 p2
    → Counted s (n + m) p p2
Counted-add true n m p p1 p2 c d =
    (omega (arith, c, d), omega (arith, c, d), (d.2.0 ∙ c.2.0, d.2.1 ∙ c.2.1, d.2.2 ∙ c.2.2))
Counted-add false n m p p1 p2 c d =
    (omega (arith, c, d), omega (arith, c, d), (d.2.0 ∙ c.2.0, d.2.1 ∙ c.2.1, d.2.2 ∙ c.2.2))

fewer :
    (s : Bool) (n m : ℕ) (p p1 : Process)
    → (if s then n + m else 0) ≤ p.controller.max_dynamic_breakpoints
    → Counted s n p p1
    → (if s then m else 0) ≤ p1.controller.max_dynamic_breakpoints
fewer true n m p p1 h c = omega (arith, c, h)
fewer false n m p p1 h c = omega arith

part : (s : Bool) (n m k : ℕ) → (if s then n + m else 0) ≤ k → (if s then n else 0) ≤ k
part true n m k h = omega (arith, h)
part false n m k h = omega arith

set_pages-step :
    (s : Bool) (w w' : WatchedPage) (ws ws' : List WatchedPage) (p p1 p2 : Process)
    → set_each s (map (λ b. b.address) w) p ≡ done (p1, w')
    → set_pages s ws p1 ≡ done (p2, ws')
    → set_pages s (w ∷ ws) p ≡ done (p2, w' ∷ ws')
unfolding set_pages
set_pages-step s w w' ws ws' p p1 p2 e e' = rw e (rw e' refl)

set_pages-Again :
    (s : Bool) (pages : List WatchedPage) (p : Process)
    → total pages ≤ length p.fds
    → (if s then total pages else 0) ≤ p.controller.max_dynamic_breakpoints
    → Again s pages p
unfolding set_pages total descriptors
set_pages-Again s [] p h k = (p, [], refl, refl, refl, ground arith)
set_pages-Again s (w ∷ ws) p h k =
    let wanted = map (λ b. b.address) w in
    let len : length wanted ≡ length w = map-length' w in
    let (p1, w1, run, served) = set_each-Served s wanted p.fds p refl (omega (arith, h, len)) in
    let small = part s (length w) (total ws) p.controller.max_dynamic_breakpoints k in
    let small' : (if s then length wanted else 0) ≤ p.controller.max_dynamic_breakpoints =
      rw len small in
    let (same, counted) = Ensures-done (set_each-SetEach s wanted p small') run in
    let counted' : Counted s (length w) p p1 = rw len at counted in
    let left : length (map (λ b. b.fd) w1) + length p1.fds ≡ length p.fds =
      sym (length-append (map (λ b. b.fd) w1) p1.fds) ∙ ap length served in
    let len1 : length w1 ≡ length w = sym (map-length' w1) ∙ ap length same ∙ len in
    let (p2, ws2, run', same', served', counted2) =
      set_pages-Again s ws p1 (omega (arith, h, left, len1, map-fds w1))
        (fewer s (length w) (total ws) p p1 k counted') in
    (
      p2,
      w1 ∷ ws2,
      set_pages-step s w w1 ws ws2 p p1 p2 run run',
      ap (λ a. a ∷ addresses ws2) same ∙ ap (λ l. wanted ∷ l) same',
      append_assoc (map (λ b. b.fd) w1) (descriptors ws2) p2.fds
          ∙ ap (λ l. map (λ b. b.fd) w1 ++ l) served'
          ∙ served,
      Counted-add s (length w) (total ws) p p1 p2 counted' counted2,
    )

sum_lengths : List (List ℕ) → ℕ
sum_lengths [] = 0
sum_lengths (a ∷ rest) = length a + sum_lengths rest

total-addresses : (ps : List WatchedPage) → total ps ≡ sum_lengths (addresses ps)
unfolding total sum_lengths
total-addresses [] = refl
total-addresses (p ∷ ps) = omega (arith, map-length' p, total-addresses ps)

descriptors-total : (ps : List WatchedPage) → length (descriptors ps) ≡ total ps
unfolding descriptors total
descriptors-total [] = refl
descriptors-total (p ∷ ps) =
    length-append (map (λ b. b.fd) p) (descriptors ps)
    ∙ (omega (arith, map-fds p, descriptors-total ps))

descriptors-length :
    (ps qs : List WatchedPage) → addresses ps ≡ addresses qs → length (descriptors ps) ≡ total qs
descriptors-length ps qs e =
    descriptors-total ps ∙ total-addresses ps ∙ ap sum_lengths e ∙ sym (total-addresses qs)

-- Everything that was watched is watched again: the same addresses in the same order, each one with
-- a descriptor of its own, and the counters as they were.
abbrev pub Rearmed : Process → Process → Type 0
Rearmed p p' =
    (addresses p'.controller.static_hbreakpoints ≡ addresses p.controller.static_hbreakpoints)
    × (addresses p'.controller.dynamic_hbreakpoints ≡ addresses p.controller.dynamic_hbreakpoints)
    × (descriptors p'.controller.static_hbreakpoints
          ++ (descriptors p'.controller.dynamic_hbreakpoints ++ p'.fds)
        ≡ p.fds)
    × (p'.controller.used_breakpoints ≡ p.controller.used_breakpoints)
    × (p'.controller.max_dynamic_breakpoints ≡ p.controller.max_dynamic_breakpoints)

==_true : (a b : ℕ) → a ≡ b → (a == b) ≡ true
==_true a b h = (==_iff a b).1 h

assertions_pass :
    (a b : Bool) (p : Process)
    → a ≡ true
    → b ≡ true
    → (nolibc_assert a >> (nolibc_assert b >> done p)) ≡ done p
assertions_pass a b p e e' = rw e (rw e' refl)

set_all_hbreakpoits-step :
    (p p1 p2 : Process) (statics dynamics : List WatchedPage)
    → set_pages true p.controller.static_hbreakpoints (start_over p) ≡ done (p1, statics)
    → set_pages false p.controller.dynamic_hbreakpoints p1 ≡ done (p2, dynamics)
    → p2.controller.used_breakpoints ≡ p.controller.used_breakpoints
    → p2.controller.max_dynamic_breakpoints ≡ p.controller.max_dynamic_breakpoints
    → set_all_hbreakpoits p ≡ done (with_pages statics dynamics p2)
unfolding set_all_hbreakpoits
set_all_hbreakpoits-step p p1 p2 statics dynamics e e' u m = rw e (
    rw e' (
      assertions_pass (p2.controller.used_breakpoints == p.controller.used_breakpoints)
        (p2.controller.max_dynamic_breakpoints == p.controller.max_dynamic_breakpoints)
        (with_pages statics dynamics p2)
        (==_true p2.controller.used_breakpoints p.controller.used_breakpoints u)
        (==_true p2.controller.max_dynamic_breakpoints p.controller.max_dynamic_breakpoints m)))

pub set_all_hbreakpoits-Rearmed :
    (p : Process)
    → Balanced p.controller
    → p.controller.used_breakpoints ≤ length p.fds
    → (p' : Process) × (set_all_hbreakpoits p ≡ done p') × Rearmed p p'
set_all_hbreakpoits-Rearmed p b h =
    let (p1, statics, run, same, served, counted) =
      set_pages-Again true p.controller.static_hbreakpoints (start_over p) (omega (arith, b, h))
        (omega (arith, b)) in
    let left : length (descriptors statics) + length p1.fds ≡ length p.fds =
      sym (length-append (descriptors statics) p1.fds) ∙ ap length served in
    let size : length (descriptors statics) ≡ total p.controller.static_hbreakpoints =
      descriptors-length statics p.controller.static_hbreakpoints same in
    let (p2, dynamics, run', same', served', counted') =
      set_pages-Again false p.controller.dynamic_hbreakpoints p1 (omega (arith, b, h, left, size))
        (omega arith) in
    (
      with_pages statics dynamics p2,
      set_all_hbreakpoits-step p p1 p2 statics dynamics run run'
          (omega (arith, b, counted, counted')) (omega (arith, b, counted, counted')),
      (
        same,
        same',
        ap (λ l. descriptors statics ++ l) served' ∙ served,
        omega (arith, b, counted, counted'),
        omega (arith, b, counted, counted'),
      ),
    )
