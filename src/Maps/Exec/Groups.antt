-- ===== src/Maps/Exec/Groups.antt =====
-- The groups of pages that the loop gives their protection.
use secpoline.Base.{
  ◌==◌, done, page_size, ℕ, zero, suc, ◌+◌, ◌-◌, ◌*◌, ◌<◌, ◌≡◌, refl, ap, ◌∙◌, false, arith,
}
use secpoline.Maps.World.{World}
use secpoline.Maps.Exec.{
  Group, Loop, crossing, open_group, drop_previous, flush_group, place_page, scan_step, scan_pages,
  no_group,
}

-- The scans of `n` pages find nothing: neither on the page nor over its border.
abbrev pub Clean : Loop → ℕ → ℕ → ℕ → World → World → Type 0
Clean l zero page prev w w' = w ≡ w'
Clean l (suc n) page prev w w' =
    (w1 : World) × (p : ℕ) × (l.scan page prev w ≡ done (w1, false, p))
    × ((p == crossing) ≡ false)
    × Clean l n (page + page_size) page w1 w'

abbrev group_at : ℕ → ℕ → ℕ → Group
group_at start size prev = record { start_group = start; group_size = size; prev_page = prev }

scan_step_clean :
    (l : Loop) (page start size prev p : ℕ) (w w1 : World)
    → 0 < start
    → l.scan page prev w ≡ done (w1, false, p)
    → (p == crossing) ≡ false
    → scan_step l page (group_at start size prev) w
      ≡ done (group_at start (size + page_size) page, w1)
unfolding scan_step open_group drop_previous flush_group place_page
scan_step_clean l page start size prev p w w1 pos run off =
    let e : (start == 0) ≡ false = ground arith in rw (e, run, off) refl

scan_pages_from :
    (l : Loop) (n page start size prev : ℕ) (w w' : World)
    → 0 < start
    → 0 < size
    → Clean l n page prev w w'
    → scan_pages l n page (group_at start size prev) w
      ≡ l.commit start (size + n * page_size) l.prot w'
unfolding scan_pages
scan_pages_from l zero page start size prev w w' pos filled same =
    let e : (size == 0) ≡ false = ground arith in
    let z : size ≡ size + 0 * page_size = omega arith in
    rw (e, same) (ap (λ k. l.commit start k l.prot w') z)
scan_pages_from l (suc n) page start size prev w w' pos filled (w1, p, run, off, rest) =
    let next =
      scan_pages_from l n (page + page_size) start (size + page_size) page w1 w' pos (omega arith)
        rest in
    let z : size + page_size + n * page_size ≡ size + suc n * page_size = omega arith in
    rw (scan_step_clean l page start size prev p w w1 pos run off)
      (next ∙ ap (λ k. l.commit start k l.prot w') z)

scan_step_first :
    (l : Loop) (page p : ℕ) (w w1 : World)
    → 0 < page
    → l.scan page 0 w ≡ done (w1, false, p)
    → (p == crossing) ≡ false
    → scan_step l page no_group w ≡ done (group_at page page_size page, w1)
unfolding scan_step open_group drop_previous flush_group place_page
scan_step_first l page p w w1 pos run off = rw (run, off) refl

-- The loop over `n + 1` pages in which no scan finds anything, neither on a page nor over a border,
-- gives the whole range its protection at once, and nothing else, after the last scan. The range
-- does
-- not start at 0.
pub scan_pages-Clean :
    (l : Loop) (n start : ℕ) (w w' : World)
    → 0 < start
    → Clean l (suc n) start 0 w w'
    → scan_pages l (suc n) start no_group w ≡ l.commit start (suc n * page_size) l.prot w'
unfolding scan_pages
scan_pages-Clean l n start w w' pos (w1, p, run, off, rest) =
    let next =
      scan_pages_from l n (start + page_size) start page_size start w1 w' pos (omega arith) rest in
    let z : page_size + n * page_size ≡ suc n * page_size = omega arith in
    rw (scan_step_first l start p w w1 pos run off) (next ∙ ap (λ k. l.commit start k l.prot w') z)

-- The bug over a border: when nothing is found on two pages, but an instruction that starts on the
-- first goes over to the second, the loop gives the first page the protection for unsafe pages, and
-- at the end the wanted, executable one again; the second page gets none. The range does not start
-- at
-- 0.
pub scan_pages_reopened :
    (l : Loop) (start p : ℕ) (w w1 w2 w3 : World)
    → 0 < start
    → l.scan start 0 w ≡ done (w1, false, p)
    → (p == crossing) ≡ false
    → l.scan (start + page_size) start w1 ≡ done (w2, false, crossing)
    → l.commit start page_size l.unsafe_prot w2 ≡ done w3
    → scan_pages l 2 start no_group w ≡ l.commit start page_size l.prot w3
unfolding scan_pages scan_step open_group drop_previous flush_group place_page
scan_pages_reopened l start p w w1 w2 w3 pos first off second unsafe =
    let e : (start == 0) ≡ false = ground arith in
    let back : start + page_size - page_size ≡ start = omega arith in
    rw (scan_step_first l start p w w1 pos first off, e, second, back, unsafe) refl
