-- ===== src/PageManager/Remove.antt =====
-- `remove_page_locked`: the walk that finds and checks the range, then the removal.
pub mod Walk
pub mod Effect
pub mod Correct
use secpoline.Base.{
  Run, ℕ, suc, ◌+◌, ◌%◌, ◌≡◌, Bool, true, false, not, ◌&&◌, ◌||◌, Option, none, some, List, [], ◌∷◌,
  ◌++◌, ltb, leb, ◌==◌, if◌then◌else◌, done, trap, ◌>>=◌, ◌>>◌, nolibc_assert, page_size, ptr_add,
  page_align,
}
use secpoline.Base.{length}
use secpoline.VirtPage.{VirtPage, page_end, shorten, advance}
use secpoline.PageManager.State.{
  Manager, Status, success, failure, succeed, insert_after, virt_page_alloc, virt_page_free,
}

-- The groups that the walk has passed since `start_page`, `end_page`, and the groups behind it.
pub record Span : Type 0 where
  pub passed : List VirtPage
  pub end_page : VirtPage
  pub after : List VirtPage

-- The groups up to `prev_page`, and the range. With nothing passed, `start_page` is `end_page`.
pub record Cut : Type 0 where
  pub before : List VirtPage
  pub span : Span

abbrev pub pass : VirtPage → Run (Option Span) → Run (Option Span)
pass g trap = trap
pass g (done none) = done none
pass g (done (some s)) = done (some (record s { passed = g ∷ s.passed }))

abbrev pub begin_behind : VirtPage → Run (Option Span) → Run (Option Cut)
begin_behind g trap = trap
begin_behind g (done none) = done none
begin_behind g (done (some s)) = done (some (record { before = g ∷ []; span = s }))

abbrev pub skip : VirtPage → Run (Option Cut) → Run (Option Cut)
skip g trap = trap
skip g (done none) = done none
skip g (done (some c)) = done (some (record c { before = g ∷ c.before }))

-- The loop once `start_page` is known, at `next_page`.
unfoldable pub reach_end : ℕ → ℕ → VirtPage → List VirtPage → Run (Option Span)
reach_end end cid next_page [] =
    if not (next_page.cid == cid)
    then done none
    else if leb end (page_end next_page)
    then if leb end next_page.start
      then trap
      else done (some (record { passed = []; end_page = next_page; after = [] }))
    else done none
reach_end end cid next_page (g ∷ gs) =
    if not (next_page.cid == cid)
    then done none
    else if leb end (page_end next_page)
    then if leb end next_page.start
      then trap
      else done (some (record { passed = []; end_page = next_page; after = g ∷ gs }))
    else if page_end next_page == g.start
    then pass next_page (reach_end end cid g gs)
    else done none

-- The loop up to the group that holds `start`, at `current_page`.
unfoldable pub find_start : ℕ → ℕ → ℕ → VirtPage → List VirtPage → Run (Option Cut)
unfolding reach_end
find_start start end cid current_page [] = done none
find_start start end cid current_page (next_page ∷ []) = done none
find_start start end cid current_page (next_page ∷ g ∷ gs) =
    if ltb start (page_end next_page)
    then if ltb start next_page.start || leb (page_end next_page) start
      then trap
      else begin_behind current_page (reach_end end cid next_page (g ∷ gs))
    else skip current_page (find_start start end cid next_page (g ∷ gs))

-- The edge case: `start` lies between the first two groups, `start_page` is the first group and
-- `prev_page` is NULL. A range that is found is never a single group, and `prev_page->next` traps.
first_group : Run (Option Span) → Run (Option Cut)
first_group trap = trap
first_group (done none) = done none
first_group (done (some s)) = trap

unfoldable pub find_cut : ℕ → ℕ → ℕ → VirtPage → VirtPage → List VirtPage → Run (Option Cut)
unfolding find_start first_group
find_cut start end cid g next_page gs =
    if ltb start (page_end g)
    then done none
    else if ltb start next_page.start
    then first_group (reach_end end cid next_page gs)
    else find_start start end cid g (next_page ∷ gs)

-- The range lies in one group `g`.
unfoldable pub remove_within :
    ℕ → ℕ → List VirtPage → VirtPage → List VirtPage → Manager → Run (Manager × Status)
remove_within start end before g after pm =
    if g.start == start && page_end g == end
    then succeed (virt_page_free 1 (record pm { pages = before ++ after }))
    else if g.start == start
    then succeed (record pm { pages = before ++ advance g end ∷ after })
    else if page_end g == end
    then succeed (record pm { pages = before ++ shorten g start ∷ after })
    else do
      pm' ← virt_page_alloc (record pm { pages = before ++ shorten g start ∷ after })
      succeed (record pm' { pages = insert_after g.start (advance g end) pm'.pages })

-- What is left of the first and of the last group.
abbrev pub left_part : ℕ → VirtPage → List VirtPage
left_part start g = if start == g.start then [] else shorten g start ∷ []

abbrev pub right_part : ℕ → VirtPage → List VirtPage
right_part end g = if end == page_end g then [] else advance g end ∷ []

-- The range spans `start_page`, whole groups, and `end_page`.
unfoldable pub remove_across :
    ℕ
    → ℕ
    → List VirtPage
    → VirtPage
    → List VirtPage
    → VirtPage
    → List VirtPage
    → Manager
    → Run (Manager × Status)
remove_across start end before start_page between end_page after pm = succeed (
    virt_page_free
      ((if start == start_page.start then 1 else 0)
        + length between
        + (if end == page_end end_page then 1 else 0))
      (record pm {
        pages = before ++ (left_part start start_page ++ (right_part end end_page ++ after));
      }))

remove_span :
    ℕ
    → ℕ
    → List VirtPage
    → List VirtPage
    → VirtPage
    → List VirtPage
    → Manager
    → Run (Manager × Status)
unfolding remove_within remove_across
remove_span start end before [] end_page after pm = remove_within start end before end_page after pm
remove_span start end before (start_page ∷ between) end_page after pm =
    remove_across start end before start_page between end_page after pm

remove_cut : ℕ → ℕ → Option Cut → Manager → Run (Manager × Status)
unfolding remove_span
remove_cut start end none pm = done (pm, failure)
remove_cut start end (some c) pm =
    remove_span start end c.before c.span.passed c.span.end_page c.span.after pm

-- The checks on the size and on the alignment, in the code's order.
remove_range : ℕ → ℕ → ℕ → VirtPage → VirtPage → List VirtPage → Manager → Run (Manager × Status)
unfolding find_cut remove_cut
remove_range start size cid g next_page gs pm = do
  nolibc_assert (start % page_size == 0)
  if size == 0 then done (pm, failure) else do
    cut ← find_cut start (ptr_add start size) cid g next_page gs
    remove_cut start (ptr_add start size) cut pm

remove_from : ℕ → ℕ → ℕ → List VirtPage → Manager → Run (Manager × Status)
unfolding remove_range
remove_from start size cid [] pm = done (pm, failure)
remove_from start size cid (g ∷ []) pm = done (pm, failure)
remove_from start size cid (g ∷ next_page ∷ gs) pm =
    remove_range start (page_align size) cid g next_page gs pm

unfoldable pub remove_page : ℕ → ℕ → ℕ → Manager → Run (Manager × Status)
unfolding remove_from
remove_page start size cid pm = remove_from start size cid pm.pages pm
