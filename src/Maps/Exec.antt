-- ===== src/Maps/Exec.antt =====
-- `scan_exec_mapping` and `scan_exec_mapping_mprotect`, which run the same loop: they differ in how
-- a group of pages gets its protection, and in what they do to the group once it has.
pub mod Groups
use secpoline.Base.{
  ltb, leb, ◌==◌, if◌then◌else◌, ltb→lt, leb→le, ==_iff, Bool-cases, Option-cases, length,
  get_elem?, length-append, elem, Run, done, trap, ◌>>=◌, ◌>>◌, nolibc_assert, Ensures, returned,
  trapped, Ensures-bind, Ensures-assert, Ensures-done, Ensures-if, Ensures-then, Ensures-weaken,
  Ensures-run, page_size, ptr_add_exact, ptr_sub_exact, ptr_add-ptr_sub, ptr_add-lt,
  page_align_self, ptr_add, ptr_sub, page_align, ℕ, zero, suc, ◌+◌, ◌-◌, ◌*◌, ◌/◌, ◌%◌, ◌^◌, ◌≤◌,
  ◌<◌, ◌≡◌, refl, sym, ap, ◌∙◌, ◌≢◌, ◌↔◌, ◌⊎◌, inl, inr, Bool, true, false, not, ◌&&◌, ◌||◌, Option,
  none, some, List, [], ◌∷◌, ◌++◌, map, arith,
}
use secpoline.Erim.Region.{clear_exec}
use secpoline.Maps.World.{
  Change, World, Machine, is_write, is_exec, ask, must_mprotect, expect_success, must_add_page,
  must_update_mprotect, scan_input, prev_of, scanned, scan_page_of, mark_pages, page_count,
}

-- The local variables of the loop; NULL is 0.
pub record Group : Type 0 where
  pub start_group : ℕ
  pub group_size : ℕ
  pub prev_page : ℕ

-- `scan` is the call of `erim_memScanRegion` for a page and `prev_page`; `commit` gives a range its
-- protection; `closed` is the group behind a commit, at the current page.
pub record Loop : Type 0 where
  pub scan : ℕ → ℕ → World → Run (World × Bool × ℕ)
  pub commit : ℕ → ℕ → ℕ → World → Run World
  pub closed : ℕ → Group → Group
  pub prot : ℕ
  pub unsafe_prot : ℕ

-- `(char*)-1`.
abbrev pub crossing : ℕ
crossing = 2 ^ 64 - 1

-- A new group starts at the page.
unfoldable pub open_group : ℕ → Group → Run Group
open_group page g =
    if g.start_group == 0
    then nolibc_assert (g.group_size == 0) >> done (record g { start_group = page })
    else done g

-- The page before turns out to be unsafe.
unfoldable pub drop_previous : Loop → ℕ → Bool → Group → World → Run (Group × World)
drop_previous l page crosses g w =
    if crosses && not (g.group_size == 0)
    then (l.commit (page - page_size) page_size l.unsafe_prot w >>= λ w1.
        done (record g { group_size = g.group_size - page_size }, w1))
    else done (g, w)

-- The pages of the group get their protection.
unfoldable pub flush_group : Loop → ℕ → Bool → Group → World → Run (Group × World)
flush_group l page ends g w =
    if ends && not (g.group_size == 0)
    then (l.commit g.start_group g.group_size l.prot w >>= λ w1. done (l.closed page g, w1))
    else done (g, w)

-- The page itself.
unfoldable pub place_page : Loop → ℕ → Bool → Group → World → Run (Group × World)
place_page l page found g w =
    if found
    then (l.commit page page_size l.unsafe_prot w >>= λ w1.
        done (record { start_group = 0; group_size = 0; prev_page = page }, w1))
    else done (record g { group_size = g.group_size + page_size; prev_page = page }, w)

unfoldable pub scan_step : Loop → ℕ → Group → World → Run (Group × World)
unfolding open_group drop_previous flush_group place_page
scan_step l page g w = open_group page g >>= λ g1.
    l.scan page g1.prev_page w >>= λ (w1, found, prev).
    drop_previous l page (prev == crossing) g1 w1 >>= λ (g2, w2).
    flush_group l page (found || (prev == crossing)) g2 w2 >>= λ (g3, w3).
    place_page l page found g3 w3

-- `n` pages, and the last group.
unfoldable pub scan_pages : Loop → ℕ → ℕ → Group → World → Run World
unfolding scan_step
scan_pages l zero page g w =
    if g.group_size == 0 then done w else l.commit g.start_group g.group_size l.prot w
scan_pages l (suc n) page g w =
    scan_step l page g w >>= λ (g1, w1). scan_pages l n (page + page_size) g1 w1

abbrev pub no_group : Group
no_group = record { start_group = 0; group_size = 0; prev_page = 0 }

-- `get_pkey(cid) == -1`, of mpk_isolation.cpp.
abbrev pub has_pkey : ℕ → Bool
has_pkey cid = (cid == 0) || (cid == 1)

abbrev pub mapping_loop : Machine → ℕ → ℕ → ℕ → Bool → ℕ → Option (List ℕ) → Loop
mapping_loop m prot unsafe_prot flags map_fixed cid allow_list = record {
  scan = λ page prev_page. scan_page_of m page prot (clear_exec prot) allow_list prev_page;
  commit = λ start size p w.
      must_add_page m start size p flags cid map_fixed w >>= must_mprotect m start size p;
  closed = λ page g. record g { group_size = 0; start_group = page };
  prot = prot;
  unsafe_prot = unsafe_prot;
}

unfoldable pub scan_exec_mapping :
    Machine → ℕ → ℕ → ℕ → ℕ → ℕ → Bool → ℕ → Option (List ℕ) → World → Run World
unfolding scan_pages must_add_page must_mprotect scan_page_of
scan_exec_mapping m start size prot unsafe_prot flags map_fixed cid allow_list w =
    if not (has_pkey cid)
    then done w
    else scan_pages (mapping_loop m prot unsafe_prot flags map_fixed cid allow_list)
        (page_count size) start no_group w

-- Here the group stays as it is behind a commit.
abbrev pub mprotect_loop : Machine → ℕ → ℕ → ℕ → Option (List ℕ) → Loop
mprotect_loop m prot unsafe_prot cid allow_list = record {
  scan = λ page prev_page. scan_page_of m page prot (clear_exec prot) allow_list prev_page;
  commit =
      λ start size p w. must_mprotect m start size p w >>= must_update_mprotect start size p cid;
  closed = λ page g. g;
  prot = prot;
  unsafe_prot = unsafe_prot;
}

unfoldable pub scan_exec_mapping_mprotect :
    Machine → ℕ → ℕ → ℕ → ℕ → ℕ → Option (List ℕ) → World → Run World
unfolding scan_pages must_update_mprotect must_mprotect scan_page_of
scan_exec_mapping_mprotect m start size prot unsafe_prot cid allow_list w =
    if not (has_pkey cid)
    then done w
    else scan_pages (mprotect_loop m prot unsafe_prot cid allow_list) (page_count size) start
        no_group w
