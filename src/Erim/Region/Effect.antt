-- ===== src/Erim/Region/Effect.antt =====
-- The scan of a page with no accessible neighbour.
use secpoline.Base.{
  Run, ℕ, ◌+◌, ◌-◌, ◌≡◌, ◌≢◌, refl, inl, inr, Bool, true, false, ◌&&◌, ◌||◌, Option, none, some,
  List, [], ◌∷◌, arith, ltb, leb, ◌==◌, if◌then◌else◌, done, trap, ◌>>=◌, elem, Bool-cases,
  page_size,
}
use secpoline.PageManager.Lookup.{lookup_addr, any_cid}
use secpoline.Erim.Pages.{UnsafePage, with_count, find_page, update_unsafe_page, add_unsafe_page}
use secpoline.Erim.Pages.Effect.{
  ListedResult, UpdateResult, update_unsafe_page-UpdateResult, add_unsafe_page-effect,
}
use secpoline.Erim.Scan.{scan_page}
use secpoline.Erim.Scan.Complete.{Spaced, is_unsafe, scan_page-Reports}
use secpoline.Erim.Region.{
  Input, Scanner, page_of, conclude, keep_list, prev_neighbour, next_neighbour, scan_prev,
  scan_next, mem_scan_region,
}

abbrev pub is_listed : Option UnsafePage → Bool
is_listed none = false
is_listed (some p) = true

abbrev pub has_any : List ℕ → Bool
has_any [] = false
has_any (a ∷ others) = true

-- The page as it is listed after a scan that reported these instructions.
abbrev pub scanned_page : Input → List ℕ → UnsafePage
scanned_page i reported =
    with_count (page_of i (if has_any reported then i.unsafe_perm else i.perm) reported)

-- The list afterwards: the page is listed as scanned if something was reported or it was listed
-- before; all else is as it was.
abbrev pub Listed : Input → List ℕ → List UnsafePage → List UnsafePage → Type 0
Listed i reported ps ps' =
    (a : ℕ)
    → find_page a ps' ≡ (
        if (i.start == a) && (has_any reported || is_listed (find_page a ps))
        then some (scanned_page i reported)
        else find_page a ps)

ConcludeResult : Input → List ℕ → Scanner → Run (Scanner × Bool) → Type 0
ConcludeResult i reported s r =
    (ps' : List UnsafePage) × (r ≡ done (record s { unsafe_pages = ps' }, has_any reported))
    × Listed i reported s.unsafe_pages ps'

is_listed_found : (o : Option UnsafePage) → o ≢ none → is_listed o ≡ true
is_listed_found none h = ground arith
is_listed_found (some p) h = refl

conclude_clean :
    (i : Input) (s : Scanner) (r : Run (Option (List UnsafePage)))
    → UpdateResult (page_of i i.perm []) s.unsafe_pages r
    → ConcludeResult i [] s (
        r >>= λ updated. done (record s { unsafe_pages = keep_list s.unsafe_pages updated }, false))
unfolding ConcludeResult
conclude_clean i s trap u = ground arith
conclude_clean i s (done none) u = (
  s.unsafe_pages,
  refl,
  λ a. elim (Bool-cases (i.start == a)) [
    | inl e ↦
        let q : i.start ≡ a = ground arith in
        let missing : find_page a s.unsafe_pages ≡ none = rw q at u in rw (e, missing) refl
    | inr e ↦ rw e refl
  ],
)
conclude_clean i s (done (some ps')) u = (
  ps',
  refl,
  λ a. elim (Bool-cases (i.start == a)) [
    | inl e ↦
        let q : i.start ≡ a = ground arith in
        let listed : is_listed (find_page a s.unsafe_pages) ≡ true =
          is_listed_found (find_page a s.unsafe_pages) (rw q at u.0) in
        rw (u.1 a, e, listed) refl
    | inr e ↦ rw (u.1 a, e) refl
  ],
)

conclude_found :
    (i : Input) (x : ℕ) (xs : List ℕ) (s : Scanner) (r : Run (List UnsafePage))
    → ListedResult (page_of i i.unsafe_perm (x ∷ xs)) s.unsafe_pages r
    → ConcludeResult i (x ∷ xs) s (r >>= λ pages. done (record s { unsafe_pages = pages }, true))
unfolding ConcludeResult
conclude_found i x xs s trap u = ground arith
conclude_found i x xs s (done ps') u = (ps', refl, λ a. ground (arith, u a))

conclude-ConcludeResult :
    (i : Input) (reported : List ℕ) (s : Scanner)
    → ConcludeResult i reported s (conclude i (some reported) s)
unfolding conclude
conclude-ConcludeResult i [] s =
    conclude_clean i s (update_unsafe_page (page_of i i.perm []) s.unsafe_pages)
      (update_unsafe_page-UpdateResult (page_of i i.perm []) s.unsafe_pages)
conclude-ConcludeResult i (x ∷ xs) s =
    conclude_found i x xs s (add_unsafe_page (page_of i i.unsafe_perm (x ∷ xs)) s.unsafe_pages)
      (add_unsafe_page-effect (page_of i i.unsafe_perm (x ∷ xs)) s.unsafe_pages)

-- What a scan does to the state, given what it reports.
pub record RegionResult (i : Input) (s : Scanner) (r : Run (Scanner × Bool)) : Type 0 where
  pub reported : List ℕ
  pub unsafe_pages : List UnsafePage
  pub run : r ≡ done (record s { unsafe_pages = unsafe_pages }, has_any reported)
  pub exact :
      (a : ℕ)
      → elem a reported
        ≡ (leb i.start a && ltb (a + 3) (i.start + page_size) && is_unsafe i.memory i.whitelist a)
  pub listed : Listed i reported s.unsafe_pages unsafe_pages

lone_run :
    (i : Input) (s : Scanner)
    → s.prev_page_ptr ≡ none
    → lookup_addr i.groups (i.start - page_size) any_cid ≡ none
    → lookup_addr i.groups (i.start + page_size) any_cid ≡ none
    → mem_scan_region i s
      ≡ conclude i (scan_page i.memory i.whitelist page_size i.start page_size) s
unfolding mem_scan_region prev_neighbour next_neighbour scan_prev scan_next
lone_run i s first before behind = elim (Bool-cases (leb page_size i.start)) [
  | inl e ↦ rw (first, e, before, behind) refl
  | inr e ↦ rw (first, e, behind) refl
]

-- `erim_memScanRegion` on a page whose neighbours are not tracked, called for the first page of a
-- range, with no unsafe instruction at its start or directly behind another one. It returns, and
-- changes only the list of unsafe pages: the page is listed with exactly its instructions that are
-- not benign, up to its last three offsets, with the protection for unsafe pages when there is one,
-- and otherwise with the wanted protection, if it was listed before. It returns the page exactly
-- when there is such an instruction.
pub mem_scan_region-effect :
    (i : Input) (s : Scanner)
    → s.prev_page_ptr ≡ none
    → lookup_addr i.groups (i.start - page_size) any_cid ≡ none
    → lookup_addr i.groups (i.start + page_size) any_cid ≡ none
    → Spaced i.memory i.start page_size
    → RegionResult i s (mem_scan_region i s)
unfolding ConcludeResult
mem_scan_region-effect i s first before behind spaced =
    let scan =
      scan_page-Reports i.memory i.whitelist page_size i.start page_size (omega arith) spaced in
    let (pages, run, listed) = conclude-ConcludeResult i scan.reported s in
    record {
      reported = scan.reported;
      unsafe_pages = pages;
      run = rw (lone_run i s first before behind, scan.run) run;
      exact = scan.exact;
      listed = listed;
    }
