-- ===== src/Erim/Region/Switched.antt =====
-- The protection changes that a scan makes.
use secpoline.Base.{
  ◌==◌, ◌>>=◌, nolibc_assert, Ensures, returned, trapped, Ensures-bind, Ensures-if, Ensures-then,
  page_size, ℕ, ◌+◌, ◌-◌, ◌*◌, ◌/◌, ◌%◌, ◌≡◌, false, Option, none, some, List, [], ◌∷◌, arith,
}
use secpoline.Erim.Pages.{update_unsafe_instruction}
use secpoline.Erim.Pattern.{classify}
use secpoline.Erim.Scan.{scan_page}
use secpoline.Erim.Region.{
  clear_exec, Input, Scanner, Neighbour, is_first, prev_neighbour, next_neighbour, is_some,
  make_non_executable, note, prev_hit, prev_byte, scan_prev, next_hit, next_byte, scan_next,
  conclude, mem_scan_region,
}

-- No change gives PROT_EXEC.
abbrev pub NonExecutable : List (ℕ × ℕ × ℕ) → Type 0
NonExecutable [] = Unit {0}
NonExecutable (c ∷ cs) = ((c.1 / 4 % 2 == 1) ≡ false) × NonExecutable cs

abbrev Kept : Scanner → Type 0
Kept s = NonExecutable s.mprotected

make_non_executable-Kept :
    (i : Input) (page prot cid : ℕ) (s : Scanner)
    → Kept s
    → Ensures Kept (make_non_executable i page prot cid s)
unfolding make_non_executable
make_non_executable-Kept i page prot cid s h =
    let e : (prot / 8 * 8 + prot % 4) / 4 % 2 ≡ 0 = omega arith in
    Ensures-then (nolibc_assert (i.mprotect page (clear_exec prot) cid))
      (λ _. returned (ground (arith, e), h))

note-Kept : (i : Input) (page ptr : ℕ) (s : Scanner) → Kept s → Ensures Kept (note i page ptr s)
unfolding note
note-Kept i page ptr s h =
    Ensures-then
      (update_unsafe_instruction page ptr i.unsafe_perm i.perm i.trusted_page s.unsafe_pages)
      (λ pages. returned h)

prev_byte-Kept :
    (i : Input) (page : ℕ) (n : Neighbour) (ptr : ℕ) (s : Scanner)
    → Kept s
    → Ensures Kept (prev_byte i page n ptr s)
unfolding prev_byte prev_hit
prev_byte-Kept i page n ptr s h =
    Ensures-if (is_some (classify i.memory ptr))
      (λ _. Ensures-bind (note-Kept i page ptr s h) (λ s1 h1.
        Ensures-if (is_first s1.prev_page_ptr)
          (λ _. make_non_executable-Kept i page n.prot n.cid s1 h1) (λ _. returned h1)))
      (λ _. returned {a = s} h)

scan_prev-Kept :
    (i : Input) (page : ℕ) (n : Neighbour) (s : Scanner)
    → Kept s
    → Ensures Kept (scan_prev i page n s)
unfolding scan_prev
scan_prev-Kept i page n s h =
    Ensures-if (page == 0) (λ _. returned {a = s} h)
      (λ _. Ensures-bind (prev_byte-Kept i page n (i.start - 3) s h) (λ s1 h1.
        Ensures-bind (prev_byte-Kept i page n (i.start - 2) s1 h1)
          (λ s2 h2. prev_byte-Kept i page n (i.start - 1) s2 h2)))

next_byte-Kept :
    (i : Input) (n : Neighbour) (ptr : ℕ) (s : Scanner)
    → Kept s
    → Ensures Kept (next_byte i n ptr s)
unfolding next_byte next_hit
next_byte-Kept i n ptr s h =
    Ensures-if (is_some (classify i.memory ptr))
      (λ _.
        Ensures-bind (note-Kept i n.page ptr s h)
          (λ s1 h1. make_non_executable-Kept i n.page n.prot n.cid s1 h1))
      (λ _. returned {a = s} h)

scan_next-Kept : (i : Input) (n : Neighbour) (s : Scanner) → Kept s → Ensures Kept (scan_next i n s)
unfolding scan_next
scan_next-Kept i n s h =
    Ensures-if (n.page == 0) (λ _. returned {a = s} h)
      (λ _. Ensures-bind (next_byte-Kept i n n.page s h) (λ s1 h1.
        Ensures-bind (next_byte-Kept i n (n.page + 1) s1 h1) (λ s2 h2.
          Ensures-bind (next_byte-Kept i n (n.page + 2) s2 h2)
            (λ s3 h3. next_byte-Kept i n (n.page + 3) s3 h3))))

conclude-Kept :
    (i : Input) (o : Option (List ℕ)) (s : Scanner)
    → Kept s
    → Ensures (λ r. Kept (r.0)) (conclude i o s)
unfolding conclude
conclude-Kept i none s h = trapped
conclude-Kept i (some []) s h = Ensures-then _ (λ updated. returned h)
conclude-Kept i (some (a ∷ others)) s h = Ensures-then _ (λ pages. returned h)

-- Every change that a scan adds takes PROT_EXEC away.
pub mem_scan_region-NonExecutable :
    (i : Input) (s : Scanner)
    → NonExecutable s.mprotected
    → Ensures (λ r. NonExecutable (r.0).mprotected) (mem_scan_region i s)
unfolding mem_scan_region
mem_scan_region-NonExecutable i s h =
    let prev = prev_neighbour i s.prev_page_ptr in
    let next = next_neighbour i prev in
    let temp : Neighbour = record next { page = prev.page } in
    Ensures-bind
      {f = λ s1. scan_next i next s1 >>= λ s2.
        conclude i (scan_page i.memory i.whitelist page_size i.start page_size) s2}
      (scan_prev-Kept i prev.page temp s h)
      (λ s1 h1. Ensures-bind (scan_next-Kept i next s1 h1) (λ s2 h2.
        conclude-Kept i (scan_page i.memory i.whitelist page_size i.start page_size) s2 h2))
