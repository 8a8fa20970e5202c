-- ===== src/Segfault/InStep.antt =====
-- The protection that the kernel has for a page, and `current_perm` in the list of unsafe pages: a
-- kernel that carries out every mprotect keeps them in step. `secpoline_mprotect` returns 0 also
-- when the kernel refuses, so that they can part otherwise.
pub mod Guard
use secpoline.Base.{
  ltb, leb, ◌==◌, if◌then◌else◌, ltb→lt, leb→le, ==_iff, Bool-cases, Option-cases, length,
  get_elem?, length-append, elem, Run, done, trap, ◌>>=◌, ◌>>◌, nolibc_assert, Ensures, returned,
  trapped, Ensures-bind, Ensures-assert, Ensures-done, Ensures-if, Ensures-then, Ensures-weaken,
  Ensures-run, page_size, ptr_add_exact, ptr_sub_exact, ptr_add-ptr_sub, ptr_add-lt,
  page_align_self, ptr_add, ptr_sub, page_align, ℕ, zero, suc, ◌+◌, ◌-◌, ◌*◌, ◌/◌, ◌%◌, ◌^◌, ◌≤◌,
  ◌<◌, ◌≡◌, refl, sym, ap, ◌∙◌, ◌≢◌, ◌↔◌, ◌⊎◌, inl, inr, Bool, true, false, not, ◌&&◌, ◌||◌, Option,
  none, some, List, [], ◌∷◌, ◌++◌, map, arith,
}
use secpoline.VirtPage.{VirtPage}
use secpoline.Erim.Pages.{UnsafePage, find_page, find_unsafe_page}
use secpoline.PageManager.Lookup.{lookup_addr, any_cid}
use secpoline.Segfault.Pages.{
  Hbreakpoint, WatchedPage, Controller, Kernel, Process, is_write, is_exec, expect_success,
  secpoline_mprotect, set_current_perm, assign_perm, lock_unsafe_page, clear_exec_of, close_page,
  non_executable_at, set_page_non_executable,
}
use secpoline.Segfault.Breakpoints.{
  max_hbreakpoints, new_controller, set_from, set_hbreakpoint, count_breakpoint, count_in, set_each,
  first_of, read_instructions, pages_of, append_watched, add_watched_page, close_each,
  remove_oldest, remove_first, remove_last_page, has_free, evict, remove_dynamic_hbreakpoints,
  add_breakpoints,
}
use secpoline.Segfault.Close.{with_perm, find_page-set_current_perm}

abbrev pub Honest : Kernel → Type 0
Honest k = (address prot : ℕ) → k.mprotect address prot ≡ true

-- The protection after the changes, the latest first; `initial` is the one before all of them.
unfoldable pub kernel_prot : (ℕ → ℕ) → List (ℕ × ℕ) → ℕ → ℕ
kernel_prot initial [] a = initial a
kernel_prot initial (c ∷ cs) a =
    let earlier = kernel_prot initial cs a in if a == c.0 then c.1 else earlier

-- A listed page that the kernel lets execute is listed as executable.
abbrev pub Step : (ℕ → ℕ) → List UnsafePage → List (ℕ × ℕ) → Type 0
Step initial us changes =
    (a : ℕ) (u : UnsafePage)
    → find_page a us ≡ some u
    → is_exec (kernel_prot initial changes a) ≡ true
    → is_exec u.current_perm ≡ true

abbrev pub InStep : (ℕ → ℕ) → Process → Type 0
InStep initial p = Step initial p.unsafe_pages p.mprotected

Step-change :
    (initial : ℕ → ℕ) (a perm : ℕ) (us : List UnsafePage) (changes : List (ℕ × ℕ))
    → Step initial us changes
    → Step initial (set_current_perm a perm us) ((a, perm) ∷ changes)
unfolding kernel_prot
Step-change initial a perm us changes step b u found exec =
    let found' = rw (find_page-set_current_perm b a perm us) at found in
    elim (Bool-cases (b == a)) [
      | inl e ↦
          let on : is_exec perm ≡ true = rw e at exec in there (find_page a us) (rw e at found') on
      | inr e ↦ step b u (rw e at found') (rw e at exec)
    ]
  where
    there :
        (o : Option UnsafePage)
        → with_perm perm o ≡ some u
        → is_exec perm ≡ true
        → is_exec u.current_perm ≡ true
    there none h on = absurd (cc)
    there (some v) h on =
        let same : record v { current_perm = perm } ≡ u = cc in
        ap (λ w. is_exec w.current_perm) (sym same) ∙ on

module _ (initial : ℕ → ℕ) (k : Kernel) (honest : Honest k) where
  pub secpoline_mprotect-Honest :
      (address prot cid : ℕ) (p : Process)
      → Ensures
          (λ p'.
            (p'.unsafe_pages ≡ p.unsafe_pages) × (p'.mprotected ≡ (address, prot) ∷ p.mprotected))
          (secpoline_mprotect k address prot cid p)
  unfolding secpoline_mprotect
  secpoline_mprotect-Honest address prot cid p =
      rw (honest address prot) (Ensures-then _ (λ pm. returned (refl, refl)))

  -- `current_perm` and the protection of a page change together.
  pub changed :
      (a perm : ℕ) (p p1 : Process)
      → InStep initial p
      → p1.unsafe_pages ≡ set_current_perm a perm p.unsafe_pages
      → p1.mprotected ≡ (a, perm) ∷ p.mprotected
      → InStep initial p1
  changed a perm p p1 step us ms =
      rw (us, ms) (Step-change initial a perm p.unsafe_pages p.mprotected step)

  clear_exec_of-InStep :
      (cid : ℕ) (u : UnsafePage) (p : Process)
      → InStep initial p
      → Ensures (InStep initial) (clear_exec_of k cid u p)
  unfolding clear_exec_of
  clear_exec_of-InStep cid u p step =
      Ensures-if (is_write u.desired_perm)
        (λ _.
          Ensures-weaken (λ p1 (us, ms). changed u.address 3 p p1 step us ms)
            (secpoline_mprotect-Honest u.address 3 cid (assign_perm u.address 3 p)))
        (λ _.
          Ensures-bind (secpoline_mprotect-Honest u.address 1 cid (assign_perm u.address 1 p))
            (λ p1 (us, ms). returned (changed u.address 1 p p1 step us ms)))

  close_page-InStep :
      (g : VirtPage) (o : Option UnsafePage) (p : Process)
      → InStep initial p
      → Ensures (InStep initial) (close_page k g o p)
  unfolding close_page
  close_page-InStep g none p step = trapped
  close_page-InStep g (some u) p step = Ensures-then _ (λ _.
      Ensures-if (not (is_exec u.current_perm)) (λ _. returned {a = p} step)
        (λ _.
          Ensures-bind
            (Ensures-if p.unsafe_page_mutex (λ _. trapped)
              (λ _. returned {a = record p { unsafe_page_mutex = true }} step))
            (λ p1 step1. clear_exec_of-InStep g.cid u p1 step1)))

  set_page_non_executable-InStep :
      (address : ℕ) (p : Process)
      → InStep initial p
      → Ensures (InStep initial) (set_page_non_executable k address p)
  unfolding set_page_non_executable non_executable_at
  set_page_non_executable-InStep address p step = at (lookup_addr p.manager.pages address any_cid)
    where
      at : (o : Option VirtPage) → Ensures (InStep initial) (non_executable_at k address o p)
      at none = trapped
      at (some g) = close_page-InStep g (find_unsafe_page address p.unsafe_pages) p step

  close_each-InStep :
      (page : WatchedPage) (p : Process)
      → InStep initial p
      → Ensures (InStep initial) (close_each k page p)
  unfolding close_each
  close_each-InStep [] p step = returned {a = p} step
  close_each-InStep (b ∷ bs) p step =
      Ensures-assert (not (b.fd == 0))
        (λ _. Ensures-assert (k.close b.fd) (λ _. close_each-InStep bs _ step))

  remove_first-InStep :
      (pages : List WatchedPage) (p : Process)
      → InStep initial p
      → Ensures (InStep initial) (remove_first k pages p)
  unfolding remove_first remove_oldest
  remove_first-InStep [] p step = trapped
  remove_first-InStep ([] ∷ rest) p step = trapped
  remove_first-InStep ((b ∷ bs) ∷ rest) p step =
      Ensures-bind (set_page_non_executable-InStep b.address p step) (λ p1 step1.
        Ensures-bind (close_each-InStep (b ∷ bs) p1 step1) (λ p2 step2. returned step2))

  evict-InStep :
      (n : ℕ) (pages : List WatchedPage) (p : Process)
      → InStep initial p
      → Ensures (InStep initial) (evict k n pages p)
  unfolding evict remove_last_page
  evict-InStep n [] p step =
      Ensures-if (has_free n p) (λ _. returned {a = p} step)
        (λ _. remove_first-InStep p.controller.dynamic_hbreakpoints p step)
  evict-InStep n (page ∷ rest) p step =
      Ensures-if (has_free n p) (λ _. returned {a = p} step)
        (λ _.
          Ensures-bind (remove_first-InStep p.controller.dynamic_hbreakpoints p step)
            (λ p1 step1. evict-InStep n rest p1 step1))

  set_each-InStep :
      (s : Bool) (addresses : List ℕ) (p : Process)
      → InStep initial p
      → Ensures (λ r. InStep initial (r.0)) (set_each s addresses p)
  unfolding set_each set_hbreakpoint set_from
  set_each-InStep s [] p step = returned {a = (p, [])} step
  set_each-InStep s (a ∷ rest) p step = Ensures-bind (at p.fds) (λ set step1.
      Ensures-bind (set_each-InStep s rest (count_in s (set.0)) step1) (λ r step2. returned step2))
    where
      at : (fds : List ℕ) → Ensures (λ set. InStep initial (set.0)) (set_from fds p)
      at [] = trapped
      at (fd ∷ left) = returned step

  add_watched_page-InStep :
      (u : UnsafePage) (s : Bool) (p : Process)
      → InStep initial p
      → Ensures (InStep initial) (add_watched_page u s p)
  unfolding add_watched_page
  add_watched_page-InStep u s p step =
      let c = p.controller in
      let n = u.unsafe_instructions_size in
      Ensures-assert (leb (n + c.used_breakpoints) max_hbreakpoints) (λ _.
        Ensures-assert (if s then leb n c.max_dynamic_breakpoints else true) (λ _.
          Ensures-assert (ltb (length (pages_of s c)) max_hbreakpoints) (λ _.
            Ensures-then (read_instructions u u.unsafe_instructions) (λ addresses.
              Ensures-bind (set_each-InStep s addresses p step) (λ r step1. appended s r step1)))))
    where
      appended :
          (s : Bool) (r : Process × WatchedPage)
          → InStep initial r.0
          → Ensures
              (InStep initial)
              (done (record r.0 { controller = append_watched s r.1 r.0.controller }))
      appended true r step1 = returned step1
      appended false r step1 = returned step1

  pub add_breakpoints-InStep :
      (u : UnsafePage) (s : Bool) (p : Process)
      → InStep initial p
      → Ensures (InStep initial) (add_breakpoints k u s p)
  unfolding add_breakpoints remove_dynamic_hbreakpoints
  add_breakpoints-InStep u s p step = Ensures-then _ (λ _.
      Ensures-if (has_free u.unsafe_instructions_size p) (λ _. add_watched_page-InStep u s p step)
        (λ _.
          Ensures-bind
            (Ensures-assert (leb u.unsafe_instructions_size p.controller.max_dynamic_breakpoints)
              (λ _.
                evict-InStep u.unsafe_instructions_size p.controller.dynamic_hbreakpoints p step))
            (λ p1 step1. add_watched_page-InStep u s p1 step1)))
