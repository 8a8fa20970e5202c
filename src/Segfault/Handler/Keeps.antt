-- ===== src/Segfault/Handler/Keeps.antt =====
-- What every call of the segfault handler keeps.
use secpoline.Base.{
  ◌==◌, ==_iff, Bool-cases, length, elem, Run, done, Ensures, returned, Ensures-bind,
  Ensures-assert, Ensures-done, Ensures-if, Ensures-weaken, Ensures-run, ℕ, ◌+◌, ◌*◌, ◌/◌, ◌%◌, ◌≡◌,
  refl, sym, ap, ◌∙◌, inl, inr, Bool, true, false, not, ◌&&◌, ◌||◌, Option, none, some, List, arith,
}
use secpoline.VirtPage.{VirtPage}
use secpoline.Erim.Pages.{UnsafePage, find_page, find_unsafe_page}
use secpoline.Erim.Region.{clear_exec}
use secpoline.Segfault.Pages.{Kernel, Process, is_write, is_exec, assign_perm}
use secpoline.Segfault.Breakpoints.{add_breakpoints}
use secpoline.Segfault.Bounds.{Balanced}
use secpoline.Segfault.Close.{
  with_perm, find_page-set_current_perm, find_page-address, secpoline_mprotect-Ensures,
}
use secpoline.Segfault.Guard.{is_watched, page_of_address, Guarded, Tidy, add_breakpoints-Guarded}
use secpoline.Segfault.Handler.{
  si_user, si_tkill, segv_maperr, segv_bnderr, segv_pkuerr, Fault, leave_unless, switch_page,
  wrap_at, add_breakpoint_wrapper, to_writable, with_breakpoints, read_only, owned_page, at_page,
  secpoline_segfault_handler,
}

-- The instructions of a page lie on it, and its vector has the size that it says.
abbrev pub Listed : UnsafePage → Type 0
Listed u =
    (xs : List ℕ)
    → u.unsafe_instructions ≡ some xs
    → (u.unsafe_instructions_size ≡ length xs)
      × ((i : ℕ) → elem i xs ≡ true → page_of_address i ≡ u.address)

-- The page found at `a` has been watched.
abbrev AllWatched : ℕ → Process → Type 0
AllWatched a p =
    (u : UnsafePage) (xs : List ℕ) (i : ℕ)
    → find_page a p.unsafe_pages ≡ some u
    → u.unsafe_instructions ≡ some xs
    → elem i xs ≡ true
    → (page_of_address i ≡ a) × (is_watched i p.controller ≡ true)

Guarded-assign :
    (a perm : ℕ) (p : Process)
    → Guarded p
    → (is_exec perm ≡ true → AllWatched a p)
    → Guarded (assign_perm a perm p)
Guarded-assign a perm p g w b u xs i found exec list member =
    let found' = rw (find_page-set_current_perm b a perm p.unsafe_pages) at found in
    elim (Bool-cases (b == a)) [
      | inl e ↦ there (find_page a p.unsafe_pages) refl (rw e at found') ((==_iff b a).0 e)
      | inr e ↦ g b u xs i (rw e at found') exec list member
    ]
  where
    there :
        (o : Option UnsafePage)
        → find_page a p.unsafe_pages ≡ o
        → with_perm perm o ≡ some u
        → b ≡ a
        → (page_of_address i ≡ b) × (is_watched i p.controller ≡ true)
    there none e h same = absurd (cc)
    there (some v) e h same =
        let changed : record v { current_perm = perm } ≡ u = cc in
        let on : is_exec perm ≡ true = ap (λ w. is_exec w.current_perm) changed ∙ exec in
        let same_list : v.unsafe_instructions ≡ u.unsafe_instructions =
          ap (λ w. w.unsafe_instructions) changed in
        rw same (w on v xs i e (same_list ∙ list) member)

switch_page-Guarded :
    (k : Kernel) (u : UnsafePage) (perm cid : ℕ) (p : Process)
    → Guarded p
    → (is_exec perm ≡ true → AllWatched u.address p)
    → Ensures (λ r. Guarded (r.0)) (switch_page k u perm cid p)
unfolding switch_page
switch_page-Guarded k u perm cid p g w =
    Ensures-bind (secpoline_mprotect-Ensures k u.address perm cid p)
      (λ p1 (c, us). returned (rw (c, us) (Guarded-assign u.address perm p g w)))

some_inj : (o : Option UnsafePage) {u v : UnsafePage} → o ≡ some u → o ≡ some v → u ≡ v
some_inj o h k = cc

add_breakpoint_wrapper-Guarded :
    (k : Kernel) (u : UnsafePage) (xs : List ℕ) (p : Process)
    → Balanced p.controller
    → Tidy p.controller.dynamic_hbreakpoints
    → Guarded p
    → Listed u
    → u.unsafe_instructions ≡ some xs
    → find_page u.address p.unsafe_pages ≡ some u
    → Ensures
        (λ p'. Guarded p' × AllWatched u.address p')
        (add_breakpoint_wrapper k u.address false p)
unfolding add_breakpoint_wrapper wrap_at
add_breakpoint_wrapper-Guarded k u xs p b t g listed its found = rw found (
    Ensures-if (is_exec u.current_perm)
      (λ e. returned {a = p} (
        g,
        λ v ys i there list member.
            let same : u ≡ v = some_inj _ found there in
            g u.address v ys i there (ap (λ w. is_exec w.current_perm) (sym same) ∙ e) list member,
      ))
      (λ e.
        Ensures-weaken
          (λ p' run.
            let (size, on) = listed xs its in
            let (g', tidy, watched, code) =
              add_breakpoints-Guarded k u xs p p' b t g its size on run in
            (
              g',
              λ v ys i there list member.
                  let (w, there0, same_list) = code u.address v there in
                  let same : u ≡ w = some_inj _ found there0 in
                  let eq : some xs ≡ some ys =
                    sym its ∙ ap (λ w. w.unsafe_instructions) same ∙ same_list ∙ list in
                  let same_xs : xs ≡ ys = cc in
                  let in_xs : elem i xs ≡ true = ap (elem i) same_xs ∙ member in
                  (on i in_xs, watched i in_xs),
            ))
          (Ensures-run (add_breakpoints k u false p))))

clear_exec_off : (prot : ℕ) → is_exec (clear_exec prot) ≡ false
clear_exec_off prot = let e : (prot / 8 * 8 + prot % 4) / 4 % 2 ≡ 0 = omega arith in ground arith

leave_unless-Guarded :
    (c : Bool) (code : ℕ) (p : Process) (rest : Run (Process × ℕ))
    → Guarded p
    → Ensures (λ r. Guarded (r.0)) rest
    → Ensures (λ r. Guarded (r.0)) (leave_unless c code p rest)
leave_unless-Guarded true code p rest g h = h
leave_unless-Guarded false code p rest g h = returned g

owned_page-Guarded :
    (k : Kernel) (f : Fault) (u : UnsafePage) (o : Option VirtPage) (p : Process)
    → Balanced p.controller
    → Tidy p.controller.dynamic_hbreakpoints
    → Guarded p
    → Listed u
    → (is_write u.current_perm ≡ true → is_exec u.current_perm ≡ true)
    → find_page u.address p.unsafe_pages ≡ some u
    → Ensures (λ r. Guarded (r.0)) (owned_page k f u o p)
unfolding owned_page to_writable read_only with_breakpoints
owned_page-Guarded k f u none p b t g listed w found = returned g
owned_page-Guarded k f u (some v) p b t g listed w found =
    Ensures-if (is_exec u.current_perm)
      (λ e. leave_unless-Guarded (is_write u.desired_perm) 0 p _ g (
        switch_page-Guarded k u (clear_exec u.desired_perm) f.cid p g
          (λ on. absurd (ground (arith, on, clear_exec_off u.desired_perm)))))
      (λ e.
        Ensures-if (is_write u.current_perm) (λ on. absurd (ground (arith, w on, e)))
          (λ off. read u.unsafe_instructions refl))
  where
    read :
        (o : Option (List ℕ))
        → u.unsafe_instructions ≡ o
        → Ensures (λ r. Guarded (r.0)) (read_only k f u o p)
    read none its = returned g
    read (some xs) its = leave_unless-Guarded (is_exec u.desired_perm) 5 p _ g (
        Ensures-bind (add_breakpoint_wrapper-Guarded k u xs p b t g listed its found)
          (λ p1 (g1, w1). switch_page-Guarded k u 5 f.cid p1 g1 (λ on. w1)))

at_page-Guarded :
    (k : Kernel) (f : Fault) (a : ℕ) (o : Option UnsafePage) (p : Process)
    → Balanced p.controller
    → Tidy p.controller.dynamic_hbreakpoints
    → Guarded p
    → find_page a p.unsafe_pages ≡ o
    → ((u : UnsafePage)
        → o ≡ some u
        → Listed u × (is_write u.current_perm ≡ true → is_exec u.current_perm ≡ true))
    → Ensures (λ r. Guarded (r.0)) (at_page k f o p)
unfolding at_page
at_page-Guarded k f a none p b t g e h = returned g
at_page-Guarded k f a (some u) p b t g e h =
    let there : find_page u.address p.unsafe_pages ≡ some u =
      ap (λ b. find_page b p.unsafe_pages) (find_page-address a p.unsafe_pages e) ∙ e in
    owned_page-Guarded k f u _ p b t g ((h u refl).0) ((h u refl).1) there

-- A fault on a listed page is on a page that is not writable without being executable.
abbrev pub Expected : Fault → Process → Type 0
Expected f p =
    (u : UnsafePage)
    → find_unsafe_page f.si_addr p.unsafe_pages ≡ some u
    → Listed u × (is_write u.current_perm ≡ true → is_exec u.current_perm ≡ true)

secpoline_segfault_handler-Ensures :
    (k : Kernel) (f : Fault) (p : Process)
    → Balanced p.controller
    → Tidy p.controller.dynamic_hbreakpoints
    → Guarded p
    → Expected f p
    → Ensures (λ r. Guarded (r.0)) (secpoline_segfault_handler k f p)
unfolding secpoline_segfault_handler find_unsafe_page
secpoline_segfault_handler-Ensures k f p b t g h =
    Ensures-assert (not (f.si_code == si_user) && not (f.si_code == si_tkill)) (λ _.
      Ensures-assert (not (f.si_code == segv_pkuerr)) (λ _.
        Ensures-if ((f.si_code == segv_bnderr) || (f.si_code == segv_maperr)) (λ e. returned g)
          (λ e. at_page-Guarded k f _ _ p b t g refl h)))

-- `secpoline_segfault_handler` on a page that is not writable keeps the pages guarded that are listed as
-- executable:
-- when it returns, whatever the result, every unsafe instruction of such a page is
-- watched, the page that it has just made executable included. Conditions: the counters are in
-- balance, each watched page has its breakpoints on one page, and if the fault is on a listed page,
-- then that page is not writable without being executable, and its vector has the size it says and
-- holds addresses of the page.
pub secpoline_segfault_handler-Guarded :
    (k : Kernel) (f : Fault) (p p' : Process) (code : ℕ)
    → Balanced p.controller
    → Tidy p.controller.dynamic_hbreakpoints
    → Guarded p
    → Expected f p
    → secpoline_segfault_handler k f p ≡ done (p', code)
    → Guarded p'
secpoline_segfault_handler-Guarded k f p p' code b t g h run =
    Ensures-done (secpoline_segfault_handler-Ensures k f p b t g h) run
