-- ===== src/Segfault/InStep/Guard.antt =====
-- What may be executed, by the kernel's own protections, is watched.
use secpoline.Base.{
  ◌==◌, Bool-cases, length, elem, Run, done, Ensures, returned, trapped, Ensures-bind,
  Ensures-assert, Ensures-done, Ensures-if, ℕ, ◌≡◌, refl, ap, inl, inr, Bool, true, false, not,
  ◌&&◌, ◌||◌, Option, none, some, List, [], ◌∷◌, ◌++◌, map, arith,
}
use secpoline.VirtPage.{VirtPage}
use secpoline.Erim.Pages.{UnsafePage, find_page, find_unsafe_page}
use secpoline.Erim.Region.{clear_exec}
use secpoline.PageManager.Lookup.{lookup_addr}
use secpoline.Segfault.Pages.{
  WatchedPage, Kernel, Process, is_write, is_exec, set_current_perm, assign_perm,
}
use secpoline.Segfault.Breakpoints.{read_instructions, add_breakpoints}
use secpoline.Segfault.Bounds.{Balanced}
use secpoline.Segfault.Close.{SameCode}
use secpoline.Segfault.Evict.{page_address, Needed, Retained}
use secpoline.Segfault.Watch.{add_breakpoints-Fifo}
use secpoline.Segfault.Guard.{is_watched, page_of_address, Guarded, Tidy, add_breakpoints-Guarded}
use secpoline.Segfault.Handler.{
  si_user, si_tkill, segv_maperr, segv_bnderr, segv_pkuerr, Fault, leave_unless, switch_page,
  wrap_at, add_breakpoint_wrapper, to_writable, with_breakpoints, read_only, owned_page, at_page,
  secpoline_segfault_handler,
}
use secpoline.Segfault.Handler.Keeps.{Expected, secpoline_segfault_handler-Guarded}
use secpoline.Segfault.InStep.{
  Honest, kernel_prot, InStep, secpoline_mprotect-Honest, changed, add_breakpoints-InStep,
}

-- The instructions of every listed page that the kernel lets execute lie on that page and are
-- watched.
abbrev pub KernelGuarded : (ℕ → ℕ) → Process → Type 0
KernelGuarded initial p =
    (a : ℕ) (u : UnsafePage) (xs : List ℕ) (i : ℕ)
    → find_page a p.unsafe_pages ≡ some u
    → is_exec (kernel_prot initial p.mprotected a) ≡ true
    → u.unsafe_instructions ≡ some xs
    → elem i xs ≡ true
    → (page_of_address i ≡ a) × (is_watched i p.controller ≡ true)

Guarded-InStep :
    (initial : ℕ → ℕ) (p : Process) → Guarded p → InStep initial p → KernelGuarded initial p
Guarded-InStep initial p g step a u xs i found exec its member =
    g a u xs i found (step a u found exec) its member

-- `add_breakpoints` for a page that is not static, when it returns, and the kernel carries out every
-- mprotect: every unsafe instruction of a listed page that the kernel lets execute is watched,
-- although older pages have lost their breakpoints, and so is every one of a page that is listed as
-- executable, and the new page's. No page's instructions change, and the breakpoints of each watched
-- page lie on one page. Conditions: all this holds before for the pages listed as executable, the
-- list has every listed page that the kernel lets execute as executable, the counters are in balance,
-- and the new page's vector has the size it says and holds addresses of the page.
pub add_breakpoints-KernelGuarded :
    (initial : ℕ → ℕ) (k : Kernel) (u : UnsafePage) (xs : List ℕ) (p p' : Process)
    → Honest k
    → InStep initial p
    → Balanced p.controller
    → Tidy p.controller.dynamic_hbreakpoints
    → Guarded p
    → u.unsafe_instructions ≡ some xs
    → u.unsafe_instructions_size ≡ length xs
    → ((i : ℕ) → elem i xs ≡ true → page_of_address i ≡ u.address)
    → add_breakpoints k u false p ≡ done p'
    → KernelGuarded initial p'
      × InStep initial p'
      × Guarded p'
      × Tidy p'.controller.dynamic_hbreakpoints
      × ((i : ℕ) → elem i xs ≡ true → is_watched i p'.controller ≡ true)
      × SameCode p.unsafe_pages p'.unsafe_pages
add_breakpoints-KernelGuarded initial k u xs p p' honest step b t g list size on run =
    let (g', tidy, watched, code) = add_breakpoints-Guarded k u xs p p' b t g list size on run in
    let step' : InStep initial p' =
      Ensures-done (add_breakpoints-InStep initial k honest u false p step) run in
    (Guarded-InStep initial p' g' step', step', g', tidy, watched, code)

-- The pages that have lost their breakpoints cannot be executed.
abbrev pub Stopped : (ℕ → ℕ) → List WatchedPage → Process → Type 0
Stopped initial gone p' =
    (a : ℕ) (u : UnsafePage)
    → find_page a p'.unsafe_pages ≡ some u
    → elem a (map page_address gone) ≡ true
    → is_exec (kernel_prot initial p'.mprotected a) ≡ false

Retained-Stopped :
    (initial : ℕ → ℕ) (gone : List WatchedPage) (p p' : Process)
    → Retained gone p p'
    → InStep initial p'
    → Stopped initial gone p'
Retained-Stopped initial gone p p' kept step a u found went =
    elim (Bool-cases (is_exec (kernel_prot initial p'.mprotected a))) [
      | inl e ↦
          let (away, found0) = kept a u found (step a u found e) in
          absurd (ground (arith, away, went))
      | inr e ↦ e
    ]

-- A page more is watched, in front of nothing: pages leave the list at its front and join it at its
-- end.
abbrev pub KernelFifo : (ℕ → ℕ) → UnsafePage → Process → Process → Type 0
KernelFifo initial u p p' =
    (gone kept : List WatchedPage) × (page : WatchedPage) × (p.controller.dynamic_hbreakpoints
      ≡ gone ++ kept)
    × (p'.controller.dynamic_hbreakpoints ≡ kept ++ page ∷ [])
    × (p'.controller.static_hbreakpoints ≡ p.controller.static_hbreakpoints)
    × (read_instructions u u.unsafe_instructions ≡ done (map (λ b. b.address) page))
    × Needed u.unsafe_instructions_size p.controller.used_breakpoints gone
    × Stopped initial gone p'
    × Retained gone p p'
    × SameCode p.unsafe_pages p'.unsafe_pages

-- What `add_breakpoints` does for a page that is not static, when it returns, and the kernel carries
-- out every mprotect: pages have left the front of the list, the oldest first, each one only because
-- too few breakpoints were free; none of them that is listed can be executed any more, by the
-- kernel's protection and by the list's; the page's instructions are watched at the end of the list;
-- and the static pages stay. Conditions: the counters are in balance, and the list has every listed
-- page that the kernel lets execute as executable.
pub add_breakpoints-KernelFifo :
    (initial : ℕ → ℕ) (k : Kernel) (u : UnsafePage) (p p' : Process)
    → Honest k
    → InStep initial p
    → Balanced p.controller
    → add_breakpoints k u false p ≡ done p'
    → KernelFifo initial u p p'
add_breakpoints-KernelFifo initial k u p p' honest step b run =
    let (gone, kept, page, before, after, statics, read, needed, retained, code) =
      add_breakpoints-Fifo k u p p' b run in
    let step' : InStep initial p' =
      Ensures-done (add_breakpoints-InStep initial k honest u false p step) run in
    (
      gone,
      kept,
      page,
      before,
      after,
      statics,
      read,
      needed,
      Retained-Stopped initial gone p p' retained step',
      retained,
      code,
    )

module _ (initial : ℕ → ℕ) (k : Kernel) (honest : Honest k) where
  switch_page-InStep :
      (u : UnsafePage) (prot cid : ℕ) (p : Process)
      → InStep initial p
      → Ensures (λ r. InStep initial (r.0)) (switch_page k u prot cid p)
  unfolding switch_page
  switch_page-InStep u prot cid p step =
      Ensures-bind (secpoline_mprotect-Honest initial k honest u.address prot cid p) (λ p1 (us, ms).
        returned (
          changed initial k honest u.address prot p (assign_perm u.address prot p1) step
            (ap (set_current_perm u.address prot) us) ms))

  add_breakpoint_wrapper-InStep :
      (address : ℕ) (p : Process)
      → InStep initial p
      → Ensures (InStep initial) (add_breakpoint_wrapper k address false p)
  unfolding add_breakpoint_wrapper wrap_at
  add_breakpoint_wrapper-InStep address p step = at (find_page address p.unsafe_pages)
    where
      at : (o : Option UnsafePage) → Ensures (InStep initial) (wrap_at k o false p)
      at none = trapped
      at (some u) =
          Ensures-if (is_exec u.current_perm) (λ _. returned {a = p} step)
            (λ _. add_breakpoints-InStep initial k honest u false p step)

  leave_unless-InStep :
      (c : Bool) (code : ℕ) (p : Process) (rest : Run (Process × ℕ))
      → InStep initial p
      → Ensures (λ r. InStep initial (r.0)) rest
      → Ensures (λ r. InStep initial (r.0)) (leave_unless c code p rest)
  leave_unless-InStep true code p rest step h = h
  leave_unless-InStep false code p rest step h = returned step

  read_only-InStep :
      (f : Fault) (u : UnsafePage) (o : Option (List ℕ)) (p : Process)
      → InStep initial p
      → Ensures (λ r. InStep initial (r.0)) (read_only k f u o p)
  unfolding read_only with_breakpoints
  read_only-InStep f u none p step = returned step
  read_only-InStep f u (some xs) p step = leave_unless-InStep (is_exec u.desired_perm) 5 p _ step (
      Ensures-bind (add_breakpoint_wrapper-InStep u.address p step)
        (λ p1 step1. switch_page-InStep u 5 f.cid p1 step1))

  at_page-InStep :
      (f : Fault) (o : Option UnsafePage) (p : Process)
      → ((u : UnsafePage)
          → o ≡ some u
          → is_write u.current_perm ≡ true
          → is_exec u.current_perm ≡ true)
      → InStep initial p
      → Ensures (λ r. InStep initial (r.0)) (at_page k f o p)
  unfolding at_page owned_page to_writable
  at_page-InStep f none p w step = returned step
  at_page-InStep f (some u) p w step = owned (lookup_addr p.manager.pages u.address f.cid)
    where
      owned : (o : Option VirtPage) → Ensures (λ r. InStep initial (r.0)) (owned_page k f u o p)
      owned none = returned step
      owned (some g) =
          Ensures-if (is_exec u.current_perm)
            (λ _.
              leave_unless-InStep (is_write u.desired_perm) 0 p _ step
                (switch_page-InStep u (clear_exec u.desired_perm) f.cid p step))
            (λ e.
              Ensures-if (is_write u.current_perm) (λ on. absurd (ground (arith, w u refl on, e)))
                (λ _. read_only-InStep f u u.unsafe_instructions p step))

  secpoline_segfault_handler-InStep :
      (f : Fault) (p : Process)
      → Expected f p
      → InStep initial p
      → Ensures (λ r. InStep initial (r.0)) (secpoline_segfault_handler k f p)
  unfolding secpoline_segfault_handler
  secpoline_segfault_handler-InStep f p h step =
      Ensures-assert (not (f.si_code == si_user) && not (f.si_code == si_tkill)) (λ _.
        Ensures-assert (not (f.si_code == segv_pkuerr)) (λ _.
          Ensures-if ((f.si_code == segv_bnderr) || (f.si_code == segv_maperr)) (λ _. returned step)
            (λ _.
              at_page-InStep f (find_unsafe_page f.si_addr p.unsafe_pages) p
                (λ u found. (h u found).1) step)))

-- The handler of segfaults, on a page that is not writable, with a kernel that carries out every
-- mprotect: when it returns, whatever the result, every unsafe instruction of a listed page that the
-- kernel lets execute is watched, those of the page that it has just made executable included, and
-- the list still has every such page as executable. Conditions: both hold before, for the pages
-- listed as executable, the counters are in balance, each watched page has its breakpoints on one
-- page, and if the fault is on a listed page, then that page is not writable without being
-- executable, and its vector has the size it says and holds addresses of the page.
pub secpoline_segfault_handler-KernelGuarded :
    (initial : ℕ → ℕ) (k : Kernel) (f : Fault) (p p' : Process) (code : ℕ)
    → Honest k
    → InStep initial p
    → Balanced p.controller
    → Tidy p.controller.dynamic_hbreakpoints
    → Guarded p
    → Expected f p
    → secpoline_segfault_handler k f p ≡ done (p', code)
    → KernelGuarded initial p' × InStep initial p' × Guarded p'
secpoline_segfault_handler-KernelGuarded initial k f p p' code honest step b t g h run =
    let g' = secpoline_segfault_handler-Guarded k f p p' code b t g h run in
    let step' : InStep initial p' =
      Ensures-done (secpoline_segfault_handler-InStep initial k honest f p h step) run in
    (Guarded-InStep initial p' g' step', step', g')
