-- ===== src/Signals/Actions/Effect.antt =====
-- What `handle_app_sigaction` does for the application.
use secpoline.Base.{
  ltb, ◌==◌, if◌then◌else◌, Bool-cases, get_elem?, done, ℕ, zero, suc, ◌<◌, ◌≡◌, refl, ap, ◌≢◌, inl,
  inr, Bool, true, false, not, ◌&&◌, ◌||◌, Option, none, some, List, [], ◌∷◌, arith,
}
use secpoline.Signals.Kernel.{
  Action, sigtrap, sigsegv, sigsys, is_guarded, clear_resethand, Kernel, set_action, rt_sigaction,
  meta_rt_sigaction,
}
use secpoline.Signals.Actions.{
  SignalHandlers, sig_dfl, sig_ign, at_index, get_app_handler, put, set_app_handler, Outcome,
  outcome, report, ignore_signal, unregister, wrapper, register, install, keep_and_install,
  handle_app_sigaction,
}

-- The action that the kernel is given for an action of the application.
abbrev pub in_kernel : ℕ → Action → Action
in_kernel entry a = if (a.handler == sig_ign) || (a.handler == sig_dfl) then a else wrapper entry a

-- The request reaches the kernel as it is.
abbrev pub passes : ℕ → Action → Kernel → Bool
passes signo a k = is_guarded signo && not (a.handler == k.entry)

meta_rt_sigaction_accepted :
    (signo : ℕ) (a : Action) (k : Kernel)
    → passes signo a k ≡ false
    → (k.answer signo true == 0) ≡ true
    → meta_rt_sigaction signo (some a) k
      ≡ (record k { actions = set_action signo a k.actions }, 0, some a)
unfolding meta_rt_sigaction rt_sigaction
meta_rt_sigaction_accepted signo a k p taken = rw (p, taken) refl

meta_rt_sigaction_refused :
    (signo : ℕ) (a : Action) (k : Kernel)
    → passes signo a k ≡ false
    → (k.answer signo true == 0) ≡ false
    → meta_rt_sigaction signo (some a) k ≡ (k, k.answer signo true, some a)
unfolding meta_rt_sigaction rt_sigaction
meta_rt_sigaction_refused signo a k p off = rw (p, off) refl

-- The table has the action, and the kernel is `k`.
abbrev pub stored : ℕ → Action → Kernel → SignalHandlers → SignalHandlers
stored signo a k s = record s { app_handlers = put s.app_handlers signo a; kernel = k }

module _ (signo : ℕ) (a old : Action) (wants : Bool) (seen : Option Action) (s : SignalHandlers)
    (k : Kernel) (there : get_elem? s.app_handlers signo ≡ some old) where
  ignore_signal_accepted :
      meta_rt_sigaction signo (some a) s.kernel ≡ (k, 0, some a)
      → ignore_signal signo a wants seen s
        ≡ done (outcome (stored signo a k s) 0 (report wants old))
  unfolding ignore_signal set_app_handler get_app_handler
  ignore_signal_accepted r = rw (r, there) refl

  unregister_accepted :
      meta_rt_sigaction signo (some a) s.kernel ≡ (k, 0, some a)
      → unregister signo a wants seen s ≡ done (outcome (stored signo a k s) 0 (report wants old))
  unfolding unregister set_app_handler get_app_handler
  unregister_accepted r = rw (r, there) refl

  register_accepted :
      (given : Option Action)
      → meta_rt_sigaction signo (some (wrapper s.kernel.entry a)) s.kernel ≡ (k, 0, given)
      → register signo a wants seen s ≡ done (outcome (stored signo a k s) 0 (report wants old))
  unfolding register set_app_handler get_app_handler
  register_accepted given r = rw (r, there) refl

  install_accepted :
      meta_rt_sigaction signo (some (in_kernel s.kernel.entry a)) s.kernel
        ≡ (k, 0, some (in_kernel s.kernel.entry a))
      → install signo a wants seen s ≡ done (outcome (stored signo a k s) 0 (report wants old))
  unfolding install
  install_accepted r = elim (Bool-cases (a.handler == sig_ign)) [
    | inl ign ↦ rw ign (ignore_signal_accepted (rw ign at r))
    | inr other ↦ elim (Bool-cases (a.handler == sig_dfl)) [
      | inl dfl ↦ rw (other, dfl) (unregister_accepted (rw (other, dfl) at r))
      | inr new ↦ rw (other, new) (register_accepted _ (rw (other, new) at r))
    ]
  ]

-- Nothing has changed.
module _ (signo : ℕ) (a : Action) (wants : Bool) (seen : Option Action) (s : SignalHandlers)
    (code : ℕ) (error : (code == 0) ≡ false) where
  install_refused :
      meta_rt_sigaction signo (some (in_kernel s.kernel.entry a)) s.kernel
        ≡ (s.kernel, code, some (in_kernel s.kernel.entry a))
      → install signo a wants seen s ≡ done (outcome s code seen)
  unfolding install ignore_signal unregister register
  install_refused r = elim (Bool-cases (a.handler == sig_ign)) [
    | inl ign ↦ rw (ign, rw ign at r, error) refl
    | inr other ↦ elim (Bool-cases (a.handler == sig_dfl)) [
      | inl dfl ↦ rw (other, dfl, rw (other, dfl) at r, error) refl
      | inr new ↦ rw (other, new, rw (other, new) at r, error) refl
    ]
  ]

get_elem?-put :
    (xs : List Action) (i : ℕ) (a old : Action)
    → get_elem? xs i ≡ some old
    → (get_elem? (put xs i a) i ≡ some a)
      × ((j : ℕ) → j ≢ i → get_elem? (put xs i a) j ≡ get_elem? xs j)
unfolding put
get_elem?-put [] i a old h = absurd (cc)
get_elem?-put (x ∷ xs) zero a old h = (refl, other)
  where
    other : (j : ℕ) → j ≢ 0 → get_elem? (a ∷ xs) j ≡ get_elem? (x ∷ xs) j
    other zero h = absurd (h refl)
    other (suc j) h = refl
get_elem?-put (x ∷ xs) (suc i) a old h =
    let (here, rest) = get_elem?-put xs i a old h in (here, other rest)
  where
    other :
        ((j : ℕ) → j ≢ i → get_elem? (put xs i a) j ≡ get_elem? xs j)
        → (j : ℕ) → j ≢ suc i
        → get_elem? (x ∷ put xs i a) j ≡ get_elem? (x ∷ xs) j
    other rest zero h = refl
    other rest (suc j) h = rest j (λ e. h (ap suc e))

-- `sigaction` as the application sees it, and what the kernel is left with.
abbrev pub Installed : ℕ → Action → Action → Bool → SignalHandlers → Outcome → Type 0
Installed signo a old wants s o =
    (o.result ≡ 0)
    × (o.oldact ≡ report wants old)
    × (get_app_handler signo o.handlers ≡ done a)
    × ((n : ℕ) → n ≢ signo → get_app_handler n o.handlers ≡ get_app_handler n s)
    × (o.handlers.kernel ≡ record s.kernel {
      actions = set_action signo (in_kernel s.kernel.entry a) s.kernel.actions;
    })

Installed-stored :
    (signo : ℕ) (a old : Action) (wants : Bool) (s : SignalHandlers)
    → get_elem? s.app_handlers signo ≡ some old
    → Installed signo a old wants s (
        outcome
          (stored signo a
            (record s.kernel {
              actions = set_action signo (in_kernel s.kernel.entry a) s.kernel.actions;
            })
            s)
          0
          (report wants old))
unfolding get_app_handler
Installed-stored signo a old wants s there =
    let (here, rest) = get_elem?-put s.app_handlers signo a old there in
    (refl, refl, ap at_index here, λ n h. ap at_index (rest n h), refl)

-- `handle_app_sigaction` with a new action for a signal that the monitor does not need itself. When
-- the kernel takes the action, the result is 0, `*oldact` receives the action that the application
-- had set, the application's action is the new one, those of the other signals stay, and the kernel
-- has the action itself when it is SIG_IGN or SIG_DFL and the entry of the monitor otherwise. When
-- the kernel refuses, its answer is the result and nothing changes. The signal has a place in the
-- table.
pub handle_app_sigaction-Installed :
    (signo : ℕ) (a old : Action) (wants : Bool) (s : SignalHandlers)
    → 0 < signo
    → signo < 128
    → is_guarded signo ≡ false
    → get_elem? s.app_handlers signo ≡ some old
    → (o : Outcome) × (handle_app_sigaction signo (some a) wants s ≡ done o)
      × ((s.kernel.answer signo true == 0) ≡ true → Installed signo a old wants s o)
      × ((s.kernel.answer signo true == 0) ≡ false
          → o ≡ outcome s (s.kernel.answer signo true) none)
unfolding handle_app_sigaction
handle_app_sigaction-Installed signo a old wants s pos small free there =
    let valid : (ltb signo 128 && ltb 0 signo) ≡ true = ground arith in
    let not_sys : (signo == sigsys) ≡ false = ground (arith, free) in
    let not_segv : ((signo == sigsegv) || (signo == sigtrap)) ≡ false = ground (arith, free) in
    let b = in_kernel s.kernel.entry a in
    let free_b : passes signo b s.kernel ≡ false = rw free refl in
    elim (Bool-cases (s.kernel.answer signo true == 0)) [
      | inl taken ↦ (
        outcome
            (stored signo a (record s.kernel { actions = set_action signo b s.kernel.actions }) s) 0
            (report wants old),
        rw (valid, not_sys, not_segv)
            (install_accepted signo a old wants none s _ there
              (meta_rt_sigaction_accepted signo b s.kernel free_b taken)),
        λ _. Installed-stored signo a old wants s there,
        λ off. absurd (ground (arith, taken, off)),
      )
      | inr off ↦ (
        outcome s (s.kernel.answer signo true) none,
        rw (valid, not_sys, not_segv)
            (install_refused signo a wants none s _ off
              (meta_rt_sigaction_refused signo b s.kernel free_b off)),
        λ taken. absurd (ground (arith, taken, off)),
        λ _. refl,
      )
    ]

-- The application's action for SIGSEGV or SIGTRAP as it is stored.
abbrev pub without_reset : Action → Action
without_reset a = record a { flags = clear_resethand a.flags }

keep_and_install_accepted :
    (signo : ℕ) (a old : Action) (wants : Bool) (s : SignalHandlers)
    → (a.handler == sig_ign) ≡ false
    → (a.handler == sig_dfl) ≡ false
    → (s.kernel.answer signo false == 0) ≡ true
    → (s.kernel.answer signo true == 0) ≡ true
    → get_elem? s.app_handlers signo ≡ some old
    → (o : Outcome) × (keep_and_install signo a wants s ≡ done o)
      × (o.oldact ≡ report wants (without_reset a))
unfolding keep_and_install set_app_handler get_app_handler meta_rt_sigaction rt_sigaction
keep_and_install_accepted signo a old wants s new1 new2 asked taken there =
    let (here, rest) = get_elem?-put s.app_handlers signo (without_reset a) old there in
    let s2 : SignalHandlers = record s {
      app_handlers = put s.app_handlers signo (without_reset a);
    } in
    let w = wrapper s.kernel.entry (without_reset a) in
    let k : Kernel = record s.kernel { actions = set_action signo w s.kernel.actions } in
    let same : in_kernel s.kernel.entry (without_reset a) ≡ w = rw (new1, new2) refl in
    let pass : passes signo w s.kernel ≡ false = ground arith in
    let run =
      install_accepted signo (without_reset a) (without_reset a) wants (report wants old) s2 k here
        (rw same (meta_rt_sigaction_accepted signo w s.kernel pass taken)) in
    (
      outcome (stored signo (without_reset a) k s2) 0 (report wants (without_reset a)),
      rw (asked, there) run,
      refl,
    )

-- The bug for SIGSEGV and SIGTRAP: with a new action that is a function, `*oldact` receives the new
-- action, whatever the application had set before, because the code stores the new action twice.
-- The
-- kernel takes both requests, and the signal has a place in the table.
pub handle_app_sigaction_stale :
    (signo : ℕ) (a old : Action) (s : SignalHandlers)
    → ((signo == sigsegv) || (signo == sigtrap)) ≡ true
    → (a.handler == sig_ign) ≡ false
    → (a.handler == sig_dfl) ≡ false
    → (s.kernel.answer signo false == 0) ≡ true
    → (s.kernel.answer signo true == 0) ≡ true
    → get_elem? s.app_handlers signo ≡ some old
    → (o : Outcome) × (handle_app_sigaction signo (some a) true s ≡ done o)
      × (o.oldact ≡ some (without_reset a))
unfolding handle_app_sigaction
handle_app_sigaction_stale signo a old s which new1 new2 asked taken there =
    let valid : (ltb signo 128 && ltb 0 signo) ≡ true = ground arith in
    let not_sys : (signo == sigsys) ≡ false = ground arith in
    let (o, run, stale) =
      keep_and_install_accepted signo a old true s new1 new2 asked taken there in
    (o, rw (valid, not_sys, which) run, stale)
