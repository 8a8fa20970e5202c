-- ===== src/Signals/Actions/Kept.antt =====
-- The kernel's handlers of SIGSEGV, SIGSYS and SIGTRAP.
use secpoline.Base.{
  ltb, ◌==◌, ==_iff, Bool-cases, done, Ensures, returned, Ensures-bind, Ensures-assert,
  Ensures-done, Ensures-if, Ensures-then, ℕ, ◌≡◌, inl, inr, Bool, true, not, ◌&&◌, ◌||◌, Option,
  none, some, arith,
}
use secpoline.Signals.Kernel.{
  Action, sigtrap, sigsegv, sigsys, is_guarded, clear_resethand, Kernel, rt_sigaction,
  meta_rt_sigaction,
}
use secpoline.Signals.Actions.{
  SignalHandlers, sig_dfl, sig_ign, at_index, get_app_handler, set_app_handler, Outcome, report,
  request, ignore_sigsys, query, ignore_signal, unregister, wrapper, register, install,
  keep_and_install, handle_app_sigaction,
}

-- The three signals enter at `asm_signal_entry`.
abbrev pub Entered : Kernel → Type 0
Entered k = (n : ℕ) → is_guarded n ≡ true → (k.actions n).handler ≡ k.entry

rt_sigaction-Entered :
    (signo : ℕ) (a : Action) (k : Kernel)
    → (is_guarded signo ≡ true → a.handler ≡ k.entry)
    → Entered k
    → Entered ((rt_sigaction signo (some a) k).0)
unfolding rt_sigaction
rt_sigaction-Entered signo a k h e n g = elim (Bool-cases (k.answer signo true == 0)) [
  | inl taken ↦ rw taken (elim (Bool-cases (n == signo)) [
    | inl same ↦ rw same (h (rw ((==_iff n signo).0 same) at g))
    | inr other ↦ rw other (e n g)
  ])
  | inr off ↦ rw off (e n g)
]

meta_rt_sigaction-Entered :
    (signo : ℕ) (newact : Option Action) (k : Kernel)
    → Entered k
    → Entered ((meta_rt_sigaction signo newact k).0)
unfolding meta_rt_sigaction
meta_rt_sigaction-Entered signo none k e = e
meta_rt_sigaction-Entered signo (some a) k e =
    elim (Bool-cases (is_guarded signo && not (a.handler == k.entry))) [
      | inl taken ↦ rw taken e
      | inr off ↦ rw off (rt_sigaction-Entered signo a k (λ g. ground (arith, off, g)) e)
    ]

request-Entered :
    (signo : ℕ) (newact : Option Action) (s : SignalHandlers)
    → Entered s.kernel
    → Entered ((request signo newact s).0).kernel
request-Entered signo newact s e = meta_rt_sigaction-Entered signo newact s.kernel e

set_app_handler-Entered :
    (signo : ℕ) (a : Action) (s : SignalHandlers)
    → Entered s.kernel
    → Ensures (λ r. Entered (r.0).kernel) (set_app_handler signo a s)
unfolding set_app_handler
set_app_handler-Entered signo a s e = Ensures-then (get_app_handler signo s) (λ old. returned e)

ignore_signal-Entered :
    (signo : ℕ) (a : Action) (wants : Bool) (seen : Option Action) (s : SignalHandlers)
    → Entered s.kernel
    → Ensures (λ o. Entered o.handlers.kernel) (ignore_signal signo a wants seen s)
unfolding ignore_signal
ignore_signal-Entered signo a wants seen s e =
    let (s1, result, given) = request signo (some a) s in
    let e1 : Entered s1.kernel = request-Entered signo (some a) s e in
    Ensures-if (not (result == 0)) (λ _. returned e1)
      (λ _. Ensures-then (get_app_handler signo s1) (λ old. Ensures-then (at_index given) (λ stored.
        Ensures-bind (set_app_handler-Entered signo stored s1 e1) (λ r e2. returned e2))))

unregister-Entered :
    (signo : ℕ) (a : Action) (wants : Bool) (seen : Option Action) (s : SignalHandlers)
    → Entered s.kernel
    → Ensures (λ o. Entered o.handlers.kernel) (unregister signo a wants seen s)
unfolding unregister
unregister-Entered signo a wants seen s e =
    let (s1, result, given) = request signo (some a) s in
    let e1 : Entered s1.kernel = request-Entered signo (some a) s e in
    Ensures-if (not (result == 0)) (λ _. returned e1)
      (λ _.
        Ensures-then (at_index given) (λ stored.
          Ensures-bind (set_app_handler-Entered signo stored s1 e1) (λ r e2. returned e2)))

register-Entered :
    (signo : ℕ) (a : Action) (wants : Bool) (seen : Option Action) (s : SignalHandlers)
    → Entered s.kernel
    → Ensures (λ o. Entered o.handlers.kernel) (register signo a wants seen s)
unfolding register
register-Entered signo a wants seen s e =
    let (s1, result, given) = request signo (some (wrapper s.kernel.entry a)) s in
    let e1 : Entered s1.kernel = request-Entered signo (some (wrapper s.kernel.entry a)) s e in
    Ensures-if (not (result == 0)) (λ _. returned e1)
      (λ _. Ensures-bind (set_app_handler-Entered signo a s1 e1) (λ r e2. returned e2))

install-Entered :
    (signo : ℕ) (a : Action) (wants : Bool) (seen : Option Action) (s : SignalHandlers)
    → Entered s.kernel
    → Ensures (λ o. Entered o.handlers.kernel) (install signo a wants seen s)
unfolding install
install-Entered signo a wants seen s e =
    Ensures-if (a.handler == sig_ign) (λ _. ignore_signal-Entered signo a wants seen s e)
      (λ _.
        Ensures-if (a.handler == sig_dfl) (λ _. unregister-Entered signo a wants seen s e)
          (λ _. register-Entered signo a wants seen s e))

keep_and_install-Entered :
    (signo : ℕ) (a : Action) (wants : Bool) (s : SignalHandlers)
    → Entered s.kernel
    → Ensures (λ o. Entered o.handlers.kernel) (keep_and_install signo a wants s)
unfolding keep_and_install
keep_and_install-Entered signo a wants s e =
    let b : Action = record a { flags = clear_resethand a.flags } in
    let (s1, result, given) = request signo none s in
    let e1 : Entered s1.kernel = request-Entered signo none s e in
    Ensures-if (result == 0)
      (λ _.
        Ensures-bind (set_app_handler-Entered signo b s1 e1)
          (λ r e2. install-Entered signo b wants (report wants (r.1)) (r.0) e2))
      (λ _. install-Entered signo b wants none s1 e1)

query-Entered :
    (signo : ℕ) (wants : Bool) (s : SignalHandlers)
    → Entered s.kernel
    → Ensures (λ o. Entered o.handlers.kernel) (query signo wants s)
unfolding query
query-Entered signo wants s e =
    let (s1, result, given) = request signo none s in
    let e1 : Entered s1.kernel = request-Entered signo none s e in
    Ensures-if (not (result == 0)) (λ _. returned e1)
      (λ _.
        Ensures-if wants (λ _. Ensures-then (get_app_handler signo s1) (λ old. returned e1))
          (λ _. returned e1))

ignore_sigsys-Entered :
    (newact : Option Action) (wants : Bool) (s : SignalHandlers)
    → Entered s.kernel
    → Ensures (λ o. Entered o.handlers.kernel) (ignore_sigsys newact wants s)
unfolding ignore_sigsys
ignore_sigsys-Entered newact wants s e = Ensures-then _ (λ _.
    Ensures-if wants (λ _. Ensures-then (get_app_handler sigsys s) (λ old. returned e))
      (λ _. returned e))

handle_app_sigaction-Ensures :
    (signo : ℕ) (newact : Option Action) (wants : Bool) (s : SignalHandlers)
    → Entered s.kernel
    → Ensures (λ o. Entered o.handlers.kernel) (handle_app_sigaction signo newact wants s)
unfolding handle_app_sigaction
handle_app_sigaction-Ensures signo none wants s e =
    Ensures-assert (ltb signo 128 && ltb 0 signo) (λ _.
      Ensures-if (signo == sigsys) (λ _. ignore_sigsys-Entered none wants s e)
        (λ _. query-Entered signo wants s e))
handle_app_sigaction-Ensures signo (some a) wants s e =
    Ensures-assert (ltb signo 128 && ltb 0 signo) (λ _.
      Ensures-if (signo == sigsys) (λ _. ignore_sigsys-Entered (some a) wants s e)
        (λ _.
          Ensures-if ((signo == sigsegv) || (signo == sigtrap))
            (λ _. keep_and_install-Entered signo a wants s e)
            (λ _. install-Entered signo a wants none s e)))

-- `handle_app_sigaction`, with its requests passed on by the meta monitor, never changes where the
-- kernel delivers SIGSEGV, SIGSYS and SIGTRAP: if they enter at `asm_signal_entry` before, then
-- they
-- do so afterwards, for every signal and action that the application gives, SIG_IGN and SIG_DFL
-- included, and whatever the kernel answers.
pub handle_app_sigaction-Entered :
    (signo : ℕ) (newact : Option Action) (wants : Bool) (s : SignalHandlers) (o : Outcome)
    → Entered s.kernel
    → handle_app_sigaction signo newact wants s ≡ done o
    → Entered o.handlers.kernel
handle_app_sigaction-Entered signo newact wants s o e run =
    Ensures-done (handle_app_sigaction-Ensures signo newact wants s e) run
