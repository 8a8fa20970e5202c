-- ===== src/Signals/Actions.antt =====
-- `SignalHandlers` (src/syscall_monitor/vIrTuAlIzE_sIgNaLs.cpp). Its lock is not part of the model.
pub mod Kept
pub mod Effect
use secpoline.Base.{
  ltb, leb, ◌==◌, if◌then◌else◌, ltb→lt, leb→le, ==_iff, Bool-cases, Option-cases, length,
  get_elem?, length-append, elem, Run, done, trap, ◌>>=◌, ◌>>◌, nolibc_assert, Ensures, returned,
  trapped, Ensures-bind, Ensures-assert, Ensures-done, Ensures-if, Ensures-then, Ensures-weaken,
  Ensures-run, page_size, ptr_add_exact, ptr_sub_exact, ptr_add-ptr_sub, ptr_add-lt,
  page_align_self, ptr_add, ptr_sub, page_align, ℕ, zero, suc, ◌+◌, ◌-◌, ◌*◌, ◌/◌, ◌%◌, ◌^◌, ◌≤◌,
  ◌<◌, ◌≡◌, refl, sym, ap, ◌∙◌, ◌≢◌, ◌↔◌, ◌⊎◌, inl, inr, Bool, true, false, not, ◌&&◌, ◌||◌, Option,
  none, some, List, [], ◌∷◌, ◌++◌, map, arith,
}
use secpoline.Files.Bitmap.{
  FdBitmap, read_byte, set_byte, unset_byte, byte_at, update_at, zeros, enlarge, set_bit, unset_bit,
  read_bit,
}
use secpoline.Signals.Kernel.{
  Action, sigtrap, sigsegv, sigsys, is_guarded, clear_resethand, Kernel, set_action, rt_sigaction,
  strip, meta_rt_sigaction,
}

-- The members, and the kernel.
pub record SignalHandlers : Type 0 where
  pub dfl_handler : Action
  pub app_handlers : List Action
  pub kernel : Kernel

-- SIG_DFL and SIG_IGN.
abbrev pub sig_dfl : ℕ
sig_dfl = 0

abbrev pub sig_ign : ℕ
sig_ign = 1

-- `std::array::at` throws out of range.
abbrev pub at_index : Option Action → Run Action
at_index none = trap
at_index (some a) = done a

unfoldable pub get_app_handler : ℕ → SignalHandlers → Run Action
get_app_handler signo s = at_index (get_elem? s.app_handlers signo)

unfoldable pub put : List Action → ℕ → Action → List Action
put [] i a = []
put (x ∷ xs) zero a = a ∷ xs
put (x ∷ xs) (suc i) a = x ∷ put xs i a

-- It returns the old action.
unfoldable pub set_app_handler : ℕ → Action → SignalHandlers → Run (SignalHandlers × Action)
unfolding get_app_handler
set_app_handler signo a s = do
  old ← get_app_handler signo s
  done (record s { app_handlers = put s.app_handlers signo a }, old)

-- SIGKILL, and `_NSIG`.
abbrev pub sigkill : ℕ
sigkill = 9

abbrev pub nsig : ℕ
nsig = 65

-- The body of the constructor's loop. The kernel gives the current action when it answers 0.
unfoldable pub load_action : ℕ → SignalHandlers → Run SignalHandlers
unfolding set_app_handler
load_action i s =
    let dfl_act = s.kernel.actions i in
    if (i == sigkill) || not (s.kernel.answer i false == 0)
    then done s
    else (set_app_handler i dfl_act s >>= λ r.
        done (if dfl_act.handler == sig_dfl then record r.0 { dfl_handler = dfl_act } else r.0))

-- `n` rounds of the loop, from `i`.
unfoldable pub load_actions : ℕ → ℕ → SignalHandlers → Run SignalHandlers
unfolding load_action
load_actions zero i s = done s
load_actions (suc n) i s = load_action i s >>= λ s1. load_actions n (i + 1) s1

-- The constructor, on members that are not set yet.
unfoldable pub new_handlers : SignalHandlers → Run SignalHandlers
unfolding load_actions
new_handlers s = load_actions nsig 0 s

-- The state afterwards, the result, and what is written to `*oldact`, which the caller may have
-- given as NULL.
pub record Outcome : Type 0 where
  pub handlers : SignalHandlers
  pub result : ℕ
  pub oldact : Option Action

abbrev pub outcome : SignalHandlers → ℕ → Option Action → Outcome
outcome s result oldact = record { handlers = s; result = result; oldact = oldact }

abbrev pub report : Bool → Action → Option Action
report true a = some a
report false a = none

-- `nolibc_rt_sigaction` through the meta monitor.
abbrev pub request : ℕ → Option Action → SignalHandlers → SignalHandlers × ℕ × Option Action
request signo newact s =
    let (k, result, given) = meta_rt_sigaction signo newact s.kernel in
    (record s { kernel = k }, result, given)

-- SIGSYS: the registration is ignored.
unfoldable pub ignore_sigsys : Option Action → Bool → SignalHandlers → Run Outcome
unfolding get_app_handler
ignore_sigsys newact wants s =
    nolibc_assert (elim newact [ none ↦ true | some a ↦ read_byte a.flags 10 == 0 ])
    >> (if wants
        then (get_app_handler sigsys s >>= λ old. done (outcome s 0 (some old)))
        else done (outcome s 0 none))

-- Only the current action is wanted.
unfoldable pub query : ℕ → Bool → SignalHandlers → Run Outcome
unfolding get_app_handler
query signo wants s =
    let (s1, result, given) = request signo none s in
    if not (result == 0)
    then done (outcome s1 result none)
    else if wants
    then (get_app_handler signo s1 >>= λ old. done (outcome s1 result (some old)))
    else done (outcome s1 result none)

-- The new action ignores the signal. `seen` is what an earlier part has written to `*oldact`; the
-- structure that is stored is the one that the meta monitor leaves.
unfoldable pub ignore_signal : ℕ → Action → Bool → Option Action → SignalHandlers → Run Outcome
unfolding get_app_handler set_app_handler
ignore_signal signo a wants seen s =
    let (s1, result, given) = request signo (some a) s in
    if not (result == 0)
    then done (outcome s1 result seen)
    else (get_app_handler signo s1 >>= λ old. at_index given >>= λ stored.
        set_app_handler signo stored s1 >>= λ (s2, before).
        done (outcome s2 result (report wants old)))

-- The new action is the default one.
unfoldable pub unregister : ℕ → Action → Bool → Option Action → SignalHandlers → Run Outcome
unfolding set_app_handler
unregister signo a wants seen s =
    let (s1, result, given) = request signo (some a) s in
    if not (result == 0)
    then done (outcome s1 result seen)
    else (at_index given >>= λ stored. set_app_handler signo stored s1 >>= λ (s2, old).
        done (outcome s2 result (report wants old)))

-- `newact_cpy`: SA_SIGINFO|SA_ONSTACK|SA_NODEFER, and the handler `asm_signal_entry`.
abbrev pub wrapper : ℕ → Action → Action
wrapper entry a = record a {
  handler = entry;
  flags = set_byte 30 (set_byte 27 (set_byte 2 a.flags));
}

unfoldable pub register : ℕ → Action → Bool → Option Action → SignalHandlers → Run Outcome
unfolding set_app_handler
register signo a wants seen s =
    let (s1, result, given) = request signo (some (wrapper s.kernel.entry a)) s in
    if not (result == 0)
    then done (outcome s1 result seen)
    else (set_app_handler signo a s1 >>= λ (s2, old). done (outcome s2 result (report wants old)))

-- What follows the part for SIGSEGV and SIGTRAP.
unfoldable pub install : ℕ → Action → Bool → Option Action → SignalHandlers → Run Outcome
unfolding ignore_signal unregister register
install signo a wants seen s =
    if a.handler == sig_ign
    then ignore_signal signo a wants seen s
    else if a.handler == sig_dfl
    then unregister signo a wants seen s
    else register signo a wants seen s

-- SIGSEGV and SIGTRAP with a new action; the code goes on to the part for all signals.
unfoldable pub keep_and_install : ℕ → Action → Bool → SignalHandlers → Run Outcome
unfolding install
keep_and_install signo a wants s =
    let b : Action = record a { flags = clear_resethand a.flags } in
    let (s1, result, given) = request signo none s in
    if result == 0
    then (set_app_handler signo b s1 >>= λ (s2, old). install signo b wants (report wants old) s2)
    else install signo b wants none s1

unfoldable pub handle_app_sigaction : ℕ → Option Action → Bool → SignalHandlers → Run Outcome
unfolding ignore_sigsys query keep_and_install
handle_app_sigaction signo newact wants s =
    nolibc_assert (ltb signo 128 && ltb 0 signo)
    >> (if signo == sigsys then ignore_sigsys newact wants s else elim newact [
      | none ↦ query signo wants s
      | some a ↦
          if (signo == sigsegv) || (signo == sigtrap)
          then keep_and_install signo a wants s
          else install signo a wants none s
    ])

-- The handler to call: `ud2` without one.
unfoldable pub invoke_app_specific_handler : ℕ → SignalHandlers → Run (SignalHandlers × ℕ)
unfolding set_app_handler
invoke_app_specific_handler sig s = do
  a ← get_app_handler sig s
  nolibc_assert (not (a.handler == sig_dfl) && not (a.handler == sig_ign))
  s1 ←
      (if read_byte a.flags 31 == 1
        then (set_app_handler sig s.dfl_handler s >>= λ r. done (r.0))
        else done s)
  done (s1, a.handler)
