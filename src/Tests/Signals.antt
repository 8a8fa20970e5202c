-- ===== src/Tests/Signals.antt =====
-- The signal handlers on a small table.
use secpoline.Base.{
  ◌==◌, done, ℕ, zero, suc, ◌≡◌, refl, true, false, none, some, List, [], ◌∷◌, arith,
}
use secpoline.Signals.Kernel.{Action, Kernel, meta_rt_sigaction}
use secpoline.Signals.Actions.{SignalHandlers, put, Outcome, outcome, handle_app_sigaction}
use secpoline.Signals.Actions.Kept.{Entered, handle_app_sigaction-Entered}
use secpoline.Signals.Actions.Effect.{
  Installed, handle_app_sigaction-Installed, handle_app_sigaction_stale,
}

abbrev action : ℕ → Action
action handler = record { handler = handler; flags = 4; restorer = 0; mask = 0 }

abbrev table : ℕ → List Action
table zero = []
table (suc n) = action 0 ∷ table n

-- Every signal enters at 4096.
abbrev kernel : Kernel
kernel = record { actions = λ n. action 4096; answer = λ signo given. 0; entry = 4096 }

abbrev handlers : SignalHandlers
handlers = record { dfl_handler = action 0; app_handlers = table 12; kernel = kernel }

defaulted : (o : Outcome) × (handle_app_sigaction 11 (some (action 0)) true handlers ≡ done o)
unfolding handle_app_sigaction meta_rt_sigaction put
defaulted = (_, refl)

handle_app_sigaction-Entered_example : Entered (defaulted.0).handlers.kernel
handle_app_sigaction-Entered_example =
    handle_app_sigaction-Entered 11 (some (action 0)) true handlers defaulted.0 (λ n g. refl)
      defaulted.1

handle_app_sigaction-Installed_example :
    (o : Outcome) × (handle_app_sigaction 10 (some (action 700)) true handlers ≡ done o)
    × ((0 == 0) ≡ true → Installed 10 (action 700) (action 0) true handlers o)
    × ((0 == 0) ≡ false → o ≡ outcome handlers 0 none)
handle_app_sigaction-Installed_example =
    handle_app_sigaction-Installed 10 (action 700) (action 0) true handlers (omega arith)
      (omega arith) refl refl

handle_app_sigaction_stale_example :
    (o : Outcome) × (handle_app_sigaction 11 (some (action 700)) true handlers ≡ done o)
    × (o.oldact ≡ some (action 700))
handle_app_sigaction_stale_example =
    handle_app_sigaction_stale 11 (action 700) (action 0) handlers refl refl refl refl refl refl
