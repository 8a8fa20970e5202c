-- ===== src/Signals/Defaults.antt =====
-- `SignalHandlers::get_default_behavior`.
use secpoline.Base.{◌==◌, if◌then◌else◌, elem, Run, done, trap, ℕ, List, [], ◌∷◌}

pub data Disposition : Type 0 where
  ignored terminating dumping stopping continuing : Disposition

-- The numbers of the signals in the source's order.
abbrev pub ignored_signals : List ℕ
ignored_signals = 17 ∷ 23 ∷ 28 ∷ []

abbrev pub terminating_signals : List ℕ
terminating_signals = 14 ∷ 1 ∷ 2 ∷ 29 ∷ 9 ∷ 13 ∷ 27 ∷ 30 ∷ 16 ∷ 15 ∷ 10 ∷ 12 ∷ 26 ∷ []

abbrev pub dumping_signals : List ℕ
dumping_signals = 6 ∷ 7 ∷ 8 ∷ 4 ∷ 3 ∷ 11 ∷ 31 ∷ 5 ∷ 24 ∷ 25 ∷ []

abbrev pub stopping_signals : List ℕ
stopping_signals = 19 ∷ 20 ∷ 21 ∷ 22 ∷ []

abbrev pub get_default_behavior : ℕ → Run Disposition
get_default_behavior signo =
    if elem signo ignored_signals
    then done ignored
    else if elem signo terminating_signals
    then done terminating
    else if elem signo dumping_signals
    then done dumping
    else if elem signo stopping_signals
    then done stopping
    else if signo == 18
    then done continuing
    else trap
