-- ===== src/Tests/Spinlock.antt =====
-- A thread takes the lock.
use secpoline.Base.{ℕ, ◌≡◌, refl, true}
use secpoline.Spinlock.{
  Spinlock, outside, exchanging, holding, move, Reachable, start, next, lock_called, exchange_won,
  spinlock-exclusive,
}

abbrev thread : ℕ
thread = 7

abbrev taken : Spinlock
taken = record { lock_ = true; place = move 7 holding (move 7 exchanging (λ t. outside)) }

taken-Reachable : Reachable taken
taken-Reachable = next 7 (next 7 start (lock_called refl)) (exchange_won refl refl)

spinlock-exclusive_example : (thread ≡ thread) × (taken.lock_ ≡ true)
spinlock-exclusive_example = spinlock-exclusive taken thread thread taken-Reachable refl refl
