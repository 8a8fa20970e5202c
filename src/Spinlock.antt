-- ===== src/Spinlock.antt =====
-- The spinlock (src/include/rigtorp_spinlock.h), as the atomic steps of threads on one flag.
use secpoline.Base.{
  ℕ, ◌≡◌, ◌≢◌, refl, sym, ◌∙◌, Bool, true, false, ◌==◌, if◌then◌else◌, arith, inl, inr, Bool-cases,
}

-- Where a thread is: outside, before the exchange of `lock`, in its inner loop, between the two
-- operations of `try_lock`, or holding the lock.
pub data Place : Type 0 where
  outside exchanging waiting trying holding : Place

-- `lock_`, and the place of each thread.
pub record Spinlock : Type 0 where
  pub lock_ : Bool
  pub place : ℕ → Place

abbrev pub move : ℕ → Place → (ℕ → Place) → ℕ → Place
move t p places u = if t == u then p else places u

-- The atomic steps of thread `t`.
pub data Step (t : ℕ) (s : Spinlock) : Spinlock → Type 0 where
  lock_called : s.place t ≡ outside → Step t s (record s { place = move t exchanging s.place })
  exchange_won :
      s.place t ≡ exchanging
      → s.lock_ ≡ false
      → Step t s (record { lock_ = true; place = move t holding s.place })
  exchange_lost :
      s.place t ≡ exchanging
      → s.lock_ ≡ true
      → Step t s (record { lock_ = true; place = move t waiting s.place })
  wait_over :
      s.place t ≡ waiting
      → s.lock_ ≡ false
      → Step t s (record s { place = move t exchanging s.place })
  wait_on : s.place t ≡ waiting → s.lock_ ≡ true → Step t s s
  try_free :
      s.place t ≡ outside → s.lock_ ≡ false → Step t s (record s { place = move t trying s.place })
  try_taken : s.place t ≡ outside → s.lock_ ≡ true → Step t s s
  try_won :
      s.place t ≡ trying
      → s.lock_ ≡ false
      → Step t s (record { lock_ = true; place = move t holding s.place })
  try_lost :
      s.place t ≡ trying
      → s.lock_ ≡ true
      → Step t s (record { lock_ = true; place = move t outside s.place })
  unlocked :
      s.place t ≡ holding → Step t s (record { lock_ = false; place = move t outside s.place })

pub data Reachable : Spinlock → Type 0 where
  start : Reachable (record { lock_ = false; place = λ t. outside })
  next : {s s' : Spinlock} (t : ℕ) → Reachable s → Step t s s' → Reachable s'

-- Whoever holds the lock has set the flag, and is alone.
abbrev Exclusion : Spinlock → Type 0
Exclusion s =
    ((t : ℕ) → s.place t ≡ holding → s.lock_ ≡ true)
    × ((t u : ℕ) → s.place t ≡ holding → s.place u ≡ holding → t ≡ u)

-- A move to a place other than `holding` adds no holder.
move_away :
    (t u : ℕ) (p : Place) (places : ℕ → Place)
    → p ≢ holding
    → move t p places u ≡ holding
    → (t ≢ u) × (places u ≡ holding)
move_away t u p places n h = elim (Bool-cases (t == u)) [
  | inl e ↦ let bad : p ≡ holding = rw e at h in let none = n bad in ground arith
  | inr e ↦ (ground arith, rw e at h)
]

away :
    (t : ℕ) (p : Place) (b : Bool) (s : Spinlock)
    → p ≢ holding
    → Exclusion s
    → ((u : ℕ) → t ≢ u → s.place u ≡ holding → b ≡ true)
    → Exclusion (record { lock_ = b; place = move t p s.place })
away t p b s n x flag = (
  λ u h. let (other, held) = move_away t u p s.place n h in flag u other held,
  λ u v h k. x.1 u v (move_away t u p s.place n h).1 (move_away t v p s.place n k).1,
)

-- With the flag clear nobody holds the lock, so who takes it is alone.
alone :
    (t u : ℕ) (s : Spinlock)
    → Exclusion s
    → s.lock_ ≡ false
    → move t holding s.place u ≡ holding
    → t ≡ u
alone t u s x free h = elim (Bool-cases (t == u)) [
  | inl e ↦ ground arith
  | inr e ↦ let held : s.place u ≡ holding = rw e at h in let set = x.0 u held in ground arith
]

won :
    (t : ℕ) (s : Spinlock)
    → Exclusion s
    → s.lock_ ≡ false
    → Exclusion (record { lock_ = true; place = move t holding s.place })
won t s x free = (λ u h. refl, λ u v h k. sym (alone t u s x free h) ∙ alone t v s x free k)

Step-Exclusion : (t : ℕ) (s s' : Spinlock) → Exclusion s → Step t s s' → Exclusion s'
Step-Exclusion t s _ x (lock_called e) =
    away t exchanging s.lock_ s (λ h. ground arith) x (λ u n h. x.0 u h)
Step-Exclusion t s _ x (exchange_won e free) = won t s x free
Step-Exclusion t s _ x (exchange_lost e f) =
    away t waiting true s (λ h. ground arith) x (λ u n h. refl)
Step-Exclusion t s _ x (wait_over e f) =
    away t exchanging s.lock_ s (λ h. ground arith) x (λ u n h. x.0 u h)
Step-Exclusion t s _ x (wait_on e f) = x
Step-Exclusion t s _ x (try_free e f) =
    away t trying s.lock_ s (λ h. ground arith) x (λ u n h. x.0 u h)
Step-Exclusion t s _ x (try_taken e f) = x
Step-Exclusion t s _ x (try_won e free) = won t s x free
Step-Exclusion t s _ x (try_lost e f) = away t outside true s (λ h. ground arith) x (λ u n h. refl)
Step-Exclusion t s _ x (unlocked e) =
    away t outside false s (λ h. ground arith) x
      (λ u n h. let same = x.1 t u e h in let none = n same in ground arith)

Reachable-Exclusion : (s : Spinlock) → Reachable s → Exclusion s
Reachable-Exclusion _ start = (λ t h. ground arith, λ t u h k. ground arith)
Reachable-Exclusion s (next t r step) = Step-Exclusion t _ s (Reachable-Exclusion _ r) step

-- Mutual exclusion: whatever the order of the atomic steps, two threads that hold the lock are the
-- same thread, and the flag is set. Only a holder calls `unlock`.
pub spinlock-exclusive :
    (s : Spinlock) (t u : ℕ)
    → Reachable s
    → s.place t ≡ holding
    → s.place u ≡ holding
    → (t ≡ u) × (s.lock_ ≡ true)
spinlock-exclusive s t u r h k = let x = Reachable-Exclusion s r in (x.1 t u h k, x.0 t h)
