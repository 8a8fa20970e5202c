-- ===== src/Copies/Returns.antt =====
-- A copy returns when the pages that it checks belong to the application.
use secpoline.Base.{Run, done, ptr_add, ℕ, ◌+◌, ◌≤◌, ◌≡◌, Bool, true}
use secpoline.Copies.{Thread, align_down}

-- The pages of a buffer and of the seven bytes behind it.
abbrev pub Reachable : (ℕ → Bool) → ℕ → ℕ → Type 0
Reachable may start size =
    (x : ℕ) → align_down start ≤ x → align_down x ≤ align_down (start + size + 7) → may x ≡ true

abbrev Trusted : Thread → Type 0
Trusted t = t.compartment_id ≡ 0

-- A check that returns wherever both accesses may happen.
abbrev Passes : (ℕ → Bool) → (ℕ → Thread → Run Thread) → Type 0
Passes may check =
    (a : ℕ) (t : Thread)
    → Trusted t
    → may a ≡ true
    → may (ptr_add a 7) ≡ true
    → (t' : Thread) × (check a t ≡ done t') × Trusted t'
