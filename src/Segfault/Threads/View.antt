-- ===== src/Segfault/Threads/View.antt =====
-- The threads in the list, in their order.
use secpoline.Base.{
  ◌==◌, if◌then◌else◌, ==_iff, Bool-cases, length, done, ℕ, zero, suc, ◌+◌, ◌≤◌, ◌<◌, ◌≡◌, refl,
  sym, ap, ◌∙◌, ◌⊎◌, inl, inr, Bool, true, false, List, [], ◌∷◌, ◌++◌, arith,
}
use secpoline.Segfault.Threads.{
  Ptid, Synchronizer, position, tid_at, shift, move_back, remove_at, write_at,
}

-- The first `n` entries.
unfoldable pub first_threads : ℕ → List Ptid → List Ptid
first_threads zero ts = []
first_threads (suc n) [] = []
first_threads (suc n) (t ∷ ts) = t ∷ first_threads n ts

abbrev pub threads : Synchronizer → List Ptid
threads s = first_threads s.active_thread_list_size s.active_thread_list

-- The list without the first entry of a thread, and whether there is one.
unfoldable pub without : ℕ → List Ptid → List Ptid
without tid [] = []
without tid (t ∷ ts) = let rest = without tid ts in if t.tid == tid then ts else t ∷ rest

unfoldable pub listed : ℕ → List Ptid → Bool
listed tid [] = false
listed tid (t ∷ ts) = let rest = listed tid ts in if t.tid == tid then true else rest

shift-first :
    (n : ℕ) (t : Ptid) (ts : List Ptid)
    → n ≤ length ts
    → first_threads n (shift n (t ∷ ts)) ≡ first_threads n ts
unfolding shift first_threads
shift-first zero t ts h = refl
shift-first (suc n) t [] h = absurd (omega (arith, h))
shift-first (suc n) t (next ∷ ts) h = ap (◌∷◌ next) (shift-first n next ts (omega (arith, h)))

-- A thread that is not the last one: the entries behind it have moved.
move_back-without :
    (tid n : ℕ) (ts : List Ptid)
    → suc n ≤ length ts
    → position tid n ts < n
    → first_threads n (move_back (position tid n ts) n ts) ≡ without tid (first_threads (suc n) ts)
unfolding position move_back first_threads without
move_back-without tid zero ts h k = absurd (omega (arith, k))
move_back-without tid (suc n) [] h k = absurd (omega (arith, h))
move_back-without tid (suc n) (t ∷ ts) h k = elim (Bool-cases (t.tid == tid)) [
  | inl q ↦ rw q (shift-first (suc n) t ts (omega (arith, h)))
  | inr q ↦
      let k' : suc (position tid n ts) < suc n = rw q at k in
      rw q (ap (◌∷◌ t) (move_back-without tid n ts (omega (arith, h)) (omega (arith, k'))))
]

-- The last thread.
last-without :
    (tid n : ℕ) (ts : List Ptid)
    → suc n ≤ length ts
    → position tid n ts ≡ n
    → tid_at tid n ts ≡ true
    → first_threads n ts ≡ without tid (first_threads (suc n) ts)
unfolding position tid_at first_threads without
last-without tid n [] h k e = absurd (omega (arith, h))
last-without tid zero (t ∷ ts) h k e = rw e refl
last-without tid (suc n) (t ∷ ts) h k e = elim (Bool-cases (t.tid == tid)) [
  | inl q ↦ let k' : 0 ≡ suc n = rw q at k in absurd (omega (arith, k'))
  | inr q ↦
      let k' : suc (position tid n ts) ≡ suc n = rw q at k in
      rw q (ap (◌∷◌ t) (last-without tid n ts (omega (arith, h)) (omega (arith, k')) e))
]

-- A listed thread is found.
position-listed :
    (tid n : ℕ) (ts : List Ptid)
    → suc n ≤ length ts
    → listed tid (first_threads (suc n) ts) ≡ true
    → (position tid n ts < n) ⊎ ((position tid n ts ≡ n) × (tid_at tid n ts ≡ true))
unfolding position tid_at first_threads listed
position-listed tid n [] h e = absurd (omega (arith, h))
position-listed tid zero (t ∷ ts) h e = inr (
  refl,
  elim (Bool-cases (t.tid == tid)) [
    | inl q ↦ q
    | inr q ↦ let e' : false ≡ true = rw q at e in ground (arith, e')
  ],
)
position-listed tid (suc n) (t ∷ ts) h e = elim (Bool-cases (t.tid == tid)) [
  | inl q ↦ inl (rw q (omega arith))
  | inr q ↦
      let e' : listed tid (first_threads (suc n) ts) ≡ true = rw q at e in
      elim (position-listed tid n ts (omega (arith, h)) e') [
        | inl l ↦ inl (rw q (omega (arith, l)))
        | inr (l, g) ↦ inr (rw q (ap suc l), g)
      ]
]

-- One entry of the thread has gone, and the others keep their order.
abbrev pub Left : ℕ → Synchronizer → Synchronizer → Type 0
Left tid s s' =
    (threads s' ≡ without tid (threads s))
    × (s'.active_thread_list_size + 1 ≡ s.active_thread_list_size)
    × (s'.controller_thread ≡ s.controller_thread)

lt-distinct : (a b : ℕ) → a < b → (a == b) ≡ false
lt-distinct a b h = ground arith

pub remove_at-Left :
    (tid size : ℕ) (s : Synchronizer)
    → s.active_thread_list_size ≡ size
    → size ≤ length s.active_thread_list
    → listed tid (first_threads size s.active_thread_list) ≡ true
    → (s' : Synchronizer) × (remove_at tid size s ≡ done s') × Left tid s s'
unfolding remove_at listed first_threads
remove_at-Left tid zero s z h e = ground (arith, e)
remove_at-Left tid (suc n) s z h e = elim (position-listed tid n s.active_thread_list h e) [
  | inl l ↦
      let q : (position tid n s.active_thread_list == n) ≡ false =
        lt-distinct (position tid n s.active_thread_list) n l in
      (
        record s {
          active_thread_list_size = n;
          active_thread_list =
              move_back (position tid n s.active_thread_list) n s.active_thread_list;
        },
        rw q refl,
        (
          move_back-without tid n s.active_thread_list h l
              ∙ ap (λ m. without tid (first_threads m s.active_thread_list)) (sym z),
          omega (arith, z),
          refl,
        ),
      )
  | inr (l, g) ↦
      let q : (position tid n s.active_thread_list == n) ≡ true =
        (==_iff (position tid n s.active_thread_list) n).1 l in
      (
        record s { active_thread_list_size = n },
        rw (q, l, g) refl,
        (
          last-without tid n s.active_thread_list h l g
              ∙ ap (λ m. without tid (first_threads m s.active_thread_list)) (sym z),
          omega (arith, z),
          refl,
        ),
      )
]

pub write_at-first :
    (n : ℕ) (self : Ptid) (ts : List Ptid)
    → n < length ts
    → (ts' : List Ptid) × (write_at n self ts ≡ done ts')
      × (first_threads (n + 1) ts' ≡ first_threads n ts ++ self ∷ [])
unfolding write_at first_threads
write_at-first n self [] h = absurd (omega (arith, h))
write_at-first zero self (t ∷ ts) h = (self ∷ ts, refl, refl)
write_at-first (suc n) self (t ∷ ts) h =
    let (ts', run, e) = write_at-first n self ts (omega (arith, h)) in
    (t ∷ ts', rw run refl, let e1 : suc n + 1 ≡ suc (n + 1) = omega arith in rw e1 (ap (◌∷◌ t) e))
