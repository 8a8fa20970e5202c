-- ===== src/Table/Dispatch.antt =====
-- Which handlers a syscall runs.
use secpoline.Base.{
  ℕ, zero, suc, ◌+◌, ◌-◌, ◌≤◌, ◌<◌, ◌^◌, ◌≡◌, ◌≢◌, refl, ap, true, false, none, some, List, [], ◌∷◌,
  ◌++◌, arith, ltb, leb, ◌==◌, done, length, get_elem?, length-append,
}
use secpoline.Table.{
  Handlers, handlers_of, nulls, row, generate_2d_handler_list, flatten, slots_from, until_null,
  secpoline_syscall_handler, max_valid_syscall_num,
}

abbrev pub NonNull : List ℕ → Type 0
NonNull [] = Unit {0}
NonNull (h ∷ hs) = (h ≢ 0) × NonNull hs

until_null-append : (hs rest : List ℕ) → NonNull hs → until_null (hs ++ (0 ∷ rest)) ≡ hs
unfolding until_null
until_null-append [] rest n = refl
until_null-append (h ∷ hs) rest n =
    let e : (h == 0) ≡ false = ground (arith, n.0) in rw (e, until_null-append hs rest n.1) refl

append_assoc : (xs ys zs : List ℕ) → (xs ++ ys) ++ zs ≡ xs ++ (ys ++ zs)
append_assoc [] ys zs = refl
append_assoc (x ∷ xs) ys zs = ap (λ l. x ∷ l) (append_assoc xs ys zs)

-- A row that is not full ends with a NULL.
row_ends :
    (t : Handlers) (rest : List ℕ)
    → NonNull (handlers_of t)
    → length (handlers_of t) < 5
    → until_null (row t ++ rest) ≡ handlers_of t
unfolding row nulls
row_ends t rest n short =
    let k = 4 - length (handlers_of t) in
    let e : 5 - length (handlers_of t) ≡ suc k = omega arith in
    rw (e, append_assoc (handlers_of t) (0 ∷ nulls k) rest)
      (until_null-append (handlers_of t) (nulls k ++ rest) n)

slots_from-row :
    (n : ℕ) (t : Handlers) (table : List Handlers)
    → get_elem? table n ≡ some t
    → (rest : List ℕ) × (slots_from n (generate_2d_handler_list table) ≡ row t ++ rest)
unfolding slots_from generate_2d_handler_list
slots_from-row n t [] h = ground arith
slots_from-row zero t (u ∷ us) h =
    let e : u ≡ t = cc in (flatten (generate_2d_handler_list us), rw e refl)
slots_from-row (suc n) t (u ∷ us) h = slots_from-row n t us h

-- A syscall whose row is not full runs its prehandlers, its main handler and its posthandlers, in
-- this order, and nothing else. No handler is NULL and the number is below the limit.
pub secpoline_syscall_handler-order :
    (n : ℕ) (t : Handlers) (table : List Handlers)
    → n < max_valid_syscall_num
    → get_elem? table n ≡ some t
    → NonNull (handlers_of t)
    → length t.prehandlers + length t.posthandlers < 4
    → secpoline_syscall_handler (generate_2d_handler_list table) n ≡ done (some (handlers_of t))
unfolding secpoline_syscall_handler
secpoline_syscall_handler-order n t table lt h nonnull short =
    let (rest, e) = slots_from-row n t table h in
    let below : ltb n max_valid_syscall_num ≡ true = ground arith in
    let positive : leb (2 ^ 63) n ≡ false = ground arith in
    let count : length (handlers_of t) < 5 =
      omega (arith, length-append t.prehandlers (t.main_handler ∷ t.posthandlers)) in
    rw (positive, below, e, row_ends t rest nonnull count) refl

-- A negative syscall number, which the application chooses, passes the test of the dispatch: the
-- handlers are read in front of the array.
pub secpoline_syscall_handler_negative :
    (list : List (List ℕ)) (n : ℕ) → 2 ^ 63 ≤ n → secpoline_syscall_handler list n ≡ done none
unfolding secpoline_syscall_handler
secpoline_syscall_handler_negative list n h =
    let e : leb (2 ^ 63) n ≡ true = ground arith in rw e refl
