-- ===== src/Table/Extend.antt =====
-- Adding handlers.
use secpoline.Base.{
  Run, ℕ, zero, suc, ◌≤◌, ◌<◌, ◌≡◌, ◌≢◌, refl, inl, inr, Bool, true, false, ◌&&◌, some, List, [],
  ◌∷◌, ◌++◌, arith, ltb, ◌==◌, if◌then◌else◌, done, trap, length, get_elem?, length-append,
  Bool-cases, elem,
}
use secpoline.Table.{
  Handlers, HandlerType, prehandler, main_handler, posthandler, emulate_later, no_handlers,
  set_handler, update_entry, add_handler, handlers_of, max_valid_syscall_num,
}
use secpoline.Table.Dispatch.{NonNull}

-- At most two handlers before and after the main one, and none is NULL.
pub record Good (t : Handlers) : Type 0 where
  pub before : length t.prehandlers ≤ 2
  pub after : length t.posthandlers ≤ 2
  pub nonnull : NonNull (handlers_of t)

-- When is there room for the handler?
abbrev pub fits : ℕ → HandlerType → Handlers → Bool
fits default prehandler t = ltb (length t.prehandlers) 2
fits default main_handler t = t.main_handler == default
fits default posthandler t = ltb (length t.posthandlers) 2
fits default emulate_later t = no_handlers t.posthandlers && no_handlers t.prehandlers

NonNull-append : (xs ys : List ℕ) → NonNull xs → NonNull ys → NonNull (xs ++ ys)
NonNull-append [] ys m n = n
NonNull-append (x ∷ xs) ys m n = (m.0, NonNull-append xs ys m.1 n)

NonNull-left : (xs ys : List ℕ) → NonNull (xs ++ ys) → NonNull xs
NonNull-left [] ys n = tt
NonNull-left (x ∷ xs) ys n = (n.0, NonNull-left xs ys n.1)

NonNull-right : (xs ys : List ℕ) → NonNull (xs ++ ys) → NonNull ys
NonNull-right [] ys n = n
NonNull-right (x ∷ xs) ys n = NonNull-right xs ys n.1

elem-append : (a : ℕ) (xs ys : List ℕ) → elem a ys ≡ true → elem a (xs ++ ys) ≡ true
elem-append a [] ys h = h
elem-append a (x ∷ xs) ys h = ground (arith, elem-append a xs ys h)

elem-append_left : (a : ℕ) (xs ys : List ℕ) → elem a xs ≡ true → elem a (xs ++ ys) ≡ true
elem-append_left a [] ys h = ground arith
elem-append_left a (x ∷ xs) ys h =
    ground (arith, λ (e : elem a xs ≡ true). elem-append_left a xs ys e)

-- What each kind of handler changes: one behind the others in front, in place of the main one, one
-- behind the others after it; the rest of the entry stays.
abbrev pub Extended : ℕ → HandlerType → Handlers → Handlers → Type 0
Extended func prehandler t t' =
    (t'.prehandlers ≡ t.prehandlers ++ func ∷ [])
    × (t'.main_handler ≡ t.main_handler)
    × (t'.posthandlers ≡ t.posthandlers)
    × (t'.is_emulated ≡ t.is_emulated)
Extended func main_handler t t' =
    (t'.prehandlers ≡ t.prehandlers)
    × (t'.main_handler ≡ func)
    × (t'.posthandlers ≡ t.posthandlers)
    × (t'.is_emulated ≡ t.is_emulated)
Extended func posthandler t t' =
    (t'.prehandlers ≡ t.prehandlers)
    × (t'.main_handler ≡ t.main_handler)
    × (t'.posthandlers ≡ t.posthandlers ++ func ∷ [])
    × (t'.is_emulated ≡ t.is_emulated)
Extended func emulate_later t t' =
    (t'.prehandlers ≡ t.prehandlers)
    × (t'.main_handler ≡ func)
    × (t'.posthandlers ≡ t.posthandlers)
    × (t'.is_emulated ≡ true)

-- The entry is changed to a good one that runs the handler.
Added : ℕ → HandlerType → Handlers → Run Handlers → Type 0
Added func how t r =
    (t' : Handlers) × (r ≡ done t')
    × Good t'
    × Extended func how t t'
    × (elem func (handlers_of t') ≡ true)

self : (func : ℕ) (hs : List ℕ) → elem func (func ∷ hs) ≡ true
self func hs = ground arith

set_handler-Added :
    (default func : ℕ) (how : HandlerType) (t : Handlers)
    → func ≢ 0
    → Good t
    → fits default how t ≡ true
    → Added func how t (set_handler default func how t)
unfolding set_handler Added
set_handler-Added default func prehandler t n g h =
    let t' : Handlers = record t { prehandlers = t.prehandlers ++ func ∷ [] } in
    let left = NonNull-left t.prehandlers (t.main_handler ∷ t.posthandlers) g.nonnull in
    let right = NonNull-right t.prehandlers (t.main_handler ∷ t.posthandlers) g.nonnull in
    (
      t',
      rw h refl,
      record {
        before = ground (arith, length-append t.prehandlers (func ∷ []));
        after = g.after;
        nonnull =
            NonNull-append (t.prehandlers ++ func ∷ []) (t.main_handler ∷ t.posthandlers)
              (NonNull-append t.prehandlers (func ∷ []) left (n, tt)) right;
      },
      (refl, refl, refl, refl),
      elem-append_left func (t.prehandlers ++ func ∷ []) (t.main_handler ∷ t.posthandlers)
          (elem-append func t.prehandlers (func ∷ []) (self func [])),
    )
set_handler-Added default func main_handler t n g h =
    let left = NonNull-left t.prehandlers (t.main_handler ∷ t.posthandlers) g.nonnull in
    let right = NonNull-right t.prehandlers (t.main_handler ∷ t.posthandlers) g.nonnull in
    (
      record t { main_handler = func },
      rw h refl,
      record {
        before = g.before;
        after = g.after;
        nonnull = NonNull-append t.prehandlers (func ∷ t.posthandlers) left (n, right.1);
      },
      (refl, refl, refl, refl),
      elem-append func t.prehandlers (func ∷ t.posthandlers) (self func t.posthandlers),
    )
set_handler-Added default func posthandler t n g h =
    let left = NonNull-left t.prehandlers (t.main_handler ∷ t.posthandlers) g.nonnull in
    let right = NonNull-right t.prehandlers (t.main_handler ∷ t.posthandlers) g.nonnull in
    (
      record t { posthandlers = t.posthandlers ++ func ∷ [] },
      rw h refl,
      record {
        before = g.before;
        after = ground (arith, length-append t.posthandlers (func ∷ []));
        nonnull =
            NonNull-append t.prehandlers (t.main_handler ∷ (t.posthandlers ++ func ∷ [])) left
              (NonNull-append (t.main_handler ∷ t.posthandlers) (func ∷ []) right (n, tt));
      },
      (refl, refl, refl, refl),
      elem-append func t.prehandlers (t.main_handler ∷ (t.posthandlers ++ func ∷ []))
          (elem-append func (t.main_handler ∷ t.posthandlers) (func ∷ []) (self func [])),
    )
set_handler-Added default func emulate_later t n g h =
    let left = NonNull-left t.prehandlers (t.main_handler ∷ t.posthandlers) g.nonnull in
    let right = NonNull-right t.prehandlers (t.main_handler ∷ t.posthandlers) g.nonnull in
    let post : no_handlers t.posthandlers ≡ true = ground arith in
    let pre : no_handlers t.prehandlers ≡ true = ground arith in
    (
      record t { is_emulated = true; main_handler = func },
      rw (post, pre) refl,
      record {
        before = g.before;
        after = g.after;
        nonnull = NonNull-append t.prehandlers (func ∷ t.posthandlers) left (n, right.1);
      },
      (refl, refl, refl, refl),
      elem-append func t.prehandlers (func ∷ t.posthandlers) (self func t.posthandlers),
    )

set_handler_refused :
    (default func : ℕ) (how : HandlerType) (t : Handlers)
    → fits default how t ≡ false
    → set_handler default func how t ≡ trap
unfolding set_handler
set_handler_refused default func prehandler t h = rw h refl
set_handler_refused default func main_handler t h = rw h refl
set_handler_refused default func posthandler t h = rw h refl
set_handler_refused default func emulate_later t h =
    elim (Bool-cases (no_handlers t.posthandlers)) [
      | inl e ↦ let pre : no_handlers t.prehandlers ≡ false = ground arith in rw (e, pre) refl
      | inr e ↦ rw e refl
    ]

at_head :
    (t' u : Handlers) (us : List Handlers) (m : ℕ)
    → get_elem? (t' ∷ us) m ≡ (if 0 == m then some t' else get_elem? (u ∷ us) m)
at_head t' u us zero = refl
at_head t' u us (suc k) = ground arith

at_tail :
    (n : ℕ) (t' u : Handlers) (us table' : List Handlers)
    → ((m : ℕ) → get_elem? table' m ≡ (if n == m then some t' else get_elem? us m))
    → (m : ℕ) → get_elem? (u ∷ table') m ≡ (if suc n == m then some t' else get_elem? (u ∷ us) m)
at_tail n t' u us table' h zero = ground arith
at_tail n t' u us table' h (suc k) = ground (arith, h k)

update_entry_done :
    (n : ℕ) (f : Handlers → Run Handlers) (t t' : Handlers) (table : List Handlers)
    → get_elem? table n ≡ some t
    → f t ≡ done t'
    → (table' : List Handlers) × (update_entry n f table ≡ done table')
      × ((m : ℕ) → get_elem? table' m ≡ (if n == m then some t' else get_elem? table m))
unfolding update_entry
update_entry_done n f t t' [] h e = ground arith
update_entry_done zero f t t' (u ∷ us) h e =
    let same : u ≡ t = cc in (t' ∷ us, rw (same, e) refl, at_head t' u us)
update_entry_done (suc n) f t t' (u ∷ us) h e =
    let (table', run, at) = update_entry_done n f t t' us h e in
    (u ∷ table', rw run refl, at_tail n t' u us table' at)

update_entry_trap :
    (n : ℕ) (f : Handlers → Run Handlers) (t : Handlers) (table : List Handlers)
    → get_elem? table n ≡ some t
    → f t ≡ trap
    → update_entry n f table ≡ trap
unfolding update_entry
update_entry_trap n f t [] h e = refl
update_entry_trap zero f t (u ∷ us) h e = let same : u ≡ t = cc in rw (same, e) refl
update_entry_trap (suc n) f t (u ∷ us) h e = rw (update_entry_trap n f t us h e) refl

-- `add_handler`, on a syscall below the limit whose entry has at most two handlers before and after
-- the main one, none of them NULL. When there is room for the handler, it returns a table whose
-- entry for that syscall keeps this form and has the handler in its place (behind the others before
-- the main one, as the main one, behind the others after it, or as the main one of an emulated
-- syscall) with everything else in it as it was, and all other entries are as they were. When there
-- is none, it stops the process.
pub add_handler-effect :
    (default n func : ℕ) (how : HandlerType) (t : Handlers) (table : List Handlers)
    → n < max_valid_syscall_num
    → func ≢ 0
    → get_elem? table n ≡ some t
    → Good t
    → (fits default how t ≡ true
        → (t' : Handlers) × (table' : List Handlers) × (add_handler default n func how table
            ≡ done table')
          × Good t'
          × Extended func how t t'
          × (elem func (handlers_of t') ≡ true)
          × ((m : ℕ) → get_elem? table' m ≡ (if n == m then some t' else get_elem? table m)))
      × (fits default how t ≡ false → add_handler default n func how table ≡ trap)
unfolding add_handler Added
add_handler-effect default n func how t table lt nonnull at good =
    let below : ltb n max_valid_syscall_num ≡ true = ground arith in
    (
      λ h.
          let (t', set, good', extended, runs) =
            set_handler-Added default func how t nonnull good h in
          let (table', run, others) =
            update_entry_done n (set_handler default func how) t t' table at set in
          (t', table', rw (below, run) refl, good', extended, runs, others),
      λ h.
          rw
            (
              below,
              update_entry_trap n (set_handler default func how) t table at
                  (set_handler_refused default func how t h),
            )
            refl,
    )
