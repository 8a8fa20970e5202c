-- ===== src/Segfault/Close.antt =====
-- What `set_page_non_executable` leaves behind.
use secpoline.Base.{
  ◌==◌, if◌then◌else◌, ==_iff, Bool-cases, Ensures, returned, trapped, Ensures-bind, Ensures-if,
  Ensures-then, Ensures-weaken, page_size, ℕ, ◌*◌, ◌/◌, ◌≡◌, refl, sym, ap, ◌∙◌, ◌≢◌, inl, inr,
  true, false, not, Option, none, some, List, [], ◌∷◌, arith,
}
use secpoline.VirtPage.{VirtPage}
use secpoline.Erim.Pages.{UnsafePage, find_page, find_unsafe_page}
use secpoline.PageManager.Lookup.{lookup_addr, any_cid}
use secpoline.Segfault.Pages.{
  Kernel, Process, is_write, is_exec, secpoline_mprotect, set_current_perm, lock_unsafe_page,
  clear_exec_of, close_page, non_executable_at, set_page_non_executable,
}

abbrev pub with_perm : ℕ → Option UnsafePage → Option UnsafePage
with_perm perm none = none
with_perm perm (some u) = some (record u { current_perm = perm })

pub find_page-set_current_perm :
    (a b perm : ℕ) (us : List UnsafePage)
    → find_page a (set_current_perm b perm us)
      ≡ (if a == b then with_perm perm (find_page b us) else find_page a us)
unfolding find_page set_current_perm
find_page-set_current_perm a b perm [] = ground arith
find_page-set_current_perm a b perm (u ∷ us) =
    ground (arith, find_page-set_current_perm a b perm us)

pub find_page-address :
    (a : ℕ) (us : List UnsafePage) {u : UnsafePage} → find_page a us ≡ some u → u.address ≡ a
unfolding find_page
find_page-address a [] h = absurd (cc)
find_page-address a (v ∷ us) {u = u} h = elim (Bool-cases (v.address == a)) [
  | inl e ↦ here (rw e at h) e
  | inr e ↦ find_page-address a us (rw e at h)
]
  where
    here : some v ≡ some u → (v.address == a) ≡ true → u.address ≡ a
    here h e = let same : v ≡ u = cc in rw (sym same) ((==_iff v.address a).0 e)

-- The pages that are found have the instructions that they had.
abbrev pub SameCode : List UnsafePage → List UnsafePage → Type 0
SameCode us us' =
    (a : ℕ) (u : UnsafePage)
    → find_page a us' ≡ some u
    → (v : UnsafePage) × (find_page a us ≡ some v) × (v.unsafe_instructions ≡ u.unsafe_instructions)

pub SameCode-set :
    (page perm : ℕ) (us : List UnsafePage) → SameCode us (set_current_perm page perm us)
SameCode-set page perm us a u found =
    let found' = rw (find_page-set_current_perm a page perm us) at found in
    elim (Bool-cases (a == page)) [
      | inl e ↦ there (find_page page us) refl (rw e at found') ((==_iff a page).0 e)
      | inr e ↦ (u, rw e at found', refl)
    ]
  where
    there :
        (o : Option UnsafePage)
        → find_page page us ≡ o
        → with_perm perm o ≡ some u
        → a ≡ page
        → (v : UnsafePage) × (find_page a us ≡ some v)
          × (v.unsafe_instructions ≡ u.unsafe_instructions)
    there none e h same = absurd (cc)
    there (some v) e h same =
        let changed : record v { current_perm = perm } ≡ u = cc in
        (v, ap (λ b. find_page b us) same ∙ e, ap (λ w. w.unsafe_instructions) changed)

-- Afterwards the page at `page` is not executable, and an executable page has been so before. The
-- breakpoints stay as they are.
abbrev pub Closed : ℕ → Process → Process → Type 0
Closed page p p' =
    (p'.controller ≡ p.controller)
    × ((a : ℕ) (u : UnsafePage)
        → find_page a p'.unsafe_pages ≡ some u
        → is_exec u.current_perm ≡ true
        → (a ≢ page) × (find_page a p.unsafe_pages ≡ some u))
    × SameCode p.unsafe_pages p'.unsafe_pages

pub secpoline_mprotect-Ensures :
    (k : Kernel) (address prot cid : ℕ) (p : Process)
    → Ensures
        (λ p'. (p'.controller ≡ p.controller) × (p'.unsafe_pages ≡ p.unsafe_pages))
        (secpoline_mprotect k address prot cid p)
unfolding secpoline_mprotect
secpoline_mprotect-Ensures k address prot cid p =
    Ensures-if (k.mprotect address prot) (λ _. Ensures-then _ (λ pm. returned (refl, refl)))
      (λ _. returned {a = p} (refl, refl))

clear_exec_of-Ensures :
    (k : Kernel) (cid : ℕ) (u : UnsafePage) (p : Process)
    → Ensures
        (λ p'.
          (p'.controller ≡ p.controller)
          × ((perm : ℕ) × ((is_exec perm ≡ false)
                × (p'.unsafe_pages ≡ set_current_perm u.address perm p.unsafe_pages))))
        (clear_exec_of k cid u p)
unfolding clear_exec_of
clear_exec_of-Ensures k cid u p =
    Ensures-if (is_write u.desired_perm)
      (λ _.
        Ensures-weaken (λ p' e. (e.0, (3, (refl, e.1))))
          (secpoline_mprotect-Ensures k u.address 3 cid _))
      (λ _.
        Ensures-bind (secpoline_mprotect-Ensures k u.address 1 cid _)
          (λ p1 e. returned (e.0, (1, (refl, e.1)))))

-- A page whose protection has no PROT_EXEC, in place of the page found at `page`.
Closed-set :
    (page perm : ℕ) (us : List UnsafePage) (a : ℕ) (u : UnsafePage)
    → is_exec perm ≡ false
    → find_page a (set_current_perm page perm us) ≡ some u
    → is_exec u.current_perm ≡ true
    → (a ≢ page) × (find_page a us ≡ some u)
Closed-set page perm us a u dropped found exec =
    let found' = rw (find_page-set_current_perm a page perm us) at found in
    elim (Bool-cases (a == page)) [
      | inl e ↦ absurd (not_there (find_page page us) (rw e at found'))
      | inr e ↦ (λ same. ground (arith, e, same), rw e at found')
    ]
  where
    not_exec :
        (u' v : UnsafePage)
        → record v { current_perm = perm } ≡ u'
        → is_exec u'.current_perm ≡ true
        → ⊥
    not_exec u' v same exec' =
        let e : perm ≡ u'.current_perm = ap (λ w. w.current_perm) same in ground arith

    not_there : (o : Option UnsafePage) → with_perm perm o ≡ some u → ⊥
    not_there none h = cc
    not_there (some v) h =
        let same : record v { current_perm = perm } ≡ u = cc in not_exec u v same exec

lock_unsafe_page-Ensures :
    (p : Process)
    → Ensures
        (λ p'. (p'.controller ≡ p.controller) × (p'.unsafe_pages ≡ p.unsafe_pages))
        (lock_unsafe_page p)
lock_unsafe_page-Ensures p =
    Ensures-if p.unsafe_page_mutex (λ _. trapped) (λ _. returned (refl, refl))

close_page-Closed :
    (k : Kernel) (g : VirtPage) (page : ℕ) (o : Option UnsafePage) (p : Process)
    → find_page page p.unsafe_pages ≡ o
    → Ensures (Closed page p) (close_page k g o p)
unfolding close_page
close_page-Closed k g page none p e = trapped
close_page-Closed k g page (some u) p e = Ensures-then _ (λ _.
    Ensures-if (not (is_exec u.current_perm))
      (λ h. returned {a = p} (
        refl,
        λ a v found exec. (λ same. already a v same found exec h, found),
        λ a v found. (v, found, refl),
      ))
      (λ h. Ensures-bind (lock_unsafe_page-Ensures p) (λ p1 e1.
        Ensures-weaken
          (λ p2 (c, (perm, (dropped, set))). (
            c ∙ e1.0,
            λ a v found exec. closed p1 p2 perm a v dropped (e1.1) set found exec,
            rw (set ∙ ap (set_current_perm u.address perm) (e1.1))
                (SameCode-set u.address perm p.unsafe_pages),
          ))
          (clear_exec_of-Ensures k g.cid u p1))))
  where
    already :
        (a : ℕ) (v : UnsafePage)
        → a ≡ page
        → find_page a p.unsafe_pages ≡ some v
        → is_exec v.current_perm ≡ true
        → not (is_exec u.current_perm) ≡ true
        → ⊥
    already a v same found exec h = ground (arith, rw (same, e) at found)

    closed :
        (p1 p2 : Process) (perm a : ℕ) (v : UnsafePage)
        → is_exec perm ≡ false
        → p1.unsafe_pages ≡ p.unsafe_pages
        → p2.unsafe_pages ≡ set_current_perm u.address perm p1.unsafe_pages
        → find_page a p2.unsafe_pages ≡ some v
        → is_exec v.current_perm ≡ true
        → (a ≢ page) × (find_page a p.unsafe_pages ≡ some v)
    closed p1 p2 perm a v dropped e1 e2 found exec =
        Closed-set page perm p.unsafe_pages a v dropped
          (rw (e2, find_page-address page p.unsafe_pages e, e1) at found) exec

non_executable_at-Closed :
    (k : Kernel) (address : ℕ) (o : Option VirtPage) (p : Process)
    → Ensures (Closed (address / page_size * page_size) p) (non_executable_at k address o p)
unfolding non_executable_at find_unsafe_page
non_executable_at-Closed k address none p = trapped
non_executable_at-Closed k address (some g) p =
    close_page-Closed k g (address / page_size * page_size) _ p refl

-- `set_page_non_executable` leaves the page of the address without PROT_EXEC in the list.
pub set_page_non_executable-Closed :
    (k : Kernel) (address : ℕ) (p : Process)
    → Ensures (Closed (address / page_size * page_size) p) (set_page_non_executable k address p)
unfolding set_page_non_executable
set_page_non_executable-Closed k address p =
    non_executable_at-Closed k address (lookup_addr p.manager.pages address any_cid) p
