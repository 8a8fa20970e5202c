-- ===== src/Erim/Pages/Effect.antt =====
-- What the updates of the list do to the page that is found at an address.
use secpoline.Base.{
  Run, ℕ, ◌+◌, ◌*◌, ◌/◌, ◌≤◌, ◌<◌, ◌≡◌, ◌≢◌, refl, inl, inr, Bool, true, false, Option, none, some,
  List, [], ◌∷◌, ◌++◌, arith, ◌==◌, if◌then◌else◌, done, trap, ◌>>=◌, elem, Bool-cases, page_size,
  ltb, leb, ◌&&◌,
}
use secpoline.Erim.Pages.{
  UnsafePage, with_count, keep_page, replace_page, update_unsafe_page, append_page, add_unsafe_page,
  find_page, note_instruction, note_here, note_last, add_if_missing, update_unsafe_instruction,
}

-- The list found the page `new` at its address, and at every other address what it found before.
abbrev pub Replaced : UnsafePage → List UnsafePage → List UnsafePage → Type 0
Replaced new ps ps' =
    (a : ℕ) → find_page a ps' ≡ (if new.address == a then some (with_count new) else find_page a ps)

abbrev pub UpdateResult : UnsafePage → List UnsafePage → Run (Option (List UnsafePage)) → Type 0
UpdateResult new ps trap = (new.unsafe_instructions ≡ none) × (find_page new.address ps ≢ none)
UpdateResult new ps (done none) = find_page new.address ps ≡ none
UpdateResult new ps (done (some ps')) = (find_page new.address ps ≢ none) × Replaced new ps ps'

keep_page-UpdateResult :
    (new p : UnsafePage) (ps : List UnsafePage) (r : Run (Option (List UnsafePage)))
    → (p.address == new.address) ≡ false
    → UpdateResult new ps r
    → UpdateResult new (p ∷ ps) (keep_page p r)
unfolding find_page
keep_page-UpdateResult new p ps trap e u = (u.0, rw e u.1)
keep_page-UpdateResult new p ps (done none) e u = rw e u
keep_page-UpdateResult new p ps (done (some ps')) e u = (rw e u.0, λ a. ground (arith, u.1 a))

replace_page-UpdateResult :
    (new p : UnsafePage) (ps : List UnsafePage) (xs : Option (List ℕ))
    → (p.address == new.address) ≡ true
    → new.unsafe_instructions ≡ xs
    → UpdateResult new (p ∷ ps) (replace_page new xs ps)
unfolding replace_page find_page
replace_page-UpdateResult new p ps none e u = (u, rw e (λ k. ground arith))
replace_page-UpdateResult new p ps (some xs) e u = (rw e (λ k. ground arith), λ a. ground arith)

pub update_unsafe_page-UpdateResult :
    (new : UnsafePage) (ps : List UnsafePage) → UpdateResult new ps (update_unsafe_page new ps)
unfolding update_unsafe_page find_page
update_unsafe_page-UpdateResult new [] = refl
update_unsafe_page-UpdateResult new (p ∷ ps) = elim (Bool-cases (p.address == new.address)) [
  | inl e ↦ rw e (replace_page-UpdateResult new p ps new.unsafe_instructions e refl)
  | inr e ↦ rw e (
      keep_page-UpdateResult new p ps (update_unsafe_page new ps) e
        (update_unsafe_page-UpdateResult new ps))
]

find_page-append :
    (new : UnsafePage) (ps : List UnsafePage)
    → find_page new.address ps ≡ none
    → Replaced new ps (ps ++ with_count new ∷ [])
unfolding find_page
find_page-append new [] h a = refl
find_page-append new (p ∷ ps) h a =
    ground (arith, λ (e : find_page new.address ps ≡ none). find_page-append new ps e a)

-- The result of `add_unsafe_page`: it traps only when it has no vector for a page that is listed.
abbrev pub ListedResult : UnsafePage → List UnsafePage → Run (List UnsafePage) → Type 0
ListedResult new ps trap = (new.unsafe_instructions ≡ none) × (find_page new.address ps ≢ none)
ListedResult new ps (done ps') = Replaced new ps ps'

ListedResult-append :
    (new : UnsafePage) (ps : List UnsafePage) (r : Run (Option (List UnsafePage)))
    → UpdateResult new ps r
    → ListedResult new ps (r >>= λ updated. done (append_page new ps updated))
unfolding append_page
ListedResult-append new ps trap u = u
ListedResult-append new ps (done none) u = find_page-append new ps u
ListedResult-append new ps (done (some ps')) u = u.1

-- `add_unsafe_page` lists the page: afterwards the page is found at its address, with the given
-- permissions and instructions, and every other address finds what it found before. It traps only
-- when it is given no vector (NULL) and the page is listed already.
pub add_unsafe_page-effect :
    (new : UnsafePage) (ps : List UnsafePage) → ListedResult new ps (add_unsafe_page new ps)
unfolding add_unsafe_page
add_unsafe_page-effect new ps =
    ListedResult-append new ps (update_unsafe_page new ps) (update_unsafe_page-UpdateResult new ps)

-- No address is listed twice.
abbrev pub Distinct : List UnsafePage → Type 0
Distinct [] = Unit {0}
Distinct (p ∷ ps) = (find_page p.address ps ≡ none) × Distinct ps

note_last_missing :
    (a i : ℕ) (ps : List UnsafePage) → find_page a ps ≡ none → note_last a i ps ≡ done none
unfolding note_last note_here find_page
note_last_missing a i [] h = refl
note_last_missing a i (p ∷ ps) h = elim (Bool-cases (p.address == a)) [
  | inl e ↦ ground arith
  | inr e ↦ rw (note_last_missing a i ps (rw e at h), e) refl
]

-- The page as it is after an instruction was added to it.
abbrev pub noted : ℕ → UnsafePage → List ℕ → UnsafePage
noted i p xs = record p { unsafe_instructions = some (xs ++ i ∷ []) }

note_here-finds :
    (a i : ℕ) (q : UnsafePage) (xs : List ℕ) (ps : List UnsafePage)
    → (q.address == a) ≡ true
    → find_page q.address ps ≡ none
    → q.unsafe_instructions ≡ some xs
    → elem i xs ≡ false
    → (ps' : List UnsafePage) × (note_last a i (q ∷ ps) ≡ done (some ps'))
      × (find_page a ps' ≡ some (noted i q xs))
unfolding note_last note_here find_page note_instruction
note_here-finds a i q xs ps e d u n =
    let qa : q.address ≡ a = ground arith in
    let gone : find_page a ps ≡ none = rw qa at d in
    (noted i q xs ∷ ps, rw (note_last_missing a i ps gone, e, u, n) refl, rw e refl)

note_last-finds :
    (a i : ℕ) (p : UnsafePage) (xs : List ℕ) (ps : List UnsafePage)
    → Distinct ps
    → find_page a ps ≡ some p
    → p.unsafe_instructions ≡ some xs
    → elem i xs ≡ false
    → (ps' : List UnsafePage) × (note_last a i ps ≡ done (some ps'))
      × (find_page a ps' ≡ some (noted i p xs))
unfolding note_last note_here find_page note_instruction
note_last-finds a i p xs [] d f u n = ground arith
note_last-finds a i p xs (q ∷ ps) d f u n = elim (Bool-cases (q.address == a)) [
  | inl e ↦
      let f' : some q ≡ some p = rw e at f in
      let same : p ≡ q = cc in rw same (note_here-finds a i q xs ps e d.0 (rw same at u) n)
  | inr e ↦
      let (ps', run, found) = note_last-finds a i p xs ps d.1 (rw e at f) u n in
      (q ∷ ps', rw run refl, rw e found)
]

-- `update_unsafe_instruction` on a listed page that does not have the instruction yet appends it to
-- the page's vector, and leaves `unsafe_instructions_size` as it was. The page's address is
-- aligned,
-- the instruction lies on it, no address is listed twice and the page has a vector.
pub update_unsafe_instruction_stale :
    (address i current_perm desired_perm : ℕ) (trusted : Bool) (p : UnsafePage) (xs : List ℕ)
    (ps : List UnsafePage)
    → address / page_size * page_size ≡ address
    → address ≤ i
    → i < address + page_size
    → Distinct ps
    → find_page address ps ≡ some p
    → p.unsafe_instructions ≡ some xs
    → elem i xs ≡ false
    → (ps' : List UnsafePage) × (update_unsafe_instruction address i current_perm desired_perm
          trusted ps
        ≡ done ps')
      × (find_page address ps' ≡ some (noted i p xs))
unfolding update_unsafe_instruction add_if_missing
update_unsafe_instruction_stale address i current desired trusted p xs ps aligned low high d f u n =
    let inside : (leb address i && ltb i (address + page_size)) ≡ true = ground arith in
    let (ps', run, found) = note_last-finds address i p xs ps d f u n in
    (ps', rw (inside, aligned, run) refl, found)
