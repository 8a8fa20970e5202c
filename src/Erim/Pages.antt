-- ===== src/Erim/Pages.antt =====
-- The list of unsafe pages (`unsafe_pages` of erim.cpp, `find_unsafe_page` of
-- src/segfault_handler/segfault_handler.cpp). Its `size` is the length of the list: both change in
-- `add_unsafe_page` only.
pub mod Effect
use secpoline.Base.{
  Run, ℕ, ◌+◌, ◌*◌, ◌/◌, Bool, true, false, ◌&&◌, Option, none, some, List, [], ◌∷◌, ◌++◌, ltb, leb,
  ◌==◌, if◌then◌else◌, done, trap, ◌>>=◌, ◌>>◌, nolibc_assert, length, elem, page_size,
}

pub record UnsafePage : Type 0 where
  pub address : ℕ
  pub trusted_page : Bool
  pub current_perm : ℕ
  pub desired_perm : ℕ
  pub unsafe_instructions : Option (List ℕ)
  pub unsafe_instructions_size : ℕ

-- What `add_unsafe_page` and `update_unsafe_page` write; NULL has size 0.
abbrev pub instruction_count : Option (List ℕ) → ℕ
instruction_count none = 0
instruction_count (some xs) = length xs

abbrev pub with_count : UnsafePage → UnsafePage
with_count p = record p { unsafe_instructions_size = instruction_count p.unsafe_instructions }

abbrev pub keep_page : UnsafePage → Run (Option (List UnsafePage)) → Run (Option (List UnsafePage))
keep_page p trap = trap
keep_page p (done none) = done none
keep_page p (done (some ps)) = done (some (p ∷ ps))

-- `unsafe_instructions->size()` reads through NULL.
replace_page : UnsafePage → Option (List ℕ) → List UnsafePage → Run (Option (List UnsafePage))
replace_page new none ps = trap
replace_page new (some xs) ps = done (some (with_count new ∷ ps))

-- The arguments are given as the page to write; `none` is the return of NULL, without an effect.
unfoldable pub update_unsafe_page : UnsafePage → List UnsafePage → Run (Option (List UnsafePage))
unfolding replace_page
update_unsafe_page new [] = done none
update_unsafe_page new (p ∷ ps) =
    if p.address == new.address
    then replace_page new new.unsafe_instructions ps
    else keep_page p (update_unsafe_page new ps)

append_page : UnsafePage → List UnsafePage → Option (List UnsafePage) → List UnsafePage
append_page new ps none = ps ++ with_count new ∷ []
append_page new ps (some updated) = updated

unfoldable pub add_unsafe_page : UnsafePage → List UnsafePage → Run (List UnsafePage)
unfolding append_page
add_unsafe_page new ps = do updated ← update_unsafe_page new ps; done (append_page new ps updated)

unfoldable pub find_page : ℕ → List UnsafePage → Option UnsafePage
find_page a [] = none
find_page a (p ∷ ps) = if p.address == a then some p else find_page a ps

unfoldable pub find_unsafe_page : ℕ → List UnsafePage → Option UnsafePage
unfolding find_page
find_unsafe_page address ps = find_page (address / page_size * page_size) ps

-- `if (std::find(..) == vec->end()) vec->push_back(instruction);` on the page's vector.
note_instruction :
    ℕ → UnsafePage → List UnsafePage → Option (List ℕ) → Run (Option (List UnsafePage))
note_instruction instruction p ps none = trap
note_instruction instruction p ps (some xs) =
    if elem instruction xs
    then done (some (p ∷ ps))
    else done (some (record p { unsafe_instructions = some (xs ++ instruction ∷ []) } ∷ ps))

-- The page is the last one in the list with its address.
note_here :
    ℕ
    → ℕ
    → UnsafePage
    → List UnsafePage
    → Run (Option (List UnsafePage))
    → Run (Option (List UnsafePage))
unfolding note_instruction
note_here a instruction p ps trap = trap
note_here a instruction p ps (done (some later)) = done (some (p ∷ later))
note_here a instruction p ps (done none) =
    if p.address == a then note_instruction instruction p ps p.unsafe_instructions else done none

unfoldable pub note_last : ℕ → ℕ → List UnsafePage → Run (Option (List UnsafePage))
unfolding note_here
note_last a instruction [] = done none
note_last a instruction (p ∷ ps) = note_here a instruction p ps (note_last a instruction ps)

add_if_missing : UnsafePage → List UnsafePage → Option (List UnsafePage) → Run (List UnsafePage)
add_if_missing new ps none = add_unsafe_page new ps
add_if_missing new ps (some noted) = done noted

unfoldable pub update_unsafe_instruction :
    ℕ → ℕ → ℕ → ℕ → Bool → List UnsafePage → Run (List UnsafePage)
unfolding note_last add_if_missing
update_unsafe_instruction address instruction current_perm desired_perm trusted_page ps = do
  nolibc_assert (leb address instruction && ltb instruction (address + page_size))
  noted ← note_last (address / page_size * page_size) instruction ps
  add_if_missing
      (record {
        address = address;
        trusted_page = trusted_page;
        current_perm = current_perm;
        desired_perm = desired_perm;
        unsafe_instructions = some (instruction ∷ []);
        unsafe_instructions_size = 1;
      })
      ps noted
