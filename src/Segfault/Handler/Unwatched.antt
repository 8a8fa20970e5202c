-- ===== src/Segfault/Handler/Unwatched.antt =====
-- The page that is executed without its breakpoints.
use secpoline.Base.{elem, ℕ, ◌≡◌, true, some, List, ◌∷◌}
use secpoline.VirtPage.{VirtPage}
use secpoline.Erim.Pages.{UnsafePage, find_page}
use secpoline.Segfault.Pages.{Process, is_exec}

-- The page is executable in the list, the kernel has been asked to make it so, and the breakpoints
-- are as they were, although the list names the instruction `i` of the page.
abbrev pub Unwatched : ℕ → UnsafePage → Process → Process → Type 0
Unwatched i u p p' =
    (p'.controller ≡ p.controller)
    × (p'.mprotected ≡ (u.address, 5) ∷ p.mprotected)
    × ((v : UnsafePage) × (xs : List ℕ) × (find_page u.address p'.unsafe_pages ≡ some v)
        × (is_exec v.current_perm ≡ true)
        × (v.unsafe_instructions ≡ some xs)
        × (elem i xs ≡ true))
