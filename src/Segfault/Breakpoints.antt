-- ===== src/Segfault/Breakpoints.antt =====
-- `hbreakpoint_controller` (src/segfault_handler/hardware_breakpoints.cpp), built with
-- SCAN_UNSAFE_INSTRUCTIONS and without DEBUG: `test_remaining_breakpoints` does nothing then.
use secpoline.Base.{
  Run, ℕ, zero, suc, ◌+◌, ◌-◌, Bool, true, false, not, Option, none, some, List, [], ◌∷◌, ◌++◌, ltb,
  leb, ◌==◌, if◌then◌else◌, done, trap, ◌>>=◌, ◌>>◌, nolibc_assert, length,
}
use secpoline.Erim.Pages.{UnsafePage}
use secpoline.Segfault.Pages.{WatchedPage, Controller, Kernel, Process, set_page_non_executable}

abbrev pub max_hbreakpoints : ℕ
max_hbreakpoints = 4

-- The constructor.
abbrev pub new_controller : Controller
new_controller = record {
  used_breakpoints = 0;
  max_dynamic_breakpoints = max_hbreakpoints;
  static_hbreakpoints = [];
  dynamic_hbreakpoints = [];
}

-- perf_event_open returns the next descriptor; with none left it fails, and `nolibc_assert(0)`.
unfoldable pub set_from : List ℕ → Process → Run (Process × ℕ)
set_from [] p = trap
set_from (fd ∷ rest) p = done (record p { fds = rest }, fd)

unfoldable pub set_hbreakpoint : Process → Run (Process × ℕ)
unfolding set_from
set_hbreakpoint p = set_from p.fds p

-- `used_breakpoints++`, and `max_dynamic_breakpoints--` for a static page.
abbrev pub count_breakpoint : Bool → Controller → Controller
count_breakpoint is_static c = record c {
  used_breakpoints = c.used_breakpoints + 1;
  max_dynamic_breakpoints =
      if is_static then c.max_dynamic_breakpoints - 1 else c.max_dynamic_breakpoints;
}

abbrev pub count_in : Bool → Process → Process
count_in is_static p = record p { controller = count_breakpoint is_static p.controller }

-- The loop of `add_watched_page`; the result is the page's array.
unfoldable pub set_each : Bool → List ℕ → Process → Run (Process × WatchedPage)
unfolding set_hbreakpoint
set_each is_static [] p = done (p, [])
set_each is_static (address ∷ rest) p = set_hbreakpoint p >>= λ set.
    set_each is_static rest (count_in is_static (set.0)) >>= λ (p', page).
    done (p', record { address = address; fd = set.1 } ∷ page)

-- `(*unsafe_instructions)[i]` for the first `n`: a read through NULL or behind the end is a trap.
unfoldable pub first_of : ℕ → List ℕ → Run (List ℕ)
first_of zero xs = done []
first_of (suc n) [] = trap
first_of (suc n) (x ∷ xs) = first_of n xs >>= λ ys. done (x ∷ ys)

unfoldable pub read_instructions : UnsafePage → Option (List ℕ) → Run (List ℕ)
unfolding first_of
read_instructions u none = first_of u.unsafe_instructions_size []
read_instructions u (some xs) = first_of u.unsafe_instructions_size xs

abbrev pub pages_of : Bool → Controller → List WatchedPage
pages_of is_static c = if is_static then c.static_hbreakpoints else c.dynamic_hbreakpoints

abbrev pub append_watched : Bool → WatchedPage → Controller → Controller
append_watched true page c = record c { static_hbreakpoints = c.static_hbreakpoints ++ page ∷ [] }
append_watched false page c = record c {
  dynamic_hbreakpoints = c.dynamic_hbreakpoints ++ page ∷ [];
}

-- An array that is full has no place for the page: the write behind it is a trap.
unfoldable pub add_watched_page : UnsafePage → Bool → Process → Run Process
unfolding set_each read_instructions
add_watched_page u is_static p =
    let c = p.controller in
    nolibc_assert (leb (u.unsafe_instructions_size + c.used_breakpoints) max_hbreakpoints)
    >> (nolibc_assert
          (if is_static then leb u.unsafe_instructions_size c.max_dynamic_breakpoints else true)
        >> (nolibc_assert (ltb (length (pages_of is_static c)) max_hbreakpoints)
            >> (read_instructions u u.unsafe_instructions >>= λ addresses.
                set_each is_static addresses p >>= λ (p', page).
                done (record p' { controller = append_watched is_static page p'.controller }))))

-- The loop over the oldest page's breakpoints.
unfoldable pub close_each : Kernel → WatchedPage → Process → Run Process
close_each k [] p = done p
close_each k (b ∷ bs) p =
    nolibc_assert (not (b.fd == 0))
    >> (nolibc_assert (k.close b.fd)
        >> close_each k bs (record p {
          controller = record p.controller { used_breakpoints = p.controller.used_breakpoints - 1 };
        }))

-- The oldest page, and the pages that move one back.
unfoldable pub remove_oldest : Kernel → WatchedPage → List WatchedPage → Process → Run Process
unfolding close_each
remove_oldest k [] rest p = trap
remove_oldest k (b ∷ bs) rest p = set_page_non_executable k b.address p >>= λ p1.
    close_each k (b ∷ bs) p1 >>= λ p2.
    done (record p2 { controller = record p2.controller { dynamic_hbreakpoints = rest } })

unfoldable pub remove_first : Kernel → List WatchedPage → Process → Run Process
unfolding remove_oldest
remove_first k [] p = trap
remove_first k (page ∷ rest) p = remove_oldest k page rest p

unfoldable pub remove_last_page : Kernel → Process → Run Process
unfolding remove_first
remove_last_page k p = remove_first k p.controller.dynamic_hbreakpoints p

abbrev pub has_free : ℕ → Process → Bool
has_free n p = leb (p.controller.used_breakpoints + n) max_hbreakpoints

-- The loop of `remove_dynamic_hbreakpoints`. Each round takes one page off the list, which is the
-- second argument; the round on an empty list fails the assertion of `remove_last_page`.
unfoldable pub evict : Kernel → ℕ → List WatchedPage → Process → Run Process
evict k n [] p = if has_free n p then done p else remove_last_page k p
evict k n (page ∷ rest) p =
    if has_free n p then done p else remove_last_page k p >>= λ p1. evict k n rest p1

unfoldable pub remove_dynamic_hbreakpoints : Kernel → ℕ → Process → Run Process
unfolding evict
remove_dynamic_hbreakpoints k n p =
    nolibc_assert (leb n p.controller.max_dynamic_breakpoints)
    >> evict k n p.controller.dynamic_hbreakpoints p

-- The first test compares the number of static pages, not of their breakpoints.
unfoldable pub add_breakpoints : Kernel → UnsafePage → Bool → Process → Run Process
unfolding add_watched_page remove_dynamic_hbreakpoints
add_breakpoints k u is_static p =
    let c = p.controller in
    let n = u.unsafe_instructions_size in
    nolibc_assert (
      if is_static
      then leb (length c.static_hbreakpoints + n) max_hbreakpoints
      else leb n c.max_dynamic_breakpoints)
    >> (if has_free n p
        then add_watched_page u is_static p
        else remove_dynamic_hbreakpoints k n p >>= λ p1. add_watched_page u is_static p1)
