-- ===== src/Segfault/Fork.antt =====
-- `set_all_hbreakpoits` and `remove_all_hbreakpoints` (src/segfault_handler/
-- hardware_breakpoints.cpp): the breakpoints of a process after a fork, and of a thread that ends.
pub mod Rearmed
use secpoline.Base.{
  ltb, leb, ◌==◌, if◌then◌else◌, ltb→lt, leb→le, ==_iff, Bool-cases, Option-cases, length,
  get_elem?, length-append, elem, Run, done, trap, ◌>>=◌, ◌>>◌, nolibc_assert, Ensures, returned,
  trapped, Ensures-bind, Ensures-assert, Ensures-done, Ensures-if, Ensures-then, Ensures-weaken,
  Ensures-run, page_size, ptr_add_exact, ptr_sub_exact, ptr_add-ptr_sub, ptr_add-lt,
  page_align_self, ptr_add, ptr_sub, page_align, ℕ, zero, suc, ◌+◌, ◌-◌, ◌*◌, ◌/◌, ◌%◌, ◌^◌, ◌≤◌,
  ◌<◌, ◌≡◌, refl, sym, ap, ◌∙◌, ◌≢◌, ◌↔◌, ◌⊎◌, inl, inr, Bool, true, false, not, ◌&&◌, ◌||◌, Option,
  none, some, List, [], ◌∷◌, ◌++◌, map, arith,
}
use secpoline.Segfault.Pages.{WatchedPage, Controller, Kernel, Process}
use secpoline.Segfault.Breakpoints.{
  max_hbreakpoints, new_controller, set_from, set_hbreakpoint, count_breakpoint, count_in, set_each,
  first_of, read_instructions, pages_of, append_watched, add_watched_page, close_each,
  remove_oldest, remove_first, remove_last_page, has_free, evict, remove_dynamic_hbreakpoints,
  add_breakpoints,
}

-- The loop over one list of pages: every breakpoint gets the descriptor of a new event.
unfoldable pub set_pages : Bool → List WatchedPage → Process → Run (Process × List WatchedPage)
unfolding set_each
set_pages is_static [] p = done (p, [])
set_pages is_static (page ∷ pages) p =
    set_each is_static (map (λ b. b.address) page) p >>= λ (p1, page').
    set_pages is_static pages p1 >>= λ (p2, pages'). done (p2, page' ∷ pages')

abbrev pub start_over : Process → Process
start_over p = record p {
  controller = record p.controller {
    used_breakpoints = 0;
    max_dynamic_breakpoints = max_hbreakpoints;
  };
}

abbrev pub with_pages : List WatchedPage → List WatchedPage → Process → Process
with_pages statics dynamics p = record p {
  controller = record p.controller {
    static_hbreakpoints = statics;
    dynamic_hbreakpoints = dynamics;
  };
}

unfoldable pub set_all_hbreakpoits : Process → Run Process
unfolding set_pages
set_all_hbreakpoits p =
    let c = p.controller in
    set_pages true c.static_hbreakpoints (start_over p) >>= λ (p1, statics).
    set_pages false c.dynamic_hbreakpoints p1 >>= λ (p2, dynamics).
    nolibc_assert (p2.controller.used_breakpoints == c.used_breakpoints)
    >> (nolibc_assert (p2.controller.max_dynamic_breakpoints == c.max_dynamic_breakpoints)
        >> done (with_pages statics dynamics p2))

-- The loop over one page, and over one list of pages.
unfoldable pub close_page : Kernel → WatchedPage → Process → Run Process
close_page k [] p = done p
close_page k (b ∷ bs) p = nolibc_assert (k.close b.fd) >> close_page k bs p

unfoldable pub close_pages : Kernel → List WatchedPage → Process → Run Process
unfolding close_page
close_pages k [] p = done p
close_pages k (page ∷ pages) p = close_page k page p >>= λ p1. close_pages k pages p1

-- The lists stay as they are.
unfoldable pub remove_all_hbreakpoints : Kernel → Process → Run Process
unfolding close_pages
remove_all_hbreakpoints k p = close_pages k p.controller.static_hbreakpoints p >>= λ p1.
    close_pages k p.controller.dynamic_hbreakpoints p1 >>= λ p2.
    done (record p2 { controller = record p2.controller { used_breakpoints = 0 } })
