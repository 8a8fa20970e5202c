-- ===== src/Segfault/Threads.antt =====
-- The list of threads (src/segfault_handler/segfault_handler.cpp) that get a hardware breakpoint.
-- Not modelled: the waiting for the lock, the signal mask of a thread that ends, and the memory
-- that its controller stays in.
pub mod View
pub mod Updates
use secpoline.Base.{
  ltb, leb, ◌==◌, if◌then◌else◌, ltb→lt, leb→le, ==_iff, Bool-cases, Option-cases, length,
  get_elem?, length-append, elem, Run, done, trap, ◌>>=◌, ◌>>◌, nolibc_assert, Ensures, returned,
  trapped, Ensures-bind, Ensures-assert, Ensures-done, Ensures-if, Ensures-then, Ensures-weaken,
  Ensures-run, page_size, ptr_add_exact, ptr_sub_exact, ptr_add-ptr_sub, ptr_add-lt,
  page_align_self, ptr_add, ptr_sub, page_align, ℕ, zero, suc, ◌+◌, ◌-◌, ◌*◌, ◌/◌, ◌%◌, ◌^◌, ◌≤◌,
  ◌<◌, ◌≡◌, refl, sym, ap, ◌∙◌, ◌≢◌, ◌↔◌, ◌⊎◌, inl, inr, Bool, true, false, not, ◌&&◌, ◌||◌, Option,
  none, some, List, [], ◌∷◌, ◌++◌, map, arith,
}
use secpoline.Segfault.Pages.{WatchedPage, Controller, Kernel, Process}
use secpoline.Segfault.Breakpoints.{
  max_hbreakpoints, new_controller, set_from, set_hbreakpoint, count_breakpoint, count_in, set_each,
  first_of, read_instructions, pages_of, append_watched, add_watched_page, close_each,
  remove_oldest, remove_first, remove_last_page, has_free, evict, remove_dynamic_hbreakpoints,
  add_breakpoints,
}
use secpoline.Segfault.Fork.{set_all_hbreakpoits, remove_all_hbreakpoints}

pub record Ptid : Type 0 where
  pub tid : ℕ
  pub pid : ℕ

-- `hbreakpoint_thread_synchronizer` while no page is being watched by all threads: the array and
-- the count of its entries in use, and `controller_thread`, 0 for none.
pub record Synchronizer : Type 0 where
  pub controller_thread : ℕ
  pub active_thread_list : List Ptid
  pub active_thread_list_size : ℕ

abbrev pub max_active_thread : ℕ
max_active_thread = 4096

-- The first loop of `remove_element_active_thread_list`: at most `n` places on.
unfoldable pub position : ℕ → ℕ → List Ptid → ℕ
position tid zero ts = 0
position tid (suc n) [] = 0
position tid (suc n) (t ∷ ts) = let rest = position tid n ts in if t.tid == tid then 0 else suc rest

-- `active_thread_list[n].tid == tid`.
unfoldable pub tid_at : ℕ → ℕ → List Ptid → Bool
tid_at tid n [] = false
tid_at tid zero (t ∷ ts) = t.tid == tid
tid_at tid (suc n) (t ∷ ts) = tid_at tid n ts

-- The second loop: `n` entries, the first one at place `i`, are overwritten by their successors.
unfoldable pub shift : ℕ → List Ptid → List Ptid
shift zero ts = ts
shift (suc n) [] = []
shift (suc n) (t ∷ []) = t ∷ []
shift (suc n) (t ∷ next ∷ ts) = next ∷ shift n (next ∷ ts)

unfoldable pub move_back : ℕ → ℕ → List Ptid → List Ptid
unfolding shift
move_back zero n ts = shift n ts
move_back (suc i) zero ts = ts
move_back (suc i) (suc n) [] = []
move_back (suc i) (suc n) (t ∷ ts) = t ∷ move_back i n ts

-- With no entry the size gets -1, and the place is 0.
unfoldable pub remove_at : ℕ → ℕ → Synchronizer → Run Synchronizer
unfolding position tid_at move_back
remove_at tid zero s = trap
remove_at tid (suc n) s =
    let ts = s.active_thread_list in
    let i = position tid n ts in
    if i == n
    then nolibc_assert (tid_at tid i ts) >> done (record s { active_thread_list_size = n })
    else done (record s { active_thread_list_size = n; active_thread_list = move_back i n ts })

unfoldable pub remove_element_active_thread_list : ℕ → Synchronizer → Run Synchronizer
unfolding remove_at
remove_element_active_thread_list tid s = remove_at tid s.active_thread_list_size s

-- A write into the array; outside of it, it is a trap.
unfoldable pub write_at : ℕ → Ptid → List Ptid → Run (List Ptid)
write_at n self [] = trap
write_at zero self (t ∷ ts) = done (self ∷ ts)
write_at (suc n) self (t ∷ ts) = write_at n self ts >>= λ ts'. done (t ∷ ts')

-- The two halves of `update_active_thread_list`.
unfoldable pub remove_thread : Kernel → Ptid → Synchronizer → Process → Run (Synchronizer × Process)
unfolding remove_element_active_thread_list remove_all_hbreakpoints
remove_thread k self s p = remove_element_active_thread_list self.tid s >>= λ s'.
    nolibc_assert (s.active_thread_list_size == s'.active_thread_list_size + 1)
    >> (remove_all_hbreakpoints k p >>= λ p'. done (s', p'))

abbrev pub one_more : List Ptid → Synchronizer → Synchronizer
one_more ts s = record s {
  active_thread_list = ts;
  active_thread_list_size = s.active_thread_list_size + 1;
}

unfoldable pub add_thread :
    Ptid → Controller → Synchronizer → Process → Run (Synchronizer × Process)
unfolding set_all_hbreakpoits write_at
add_thread self global_controller s p =
    set_all_hbreakpoits (record p { controller = global_controller }) >>= λ p'.
    nolibc_assert (ltb s.active_thread_list_size max_active_thread)
    >> (write_at s.active_thread_list_size self s.active_thread_list >>= λ ts.
        done (one_more ts s, p'))

-- `update_active_thread_list` when the lock is free: a thread ends or starts; a new thread takes
-- over `global_hbreakpoint_controller`.
unfoldable pub update_active_thread_list :
    Kernel → Bool → Ptid → Controller → Synchronizer → Process → Run (Synchronizer × Process)
unfolding remove_thread add_thread
update_active_thread_list k ends self global_controller s p =
    nolibc_assert (s.controller_thread == 0)
    >> (if ends then remove_thread k self s p else add_thread self global_controller s p)

-- `add_breakpoints_after_fork_wrapper`, in the child.
unfoldable pub add_breakpoints_after_fork_wrapper :
    Ptid → Synchronizer → Process → Run (Synchronizer × Process)
unfolding set_all_hbreakpoits write_at
add_breakpoints_after_fork_wrapper self s p = write_at 0 self s.active_thread_list >>= λ ts.
    set_all_hbreakpoits p >>= λ p'.
    done
      (record { controller_thread = 0; active_thread_list = ts; active_thread_list_size = 1 }, p')
