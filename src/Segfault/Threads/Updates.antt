-- ===== src/Segfault/Threads/Updates.antt =====
-- What a thread's start and end do to the list and to the thread's breakpoints.
use secpoline.Base.{
  ltb, ◌==◌, ==_iff, length, done, ℕ, ◌+◌, ◌≤◌, ◌<◌, ◌≡◌, refl, sym, true, false, List, [], ◌∷◌,
  ◌++◌, arith,
}
use secpoline.Segfault.Pages.{WatchedPage, Controller, Kernel, Process}
use secpoline.Segfault.Bounds.{Balanced}
use secpoline.Segfault.Fork.{set_all_hbreakpoits, remove_all_hbreakpoints, close_page, close_pages}
use secpoline.Segfault.Fork.Rearmed.{Rearmed, set_all_hbreakpoits-Rearmed}
use secpoline.Segfault.Threads.{
  Ptid, Synchronizer, max_active_thread, remove_element_active_thread_list, write_at, remove_thread,
  one_more, add_thread, update_active_thread_list, add_breakpoints_after_fork_wrapper,
}
use secpoline.Segfault.Threads.View.{
  threads, listed, first_threads, Left, remove_at-Left, write_at-first,
}

close_page-closed :
    (k : Kernel) (page : WatchedPage) (p : Process)
    → ((fd : ℕ) → k.close fd ≡ true)
    → close_page k page p ≡ done p
unfolding close_page
close_page-closed k [] p h = refl
close_page-closed k (b ∷ bs) p h = rw (h b.fd) (close_page-closed k bs p h)

close_pages-closed :
    (k : Kernel) (pages : List WatchedPage) (p : Process)
    → ((fd : ℕ) → k.close fd ≡ true)
    → close_pages k pages p ≡ done p
unfolding close_pages
close_pages-closed k [] p h = refl
close_pages-closed k (page ∷ pages) p h =
    rw (close_page-closed k page p h) (close_pages-closed k pages p h)

remove_all_hbreakpoints-closed :
    (k : Kernel) (p : Process)
    → ((fd : ℕ) → k.close fd ≡ true)
    → remove_all_hbreakpoints k p
      ≡ done (record p { controller = record p.controller { used_breakpoints = 0 } })
unfolding remove_all_hbreakpoints
remove_all_hbreakpoints-closed k p h =
    rw
      (
        close_pages-closed k p.controller.static_hbreakpoints p h,
        close_pages-closed k p.controller.dynamic_hbreakpoints p h,
      )
      refl

left_run :
    (k : Kernel) (self : Ptid) (g : Controller) (s s' : Synchronizer) (p p' : Process)
    → (s.controller_thread == 0) ≡ true
    → remove_element_active_thread_list self.tid s ≡ done s'
    → (s.active_thread_list_size == s'.active_thread_list_size + 1) ≡ true
    → remove_all_hbreakpoints k p ≡ done p'
    → update_active_thread_list k true self g s p ≡ done (s', p')
unfolding update_active_thread_list remove_thread
left_run k self g s s' p p' z run fewer removed = rw z (rw run (rw fewer (rw removed refl)))

-- A thread that ends, when it is in the list and its descriptors can be closed, leaves the list:
-- the
-- other threads stay in it, in their order, and no breakpoint of its own is counted any more.
pub update_active_thread_list-Left :
    (k : Kernel) (self : Ptid) (g : Controller) (s : Synchronizer) (p : Process)
    → s.controller_thread ≡ 0
    → s.active_thread_list_size ≤ length s.active_thread_list
    → listed self.tid (threads s) ≡ true
    → ((fd : ℕ) → k.close fd ≡ true)
    → (s' : Synchronizer) × (p' : Process) × (update_active_thread_list k true self g s p
        ≡ done (s', p'))
      × Left self.tid s s'
      × (p'.controller.used_breakpoints ≡ 0)
unfolding remove_element_active_thread_list
update_active_thread_list-Left k self g s p c h e closed =
    let (s', run, left) = remove_at-Left self.tid s.active_thread_list_size s refl h e in
    let z : (s.controller_thread == 0) ≡ true = (==_iff s.controller_thread 0).1 c in
    let fewer : (s.active_thread_list_size == s'.active_thread_list_size + 1) ≡ true =
      (==_iff s.active_thread_list_size (s'.active_thread_list_size + 1)).1 (sym left.1) in
    (
      s',
      record p { controller = record p.controller { used_breakpoints = 0 } },
      left_run k self g s s' p
          (record p { controller = record p.controller { used_breakpoints = 0 } }) z run fewer
          (remove_all_hbreakpoints-closed k p closed),
      left,
      refl,
    )

joined_run :
    (k : Kernel) (self : Ptid) (g : Controller) (s : Synchronizer) (ts : List Ptid) (p p' : Process)
    → (s.controller_thread == 0) ≡ true
    → set_all_hbreakpoits (record p { controller = g }) ≡ done p'
    → ltb s.active_thread_list_size max_active_thread ≡ true
    → write_at s.active_thread_list_size self s.active_thread_list ≡ done ts
    → update_active_thread_list k false self g s p ≡ done (one_more ts s, p')
unfolding update_active_thread_list add_thread
joined_run k self g s ts p p' z run small written = rw z (rw run (rw small (rw written refl)))

lt-ltb : (a b : ℕ) → a < b → ltb a b ≡ true
lt-ltb a b h = ground arith

-- A thread that starts, while there are fewer than 4096 threads, joins the list at its end, and
-- watches all that `global_hbreakpoint_controller` lists, when that is balanced and the kernel has
-- a
-- descriptor for each of its breakpoints.
pub update_active_thread_list-Joined :
    (k : Kernel) (self : Ptid) (g : Controller) (s : Synchronizer) (p : Process)
    → s.controller_thread ≡ 0
    → s.active_thread_list_size < max_active_thread
    → length s.active_thread_list ≡ max_active_thread
    → Balanced g
    → g.used_breakpoints ≤ length p.fds
    → (s' : Synchronizer) × (p' : Process) × (update_active_thread_list k false self g s p
        ≡ done (s', p'))
      × (threads s' ≡ threads s ++ self ∷ [])
      × Rearmed (record p { controller = g }) p'
update_active_thread_list-Joined k self g s p c small size b h =
    let (p', run, rearmed) = set_all_hbreakpoits-Rearmed (record p { controller = g }) b h in
    let (ts, written, e) =
      write_at-first s.active_thread_list_size self s.active_thread_list
        (omega (arith, small, size)) in
    (
      one_more ts s,
      p',
      joined_run k self g s ts p p' ((==_iff s.controller_thread 0).1 c) run
          (lt-ltb s.active_thread_list_size max_active_thread small) written,
      e,
      rearmed,
    )

fork_run :
    (self : Ptid) (s : Synchronizer) (ts : List Ptid) (p p' : Process)
    → write_at 0 self s.active_thread_list ≡ done ts
    → set_all_hbreakpoits p ≡ done p'
    → add_breakpoints_after_fork_wrapper self s p
      ≡ done (
        record { controller_thread = 0; active_thread_list = ts; active_thread_list_size = 1 },
        p',
      )
unfolding add_breakpoints_after_fork_wrapper
fork_run self s ts p p' written run = rw written (rw run refl)

-- In the child of a fork the list has the one thread, which watches what its parent watched, when
-- its controller is balanced and the kernel has a descriptor for each breakpoint.
pub add_breakpoints_after_fork_wrapper-Rearmed :
    (self : Ptid) (s : Synchronizer) (p : Process)
    → 0 < length s.active_thread_list
    → Balanced p.controller
    → p.controller.used_breakpoints ≤ length p.fds
    → (s' : Synchronizer) × (p' : Process) × (add_breakpoints_after_fork_wrapper self s p
        ≡ done (s', p'))
      × (threads s' ≡ self ∷ [])
      × Rearmed p p'
unfolding first_threads
add_breakpoints_after_fork_wrapper-Rearmed self s p pos b h =
    let (p', run, rearmed) = set_all_hbreakpoits-Rearmed p b h in
    let (ts, written, e) = write_at-first 0 self s.active_thread_list pos in
    (
      record { controller_thread = 0; active_thread_list = ts; active_thread_list_size = 1 },
      p',
      fork_run self s ts p p' written run,
      e,
      rearmed,
    )
