-- ===== src/Tests/Threads.antt =====
-- Threads that start and end.
use secpoline.Base.{
  length, done, ℕ, zero, suc, ◌≡◌, refl, ap, true, false, List, [], ◌∷◌, ◌++◌, arith,
}
use secpoline.PageManager.State.{Manager}
use secpoline.Segfault.Pages.{Controller, Kernel, Process}
use secpoline.Segfault.Bounds.{Balanced, total}
use secpoline.Segfault.Fork.Rearmed.{Rearmed}
use secpoline.Segfault.Threads.{Ptid, Synchronizer, update_active_thread_list}
use secpoline.Segfault.Threads.View.{threads, listed, Left, first_threads}
use secpoline.Segfault.Threads.Updates.{
  update_active_thread_list-Left, update_active_thread_list-Joined,
}

-- An array of `n` entries, of which the first two are in use.
unfoldable filled : ℕ → List Ptid
filled zero = []
filled (suc n) = record { tid = n; pid = 7 } ∷ filled n

filled-length : (n : ℕ) → length (filled n) ≡ n
unfolding filled
filled-length zero = refl
filled-length (suc n) = ap suc (filled-length n)

abbrev synchronizer : Synchronizer
synchronizer = record {
  controller_thread = 0;
  active_thread_list = filled 4096;
  active_thread_list_size = 2;
}

abbrev few : Synchronizer
few = record {
  controller_thread = 0;
  active_thread_list =
      record { tid = 21; pid = 7 }
      ∷ record { tid = 22; pid = 7 }
      ∷ record { tid = 23; pid = 7 }
      ∷ [];
  active_thread_list_size = 3;
}

abbrev controller : Controller
controller = record {
  used_breakpoints = 2;
  max_dynamic_breakpoints = 3;
  static_hbreakpoints = (record { address = 4096; fd = 5 } ∷ []) ∷ [];
  dynamic_hbreakpoints = (record { address = 8200; fd = 6 } ∷ []) ∷ [];
}

abbrev manager : Manager
manager = record { pages = []; free_pages = 9; grants = [] }

abbrev process : Process
process = record {
  unsafe_pages = [];
  manager = manager;
  mprotected = [];
  unsafe_page_mutex = false;
  controller = controller;
  fds = 11 ∷ 12 ∷ 13 ∷ [];
}

abbrev kernel : Kernel
kernel = record { mprotect = λ a prot. true; close = λ fd. true }

abbrev started : Ptid
started = record { tid = 24; pid = 7 }

abbrev ended : Ptid
ended = record { tid = 22; pid = 7 }

update_active_thread_list-Left_example :
    (s' : Synchronizer) × (p' : Process) × (update_active_thread_list kernel true ended controller
        few process
      ≡ done (s', p'))
    × Left 22 few s'
    × (p'.controller.used_breakpoints ≡ 0)
unfolding listed first_threads
update_active_thread_list-Left_example =
    update_active_thread_list-Left kernel ended controller few process refl (omega arith) refl
      (λ fd. refl)

controller-Balanced : Balanced controller
unfolding total
controller-Balanced = (refl, refl, omega arith)

update_active_thread_list-Joined_example :
    (s' : Synchronizer) × (p' : Process) × (update_active_thread_list kernel false started
        controller synchronizer process
      ≡ done (s', p'))
    × (threads s' ≡ threads synchronizer ++ started ∷ [])
    × Rearmed process p'
update_active_thread_list-Joined_example =
    update_active_thread_list-Joined kernel started controller synchronizer process refl
      (omega arith) (filled-length 4096) controller-Balanced (omega arith)
