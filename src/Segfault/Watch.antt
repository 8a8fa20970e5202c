-- ===== src/Segfault/Watch.antt =====
-- What `add_breakpoints` does to the breakpoints, and the pages that are listed as executable.
use secpoline.Base.{
  done, Ensures, Ensures-bind, Ensures-done, Ensures-if, Ensures-then, Ensures-weaken, ℕ, ◌+◌, ◌≡◌,
  refl, ap, ◌∙◌, Bool, false, List, [], ◌∷◌, ◌++◌, map, arith,
}
use secpoline.Erim.Pages.{UnsafePage}
use secpoline.Segfault.Pages.{WatchedPage, Kernel, Process}
use secpoline.Segfault.Breakpoints.{
  read_instructions, has_free, remove_dynamic_hbreakpoints, add_breakpoints,
}
use secpoline.Segfault.Bounds.{total, Balanced, Added, add_watched_page-Added, Added-Balanced}
use secpoline.Segfault.Close.{SameCode}
use secpoline.Segfault.Evict.{Retained, Needed, Room, evict-Room, Room-none}

-- The oldest pages have made room, and then the page is watched.
pub record Placed (u : UnsafePage) (s : Bool) (p p' : Process) : Type 0 where
  pub cleared : Process
  pub room : Room u.unsafe_instructions_size p cleared
  pub added : Added u s cleared p'

remove_dynamic_hbreakpoints-Room :
    (k : Kernel) (n : ℕ) (p : Process)
    → Balanced p.controller
    → Ensures (Room n p) (remove_dynamic_hbreakpoints k n p)
unfolding remove_dynamic_hbreakpoints
remove_dynamic_hbreakpoints-Room k n p b =
    Ensures-then _ (λ _. evict-Room k n p.controller.dynamic_hbreakpoints p refl (omega (arith, b)))

add_breakpoints-Placed :
    (k : Kernel) (u : UnsafePage) (s : Bool) (p : Process)
    → Balanced p.controller
    → Ensures (Placed u s p) (add_breakpoints k u s p)
unfolding add_breakpoints
add_breakpoints-Placed k u s p b =
    let n = u.unsafe_instructions_size in
    Ensures-then _ (λ _.
      Ensures-if (has_free n p)
        (λ h.
          Ensures-weaken (λ p' a. record { cleared = p; room = Room-none n p h; added = a })
            (add_watched_page-Added u s p))
        (λ h. Ensures-bind (remove_dynamic_hbreakpoints-Room k n p b) (λ p1 r.
          Ensures-weaken (λ p' a. record { cleared = p1; room = r; added = a })
            (add_watched_page-Added u s p1))))

total-split : (gone kept : List WatchedPage) → total (gone ++ kept) ≡ total gone + total kept
unfolding total
total-split [] kept = omega arith
total-split (w ∷ gone) kept = omega (arith, total-split gone kept)

Room-Balanced :
    (n : ℕ) (p p' : Process) → Room n p p' → Balanced p.controller → Balanced p'.controller
Room-Balanced n p p' r (b, m, le) =
    let v = r.evicted in
    let e : total p.controller.dynamic_hbreakpoints ≡ total r.gone + total r.kept =
      ap total v.before ∙ total-split r.gone r.kept in
    (
      rw (v.statics, v.after) (omega (arith, v.used)),
      rw (v.statics, v.max) m,
      omega (arith, v.used),
    )

-- `add_breakpoints` keeps the balance: when it returns, `used_breakpoints` is again the number of
-- breakpoints that the lists hold, `max_dynamic_breakpoints` what the static ones leave of the
-- four,
-- and no more than four are in use.
pub add_breakpoints-Balanced :
    (k : Kernel) (u : UnsafePage) (s : Bool) (p p' : Process)
    → Balanced p.controller
    → add_breakpoints k u s p ≡ done p'
    → Balanced p'.controller
add_breakpoints-Balanced k u s p p' b e =
    let placed = Ensures-done (add_breakpoints-Placed k u s p b) e in
    Added-Balanced u s placed.cleared p' placed.added
      (Room-Balanced u.unsafe_instructions_size p placed.cleared placed.room b)

-- A page more is watched, in front of nothing: pages leave the list at its front and join it at its
-- end.
abbrev pub Fifo : UnsafePage → Process → Process → Type 0
Fifo u p p' =
    (gone kept : List WatchedPage) × (page : WatchedPage) × (p.controller.dynamic_hbreakpoints
      ≡ gone ++ kept)
    × (p'.controller.dynamic_hbreakpoints ≡ kept ++ page ∷ [])
    × (p'.controller.static_hbreakpoints ≡ p.controller.static_hbreakpoints)
    × (read_instructions u u.unsafe_instructions ≡ done (map (λ b. b.address) page))
    × Needed u.unsafe_instructions_size p.controller.used_breakpoints gone
    × Retained gone p p'
    × SameCode p.unsafe_pages p'.unsafe_pages

-- What `add_breakpoints` does for a page that is not static, when it returns: pages have left the
-- front of the list, the oldest first, each one only because too few breakpoints were free, and
-- none of them is listed as executable any more; the page's instructions are watched at the end of the list;
-- and the static pages stay.
pub add_breakpoints-Fifo :
    (k : Kernel) (u : UnsafePage) (p p' : Process)
    → Balanced p.controller
    → add_breakpoints k u false p ≡ done p'
    → Fifo u p p'
add_breakpoints-Fifo k u p p' b e =
    let placed = Ensures-done (add_breakpoints-Placed k u false p b) e in
    let r = placed.room in
    let v = r.evicted in
    let a = placed.added in
    (
      r.gone,
      r.kept,
      a.page,
      v.before,
      a.dynamics ∙ ap (λ ps. ps ++ a.page ∷ []) v.after,
      a.statics ∙ v.statics,
      a.read,
      r.needed,
      λ x w found exec. v.retained x w (rw a.same at found) exec,
      λ x w found. v.code x w (rw a.same at found),
    )
