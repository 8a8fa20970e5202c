-- ===== src/PageManager/Remove/Correct.antt =====
-- `remove_page`, from the arguments to the result.
use secpoline.Base.{
  Run, ℕ, ◌+◌, ◌%◌, ◌<◌, ◌^◌, ◌≡◌, refl, inl, inr, Option, none, some, List, [], ◌∷◌, ◌++◌, arith,
  ◌==◌, done, trap, ◌>>=◌, Bool-cases, page_size, page_align, ptr_add, ptr_add_exact,
}
use secpoline.VirtPage.{VirtPage}
use secpoline.VirtPage.View.{Ordered}
use secpoline.VirtPage.View.Frame.{Overlaid}
use secpoline.PageManager.State.{Manager, Status, success, failure, blocked}
use secpoline.PageManager.Lookup.Range.{Owned}
use secpoline.PageManager.Remove.{
  Cut, find_cut, remove_across, remove_span, remove_cut, remove_range, remove_from, remove_page,
}
use secpoline.PageManager.Remove.Walk.{Found, CutResult, find_cut-Found}
use secpoline.PageManager.Remove.Effect.{trimmed, trimmed-effect, remove_within-Trims}

-- What a removal has done when it returns: the range has left the map, or nothing has changed. A
-- trap kills the process.
abbrev pub RemoveResult : ℕ → ℕ → ℕ → ℕ → Manager → Run (Manager × Status) → Type 0
RemoveResult lo start end cid pm trap = Unit {0}
RemoveResult lo start end cid pm (done (pm', success)) =
    Ordered lo pm'.pages × Overlaid start end none pm.pages pm'.pages × Owned start end cid pm.pages
RemoveResult lo start end cid pm (done (pm', failure)) = pm' ≡ pm
RemoveResult lo start end cid pm (done (pm', blocked)) = ⊥

module _ (lo start end cid : ℕ) (pm : Manager) (o : Ordered lo pm.pages)
    (stocked : 0 < pm.free_pages) (lt : start < end) where
  Trims-RemoveResult :
      (c : Cut) (r : Run (Manager × Status))
      → Found start end cid pm.pages c
      → (pm' : Manager) × (r ≡ done (pm', success)) × (pm'.pages ≡ trimmed start end c)
      → RemoveResult lo start end cid pm r
  Trims-RemoveResult c r f (pm', e, pages) =
      let t = trimmed-effect lo start end cid pm.pages c o lt f in
      rw e (rw pages t.0, rw pages t.1, f.owned)

  remove_span-Trims :
      (before passed : List VirtPage) (g : VirtPage) (after : List VirtPage)
      → Ordered lo (before ++ (passed ++ g ∷ after))
      → (pm' : Manager) × (remove_span start end before passed g after pm ≡ done (pm', success))
        × (pm'.pages
            ≡ trimmed start end (record {
              before = before;
              span = record { passed = passed; end_page = g; after = after };
            }))
  unfolding remove_span remove_across
  remove_span-Trims before [] g after w =
      remove_within-Trims lo start end before g after pm w stocked
  remove_span-Trims before (f ∷ ps) g after w = (_, refl, refl)

  remove_cut-RemoveResult :
      (c : Option Cut)
      → CutResult start end cid pm.pages (done c)
      → RemoveResult lo start end cid pm (remove_cut start end c pm)
  unfolding remove_cut
  remove_cut-RemoveResult none f = refl
  remove_cut-RemoveResult (some c) f =
      Trims-RemoveResult c _ f
        (remove_span-Trims c.before c.span.passed c.span.end_page c.span.after (rw f.whole at o))

  cut-RemoveResult :
      (r : Run (Option Cut))
      → CutResult start end cid pm.pages r
      → RemoveResult lo start end cid pm (r >>= λ c. remove_cut start end c pm)
  cut-RemoveResult trap f = tt
  cut-RemoveResult (done c) f = remove_cut-RemoveResult c f

remove_range-RemoveResult :
    (lo start size cid : ℕ) (pm : Manager) (g n : VirtPage) (gs : List VirtPage)
    → pm.pages ≡ g ∷ n ∷ gs
    → Ordered lo pm.pages
    → 0 < pm.free_pages
    → start + size < 2 ^ 64
    → RemoveResult lo start (ptr_add start size) cid pm (remove_range start size cid g n gs pm)
unfolding remove_range
remove_range-RemoveResult lo start size cid pm g n gs e o stocked fits =
    elim (Bool-cases (start % page_size == 0)) [
      | inr a ↦ rw a tt
      | inl a ↦ elim (Bool-cases (size == 0)) [
        | inl z ↦ rw (a, z) refl
        | inr z ↦
            let end = ptr_add start size in
            rw (a, z)
              (cut-RemoveResult lo start end cid pm o stocked
                (ground (arith, ptr_add_exact start size fits)) (find_cut start end cid g n gs)
                (rw e (find_cut-Found lo start end cid g n gs (rw e at o))))
      ]
    ]

remove_from-RemoveResult :
    (lo start size cid : ℕ) (pm : Manager) (gs : List VirtPage)
    → pm.pages ≡ gs
    → Ordered lo pm.pages
    → 0 < pm.free_pages
    → start + page_align size < 2 ^ 64
    → RemoveResult lo start
        (ptr_add start (page_align size))
        cid
        pm
        (remove_from start size cid gs pm)
unfolding remove_from
remove_from-RemoveResult lo start size cid pm [] e o stocked fits = refl
remove_from-RemoveResult lo start size cid pm (g ∷ []) e o stocked fits = refl
remove_from-RemoveResult lo start size cid pm (g ∷ n ∷ gs) e o stocked fits =
    remove_range-RemoveResult lo start (page_align size) cid pm g n gs e o stocked fits

-- `remove_page` on an ordered list, with a node in the pool and a range that does not wrap. When it
-- returns 0, every address of the range, rounded up to whole pages, belonged to the compartment,
-- the range has left the map, the rest of the map is the same and the list is in order. When it
-- returns -1 the state is as it was. It returns no other value.
pub remove_page-effect :
    (lo start size cid : ℕ) (pm : Manager)
    → Ordered lo pm.pages
    → 0 < pm.free_pages
    → start + page_align size < 2 ^ 64
    → RemoveResult lo start (start + page_align size) cid pm (remove_page start size cid pm)
unfolding remove_page
remove_page-effect lo start size cid pm o stocked fits =
    rw (← ptr_add_exact start (page_align size) fits)
      (remove_from-RemoveResult lo start size cid pm pm.pages refl o stocked fits)
