-- ===== src/PageManager/Lookup/Place.antt =====
-- Where in the list a group that `lookup_addr` finds stands.
use secpoline.Base.{
  ℕ, ◌≡◌, ap, ◌&&◌, ◌||◌, some, List, [], ◌∷◌, ◌++◌, arith, ◌==◌, Bool-cases, inl, inr,
}
use secpoline.VirtPage.{VirtPage, virt_page_overlap_byte}
use secpoline.PageManager.Lookup.{any_cid, lookup_addr}

pub record Place (gs : List VirtPage) (g : VirtPage) : Type 0 where
  pub before : List VirtPage
  pub after : List VirtPage
  pub whole : gs ≡ before ++ g ∷ after

pub lookup_addr-Place :
    (a cid : ℕ) (gs : List VirtPage) (g : VirtPage) → lookup_addr gs a cid ≡ some g → Place gs g
unfolding lookup_addr
lookup_addr-Place a cid [] g e = absurd (cc)
lookup_addr-Place a cid (x ∷ gs) g e =
    elim (Bool-cases (virt_page_overlap_byte x a && (cid == any_cid || x.cid == cid))) [
      | inl h ↦
          let same : x ≡ g = ground arith in
          record { before = []; after = gs; whole = ap (λ y. y ∷ gs) same }
      | inr h ↦
          let p = lookup_addr-Place a cid gs g (rw h at e) in
          record { before = x ∷ p.before; after = p.after; whole = ap (λ xs. x ∷ xs) p.whole }
    ]
