-- ===== src/PageManager/Lookup/Addr.antt =====
-- What `lookup_addr` finds.
use secpoline.Base.{
  ◌==◌, Bool-cases, ℕ, ◌≤◌, ◌<◌, ◌≡◌, refl, ◌↔◌, ◌⊎◌, inl, inr, true, false, ◌&&◌, ◌||◌, some, List,
  [], ◌∷◌, arith,
}
use secpoline.VirtPage.{VirtPage, page_end, virt_page_overlap_byte}
use secpoline.VirtPage.View.{Ordered}
use secpoline.PageManager.Lookup.{any_cid, lookup_addr}

-- A group that is found is in the list's order, holds the address and has the compartment.
pub lookup_addr-holds :
    (a cid : ℕ) (gs : List VirtPage) (g : VirtPage)
    → lookup_addr gs a cid ≡ some g
    → (g.start ≤ a) × (a < page_end g) × ((cid == any_cid || g.cid == cid) ≡ true)
unfolding lookup_addr virt_page_overlap_byte
lookup_addr-holds a cid [] g e = ground arith
lookup_addr-holds a cid (h ∷ gs) g e = ground (arith, lookup_addr-holds a cid gs g)

abbrev pub Among : VirtPage → List VirtPage → Type 0
Among g [] = ⊥
Among g (h ∷ gs) = (h ≡ g) ⊎ Among g gs

-- The group is in the list, holds the address, and is of the compartment, or any will do.
abbrev pub Holds : ℕ → ℕ → VirtPage → List VirtPage → Type 0
Holds a cid g gs =
    Among g gs × (g.start ≤ a) × (a < page_end g) × ((cid == any_cid || g.cid == cid) ≡ true)

Among-above :
    (lo : ℕ) (g : VirtPage) (gs : List VirtPage) → Ordered lo gs → Among g gs → lo ≤ g.start
Among-above lo g [] o m = absurd m
Among-above lo g (h ∷ gs) o (inl e) = rw e at (o.0)
Among-above lo g (h ∷ gs) o (inr m) =
    let l = Among-above (page_end h) g gs o.2 m in omega (arith, l, o.0, o.1)

hits :
    (a cid : ℕ) (g : VirtPage)
    → g.start ≤ a
    → a < page_end g
    → (cid == any_cid || g.cid == cid) ≡ true
    → (virt_page_overlap_byte g a && (cid == any_cid || g.cid == cid)) ≡ true
unfolding virt_page_overlap_byte
hits a cid g low high c = ground (arith, low, high, c)

misses :
    (a cid : ℕ) (g : VirtPage)
    → page_end g ≤ a
    → (virt_page_overlap_byte g a && (cid == any_cid || g.cid == cid)) ≡ false
unfolding virt_page_overlap_byte
misses a cid g low = ground (arith, low)

lookup_addr-Among :
    (a cid : ℕ) (gs : List VirtPage) (g : VirtPage) → lookup_addr gs a cid ≡ some g → Among g gs
unfolding lookup_addr
lookup_addr-Among a cid [] g e = absurd (cc)
lookup_addr-Among a cid (h ∷ gs) g e =
    elim (Bool-cases (virt_page_overlap_byte h a && (cid == any_cid || h.cid == cid))) [
      | inl q ↦ let e' : some h ≡ some g = rw q at e in inl (cc)
      | inr q ↦ inr (lookup_addr-Among a cid gs g (rw q at e))
    ]

Holds-lookup_addr :
    (lo a cid : ℕ) (g : VirtPage) (gs : List VirtPage)
    → Ordered lo gs
    → Holds a cid g gs
    → lookup_addr gs a cid ≡ some g
unfolding lookup_addr
Holds-lookup_addr lo a cid g [] o (m, low, high, c) = absurd m
Holds-lookup_addr lo a cid g (h ∷ gs) o (inl e, low, high, c) =
    let q = hits a cid g low high c in rw e (rw q refl)
Holds-lookup_addr lo a cid g (h ∷ gs) o (inr m, low, high, c) =
    let above = Among-above (page_end h) g gs o.2 m in
    let q = misses a cid h (omega (arith, above, low)) in
    rw q (Holds-lookup_addr (page_end h) a cid g gs o.2 (m, low, high, c))

-- On an ordered page list, `lookup_addr` finds a group exactly when that group is in the list, holds
-- the address (its first address included, its end not), and is of the compartment asked for, or
-- any compartment is asked for.
pub lookup_addr_iff :
    (lo a cid : ℕ) (g : VirtPage) (gs : List VirtPage)
    → Ordered lo gs
    → (lookup_addr gs a cid ≡ some g) ↔ Holds a cid g gs
lookup_addr_iff lo a cid g gs o = (
  λ e.
      let (low, high, c) = lookup_addr-holds a cid gs g e in
      (lookup_addr-Among a cid gs g e, low, high, c),
  Holds-lookup_addr lo a cid g gs o,
)
