-- ===== src/Erim/Scan.antt =====
-- `erim_scanMemForWRPKRUXRSTOR`, and the loop of `erim_memScanRegion` over one page. The switches
-- of the PKRU register around the reads are not part of the model.
pub mod Overlap
pub mod Complete
use secpoline.Base.{
  ℕ, zero, suc, ◌+◌, ◌-◌, Bool, true, false, Option, none, some, List, [], ◌∷◌, ltb, ◌==◌,
  if◌then◌else◌,
}
use secpoline.Erim.Pattern.{Memory, Unsafe, classify, is_benign}

-- The type and the offset written through `ret`.
pub record Hit : Type 0 where
  pub kind : Unsafe
  pub offset : ℕ

hit_at : ℕ → Option Unsafe → Option Hit → Option Hit
hit_at it none later = later
hit_at it (some kind) later = some (record { kind = kind; offset = it })

-- The loop at offset `it`, with `n` iterations left.
unfoldable pub scan_from : Memory → ℕ → ℕ → ℕ → Option Hit
unfolding hit_at
scan_from m ptr it zero = none
scan_from m ptr it (suc n) = hit_at it (classify m (ptr + it)) (scan_from m ptr (it + 1) n)

-- `none` is the return of 0, which leaves `*ret` alone.
unfoldable pub scan_mem : Memory → ℕ → ℕ → Option Hit
scan_mem m ptr length = if ltb length 3 then none else scan_from m ptr 0 (length - 3)

-- `unsafe_instructions->push_back` unless the instruction is benign, in front of what follows.
abbrev pub report : Bool → ℕ → Option (List ℕ) → Option (List ℕ)
report benign p none = none
report true p (some later) = some later
report false p (some later) = some (p ∷ later)

-- One round of the loop, given how to go on. `found` is 0 when nothing is found, and also when the
-- instruction stands at offset 0: both end the loop.
abbrev pub round :
    Memory → Option (List ℕ) → ℕ → Option Hit → (ℕ → Option (List ℕ)) → Option (List ℕ)
round m whitelist start none next = some []
round m whitelist start (some h) next =
    if h.offset == 0
    then some []
    else report (is_benign m whitelist (start + h.offset) h.kind) (start + h.offset)
        (next (h.offset + 3))

-- The addresses that the loop reports; `none` when the fuel is too small.
unfoldable pub scan_page : Memory → Option (List ℕ) → ℕ → ℕ → ℕ → Option (List ℕ)
scan_page m whitelist zero start zero = some []
scan_page m whitelist zero start (suc n) = none
scan_page m whitelist (suc fuel) start zero = some []
scan_page m whitelist (suc fuel) start (suc n) =
    round m whitelist start (scan_mem m start (suc n))
      (λ k. scan_page m whitelist fuel (start + k) (suc n - k))
