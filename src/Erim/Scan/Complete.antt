-- ===== src/Erim/Scan/Complete.antt =====
-- What the scan of a page reports, and what it cannot see.
use secpoline.Base.{
  ℕ, zero, suc, ◌+◌, ◌-◌, ◌≤◌, ◌<◌, ◌≡◌, ◌≢◌, refl, inl, inr, Bool, false, not, ◌&&◌, Option, none,
  some, List, [], ◌∷◌, arith, ltb, leb, ◌==◌, elem, Bool-cases,
}
use secpoline.Erim.Pattern.{Memory, Unsafe, classify, is_benign}
use secpoline.Erim.Scan.{Hit, scan_from, hit_at, scan_mem, report, round, scan_page}
use secpoline.Erim.Scan.Overlap.{classify-apart}

abbrev pub unless_benign : Memory → Option (List ℕ) → ℕ → Option Unsafe → Bool
unless_benign m whitelist a none = false
unless_benign m whitelist a (some k) = not (is_benign m whitelist a k)

-- Does an unsafe instruction that is not benign start at `a`?
unfoldable pub is_unsafe : Memory → Option (List ℕ) → ℕ → Bool
is_unsafe m whitelist a = unless_benign m whitelist a (classify m a)

-- The first hit of the scan from `it` on, with `n` offsets to try.
First : Memory → ℕ → ℕ → ℕ → Option Hit → Type 0
First m ptr it n none = (i : ℕ) → it ≤ i → i < it + n → classify m (ptr + i) ≡ none
First m ptr it n (some h) =
    (it ≤ h.offset)
    × (h.offset < it + n)
    × (classify m (ptr + h.offset) ≡ some h.kind)
    × ((i : ℕ) → it ≤ i → i < h.offset → classify m (ptr + i) ≡ none)

hit_at-First :
    (m : Memory) (ptr it n : ℕ) (c : Option Unsafe) (r : Option Hit)
    → classify m (ptr + it) ≡ c
    → First m ptr (it + 1) n r
    → First m ptr it (suc n) (hit_at it c r)
unfolding First hit_at
hit_at-First m ptr it n (some k) r e f = (omega arith, omega arith, e, λ i le lt. ground arith)
hit_at-First m ptr it n none none e f = λ i le lt. elim (Bool-cases (i == it)) [
  | inl s ↦ let q : i ≡ it = ground arith in rw q e
  | inr s ↦ f i (ground arith) (omega arith)
]
hit_at-First m ptr it n none (some h) e f = (
  omega (arith, f.0),
  omega (arith, f.1),
  f.2,
  λ i le lt. elim (Bool-cases (i == it)) [
    | inl s ↦ let q : i ≡ it = ground arith in rw q e
    | inr s ↦ f.3 i (ground arith) lt
  ],
)

scan_from-First : (m : Memory) (ptr it n : ℕ) → First m ptr it n (scan_from m ptr it n)
unfolding scan_from First
scan_from-First m ptr it zero = λ i le lt. ground arith
scan_from-First m ptr it (suc n) =
    hit_at-First m ptr it n (classify m (ptr + it)) (scan_from m ptr (it + 1) n) refl
      (scan_from-First m ptr (it + 1) n)

pub record Reports (m : Memory) (whitelist : Option (List ℕ)) (start length : ℕ)
    (r : Option (List ℕ)) : Type 0 where
  pub reported : List ℕ
  pub run : r ≡ some reported
  pub exact :
      (a : ℕ)
      → elem a reported ≡ (leb start a && ltb (a + 3) (start + length) && is_unsafe m whitelist a)

-- Behind a hit at `f` the scan starts again at `f + 3`: the addresses between are settled.
quiet :
    (m : Memory) (whitelist : Option (List ℕ)) (start f : ℕ) (k : Unsafe)
    → classify m (start + f) ≡ some k
    → ((i : ℕ) → i < f → classify m (start + i) ≡ none)
    → (a : ℕ) → start ≤ a
    → a < start + (f + 3)
    → a ≢ start + f
    → is_unsafe m whitelist a ≡ false
unfolding is_unsafe
quiet m whitelist start f k hit before a le lt other = rw none_at refl
  where
    apart : (classify m (start + f + 1) ≡ none) × (classify m (start + f + 2) ≡ none)
    apart = classify-apart m (start + f) k hit

    none_at : classify m a ≡ none
    none_at = elim (Bool-cases (ltb a (start + f))) [
      | inl below ↦
          let e : a ≡ start + (a - start) = omega arith in rw e (before (a - start) (ground arith))
      | inr above ↦ elim (Bool-cases (a == start + f + 1)) [
        | inl one ↦ let e : a ≡ start + f + 1 = ground arith in rw e apart.0
        | inr two ↦ let e : a ≡ start + f + 2 = ground arith in rw e apart.1
      ]
    ]

is_unsafe_hit :
    (m : Memory) (whitelist : Option (List ℕ)) (p a : ℕ) (k : Unsafe)
    → classify m p ≡ some k
    → a ≡ p
    → is_unsafe m whitelist a ≡ not (is_benign m whitelist p k)
unfolding is_unsafe
is_unsafe_hit m whitelist p a k hit e = rw (e, hit) refl

report-Reports :
    (m : Memory) (whitelist : Option (List ℕ)) (start f length : ℕ) (k : Unsafe)
    (next : Option (List ℕ))
    → f + 3 < length
    → classify m (start + f) ≡ some k
    → ((i : ℕ) → i < f → classify m (start + i) ≡ none)
    → Reports m whitelist (start + (f + 3)) (length - (f + 3)) next
    → Reports m whitelist start length
        (report (is_benign m whitelist (start + f) k) (start + f) next)
report-Reports m whitelist start f length k next lt hit before r =
    elim (Bool-cases (is_benign m whitelist (start + f) k)) [
      | inl benign ↦ record {
        reported = r.reported;
        run = rw (benign, r.run) refl;
        exact = λ a. ground (
          arith,
          r.exact a,
          still a,
          λ (e : a ≡ start + f). is_unsafe_hit m whitelist (start + f) a k hit e,
        );
      }
      | inr harmful ↦ record {
        reported = (start + f) ∷ r.reported;
        run = rw (harmful, r.run) refl;
        exact = λ a. ground (
          arith,
          r.exact a,
          still a,
          λ (e : a ≡ start + f). is_unsafe_hit m whitelist (start + f) a k hit e,
        );
      }
    ]
  where
    still :
        (a : ℕ) → start ≤ a → a < start + (f + 3) → a ≢ start + f → is_unsafe m whitelist a ≡ false
    still = quiet m whitelist start f k hit before

-- No instruction stands at the start, or directly behind another one.
abbrev pub Spaced : Memory → ℕ → ℕ → Type 0
Spaced m start length =
    (classify m start ≡ none)
    × ((s : ℕ) → start ≤ s → s < start + length → classify m s ≢ none → classify m (s + 3) ≡ none)

Spaced-behind :
    (m : Memory) (start f length : ℕ) (k : Unsafe)
    → f + 3 < length
    → classify m (start + f) ≡ some k
    → Spaced m start length
    → Spaced m (start + (f + 3)) (length - (f + 3))
Spaced-behind m start f length k lt hit spaced =
    let e : start + (f + 3) ≡ start + f + 3 = omega arith in
    (
      rw e (spaced.1 (start + f) (omega arith) (omega arith) (λ n. ground arith)),
      λ s le below. spaced.1 s (omega arith) (omega arith),
    )

clean-Reports :
    (m : Memory) (whitelist : Option (List ℕ)) (start length : ℕ)
    → ((i : ℕ) → i + 3 < length → classify m (start + i) ≡ none)
    → Reports m whitelist start length (some [])
unfolding is_unsafe
clean-Reports m whitelist start length clean = record {
  reported = [];
  run = refl;
  exact = λ a. elim (Bool-cases (leb start a && ltb (a + 3) (start + length))) [
    | inl inside ↦
        let e : a ≡ start + (a - start) = ground arith in
        let c : classify m a ≡ none = rw e (clean (a - start) (ground arith)) in rw c (ground arith)
    | inr outside ↦ ground arith
  ];
}

offset_positive :
    (m : Memory) (start f : ℕ) (k : Unsafe)
    → classify m start ≡ none
    → classify m (start + f) ≡ some k
    → (f == 0) ≡ false
offset_positive m start f k none_here hit = elim (Bool-cases (f == 0)) [
  | inl e ↦
      let q : start + f ≡ start = ground arith in
      let here : classify m start ≡ some k = rw q at hit in ground arith
  | inr e ↦ e
]

round-Reports :
    (m : Memory) (whitelist : Option (List ℕ)) (start length : ℕ) (r : Option Hit)
    (next : ℕ → Option (List ℕ))
    → 3 ≤ length
    → First m start 0 (length - 3) r
    → Spaced m start length
    → ((k : ℕ)
        → 3 < k
        → k < length
        → Spaced m (start + k) (length - k)
        → Reports m whitelist (start + k) (length - k) (next k))
    → Reports m whitelist start length (round m whitelist start r next)
unfolding First
round-Reports m whitelist start length none next long f spaced later =
    clean-Reports m whitelist start length (λ i lt. f i (omega arith) (omega arith))
round-Reports m whitelist start length (some h) next long f spaced later =
    let positive : (h.offset == 0) ≡ false = offset_positive m start h.offset h.kind spaced.0 f.2 in
    rw positive (
      report-Reports m whitelist start h.offset length h.kind (next (h.offset + 3))
        (omega (arith, f.1)) f.2 (λ i lt. f.3 i (omega arith) lt)
        (later (h.offset + 3) (ground arith) (omega (arith, f.1))
          (Spaced-behind m start h.offset length h.kind (omega (arith, f.1)) f.2 spaced)))

-- When no unsafe instruction stands at the start of the page or directly behind another one, the
-- loop ends, with as much fuel as the page is long, and reports exactly the addresses at which an
-- unsafe instruction starts that is not benign, up to the last three offsets of the page.
pub scan_page-Reports :
    (m : Memory) (whitelist : Option (List ℕ)) (fuel start length : ℕ)
    → length ≤ fuel
    → Spaced m start length
    → Reports m whitelist start length (scan_page m whitelist fuel start length)
unfolding scan_page scan_mem
scan_page-Reports m whitelist zero start zero enough spaced =
    clean-Reports m whitelist start 0 (λ i lt. ground arith)
scan_page-Reports m whitelist zero start (suc n) enough spaced = ground arith
scan_page-Reports m whitelist (suc fuel) start zero enough spaced =
    clean-Reports m whitelist start 0 (λ i lt. ground arith)
scan_page-Reports m whitelist (suc fuel) start (suc n) enough spaced =
    elim (Bool-cases (ltb (suc n) 3)) [
      | inl short ↦ rw short (clean-Reports m whitelist start (suc n) (λ i lt. ground arith))
      | inr long ↦ rw long (
          round-Reports m whitelist start (suc n) (scan_from m start 0 (suc n - 3))
            (λ k. scan_page m whitelist fuel (start + k) (suc n - k)) (ground arith)
            (scan_from-First m start 0 (suc n - 3)) spaced
            (λ k pos lt. scan_page-Reports m whitelist fuel (start + k) (suc n - k) (omega arith)))
    ]

-- A page that begins with an unsafe instruction is passed as clean, whatever stands behind it: the
-- offset 0 is taken for "not found".
pub scan_page_blind :
    (m : Memory) (whitelist : Option (List ℕ)) (fuel start length : ℕ) (k : Unsafe)
    → 3 < length
    → length ≤ fuel
    → classify m start ≡ some k
    → scan_page m whitelist fuel start length ≡ some []
unfolding scan_page scan_mem scan_from hit_at
scan_page_blind m whitelist zero start length k long enough hit = ground arith
scan_page_blind m whitelist (suc fuel) start zero k long enough hit = ground arith
scan_page_blind m whitelist (suc fuel) start (suc n) k long enough hit =
    let not_short : ltb (suc n) 3 ≡ false = ground arith in
    let rounds : suc n - 3 ≡ suc (n - 3) = omega arith in
    let first : start + 0 ≡ start = omega arith in
    rw (not_short, rounds, scan_from, first, hit, hit_at) refl
