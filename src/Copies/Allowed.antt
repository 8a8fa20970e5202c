-- ===== src/Copies/Allowed.antt =====
-- A copy touches only memory that the application itself may touch.
use secpoline.Base.{
  leb, ◌==◌, leb→le, ==_iff, Bool-cases, Run, Ensures, returned, trapped, Ensures-bind,
  Ensures-assert, Ensures-if, Ensures-then, Ensures-weaken, page_size, ptr_add_exact, ptr_add, ℕ,
  zero, suc, ◌+◌, ◌-◌, ◌*◌, ◌/◌, ◌^◌, ◌≤◌, ◌<◌, ◌≡◌, refl, ap, ◌∙◌, inl, inr, Bool, true, false,
  not, ◌&&◌, arith,
}
use secpoline.Erim.Pattern.{revoke_permissions}
use secpoline.Copies.{
  grant_full_permissions, grant_trusted_permissions, is_set, Pages, may_read, may_write, Thread,
  check_access, mpk_check, mpk_check_readonly, check_pages, align_down, check_buffer,
  is_buffer_untrusted, memcpy_untrusted_to_trusted, memcpy_trusted_to_untrusted, to_size_exact,
  end_exact,
}

-- Every byte on the pages from `address` to `end_page` may be accessed.
abbrev Covered : (ℕ → Bool) → ℕ → ℕ → Type 0
Covered may address end_page =
    (x : ℕ) → address ≤ x → x / page_size * page_size ≤ end_page → may x ≡ true

-- Rights belong to pages.
abbrev Paged : (ℕ → Bool) → Type 0
Paged may = (x y : ℕ) → x / page_size ≡ y / page_size → may x ≡ may y

-- A check that returns has seen that the address may be accessed.
abbrev Checks : (ℕ → Bool) → (ℕ → Thread → Run Thread) → Type 0
Checks may check = (a : ℕ) (t : Thread) → Ensures (λ t'. may a ≡ true) (check a t)

leb-lt : (a b : ℕ) → leb a b ≡ false → b < a
leb-lt a b h = ground (arith, h)

abbrev Aligned : ℕ → Type 0
Aligned a = a / page_size * page_size ≡ a

passed : (may : ℕ → Bool) (a e : ℕ) → Aligned a → e < a → Covered may a e
passed may a e aligned h x low high = absurd (omega (arith, h, low, high, aligned))

leb-less : (a b : ℕ) → a ≤ b → leb a b ≡ true
leb-less a b h = ground (arith, h)

one_page :
    (may : ℕ → Bool) (a e : ℕ)
    → Paged may
    → Aligned a
    → may a ≡ true
    → Covered may (a + page_size) e
    → Covered may a e
one_page may a e paged aligned here rest x low high = elim (Bool-cases (leb (a + page_size) x)) [
  | inl h ↦ let h' : a + page_size ≤ x = leb→le (a + page_size) x h in rest x h' high
  | inr h ↦
      let h' = leb-lt (a + page_size) x h in paged x a (omega (arith, h', low, aligned)) ∙ here
]

next_page-Aligned : (a : ℕ) → Aligned a → Aligned (ptr_add a page_size)
unfolding ptr_add
next_page-Aligned a aligned = omega (arith, aligned)

-- Behind the last page of the address space there is nothing left to cover.
next_page-Covered :
    (may : ℕ → Bool) (a e : ℕ)
    → Aligned a
    → e < 2 ^ 64
    → Covered may (ptr_add a page_size) e
    → Covered may (a + page_size) e
next_page-Covered may a e aligned bound rest x low high =
    let exact : ptr_add a page_size ≡ a + page_size =
      ptr_add_exact a page_size (omega (arith, aligned, bound, low, high)) in
    rest x (rw exact low) high

check_pages-Covered :
    (may : ℕ → Bool) (check : ℕ → Thread → Run Thread) (rounds a e : ℕ) (t : Thread)
    → Paged may
    → Checks may check
    → Aligned a
    → e < 2 ^ 64
    → Ensures (λ t'. Covered may a e) (check_pages check rounds a e t)
unfolding check_pages
check_pages-Covered may check zero a e t paged checks aligned bound =
    Ensures-if (leb a e) (λ h. trapped)
      (λ h. returned {a = t} (passed may a e aligned (leb-lt a e h)))
check_pages-Covered may check (suc rounds) a e t paged checks aligned bound =
    Ensures-if (leb a e)
      (λ h. Ensures-bind (checks a t) (λ t1 here.
        Ensures-weaken
          (λ t' rest.
            one_page may a e paged aligned here (next_page-Covered may a e aligned bound rest))
          (check_pages-Covered may check rounds (ptr_add a page_size) e t1 paged checks
            (next_page-Aligned a aligned) bound)))
      (λ h. returned {a = t} (passed may a e aligned (leb-lt a e h)))

-- The bytes of a buffer.
abbrev pub Allowed : (ℕ → Bool) → ℕ → ℕ → Type 0
Allowed may start size = (i : ℕ) → i < size → may (start + i) ≡ true

same_page :
    (may : ℕ → Bool) (start size : ℕ)
    → Paged may
    → align_down start ≡ align_down (start + size)
    → may start ≡ true
    → Allowed may start size
same_page may start size paged e here i h = paged (start + i) start (omega (arith, e, h)) ∙ here

all_pages :
    (may : ℕ → Bool) (start size : ℕ)
    → Covered may (align_down start) (align_down (start + size))
    → Allowed may start size
all_pages may start size covered i h = covered (start + i) (omega arith) (omega (arith, h))

check_buffer-Allowed :
    (may : ℕ → Bool) (check : ℕ → Thread → Run Thread) (start size : ℕ) (t : Thread)
    → Paged may
    → Checks may check
    → start + size < 2 ^ 64
    → Ensures (λ t'. Allowed may start size) (check_buffer check start (start + size) t)
unfolding check_buffer
check_buffer-Allowed may check start size t paged checks fits =
    Ensures-if (align_down start == align_down (start + size))
      (λ h.
        Ensures-weaken
          (λ t' here.
            same_page may start size paged
              ((==_iff (align_down start) (align_down (start + size))).0 h) here)
          (checks start t))
      (λ h.
        Ensures-weaken (λ t' covered. all_pages may start size covered)
          (check_pages-Covered may check
            ((align_down (start + size) - align_down start) / page_size + 1) (align_down start)
            (align_down (start + size)) t paged checks (omega arith) (omega (arith, fits))))

check_access-Checks : (may : ℕ → Bool) (after : ℕ) → Checks may (λ a t. check_access may a after t)
check_access-Checks may after a t = Ensures-assert (may a) (λ h.
    Ensures-assert (may (ptr_add a 7)) (λ _.
      Ensures-assert (t.compartment_id == 0) (λ _. returned {a = record t { pkru = after }} h)))

may_read-Paged : (pages : Pages) (pkru : ℕ) → Paged (may_read pkru pages)
unfolding may_read
may_read-Paged pages pkru x y e =
    ap (λ p. pages.readable p && not (is_set pkru (2 * pages.keys p))) e

may_write-Paged : (pages : Pages) (pkru : ℕ) → Paged (may_write pkru pages)
unfolding may_write may_read
may_write-Paged pages pkru x y e =
    ap
      (λ p.
        (pages.readable p && not (is_set pkru (2 * pages.keys p)))
        && (pages.writable p && not (is_set pkru (2 * pages.keys p + 1))))
      e

-- What a copy that returns has done.
abbrev pub Copied : {Contents : Type 0} → (ℕ → Bool) → ℕ → ℕ → Contents → Thread × Contents → Type 0
Copied may start size copied (t, memory) =
    Allowed may start size × (t.pkru ≡ grant_trusted_permissions) × (memory ≡ copied)

module _ {Contents : Type 0} (memcpy : ℕ → ℕ → ℕ → Contents → Contents) where
  from_untrusted :
      (pages : Pages) (dest src size : ℕ) (t : Thread) (memory : Contents)
      → size < 2 ^ 31
      → src + size < 2 ^ 64
      → Ensures
          (Copied (may_read revoke_permissions pages) src size (memcpy dest src size memory))
          (memcpy_untrusted_to_trusted memcpy pages dest src size t memory)
  unfolding memcpy_untrusted_to_trusted is_buffer_untrusted mpk_check_readonly
  from_untrusted pages dest src size t memory small fits = rw (end_exact src size small fits) (
      Ensures-then _ (λ _.
        Ensures-bind
          (check_buffer-Allowed (may_read revoke_permissions pages)
            (λ a t. mpk_check_readonly pages a grant_full_permissions t) src size t
            (may_read-Paged pages revoke_permissions)
            (check_access-Checks (may_read revoke_permissions pages) grant_full_permissions) fits)
          (λ t' h.
            returned (h, refl, ap (λ n. memcpy dest src n memory) (to_size_exact size small)))))

  to_untrusted :
      (pages : Pages) (dest src size : ℕ) (t : Thread) (memory : Contents)
      → size < 2 ^ 31
      → dest + size < 2 ^ 64
      → Ensures
          (Copied (may_write revoke_permissions pages) dest size (memcpy dest src size memory))
          (memcpy_trusted_to_untrusted memcpy pages dest src size t memory)
  unfolding memcpy_trusted_to_untrusted is_buffer_untrusted mpk_check
  to_untrusted pages dest src size t memory small fits = rw (end_exact dest size small fits) (
      Ensures-then _ (λ _.
        Ensures-bind
          (check_buffer-Allowed (may_write revoke_permissions pages)
            (λ a t. mpk_check pages a grant_full_permissions t) dest size t
            (may_write-Paged pages revoke_permissions)
            (check_access-Checks (may_write revoke_permissions pages) grant_full_permissions) fits)
          (λ t' h.
            returned (h, refl, ap (λ n. memcpy dest src n memory) (to_size_exact size small)))))

  -- The copies between the compartments are safe, when the size is not negative and the buffers do
  -- not wrap around: when a copy from untrusted memory returns, every byte of its source can be read
  -- with the rights of the application, and when a copy to untrusted memory returns, every byte of
  -- its destination can be read and written with them; the memory is what memcpy makes of it, and
  -- the register has the rights of the monitor again.
  pub memcpy_untrusted-Copied :
      (pages : Pages) (dest src size : ℕ) (t : Thread) (memory : Contents)
      → size < 2 ^ 31
      → src + size < 2 ^ 64
      → dest + size < 2 ^ 64
      → Ensures
          (Copied (may_read revoke_permissions pages) src size (memcpy dest src size memory))
          (memcpy_untrusted_to_trusted memcpy pages dest src size t memory)
        × Ensures
            (Copied (may_write revoke_permissions pages) dest size (memcpy dest src size memory))
            (memcpy_trusted_to_untrusted memcpy pages dest src size t memory)
  memcpy_untrusted-Copied pages dest src size t memory small src_fits dest_fits = (
    from_untrusted pages dest src size t memory small src_fits,
    to_untrusted pages dest src size t memory small dest_fits,
  )
