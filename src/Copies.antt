-- ===== src/Copies.antt =====
-- src/syscall_monitor/mpk_isolation.cpp and src/include/mpk_isolation.h: the copies between trusted
-- and untrusted memory, built with EXCLUSIVE_MPK_POLICY.
pub mod Allowed
pub mod Returns
use secpoline.Base.{
  ltb, leb, ◌==◌, if◌then◌else◌, ltb→lt, leb→le, ==_iff, Bool-cases, Option-cases, length,
  get_elem?, length-append, elem, Run, done, trap, ◌>>=◌, ◌>>◌, nolibc_assert, Ensures, returned,
  trapped, Ensures-bind, Ensures-assert, Ensures-done, Ensures-if, Ensures-then, Ensures-weaken,
  Ensures-run, page_size, ptr_add_exact, ptr_sub_exact, ptr_add-ptr_sub, ptr_add-lt,
  page_align_self, ptr_add, ptr_sub, page_align, ℕ, zero, suc, ◌+◌, ◌-◌, ◌*◌, ◌/◌, ◌%◌, ◌^◌, ◌≤◌,
  ◌<◌, ◌≡◌, refl, sym, ap, ◌∙◌, ◌≢◌, ◌↔◌, ◌⊎◌, inl, inr, Bool, true, false, not, ◌&&◌, ◌||◌, Option,
  none, some, List, [], ◌∷◌, ◌++◌, map, arith,
}
use secpoline.Erim.Pattern.{revoke_permissions}

-- Bits 2k and 2k + 1 of the register take reads and writes from the pages of key k.
abbrev pub grant_full_permissions : ℕ
grant_full_permissions = 0x7fffffc0

abbrev pub grant_trusted_permissions : ℕ
grant_trusted_permissions = 0x7ffffff0

unfoldable pub is_set : ℕ → ℕ → Bool
is_set pkru n = pkru / 2 ^ n % 2 == 1

-- The page tables, by page number: the protection key, and what PROT_READ and PROT_WRITE of the
-- mapping allow; a page that is not mapped allows neither.
pub record Pages : Type 0 where
  pub keys : ℕ → ℕ
  pub readable : ℕ → Bool
  pub writable : ℕ → Bool

unfoldable pub may_read : ℕ → Pages → ℕ → Bool
unfolding is_set
may_read pkru pages address =
    let page = address / page_size in pages.readable page && not (is_set pkru (2 * pages.keys page))

-- The value is read first, and then written back.
unfoldable pub may_write : ℕ → Pages → ℕ → Bool
unfolding may_read
may_write pkru pages address =
    let page = address / page_size in
    may_read pkru pages address
    && (pages.writable page && not (is_set pkru (2 * pages.keys page + 1)))

-- The register, and the compartment id: 0 is TS_MONITOR.
pub record Thread : Type 0 where
  pub pkru : ℕ
  pub compartment_id : ℕ

-- The eight bytes at the address are accessed with the rights of the application; a fault is a
-- trap.
abbrev pub check_access : (ℕ → Bool) → ℕ → ℕ → Thread → Run Thread
check_access may address pkru_after t =
    nolibc_assert (may address)
    >> (nolibc_assert (may (ptr_add address 7))
        >> (nolibc_assert (t.compartment_id == 0) >> done (record t { pkru = pkru_after })))

unfoldable pub mpk_check : Pages → ℕ → ℕ → Thread → Run Thread
unfolding may_write
mpk_check pages address pkru_after t =
    check_access (may_write revoke_permissions pages) address pkru_after t

unfoldable pub mpk_check_readonly : Pages → ℕ → ℕ → Thread → Run Thread
unfolding may_read
mpk_check_readonly pages address pkru_after t =
    check_access (may_read revoke_permissions pages) address pkru_after t

-- The loop over the pages, of at most `rounds` rounds. When the last page of the address space is
-- to be checked, the address wraps around to 0 and the loop does not end, which is a trap.
unfoldable pub check_pages : (ℕ → Thread → Run Thread) → ℕ → ℕ → ℕ → Thread → Run Thread
check_pages check zero address end_page t = if leb address end_page then trap else done t
check_pages check (suc rounds) address end_page t =
    if leb address end_page
    then check address t >>= check_pages check rounds (ptr_add address page_size) end_page
    else done t

abbrev pub align_down : ℕ → ℕ
align_down address = address / page_size * page_size

-- An `int` as a size_t: the 32-bit pattern is sign-extended.
unfoldable pub to_size : ℕ → ℕ
to_size size = if ltb size (2 ^ 31) then size else size + 2 ^ 64 - 2 ^ 32

-- From the first byte to the end, which is `start + size`.
unfoldable pub check_buffer : (ℕ → Thread → Run Thread) → ℕ → ℕ → Thread → Run Thread
unfolding check_pages
check_buffer check start end t =
    if align_down start == align_down end
    then check start t
    else check_pages check ((align_down end - align_down start) / page_size + 1) (align_down start)
        (align_down end) t

unfoldable pub is_buffer_untrusted : Pages → ℕ → ℕ → ℕ → Bool → Thread → Run Thread
unfolding check_buffer mpk_check mpk_check_readonly
is_buffer_untrusted pages start size pkru_after readonly t =
    let end = ptr_add start (to_size size) in
    if readonly
    then check_buffer (λ a t. mpk_check_readonly pages a pkru_after t) start end t
    else check_buffer (λ a t. mpk_check pages a pkru_after t) start end t

abbrev pub restrict : Thread → Thread
restrict t = record t { pkru = grant_trusted_permissions }

-- The contents of the memory are of any type; `memcpy` is the library's.
module _ {Contents : Type 0} (memcpy : ℕ → ℕ → ℕ → Contents → Contents) where
  unfoldable pub memcpy_untrusted_to_trusted :
      Pages → ℕ → ℕ → ℕ → Thread → Contents → Run (Thread × Contents)
  memcpy_untrusted_to_trusted pages dest src size t memory =
      nolibc_assert (t.pkru == grant_trusted_permissions)
      >> (is_buffer_untrusted pages src size grant_full_permissions true t >>= λ t'.
          done (restrict t', memcpy dest src (to_size size) memory))

  unfoldable pub memcpy_trusted_to_untrusted :
      Pages → ℕ → ℕ → ℕ → Thread → Contents → Run (Thread × Contents)
  memcpy_trusted_to_untrusted pages dest src size t memory =
      nolibc_assert (t.pkru == grant_trusted_permissions)
      >> (is_buffer_untrusted pages dest size grant_full_permissions false t >>= λ t'.
          done (restrict t', memcpy dest src (to_size size) memory))

pub to_size_exact : (size : ℕ) → size < 2 ^ 31 → to_size size ≡ size
unfolding to_size
to_size_exact size small = ground (arith, small)

-- A size that is not negative and does not take the buffer to the end of the address space.
pub end_exact :
    (start size : ℕ)
    → size < 2 ^ 31
    → start + size < 2 ^ 64
    → ptr_add start (to_size size) ≡ start + size
end_exact start size small fits =
    ap (ptr_add start) (to_size_exact size small) ∙ ptr_add_exact start size fits
