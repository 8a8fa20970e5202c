-- ===== src/Tests/Copies.antt =====
-- Copies of a few bytes; the memory is a count of the copies.
use secpoline.Base.{
  ◌==◌, if◌then◌else◌, done, trap, Ensures, ptr_add, ℕ, ◌+◌, ◌-◌, ◌^◌, ◌≡◌, refl, true, false,
  arith,
}
use secpoline.Erim.Pattern.{revoke_permissions}
use secpoline.Copies.{
  grant_trusted_permissions, is_set, Pages, may_read, may_write, Thread, mpk_check_readonly,
  check_pages, to_size, check_buffer, is_buffer_untrusted, memcpy_untrusted_to_trusted,
  memcpy_trusted_to_untrusted,
}
use secpoline.Copies.Allowed.{Copied, memcpy_untrusted-Copied}

abbrev memcpy : ℕ → ℕ → ℕ → ℕ → ℕ
memcpy dest src size memory = memory + 1

-- All pages are mapped, and the application's.
abbrev pages : Pages
pages = record { keys = λ page. 2; readable = λ page. true; writable = λ page. true }

abbrev thread : Thread
thread = record { pkru = grant_trusted_permissions; compartment_id = 0 }

memcpy_untrusted-Copied_example :
    Ensures
      (Copied (may_read revoke_permissions pages) 8000 300 1)
      (memcpy_untrusted_to_trusted memcpy pages 64 8000 300 thread 0)
    × Ensures
        (Copied (may_write revoke_permissions pages) 64 300 1)
        (memcpy_trusted_to_untrusted memcpy pages 64 8000 300 thread 0)
memcpy_untrusted-Copied_example =
    memcpy_untrusted-Copied memcpy pages 64 8000 300 thread 0 (omega arith) (omega arith)
      (omega arith)

-- A page of the monitor stops the copy, and so does a page that is not mapped.
monitor_page :
    memcpy_untrusted_to_trusted memcpy (record pages { keys = λ page. 0 }) 64 8000 300 thread 0
    ≡ trap
unfolding memcpy_untrusted_to_trusted is_buffer_untrusted check_buffer check_pages
    mpk_check_readonly may_read is_set ptr_add to_size
monitor_page = refl

unmapped_page :
    memcpy_untrusted_to_trusted memcpy
      (record pages { readable = λ page. false })
      64
      8000
      300
      thread
      0
    ≡ trap
unfolding memcpy_untrusted_to_trusted is_buffer_untrusted check_buffer check_pages
    mpk_check_readonly may_read is_set ptr_add to_size
unmapped_page = refl

-- A buffer that ends with its page also needs the next page.
next_page :
    memcpy_untrusted_to_trusted memcpy
      (record pages { keys = λ page. if page == 1 then 2 else 0 })
      64
      4096
      4096
      thread
      0
    ≡ trap
unfolding memcpy_untrusted_to_trusted is_buffer_untrusted check_buffer check_pages
    mpk_check_readonly may_read is_set ptr_add to_size
next_page = refl

-- A buffer that wraps around passes without a check.
wrapped :
    memcpy_untrusted_to_trusted memcpy
      (record pages { keys = λ page. 0 })
      64
      (2 ^ 64 - 16)
      300
      thread
      0
    ≡ done (thread, 1)
unfolding memcpy_untrusted_to_trusted is_buffer_untrusted check_buffer check_pages
    mpk_check_readonly may_read is_set ptr_add to_size
wrapped = refl
