-- ===== src/Erim/Pattern.antt =====
-- The byte patterns of erim.h, and the sequences that make an instruction benign
-- (`isBenignXRSTOR`, `isBenignWRPKRU`, `checkWhitelistedWRPKRU` of erim.cpp).
use secpoline.Base.{
  ℕ, ◌+◌, ◌*◌, ◌/◌, ◌%◌, ◌^◌, Bool, false, not, ◌&&◌, ◌||◌, Option, none, some, List, ◌==◌,
  if◌then◌else◌, elem,
}

-- The byte at each address, below 256. A pointer into one object does not wrap around.
abbrev pub Memory : Type 0
Memory = ℕ → ℕ

-- TYPE_WRPKRU, TYPE_XRSTOR and TYPE_WRGSBASE.
pub data Unsafe : Type 0 where
  wrpkru xrstor wrgsbase : Unsafe

unfoldable pub is_wrpkru : Memory → ℕ → Bool
is_wrpkru m p = (m p == 0x0f) && (m (p + 1) == 0x01) && (m (p + 2) == 0xef)

-- `(b & 0xC0) != 0xC0 && (b & 0x38) == 0x28`.
unfoldable pub is_xrstor : Memory → ℕ → Bool
is_xrstor m p =
    (m p == 0x0f)
    && (m (p + 1) == 0xae)
    && not (m (p + 2) / 64 % 4 == 3)
    && (m (p + 2) / 8 % 8 == 5)

-- `(b & 0xf8) == 0xd8`.
unfoldable pub is_wrgsbase32 : Memory → ℕ → Bool
is_wrgsbase32 m p =
    (m p == 0xf3) && (m (p + 1) == 0x0f) && (m (p + 2) == 0xae) && (m (p + 3) / 8 % 32 == 27)

-- `(b & 0xf0) == 0x40`.
unfoldable pub is_wrgsbase64 : Memory → ℕ → Bool
is_wrgsbase64 m p =
    (m p == 0xf3)
    && (m (p + 1) / 16 % 16 == 4)
    && (m (p + 2) == 0x0f)
    && (m (p + 3) == 0xae)
    && (m (p + 4) / 8 % 32 == 27)

-- The tests of the scan at one address, in their order.
unfoldable pub classify : Memory → ℕ → Option Unsafe
unfolding is_wrpkru is_xrstor is_wrgsbase32 is_wrgsbase64
classify m p =
    if is_wrpkru m p
    then some wrpkru
    else if is_xrstor m p
    then some xrstor
    else if is_wrgsbase32 m p || is_wrgsbase64 m p
    then some wrgsbase
    else none

-- A little-endian read of `uint32_t`.
abbrev pub read32 : Memory → ℕ → ℕ
read32 m p = m p + 2 ^ 8 * m (p + 1) + 2 ^ 16 * m (p + 2) + 2 ^ 24 * m (p + 3)

-- REVOKE_PERMISSIONS of gsreldata.h.
abbrev pub revoke_permissions : ℕ
revoke_permissions = 0x7fffffcb

-- mov edx, eax; bt edx, 9; jnc 3; ud2; int3.
unfoldable pub is_benign_xrstor : Memory → ℕ → Bool
unfolding is_xrstor
is_benign_xrstor m p =
    is_xrstor m p
    && (m (p + 3) == 0x89)
    && (m (p + 4) == 0xc2)
    && (m (p + 5) == 0x0f)
    && (m (p + 6) == 0xba)
    && (m (p + 7) == 0xe2)
    && (m (p + 8) == 0x09)
    && (m (p + 9) == 0x73)
    && (m (p + 10) == 0x03)
    && (m (p + 11) == 0x0f)
    && (m (p + 12) == 0x0b)
    && (m (p + 13) == 0xcc)

-- The switch to the application: cmp eax, REVOKE_PERMISSIONS; je 3; ud2; int3.
is_revoking : Memory → ℕ → Bool
unfolding is_wrpkru
is_revoking m p =
    (read32 m (p + 4) == revoke_permissions)
    && is_wrpkru m p
    && (m (p + 3) == 0x3d)
    && (m (p + 8) == 0x74)
    && (m (p + 9) == 0x03)
    && (m (p + 10) == 0x0f)
    && (m (p + 11) == 0x0b)
    && (m (p + 12) == 0xcc)

-- The monitor's own: mov dl, gs:[16]; cmp dl, TS_MONITOR; je 3; ud2; int3.
is_internal : Memory → ℕ → Bool
unfolding is_wrpkru
is_internal m p =
    is_wrpkru m p
    && (m (p + 3) == 0x65)
    && (m (p + 4) == 0x8a)
    && (m (p + 5) == 0x14)
    && (m (p + 6) == 0x25)
    && (read32 m (p + 7) == 0x10)
    && (m (p + 11) == 0x80)
    && (m (p + 12) == 0xfa)
    && (m (p + 13) == 0)
    && (m (p + 14) == 0x74)
    && (m (p + 15) == 0x03)
    && (m (p + 16) == 0x0f)
    && (m (p + 17) == 0x0b)
    && (m (p + 18) == 0xcc)

unfoldable pub is_benign_wrpkru : Memory → ℕ → Bool
unfolding is_revoking is_internal
is_benign_wrpkru m p = is_revoking m p || is_internal m p

-- NULL is `none`.
abbrev pub is_whitelisted : Option (List ℕ) → ℕ → Bool
is_whitelisted none p = false
is_whitelisted (some whitelist) p = elem p whitelist

-- The switch of `erim_memScanRegion`: is the instruction at `p` passed?
unfoldable pub is_benign : Memory → Option (List ℕ) → ℕ → Unsafe → Bool
unfolding is_benign_wrpkru is_benign_xrstor
is_benign m whitelist p wrpkru = is_whitelisted whitelist p || is_benign_wrpkru m p
is_benign m whitelist p xrstor = is_benign_xrstor m p
is_benign m whitelist p wrgsbase = false
