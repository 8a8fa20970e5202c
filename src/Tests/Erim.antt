-- ===== src/Tests/Erim.antt =====
-- The scanner on a page with one WRPKRU instruction in it.
use secpoline.Base.{
  ℕ, ◌+◌, ◌≡◌, ◌≢◌, refl, inl, inr, true, false, none, some, [], ◌∷◌, arith, ◌==◌, if◌then◌else◌,
  Bool-cases, page_size,
}
use secpoline.PageManager.Lookup.{lookup_addr}
use secpoline.Erim.Pattern.{
  Memory, wrpkru, classify, is_wrpkru, is_xrstor, is_wrgsbase32, is_wrgsbase64,
}
use secpoline.Erim.Scan.{scan_page}
use secpoline.Erim.Scan.Complete.{Spaced, Reports, scan_page-Reports, scan_page_blind}
use secpoline.Erim.Pages.{UnsafePage}
use secpoline.Erim.Region.{Input, Scanner, mem_scan_region}
use secpoline.Erim.Region.Effect.{RegionResult, mem_scan_region-effect}

abbrev pub code : Memory
code a = if a == 8292 then 0x0f else if a == 8293 then 0x01 else if a == 8294 then 0xef else 0

quiet_elsewhere : (s : ℕ) → s ≢ 8292 → classify code s ≡ none
unfolding classify is_wrpkru is_xrstor is_wrgsbase32 is_wrgsbase64
quiet_elsewhere s h = rw (other, prefix) refl
  where
    other : (code s == 0x0f) ≡ false
    other = ground arith

    prefix : (code s == 0xf3) ≡ false
    prefix = ground arith

pub code-Spaced : Spaced code 8192 page_size
code-Spaced = (
  quiet_elsewhere 8192 (omega arith),
  λ s low high h. elim (Bool-cases (s == 8292)) [
    | inl e ↦ let q : s ≡ 8292 = ground arith in quiet_elsewhere (s + 3) (omega arith)
    | inr e ↦
        let q : s ≢ 8292 = ground arith in let absent = h (quiet_elsewhere s q) in ground arith
  ],
)

scan_page-Reports_example :
    Reports code none 8192 page_size (scan_page code none page_size 8192 page_size)
scan_page-Reports_example =
    scan_page-Reports code none page_size 8192 page_size (omega arith) code-Spaced

scan_page_blind_example : scan_page code none 100 8292 100 ≡ some []
unfolding classify is_wrpkru
scan_page_blind_example =
    scan_page_blind code none 100 8292 100 wrpkru (omega arith) (omega arith) refl

abbrev input : Input
input = record {
  memory = code;
  groups = [];
  mprotect = λ a p c. true;
  start = 8192;
  whitelist = none;
  perm = 5;
  unsafe_perm = 1;
  trusted_page = false;
}

abbrev idle : Scanner
idle = record { unsafe_pages = []; mprotected = []; prev_page_ptr = none }

mem_scan_region-effect_example : RegionResult input idle (mem_scan_region input idle)
unfolding lookup_addr
mem_scan_region-effect_example = mem_scan_region-effect input idle refl refl refl code-Spaced

abbrev page : UnsafePage
page = record {
  address = 8192;
  trusted_page = false;
  current_perm = 1;
  desired_perm = 5;
  unsafe_instructions = some (8292 ∷ []);
  unsafe_instructions_size = 1;
}
