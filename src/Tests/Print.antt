-- ===== src/Tests/Print.antt =====
-- Lines of the printing functions.
use secpoline.Base.{done, ◌≡◌, refl, some, [], ◌∷◌, arith}
use secpoline.Print.{
  write_digits, write_number, nolibc_print_size_t, nolibc_print_size_t_hex, nolibc_print_str,
}
use secpoline.Print.RoundTrip.{
  decimal_value, hex_value, is_decimal, is_hex, Line, Text, nolibc_print_reads,
}

-- "[1007] a 90" and "[1007] a 0x5a".
printed_decimal :
    nolibc_print_size_t 1007 (some (97 ∷ [])) 90
    ≡ done (91 ∷ 49 ∷ 48 ∷ 48 ∷ 55 ∷ 93 ∷ 32 ∷ 97 ∷ 32 ∷ 57 ∷ 48 ∷ 10 ∷ [])
unfolding nolibc_print_size_t write_number write_digits
printed_decimal = refl

printed_hex :
    nolibc_print_size_t_hex 1007 (some (97 ∷ [])) 90
    ≡ done (91 ∷ 49 ∷ 48 ∷ 48 ∷ 55 ∷ 93 ∷ 32 ∷ 97 ∷ 32 ∷ 48 ∷ 120 ∷ 53 ∷ 97 ∷ 10 ∷ [])
unfolding nolibc_print_size_t_hex write_number write_digits
printed_hex = refl

nolibc_print_reads_example :
    Line
      (97 ∷ 32 ∷ [])
      is_decimal
      decimal_value
      10
      1007
      90
      (nolibc_print_size_t 1007 (some (97 ∷ [])) 90)
    × Line
        (97 ∷ 32 ∷ 48 ∷ 120 ∷ [])
        is_hex
        hex_value
        16
        1007
        90
        (nolibc_print_size_t_hex 1007 (some (97 ∷ [])) 90)
    × Text 1007 (104 ∷ 105 ∷ []) (nolibc_print_str 1007 (104 ∷ 105 ∷ []))
nolibc_print_reads_example =
    nolibc_print_reads 1007 90 (97 ∷ []) (104 ∷ 105 ∷ []) (omega arith) (omega arith) (omega arith)
