-- ===== src/Print/RoundTrip.antt =====
-- The printed numbers can be read back.
use native.Mathlib.Omega.{pow_step}
use secpoline.Base.{
  ltb, leb, ◌==◌, if◌then◌else◌, ==_iff, Bool-cases, length, length-append, Run, done, ◌>>=◌, ℕ,
  zero, suc, ◌+◌, ◌-◌, ◌*◌, ◌/◌, ◌%◌, ◌^◌, ◌≤◌, ◌<◌, ◌≡◌, refl, sym, ap, ◌∙◌, ◌⊎◌, inl, inr, Bool,
  true, false, ◌&&◌, ◌||◌, some, List, [], ◌∷◌, ◌++◌, arith,
}
use secpoline.Print.{
  decimal_digit, hex_digit, write_digits, write_number, in_buffer, prefix_bytes, tid_bytes,
  nolibc_print_size_t, nolibc_print_size_t_hex, copy_string, nolibc_print_str,
}

-- A number from its digits, the highest first.
abbrev pub read_from : (ℕ → ℕ) → ℕ → ℕ → List ℕ → ℕ
read_from digit_of base acc [] = acc
read_from digit_of base acc (b ∷ bs) = read_from digit_of base (acc * base + digit_of b) bs

abbrev pub decimal_value : ℕ → ℕ
decimal_value b = b - 48

abbrev pub hex_value : ℕ → ℕ
hex_value b = if ltb b 58 then b - 48 else b - 87

-- '0' to '9', and 'a' to 'f' as well.
abbrev pub is_decimal : ℕ → Bool
is_decimal b = leb 48 b && leb b 57

abbrev pub is_hex : ℕ → Bool
is_hex b = is_decimal b || (leb 97 b && leb b 102)

abbrev pub all_of : (ℕ → Bool) → List ℕ → Bool
all_of may [] = true
all_of may (b ∷ bs) = may b && all_of may bs

-- One digit or more, which are the number in the base.
abbrev pub Numeral : (ℕ → Bool) → (ℕ → ℕ) → ℕ → ℕ → List ℕ → Type 0
Numeral may digit_of base value bs =
    (all_of may bs ≡ true) × (0 < length bs) × (read_from digit_of base 0 bs ≡ value)

-- Digits and their values in a base; `powers` bounds the numbers of so many digits.
record Base (digit digit_of : ℕ → ℕ) (may : ℕ → Bool) (base : ℕ) : Type 0 where
  digits : (t : ℕ) → may (digit (t % base)) ≡ true
  nought : may 48 ≡ true
  powers : ℕ → ℕ
  first : powers 0 ≡ 1
  shrinks : (n t : ℕ) → t < powers (suc n) → t / base < powers n
  value : (t : ℕ) → t / base * base + digit_of (digit (t % base)) ≡ t

module _ (digit digit_of : ℕ → ℕ) (may : ℕ → Bool) (base : ℕ)
    (b : Base digit digit_of may base) where
  abbrev Reads : ℕ → ℕ → ℕ → List ℕ → Type 0
  Reads places q t num_buf =
      (bs : List ℕ) × (write_digits places digit base t num_buf ≡ done bs)
      × (read_from digit_of base 0 bs ≡ read_from digit_of base t num_buf)
      × (length bs ≤ q + length num_buf)
      × (all_of may bs ≡ true)

  Reads-none :
      (places q t : ℕ) (num_buf : List ℕ)
      → all_of may num_buf ≡ true
      → (t == 0) ≡ true
      → Reads places q t num_buf
  unfolding write_digits
  Reads-none zero q t num_buf ok e =
      let z : t ≡ 0 = (==_iff t 0).0 e in
      (num_buf, rw e refl, ap (λ k. read_from digit_of base k num_buf) (sym z), omega arith, ok)
  Reads-none (suc places) q t num_buf ok e =
      let z : t ≡ 0 = (==_iff t 0).0 e in
      (num_buf, rw e refl, ap (λ k. read_from digit_of base k num_buf) (sym z), omega arith, ok)

  -- `q` digits suffice, and there is room for them.
  write_digits-Reads :
      (places q t : ℕ) (num_buf : List ℕ)
      → all_of may num_buf ≡ true
      → q ≤ places
      → t < b.powers q
      → Reads places q t num_buf
  unfolding write_digits
  write_digits-Reads places zero t num_buf ok room h =
      let z : t < 1 = rw b.first at h in Reads-none places zero t num_buf ok (ground (arith, z))
  write_digits-Reads zero (suc q) t num_buf ok room h = absurd (omega (arith, room))
  write_digits-Reads (suc places) (suc q) t num_buf ok room h = elim (Bool-cases (t == 0)) [
    | inl e ↦ Reads-none (suc places) (suc q) t num_buf ok e
    | inr e ↦
        let more : all_of may (digit (t % base) ∷ num_buf) ≡ true = rw (b.digits t) ok in
        let (bs, run, same, size, all) =
          write_digits-Reads places q (t / base) (digit (t % base) ∷ num_buf) more
            (omega (arith, room)) (b.shrinks q t h) in
        (
          bs,
          rw e run,
          same ∙ ap (λ k. read_from digit_of base k num_buf) (b.value t),
          omega (arith, size),
          all,
        )
  ]

  nought-read : (t : ℕ) → (t == 0) ≡ true → digit_of 48 ≡ 0 → 0 * base + digit_of 48 ≡ t
  nought-read t e nought = let z : t ≡ 0 = (==_iff t 0).0 e in omega (arith, z, nought)

  nonempty :
      (t : ℕ) (bs : List ℕ) → (t == 0) ≡ false → read_from digit_of base 0 bs ≡ t → 0 < length bs
  nonempty t [] e same = absurd (ground (arith, e, same))
  nonempty t (c ∷ bs) e same = omega arith

  -- A number of at most `q` digits is written with at most `q` digits, which read as the number.
  write_number_reads :
      (q t : ℕ)
      → 0 < q
      → q ≤ 31
      → digit_of 48 ≡ 0
      → t < b.powers q
      → (bs : List ℕ) × (write_number digit base t ≡ done bs)
        × Numeral may digit_of base t bs
        × (length bs ≤ q)
  unfolding write_number
  write_number_reads q t pos room nought h = elim (Bool-cases (t == 0)) [
    | inl e ↦ (
      48 ∷ [],
      rw e refl,
      (rw b.nought refl, omega arith, nought-read t e nought),
      omega (arith, pos),
    )
    | inr e ↦
        let (bs, run, same, size, all) = write_digits-Reads 31 q t [] refl room h in
        (bs, rw e run, (all, nonempty t bs e same, same), omega (arith, size))
  ]

decimal : Base decimal_digit decimal_value is_decimal 10
decimal = record {
  digits = λ t. ground arith;
  nought = refl;
  powers = λ n. 10 ^ n;
  first = refl;
  shrinks = λ n t h. let e : 10 ^ suc n ≡ 10 * 10 ^ n = pow_step 10 n in omega (arith, e, h);
  value = λ t. omega arith;
}

hex : Base hex_digit hex_value is_hex 16
hex = record {
  digits = λ t. ground arith;
  nought = refl;
  powers = λ n. 16 ^ n;
  first = refl;
  shrinks = λ n t h. let e : 16 ^ suc n ≡ 16 * 16 ^ n = pow_step 16 n in omega (arith, e, h);
  value = λ t. ground arith;
}

-- What a line of `nolibc_print_size_t` holds: two numerals between bytes that are no digits.
abbrev pub Line : List ℕ → (ℕ → Bool) → (ℕ → ℕ) → ℕ → ℕ → ℕ → Run (List ℕ) → Type 0
Line before may digit_of base tid value run =
    (t v : List ℕ) × (run ≡ done (tid_bytes t ++ before ++ v ++ 10 ∷ []))
    × Numeral is_decimal decimal_value 10 tid t
    × Numeral may digit_of base value v

leb-true : (a b : ℕ) → a ≤ b → leb a b ≡ true
leb-true a b h = ground arith

in_buffer_fits : (line : List ℕ) → length line ≤ 256 → in_buffer line ≡ done line
in_buffer_fits line h = let e = leb-true (length line) 256 h in rw e refl

line_length :
    (t before v : List ℕ)
    → length t + length before + length v + 4 ≤ 256
    → length (tid_bytes t ++ before ++ v ++ 10 ∷ []) ≤ 256
line_length t before v h =
    let e0 : length (tid_bytes t) ≡ length (91 ∷ t) + 2 = length-append (91 ∷ t) (93 ∷ 32 ∷ []) in
    let e1 = length-append (tid_bytes t) before in
    let e2 = length-append (tid_bytes t ++ before) v in
    let e3 : length (tid_bytes t ++ before ++ v ++ 10 ∷ [])
        ≡ length (tid_bytes t ++ before ++ v) + 1 =
      length-append (tid_bytes t ++ before ++ v) (10 ∷ []) in
    rw e3 (omega (arith, h, e0, e1, e2))

done_bind : {A B : Type 0} (m : Run A) (a : A) (f : A → Run B) → m ≡ done a → (m >>= f) ≡ f a
done_bind m a f e = ap (λ m. m >>= f) e

size_t-Line :
    (before : List ℕ) (digit digit_of : ℕ → ℕ) (may : ℕ → Bool) (base : ℕ)
    (b : Base digit digit_of may base) (q tid value : ℕ)
    → length before ≤ 212
    → 0 < q
    → q ≤ 20
    → digit_of 48 ≡ 0
    → tid < 10 ^ 20
    → value < b.powers q
    → Line before may digit_of base tid value (
        write_number decimal_digit 10 tid >>= λ t.
        write_number digit base value >>= λ v. in_buffer (tid_bytes t ++ before ++ v ++ 10 ∷ []))
unfolding decimal
size_t-Line before digit digit_of may base b q tid value h pos small nought tid_small value_small =
    let (t, run, t_reads, t_size) =
      write_number_reads decimal_digit decimal_value is_decimal 10 decimal 20 tid (omega arith)
        (omega arith) refl tid_small in
    let (v, run', v_reads, v_size) =
      write_number_reads digit digit_of may base b q value pos (omega (arith, small)) nought
        value_small in
    (
      t,
      v,
      done_bind (write_number decimal_digit 10 tid) t
            (λ t. write_number digit base value >>= λ v.
              in_buffer (tid_bytes t ++ before ++ v ++ 10 ∷ []))
            run
          ∙ done_bind (write_number digit base value) v
              (λ v. in_buffer (tid_bytes t ++ before ++ v ++ 10 ∷ [])) run'
          ∙ in_buffer_fits (tid_bytes t ++ before ++ v ++ 10 ∷ [])
              (line_length t before v (omega (arith, h, t_size, v_size))),
      t_reads,
      v_reads,
    )

copy_string-length : (room : ℕ) (s : List ℕ) → length (copy_string room s) ≤ room
unfolding copy_string
copy_string-length zero s = omega arith
copy_string-length (suc room) [] = omega arith
copy_string-length (suc room) (c ∷ s) = let h = copy_string-length room s in omega (arith, h)

-- The copy is the front of the text, all of it or as much as there is room for.
copy_string-front :
    (room : ℕ) (s : List ℕ)
    → (rest : List ℕ) × (s ≡ copy_string room s ++ rest)
      × ((rest ≡ []) ⊎ (length (copy_string room s) ≡ room))
unfolding copy_string
copy_string-front zero s = (s, refl, inr refl)
copy_string-front (suc room) [] = ([], refl, inl refl)
copy_string-front (suc room) (c ∷ s) =
    let (rest, e, full) = copy_string-front room s in
    (rest, ap (◌∷◌ c) e, elim full [ inl n ↦ inl n | inr l ↦ inr (ap suc l) ])

-- The line of `nolibc_print_str`: the text up to `rest`, which is left out when 254 bytes are full.
abbrev pub Text : ℕ → List ℕ → Run (List ℕ) → Type 0
Text tid s run =
    (t copied rest : List ℕ) × (run ≡ done (tid_bytes t ++ copied ++ 10 ∷ []))
    × Numeral is_decimal decimal_value 10 tid t
    × (s ≡ copied ++ rest)
    × ((rest ≡ []) ⊎ (length (tid_bytes t ++ copied) ≡ 254))

-- A text that is too long is cut, and the line fits in its buffer.
nolibc_print_str_fits : (tid : ℕ) (s : List ℕ) → tid < 10 ^ 20 → Text tid s (nolibc_print_str tid s)
unfolding nolibc_print_str decimal
nolibc_print_str_fits tid s h =
    let (t, run, reads, size) =
      write_number_reads decimal_digit decimal_value is_decimal 10 decimal 20 tid (omega arith)
        (omega arith) refl h in
    let room = 254 - length (tid_bytes t) in
    let short = copy_string-length room s in
    let (rest, front, full) = copy_string-front room s in
    let e0 : length (tid_bytes t) ≡ length (91 ∷ t) + 2 = length-append (91 ∷ t) (93 ∷ 32 ∷ []) in
    let e = length-append (tid_bytes t) (copy_string room s) in
    let e1 : length (tid_bytes t ++ copy_string room s ++ 10 ∷ [])
        ≡ length (tid_bytes t ++ copy_string room s) + 1 =
      length-append (tid_bytes t ++ copy_string room s) (10 ∷ []) in
    let fits : length (tid_bytes t ++ copy_string room s ++ 10 ∷ []) ≤ 256 =
      rw e1 (omega (arith, size, short, e, e0)) in
    (
      t,
      copy_string room s,
      rest,
      done_bind (write_number decimal_digit 10 tid) t
            (λ t. in_buffer (tid_bytes t ++ copy_string (254 - length (tid_bytes t)) s ++ 10 ∷ []))
            run
          ∙ in_buffer_fits (tid_bytes t ++ copy_string room s ++ 10 ∷ []) fits,
      reads,
      front,
      elim full [ inl n ↦ inl n | inr l ↦ inr (omega (arith, l, e, e0, size)) ],
    )

prefix_length : (prefix : List ℕ) → length prefix ≤ 209 → length (prefix_bytes (some prefix)) ≤ 210
prefix_length prefix h =
    let e : length (prefix ++ 32 ∷ []) ≡ length prefix + 1 = length-append prefix (32 ∷ []) in
    rw e (omega (arith, h))

-- The three printing functions write one line without leaving a buffer, for every thread id and
-- value below 2 ^ 64, every prefix of at most 209 bytes and every text. The thread id stands between
-- brackets and the value between the prefix and the end of the line, each one as one digit or more
-- of its base (decimal, or hexadecimal after "0x") and nothing else, which are the number; the text
-- follows the thread id as it is, and is cut only when the line has 254 bytes.
pub nolibc_print_reads :
    (tid value : ℕ) (prefix s : List ℕ)
    → tid < 2 ^ 64
    → value < 2 ^ 64
    → length prefix ≤ 209
    → Line
        (prefix_bytes (some prefix))
        is_decimal
        decimal_value
        10
        tid
        value
        (nolibc_print_size_t tid (some prefix) value)
      × Line
          (prefix_bytes (some prefix) ++ 48 ∷ 120 ∷ [])
          is_hex
          hex_value
          16
          tid
          value
          (nolibc_print_size_t_hex tid (some prefix) value)
      × Text tid s (nolibc_print_str tid s)
unfolding nolibc_print_size_t nolibc_print_size_t_hex decimal hex
nolibc_print_reads tid value prefix s h h' small =
    let fits = prefix_length prefix small in
    let e : length (prefix_bytes (some prefix) ++ 48 ∷ 120 ∷ [])
        ≡ length (prefix_bytes (some prefix)) + 2 =
      length-append (prefix_bytes (some prefix)) (48 ∷ 120 ∷ []) in
    let tid_small : tid < 10 ^ 20 = omega (arith, h) in
    let long : length (prefix_bytes (some prefix) ++ 48 ∷ 120 ∷ []) ≤ 212 =
      rw e (omega (arith, fits)) in
    (
      size_t-Line (prefix_bytes (some prefix)) decimal_digit decimal_value is_decimal 10 decimal 20
          tid value (omega (arith, fits)) (omega arith) (omega arith) refl tid_small
          (omega (arith, h')),
      size_t-Line (prefix_bytes (some prefix) ++ 48 ∷ 120 ∷ []) hex_digit hex_value is_hex 16 hex 16
          tid value long (omega arith) (omega arith) refl tid_small h',
      nolibc_print_str_fits tid s tid_small,
    )
