-- ===== src/Tests/Table.antt =====
-- The handler table with two entries.
use secpoline.Base.{
  ℕ, ◌≡◌, refl, true, false, some, List, [], ◌∷◌, arith, ◌==◌, if◌then◌else◌, done, trap, get_elem?,
  elem,
}
use secpoline.Table.{
  Handlers, posthandler, add_handler, handlers_of, generate_2d_handler_list,
  secpoline_syscall_handler,
}
use secpoline.Table.Dispatch.{secpoline_syscall_handler-order}
use secpoline.Table.Extend.{Good, fits, add_handler-effect, Extended}

abbrev plain : Handlers
plain = record { prehandlers = []; main_handler = 100; posthandlers = []; is_emulated = false }

abbrev guarded : Handlers
guarded = record {
  prehandlers = 200 ∷ [];
  main_handler = 100;
  posthandlers = 300 ∷ [];
  is_emulated = false;
}

abbrev table : List Handlers
table = plain ∷ guarded ∷ []

guarded-Good : Good guarded
guarded-Good = record {
  before = omega arith;
  after = omega arith;
  nonnull = (omega arith, (omega arith, (omega arith, tt)));
}

secpoline_syscall_handler-order_example :
    secpoline_syscall_handler (generate_2d_handler_list table) 1
    ≡ done (some (200 ∷ 100 ∷ 300 ∷ []))
secpoline_syscall_handler-order_example =
    secpoline_syscall_handler-order 1 guarded table (omega arith) refl guarded-Good.nonnull
      (omega arith)

add_handler-effect_example :
    (fits 100 posthandler guarded ≡ true
      → (t' : Handlers) × (table' : List Handlers) × (add_handler 100 1 400 posthandler table
          ≡ done table')
        × Good t'
        × Extended 400 posthandler guarded t'
        × (elem 400 (handlers_of t') ≡ true)
        × ((m : ℕ) → get_elem? table' m ≡ (if 1 == m then some t' else get_elem? table m)))
    × (fits 100 posthandler guarded ≡ false → add_handler 100 1 400 posthandler table ≡ trap)
add_handler-effect_example =
    add_handler-effect 100 1 400 posthandler guarded table (omega arith) (omega arith) refl
      guarded-Good
