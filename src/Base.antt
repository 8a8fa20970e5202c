-- ===== src/Base.antt =====
-- The names that the other modules share: the libraries', passed on, and those of the children.
mod Tests
mod Lists
mod Outcome
mod Word
pub use Tests.*
pub use Lists.*
pub use Outcome.{
  Run, done, trap, ◌>>=◌, ◌>>◌, nolibc_assert, Ensures, returned, trapped, Ensures-bind,
  Ensures-assert, Ensures-done, Ensures-if, Ensures-then, Ensures-weaken, Ensures-run,
}
pub use Word.{page_size, ptr_add_exact, ptr_sub_exact, ptr_add-ptr_sub, ptr_add-lt, page_align_self}
unfoldable pub use Word.{ptr_add, ptr_sub, page_align}
pub use Prim.Native.Nat.{ℕ, zero, suc, ◌+◌, ◌-◌, ◌*◌, ◌/◌, ◌%◌, ◌^◌, ◌≤◌, ◌<◌}
pub use mathlib.Core.Path.{◌≡◌, refl, sym, ap, ◌∙◌}
pub use mathlib.Core.Logic.{◌≢◌, ◌↔◌, ◌⊎◌, inl, inr}
pub use mathlib.Core.Bool.{Bool, true, false, not, ◌&&◌, ◌||◌}
pub use mathlib.Core.Option.{Option, none, some}
pub use mathlib.Core.List.{List, [], ◌∷◌, ◌++◌, map}
pub use native.Mathlib.Omega.{arith}
