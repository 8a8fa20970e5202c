-- ===== src/Table.antt =====
-- The table of syscall handlers and the dispatch (src/secpoline.cpp, src/include/secpoline.h).
pub mod Dispatch
pub mod Extend
use secpoline.Base.{
  Run, ℕ, zero, suc, ◌+◌, ◌-◌, ◌^◌, Bool, true, false, ◌||◌, Option, none, some, List, [], ◌∷◌,
  ◌++◌, ltb, leb, ◌==◌, if◌then◌else◌, done, trap, ◌>>=◌, ◌>>◌, nolibc_assert, length, map,
}

-- MAX_VALID_SYSCALL_NUM and MAX_SYSCALL_HANDLER_DEPTH.
abbrev pub max_valid_syscall_num : ℕ
max_valid_syscall_num = 463

abbrev pub max_syscall_handler_depth : ℕ
max_syscall_handler_depth = 2

-- Handlers are function pointers, as addresses; NULL is 0. An array of handlers is the list of its
-- elements before the first NULL.
pub record Handlers : Type 0 where
  pub prehandlers : List ℕ
  pub main_handler : ℕ
  pub posthandlers : List ℕ
  pub is_emulated : Bool

pub data HandlerType : Type 0 where
  prehandler main_handler posthandler emulate_later : HandlerType

abbrev pub no_handlers : List ℕ → Bool
no_handlers [] = true
no_handlers (h ∷ hs) = false

-- The `switch` of `add_handler`, on the entry of the syscall. `default` is the address of
-- syscall_handler_default.
unfoldable pub set_handler : ℕ → ℕ → HandlerType → Handlers → Run Handlers
set_handler default func main_handler t = do
  nolibc_assert (t.main_handler == default)
  done (record t { main_handler = func })
set_handler default func prehandler t = do
  nolibc_assert (ltb (length t.prehandlers) max_syscall_handler_depth)
  done (record t { prehandlers = t.prehandlers ++ func ∷ [] })
set_handler default func posthandler t = do
  nolibc_assert (ltb (length t.posthandlers) max_syscall_handler_depth)
  done (record t { posthandlers = t.posthandlers ++ func ∷ [] })
set_handler default func emulate_later t = do
  nolibc_assert (no_handlers t.posthandlers)
  nolibc_assert (no_handlers t.prehandlers)
  done (record t { is_emulated = true; main_handler = func })

abbrev pub put_back : Handlers → Run (List Handlers) → Run (List Handlers)
put_back t rest = rest >>= λ ts. done (t ∷ ts)

unfoldable pub update_entry : ℕ → (Handlers → Run Handlers) → List Handlers → Run (List Handlers)
update_entry n f [] = trap
update_entry zero f (t ∷ ts) = f t >>= λ t'. done (t' ∷ ts)
update_entry (suc n) f (t ∷ ts) = put_back t (update_entry n f ts)

unfoldable pub add_handler : ℕ → ℕ → ℕ → HandlerType → List Handlers → Run (List Handlers)
unfolding set_handler update_entry
add_handler default syscall_no func how table = do
  nolibc_assert (ltb syscall_no max_valid_syscall_num)
  update_entry syscall_no (set_handler default func how) table

abbrev pub handlers_of : Handlers → List ℕ
handlers_of t = t.prehandlers ++ t.main_handler ∷ t.posthandlers

unfoldable pub nulls : ℕ → List ℕ
nulls zero = []
nulls (suc n) = 0 ∷ nulls n

-- A row of `syscall_handler_list`, which is zero at first: five slots.
unfoldable pub row : Handlers → List ℕ
unfolding nulls
row t =
    handlers_of t
    ++ nulls (max_syscall_handler_depth + max_syscall_handler_depth + 1 - length (handlers_of t))

unfoldable pub generate_2d_handler_list : List Handlers → List (List ℕ)
unfolding row
generate_2d_handler_list [] = []
generate_2d_handler_list (t ∷ ts) = row t ∷ generate_2d_handler_list ts

abbrev pub flatten : List (List ℕ) → List ℕ
flatten [] = []
flatten (r ∷ rs) = r ++ flatten rs

-- The memory from `syscall_handler_list[n]` on: the rows stand one behind the other.
unfoldable pub slots_from : ℕ → List (List ℕ) → List ℕ
slots_from n [] = []
slots_from zero (r ∷ rs) = r ++ flatten rs
slots_from (suc n) (r ∷ rs) = slots_from n rs

-- The loop up to the first NULL.
unfoldable pub until_null : List ℕ → List ℕ
until_null [] = []
until_null (h ∷ hs) = let later = until_null hs in if h == 0 then [] else h ∷ later

-- The handlers that `secpoline_syscall_handler` calls, in order. The test is on a signed 64-bit
-- number: a negative one passes it, and `none` stands for the read in front of the array.
unfoldable pub secpoline_syscall_handler : List (List ℕ) → ℕ → Run (Option (List ℕ))
unfolding slots_from until_null
secpoline_syscall_handler list syscall_no =
    nolibc_assert (leb (2 ^ 63) syscall_no || ltb syscall_no max_valid_syscall_num)
    >> (if leb (2 ^ 63) syscall_no
        then done none
        else done (some (until_null (slots_from syscall_no list))))
