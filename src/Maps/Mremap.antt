-- ===== src/Maps/Mremap.antt =====
-- `handle_mremap`, on the page manager.
pub mod Effect
use secpoline.Base.{
  Run, ℕ, ◌+◌, ◌-◌, ◌*◌, ◌/◌, ◌%◌, ◌^◌, Bool, true, false, not, ◌&&◌, ◌||◌, Option, none, some, ltb,
  leb, ◌==◌, if◌then◌else◌, done, trap, ◌>>=◌, ◌>>◌, nolibc_assert, page_size,
}
use secpoline.VirtPage.{VirtPage}
use secpoline.PageManager.State.{Manager, Status, success, failure, blocked}
use secpoline.PageManager.Lookup.{lookup_addr, lookup_range}
use secpoline.PageManager.Remove.{remove_page}
use secpoline.PageManager.Add.{add_page}
use secpoline.PageManager.Resize.{update_size}

-- MREMAP_MAYMOVE (1), MREMAP_FIXED (2) and MREMAP_DONTUNMAP (4).
abbrev pub may_move : ℕ → Bool
may_move flags = flags % 2 == 1

abbrev pub is_fixed : ℕ → Bool
is_fixed flags = flags / 2 % 2 == 1

abbrev pub dont_unmap : ℕ → Bool
dont_unmap flags = flags / 4 % 2 == 1

-- -EINVAL and -EFAULT.
abbrev pub einval : ℕ
einval = 2 ^ 64 - 22

abbrev pub efault : ℕ
efault = 2 ^ 64 - 14

-- The arguments, and what the kernel returns for a mremap with these arguments and the given last
-- argument.
pub record Request : Type 0 where
  pub start : ℕ
  pub old_size : ℕ
  pub new_size : ℕ
  pub flags : ℕ
  pub new_start : ℕ
  pub cid : ℕ
  pub is_multithreaded : Bool
  pub kernel : ℕ → ℕ

abbrev pub answer : ℕ → Manager → Run (Manager × ℕ)
answer address pm = done (pm, address)

-- The tests of the arguments.
abbrev pub is_invalid : Request → Bool
is_invalid r =
    (r.old_size == 0)
    || (r.new_size == 0)
    || not (r.start % page_size == 0)
    || (is_fixed r.flags && not (r.new_start % page_size == 0))
    || not (r.old_size % page_size == 0)
    || not (r.new_size % page_size == 0)

-- The mapping has been resized in place: the kernel must not move it.
resized : Request → Manager → Run (Manager × ℕ)
resized r pm = nolibc_assert (r.kernel 0 == r.start) >> answer r.start pm

-- `assert(new_addr > (char*)0)` and `assert(add_page(..) == 0)`.
tracked : ℕ → Manager × Status → Run (Manager × ℕ)
tracked address (pm, success) = answer address pm
tracked address (pm, failure) = trap
tracked address (pm, blocked) = trap

place : Request → ℕ → ℕ → ℕ → ℕ → Manager → Run (Manager × ℕ)
unfolding tracked
place r address prot flags cid pm =
    nolibc_assert (ltb 0 address)
    >> (add_page r.is_multithreaded address r.new_size prot flags cid false pm >>= tracked address)

-- The kernel moves the mapping; then its new range is tracked. `flags` and `cid` are the arguments
-- of `add_page` in these places, and `hint` the last argument of the syscall.
then_place : Request → ℕ → ℕ → ℕ → ℕ → Manager × Status → Run (Manager × ℕ)
unfolding place
then_place r hint prot flags cid (pm, success) = place r (r.kernel hint) prot flags cid pm
then_place r hint prot flags cid (pm, failure) = answer efault pm
then_place r hint prot flags cid (pm, blocked) = answer efault pm

then_keep : Request → ℕ → ℕ → ℕ → ℕ → Manager → Option VirtPage → Run (Manager × ℕ)
unfolding place
then_keep r hint prot flags cid pm none = answer efault pm
then_keep r hint prot flags cid pm (some g) = place r (r.kernel hint) prot flags cid pm

-- The old range is given up, or with MREMAP_DONTUNMAP must be tracked.
leave : Request → ℕ → ℕ → ℕ → ℕ → Manager → Run (Manager × ℕ)
unfolding then_place then_keep
leave r hint prot flags cid pm =
    if not (dont_unmap r.flags)
    then remove_page r.start r.old_size r.cid pm >>= then_place r hint prot flags cid
    else lookup_range pm.pages r.start r.old_size r.cid >>= then_keep r hint prot flags cid pm

move_anywhere : Request → Manager → Option VirtPage → Run (Manager × ℕ)
unfolding leave
move_anywhere r pm none = answer einval pm
move_anywhere r pm (some g) = leave r 0 g.prot r.flags r.cid pm

-- The move to a fixed address: the last call of `add_page` gives `cid` and `flags` in this order.
fixed_range : Request → ℕ → Manager → Option VirtPage → Run (Manager × ℕ)
unfolding leave
fixed_range r prot pm none = leave r r.new_start prot r.cid r.flags pm
fixed_range r prot pm (some g) = answer efault pm

move_fixed : Request → Manager → Option VirtPage → Run (Manager × ℕ)
unfolding fixed_range
move_fixed r pm none = answer einval pm
move_fixed r pm (some g) =
    lookup_range pm.pages r.new_start r.new_size r.cid >>= fixed_range r g.prot pm

-- The answers of `update_size` when the mapping may not move, and when it may.
in_place : Request → Manager × Status → Run (Manager × ℕ)
unfolding resized
in_place r (pm, success) = resized r pm
in_place r (pm, failure) = answer efault pm
in_place r (pm, blocked) = answer efault pm

in_place_or_move : Request → Manager × Status → Run (Manager × ℕ)
unfolding resized move_anywhere
in_place_or_move r (pm, success) = resized r pm
in_place_or_move r (pm, blocked) = move_anywhere r pm (lookup_addr pm.pages r.start r.cid)
in_place_or_move r (pm, failure) = answer efault pm

unfoldable pub handle_mremap : Request → Manager → Run (Manager × ℕ)
unfolding in_place in_place_or_move move_fixed
handle_mremap r pm =
    if is_invalid r
    then answer einval pm
    else if not (may_move r.flags)
    then if is_fixed r.flags || dont_unmap r.flags
      then answer einval pm
      else update_size r.start r.old_size r.new_size r.cid pm >>= in_place r
    else if not (is_fixed r.flags)
    then update_size r.start r.old_size r.new_size r.cid pm >>= in_place_or_move r
    else move_fixed r pm (lookup_addr pm.pages r.start r.cid)
