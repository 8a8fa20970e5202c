-- ===== src/Signals/Kernel.antt =====
-- rt_sigaction, as the kernel carries it out and as the meta monitor passes it on
-- (src/syscall_handlers/meta_monitor.cpp).
use secpoline.Base.{
  ◌==◌, if◌then◌else◌, ℕ, ◌%◌, ◌^◌, Bool, true, false, not, ◌&&◌, ◌||◌, Option, none, some,
}
use secpoline.Files.Bitmap.{unset_byte}

-- `struct kernel_sigaction`.
pub record Action : Type 0 where
  pub handler : ℕ
  pub flags : ℕ
  pub restorer : ℕ
  pub mask : ℕ

-- SIGTRAP, SIGSEGV and SIGSYS.
abbrev pub sigtrap : ℕ
sigtrap = 5

abbrev pub sigsegv : ℕ
sigsegv = 11

abbrev pub sigsys : ℕ
sigsys = 31

abbrev pub is_guarded : ℕ → Bool
is_guarded signo = (signo == sigsegv) || (signo == sigsys) || (signo == sigtrap)

-- `flags &= ~SA_RESETHAND`: the constant is an unsigned int, so the upper half of the word goes as
-- well.
abbrev pub clear_resethand : ℕ → ℕ
clear_resethand flags = flags % 2 ^ 31

-- The kernel: the action of each signal, what it answers to a request for a signal that does or
-- does
-- not give a new action (0 when it carries it out), and the address `asm_signal_entry`.
pub record Kernel : Type 0 where
  pub actions : ℕ → Action
  pub answer : ℕ → Bool → ℕ
  pub entry : ℕ

abbrev pub set_action : ℕ → Action → (ℕ → Action) → ℕ → Action
set_action signo a actions n = if n == signo then a else actions n

-- The syscall: the kernel takes a new action when it answers 0.
unfoldable pub rt_sigaction : ℕ → Option Action → Kernel → Kernel × ℕ
rt_sigaction signo none k = (k, k.answer signo false)
rt_sigaction signo (some a) k =
    if k.answer signo true == 0
    then (record k { actions = set_action signo a k.actions }, 0)
    else (k, k.answer signo true)

-- What the meta monitor clears in the caller's structure.
abbrev pub strip : Action → Action
strip a = record a {
  flags = unset_byte 30 (unset_byte 27 (unset_byte 2 (clear_resethand a.flags)));
}

-- The branch for rt_sigaction of `meta_monitor`. The last component is the caller's structure.
unfoldable pub meta_rt_sigaction : ℕ → Option Action → Kernel → Kernel × ℕ × Option Action
unfolding rt_sigaction
meta_rt_sigaction signo none k = let (k', result) = rt_sigaction signo none k in (k', result, none)
meta_rt_sigaction signo (some a) k =
    if is_guarded signo && not (a.handler == k.entry)
    then (let (k', result) = rt_sigaction signo none k in (k', result, some (strip a)))
    else (let (k', result) = rt_sigaction signo (some a) k in (k', result, some a))
