-- ===== src/Base/Outcome.antt =====
-- Code that may kill the process: `ud2`, a failed `nolibc_assert` and a read through NULL all do.
use mathlib.Core.Bool.{Bool, true, false}
use mathlib.Core.Path.{◌≡◌, refl}
use secpoline.Base.Tests.{if◌then◌else◌}

pub data Run {ℓ} (A : Type ℓ) : Type ℓ where
  done : A → Run A
  trap : Run A

infixl 5 ◌>>=◌ ◌>>◌
abbrev pub ◌>>=◌ {ℓ κ} : {A : Type ℓ} {B : Type κ} → Run A → (A → Run B) → Run B
done a >>= f = f a
trap >>= f = trap

abbrev pub ◌>>◌ {ℓ} : {B : Type ℓ} → Run (Unit {0}) → Run B → Run B
m >> k = m >>= λ _. k

-- `nolibc_assert(condition)`, in release and in debug builds.
abbrev pub nolibc_assert : Bool → Run (Unit {0})
nolibc_assert true = done tt
nolibc_assert false = trap

-- What holds of the value when the code returns.
pub data Ensures {ℓ κ} {A : Type ℓ} (P : A → Type κ) : Run A → Type (ℓ ⊔ κ) where
  returned : {a : A} → P a → Ensures P (done a)
  trapped : Ensures P trap

module _ {ℓ κ} {A : Type ℓ} {P : A → Type κ} where
  pub Ensures-holds : {a : A} → Ensures P (done a) → P a
  Ensures-holds (returned h) = h

  pub Ensures-done : {m : Run A} {a : A} → Ensures P m → m ≡ done a → P a
  Ensures-done h e = Ensures-holds (rw e at h)

  pub Ensures-assert :
      (b : Bool) {m : Run A} → (b ≡ true → Ensures P m) → Ensures P (nolibc_assert b >> m)
  Ensures-assert true h = h refl
  Ensures-assert false h = trapped

  pub Ensures-bind {ι} :
      {B : Type ι} {Q : B → Type ι} {m : Run B} {f : B → Run A}
      → Ensures Q m
      → ((b : B) → Q b → Ensures P (f b))
      → Ensures P (m >>= f)
  Ensures-bind (returned h) next = next _ h
  Ensures-bind trapped next = trapped

  pub Ensures-then {ι} :
      {B : Type ι} (m : Run B) {f : B → Run A} → ((b : B) → Ensures P (f b)) → Ensures P (m >>= f)
  Ensures-then (done b) next = next b
  Ensures-then trap next = trapped

  pub Ensures-if :
      (b : Bool) {m n : Run A}
      → (b ≡ true → Ensures P m)
      → (b ≡ false → Ensures P n)
      → Ensures P (if b then m else n)
  Ensures-if true h k = h refl
  Ensures-if false h k = k refl

  pub Ensures-weaken {ι} :
      {Q : A → Type ι} {m : Run A} → ((a : A) → P a → Q a) → Ensures P m → Ensures Q m
  Ensures-weaken h (returned p) = returned (h _ p)
  Ensures-weaken h trapped = trapped

-- The value is the one that the code returns.
pub Ensures-run {ℓ} : {A : Type ℓ} (m : Run A) → Ensures (λ a. m ≡ done a) m
Ensures-run (done a) = returned refl
Ensures-run trap = trapped
