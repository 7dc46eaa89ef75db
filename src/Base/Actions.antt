-- ===== src/Base/Actions.antt =====
-- Errors as values. A function of the program changes its state, and then returns or throws; the
-- changes made before a throw stay.
use Prim.Native.Nat.{ℕ, zero, suc}
use mathlib.Core.Path.{◌≡◌, refl}
use mathlib.Core.Bool.{Bool, true, false}
use mathlib.Core.Option.{Option, none, some}

-- The error numbers of cerrno that the code names, and any other from the operating system.
pub data Errno : Type 0 where
  eio einval enoent enospc enomem enosys : Errno
  os : ℕ → Errno

-- What a call may end in other than a return: the exceptions FilesystemException and
-- std::out_of_range, a failed `assert`, behaviour that C++ leaves undefined, and a loop of the
-- model that used up its fuel.
pub data Fault : Type 0 where
  fs_error : Errno → Fault
  out_of_range assertion undefined no_fuel : Fault

-- An `int` that is 0 (or a value that is not negative), or a negated errno.
pub data Status {ℓ} (A : Type ℓ) : Type ℓ where
  ok : A → Status A
  err : Errno → Status A

pub data Outcome (S A : Type 0) : Type 0 where
  done : A → S → Outcome S A
  throw : Fault → S → Outcome S A

abbrev pub Action : Type 0 → Type 0 → Type 0
Action S A = S → Outcome S A

abbrev pub then_do : {S A B : Type 0} → Outcome S A → (A → Action S B) → Outcome S B
then_do (done a s) f = f a s
then_do (throw e s) f = throw e s

abbrev pub pure : {S A : Type 0} → A → Action S A
pure a s = done a s

abbrev pub fail : {S A : Type 0} → Fault → Action S A
fail e s = throw e s

infixl 5 ◌>>=◌ ◌>>◌
abbrev pub ◌>>=◌ : {S A B : Type 0} → Action S A → (A → Action S B) → Action S B
◌>>=◌ m f s = then_do (m s) f

abbrev pub ◌>>◌ : {S B : Type 0} → Action S (Unit {0}) → Action S B → Action S B
m >> k = m >>= λ _. k

abbrev pub get_state : {S : Type 0} → Action S S
get_state s = done s s

abbrev pub put_state : {S : Type 0} → S → Action S (Unit {0})
put_state t s = done tt t

-- `if (bad) throw e;`
abbrev pub throw_if : {S : Type 0} → Bool → Fault → Action S (Unit {0})
throw_if true e s = throw e s
throw_if false e s = done tt s

abbrev pub assert : {S : Type 0} → Bool → Action S (Unit {0})
assert true s = done tt s
assert false s = throw Fault.assertion s

abbrev pub of_option : {S A : Type 0} → Option A → Fault → Action S A
of_option none e s = throw e s
of_option (some a) e s = done a s

abbrev pub state_of : {S A : Type 0} → Outcome S A → S
state_of (done a s) = s
state_of (throw e s) = s

-- `auto err = m(); if (err < 0) return err;`
abbrev pub or_return :
    {S A B : Type 0} → Action S (Status A) → (A → Action S (Status B)) → Action S (Status B)
or_return m f s = then_do (m s) (λ r. elim r [ ok a ↦ f a | err e ↦ pure (err e) ])

-- `while (!done(x)) x = step(x);` with fuel, where the test and the step are actions.
unfoldable pub loop_until :
    {S A : Type 0} → ℕ → (A → Action S Bool) → (A → Action S A) → A → Action S A
loop_until zero test step x = fail no_fuel
loop_until (suc fuel) test step x =
    test x >>= λ stop. elim stop [ true ↦ pure x | false ↦ step x >>= loop_until fuel test step ]

-- What returned had a first part that returned.
pub then_do-done :
    {S A B : Type 0} (o : Outcome S A) (f : A → Action S B) (b : B) (t : S)
    → then_do o f ≡ done b t
    → (a : A) × (s : S) × (o ≡ done a s) × (f a s ≡ done b t)
then_do-done (done a s) f b t h = (a, s, refl, h)
then_do-done (throw e s) f b t h = cc
