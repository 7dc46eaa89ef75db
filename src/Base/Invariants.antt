-- ===== src/Base/Invariants.antt =====
-- Invariants of actions: one rule for each way to build an action.
use rt11fs.Base.Actions.{
  Fault, Status, ok, err, Outcome, done, throw, Action, then_do, pure, fail, ◌>>=◌, get_state,
  put_state, throw_if, assert, of_option, state_of, or_return,
}
use mathlib.Core.Path.{◌≡◌, refl}
use mathlib.Core.Bool.{Bool, true, false}
use mathlib.Core.Option.{Option, none, some}
use rt11fs.Base.Tests.{if◌then◌else◌}

-- `m` keeps `P`, whether it returns or ends in a fault.
pub record Keeps {S A : Type 0} (P : S → Type 0) (m : Action S A) : Type 0 where
  pub at : (s : S) → P s → P (state_of (m s))

module _ {S A : Type 0} {P : S → Type 0} where
  pub Keeps-pure : (a : A) → Keeps P (pure a)
  Keeps-pure a = record { at = λ s h. h }

  pub Keeps-fail : (e : Fault) → Keeps P (fail {A = A} e)
  Keeps-fail e = record { at = λ s h. h }

  pub Keeps-of_option : (o : Option A) (e : Fault) → Keeps P (of_option o e)
  Keeps-of_option none e = record { at = λ s h. h }
  Keeps-of_option (some a) e = record { at = λ s h. h }

  pub Keeps-if :
      (b : Bool) (m n : Action S A) → Keeps P m → Keeps P n → Keeps P (if b then m else n)
  Keeps-if true m n km kn = km
  Keeps-if false m n km kn = kn

module _ {S : Type 0} {P : S → Type 0} where
  pub Keeps-assert : (b : Bool) → Keeps P (assert b)
  Keeps-assert true = record { at = λ s h. h }
  Keeps-assert false = record { at = λ s h. h }

  pub Keeps-throw_if : (b : Bool) (e : Fault) → Keeps P (throw_if b e)
  Keeps-throw_if true e = record { at = λ s h. h }
  Keeps-throw_if false e = record { at = λ s h. h }

module _ {S A B : Type 0} {P : S → Type 0} where
  pub Keeps-bind :
      (m : Action S A) (f : A → Action S B)
      → Keeps P m
      → ((a : A) → Keeps P (f a))
      → Keeps P (m >>= f)
  Keeps-bind m f km kf = record { at = λ s h. step (m s) (km.at s h) }
    where
      step : (o : Outcome S A) → P (state_of o) → P (state_of (then_do o f))
      step (done a s) h = (kf a).at s h
      step (throw e s) h = h

  pub Keeps-or_return :
      (m : Action S (Status A)) (f : A → Action S (Status B))
      → Keeps P m
      → ((a : A) → Keeps P (f a))
      → Keeps P (or_return m f)
  Keeps-or_return m f km kf = record { at = λ s h. step (m s) (km.at s h) }
    where
      step :
          (o : Outcome S (Status A))
          → P (state_of o)
          → P (state_of (then_do o (λ r. elim r [ ok a ↦ f a | err e ↦ pure (err e) ])))
      step (done (ok a) s) h = (kf a).at s h
      step (done (err e) s) h = h
      step (throw e s) h = h

-- What follows a look at the state may use that it holds of what was seen.
module _ {S A : Type 0} {P : S → Type 0} where
  pub Keeps-get_state :
      (f : S → Action S A) → ((s : S) → P s → Keeps P (f s)) → Keeps P (get_state >>= f)
  Keeps-get_state f k = record { at = λ s h. (k s h).at s h }

module _ {S : Type 0} {P : S → Type 0} where
  pub Keeps-put_state : (t : S) → P t → Keeps P (put_state t)
  Keeps-put_state t k = record { at = λ s h. k }

-- Tests of the state that throw, before an action that may use what they tell.
module _ {S A : Type 0} {P : S → Type 0} where
  pub Keeps-checked :
      (c : S → Bool) (e : Fault) (m : S → Action S A)
      → ((s : S) → c s ≡ false → P s → P (state_of (m s s)))
      → Keeps P (λ s. then_do (throw_if (c s) e s) (λ _. m s))
  Keeps-checked c e m k = record { at = λ s h. step s h (c s) (k s) }
    where
      step :
          (s : S)
          → P s
          → (bad : Bool) → (bad ≡ false → P s → P (state_of (m s s)))
          → P (state_of (then_do (throw_if bad e s) (λ _. m s)))
      step s h true k = h
      step s h false k = k refl h

  pub Keeps-checked_twice :
      (c d : S → Bool) (e e' : Fault) (m : S → Action S A)
      → ((s : S) → c s ≡ false → d s ≡ false → P s → P (state_of (m s s)))
      → Keeps P
          (λ s. then_do (throw_if (c s) e s) (λ _ t. then_do (throw_if (d s) e' t) (λ _. m s)))
  Keeps-checked_twice c d e e' m k = record { at = λ s h. step s h (c s) (d s) (k s) }
    where
      step :
          (s : S)
          → P s
          → (bad worse : Bool) → (bad ≡ false → worse ≡ false → P s → P (state_of (m s s)))
          → P (
              state_of
                (then_do (throw_if bad e s) (λ _ t. then_do (throw_if worse e' t) (λ _. m s))))
      step s h true worse k = h
      step s h false true k = h
      step s h false false k = k refl refl h

pub ruleset keeps_rules = (
  Keeps-pure, Keeps-fail, Keeps-of_option, Keeps-if, Keeps-assert, Keeps-throw_if, Keeps-bind,
  Keeps-or_return,
)

-- `P` holds of the state that a return leaves; of a fault nothing is said.
abbrev pub IfDone : {S A : Type 0} → (S → Type 0) → Outcome S A → Type 0
IfDone P (done a s) = P s
IfDone P (throw e s) = Unit {0}

-- `m` keeps `P` if it returns.
pub record KeepsIfDone {S A : Type 0} (P : S → Type 0) (m : Action S A) : Type 0 where
  pub at : (s : S) → P s → IfDone P (m s)

module _ {S A : Type 0} {P : S → Type 0} where
  pub Keeps-KeepsIfDone : (m : Action S A) → Keeps P m → KeepsIfDone P m
  Keeps-KeepsIfDone m k = record { at = λ s h. at_end (m s) (k.at s h) }
    where
      at_end : (o : Outcome S A) → P (state_of o) → IfDone P o
      at_end (done a t) h = h
      at_end (throw e t) h = tt

module _ {S A B : Type 0} {P : S → Type 0} where
  pub KeepsIfDone-bind :
      (m : Action S A) (f : A → Action S B)
      → KeepsIfDone P m
      → ((a : A) → KeepsIfDone P (f a))
      → KeepsIfDone P (m >>= f)
  KeepsIfDone-bind m f km kf = record { at = λ s h. step (m s) (km.at s h) }
    where
      step : (o : Outcome S A) → IfDone P o → IfDone P (then_do o f)
      step (done a s) h = (kf a).at s h
      step (throw e s) h = tt
