-- ===== src/Common/Results.antt =====
-- What a run of kernel code comes to: a value, or the fault that stops it.
use mathlib.Core.Path.{◌≡◌, refl}
use mathlib.Core.Logic.{◌⊎◌, inl, inr}
use mathlib.Core.Option.{Option, none, some}
use mathlib.Core.Bool.{Bool, true, false}
use ow_os.Common.Tests.{if◌then◌else◌}

-- `null_deref`: a member access through a null pointer. `assert_failed`: `assert` of
-- src/kernel/include/libk/kcassert.hpp, which panics. `panicked`: a call of `panic`. `out_of_bounds`: an access past an array.
-- `out_of_fuel`: the model's bound on the rounds of a loop is used up.
pub data Fault : Type 0 where
  null_deref assert_failed panicked out_of_bounds out_of_fuel : Fault

pub data Result {κ} (X : Type κ) : Type κ where
  ok : X → Result X
  err : Fault → Result X

pub Result-cases {κ} :
    {X : Type κ} (run : Result X) → ((x : X) × (run ≡ ok x)) ⊎ ((why : Fault) × (run ≡ err why))
Result-cases (ok x) = inl (x, refl)
Result-cases (err why) = inr (why, refl)

-- A read of an array element, and of anything else that may not be there.
abbrev pub or_fault {κ} : {X : Type κ} → Option X → Fault → Result X
or_fault (some x) why = ok x
or_fault none why = err why

abbrev pub assert : Bool → Result (Unit {0})
assert false = err assert_failed
assert true = ok tt

infixl 5 ◌>>=◌
infixl 5 ◌>>◌
-- The next steps run on the value of the first.
abbrev pub ◌>>=◌ {κ μ} : {X : Type κ} {Y : Type μ} (run : Result X) (next : X → Result Y) → Result Y
err why >>= next = err why
ok x >>= next = next x

abbrev pub ◌>>◌ {μ} : {Y : Type μ} (check : Result (Unit {0})) (next : Result Y) → Result Y
check >> next = check >>= (λ _. next)

-- Both parts of steps that came to a value did so.
pub >>=-eq-ok {κ μ} :
    {X : Type κ} {Y : Type μ} {y : Y} (run : Result X) (next : X → Result Y)
    → (run >>= next) ≡ ok y
    → (x : X) × (run ≡ ok x) × (next x ≡ ok y)
>>=-eq-ok (err why) next both = cc
>>=-eq-ok (ok x) next both = (x, refl, both)

-- The steps come to a value, and the value is as said.
abbrev pub Returns : {A : Type 0} → (A → Type 0) → Result A → Type 0
Returns P (ok a) = P a
Returns P (err why) = ⊥

pub Returns->>= :
    {A B : Type 0} (P : A → Type 0) (Q : B → Type 0) (run : Result A) (next : A → Result B)
    → Returns P run
    → ((a : A) → P a → Returns Q (next a))
    → Returns Q (run >>= next)
Returns->>= P Q (ok a) next r f = f a r
Returns->>= P Q (err why) next r f = absurd r

pub Returns-if :
    {A : Type 0} (P : A → Type 0) (test : Bool) (one two : Result A)
    → (test ≡ true → Returns P one)
    → (test ≡ false → Returns P two)
    → Returns P (if test then one else two)
Returns-if P true one two f g = f refl
Returns-if P false one two f g = g refl

-- The value that the steps come to.
pub returned :
    {A : Type 0} (P : A → Type 0) (run : Result A) → Returns P run → (a : A) × (run ≡ ok a) × P a
returned P (ok a) r = (a, refl, r)
returned P (err why) r = absurd r
