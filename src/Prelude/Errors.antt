-- ===== src/Prelude/Errors.antt =====
-- A call that may raise: the value that it returns, or the exception.
use Prim.Native.String.{String}
use mathlib.Core.Path.{◌≡◌, refl}
use mathlib.Core.Logic.{◌⊎◌, inl, inr}
use mathlib.Core.Bool.{Bool, true, false, not}
use mathlib.Core.List.{List, [], ◌∷◌}

-- The exception classes that the modelled modules raise.
pub data ErrorClass : Type 0 where
  type_error key_error : ErrorClass
  transaction_state_error rollback_plan_error lifecycle_error queue_error : ErrorClass
  snapshot_error change_policy_error contract_error dispatcher_error approval_state_error :
      ErrorClass
  action_error lab_policy_error assertion_error index_error : ErrorClass

-- The class, what the message is about (a field's name or a path, "" if nothing), and the fixed
-- text of the message.
pub data Error : Type 0 where
  raised : ErrorClass → String → String → Error

-- what a call comes to
pub data Result {ℓ} (Value : Type ℓ) : Type ℓ where
  err : Error → Result Value
  ok : Value → Result Value

module _ {ℓ κ} {Value : Type ℓ} {Next : Type κ} where
  infixl 5 ◌>>=◌
  -- the rest of a body runs on the value, unless the call raised
  abbrev pub ◌>>=◌ : Result Value → (Value → Result Next) → Result Next
  err exception >>= rest = err exception
  ok value >>= rest = rest value

infixl 5 ◌>>◌
abbrev pub ◌>>◌ {κ} : {Next : Type κ} → Result (Unit {0}) → Result Next → Result Next
check >> rest = check >>= λ _. rest

-- `if test: raise e`
abbrev pub raise_if : Bool → Error → Result (Unit {0})
raise_if true e = err e
raise_if false e = ok tt

-- `tuple(check(item) for item in items)`
module _ {ℓ κ} {A : Type ℓ} {B : Type κ} (check : A → Result B) where
  unfoldable pub traverse : List A → Result (List B)
  traverse [] = ok []
  traverse (x ∷ xs) = do y ← check x; ys ← traverse xs; ok (y ∷ ys)

-- `for item in items: check(item)`
module _ {ℓ} {A : Type ℓ} (check : A → Result (Unit {0})) where
  unfoldable pub for_each : List A → Result (Unit {0})
  for_each [] = ok tt
  for_each (x ∷ xs) = do check x; for_each xs

-- A bind that returns: both of its parts did.
pub >>=-eq-ok {ℓ κ} :
    {Value : Type ℓ} {Next : Type κ} (call : Result Value) (rest : Value → Result Next)
    → {last : Next} → (call >>= rest) ≡ ok last
    → (value : Value) × (call ≡ ok value) × (rest value ≡ ok last)
>>=-eq-ok (err exception) rest returned = cc
>>=-eq-ok (ok value) rest returned = (value, refl, returned)

module _ {ℓ} {Value : Type ℓ} where
  -- A call returns or raises.
  pub Result-cases :
      (call : Result Value)
      → ((value : Value) × (call ≡ ok value)) ⊎ ((exception : Error) × (call ≡ err exception))
  Result-cases (err exception) = inr (exception, refl)
  Result-cases (ok value) = inl (value, refl)

pub ok-injective {ℓ} : {A : Type ℓ} {a b : A} → ok a ≡ ok b → a ≡ b
ok-injective h = cc

-- `if not test: raise e` went on: the test holds.
pub raise_if-ok : (b : Bool) (e : Error) {u : Unit {0}} → raise_if (not b) e ≡ ok u → b ≡ true
raise_if-ok true e h = refl
raise_if-ok false e h = cc

-- `if test: raise e` went on: the test fails.
pub raise_unless : (b : Bool) (e : Error) {u : Unit {0}} → raise_if b e ≡ ok u → b ≡ false
raise_unless true e h = cc
raise_unless false e h = refl

abbrev pub error_class : Error → ErrorClass
error_class (raised c name message) = c

-- Whatever a call raises is of one class.
abbrev pub RaisesOnly {ℓ} : {A : Type ℓ} → ErrorClass → Result A → Type ℓ
RaisesOnly c call = (e : Error) → call ≡ err e → error_class e ≡ c

pub ok-RaisesOnly {ℓ} : {A : Type ℓ} (c : ErrorClass) (x : A) → RaisesOnly c (ok x)
ok-RaisesOnly c x e h = cc

pub err-RaisesOnly {ℓ} :
    {A : Type ℓ} (c : ErrorClass) (name message : String)
    → RaisesOnly {A = A} c (err (raised c name message))
err-RaisesOnly c name message (raised d n m) h = cc

pub raise_if-RaisesOnly :
    (c : ErrorClass) (b : Bool) (name message : String)
    → RaisesOnly c (raise_if b (raised c name message))
raise_if-RaisesOnly c true name message = err-RaisesOnly c name message
raise_if-RaisesOnly c false name message = ok-RaisesOnly c tt

module _ {ℓ κ} {Value : Type ℓ} {Next : Type κ} where
  pub bind-RaisesOnly :
      (c : ErrorClass) (call : Result Value) (rest : Value → Result Next)
      → RaisesOnly c call
      → ((value : Value) → call ≡ ok value → RaisesOnly c (rest value))
      → RaisesOnly c (call >>= rest)
  bind-RaisesOnly c (err exception) rest first next e h = first e (cc)
  bind-RaisesOnly c (ok value) rest first next e h = next value refl e h

module _ {ℓ κ} {Value : Type ℓ} {Next : Type κ} where
  pub traverse-RaisesOnly :
      (c : ErrorClass) (check : Value → Result Next)
      → ((x : Value) → RaisesOnly c (check x))
      → (xs : List Value) → RaisesOnly c (traverse check xs)
  unfolding traverse
  traverse-RaisesOnly c check each [] = ok-RaisesOnly c []
  traverse-RaisesOnly c check each (x ∷ xs) = bind-RaisesOnly c (check x) _ (each x) (λ y _.
      bind-RaisesOnly c (traverse check xs) _ (traverse-RaisesOnly c check each xs)
        (λ ys _. ok-RaisesOnly c (y ∷ ys)))
