-- ===== src/Prelude/Results.antt =====
-- Results of code that may raise, and the chain of such steps.
use mathlib.Core.Path.{◌≡◌, refl, ap, ◌∙◌}
use mathlib.Core.Bool.{Bool, true, false}
use mathlib.Core.Logic.{◌⊎◌, inl, inr}
use mathlib.Core.Option.{Option, none, some}

-- `err` is a raised exception.
pub data Result (E : Type 0) (A : Type 0) : Type 0 where
  ok : A → Result E A
  err : E → Result E A

-- What follows a step that may raise.
infixl 5 ◌>>=◌ ◌>>◌
abbrev pub ◌>>=◌ : {E A B : Type 0} → Result E A → (A → Result E B) → Result E B
err raised >>= next = err raised
ok value >>= next = next value

abbrev pub ◌>>◌ : {E B : Type 0} → Result E (Unit {0}) → Result E B → Result E B
step >> rest = step >>= λ done. rest

-- `if c: raise e`
abbrev pub raise_if : {E : Type 0} → Bool → E → Result E (Unit {0})
raise_if true e = err e
raise_if false e = ok tt

-- `if x is None: raise e`, and its value otherwise
abbrev pub or_raise : {E A : Type 0} → Option A → E → Result E A
or_raise none e = err e
or_raise (some a) e = ok a

abbrev pub is_some {ℓ} : {A : Type ℓ} → Option A → Bool
is_some none = false
is_some (some _) = true

abbrev pub is_none {ℓ} : {A : Type ℓ} → Option A → Bool
is_none none = true
is_none (some _) = false

-- A computation raises or has a value, whichever way it was made.
pub Result-cases :
    {E A : Type 0} (run : Result E A)
    → ((value : A) × (run ≡ ok value)) ⊎ ((raised : E) × (run ≡ err raised))
Result-cases (err raised) = inr (raised, refl)
Result-cases (ok value) = inl (value, refl)

pub ok-injective :
    {E A : Type 0} (left right : A)
    → (let run : Result E A = ok left in run ≡ ok right)
    → left ≡ right
ok-injective left right same = cc

-- A chain that has a value: its first step had one, and the rest went on from there.
pub >>=-eq-ok :
    {E A B : Type 0} (step : Result E A) (next : A → Result E B) {final : B}
    → (step >>= next) ≡ ok final
    → (middle : A) × (step ≡ ok middle) × (next middle ≡ ok final)
>>=-eq-ok (err raised) next same = cc
>>=-eq-ok (ok middle) next same = (middle, refl, same)

pub or_raise-ok : {E A : Type 0} (m : Option A) (e : E) {a : A} → or_raise m e ≡ ok a → m ≡ some a
or_raise-ok none e h = cc
or_raise-ok (some b) e h = cc

-- Equal steps, and equal continuations of every value.
pub bind_same :
    {E A B : Type 0} (run run' : Result E A) (f g : A → Result E B)
    → run ≡ run'
    → ((a : A) → f a ≡ g a)
    → (run >>= f) ≡ (run' >>= g)
bind_same (ok a) run' f g e h = h a ∙ ap (λ r. r >>= g) e
bind_same (err x) run' f g e h = ap (λ r. r >>= g) e
