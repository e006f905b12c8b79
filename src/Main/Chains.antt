-- ===== src/Main/Chains.antt =====
-- What a chain of steps of main in src/wrk.c comes to, from what its parts come to.
use wrk_offloadenginesupport.Prelude.{
  ◌≡◌, refl, Bool, true, false, Option, none, some, if◌then◌else◌,
}
use wrk_offloadenginesupport.Lua.{
  ◌>>=◌, Result, ok, raised, crashed, broken, unfinished, or_crashed,
}
use wrk_offloadenginesupport.Script.Balance.{Ends}

pub bind-Ends {ℓ κ} :
    {A : Type ℓ} {B : Type κ} (first : A → Type 0) (good : B → Type 0) (r : Result A)
    (k : A → Result B)
    → Ends first r
    → ((a : A) → first a → Ends good (k a))
    → Ends good (r >>= k)
bind-Ends first good (ok a) k e q = q a e
bind-Ends first good raised k e q = tt
bind-Ends first good crashed k e q = tt
bind-Ends first good broken k e q = absurd e
bind-Ends first good unfinished k e q = absurd e

pub or_crashed_any {ℓ} : {A : Type ℓ} (o : Option A) → Ends (λ a. Unit {0}) (or_crashed o)
or_crashed_any none = tt
or_crashed_any (some a) = tt

pub or_crashed-Ends : {A : Type 0} (out : Option A) → Ends (λ a. out ≡ some a) (or_crashed out)
or_crashed-Ends none = tt
or_crashed-Ends (some a) = refl

-- The result of a piece is the one it has given.
pub known-Ends :
    {A : Type 0} (good : A → Type 0) (r : Result A)
    → Ends good r
    → Ends (λ a. (r ≡ ok a) × good a) r
known-Ends good (ok a) e = (refl, e)
known-Ends good raised e = tt
known-Ends good crashed e = tt
known-Ends good broken e = absurd e
known-Ends good unfinished e = absurd e

-- Where a part of main leads to a good end, so does main.
pub choose-Ends :
    {A B : Type 0} (good : B → Type 0) (r : Result A) (k : A → Result B)
    → Ends (λ a. Unit {0}) r
    → ((a : A) → r ≡ ok a → Ends good (k a))
    → Ends good (r >>= k)
choose-Ends good r k e q =
    bind-Ends (λ a. (r ≡ ok a) × Unit {0}) good r k (known-Ends (λ a. Unit {0}) r e)
      (λ a x. q a x.0)

pub if-Ends :
    {A : Type 0} (b : Bool) (r s : Result A)
    → Ends (λ a. Unit {0}) r
    → Ends (λ a. Unit {0}) s
    → Ends (λ a. Unit {0}) (if b then r else s)
if-Ends true r s e f = e
if-Ends false r s e f = f

pub or_crashed_same : {A : Type 0} (out : Option A) (a : A) → or_crashed out ≡ ok a → out ≡ some a
or_crashed_same none a e = absurd (cc)
or_crashed_same (some b) a e = cc

pub reported-Ends :
    {B : Type 0} (good better : B → Type 0) (r : Result B)
    → ((b : B) → good b → better b)
    → Ends good r
    → Ends better r
reported-Ends good better (ok b) imp e = imp b e
reported-Ends good better raised imp e = tt
reported-Ends good better crashed imp e = tt
reported-Ends good better broken imp e = absurd e
reported-Ends good better unfinished imp e = absurd e
