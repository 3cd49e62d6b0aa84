-- ===== src/Prelude/Raise.antt =====
-- A call that may raise.
use mathlib.Core.Path.{◌≡◌, refl}
use mathlib.Core.Bool.{Bool, true, false, ◌&&◌}
use mathlib.Core.Logic.{◌⊎◌, ◌↔◌, inl, inr}

pub data Result {ℓ κ} (E : Type ℓ) (A : Type κ) : Type (ℓ ⊔ κ) where
  ok : A → Result E A
  err : E → Result E A

infixl 5 ◌>>=◌ ◌>>◌
abbrev pub ◌>>=◌ {ℓ κ μ} :
    {E : Type ℓ} {A : Type κ} {B : Type μ} → Result E A → (A → Result E B) → Result E B
ok a >>= f = f a
err e >>= f = err e

abbrev pub ◌>>◌ {ℓ κ} : {E : Type ℓ} {B : Type κ} → Result E (Unit {0}) → Result E B → Result E B
m >> k = m >>= λ _. k

-- `if not test: raise e`
abbrev pub guard {ℓ} : {E : Type ℓ} → Bool → E → Result E (Unit {0})
guard true e = ok tt
guard false e = err e

pub Result-cases {ℓ κ} :
    {E : Type ℓ} {A : Type κ} (r : Result E A) → ((a : A) × (r ≡ ok a)) ⊎ ((e : E) × (r ≡ err e))
Result-cases (ok a) = inl (a, refl)
Result-cases (err e) = inr (e, refl)

pub bind_ok {ℓ κ μ} :
    {E : Type ℓ} {A : Type κ} {B : Type μ} (r : Result E A) (f : A → Result E B) {b : B}
    → (r >>= f) ≡ ok b
    → (a : A) × (r ≡ ok a) × (f a ≡ ok b)
bind_ok (ok a) f h = (a, refl, h)
bind_ok (err e) f h = absurd (cc h)

pub guard_ok {ℓ} : {E : Type ℓ} (b : Bool) (e : E) {u : Unit {0}} → guard b e ≡ ok u → b ≡ true
guard_ok true e h = refl
guard_ok false e h = absurd (cc h)

-- what a chain that goes through says of a test at its head
pub guard_then {ℓ κ} :
    {E : Type ℓ} {B : Type κ} (b : Bool) (e : E) (k : Result E B) {c : B}
    → (guard b e >> k) ≡ ok c
    → (b ≡ true) × (k ≡ ok c)
guard_then true e k h = (refl, h)
guard_then false e k h = absurd (cc h)

pub ok_unique {ℓ κ} :
    {E : Type ℓ} {A : Type κ} (r : Result E A) {x y : A} → r ≡ ok x → r ≡ ok y → x ≡ y
ok_unique r h k = cc

-- the call raises nothing
abbrev pub accepts {ℓ κ} : {E : Type ℓ} {A : Type κ} → Result E A → Bool
accepts (ok a) = true
accepts (err e) = false

pub accepts_iff {ℓ} : {E : Type ℓ} (r : Result E (Unit {0})) → (accepts r ≡ true) ↔ (r ≡ ok tt)
accepts_iff (ok u) = (λ h. refl, λ h. refl)
accepts_iff (err e) = (λ h. cc, λ h. cc)

pub accepts-guard {ℓ κ} :
    {E : Type ℓ} {B : Type κ} (b : Bool) (e : E) (k : Result E B)
    → accepts (guard b e >> k) ≡ (b && accepts k)
accepts-guard true e k = refl
accepts-guard false e k = refl

pub accepts-then {ℓ κ} :
    {E : Type ℓ} {B : Type κ} (r : Result E (Unit {0})) (k : Result E B)
    → accepts (r >> k) ≡ (accepts r && accepts k)
accepts-then (ok u) k = refl
accepts-then (err e) k = refl

-- The call returns the value when the test passes, and otherwise raises.
abbrev pub Decides {ℓ κ} : {E : Type ℓ} {A : Type κ} → Bool → Result E A → A → Type (ℓ ⊔ κ)
Decides {A = A} b r v = (b ≡ true → r ≡ ok v) × ((w : A) → r ≡ ok w → b ≡ true)

pub Decides-bind {ℓ κ μ} :
    {E : Type ℓ} {A : Type κ} {B : Type μ} (b c : Bool) (r : Result E A) (f : A → Result E B)
    {v : A} {w : B}
    → Decides b r v
    → Decides c (f v) w
    → Decides (b && c) (r >>= f) w
Decides-bind true c r f h k = rw (h.0 refl) k
Decides-bind false c r f h k = (λ e. cc, λ w e. h.1 _ (bind_ok r f e).1)

pub Decides-guard {ℓ κ} :
    {E : Type ℓ} {B : Type κ} (b c : Bool) (e : E) (k : Result E B) {w : B}
    → Decides c k w
    → Decides (b && c) (guard b e >> k) w
Decides-guard true c e k h = h
Decides-guard false c e k h = (λ e. cc, λ w e. cc)

pub Decides-unit {ℓ} :
    {E : Type ℓ} (b : Bool) (r : Result E (Unit {0})) → (r ≡ ok tt) ↔ (b ≡ true) → Decides b r tt
Decides-unit b r h = (h.1, λ w e. h.0 e)

pub Decides-same {ℓ κ} :
    {E : Type ℓ} {A : Type κ} {b c : Bool} (r : Result E A) {v w : A}
    → b ≡ c
    → v ≡ w
    → Decides b r v
    → Decides c r w
Decides-same r e k h = (λ t. cc (h.0 (cc (e, t)), k), λ u t. cc (h.1 u t, e))
