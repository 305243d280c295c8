-- ===== src/Prelude/Results.antt =====
-- `Result<T, E>`.
use mathlib.Core.Path.{◌≡◌, refl}
use mathlib.Core.Bool.{Bool, true, false}
use mathlib.Core.Logic.{◌↔◌, ◌⊎◌, inl, inr}
use keep_afloat_d.Prelude.Tests.{if◌then◌else◌}
use mathlib.Core.Option.{Option, none, some}

pub data Result {ℓ κ} (A : Type ℓ) (E : Type κ) : Type (ℓ ⊔ κ) where
  ok : A → Result A E
  err : E → Result A E

abbrev pub is_ok {ℓ κ} : {A : Type ℓ} {E : Type κ} → Result A E → Bool
is_ok (ok a) = true
is_ok (err e) = false

-- `Option::ok_or`
abbrev pub ok_or {ℓ κ} : {A : Type ℓ} {E : Type κ} → Option A → E → Result A E
ok_or none e = err e
ok_or (some a) e = ok a

abbrev pub and_then {ℓ κ μ} :
    {A : Type ℓ} {B : Type κ} {E : Type μ} → Result A E → (A → Result B E) → Result B E
and_then (ok a) f = f a
and_then (err e) f = err e

-- Inversion of a `?` in a computation that succeeds.
pub and_then-eq-ok {ℓ κ μ} :
    {A : Type ℓ} {B : Type κ} {E : Type μ} (m : Result A E) (f : A → Result B E) {b : B}
    → and_then m f ≡ ok b
    → (a : A) × (m ≡ ok a) × (f a ≡ ok b)
and_then-eq-ok (ok a) f h = (a, refl, h)
and_then-eq-ok (err e) f h = cc

-- Inversion of an early return of an error, in a computation that succeeds.
pub unless-eq-ok {ℓ κ} :
    {A : Type ℓ} {E : Type κ} (t : Bool) (e : E) (m : Result A E) {b : A}
    → (if t then err e else m) ≡ ok b
    → (t ≡ false) × (m ≡ ok b)
unless-eq-ok true e m h = cc
unless-eq-ok false e m h = (refl, h)

-- The same, of a state and a result.
pub refuses-eq-ok {ℓ κ μ} :
    {S : Type μ} {A : Type ℓ} {E : Type κ} (t : Bool) (s s' : S) (e : E) (m : Result A E) {b : A}
    → (if◌then◌else◌ {A = S × Result A E} t (s, err e) (s', m)).1 ≡ ok b
    → (t ≡ false) × (m ≡ ok b)
refuses-eq-ok true s s' e m h = cc
refuses-eq-ok false s s' e m h = (refl, h)

pub Result-cases {ℓ κ} :
    {A : Type ℓ} {E : Type κ} (m : Result A E) → ((e : E) × (m ≡ err e)) ⊎ ((a : A) × (m ≡ ok a))
Result-cases (ok a) = inr (a, refl)
Result-cases (err e) = inl (e, refl)

-- `a == b` by a derived `PartialEq`.
abbrev pub equal {ℓ} : {A : Type ℓ} → Discrete A → A → A → Bool
equal d a b = elim (d a b) [ yes _ ↦ true | no _ ↦ false ]

decided {ℓ} : {P : Type ℓ} (w : Dec P) → ((elim w [ yes _ ↦ true | no _ ↦ false ]) ≡ true) ↔ P
decided (yes h) = (λ e. h, λ e. refl)
decided (no h) = (λ e. cc, λ e. absurd (h e))

pub equal_iff {ℓ} : {A : Type ℓ} (d : Discrete A) (a b : A) → (equal d a b ≡ true) ↔ (a ≡ b)
equal_iff d a b = decided (d a b)
