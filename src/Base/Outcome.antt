-- ===== src/Base/Outcome.antt =====
-- How a C++ call ends: with a value, by an exception, or in undefined behaviour (a null pointer
-- that is followed, a read past an array).
use mathlib.Core.Path.{subst}
use smithproxy.Base.{◌≡◌, refl, Bool, true, false}

pub data Exception : Type 0 where
  out_of_range logic_error invalid_argument : Exception

pub data Outcome {ℓ} (A : Type ℓ) : Type ℓ where
  value : A → Outcome A
  throws : Exception → Outcome A
  undefined : Outcome A

infixl 5 ◌>>=◌
abbrev pub ◌>>=◌ {ℓ κ} : {A : Type ℓ} {B : Type κ} → Outcome A → (A → Outcome B) → Outcome B
value a >>= f = f a
throws e >>= f = throws e
undefined >>= f = undefined

-- A chain of tests that stops at the first one that fails.
infixr 35 ◌and_then◌
abbrev pub ◌and_then◌ : Outcome Bool → Outcome Bool → Outcome Bool
value true and_then n = n
value false and_then n = value false
throws e and_then n = throws e
undefined and_then n = undefined

pub >>=-eq-value {ℓ κ} :
    {A : Type ℓ} {B : Type κ} (m : Outcome A) (f : A → Outcome B) {b : B}
    → (m >>= f) ≡ value b
    → (a : A) × (m ≡ value a) × (f a ≡ value b)
>>=-eq-value (value a) f h = (a, refl, h)
>>=-eq-value (throws e) f h = cc
>>=-eq-value undefined f h = cc

-- What holds of the value of a call that ends with one.
abbrev pub Ends {ℓ} : {A : Type ℓ} → (A → Type 0) → Outcome A → Type 0
Ends P (value a) = P a
Ends P (throws e) = Unit {0}
Ends P undefined = Unit {0}

pub Ends->>= {ℓ κ} :
    {A : Type ℓ} {B : Type κ} (P : A → Type 0) (Q : B → Type 0) (m : Outcome A) (f : A → Outcome B)
    → Ends P m
    → ((a : A) → P a → Ends Q (f a))
    → Ends Q (m >>= f)
Ends->>= P Q (value a) f h k = k a h
Ends->>= P Q (throws e) f h k = tt
Ends->>= P Q undefined f h k = tt

pub Ends-any {ℓ} : {A : Type ℓ} (m : Outcome A) → Ends (λ x. Unit {0}) m
Ends-any (value a) = tt
Ends-any (throws e) = tt
Ends-any undefined = tt

pub Ends-self : {A : Type 0} (m : Outcome A) → Ends (λ a. m ≡ value a) m
Ends-self (value a) = refl
Ends-self (throws e) = tt
Ends-self undefined = tt

pub Ends-value {ℓ} :
    {A : Type ℓ} (P : A → Type 0) (m : Outcome A) {a : A} → Ends P m → m ≡ value a → P a
Ends-value P m h e = subst (Ends P) e h

pub Ends-weaken {ℓ} :
    {A : Type ℓ} (P Q : A → Type 0) (m : Outcome A) → Ends P m → ((a : A) → P a → Q a) → Ends Q m
Ends-weaken P Q (value a) h k = k a h
Ends-weaken P Q (throws e) h k = tt
Ends-weaken P Q undefined h k = tt

-- A call that has defined behaviour, ends with a value of which P holds, or throws out_of_range.
abbrev pub Safely {ℓ} : {A : Type ℓ} → (A → Type 0) → Outcome A → Type 0
Safely P (value a) = P a
Safely P (throws e) = e ≡ out_of_range
Safely P undefined = ⊥

pub Safely->>= {ℓ κ} :
    {A : Type ℓ} {B : Type κ} (P : A → Type 0) (Q : B → Type 0) (m : Outcome A) (f : A → Outcome B)
    → Safely P m
    → ((a : A) → P a → Safely Q (f a))
    → Safely Q (m >>= f)
Safely->>= P Q (value a) f h k = k a h
Safely->>= P Q (throws e) f h k = h
Safely->>= P Q undefined f h k = elim h [ ]

-- A call that ends with a value of which P holds.
abbrev pub Yields {ℓ} : {A : Type ℓ} → (A → Type 0) → Outcome A → Type 0
Yields P (value a) = P a
Yields P (throws e) = ⊥
Yields P undefined = ⊥

pub Yields->>= {ℓ κ} :
    {A : Type ℓ} {B : Type κ} (P : A → Type 0) (Q : B → Type 0) (m : Outcome A) (f : A → Outcome B)
    → Yields P m
    → ((a : A) → P a → Yields Q (f a))
    → Yields Q (m >>= f)
Yields->>= P Q (value a) f h k = k a h
Yields->>= P Q (throws e) f h k = elim h [ ]
Yields->>= P Q undefined f h k = elim h [ ]

pub Yields-value {ℓ} :
    {A : Type ℓ} (P : A → Type 0) (m : Outcome A) → Yields P m → (a : A) × (m ≡ value a) × P a
Yields-value P (value a) h = (a, refl, h)
Yields-value P (throws e) h = elim h [ ]
Yields-value P undefined h = elim h [ ]

pub Yields-weaken {ℓ} :
    {A : Type ℓ} (P Q : A → Type 0) (m : Outcome A)
    → Yields P m
    → ((a : A) → P a → Q a)
    → Yields Q m
Yields-weaken P Q (value a) h k = k a h
Yields-weaken P Q (throws e) h k = elim h [ ]
Yields-weaken P Q undefined h k = elim h [ ]
