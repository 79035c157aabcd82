-- ===== src/Dns/Loader.antt =====
-- src/inspect/dns.cpp: the steps DNS_Packet::load is made of, which read the source buffer and
-- change the packet, and what holds at their end.
use smithproxy.Base.{◌≡◌}
use smithproxy.Base.Outcome.{Outcome, value, throws, Exception, out_of_range, Safely}
use smithproxy.Dns.{Packet}

-- How a step ends, with the packet as it is then: with a value, or by an exception. `lost` is
-- undefined behaviour, `starved` a loop that the fuel does not suffice for.
pub data Ending {ℓ} (A : Type ℓ) : Type ℓ where
  done : A → Packet → Ending A
  raised : Exception → Packet → Ending A
  lost starved : Ending A

abbrev pub Loader {ℓ} : Type ℓ → Type ℓ
Loader A = Packet → Ending A

-- What follows a step.
abbrev pub follow {ℓ κ} : {A : Type ℓ} {B : Type κ} → Ending A → (A → Loader B) → Ending B
follow (done a p) f = f a p
follow (raised e p) f = raised e p
follow lost f = lost
follow starved f = starved

infixl 5 ◌>>=◌
abbrev pub ◌>>=◌ {ℓ κ} : {A : Type ℓ} {B : Type κ} → Loader A → (A → Loader B) → Loader B
(m >>= f) p = follow (m p) f

abbrev pub pure {ℓ} : {A : Type ℓ} → A → Loader A
pure a p = done a p

abbrev pub out_of_fuel {ℓ} : {A : Type ℓ} → Loader A
out_of_fuel p = starved

-- A read, which leaves the packet as it is.
abbrev pub reads {ℓ} : {A : Type ℓ} → Outcome A → Loader A
reads (value a) p = done a p
reads (throws e) p = raised e p
reads Outcome.undefined p = lost

abbrev pub updates : (Packet → Packet) → Loader (Unit {0})
updates f p = done tt (f p)

-- The step ends, with a value of which P holds or by std::out_of_range.
abbrev pub Returns {ℓ} : {A : Type ℓ} → (A → Packet → Type 0) → Ending A → Type 0
Returns P (done a p) = P a p
Returns P (raised e p) = e ≡ out_of_range
Returns P lost = ⊥
Returns P starved = ⊥

pub Returns-follow {ℓ κ} :
    {A : Type ℓ} {B : Type κ} (P : A → Packet → Type 0) (Q : B → Packet → Type 0) (m : Ending A)
    (f : A → Loader B)
    → Returns P m
    → ((a : A) (p : Packet) → P a p → Returns Q (f a p))
    → Returns Q (follow m f)
Returns-follow P Q (done a p) f h k = k a p h
Returns-follow P Q (raised e p) f h k = h
Returns-follow P Q lost f h k = elim h [ ]
Returns-follow P Q starved f h k = elim h [ ]

-- What a read shows, the step that makes it shows.
pub Returns-reads {ℓ κ} :
    {A : Type ℓ} {B : Type κ} (C : A → Type 0) (Q : B → Packet → Type 0) (m : Outcome A)
    (f : A → Loader B) (p : Packet)
    → Safely C m
    → ((a : A) → C a → Returns Q (f a p))
    → Returns Q (follow (reads m p) f)
Returns-reads C Q (value a) f p h k = k a h
Returns-reads C Q (throws e) f p h k = h
Returns-reads C Q Outcome.undefined f p h k = elim h [ ]

pub Returns-weaken {ℓ} :
    {A : Type ℓ} (P Q : A → Packet → Type 0) (m : Ending A)
    → Returns P m
    → ((a : A) (p : Packet) → P a p → Q a p)
    → Returns Q m
Returns-weaken P Q (done a p) h k = k a p h
Returns-weaken P Q (raised e p) h k = h
Returns-weaken P Q lost h k = elim h [ ]
Returns-weaken P Q starved h k = elim h [ ]
