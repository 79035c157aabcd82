-- ===== src/Base/Decides.antt =====
-- A call that returns a Boolean and that decides a statement: it ends with a value, and with the
-- right one.
use smithproxy.Base.{◌≡◌, refl, ◌↔◌, ◌⊎◌, inl, inr, Bool, true, false, if◌then◌else◌}
use smithproxy.Base.Outcome.{Outcome, value, ◌>>=◌, ◌and_then◌}

pub data Decides (m : Outcome Bool) (P : Type 0) : Type 0 where
  holds : m ≡ value true → P → Decides m P
  fails : m ≡ value false → ¬ P → Decides m P

pub Decides-value : (b : Bool) {P : Type 0} → (b ≡ true) ↔ P → Decides (value b) P
Decides-value true h = holds refl (h.0 refl)
Decides-value false h = fails refl (λ p. cc (h.1 p))

pub Decides-iff : {m : Outcome Bool} {P Q : Type 0} → P ↔ Q → Decides m P → Decides m Q
Decides-iff e (holds h p) = holds h (e.0 p)
Decides-iff e (fails h n) = fails h (λ q. n (e.1 q))

pub Decides-and_then :
    {m n : Outcome Bool} {P Q : Type 0} → Decides m P → Decides n Q → Decides (m and_then n) (P × Q)
Decides-and_then (holds h p) (holds k q) = holds (rw h k) (p, q)
Decides-and_then (holds h p) (fails k nq) = fails (rw h k) (λ t. nq t.1)
Decides-and_then (fails h np) d = fails (rw h refl) (λ t. np t.0)

-- A loop's round that returns true at once, or goes on.
pub Decides-or_else :
    {m n : Outcome Bool} {P Q : Type 0}
    → Decides m P
    → Decides n Q
    → Decides (m >>= λ b. if b then value true else n) (P ⊎ Q)
Decides-or_else (holds h p) d = holds (rw h refl) (inl p)
Decides-or_else (fails h np) (holds k q) = holds (rw h k) (inr q)
Decides-or_else (fails h np) (fails k nq) =
    fails (rw h k) λ t. elim t [ inl p ↦ np p | inr q ↦ nq q ]

pub Decides-true : {m : Outcome Bool} {P : Type 0} → Decides m P → m ≡ value true → P
Decides-true (holds h p) e = p
Decides-true (fails h np) e = cc

pub Decides-false : {m : Outcome Bool} {P : Type 0} → Decides m P → m ≡ value false → ¬ P
Decides-false (holds h p) e = λ _. cc
Decides-false (fails h np) e = np
