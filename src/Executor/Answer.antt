-- ===== src/Executor/Answer.antt =====
-- Calls that may fail: results with a property, or failures where one may happen.
use runner_orchestrator.Base.{◌≡◌, Bool, false, ◌&&◌, Option, none, some, arith}
use runner_orchestrator.Executor.{◌>>=◌}

-- A result with the property, or a failure where a call may fail.
abbrev pub Answer : {A : Type 0} → Bool → (A → Type 0) → Option A → Type 0
Answer ok P none = ok ≡ false
Answer ok P (some a) = P a

pub Answer-later :
    {A : Type 0} (P : A → Type 0) (ok ok' : Bool) (m : Option A)
    → Answer ok' P m
    → Answer (ok && ok') P m
Answer-later P ok ok' none e = ground (arith, e)
Answer-later P ok ok' (some a) p = p

pub Answer-bind :
    {A B : Type 0} (P : A → Type 0) (Q : B → Type 0) (ok ok' : Bool) (m : Option A)
    (k : A → Option B)
    → Answer ok P m
    → ((a : A) → P a → Answer ok' Q (k a))
    → Answer (ok && ok') Q (m >>= k)
Answer-bind P Q ok ok' none k e next = ground (arith, e)
Answer-bind P Q ok ok' (some a) k p next = Answer-later Q ok ok' (k a) (next a p)

pub Answer-mono :
    {A : Type 0} (P Q : A → Type 0) (ok : Bool) (m : Option A)
    → Answer ok P m
    → ((a : A) → P a → Q a)
    → Answer ok Q m
Answer-mono P Q ok none e next = e
Answer-mono P Q ok (some a) p next = next a p

pub Answer-map :
    {A B : Type 0} (P : A → Type 0) (Q : B → Type 0) (ok : Bool) (m : Option A) (f : A → B)
    → Answer ok P m
    → ((a : A) → P a → Q (f a))
    → Answer ok Q (m >>= λ a. some (f a))
Answer-map P Q ok none f e next = e
Answer-map P Q ok (some a) f p next = next a p
