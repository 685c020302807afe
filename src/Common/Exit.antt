-- ===== src/Common/Exit.antt =====
-- Code that may return early: the state that it leaves behind is kept on both ways out.

pub data Outcome (S A : Type 0) : Type 0 where
  done : A → S → Outcome S A
  exit : S → Outcome S A

abbrev pub Code : Type 0 → Type 0 → Type 0
Code S A = S → Outcome S A

module _ {S A B : Type 0} where
  abbrev pub and_then : Outcome S A → (A → Code S B) → Outcome S B
  and_then (done a s) k = k a s
  and_then (exit s) k = exit s

  infixl 5 ◌>>=◌
  abbrev pub ◌>>=◌ : Code S A → (A → Code S B) → Code S B
  m >>= k = λ s. and_then (m s) k

infixl 5 ◌>>◌
abbrev pub ◌>>◌ : {S B : Type 0} → Code S (Unit {0}) → Code S B → Code S B
m >> k = m >>= λ _. k

abbrev pub give : {S A : Type 0} → A → Code S A
give a s = done a s

abbrev pub modify : {S : Type 0} → (S → S) → Code S (Unit {0})
modify f s = done tt (f s)

-- The state on either way out.
abbrev pub state_of : {S A : Type 0} → Outcome S A → S
state_of (done a s) = s
state_of (exit s) = s

-- What holds of an outcome: one claim for a normal end, one for an early return.
abbrev pub Ends : {S A : Type 0} → (A → S → Type 0) → (S → Type 0) → Outcome S A → Type 0
Ends Q E (done a s) = Q a s
Ends Q E (exit s) = E s

-- The claim that promises nothing.
abbrev pub Left : {S : Type 0} → S → Type 0
Left s = Unit {0}

pub Ends-and_then :
    {S A B : Type 0} (Q : A → S → Type 0) (R : B → S → Type 0) (E : S → Type 0) (o : Outcome S A)
    (k : A → Code S B)
    → Ends Q E o
    → ((a : A) (s : S) → Q a s → Ends R E (k a s))
    → Ends R E (and_then o k)
Ends-and_then Q R E (done a s) k h next = next a s h
Ends-and_then Q R E (exit s) k h next = h

-- The claims may be weakened.
pub Ends-mono :
    {S A : Type 0} (Q Q' : A → S → Type 0) (E E' : S → Type 0) (o : Outcome S A)
    → Ends Q E o
    → ((a : A) (s : S) → Q a s → Q' a s)
    → ((s : S) → E s → E' s)
    → Ends Q' E' o
Ends-mono Q Q' E E' (done a s) h f g = f a s h
Ends-mono Q Q' E E' (exit s) h f g = g s h
