-- ===== src/Cluster/Hoare/Combined.antt =====
-- What is known of one program from several conclusions: weaker and joint conclusions, partial and total
-- correctness, and single runs.
use mathlib.Core.Path.{subst}
use spot_instance_training_o.Base.{◌≡◌, refl, Option, none, some, ◌⊎◌, inl, inr}
use spot_instance_training_o.Cluster.Events.{Trace}
use spot_instance_training_o.Cluster.Prog.{World, Prog, ask, ◌>>=◌}
use spot_instance_training_o.Cluster.Hoare.Rules.{
  Triple-before, Triple-of, Ensures-ask_of, Ensures-bind, Ensures, Outcome, Post, Triple, Delivers,
  Preserves, Keeps,
}

weaken :
    {W A : Type 0} (Z : Type 0) (Q Q' : A → Trace → Type 0) (o : Option (A × World W))
    → ((a : A) (t : Trace) → Q a t → Q' a t)
    → Outcome Z o Q
    → Outcome Z o Q'
weaken Z Q Q' none f h = h
weaken Z Q Q' (some (a, w)) f h = f a w.trace h

-- A weaker conclusion.
pub Triple-weaken :
    {W A : Type 0} {Z : Type 0} {P : Trace → Type 0} {m : Prog W A} {Q Q' : A → Trace → Type 0}
    → ((a : A) (t : Trace) → Q a t → Q' a t)
    → Triple Z P m Q
    → Triple Z P m Q'
Triple-weaken {Z} {m = m} {Q} {Q'} f h = record { at = λ w p. weaken Z Q Q' (m w) f (h.at w p) }

lifted :
    {W A : Type 0} (Z : Type 0) (Q : A → Trace → Type 0) (o : Option (A × World W))
    → Outcome ⊥ o Q
    → Outcome Z o Q
lifted Z Q none h = absurd h
lifted Z Q (some (a, w)) h = h

-- A run that comes to its end meets whatever a run that does not must meet.
pub Triple-lift :
    {W A : Type 0} {Z : Type 0} {P : Trace → Type 0} {m : Prog W A} {Q : A → Trace → Type 0}
    → Delivers P m Q
    → Triple Z P m Q
Triple-lift {Z} {m = m} {Q} h = record { at = λ w p. lifted Z Q (m w) (h.at w p) }

both :
    {W A : Type 0} (Z : Type 0) (Q Q' : A → Trace → Type 0) (o : Option (A × World W))
    → Outcome Z o Q
    → Outcome Z o Q'
    → Outcome Z o (λ a t. Q a t × Q' a t)
both Z Q Q' none h k = h
both Z Q Q' (some (a, w)) h k = (h, k)

-- Two conclusions at once.
pub Triple-both :
    {W A : Type 0} {Z : Type 0} {P P' : Trace → Type 0} {m : Prog W A} {Q Q' : A → Trace → Type 0}
    → Triple Z P m Q
    → Triple Z P' m Q'
    → Triple Z (λ t. P t × P' t) m (λ a t. Q a t × Q' a t)
Triple-both {Z} {m = m} {Q} {Q'} h k = record {
  at = λ w p. both Z Q Q' (m w) (h.at w p.0) (k.at w p.1);
}

-- A run of which nothing can hold has not come to its end.
pub none-of_Post : {W A : Type 0} (o : Option (A × World W)) → Post o (λ a t. ⊥) → o ≡ none
none-of_Post none h = refl
none-of_Post (some (a, w)) h = absurd h

-- One of two conditions before.
pub Triple-either :
    {W A : Type 0} {Z : Type 0} {P P' : Trace → Type 0} {m : Prog W A} {Q : A → Trace → Type 0}
    → Triple Z P m Q
    → Triple Z P' m Q
    → Triple Z (λ t. P t ⊎ P' t) m Q
Triple-either {Z} {P} {P'} {m} {Q} h k = record { at = λ w p. either w p }
  where
    either : (w : World _) → P w.trace ⊎ P' w.trace → Outcome Z (m w) Q
    either w (inl p) = h.at w p
    either w (inr p) = k.at w p

-- A run that has come to its end.
pub Keeps-run :
    {W A : Type 0} {P : Trace → Type 0} {m : Prog W A} {a : A} {w w' : World W}
    → Keeps P m
    → m w ≡ some (a, w')
    → P w.trace
    → P w'.trace
Keeps-run {P} {w} h run p = subst (λ o. Post o (λ _. P)) run (h.at w p)

-- It comes to its end, whatever has been done before.
abbrev pub Returns : {W A : Type 0} → Prog W A → Type 0
Returns m = Delivers (λ t. Unit {0}) m (λ a t. Unit {0})

ended :
    {W A : Type 0} (Q R : A → Trace → Type 0) (o : Option (A × World W))
    → Outcome ⊥ o Q
    → Outcome (Unit {0}) o R
    → Outcome ⊥ o R
ended Q R none h k = h
ended Q R (some (a, w)) h k = k

module _ {W : Type 0} {Z : Type 0} where
  -- A program that always answers the same, and the rest of it.
  pub Triple-then :
      {A B : Type 0} {R : B → Trace → Type 0} {m : Prog W A} (a : A) (k : A → Prog W B)
      → Triple Z (λ t. Unit) m (λ r t. r ≡ a)
      → Triple Z (λ t. Unit) (k a) R
      → Triple Z (λ t. Unit) (m >>= k) R
  Triple-then a k h next =
      Ensures-bind h (λ r. Triple-of (λ t e. e) (λ e. rw e (Triple-before (λ t e. tt) next)))

  pub Triple-answers :
      {A : Type 0} (f : W → A × W) (a : A)
      → ((s : W) → (f s).0 ≡ a)
      → Triple Z (λ t. Unit) (ask f) (λ r t. r ≡ a)
  Triple-answers f a same = Ensures-ask_of (λ r. r ≡ a) f same (λ r t e p. e)

-- It comes to its end, and meets what it meets if it does.
pub Triple-ended :
    {W A : Type 0} {P : Trace → Type 0} {m : Prog W A} {Q R : A → Trace → Type 0}
    → Delivers P m Q
    → Ensures P m R
    → Delivers P m R
Triple-ended {m = m} {Q} {R} h k = record { at = λ w p. ended Q R (m w) (h.at w p) (k.at w p) }

-- What comes to its end keeps what it keeps if it comes to its end.
pub Keeps-total :
    {W A : Type 0} {P : Trace → Type 0} {m : Prog W A} → Returns m → Keeps P m → Preserves ⊥ P m
Keeps-total h k = Triple-ended (record { at = λ w p. h.at w tt }) k

-- It comes to its end from each world, by a condition that may depend on it.
pub Returns-of :
    {W A : Type 0} {m : Prog W A} (P : World W → Trace → Type 0) (Q : World W → A → Trace → Type 0)
    → ((w : World W) → P w w.trace)
    → ((w : World W) → Delivers (P w) m (Q w))
    → Returns m
Returns-of {m} P Q holds h = record {
  at = λ w _. weaken ⊥ (Q w) (λ a t. Unit) (m w) (λ a t q. tt) ((h w).at w (holds w));
}
