-- ===== src/Cluster/Hoare/Rules.antt =====
-- Pre- and postconditions of programs over the trace, one rule for each way to build a program. What
-- the surroundings answer is arbitrary in every rule.
use spot_instance_training_o.Base.{◌≡◌, refl, Bool, true, false, Option, none, some, ◌∷◌}
use spot_instance_training_o.Cluster.Events.{Event, Trace}
use spot_instance_training_o.Cluster.Prog.{World, Prog, pure, stuck, branch, ◌>>=◌, ask, act}

-- `Q` holds of the answer and the trace. `Z` is what a run that has not come to its end must meet.
abbrev pub Outcome : {W A : Type 0} → Type 0 → Option (A × World W) → (A → Trace → Type 0) → Type 0
Outcome Z none Q = Z
Outcome Z (some (a, w)) Q = Q a w.trace

-- Partial correctness: of a run that has not come to its end nothing is said.
abbrev pub Post : {W A : Type 0} → Option (A × World W) → (A → Trace → Type 0) → Type 0
Post = Outcome (Unit {0})

-- Total correctness: the run comes to its end.
abbrev pub Yields : {W A : Type 0} → Option (A × World W) → (A → Trace → Type 0) → Type 0
Yields = Outcome ⊥

pub record Triple {W A : Type 0} (Z : Type 0) (P : Trace → Type 0) (m : Prog W A)
    (Q : A → Trace → Type 0) : Type 0 where
  pub at : (w : World W) → P w.trace → Outcome Z (m w) Q

abbrev pub Ensures : {W A : Type 0} → (Trace → Type 0) → Prog W A → (A → Trace → Type 0) → Type 0
Ensures = Triple (Unit {0})

abbrev pub Delivers : {W A : Type 0} → (Trace → Type 0) → Prog W A → (A → Trace → Type 0) → Type 0
Delivers = Triple ⊥

-- `m` keeps `P`, whatever it answers.
abbrev pub Preserves : {W A : Type 0} → Type 0 → (Trace → Type 0) → Prog W A → Type 0
Preserves Z P m = Triple Z P m (λ _. P)

abbrev pub Keeps : {W A : Type 0} → (Trace → Type 0) → Prog W A → Type 0
Keeps = Preserves (Unit {0})

module _ {W A : Type 0} {P : Trace → Type 0} {Q : A → Trace → Type 0} where
  pub Ensures-stuck : Ensures P (stuck {W = W} {A = A}) Q
  unfolding stuck
  Ensures-stuck = record { at = λ w p. tt }

module _ {W A : Type 0} {Z : Type 0} {P : Trace → Type 0} {Q : A → Trace → Type 0} where
  pub Ensures-pure : (a : A) → ((t : Trace) → P t → Q a t) → Triple Z P (pure {W = W} a) Q
  unfolding pure
  Ensures-pure a h = record { at = λ w p. h w.trace p }

  pub Ensures-ask : (f : W → A × W) → ((a : A) (t : Trace) → P t → Q a t) → Triple Z P (ask f) Q
  unfolding ask
  Ensures-ask f h = record { at = λ w p. h (f w.state).0 w.trace p }

  pub Ensures-act :
      (f : W → A × W) (event : A → Event)
      → ((a : A) (t : Trace) → P t → Q a (event a ∷ t))
      → Triple Z P (act f event) Q
  unfolding act
  Ensures-act f event h = record { at = λ w p. h (f w.state).0 w.trace p }

  -- What is known of the answer may be used.
  pub Ensures-act_of :
      (φ : A → Type 0) (f : W → A × W) (event : A → Event)
      → ((s : W) → φ (f s).0)
      → ((a : A) (t : Trace) → φ a → P t → Q a (event a ∷ t))
      → Triple Z P (act f event) Q
  unfolding act
  Ensures-act_of φ f event known h = record {
    at = λ w p. h (f w.state).0 w.trace (known w.state) p;
  }

  pub Ensures-ask_of :
      (φ : A → Type 0) (f : W → A × W)
      → ((s : W) → φ (f s).0)
      → ((a : A) (t : Trace) → φ a → P t → Q a t)
      → Triple Z P (ask f) Q
  unfolding ask
  Ensures-ask_of φ f known h = record { at = λ w p. h (f w.state).0 w.trace (known w.state) p }

  -- What the condition before says apart from the trace may be used.
  pub Triple-of :
      {K : Type 0} {m : Prog W A} → ((t : Trace) → P t → K) → (K → Triple Z P m Q) → Triple Z P m Q
  Triple-of get h = record { at = λ w p. (h (get w.trace p)).at w p }

  -- A place that is never reached.
  pub Ensures-absurd : (m : Prog W A) → ((t : Trace) → P t → ⊥) → Triple Z P m Q
  Ensures-absurd m h = record { at = λ w p. absurd (h w.trace p) }

  -- Each branch may use how its test came out.
  pub Ensures-branch :
      {b : Bool} {m n : Prog W A}
      → (b ≡ true → Triple Z P m Q)
      → (b ≡ false → Triple Z P n Q)
      → Triple Z P (branch b m n) Q
  unfolding branch
  Ensures-branch {b = true} hm hn = hm refl
  Ensures-branch {b = false} hm hn = hn refl

Outcome-bind :
    {W A B : Type 0} (Z : Type 0) (Q : A → Trace → Type 0) (R : B → Trace → Type 0)
    (f : A → Prog W B) (o : Option (A × World W))
    → Outcome Z o Q
    → ((a : A) → Triple Z (Q a) (f a) R)
    → Outcome Z (elim o [ none ↦ none | some (a, w) ↦ f a w ]) R
Outcome-bind Z Q R f none h k = h
Outcome-bind Z Q R f (some (a, w)) h k = (k a).at w h

-- A stronger condition before.
pub Triple-before :
    {W A : Type 0} {Z : Type 0} {P P' : Trace → Type 0} {m : Prog W A} {Q : A → Trace → Type 0}
    → ((t : Trace) → P' t → P t)
    → Triple Z P m Q
    → Triple Z P' m Q
Triple-before f h = record { at = λ w p. h.at w (f w.trace p) }

module _ {W A B : Type 0} {Z : Type 0} {P : Trace → Type 0} {R : B → Trace → Type 0} where
  -- The rest of the program may use what the first part ensures.
  pub Ensures-bind :
      {Q : A → Trace → Type 0} {m : Prog W A} {f : A → Prog W B}
      → Triple Z P m Q
      → ((a : A) → Triple Z (Q a) (f a) R)
      → Triple Z P (m >>= f) R
  unfolding ◌>>=◌
  Ensures-bind {Q} {m} {f} h k = record { at = λ w p. Outcome-bind Z Q R f (m w) (h.at w p) k }

  -- What is known of the answer apart from the trace may be used by the rest.
  pub Ensures-known :
      {m : Prog W A} {f : A → Prog W B} (φ : A → Type 0)
      → Triple Z P m (λ a t. φ a × P t)
      → ((a : A) → φ a → Triple Z P (f a) R)
      → Triple Z P (m >>= f) R
  Ensures-known φ h k =
      Ensures-bind h (λ a. Triple-of (λ t p. p.0) (λ known. Triple-before (λ t p. p.1) (k a known)))

  pub Keeps-then :
      {m : Prog W A} {f : A → Prog W B}
      → Triple Z P m (λ _. P)
      → ((a : A) → Triple Z P (f a) R)
      → Triple Z P (m >>= f) R
  Keeps-then h k = Ensures-bind h k

module _ {W A : Type 0} {Z : Type 0} {P : Trace → Type 0} where
  pub Keeps-pure : (a : A) → Triple Z P (pure {W = W} a) (λ _. P)
  Keeps-pure a = Ensures-pure a (λ t p. p)

  pub Keeps-ask : (f : W → A × W) → Triple Z P (ask f) (λ _. P)
  Keeps-ask f = Ensures-ask f (λ a t p. p)

  pub Keeps-act :
      (f : W → A × W) (event : A → Event)
      → ((a : A) (t : Trace) → P t → P (event a ∷ t))
      → Triple Z P (act f event) (λ _. P)
  Keeps-act f event h = Ensures-act f event h
