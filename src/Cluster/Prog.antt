-- ===== src/Cluster/Prog.antt =====
-- Programs that call their surroundings: state passing over the state of the surroundings and the
-- trace. `none` is a loop that has used up its fuel, which stands for a call that has not returned.
use spot_instance_training_o.Base.{Bool, true, false, Option, none, some, ◌∷◌}
use spot_instance_training_o.Cluster.Events.{Event, Trace}

pub record World (W : Type 0) : Type 0 where
  pub state : W
  pub trace : Trace

abbrev pub Prog : Type 0 → Type 0 → Type 0
Prog W A = World W → Option (A × World W)

module _ {W : Type 0} where
  unfoldable pub pure : {A : Type 0} → A → Prog W A
  pure a w = some (a, w)

  unfoldable pub stuck : {A : Type 0} → Prog W A
  stuck w = none

  -- A call that only reads.
  unfoldable pub ask : {A : Type 0} → (W → A × W) → Prog W A
  ask f w = let (a, s) = f w.state in some (a, record w { state = s })

  -- A call that writes: it is kept in the trace with its answer.
  unfoldable pub act : {A : Type 0} → (W → A × W) → (A → Event) → Prog W A
  act f event w =
      let (a, s) = f w.state in some (a, record { state = s; trace = event a ∷ w.trace })

  -- `if`, on programs.
  unfoldable pub branch : {A : Type 0} → Bool → Prog W A → Prog W A → Prog W A
  branch true m n = m
  branch false m n = n

  infixl 5 ◌>>=◌ ◌>>◌
  -- To unfold this is to unfold the calls too.
  unfoldable pub ◌>>=◌ : {A B : Type 0} → Prog W A → (A → Prog W B) → Prog W B
  unfolding pure stuck ask act branch
  ◌>>=◌ m f w = elim (m w) [ none ↦ none | some (a, w') ↦ f a w' ]

  abbrev pub ◌>>◌ : {A B : Type 0} → Prog W A → Prog W B → Prog W B
  m >> k = m >>= λ _. k
