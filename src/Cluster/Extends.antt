-- ===== src/Cluster/Extends.antt =====
-- What a run has written: events of a kind, put before those of an older trace.
use spot_instance_training_o.Base.{◌≡◌, refl, [], ◌∷◌, ◌++◌, All}
use spot_instance_training_o.Cluster.Events.{Event, Trace}

pub record Extends (A : Event → Type 0) (old : Trace) (t : Trace) : Type 0 where
  pub new : Trace
  pub split : t ≡ new ++ old
  pub allowed : All A new

module _ (A : Event → Type 0) (old : Trace) where
  pub Extends-none : (t : Trace) → t ≡ old → Extends A old t
  Extends-none t e = record { new = []; split = e; allowed = tt }

  pub Extends-one : (e : Event) (t : Trace) → A e → Extends A old t → Extends A old (e ∷ t)
  Extends-one e t a h = record {
    new = e ∷ h.new;
    split = rw (h.split) refl;
    allowed = (a, h.allowed);
  }
