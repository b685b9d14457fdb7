-- ===== src/Cluster/Errors.antt =====
-- Go's `error` values, as far as the controllers tell them apart: the reason that
-- `errors.IsNotFound` and `errors.IsAlreadyExists` look for, and the text of `err.Error()`.
use spot_instance_training_o.Base.{
  ℕ, Bool, true, false, String, append, Option, none, some, ◌≡◌, refl, ◌⊎◌, inl, inr, ◌==◌,
}

pub data Reason : Type 0 where
  not_found already_exists other_reason : Reason

pub record Error : Type 0 where
  pub reason : Reason
  pub message : String

-- The pair `(value, err)`: exactly one of the two is set.
pub data Result (A : Type 0) : Type 0 where
  ok : A → Result A
  err : Error → Result A

pub Result-cases :
    {A : Type 0} (r : Result A) → ((a : A) × (r ≡ ok a)) ⊎ ((e : Error) × (r ≡ err e))
Result-cases (ok a) = inl (a, refl)
Result-cases (err e) = inr (e, refl)

abbrev pub is_not_found : Error → Bool
is_not_found e = elim e.reason [ not_found ↦ true | _ ↦ false ]

abbrev pub is_already_exists : Error → Bool
is_already_exists e = elim e.reason [ already_exists ↦ true | _ ↦ false ]

-- `fmt.Errorf("prefix: %w", err)`; `errors.IsNotFound` looks through the wrapping.
abbrev pub wrap : String → Error → Error
wrap prefix e = record e { message = append prefix (append ": " e.message) }

-- `fmt.Errorf` with no error inside.
abbrev pub new_error : String → Error
new_error text = record { reason = other_reason; message = text }

-- What `Reconcile` returns: the requeue delay in nanoseconds, and the error.
pub record Outcome : Type 0 where
  pub requeue_after : ℕ
  pub error : Option Error

abbrev pub second : ℕ
second = 1_000_000_000

-- `ctrl.Result{}, nil`
abbrev pub finished : Outcome
finished = record { requeue_after = 0; error = none }

abbrev pub requeue : ℕ → Outcome
requeue seconds = record { requeue_after = Prim.Native.Nat.◌*◌ seconds second; error = none }

-- `ctrl.Result{}, err`
abbrev pub failed : Error → Outcome
failed e = record { requeue_after = 0; error = some e }

abbrev pub failed_after : ℕ → Error → Outcome
failed_after seconds e = record {
  requeue_after = Prim.Native.Nat.◌*◌ seconds second;
  error = some e;
}

-- Neither an error nor a time to look again: the object is looked at no more until it changes.
abbrev pub is_over : Outcome → Bool
is_over out = elim out.error [ none ↦ out.requeue_after == 0 | some e ↦ false ]
