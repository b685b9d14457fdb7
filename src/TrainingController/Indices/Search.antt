-- ===== src/TrainingController/Indices/Search.antt =====
-- The loop of spotinstancejob_provisionedinstance.go and spotinstancejob_job.go that looks for a free
-- replica index.
use native.Mathlib.Decide.{dec_le}
use spot_instance_training_o.Base.{
  ℕ, zero, suc, ◌+◌, ◌≤◌, ◌<◌, ◌≡◌, refl, ◌⊎◌, inl, inr, true, false, not, some, List, [], ◌∷◌, ℤ,
  pos, negsuc, ltb_ℤ, eq_ℤ, eq_ℤ_iff, add32_exact, i32_max, length, count, arith, Bool-cases, ◌||◌,
}
use spot_instance_training_o.TrainingController.Indices.{
  is_taken, take_index, skip_fuel, skip_taken,
}

-- How many of the indices are at least `i`.
abbrev above : ℕ → List ℤ → ℕ
above i m = count (λ j. not (ltb_ℤ j (pos i))) m

above-le-length : (i : ℕ) (m : List ℤ) → above i m ≤ length m
above-le-length i [] = omega arith
above-le-length i (j ∷ m) = ground (arith, above-le-length i m)

above-step_le : (i : ℕ) (m : List ℤ) → above (i + 1) m ≤ above i m
above-step_le i [] = omega arith
above-step_le i (pos j ∷ m) = ground (arith, above-step_le i m)
above-step_le i (negsuc j ∷ m) = ground (arith, above-step_le i m)

above-step : (i : ℕ) (m : List ℤ) → is_taken (pos i) m ≡ true → above (i + 1) m < above i m
unfolding is_taken
above-step i [] h = cc
above-step i (pos j ∷ m) h = ground (arith, above-step i m, above-step_le i m)
above-step i (negsuc j ∷ m) h = ground (arith, above-step i m, above-step_le i m)

-- Where the search from `i` with the limit `l` may end.
pub record Found (l : ℕ) (m : List ℤ) (i j : ℕ) : Type 0 where
  pub from : i ≤ j
  pub bounded : (j ≤ i + 1) ⊎ (j ≤ l)
  pub free : (is_taken (pos j) m ≡ false) ⊎ (l ≤ j)
  pub first : (k : ℕ) → i ≤ k → k < j → is_taken (pos k) m ≡ true

abbrev Finds : ℕ → ℕ → List ℤ → ℕ → Type 0
Finds fuel l m i = (j : ℕ) × (skip_fuel fuel (pos l) m (pos i) ≡ some (pos j)) × Found l m i j

Found-step :
    (l : ℕ) (m : List ℤ) (i j : ℕ)
    → is_taken (pos i) m ≡ true
    → i + 1 < l
    → Found l m (i + 1) j
    → Found l m i j
Found-step l m i j here below f = record {
  from = omega (arith, f.from);
  bounded = inr (omega (arith, f.bounded));
  free = f.free;
  first = λ k p q. elim (dec_le (i + 1) k) [
    | yes later ↦ f.first k later q
    | no n ↦ let same : i ≡ k = omega arith in rw (← same) here
  ];
}

Found-last :
    (l : ℕ) (m : List ℤ) (i : ℕ) → is_taken (pos i) m ≡ true → l ≤ i + 1 → Found l m i (i + 1)
Found-last l m i here past = record {
  from = omega arith;
  bounded = inl (omega arith);
  free = inr past;
  first = λ k p q. let same : i ≡ k = omega arith in rw (← same) here;
}

skip_fuel-Finds :
    (fuel l : ℕ) (m : List ℤ) (i : ℕ)
    → above i m < fuel
    → l ≤ i32_max
    → i < i32_max
    → Finds fuel l m i
unfolding skip_fuel
skip_fuel-Finds zero l m i h hl hi = absurd (omega arith)
skip_fuel-Finds (suc fuel) l m i h hl hi = elim (Bool-cases (is_taken (pos i) m)) [
  | inr is_free ↦ (
    i,
    rw is_free,
    record {
      from = omega arith;
      bounded = inl (omega arith);
      free = inl is_free;
      first = λ k p q. absurd (omega arith);
    },
  )
  | inl taken ↦ elim (Bool-cases (ltb_ℤ (pos (i + 1)) (pos l))) [
    | inl below ↦
        let lt : i + 1 < l = ground arith in
        let (j, e, f) =
          skip_fuel-Finds fuel l m (i + 1) (omega (arith, above-step i m taken)) hl (omega arith) in
        (j, rw (taken, add32_exact i 1 (omega arith), below) e, Found-step l m i j taken lt f)
    | inr past ↦
        let le : l ≤ i + 1 = ground arith in
        (i + 1, rw (taken, add32_exact i 1 (omega arith), past), Found-last l m i taken le)
  ]
]

-- From an index below the largest `int32`, with a limit that fits an `int32`, the search comes to its
-- end, at an index that is free or has reached the limit; every index that it passed over is taken.
pub skip_taken-Found :
    (l : ℕ) (m : List ℤ) (i : ℕ)
    → l ≤ i32_max
    → i < i32_max
    → (j : ℕ) × (skip_taken (pos l) m (pos i) ≡ some (pos j)) × Found l m i j
unfolding skip_taken
skip_taken-Found l m i hl hi =
    skip_fuel-Finds (suc (length m)) l m i (omega (arith, above-le-length i m)) hl hi

-- An index that is put into the map is in it, and no other is added.
pub is_taken-take_index :
    (i j : ℤ) (m : List ℤ) → is_taken j (take_index i m) ≡ (eq_ℤ j i || is_taken j m)
unfolding take_index is_taken
is_taken-take_index i j m = elim (Bool-cases (is_taken i m)) [
  | inr absent ↦ rw absent
  | inl present ↦ elim (Bool-cases (eq_ℤ j i)) [
    | inl same ↦ rw (present, (eq_ℤ_iff j i).0 same, (eq_ℤ_iff i i).1 refl) present
    | inr other ↦ rw (present, other)
  ]
]

-- What is free once more is taken was free before.
pub free-before_take :
    (i j : ℤ) (m : List ℤ) → is_taken j (take_index i m) ≡ false → is_taken j m ≡ false
free-before_take i j m h = ground (arith, is_taken-take_index i j m)
