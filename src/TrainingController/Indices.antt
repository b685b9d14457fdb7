-- ===== src/TrainingController/Indices.antt =====
-- The `map[int32]bool` of replica indices, all of whose values are `true`, and the loop that looks for
-- an index outside it.
pub mod Search
use spot_instance_training_o.Base.{
  ℕ, zero, suc, Bool, true, false, ◌||◌, Option, none, some, List, [], ◌∷◌, ℤ, pos, eq_ℤ, ltb_ℤ,
  add32, length, if◌then◌else◌,
}

-- `m[i]`
unfoldable pub is_taken : ℤ → List ℤ → Bool
is_taken i [] = false
is_taken i (j ∷ m) = eq_ℤ i j || is_taken i m

-- `m[i] = true`; no index stands twice, so the length is `len(m)`.
unfoldable pub take_index : ℤ → List ℤ → List ℤ
unfolding is_taken
take_index i m = if is_taken i m then m else i ∷ m

-- `for m[i] { i++; if i >= limit { break } }`, a unit of fuel for each round.
unfoldable pub skip_fuel : ℕ → ℤ → List ℤ → ℤ → Option ℤ
skip_fuel zero limit m i = none
skip_fuel (suc fuel) limit m i =
    let next = add32 i (pos 1) in
    let rest = if ltb_ℤ next limit then skip_fuel fuel limit m next else some next in
    if is_taken i m then rest else some i

-- Each round passes another index of the map.
unfoldable pub skip_taken : ℤ → List ℤ → ℤ → Option ℤ
unfolding skip_fuel
skip_taken limit m i = skip_fuel (suc (length m)) limit m i
