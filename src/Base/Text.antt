-- ===== src/Base/Text.antt =====
-- What the program uses of Go's `strings`, over native texts.
use Prim.Native.Char.{Char}
use Prim.Native.String.{String, ◌++◌}
use Prim.Native.String.append
use mathlib.Core.Path.{◌≡◌, refl, ap}
use mathlib.Core.Logic.{◌⊎◌, inl, inr}
use mathlib.Core.Bool.{Bool, true, false, ◌||◌}
use text.Mathlib.Text.{starts_with}
use text.Mathlib.TextPositions.{starts_with_of_prefix}
use text.Mathlib.TextEquality.{starts_with_iff}
use text.Mathlib.TextLemmas.{append_assoc}

-- `strings.Contains`
unfoldable pub contains : String → String → Bool
contains String.[] t = starts_with String.[] t
contains (String.◌∷◌ c s) t = starts_with (String.◌∷◌ c s) t || contains s t

pub or-true : (b : Bool) → (b || true) ≡ true
or-true true = refl
or-true false = refl

or_split : (a b : Bool) → (a || b) ≡ true → (a ≡ true) ⊎ (b ≡ true)
or_split true b h = inl refl
or_split false b h = inr h

contains_of_tail :
    (c : Char) (s u : String) → contains s u ≡ true → contains (String.◌∷◌ c s) u ≡ true
unfolding contains
contains_of_tail c s u h = rw h (or-true _)

-- What stands before a text keeps its parts.
pub contains-append_right : (s t u : String) → contains t u ≡ true → contains (s ++ t) u ≡ true
contains-append_right String.[] t u h = rw append.nil h
contains-append_right (String.◌∷◌ c s) t u h =
    rw append.cons (contains_of_tail c (s ++ t) u (contains-append_right s t u h))

contains_of_starts_with : (s u : String) → starts_with s u ≡ true → contains s u ≡ true
unfolding contains
contains_of_starts_with String.[] u h = h
contains_of_starts_with (String.◌∷◌ c s) u h = rw h

starts_with-append_left : (s t u : String) → starts_with s u ≡ true → starts_with (s ++ t) u ≡ true
starts_with-append_left s t u h =
    let (r, e) = (starts_with_iff s u).0 h in
    starts_with_of_prefix u (s ++ t) (r ++ t, sym_assoc r e)
  where
    sym_assoc : (r : String) → u ++ r ≡ s → u ++ (r ++ t) ≡ s ++ t
    sym_assoc r e = rw (← append_assoc) (ap (λ v. v ++ t) e)

-- What stands behind a text keeps its parts.
pub contains-append_left : (s t u : String) → contains s u ≡ true → contains (s ++ t) u ≡ true
contains-append_left String.[] t u h =
    contains_of_starts_with (String.[] ++ t) u
      (starts_with-append_left String.[] t u (unfold contains in h))
contains-append_left (String.◌∷◌ c s) t u h =
    elim (or_split (starts_with (String.◌∷◌ c s) u) (contains s u) (unfold contains in h)) [
      | inl here ↦ contains_of_starts_with _ u (starts_with-append_left (String.◌∷◌ c s) t u here)
      | inr later ↦
          rw append.cons (contains_of_tail c (s ++ t) u (contains-append_left s t u later))
    ]
