-- ===== src/TrainingController/Latest/Newest.antt =====
-- `recreateJobFromLatestCheckpoint`: the checkpoint that it takes is a newest one.
use mathlib.Core.Path.{subst}
use spot_instance_training_o.Base.{
  ◌≡◌, refl, true, false, Option, none, some, List, [], ◌∷◌, All, Exists, ◌⊎◌, inl, inr, ltb_ℤ, ℤ,
  arith, Bool-cases, sym, ◌∙◌,
}
use spot_instance_training_o.Api.Kube.{Checkpoint}
use spot_instance_training_o.Cluster.Client.{Util}
use spot_instance_training_o.TrainingController.Latest.{Candidate, candidate, later, latest}

-- What is offered, if anything, was not completed later.
abbrev pub NotAfter : Candidate → Option Candidate → Type 0
NotAfter best none = Unit
NotAfter best (some new) = ltb_ℤ best.0 new.0 ≡ false

later_cases :
    (best new : Candidate)
    → ((later (some best) (some new) ≡ some new) × (ltb_ℤ best.0 new.0 ≡ true))
      ⊎ ((later (some best) (some new) ≡ some best) × (ltb_ℤ best.0 new.0 ≡ false))
unfolding later
later_cases best new = elim (Bool-cases (ltb_ℤ best.0 new.0)) [
  | inl after ↦ inl (rw after refl, after)
  | inr not_after ↦ inr (rw not_after refl, not_after)
]

later-none : (best new : Option Candidate) → later best new ≡ none → (best ≡ none) × (new ≡ none)
unfolding later
later-none best none h = (h, refl)
later-none none (some new) h = absurd (cc h)
later-none (some best) (some new) h = elim (later_cases best new) [
  | inl (e, after) ↦ absurd (cc (h, e))
  | inr (e, not_after) ↦ absurd (cc (h, e))
]

later-some :
    (best new : Option Candidate) (r : Candidate)
    → later best new ≡ some r
    → (best ≡ some r) ⊎ (new ≡ some r)
unfolding later
later-some best none r h = inl h
later-some none (some new) r h = inr h
later-some (some best) (some new) r h = elim (later_cases best new) [
  | inl (e, after) ↦ inr (sym e ∙ h)
  | inr (e, not_after) ↦ inl (sym e ∙ h)
]

not_after_earlier : (r b n : ℤ) → ltb_ℤ b n ≡ true → ltb_ℤ r n ≡ false → ltb_ℤ r b ≡ false
not_after_earlier r b n h k = ground arith

not_after_kept : (r b n : ℤ) → ltb_ℤ b n ≡ false → ltb_ℤ r b ≡ false → ltb_ℤ r n ≡ false
not_after_kept r b n h k = ground arith

later-NotAfter :
    (best new : Option Candidate) (r : Candidate)
    → NotAfter r (later best new)
    → NotAfter r best × NotAfter r new
unfolding later
later-NotAfter best none r h = (h, tt)
later-NotAfter none (some new) r h = (tt, h)
later-NotAfter (some best) (some new) r h = elim (later_cases best new) [
  | inl (e, after) ↦
      let k = subst (NotAfter r) e h in (not_after_earlier r.0 best.0 new.0 after k, k)
  | inr (e, not_after) ↦
      let k = subst (NotAfter r) e h in (k, not_after_kept r.0 best.0 new.0 not_after k)
]

-- The result of the loop from what it had before.
abbrev IsNewestFrom : Util → List Checkpoint → Option Candidate → Option Candidate → Type 0
IsNewestFrom u cps best none = (best ≡ none) × All (λ cp. candidate u cp ≡ none) cps
IsNewestFrom u cps best (some r) =
    ((best ≡ some r) ⊎ Exists (λ cp. candidate u cp ≡ some r) cps)
    × NotAfter r best
    × All (λ cp. NotAfter r (candidate u cp)) cps

not_after_itself : (r : Candidate) → ltb_ℤ r.0 r.0 ≡ false
not_after_itself r = ground arith

newest_start : (u : Util) (best : Option Candidate) → IsNewestFrom u [] best best
newest_start u none = (refl, tt)
newest_start u (some r) = (inl refl, not_after_itself r, tt)

newest_step :
    (u : Util) (cp : Checkpoint) (cps : List Checkpoint) (best res : Option Candidate)
    → IsNewestFrom u cps (later best (candidate u cp)) res
    → IsNewestFrom u (cp ∷ cps) best res
newest_step u cp cps best none h =
    let (b, c) = later-none best (candidate u cp) h.0 in (b, (c, h.1))
newest_step u cp cps best (some r) h =
    let (b, c) = later-NotAfter best (candidate u cp) r h.1 in (found h.0, b, (c, h.2))
  where
    found :
        (later best (candidate u cp) ≡ some r) ⊎ Exists (λ cp. candidate u cp ≡ some r) cps
        → (best ≡ some r) ⊎ Exists (λ cp. candidate u cp ≡ some r) (cp ∷ cps)
    found (inr there) = inr (inr there)
    found (inl here) = elim (later-some best (candidate u cp) r here) [
      | inl before ↦ inl before
      | inr now ↦ inr (inl now)
    ]

latest-from :
    (u : Util) (cps : List Checkpoint) (best : Option Candidate)
    → IsNewestFrom u cps best (latest u cps best)
unfolding latest
latest-from u [] best = newest_start u best
latest-from u (cp ∷ cps) best =
    newest_step u cp cps best _ (latest-from u cps (later best (candidate u cp)))

-- An independent description: nothing, where no checkpoint is a candidate; else a candidate that none
-- of the checkpoints was completed after.
abbrev pub IsNewest : Util → List Checkpoint → Option Candidate → Type 0
IsNewest u cps none = All (λ cp. candidate u cp ≡ none) cps
IsNewest u cps (some r) =
    Exists (λ cp. candidate u cp ≡ some r) cps × All (λ cp. NotAfter r (candidate u cp)) cps

IsNewest-of_from :
    (u : Util) (cps : List Checkpoint) (res : Option Candidate)
    → IsNewestFrom u cps none res
    → IsNewest u cps res
IsNewest-of_from u cps none h = h.1
IsNewest-of_from u cps (some r) h = (elim h.0 [ inl e ↦ absurd (cc e) | inr there ↦ there ], h.2)

-- The loop over the listed checkpoints ends with nothing exactly if none of them is completed with
-- containers and a completion time that can be parsed; else with the time and the containers of one of
-- them, and none of them has a later time.
pub latest-IsNewest : (u : Util) (cps : List Checkpoint) → IsNewest u cps (latest u cps none)
latest-IsNewest u cps = IsNewest-of_from u cps (latest u cps none) (latest-from u cps none)
