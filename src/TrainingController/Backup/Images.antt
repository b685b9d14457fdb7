-- ===== src/TrainingController/Backup/Images.antt =====
-- The images that `createCheckpointForJob` asks for are those that `updateJobWithCheckpoint` restores.
use Prim.Native.Char.{Char, char, code}
use Prim.Native.String.append as string_append
use package.text.Mathlib.TextEquality.{Char-path, starts_with_iff}
use package.text.Mathlib.TextLemmas.{append_assoc}
use spot_instance_training_o.Base.{
  ℕ, ◌≡◌, refl, ap, sym, ◌∙◌, Bool, true, false, ◌&&◌, ◌==◌, String, append, none, some, List, [],
  ◌∷◌, map, any, str_eq, contains, decimal, arith, eq_iff, eq_refl, if◌then◌else◌, Bool-cases, inl,
  inr, starts_with,
}
use spot_instance_training_o.Api.Meta.{Labels, label, label-set_label}
use spot_instance_training_o.Api.Kube.{Container, text}
use spot_instance_training_o.TrainingController.Restore.{
  Fields, image_map, before_slash, has_registry, registry_url,
}
use spot_instance_training_o.TrainingController.Backup.{
  checkpoint_image, checkpoint_images, after_slash, repository,
}

head_code : String → ℕ
head_code String.[] = 0
head_code (String.◌∷◌ c s) = code c

starts_with_slash :
    (c : Char) (s : String) → starts_with (String.◌∷◌ c s) "/" ≡ true → code c ≡ b'/'
unfolding head_code
starts_with_slash c s h =
    let (r, e) = (starts_with_iff (String.◌∷◌ c s) "/").0 h in
    sym (ap head_code (sym (string_append.cons (char b'/' tt) "" r) ∙ e))

in_tail :
    (c : Char) (s : String)
    → (code c == b'/') ≡ false
    → contains (String.◌∷◌ c s) "/" ≡ true
    → contains s "/" ≡ true
unfolding contains
in_tail c s later h = elim (Bool-cases (starts_with (String.◌∷◌ c s) "/")) [
  | inl here ↦ ground (arith, starts_with_slash c s here, later)
  | inr not_here ↦ cc (h, not_here)
]

-- `SplitN` at the first slash loses nothing else.
slashed :
    (s : String) → contains s "/" ≡ true → append (before_slash s) (append "/" (after_slash s)) ≡ s
unfolding contains before_slash after_slash
slashed String.[] h = absurd (cc h)
slashed (String.◌∷◌ c s) h = elim (Bool-cases (code c == b'/')) [
  | inl here ↦ rw here (
      rw (string_append.nil, string_append.cons, string_append.nil)
        (ap (λ d. String.◌∷◌ d s) (Char-path (char b'/' tt) c (ground (arith, here)))))
  | inr later ↦
      rw (later, string_append.cons) (ap (λ u. String.◌∷◌ c u) (slashed s (in_tail c s later h)))
]

-- The repository with its registry, that of Docker where it names none.
abbrev pub full_repository : String → String
full_repository repo = if has_registry repo then repo else append "docker.io/" repo

and_left : (a b : Bool) → (a && b) ≡ true → a ≡ true
and_left true b h = refl
and_left false b h = h

has_registry-contains : (repo : String) → has_registry repo ≡ true → contains repo "/" ≡ true
unfolding has_registry
has_registry-contains repo h = and_left _ _ (unfold has_registry in h)

joined :
    (repo : String)
    → append (registry_url repo) (append "/" (repository repo)) ≡ full_repository repo
unfolding registry_url repository
joined repo = elim (Bool-cases (has_registry repo)) [
  | inl has ↦ rw has (slashed repo (has_registry-contains repo has))
  | inr lacks ↦ rw lacks (sym (append_assoc "docker.io" "/" repo))
]

-- What the status of a checkpoint says of a container when it is done as it was asked for.
abbrev pub reported : Container → Fields
reported c = ("name", text c.name) ∷ ("image", text c.image) ∷ []

either_branch : {A : Type 0} (b : Bool) (x : A) → (if b then x else x) ≡ x
either_branch true x = refl
either_branch false x = refl

joined_image :
    (repo rest : String)
    → append (registry_url repo) (append "/" (append (repository repo) rest))
      ≡ append (full_repository repo) rest
joined_image repo rest = rw (← joined repo, append_assoc, append_assoc) refl

image_map-checkpoint_images :
    (registry repo : String) (seconds : ℕ) (name : String) (cs : List Container) (m : Labels)
    → label name (image_map registry (map reported (checkpoint_images repo seconds cs)) m) ≡ (
        if any (λ c. str_eq c.name name) cs
        then some (append registry (append "/" (checkpoint_image repo seconds name)))
        else label name m)
unfolding image_map
image_map-checkpoint_images registry repo seconds name [] m = refl
image_map-checkpoint_images registry repo seconds name (c ∷ cs) m =
    rw (image_map-checkpoint_images registry repo seconds name cs, label-set_label)
      (elim (Bool-cases (str_eq c.name name)) [
        | inl same ↦ rw ((eq_iff c.name name).0 same) (rw (eq_refl name) (either_branch _ _))
        | inr differs ↦ rw differs refl
      ])

-- The images that `createCheckpointForJob` asks for, for the containers of a pod, reach the job as they
-- should: where the status of the checkpoint reports them, `updateJobWithCheckpoint` gives each
-- container that the pod has the image "{repository}:{container}-{seconds}" with the registry of the
-- configured repository, or that of Docker where it names none, and others no image.
pub image_map-restores :
    (repo : String) (seconds : ℕ) (name : String) (cs : List Container)
    → label name
        (image_map (registry_url repo) (map reported (checkpoint_images repo seconds cs)) [])
      ≡ (if any (λ c. str_eq c.name name) cs
          then some (
              append
                (full_repository repo)
                (append ":" (append name (append "-" (decimal seconds)))))
          else none)
unfolding label
image_map-restores repo seconds name cs =
    rw (image_map-checkpoint_images (registry_url repo) repo seconds name cs [])
      (rw (joined_image repo) refl)
