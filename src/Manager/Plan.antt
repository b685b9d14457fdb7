-- ===== src/Manager/Plan.antt =====
-- `main` against the plan of its steps.
use spot_instance_training_o.Base.{
  ℕ, ◌≡◌, refl, ap, ◌⊎◌, inl, inr, Bool, true, false, not, String, Option, none, some, List, [],
  ◌∷◌, str_eq, Bool-cases,
}
use spot_instance_training_o.Cluster.Errors.{Error, Result, ok, err}
use spot_instance_training_o.Cluster.Steps.{
  Step, webhook_watcher_made, metrics_watcher_made, config_loaded, manager_made,
  training_controller_made, instance_controller_made, metrics_watcher_added, webhook_watcher_added,
  healthz_added, readyz_added, manager_started,
}
use spot_instance_training_o.Cluster.Events.{Trace, process_step}
use spot_instance_training_o.Cluster.Prog.{Prog, World, pure}
use spot_instance_training_o.Cluster.Hoare.{
  Yields, Delivers, Ensures-pure, Ensures-act, Ensures-bind, Ensures-branch, Triple-weaken,
  Ensures-absurd, Triple-before, Triple-of,
}
use spot_instance_training_o.Manager.Options.{Flags}
use spot_instance_training_o.Manager.{
  Platform, error_of, or_exit, step_of, cert_watcher, add_watcher, run_manager, with_watchers, main,
}

abbrev with_step : Bool → Step → List Step → List Step
with_step true s ss = s ∷ ss
with_step false s ss = ss

abbrev last_steps : List Step
last_steps = healthz_added ∷ readyz_added ∷ manager_started ∷ []

-- Where the manager has its controllers.
abbrev plan_watchers : Bool → Bool → List Step
plan_watchers webhook metrics =
    with_step metrics metrics_watcher_added (with_step webhook webhook_watcher_added last_steps)

-- The steps after the watchers are made.
abbrev plan_after : Bool → Bool → List Step
plan_after webhook metrics =
    config_loaded
    ∷ manager_made
    ∷ training_controller_made
    ∷ instance_controller_made
    ∷ plan_watchers webhook metrics

-- The steps in order. Those of a watcher are there if its directory is given.
abbrev pub plan : Flags → List Step
plan flags =
    let webhook = not (str_eq flags.webhook_cert_path "") in
    let metrics = not (str_eq flags.metrics_cert_path "") in
    with_step webhook webhook_watcher_made
      (with_step metrics metrics_watcher_made (plan_after webhook metrics))

-- The steps are done in order, each once, up to the first that fails: the status is 0 if none does,
-- and 1 if one does.
abbrev pub Ran : List Step → Trace → ℕ → Trace → Type 0
Ran [] old status t = (status ≡ 0) × (t ≡ old)
Ran (s ∷ ss) old status t =
    Ran ss (process_step s none ∷ old) status t
    ⊎ ((e : Error) × (status ≡ 1) × (t ≡ process_step s (some e) ∷ old))

abbrev has : {V : Type 0} → Option V → Bool
has none = false
has (some v) = true

-- What an answered step leaves behind.
abbrev Did : Step → Trace → Option Error → Trace → Type 0
Did s old failed t = t ≡ process_step s failed ∷ old

module _ {V M W : Type 0} (platform : Platform V M W) where
  abbrev Runs : List Step → Trace → Prog W ℕ → Type 0
  Runs ss old m = Delivers (λ t. t ≡ old) m (Ran ss old)

  step-Runs :
      (s : Step) (ss : List Step) (old : Trace) (call : W → Option Error × W) (rest : Prog W ℕ)
      → Runs ss (process_step s none ∷ old) rest
      → Runs (s ∷ ss) old (or_exit platform (step_of platform s call) rest)
  unfolding or_exit
  step-Runs s ss old call rest h =
      Ensures-bind {Q = Did s old}
        (Ensures-act _ _ (λ a t p. ap (λ (r : Trace). process_step s a ∷ r) p))
        elim [
          | some e ↦ Ensures-pure _ (λ t p. inr (e, refl, p))
          | none ↦ Triple-weaken (λ a t r. inl r) h
        ]

  -- A watcher that is not there is no step.
  no_step-Runs :
      (ss : List Step) (old : Trace) (rest : Prog W ℕ)
      → Runs ss old rest
      → Runs ss old (or_exit platform (pure none) rest)
  unfolding or_exit
  no_step-Runs ss old rest h =
      Ensures-bind {Q = λ a t. (a ≡ none) × (t ≡ old)} (Ensures-pure _ (λ t p. (refl, p)))
        elim [ some e ↦ Ensures-absurd _ (λ t p. cc p.0) | none ↦ Triple-before (λ t p. p.1) h ]

  add_watcher-Runs :
      (s : Step) (ss : List Step) (mgr : M) (o : Option V) (rest : Prog W ℕ)
      → ((old : Trace) → Runs ss old rest)
      → (old : Trace)
      → Runs (with_step (has o) s ss) old (or_exit platform (add_watcher platform s mgr o) rest)
  unfolding add_watcher
  add_watcher-Runs s ss mgr (some v) rest h old = step-Runs s ss old _ rest (h _)
  add_watcher-Runs s ss mgr none rest h old = no_step-Runs ss old rest (h old)

  run_manager-Runs :
      (mgr : M) (webhook metrics : Option V) (old : Trace)
      → Runs
          (training_controller_made
            ∷ instance_controller_made
            ∷ plan_watchers (has webhook) (has metrics))
          old
          (run_manager platform mgr webhook metrics)
  unfolding run_manager
  run_manager-Runs mgr webhook metrics old =
      step-Runs training_controller_made
        (instance_controller_made ∷ plan_watchers (has webhook) (has metrics)) old _ _
        (step-Runs instance_controller_made (plan_watchers (has webhook) (has metrics)) _ _ _ (
          add_watcher-Runs metrics_watcher_added
            (with_step (has webhook) webhook_watcher_added last_steps) mgr metrics _
            (add_watcher-Runs webhook_watcher_added last_steps mgr webhook _ (λ o.
              step-Runs healthz_added (readyz_added ∷ manager_started ∷ []) o _ _ (
                step-Runs readyz_added (manager_started ∷ []) _ _ _
                  (step-Runs manager_started [] _ _ _ (Ensures-pure _ (λ t p. (refl, p)))))))
            _))

  with_watchers-Runs :
      (flags : Flags) (webhook metrics : Option V) (old : Trace)
      → Runs
          (plan_after (has webhook) (has metrics))
          old
          (with_watchers platform flags webhook metrics)
  unfolding with_watchers
  with_watchers-Runs flags webhook metrics old =
      let loaded : Trace = process_step config_loaded none ∷ old in
      step-Runs config_loaded
        (manager_made
          ∷ training_controller_made
          ∷ instance_controller_made
          ∷ plan_watchers (has webhook) (has metrics))
        old _ _
        (Ensures-bind {Q = λ r. Did manager_made loaded (error_of r)}
          (Ensures-act _ _
            (λ r t p. ap (λ (u : Trace). process_step manager_made (error_of r) ∷ u) p))
          elim [
            | err e ↦ Ensures-pure _ (λ t p. inr (e, refl, p))
            | ok mgr ↦ Triple-weaken (λ a t r. inl r) (run_manager-Runs mgr webhook metrics _)
          ])

  -- What making a watcher leaves, if `b` tells whether a directory is given.
  abbrev Made : Bool → Step → Trace → Result (Option V) → Trace → Type 0
  Made false s old r t = (r ≡ ok none) × (t ≡ old)
  Made true s old (ok o) t = (has o ≡ true) × (t ≡ process_step s none ∷ old)
  Made true s old (err e) t = t ≡ process_step s (some e) ∷ old

  cert_watcher-Made :
      (s : Step) (path name key : String) (old : Trace)
      → Delivers
          (λ t. t ≡ old)
          (cert_watcher platform s path name key)
          (Made (not (str_eq path "")) s old)
  unfolding cert_watcher
  cert_watcher-Made s path name key old = elim (Bool-cases (str_eq path "")) [
    | inl empty ↦
        rw empty
          (Ensures-branch (λ _. Ensures-pure _ (λ t p. (refl, p))) (λ given. absurd (cc given)))
    | inr given ↦ rw given (
        Ensures-branch (λ empty. absurd (cc empty))
          (λ _.
            Ensures-bind {Q = λ r. Did s old (error_of r)}
              (Ensures-act _ _ (λ r t p. ap (λ (u : Trace). process_step s (error_of r) ∷ u) p))
              elim [
                | err e ↦ Ensures-pure _ (λ t p. p)
                | ok v ↦ Ensures-pure _ (λ t p. (refl, p))
              ]))
  ]

  -- What follows the making of a watcher.
  watched-Runs :
      (b : Bool) (s : Step) (ss : List Step) (rest : Result (Option V) → Prog W ℕ)
      → ((e : Error) → rest (err e) ≡ pure 1)
      → ((o : Option V) → has o ≡ b → (old : Trace) → Runs ss old (rest (ok o)))
      → (old : Trace) (r : Result (Option V))
      → Delivers (Made b s old r) (rest r) (Ran (with_step b s ss) old)
  watched-Runs false s ss rest stops h old (err e) = Ensures-absurd _ (λ t p. cc p.0)
  watched-Runs false s ss rest stops h old (ok o) =
      Triple-of (λ t p. p.0)
        (λ e. let same : o ≡ none = cc e in Triple-before (λ t p. p.1) (h o (rw same refl) old))
  watched-Runs true s ss rest stops h old (err e) =
      rw (stops e) (Ensures-pure _ (λ t p. inr (e, refl, p)))
  watched-Runs true s ss rest stops h old (ok o) =
      Triple-of (λ t p. p.0)
        (λ e. Triple-before (λ t p. p.1) (Triple-weaken (λ a t r. inl r) (h o e _)))

  main-Runs : (flags : Flags) (old : Trace) → Runs (plan flags) old (main platform flags)
  unfolding main
  main-Runs flags old =
      let webhook = not (str_eq flags.webhook_cert_path "") in
      let metrics = not (str_eq flags.metrics_cert_path "") in
      Ensures-bind (cert_watcher-Made webhook_watcher_made flags.webhook_cert_path _ _ old) (
        watched-Runs webhook webhook_watcher_made
          (with_step metrics metrics_watcher_made (plan_after webhook metrics)) _ (λ e. refl)
          (λ o has_it old'.
            Ensures-bind (cert_watcher-Made metrics_watcher_made flags.metrics_cert_path _ _ old') (
              watched-Runs metrics metrics_watcher_made (plan_after webhook metrics) _ (λ e. refl)
                (λ o' has_too old''. rw (← has_it, ← has_too) (with_watchers-Runs flags o o' old''))
                old'))
          old)

-- Whatever the calls of `main` answer, it returns, and does the steps that its flags ask for in their
-- order, each once, up to the first that fails: the watchers of the certificates for which a directory
-- is given, the configuration, the manager, both controllers, the addition of those watchers to the
-- manager, both health checks, and only then the start of the manager. The exit status is 1 if a step
-- fails, after which no other is done, and 0 otherwise.
pub main-Ran :
    {V M W : Type 0} (platform : Platform V M W) (flags : Flags) (w : World W)
    → Yields (main platform flags w) (Ran (plan flags) w.trace)
main-Ran platform flags w = (main-Runs platform flags w.trace).at w refl
