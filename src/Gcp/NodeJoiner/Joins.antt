-- ===== src/Gcp/NodeJoiner/Joins.antt =====
-- `JoinNodeToCluster`: how often it dials, and when the command runs.
use spot_instance_training_o.Base.{
  ℕ, zero, suc, ◌+◌, ◌≤◌, ◌≡◌, refl, Bool, true, false, String, Option, none, some, [], ◌∷◌, ◌++◌,
  count, arith, inl, inr,
}
use spot_instance_training_o.Api.Compute.{Instance}
use spot_instance_training_o.Cluster.Errors.{Error, Result, ok, err, Result-cases}
use spot_instance_training_o.Cluster.Events.{Event, Trace, ssh_dialled, command_run}
use spot_instance_training_o.Cluster.Prog.{World}
use spot_instance_training_o.Cluster.Hoare.{
  Yields, Delivers, Ensures-pure, Ensures-act, Ensures-bind, Ensures-branch, Keeps-then, Keeps-ask,
  Triple-weaken,
}
use spot_instance_training_o.Gcp.NodeJoiner.{
  Ssh, external_ip, address, max_retries, wait_for_ssh_rounds, wait_for_ssh, run_in_session,
  execute_ssh_command, join_node_to_cluster,
}

abbrev is_dial : Event → Bool
is_dial (ssh_dialled a e) = true
is_dial _ = false

abbrev is_run : Event → Bool
is_run (command_run a c e) = true
is_run _ = false

-- The calls over SSH since an older trace: bounds on how many.
pub record Tried (old : Trace) (dials runs : ℕ) (t : Trace) : Type 0 where
  pub new : Trace
  pub split : t ≡ new ++ old
  pub few_dials : count is_dial new ≤ dials
  pub few_runs : count is_run new ≤ runs

-- The last call was the command, without an error.
abbrev Ran : String → String → Trace → Type 0
Ran host command t = (before : Trace) × (t ≡ command_run (address host) command none ∷ before)

module _ (old : Trace) where
  Tried-dial :
      (d r : ℕ) (a : String) (e : Option Error) (t : Trace)
      → Tried old d r t
      → Tried old (suc d) r (ssh_dialled a e ∷ t)
  Tried-dial d r a e t h = record {
    new = ssh_dialled a e ∷ h.new;
    split = rw (h.split) refl;
    few_dials = omega (arith, h.few_dials);
    few_runs = h.few_runs;
  }

  Tried-run :
      (d r : ℕ) (a c : String) (e : Option Error) (t : Trace)
      → Tried old d r t
      → Tried old d (suc r) (command_run a c e ∷ t)
  Tried-run d r a c e t h = record {
    new = command_run a c e ∷ h.new;
    split = rw (h.split) refl;
    few_dials = h.few_dials;
    few_runs = omega (arith, h.few_runs);
  }

  Tried-more : (d r d' r' : ℕ) (t : Trace) → d ≤ d' → r ≤ r' → Tried old d r t → Tried old d' r' t
  Tried-more d r d' r' t hd hr h = record {
    new = h.new;
    split = h.split;
    few_dials = omega (arith, h.few_dials);
    few_runs = omega (arith, h.few_runs);
  }

module _ {Conn Session W : Type 0} (ssh : Ssh Conn Session W) (old : Trace) where
  wait_for_ssh_rounds-Tried :
      (rounds d : ℕ) (host : String)
      → Delivers
          (Tried old d 0)
          (wait_for_ssh_rounds ssh rounds host)
          (λ _. Tried old (d + rounds) 0)
  unfolding wait_for_ssh_rounds
  wait_for_ssh_rounds-Tried zero d host =
      Ensures-pure _ (λ t h. Tried-more old d 0 (d + 0) 0 t (omega arith) (omega arith) h)
  wait_for_ssh_rounds-Tried (suc rounds) d host = Keeps-then (Keeps-ask _) elim [
    | some e ↦
        Ensures-pure _
          (λ t h. Tried-more old d 0 (d + suc rounds) 0 t (omega arith) (omega arith) h)
    | none ↦
        Ensures-bind {Q = λ _. Tried old (suc d) 0}
          (Ensures-act _ _ (λ a t h. Tried-dial old d 0 _ _ t h))
          elim [
            | ok conn ↦ Keeps-then (Keeps-ask _) (λ _. Ensures-pure _ (λ t h.
                Tried-more old (suc d) 0 (d + suc rounds) 0 t (omega arith) (omega arith) h))
            | err e ↦ Keeps-then (Keeps-ask _) (λ _.
                Triple-weaken
                  (λ a t h.
                    Tried-more old (suc d + rounds) 0 (d + suc rounds) 0 t (omega arith)
                      (omega arith) h)
                  (wait_for_ssh_rounds-Tried rounds (suc d) host))
          ]
  ]

  -- No error means that the command was the last call.
  abbrev Executed : ℕ → String → String → Result (Unit {0}) → Trace → Type 0
  Executed d host command r t = (r ≡ ok tt → Ran host command t) × Tried old d 1 t

  run_in_session-Executed :
      (d : ℕ) (host command : String) (conn : Conn) (session : Result Session)
      → Delivers
          (Tried old d 0)
          (run_in_session ssh host command conn session)
          (Executed d host command)
  unfolding run_in_session
  run_in_session-Executed d host command conn (err e) = Keeps-then (Keeps-ask _) (λ _.
      Ensures-pure _ (λ t h. (
        (λ no_error. absurd (cc no_error)),
        Tried-more old d 0 d 1 t (omega arith) (omega arith) h,
      )))
  run_in_session-Executed d host command conn (ok session) =
      Ensures-bind {Q = λ a t. (a.0 ≡ ok tt → Ran host command t) × Tried old d 1 t}
        (Ensures-act _ _ (λ a t h. ((λ same. (t, rw same refl)), Tried-run old d 0 _ _ _ t h)))
        (λ done. Keeps-then (Keeps-ask _) (λ _. Keeps-then (Keeps-ask _) (λ _.
          elim (Result-cases (done.0)) [
            | inl (x, e) ↦ rw e (Ensures-pure _ (λ t h. ((λ _. h.0 refl), h.1)))
            | inr (x, e) ↦ rw e (Ensures-pure _ (λ t h. ((λ no_error. absurd (cc no_error)), h.1)))
          ])))

  execute_ssh_command-Executed :
      (d : ℕ) (host command : String)
      → Delivers
          (Tried old d 0)
          (execute_ssh_command ssh host command)
          (Executed (suc d) host command)
  unfolding execute_ssh_command
  execute_ssh_command-Executed d host command =
      Ensures-bind {Q = λ _. Tried old (suc d) 0}
        (Ensures-act _ _ (λ a t h. Tried-dial old d 0 _ _ t h))
        elim [
          | err e ↦ Ensures-pure _ (λ t h. (
            (λ no_error. absurd (cc no_error)),
            Tried-more old (suc d) 0 (suc d) 1 t (omega arith) (omega arith) h,
          ))
          | ok conn ↦ Keeps-then (Keeps-ask _) (run_in_session-Executed (suc d) host command conn)
        ]

  -- What the whole call does.
  abbrev pub Joins : Instance → String → Result (Unit {0}) → Trace → Type 0
  Joins i command r t = Executed (suc max_retries) (external_ip i) command r t

  join_node_to_cluster-Delivers :
      (i : Instance) (command : String)
      → Delivers (Tried old 0 0) (join_node_to_cluster ssh i command) (Joins i command)
  unfolding join_node_to_cluster wait_for_ssh
  join_node_to_cluster-Delivers i command =
      Ensures-branch
        (λ _. Ensures-pure _ (λ t h. (
          (λ no_error. absurd (cc no_error)),
          Tried-more old 0 0 (suc max_retries) 1 t (omega arith) (omega arith) h,
        )))
        (λ _. Ensures-bind (wait_for_ssh_rounds-Tried max_retries 0 (external_ip i)) elim [
          | err e ↦ Ensures-pure _ (λ t h. (
            (λ no_error. absurd (cc no_error)),
            Tried-more old (0 + max_retries) 0 (suc max_retries) 1 t (omega arith) (omega arith) h,
          ))
          | ok _ ↦
              Ensures-bind (execute_ssh_command-Executed (0 + max_retries) (external_ip i) command)
                elim [
                  | err e ↦ Ensures-pure _ (λ t h. ((λ no_error. absurd (cc no_error)), h.1))
                  | ok _ ↦ Ensures-pure _ (λ t h. ((λ _. h.0 refl), h.1))
                ]
        ])

-- Whatever SSH, the context and the timers answer, `JoinNodeToCluster` returns after at most 31 dials
-- and at most one command. If it returns no error, the last call over SSH ran the given command at the
-- external address of the instance, port 22, and that call had no error.
pub join_node_to_cluster-Joins :
    {Conn Session W : Type 0} (ssh : Ssh Conn Session W) (i : Instance) (command : String)
    (w : World W)
    → Yields (join_node_to_cluster ssh i command w) (Joins ssh w.trace i command)
join_node_to_cluster-Joins ssh i command w =
    (join_node_to_cluster-Delivers ssh w.trace i command).at w
      (record { new = []; split = refl; few_dials = omega arith; few_runs = omega arith })
