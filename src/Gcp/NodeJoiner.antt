-- ===== src/Gcp/NodeJoiner.antt =====
-- internal/gcp/node_joiner.go: a VM is joined to the cluster by a command over SSH. No controller calls
-- it.
pub mod Joins
use spot_instance_training_o.Base.{
  ℕ, zero, suc, Bool, true, false, String, append, Option, none, some, List, [], ◌∷◌, str_eq,
}
use spot_instance_training_o.Api.Compute.{Instance, NetworkInterface, AccessConfig}
use spot_instance_training_o.Cluster.Errors.{Error, Result, ok, err, new_error, wrap}
use spot_instance_training_o.Cluster.Events.{ssh_dialled, command_run}
use spot_instance_training_o.Cluster.Prog.{Prog, pure, branch, ◌>>=◌, ◌>>◌, ask, act}

-- golang.org/x/crypto/ssh with the joiner's configuration, the context and the timers: a parameter.
pub record Ssh (Conn Session W : Type 0) : Type 0 where
  pub dial : String → W → Result Conn × W
  pub close : Conn → W → Unit {0} × W
  pub new_session : Conn → W → Result Session × W
  pub close_session : Session → W → Unit {0} × W
  -- `Run`, with what the command wrote to stderr
  pub run : Session → String → W → (Result (Unit {0}) × String) × W
  -- `ctx.Err()` if the context is done
  pub context_error : W → Option Error × W
  pub sleep : W → Unit {0} × W
  -- The next of two channels: the timeout, or else the ticker
  pub timed_out : W → Bool × W

-- `instance.NetworkInterfaces[0].AccessConfigs[0].NatIP`, where these exist.
first_nat_ip : List AccessConfig → String
first_nat_ip [] = ""
first_nat_ip (a ∷ _) = a.nat_ip

external_ip_of : List NetworkInterface → String
unfolding first_nat_ip
external_ip_of [] = ""
external_ip_of (n ∷ _) = first_nat_ip n.access_configs

unfoldable pub external_ip : Instance → String
unfolding external_ip_of
external_ip i = external_ip_of i.network_interfaces

-- The error of a call, if there was one.
abbrev pub failure : {A : Type 0} → Result A → Option Error
failure (ok _) = none
failure (err e) = some e

-- "{host}:22"
abbrev pub address : String → String
address host = append host ":22"

-- `maxRetries`
abbrev pub max_retries : ℕ
max_retries = 30

-- `fmt.Errorf("failed to run command: %w, stderr: %s", err, …)`
abbrev pub run_error : Error → String → Error
run_error e stderr = record e {
  message = append "failed to run command: " (append e.message (append ", stderr: " stderr));
}

-- The command that joins a node.
unfoldable pub generate_kubeadm_join_command : String → String → String → String
generate_kubeadm_join_command endpoint token ca_cert_hash = append "sudo kubeadm join " (
    append endpoint
      (append " --token " (append token (append " --discovery-token-ca-cert-hash " ca_cert_hash))))

module _ {Conn Session W : Type 0} (ssh : Ssh Conn Session W) where
  abbrev pub dial : String → Prog W (Result Conn)
  dial host = act (ssh.dial (address host)) (λ a. ssh_dialled (address host) (failure a))

  -- The loop, with the number of rounds that are left.
  unfoldable pub wait_for_ssh_rounds : ℕ → String → Prog W (Result (Unit {0}))
  wait_for_ssh_rounds zero host = pure (err (new_error "SSH connection timeout"))
  wait_for_ssh_rounds (suc rounds) host = do
    over ← ask ssh.context_error
    elim over [
      | some e ↦ pure (err e)
      | none ↦ do
        dialled ← dial host
        elim dialled [
          | ok conn ↦ do ask (ssh.close conn); pure (ok tt)
          | err e ↦ do ask ssh.sleep; wait_for_ssh_rounds rounds host
        ]
    ]

  unfoldable pub wait_for_ssh : String → Prog W (Result (Unit {0}))
  wait_for_ssh host = wait_for_ssh_rounds max_retries host

  -- The session and the connection are closed after the command, in this order.
  unfoldable pub run_in_session :
      String → String → Conn → Result Session → Prog W (Result (Unit {0}))
  run_in_session host command conn (err e) = do
    ask (ssh.close conn)
    pure (err (wrap "failed to create SSH session" e))
  run_in_session host command conn (ok session) = do
    done ← act (ssh.run session command) (λ a. command_run (address host) command (failure a.0))
    ask (ssh.close_session session)
    ask (ssh.close conn)
    pure (elim done.0 [ ok _ ↦ ok tt | err e ↦ err (run_error e done.1) ])

  unfoldable pub execute_ssh_command : String → String → Prog W (Result (Unit {0}))
  execute_ssh_command host command = do
    dialled ← dial host
    elim dialled [
      | err e ↦ pure (err (wrap "failed to dial SSH" e))
      | ok conn ↦ do session ← ask (ssh.new_session conn); run_in_session host command conn session
    ]

  unfoldable pub join_node_to_cluster : Instance → String → Prog W (Result (Unit {0}))
  join_node_to_cluster i command =
      branch (str_eq (external_ip i) "") (pure (err (new_error "instance has no external IP"))) (do
        waited ← wait_for_ssh (external_ip i)
        elim waited [
          | err e ↦ pure (err (wrap "failed to wait for SSH" e))
          | ok _ ↦ do
            executed ← execute_ssh_command (external_ip i) command
            pure (elim executed [
              | err e ↦ err (wrap "failed to execute kubeadm join" e)
              | ok _ ↦ ok tt
            ])
        ])

  -- The node is not looked at: the first tick counts.
  unfoldable pub wait_for_node_ready : String → Prog W (Result (Unit {0}))
  wait_for_node_ready node = do
    over ← ask ssh.timed_out
    branch over (pure (err (new_error "timeout waiting for node to become ready"))) (pure (ok tt))
