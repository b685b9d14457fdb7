-- ===== src/InstanceController/Fetch.antt =====
-- What the controller of VMs reads before it acts, and the deletion of a node.
use spot_instance_training_o.Base.{Bool, String, append, none, some, ◌||◌, str_eq, if◌then◌else◌}
use spot_instance_training_o.Api.Meta.{Labels, label, SecretReference}
use spot_instance_training_o.Api.Template.{InstanceTemplate}
use spot_instance_training_o.Api.Instance.{ProvisionedInstance}
use spot_instance_training_o.Cluster.Errors.{Result, ok, err, new_error, is_not_found}
use spot_instance_training_o.Cluster.Events.{node_deleted}
use spot_instance_training_o.Cluster.Prog.{Prog, pure, ◌>>=◌, ask, act}
use spot_instance_training_o.Cluster.Client.{Client}

-- What `kubeadm join` needs.
pub record JoinInfo : Type 0 where
  pub token : String
  pub ca_cert_hash : String
  pub control_plane_endpoint : String

-- `string(secret.Data[key])`: a missing key is the empty text.
abbrev text_at : String → Labels → String
text_at key m = elim (label key m) [ none ↦ "" | some v ↦ v ]

abbrev pub is_empty : String → Bool
is_empty s = str_eq s ""

-- The namespace of the template, the object's own where none is given.
abbrev pub template_namespace : ProvisionedInstance → String
template_namespace pi =
    if is_empty pi.spec.instance_template_namespace
    then pi.meta.namespace
    else pi.spec.instance_template_namespace

join_info : Labels → Result JoinInfo
join_info m =
    let token = text_at "token" m in
    let hash = text_at "ca-cert-hash" m in
    let endpoint = text_at "control-plane-endpoint" m in
    if is_empty token || is_empty hash || is_empty endpoint
    then err (new_error "kubeadm join info incomplete in secret")
    else ok (record { token = token; ca_cert_hash = hash; control_plane_endpoint = endpoint })

credentials : SecretReference → Labels → Result String
credentials ref m = elim (label "credentials.json" m) [
  | some json ↦ ok json
  | none ↦ err (
      new_error (
        append "credentials.json not found in secret "
          (append ref.namespace (append "/" ref.name))))
]

module _ {W : Type 0} (client : Client W) where
  unfoldable pub fetch_instance_template : ProvisionedInstance → Prog W (Result InstanceTemplate)
  fetch_instance_template pi =
      ask (client.get_template (template_namespace pi) pi.spec.instance_template_name)

  unfoldable pub fetch_gcp_credentials : SecretReference → Prog W (Result String)
  unfolding credentials label
  fetch_gcp_credentials ref = do
    found ← ask (client.get_secret ref.namespace ref.name)
    pure (elim found [ err e ↦ err e | ok secret ↦ credentials ref secret.data_entries ])

  unfoldable pub fetch_kubeadm_join_info : String → Prog W (Result JoinInfo)
  unfolding join_info label
  fetch_kubeadm_join_info namespace = do
    found ← ask (client.get_secret namespace "kubeadm-join-token")
    pure (elim found [ err e ↦ err e | ok secret ↦ join_info secret.data_entries ])

  -- A node that is gone already counts as deleted.
  unfoldable pub delete_node : String → Prog W (Result (Unit {0}))
  delete_node name = do
    found ← ask (client.get_node name)
    elim found [
      | err e ↦ pure (if is_not_found e then ok tt else err e)
      | ok node ↦ act (client.delete_node node) (node_deleted node)
    ]
