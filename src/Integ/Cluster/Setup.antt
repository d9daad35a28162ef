-- ===== src/Integ/Cluster/Setup.antt =====
-- internal/integ/cluster/setup.go.
use exoscale_csi_driver.Base.{
  String, ◌<>◌, Bool, not, ◌&&◌, Option, none, some, List, [], ◌∷◌, str_eq, if◌then◌else◌, find?,
  Result, Action, pure, fail, lift, handle, ◌>>=◌, ◌>>◌, or_else, pos, errorf, wrap, no_args,
  text_arg, nil_dereference, ok, err, panic,
}
use exoscale_csi_driver.Integ.Flags.{FlagState}
use exoscale_csi_driver.Integ.Kubernetes.{Kubernetes}
use exoscale_csi_driver.Integ.K8s.{Task, log_error}
use exoscale_csi_driver.Integ.Egoscale.{
  InstanceType, CreateSksClusterRequest, CreateSksNodepoolRequest, Egoscale, create_egoscale_client,
}
use exoscale_csi_driver.Integ.Cluster.{
  Cluster, Run, at_ego, set_cluster, get_cluster, get_cluster_id, get_k8s_clients, await_id,
  await_success, await_deployment_readiness, await_daemon_set_readiness,
}
use exoscale_csi_driver.Integ.Cluster.Csi.{csi_controller_name, csi_node_driver_name, apply_csi}
use exoscale_csi_driver.Integ.Cluster.Logs.{print_pods_logs}

abbrev pub api_key_prefix : String
api_key_prefix = "csi-integ-test-key-"

-- The package's variable testCluster, with the flags, the goroutines and the world.
pub record Process (W : Type 0) : Type 0 where
  pub test_cluster : Option Cluster
  pub flags : FlagState
  pub goroutines : List Task
  pub world : W

abbrev pub new_cluster : String → String → Cluster
new_cluster client name = record {
  name = name;
  id = "";
  k8s = none;
  ego = client;
  api_key_name = "";
  api_role_name = "";
}

abbrev pub with_names : String → Cluster → Cluster
with_names id c = record c {
  id = id;
  api_key_name = api_key_prefix <> c.name;
  api_role_name = (api_key_prefix <> c.name) <> "-role";
}

abbrev pub cluster_request : String → String → CreateSksClusterRequest
cluster_request name version = record {
  cni = "calico";
  description = "This cluster was created to test the exoscale CSI driver in SKS.";
  name = name;
  level = "pro";
  version = version;
}

abbrev pub nodepool_request : String → InstanceType → CreateSksNodepoolRequest
nodepool_request name instance_type = record {
  name = name <> "-nodepool";
  disk_size = pos 20;
  size = pos 2;
  instance_prefix = "pool";
  instance_type = instance_type;
}

unfoldable pub first_version : List String → Result String
first_version [] = err (errorf "no SKS version returned by the API" no_args)
first_version (version ∷ _) = ok version

abbrev pub is_standard_medium : InstanceType → Bool
is_standard_medium t = str_eq t.family "standard" && str_eq t.size "medium"

module _ {W : Type 0} (E : Egoscale W) where
  unfoldable pub get_latest_sks_version : Action (Run W) String
  unfolding first_version
  get_latest_sks_version = do
    versions ←
        or_else (at_ego E.list_sks_cluster_versions) (wrap "error retrieving SKS versions: %w")
    lift (first_version versions)

  -- The family and the size stand in the message only.
  unfoldable pub get_instance_type : String → String → Action (Run W) InstanceType
  unfolding find?
  get_instance_type family size = do
    instance_types ← at_ego E.list_instance_types
    elim (find? is_standard_medium instance_types) [
      | some t ↦ at_ego (λ ego. E.get_instance_type ego t.id)
      | none ↦
          fail
            (errorf "unable to find instance type %s.%s" (text_arg family (text_arg size no_args)))
    ]

  unfoldable pub create_cluster : Action (Run W) (Unit {0})
  unfolding get_latest_sks_version get_instance_type await_id await_success
  create_cluster s =
      (do
        latest_sks_version ← get_latest_sks_version
        instance_type ← get_instance_type "standard" "medium"
        new_cluster_id ← await_id E (
            at_ego
              (λ ego. E.create_sks_cluster ego (cluster_request s.cluster.name latest_sks_version)))
        set_cluster (λ c. record c { id = new_cluster_id })
        log_error (
            await_success E (
              at_ego (λ ego.
                E.create_sks_nodepool ego new_cluster_id
                  (nodepool_request s.cluster.name instance_type)))))
        s

  unfoldable pub provision_sks_cluster : Action (Run W) (Unit {0})
  unfolding get_cluster create_cluster
  provision_sks_cluster = handle (get_cluster E) (λ _. create_cluster) (λ _. pure tt)

module _ {W : Type 0} where
  abbrev pub run_on : Process W → Cluster → Run W
  run_on p c = record { cluster = c; flags = p.flags; goroutines = p.goroutines; world = p.world }

  abbrev pub after : Process W → Run W → Process W
  after p r = record p { flags = r.flags; goroutines = r.goroutines; world = r.world }

  -- A local object: it is what a success returns, and an error drops it.
  abbrev pub with_cluster : Cluster → Action (Run W) (Unit {0}) → Action (Process W) Cluster
  with_cluster c m p =
      let r = m (run_on p c) in
      (elim r.0 [ ok _ ↦ ok r.1.cluster | err e ↦ err e | panic x ↦ panic x ], after p r.1)

  -- A method of testCluster: a nil pointer panics.
  abbrev pub at_test_cluster : {A : Type 0} → Action (Run W) A → Action (Process W) A
  at_test_cluster m p = elim p.test_cluster [
    | none ↦ (panic nil_dereference, p)
    | some c ↦
        let r = m (run_on p c) in (r.0, record (after p r.1) { test_cluster = some r.1.cluster })
  ]

  abbrev pub set_test_cluster : Option Cluster → Action (Process W) (Unit {0})
  set_test_cluster c p = (ok tt, record p { test_cluster = c })

module _ {W : Type 0} (K : Kubernetes W) (E : Egoscale W) where
  -- What ConfigureCluster does with the new object.
  unfoldable pub fill_cluster : Bool → Action (Run W) (Unit {0})
  unfolding provision_sks_cluster get_cluster_id get_k8s_clients
  fill_cluster create = do
    if create
        then or_else (provision_sks_cluster E) (wrap "error creating SKS cluster: %w")
        else pure tt
    id ← or_else (get_cluster_id E) (wrap "error getting cluster ID: %w")
    set_cluster (with_names id)
    k ← or_else (get_k8s_clients E K) (wrap "error initializing k8s clients: %w")
    set_cluster (λ c. record c { k8s = some k })

  unfoldable pub configure_cluster : Bool → String → String → Action (Process W) Cluster
  unfolding create_egoscale_client fill_cluster
  configure_cluster create name zone = do
    client ←
        or_else
          (λ p. let r = create_egoscale_client E zone p.world in (r.0, record p { world = r.1 }))
          (wrap "error creating egoscale v3 client: %w")
    with_cluster (new_cluster client name) (fill_cluster create)

  unfoldable pub setup : String → Action (Process W) (Unit {0})
  unfolding configure_cluster await_deployment_readiness await_daemon_set_readiness apply_csi
      print_pods_logs
  setup root p =
      handle
        (configure_cluster p.flags.values.create_cluster p.flags.values.cluster_name
          p.flags.values.zone)
        (λ e. set_test_cluster none >> fail e)
        (λ c. do
          set_test_cluster (some c)
          log_error (at_test_cluster (await_deployment_readiness K "calico-kube-controllers"))
          log_error (at_test_cluster (await_daemon_set_readiness K "calico-node"))
          (λ q.
              if not q.flags.values.dont_apply_csi
              then or_else (at_test_cluster (apply_csi K E root)) (wrap "error applying CSI: %w") q
              else (ok tt, q))
          at_test_cluster (print_pods_logs K ("app=" <> csi_controller_name) "exoscale-csi-plugin")
          at_test_cluster
              (print_pods_logs K ("app=" <> csi_node_driver_name) "exoscale-csi-plugin"))
        p
