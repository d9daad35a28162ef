-- ===== src/Integ/Cluster.antt =====
-- internal/integ/cluster: cluster.go, and the calls of utils.go and teardown.go that the others are
-- made of.
pub mod Csi
pub mod Logs
pub mod Setup
pub mod Stable
pub mod Configured
pub mod TearDown
pub mod Cleanup
pub mod Readiness
pub mod Waiting
pub mod Keys
pub mod Secrets
use exoscale_csi_driver.Base.{
  zero, suc, String, Option, none, some, List, [], ◌∷◌, if◌then◌else◌, eqb_ℤ, ℤ, Result, Action,
  pure, lift, proceed, ◌>>=◌, ◌>>◌, pos, errorf, no_args, text_arg, nil_dereference, ok, err, panic,
}
use exoscale_csi_driver.Api.{Operation}
use exoscale_csi_driver.Integ.Flags.{FlagState, validate_flags}
use exoscale_csi_driver.Integ.Retry.{retry}
use exoscale_csi_driver.Integ.Kubernetes.{Deployment, DaemonSetStatus, Kubernetes}
use exoscale_csi_driver.Integ.Egoscale.{SksCluster, Egoscale}
use exoscale_csi_driver.Integ.K8s.{Task, K8s, Kube, in_world, create_clients}

abbrev pub csi_namespace : String
csi_namespace = "kube-system"

-- `ego` is the client, so its endpoint. `none` is a K8s that is not set yet.
pub record Cluster : Type 0 where
  pub name : String
  pub id : String
  pub k8s : Option K8s
  pub ego : String
  pub api_key_name : String
  pub api_role_name : String

-- The object that the methods work on, the package's flags, the goroutines and the world.
pub record Run (W : Type 0) : Type 0 where
  pub cluster : Cluster
  pub flags : FlagState
  pub goroutines : List Task
  pub world : W

module _ {W : Type 0} where
  abbrev kube_of : Run W → K8s → Kube W
  kube_of s k8s = record { k8s = k8s; goroutines = s.goroutines; world = s.world }

  abbrev run_of : Run W → Kube W → Run W
  run_of s kube = record s {
    cluster = record s.cluster { k8s = some kube.k8s };
    goroutines = kube.goroutines;
    world = kube.world;
  }

module _ {W A : Type 0} where
  abbrev pub at_world : Action W A → Action (Run W) A
  at_world m s = ((m s.world).0, record s { world = (m s.world).1 })

  abbrev pub at_flags : Action FlagState A → Action (Run W) A
  at_flags m s = ((m s.flags).0, record s { flags = (m s.flags).1 })

  -- A call of the client, whose endpoint stands in the object.
  abbrev pub at_ego : (String → Action W A) → Action (Run W) A
  at_ego m s = at_world (m s.cluster.ego) s

  -- A method of `c.K8s`: a nil pointer panics.
  abbrev pub at_k8s : Action (Kube W) A → Action (Run W) A
  at_k8s m s = elim s.cluster.k8s [
    | none ↦ (panic nil_dereference, s)
    | some k8s ↦ ((m (kube_of s k8s)).0, run_of s (m (kube_of s k8s)).1)
  ]

abbrev pub set_cluster : {W : Type 0} → (Cluster → Cluster) → Action (Run W) (Unit {0})
set_cluster f s = (ok tt, record s { cluster = f s.cluster })

-- Not ready is an error, and a nil `Spec.Replicas` panics.
unfoldable pub check_deployment : String → Deployment → Result (Unit {0})
check_deployment name deployment = elim deployment.replicas [
  | none ↦ panic nil_dereference
  | some replicas ↦
      if eqb_ℤ deployment.ready_replicas replicas
      then ok tt
      else err (errorf "waiting for deployment %q to become ready" (text_arg name no_args))
]

unfoldable pub check_daemon_set : String → DaemonSetStatus → Result (Unit {0})
check_daemon_set name daemon_set =
    if eqb_ℤ daemon_set.desired_number_scheduled daemon_set.current_number_scheduled
    then ok tt
    else err (errorf "waiting for DaemonSet %q to become ready" (text_arg name no_args))

module _ {W : Type 0} (K : Kubernetes W) where
  abbrev pub sleep_run : ℤ → Run W → Run W
  sleep_run interval s = record s { world = K.sleep interval s.world }

  -- One trial of awaitDeploymentReadiness, and of awaitDaemonSetReadiness.
  unfoldable pub deployment_trial : String → Action (Run W) (Unit {0})
  unfolding check_deployment
  deployment_trial name = do
    deployment ← at_k8s (λ s. in_world (K.get_deployment s.k8s.client_set csi_namespace name) s)
    lift (check_deployment name deployment)

  unfoldable pub daemon_set_trial : String → Action (Run W) (Unit {0})
  unfolding check_daemon_set
  daemon_set_trial name = do
    daemon_set ← at_k8s (λ s. in_world (K.get_daemon_set s.k8s.client_set csi_namespace name) s)
    lift (check_daemon_set name daemon_set)

  unfoldable pub await_deployment_readiness : String → Action (Run W) (Unit {0})
  unfolding retry deployment_trial
  await_deployment_readiness name = retry sleep_run (deployment_trial name) (pos 0) (pos 0)

  unfoldable pub await_daemon_set_readiness : String → Action (Run W) (Unit {0})
  unfolding retry daemon_set_trial
  await_daemon_set_readiness name = retry sleep_run (daemon_set_trial name) (pos 0) (pos 0)

module _ {W : Type 0} (E : Egoscale W) where
  unfoldable pub get_cluster_id : Action (Run W) String
  unfolding validate_flags
  get_cluster_id = do
    at_flags validate_flags
    cluster_list ← at_ego E.list_sks_clusters
    (λ s.
        (do
          cluster ← lift (E.find_sks_cluster cluster_list s.flags.values.cluster_name)
          pure cluster.id)
          s)

  unfoldable pub get_cluster : Action (Run W) SksCluster
  unfolding get_cluster_id
  get_cluster = do id ← get_cluster_id; at_ego (λ ego. E.get_sks_cluster ego id)

  unfoldable pub get_kubeconfig : Action (Run W) String
  get_kubeconfig s =
      (do
        cluster ← at_ego (λ ego. E.get_sks_cluster ego s.cluster.id)
        kubeconfig ← at_ego (λ ego.
            E.generate_sks_cluster_kubeconfig ego cluster.id
              (record { groups = "system:masters" ∷ []; ttl = pos 7200; user = "admin" }))
        lift (E.decode_base64 kubeconfig))
        s

  unfoldable pub get_k8s_clients : Kubernetes W → Action (Run W) K8s
  unfolding get_kubeconfig create_clients
  get_k8s_clients K = do kubeconfig ← get_kubeconfig; at_world (create_clients K kubeconfig)

  -- The ID of the operation's reference, or the empty one. The Go function gets the operation and
  -- the error of the call; here it gets the call.
  unfoldable pub await_id : Action (Run W) Operation → Action (Run W) String
  await_id call = do
    op ← call
    finished_op ← at_ego (λ ego. E.wait ego op)
    elim finished_op.reference [ some id ↦ pure id | none ↦ pure "" ]

  unfoldable pub await_success : Action (Run W) Operation → Action (Run W) (Unit {0})
  unfolding await_id
  await_success call = do await_id call; pure tt
