-- ===== src/Integ/Cluster/Csi.antt =====
-- deleteAPIKeyAndRole, applyCSI and restartCSIController of internal/integ/cluster/utils.go, and
-- tearDownCSI of teardown.go.
use exoscale_csi_driver.Base.{
  String, ◌<>◌, false, not, List, [], ◌∷◌, str_eq, if◌then◌else◌, Action, pure, lift, handle, ◌>>=◌,
  ◌>>◌, or_else, pos, wrap, ok,
}
use text.Mathlib.Text.{starts_with}
use exoscale_csi_driver.Disk.Paths.{join_path}
use exoscale_csi_driver.Integ.Kubernetes.{Kubernetes}
use exoscale_csi_driver.Integ.Egoscale.{
  ApiKey, IamRole, IamServicePolicy, CreateIamRoleRequest, Egoscale,
}
use exoscale_csi_driver.Integ.K8s.{in_world, log_error, apply_manifest, apply_secret}
use exoscale_csi_driver.Integ.Cluster.{
  Run, at_ego, at_k8s, csi_namespace, await_success, await_id, sleep_run,
  await_deployment_readiness, await_daemon_set_readiness,
}

abbrev pub csi_controller_name : String
csi_controller_name = "exoscale-csi-controller"

abbrev pub csi_node_driver_name : String
csi_node_driver_name = "exoscale-csi-node"

abbrev pub all_manifests : List String
all_manifests =
    "crds.yaml" ∷ "controller-rbac.yaml" ∷ "controller.yaml" ∷ "csi-driver.yaml"
    ∷ "node-driver-rbac.yaml" ∷ "node-driver.yaml" ∷ "storage-class.yaml"
    ∷ "storage-class-retain.yaml" ∷ "volume-snapshot-class.yaml" ∷ []

-- `root` is what GetRepoRootDir gave when the package was initialised.
abbrev pub manifest_dir : String → String
manifest_dir root = root <> "deployment/latest"

abbrev only_allow_block_storage_operations : IamServicePolicy
only_allow_block_storage_operations = record {
  type = "rules";
  rules =
      (
        "allow",
        "operation in ['list-zones', 'get-block-storage-volume', 'list-block-storage-volumes', 'create-block-storage-volume', 'delete-block-storage-volume', 'attach-block-storage-volume-to-instance', 'detach-block-storage-volume', 'update-block-storage-volume-labels', 'resize-block-storage-volume', 'get-block-storage-snapshot', 'list-block-storage-snapshots', 'create-block-storage-snapshot', 'delete-block-storage-snapshot']",
      )
      ∷ [];
}

abbrev pub role_request : String → String → CreateIamRoleRequest
role_request role_name cluster_name = record {
  name = role_name;
  description = "role for the CSI test cluster " <> cluster_name;
  editable = false;
  default_service_strategy = "deny";
  services = ("compute", only_allow_block_storage_operations) ∷ [];
}

module _ {W : Type 0} (E : Egoscale W) where
  -- The loop over the keys: those of the cluster's name are deleted, up to the first error.
  unfoldable pub delete_api_keys : List ApiKey → Action (Run W) (Unit {0})
  unfolding await_success
  delete_api_keys [] = pure tt
  delete_api_keys (key ∷ keys) =
      let rest = delete_api_keys keys in
      λ s.
        if not (str_eq key.name s.cluster.api_key_name)
        then rest s
        else (do
          or_else (await_success E (at_ego (λ ego. E.delete_api_key ego key.key)))
              (wrap "error deleting existing IAM key: %w")
          rest)
            s

  -- A role that is not there or that cannot be deleted is no error.
  unfoldable pub delete_role : List IamRole → Action (Run W) (Unit {0})
  unfolding await_success
  delete_role roles s =
      handle (lift (E.find_iam_role roles s.cluster.api_role_name)) (λ _. pure tt)
        (λ role. log_error (await_success E (at_ego (λ ego. E.delete_iam_role ego role.id)))) s

  unfoldable pub delete_api_key_and_role : Action (Run W) (Unit {0})
  unfolding delete_api_keys delete_role
  delete_api_key_and_role = do
    keys ← or_else (at_ego E.list_api_keys) (wrap "error listing api keys: %w")
    delete_api_keys keys
    roles ← or_else (at_ego E.list_iam_roles) (wrap "error listing iam roles: %w")
    delete_role roles

module _ {W : Type 0} (K : Kubernetes W) (E : Egoscale W) (root : String) where
  -- The part of applyCSI that makes a key, under the flag CreateCSISecret.
  unfoldable pub create_csi_secret : Action (Run W) (Unit {0})
  unfolding delete_api_key_and_role await_id apply_secret
  create_csi_secret s =
      (do
        delete_api_key_and_role E
        role_id ←
            or_else
              (await_id E (
                at_ego (λ ego.
                  E.create_iam_role ego (role_request s.cluster.api_role_name s.cluster.name))))
              (wrap "error creating IAM role: %w")
        (λ t. (ok tt, sleep_run K (pos 3000000000) t))
        api_key ← at_ego (λ ego. E.create_api_key ego s.cluster.api_key_name role_id)
        or_else (at_k8s (apply_secret K api_key.0 api_key.1)) (wrap "error creating secret: %w"))
        s

  -- The loop over the manifests, up to the first error.
  unfoldable pub apply_manifests : List String → Action (Run W) (Unit {0})
  unfolding apply_manifest join_path
  apply_manifests [] = pure tt
  apply_manifests (path ∷ paths) =
      let rest = apply_manifests paths in
      λ s.
        (do
          or_else
              (at_k8s (apply_manifest K s.flags.values.image (join_path (manifest_dir root) path)))
              (λ e. wrap "error applying CSI manifest: %q %w" e)
          rest)
          s

  -- The loop over the pods: errors are logged.
  unfoldable pub delete_pods : String → List String → Action (Run W) (Unit {0})
  delete_pods prefix [] = pure tt
  delete_pods prefix (pod ∷ pods) =
      let rest = delete_pods prefix pods in
      if starts_with pod prefix
      then log_error (at_k8s (λ s. in_world (K.delete_pod s.k8s.client_set csi_namespace pod) s))
        >> rest
      else rest

  unfoldable pub restart_csi_controller : Action (Run W) (Unit {0})
  unfolding delete_pods
  restart_csi_controller = do
    pods ← at_k8s (λ s. in_world (K.list_pods s.k8s.client_set csi_namespace) s)
    delete_pods csi_controller_name pods.0

  unfoldable pub apply_csi : Action (Run W) (Unit {0})
  unfolding create_csi_secret apply_manifests restart_csi_controller await_deployment_readiness
      await_daemon_set_readiness
  apply_csi s =
      (do
        if s.flags.values.create_csi_secret then create_csi_secret else pure tt
        apply_manifests all_manifests
        restart_csi_controller
        log_error (await_deployment_readiness K csi_controller_name)
        log_error (await_daemon_set_readiness K csi_node_driver_name))
        s
