-- ===== src/Integ/Cluster/TearDown.antt =====
-- internal/integ/cluster/teardown.go.
use exoscale_csi_driver.Base.{
  String, Option, none, some, List, [], ◌∷◌, if◌then◌else◌, Error, Action, pure, fail, lift, handle,
  ◌>>=◌, ◌>>◌, or_else, wrap, ok,
}
use exoscale_csi_driver.Disk.Paths.{join_path}
use exoscale_csi_driver.Integ.Flags.{result_of}
use exoscale_csi_driver.Integ.Kubernetes.{Kubernetes}
use exoscale_csi_driver.Integ.Egoscale.{Egoscale}
use exoscale_csi_driver.Integ.K8s.{delete_manifest}
use exoscale_csi_driver.Integ.Cluster.{Run, at_ego, at_k8s, get_cluster_id, await_success}
use exoscale_csi_driver.Integ.Cluster.Csi.{all_manifests, manifest_dir, delete_api_key_and_role}

module _ {W : Type 0} (E : Egoscale W) where
  -- The first node pool, if there is one.
  unfoldable pub delete_nodepool : String → List String → Action (Run W) (Unit {0})
  unfolding await_success
  delete_nodepool cluster [] = pure tt
  delete_nodepool cluster (nodepool ∷ _) =
      or_else (await_success E (at_ego (λ ego. E.delete_sks_nodepool ego cluster nodepool)))
        (wrap "error deleting nodepool: %w")

  unfoldable pub tear_down_cluster : Action (Run W) (Unit {0})
  unfolding get_cluster_id delete_nodepool await_success
  tear_down_cluster = do
    id ← or_else (get_cluster_id E) (wrap "error getting cluster ID: %w")
    cluster ← at_ego (λ ego. E.get_sks_cluster ego id)
    delete_nodepool cluster.id cluster.nodepools
    await_success E (at_ego (λ ego. E.delete_sks_cluster ego cluster.id))

module _ {W : Type 0} (K : Kubernetes W) (E : Egoscale W) (root : String) where
  -- The loop over the manifests goes on behind an error, and keeps the last one.
  unfoldable pub delete_manifests : List String → Option Error → Action (Run W) (Option Error)
  unfolding delete_manifest join_path
  delete_manifests [] final_err = pure final_err
  delete_manifests (path ∷ paths) final_err =
      handle (at_k8s (delete_manifest K (join_path (manifest_dir root) path)))
        (λ e. delete_manifests paths (some (wrap "errors while deleting manifests: %w" e)))
        (λ _. delete_manifests paths final_err)

  unfoldable pub tear_down_csi : Action (Run W) (Unit {0})
  unfolding delete_manifests delete_api_key_and_role
  tear_down_csi = do
    final_err ← delete_manifests all_manifests none
    handle (delete_api_key_and_role E)
        (λ e. fail (wrap "errors while cleaning up CSI API key and role: %w" e))
        (λ _. lift (result_of final_err))

  unfoldable pub tear_down : Action (Run W) (Unit {0})
  unfolding tear_down_csi tear_down_cluster
  tear_down s =
      (do
        if s.flags.values.tear_down_csi then tear_down_csi else pure tt
        (λ t. if t.flags.values.tear_down_cluster then tear_down_cluster E t else (ok tt, t)))
        s
