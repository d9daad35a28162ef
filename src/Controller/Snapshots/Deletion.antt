-- ===== src/Controller/Snapshots/Deletion.antt =====
-- DeleteSnapshot, called again after it succeeded.
use exoscale_csi_driver.Base.{String, ◌≡◌, sym, ◌∙◌, none, is_not_found, tolerant-ok_elim, ok}
use exoscale_csi_driver.Helpers.{get_exoscale_id}
use exoscale_csi_driver.Api.{Api}
use exoscale_csi_driver.Api.Laws.{Service}
use exoscale_csi_driver.Api.Snapshots.{SnapshotLaws, snapshot_by_id}
use exoscale_csi_driver.Controller.{ControllerService, new_client_zone}
use exoscale_csi_driver.Controller.Snapshots.{delete_snapshot, delete_snapshot_at}

module _ (A : Api) (L : Service A) where
  pub delete_snapshot-eq :
      (d : ControllerService) (exo_id zone client id : String) (w : A.State)
      → get_exoscale_id A.parse_uuid exo_id ≡ ok (zone, id)
      → L.endpoint d.client zone ≡ ok client
      → delete_snapshot A d exo_id w ≡ delete_snapshot_at A client id w
  unfolding delete_snapshot new_client_zone
  delete_snapshot-eq d exo_id zone client id w read ends =
      rw (read, L.get_zone_api_endpoint-eq, ends)

module _ (A : Api) (L : Service A) (S : SnapshotLaws A) where
  open S use {snapshots}

  delete_snapshot_at-gone :
      (client id : String) (w : A.State) {w' : A.State}
      → delete_snapshot_at A client id w ≡ (ok tt, w')
      → snapshot_by_id id (snapshots w' client) ≡ none
  unfolding delete_snapshot_at
  delete_snapshot_at-gone client id w {w'} h =
      tolerant-ok_elim (λ t. snapshot_by_id id (snapshots t client) ≡ none)
        (A.delete_block_storage_snapshot client id) (A.wait client) is_not_found w h
        (λ op done w₁ w₂ deleted waited. S.delete-gone client id op done w w₁ w₂ deleted waited)
        (λ e w₁ refused missing. S.delete-404 client id e w w₁ refused missing)

  delete_snapshot_at-absent :
      (client id : String) (w : A.State)
      → snapshot_by_id id (snapshots w client) ≡ none
      → delete_snapshot_at A client id w ≡ (ok tt, w)
  unfolding delete_snapshot_at
  delete_snapshot_at-absent client id w absent =
      let (e, refused, missing) = S.delete-missing client id w absent in rw (refused, missing)

  -- Over an API that meets the laws of Service and SnapshotLaws, when the identifier is read and
  -- the endpoint of its zone is found, DeleteSnapshot is idempotent: after it has succeeded the
  -- snapshot is not there, and the same request succeeds again and changes nothing.
  pub delete_snapshot-idempotent :
      (d : ControllerService) (exo_id zone client id : String) (w : A.State) {w' : A.State}
      → get_exoscale_id A.parse_uuid exo_id ≡ ok (zone, id)
      → L.endpoint d.client zone ≡ ok client
      → delete_snapshot A d exo_id w ≡ (ok tt, w')
      → (snapshot_by_id id (snapshots w' client) ≡ none)
        × (delete_snapshot A d exo_id w' ≡ (ok tt, w'))
  delete_snapshot-idempotent d exo_id zone client id w {w'} read ends h =
      let gone =
        delete_snapshot_at-gone client id w
          (sym (delete_snapshot-eq A L d exo_id zone client id w read ends) ∙ h) in
      (
        gone,
        delete_snapshot-eq A L d exo_id zone client id w' read ends
            ∙ delete_snapshot_at-absent client id w' gone,
      )
