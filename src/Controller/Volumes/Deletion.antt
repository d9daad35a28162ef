-- ===== src/Controller/Volumes/Deletion.antt =====
-- DeleteVolume, called again after it succeeded.
use exoscale_csi_driver.Base.{String, ◌≡◌, sym, ◌∙◌, none, is_not_found, tolerant-ok_elim, ok}
use exoscale_csi_driver.Helpers.{get_exoscale_id}
use exoscale_csi_driver.Api.{Api}
use exoscale_csi_driver.Api.Laws.{by_id, Service}
use exoscale_csi_driver.Controller.{ControllerService, new_client_zone}
use exoscale_csi_driver.Controller.Volumes.{delete_volume, delete_at}

module _ (A : Api) (L : Service A) where
  open L use {volumes}

  delete_at-gone :
      (client id : String) (w : A.State) {w' : A.State}
      → delete_at A client id w ≡ (ok tt, w')
      → by_id id (L.volumes w' client) ≡ none
  unfolding delete_at
  delete_at-gone client id w {w'} h =
      tolerant-ok_elim (λ t. by_id id (volumes t client) ≡ none)
        (A.delete_block_storage_volume client id) (A.wait client) is_not_found w h
        (λ op done w₁ w₂ deleted waited. L.delete-gone client id op done w w₁ w₂ deleted waited)
        (λ e w₁ refused missing. L.delete-404 client id e w w₁ refused missing)

  pub delete_volume-eq :
      (d : ControllerService) (exo_id zone client id : String) (w : A.State)
      → get_exoscale_id A.parse_uuid exo_id ≡ ok (zone, id)
      → L.endpoint d.client zone ≡ ok client
      → delete_volume A d exo_id w ≡ delete_at A client id w
  unfolding delete_volume new_client_zone
  delete_volume-eq d exo_id zone client id w read ends = rw (read, L.get_zone_api_endpoint-eq, ends)

  delete_volume-absent :
      (d : ControllerService) (exo_id zone client id : String) (w : A.State)
      → get_exoscale_id A.parse_uuid exo_id ≡ ok (zone, id)
      → L.endpoint d.client zone ≡ ok client
      → by_id id (L.volumes w client) ≡ none
      → delete_volume A d exo_id w ≡ (ok tt, w)
  unfolding delete_volume new_client_zone delete_at
  delete_volume-absent d exo_id zone client id w read ends absent =
      let (e, refused, missing) = L.delete-missing client id w absent in
      rw (read, L.get_zone_api_endpoint-eq, ends, refused, missing)

  -- DeleteVolume is idempotent, over an API that meets the laws of Service, when the identifier is
  -- read and the endpoint of its zone is found: after it has succeeded the volume is not there, and
  -- the same request succeeds again and changes nothing.
  pub delete_volume-idempotent :
      (d : ControllerService) (exo_id zone client id : String) (w : A.State) {w' : A.State}
      → get_exoscale_id A.parse_uuid exo_id ≡ ok (zone, id)
      → L.endpoint d.client zone ≡ ok client
      → delete_volume A d exo_id w ≡ (ok tt, w')
      → (by_id id (L.volumes w' client) ≡ none) × (delete_volume A d exo_id w' ≡ (ok tt, w'))
  delete_volume-idempotent d exo_id zone client id w {w'} read ends h =
      let gone : by_id id (L.volumes w' client) ≡ none =
        delete_at-gone client id w
          (sym (delete_volume-eq d exo_id zone client id w read ends) ∙ h) in
      (gone, delete_volume-absent d exo_id zone client id w' read ends gone)
