-- ===== src/Controller/Lifecycle.antt =====
-- Sequences of requests to the controller service, in one zone: each request runs to its end, with
-- or without an error, before the next one.
pub mod Distinct
pub mod Others
pub mod Names
use exoscale_csi_driver.Base.{zero, suc, String, ◌≡◌, if◌then◌else◌, Result, proceed, ok}
use exoscale_csi_driver.Csi.{Volume}
use exoscale_csi_driver.Helpers.{get_exoscale_id}
use exoscale_csi_driver.Api.{Api}
use exoscale_csi_driver.Api.Laws.{Service}
use exoscale_csi_driver.Controller.{ControllerService}
use exoscale_csi_driver.Controller.Volumes.{CreateVolumeRequest, create_volume, delete_volume}
use exoscale_csi_driver.Controller.Volumes.Idempotence.{LeadsTo}
use exoscale_csi_driver.Controller.Attachment.{
  PublishContext, controller_publish_volume, controller_unpublish_volume,
}
use exoscale_csi_driver.Controller.Expand.{ExpandRequest, ExpandResponse, controller_expand_volume}
use exoscale_csi_driver.Controller.Listing.{Snapshot}
use exoscale_csi_driver.Controller.Snapshots.{create_snapshot, delete_snapshot}
use exoscale_csi_driver.Controller.Attachment.Idempotence.{Reads}

module _ (A : Api) (L : Service A) (d : ControllerService) (zone client : String) where
  pub data Step : A.State → A.State → Type 0 where
    creates :
        (req : CreateVolumeRequest) (r : Result Volume) (w w' : A.State)
        → LeadsTo A L d req zone client
        → create_volume A d req w ≡ (r, w')
        → Step w w'
    deletes :
        (exo_id id : String) (r : Result (Unit {0})) (w w' : A.State)
        → get_exoscale_id A.parse_uuid exo_id ≡ ok (zone, id)
        → delete_volume A d exo_id w ≡ (r, w')
        → Step w w'
    publishes :
        (node_id exo_volume_id instance id : String) (r : Result PublishContext) (w w' : A.State)
        → Reads A L d node_id exo_volume_id zone client instance id
        → controller_publish_volume A d node_id exo_volume_id w ≡ (r, w')
        → Step w w'
    unpublishes :
        (exo_volume_id id : String) (r : Result (Unit {0})) (w w' : A.State)
        → get_exoscale_id A.parse_uuid exo_volume_id ≡ ok (zone, id)
        → controller_unpublish_volume A d exo_volume_id w ≡ (r, w')
        → Step w w'
    expands :
        (req : ExpandRequest) (id : String) (r : Result ExpandResponse) (w w' : A.State)
        → get_exoscale_id A.parse_uuid req.volume_id ≡ ok (zone, id)
        → controller_expand_volume A d req w ≡ (r, w')
        → Step w w'
    snapshots :
        (source name id : String) (r : Result Snapshot) (w w' : A.State)
        → get_exoscale_id A.parse_uuid source ≡ ok (zone, id)
        → create_snapshot A d source name w ≡ (r, w')
        → Step w w'
    deletes_snapshot :
        (exo_id id : String) (r : Result (Unit {0})) (w w' : A.State)
        → get_exoscale_id A.parse_uuid exo_id ≡ ok (zone, id)
        → delete_snapshot A d exo_id w ≡ (r, w')
        → Step w w'

  -- Any number of requests.
  pub data Steps : A.State → A.State → Type 0 where
    idle : (w : A.State) → Steps w w
    next : {w w₁ w' : A.State} → Step w w₁ → Steps w₁ w' → Steps w w'
