-- ===== src/Controller/Queries/Agreement.antt =====
-- What ControllerGetVolume reports, beside ListVolumes and after ControllerPublishVolume.
use exoscale_csi_driver.Base.{String, ◌≡◌, refl, ap, ◌∙◌, ◌≢◌, some, [], ◌∷◌, str_eq-false, ok}
use exoscale_csi_driver.Helpers.{exoscale_id, get_exoscale_id, convert_gib_to_bytes}
use exoscale_csi_driver.Api.{Api, BlockStorageVolume}
use exoscale_csi_driver.Api.Laws.{by_id, Service}
use exoscale_csi_driver.Controller.{ControllerService, new_client_zone}
use exoscale_csi_driver.Controller.Attachment.{PublishContext, controller_publish_volume}
use exoscale_csi_driver.Controller.Attachment.Idempotence.{
  get-eq, controller_publish_volume-idempotent,
}
use exoscale_csi_driver.Controller.Listing.{VolumeEntry, volume_entry}
use exoscale_csi_driver.Controller.Queries.{VolumeStatus, published_nodes, controller_get_volume}

module _ (A : Api) (L : Service A) where
  open L use {volumes}

  -- The report and the entry of the listing say the same.
  abbrev pub Agrees : VolumeStatus → VolumeEntry → Type 0
  Agrees s e =
      (s.volume_id ≡ e.volume_id)
      × (s.capacity_bytes ≡ e.capacity_bytes)
      × (s.published_node_ids ≡ e.published_node_ids)

  -- Over an API that meets the laws of Service, when the identifier is read, the endpoint of its
  -- zone is found and the volume is there: ControllerGetVolume succeeds, changes nothing, and
  -- reports the identifier, the capacity and the nodes that ListVolumes has in its entry of the
  -- volume.
  pub controller_get_volume-volume_entry :
      (d : ControllerService) (exo_id zone client id : String) (v : BlockStorageVolume)
      (w : A.State)
      → get_exoscale_id A.parse_uuid exo_id ≡ ok (zone, id)
      → L.endpoint d.client zone ≡ ok client
      → by_id id (volumes w client) ≡ some v
      → (s : VolumeStatus) × (controller_get_volume A d exo_id w ≡ (ok s, w))
        × Agrees s (volume_entry zone v)
  unfolding controller_get_volume new_client_zone volume_entry
  controller_get_volume-volume_entry d exo_id zone client id v w read ends there = (
    record {
      volume_id = exoscale_id zone v.id;
      capacity_bytes = convert_gib_to_bytes v.size;
      published_node_ids = published_nodes zone v.instance_id;
    },
    rw (read, L.get_zone_api_endpoint-eq, ends, get-eq A L client id v w there),
    (refl, refl, refl),
  )

  published_nodes-on :
      (zone instance : String)
      → instance ≢ ""
      → published_nodes zone (some instance) ≡ exoscale_id zone instance ∷ []
  unfolding published_nodes
  published_nodes-on zone instance h = rw (str_eq-false instance "" h)

  -- Over an API that meets the laws of Service, when node and volume are of one zone, whose
  -- endpoint is found, and the node's instance is not empty: after ControllerPublishVolume has
  -- succeeded, ControllerGetVolume reports that the volume is published on this node and on no
  -- other one.
  pub controller_get_volume-controller_publish_volume :
      (d : ControllerService) (node_id exo_volume_id zone client instance id : String) (w : A.State)
      {context : PublishContext} {w' : A.State}
      → get_exoscale_id A.parse_uuid node_id ≡ ok (zone, instance)
      → get_exoscale_id A.parse_uuid exo_volume_id ≡ ok (zone, id)
      → L.endpoint d.client zone ≡ ok client
      → instance ≢ ""
      → controller_publish_volume A d node_id exo_volume_id w ≡ (ok context, w')
      → (s : VolumeStatus) × (controller_get_volume A d exo_volume_id w' ≡ (ok s, w'))
        × (s.published_node_ids ≡ exoscale_id zone instance ∷ [])
  unfolding volume_entry
  controller_get_volume-controller_publish_volume d node_id exo_volume_id zone client instance id w
        {context} {w'} node volume ends given h =
      let ((v, there, on), _) =
        controller_publish_volume-idempotent A L d node_id exo_volume_id zone client instance id w
          (node, ends, (zone, volume)) h in
      let (s, reports, (_, _, nodes)) =
        controller_get_volume-volume_entry d exo_volume_id zone client id v w' volume ends there in
      (s, reports, nodes ∙ ap (published_nodes zone) on ∙ published_nodes-on zone instance given)
