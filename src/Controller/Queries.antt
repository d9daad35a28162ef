-- ===== src/Controller/Queries.antt =====
-- ValidateVolumeCapabilities, ControllerGetVolume, ControllerGetCapabilities and GetCapacity.
pub mod Agreement
use exoscale_csi_driver.Base.{
  ℤ, String, str_eq, Option, none, some, List, [], ◌∷◌, if◌then◌else◌, invalid_argument,
  unimplemented, status, no_args, Action, pure, fail, lift, or_else, ◌>>=◌, ◌>>◌,
}
use exoscale_csi_driver.Csi.{single_node_writer, VolumeCapability, no_access_type}
use exoscale_csi_driver.Helpers.{exoscale_id, get_exoscale_id, convert_gib_to_bytes}
use exoscale_csi_driver.Api.{Api}
use exoscale_csi_driver.Controller.{ControllerService, new_client_zone}
use exoscale_csi_driver.Controller.Attachment.{volume_not_found}

-- csi.ControllerServiceCapability_RPC_Type
pub data ControllerCapability : Type 0 where
  create_delete_volume publish_unpublish_volume list_volumes_rpc : ControllerCapability
  create_delete_snapshot list_snapshots_rpc expand_volume : ControllerCapability
  list_volumes_published_nodes get_volume single_node_multi_writer_rpc : ControllerCapability

abbrev pub controller_capabilities : List ControllerCapability
controller_capabilities =
    create_delete_volume ∷ publish_unpublish_volume ∷ list_volumes_rpc ∷ create_delete_snapshot
    ∷ list_snapshots_rpc ∷ expand_volume ∷ list_volumes_published_nodes ∷ get_volume
    ∷ single_node_multi_writer_rpc ∷ []

-- A volume with the nodes that it is published to.
pub record VolumeStatus : Type 0 where
  pub volume_id : String
  pub capacity_bytes : ℤ
  pub published_node_ids : List String

-- `if v.Instance != nil && v.Instance.ID != ""`
unfoldable pub published_nodes : String → Option String → List String
unfolding exoscale_id
published_nodes zone_name none = []
published_nodes zone_name (some id) = if str_eq id "" then [] else exoscale_id zone_name id ∷ []

module _ (A : Api) where
  -- The request's capabilities are only tested for their presence.
  unfoldable pub confirm : Option (List VolumeCapability) → Action A.State (List VolumeCapability)
  confirm none = fail (status invalid_argument "volumeCapabilities is not provided" no_args)
  confirm (some _) =
      pure (record { access_mode = some single_node_writer; access_type = no_access_type } ∷ [])

  unfoldable pub validate_volume_capabilities :
      ControllerService
      → String
      → Option (List VolumeCapability)
      → Action A.State (List VolumeCapability)
  unfolding new_client_zone confirm
  validate_volume_capabilities d exo_id volume_capabilities = do
    (zone_name, volume_id) ← lift (get_exoscale_id A.parse_uuid exo_id)
    client ← new_client_zone A d.client zone_name
    A.get_block_storage_volume client volume_id
    confirm volume_capabilities

  unfoldable pub controller_get_volume : ControllerService → String → Action A.State VolumeStatus
  unfolding new_client_zone volume_not_found published_nodes convert_gib_to_bytes
  controller_get_volume d exo_id = do
    (zone_name, volume_id) ← lift (get_exoscale_id A.parse_uuid exo_id)
    client ← new_client_zone A d.client zone_name
    volume ← or_else (A.get_block_storage_volume client volume_id) (volume_not_found volume_id)
    pure (record {
      volume_id = exoscale_id zone_name volume.id;
      capacity_bytes = convert_gib_to_bytes volume.size;
      published_node_ids = published_nodes zone_name volume.instance_id;
    })

  unfoldable pub controller_get_capabilities : Action A.State (List ControllerCapability)
  controller_get_capabilities = pure controller_capabilities

  unfoldable pub get_capacity : Action A.State ℤ
  get_capacity = fail (status unimplemented "GetCapacity is not yet implemented" no_args)
