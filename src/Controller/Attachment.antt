-- ===== src/Controller/Attachment.antt =====
-- ControllerPublishVolume and ControllerUnpublishVolume.
pub mod Idempotence
use exoscale_csi_driver.Base.{
  zero, suc, String, Bool, false, not, ◌||◌, Option, none, some, List, [], ◌∷◌, str_eq,
  if◌then◌else◌, contains, is_not_found, foreign_text, Error, Action, pure, fail, lift, proceed,
  handle, ◌>>=◌, ◌>>◌, or_else, not_found, status, no_args, text_arg,
}
use exoscale_csi_driver.Helpers.{get_exoscale_id}
use exoscale_csi_driver.Api.{Api, BlockStorageVolume}
use exoscale_csi_driver.Controller.{ControllerService, new_client_zone}

-- A map from texts to texts.
abbrev pub PublishContext : Type 0
PublishContext = List (String × String)

unfoldable pub publish_context : String → BlockStorageVolume → PublishContext
publish_context zone_name volume =
    ("csi.exoscale.com/volume-name", volume.name)
    ∷ ("csi.exoscale.com/volume-id", volume.id)
    ∷ ("csi.exoscale.com/volume-zone", zone_name)
    ∷ []

-- `volume.Instance != nil && volume.Instance.ID == instanceID`
unfoldable pub is_attached_to : String → Option String → Bool
is_attached_to instance_id none = false
is_attached_to instance_id (some id) = str_eq id instance_id

-- `fmt.Errorf` of a 404 becomes the status NotFound, here and in other handlers.
unfoldable pub volume_not_found : String → Error → Error
unfolding is_not_found
volume_not_found volume_id e =
    if is_not_found e
    then status not_found "volume %s not found" (text_arg volume_id no_args)
    else e

-- The errors that mean that there is nothing to detach.
abbrev pub is_detached : Error → Bool
is_detached e = is_not_found e || contains (foreign_text e) "Volume not attached"

module _ (A : Api) where
  unfoldable pub attach :
      String → String → String → String → BlockStorageVolume → Action A.State PublishContext
  unfolding publish_context is_attached_to
  attach client zone_name volume_id instance_id volume =
      if is_attached_to instance_id volume.instance_id
      then pure (publish_context zone_name volume)
      else do
        op ← A.attach_block_storage_volume_to_instance client volume_id instance_id
        A.wait client op
        pure (publish_context zone_name volume)

  -- The arguments are the node's and the volume's identifiers.
  unfoldable pub controller_publish_volume :
      ControllerService → String → String → Action A.State PublishContext
  unfolding new_client_zone volume_not_found attach
  controller_publish_volume d node_id exo_volume_id = do
    (zone_name, instance_id) ← lift (get_exoscale_id A.parse_uuid node_id)
    client ← new_client_zone A d.client zone_name
    (_, volume_id) ← lift (get_exoscale_id A.parse_uuid exo_volume_id)
    volume ← or_else (A.get_block_storage_volume client volume_id) (volume_not_found volume_id)
    attach client zone_name volume_id instance_id volume

  unfoldable pub detach_at : String → String → Action A.State (Unit {0})
  detach_at client volume_id =
      handle (A.detach_block_storage_volume client volume_id)
        (λ e. if is_detached e then pure tt else fail e) (λ op. do A.wait client op; pure tt)

  unfoldable pub controller_unpublish_volume :
      ControllerService → String → Action A.State (Unit {0})
  unfolding new_client_zone detach_at
  controller_unpublish_volume d exo_volume_id = do
    (zone_name, volume_id) ← lift (get_exoscale_id A.parse_uuid exo_volume_id)
    client ← new_client_zone A d.client zone_name
    detach_at client volume_id
