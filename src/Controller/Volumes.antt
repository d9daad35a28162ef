-- ===== src/Controller/Volumes.antt =====
-- CreateVolume and DeleteVolume.
pub mod Provisioning
pub mod Idempotence
pub mod Answers
pub mod Deletion
pub mod Capacity
use exoscale_csi_driver.Base.{
  zero, suc, String, not, Option, none, some, str_eq, if◌then◌else◌, eqb_ℤ, mod_ℤ, ℤ, find?,
  is_not_found, Result, Action, pure, fail, lift, proceed, handle, ◌>>=◌, ◌>>◌, or_else, pos,
  internal_error, invalid_argument, not_found, status, errorf, no_args, text_arg, number_arg,
  nil_dereference, ok, err, panic,
}
use exoscale_csi_driver.Csi.{
  Volume, TopologyRequirement, CapacityRange, ContentSource, snapshot_source,
}
use exoscale_csi_driver.Helpers.{
  gib, exoscale_id, get_exoscale_id, new_zone_topology, convert_bytes_to_gib, convert_gib_to_bytes,
  get_required_zone,
}
use exoscale_csi_driver.Api.{Api, BlockStorageVolume, CreateRequest}
use exoscale_csi_driver.Controller.{ControllerService, new_client_zone}

abbrev pub default_volume_size_gib : ℤ
default_volume_size_gib = pos 100

pub record CreateVolumeRequest : Type 0 where
  pub name : String
  pub capacity_range : Option CapacityRange
  pub volume_content_source : Option ContentSource
  pub accessibility_requirements : Option TopologyRequirement

-- The volume of the answer when one of the name exists.
unfoldable pub existing_volume : String → BlockStorageVolume → Volume
unfolding exoscale_id convert_gib_to_bytes new_zone_topology
existing_volume zone_name v = record {
  volume_id = exoscale_id zone_name v.id;
  capacity_bytes = convert_gib_to_bytes v.size;
  accessible_topology = new_zone_topology zone_name;
  content_source = none;
}

-- The size in GiB that is asked for; the upper limit is not read.
unfoldable pub requested_size : Option CapacityRange → Result ℤ
unfolding convert_bytes_to_gib
requested_size none = ok default_volume_size_gib
requested_size (some r) =
    if not (eqb_ℤ (mod_ℤ r.required_bytes gib) (pos 0))
    then err (
        errorf "requested size in bytes cannot be exactly converted to GiB: %d"
          (number_arg r.required_bytes no_args))
    else ok (convert_bytes_to_gib r.required_bytes)

-- `opDone.Reference.ID`
unfoldable pub reference_id : Option String → Result String
reference_id none = panic nil_dereference
reference_id (some id) = ok id

module _ (A : Api) where
  -- The snapshot of the content source, looked up with the client of the zone.
  unfoldable pub snapshot_target : String → Option ContentSource → Action A.State (Option String)
  snapshot_target client none = pure none
  snapshot_target client (some (snapshot_source (some id))) = do
    (_, snapshot_id) ← lift (get_exoscale_id A.parse_uuid id)
    snapshot ← or_else (A.get_block_storage_snapshot client snapshot_id) λ e.
        if is_not_found e
        then status not_found "snapshot %s not found" (text_arg snapshot_id no_args)
        else e
    pure (some snapshot.id)
  snapshot_target client (some (snapshot_source none)) =
      fail (status internal_error "error retrieving snapshot from the volumeContentSource" no_args)
  snapshot_target client (some _) =
      fail (status invalid_argument "unsupported volumeContentSource type" no_args)

  -- The rest of CreateVolume, when no volume has the name.
  unfoldable pub provision_volume : String → String → CreateVolumeRequest → Action A.State Volume
  unfolding snapshot_target requested_size reference_id
  provision_volume client zone_name req = do
    target ← snapshot_target client req.volume_content_source
    size_in_gib ← lift (requested_size req.capacity_range)
    let request : CreateRequest = record {
      name = req.name;
      size = size_in_gib;
      block_storage_snapshot = target;
    }
    lift (A.validate request)
    op ← A.create_block_storage_volume client request
    op_done ← A.wait client op
    id ← lift (reference_id op_done.reference)
    pure (record {
      volume_id = exoscale_id zone_name id;
      capacity_bytes = convert_gib_to_bytes size_in_gib;
      accessible_topology = new_zone_topology zone_name;
      content_source = req.volume_content_source;
    })

  -- The loop over the volumes of the zone returns at the first one of the name.
  unfoldable pub create_or_reuse :
      String → String → CreateVolumeRequest → Option BlockStorageVolume → Action A.State Volume
  unfolding provision_volume existing_volume
  create_or_reuse client zone_name req none = provision_volume client zone_name req
  create_or_reuse client zone_name req (some v) = pure (existing_volume zone_name v)

  unfoldable pub create_volume : ControllerService → CreateVolumeRequest → Action A.State Volume
  unfolding get_required_zone new_client_zone create_or_reuse find?
  create_volume d req = do
    zone_name ← lift (get_required_zone req.accessibility_requirements d.zone_name)
    client ← new_client_zone A d.client zone_name
    volumes ← A.list_block_storage_volumes client
    create_or_reuse client zone_name req (find? (λ v. str_eq v.name req.name) volumes)

  -- A volume that is not there counts as deleted.
  unfoldable pub delete_at : String → String → Action A.State (Unit {0})
  delete_at client volume_id =
      handle (A.delete_block_storage_volume client volume_id)
        (λ e. if is_not_found e then pure tt else fail e) (λ op. do A.wait client op; pure tt)

  unfoldable pub delete_volume : ControllerService → String → Action A.State (Unit {0})
  unfolding new_client_zone delete_at
  delete_volume d exo_id = do
    (zone_name, volume_id) ← lift (get_exoscale_id A.parse_uuid exo_id)
    client ← new_client_zone A d.client zone_name
    delete_at client volume_id
