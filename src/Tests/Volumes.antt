-- ===== src/Tests/Volumes.antt =====
-- CreateVolume, DeleteVolume and ControllerExpandVolume over a service in memory.
use exoscale_csi_driver.Base.{
  ◌≡◌, ◌*ℤ◌, refl, true, none, some, [], ◌∷◌, arith, wrap64, ℤ, find?, split, pos, ok,
}
use exoscale_csi_driver.Csi.{Volume, CapacityRange}
use exoscale_csi_driver.Helpers.{
  exoscale_id, get_exoscale_id, id_of_parts, new_zone_topology, convert_bytes_to_gib,
  convert_gib_to_bytes, get_required_zone,
}
use exoscale_csi_driver.Base.Decimal.{itoa}
use exoscale_csi_driver.Api.{BlockStorageVolume}
use exoscale_csi_driver.Api.Laws.{by_id, by_name}
use exoscale_csi_driver.Api.Memory.{Memory, memory_api, add, done, found, drop_volume, remove}
use exoscale_csi_driver.Api.Memory.Laws.{memory_service}
use exoscale_csi_driver.Controller.{ControllerService, new_client_zone}
use exoscale_csi_driver.Controller.Volumes.{
  CreateVolumeRequest, create_volume, delete_volume, existing_volume, provision_volume, delete_at,
}
use exoscale_csi_driver.Controller.Volumes.Idempotence.{SameVolume, create_volume-idempotent}
use exoscale_csi_driver.Controller.Volumes.Answers.{Names, Obtained, create_volume-answers}
use exoscale_csi_driver.Controller.Volumes.Deletion.{delete_volume-idempotent}
use exoscale_csi_driver.Controller.Volumes.Capacity.{create_volume-exact}
use exoscale_csi_driver.Controller.Expand.{
  ExpandRequest, ExpandResponse, controller_expand_volume, whole_gib,
}
use exoscale_csi_driver.Controller.Expand.Bounds.{
  IsWhole, InRange, Resized, controller_expand_volume-bounds,
}

abbrev service : ControllerService
service = record { client = "ch-gva-2"; zone_name = "ch-gva-2" }

abbrev range : CapacityRange
range = record { required_bytes = pos 10737418240; limit_bytes = pos 0 }

abbrev request : CreateVolumeRequest
request = record {
  name = "data";
  capacity_range = some range;
  volume_content_source = none;
  accessibility_requirements = none;
}

abbrev empty : Memory
empty = record { next = 7; volumes = []; snapshots = [] }

abbrev volume : BlockStorageVolume
volume = record {
  id = "7";
  name = "data";
  size = pos 10;
  instance_id = none;
  block_storage_snapshots = [];
}

abbrev stored : Memory
stored = record { next = 8; volumes = volume ∷ []; snapshots = [] }

abbrev created : Volume
created = record {
  volume_id = "ch-gva-2/7";
  capacity_bytes = pos 10737418240;
  accessible_topology = new_zone_topology "ch-gva-2";
  content_source = none;
}

create_volume_creates : create_volume memory_api service request empty ≡ (ok created, stored)
unfolding create_volume provision_volume get_required_zone new_client_zone exoscale_id
    convert_gib_to_bytes convert_bytes_to_gib wrap64 add done itoa
create_volume_creates = refl

create_volume-idempotent_example :
    (vol' : Volume) × (create_volume memory_api service request stored ≡ (ok vol', stored))
    × SameVolume memory_api memory_service request created vol'
unfolding get_required_zone memory_service
create_volume-idempotent_example =
    create_volume-idempotent memory_api memory_service service request "ch-gva-2" "ch-gva-2" empty
      (refl, refl) create_volume_creates

abbrev full_size : ℤ
full_size = pos 10737418240

create_volume-exact_example :
    (v : BlockStorageVolume) × (by_name "data" stored.volumes ≡ some v)
    × (v.size *ℤ 1073741824 ≡ full_size)
    × (created.capacity_bytes ≡ full_size)
unfolding get_required_zone find? memory_service
create_volume-exact_example =
    create_volume-exact memory_api memory_service service request "ch-gva-2" "ch-gva-2" empty
      (refl, refl) refl (10737418240, refl, omega arith, omega arith) create_volume_creates

create_volume_reuses :
    create_volume memory_api service request stored
    ≡ (ok (existing_volume "ch-gva-2" volume), stored)
unfolding create_volume get_required_zone new_client_zone find?
create_volume_reuses = refl

create_volume-answers_example :
    (v : BlockStorageVolume) × (by_name "data" stored.volumes ≡ some v)
    × Names "ch-gva-2" v (existing_volume "ch-gva-2" volume)
    × Obtained memory_api memory_service request "ch-gva-2" v
        (existing_volume "ch-gva-2" volume)
        stored
        stored
unfolding get_required_zone memory_service
create_volume-answers_example =
    create_volume-answers memory_api memory_service service request "ch-gva-2" "ch-gva-2" stored
      (refl, refl) create_volume_reuses

delete_volume_deletes :
    delete_volume memory_api service "ch-gva-2/7" stored ≡ (ok tt, record stored { volumes = [] })
unfolding delete_volume get_exoscale_id id_of_parts new_client_zone delete_at drop_volume remove
    find? split
delete_volume_deletes = refl

delete_volume-idempotent_example :
    (by_id "7" [] ≡ none)
    × (delete_volume memory_api service "ch-gva-2/7" (record stored { volumes = [] })
        ≡ (ok tt, record stored { volumes = [] }))
unfolding get_exoscale_id id_of_parts split find? memory_service
delete_volume-idempotent_example =
    delete_volume-idempotent memory_api memory_service service "ch-gva-2/7" "ch-gva-2" "ch-gva-2"
      "7" stored refl refl delete_volume_deletes

abbrev expand_request : ExpandRequest
expand_request = record {
  volume_id = "ch-gva-2/7";
  capacity_range = some (record { required_bytes = pos 21474836480; limit_bytes = pos 0 });
  volume_capability = none;
}

abbrev expanded : ExpandResponse
expanded = record { capacity_bytes = pos 21474836480; node_expansion_required = true }

controller_expand_volume_expands :
    controller_expand_volume memory_api service expand_request stored ≡ (ok expanded, stored)
unfolding controller_expand_volume get_exoscale_id id_of_parts new_client_zone found find? split
    whole_gib convert_bytes_to_gib convert_gib_to_bytes wrap64
controller_expand_volume_expands = refl

controller_expand_volume-bounds_example :
    (size : ℤ) × IsWhole size (pos 21474836480)
    × InRange expand_request.capacity_range (pos 21474836480)
    × Resized memory_api size stored
controller_expand_volume-bounds_example =
    controller_expand_volume-bounds memory_api service expand_request stored
      controller_expand_volume_expands
