-- ===== src/Tests/Lifecycle.antt =====
-- A sequence of requests: the same creation twice, a deletion, and a snapshot that is deleted again.
use exoscale_csi_driver.Base.{String, refl, none, [], ◌∷◌, find?, split, pos}
use exoscale_csi_driver.Base.Decimal.{itoa}
use exoscale_csi_driver.Helpers.{get_exoscale_id, id_of_parts, get_required_zone}
use exoscale_csi_driver.Api.{BlockStorageVolume}
use exoscale_csi_driver.Api.Names.{names}
use exoscale_csi_driver.Api.Memory.{
  Memory, memory_api, add, drop_volume, remove, new_snapshot, add_snapshot, add_to, done, found,
  drop_snapshot, remove_snapshot,
}
use exoscale_csi_driver.Api.Memory.Laws.{memory_service}
use exoscale_csi_driver.Api.Memory.Names.{memory_api-NameLaws}
use exoscale_csi_driver.Controller.{ControllerService, new_client_zone}
use exoscale_csi_driver.Controller.Volumes.{
  CreateVolumeRequest, create_volume, delete_volume, provision_volume, create_or_reuse, delete_at,
}
use exoscale_csi_driver.Controller.Snapshots.{
  create_snapshot, find_snapshot, take_or_reuse, take_snapshot, snapshot_reference, delete_snapshot,
  delete_snapshot_at,
}
use exoscale_csi_driver.Controller.Lifecycle.{
  Steps, creates, deletes, snapshots, deletes_snapshot, idle, next,
}
use exoscale_csi_driver.Controller.Lifecycle.Distinct.{Distinct}
use exoscale_csi_driver.Controller.Lifecycle.Names.{Steps-Distinct}

abbrev service : ControllerService
service = record { client = "ch-gva-2"; zone_name = "ch-gva-2" }

abbrev request : CreateVolumeRequest
request = record {
  name = "data";
  capacity_range = none;
  volume_content_source = none;
  accessibility_requirements = none;
}

abbrev volume : String → String → BlockStorageVolume
volume id name = record {
  id = id;
  name = name;
  size = pos 100;
  instance_id = none;
  block_storage_snapshots = [];
}

abbrev before : Memory
before = record { next = 7; volumes = volume "6" "logs" ∷ []; snapshots = [] }

abbrev between : Memory
between = record { next = 8; volumes = volume "6" "logs" ∷ volume "7" "data" ∷ []; snapshots = [] }

abbrev behind : Memory
behind = record { next = 8; volumes = volume "7" "data" ∷ []; snapshots = [] }

-- A snapshot of the volume.
abbrev with_snapshot : Memory
with_snapshot = record {
  next = 9;
  volumes = record (volume "7" "data") { block_storage_snapshots = "8" ∷ [] } ∷ [];
  snapshots = new_snapshot "8" "7" "monday" ∷ [];
}

abbrev without_snapshot : Memory
without_snapshot = record with_snapshot { snapshots = [] }

requests : Steps memory_api memory_service service "ch-gva-2" "ch-gva-2" before without_snapshot
unfolding get_required_zone create_volume create_or_reuse provision_volume new_client_zone add find?
    delete_volume delete_at drop_volume remove get_exoscale_id id_of_parts split memory_service itoa
    create_snapshot find_snapshot take_or_reuse take_snapshot snapshot_reference add_snapshot add_to
    done found delete_snapshot delete_snapshot_at drop_snapshot remove_snapshot
requests = next (creates request _ before between (refl, refl) refl) (
    next (creates request _ between between (refl, refl) refl) (
      next (deletes "ch-gva-2/6" "6" _ between behind refl refl) (
        next (snapshots "ch-gva-2/7" "monday" "7" _ behind with_snapshot refl refl) (
          next (deletes_snapshot "ch-gva-2/8" "8" _ with_snapshot without_snapshot refl refl)
            (idle without_snapshot)))))

Steps-Distinct_example : Distinct (names without_snapshot.volumes)
unfolding memory_service
Steps-Distinct_example =
    Steps-Distinct memory_api memory_service memory_api-NameLaws service "ch-gva-2" "ch-gva-2" refl
      requests (tt, tt)
