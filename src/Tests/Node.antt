-- ===== src/Tests/Node.antt =====
-- The node service over a system in memory.
use exoscale_csi_driver.Base.{
  String, ◌<>◌, ◌≡◌, refl, ◌↔◌, ◌⊎◌, true, some, [], ◌∷◌, arith, any, has_char, split, contains,
  pos, ok,
}
use exoscale_csi_driver.Csi.{VolumeCapability}
use exoscale_csi_driver.Helpers.{
  exoscale_id, new_zone_topology, get_exoscale_id, id_of_parts, validate_volume_capability,
}
use exoscale_csi_driver.Os.{Statfs}
use exoscale_csi_driver.Tests.System.{system, uuid, capability}
use exoscale_csi_driver.Disk.Paths.{join_path}
use exoscale_csi_driver.Disk.MountInfo.{MountInfo, find_entry, parse_mount_info}
use exoscale_csi_driver.Disk.MountInfo.Lookup.{Answer, find_entry_iff}
use exoscale_csi_driver.Disk.Utils.{
  dev_disk_id, get_device_path, is_block_mode, get_mount_info, is_shared_mounted, check_shared,
  mount_to_target,
}
use exoscale_csi_driver.Node.Staging.{required_capability}
use exoscale_csi_driver.Node.Devices.{DeviceOf}
use exoscale_csi_driver.Node.Publishing.{
  PublishRequest, create_mount_point, mount_source, mount_type, mount_options, publish_mount,
  publish_device, node_publish_volume,
}
use exoscale_csi_driver.Node.Publishing.Mounts.{Mounted, WasMounted, node_publish_volume-mounts}
use exoscale_csi_driver.Node.{NodeService}
use exoscale_csi_driver.Node.Info.Announced.{LeadsToZone, node_get_info-announces}
use exoscale_csi_driver.Node.Info.{NodeInfo, node_get_info, ExpandRequest, disk_usage, inodes_usage}
use exoscale_csi_driver.Node.Info.Usage.{Balanced, disk_usage-Balanced}

abbrev publish_request : PublishRequest
publish_request = record {
  volume_id = "ch-gva-2/" <> uuid;
  staging_target_path = "/staging";
  target_path = "/target";
  volume_capability = some capability;
  read_only = true;
}

abbrev line : String
line = "40 30 253:1 / /target rw shared:1 - ext4 /staging rw"

node_publish_volume_publishes : node_publish_volume system ok publish_request "" ≡ (ok tt, line)
unfolding node_publish_volume get_exoscale_id id_of_parts split required_capability
    validate_volume_capability any get_device_path dev_disk_id join_path is_block_mode
    publish_device is_shared_mounted get_mount_info parse_mount_info find_entry check_shared
    publish_mount create_mount_point mount_to_target mount_source mount_type mount_options contains
node_publish_volume_publishes = refl

node_publish_volume-mounts_example :
    (c : VolumeCapability) × (device_path : String) × (publish_request.volume_capability ≡ some c)
    × (validate_volume_capability (some c) ≡ ok tt)
    × DeviceOf system ok publish_request.volume_id device_path
    × (WasMounted system publish_request device_path
        ⊎ Mounted system publish_request device_path c.access_type line)
node_publish_volume-mounts_example =
    node_publish_volume-mounts system ok publish_request "" node_publish_volume_publishes

abbrev entry : MountInfo
entry = record {
  id = pos 40;
  parent_id = pos 30;
  major_minor = "253:1";
  root = "/";
  source = "/staging";
  mount_point = "/target";
  optional_fields = "shared:1" ∷ [];
  fs_type = "ext4";
  mount_options = "rw" ∷ [];
  super_options = "rw" ∷ [];
}

find_entry_iff_example :
    (find_entry "/target" ("" ∷ line ∷ []) ≡ ok (some entry))
    ↔ Answer "/target" ("" ∷ line ∷ []) (some entry)
find_entry_iff_example = find_entry_iff "/target" ("" ∷ line ∷ []) (some entry)

abbrev expand_request : ExpandRequest
expand_request = record {
  volume_id = "ch-gva-2/" <> uuid;
  volume_path = "/target";
  volume_capability = some capability;
}

abbrev statfs : Statfs
statfs = record { blocks = 1000; bfree = 400; files = 64; ffree = 60; bsize = pos 4096 }

disk_usage-Balanced_example :
    Balanced 4096000 1638400 (disk_usage statfs) × Balanced 64 60 (inodes_usage statfs)
disk_usage-Balanced_example =
    disk_usage-Balanced statfs 4096 refl (omega arith) (omega arith) (omega arith) (omega arith)

abbrev node : NodeService
node = record { node_id = uuid; zone_name = "ch-gva-2" }

abbrev announced : NodeInfo
announced = record {
  node_id = "ch-gva-2/01234567-89ab-cdef-0123-456789abcdef";
  max_volumes_per_node = pos 5;
  accessible_topology =
      some (record { segments = ("topology.csi.exoscale.com/zone", "ch-gva-2") ∷ [] });
}

node_get_info_answers : node_get_info node ≡ ok announced
unfolding node_get_info exoscale_id new_zone_topology
node_get_info_answers = refl

node_get_info-announces_example :
    (get_exoscale_id ok announced.node_id ≡ ok ("ch-gva-2", uuid))
    × LeadsToZone "ch-gva-2" "de-fra-1" announced.accessible_topology
unfolding has_char
node_get_info-announces_example =
    node_get_info-announces ok node "de-fra-1" refl refl refl node_get_info_answers
