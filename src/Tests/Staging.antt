-- ===== src/Tests/Staging.antt =====
-- Staging, unstaging and expansion on a node, over a system in memory.
use exoscale_csi_driver.Base.{
  String, ◌<>◌, ◌≡◌, refl, sym, ap, ◌≢◌, ◌↔◌, inl, inr, true, some, str_eq, str_eq_iff,
  if◌then◌else◌, Bool-cases, any, split, contains, fields, is_not_exist, not_found, os_not_exist,
  status, foreign, no_args, text_arg, ok, err,
}
use exoscale_csi_driver.Csi.{VolumeCapability}
use exoscale_csi_driver.Helpers.{get_exoscale_id, id_of_parts, validate_volume_capability}
use exoscale_csi_driver.Disk.Paths.{join_path}
use exoscale_csi_driver.Disk.MountInfo.{
  MountInfo, mount_point_field, find_entry, parse_mount_info, entry_of_fields, split_optional,
}
use exoscale_csi_driver.Disk.MountInfo.Lookup.{Answer}
use exoscale_csi_driver.Disk.Utils.Shared.{IsShared, is_shared_mounted_iff}
use exoscale_csi_driver.Disk.Utils.{
  dev_disk_id, get_device_path, is_block_mode, is_block_device, get_mount_info, is_shared_mounted,
  check_shared, is_shared_field, format_and_mount, unmount, resize, resize_mounted, resize_type,
  run_tool,
}
use exoscale_csi_driver.Node.Staging.{
  StageRequest, UnstageRequest, required_capability, stage_mount, stage_device,
  stage_unless_mounted, stage_device_path, unstage_path, unstage_without_path, node_stage_volume,
  node_unstage_volume,
}
use exoscale_csi_driver.Node.Staging.Mounts.{
  Staged, Unstaged, node_stage_volume-Staged, node_unstage_volume-Unstaged,
}
use exoscale_csi_driver.Node.Info.{
  ExpandRequest, expands_block, expand_file_system, node_expand_volume,
}
use exoscale_csi_driver.Node.Info.Growth.{Expanded, node_expand_volume-Expanded}
use exoscale_csi_driver.Os.{Os}
use exoscale_csi_driver.Os.Laws.{Gone, CleanupLaws}
use exoscale_csi_driver.Node.Staging.Repeated.{node_unstage_volume_repeated}
use exoscale_csi_driver.Node.Devices.{DeviceOf}
use exoscale_csi_driver.Tests.System.{system, uuid, device, capability}

abbrev stage_request : StageRequest
stage_request = record {
  volume_id = "ch-gva-2/" <> uuid;
  staging_target_path = "/staging";
  volume_capability = some capability;
}

node_stage_volume_stages : node_stage_volume system ok stage_request "" ≡ (ok tt, "")
unfolding node_stage_volume get_exoscale_id id_of_parts split required_capability
    validate_volume_capability any stage_device_path get_device_path dev_disk_id join_path
    is_block_mode stage_device stage_unless_mounted is_shared_mounted get_mount_info
    parse_mount_info find_entry check_shared stage_mount format_and_mount contains
node_stage_volume_stages = refl

node_stage_volume-Staged_example :
    (c : VolumeCapability) × (device_path : String) × (stage_request.volume_capability ≡ some c)
    × (validate_volume_capability (some c) ≡ ok tt)
    × (stage_request.staging_target_path ≢ "")
    × DeviceOf system ok stage_request.volume_id device_path
    × Staged system stage_request device_path c.access_type ""
node_stage_volume-Staged_example =
    node_stage_volume-Staged system ok stage_request "" node_stage_volume_stages

abbrev staged : String
staged = "40 30 253:1 / /staging rw shared:1 - ext4 /dev/vdb rw"

abbrev staged_path : String
staged_path = "/staging"

abbrev unstage_request : UnstageRequest
unstage_request = record { volume_id = "ch-gva-2/" <> uuid; staging_target_path = "/staging" }

node_unstage_volume_unstages :
    node_unstage_volume system ok unstage_request staged ≡ (ok tt, staged)
unfolding node_unstage_volume get_exoscale_id id_of_parts split get_device_path dev_disk_id
    join_path is_block_mode unstage_path unstage_without_path is_shared_mounted get_mount_info
    parse_mount_info find_entry entry_of_fields split_optional mount_point_field fields check_shared
    is_shared_field any unmount contains
node_unstage_volume_unstages = refl

node_unstage_volume-Unstaged_example :
    (unstage_request.staging_target_path ≢ "") × Unstaged system ok unstage_request staged
node_unstage_volume-Unstaged_example =
    node_unstage_volume-Unstaged system ok unstage_request staged node_unstage_volume_unstages

abbrev expand_request : ExpandRequest
expand_request = record {
  volume_id = "ch-gva-2/" <> uuid;
  volume_path = "/staging";
  volume_capability = some capability;
}

node_expand_volume_expands : node_expand_volume system ok expand_request staged ≡ (ok tt, staged)
unfolding node_expand_volume get_exoscale_id id_of_parts split get_device_path dev_disk_id join_path
    is_block_mode is_block_device expands_block validate_volume_capability any expand_file_system
    resize get_mount_info parse_mount_info find_entry mount_point_field fields entry_of_fields
    split_optional resize_mounted resize_type run_tool contains
node_expand_volume_expands = refl

node_expand_volume-Expanded_example :
    (device_path : String) × DeviceOf system ok expand_request.volume_id device_path
    × Expanded system expand_request device_path staged
node_expand_volume-Expanded_example =
    node_expand_volume-Expanded system ok expand_request staged node_expand_volume_expands

is_shared_mounted_iff_example :
    (is_shared_mounted system "/staging" "/dev/vdb" staged ≡ (ok true, staged)) ↔ (
      (staged_path ≢ "")
      × ((info : MountInfo) × Answer "/staging" (split b'\n' staged) (some info)
          × IsShared "/dev/vdb" info))
is_shared_mounted_iff_example =
    is_shared_mounted_iff system "/staging" "/dev/vdb" staged staged staged refl

-- A system whose state is the last path that was cleaned up, which does not exist then.
abbrev cleaned_up : String → String
cleaned_up path = "gone " <> path

abbrev cleaning : Os
cleaning = record system {
  stat = λ path w.
      if str_eq w (cleaned_up path)
      then (err (foreign os_not_exist "no such file or directory"), w)
      else system.stat path w;
  cleanup_mount_point = λ path check w. (ok tt, cleaned_up path);
}

removes : (path w : String) → w ≡ cleaned_up path → Gone cleaning path w
unfolding is_not_exist
removes path w e = (
  foreign os_not_exist "no such file or directory",
  rw ((str_eq_iff w (cleaned_up path)).1 e),
  refl,
)

abbrev cleanup_laws : CleanupLaws cleaning
cleanup_laws = record {
  cleanup-removes = λ path w w' e. removes path w' (sym (ap (λ p. p.1) e));
  stat-keeps = λ path w. elim (Bool-cases (str_eq w (cleaned_up path))) [
    | inl gone ↦ rw gone refl
    | inr there ↦ rw there refl
  ];
}

cleaning_unstages :
    node_unstage_volume cleaning ok unstage_request staged ≡ (ok tt, "gone /staging")
unfolding node_unstage_volume get_exoscale_id id_of_parts split get_device_path dev_disk_id
    join_path is_block_mode unstage_path unstage_without_path is_shared_mounted get_mount_info
    parse_mount_info find_entry entry_of_fields split_optional mount_point_field fields check_shared
    is_shared_field any unmount contains
cleaning_unstages = refl

node_unstage_volume_repeated_example :
    Gone cleaning "/staging" "gone /staging"
    × (node_unstage_volume cleaning ok unstage_request "gone /staging" ≡ (
      err (status not_found "volume %s not found on node" (text_arg uuid no_args)),
      "gone /staging",
    ))
unfolding get_exoscale_id id_of_parts split get_device_path dev_disk_id join_path is_block_mode
    contains is_shared_mounted get_mount_info parse_mount_info find_entry entry_of_fields
    split_optional mount_point_field fields check_shared is_shared_field any
node_unstage_volume_repeated_example =
    node_unstage_volume_repeated cleaning cleanup_laws ok unstage_request "ch-gva-2" uuid device
      staged refl refl refl cleaning_unstages refl
