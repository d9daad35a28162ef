-- ===== src/Node/Info.antt =====
-- NodeGetVolumeStats, NodeGetCapabilities, NodeGetInfo and NodeExpandVolume.
pub mod Announced
pub mod Usage
pub mod Growth
use exoscale_csi_driver.Base.{
  ℕ, ◌+◌, ◌-◌, ◌*◌, ◌%◌, ltb, ℤ, pos, negsuc, Bool, true, false, String, str_eq, Option, none, some,
  List, [], ◌∷◌, if◌then◌else◌, invalid_argument, not_found, internal_error, status, no_args,
  text_arg, error_arg, is_not_exist, Error, Result, ok, err, panic, Action, pure, fail, lift,
  or_else, ◌>>=◌, ◌>>◌,
}
use exoscale_csi_driver.Csi.{VolumeCapability, Topology}
use exoscale_csi_driver.Helpers.{
  exoscale_id, get_exoscale_id, new_zone_topology, validate_volume_capability,
}
use exoscale_csi_driver.Os.{Os, Statfs}
use exoscale_csi_driver.Disk.Utils.{
  get_device_path, is_shared_mounted, is_block_device, get_statfs, resize,
}
use exoscale_csi_driver.Node.{NodeService, require_path}
use exoscale_csi_driver.Node.Publishing.{is_block}
use exoscale_csi_driver.Node.Staging.{stat_failed}

-- csi.NodeServiceCapability_RPC_Type
pub data NodeCapability : Type 0 where
  stage_unstage_volume get_volume_stats expand_volume single_node_multi_writer_rpc : NodeCapability

abbrev pub node_capabilities : List NodeCapability
node_capabilities =
    stage_unstage_volume ∷ get_volume_stats ∷ expand_volume ∷ single_node_multi_writer_rpc ∷ []

abbrev pub max_volumes_per_node : ℤ
max_volumes_per_node = pos 5

pub record NodeInfo : Type 0 where
  pub node_id : String
  pub max_volumes_per_node : ℤ
  pub accessible_topology : Option Topology

-- One csi.VolumeUsage, without its unit: bytes come first, inodes second.
pub record VolumeUsage : Type 0 where
  pub total : ℤ
  pub available : ℤ
  pub used : ℤ

-- uint64 arithmetic.
abbrev two64 : ℕ
two64 = 18446744073709551616

unfoldable pub mul_u64 : ℕ → ℕ → ℕ
mul_u64 a b = (a * b) % two64

unfoldable pub sub_u64 : ℕ → ℕ → ℕ
sub_u64 a b = (a + two64 - b) % two64

-- `uint64(n)` of an `int64`, and `int64(n)` of a `uint64`.
unfoldable pub to_u64 : ℤ → ℕ
to_u64 (pos n) = n
to_u64 (negsuc n) = two64 - 1 - n

unfoldable pub to_i64 : ℕ → ℤ
to_i64 n = if ltb n 9223372036854775808 then pos n else negsuc (two64 - 1 - n)

unfoldable pub usage : ℕ → ℕ → VolumeUsage
unfolding sub_u64 to_i64
usage total available = record {
  total = to_i64 total;
  available = to_i64 available;
  used = to_i64 (sub_u64 total available);
}

unfoldable pub disk_usage : Statfs → VolumeUsage
unfolding usage mul_u64 to_u64
disk_usage fs = usage (mul_u64 fs.blocks (to_u64 fs.bsize)) (mul_u64 fs.bfree (to_u64 fs.bsize))

unfoldable pub inodes_usage : Statfs → VolumeUsage
unfolding usage
inodes_usage fs = usage fs.files fs.ffree

first_topology : List Topology → Option Topology
first_topology [] = none
first_topology (t ∷ _) = some t

-- The staging path is preferred.
abbrev stats_path : String → String → String
stats_path volume_path staging_path = if str_eq staging_path "" then volume_path else staging_path

pub record ExpandRequest : Type 0 where
  pub volume_id : String
  pub volume_path : String
  pub volume_capability : Option VolumeCapability

-- A capability that says "block" wins over the test of the path.
unfoldable pub expands_block : Bool → Option VolumeCapability → Result Bool
unfolding validate_volume_capability
expands_block path_is_block none = ok path_is_block
expands_block path_is_block (some c) = elim (validate_volume_capability (some c)) [
  | ok _ ↦ ok (if is_block c.access_type then true else path_is_block)
  | err e ↦ err (status invalid_argument "volumeCapability not supported: %s" (error_arg e no_args))
  | panic p ↦ panic p
]

unfoldable pub node_get_info : NodeService → Result NodeInfo
unfolding exoscale_id new_zone_topology first_topology
node_get_info d = ok (record {
  node_id = exoscale_id d.zone_name d.node_id;
  max_volumes_per_node = max_volumes_per_node;
  accessible_topology = first_topology (new_zone_topology d.zone_name);
})

-- The errors of NodeExpandVolume.
abbrev pub expand_device_failed : String → Error → Error
expand_device_failed volume_id e =
    if is_not_exist e
    then status not_found "volume %s is not mounted on node" (text_arg volume_id no_args)
    else status internal_error "failed to get device path for volume %s: %v"
        (text_arg volume_id (error_arg e no_args))

abbrev pub resize_failed : String → String → Error → Error
resize_failed volume_id volume_path e =
    status internal_error "failed to resize volume %s mounted on %s: %v"
      (text_arg volume_id (text_arg volume_path (error_arg e no_args)))

module _ (O : Os) (parse_uuid : String → Result String) where
  -- The request's `volume_id`, `volume_path` and `staging_target_path`.
  unfoldable pub node_get_volume_stats :
      String → String → String → Action O.State (List VolumeUsage)
  unfolding is_shared_mounted get_device_path get_statfs disk_usage inodes_usage
  node_get_volume_stats exo_id path staging_path = do
    (_, volume_id) ← lift (get_exoscale_id parse_uuid exo_id)
    require_path invalid_argument "volumePath not provided" path
    let volume_path = stats_path path staging_path
    is_mounted ← or_else (is_shared_mounted O volume_path "") λ e.
        status internal_error "error checking mount point of path %s for volume %s: %s"
          (text_arg volume_path (text_arg volume_id (error_arg e no_args)))
    (if is_mounted
        then pure tt
        else fail (status not_found "volume with ID %s not found" (text_arg volume_id no_args)))
    or_else (get_device_path O volume_id) λ e.
        if is_not_exist e
        then status not_found "volume with ID %s not found" (text_arg volume_id no_args)
        else status internal_error "error getting device path for volume with ID %s: %s"
            (text_arg volume_id (error_arg e no_args))
    fs ← or_else (get_statfs O volume_path) λ e.
        status internal_error "error doing stat on %s: %s"
          (text_arg volume_path (error_arg e no_args))
    pure (disk_usage fs ∷ inodes_usage fs ∷ [])

  unfoldable pub node_get_capabilities : Action O.State (List NodeCapability)
  node_get_capabilities = pure node_capabilities

  unfoldable pub expand_file_system : Bool → String → String → String → Action O.State (Unit {0})
  unfolding resize
  expand_file_system true volume_id volume_path device_path = pure tt
  expand_file_system false volume_id volume_path device_path =
      or_else (resize O volume_path device_path) (resize_failed volume_id volume_path)

  unfoldable pub node_expand_volume : ExpandRequest → Action O.State (Unit {0})
  unfolding get_device_path is_block_device expands_block expand_file_system
  node_expand_volume req = do
    (_, volume_id) ← lift (get_exoscale_id parse_uuid req.volume_id)
    require_path invalid_argument "volumePath not provided" req.volume_path
    device_path ← or_else (get_device_path O volume_id) (expand_device_failed volume_id)
    path_is_block ← or_else (is_block_device O req.volume_path) (stat_failed device_path)
    is_block_volume ← lift (expands_block path_is_block req.volume_capability)
    expand_file_system is_block_volume volume_id req.volume_path device_path
