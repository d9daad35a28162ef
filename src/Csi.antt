-- ===== src/Csi.antt =====
-- The parts of the CSI messages (vendor/github.com/container-storage-interface/spec/lib/go/csi)
-- that the driver reads or writes. A pointer or a nil slice is an `Option`; a map is a list of
-- its entries.
use exoscale_csi_driver.Base.{ℕ, ℤ, String, Option, List}

-- csi.VolumeCapability_AccessMode_Mode, by its numbers: UNKNOWN, SINGLE_NODE_WRITER,
-- SINGLE_NODE_SINGLE_WRITER and SINGLE_NODE_MULTI_WRITER are named below.
abbrev pub AccessMode : Type 0
AccessMode = ℕ

abbrev pub unknown_mode : AccessMode
unknown_mode = 0

abbrev pub single_node_writer : AccessMode
single_node_writer = 1

abbrev pub single_node_single_writer : AccessMode
single_node_single_writer = 6

abbrev pub single_node_multi_writer : AccessMode
single_node_multi_writer = 7

pub record MountVolume : Type 0 where
  pub fs_type : String
  pub mount_flags : List String

-- The oneof `access_type`. The messages inside it are never nil on the wire.
pub data AccessType : Type 0 where
  no_access_type : AccessType
  block : AccessType
  mount : MountVolume → AccessType

pub record VolumeCapability : Type 0 where
  pub access_mode : Option AccessMode
  pub access_type : AccessType

pub record CapacityRange : Type 0 where
  pub required_bytes : ℤ
  pub limit_bytes : ℤ

pub record Topology : Type 0 where
  pub segments : List (String × String)

pub record TopologyRequirement : Type 0 where
  pub requisite : Option (List Topology)

-- The oneof `type` of a volume's content source.
pub data ContentSource : Type 0 where
  no_source : ContentSource
  snapshot_source : Option String → ContentSource
  volume_source : ContentSource

pub record Volume : Type 0 where
  pub volume_id : String
  pub capacity_bytes : ℤ
  pub accessible_topology : List Topology
  pub content_source : Option ContentSource
