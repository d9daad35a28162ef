-- ===== src/Api.antt =====
-- The Exoscale API client, github.com/exoscale/egoscale/v3 (vendor/): what the driver calls, over
-- an unknown state of the service. Each call may change the state, also by what other clients do
-- meanwhile. A client is its endpoint: `WithEndpoint` replaces it.
pub mod Laws
pub mod Memory
pub mod Names
pub mod Snapshots
use exoscale_csi_driver.Base.{ℕ, ℤ, String, Option, List, Result, Action}

pub record Zone : Type 0 where
  pub name : String
  pub api_endpoint : String

-- v3.InstanceTarget and v3.BlockStorageSnapshotTarget are an ID.
pub record BlockStorageVolume : Type 0 where
  pub id : String
  pub name : String
  pub size : ℤ
  pub instance_id : Option String
  pub block_storage_snapshots : List String

-- time.Time, as timestamppb.New reads it: Unix() and Nanosecond().
pub record Time : Type 0 where
  pub unix : ℤ
  pub nanosecond : ℕ

pub record BlockStorageSnapshot : Type 0 where
  pub id : String
  pub name : String
  pub created_at : Time
  pub block_storage_volume : Option String

-- v3.Operation, with the ID of its reference.
pub record Operation : Type 0 where
  pub id : String
  pub reference : Option String

pub record CreateRequest : Type 0 where
  pub name : String
  pub size : ℤ
  pub block_storage_snapshot : Option String

pub record Api : Type 1 where
  pub State : Type 0
  pub parse_uuid : String → Result String
  pub validate : CreateRequest → Result (Unit {0})
  pub get_zone_api_endpoint : String → String → Action State String
  pub list_zones : String → Action State (List Zone)
  pub list_block_storage_volumes : String → Action State (List BlockStorageVolume)
  pub get_block_storage_volume : String → String → Action State BlockStorageVolume
  pub create_block_storage_volume : String → CreateRequest → Action State Operation
  pub delete_block_storage_volume : String → String → Action State Operation
  pub attach_block_storage_volume_to_instance : String → String → String → Action State Operation
  pub detach_block_storage_volume : String → String → Action State Operation
  pub resize_block_storage_volume : String → String → ℤ → Action State Operation
  pub list_block_storage_snapshots : String → Action State (List BlockStorageSnapshot)
  pub get_block_storage_snapshot : String → String → Action State BlockStorageSnapshot
  pub create_block_storage_snapshot : String → String → String → Action State Operation
  pub delete_block_storage_snapshot : String → String → Action State Operation
  -- `client.Wait(ctx, op, v3.OperationStateSuccess)`
  pub wait : String → Operation → Action State Operation
