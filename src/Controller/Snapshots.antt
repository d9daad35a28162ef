-- ===== src/Controller/Snapshots.antt =====
-- CreateSnapshot and DeleteSnapshot.
pub mod Lookup
pub mod Deletion
pub mod Creation
use exoscale_csi_driver.Base.{
  true, String, str_eq, Option, none, some, List, [], ◌∷◌, if◌then◌else◌, errorf, no_args, text_arg,
  is_not_found, nil_dereference, Result, ok, err, panic, Action, pure, fail, lift, handle, ◌>>=◌,
  ◌>>◌,
}
use exoscale_csi_driver.Helpers.{exoscale_id, get_exoscale_id}
use exoscale_csi_driver.Api.{Api, BlockStorageVolume, BlockStorageSnapshot, Operation}
use exoscale_csi_driver.Controller.{ControllerService, new_client_zone}
use exoscale_csi_driver.Controller.Listing.{Snapshot}

unfoldable pub snapshot_of : String → BlockStorageVolume → BlockStorageSnapshot → Snapshot
unfolding exoscale_id
snapshot_of zone_name volume snapshot = record {
  snapshot_id = exoscale_id zone_name snapshot.id;
  source_volume_id = exoscale_id zone_name volume.id;
  creation_time = snapshot.created_at;
  ready_to_use = true;
}

-- `op.Reference`, whose absence is tested here.
unfoldable pub snapshot_reference : Operation → Result String
snapshot_reference op = elim op.reference [
  | none ↦ err (errorf "operation reference: %v not found" (text_arg op.id no_args))
  | some id ↦ ok id
]

module _ (A : Api) where
  -- The loop over the snapshots of the volume. When the lookup of one fails the client returns
  -- nil with the error; the error is logged only, and `snapshot.Name` reads through nil.
  unfoldable pub find_snapshot :
      String → String → List String → Action A.State (Option BlockStorageSnapshot)
  find_snapshot client name [] = pure none
  find_snapshot client name (id ∷ ids) =
      let rest = find_snapshot client name ids in
      handle (A.get_block_storage_snapshot client id) (λ _. lift (panic nil_dereference))
        (λ snapshot. if str_eq snapshot.name name then pure (some snapshot) else rest)

  unfoldable pub take_snapshot :
      String → String → BlockStorageVolume → String → Action A.State Snapshot
  unfolding snapshot_of snapshot_reference
  take_snapshot client zone_name volume name = do
    op ← A.create_block_storage_snapshot client volume.id name
    op_done ← A.wait client op
    id ← lift (snapshot_reference op_done)
    snapshot ← A.get_block_storage_snapshot client id
    pure (snapshot_of zone_name volume snapshot)

  unfoldable pub take_or_reuse :
      String
      → String
      → BlockStorageVolume
      → String
      → Option BlockStorageSnapshot
      → Action A.State Snapshot
  unfolding take_snapshot snapshot_of
  take_or_reuse client zone_name volume name none = take_snapshot client zone_name volume name
  take_or_reuse client zone_name volume name (some s) = pure (snapshot_of zone_name volume s)

  -- The request's `source_volume_id` and `name`.
  unfoldable pub create_snapshot : ControllerService → String → String → Action A.State Snapshot
  unfolding new_client_zone find_snapshot take_or_reuse
  create_snapshot d source_volume_id name = do
    (zone_name, volume_id) ← lift (get_exoscale_id A.parse_uuid source_volume_id)
    client ← new_client_zone A d.client zone_name
    volume ← A.get_block_storage_volume client volume_id
    found ← find_snapshot client name volume.block_storage_snapshots
    take_or_reuse client zone_name volume name found

  unfoldable pub delete_snapshot_at : String → String → Action A.State (Unit {0})
  delete_snapshot_at client snapshot_id =
      handle (A.delete_block_storage_snapshot client snapshot_id)
        (λ e. if is_not_found e then pure tt else fail e) (λ op. do A.wait client op; pure tt)

  unfoldable pub delete_snapshot : ControllerService → String → Action A.State (Unit {0})
  unfolding new_client_zone delete_snapshot_at
  delete_snapshot d exo_id = do
    (zone_name, snapshot_id) ← lift (get_exoscale_id A.parse_uuid exo_id)
    client ← new_client_zone A d.client zone_name
    delete_snapshot_at client snapshot_id
