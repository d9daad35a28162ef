-- ===== src/Controller/Snapshots/Lookup.antt =====
-- CreateSnapshot, when the volume has snapshots already.
use exoscale_csi_driver.Base.{
  String, ◌<>◌, true, refl, ◌≡◌, ◌≢◌, Option, some, List, ◌∷◌, str_eq_iff, str_eq-false, Error,
  Result, fail, proceed, nil_dereference, ok, err, panic,
}
use exoscale_csi_driver.Helpers.{exoscale_id, get_exoscale_id}
use exoscale_csi_driver.Api.{Api, BlockStorageVolume, BlockStorageSnapshot}
use exoscale_csi_driver.Controller.Listing.{Snapshot}
use exoscale_csi_driver.Controller.{ControllerService, new_client_zone}
use exoscale_csi_driver.Controller.Snapshots.{
  snapshot_of, find_snapshot, take_or_reuse, create_snapshot,
}

module _ (A : Api) (w : A.State) where
  -- The snapshot that an ID leads to has another name.
  abbrev pub HasOther : String → String → String → Type 0
  HasOther client name id =
      (s : BlockStorageSnapshot) × (A.get_block_storage_snapshot client id w ≡ (ok s, w))
      × (s.name ≢ name)

  -- The lookups before `id`, all of snapshots with other names.
  pub data Reaches (client name id : String) : List String → Type 0 where
    here : {ids : List String} → Reaches client name id (id ∷ ids)
    past :
        {other : String} {ids : List String}
        → HasOther client name other
        → Reaches client name id ids
        → Reaches client name id (other ∷ ids)

  find_snapshot-Reaches :
      {client name id : String} {ids : List String} (r : Result BlockStorageSnapshot)
      (result : Result (Option BlockStorageSnapshot))
      → Reaches client name id ids
      → A.get_block_storage_snapshot client id w ≡ (r, w)
      → ((ids : List String) → find_snapshot A client name (id ∷ ids) w ≡ (result, w))
      → find_snapshot A client name ids w ≡ (result, w)
  unfolding find_snapshot
  find_snapshot-Reaches r result (here {ids}) h k = k ids
  find_snapshot-Reaches {client} {name} {id} r result (past {other} {ids} (s, found, ne) rest) h k =
      rw (found, str_eq-false s.name name ne) (find_snapshot-Reaches r result rest h k)

  -- What CreateSnapshot reads before it looks at the snapshots of the volume.
  abbrev pub Located : ControllerService → String → String → String → BlockStorageVolume → Type 0
  Located d source_volume_id zone client volume =
      (volume_id : String) × (get_exoscale_id A.parse_uuid source_volume_id ≡ ok (zone, volume_id))
      × (new_client_zone A d.client zone w ≡ (ok client, w))
      × (A.get_block_storage_volume client volume_id w ≡ (ok volume, w))

  create_snapshot-eq :
      (d : ControllerService) (source_volume_id name zone client : String)
      (volume : BlockStorageVolume) (result : Result (Option BlockStorageSnapshot))
      → Located d source_volume_id zone client volume
      → find_snapshot A client name volume.block_storage_snapshots w ≡ (result, w)
      → create_snapshot A d source_volume_id name w
        ≡ proceed (take_or_reuse A client zone volume name) fail result w
  unfolding create_snapshot
  create_snapshot-eq d source_volume_id name zone client volume result (volume_id, read, led, got)
        h =
      rw (read, led, got, h)

  -- The answer has the identifiers of the snapshot and of the volume in the zone, and the time.
  abbrev pub Describes : String → BlockStorageVolume → BlockStorageSnapshot → Snapshot → Type 0
  Describes zone volume s answer =
      (answer.snapshot_id ≡ zone <> ("/" <> s.id))
      × (answer.source_volume_id ≡ zone <> ("/" <> volume.id))
      × (answer.creation_time ≡ s.created_at)
      × (answer.ready_to_use ≡ true)

  -- When the identifier is read and the volume is found: if the lookups of the volume's snapshots
  -- succeed, and change nothing, up to the first one that has the name, CreateSnapshot succeeds and
  -- changes nothing, and its answer has the identifiers of that snapshot and of the volume in the
  -- zone, and the snapshot's time of creation, and says that it is ready.
  pub create_snapshot-reuses :
      (d : ControllerService) (source_volume_id name zone client id : String)
      (volume : BlockStorageVolume) (s : BlockStorageSnapshot)
      → Located d source_volume_id zone client volume
      → Reaches client name id volume.block_storage_snapshots
      → A.get_block_storage_snapshot client id w ≡ (ok s, w)
      → s.name ≡ name
      → (answer : Snapshot) × (create_snapshot A d source_volume_id name w ≡ (ok answer, w))
        × Describes zone volume s answer
  unfolding take_or_reuse find_snapshot snapshot_of exoscale_id
  create_snapshot-reuses d source_volume_id name zone client id volume s located reaches got named =
      (
        snapshot_of zone volume s,
        create_snapshot-eq d source_volume_id name zone client volume (ok (some s)) located (
            find_snapshot-Reaches (ok s) (ok (some s)) reaches got
              λ ids. rw (got, (str_eq_iff s.name name).1 named)),
        (refl, refl, refl, refl),
      )

  -- When the identifier is read and the volume is found: if the lookup of one of its snapshots
  -- fails before the name is found, CreateSnapshot panics, since the error is
  -- logged only, and the snapshot's name is read through nil.
  pub create_snapshot_panics :
      (d : ControllerService) (source_volume_id name zone client id : String)
      (volume : BlockStorageVolume) (e : Error)
      → Located d source_volume_id zone client volume
      → Reaches client name id volume.block_storage_snapshots
      → A.get_block_storage_snapshot client id w ≡ (err e, w)
      → create_snapshot A d source_volume_id name w ≡ (panic nil_dereference, w)
  unfolding find_snapshot
  create_snapshot_panics d source_volume_id name zone client id volume e located reaches fails =
      create_snapshot-eq d source_volume_id name zone client volume (panic nil_dereference) located
        (find_snapshot-Reaches (err e) (panic nil_dereference) reaches fails λ ids. rw fails)
