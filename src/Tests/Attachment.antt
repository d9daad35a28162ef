-- ===== src/Tests/Attachment.antt =====
-- ControllerPublishVolume, ControllerUnpublishVolume and CreateSnapshot over a service in memory.
use exoscale_csi_driver.Base.{
  suc, String, ◌≡◌, refl, none, some, List, [], ◌∷◌, ne_of_str_eq-false, find?, split, pos,
  nil_dereference, ok, panic,
}
use exoscale_csi_driver.Helpers.{exoscale_id, get_exoscale_id, id_of_parts}
use exoscale_csi_driver.Api.{BlockStorageVolume, BlockStorageSnapshot}
use exoscale_csi_driver.Api.Laws.{by_id, IsOff}
use exoscale_csi_driver.Api.Memory.{
  remove_snapshot, drop_snapshot, Memory, memory_api, found, attach_volume, detach_volume,
  detach_from, update, missing, new_snapshot, add_snapshot, add_to, done,
}
use exoscale_csi_driver.Api.Memory.Laws.{memory_service}
use exoscale_csi_driver.Controller.{ControllerService, new_client_zone}
use exoscale_csi_driver.Controller.Attachment.{
  PublishContext, publish_context, attach, is_attached_to, controller_publish_volume, detach_at,
  controller_unpublish_volume,
}
use exoscale_csi_driver.Controller.Attachment.Idempotence.{
  controller_publish_volume-idempotent, controller_unpublish_volume-idempotent,
}
use exoscale_csi_driver.Controller.Listing.{Snapshot, volume_entry}
use exoscale_csi_driver.Controller.Queries.{VolumeStatus, controller_get_volume}
use exoscale_csi_driver.Controller.Queries.Agreement.{
  Agrees, controller_get_volume-volume_entry, controller_get_volume-controller_publish_volume,
}
use exoscale_csi_driver.Api.Snapshots.{snapshot_by_id}
use exoscale_csi_driver.Base.Decimal.{itoa}
use exoscale_csi_driver.Api.Memory.Snapshots.{memory_snapshots, memory_creation}
use exoscale_csi_driver.Controller.Snapshots.{
  find_snapshot, take_or_reuse, take_snapshot, snapshot_reference, delete_snapshot,
  delete_snapshot_at, snapshot_of, create_snapshot,
}
use exoscale_csi_driver.Controller.Snapshots.Creation.{create_snapshot-idempotent}
use exoscale_csi_driver.Controller.Snapshots.Deletion.{delete_snapshot-idempotent}
use exoscale_csi_driver.Controller.Snapshots.Lookup.{
  Reaches, here, past, Describes, create_snapshot-reuses, create_snapshot_panics,
}

abbrev service : ControllerService
service = record { client = "ch-gva-2"; zone_name = "ch-gva-2" }

abbrev volume : BlockStorageVolume
volume = record {
  id = "7";
  name = "data";
  size = pos 10;
  instance_id = none;
  block_storage_snapshots = "8" ∷ "9" ∷ [];
}

abbrev snapshot : String → String → BlockStorageSnapshot
snapshot id name = record {
  id = id;
  name = name;
  created_at = record { unix = pos 0; nanosecond = 0 };
  block_storage_volume = some "7";
}

abbrev detached : Memory
detached = record {
  next = 10;
  volumes = volume ∷ [];
  snapshots = snapshot "8" "monday" ∷ snapshot "9" "tuesday" ∷ [];
}

abbrev attached : Memory
attached = record detached { volumes = record volume { instance_id = some "i-1" } ∷ [] }

abbrev context : PublishContext
context =
    ("csi.exoscale.com/volume-name", "data")
    ∷ ("csi.exoscale.com/volume-id", "7")
    ∷ ("csi.exoscale.com/volume-zone", "ch-gva-2")
    ∷ []

controller_publish_volume_attaches :
    controller_publish_volume memory_api service "ch-gva-2/i-1" "ch-gva-2/7" detached
    ≡ (ok context, attached)
unfolding controller_publish_volume get_exoscale_id id_of_parts split new_client_zone found find?
    attach is_attached_to attach_volume update publish_context
controller_publish_volume_attaches = refl

controller_publish_volume-idempotent_example :
    ((v : BlockStorageVolume) × (by_id "7" attached.volumes ≡ some v)
      × (v.instance_id ≡ some "i-1"))
    × (controller_publish_volume memory_api service "ch-gva-2/i-1" "ch-gva-2/7" attached
        ≡ (ok context, attached))
unfolding get_exoscale_id id_of_parts split memory_service
controller_publish_volume-idempotent_example =
    controller_publish_volume-idempotent memory_api memory_service service "ch-gva-2/i-1"
      "ch-gva-2/7" "ch-gva-2" "ch-gva-2" "i-1" "7" detached (refl, refl, ("ch-gva-2", refl))
      controller_publish_volume_attaches

controller_get_volume-volume_entry_example :
    (s : VolumeStatus) × (controller_get_volume memory_api service "ch-gva-2/7" attached
      ≡ (ok s, attached))
    × Agrees memory_api memory_service s
        (volume_entry "ch-gva-2" (record volume { instance_id = some "i-1" }))
unfolding get_exoscale_id id_of_parts split memory_service find?
controller_get_volume-volume_entry_example =
    controller_get_volume-volume_entry memory_api memory_service service "ch-gva-2/7" "ch-gva-2"
      "ch-gva-2" "7" (record volume { instance_id = some "i-1" }) attached refl refl refl

controller_get_volume-controller_publish_volume_example :
    (s : VolumeStatus) × (controller_get_volume memory_api service "ch-gva-2/7" attached
      ≡ (ok s, attached))
    × (s.published_node_ids ≡ exoscale_id "ch-gva-2" "i-1" ∷ [])
unfolding get_exoscale_id id_of_parts split memory_service
controller_get_volume-controller_publish_volume_example =
    controller_get_volume-controller_publish_volume memory_api memory_service service "ch-gva-2/i-1"
      "ch-gva-2/7" "ch-gva-2" "ch-gva-2" "i-1" "7" detached refl refl refl
      (ne_of_str_eq-false "i-1" "" refl) controller_publish_volume_attaches

controller_unpublish_volume_detaches :
    controller_unpublish_volume memory_api service "ch-gva-2/7" attached ≡ (ok tt, detached)
unfolding controller_unpublish_volume get_exoscale_id id_of_parts split new_client_zone find?
    detach_at detach_volume detach_from update
controller_unpublish_volume_detaches = refl

controller_unpublish_volume-idempotent_example :
    IsOff "7" detached.volumes
    × (controller_unpublish_volume memory_api service "ch-gva-2/7" detached ≡ (ok tt, detached))
unfolding get_exoscale_id id_of_parts split memory_service
controller_unpublish_volume-idempotent_example =
    controller_unpublish_volume-idempotent memory_api memory_service service "ch-gva-2/7" "ch-gva-2"
      "ch-gva-2" "7" attached refl refl controller_unpublish_volume_detaches

past_monday :
    (ids : List String) → Reaches memory_api detached "ch-gva-2" "tuesday" "9" ("8" ∷ "9" ∷ ids)
unfolding found find?
past_monday ids = past (snapshot "8" "monday", refl, λ e. cc e) here

create_snapshot-reuses_example :
    (answer : Snapshot) × (create_snapshot memory_api service "ch-gva-2/7" "tuesday" detached
      ≡ (ok answer, detached))
    × Describes memory_api detached "ch-gva-2" volume (snapshot "9" "tuesday") answer
unfolding get_exoscale_id id_of_parts split new_client_zone found find?
create_snapshot-reuses_example =
    create_snapshot-reuses memory_api detached service "ch-gva-2/7" "tuesday" "ch-gva-2" "ch-gva-2"
      "9" volume (snapshot "9" "tuesday") ("7", refl, refl, refl) (past_monday []) refl refl

abbrev lost : BlockStorageVolume
lost = record volume { block_storage_snapshots = "4" ∷ [] }

create_snapshot_panics_example :
    create_snapshot memory_api service "ch-gva-2/7" "tuesday"
      (record detached { volumes = lost ∷ [] })
    ≡ (panic nil_dereference, record detached { volumes = lost ∷ [] })
unfolding get_exoscale_id id_of_parts split new_client_zone found find?
create_snapshot_panics_example =
    create_snapshot_panics memory_api (record detached { volumes = lost ∷ [] }) service "ch-gva-2/7"
      "tuesday" "ch-gva-2" "ch-gva-2" "4" lost missing ("7", refl, refl, refl) here refl

delete_snapshot_deletes :
    delete_snapshot memory_api service "ch-gva-2/9" detached
    ≡ (ok tt, record detached { snapshots = snapshot "8" "monday" ∷ [] })
unfolding delete_snapshot delete_snapshot_at get_exoscale_id id_of_parts split new_client_zone
    drop_snapshot remove_snapshot find?
delete_snapshot_deletes = refl

delete_snapshot-idempotent_example :
    (snapshot_by_id "9" (snapshot "8" "monday" ∷ []) ≡ none)
    × (delete_snapshot memory_api service "ch-gva-2/9"
          (record detached { snapshots = snapshot "8" "monday" ∷ [] })
        ≡ (ok tt, record detached { snapshots = snapshot "8" "monday" ∷ [] }))
unfolding get_exoscale_id id_of_parts split memory_service memory_snapshots
delete_snapshot-idempotent_example =
    delete_snapshot-idempotent memory_api memory_service memory_snapshots service "ch-gva-2/9"
      "ch-gva-2" "ch-gva-2" "9" detached refl refl delete_snapshot_deletes

-- One more snapshot of the volume.
abbrev wednesday : Memory
wednesday = record detached {
  next = suc detached.next;
  volumes =
      record volume { block_storage_snapshots = itoa (pos detached.next) ∷ "8" ∷ "9" ∷ [] } ∷ [];
  snapshots = new_snapshot (itoa (pos detached.next)) "7" "wednesday" ∷ detached.snapshots;
}

create_snapshot_creates : create_snapshot memory_api service "ch-gva-2/7" "wednesday" detached ≡ (
  ok (snapshot_of "ch-gva-2" volume (new_snapshot (itoa (pos detached.next)) "7" "wednesday")),
  wednesday,
)
unfolding create_snapshot find_snapshot take_or_reuse take_snapshot snapshot_reference
    get_exoscale_id id_of_parts split new_client_zone add_snapshot add_to done found find? itoa
create_snapshot_creates = refl

create_snapshot-idempotent_example :
    create_snapshot memory_api service "ch-gva-2/7" "wednesday" wednesday ≡ (
      ok (snapshot_of "ch-gva-2" volume (new_snapshot (itoa (pos detached.next)) "7" "wednesday")),
      wednesday,
    )
unfolding get_exoscale_id id_of_parts split memory_service
create_snapshot-idempotent_example =
    create_snapshot-idempotent memory_api memory_service memory_creation service "ch-gva-2/7"
      "wednesday" "ch-gva-2" "ch-gva-2" "7" detached refl refl create_snapshot_creates
