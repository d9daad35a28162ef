-- ===== src/Api/Memory/Names.antt =====
-- The service in memory meets the laws on names.
use mathlib.Core.List.{append-nil}
use exoscale_csi_driver.Base.{
  String, ◌≡◌, refl, sym, ap, inl, inr, Option, none, some, List, [], ◌∷◌, str_eq, Bool-cases, pure,
  pos,
}
use exoscale_csi_driver.Api.{BlockStorageVolume, BlockStorageSnapshot}
use exoscale_csi_driver.Api.Laws.{by_id}
use exoscale_csi_driver.Api.Names.{names, after, NameLaws, Thins, done, keep, drop}
use exoscale_csi_driver.Api.Memory.{
  Memory, memory_api, add_to, add_snapshot, drop_snapshot, update, remove, add, drop_volume,
  attach_volume, detach_volume, detach_from,
}
use exoscale_csi_driver.Api.Snapshots.{snapshot_by_id}
use exoscale_csi_driver.Base.Decimal.{itoa}
use exoscale_csi_driver.Api.Memory.Laws.{memory_service}

keeps : (vs : List BlockStorageVolume) → Thins (names vs) (names vs)
keeps [] = done
keeps (v ∷ vs) = keep v.name (keeps vs)

remove-Thins :
    (id : String) (vs : List BlockStorageVolume) → Thins (names vs) (names (remove id vs))
unfolding remove
remove-Thins id [] = done
remove-Thins id (v ∷ vs) = elim (Bool-cases (str_eq v.id id)) [
  | inl e ↦ rw e (drop v.name (remove-Thins id vs))
  | inr n ↦ rw n (keep v.name (remove-Thins id vs))
]

drop_volume-Thins :
    (id : String) (o : Option BlockStorageVolume) (w : Memory)
    → Thins (names w.volumes) (names (after (drop_volume id o) pure w).volumes)
unfolding drop_volume
drop_volume-Thins id none w = keeps w.volumes
drop_volume-Thins id (some v) w = remove-Thins id w.volumes

update-names :
    (id : String) (i : Option String) (vs : List BlockStorageVolume)
    → names (update id i vs) ≡ names vs
unfolding update
update-names id i [] = refl
update-names id i (v ∷ vs) = elim (Bool-cases (str_eq v.id id)) [
  | inl e ↦ rw e (ap (λ ns. v.name ∷ ns) (update-names id i vs))
  | inr n ↦ rw n (ap (λ ns. v.name ∷ ns) (update-names id i vs))
]

attach_volume-names :
    (id i : String) (o : Option BlockStorageVolume) (w : Memory)
    → names (after (attach_volume id i o) pure w).volumes ≡ names w.volumes
unfolding attach_volume
attach_volume-names id i none w = refl
attach_volume-names id i (some v) w = update-names id (some i) w.volumes

detach_from-names :
    (id : String) (i : Option String) (w : Memory)
    → names (after (detach_from id i) pure w).volumes ≡ names w.volumes
unfolding detach_from
detach_from-names id none w = refl
detach_from-names id (some i) w = update-names id none w.volumes

detach_volume-names :
    (id : String) (o : Option BlockStorageVolume) (w : Memory)
    → names (after (detach_volume id o) pure w).volumes ≡ names w.volumes
unfolding detach_volume
detach_volume-names id none w = refl
detach_volume-names id (some v) w = detach_from-names id v.instance_id w

add_to-names :
    (id snapshot : String) (vs : List BlockStorageVolume) → names (add_to id snapshot vs) ≡ names vs
unfolding add_to
add_to-names id snapshot [] = refl
add_to-names id snapshot (v ∷ vs) = elim (Bool-cases (str_eq v.id id)) [
  | inl e ↦ rw e (ap (λ ns. v.name ∷ ns) (add_to-names id snapshot vs))
  | inr n ↦ rw n (ap (λ ns. v.name ∷ ns) (add_to-names id snapshot vs))
]

drop_snapshot-names :
    (id : String) (o : Option BlockStorageSnapshot) (w : Memory)
    → names (after (drop_snapshot id o) pure w).volumes ≡ names w.volumes
unfolding drop_snapshot
drop_snapshot-names id none w = refl
drop_snapshot-names id (some s) w = refl

pub memory_api-NameLaws : NameLaws memory_api memory_service
unfolding add add_snapshot drop_snapshot memory_service
memory_api-NameLaws = record {
  create-names = λ c req w. inr (
    record {
      id = itoa (pos w.next);
      name = req.name;
      size = req.size;
      instance_id = none;
      block_storage_snapshots = [];
    },
    refl,
    (w.volumes, [], sym (append-nil w.volumes), refl),
  );
  delete-names = λ c id w. drop_volume-Thins id (by_id id w.volumes) w;
  attach-names = λ c id i w. attach_volume-names id i (by_id id w.volumes) w;
  detach-names = λ c id w. detach_volume-names id (by_id id w.volumes) w;
  create_snapshot-names = λ c id name w. add_to-names id (itoa (pos w.next)) w.volumes;
  delete_snapshot-names = λ c id w. drop_snapshot-names id (snapshot_by_id id w.snapshots) w;
  resize-names = λ c id size w. refl;
}
