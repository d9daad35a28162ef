-- ===== src/Api/Snapshots.antt =====
-- Documented behaviour of the API for snapshots: one that was deleted is gone, and to delete one
-- that is not there is a 404.
use exoscale_csi_driver.Base.{
  String, ◌≡◌, ◌≢◌, true, Option, none, some, List, ◌∷◌, ◌++◌, str_eq, find?, is_not_found, Error,
  ok, err,
}
use exoscale_csi_driver.Api.{Api, BlockStorageVolume, BlockStorageSnapshot, Operation}

abbrev pub snapshot_by_id : String → List BlockStorageSnapshot → Option BlockStorageSnapshot
snapshot_by_id id = find? (λ s. str_eq s.id id)

pub record SnapshotLaws (A : Api) : Type 0 where
  pub snapshots : A.State → String → List BlockStorageSnapshot
  pub delete-gone :
      (c id : String) (op done : Operation) (w w₁ w₂ : A.State)
      → A.delete_block_storage_snapshot c id w ≡ (ok op, w₁)
      → A.wait c op w₁ ≡ (ok done, w₂)
      → snapshot_by_id id (snapshots w₂ c) ≡ none
  pub delete-missing :
      (c id : String) (w : A.State)
      → snapshot_by_id id (snapshots w c) ≡ none
      → (e : Error) × (A.delete_block_storage_snapshot c id w ≡ (err e, w))
        × (is_not_found e ≡ true)
  pub delete-404 :
      (c id : String) (e : Error) (w w₁ : A.State)
      → A.delete_block_storage_snapshot c id w ≡ (err e, w₁)
      → is_not_found e ≡ true
      → snapshot_by_id id (snapshots w₁ c) ≡ none

-- A snapshot that was created is among those of its volume, has the name that was asked for, and
-- changes no other snapshot.
pub record CreationLaws (A : Api) : Type 0 where
  pub create-adds :
      (c id name : String) (v : BlockStorageVolume) (op done : Operation) (w w₁ w₂ : A.State)
      → A.get_block_storage_volume c id w ≡ (ok v, w)
      → A.create_block_storage_snapshot c v.id name w ≡ (ok op, w₁)
      → A.wait c op w₁ ≡ (ok done, w₂)
      → (new : String) × (done.reference ≡ some new)
        × (l : List String) × (r : List String) × (v.block_storage_snapshots ≡ l ++ r)
        × (A.get_block_storage_volume c id w₂
            ≡ (ok (record v { block_storage_snapshots = l ++ new ∷ r }), w₂))
        × (s : BlockStorageSnapshot) × (A.get_block_storage_snapshot c new w₂ ≡ (ok s, w₂))
        × (s.name ≡ name)
        × ((old : String)
            → old ≢ new
            → A.get_block_storage_snapshot c old w₂
              ≡ ((A.get_block_storage_snapshot c old w).0, w₂))
