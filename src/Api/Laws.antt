-- ===== src/Api/Laws.antt =====
-- Documented behaviour of the API while no other client acts: reads change nothing and report the
-- volumes that the service holds, and an operation that succeeds has had its effect once it is
-- waited for.
use exoscale_csi_driver.Base.{
  String, ◌≡◌, ◌⊎◌, Bool, true, ◌||◌, Option, none, some, List, ◌∷◌, ◌++◌, str_eq, ◌≤ℤ◌, find?,
  contains, is_not_found, foreign_text, Error, Result, pos, ok, err,
}
use exoscale_csi_driver.Api.{Api, BlockStorageVolume, Operation, CreateRequest}

-- The volume with an ID, and the first one with a name.
abbrev pub by_id : String → List BlockStorageVolume → Option BlockStorageVolume
by_id id = find? (λ v. str_eq v.id id)

abbrev pub by_name : String → List BlockStorageVolume → Option BlockStorageVolume
by_name name = find? (λ v. str_eq v.name name)

-- What a lookup of one volume returns.
abbrev pub Found : Option BlockStorageVolume → Result BlockStorageVolume → Type 0
Found (some v) r = r ≡ ok v
Found none r = (e : Error) × (r ≡ err e) × (is_not_found e ≡ true)

-- `before` with one volume put in somewhere.
abbrev pub Adds : BlockStorageVolume → List BlockStorageVolume → List BlockStorageVolume → Type 0
Adds v before after = (l r : List BlockStorageVolume) × (before ≡ l ++ r) × (after ≡ l ++ v ∷ r)

-- The volume is not there, or is on no instance.
abbrev pub IsOff : String → List BlockStorageVolume → Type 0
IsOff id volumes =
    (by_id id volumes ≡ none)
    ⊎ ((v : BlockStorageVolume) × (by_id id volumes ≡ some v) × (v.instance_id ≡ none))

-- The errors of a detach that mean so.
abbrev pub says_detached : Error → Bool
says_detached e = is_not_found e || contains (foreign_text e) "Volume not attached"

pub record Service (A : Api) : Type 0 where
  -- The volumes at an endpoint.
  pub volumes : A.State → String → List BlockStorageVolume
  -- The endpoint of a zone, asked for at an endpoint.
  pub endpoint : String → String → Result String
  pub get_zone_api_endpoint-eq :
      (c z : String) (w : A.State) → A.get_zone_api_endpoint c z w ≡ (endpoint c z, w)
  pub list_block_storage_volumes-eq :
      (c : String) (w : A.State) → A.list_block_storage_volumes c w ≡ (ok (volumes w c), w)
  pub get_block_storage_volume-eq :
      (c id : String) (w : A.State)
      → (r : Result BlockStorageVolume) × (A.get_block_storage_volume c id w ≡ (r, w))
        × Found (by_id id (volumes w c)) r
  pub get_block_storage_snapshot-keeps :
      (c id : String) (w : A.State) → (A.get_block_storage_snapshot c id w).1 ≡ w
  -- A volume that was created has the name that was asked for, and the size if one was given.
  pub create-adds :
      (c : String) (req : CreateRequest) (op done : Operation) (w w₁ w₂ : A.State)
      → A.create_block_storage_volume c req w ≡ (ok op, w₁)
      → A.wait c op w₁ ≡ (ok done, w₂)
      → (v : BlockStorageVolume) × (done.reference ≡ some v.id)
        × (v.name ≡ req.name)
        × (pos 1 ≤ℤ req.size → v.size ≡ req.size)
        × Adds v (volumes w c) (volumes w₂ c)
  -- A volume that was deleted is gone, and to delete a volume that is not there is a 404.
  pub delete-gone :
      (c id : String) (op done : Operation) (w w₁ w₂ : A.State)
      → A.delete_block_storage_volume c id w ≡ (ok op, w₁)
      → A.wait c op w₁ ≡ (ok done, w₂)
      → by_id id (volumes w₂ c) ≡ none
  pub delete-missing :
      (c id : String) (w : A.State)
      → by_id id (volumes w c) ≡ none
      → (e : Error) × (A.delete_block_storage_volume c id w ≡ (err e, w)) × (is_not_found e ≡ true)
  pub delete-404 :
      (c id : String) (e : Error) (w w₁ : A.State)
      → A.delete_block_storage_volume c id w ≡ (err e, w₁)
      → is_not_found e ≡ true
      → by_id id (volumes w₁ c) ≡ none
  -- A volume that was attached is on the instance, under its name.
  pub attach-on :
      (c id instance : String) (op done : Operation) (v : BlockStorageVolume) (w w₁ w₂ : A.State)
      → by_id id (volumes w c) ≡ some v
      → A.attach_block_storage_volume_to_instance c id instance w ≡ (ok op, w₁)
      → A.wait c op w₁ ≡ (ok done, w₂)
      → by_id id (volumes w₂ c) ≡ some (record v { instance_id = some instance })
  -- After a detach the volume is on no instance. Another one is refused by a 404 or by a text
  -- that says so, and only then.
  pub detach-off :
      (c id : String) (op done : Operation) (w w₁ w₂ : A.State)
      → A.detach_block_storage_volume c id w ≡ (ok op, w₁)
      → A.wait c op w₁ ≡ (ok done, w₂)
      → IsOff id (volumes w₂ c)
  pub detach-refused :
      (c id : String) (e : Error) (w w₁ : A.State)
      → A.detach_block_storage_volume c id w ≡ (err e, w₁)
      → says_detached e ≡ true
      → IsOff id (volumes w₁ c)
  pub detach-again :
      (c id : String) (w : A.State)
      → IsOff id (volumes w c)
      → (e : Error) × (A.detach_block_storage_volume c id w ≡ (err e, w)) × (says_detached e ≡ true)
