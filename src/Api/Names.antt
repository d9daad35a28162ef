-- ===== src/Api/Names.antt =====
-- What the calls of the API do to the names of the volumes at an endpoint, whether they succeed or
-- not: a creation that is waited for adds at most one volume, of the name that was asked for, a
-- deletion only takes names away, and an attachment, a detachment, a change of the size and the calls
-- about snapshots keep the names.
use exoscale_csi_driver.Base.{ℤ, String, ◌≡◌, ◌⊎◌, List, [], ◌∷◌, map, Action, ◌>>=◌}
use exoscale_csi_driver.Api.{Api, BlockStorageVolume, CreateRequest}
use exoscale_csi_driver.Api.Laws.{Service, Adds}

abbrev pub names : List BlockStorageVolume → List String
names = map (λ v. v.name)

-- The second list is the first one with some names taken away.
pub data Thins : List String → List String → Type 0 where
  done : Thins [] []
  keep : (n : String) {ns ns' : List String} → Thins ns ns' → Thins (n ∷ ns) (n ∷ ns')
  drop : (n : String) {ns ns' : List String} → Thins ns ns' → Thins (n ∷ ns) ns'

-- The state after both calls, or after the first one if it fails.
abbrev pub after : {W T U : Type 0} → Action W T → (T → Action W U) → W → W
after m n w = ((m >>= n) w).1

pub record NameLaws (A : Api) (L : Service A) : Type 0 where
  pub create-names :
      (c : String) (req : CreateRequest) (w : A.State)
      → let w' = after (A.create_block_storage_volume c req) (A.wait c) w in
        (L.volumes w' c ≡ L.volumes w c)
        ⊎ ((v : BlockStorageVolume) × (v.name ≡ req.name) × Adds v (L.volumes w c) (L.volumes w' c))
  pub delete-names :
      (c id : String) (w : A.State)
      → Thins
          (names (L.volumes w c))
          (names (L.volumes (after (A.delete_block_storage_volume c id) (A.wait c) w) c))
  pub attach-names :
      (c id instance : String) (w : A.State)
      → names (
          L.volumes
            (after (A.attach_block_storage_volume_to_instance c id instance) (A.wait c) w)
            c)
        ≡ names (L.volumes w c)
  pub detach-names :
      (c id : String) (w : A.State)
      → names (L.volumes (after (A.detach_block_storage_volume c id) (A.wait c) w) c)
        ≡ names (L.volumes w c)
  pub create_snapshot-names :
      (c id name : String) (w : A.State)
      → names (L.volumes (after (A.create_block_storage_snapshot c id name) (A.wait c) w) c)
        ≡ names (L.volumes w c)
  pub delete_snapshot-names :
      (c id : String) (w : A.State)
      → names (L.volumes (after (A.delete_block_storage_snapshot c id) (A.wait c) w) c)
        ≡ names (L.volumes w c)
  pub resize-names :
      (c id : String) (size : ℤ) (w : A.State)
      → names (L.volumes (A.resize_block_storage_volume c id size w).1 c) ≡ names (L.volumes w c)
