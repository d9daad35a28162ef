-- ===== src/Controller/Volumes/Answers.antt =====
-- Which volume CreateVolume answers with.
use exoscale_csi_driver.Base.{
  String, ◌<>◌, ◌≡◌, refl, sym, ap, ◌∙◌, ◌⊎◌, inl, inr, Option, none, some, [], ◌∷◌, ◌*ℤ◌, ◌≤ℤ◌, ℤ,
  wrap64, ok-injective, pos, ok,
}
use exoscale_csi_driver.Csi.{Volume}
use exoscale_csi_driver.Helpers.{exoscale_id, convert_gib_to_bytes, new_zone_topology}
use exoscale_csi_driver.Api.{Api, BlockStorageVolume}
use exoscale_csi_driver.Api.Laws.{by_name, Service}
use exoscale_csi_driver.Controller.{ControllerService}
use exoscale_csi_driver.Controller.Volumes.{
  CreateVolumeRequest, existing_volume, create_volume, create_or_reuse, requested_size,
}
use exoscale_csi_driver.Controller.Volumes.Idempotence.{LeadsTo, create_volume-eq}
use exoscale_csi_driver.Controller.Volumes.Provisioning.{
  provision_volume-eq_ok, Provisioned-by_name,
}

-- The answer names the volume, and its zone.
abbrev pub Names : String → BlockStorageVolume → Volume → Type 0
Names zone v vol =
    (vol.volume_id ≡ zone <> ("/" <> v.id))
    × (vol.accessible_topology
        ≡ record { segments = ("topology.csi.exoscale.com/zone", zone) ∷ [] } ∷ [])

-- The capacity of the answer is the size of the volume, in bytes of 64 bits.
abbrev pub HasSizeOf : BlockStorageVolume → Volume → Type 0
HasSizeOf v vol = vol.capacity_bytes ≡ wrap64 (v.size *ℤ 1073741824)

module _ (A : Api) (L : Service A) where
  open L use {volumes}

  -- The volume was there before, and nothing has changed, or there was none of the name, and the new
  -- one has the size that was asked for, if that is at least 1 GiB.
  abbrev pub Obtained :
      CreateVolumeRequest → String → BlockStorageVolume → Volume → A.State → A.State → Type 0
  Obtained req client v vol w w' =
      ((by_name req.name (volumes w client) ≡ some v) × (w' ≡ w) × HasSizeOf v vol)
      ⊎ ((by_name req.name (volumes w client) ≡ none)
          × ((n : ℤ)
              → requested_size req.capacity_range ≡ ok n
              → pos 1 ≤ℤ n
              → (v.size ≡ n) × HasSizeOf v vol))

  answered :
      (req : CreateVolumeRequest) (zone client : String) (o : Option BlockStorageVolume)
      (w : A.State) {vol : Volume} {w' : A.State}
      → by_name req.name (volumes w client) ≡ o
      → create_or_reuse A client zone req o w ≡ (ok vol, w')
      → (v : BlockStorageVolume) × (by_name req.name (volumes w' client) ≡ some v)
        × Names zone v vol
        × Obtained req client v vol w w'
  unfolding create_or_reuse existing_volume exoscale_id convert_gib_to_bytes new_zone_topology
  answered req zone client none w named h =
      let (v, there, id, topology, sizes) =
        Provisioned-by_name A L client zone req w named
          (provision_volume-eq_ok A client zone req w h) in
      (v, there, (id, topology), inr (named, sizes))
  answered req zone client (some v) w {vol} {w'} named h =
      let answer : existing_volume zone v ≡ vol = ok-injective (ap (λ p. p.0) h) in
      let same : w ≡ w' = ap (λ p. p.1) h in
      (
        v,
        rw (← same) named,
        (
          ap (λ (t : Volume). t.volume_id) (sym answer),
          ap (λ (t : Volume). t.accessible_topology) (sym answer),
        ),
        inl (named, sym same, ap (λ (t : Volume). t.capacity_bytes) (sym answer)),
      )

  -- Over an API that meets the laws of Service, when the zone of the request and its endpoint are
  -- found: when CreateVolume succeeds, the service has a volume of the name, and the answer has the
  -- identifier of the first such volume and its zone. If there was one before, whatever its size and
  -- source, it is that one, nothing has changed, and the capacity in the answer is its size. If there
  -- was none, the new one has the size that was asked for, and the capacity is that size, if it is at
  -- least 1 GiB.
  pub create_volume-answers :
      (d : ControllerService) (req : CreateVolumeRequest) (zone client : String) (w : A.State)
      {vol : Volume} {w' : A.State}
      → LeadsTo A L d req zone client
      → create_volume A d req w ≡ (ok vol, w')
      → (v : BlockStorageVolume) × (by_name req.name (volumes w' client) ≡ some v)
        × Names zone v vol
        × Obtained req client v vol w w'
  create_volume-answers d req zone client w leads h =
      answered req zone client (by_name req.name (volumes w client)) w refl
        (sym (create_volume-eq A L d req zone client w leads) ∙ h)
