-- ===== src/Controller/Volumes/Idempotence.antt =====
-- CreateVolume, called again after it succeeded.
use exoscale_csi_driver.Base.{
  String, ◌≡◌, refl, sym, ap, ◌∙◌, Option, none, some, ◌≤ℤ◌, ℤ, ok-injective, pos, ok,
}
use exoscale_csi_driver.Csi.{Volume}
use exoscale_csi_driver.Helpers.{get_required_zone}
use exoscale_csi_driver.Api.{Api, BlockStorageVolume}
use exoscale_csi_driver.Api.Laws.{by_name, Service}
use exoscale_csi_driver.Controller.{ControllerService, new_client_zone}
use exoscale_csi_driver.Controller.Volumes.{
  CreateVolumeRequest, existing_volume, create_volume, create_or_reuse, requested_size,
}
use exoscale_csi_driver.Controller.Volumes.Provisioning.{
  provision_volume-eq_ok, Provisioned-by_name,
}

module _ (A : Api) (L : Service A) where
  open L use {volumes}

  -- The zone and the endpoint that a request leads to.
  abbrev pub LeadsTo : ControllerService → CreateVolumeRequest → String → String → Type 0
  LeadsTo d req zone client =
      (get_required_zone req.accessibility_requirements d.zone_name ≡ ok zone)
      × (L.endpoint d.client zone ≡ ok client)

  pub create_volume-eq :
      (d : ControllerService) (req : CreateVolumeRequest) (zone client : String) (w : A.State)
      → LeadsTo d req zone client
      → create_volume A d req w
        ≡ create_or_reuse A client zone req (by_name req.name (volumes w client)) w
  unfolding create_volume new_client_zone
  create_volume-eq d req zone client w (leads, ends) =
      rw (leads, L.get_zone_api_endpoint-eq, ends, L.list_block_storage_volumes-eq)

  -- Over an API that meets the laws of Service, when the zone of the request and its endpoint are
  -- found: if a volume of the zone has the name of the request, CreateVolume returns the first one
  -- as it is, whatever size or source the request asks for, and changes nothing.
  pub create_volume-reuses :
      (d : ControllerService) (req : CreateVolumeRequest) (zone client : String)
      (v : BlockStorageVolume) (w : A.State)
      → LeadsTo d req zone client
      → by_name req.name (volumes w client) ≡ some v
      → create_volume A d req w ≡ (ok (existing_volume zone v), w)
  unfolding create_or_reuse
  create_volume-reuses d req zone client v w leads named =
      rw (create_volume-eq d req zone client w leads, named)

  -- What CreateVolume promises about the answer to a request that is made again.
  abbrev pub SameVolume : CreateVolumeRequest → Volume → Volume → Type 0
  SameVolume req vol vol' =
      (vol'.volume_id ≡ vol.volume_id)
      × (vol'.accessible_topology ≡ vol.accessible_topology)
      × ((n : ℤ)
          → requested_size req.capacity_range ≡ ok n
          → pos 1 ≤ℤ n
          → vol'.capacity_bytes ≡ vol.capacity_bytes)

  repeated :
      (d : ControllerService) (req : CreateVolumeRequest) (zone client : String)
      (o : Option BlockStorageVolume) (w : A.State) {vol : Volume} {w' : A.State}
      → LeadsTo d req zone client
      → by_name req.name (L.volumes w client) ≡ o
      → create_or_reuse A client zone req o w ≡ (ok vol, w')
      → (vol' : Volume) × (create_volume A d req w' ≡ (ok vol', w')) × SameVolume req vol vol'
  unfolding create_or_reuse
  repeated d req zone client none w {vol} {w'} leads named h =
      let (v, there, id, topology, capacity) =
        Provisioned-by_name A L client zone req w named
          (provision_volume-eq_ok A client zone req w h) in
      (
        existing_volume zone v,
        create_volume-reuses d req zone client v w' leads there,
        (
          unfold existing_volume in sym id,
          unfold existing_volume in sym topology,
          λ n sized positive. unfold existing_volume in sym (capacity n sized positive).1,
        ),
      )
  repeated d req zone client (some v) w {vol} {w'} leads named h =
      let e : existing_volume zone v ≡ vol = ok-injective (ap (λ p. p.0) h) in
      let k : w ≡ w' = ap (λ p. p.1) h in
      (
        vol,
        rw (← k) (create_volume-reuses d req zone client v w leads named ∙ ap (λ t. (ok t, w)) e),
        (refl, refl, λ n sized positive. refl),
      )

  -- CreateVolume is idempotent, over an API that meets the laws of Service, when the zone of the
  -- request and its endpoint are found: after a request has succeeded, the same request succeeds
  -- again, changes nothing, and names the same volume in the same zone, with the same capacity if
  -- the request asks for at least 1 GiB.
  pub create_volume-idempotent :
      (d : ControllerService) (req : CreateVolumeRequest) (zone client : String) (w : A.State)
      {vol : Volume} {w' : A.State}
      → LeadsTo d req zone client
      → create_volume A d req w ≡ (ok vol, w')
      → (vol' : Volume) × (create_volume A d req w' ≡ (ok vol', w')) × SameVolume req vol vol'
  create_volume-idempotent d req zone client w leads h =
      repeated d req zone client (by_name req.name (L.volumes w client)) w leads refl
        (sym (create_volume-eq d req zone client w leads) ∙ h)
