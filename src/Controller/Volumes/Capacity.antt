-- ===== src/Controller/Volumes/Capacity.antt =====
-- The sizes that CreateVolume asks for.
use exoscale_csi_driver.Base.{
  ℕ, ◌≤◌, ◌*◌, ◌/◌, ◌%◌, ◌*ℤ◌, ◌≤ℤ◌, refl, wrap64, String, ◌≡◌, sym, subst, ap, ◌∙◌, inl, inr, true,
  Option, none, some, arith, Bool-cases, eqb_ℤ, mod_ℤ, wrap64-of_IsInt64, ℤ, ok-injective, pos, ok,
}
use exoscale_csi_driver.Csi.{Volume, CapacityRange}
use exoscale_csi_driver.Helpers.{gib, convert_bytes_to_gib, convert_gib_to_bytes}
use exoscale_csi_driver.Helpers.Gib.{exact, div_ℤ-pos, mod_ℤ-pos, *ℤ-pos}
use exoscale_csi_driver.Api.{Api, BlockStorageVolume}
use exoscale_csi_driver.Api.Laws.{by_name, Service}
use exoscale_csi_driver.Controller.{ControllerService}
use exoscale_csi_driver.Controller.Volumes.{
  CreateVolumeRequest, requested_size, create_volume, create_or_reuse,
}
use exoscale_csi_driver.Controller.Volumes.Idempotence.{LeadsTo, create_volume-eq}
use exoscale_csi_driver.Controller.Volumes.Provisioning.{
  provision_volume-eq_ok, Provisioned-by_name,
}

-- What the capacity range of a request asks for: its lower bound, or 100 GiB without a range.
abbrev pub asked_bytes : Option CapacityRange → ℤ
asked_bytes none = pos 107374182400
asked_bytes (some r) = r.required_bytes

-- A positive number of bytes, in 64 bits.
abbrev IsSize : ℤ → Type 0
IsSize n = (n' : ℕ) × (n ≡ pos n') × (1 ≤ n') × (n' ≤ 9223372036854775807)

-- The size that is picked is a positive number of GiB, which is what was asked for.
requested_size-whole :
    (o : Option CapacityRange) (size : ℤ)
    → IsSize (asked_bytes o)
    → requested_size o ≡ ok size
    → (k : ℕ) × (size ≡ pos k) × (1 ≤ k) × (pos (k * 1073741824) ≡ asked_bytes o)
unfolding requested_size convert_bytes_to_gib
requested_size-whole none size is_size h = (100, sym (ok-injective h), omega arith, refl)
requested_size-whole (some r) size (n, e, positive, small) h =
    elim (Bool-cases (eqb_ℤ (mod_ℤ r.required_bytes gib) (pos 0))) [
      | inl whole ↦
          let sized : convert_bytes_to_gib r.required_bytes ≡ size = ok-injective (rw whole at h) in
          let multiple : n % 1073741824 ≡ 0 =
            mod_ℤ-pos n (subst (λ k. eqb_ℤ (mod_ℤ k gib) (pos 0) ≡ true) e whole) in
          (
            n / 1073741824,
            sym sized ∙ ap convert_bytes_to_gib e ∙ div_ℤ-pos n,
            omega (arith, multiple, positive),
            ap pos (exact n multiple) ∙ sym e,
          )
      | inr part ↦ absurd (cc (rw part at h))
    ]

-- Over an API that meets the laws of Service, when the zone of the request and its endpoint are
-- found, no volume of the zone has the name, and the lower bound is positive and fits 64 bits: if
-- CreateVolume succeeds, the service has a volume of the name, whose size in GiB makes exactly the
-- bytes that the request asks for by its lower bound, or 100 GiB if it gives no range, and the
-- capacity in the answer is the same number of bytes.
pub create_volume-exact :
    (A : Api) (L : Service A) (d : ControllerService) (req : CreateVolumeRequest)
    (zone client : String) (w : A.State) {vol : Volume} {w' : A.State}
    → LeadsTo A L d req zone client
    → by_name req.name (L.volumes w client) ≡ none
    → IsSize (asked_bytes req.capacity_range)
    → create_volume A d req w ≡ (ok vol, w')
    → (v : BlockStorageVolume) × (by_name req.name (L.volumes w' client) ≡ some v)
      × (v.size *ℤ 1073741824 ≡ asked_bytes req.capacity_range)
      × (vol.capacity_bytes ≡ asked_bytes req.capacity_range)
unfolding create_or_reuse convert_gib_to_bytes
create_volume-exact A L d req zone client w {vol} {w'} leads absent (n, e, positive, small) h =
    let eq : create_or_reuse A client zone req (by_name req.name (L.volumes w client)) w
        ≡ (ok vol, w') =
      sym (create_volume-eq A L d req zone client w leads) ∙ h in
    let p = provision_volume-eq_ok A client zone req w (rw absent at eq) in
    let (k, size, one, bytes) =
      requested_size-whole req.capacity_range p.size (n, e, positive, small) p.sized in
    let (v, there, id, topology, sizes) = Provisioned-by_name A L client zone req w absent p in
    let (v_size, capacity) =
      sizes p.size p.sized (subst (λ z. pos 1 ≤ℤ z) (sym size) (omega (arith, one))) in
    let in_bytes : v.size *ℤ 1073741824 ≡ asked_bytes req.capacity_range =
      ap (λ z. z *ℤ 1073741824) (v_size ∙ size) ∙ *ℤ-pos k ∙ bytes in
    (
      v,
      there,
      in_bytes,
      capacity ∙ ap wrap64 (in_bytes ∙ e) ∙ wrap64-of_IsInt64 (pos n) (small, omega arith) ∙ sym e,
    )
