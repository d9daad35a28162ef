-- ===== src/Controller/Volumes/Provisioning.antt =====
-- The rest of CreateVolume, when no volume has the name.
use mathlib.Core.Option.{some-injective}
use exoscale_csi_driver.Base.{
  String, ◌≡◌, refl, sym, subst, ap, ◌∙◌, Option, none, some, ◌++◌, str_eq, str_eq_iff, ◌≤ℤ◌, ℤ,
  find?-insert, ok-injective, fail, lift, or_else, >>=-ok_elim, lift-ok_elim, handle-keeps, pos, ok,
}
use exoscale_csi_driver.Csi.{Volume, ContentSource, no_source, volume_source, snapshot_source}
use exoscale_csi_driver.Helpers.{
  exoscale_id, get_exoscale_id, convert_gib_to_bytes, new_zone_topology,
}
use exoscale_csi_driver.Api.{Api, BlockStorageVolume, Operation, CreateRequest}
use exoscale_csi_driver.Api.Laws.{by_name, Service}
use exoscale_csi_driver.Controller.Volumes.{
  CreateVolumeRequest, provision_volume, requested_size, snapshot_target, reference_id,
}

-- The steps of a provisioning that succeeded.
pub record Provisioned (A : Api) (client zone : String) (req : CreateVolumeRequest) (w : A.State)
    (vol : Volume) (w' : A.State) : Type 0 where
  pub target : Option String
  pub size : ℤ
  pub w₀ : A.State
  pub w₁ : A.State
  pub op : Operation
  pub done : Operation
  pub id : String
  pub looked_up : snapshot_target A client req.volume_content_source w ≡ (ok target, w₀)
  pub sized : requested_size req.capacity_range ≡ ok size
  pub created :
      A.create_block_storage_volume client
        (record { name = req.name; size = size; block_storage_snapshot = target })
        w₀
      ≡ (ok op, w₁)
  pub waited : A.wait client op w₁ ≡ (ok done, w')
  pub referenced : done.reference ≡ some id
  pub answer : vol ≡ record {
    volume_id = exoscale_id zone id;
    capacity_bytes = convert_gib_to_bytes size;
    accessible_topology = new_zone_topology zone;
    content_source = req.volume_content_source;
  }

module _ (A : Api) where
  reference_id-eq_ok : (o : Option String) {id : String} → reference_id o ≡ ok id → o ≡ some id
  unfolding reference_id
  reference_id-eq_ok none h = cc
  reference_id-eq_ok (some i) h = cc

  pub provision_volume-eq_ok :
      (client zone : String) (req : CreateVolumeRequest) (w : A.State) {vol : Volume} {w' : A.State}
      → provision_volume A client zone req w ≡ (ok vol, w')
      → Provisioned A client zone req w vol w'
  provision_volume-eq_ok client zone req w {vol} {w'} h =
      unfold provision_volume in
      >>=-ok_elim (snapshot_target A client req.volume_content_source) _ w h
        λ target w₀ looked_up h₁.
          lift-ok_elim (requested_size req.capacity_range) _ w₀ h₁ λ size sized h₂.
            lift-ok_elim
              (A.validate
                (record { name = req.name; size = size; block_storage_snapshot = target }))
              _ w₀ h₂
              λ u valid h₃.
                >>=-ok_elim
                  (A.create_block_storage_volume client
                    (record { name = req.name; size = size; block_storage_snapshot = target }))
                  _ w₀ h₃
                  λ op w₁ created h₄. >>=-ok_elim (A.wait client op) _ w₁ h₄ λ done w₂ waited h₅.
                    lift-ok_elim (reference_id done.reference) _ w₂ h₅ λ id referenced h₆. record {
                      target = target;
                      size = size;
                      w₀ = w₀;
                      w₁ = w₁;
                      op = op;
                      done = done;
                      id = id;
                      looked_up = looked_up;
                      sized = sized;
                      created = created;
                      waited = waited ∙ ap (λ t. (ok done, t)) (ap (λ p. p.1) h₆);
                      referenced = reference_id-eq_ok done.reference referenced;
                      answer = sym (ok-injective (ap (λ p. p.0) h₆));
                    }

module _ (A : Api) (L : Service A) where
  pub snapshot_target-keeps :
      (client : String) (source : Option ContentSource) (w : A.State)
      → (snapshot_target A client source w).1 ≡ w
  unfolding snapshot_target
  snapshot_target-keeps client none w = refl
  snapshot_target-keeps client (some no_source) w = refl
  snapshot_target-keeps client (some volume_source) w = refl
  snapshot_target-keeps client (some (snapshot_source none)) w = refl
  snapshot_target-keeps client (some (snapshot_source (some id))) w =
      handle-keeps (lift (get_exoscale_id A.parse_uuid id)) fail _ w refl (λ e. refl)
        λ x.
          handle-keeps (or_else (A.get_block_storage_snapshot client x.1) _) fail _ w
            (handle-keeps (A.get_block_storage_snapshot client x.1) _ _ w
              (L.get_block_storage_snapshot-keeps client x.1 w) (λ e. refl) (λ a. refl))
            (λ e. refl) (λ a. refl)

  -- What the service holds under the name after a provisioning that succeeded.
  pub Provisioned-by_name :
      (client zone : String) (req : CreateVolumeRequest) (w : A.State) {vol : Volume} {w' : A.State}
      → by_name req.name (L.volumes w client) ≡ none
      → Provisioned A client zone req w vol w'
      → (v : BlockStorageVolume) × (by_name req.name (L.volumes w' client) ≡ some v)
        × (vol.volume_id ≡ exoscale_id zone v.id)
        × (vol.accessible_topology ≡ new_zone_topology zone)
        × ((n : ℤ)
            → requested_size req.capacity_range ≡ ok n
            → pos 1 ≤ℤ n
            → (v.size ≡ n) × (vol.capacity_bytes ≡ convert_gib_to_bytes v.size))
  Provisioned-by_name client zone req w {vol} {w'} absent p =
      let request : CreateRequest = record {
        name = req.name;
        size = p.size;
        block_storage_snapshot = p.target;
      } in
      let kept : p.w₀ ≡ w =
        sym (ap (λ q. q.1) p.looked_up)
        ∙ snapshot_target-keeps client req.volume_content_source w in
      let (v, ref, name, size, (l, r, before, after)) =
        L.create-adds client request p.op p.done p.w₀ p.w₁ w' p.created p.waited in
      let absent' : by_name req.name (l ++ r) ≡ none =
        subst (λ vs. by_name req.name vs ≡ none) (ap (λ t. L.volumes t client) (sym kept) ∙ before)
          absent in
      (
        v,
        subst (λ vs. by_name req.name vs ≡ some v) (sym after)
            (find?-insert (λ u. str_eq u.name req.name) v l r absent'
              ((str_eq_iff v.name req.name).1 name)),
        ap (λ (t : Volume). t.volume_id) p.answer
            ∙ ap (exoscale_id zone) (some-injective p.id v.id (sym p.referenced ∙ ref)),
        ap (λ (t : Volume). t.accessible_topology) p.answer,
        λ n sized positive.
            let e : p.size ≡ n = ok-injective (sym p.sized ∙ sized) in
            let given : v.size ≡ p.size = size (subst (λ k. pos 1 ≤ℤ k) (sym e) positive) in
            (
              given ∙ e,
              ap (λ (t : Volume). t.capacity_bytes) p.answer ∙ ap convert_gib_to_bytes (sym given),
            ),
      )
