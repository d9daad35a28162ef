-- ===== src/Controller/Attachment/Idempotence.antt =====
-- ControllerPublishVolume and ControllerUnpublishVolume, called again after they succeeded.
use mathlib.Core.Path.{subst₂}
use exoscale_csi_driver.Base.{
  String, ◌≡◌, refl, sym, subst, ap, ◌∙◌, inl, inr, true, Option, none, some, str_eq_iff,
  str_eq_refl, Bool-cases, ok-injective, Result, Action, ◌>>=◌, or_else, handle-ok_elim,
  >>=-ok_elim, tolerant-ok_elim, ok,
}
use exoscale_csi_driver.Helpers.{get_exoscale_id}
use exoscale_csi_driver.Api.{Api, BlockStorageVolume}
use exoscale_csi_driver.Api.Laws.{by_id, Found, IsOff, Service}
use exoscale_csi_driver.Controller.{ControllerService, new_client_zone}
use exoscale_csi_driver.Controller.Attachment.{
  PublishContext, publish_context, is_attached_to, attach, controller_publish_volume,
  controller_unpublish_volume, volume_not_found, is_detached, detach_at,
}

module _ (A : Api) (L : Service A) where
  open L use {volumes}

  -- A volume that is there is looked up as it is.
  pub get-eq :
      (client id : String) (v : BlockStorageVolume) (w : A.State)
      → by_id id (volumes w client) ≡ some v
      → A.get_block_storage_volume client id w ≡ (ok v, w)
  get-eq client id v w there =
      let (r, e, found) = L.get_block_storage_volume-eq client id w in
      e ∙ ap (λ x. (x, w)) (subst (λ o. Found o r) there found)

  get-there :
      (client id : String) (v : BlockStorageVolume) (w : A.State) {w₁ : A.State}
      → A.get_block_storage_volume client id w ≡ (ok v, w₁)
      → (by_id id (volumes w client) ≡ some v) × (w ≡ w₁)
  get-there client id v w {w₁} h =
      let (r, e, found) = L.get_block_storage_volume-eq client id w in
      there (by_id id (volumes w client)) r refl found (sym e ∙ h)
    where
      there :
          (o : Option BlockStorageVolume) (r : Result BlockStorageVolume)
          → by_id id (volumes w client) ≡ o
          → Found o r
          → ◌≡◌ {A = Result BlockStorageVolume × A.State} (r, w) (ok v, w₁)
          → (by_id id (volumes w client) ≡ some v) × (w ≡ w₁)
      there none r k (e, refused, _) p = absurd (cc (ap (λ q. q.0) p, refused))
      there (some u) r k found p =
          (k ∙ ap some (ok-injective (sym found ∙ ap (λ q. q.0) p)), ap (λ q. q.1) p)

  -- The identifiers are read, and the endpoint is that of the node's zone.
  abbrev pub Reads :
      ControllerService → String → String → String → String → String → String → Type 0
  Reads d node_id exo_volume_id zone client instance id =
      (get_exoscale_id A.parse_uuid node_id ≡ ok (zone, instance))
      × (L.endpoint d.client zone ≡ ok client)
      × ((z : String) × (get_exoscale_id A.parse_uuid exo_volume_id ≡ ok (z, id)))

  abbrev pub publish_at : String → String → String → String → Action A.State PublishContext
  publish_at client zone instance id =
      or_else (A.get_block_storage_volume client id) (volume_not_found id)
      >>= attach A client zone id instance

  pub publish-eq :
      (d : ControllerService) (node_id exo_volume_id zone client instance id : String) (w : A.State)
      → Reads d node_id exo_volume_id zone client instance id
      → controller_publish_volume A d node_id exo_volume_id w ≡ publish_at client zone instance id w
  unfolding controller_publish_volume new_client_zone
  publish-eq d node_id exo_volume_id zone client instance id w (node, ends, (z, volume)) =
      rw (node, L.get_zone_api_endpoint-eq, ends, volume)

  -- A volume that is on the instance is answered for with no further call.
  publish_at-attached :
      (client zone instance id : String) (v : BlockStorageVolume) (w : A.State)
      → by_id id (volumes w client) ≡ some v
      → v.instance_id ≡ some instance
      → publish_at client zone instance id w ≡ (ok (publish_context zone v), w)
  unfolding attach
  publish_at-attached client zone instance id v w there on =
      rw (get-eq client id v w there, on, str_eq_refl instance)

  is_attached_to-on :
      (instance : String) (o : Option String) → is_attached_to instance o ≡ true → o ≡ some instance
  unfolding is_attached_to
  is_attached_to-on instance none h = cc
  is_attached_to-on instance (some i) h = ap some ((str_eq_iff i instance).0 h)

  attach-attached :
      (client zone instance id : String) (v : BlockStorageVolume) (w : A.State)
      {context : PublishContext} {w' : A.State}
      → by_id id (volumes w client) ≡ some v
      → attach A client zone id instance v w ≡ (ok context, w')
      → (v' : BlockStorageVolume) × (by_id id (volumes w' client) ≡ some v')
        × (v'.instance_id ≡ some instance)
        × (publish_context zone v' ≡ context)
  unfolding attach
  attach-attached client zone instance id v w {context} {w'} there h =
      elim (Bool-cases (is_attached_to instance v.instance_id)) [
        | inl on ↦
            let k = rw on at h in
            (
              v,
              ap (λ t. by_id id (volumes t client)) (sym (ap (λ p. p.1) k)) ∙ there,
              is_attached_to-on instance v.instance_id on,
              ok-injective (ap (λ p. p.0) k),
            )
        | inr off ↦
            >>=-ok_elim (A.attach_block_storage_volume_to_instance client id instance) _ w
              (rw off at h)
              λ op w₁ attached h₁. >>=-ok_elim (A.wait client op) _ w₁ h₁ λ done w₂ waited h₂. (
                record v { instance_id = some instance },
                L.attach-on client id instance op done v w w₁ w' there attached
                    (waited ∙ ap (λ t. (ok done, t)) (ap (λ p. p.1) h₂)),
                refl,
                ok-injective (ap (λ p. p.0) h₂),
              )
      ]

  publish_at-attaches :
      (client zone instance id : String) (w : A.State) {context : PublishContext} {w' : A.State}
      → publish_at client zone instance id w ≡ (ok context, w')
      → (v' : BlockStorageVolume) × (by_id id (volumes w' client) ≡ some v')
        × (v'.instance_id ≡ some instance)
        × (publish_context zone v' ≡ context)
  publish_at-attaches client zone instance id w h =
      >>=-ok_elim (or_else (A.get_block_storage_volume client id) (volume_not_found id)) _ w h
        λ v w₁ got h₁.
          handle-ok_elim (A.get_block_storage_volume client id) _ _ w got
            (λ u w₂ looked k.
              let (there, same) = get-there client id u w looked in
              let e : u ≡ v = ok-injective (ap (λ p. p.0) k) in
              let s : w ≡ w₁ = same ∙ ap (λ p. p.1) k in
              attach-attached client zone instance id v w₁
                (subst₂ (λ x t. by_id id (volumes t client) ≡ some x) e s there) h₁)
            (λ e w₂ looked k. absurd (cc k))

  -- Over an API that meets the laws of Service, ControllerPublishVolume is idempotent when both
  -- identifiers are read and the endpoint of the node's zone is found: after it has succeeded the
  -- volume is on the instance, and the same request succeeds again with the same context and
  -- changes nothing.
  pub controller_publish_volume-idempotent :
      (d : ControllerService) (node_id exo_volume_id zone client instance id : String) (w : A.State)
      {context : PublishContext} {w' : A.State}
      → Reads d node_id exo_volume_id zone client instance id
      → controller_publish_volume A d node_id exo_volume_id w ≡ (ok context, w')
      → ((v : BlockStorageVolume) × (by_id id (volumes w' client) ≡ some v)
          × (v.instance_id ≡ some instance))
        × (controller_publish_volume A d node_id exo_volume_id w' ≡ (ok context, w'))
  controller_publish_volume-idempotent d node_id exo_volume_id zone client instance id w {context}
        {w'} reads h =
      let (v, there, on, same) =
        publish_at-attaches client zone instance id w
          (sym (publish-eq d node_id exo_volume_id zone client instance id w reads) ∙ h) in
      (
        (v, there, on),
        publish-eq d node_id exo_volume_id zone client instance id w' reads
            ∙ publish_at-attached client zone instance id v w' there on
            ∙ ap (λ c. (ok c, w')) same,
      )

  detach_at-IsOff :
      (client id : String) (w : A.State) {w' : A.State}
      → detach_at A client id w ≡ (ok tt, w')
      → IsOff id (volumes w' client)
  unfolding detach_at
  detach_at-IsOff client id w {w'} h =
      tolerant-ok_elim (λ t. IsOff id (volumes t client)) (A.detach_block_storage_volume client id)
        (A.wait client) is_detached w h
        (λ op done w₁ w₂ detached waited. L.detach-off client id op done w w₁ w₂ detached waited)
        (λ e w₁ refused off. L.detach-refused client id e w w₁ refused off)

  detach_at-again :
      (client id : String) (w : A.State)
      → IsOff id (volumes w client)
      → detach_at A client id w ≡ (ok tt, w)
  unfolding detach_at
  detach_at-again client id w off =
      let (e, refused, says) = L.detach-again client id w off in rw (refused, says)

  -- Over an API that meets the laws of Service, ControllerUnpublishVolume is idempotent when the
  -- identifier is read and the endpoint of its zone is found: after it has succeeded the volume is
  -- on no instance or not there, and the same request succeeds again and changes nothing.
  pub controller_unpublish_volume-idempotent :
      (d : ControllerService) (exo_volume_id zone client id : String) (w : A.State) {w' : A.State}
      → get_exoscale_id A.parse_uuid exo_volume_id ≡ ok (zone, id)
      → L.endpoint d.client zone ≡ ok client
      → controller_unpublish_volume A d exo_volume_id w ≡ (ok tt, w')
      → IsOff id (volumes w' client)
        × (controller_unpublish_volume A d exo_volume_id w' ≡ (ok tt, w'))
  unfolding controller_unpublish_volume new_client_zone
  controller_unpublish_volume-idempotent d exo_volume_id zone client id w {w'} read ends h =
      let off = detach_at-IsOff client id w (rw (read, L.get_zone_api_endpoint-eq, ends) at h) in
      (off, rw (read, L.get_zone_api_endpoint-eq, ends) (detach_at-again client id w' off))
