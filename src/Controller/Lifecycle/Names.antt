-- ===== src/Controller/Lifecycle/Names.antt =====
-- The names of the volumes of a zone under any sequence of requests.
use exoscale_csi_driver.Base.{
  String, ◌≡◌, refl, sym, subst, ap, ◌∙◌, ◌⊎◌, inl, inr, Option, none, some, Bool-cases,
  is_not_found, pure, fail, lift, or_else, handle-keeps, handle-state, handle-state_of_rest,
  >>=-keeps_state, tolerate-keeps, ok,
}
use exoscale_csi_driver.Helpers.{get_exoscale_id}
use exoscale_csi_driver.Api.{Api, BlockStorageVolume, CreateRequest}
use exoscale_csi_driver.Api.Laws.{Service, by_name, Adds}
use exoscale_csi_driver.Api.Names.{names, NameLaws}
use exoscale_csi_driver.Controller.{ControllerService, new_client_zone}
use exoscale_csi_driver.Controller.Volumes.{
  CreateVolumeRequest, create_volume, delete_volume, requested_size, snapshot_target, reference_id,
  provision_volume, create_or_reuse, delete_at,
}
use exoscale_csi_driver.Controller.Volumes.Idempotence.{LeadsTo, create_volume-eq}
use exoscale_csi_driver.Controller.Volumes.Provisioning.{snapshot_target-keeps}
use exoscale_csi_driver.Controller.Volumes.Deletion.{delete_volume-eq}
use exoscale_csi_driver.Controller.Attachment.{
  controller_publish_volume, controller_unpublish_volume, attach, detach_at, is_attached_to,
  is_detached, volume_not_found,
}
use exoscale_csi_driver.Controller.Attachment.Idempotence.{Reads, publish-eq}
use exoscale_csi_driver.Controller.Lifecycle.Distinct.{Distinct, Adds-Distinct, Thins-Distinct}
use exoscale_csi_driver.Controller.Lifecycle.Others.{
  create_snapshot-names, delete_snapshot-names, expand-names,
}
use exoscale_csi_driver.Controller.Lifecycle.{
  Step, creates, deletes, publishes, unpublishes, expands, snapshots, deletes_snapshot, Steps, idle,
  next,
}

module _ (A : Api) (L : Service A) (N : NameLaws A L) where
  open L use {volumes}

  -- The volumes are as before, or there is one more, of the name.
  abbrev Grown : String → String → A.State → A.State → Type 0
  Grown client name w w' =
      (volumes w' client ≡ volumes w client)
      ⊎ ((v : BlockStorageVolume) × (v.name ≡ name) × Adds v (volumes w client) (volumes w' client))

  provision_volume-Grown :
      (client zone : String) (req : CreateVolumeRequest) (w : A.State)
      → Grown client req.name w (provision_volume A client zone req w).1
  unfolding provision_volume
  provision_volume-Grown client zone req w =
      handle-state (Grown client req.name w) (snapshot_target A client req.volume_content_source) _
        w (snapshot_target-keeps A L client req.volume_content_source w) (inl refl)
        λ target.
          handle-state (Grown client req.name w) (lift (requested_size req.capacity_range)) _ w refl
            (inl refl)
            λ size.
              let request : CreateRequest = record {
                name = req.name;
                size = size;
                block_storage_snapshot = target;
              } in
              handle-state (Grown client req.name w) (lift (A.validate request)) _ w refl (inl refl)
                λ u.
                  subst (Grown client req.name w)
                    (sym (
                      handle-state_of_rest (A.create_block_storage_volume client request) fail _
                        (A.wait client) w (λ e w₁. refl)
                        λ op w₁. >>=-keeps_state (A.wait client op) _ w₁ λ done w₂.
                          handle-keeps (lift (reference_id done.reference)) fail _ w₂ refl
                            (λ e. refl) (λ id. refl)))
                    (N.create-names client request w)

  create_volume-Distinct :
      (d : ControllerService) (req : CreateVolumeRequest) (zone client : String) (w : A.State)
      → LeadsTo A L d req zone client
      → Distinct (names (volumes w client))
      → Distinct (names (volumes (create_volume A d req w).1 client))
  unfolding create_or_reuse
  create_volume-Distinct d req zone client w leads distinct =
      subst (λ x. Distinct (names (volumes x.1 client)))
        (sym (create_volume-eq A L d req zone client w leads))
        (go (by_name req.name (volumes w client)) refl)
    where
      go :
          (o : Option BlockStorageVolume)
          → by_name req.name (volumes w client) ≡ o
          → Distinct (names (volumes (create_or_reuse A client zone req o w).1 client))
      go (some v) e = distinct
      go none e = elim (provision_volume-Grown client zone req w) [
        | inl same ↦ subst (λ vs. Distinct (names vs)) (sym same) distinct
        | inr (v, name, adds) ↦
            Adds-Distinct v (volumes w client) _ adds
              (subst (λ n. by_name n (volumes w client) ≡ none) (sym name) e) distinct
      ]

  delete_volume-Distinct :
      (d : ControllerService) (exo_id zone client id : String) (w : A.State)
      → get_exoscale_id A.parse_uuid exo_id ≡ ok (zone, id)
      → L.endpoint d.client zone ≡ ok client
      → Distinct (names (volumes w client))
      → Distinct (names (volumes (delete_volume A d exo_id w).1 client))
  unfolding delete_at
  delete_volume-Distinct d exo_id zone client id w read ends distinct =
      subst (λ x. Distinct (names (volumes x.1 client)))
        (sym (delete_volume-eq A L d exo_id zone client id w read ends))
        (subst (λ t. Distinct (names (volumes t client)))
          (sym (
            handle-state_of_rest (A.delete_block_storage_volume client id) _ _ (A.wait client) w
              (λ e w₁. tolerate-keeps (is_not_found e) e w₁)
              (λ op w₁. >>=-keeps_state (A.wait client op) (λ _. pure tt) w₁ (λ a w₂. refl))))
          (Thins-Distinct (N.delete-names client id w) distinct))

  attach-names :
      (client zone id instance : String) (v : BlockStorageVolume) (w : A.State)
      → names (volumes (attach A client zone id instance v w).1 client) ≡ names (volumes w client)
  unfolding attach
  attach-names client zone id instance v w =
      elim (Bool-cases (is_attached_to instance v.instance_id)) [
        | inl on ↦ rw on
        | inr off ↦ rw off (
            ap (λ t. names (volumes t client))
              (handle-state_of_rest (A.attach_block_storage_volume_to_instance client id instance)
                fail _ (A.wait client) w (λ e w₁. refl)
                (λ op w₁. >>=-keeps_state (A.wait client op) _ w₁ (λ a w₂. refl)))
            ∙ N.attach-names client id instance w)
      ]

  publish-names :
      (d : ControllerService) (node_id exo_volume_id zone client instance id : String) (w : A.State)
      → Reads A L d node_id exo_volume_id zone client instance id
      → names (volumes (controller_publish_volume A d node_id exo_volume_id w).1 client)
        ≡ names (volumes w client)
  publish-names d node_id exo_volume_id zone client instance id w reads =
      subst (λ x. names (volumes x.1 client) ≡ names (volumes w client))
        (sym (publish-eq A L d node_id exo_volume_id zone client instance id w reads))
        (handle-state (λ t. names (volumes t client) ≡ names (volumes w client))
          (or_else (A.get_block_storage_volume client id) (volume_not_found id))
          (attach A client zone id instance) w
          (handle-keeps (A.get_block_storage_volume client id) _ pure w
            (ap (λ x. x.1) (L.get_block_storage_volume-eq client id w).1) (λ e. refl) (λ a. refl))
          refl (λ v. attach-names client zone id instance v w))

  unpublish-names :
      (d : ControllerService) (exo_volume_id zone client id : String) (w : A.State)
      → get_exoscale_id A.parse_uuid exo_volume_id ≡ ok (zone, id)
      → L.endpoint d.client zone ≡ ok client
      → names (volumes (controller_unpublish_volume A d exo_volume_id w).1 client)
        ≡ names (volumes w client)
  unfolding controller_unpublish_volume new_client_zone detach_at
  unpublish-names d exo_volume_id zone client id w read ends =
      rw (read, L.get_zone_api_endpoint-eq, ends)
        (ap (λ t. names (volumes t client))
            (handle-state_of_rest (A.detach_block_storage_volume client id) _ _ (A.wait client) w
              (λ e w₁. tolerate-keeps (is_detached e) e w₁)
              (λ op w₁. >>=-keeps_state (A.wait client op) (λ _. pure tt) w₁ (λ a w₂. refl)))
          ∙ N.detach-names client id w)

  Step-Distinct :
      (d : ControllerService) (zone client : String) {w w' : A.State}
      → L.endpoint d.client zone ≡ ok client
      → Step A L d zone client w w'
      → Distinct (names (volumes w client))
      → Distinct (names (volumes w' client))
  Step-Distinct d zone client ends (creates req r w w' leads e) distinct =
      subst (λ t. Distinct (names (volumes t client))) (ap (λ x. x.1) e)
        (create_volume-Distinct d req zone client w leads distinct)
  Step-Distinct d zone client ends (deletes exo_id id r w w' read e) distinct =
      subst (λ t. Distinct (names (volumes t client))) (ap (λ x. x.1) e)
        (delete_volume-Distinct d exo_id zone client id w read ends distinct)
  Step-Distinct d zone client ends (publishes node_id exo_volume_id instance id r w w' reads e)
        distinct =
      subst (λ t. Distinct (names (volumes t client))) (ap (λ x. x.1) e)
        (subst Distinct
          (sym (publish-names d node_id exo_volume_id zone client instance id w reads)) distinct)
  Step-Distinct d zone client ends (unpublishes exo_volume_id id r w w' read e) distinct =
      subst (λ t. Distinct (names (volumes t client))) (ap (λ x. x.1) e)
        (subst Distinct (sym (unpublish-names d exo_volume_id zone client id w read ends)) distinct)
  Step-Distinct d zone client ends (expands req id r w w' read e) distinct =
      subst (λ t. Distinct (names (volumes t client))) (ap (λ x. x.1) e)
        (subst Distinct (sym (expand-names A L N d req zone client id w read ends)) distinct)
  Step-Distinct d zone client ends (snapshots source name id r w w' read e) distinct =
      subst (λ t. Distinct (names (volumes t client))) (ap (λ x. x.1) e)
        (subst Distinct (sym (create_snapshot-names A L N d source name zone client id w read ends))
          distinct)
  Step-Distinct d zone client ends (deletes_snapshot exo_id id r w w' read e) distinct =
      subst (λ t. Distinct (names (volumes t client))) (ap (λ x. x.1) e)
        (subst Distinct (sym (delete_snapshot-names A L N d exo_id zone client id w read ends))
          distinct)

  -- Over an API that meets the laws of Service and NameLaws, in a zone whose endpoint is found: no
  -- sequence of requests to create, delete, publish, unpublish and expand volumes and to create and
  -- delete snapshots, whether they succeed or fail, leads from volumes with distinct names to two
  -- volumes of one name.
  pub Steps-Distinct :
      (d : ControllerService) (zone client : String) {w w' : A.State}
      → L.endpoint d.client zone ≡ ok client
      → Steps A L d zone client w w'
      → Distinct (names (volumes w client))
      → Distinct (names (volumes w' client))
  Steps-Distinct d zone client ends (idle w) distinct = distinct
  Steps-Distinct d zone client ends (next step rest) distinct =
      Steps-Distinct d zone client ends rest (Step-Distinct d zone client ends step distinct)
