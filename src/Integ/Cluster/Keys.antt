-- ===== src/Integ/Cluster/Keys.antt =====
-- What deleteAPIKeyAndRole of internal/integ/cluster/utils.go leaves of the cluster's keys.
use exoscale_csi_driver.Base.{
  String, ◌≡◌, refl, sym, subst, ap, ◌∙◌, ◌≢◌, ◌⊎◌, inl, inr, false, List, [], ◌∷◌, str_eq,
  Bool-cases, ne_of_str_eq-false, Error, Result, Action, pure, lift, handle, or_else, >>=-ok_elim,
  or_else-ok_elim, wrap, ok, err, panic,
}
use mathlib.Core.Path.{ap₂}
use exoscale_csi_driver.Api.{Operation}
use exoscale_csi_driver.Integ.Egoscale.{ApiKey, IamRole, Egoscale}
use exoscale_csi_driver.Integ.K8s.{log_error}
use exoscale_csi_driver.Integ.Cluster.{Run, at_ego, await_success}
use exoscale_csi_driver.Integ.Cluster.Waiting.{
  with_world, Keeps, await_success-ok_elim, await_success-Keeps,
}
use exoscale_csi_driver.Integ.Cluster.Csi.{delete_api_keys, delete_role, delete_api_key_and_role}

abbrev pub Among : ApiKey → List ApiKey → Type 0
Among key [] = ⊥
Among key (x ∷ xs) = (key ≡ x) ⊎ Among key xs

-- Which keys the service has. Its listing is complete, a deletion that was waited for has removed
-- the key, and no call of the clean-up adds one, nor does another client meanwhile.
pub record KeyLaws {W : Type 0} (E : Egoscale W) : Type 1 where
  pub Has : W → ApiKey → Type 0
  pub listed :
      (ego : String) (w : W) {keys : List ApiKey} {w' : W}
      → E.list_api_keys ego w ≡ (ok keys, w')
      → (key : ApiKey) → Has w' key
      → Among key keys
  pub deleted :
      (ego id : String) (w : W) {op done : Operation} {w₁ w₂ : W}
      → E.delete_api_key ego id w ≡ (ok op, w₁)
      → E.wait ego op w₁ ≡ (ok done, w₂)
      → (key : ApiKey) → Has w₂ key
      → Has w key × (key.key ≢ id)
  pub roles_listed :
      (ego : String) (w : W) (key : ApiKey) → Has (E.list_iam_roles ego w).1 key → Has w key
  pub role_deleted :
      (ego id : String) (w : W) (key : ApiKey) → Has (E.delete_iam_role ego id w).1 key → Has w key
  pub waited :
      (ego : String) (op : Operation) (w : W) (key : ApiKey)
      → Has (E.wait ego op w).1 key
      → Has w key

module _ {W : Type 0} (E : Egoscale W) (laws : KeyLaws E) where
  open laws use {Has, listed, deleted, roles_listed, role_deleted, waited}

  -- The same object, and no key that was not there; none of the name stands in the list.
  abbrev Cleared : List ApiKey → Run W → Run W → Type 0
  Cleared keys s t =
      (t.cluster ≡ s.cluster)
      × ((key : ApiKey)
          → Has t.world key
          → Has s.world key × (Among key keys → key.name ≢ s.cluster.api_key_name))

  delete_api_keys-Cleared :
      (keys : List ApiKey) (s : Run W) {s' : Run W}
      → delete_api_keys E keys s ≡ (ok tt, s')
      → Cleared keys s s'
  unfolding delete_api_keys
  delete_api_keys-Cleared [] s h =
      subst (Cleared [] s) (ap (λ p. p.1) h) (refl, λ key there. (there, λ m. absurd m))
  delete_api_keys-Cleared (x ∷ keys) s {s'} h =
      elim (Bool-cases (str_eq x.name s.cluster.api_key_name)) [
        | inl same ↦
            >>=-ok_elim (or_else delete_x (wrap "error deleting existing IAM key: %w"))
              (λ _. delete_api_keys E keys) s (rw same at h)
              λ u s₁ removed h₁.
                or_else-ok_elim delete_x (wrap "error deleting existing IAM key: %w") s removed
                  λ done.
                    await_success-ok_elim E (λ ego. E.delete_api_key ego x.key) s done
                      λ op o w₁ w₂ called ended moved. after_deletion w₁ w₂ called ended (
                        delete_api_keys-Cleared keys (with_world s w₂)
                          (subst (λ t. delete_api_keys E keys t ≡ (ok tt, s')) moved h₁))
        | inr other ↦ after_skip other (delete_api_keys-Cleared keys s (rw other at h))
      ]
    where
      delete_x : Action (Run W) (Unit {0})
      delete_x = await_success E (at_ego (λ ego. E.delete_api_key ego x.key))

      after_skip :
          str_eq x.name s.cluster.api_key_name ≡ false → Cleared keys s s' → Cleared (x ∷ keys) s s'
      after_skip other rest = (
        rest.0,
        λ key there. (
          (rest.1 key there).0,
          λ m. elim m [
            | inl e ↦ rw e (ne_of_str_eq-false x.name s.cluster.api_key_name other)
            | inr later ↦ (rest.1 key there).1 later
          ],
        ),
      )

      after_deletion :
          {op done : Operation} (w₁ w₂ : W)
          → E.delete_api_key s.cluster.ego x.key s.world ≡ (ok op, w₁)
          → E.wait s.cluster.ego op w₁ ≡ (ok done, w₂)
          → Cleared keys (with_world s w₂) s'
          → Cleared (x ∷ keys) s s'
      after_deletion w₁ w₂ called ended rest = (
        rest.0,
        λ key there.
            let kept = deleted s.cluster.ego x.key s.world called ended key (rest.1 key there).0 in
            (
              kept.0,
              λ m. elim m [
                | inl e ↦ absurd (kept.1 (ap (λ k. k.key) e))
                | inr later ↦ (rest.1 key there).1 later
              ],
            ),
      )

  delete_role-Cleared : (roles : List IamRole) (s : Run W) → Cleared [] s (delete_role E roles s).1
  unfolding delete_role
  delete_role-Cleared roles s = go (E.find_iam_role roles s.cluster.api_role_name)
    where
      delete_found : IamRole → Action (Run W) (Unit {0})
      delete_found role =
          log_error (await_success E (at_ego (λ ego. E.delete_iam_role ego role.id)))

      Fewer : W → Type 0
      Fewer w = (key : ApiKey) → Has w key → Has s.world key

      go : (r : Result IamRole) → Cleared [] s (handle (lift r) (λ _. pure tt) delete_found s).1
      go (ok role) =
          let kept : Keeps E (λ ego. E.delete_iam_role ego role.id) s Fewer
              (delete_found role s).1 =
            await_success-Keeps E (λ ego. E.delete_iam_role ego role.id) s Fewer
              (λ key there. role_deleted s.cluster.ego role.id s.world key there)
              (λ op w fewer key there. fewer key (waited s.cluster.ego op w key there)) in
          (kept.0, λ key there. (kept.1 key there, λ m. absurd m))
      go (err e) = (refl, λ key there. (there, λ m. absurd m))
      go (panic p) = (refl, λ key there. (there, λ m. absurd m))

  -- When deleteAPIKeyAndRole returns nil, the service has no API key of the cluster's key name any
  -- more, however many there were, whether or not the role could be found and deleted.
  pub delete_api_key_and_role_clears :
      (s : Run W) {s' : Run W}
      → delete_api_key_and_role E s ≡ (ok tt, s')
      → (key : ApiKey) → Has s'.world key
      → key.name ≢ s.cluster.api_key_name
  unfolding delete_api_key_and_role
  delete_api_key_and_role_clears s {s'} h key there =
      let keys_failed : Error → Error = wrap "error listing api keys: %w" in
      let roles_failed : Error → Error = wrap "error listing iam roles: %w" in
      >>=-ok_elim (or_else (at_ego E.list_api_keys) keys_failed) _ s h λ keys s₁ got h₁.
        >>=-ok_elim (delete_api_keys E keys) _ s₁ h₁ λ u s₂ emptied h₂.
          >>=-ok_elim (or_else (at_ego E.list_iam_roles) roles_failed) (delete_role E) s₂ h₂
            λ roles s₃ got_roles h₃.
              or_else-ok_elim (at_ego E.list_api_keys) keys_failed s got λ read.
                or_else-ok_elim (at_ego E.list_iam_roles) roles_failed s₂ got_roles λ read_roles.
                  let cleared = delete_api_keys-Cleared keys s₁ emptied in
                  let in_s₃ =
                    (delete_role-Cleared roles s₃).1 key
                      (subst (λ t. Has t.world key) (sym (ap (λ p. p.1) h₃)) there) in
                  let in_s₂ =
                    roles_listed s₂.cluster.ego s₂.world key
                      (subst (λ t. Has t.world key) (sym (ap (λ p. p.1) read_roles)) in_s₃.0) in
                  let in_s₁ = cleared.1 key in_s₂ in
                  let called : E.list_api_keys s.cluster.ego s.world ≡ (ok keys, s₁.world) =
                    ap₂ (λ r t. (r, t)) (ap (λ p. p.0) read) (ap (λ p. p.1.world) read) in
                  λ named.
                    in_s₁.1 (listed s.cluster.ego s.world called key in_s₁.0)
                      (named ∙ ap (λ p. p.1.cluster.api_key_name) read)
