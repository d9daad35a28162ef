-- ===== src/Integ/Cluster/Secrets.antt =====
-- The secret that applyCSI of internal/integ/cluster/utils.go gives the driver.
use exoscale_csi_driver.Base.{
  refl, String, [], ◌∷◌, ◌≡◌, sym, subst, ap, ◌⊎◌, ◌↔◌, inl, inr, Bool-cases, Option, some,
  Option-cases, Error, Result, Action, handle-ok_elim, >>=-ok_elim, or_else-ok_elim, or_else, wrap,
  ok, pos, ℤ,
}
use exoscale_csi_driver.Integ.Kubernetes.{RestConfig, Secret, Kubernetes}
use exoscale_csi_driver.Integ.Egoscale.{ApiKey, CreateIamRoleRequest, Egoscale}
use exoscale_csi_driver.Integ.K8s.{
  K8s, Kube, in_world, credentials, apply_secret, secret_name, secret_namespace,
}
use exoscale_csi_driver.Integ.Cluster.{Run, at_ego, at_k8s, await_id, sleep_run}
use exoscale_csi_driver.Integ.Cluster.Waiting.{await_id-Keeps}
use exoscale_csi_driver.Integ.Cluster.Stable.{await_id-Stable, delete_api_key_and_role-Stable}
use exoscale_csi_driver.Integ.Cluster.Keys.{KeyLaws, delete_api_key_and_role_clears}
use exoscale_csi_driver.Integ.Cluster.Csi.{role_request, delete_api_key_and_role, create_csi_secret}

-- Which secrets the cluster has. A secret that was written is there, a new API key is the one that
-- was returned, no other call between them adds a key, and the calls for the secret do not touch
-- the keys.
pub record SecretLaws {W : Type 0} (K : Kubernetes W) (E : Egoscale W) (keys : KeyLaws E)
    : Type 1 where
  pub stored : W → String → String → Option Secret
  pub created :
      (client : RestConfig) (ns : String) (secret : Secret) (w : W) {w' : W}
      → K.create_secret client ns secret w ≡ (ok tt, w')
      → stored w' ns secret.name ≡ some secret
  pub updated :
      (client : RestConfig) (ns : String) (secret : Secret) (w : W) {w' : W}
      → K.update_secret client ns secret w ≡ (ok tt, w')
      → stored w' ns secret.name ≡ some secret
  pub key_created :
      (ego name role : String) (w : W) {made : String × String} {w' : W}
      → E.create_api_key ego name role w ≡ (ok made, w')
      → (key : ApiKey) → keys.Has w' key
      → keys.Has w key ⊎ (key.key ≡ made.0)
  pub key_made :
      (ego name role : String) (w : W) {made : String × String} {w' : W}
      → E.create_api_key ego name role w ≡ (ok made, w')
      → keys.Has w' (record { name = name; key = made.0 })
  pub role_created :
      (ego : String) (request : CreateIamRoleRequest) (w : W) (key : ApiKey)
      → keys.Has (E.create_iam_role ego request w).1 key
      → keys.Has w key
  pub slept : (d : ℤ) (w : W) (key : ApiKey) → keys.Has (K.sleep d w) key → keys.Has w key
  pub got :
      (client : RestConfig) (ns name : String) (w : W) (key : ApiKey)
      → keys.Has (K.get_secret client ns name w).1 key ↔ keys.Has w key
  pub creation_kept :
      (client : RestConfig) (ns : String) (secret : Secret) (w : W) (key : ApiKey)
      → keys.Has (K.create_secret client ns secret w).1 key ↔ keys.Has w key
  pub update_kept :
      (client : RestConfig) (ns : String) (secret : Secret) (w : W) (key : ApiKey)
      → keys.Has (K.update_secret client ns secret w).1 key ↔ keys.Has w key

module _ {W : Type 0} (K : Kubernetes W) (E : Egoscale W) (keys : KeyLaws E)
    (laws : SecretLaws K E keys) where
  open keys use {Has, waited}
  open laws use {
    stored, created, updated, key_created, key_made, role_created, slept, got, creation_kept,
    update_kept,
  }

  -- The secret of the driver holds the key, and the keys are those of the state `w`.
  abbrev Written : String × String → W → W → Type 0
  Written made w w' =
      (stored w' secret_namespace secret_name ≡ some (credentials made.0 made.1))
      × ((key : ApiKey) → Has w' key ↔ Has w key)

  -- A write behind a lookup.
  write-Written :
      {A : Type 0} (made : String × String) (get : Action W A) (write : Action W (Unit {0}))
      (q q₁ : Kube W) {r : Result A} {q' : Kube W}
      → in_world get q ≡ (r, q₁)
      → in_world write q₁ ≡ (ok tt, q')
      → ((key : ApiKey) → Has (get q.world).1 key ↔ Has q.world key)
      → ((w : W) (key : ApiKey) → Has (write w).1 key ↔ Has w key)
      → (write q₁.world ≡ (ok tt, q'.world)
          → stored q'.world secret_namespace secret_name ≡ some (credentials made.0 made.1))
      → Written made q.world q'.world
  write-Written made get write q q₁ {q' = q'} looked_up written reads keeps stores = (
    stores (ap (λ p. (p.0, p.1.world)) written),
    λ key.
        let before : Has q₁.world key ↔ Has q.world key =
          subst (λ t. Has t key ↔ Has q.world key) (ap (λ p. p.1.world) looked_up) (reads key) in
        let after : Has q'.world key ↔ Has q₁.world key =
          subst (λ t. Has t key ↔ Has q₁.world key) (ap (λ p. p.1.world) written)
            (keeps q₁.world key) in
        (λ there. before.0 (after.0 there), λ there. after.1 (before.1 there)),
  )

  apply_secret-Written :
      (made : String × String) (q : Kube W) {q' : Kube W}
      → apply_secret K made.0 made.1 q ≡ (ok tt, q')
      → Written made q.world q'.world
  unfolding apply_secret
  apply_secret-Written made q {q'} h =
      let client = q.k8s.client_set in
      let secret = credentials made.0 made.1 in
      let get = K.get_secret client secret_namespace secret_name in
      let update = K.update_secret client secret_namespace secret in
      let create = K.create_secret client secret_namespace secret in
      handle-ok_elim (in_world get) _ _ q h
        (λ found q₁ e h₁.
          write-Written made get update q q₁ e h₁ (got client secret_namespace secret_name q.world)
            (update_kept client secret_namespace secret)
            (updated client secret_namespace secret q₁.world))
        (λ x q₁ e h₁. elim (Bool-cases (K.is_not_found x)) [
          | inl absent ↦
              write-Written made get create q q₁ e (rw absent at h₁)
                (got client secret_namespace secret_name q.world)
                (creation_kept client secret_namespace secret)
                (created client secret_namespace secret q₁.world)
          | inr refused ↦ absurd (cc (rw refused at h₁))
        ])

  at_k8s-Written :
      (made : String × String) (s : Run W) {s' : Run W}
      → at_k8s (apply_secret K made.0 made.1) s ≡ (ok tt, s')
      → Written made s.world s'.world
  at_k8s-Written made s {s'} h = elim (Option-cases s.cluster.k8s) [
    | inl unset ↦ absurd (cc (rw unset at h))
    | inr (k8s, set) ↦ behind k8s (rw set at h)
  ]
    where
      kube : K8s → Kube W
      kube k8s = record { k8s = k8s; goroutines = s.goroutines; world = s.world }

      behind :
          (k8s : K8s)
          → at_k8s
              (apply_secret K made.0 made.1)
              (record s { cluster = record s.cluster { k8s = some k8s } })
            ≡ (ok tt, s')
          → Written made s.world s'.world
      behind k8s e =
          let after = apply_secret K made.0 made.1 (kube k8s) in
          subst (Written made s.world) (ap (λ p. p.1.world) e)
            (apply_secret-Written made (kube k8s) (ap (λ p. (p.0, after.1)) e))

  make_role-keeps :
      (request : CreateIamRoleRequest) (s : Run W) {r : Result String} {s' : Run W}
      → await_id E (at_ego (λ ego. E.create_iam_role ego request)) s ≡ (r, s')
      → (key : ApiKey) → Has s'.world key
      → Has s.world key
  make_role-keeps request s e key there =
      let make = λ (ego : String). E.create_iam_role ego request in
      (await_id-Keeps E make s (λ w. Has w key → Has s.world key)
          (role_created s.cluster.ego request s.world key)
          (λ op w fewer here. fewer (waited s.cluster.ego op w key here))).1
        (subst (λ t. Has t.world key) (sym (ap (λ p. p.1) e)) there)

  -- The cluster's secret for the driver holds the name and the secret of the API key.
  abbrev pub Holds : String × String → W → Type 0
  Holds made w =
      (secret : Secret) × (stored w "kube-system" "exoscale-credentials" ≡ some secret)
      × (secret.name ≡ "exoscale-credentials")
      × (secret.namespace ≡ "kube-system")
      × (secret.data_of ≡ ("EXOSCALE_API_KEY", made.0) ∷ ("EXOSCALE_API_SECRET", made.1) ∷ [])

  -- Over clients that meet KeyLaws and SecretLaws, when the part of applyCSI that makes a key returns
  -- nil: an API key was created by the cluster's client under the cluster's key name, the secret of
  -- the driver holds the name and the secret of this key, the service has it, and it has no other key
  -- of the cluster's key name, however many there were before.
  pub create_csi_secret-installs :
      (root : String) (s : Run W) {s' : Run W}
      → create_csi_secret K E root s ≡ (ok tt, s')
      → (role : String) × (w₁ : W) × (w₂ : W) × (made : String × String) × (E.create_api_key
            s.cluster.ego s.cluster.api_key_name role w₁
          ≡ (ok made, w₂))
        × Holds made s'.world
        × Has s'.world (record { name = s.cluster.api_key_name; key = made.0 })
        × ((key : ApiKey) → Has s'.world key → key.name ≡ s.cluster.api_key_name → key.key ≡ made.0)
  unfolding create_csi_secret
  create_csi_secret-installs root s {s'} h =
      let no_role : Error → Error = wrap "error creating IAM role: %w" in
      let no_secret : Error → Error = wrap "error creating secret: %w" in
      let name = s.cluster.api_key_name in
      let request = role_request s.cluster.api_role_name s.cluster.name in
      let make_role = await_id E (at_ego (λ ego. E.create_iam_role ego request)) in
      >>=-ok_elim (delete_api_key_and_role E) _ s h λ u s₁ cleaned h₁.
        >>=-ok_elim (or_else make_role no_role) _ s₁ h₁ λ role s₂ roled h₂.
          let s₃ = sleep_run K (pos 3000000000) s₂ in
          >>=-ok_elim (at_ego (λ ego. E.create_api_key ego name role)) _ s₃ h₂ λ made s₄ keyed h₃.
            or_else-ok_elim make_role no_role s₁ roled λ has_role.
              or_else-ok_elim (at_k8s (apply_secret K made.0 made.1)) no_secret s₄ h₃ λ applied.
                let written = at_k8s-Written made s₄ applied in
                let same₁ : s₁.cluster ≡ s.cluster =
                  subst (λ t. t.cluster ≡ s.cluster) (ap (λ p. p.1) cleaned)
                    (delete_api_key_and_role-Stable (λ c. c ≡ s.cluster) E s refl) in
                let same : s₂.cluster ≡ s.cluster =
                  subst (λ t. t.cluster ≡ s.cluster) (ap (λ p. p.1) has_role)
                    (await_id-Stable (λ c. c ≡ s.cluster) E
                      (at_ego (λ ego. E.create_iam_role ego request)) (λ t q. q) s₁ same₁) in
                let called : E.create_api_key s₃.cluster.ego name role s₃.world
                    ≡ (ok made, s₄.world) =
                  ap (λ p. (p.0, p.1.world)) keyed in
                (
                  role,
                  s₃.world,
                  s₄.world,
                  made,
                  subst (λ c. E.create_api_key c.ego name role s₃.world ≡ (ok made, s₄.world)) same
                      called,
                  (credentials made.0 made.1, written.0, refl, refl, refl),
                  (written.1 (record { name = name; key = made.0 })).1 (
                      key_made s₃.cluster.ego name role s₃.world
                        (ap (λ p. (p.0, p.1.world)) keyed)),
                  λ key there named.
                      elim (key_created s₃.cluster.ego name role s₃.world
                        (ap (λ p. (p.0, p.1.world)) keyed) key ((written.1 key).0 there)) [
                          | inl old ↦ absurd (
                              delete_api_key_and_role_clears E keys s cleaned key
                                (make_role-keeps request s₁ has_role key
                                  (slept (pos 3000000000) s₂.world key old))
                                named)
                          | inr new ↦ new
                        ],
                )
