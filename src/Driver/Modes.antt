-- ===== src/Driver/Modes.antt =====
-- The mode of the driver, from NewDriver to Run.
use exoscale_csi_driver.Base.{
  ℕ, String, ◌≡◌, refl, subst, ap, inl, inr, false, Option, none, some, List, [], ◌∷◌, ◌++◌, str_eq,
  str_eq_iff, if◌then◌else◌, Bool-cases, ok-injective, lift, or_else, >>=-ok_elim, lift-ok_elim,
  wrap, ok,
}
use exoscale_csi_driver.Api.{Api}
use exoscale_csi_driver.Disk.Paths.{join_path, dir}
use exoscale_csi_driver.Driver.System.{Service, identity, controller, node, Host}
use exoscale_csi_driver.Driver.{
  DriverConfig, NodeMetadata, Driver, controller_mode, node_mode, all_mode, with_services,
  registered, node_metadata, with_client, new_driver, run, require_unix, remove_socket, ensure_dir,
}

-- The services of a driver that have been set up.
abbrev pub services_of : Driver → List Service
services_of d =
    identity ∷ (elim d.controller_service [ none ↦ [] | some _ ↦ controller ∷ [] ])
    ++ (elim d.node_service [ none ↦ [] | some _ ↦ node ∷ [] ])

with_services-registered :
    (config : DriverConfig) (client : String) (meta : NodeMetadata) {d : Driver}
    → with_services config client meta ≡ ok d
    → str_eq config.mode node_mode ≡ false
    → registered d.config.mode ≡ ok (services_of d)
unfolding with_services registered
with_services-registered config client meta h not_node =
    elim (Bool-cases (str_eq config.mode controller_mode)) [
      | inl is_controller ↦
          subst (λ t. registered t.config.mode ≡ ok (services_of t))
            (ok-injective (rw is_controller at h)) (rw is_controller refl)
      | inr not_controller ↦ elim (Bool-cases (str_eq config.mode all_mode)) [
        | inl is_all ↦
            subst (λ t. registered t.config.mode ≡ ok (services_of t))
              (ok-injective (rw (not_controller, is_all) at h))
              (rw (not_controller, not_node, is_all) refl)
        | inr other ↦ absurd (cc (rw (not_controller, other) at h))
      ]
    ]

with_services-config :
    (config : DriverConfig) (client : String) (meta : NodeMetadata) {d : Driver}
    → with_services config client meta ≡ ok d
    → d.config ≡ config
unfolding with_services
with_services-config config client meta h = elim (Bool-cases (str_eq config.mode controller_mode)) [
  | inl is_controller ↦ subst (λ t. t.config ≡ config) (ok-injective (rw is_controller at h)) refl
  | inr not_controller ↦ elim (Bool-cases (str_eq config.mode all_mode)) [
    | inl is_all ↦
        subst (λ t. t.config ≡ config) (ok-injective (rw (not_controller, is_all) at h)) refl
    | inr other ↦ absurd (cc (rw (not_controller, other) at h))
  ]
]

node_mode-registered :
    (mode : String) → mode ≡ node_mode → registered mode ≡ ok (identity ∷ node ∷ [])
unfolding registered
node_mode-registered mode e = rw e refl

module _ (A : Api) (H : Host A.State) where
  with_client-ok_elim :
      (config : DriverConfig) (meta : NodeMetadata) (w : A.State) {d : Driver} {w' : A.State}
      → with_client A H config meta w ≡ (ok d, w')
      → (endpoint : String) × (with_services config endpoint meta ≡ ok d)
  unfolding with_client
  with_client-ok_elim config meta w h =
      let zone_endpoint : Option String =
        if str_eq config.zone_endpoint "" then none else some config.zone_endpoint in
      >>=-ok_elim (or_else (lift (H.new_client zone_endpoint)) (wrap "new driver: %w")) _ w h
        λ client w₁ made h₁.
          >>=-ok_elim
            (or_else (A.get_zone_api_endpoint client meta.zone_name) (wrap "new driver: %w")) _ w₁
            h₁ λ endpoint w₂ led h₂. (endpoint, ap (λ p. p.0) h₂)

  -- The driver that NewDriver makes keeps the configuration it was made from.
  pub new_driver-config :
      (config : DriverConfig) (w : A.State) {d : Driver} {w' : A.State}
      → new_driver A H config w ≡ (ok d, w')
      → d.config ≡ config
  unfolding new_driver
  new_driver-config config w h = >>=-ok_elim (node_metadata A H) _ w h λ meta w₁ got h₁.
      elim (Bool-cases (str_eq config.mode node_mode)) [
        | inl is_node ↦
            subst (λ t. t.config ≡ config) (ok-injective (ap (λ p. p.0) (rw is_node at h₁))) refl
        | inr not_node ↦
            (let made = with_client-ok_elim config meta w₁ (rw not_node at h₁) in
              with_services-config config made.0 meta made.1)
      ]

  -- When NewDriver succeeds, Run knows the mode of the driver, and registers exactly the services
  -- that NewDriver has set up.
  pub new_driver-registered :
      (config : DriverConfig) (w : A.State) {d : Driver} {w' : A.State}
      → new_driver A H config w ≡ (ok d, w')
      → registered d.config.mode ≡ ok (services_of d)
  unfolding new_driver
  new_driver-registered config w {d} {w'} h =
      >>=-ok_elim (node_metadata A H) _ w h λ meta w₁ got h₁.
        elim (Bool-cases (str_eq config.mode node_mode)) [
          | inl is_node ↦
              subst (λ t. registered t.config.mode ≡ ok (services_of t))
                (ok-injective (ap (λ p. p.0) (rw is_node at h₁)))
                (node_mode-registered config.mode ((str_eq_iff config.mode node_mode).0 is_node))
          | inr not_node ↦
              (let made = with_client-ok_elim config meta w₁ (rw not_node at h₁) in
                with_services-registered config made.0 meta made.1 not_node)
        ]

  -- A driver that NewDriver has made serves, once it runs, exactly the services that were set up:
  -- when Run returns without an error, the last call was the one that serves these.
  pub run-serves :
      (config : DriverConfig) (w : A.State) {d : Driver} {w₀ : A.State} (w₁ : A.State)
      {w' : A.State}
      → new_driver A H config w ≡ (ok d, w₀)
      → run A H d w₁ ≡ (ok tt, w')
      → (listener : ℕ) × (w₂ : A.State) × (H.serve listener (services_of d) w₂ ≡ (ok tt, w'))
  unfolding run
  run-serves config w {d} w₁ {w'} made h =
      lift-ok_elim (H.parse_url d.config.endpoint) _ w₁ h λ url parsed h₁.
        >>=-ok_elim (require_unix A H url.scheme) _ w₁ h₁ λ u₁ w₂ unix h₂.
          let addr = join_path url.host url.path in
          >>=-ok_elim (remove_socket A H addr) _ w₂ h₂ λ u₂ w₃ removed h₃.
            >>=-ok_elim (ensure_dir A H (dir addr)) _ w₃ h₃ λ u₃ w₄ ensured h₄.
              >>=-ok_elim (H.listen url.scheme addr) _ w₄ h₄ λ listener w₅ listens h₅.
                (listener, w₅, rw (new_driver-registered config w made) at h₅)
