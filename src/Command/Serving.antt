-- ===== src/Command/Serving.antt =====
-- What a process that ends well has done.
use exoscale_csi_driver.Base.{
  ℕ, ◌≡◌, subst, ap, ◌∙◌, ◌≢◌, false, arith, ok-injective, pure, handle, handle-ok_elim, ok,
}
use exoscale_csi_driver.Api.{Api}
use exoscale_csi_driver.Driver.System.{Host}
use exoscale_csi_driver.Driver.{Driver, DriverConfig, new_driver, run, registered}
use exoscale_csi_driver.Driver.Modes.{
  services_of, run-serves, new_driver-config, new_driver-registered,
}
use exoscale_csi_driver.Driver.Version.{BuildInfo, Runtime}
use exoscale_csi_driver.Command.{CommandLine, Environment, config_of, fatal, main}

module _ (A : Api) (H : Host A.State) where
  -- A driver was made from `config`, its services are those that Run registers for the mode in
  -- `config`, and the last call was the one that serves them.
  abbrev pub Served : DriverConfig → A.State → A.State → Type 0
  Served config w w' =
      (d : Driver) × (w₀ : A.State) × (new_driver A H config w ≡ (ok d, w₀))
      × (registered config.mode ≡ ok (services_of d))
      × (listener : ℕ) × (w₁ : A.State) × (H.serve listener (services_of d) w₁ ≡ (ok tt, w'))

  module _ (V : Environment A.State) (build : BuildInfo) (r : Runtime) where
    -- A process that is not asked for its version and ends with the code 0 has made a driver from its
    -- flags and its environment, has set up in it exactly the services that Run registers for the mode
    -- on the command line, and its last call was the one that serves these. A failure of NewDriver or
    -- of Run gives another code.
    pub main-Served :
        (line : CommandLine) (w : A.State) {w' : A.State}
        → line.version ≡ false
        → main A H V build r line w ≡ (ok 0, w')
        → Served (config_of line (V.getenv "EXOSCALE_API_ENDPOINT")) w w'
    unfolding main
    main-Served line w {w'} serves h =
        let config = config_of line (V.getenv "EXOSCALE_API_ENDPOINT") in
        handle-ok_elim (new_driver A H config) (λ _. pure fatal)
          (λ d. handle (run A H d) (λ _. pure fatal) (λ _. pure 0)) w (rw serves at h)
          (λ d w₀ made h₁.
            handle-ok_elim (run A H d) (λ _. pure fatal) (λ _. pure 0) w₀ h₁
              (λ u w₂ ran h₂.
                let served =
                  run-serves A H config w w₀ made (ran ∙ ap (λ t. (ok u, t)) (ap (λ p. p.1) h₂)) in
                (d, w₀, made, registers made, served.0, served.1, served.2))
              (λ e w₂ failed h₂. absurd (not_zero (ok-injective (ap (λ p. p.0) h₂)))))
          (λ e w₀ failed h₁. absurd (not_zero (ok-injective (ap (λ p. p.0) h₁))))
      where
        registers :
            {d : Driver} {w₀ : A.State}
            → new_driver A H (config_of line (V.getenv "EXOSCALE_API_ENDPOINT")) w ≡ (ok d, w₀)
            → registered (config_of line (V.getenv "EXOSCALE_API_ENDPOINT")).mode
              ≡ ok (services_of d)
        registers {d} made =
            let config = config_of line (V.getenv "EXOSCALE_API_ENDPOINT") in
            subst (λ c. registered c.mode ≡ ok (services_of d))
              (new_driver-config A H config w made) (new_driver-registered A H config w made)

        not_zero : fatal ≢ 0
        not_zero e = omega arith
