-- ===== src/Command.antt =====
-- cmd/exoscale-csi-driver/main.go: the command.
pub mod Serving
use exoscale_csi_driver.Base.{
  ℕ, zero, suc, String, Bool, false, if◌then◌else◌, Action, pure, proceed, handle, ok,
}
use exoscale_csi_driver.Api.{Api}
use exoscale_csi_driver.Driver.System.{Host}
use exoscale_csi_driver.Driver.{DriverConfig, new_driver, run}
use exoscale_csi_driver.Driver.Version.{BuildInfo, Runtime, VersionInfo, get_version}

-- The flags. The prefix is handed to a driver that does not read it.
pub record CommandLine : Type 0 where
  pub endpoint : String
  pub prefix : String
  pub version : Bool
  pub mode : String

abbrev pub default_command_line : CommandLine
default_command_line = record {
  endpoint = "unix:/tmp/csi.sock";
  prefix = "";
  version = false;
  mode = "all";
}

-- fmt.Printf of the version, and os.Getenv.
pub record Environment (W : Type 0) : Type 0 where
  pub print_version : VersionInfo → W → W
  pub getenv : String → String

-- `init`, with the variables that the linker sets.
unfoldable pub init : String → String → String → BuildInfo
init version commit build_date = record {
  version = version;
  git_commit = commit;
  build_date = build_date;
}

unfoldable pub config_of : CommandLine → String → DriverConfig
config_of line api_endpoint = record {
  endpoint = line.endpoint;
  mode = line.mode;
  zone_endpoint = api_endpoint;
}

-- The exit code of klog.Fatalln.
abbrev pub fatal : ℕ
fatal = 255

module _ (A : Api) (H : Host A.State) (V : Environment A.State) (build : BuildInfo)
    (r : Runtime) where
  -- The process's exit code.
  unfoldable pub main : CommandLine → Action A.State ℕ
  unfolding get_version config_of new_driver run
  main line =
      if line.version
      then (λ w. (ok 0, V.print_version (get_version build r) w))
      else handle (new_driver A H (config_of line (V.getenv "EXOSCALE_API_ENDPOINT")))
          (λ _. pure fatal) (λ d. handle (run A H d) (λ _. pure fatal) (λ _. pure 0))
