-- ===== src/Driver/Version.antt =====
-- driver/version.go: GetVersion and GetVersionJSON. What the linker sets in buildinfo, the constants
-- of the package runtime and encoding/json are parameters.
use exoscale_csi_driver.Base.{String, ◌<>◌, Result}

pub record VersionInfo : Type 0 where
  pub driver_version : String
  pub git_commit : String
  pub build_date : String
  pub go_version : String
  pub compiler : String
  pub platform : String

-- buildinfo.Version, GitCommit and BuildDate, which `init` of the command sets.
pub record BuildInfo : Type 0 where
  pub version : String
  pub git_commit : String
  pub build_date : String

-- runtime.Version(), Compiler, GOOS and GOARCH
pub record Runtime : Type 0 where
  pub version : String
  pub compiler : String
  pub goos : String
  pub goarch : String

module _ (build : BuildInfo) (runtime : Runtime) where
  unfoldable pub get_version : VersionInfo
  get_version = record {
    driver_version = build.version;
    git_commit = build.git_commit;
    build_date = build.build_date;
    go_version = runtime.version;
    compiler = runtime.compiler;
    platform = runtime.goos <> ("/" <> runtime.goarch);
  }

  -- Over json.MarshalIndent.
  unfoldable pub get_version_json : (VersionInfo → Result String) → Result String
  unfolding get_version
  get_version_json marshal_indent = marshal_indent get_version
