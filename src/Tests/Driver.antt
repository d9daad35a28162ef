-- ===== src/Tests/Driver.antt =====
-- NewDriver and Run.
use exoscale_csi_driver.Base.{
  ◌≡◌, refl, none, some, [], str_eq, if◌then◌else◌, is_not_exist, pure, fail, os_not_exist,
  other_cause, foreign, ok,
}
use exoscale_csi_driver.Api.Memory.{Memory, memory_api}
use exoscale_csi_driver.Driver.System.{Host}
use exoscale_csi_driver.Driver.{
  DriverConfig, Driver, new_driver, node_metadata, get_exoscale_node_metadata_from_cd_rom,
  new_node_service, registered, require_unix, remove_socket, ensure_dir, run,
}
use exoscale_csi_driver.Driver.Version.{Runtime, get_version}
use exoscale_csi_driver.Command.{
  CommandLine, Environment, default_command_line, init, config_of, main,
}
use exoscale_csi_driver.Command.Serving.{Served, main-Served}

abbrev empty : Memory
empty = record { next = 7; volumes = []; snapshots = [] }

abbrev host : Host Memory
host = record {
  metadata_from_cd_rom = λ key. pure (if str_eq key "instance-id" then "i-1" else "ch-gva-2");
  metadata_get = λ key. fail (foreign other_cause "no server");
  new_client = λ endpoint. ok "default";
  parse_url = λ url. ok (record { scheme = "unix"; host = ""; path = "/tmp/csi.sock" });
  remove = λ path. fail (foreign os_not_exist "no such file or directory");
  stat = λ path. pure tt;
  mkdir_all = λ path perm. pure tt;
  listen = λ scheme addr. pure 3;
  serve = λ listener services. pure tt;
}

abbrev config : DriverConfig
config = record { endpoint = "unix:/tmp/csi.sock"; mode = "node"; zone_endpoint = "" }

abbrev driver : Driver
driver = record {
  controller_service = none;
  node_service = some (record { node_id = "i-1"; zone_name = "ch-gva-2" });
  config = config;
}

new_driver_makes : new_driver memory_api host config empty ≡ (ok driver, empty)
unfolding new_driver node_metadata get_exoscale_node_metadata_from_cd_rom new_node_service
new_driver_makes = refl

run_runs : run memory_api host driver empty ≡ (ok tt, empty)
unfolding run require_unix remove_socket is_not_exist ensure_dir registered
run_runs = refl

abbrev environment : Environment Memory
environment = record { print_version = λ info w. w; getenv = λ name. "" }

abbrev line : CommandLine
line = record default_command_line { mode = "node" }

abbrev runtime : Runtime
runtime = record { version = "go1.23"; compiler = "gc"; goos = "linux"; goarch = "amd64" }

main_runs :
    main memory_api host environment (init "1.0" "c0ffee" "") runtime line empty ≡ (ok 0, empty)
unfolding main config_of new_driver node_metadata get_exoscale_node_metadata_from_cd_rom
    new_node_service run require_unix remove_socket is_not_exist ensure_dir registered
main_runs = refl

get_version_runs : (get_version (init "1.0" "c0ffee" "") runtime).platform ≡ "linux/amd64"
unfolding get_version
get_version_runs = refl

main-Served_example :
    Served memory_api host
      (record { endpoint = "unix:/tmp/csi.sock"; mode = "node"; zone_endpoint = "" })
      empty
      empty
unfolding config_of
main-Served_example =
    main-Served memory_api host environment (init "1.0" "c0ffee" "") runtime line empty refl
      main_runs
