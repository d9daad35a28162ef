-- ===== src/Integ/Flags.antt =====
-- internal/integ/flags/flags.go: the flags of the integration tests, and ValidateFlags.
pub mod Once
use exoscale_csi_driver.Base.{
  zero, suc, String, Bool, true, false, not, ◌&&◌, Option, none, some, str_eq, if◌then◌else◌, Error,
  Result, Action, proceed, errorf, no_args, text_arg, ok, err,
}

abbrev cluster_name_flag_name : String
cluster_name_flag_name = "cluster-name"

abbrev image_flag_name : String
image_flag_name = "image"

abbrev dont_apply_csi_flag_name : String
dont_apply_csi_flag_name = "dont-apply-csi"

pub record Flags : Type 0 where
  pub cluster_name : String
  pub create_cluster : Bool
  pub create_csi_secret : Bool
  pub image : String
  pub dont_apply_csi : Bool
  pub dont_clean_up_test_ns : Bool
  pub tear_down_csi : Bool
  pub tear_down_cluster : Bool
  pub zone : String

-- What the variables hold before flag.Parse.
abbrev pub default_flags : Flags
default_flags = record {
  cluster_name = "";
  create_cluster = false;
  create_csi_secret = false;
  image = "";
  dont_apply_csi = false;
  dont_clean_up_test_ns = false;
  tear_down_csi = false;
  tear_down_cluster = false;
  zone = "ch-gva-2";
}

-- The package's variables, what the command line says, and whether validateFlagsOnce has run.
pub record FlagState : Type 0 where
  pub values : Flags
  pub command_line : Flags
  pub validated : Bool

-- Go's `error` of a function that returns nothing else.
abbrev pub result_of : Option Error → Result (Unit {0})
result_of none = ok tt
result_of (some e) = err e

-- The body of the function that runs once: the second error takes the place of the first.
unfoldable pub flags_error : Flags → Option Error
flags_error flags =
    let unnamed =
      if str_eq flags.cluster_name ""
      then some (errorf "the flags --%s is required" (text_arg cluster_name_flag_name no_args))
      else none in
    if not (str_eq flags.image "") && flags.dont_apply_csi
    then some (
        errorf "the flags --%s and --%s are mutually exclusive"
          (text_arg image_flag_name (text_arg dont_apply_csi_flag_name no_args)))
    else unnamed

-- flag.Parse has accepted the command line: it ends the process otherwise.
unfoldable pub validate_flags : Action FlagState (Unit {0})
unfolding flags_error
validate_flags s = if s.validated then (ok tt, s) else (
  result_of (flags_error s.command_line),
  record s { values = s.command_line; validated = true },
)
