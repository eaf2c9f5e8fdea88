-- ===== src/Wrapper/Options.antt =====
-- The run time options of a sensor (`SensorWrapper.setup_options`) and the URIs made from them.
use virt_ue_sensing.Base.{ℕ, ◌++◌, Bool, false, Option, none, if◌then◌else◌}
use virt_ue_sensing.Base.Text.{Text, codes, starts_with}
use virt_ue_sensing.Base.Number.{to_decimal}

-- An advertised port: a number, or, from the command line, a text, since that option has no type.
pub data Port : Type 0 where
  number negative : ℕ → Port
  text : Text → Port

-- Times are in milliseconds.
pub record Opts : Type 0 where
  pub public_key_path : Option Text
  pub private_key_path : Option Text
  pub ca_key_path : Text
  pub api_host : Text
  pub api_https_port : ℕ
  pub api_http_port : ℕ
  pub api_version : Text
  pub sensor_id : Option Text
  pub virtue_id : Option Text
  pub username : Option Text
  pub sensor_hostname : Option Text
  pub sensor_port : ℕ
  pub sensor_advertised_hostname : Option Text
  pub sensor_advertised_port : Option Port
  pub delay_start : ℕ
  pub api_retry_max : ℕ
  pub api_retry_wait : ℕ
  pub backoff_delay : ℕ
  pub check_for_long_blocking : Bool

-- What no argument on the command line gives.
abbrev pub default_opts : Opts
default_opts = record {
  public_key_path = none;
  private_key_path = none;
  ca_key_path = codes "./cert";
  api_host = codes "sensing-api.savior.internal";
  api_https_port = 17504;
  api_http_port = 17141;
  api_version = codes "v1";
  sensor_id = none;
  virtue_id = none;
  username = none;
  sensor_hostname = none;
  sensor_port = 11000;
  sensor_advertised_hostname = none;
  sensor_advertised_port = none;
  delay_start = 0;
  api_retry_max = 30000;
  api_retry_wait = 500;
  backoff_delay = 30000;
  check_for_long_blocking = false;
}

abbrev pub with_scheme : Bool → Text → Text
with_scheme secure host =
    if starts_with (codes "http") host
    then host
    else if secure
    then codes "https://" ++ host
    else codes "http://" ++ host

unfoldable pub construct_api_uri : Opts → Text → Bool → Text
unfolding starts_with to_decimal
construct_api_uri opts uri_path secure =
    let port = if secure then opts.api_https_port else opts.api_http_port in
    with_scheme secure opts.api_host
    ++ codes ":"
    ++ to_decimal port
    ++ codes "/api/"
    ++ opts.api_version
    ++ uri_path
