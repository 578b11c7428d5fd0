-- ===== src/Tests/Starts.antt =====
-- A run of `main` with libraries whose calls succeed where the options name a configuration.
use clusterset_server.Base.{
  some, none, false, Option, ◌≡◌, refl, Bool, List, [], ◌∷◌, String, ◌==◌, failure, Result, ok, err,
  if◌then◌else◌,
}
use clusterset_server.Server.{CacheName, Action, clusters, cluster_sets, post_start_hooks}
use clusterset_server.Start.{StartLibrary, filter_server, run, run_to_end}
use clusterset_server.Start.ServerOptions.{
  OptionsLibrary, Flag, Options, new_options, add_flags, set_defaults, validate, api_server_config,
}
use clusterset_server.Start.Main.{CommandLine, main}

abbrev pub api_versions : CacheName → String
api_versions clusters = "v1"
api_versions cluster_sets = "v1alpha1"

-- Options that are all texts; a configuration is the list of what was applied.
abbrev options_library : OptionsLibrary
options_library = record {
  ServerRun = String;
  SecureServing = String;
  Authentication = String;
  Authorization = String;
  Config = List String;
  new_server_run = "";
  new_secure_serving = "";
  new_authentication = "authentication";
  new_authorization = "authorization";
  server_run_flags = λ o. [];
  secure_serving_flags =
      λ o. record { name = "tls"; default = o; usage = "a certificate"; set = λ v o'. ok v } ∷ [];
  authentication_flags = λ o. [];
  authorization_flags = λ o. [];
  default_advertise_address = λ run secure. ok "10.0.0.1";
  advertise_address = λ run. run;
  maybe_default_with_self_signed_certs =
      λ secure address. if address == "" then err (failure "no address") else ok "self-signed";
  new_config = [];
  apply_server_run = λ o config. ok (o ∷ config);
  apply_secure_serving = λ o config. ok (o ∷ config);
  apply_authentication = λ o config. ok (o ∷ config);
  apply_authorization = λ o config. ok (o ∷ config);
  validate_server_run = λ o. if o == "" then failure "no address" ∷ [] else [];
  validate_secure_serving = λ o. if o == "" then failure "no certificate" ∷ [] else [];
  validate_authentication = λ o. [];
  validate_authorization = λ o. [];
  text = λ e. "failed";
}

-- A server without hooks fails, and one with hooks returns once it may stop.
abbrev with_hooks : List (String × List Action) → Bool → Option (Result (Unit {0}))
with_hooks [] stops = some (err (failure "no hooks"))
with_hooks (hook ∷ hooks) stops = if stops then some (ok tt) else none

abbrev start_library : StartLibrary options_library
start_library = record {
  ClientConfig = String;
  KubeClient = String;
  ClusterClient = String;
  ApiServer = List String;
  aggregate = λ errors. failure "invalid";
  build_config = λ file. ok file;
  new_kube_client = λ config. ok "kube";
  new_cluster_client = λ config. ok "cluster";
  new_api_server = λ config kube name. ok (name ∷ config);
  version_of = api_versions;
  install_api_group = λ api group storage. ok (group ∷ api);
  Channel = Bool;
  never_stop = false;
  run_api_server = λ api hooks stops. with_hooks hooks stops;
}

-- one argument for a flag, a name and a value
abbrev set_flag :
    String
    → String
    → List (Flag (Options options_library))
    → Options options_library
    → Result (Options options_library)
set_flag name value [] o = err (failure "unknown flag")
set_flag name value (f ∷ flags) o =
    if f.name == name then f.set value o else set_flag name value flags o

abbrev parse_pairs :
    List (Flag (Options options_library))
    → List String
    → Options options_library
    → Result (Options options_library)
parse_pairs flags (name ∷ value ∷ args) o = set_flag name value flags o
parse_pairs flags args o = ok o

abbrev command_line : CommandLine options_library
command_line = record { flags = []; parse = parse_pairs; usage = λ e. "usage" }

abbrev arguments : List String
arguments = "kube-config-file" ∷ "/etc/kube" ∷ []

main_runs : main start_library command_line arguments ≡ none
unfolding main run_to_end run add_flags new_options set_defaults validate api_server_config
    filter_server post_start_hooks
main_runs = refl
