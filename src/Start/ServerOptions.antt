-- ===== src/Start/ServerOptions.antt =====
-- pkg/cmd/options/options.go: the options of the server. What the library apiserver does with its
-- groups of options is an interface; a call that changes a group, or the configuration, answers
-- with what it has become.
use clusterset_server.Base.{
  List, [], ◌∷◌, ◌++◌, String, ltb, length, Error, failure, Result, ok, err, ◌>>=◌, if◌then◌else◌,
}
use clusterset_server.Base.Text.{join}

-- a flag of `pflag`: the value at first, the usage, and what a value of it does to the options
pub record Flag (A : Type 0) : Type 0 where
  pub name : String
  pub default : String
  pub usage : String
  pub set : String → A → Result A

pub record OptionsLibrary : Type 1 where
  pub ServerRun : Type 0
  pub SecureServing : Type 0
  pub Authentication : Type 0
  pub Authorization : Type 0
  pub Config : Type 0
  pub new_server_run : ServerRun
  pub new_secure_serving : SecureServing
  pub new_authentication : Authentication
  pub new_authorization : Authorization
  -- AddUniversalFlags, AddFlags
  pub server_run_flags : ServerRun → List (Flag ServerRun)
  pub secure_serving_flags : SecureServing → List (Flag SecureServing)
  pub authentication_flags : Authentication → List (Flag Authentication)
  pub authorization_flags : Authorization → List (Flag Authorization)
  pub default_advertise_address : ServerRun → SecureServing → Result ServerRun
  pub advertise_address : ServerRun → String
  pub maybe_default_with_self_signed_certs : SecureServing → String → Result SecureServing
  pub new_config : Config
  pub apply_server_run : ServerRun → Config → Result Config
  pub apply_secure_serving : SecureServing → Config → Result Config
  pub apply_authentication : Authentication → Config → Result Config
  pub apply_authorization : Authorization → Config → Result Config
  pub validate_server_run : ServerRun → List Error
  pub validate_secure_serving : SecureServing → List Error
  pub validate_authentication : Authentication → List Error
  pub validate_authorization : Authorization → List Error
  -- err.Error()
  pub text : Error → String

module _ (library : OptionsLibrary) where
  pub record Options : Type 0 where
    pub kube_config_file : String
    pub server_run : library.ServerRun
    pub secure_serving : library.SecureServing
    pub authentication : library.Authentication
    pub authorization : library.Authorization

  unfoldable pub new_options : Options
  new_options = record {
    kube_config_file = "";
    server_run = library.new_server_run;
    secure_serving = library.new_secure_serving;
    authentication = library.new_authentication;
    authorization = library.new_authorization;
  }

  -- The flags of a group that is a part of the options, which `get` reads and `put` writes.
  abbrev pub flags_of :
      {A : Type 0} → (Options → A) → (Options → A → Options) → List (Flag A) → List (Flag Options)
  flags_of get put [] = []
  flags_of get put (f ∷ flags) =
      record {
        name = f.name;
        default = f.default;
        usage = f.usage;
        set = λ value o. (f.set value (get o) >>= λ group. ok (put o group));
      }
      ∷ flags_of get put flags

  -- the flags of a flag set that `AddFlags` leaves
  unfoldable pub add_flags : Options → List (Flag Options) → List (Flag Options)
  add_flags o flags =
      flags
      ++ record {
        name = "kube-config-file";
        default = o.kube_config_file;
        usage = "Kubernetes configuration file to connect to kube-apiserver";
        set = λ value o'. ok (record o' { kube_config_file = value });
      }
        ∷ flags_of (λ o'. o'.server_run) (λ o' g. record o' { server_run = g })
            (library.server_run_flags o.server_run)
      ++ flags_of (λ o'. o'.secure_serving) (λ o' g. record o' { secure_serving = g })
          (library.secure_serving_flags o.secure_serving)
      ++ flags_of (λ o'. o'.authentication) (λ o' g. record o' { authentication = g })
          (library.authentication_flags o.authentication)
      ++ flags_of (λ o'. o'.authorization) (λ o' g. record o' { authorization = g })
          (library.authorization_flags o.authorization)

  -- the error of `MaybeDefaultWithSelfSignedCerts`, wrapped
  abbrev pub certificates_made : Result library.SecureServing → Result library.SecureServing
  certificates_made (ok secure) = ok secure
  certificates_made (err e) =
      err (failure (join ("error creating self-signed certificates: " ∷ library.text e ∷ []) ""))

  -- the options that `SetDefaults` leaves
  unfoldable pub set_defaults : Options → Result Options
  set_defaults o = do
    run ← library.default_advertise_address o.server_run o.secure_serving
    secure ← certificates_made (
        library.maybe_default_with_self_signed_certs o.secure_serving
          (library.advertise_address run))
    ok (record o { server_run = run; secure_serving = secure })

  unfoldable pub api_server_config : Options → Result library.Config
  api_server_config o = do
    served ← library.apply_server_run o.server_run library.new_config
    secured ← library.apply_secure_serving o.secure_serving served
    authenticated ← library.apply_authentication o.authentication secured
    library.apply_authorization o.authorization authenticated

  -- if errs := ...; len(errs) > 0 { errors = append(errors, errs...) }
  abbrev pub with_errors : List Error → List Error → List Error
  with_errors errors errs = if ltb 0 (length errs) then errors ++ errs else errors

  unfoldable pub validate : Options → List Error
  validate o =
      with_errors
        (with_errors
          (with_errors (with_errors [] (library.validate_server_run o.server_run))
            (library.validate_secure_serving o.secure_serving))
          (library.validate_authentication o.authentication))
        (library.validate_authorization o.authorization)
