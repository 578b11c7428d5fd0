-- ===== src/Start.antt =====
-- pkg/cmd/start.go, and of pkg/cmd/server.go what `NewFilterServer` does with the api server.
pub mod ServerOptions
pub mod Main
use clusterset_server.Base.{some, Option, List, [], ◌∷◌, String, Error, Result, ok, err, ◌>>=◌}
use clusterset_server.Server.{
  CacheName, Action, start_informers, start_cluster_informers, post_start_hooks,
}
use clusterset_server.Api.{group_name, versioned_storage}
use clusterset_server.Start.ServerOptions.{
  OptionsLibrary, Options, set_defaults, validate, api_server_config,
}

-- What the start takes from client-go, the API module and the library apiserver beside the options.
pub record StartLibrary (options : OptionsLibrary) : Type 1 where
  pub ClientConfig : Type 0
  pub KubeClient : Type 0
  pub ClusterClient : Type 0
  pub ApiServer : Type 0
  pub aggregate : List Error → Error
  pub build_config : String → Result ClientConfig
  pub new_kube_client : ClientConfig → Result KubeClient
  pub new_cluster_client : ClientConfig → Result ClusterClient
  -- Complete(informers).New(name, delegate)
  pub new_api_server : options.Config → KubeClient → String → Result ApiServer
  -- GroupVersion.Version of the API module
  pub version_of : CacheName → String
  -- the group, and the storage of its versions
  pub install_api_group :
      ApiServer → String → List (String × List (String × CacheName)) → Result ApiServer
  -- <-chan struct{}, and `wait.NeverStop`
  pub Channel : Type 0
  pub never_stop : Channel
  -- PrepareRun().Run(stopCh), with the hooks that were added to the server; none where it does not
  -- return
  pub run_api_server :
      ApiServer → List (String × List Action) → Channel → Option (Result (Unit {0}))

module _ {options : OptionsLibrary} (library : StartLibrary options) where
  -- `FilterServer`, with the hooks that were added to it and the clients of its informers
  pub record FilterServer : Type 0 where
    pub api_server : library.ApiServer
    pub hooks : List (String × List Action)
    pub kube_client : library.KubeClient
    pub cluster_client : library.ClusterClient

  unfoldable pub filter_server :
      library.ClusterClient → library.KubeClient → options.Config → Result FilterServer
  filter_server cluster_client kube_client config = do
    api_server ← library.new_api_server config kube_client "filter-server"
    installed ←
        library.install_api_group api_server group_name (versioned_storage library.version_of)
    ok (record {
      api_server = installed;
      hooks = post_start_hooks;
      kube_client = kube_client;
      cluster_client = cluster_client;
    })

  -- if errs := s.Validate(); len(errs) != 0 { return utilerrors.NewAggregate(errs) }
  abbrev pub checked : List Error → Options options → Result (Options options)
  checked [] o = ok o
  checked (e ∷ errors) o = err (library.aggregate (e ∷ errors))

  -- `Run` up to the start of the informers: the server that it goes on to run
  unfoldable pub run : Options options → Result FilterServer
  run s = do
    defaulted ← set_defaults options s
    valid ← checked (validate options defaulted) defaulted
    cluster_config ← library.build_config valid.kube_config_file
    kube_client ← library.new_kube_client cluster_config
    cluster_client ← library.new_cluster_client cluster_config
    config ← api_server_config options valid
    filter_server cluster_client kube_client config

  -- `FilterServer.Run`
  abbrev pub run_server : FilterServer → library.Channel → Option (Result (Unit {0}))
  run_server server stop = library.run_api_server server.api_server server.hooks stop

  -- what was started, in order, and the error, if any; none where `Run` does not return
  pub record Ran : Type 0 where
    pub started : List Action
    pub ended : Option (Result (Unit {0}))

  -- the end of `Run`
  abbrev pub served : Result FilterServer → library.Channel → Ran
  served (err e) stop = record { started = []; ended = some (err e) }
  served (ok server) stop = record {
    started = start_informers ∷ start_cluster_informers ∷ [];
    ended = run_server server stop;
  }

  unfoldable pub run_to_end : Options options → library.Channel → Ran
  run_to_end s stop = served (run s) stop
