-- ===== src/Tests/Told.antt =====
-- The server after its first run.
use clusterset_server.Base.{◌≡◌, refl, []}
use clusterset_server.AuthCache.Returns.{synchronize_returns}
use clusterset_server.AuthCache.State.{AuthCache, done, new_auth_cache}
use clusterset_server.AuthCache.Sync.{synchronize}
use clusterset_server.Server.{clusters, surroundings_of, Server, new_filter_server, put, Step}
use clusterset_server.Tests.Lists.{list_platform}
use clusterset_server.Tests.Servers.{library, informers, clusters_hooked, hooked}

pub first_run :
    (ac : AuthCache) × (synchronize
        (surroundings_of library clusters informers new_auth_cache)
        new_auth_cache
      ≡ done tt ac)
    × (ac.watchers ≡ [])
first_run =
    synchronize_returns (surroundings_of library clusters informers new_auth_cache) new_auth_cache
      tt

abbrev pub synchronized : AuthCache
synchronized = first_run.0

abbrev pub after_run : Server
after_run =
    put new_filter_server clusters
      (synchronize (surroundings_of library clusters informers new_auth_cache) new_auth_cache)

abbrev pub run_step : Step library new_filter_server after_run
run_step = Step.ran clusters 1 informers new_auth_cache clusters_hooked hooked refl
