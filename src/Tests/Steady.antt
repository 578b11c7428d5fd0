-- ===== src/Tests/Steady.antt =====
-- The theorem on what is listed while RBAC stays as it is, for a second run.
use mathlib.Core.List.{Memᴰ}
use mathlib.Core.Path.{subst}
use clusterset_server.Base.{◌≡◌, ◌↔◌, refl, sym, true, Option, some, List, [], ◌∷◌, ok}
use clusterset_server.Objects.{Object, UserInfo}
use clusterset_server.Rbac.{Subject}
use clusterset_server.Rbac.Reviewer.{get_action, MayGet}
use clusterset_server.AuthCache.Capacity.{most_notifications}
use clusterset_server.AuthCache.Room.{Room}
use clusterset_server.AuthCache.State.{AuthCache, done}
use clusterset_server.AuthCache.Sync.{synchronize}
use clusterset_server.ClusterCache.Access.{cluster_group, names}
use clusterset_server.Registry.{ListOptions, label_selector_of}
use clusterset_server.Server.{clusters, surroundings_of, evaluator_of, list_of, Reaches}
use clusterset_server.Server.Steady.{steady_list_exact}
use clusterset_server.Tests.Access.{account, split-SplitsSubjects}
use clusterset_server.Tests.Cluster.{binding}
use clusterset_server.Tests.Clusters
use clusterset_server.Tests.Clusters.{lister-IsLister}
use clusterset_server.Tests.Lists.{list_platform}
use clusterset_server.Tests.Servers.{library, informers}
use clusterset_server.Tests.Told.{first_run, synchronized, run_step}

-- nobody watches
room :
    Room
      (most_notifications (surroundings_of library clusters informers synchronized) synchronized)
      synchronized.watchers
room =
    subst
      (Room
        (most_notifications (surroundings_of library clusters informers synchronized) synchronized))
      (sym first_run.2) tt

steady_list_exact_example :
    (ac : AuthCache) × (synchronize
        (surroundings_of library clusters informers synchronized)
        synchronized
      ≡ done tt ac)
    × ((user : UserInfo) (options : Option ListOptions)
        → (items : List Object) × (list_of library clusters informers ac (some user) options
            ≡ ok items)
          × ((c : Object)
              → Memᴰ c items ↔ (
                  Memᴰ c Clusters.clusters
                  × ((s : Subject) × MayGet
                        (evaluator_of informers)
                        (binding ∷ [])
                        (get_action cluster_group "managedclusters" c.name)
                        s
                      × (names account s user ≡ true))
                  × (label_selector_of options c.labels ≡ true))))
steady_list_exact_example =
    steady_list_exact library account split-SplitsSubjects informers (binding ∷ []) refl
      (Reaches.later Reaches.here run_step) Clusters.clusters synchronized (tt, refl)
      lister-IsLister first_run.1 room
