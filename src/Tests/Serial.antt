-- ===== src/Tests/Serial.antt =====
-- The theorems on a run taken access by access, for the first run over two managed clusters and a
-- binding.
use mathlib.Core.List.{Memᴰ}
use clusterset_server.Base.{
  ◌≡◌, ◌↔◌, refl, sym, ap, ◌∙◌, true, none, some, List, [], ◌∷◌, ok, length,
}
use clusterset_server.Objects.{Object}
use clusterset_server.Rbac.{Subject}
use clusterset_server.Rbac.Reviewer.{get_action, MayGet}
use clusterset_server.AuthCache.Program.{
  written, readings, stores, Program, returns, reads, looks, writes, notifies,
}
use clusterset_server.AuthCache.Program.Synchronize.{synchronize_program}
use clusterset_server.AuthCache.State.{AuthCache, done, new_auth_cache}
use clusterset_server.AuthCache.Sync.{synchronize}
use clusterset_server.ClusterCache.Access.{cluster_group, names}
use clusterset_server.Registry.{label_selector_of}
use clusterset_server.Server.{clusters, evaluator_of, surroundings_of, list_of}
use clusterset_server.Server.Interleaved.{
  Live, new_live, idle, running, notifying, going_on, Access, Runs,
}
use clusterset_server.Server.Interleaved.Telling.{Runs-trans}
use clusterset_server.Server.Interleaved.Keeps.{written-watchers}
use clusterset_server.Server.Interleaved.Serial.{IsOneRun, run_serializes}
use clusterset_server.Server.Interleaved.Steady.{live_steady_list_exact}
use clusterset_server.Tests.Access.{account, split-SplitsSubjects}
use clusterset_server.Tests.Cluster.{ann, binding}
use clusterset_server.Tests.Clusters
use clusterset_server.Tests.Clusters.{lister-IsLister}
use clusterset_server.Tests.Lists.{list_platform}
use clusterset_server.Tests.Servers.{library, informers}

abbrev OneRun : {x y : Live} → Runs library clusters x y → Type 0
OneRun runs = IsOneRun library clusters informers runs

trans-IsOneRun :
    {x y z : Live} (first : Runs library clusters x y) (rest : Runs library clusters y z)
    → OneRun first
    → OneRun rest
    → OneRun (Runs-trans first rest)
unfolding Runs-trans
trans-IsOneRun first Runs.here one more = one
trans-IsOneRun first (Runs.later rest access) one (more, now) =
    (trans-IsOneRun first rest one more, now)

-- A run from here to its end.
record Ending (x : Live) : Type 0 where
  last : Live
  runs : Runs library clusters x last
  one : OneRun runs
  over : last.phase ≡ idle

from : {x y : Live} (first : Runs library clusters x y) → OneRun first → Ending y → Ending x
from first one rest = record {
  last = rest.last;
  runs = Runs-trans first rest.runs;
  one = trans-IsOneRun first rest.runs one rest.one;
  over = rest.over;
}

abbrev at_work_on : Program (Unit {0}) → AuthCache → Live
at_work_on p ac = record { cache = ac; phase = running p; pending = [] }

-- Nobody watches.
quiet_run : (p : Program (Unit {0})) (ac : AuthCache) → ac.watchers ≡ [] → Ending (at_work_on p ac)
quiet_run (returns _) ac quiet = record {
  last = _;
  runs = Runs.later Runs.here (Access.ends refl refl);
  one = (tt, tt);
  over = refl;
}
quiet_run (reads k) ac quiet =
    from (Runs.later Runs.here (Access.read k informers refl refl)) (tt, refl)
      (quiet_run (k (readings (surroundings_of library clusters informers ac))) ac quiet)
quiet_run (looks k) ac quiet =
    from (Runs.later Runs.here (Access.looked k refl refl)) (tt, tt)
      (quiet_run (k (stores ac)) ac quiet)
quiet_run (writes w p) ac quiet =
    from (Runs.later Runs.here (Access.wrote w p refl refl)) (tt, tt)
      (quiet_run p (written w ac) (written-watchers w ac ∙ quiet))
quiet_run (notifies name users groups p) ac quiet =
    from
      (Runs.later (Runs.later Runs.here (Access.locked name users groups p refl refl)) (
        Access.unlocked name users groups p
          (ap (λ ws. notifying name users groups (length ws) p) (sym quiet)) refl))
      ((tt, tt), tt) (quiet_run p ac quiet)

first_run : Ending (going_on new_live (running synchronize_program))
first_run = quiet_run synchronize_program new_auth_cache refl

run_serializes_example :
    synchronize (surroundings_of library clusters informers new_auth_cache) new_auth_cache
    ≡ done tt (stores first_run.last.cache)
run_serializes_example =
    run_serializes library clusters informers new_live first_run.runs first_run.one first_run.over

live_steady_list_exact_example :
    (items : List Object) × (list_of library clusters informers first_run.last.cache (some ann) none
      ≡ ok items)
    × ((c : Object)
        → Memᴰ c items ↔ (
            Memᴰ c Clusters.clusters
            × ((s : Subject) × MayGet
                  (evaluator_of informers)
                  (binding ∷ [])
                  (get_action cluster_group "managedclusters" c.name)
                  s
                × (names account s ann ≡ true))
            × (label_selector_of none c.labels ≡ true)))
live_steady_list_exact_example =
    live_steady_list_exact library account split-SplitsSubjects informers (binding ∷ []) refl
      new_live Runs.here first_run.runs Clusters.clusters ann none tt refl first_run.one
      first_run.over lister-IsLister
