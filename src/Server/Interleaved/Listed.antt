-- ===== src/Server/Interleaved/Listed.antt =====
-- pkg/cmd/server.go: the bindings of RBAC over the time of the server, and what a user is listed, at
-- every access of a run.
use mathlib.Core.List.{Memᴰ}
use mathlib.Core.Path.{subst}
use clusterset_server.Base.{◌≡◌, ◌≢◌, sym, ◌∙◌, Bool, true, Option, some, List, String, ok, arith}
use clusterset_server.Platform.{Platform}
use clusterset_server.Objects.{Object, UserInfo}
use clusterset_server.Rbac.{Subject}
use clusterset_server.Rbac.Reviewer.{SplitsSubjects}
use clusterset_server.Watcher.{CacheWatcher}
use clusterset_server.AuthCache.Names.{list_names}
use clusterset_server.ClusterCache.Listing.{IsLister, list_exact}
use clusterset_server.Registry
use clusterset_server.Registry.{ListOptions, label_selector_of}
use clusterset_server.Server.{clusters, Library, Informers, list_of}
use clusterset_server.Server.Granted.{IsUnbound, Denies_of_IsUnbound}
use clusterset_server.Server.Steps.{Any}
use clusterset_server.Server.Interleaved.{Live, new_live, Runs}
use clusterset_server.Server.Interleaved.Hidden.{
  withholding, withholding-IsForRun, IsUnlisted, written-IsUnlisted, new-IsUnlisted,
}
use clusterset_server.Server.Interleaved.Keeps.{runs-IsLive}
use clusterset_server.Server.Interleaved.Laws.{IsLiveInvariant}
use clusterset_server.Server.Interleaved.Sights.{EverySight}

module _ ⦃P : Platform⦄ where
  open P use {has}

  module _ (library : Library) (account : String → Subject → String → Bool)
      (splits : SplitsSubjects library.split account) (user : UserInfo) (n : String) where
    abbrev Unbound : Informers → Type 0
    Unbound informers = IsUnbound library account splits user n informers

    abbrev AnyWatcher : CacheWatcher → Type 0
    AnyWatcher w = Unit

    Unlisted-IsLiveInvariant :
        IsLiveInvariant library clusters Unbound Any
          (withholding user n)
          (IsUnlisted user n)
          AnyWatcher
    unfolding list_names
    Unlisted-IsLiveInvariant = record {
      rights = withholding-IsForRun user n;
      at_read = λ informers ac unbound.
          Denies_of_IsUnbound library account splits user n informers ac unbound;
      at_new = new-IsUnlisted user n;
      ignores = λ ac watchers h. h;
      at_write = written-IsUnlisted user n;
      at_tell = λ informers ac w name users groups _ _ _ _. tt;
      at_made = λ informers ac id watching allowed include_all _ _. tt;
      at_receive = λ w e rest _ _. tt;
    }

    -- Where subjects are split as documented, and whenever a run read the informers no subject that
    -- may get the cluster named the user, the user's account or one of the user's groups: after
    -- every access, also in the middle of a run, a list of clusters by the user, with a lister that
    -- is an index by name, succeeds, and gives listed clusters only, and not this one.
    pub never_bound_never_live_listed :
        {x : Live} (runs : Runs library clusters new_live x) (informers : Informers)
        (objects : List Object) (options : Option ListOptions)
        → EverySight Unbound Any runs
        → IsLister informers.cluster_lister objects
        → (items : List Object) × (list_of library clusters informers x.cache (some user) options
            ≡ ok items)
          × ((c : Object) → Memᴰ c items → Memᴰ c objects × (c.name ≢ n))
    unfolding list_of Registry.rest_list
    never_bound_never_live_listed {x} runs informers objects options seen h =
        let live =
          runs-IsLive library clusters Unbound Any (withholding user n) (IsUnlisted user n)
            AnyWatcher Unlisted-IsLiveInvariant runs seen in
        let (items, found, inside) =
          list_exact informers.cluster_lister objects x.cache user (label_selector_of options) h in
        (
          items,
          found,
          λ c m.
              let (there, visible, _) = (inside c).0 m in
              (
                there,
                λ same. absurd (
                    ground (
                      arith,
                      sym (subst (λ k. has (list_names x.cache user) k ≡ true) same visible)
                          ∙ live.stores,
                    )),
              ),
        )
