-- ===== src/Registry/Scoped.antt =====
-- pkg/registry/managedcluster/storage.go, `Watch`: what its watcher is scoped to.
use clusterset_server.Base.{
  ◌≡◌, refl, ℕ, true, false, ◌&&◌, ◌||◌, Option, some, List, [], ◌∷◌, ◌++◌, String, arith, eq_iff,
  ok, contains_singleton, any,
}
use clusterset_server.Platform.{Platform}
use clusterset_server.Objects.{Object, UserInfo}
use clusterset_server.Watcher.{CacheWatcher, new_cache_watcher}
use clusterset_server.AuthCache.State.{AuthCache, Surroundings, done}
use clusterset_server.AuthCache.Notify.{add_watcher}
use clusterset_server.AuthCache.Sync.{synchronize}
use clusterset_server.AuthCache.Returns.{IsBlind, AllBlind, synchronize_returns}
use clusterset_server.ClusterCache.Listing.{named}
use clusterset_server.Scope.{scopes_to_visible_namespaces}
use clusterset_server.Scope.Visibility.{scopes_show, scopes_to_visible_namespaces_exact}
use clusterset_server.Registry.{
  Rest, ListOptions, allowed_from, include_all_existing, watch_user, watch,
}
use clusterset_server.ClusterCache.{watchable}

module _ ⦃P : Platform⦄ where
  open P use {StringSet, has, empty, insert_all, has-insert_all, has-empty}

  has-allowed_from :
      (allowed namespaces : StringSet) (objects : List Object) (n : String)
      → has (allowed_from allowed namespaces objects) n
        ≡ (has allowed n || named objects n && has namespaces n)
  unfolding allowed_from any
  has-allowed_from allowed namespaces [] n = ground arith
  has-allowed_from allowed namespaces (c ∷ objects) n = ground (
    arith,
    eq_iff c.name n,
    has-insert_all allowed (c.name ∷ []) n,
    contains_singleton c.name n,
    has-allowed_from allowed namespaces objects n,
    has-allowed_from (insert_all allowed (c.name ∷ [])) namespaces objects n,
  )

  -- A watch of a user, with the objects listed and no error of the scopes, succeeds. Its watcher is
  -- the last of the watchers and nothing is sent to it yet; it sees the names that are those of
  -- listed objects and that the scopes show.
  pub watch_exact :
      (rest : Rest) (id : ℕ) (user : UserInfo) (options : Option ListOptions) (ac : AuthCache)
      (objects : List Object)
      → rest.lister.list_all ≡ ok objects
      → (scopes_to_visible_namespaces rest.library rest.get_role user.scopes true).errors ≡ []
      → (w : CacheWatcher) × (watch rest id (some (some user)) options ac
          ≡ ok (w, add_watcher ac w))
        × ((n : String)
            → has w.visible_resources n
              ≡ (named objects n && scopes_show rest.library rest.get_role user.scopes n))
        × (w.incoming ≡ [])
  unfolding watch watch_user new_cache_watcher
  watch_exact rest id user options ac objects listing fine =
      let visible = scopes_to_visible_namespaces rest.library rest.get_role user.scopes true in
      let w : CacheWatcher =
        new_cache_watcher id user (allowed_from empty visible.namespaces objects)
          (watchable rest.lister ac) (include_all_existing options) in
      (
        w,
        ground arith,
        λ n. ground (
          arith,
          has-empty n,
          has-allowed_from empty visible.namespaces objects n,
          scopes_to_visible_namespaces_exact rest.library rest.get_role user.scopes true n,
        ),
        refl,
      )

  AllBlind-append :
      (watchers : List CacheWatcher) (w : CacheWatcher)
      → AllBlind watchers
      → IsBlind w
      → AllBlind (watchers ++ w ∷ [])
  AllBlind-append [] w blind here = (here, tt)
  AllBlind-append (v ∷ watchers) w (first, blind) here =
      (first, AllBlind-append watchers w blind here)

  -- A user without scopes watches, where no object is named "*" and the watchers so far see
  -- nothing: the watch succeeds, and after a run, which returns, its watcher is as it was, with
  -- nothing sent to it.
  pub unscoped_watch_untold :
      (rest : Rest) (id : ℕ) (user : UserInfo) (options : Option ListOptions) (ac : AuthCache)
      (objects : List Object) (s : Surroundings)
      → rest.lister.list_all ≡ ok objects
      → user.scopes ≡ []
      → named objects "*" ≡ false
      → AllBlind ac.watchers
      → (w : CacheWatcher) × (ac' : AuthCache) × (watch rest id (some (some user)) options ac
          ≡ ok (w, add_watcher ac w))
        × (synchronize s (add_watcher ac w) ≡ done tt ac')
        × (ac'.watchers ≡ ac.watchers ++ w ∷ [])
        × (w.incoming ≡ [])
  unfolding add_watcher
  unscoped_watch_untold rest id user options ac objects s listing unscoped plain blind =
      let fine : (scopes_to_visible_namespaces rest.library rest.get_role user.scopes true).errors
          ≡ [] =
        unfold scopes_to_visible_namespaces in rw (unscoped, scopes_to_visible_namespaces) refl in
      let (w, watched, visible, untold) =
        watch_exact rest id user options ac objects listing fine in
      let blind_w : IsBlind w = λ n. ground (arith, visible n, eq_iff "*" n) in
      let (ac', returned, same) =
        synchronize_returns s (add_watcher ac w) (AllBlind-append ac.watchers w blind blind_w) in
      (w, ac', watched, returned, same, untold)
