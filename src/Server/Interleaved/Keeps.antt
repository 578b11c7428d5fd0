-- ===== src/Server/Interleaved/Keeps.antt =====
-- Rules for what the accesses of pkg/cmd/server.go's goroutines keep of a cache.
use mathlib.Core.Path.{subst}
use clusterset_server.Base.{◌≡◌, refl, sym, ap, ◌∙◌, List, ◌∷◌, ◌++◌, String}
use clusterset_server.Platform.{Platform}
use clusterset_server.Watcher.{CacheWatcher, Reaction, group_membership_changed}
use clusterset_server.Watcher.Knowledge.{left_by}
use clusterset_server.AuthCache.Each.{Each, Each-append, Each-split, Each-Removed, Each-replace}
use clusterset_server.AuthCache.Notify.{add_watcher}
use clusterset_server.AuthCache.Program.{
  stores, Write, delete_user, delete_group, add_user, add_group, put_record, drop_record, end_run,
  written, readings,
}
use clusterset_server.AuthCache.Program.Rights.{Rights, synchronize_program-IsWithin}
use clusterset_server.AuthCache.Removal.{remove_watcher_removes}
use clusterset_server.AuthCache.State.{AuthCache}
use clusterset_server.Server.{CacheName, Library, Informers, surroundings_of}
use clusterset_server.Server.Watching.{watch_of-IsAdded}
use clusterset_server.Server.Interleaved.Sights.{Sees, EverySight}
use clusterset_server.Server.Interleaved.{Phase, idle, Live, new_live, going_on, Access, Runs}
use clusterset_server.Server.Interleaved.Laws.{IsLiveInvariant, IsLawful, IsLive}

module _ ⦃P : Platform⦄ where
  open P use {StringSet}

  pub written-watchers : (w : Write) (ac : AuthCache) → (written w ac).watchers ≡ ac.watchers
  unfolding written
  written-watchers (delete_user subject name) ac = refl
  written-watchers (delete_group subject name) ac = refl
  written-watchers (add_user subject name) ac = refl
  written-watchers (add_group subject name) ac = refl
  written-watchers (put_record r) ac = refl
  written-watchers (drop_record r) ac = refl
  written-watchers (end_run names state) ac = refl

  module _ (library : Library) (c : CacheName) (Q W : Informers → Type 0) (R : Rights)
      (I : AuthCache → Type 0) (V : CacheWatcher → Type 0) where
    -- of a phase that is known
    IsLawful-at : (x : Live) (phase : Phase) → x.phase ≡ phase → IsLive R I V x → IsLawful R phase
    IsLawful-at x phase e h = subst (IsLawful R) e h.lawful

    going_on-IsLive :
        (x : Live) (phase : Phase)
        → IsLawful R phase
        → IsLive R I V x
        → IsLive R I V (going_on x phase)
    going_on-IsLive x phase l h = record {
      stores = h.stores;
      watchers = h.watchers;
      pending = h.pending;
      lawful = l;
    }

    module _ (inv : IsLiveInvariant library c Q W R I V) where
      -- one more watcher is told
      tell :
          (x : Live) (name : String) (users groups : StringSet) (informers : Informers)
          (front back : List CacheWatcher) (w w' : CacheWatcher) (reaction : Reaction)
          → x.cache.watchers ≡ front ++ w ∷ back
          → group_membership_changed
              (surroundings_of library c informers x.cache).watchable
              w
              name
              users
              groups
            ≡ reaction
          → left_by reaction ≡ w'
          → Q informers
          → R.notice name users groups
          → IsLive R I V x
          → Each V (front ++ w' ∷ back)
      tell x name users groups informers front back w w' reaction split reacts left q notice h =
          Each-replace V front w w' back x.cache.watchers split
            (λ v.
              subst V (ap left_by reacts ∙ left)
                (inv.at_tell informers x.cache w name users groups q notice h.stores v))
            h.watchers

      access-IsLive :
          {x y : Live} (access : Access library c x y)
          → Sees Q W access
          → IsLive R I V x
          → IsLive R I V y
      unfolding add_watcher
      access-IsLive {x} (Access.starts period hooked e same) q h =
          subst (IsLive R I V) (sym same)
            (going_on-IsLive x _ (synchronize_program-IsWithin R inv.rights) h)
      access-IsLive {x} (Access.ends e same) q h =
          subst (IsLive R I V) (sym same) (going_on-IsLive x idle tt h)
      access-IsLive {x} (Access.read k informers e same) q h = subst (IsLive R I V) (sym same) (
          going_on-IsLive x _
            (IsLawful-at x _ e h (readings (surroundings_of library c informers x.cache))
              (inv.at_read informers x.cache q))
            h)
      access-IsLive {x} (Access.looked k e same) q h =
          subst (IsLive R I V) (sym same)
            (going_on-IsLive x _ (IsLawful-at x _ e h (stores x.cache)) h)
      access-IsLive {x} (Access.wrote w p e same) q h =
          let (allowed, rest) = IsLawful-at x _ e h in
          subst (IsLive R I V) (sym same) (record {
            stores = inv.at_write w x.cache allowed h.stores;
            watchers = subst (Each V) (sym (written-watchers w x.cache)) h.watchers;
            pending = h.pending;
            lawful = rest;
          })
      access-IsLive {x} (Access.locked name users groups p e same) q h =
          subst (IsLive R I V) (sym same) (going_on-IsLive x _ (IsLawful-at x _ e h) h)
      access-IsLive {x}
            (Access.told name users groups p informers front back w w' e split reacts same) q h =
          let (notice, rest) = IsLawful-at x _ e h in
          subst (IsLive R I V) (sym same) (record {
            stores = inv.ignores x.cache _ h.stores;
            watchers =
                tell x name users groups informers front back w w' _ split reacts refl q notice h;
            pending = h.pending;
            lawful = (notice, rest);
          })
      access-IsLive {x}
            (Access.overflows name users groups p informers front back w w' m e split reacts same) q
            h =
          subst (IsLive R I V) (sym same) (record {
            stores = inv.ignores x.cache _ h.stores;
            watchers =
                tell x name users groups informers front back w w' _ split reacts refl q
                  (IsLawful-at x _ e h).0 h;
            pending = h.pending;
            lawful = tt;
          })
      access-IsLive {x} (Access.unlocked name users groups p e same) q h =
          subst (IsLive R I V) (sym same) (going_on-IsLive x _ (IsLawful-at x _ e h).1 h)
      access-IsLive {x} (Access.made informers id context options w ac fresh watched same) q h =
          let (user, allowed, include_all, is, _) =
            watch_of-IsAdded library c informers id context options x.cache ac w watched in
          subst (IsLive R I V) (sym same) (record {
            stores = h.stores;
            watchers = h.watchers;
            pending = Each-append V x.pending _ h.pending (
              subst V (sym is)
                  (inv.at_made informers x.cache id user allowed include_all q h.stores),
              tt,
            );
            lawful = h.lawful;
          })
      access-IsLive {x} (Access.watched front back w free split same) q h =
          let (h₁, (v, h₂)) = Each-split V front (w ∷ back) (subst (Each V) split h.pending) in
          subst (IsLive R I V) (sym same) (record {
            stores = inv.ignores x.cache _ h.stores;
            watchers = Each-append V x.cache.watchers _ h.watchers (v, tt);
            pending = Each-append V front back h₁ h₂;
            lawful = h.lawful;
          })
      access-IsLive {x} (Access.removed id free same) q h =
          let (removal, others) = remove_watcher_removes x.cache id in
          subst (IsLive R I V) (sym same) (record {
            stores = subst I (sym others) (inv.ignores x.cache _ h.stores);
            watchers = Each-Removed V id x.cache.watchers _ removal h.watchers;
            pending = h.pending;
            lawful = h.lawful;
          })
      access-IsLive {x} (Access.received front back w e rest split full same) q h =
          subst (IsLive R I V) (sym same) (record {
            stores = inv.ignores x.cache _ h.stores;
            watchers =
                Each-replace V front w _ back x.cache.watchers split (inv.at_receive w e rest full)
                  h.watchers;
            pending = h.pending;
            lawful = h.lawful;
          })

      -- What is invariant holds after every access, also in the middle of a run.
      pub runs-IsLive :
          {x : Live} (runs : Runs library c new_live x) → EverySight Q W runs → IsLive R I V x
      runs-IsLive Runs.here seen = record {
        stores = inv.at_new;
        watchers = tt;
        pending = tt;
        lawful = tt;
      }
      runs-IsLive (Runs.later runs access) (seen, now) =
          access-IsLive access now (runs-IsLive runs seen)
