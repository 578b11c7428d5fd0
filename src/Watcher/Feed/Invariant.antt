-- ===== src/Watcher/Feed/Invariant.antt =====
-- pkg/cache/watcher.go, `Watch`: what its steps keep of what a client is sent.
use mathlib.Core.Path.{subst}
use mathlib.Core.List.{append_assoc}
use clusterset_server.Base.{
  any, any-append, ◌≡◌, refl, sym, ap, ap₂, ◌∙◌, Bool, true, false, none, List, [], ◌∷◌, ◌++◌,
  StringMap, arith,
}
use clusterset_server.Platform.{Platform}
use clusterset_server.Objects.{Object, Event, added}
use clusterset_server.Watcher.{WatchableCache, CacheWatcher}
use clusterset_server.Watcher.Feed.{
  is_error, Feed, Emits, received, dropped, Step, notify, break, stop, send_initial, fail,
  send_incoming, finish, Reaches, here, later, replay, additions,
}
use clusterset_server.Watcher.Feed.Replay.{
  NamesObjects, Tells, Told, Told-group_membership_changed, replay-append,
}

module _ ⦃P : Platform⦄ where
  open P use {StringSet}

  -- what the client was sent and what is still to be sent, in order
  abbrev pub whole : Feed → List Event
  whole f = f.sent ++ (additions f.unsent ++ f.watcher.incoming)

  any_without :
      (p : Event → Bool) (front : List Event) (e : Event) (back : List Event)
      → any p (front ++ e ∷ back) ≡ false
      → any p (front ++ back) ≡ false
  unfolding any
  any_without p front e back h =
      ground (arith, h, any-append p front (e ∷ back), any-append p front back)

  module _ (start : StringMap) where
    -- No error was put into its channel or is sent, the loops end only for a user who has stopped, and as long
    -- as no notification waits and the user has not stopped, the replay of all events gives what the
    -- watcher knows.
    pub record IsCoherent (f : Feed) : Type 0 where
      pub well : f.cache_error ≡ none
      pub ends : f.ended ≡ true → f.stopped ≡ true
      pub untold : any is_error (whole f) ≡ false
      pub replays :
          f.blocked ≡ none → f.stopped ≡ false → replay start (whole f) ≡ f.watcher.known_resources

    whole-notify :
        (f : Feed) (w : CacheWatcher) (events : List Event)
        → w.incoming ≡ f.watcher.incoming ++ events
        → whole (record f { watcher = w }) ≡ whole f ++ events
    whole-notify f w events more =
        ap (λ incoming. f.sent ++ (additions f.unsent ++ incoming)) more
        ∙ ap (◌++◌ f.sent) (sym (append_assoc (additions f.unsent) f.watcher.incoming events))
        ∙ sym (append_assoc f.sent (additions f.unsent ++ f.watcher.incoming) events)

    IsCoherent-notify :
        (f : Feed) (w : CacheWatcher)
        → Tells f.watcher w
        → IsCoherent f
        → IsCoherent (record f { watcher = w })
    unfolding Tells
    IsCoherent-notify f w (events, more, replayed, plain) h = record {
      well = h.well;
      ends = h.ends;
      untold =
          ap (any is_error) (whole-notify f w events more)
          ∙ ground (arith, any-append is_error (whole f) events, h.untold, plain);
      replays = λ free going.
          ap (replay start) (whole-notify f w events more)
          ∙ replay-append start (whole f) events
          ∙ ap (λ m. replay m events) (h.replays free going)
          ∙ replayed;
    }

    -- An event that is emitted moves from what is to be sent to what was sent.
    IsCoherent-emit :
        (e : Event) (unsent : List Object) (incoming : List Event) (f f' : Feed)
        → whole f ≡ f.sent ++ (e ∷ (additions unsent ++ incoming))
        → Emits e
            (record f { unsent = unsent; watcher = record f.watcher { incoming = incoming } })
            f'
        → IsCoherent f
        → IsCoherent f'
    IsCoherent-emit e unsent incoming f f' moved (received at) h =
        subst IsCoherent (sym at) (record {
          well = h.well;
          ends = h.ends;
          untold =
              ap (any is_error)
                (append_assoc f.sent (e ∷ []) (additions unsent ++ incoming) ∙ sym moved)
              ∙ h.untold;
          replays = λ free going.
              ap (replay start)
                (append_assoc f.sent (e ∷ []) (additions unsent ++ incoming) ∙ sym moved)
              ∙ h.replays free going;
        })
    IsCoherent-emit e unsent incoming f f' moved (dropped stopped at) h =
        subst IsCoherent (sym at) (record {
          well = h.well;
          ends = h.ends;
          untold =
              any_without is_error f.sent e (additions unsent ++ incoming)
                (sym (ap (any is_error) moved) ∙ h.untold);
          replays = λ free going. absurd (ground (arith, stopped, going));
        })

    module _ (Q : WatchableCache → Type 0)
        (names : (cache : WatchableCache) → Q cache → NamesObjects cache) where
      IsCoherent-step : (f f' : Feed) → Step Q f f' → IsCoherent f → IsCoherent f'
      unfolding Told additions
      IsCoherent-step f f' (notify cache name users groups w q free settles at) h =
          subst IsCoherent (sym at) (
            IsCoherent-notify f w
              (subst (Told f.watcher) settles
                (Told-group_membership_changed cache (names cache q) f.watcher name users groups))
              h)
      IsCoherent-step f f' (break cache name users groups w message q free breaks at) h =
          subst IsCoherent (sym at) (record {
            well = h.well;
            ends = h.ends;
            untold =
                ap (λ incoming. any is_error (f.sent ++ (additions f.unsent ++ incoming)))
                  (subst (Told f.watcher) breaks (
                    Told-group_membership_changed cache (names cache q) f.watcher name users
                      groups))
                ∙ h.untold;
            replays = λ unblocked going. absurd (ground (arith, unblocked));
          })
      IsCoherent-step f f' (stop at) h = subst IsCoherent (sym at) (record {
        well = h.well;
        ends = λ _. refl;
        untold = h.untold;
        replays = λ free going. absurd (ground (arith, going));
      })
      IsCoherent-step f f' (send_initial object rest running next well emits) h =
          IsCoherent-emit (added object) rest f.watcher.incoming f f'
            (ap (λ unsent. f.sent ++ (additions unsent ++ f.watcher.incoming)) next) emits h
      IsCoherent-step f f' (fail message running failed emits) h =
          absurd (ground (arith, failed, h.well))
      IsCoherent-step f f' (send_incoming e rest running sent next emits) h =
          IsCoherent-emit e f.unsent rest f f'
            (ap₂ (λ unsent incoming. f.sent ++ (additions unsent ++ incoming)) sent next
              ∙ ap (λ unsent. f.sent ++ (e ∷ (additions unsent ++ rest))) (sym sent))
            emits h
      IsCoherent-step f f' (finish running sent stopped at) h = subst IsCoherent (sym at) (record {
        well = h.well;
        ends = λ _. stopped;
        untold = h.untold;
        replays = λ free going. absurd (ground (arith, stopped, going));
      })

      pub IsCoherent-Reaches : (f f' : Feed) → Reaches Q f f' → IsCoherent f → IsCoherent f'
      IsCoherent-Reaches f f' here h = h
      IsCoherent-Reaches f f' (later {g = g} before next) h =
          IsCoherent-step g f' next (IsCoherent-Reaches f g before h)
