-- ===== src/Watcher/Feed/Blocked.antt =====
-- pkg/cache/watcher.go, `Watch`: a watcher whose channel was full.
use clusterset_server.Base.{◌≡◌, true, false, none, some, List, String}
use clusterset_server.Platform.{Platform}
use clusterset_server.Objects.{Event}
use clusterset_server.Watcher.Feed.{Feed}
use clusterset_server.Watcher.Feed.Invariant.{whole}

module _ ⦃P : Platform⦄ where
  open P use {StringSet}

  module _ (message : String) (events : List Event) where
    -- The notification still waits, no error came, and what is sent and to be sent stays the same.
    record IsFrozen (f : Feed) : Type 0 where
      waits : f.blocked ≡ some message
      well : f.cache_error ≡ none
      ends : f.ended ≡ true → f.stopped ≡ true
      same : f.stopped ≡ false → whole f ≡ events
