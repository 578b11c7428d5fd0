-- ===== src/Server/Interleaved/Sights.antt =====
-- What the goroutines of pkg/cmd/server.go see of the informers.
use clusterset_server.Platform.{Platform}
use clusterset_server.Server.{CacheName, Library, Informers}
use clusterset_server.Server.Steps.{Any}
use clusterset_server.Server.Interleaved.{Live, Access, Runs}

module _ ⦃P : Platform⦄ where
  module _ {library : Library} {c : CacheName} (Q W : Informers → Type 0) where
    -- `Q` holds of what the informers hold where the run reads them, and `W` where a watcher is
    -- made.
    abbrev pub Sees : {x y : Live} → Access library c x y → Type 0
    Sees (Access.read k informers e same) = Q informers
    Sees (Access.told name users groups p informers front back w w' e split told same) = Q informers
    Sees (Access.overflows name users groups p informers front back w w' m e split told same) =
        Q informers
    Sees (Access.made informers id context options w ac fresh watched same) = W informers
    Sees access = Unit

    abbrev pub EverySight : {x y : Live} → Runs library c x y → Type 0
    EverySight Runs.here = Unit
    EverySight (Runs.later runs access) = EverySight runs × Sees access

  -- What is so of any informers is so of those that are seen.
  Sees-always :
      {library : Library} {c : CacheName} {x y : Live} (access : Access library c x y)
      → Sees Any Any access
  Sees-always (Access.starts period hooked e same) = tt
  Sees-always (Access.ends e same) = tt
  Sees-always (Access.read k informers e same) = tt
  Sees-always (Access.looked k e same) = tt
  Sees-always (Access.wrote w p e same) = tt
  Sees-always (Access.locked name users groups p e same) = tt
  Sees-always (Access.told name users groups p informers front back w w' e split told same) = tt
  Sees-always (Access.overflows name users groups p informers front back w w' m e split told same) =
      tt
  Sees-always (Access.unlocked name users groups p e same) = tt
  Sees-always (Access.made informers id context options w ac fresh watched same) = tt
  Sees-always (Access.watched front back w free split same) = tt
  Sees-always (Access.removed id free same) = tt
  Sees-always (Access.received front back w e rest split full same) = tt

  pub EverySight-always :
      {library : Library} {c : CacheName} {x y : Live} (runs : Runs library c x y)
      → EverySight Any Any runs
  EverySight-always Runs.here = tt
  EverySight-always (Runs.later runs access) = (EverySight-always runs, Sees-always access)
