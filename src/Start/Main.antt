-- ===== src/Start/Main.antt =====
-- cmd/server/server.go: `main`, from the flags to the exit of the process.
use clusterset_server.Base.{none, some, Option, ℕ, List, [], ◌∷◌, String, Error, Result, ok, err}
use clusterset_server.Base.Text.{join}
use clusterset_server.Start.{StartLibrary, run_to_end}
use clusterset_server.Start.ServerOptions.{OptionsLibrary, Options, Flag, new_options, add_flags}

-- The status of the process, and what it wrote to the standard error.
pub record Exit : Type 0 where
  pub status : ℕ
  pub stderr : String

-- What `main` takes from pflag: the flags that are there before, and the reading of the arguments.
-- Where it fails the library prints the usage and exits with status 2.
pub record CommandLine (options : OptionsLibrary) : Type 0 where
  pub flags : List (Flag (Options options))
  pub parse :
      List (Flag (Options options)) → List String → Options options → Result (Options options)
  pub usage : Error → String

module _ {options : OptionsLibrary} (library : StartLibrary options)
    (command_line : CommandLine options) where
  -- if err := cmd.Run(...); err != nil { fmt.Fprintf(os.Stderr, "%v\n", err); os.Exit(1) }
  abbrev pub exit_of : Option (Result (Unit {0})) → Option Exit
  exit_of none = none
  exit_of (some (ok tt)) = some (record { status = 0; stderr = "" })
  exit_of (some (err e)) =
      some (record { status = 1; stderr = join (options.text e ∷ "\n" ∷ []) "" })

  abbrev pub started_with : Result (Options options) → Option Exit
  started_with (err e) = some (record { status = 2; stderr = command_line.usage e })
  started_with (ok opts) = exit_of (run_to_end library opts library.never_stop).ended

  -- The options that the arguments make of the new ones.
  abbrev pub parsed : List String → Result (Options options)
  parsed args =
      let opts = new_options options in
      command_line.parse (add_flags options opts command_line.flags) args opts

  -- none where the process goes on
  unfoldable pub main : List String → Option Exit
  main args = started_with (parsed args)
