-- ===== src/Startup.antt =====
-- main.go, and `SetupWithManager` of pkg/controllers/gateway/controller.go.
pub mod Watched
use Prim.Native.Char.{Char}
use layer7_operator.Prelude.{ℕ, String, Bool, List, Option, none, some, if◌then◌else◌, from_result}
use layer7_operator.Prelude.Split.{split, has_char}
use layer7_operator.Prelude.Exec.{Exec, ◌>>=◌, ◌>>◌, lift}
use layer7_operator.Namespaces.{get_watch_namespace}

-- The options of the manager. A cache for several namespaces is told by their names.
pub record ManagerOptions : Type 0 where
  pub metrics_bind_address : String
  pub port : ℕ
  pub health_probe_bind_address : String
  pub leader_election : Bool
  pub leader_election_id : String
  pub namespace : String
  pub new_cache : Option (List String)

-- The flags, by the names of their variables.
pub record Flags : Type 0 where
  pub metrics_addr : String
  pub probe_addr : String
  pub enable_leader_election : Bool

abbrev pub comma : Char
comma = ","

abbrev base_options : Flags → String → ManagerOptions
base_options flags ns = record {
  metrics_bind_address = flags.metrics_addr;
  port = 9443;
  health_probe_bind_address = flags.probe_addr;
  leader_election = flags.enable_leader_election;
  leader_election_id = "d464e6a2.brcmlabs.com";
  namespace = ns;
  new_cache = none;
}

unfoldable pub manager_options : Flags → String → ManagerOptions
manager_options flags ns =
    let options = base_options flags ns in
    if has_char comma ns
    then record options { namespace = ""; new_cache = some (split comma ns) }
    else options

-- What main calls of controller-runtime. A controller is registered for the type that it watches.
pub record Platform : Type 1 where
  pub State : Type 0
  pub Manager : Type 0
  pub new_manager : ManagerOptions → Exec State Manager
  pub complete : String → Manager → Exec State (Unit {0})
  pub add_healthz_check : String → Manager → Exec State (Unit {0})
  pub add_readyz_check : String → Manager → Exec State (Unit {0})
  pub start : Manager → Exec State (Unit {0})

module _ (P : Platform) where
  unfoldable pub setup_with_manager : P.Manager → Exec P.State (Unit {0})
  setup_with_manager mgr = P.complete "Gateway" mgr

  -- An error ends the process with exit code 1.
  unfoldable pub main : Flags → Option String → Exec P.State (Unit {0})
  unfolding setup_with_manager
  main flags env = do
    namespace ← lift (from_result (get_watch_namespace env))
    mgr ← P.new_manager (manager_options flags namespace)
    setup_with_manager mgr
    P.add_healthz_check "healthz" mgr
    P.add_readyz_check "readyz" mgr
    P.start mgr
