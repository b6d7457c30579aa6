-- ===== src/Services/Systemd.antt =====
-- plugins/services/systemd/plugin.go. What the template writes is the list of the directives, in
-- their order; a file whose writing broke off is `none`.
use mandau.Base.{
  ℕ, zero, suc, String, Bool, true, false, Option, none, some, List, [], ◌∷◌, ◌++◌, Map, put,
  if◌then◌else◌, ◌==◌, Result, ok, err, ◌<>◌, in_context,
}
use mandau.Core.AgentId.{decimal}
use mandau.Services.{Command, Exec}
use mandau.Services.Firewall.{ended}

pub record ServiceUnit : Type 0 where
  pub name : String
  pub description : String
  pub after : List String
  pub requires : List String
  pub unit_type : String
  pub user : String
  pub group : String
  pub working_dir : String
  pub exec_start : String
  pub exec_stop : String
  pub exec_reload : String
  pub environment : Map String
  pub restart : String
  pub restart_sec : ℕ
  pub kill_mode : String
  pub limit_nofile : ℕ
  pub limit_nproc : ℕ
  pub cpu_quota : String
  pub memory_limit : String
  pub private_tmp : Bool
  pub protect_system : String
  pub protect_home : Bool
  pub no_new_privileges : Bool
  pub read_write_paths : List String
  pub read_only_paths : List String
  pub inaccessible_paths : List String
  pub custom_unit : String
  pub custom_service : String
  pub custom_install : String

-- A directive, a section, or text that is taken over.
pub data Line : Type 0 where
  section : String → Line
  directive : String → String → Line
  custom : String → Line

abbrev given : String → String → List Line
given key value = if value == "" then [] else directive key value ∷ []

abbrev given_number : String → ℕ → List Line
given_number key zero = []
given_number key (suc n) = directive key (decimal (suc n)) ∷ []

abbrev given_yes : String → Bool → List Line
given_yes key true = directive key "yes" ∷ []
given_yes key false = []

abbrev each : String → List String → List Line
each key [] = []
each key (v ∷ vs) = directive key v ∷ each key vs

abbrev variables : Map String → List Line
variables [] = []
variables ((k, v) ∷ vars) = directive "Environment" ("\"" <> k <> "=" <> v <> "\"") ∷ variables vars

abbrev unit_section : ServiceUnit → List Line
unit_section u =
    section "Unit" ∷ directive "Description" u.description ∷ []
    ++ each "After" u.after
    ++ each "Requires" u.requires
    ++ custom u.custom_unit ∷ []

abbrev limits_and_security : ServiceUnit → List Line
limits_and_security u =
    given_number "LimitNOFILE" u.limit_nofile
    ++ given_number "LimitNPROC" u.limit_nproc
    ++ given "CPUQuota" u.cpu_quota
    ++ given "MemoryLimit" u.memory_limit
    ++ given_yes "PrivateTmp" u.private_tmp
    ++ given "ProtectSystem" u.protect_system
    ++ given_yes "ProtectHome" u.protect_home
    ++ given_yes "NoNewPrivileges" u.no_new_privileges
    ++ each "ReadWritePaths" u.read_write_paths
    ++ each "ReadOnlyPaths" u.read_only_paths
    ++ each "InaccessiblePaths" u.inaccessible_paths

abbrev service_section : ServiceUnit → List Line
service_section u =
    section "Service" ∷ directive "Type" (if u.unit_type == "" then "simple" else u.unit_type) ∷ []
    ++ given "User" u.user
    ++ given "Group" u.group
    ++ given "WorkingDirectory" u.working_dir
    ++ directive "ExecStart" u.exec_start ∷ []
    ++ given "ExecStop" u.exec_stop
    ++ given "ExecReload" u.exec_reload
    ++ variables u.environment
    ++ given "Restart" u.restart
    ++ given_number "RestartSec" u.restart_sec
    ++ given "KillMode" u.kill_mode
    ++ limits_and_security u
    ++ custom u.custom_service ∷ []

unfoldable pub render_unit : ServiceUnit → List Line
unfolding decimal
render_unit u =
    unit_section u
    ++ service_section u
    ++ section "Install" ∷ directive "WantedBy" "multi-user.target" ∷ custom u.custom_install ∷ []

abbrev pub Units : Type 0
Units = Map (Option (List Line))

abbrev pub systemctl : List String → Command
systemctl args = record { program = "systemctl"; arguments = args }

unfoldable pub daemon_reload : Exec → Result (Unit {0})
daemon_reload exec =
    in_context "daemon-reload failed: " (ended (exec (systemctl ("daemon-reload" ∷ []))))

-- `create` and `execute` tell how making and writing the file end.
abbrev pub unit_written :
    Exec → Units → ServiceUnit → Result (Unit {0}) → Result (Unit {0}) → Units × Result (Unit {0})
unit_written exec units u (err e) execute = (units, err ("create unit: " <> e))
unit_written exec units u (ok c) (err e) = (put units u.name none, err ("execute template: " <> e))
unit_written exec units u (ok c) (ok x) =
    (put units u.name (some (render_unit u)), daemon_reload exec)

unfoldable pub create_service :
    Exec → Result (Unit {0}) → Result (Unit {0}) → Units → ServiceUnit → Units × Result (Unit {0})
unfolding render_unit daemon_reload
create_service exec create execute units u = unit_written exec units u create execute

unfoldable pub enable_service : Exec → String → Result (Unit {0})
enable_service exec name =
    in_context "enable failed: " (ended (exec (systemctl ("enable" ∷ name ∷ []))))

unfoldable disable_service : Exec → String → Result (Unit {0})
disable_service exec name =
    in_context "disable failed: " (ended (exec (systemctl ("disable" ∷ name ∷ []))))

unfoldable pub start_service : Exec → String → Result (Unit {0})
start_service exec name =
    in_context "start failed: " (ended (exec (systemctl ("start" ∷ name ∷ []))))

unfoldable stop_service : Exec → String → Result (Unit {0})
stop_service exec name = in_context "stop failed: " (ended (exec (systemctl ("stop" ∷ name ∷ []))))

unfoldable restart_service : Exec → String → Result (Unit {0})
restart_service exec name =
    in_context "restart failed: " (ended (exec (systemctl ("restart" ∷ name ∷ []))))

abbrev status_or_unknown : Result String → String
status_or_unknown (ok output) = output
status_or_unknown (err e) = "unknown"

unfoldable get_service_status : Exec → String → String
get_service_status exec name = status_or_unknown (exec (systemctl ("is-active" ∷ name ∷ [])))
