-- ===== src/Stack/Execution.antt =====
-- `ApplyStack`, `executeApply`, `pullImages`, `RemoveStack`, `executeRemove` and `execCommand` of
-- pkg/agent/stack/manager.go. An execution is the list of its calls of the operation manager, in
-- their order; the time `t` stands for each call's own time. The disk is the texts of its files.
use mandau.Base.{
  ℕ, String, Bool, true, false, List, [], ◌∷◌, ◌++◌, Map, put, if◌then◌else◌, ◌==◌, Result, ok, err,
  ◌>>=◌, ◌<>◌, in_context,
}
use mandau.Stack.{Service, Project, Host, parse_compose}
use mandau.Operation.{stack_apply, stack_remove, Manager, create_operation}
use mandau.Operation.Delivery.{Report, now_running, says, fails, completes}

pub record ApplyStackRequest : Type 0 where
  pub stack_name : String
  pub compose_content : String
  pub env_vars : Map String
  pub force_recreate : Bool
  pub services : List String
  pub pull_images : Bool

-- What the commands and calls that change the machine answer.
pub record Machine : Type 0 where
  pub host : Host
  pub mkdir_all : String → Result (Unit {0})
  pub write_file : String → Result (Unit {0})
  pub remove_all : String → Result (Unit {0})
  pub image_pull : String → Result (Unit {0})
  pub run_command : List String → Result String

-- `execCommand`: the output of a command that works is dropped; the error of one that fails holds it.
abbrev pub exec_command : Machine → List String → Result (Unit {0})
exec_command machine cmd =
    in_context "command failed: " (machine.run_command cmd) >>= λ output. ok tt

-- Images are pulled in order, up to the first that fails.
unfoldable pub pull_images : Machine → List Service → Result (Unit {0})
pull_images machine [] = ok tt
pull_images machine (s ∷ ss) =
    let rest = pull_images machine ss in
    if s.image == "" then rest else (machine.image_pull s.image >>= λ _. rest)

abbrev pub up_command : Machine → ApplyStackRequest → List String
up_command machine req =
    "docker"
      ∷ "compose"
      ∷ "-f"
      ∷ machine.host.join req.stack_name "compose.yaml"
      ∷ "up"
      ∷ "-d"
      ∷ (if req.force_recreate then "--force-recreate" ∷ [] else [])
    ++ req.services

-- The end of an execution, by what its last command gives.
abbrev pub ended : String → String → ℕ → Result (Unit {0}) → List Report
ended p good t (err e) = fails (p <> e) t ∷ []
ended p good t (ok u) = says good t ∷ completes t ∷ []

abbrev pub create_services : Machine → ApplyStackRequest → ℕ → List Report
create_services machine req t =
    says "Creating/updating services..." t
    ∷ ended "compose up: " "Stack applied successfully" t
        (exec_command machine (up_command machine req))

abbrev pub pulled : Machine → ApplyStackRequest → ℕ → Result (Unit {0}) → List Report
pulled machine req t (err e) = fails ("pull images: " <> e) t ∷ []
pulled machine req t (ok u) = create_services machine req t

abbrev pub images_first : Machine → ApplyStackRequest → ℕ → List Service → Bool → List Report
images_first machine req t services true =
    says "Pulling images..." t ∷ pulled machine req t (pull_images machine services)
images_first machine req t services false = create_services machine req t

abbrev pub parsed : Machine → ApplyStackRequest → ℕ → Result Project → List Report
parsed machine req t (err e) = fails ("parse compose: " <> e) t ∷ []
parsed machine req t (ok project) = images_first machine req t project.services req.pull_images

unfoldable pub execute_apply : Machine → ApplyStackRequest → String → ℕ → List Report
unfolding pull_images
execute_apply machine req dir t =
    now_running t
    ∷ says "Parsing compose file..." t
    ∷ parsed machine req t (parse_compose machine.host req.stack_name req.compose_content dir)

abbrev pub down_command : Machine → String → Bool → List String
down_command machine name remove_volumes =
    "docker"
    ∷ "compose"
    ∷ "-f"
    ∷ machine.host.join name "compose.yaml"
    ∷ "down"
    ∷ (if remove_volumes then "--volumes" ∷ [] else [])

abbrev pub stopped : Machine → String → ℕ → Result (Unit {0}) → List Report
stopped machine dir t (err e) = fails ("compose down: " <> e) t ∷ []
stopped machine dir t (ok u) =
    says "Removing stack directory..." t
    ∷ ended "remove directory: " "Stack removed successfully" t (machine.remove_all dir)

unfoldable pub execute_remove : Machine → String → String → Bool → ℕ → List Report
execute_remove machine name dir remove_volumes t =
    now_running t
    ∷ says "Stopping containers..." t
    ∷ stopped machine dir t (exec_command machine (down_command machine name remove_volumes))

-- The text of the `.env` file, in the order of one range.
abbrev env_content : Map String → String
env_content [] = ""
env_content ((k, v) ∷ rest) = k <> "=" <> v <> "\n" <> env_content rest

-- A file is written to the disk only if the machine lets it.
abbrev written : Machine → Map String → String → String → Result (Map String)
written machine disk path text = machine.write_file path >>= λ _. ok (put disk path text)

-- The disk after the files of a request.
unfoldable write_stack :
    Machine → String → ApplyStackRequest → Map String → Map String × Result (Unit {0})
write_stack machine root req disk = elim (in_context "create stack dir: " (machine.mkdir_all dir)) [
  | err e ↦ (disk, err e)
  | ok u ↦
      elim (in_context "write compose file: "
        (written machine disk (machine.host.join dir "compose.yaml") req.compose_content)) [
          | err e ↦ (disk, err e)
          | ok disk' ↦ with_env disk' req.env_vars
        ]
]
  where
    dir : String
    dir = machine.host.join root req.stack_name

    with_env : Map String → Map String → Map String × Result (Unit {0})
    with_env disk' [] = (disk', ok tt)
    with_env disk' (v ∷ vs) =
        elim (in_context "write env file: "
          (written machine disk' (machine.host.join dir ".env") (env_content (v ∷ vs)))) [
            | err e ↦ (disk', err e)
            | ok disk'' ↦ (disk'', ok tt)
          ]

-- What a call starts: the operation's ID and the calls that its goroutine will make.
pub record Started : Type 0 where
  pub op_id : String
  pub reports : List Report

unfoldable pub apply_stack :
    Machine
    → String
    → ApplyStackRequest
    → Manager
    → Map String
    → String
    → ℕ
    → Manager × Map String × Result Started
unfolding write_stack execute_apply create_operation
apply_stack machine root req m disk fresh now = started (write_stack machine root req disk)
  where
    started : Map String × Result (Unit {0}) → Manager × Map String × Result Started
    started (disk', err e) = (m, disk', err e)
    started (disk', ok u) = (
      (create_operation m stack_apply (("stack", req.stack_name) ∷ []) fresh now).0,
      disk',
      ok (record {
        op_id = (create_operation m stack_apply (("stack", req.stack_name) ∷ []) fresh now).1;
        reports = execute_apply machine req (machine.host.join root req.stack_name) now;
      }),
    )

unfoldable pub remove_stack :
    Machine → String → String → Bool → Manager → String → ℕ → Manager × Result Started
unfolding execute_remove create_operation
remove_stack machine root name remove_volumes m fresh now = (
  (create_operation m stack_remove (("stack", name) ∷ []) fresh now).0,
  ok (record {
    op_id = (create_operation m stack_remove (("stack", name) ∷ []) fresh now).1;
    reports = execute_remove machine name (machine.host.join root name) remove_volumes now;
  }),
)
