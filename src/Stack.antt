-- ===== src/Stack.antt =====
-- pkg/agent/stack/manager.go: the stacks below the manager's root, loaded from the disk and from
-- Docker for each request. What the operating system, compose-go and Docker answer is the record
-- `Host`. `none` is a panic of the Go runtime.
pub mod Diff
pub mod Execution
pub mod State
pub mod Changes
pub mod Pulls
pub mod Reports
pub mod Cancelled
mod Tests
use Prim.Native.String.{String, [], ◌∷◌}
use mathlib.Core.List.{List, [], ◌∷◌}
use mandau.Base.{
  ℕ, zero, suc, ◌+◌, Bool, true, false, Option, none, some, Map, get, if◌then◌else◌, ◌==◌, eqb,
  length, Result, ok, err, ◌>>=◌, ◌<>◌, in_context,
}

-- The fields of compose-go's `ServiceConfig` and `Project` that the manager reads.
pub record Service : Type 0 where
  pub name : String
  pub image : String
  pub ports : List String
  pub environment : Map String

pub record Project : Type 0 where
  pub name : String
  pub services : List Service

pub data StackState : Type 0 where
  unknown running stopped error partial : StackState

pub record ContainerInfo : Type 0 where
  pub id : String
  pub name : String
  pub service : String
  pub state : String
  pub status : String
  pub image : String

pub record Stack : Type 0 where
  pub id : String
  pub name : String
  pub path : String
  pub project : Project
  pub state : StackState
  pub containers : List ContainerInfo
  pub created_at : Option ℕ
  pub updated_at : ℕ
  pub labels : Map String

-- A container as Docker lists it.
pub record Container : Type 0 where
  pub id : String
  pub names : List String
  pub labels : Map String
  pub state : String
  pub status : String
  pub image : String

pub record Entry : Type 0 where
  pub name : String
  pub is_dir : Bool

-- `os.Stat`: the time of the last change, that there is no such file, or another error.
pub data Stat : Type 0 where
  found : ℕ → Stat
  missing : Stat
  failed : Stat

pub record Host : Type 0 where
  pub join : String → String → String
  pub read_dir : String → Result (List Entry)
  pub stat : String → Stat
  pub read_file : String → Result String
  pub unmarshal : String → Result (Unit {0})
  pub load : String → String → Result Project
  pub container_list : String → Result (List Container)

-- `loader.LoadWithContext` after a first parse; the project takes the stack's name.
unfoldable pub parse_compose : Host → String → String → String → Result Project
parse_compose host name text dir = host.unmarshal text >>= λ _.
    host.load text dir >>= λ project. ok (record project { name = name })

-- `s[:n]`, which panics on a shorter text. An ID is made of ASCII letters, one byte each.
abbrev pub cut : ℕ → String → Option String
cut zero s = some ""
cut (suc n) [] = none
cut (suc n) (c ∷ s) = elim (cut n s) [ none ↦ none | some t ↦ some (c ∷ t) ]

abbrev pub or_empty : Option String → String
or_empty none = ""
or_empty (some s) = s

abbrev container_info : Container → Option ContainerInfo
container_info c = elim (cut 12 c.id) [
  | none ↦ none
  | some short ↦ elim c.names [
    | [] ↦ none
    | name ∷ names ↦ some (record {
      id = short;
      name = name;
      service = or_empty (get c.labels "com.docker.compose.service");
      state = c.state;
      status = c.status;
      image = c.image;
    })
  ]
]

abbrev container_infos : List Container → Option (List ContainerInfo)
container_infos [] = some []
container_infos (c ∷ cs) = elim (container_info c) [
  | none ↦ none
  | some info ↦ elim (container_infos cs) [ none ↦ none | some infos ↦ some (info ∷ infos) ]
]

unfoldable pub get_stack_containers : Host → String → Option (Result (List ContainerInfo))
get_stack_containers host name =
    elim (host.container_list ("com.docker.compose.project=" <> name)) [
      | err e ↦ some (err e)
      | ok cs ↦ elim (container_infos cs) [ none ↦ none | some infos ↦ some (ok infos) ]
    ]

-- The loop of `determineState`, from the counts so far.
abbrev pub count_states : List ContainerInfo → ℕ → ℕ → ℕ × ℕ
count_states [] up down = (up, down)
count_states (c ∷ cs) up down =
    if c.state == "running" then count_states cs (suc up) down else count_states cs up (suc down)

abbrev pub state_of_counts : ℕ → ℕ × ℕ → StackState
state_of_counts total (up, down) =
    if eqb up total then running else if eqb down total then stopped else partial

unfoldable pub determine_state : List ContainerInfo → StackState
determine_state cs =
    if eqb (length cs) 0 then stopped else state_of_counts (length cs) (count_states cs 0 0)

abbrev exists_path : Stat → Bool
exists_path missing = false
exists_path _ = true

abbrev compose_path : Host → String → String
compose_path host dir =
    if exists_path (host.stat (host.join dir "compose.yaml"))
    then host.join dir "compose.yaml"
    else host.join dir "docker-compose.yaml"

abbrev mod_time : Stat → Option ℕ
mod_time (found t) = some t
mod_time _ = none

abbrev loaded :
    Host
    → String
    → String
    → ℕ
    → Project
    → Option (Result (List ContainerInfo))
    → Option (Result Stack)
loaded host name dir now project none = none
loaded host name dir now project (some (err e)) = some (err ("get containers: " <> e))
loaded host name dir now project (some (ok containers)) = some (
    ok (record {
      id = name;
      name = name;
      path = dir;
      project = project;
      state = determine_state containers;
      containers = containers;
      created_at = mod_time (host.stat dir);
      updated_at = now;
      labels = [];
    }))

unfoldable pub load_stack : Host → String → String → ℕ → Option (Result Stack)
unfolding determine_state
load_stack host root name now = elim (host.stat dir) [
  | missing ↦ some (err ("stack not found: " <> name))
  | _ ↦ elim project [
    | err e ↦ some (err e)
    | ok p ↦ loaded host name dir now p (get_stack_containers host name)
  ]
]
  where
    dir : String
    dir = host.join root name

    project : Result Project
    project = in_context "read compose file: " (host.read_file (compose_path host dir)) >>= λ text.
        in_context "parse compose: " (parse_compose host name text dir)

-- The loop of `ListStacks`: a file, and a stack that does not load, are passed over.
abbrev list_entries : Host → String → ℕ → List Entry → Option (List Stack)
list_entries host root now [] = some []
list_entries host root now (entry ∷ entries) =
    let rest = list_entries host root now entries in
    if entry.is_dir then with_entry (load_stack host root entry.name now) rest else rest
  where
    with_entry : Option (Result Stack) → Option (List Stack) → Option (List Stack)
    with_entry none rest = none
    with_entry (some (err e)) rest = rest
    with_entry (some (ok stack)) none = none
    with_entry (some (ok stack)) (some stacks) = some (stack ∷ stacks)

unfoldable pub list_stacks : Host → String → ℕ → Option (Result (List Stack))
list_stacks host root now = elim (host.read_dir root) [
  | err e ↦ some (err ("read stack root: " <> e))
  | ok entries ↦ elim (list_entries host root now entries) [
    | none ↦ none
    | some stacks ↦ some (ok stacks)
  ]
]
