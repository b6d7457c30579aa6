-- ===== src/Services/Firewall.antt =====
-- plugins/services/firewall/plugin.go: the commands for rules. `upper` is `strings.ToUpper`.
use mandau.Base.{
  zero, suc, String, Bool, true, false, ◌||◌, Option, none, some, List, [], ◌∷◌, ◌++◌, Map,
  if◌then◌else◌, ◌==◌, Result, ok, err, ◌<>◌, in_context, ◌>>=◌,
}
use mandau.Base.Int.{ℤ, pos, negsuc}
use mandau.Base.Words.{split_newline}
use mandau.Core.AgentId.{decimal}
use mandau.Plugin.{Value, text_at}
use mandau.Services.{Command, Exec}

pub data Backend : Type 0 where
  ufw iptables : Backend

record FirewallConfig : Type 0 where
  pub backend : String
  pub default_policy : String

record FirewallRule : Type 0 where
  pub action : String
  pub proto : String
  pub from_ip : String
  pub from_port : ℤ
  pub to_ip : String
  pub to_port : ℤ
  pub comment : String

abbrev named_or : Option String → String → String
named_or none d = d
named_or (some b) d = b

-- The backend that is found counts, not the one that the configuration names. `look_path` tells
-- whether a program is there.
abbrev detected : Bool → Bool → Result Backend
detected true i = ok ufw
detected false true = ok iptables
detected false false = err "no firewall backend found"

unfoldable init_firewall : (String → Bool) → Map Value → FirewallConfig × Result Backend
unfolding text_at
init_firewall look_path config = (
  record { backend = named_or (text_at config "backend") "ufw"; default_policy = "deny" },
  detected (look_path "ufw") (look_path "iptables"),
)

-- A word and a value, if the value is not empty.
abbrev with_text : String → String → List String
with_text word value = if value == "" then [] else word ∷ value ∷ []

-- A word and a number, if that is positive.
abbrev with_port : String → ℤ → List String
with_port word (pos zero) = []
with_port word (pos (suc n)) = word ∷ decimal (suc n) ∷ []
with_port word (negsuc n) = []

abbrev with_proto : String → String → List String
with_proto word proto = if proto == "" || proto == "any" then [] else word ∷ proto ∷ []

unfoldable ufw_args : FirewallRule → List String
unfolding decimal
ufw_args rule =
    (rule.action ∷ [])
    ++ with_proto "proto" rule.proto
    ++ with_text "from" rule.from_ip
    ++ with_port "port" rule.from_port
    ++ with_text "to" rule.to_ip
    ++ with_port "port" rule.to_port
    ++ with_text "comment" rule.comment

unfoldable iptables_args : (String → String) → FirewallRule → List String
unfolding decimal
iptables_args upper rule =
    ("-A" ∷ "INPUT" ∷ [])
    ++ with_proto "-p" rule.proto
    ++ with_text "-s" rule.from_ip
    ++ with_text "-d" rule.to_ip
    ++ with_port "--dport" rule.to_port
    ++ "-j" ∷ upper rule.action ∷ []

-- The command of `AddRule`, and what its error begins with.
unfoldable rule_command : (String → String) → Backend → FirewallRule → String × Command
unfolding ufw_args iptables_args
rule_command upper ufw rule =
    ("ufw failed: ", record { program = "ufw"; arguments = ufw_args rule })
rule_command upper iptables rule =
    ("iptables failed: ", record { program = "iptables"; arguments = iptables_args upper rule })

abbrev pub ended : Result String → Result (Unit {0})
ended (ok output) = ok tt
ended (err e) = err e

unfoldable add_rule : Exec → (String → String) → Backend → FirewallRule → Result (Unit {0})
unfolding rule_command
add_rule exec upper backend rule =
    let (what, command) = rule_command upper backend rule in in_context what (ended (exec command))

abbrev port_rule : String → ℤ → String → FirewallRule
port_rule action port proto = record {
  action = action;
  proto = proto;
  from_ip = "";
  from_port = pos 0;
  to_ip = "";
  to_port = port;
  comment = "";
}

unfoldable pub allow_port : Exec → (String → String) → Backend → ℤ → String → Result (Unit {0})
unfolding add_rule
allow_port exec upper backend port proto =
    add_rule exec upper backend (port_rule "allow" port proto)

unfoldable deny_port : Exec → (String → String) → Backend → ℤ → String → Result (Unit {0})
unfolding add_rule
deny_port exec upper backend port proto = add_rule exec upper backend (port_rule "deny" port proto)

abbrev int_text : ℤ → String
int_text (pos n) = decimal n
int_text (negsuc n) = "-" <> decimal (suc n)

unfoldable delete_rule : Exec → Backend → ℤ → Result (Unit {0})
unfolding decimal
delete_rule exec ufw number =
    in_context "delete failed: "
      (ended (exec (record { program = "ufw"; arguments = "delete" ∷ int_text number ∷ [] })))
delete_rule exec iptables number = in_context "delete failed: " (
    ended
      (exec (record { program = "iptables"; arguments = "-D" ∷ "INPUT" ∷ int_text number ∷ [] })))

-- Switching it on and off does nothing for iptables.
unfoldable enable_firewall : Exec → Backend → Result (Unit {0})
enable_firewall exec iptables = ok tt
enable_firewall exec ufw =
    in_context "enable failed: "
      (ended (exec (record { program = "ufw"; arguments = "--force" ∷ "enable" ∷ [] })))

unfoldable disable_firewall : Exec → Backend → Result (Unit {0})
disable_firewall exec iptables = ok tt
disable_firewall exec ufw =
    in_context "disable failed: "
      (ended (exec (record { program = "ufw"; arguments = "disable" ∷ [] })))

abbrev list_command : Backend → Command
list_command ufw = record { program = "ufw"; arguments = "status" ∷ "numbered" ∷ [] }
list_command iptables = record {
  program = "iptables";
  arguments = "-L" ∷ "-n" ∷ "--line-numbers" ∷ [];
}

unfoldable list_rules : Exec → Backend → Result (List String)
unfolding split_newline
list_rules exec backend = exec (list_command backend) >>= λ output. ok (split_newline output)
