-- ===== src/Config/AgentId.antt =====
-- The agent's own ID in cmd/mandau-agent/main.go: `parseFlags` takes it from the flag, from the file
-- that an earlier start left, or from the host name. What Go's library trims off a text and what
-- writing a file leaves in it are arguments.
use Prim.Native.String.{count}
use mandau.Base.{
  ◌≡◌, sym, ap, subst, ◌∙◌, inl, inr, String, false, Option, none, some, if◌then◌else◌, ◌==◌,
  Result, ok, err, ◌<>◌, Bool-cases, arith, ne→==-false,
}
use text.Mathlib.TextLemmas.{length-append}

-- `strings.TrimSpace`, whether the ID's directory can be made and its file read, and the file after
-- a write.
pub record IdFile : Type 0 where
  pub trim_space : String → String
  pub mkdir_all : Result (Unit {0})
  pub read_file : String → Result String
  pub write_file : String → Option String → Option String

abbrev read_id : IdFile → Result String → String
read_id os (ok bytes) = os.trim_space bytes
read_id os (err e) = ""

abbrev load_id : IdFile → Option String → String
load_id os none = ""
load_id os (some content) = read_id os (os.read_file content)

-- The file is the one of getAgentIDFilePath, if it is there.
unfoldable load_persistent_agent_id : IdFile → Option String → String
load_persistent_agent_id os file = load_id os file

abbrev save_id : IdFile → Result (Unit {0}) → String → Option String → Option String
save_id os (err e) id file = file
save_id os (ok u) id file = os.write_file id file

unfoldable save_persistent_agent_id : IdFile → String → Option String → Option String
save_persistent_agent_id os id file = save_id os os.mkdir_all id file

abbrev pub host_name : Result String → String
host_name (ok hostname) = hostname
host_name (err e) = "unknown"

-- The ID of a start and the file that it leaves: of the flag `id`, the host name and the file.
unfoldable pub choose_agent_id :
    IdFile → String → Result String → Option String → String × Option String
unfolding load_persistent_agent_id save_persistent_agent_id
choose_agent_id os flag hostname file =
    let made : String = "agent-" <> host_name hostname in
    let kept : String = load_persistent_agent_id os file in
    if flag == ""
    then (if kept == "" then (made, save_persistent_agent_id os made file) else (kept, file))
    else (flag, save_persistent_agent_id os flag file)

-- The directory can be made, and a file has what was written and is read.
abbrev Keeps : IdFile → Type 0
Keeps os =
    (os.mkdir_all ≡ ok tt)
    × ((id : String) (file : Option String) → os.write_file id file ≡ some id)
    × ((content : String) → os.read_file content ≡ ok content)

saved :
    (os : IdFile) (id : String) (file : Option String)
    → Keeps os
    → save_persistent_agent_id os id file ≡ some id
unfolding save_persistent_agent_id
saved os id file (m, w, r) = ap (λ d. save_id os d id file) m ∙ w id file

loaded_id :
    (os : IdFile) (id : String)
    → Keeps os
    → os.trim_space id ≡ id
    → load_persistent_agent_id os (some id) ≡ id
unfolding load_persistent_agent_id
loaded_id os id (m, w, r) t = ap (read_id os) (r id) ∙ t

made-ne : (h : String) → ("agent-" <> h) == "" ≡ false
made-ne h = ne→==-false ("agent-" <> h) "" λ e. omega (arith, ap count e, length-append "agent-" h)

-- A start without the flag takes what the file has.
takes :
    (os : IdFile) (hostname : Result String) (file : Option String)
    → load_persistent_agent_id os file == "" ≡ false
    → (choose_agent_id os "" hostname file).0 ≡ load_persistent_agent_id os file
unfolding choose_agent_id
takes os hostname file n =
    let made : String = "agent-" <> host_name hostname in
    let kept : String = load_persistent_agent_id os file in
    ap (λ (r : String × Option String). r.0)
      (ap (λ b. if b then (made, save_persistent_agent_id os made file) else (kept, file)) n)

again :
    (os : IdFile) (hostname : Result String) (id : String)
    → Keeps os
    → os.trim_space id ≡ id
    → id == "" ≡ false
    → (choose_agent_id os "" hostname (some id)).0 ≡ id
again os hostname id k t n =
    let l : load_persistent_agent_id os (some id) ≡ id = loaded_id os id k t in
    takes os hostname (some id) (ap (λ i. i == "") l ∙ n) ∙ l

-- An agent that is started again without the flag `id` has the ID of the start before, whether that
-- came from the flag, from the file or from the host name, and even if the host name has changed:
-- if the file could be written and is read, and the ID has no spaces around it.
pub choose_agent_id-again :
    (os : IdFile) (flag : String) (before after : Result String) (file : Option String)
    → Keeps os
    → os.trim_space (choose_agent_id os flag before file).0
      ≡ (choose_agent_id os flag before file).0
    → (choose_agent_id os "" after (choose_agent_id os flag before file).1).0
      ≡ (choose_agent_id os flag before file).0
unfolding choose_agent_id
choose_agent_id-again os flag before after file k t = elim (Bool-cases (flag == "")) [
  | inl e ↦ elim (Bool-cases (load_persistent_agent_id os file == "")) [
    | inl f ↦
        let h : choose_agent_id os flag before file ≡ (made, some made) =
          ap (λ b. if b then unset else set) e
          ∙ ap (λ b. if b then (made, save_persistent_agent_id os made file) else (kept, file)) f
          ∙ ap (λ s. (made, s)) (saved os made file k) in
        subst Again (sym h) (again os after made k (subst Trimmed h t) (made-ne (host_name before)))
    | inr f ↦
        let h : choose_agent_id os flag before file ≡ (kept, file) =
          ap (λ b. if b then unset else set) e
          ∙ ap (λ b. if b then (made, save_persistent_agent_id os made file) else (kept, file)) f in
        subst Again (sym h) (takes os after file f)
  ]
  | inr e ↦
      let h : choose_agent_id os flag before file ≡ (flag, some flag) =
        ap (λ b. if b then unset else set) e ∙ ap (λ s. (flag, s)) (saved os flag file k) in
      subst Again (sym h) (again os after flag k (subst Trimmed h t) e)
]
  where
    made : String
    made = "agent-" <> host_name before

    kept : String
    kept = load_persistent_agent_id os file

    unset : String × Option String
    unset = if kept == "" then (made, save_persistent_agent_id os made file) else (kept, file)

    set : String × Option String
    set = (flag, save_persistent_agent_id os flag file)

    Again : String × Option String → Type 0
    Again r = (choose_agent_id os "" after r.1).0 ≡ r.0

    Trimmed : String × Option String → Type 0
    Trimmed r = os.trim_space r.0 ≡ r.0
