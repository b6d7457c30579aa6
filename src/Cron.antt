-- ===== src/Cron.antt =====
-- plugins/host/cron/plugin.go. The cron directory is a map from the paths of its files to their texts; the operations read the configuration that `Init` sets.
pub mod Listing
pub mod Globs
pub mod Adding
mod Tests
use mandau.Base.{
  ℕ, zero, suc, String, Bool, true, false, ◌||◌, Option, none, some, List, [], ◌∷◌, ◌++◌, Map, get,
  put, delete, length, take, leb, if◌then◌else◌, ◌==◌, Result, ok, err, ◌<>◌, ◌>>=◌,
}
use mandau.Base.Text.{has_prefix, trim_prefix}
use mandau.Base.Words.{fields, join_space, split_newline}
use mandau.Plugin.{Value, text_at}

pub record CronConfig : Type 0 where
  pub cron_dir : String
  pub user : String

record CronPlugin : Type 0 where
  pub name : String
  pub version : String
  pub config : Option CronConfig

pub record CronJob : Type 0 where
  pub name : String
  pub schedule : String
  pub command : String
  pub user : String
  pub enabled : Bool

unfoldable new_cron : CronPlugin
new_cron = record { name = "cron-manager"; version = "1.0.0"; config = none }

abbrev user_or : Option String → String → String
user_or none d = d
user_or (some user) d = user

unfoldable init_cron : CronPlugin → Map Value → CronPlugin
unfolding text_at
init_cron p config = record p {
  config =
      some (record { cron_dir = "/etc/cron.d"; user = user_or (text_at config "user") "root" });
}

abbrev pub Directory : Type 0
Directory = Map String

-- What Go's `filepath` computes: `Join`, `Base`, and `Glob` on the files there are; how the system's
-- calls end, and what a failed write leaves.
pub record CronSystem : Type 0 where
  pub join : String → String → String
  pub base : String → String
  pub glob : String → Directory → Result (List String)
  pub write_file : Result (Unit {0})
  pub after_failure : Directory → Directory
  pub remove : Result (Unit {0})
  pub read_file : String → Result (Unit {0})

abbrev pub cron_file : CronConfig → CronSystem → String → String
cron_file config os name = os.join config.cron_dir ("mandau-" <> name)

abbrev pub job_user : CronConfig → CronJob → String
job_user config job = if job.user == "" then config.user else job.user

abbrev pub cron_line : CronConfig → CronJob → String
cron_line config job = job.schedule <> " " <> job_user config job <> " " <> job.command

abbrev pub cron_content : CronConfig → CronJob → String
cron_content config job = "# Managed by Mandau" <> "\n" <> cron_line config job <> "\n"

abbrev pub written :
    CronSystem → Directory → String → String → Result (Unit {0}) → Directory × Result (Unit {0})
written os dir file content (ok u) = (put dir file content, ok tt)
written os dir file content (err e) = (os.after_failure dir, err ("write cron file: " <> e))

unfoldable pub add_cron_job :
    CronConfig → CronSystem → Directory → CronJob → Directory × Result (Unit {0})
add_cron_job config os dir job =
    written os dir (cron_file config os job.name) (cron_content config job) os.write_file

abbrev pub removed :
    Directory → String → Option String → Result (Unit {0}) → Directory × Result (Unit {0})
removed dir file none r = (dir, err "no such file or directory")
removed dir file (some content) (ok u) = (delete dir file, ok tt)
removed dir file (some content) (err e) = (dir, err e)

unfoldable pub remove_cron_job :
    CronConfig → CronSystem → Directory → String → Directory × Result (Unit {0})
remove_cron_job config os dir name =
    let file : String = cron_file config os name in removed dir file (get dir file) os.remove

-- `parts[6:]`, and the others.
abbrev drop : ℕ → List String → List String
drop zero ws = ws
drop (suc n) [] = []
drop (suc n) (w ∷ ws) = drop n ws

abbrev first_word : List String → String
first_word [] = ""
first_word (w ∷ ws) = w

abbrev pub job_of : String → List String → CronJob
job_of name parts = record {
  name = name;
  schedule = join_space (take 5 parts);
  command = join_space (drop 6 parts);
  user = first_word (drop 5 parts);
  enabled = true;
}

-- The job of a line of at least seven words.
abbrev pub jobs_of_parts : String → List String → List CronJob
jobs_of_parts name parts = if leb 7 (length parts) then job_of name parts ∷ [] else []

abbrev pub jobs_of_line : String → String → List CronJob
jobs_of_line name line =
    if has_prefix line "#" || line == "" then [] else jobs_of_parts name (fields line)

abbrev pub jobs_of_lines : String → List String → List CronJob
jobs_of_lines name [] = []
jobs_of_lines name (line ∷ lines) = jobs_of_line name line ++ jobs_of_lines name lines

abbrev text_of : Option String → Result String
text_of none = err "no such file or directory"
text_of (some text) = ok text

-- `os.ReadFile`
abbrev pub read_text : CronSystem → Directory → String → Result String
read_text os dir file = os.read_file file >>= λ u. text_of (get dir file)

-- A file that cannot be read is passed over. The name is what comes after the first seven bytes of
-- the file's name, which are the prefix, since `Glob` found it.
abbrev pub jobs_of_file : String → Result String → List CronJob
jobs_of_file base (err e) = []
jobs_of_file base (ok text) = jobs_of_lines (trim_prefix base "mandau-") (split_newline text)

unfoldable pub jobs_of_files : CronSystem → Directory → List String → List CronJob
unfolding fields join_space split_newline trim_prefix
jobs_of_files os dir [] = []
jobs_of_files os dir (file ∷ files) =
    jobs_of_file (os.base file) (read_text os dir file) ++ jobs_of_files os dir files

abbrev pub cron_pattern : CronConfig → CronSystem → String
cron_pattern config os = os.join config.cron_dir "mandau-*"

unfoldable pub list_cron_jobs : CronConfig → CronSystem → Directory → Result (List CronJob)
unfolding jobs_of_files
list_cron_jobs config os dir =
    os.glob (cron_pattern config os) dir >>= λ files. ok (jobs_of_files os dir files)
