-- ===== src/Cron/Adding.antt =====
-- What becomes of a job that is added in plugins/host/cron/plugin.go.
use Prim.Native.String.{String, [], ◌∷◌}
use mathlib.Core.List.{List, [], ◌∷◌}
use mandau.Base.{
  ◌≡◌, ap, subst, ◌∙◌, Bool, false, none, get, length, leb, if◌then◌else◌, ok, ◌<◌, arith,
  append-nil,
}
use mandau.Cron.{
  CronConfig, CronJob, Directory, CronSystem, cron_file, cron_content, add_cron_job, job_of,
  written,
}
use mandau.Cron.Listing.{HasWords, jobs_of_lines_lem}
use mandau.Cron.Globs.{Globs, Plain, Lists, Lists-added}

-- A job whose file is new and whose line is made of fewer than seven words and does not start with `#`,
-- as one for @daily with a command of one word, is not listed, though the file is written and can be
-- read and no error comes: the list has, up to the order, the jobs that it had. `Glob` finds the files
-- that match, and the job's name makes one of them.
pub list-add_short :
    (config : CronConfig) (os : CronSystem) (dir : Directory) (job : CronJob) (w : String)
    (ws : List String) (jobs : List CronJob) (matches : String → String → Bool)
    → os.write_file ≡ ok tt
    → os.read_file (cron_file config os job.name) ≡ ok tt
    → Globs config os matches
    → Plain config os matches job.name
    → get dir (cron_file config os job.name) ≡ none
    → HasWords config job (w ∷ ws)
    → length (w ∷ ws) < 7
    → Lists config os dir jobs
    → Lists config os (add_cron_job config os dir job).0 jobs
      × ((add_cron_job config os dir job).1 ≡ ok tt)
unfolding add_cron_job
list-add_short config os dir job w ws jobs matches wr r g n a h l known =
    let few : leb 7 (length (w ∷ ws)) ≡ false = ground (arith, l) in
    (
      subst (Lists config os (add_cron_job config os dir job).0) (append-nil jobs) (
          Lists-added config os dir job [] jobs matches wr r g n a
            (jobs_of_lines_lem config job w ws job.name h
              ∙ ap (λ t. if t then job_of job.name (w ∷ ws) ∷ [] else []) few)
            known),
      ap (λ x. (written os dir (cron_file config os job.name) (cron_content config job) x).1) wr,
    )
