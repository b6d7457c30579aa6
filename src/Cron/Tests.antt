-- ===== src/Cron/Tests.antt =====
-- The theorems on cron jobs at a nightly job and at a daily one.
use Prim.Native.String.{String, [], ◌∷◌}
use mathlib.Core.List.{List, [], ◌∷◌}
use mathlib.Core.List.Perm
use mandau.Base.{
  ◌<>◌, filter, keys, arith, ◌≡◌, ◌≢◌, refl, sym, ap, ◌∙◌, inl, inr, Bool, Bool-cases,
  if◌then◌else◌, true, false, ok, get,
}
use mandau.Base.Text.{has_prefix, trim_prefix, trim_suffix}
use mandau.Base.Words.{join_space, is_space, Spaceless, Word}
use mandau.Cron.{
  CronConfig, CronJob, CronSystem, add_cron_job, list_cron_jobs, cron_pattern, jobs_of_files,
}
use mandau.Cron.Globs.{Globs, Plain, Lists}
use mandau.Cron.Adding.{list-add_short}

abbrev as_root : CronConfig
as_root = record { cron_dir = "/etc/cron.d"; user = "root" }

-- The patterns are a prefix and a star, the paths have no other directory.
abbrev starred : String → String → Bool
starred pattern file = has_prefix file (trim_suffix pattern "*")

abbrev working : CronSystem
working = record {
  join = λ dir file. dir <> "/" <> file;
  base = λ file. trim_prefix file "/etc/cron.d/";
  glob = λ pattern dir. ok (filter (starred pattern) (keys dir));
  write_file = ok tt;
  after_failure = λ dir. dir;
  remove = ok tt;
  read_file = λ file. ok tt;
}

working-Globs : Globs as_root working starred
working-Globs dir =
    let files : List String = filter (starred (cron_pattern as_root working)) (keys dir) in
    (files, refl, Perm.refl files)

none_listed : Lists as_root working [] []
unfolding list_cron_jobs jobs_of_files
none_listed = ([], refl, Perm.refl [])

abbrev nightly : CronJob
nightly = record {
  name = "backup";
  schedule = join_space ("0" ∷ "2" ∷ "*" ∷ "*" ∷ "*" ∷ []);
  command = "backup";
  user = "";
  enabled = false;
}

abbrev no_space : String → Bool
no_space [] = true
no_space (c ∷ s) = if is_space c then false else no_space s

no_space-Spaceless : (s : String) → no_space s ≡ true → Spaceless s
no_space-Spaceless [] h = tt
no_space-Spaceless (c ∷ s) h = elim (Bool-cases (is_space c)) [
  | inl e ↦ cc (sym (ap (λ b. if b then false else no_space s) e) ∙ h)
  | inr e ↦ (e, no_space-Spaceless s (sym (ap (λ b. if b then false else no_space s) e) ∙ h))
]

no_space-Word : (s : String) → s ≢ "" → no_space s ≡ true → Word s
no_space-Word s n h = (n, no_space-Spaceless s h)

backup-Plain : Plain as_root working starred "backup"
unfolding trim_prefix trim_suffix
backup-Plain = (refl, refl)

abbrev daily : CronJob
daily = record nightly { schedule = "@daily" }

list-add_short_example :
    Lists as_root working (add_cron_job as_root working [] daily).0 []
    × ((add_cron_job as_root working [] daily).1 ≡ ok tt)
unfolding get join_space
list-add_short_example =
    list-add_short as_root working [] daily "@daily" ("root" ∷ "backup" ∷ []) [] starred refl refl
      working-Globs backup-Plain refl
      (
        (
          no_space-Word "@daily" (λ e. cc e) refl,
          (no_space-Word "root" (λ e. cc e) refl, (no_space-Word "backup" (λ e. cc e) refl, tt)),
        ),
        refl,
        refl,
      )
      (ground arith) none_listed
