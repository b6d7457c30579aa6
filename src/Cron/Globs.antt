-- ===== src/Cron/Globs.antt =====
-- The files that `ListCronJobs` of plugins/host/cron/plugin.go finds.
use mathlib.Core.Logic.{∥∥₁_elim}
use Prim.Native.String.{String, [], ◌∷◌}
use mathlib.Core.List.{List, [], ◌∷◌, ◌++◌}
use mathlib.Core.List.{Perm, Permᴰ, Perm-prop, perm_append_comm}
use mathlib.Core.List.Perm
use mandau.Base.{
  filter, keys, keys-put_new, get-put, eq_iff, ◌>>=◌, ◌≡◌, ◌≢◌, refl, sym, ap, subst, ◌∙◌, inl, inr,
  Bool, true, none, some, get, put, append_assoc as list_assoc, get-put_same, if◌then◌else◌, ◌==◌,
  ok, ◌<>◌, All, Bool-cases, ne→==-false, append-nil,
}
use mandau.Base.Text.{trim_prefix-append}
use mandau.Base.Words.{split_newline}
use mandau.Cron.{
  CronConfig, CronJob, Directory, CronSystem, cron_file, cron_content, cron_pattern, read_text,
  jobs_of_files, add_cron_job, jobs_of_lines, list_cron_jobs, written, jobs_of_file, text_of,
}

-- `Glob` finds the files whose paths match the cron plugin's pattern, in some order.
abbrev pub Globs : CronConfig → CronSystem → (String → String → Bool) → Type 0
Globs config os matches =
    (dir : Directory)
    → (files : List String) × (os.glob (cron_pattern config os) dir ≡ ok files)
      × Perm files (filter (matches (cron_pattern config os)) (keys dir))

-- The name makes a file of the directory that the pattern matches, and is read off it again.
abbrev pub Plain : CronConfig → CronSystem → (String → String → Bool) → String → Type 0
Plain config os matches name =
    (matches (cron_pattern config os) (cron_file config os name) ≡ true)
    × (os.base (cron_file config os name) ≡ "mandau-" <> name)

-- The list is, up to the order, that of these jobs.
abbrev pub Lists : CronConfig → CronSystem → Directory → List CronJob → Type 0
Lists config os dir jobs =
    (listed : List CronJob) × (list_cron_jobs config os dir ≡ ok listed) × Perm listed jobs

filter_last {ℓ} :
    {A : Type ℓ} (p : A → Bool) (xs : List A) (x : A)
    → p x ≡ true
    → filter p (xs ++ x ∷ []) ≡ filter p xs ++ x ∷ []
filter_last p [] x h = rw h refl
filter_last p (y ∷ xs) x h = elim (Bool-cases (p y)) [
  | inl e ↦ rw (e, filter) (ap (λ l. y ∷ l) (filter_last p xs x h))
  | inr e ↦ rw (e, filter) (filter_last p xs x h)
]

All-filter {ℓ κ} :
    {A : Type ℓ} (P : A → Type κ) (p : A → Bool) (xs : List A) → All P xs → All P (filter p xs)
All-filter P p [] h = tt
All-filter P p (x ∷ xs) h = elim (Bool-cases (p x)) [
  | inl e ↦ rw (e, filter) (h.0, All-filter P p xs h.1)
  | inr e ↦ rw (e, filter) (All-filter P p xs h.1)
]

absent_of_get :
    (dir : Directory) (file : String) → get dir file ≡ none → All (λ j. j ≢ file) (keys dir)
unfolding get
absent_of_get [] file h = tt
absent_of_get ((j, text) ∷ dir) file h = elim (Bool-cases (j == file)) [
  | inl e ↦ cc (sym (ap (λ t. if t then some text else get dir file) e) ∙ h)
  | inr e ↦ (
    λ q. cc (sym e ∙ (eq_iff j file).1 q),
    absent_of_get dir file (sym (ap (λ t. if t then some text else get dir file) e) ∙ h),
  )
]

jobs_of_files-append :
    (os : CronSystem) (dir : Directory) (files more : List String)
    → jobs_of_files os dir (files ++ more) ≡ jobs_of_files os dir files ++ jobs_of_files os dir more
unfolding jobs_of_files
jobs_of_files-append os dir [] more = refl
jobs_of_files-append os dir (file ∷ files) more =
    ap (λ js. jobs_of_file (os.base file) (read_text os dir file) ++ js)
      (jobs_of_files-append os dir files more)
    ∙ sym (
        list_assoc (jobs_of_file (os.base file) (read_text os dir file))
          (jobs_of_files os dir files) (jobs_of_files os dir more))

swap_front {ℓ} : {A : Type ℓ} (p q r : List A) → Perm (p ++ (q ++ r)) (q ++ (p ++ r))
swap_front p q r =
    subst (λ l. Perm l (q ++ (p ++ r))) (list_assoc p q r)
      (subst (Perm ((p ++ q) ++ r)) (list_assoc q p r) (Perm.append_right r (perm_append_comm p q)))

jobs_of_files-perm :
    (os : CronSystem) (dir : Directory) (files others : List String)
    → Permᴰ files others
    → Perm (jobs_of_files os dir files) (jobs_of_files os dir others)
unfolding jobs_of_files
jobs_of_files-perm os dir [] [] Permᴰ.nil = Perm.nil
jobs_of_files-perm os dir (a ∷ files) (b ∷ others) (Permᴰ.cons e d) =
    subst
      (λ c.
        Perm (jobs_of_file (os.base a) (read_text os dir a) ++ jobs_of_files os dir files)
          (jobs_of_file (os.base c) (read_text os dir c) ++ jobs_of_files os dir others))
      e
      (Perm.append_left (jobs_of_file (os.base a) (read_text os dir a))
        (jobs_of_files-perm os dir files others d))
jobs_of_files-perm os dir (a ∷ b ∷ files) (a' ∷ b' ∷ _) (Permᴰ.swap e f) =
    subst
      (λ c.
        Perm (jobs a ++ (jobs b ++ jobs_of_files os dir files))
          (jobs c ++ (jobs b' ++ jobs_of_files os dir files)))
      f
      (subst
        (λ c.
          Perm (jobs a ++ (jobs b ++ jobs_of_files os dir files))
            (jobs b ++ (jobs c ++ jobs_of_files os dir files)))
        e (swap_front (jobs a) (jobs b) (jobs_of_files os dir files)))
  where
    jobs : String → List CronJob
    jobs file = jobs_of_file (os.base file) (read_text os dir file)
jobs_of_files-perm os dir files others (Permᴰ.trans {l₂ = between} d d') =
    Perm.trans (jobs_of_files-perm os dir files between d)
      (jobs_of_files-perm os dir between others d')

jobs_of_files-Perm :
    (os : CronSystem) (dir : Directory) (files others : List String)
    → Perm files others
    → Perm (jobs_of_files os dir files) (jobs_of_files os dir others)
jobs_of_files-Perm os dir files others p =
    ∥∥₁_elim p (Perm-prop {l₁ = jobs_of_files os dir files} {l₂ = jobs_of_files os dir others})
      (jobs_of_files-perm os dir files others)

-- Files other than the one that is put are read as before.
jobs_of_files-put :
    (os : CronSystem) (dir : Directory) (file text : String) (files : List String)
    → All (λ j. j ≢ file) files
    → jobs_of_files os (put dir file text) files ≡ jobs_of_files os dir files
unfolding jobs_of_files
jobs_of_files-put os dir file text [] a = refl
jobs_of_files-put os dir file text (j ∷ files) a =
    rw (get-put dir file j text, ne→==-false file j λ e. a.0 (sym e))
      (ap (λ js. jobs_of_file (os.base j) (read_text os dir j) ++ js)
        (jobs_of_files-put os dir file text files a.1))

-- What the files make that match the pattern after a new one of them is written.
found_after :
    (os : CronSystem) (dir : Directory) (name content pattern file : String)
    (matches : String → String → Bool) (new : List CronJob)
    → matches pattern file ≡ true
    → os.base file ≡ "mandau-" <> name
    → get dir file ≡ none
    → os.read_file file ≡ ok tt
    → jobs_of_lines name (split_newline content) ≡ new
    → jobs_of_files os
        (put dir file content)
        (filter (matches pattern) (keys (put dir file content)))
      ≡ jobs_of_files os dir (filter (matches pattern) (keys dir)) ++ new
unfolding jobs_of_files
found_after os dir name content pattern file matches new m b absent r made =
    let after : Directory = put dir file content in
    let old : List String = filter (matches pattern) (keys dir) in
    ap (λ ks. jobs_of_files os after (filter (matches pattern) ks))
      (keys-put_new dir file content absent)
    ∙ ap (jobs_of_files os after) (filter_last (matches pattern) (keys dir) file m)
    ∙ jobs_of_files-append os after old (file ∷ [])
    ∙ ap (λ js. js ++ jobs_of_files os after (file ∷ []))
        (jobs_of_files-put os dir file content old
          (All-filter (λ j. j ≢ file) (matches pattern) (keys dir) (absent_of_get dir file absent)))
    ∙ ap (λ js. jobs_of_files os dir old ++ js)
        (append-nil (jobs_of_file (os.base file) (read_text os after file))
          ∙ ap (λ n. jobs_of_file n (read_text os after file)) b
          ∙ ap (λ x. jobs_of_file ("mandau-" <> name) (x >>= λ u. text_of (get after file))) r
          ∙ ap (λ o. jobs_of_file ("mandau-" <> name) (text_of o)) (get-put_same dir file content)
          ∙ ap (λ n. jobs_of_lines n (split_newline content)) (trim_prefix-append "mandau-" name)
          ∙ made)

-- The new job's file is read after those that were there.
pub Lists-added :
    (config : CronConfig) (os : CronSystem) (dir : Directory) (job : CronJob)
    (new jobs : List CronJob) (matches : String → String → Bool)
    → os.write_file ≡ ok tt
    → os.read_file (cron_file config os job.name) ≡ ok tt
    → Globs config os matches
    → Plain config os matches job.name
    → get dir (cron_file config os job.name) ≡ none
    → jobs_of_lines job.name (split_newline (cron_content config job)) ≡ new
    → Lists config os dir jobs
    → Lists config os (add_cron_job config os dir job).0 (jobs ++ new)
unfolding add_cron_job list_cron_jobs
Lists-added config os dir job new jobs matches wr r g (m, b) absent made (listed, e, p) =
    let (files, q, perm) = g dir in
    let (files', q', perm') = g after in
    let same : listed ≡ jobs_of_files os dir files =
      cc (sym e ∙ ap (λ fs. fs >>= λ l. ok (jobs_of_files os dir l)) q) in
    subst (λ d. Lists config os d (jobs ++ new))
      (sym (ap (λ x. (written os dir file content x).0) wr))
      (
        jobs_of_files os after files',
        ap (λ fs. fs >>= λ l. ok (jobs_of_files os after l)) q',
        Perm.trans
            (jobs_of_files-Perm os after files' (filter (matches pattern) (keys after)) perm')
            (subst (λ l. Perm l (jobs ++ new))
              (sym (found_after os dir job.name content pattern file matches new m b absent r made))
              (Perm.append_right new (
                Perm.trans
                  (Perm.symm
                    (jobs_of_files-Perm os dir files (filter (matches pattern) (keys dir)) perm))
                  (subst (λ l. Perm l jobs) same p)))),
      )
  where
    file : String
    file = cron_file config os job.name

    content : String
    content = cron_content config job

    pattern : String
    pattern = cron_pattern config os

    after : Directory
    after = put dir file content
