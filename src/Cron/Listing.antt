-- ===== src/Cron/Listing.antt =====
-- What `ListCronJobs` of plugins/host/cron/plugin.go reads in a file that `AddCronJob` writes.
use Prim.Native.Char.{Char, code}
use Prim.Native.String.{String, [], ◌∷◌}
use mathlib.Core.List.{List, [], ◌∷◌, ◌++◌}
use text.Mathlib.TextLemmas.{nil-append, cons-append, append_assoc, append-nil as text_append-nil}
use mandau.Base.{
  ◌≡◌, ◌≢◌, refl, sym, ap, subst, ◌∙◌, inl, inr, Bool, true, false, ◌||◌, eqb, if◌then◌else◌, ◌==◌,
  ◌<>◌, arith, All, Bool-cases, ne→==-false, append-nil,
}
use mandau.Base.Text.{has_prefix}
use mandau.Base.Words.{
  fields, join_space, split_newline, Spaceless, Word, OnOneLine, fields-join, split_newline-append,
  is_space,
}
use mandau.Cron.{
  CronConfig, CronJob, cron_line, cron_content, jobs_of_parts, jobs_of_line, jobs_of_lines,
}

pub join_space-append :
    (w v : String) (ws vs : List String)
    → join_space ((w ∷ ws) ++ (v ∷ vs)) ≡ join_space (w ∷ ws) <> " " <> join_space (v ∷ vs)
unfolding join_space
join_space-append w v [] vs = refl
join_space-append w v (x ∷ ws) vs =
    ap (λ t. w <> " " <> t) (join_space-append x v ws vs)
    ∙ ap (λ t. w <> t) (sym (append_assoc " " (join_space (x ∷ ws)) (" " <> join_space (v ∷ vs))))
    ∙ sym (append_assoc w (" " <> join_space (x ∷ ws)) (" " <> join_space (v ∷ vs)))

space_line : (c : Char) → is_space c ≡ false → eqb (code c) 10 ≡ false
space_line c h = ground (arith, h)

abbrev on_one_line : String → Bool
on_one_line [] = true
on_one_line (c ∷ s) = if eqb (code c) 10 then false else on_one_line s

on_one_line-OnOneLine : (s : String) → on_one_line s ≡ true → OnOneLine s
on_one_line-OnOneLine [] h = tt
on_one_line-OnOneLine (c ∷ s) h = elim (Bool-cases (eqb (code c) 10)) [
  | inl e ↦ cc (sym (ap (λ b. if b then false else on_one_line s) e) ∙ h)
  | inr e ↦ (e, on_one_line-OnOneLine s (sym (ap (λ b. if b then false else on_one_line s) e) ∙ h))
]

Spaceless-OnOneLine : (w : String) → Spaceless w → OnOneLine w
Spaceless-OnOneLine [] h = tt
Spaceless-OnOneLine (c ∷ w) h = (space_line c h.0, Spaceless-OnOneLine w h.1)

OnOneLine-append : (s t : String) → OnOneLine s → OnOneLine t → OnOneLine (s <> t)
OnOneLine-append [] t h k = rw (nil-append t) k
OnOneLine-append (c ∷ s) t h k = rw (cons-append c s t) (h.0, OnOneLine-append s t h.1 k)

OnOneLine-join : (ws : List String) → All Word ws → OnOneLine (join_space ws)
unfolding join_space
OnOneLine-join [] h = tt
OnOneLine-join (w ∷ []) h = Spaceless-OnOneLine w h.0.1
OnOneLine-join (w ∷ v ∷ ws) h =
    OnOneLine-append w (" " <> join_space (v ∷ ws)) (Spaceless-OnOneLine w h.0.1)
      (OnOneLine-append " " (join_space (v ∷ ws)) (refl, tt) (OnOneLine-join (v ∷ ws) h.1))

-- The words of the line that a job has in its file.
abbrev pub HasWords : CronConfig → CronJob → List String → Type 0
HasWords config job ws =
    All Word ws
    × (cron_line config job ≡ join_space ws)
    × (has_prefix (cron_line config job) "#" ≡ false)

join_space-ne : (w : String) (ws : List String) → All Word (w ∷ ws) → join_space (w ∷ ws) ≢ ""
unfolding fields
join_space-ne w ws h e = cc (sym (fields-join (w ∷ ws) h) ∙ ap fields e)

split_newline_end : (s : String) → OnOneLine s → split_newline (s <> "\n") ≡ s ∷ [] ∷ []
unfolding split_newline
split_newline_end s h =
    ap (λ t. split_newline (s <> t)) (sym (text_append-nil "\n")) ∙ split_newline-append s [] h

jobs_of_line_lem :
    (config : CronConfig) (job : CronJob) (w : String) (ws : List String) (name : String)
    → HasWords config job (w ∷ ws)
    → jobs_of_line name (cron_line config job) ≡ jobs_of_parts name (w ∷ ws)
jobs_of_line_lem config job w ws name (a, e, p) =
    ap
      (λ b.
        if b || cron_line config job == ""
        then []
        else jobs_of_parts name (fields (cron_line config job)))
      p
    ∙ ap (λ l. if l == "" then [] else jobs_of_parts name (fields l)) e
    ∙ ap (λ b. if b then [] else jobs_of_parts name (fields (join_space (w ∷ ws))))
        (ne→==-false (join_space (w ∷ ws)) "" (join_space-ne w ws a))
    ∙ ap (jobs_of_parts name) (fields-join (w ∷ ws) a)

pub jobs_of_lines_lem :
    (config : CronConfig) (job : CronJob) (w : String) (ws : List String) (name : String)
    → HasWords config job (w ∷ ws)
    → jobs_of_lines name (split_newline (cron_content config job)) ≡ jobs_of_parts name (w ∷ ws)
jobs_of_lines_lem config job w ws name h =
    let line : String = cron_line config job in
    let one : OnOneLine line = subst OnOneLine (sym h.1) (OnOneLine-join (w ∷ ws) h.0) in
    ap (jobs_of_lines name) (
      split_newline-append "# Managed by Mandau" (line <> "\n")
        (on_one_line-OnOneLine "# Managed by Mandau" refl)
      ∙ ap (λ ls. "# Managed by Mandau" ∷ ls) (split_newline_end line one))
    ∙ append-nil (jobs_of_line name line)
    ∙ jobs_of_line_lem config job w ws name h
