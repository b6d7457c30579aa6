-- ===== src/AuditFile/Filters.antt =====
-- Which entries a filter of `Query` of plugins/audit/file/plugin.go lets through.
use mandau.Base.{
  ℕ, ◌≤◌, ◌≡◌, refl, ◌⊎◌, ◌↔◌, inl, inr, Bool, true, false, Option, none, some, arith, eq_iff, not,
  ◌&&◌, ◌==◌, if◌then◌else◌,
}
use mandau.Plugin.{AuditEntry, AuditFilter}
use mandau.AuditFile.{matches_filter, not_before, not_after}

not_before_iff :
    (o : Option ℕ) (n : ℕ)
    → (not_before o n ≡ true) ↔ ((o ≡ none) ⊎ ((t : ℕ) × (o ≡ some t) × (t ≤ n)))
not_before_iff none n = (λ h. inl refl, λ h. refl)
not_before_iff (some t) n = (
  λ h. inr (t, refl, ground (arith, h)),
  λ h. elim h [ inl e ↦ cc e | inr (u, e, l) ↦ let same : t ≡ u = cc e in ground (arith, l, same) ],
)

not_after_iff :
    (o : Option ℕ) (n : ℕ)
    → (not_after o n ≡ true) ↔ ((o ≡ none) ⊎ ((t : ℕ) × (o ≡ some t) × (n ≤ t)))
not_after_iff none n = (λ h. inl refl, λ h. refl)
not_after_iff (some t) n = (
  λ h. inr (t, refl, ground (arith, h)),
  λ h. elim h [ inl e ↦ cc e | inr (u, e, l) ↦ let same : t ≡ u = cc e in ground (arith, l, same) ],
)

guarded_iff :
    (a b c d : Bool)
    → ((if not a && not b then false else c && d) ≡ true)
      ↔ (((a ≡ true) ⊎ (b ≡ true)) × (c ≡ true) × (d ≡ true))
guarded_iff true b c d = ground arith
guarded_iff false b c d = ground arith

-- What a filter asks of an entry: the agent that it names, if it names one, and a time no earlier and
-- no later than those it gives. Its user, its action and its limit do not count.
pub matches_filter_iff :
    (entry : AuditEntry) (f : AuditFilter)
    → (matches_filter entry (some f) ≡ true) ↔ (
        ((f.agent_id ≡ "") ⊎ (entry.agent_id ≡ f.agent_id))
        × ((f.start_time ≡ none) ⊎ ((t : ℕ) × (f.start_time ≡ some t) × (t ≤ entry.timestamp)))
        × ((f.end_time ≡ none) ⊎ ((t : ℕ) × (f.end_time ≡ some t) × (entry.timestamp ≤ t))))
unfolding matches_filter
matches_filter_iff entry f =
    let agent : Bool = f.agent_id == "" in
    let same : Bool = entry.agent_id == f.agent_id in
    let (there, back) =
      guarded_iff agent same (not_before f.start_time entry.timestamp)
        (not_after f.end_time entry.timestamp) in
    let (a, b) = eq_iff f.agent_id "" in
    let (k, l) = eq_iff entry.agent_id f.agent_id in
    let (c, d) = not_before_iff f.start_time entry.timestamp in
    let (e, g) = not_after_iff f.end_time entry.timestamp in
    (
      λ h.
          let (who, from, to) = there h in
          (elim who [ inl x ↦ inl (a x) | inr x ↦ inr (k x) ], c from, e to),
      λ h. back (elim h.0 [ inl x ↦ inl (b x) | inr x ↦ inr (l x) ], d h.1, g h.2),
    )
