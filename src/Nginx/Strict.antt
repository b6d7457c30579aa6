-- ===== src/Nginx/Strict.antt =====
-- An nginx that refuses just the sites that give a location twice, for the tests.
use mandau.Base.{
  ◌≡◌, refl, sym, ap, ◌∙◌, inl, inr, String, Bool, true, false, Option, none, some, [], ◌∷◌, Map,
  get, Result, ok, err, Bool-cases, if◌then◌else◌, ◌==◌,
}
use mandau.Nginx.{SiteFile, whole, torn, ServerBlock, Disk, NginxSystem}
use mandau.Nginx.Proxies.{repeats, RefusesRepeated}

abbrev pub empty : Disk
empty = record { available = []; enabled = []; upstreams = [] }

-- nginx refuses a site that has a location twice, and accepts all others.
abbrev checked_file : Option SiteFile → Bool
checked_file none = true
checked_file (some torn) = true
checked_file (some (whole b)) = repeats b.locations

abbrev any_refused : Map (Option SiteFile) → Bool
any_refused [] = false
any_refused ((name, file) ∷ sites) = if checked_file file then true else any_refused sites

abbrev verdict : Bool → Result (Unit {0})
verdict true = err "duplicate location"
verdict false = ok tt

abbrev pub strict : NginxSystem
strict = record {
  create = ok tt;
  execute = ok tt;
  symlink = ok tt;
  remove = ok tt;
  test = λ r. verdict (any_refused r.0);
  reload = λ r. verdict (any_refused r.0);
}

any_refused_lem :
    (sites : Map (Option SiteFile)) (name : String) (b : ServerBlock)
    → get sites name ≡ some (some (whole b))
    → repeats b.locations ≡ true
    → any_refused sites ≡ true
unfolding get
any_refused_lem [] name b g h = cc
any_refused_lem ((n, file) ∷ sites) name b g h = elim (Bool-cases (checked_file file)) [
  | inl e ↦ rw e refl
  | inr e ↦ rw e (elim (Bool-cases (n == name)) [
    | inl f ↦
        let same : file ≡ some (whole b) =
          cc (sym (ap (λ t. if t then some file else get sites name) f) ∙ g) in
        cc (sym e ∙ ap checked_file same ∙ h)
    | inr f ↦
        any_refused_lem sites name b (sym (ap (λ t. if t then some file else get sites name) f) ∙ g)
          h
  ])
]

pub strict-RefusesRepeated : RefusesRepeated strict
strict-RefusesRepeated r name b g h =
    ("duplicate location", ap verdict (any_refused_lem r.0 name b g h))
