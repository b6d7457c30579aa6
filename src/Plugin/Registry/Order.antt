-- ===== src/Plugin/Registry/Order.antt =====
-- What the registry holds after any sequence of `Register` calls.
use mandau.Base.{
  or_else, ◌≡◌, refl, sym, ◌∙◌, ◌⊎◌, inl, inr, String, Bool, Option, none, some, List, [], ◌∷◌,
  ◌++◌, arith, eq_iff, get, get-put, if◌then◌else◌, ◌==◌, ok, err, ◌<>◌, filter, Option-cases,
}
use mandau.Plugin.Registry.{PluginApi, Registry, new_registry, register, append_if}

filter-snoc {ℓ} :
    {A : Type ℓ} (p : A → Bool) (xs : List A) (x : A)
    → filter p (xs ++ x ∷ []) ≡ (if p x then filter p xs ++ x ∷ [] else filter p xs)
filter-snoc p [] x = ground arith
filter-snoc p (y ∷ xs) x = ground (arith, filter-snoc p xs x)

module _ {P : Type 0} (api : PluginApi P) where
  -- The first plugin of that name.
  abbrev first_named : List P → String → Option P
  first_named [] k = none
  first_named (p ∷ ps) k = if api.name p == k then some p else first_named ps k

  abbrev append_new : Option P → List P → P → List P
  append_new none ps p = ps ++ p ∷ []
  append_new (some old) ps p = ps

  -- The plugins that are left when a later plugin of a name already taken is dropped.
  abbrev accepted : List P → List P → List P
  accepted ps [] = ps
  accepted ps (q ∷ qs) = accepted (append_new (first_named ps (api.name q)) ps q) qs

  -- The calls in turn; an error leaves the registry as it was.
  abbrev register_each : Registry P → List P → Registry P
  register_each r [] = r
  register_each r (p ∷ ps) = register_each (register api r p).0 ps

  pub record Lists (r : Registry P) (ps : List P) : Type 0 where
    named : (k : String) → get r.plugins k ≡ first_named ps k
    pub auth : r.auth ≡ filter api.is_auth ps
    pub audit : r.audit ≡ filter api.is_audit ps
    pub secrets : r.secrets ≡ filter api.is_secrets ps
    pub policy : r.policy ≡ filter api.is_policy ps

  first_named-snoc :
      (ps : List P) (p : P) (k : String)
      → first_named ps (api.name p) ≡ none
      → first_named (ps ++ p ∷ []) k ≡ (if api.name p == k then some p else first_named ps k)
  first_named-snoc [] p k h = refl
  first_named-snoc (q ∷ ps) p k h = ground (
    arith,
    first_named-snoc ps p k,
    eq_iff (api.name q) k,
    eq_iff (api.name p) k,
    eq_iff (api.name q) (api.name p),
  )

  register-Lists :
      (r : Registry P) (ps : List P) (p : P)
      → Lists r ps
      → Lists (register api r p).0 (append_new (first_named ps (api.name p)) ps p)
  unfolding register
  register-Lists r ps p l = elim (Option-cases (first_named ps (api.name p))) [
    | inl e ↦
        rw (e, l.named (api.name p) ∙ e, register)
          (record {
            named = λ k.
                ground
                  (arith, get-put r.plugins (api.name p) k p, first_named-snoc ps p k e, l.named k);
            auth = kind api.is_auth l.auth;
            audit = kind api.is_audit l.audit;
            secrets = kind api.is_secrets l.secrets;
            policy = kind api.is_policy l.policy;
          })
    | inr (q, e) ↦ rw (e, l.named (api.name p) ∙ e, register) l
  ]
    where
      kind :
          (f : P → Bool) {qs : List P}
          → qs ≡ filter f ps
          → append_if (f p) qs p ≡ filter f (ps ++ p ∷ [])
      kind f {qs} h = rw h (sym (filter-snoc f ps p))

  register_each-Lists :
      (r : Registry P) (ps qs : List P) → Lists r ps → Lists (register_each r qs) (accepted ps qs)
  register_each-Lists r ps [] l = l
  register_each-Lists r ps (q ∷ qs) l =
      register_each-Lists (register api r q).0 (append_new (first_named ps (api.name q)) ps q) qs
        (register-Lists r ps q l)

  first_named-append_new :
      (ps : List P) (q : P) (k : String) (rest : Option P)
      → or_else (first_named (append_new (first_named ps (api.name q)) ps q) k) rest
        ≡ or_else (first_named ps k) (if api.name q == k then some q else rest)
  first_named-append_new ps q k rest = elim (Option-cases (first_named ps (api.name q))) [
    | inl e ↦ rw e (ground (arith, e, first_named-snoc ps q k e, eq_iff (api.name q) k))
    | inr (p, e) ↦ rw e (ground (arith, e, eq_iff (api.name q) k))
  ]

  -- Dropping a plugin whose name is taken changes no lookup.
  first_named-accepted :
      (ps qs : List P) (k : String)
      → first_named (accepted ps qs) k ≡ or_else (first_named ps k) (first_named qs k)
  first_named-accepted ps [] k = ground arith
  first_named-accepted ps (q ∷ qs) k =
      first_named-accepted (append_new (first_named ps (api.name q)) ps q) qs k
      ∙ first_named-append_new ps q k (first_named qs k)

  -- After any calls of `Register` on a new registry, a name stands for the first plugin that was
  -- registered under it, and each kind's list holds the plugins of the kind among those, in the order
  -- of registration.
  register_each-new :
      (qs : List P)
      → ((k : String) → get (register_each new_registry qs).plugins k ≡ first_named qs k)
        × ((register_each new_registry qs).auth ≡ filter api.is_auth (accepted [] qs))
        × ((register_each new_registry qs).audit ≡ filter api.is_audit (accepted [] qs))
        × ((register_each new_registry qs).secrets ≡ filter api.is_secrets (accepted [] qs))
        × ((register_each new_registry qs).policy ≡ filter api.is_policy (accepted [] qs))
  unfolding get
  register_each-new qs =
      let l = register_each-Lists new_registry [] qs empty in
      (λ k. l.named k ∙ first_named-accepted [] qs k, l.auth, l.audit, l.secrets, l.policy)
    where
      empty : Lists new_registry []
      empty = record { named = λ k. refl; auth = refl; audit = refl; secrets = refl; policy = refl }

  -- `Register` on each of its branches: a name that is taken is an error and changes nothing, and any
  -- other is there afterwards, with every other name as it was.
  pub register_lem :
      (r : Registry P) (p : P)
      → ((old : P) × (get r.plugins (api.name p) ≡ some old)
          × (register api r p ≡ (r, err ("plugin " <> api.name p <> " already registered"))))
        ⊎ ((get r.plugins (api.name p) ≡ none)
            × ((register api r p).1 ≡ ok tt)
            × ((k : String)
                → get (register api r p).0.plugins k
                  ≡ (if api.name p == k then some p else get r.plugins k)))
  unfolding register
  register_lem r p = elim (Option-cases (get r.plugins (api.name p))) [
    | inl e ↦ rw (e, register) (inr (refl, refl, λ k. get-put r.plugins (api.name p) k p))
    | inr (old, e) ↦ rw (e, register) (inl (old, refl, refl))
  ]
