-- ===== src/Stack/Changes.antt =====
-- What `computeDiff` of pkg/agent/stack/manager.go lists.
use mandau.Base.{
  ◌≡◌, ◌≢◌, ◌↔◌, ◌⊎◌, refl, sym, ap, ◌∙◌, String, true, false, Option, none, some, List, [], ◌∷◌,
  ◌++◌, arith, eq_iff, length, All, All-append, All-map_of, Any, Any-map_of, inl, inr, Map, get,
}
use mandau.Stack.{Service, Project}
use mandau.Stack.Diff.{
  DiffAction, nothing, create, update, delete, ServiceDiff, DiffResult, compare_services, index,
  add_change, add_update, diff_service, delete_if, diff_new, diff_deleted, compute_diff,
}

-- `compareServices` sees the image, and of the ports and the environment only how many there are.
compare_services_iff :
    (s t : Service)
    → (compare_services s t ≡ []) ↔ (
        (s.image ≡ t.image)
        × (length s.ports ≡ length t.ports)
        × (length s.environment ≡ length t.environment))
unfolding compare_services
compare_services_iff s t = ground (arith, eq_iff s.image t.image)

abbrev Listed : String → Map Service → Type 0
Listed name m = Any (λ e. e.0 ≡ name) m

-- What an entry of the diff says is so.
abbrev Right : Map Service → Map Service → ServiceDiff → Type 0
Right current new d = elim d.action [
  | nothing ↦ ⊥
  | create ↦ Listed d.name new × (get current d.name ≡ none)
  | update ↦
      (s : Service) × (t : Service) × Any (λ e. e ≡ (d.name, t)) new
      × (get current d.name ≡ some s)
      × (d.changes ≡ compare_services s t)
      × (d.changes ≢ [])
  | delete ↦ Listed d.name current × (get new d.name ≡ none)
]

-- The flag is set if and only if something is listed.
abbrev Flagged : DiffResult → Type 0
Flagged r =
    ((r.has_changes ≡ true) × (r.services ≢ [])) ⊎ ((r.has_changes ≡ false) × (r.services ≡ []))

abbrev Good : Map Service → Map Service → DiffResult → Type 0
Good current new r = Flagged r × All (Right current new) r.services

snoc-ne : (xs : List ServiceDiff) (x : ServiceDiff) → xs ++ x ∷ [] ≢ []
snoc-ne [] x e = cc
snoc-ne (y ∷ xs) x e = cc

add_change-Good :
    (current new : Map Service) (r : DiffResult) (name : String) (a : DiffAction) (cs : List String)
    → Right current new (record { name = name; action = a; changes = cs })
    → Good current new r
    → Good current new (add_change r name a cs)
add_change-Good current new r name a cs d g =
    (inl (refl, snoc-ne r.services _), All-append (Right current new) r.services _ g.1 (d, tt))

add_update-Good :
    (current new : Map Service) (r : DiffResult) (name : String) (s t : Service) (cs : List String)
    → Any (λ e. e ≡ (name, t)) new
    → get current name ≡ some s
    → cs ≡ compare_services s t
    → Good current new r
    → Good current new (add_update r name cs)
add_update-Good current new r name s t [] l h c g = g
add_update-Good current new r name s t (c ∷ cs) l h e g =
    add_change-Good current new r name update (c ∷ cs) (s, t, l, h, e, λ n. cc) g

diff_service-Good :
    (current new : Map Service) (r : DiffResult) (name : String) (t : Service) (o : Option Service)
    → Any (λ e. e ≡ (name, t)) new
    → get current name ≡ o
    → Good current new r
    → Good current new (diff_service r name t o)
diff_service-Good current new r name t none l h g =
    add_change-Good current new r name create [] (Any-map_of _ _ new (λ e q. ap (λ x. x.0) q) l, h)
      g
diff_service-Good current new r name t (some s) l h g =
    add_update-Good current new r name s t (compare_services s t) l h refl g

diff_new-Good :
    (current new rest : Map Service) (r : DiffResult)
    → All (λ e. Any (λ f. f ≡ e) new) rest
    → Good current new r
    → Good current new (diff_new rest current r)
diff_new-Good current new [] r a g = g
diff_new-Good current new ((name, t) ∷ rest) r a g =
    diff_new-Good current new rest (diff_service r name t (get current name)) a.1
      (diff_service-Good current new r name t (get current name) a.0 refl g)

delete_if-Good :
    (current new : Map Service) (r : DiffResult) (name : String) (o : Option Service)
    → Listed name current
    → get new name ≡ o
    → Good current new r
    → Good current new (delete_if r name o)
delete_if-Good current new r name none l h g = add_change-Good current new r name delete [] (l, h) g
delete_if-Good current new r name (some s) l h g = g

diff_deleted-Good :
    (current new rest : Map Service) (r : DiffResult)
    → All (λ e. Any (λ f. f ≡ e) current) rest
    → Good current new r
    → Good current new (diff_deleted rest new r)
diff_deleted-Good current new [] r a g = g
diff_deleted-Good current new ((name, s) ∷ rest) r a g =
    diff_deleted-Good current new rest (delete_if r name (get new name)) a.1 (
      delete_if-Good current new r name (get new name)
        (Any-map_of _ _ current (λ e q. ap (λ x. x.0) q) a.0) refl g)

members : (m : Map Service) → All (λ e. Any (λ f. f ≡ e) m) m
members [] = tt
members (x ∷ m) = (inl refl, All-map_of _ _ m (λ e a. inr a) (members m))

-- Every entry that `computeDiff` lists is right: a created service is in the new project only, a
-- deleted one in the current project only, and an updated one in both with the changes that
-- `compareServices` finds, at least one; and the flag is set if and only if something is listed.
compute_diff-Right :
    (current new : Project)
    → All (Right (index current) (index new)) (compute_diff current new).services
      × (((compute_diff current new).has_changes ≡ true)
          ↔ ((compute_diff current new).services ≢ []))
unfolding compute_diff
compute_diff-Right current new = (good.1, flag good.0)
  where
    good : Good (index current) (index new) (compute_diff current new)
    good =
        diff_deleted-Good (index current) (index new) (index current) _ (members (index current)) (
          diff_new-Good (index current) (index new) (index new) _ (members (index new))
            (inr (refl, refl), tt))

    flag :
        Flagged (compute_diff current new)
        → ((compute_diff current new).has_changes ≡ true)
          ↔ ((compute_diff current new).services ≢ [])
    flag (inl (e, n)) = (λ h. n, λ h. e)
    flag (inr (e, n)) = (λ h. cc (sym e ∙ h), λ h. absurd (h n))

-- A new service that the diff passes over, in terms of `compareServices`.
abbrev Passed : Map Service → String × Service → Type 0
Passed current e = (s : Service) × (get current e.0 ≡ some s) × (compare_services s e.1 ≡ [])

add_update_iff :
    (r : DiffResult) (name : String) (cs : List String)
    → ((add_update r name cs).has_changes ≡ false) ↔ ((r.has_changes ≡ false) × (cs ≡ []))
add_update_iff r name [] = (λ h. (h, refl), λ h. h.0)
add_update_iff r name (c ∷ cs) = (λ h. cc, λ h. cc (h.1))

diff_service_iff :
    (current : Map Service) (r : DiffResult) (name : String) (t : Service) (o : Option Service)
    → get current name ≡ o
    → ((diff_service r name t o).has_changes ≡ false)
      ↔ ((r.has_changes ≡ false) × Passed current (name, t))
diff_service_iff current r name t none e = (λ h. cc, λ (h, (s, g, c)). cc (sym e ∙ g))
diff_service_iff current r name t (some s) e =
    let (f, g) = add_update_iff r name (compare_services s t) in
    (
      λ h. ((f h).0, (s, e, (f h).1)),
      λ (h, (s', e', c)).
          let same : s ≡ s' = cc (sym e ∙ e') in g (h, ap (λ x. compare_services x t) same ∙ c),
    )

diff_new_iff :
    (current rest : Map Service) (r : DiffResult)
    → ((diff_new rest current r).has_changes ≡ false)
      ↔ ((r.has_changes ≡ false) × All (Passed current) rest)
diff_new_iff current [] r = (λ h. (h, tt), λ h. h.0)
diff_new_iff current ((name, t) ∷ rest) r =
    let (f, g) = diff_new_iff current rest (diff_service r name t (get current name)) in
    let (f', g') = diff_service_iff current r name t (get current name) refl in
    (λ h. ((f' (f h).0).0, ((f' (f h).0).1, (f h).1)), λ (h, (k, a)). g (g' (h, k), a))

delete_if_iff :
    (r : DiffResult) (name : String) (o : Option Service)
    → ((delete_if r name o).has_changes ≡ false) ↔ ((r.has_changes ≡ false) × (o ≢ none))
delete_if_iff r name none = (λ h. cc, λ h. absurd (h.1 refl))
delete_if_iff r name (some s) = (λ h. (h, λ e. cc), λ h. h.0)

diff_deleted_iff :
    (new rest : Map Service) (r : DiffResult)
    → ((diff_deleted rest new r).has_changes ≡ false)
      ↔ ((r.has_changes ≡ false) × All (λ e. get new e.0 ≢ none) rest)
diff_deleted_iff new [] r = (λ h. (h, tt), λ h. h.0)
diff_deleted_iff new ((name, t) ∷ rest) r =
    let (f, g) = diff_deleted_iff new rest (delete_if r name (get new name)) in
    let (f', g') = delete_if_iff r name (get new name) in
    (λ h. ((f' (f h).0).0, ((f' (f h).0).1, (f h).1)), λ (h, (k, a)). g (g' (h, k), a))

-- The current project has a service of that name with the same image, as many ports, and as many
-- environment entries.
abbrev pub Kept : Map Service → String × Service → Type 0
Kept current e =
    (s : Service) × (get current e.0 ≡ some s)
    × (s.image ≡ e.1.image)
    × (length s.ports ≡ length e.1.ports)
    × (length s.environment ≡ length e.1.environment)

Passed-Kept : (current m : Map Service) → All (Passed current) m ↔ All (Kept current) m
Passed-Kept current m = (
  All-map_of _ _ m
      (λ e (s, g, c). let (i, p, v) = (compare_services_iff s e.1).0 c in (s, g, i, p, v)),
  All-map_of _ _ m (λ e (s, g, i, p, v). (s, g, (compare_services_iff s e.1).1 (i, p, v))),
)

-- `computeDiff` finds no change if and only if the current project has every new service, with the
-- same image and as many ports and environment entries, and the new project every current one.
pub compute_diff_iff :
    (current new : Project)
    → ((compute_diff current new).has_changes ≡ false) ↔ (
        All (Kept (index current)) (index new)
        × All (λ e. get (index new) e.0 ≢ none) (index current))
unfolding compute_diff
compute_diff_iff current new =
    let (f, g) = diff_deleted_iff (index new) (index current) _ in
    let (f', g') = diff_new_iff (index current) (index new) _ in
    let (to, back) = Passed-Kept (index current) (index new) in
    (λ h. (to (f' (f h).0).1, (f h).1), λ (k, a). g (g' (refl, back k), a))
