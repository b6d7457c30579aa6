-- ===== src/Stack/Pulls.antt =====
-- When `pullImages` of pkg/agent/stack/manager.go works.
use mandau.Base.{
  ◌⊎◌, inl, inr, All, ◌↔◌, ◌==◌, eq_iff, Bool-cases, refl, false, ◌≡◌, refl, sym, ◌∙◌, ◌⊎◌, false,
  List, [], ◌∷◌, Result, ok, err, ◌>>=◌,
}
use mandau.Stack.{Service}
use mandau.Stack.Execution.{Machine, pull_images}

-- The service builds its image itself, or its image can be pulled.
abbrev Pulled : Machine → Service → Type 0
Pulled machine s = (s.image ≡ "") ⊎ (machine.image_pull s.image ≡ ok tt)

bind_iff : (r k : Result (Unit {0})) → ((r >>= λ _. k) ≡ ok tt) ↔ ((r ≡ ok tt) × (k ≡ ok tt))
bind_iff (ok u) k = (λ h. (refl, h), λ h. h.1)
bind_iff (err e) k = (λ h. cc, λ h. cc (h.0))

-- Pulling the images of a project works if and only if each service has no image or its image can be
-- pulled.
pull_images_iff :
    (machine : Machine) (services : List Service)
    → (pull_images machine services ≡ ok tt) ↔ All (Pulled machine) services
unfolding pull_images
pull_images_iff machine [] = (λ h. tt, λ h. refl)
pull_images_iff machine (s ∷ ss) =
    let (f, g) = pull_images_iff machine ss in
    let (f', g') = bind_iff (machine.image_pull s.image) (pull_images machine ss) in
    elim (Bool-cases (s.image == "")) [
      | inl e ↦ rw e (λ h. (inl ((eq_iff s.image "").0 e), f h), λ (p, a). g a)
      | inr e ↦ rw e (λ h. (inr (f' h).0, f (f' h).1), λ (p, a). g' (pulled_of e p, g a))
    ]
  where
    pulled_of : (s.image == "") ≡ false → Pulled machine s → machine.image_pull s.image ≡ ok tt
    pulled_of e (inl q) = cc (sym e ∙ (eq_iff s.image "").1 q)
    pulled_of e (inr q) = q
