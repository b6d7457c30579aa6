-- ===== src/Nginx/Sites.antt =====
-- What becomes of one site in plugins/services/nginx/plugin.go.
use mandau.Base.{
  ◌≡◌, ◌≢◌, refl, sym, ap, subst, ◌∙◌, String, none, [], ◌∷◌, Map, get, put, delete, get-put,
  get-put_same, get-delete, keys, All, ne→==-false, Result, ok, err, ◌<>◌, in_context, eq_refl,
}
use mandau.Nginx.{
  VirtualHost, SiteFile, whole, Disk, NginxSystem, reading, enabled_sites, render, test_config,
  with_site, tested, executed, created, create_virtual_host, removing, without,
}

abbrev pub NotEnabled : Map (Unit {0}) → String → Type 0
NotEnabled enabled name = All (λ n. n ≢ name) (keys enabled)

-- What nginx reads does not depend on the file of a site that is not enabled.
pub enabled_sites-put :
    (available : Map SiteFile) (enabled : Map (Unit {0})) (name : String) (file : SiteFile)
    → NotEnabled enabled name
    → enabled_sites (put available name file) enabled ≡ enabled_sites available enabled
enabled_sites-put available [] name file h = refl
enabled_sites-put available ((n, u) ∷ enabled) name file h =
    rw (get-put available name n file, ne→==-false name n λ e. h.0 (sym e))
      (ap (λ s. (n, get available n) ∷ s) (enabled_sites-put available enabled name file h.1))

outcome_of_test :
    (os : NginxSystem) (disk : Disk) (name : String) (r : Result (Unit {0}))
    → (tested os disk name r).1 ≡ in_context "invalid config: " r
outcome_of_test os disk name (ok u) = refl
outcome_of_test os disk name (err e) = refl

-- If nginx refuses what it reads once the new file is there, then the outcome is the error and no
-- file of that site is left, also if the site had a valid one before; if it was enabled, the link
-- stays.
pub create_virtual_host-refused :
    (os : NginxSystem) (disk : Disk) (v : VirtualHost) (e : String)
    → os.create ≡ ok tt
    → os.execute ≡ ok tt
    → os.remove ≡ ok tt
    → os.test (reading (with_site disk v.server_name (whole (render v)))) ≡ err e
    → (get (create_virtual_host os disk v).0.available v.server_name ≡ none)
      × ((create_virtual_host os disk v).0.enabled ≡ disk.enabled)
      × ((create_virtual_host os disk v).1 ≡ err ("invalid config: " <> "test failed: " <> e))
unfolding create_virtual_host test_config
create_virtual_host-refused os disk v e c x r t = subst Refused (sym known) (
  rw (get-delete after.available v.server_name v.server_name, eq_refl v.server_name) refl,
  refl,
  refl,
)
  where
    after : Disk
    after = with_site disk v.server_name (whole (render v))

    Refused : Disk × Result (Unit {0}) → Type 0
    Refused s =
        (get s.0.available v.server_name ≡ none)
        × (s.0.enabled ≡ disk.enabled)
        × (s.1 ≡ err ("invalid config: " <> "test failed: " <> e))

    known : create_virtual_host os disk v ≡ (
      record after { available = delete after.available v.server_name },
      err ("invalid config: " <> "test failed: " <> e),
    )
    known =
        ap (created os disk v) c
        ∙ ap (executed os disk v) x
        ∙ ap (λ o. tested os after v.server_name (in_context "test failed: " o)) t
        ∙ ap
            (λ o. (
              record after { available = without after.available v.server_name (removing os o) },
              err ("invalid config: " <> "test failed: " <> e),
            ))
            (get-put_same disk.available v.server_name (whole (render v)))
        ∙ ap
            (λ o. (
              record after { available = without after.available v.server_name o },
              err ("invalid config: " <> "test failed: " <> e),
            ))
            r

-- The test that `CreateVirtualHost` makes says nothing of a site that is not enabled: whatever two
-- virtual hosts of that name are, the outcome is the same.
pub create_virtual_host-untested :
    (os : NginxSystem) (disk : Disk) (v w : VirtualHost)
    → v.server_name ≡ w.server_name
    → NotEnabled disk.enabled v.server_name
    → (create_virtual_host os disk v).1 ≡ (create_virtual_host os disk w).1
unfolding create_virtual_host test_config
create_virtual_host-untested os disk v w e n = same os.create
  where
    outcome :
        (u : VirtualHost)
        → NotEnabled disk.enabled u.server_name
        → (executed os disk u (ok tt)).1 ≡ in_context "invalid config: " (test_config os disk)
    outcome u m =
        outcome_of_test os (with_site disk u.server_name (whole (render u))) u.server_name
          (test_config os (with_site disk u.server_name (whole (render u))))
        ∙ ap
            (λ s.
              in_context "invalid config: "
                (in_context "test failed: " (os.test (s, disk.upstreams))))
            (enabled_sites-put disk.available disk.enabled u.server_name (whole (render u)) m)

    same_executed : (r : Result (Unit {0})) → (executed os disk v r).1 ≡ (executed os disk w r).1
    same_executed (err x) = refl
    same_executed (ok u) = outcome v n ∙ sym (outcome w (subst (NotEnabled disk.enabled) e n))

    same : (r : Result (Unit {0})) → (created os disk v r).1 ≡ (created os disk w r).1
    same (err x) = refl
    same (ok u) = same_executed os.execute
