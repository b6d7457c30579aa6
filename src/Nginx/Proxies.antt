-- ===== src/Nginx/Proxies.antt =====
-- `CreateReverseProxy` and `CreateLoadBalancer` of plugins/services/nginx/plugin.go.
use mandau.Base.{
  ℕ, ◌≡◌, ◌≢◌, refl, sym, ap, subst, ◌∙◌, inl, inr, String, Bool, true, false, ◌||◌, Option, none,
  some, List, [], ◌∷◌, Map, get, put, get-put_same, exists, if◌then◌else◌, ◌==◌, Result, ok, err,
  ◌<>◌, in_context, ne→==-false, eq_iff, Bool-cases,
}
use mandau.Nginx.{
  NginxConfig, VirtualHost, LocationBlock, ServerBlock, SiteFile, whole, Disk, NginxSystem, Reading,
  reading, enabled_sites, render, test_config, with_site, tested, executed, created,
  create_virtual_host, Upstream, reload, reload_if, proxy_headers, enable_virtual_host, enabled_of,
  linked, unlinked,
}
use mandau.Nginx.Sites.{NotEnabled, enabled_sites-put}

abbrev pub reverse_proxy_host : String → String → ℕ → VirtualHost
reverse_proxy_host server_name upstream port = record {
  server_name = server_name;
  listen = port;
  root = "";
  index = [];
  locations =
      record {
        path = "/";
        proxy_pass = upstream;
        root = "";
        try_files = [];
        headers = proxy_headers;
      }
      ∷ [];
  ssl = none;
  upstream_name = "";
  proxy_pass = upstream;
  access_log = "";
  error_log = "";
  custom_config = "";
}

unfoldable pub create_reverse_proxy :
    NginxSystem → Disk → String → String → ℕ → Disk × Result (Unit {0})
unfolding create_virtual_host
create_reverse_proxy os disk server_name upstream port =
    create_virtual_host os disk (reverse_proxy_host server_name upstream port)

abbrev with_upstream : Disk → String → Option Upstream → Disk
with_upstream disk name u = record disk { upstreams = put disk.upstreams name u }

abbrev balanced :
    NginxConfig
    → NginxSystem
    → Disk
    → Upstream
    → Result (Unit {0})
    → Result (Unit {0})
    → Disk × Result (Unit {0})
balanced config os disk u (err e) executes = (disk, err ("create upstream: " <> e))
balanced config os disk u (ok tt') (err e) =
    (with_upstream disk u.name none, err ("execute template: " <> e))
balanced config os disk u (ok tt') (ok tt'') =
    let disk' : Disk = with_upstream disk u.name (some u) in
    (disk', reload_if config.auto_reload os disk')

unfoldable create_load_balancer :
    NginxConfig → NginxSystem → Disk → String → List String → String → Disk × Result (Unit {0})
unfolding reload
create_load_balancer config os disk name backends algorithm =
    balanced config os disk (record { name = name; backends = backends; algorithm = algorithm })
      os.create os.execute

-- Two locations have the same path.
abbrev pub repeats : List LocationBlock → Bool
repeats [] = false
repeats (l ∷ ls) = exists (λ m. m.path == l.path) ls || repeats ls

-- nginx does not load a site that has two locations of the same path.
abbrev pub RefusesRepeated : NginxSystem → Type 0
RefusesRepeated os =
    (r : Reading) (name : String) (b : ServerBlock)
    → get r.0 name ≡ some (some (whole b))
    → repeats b.locations ≡ true
    → (e : String) × (os.reload r ≡ err e)

proxy-repeats :
    (server_name upstream : String) (port : ℕ)
    → upstream ≢ ""
    → repeats (render (reverse_proxy_host server_name upstream port)).locations ≡ true
unfolding render
proxy-repeats server_name upstream port n = rw (ne→==-false upstream "" n) refl

get-enabled_sites :
    (available : Map SiteFile) (enabled : Map (Unit {0})) (name : String)
    → get enabled name ≡ some tt
    → get (enabled_sites available enabled) name ≡ some (get available name)
unfolding get
get-enabled_sites available [] name h = cc
get-enabled_sites available ((n, u) ∷ enabled) name h = elim (Bool-cases (n == name)) [
  | inl e ↦ rw e (ap (λ m. some (get available m)) ((eq_iff n name).0 e))
  | inr e ↦ rw e (
      get-enabled_sites available enabled name
        (sym (ap (λ b. if b then some u else get enabled name) e) ∙ h))
]

create_virtual_host-done :
    (os : NginxSystem) (disk : Disk) (v : VirtualHost)
    → os.create ≡ ok tt
    → os.execute ≡ ok tt
    → os.test (reading disk) ≡ ok tt
    → NotEnabled disk.enabled v.server_name
    → create_virtual_host os disk v ≡ (with_site disk v.server_name (whole (render v)), ok tt)
unfolding create_virtual_host test_config
create_virtual_host-done os disk v c x t n =
    let after : Disk = with_site disk v.server_name (whole (render v)) in
    ap (created os disk v) c
    ∙ ap (executed os disk v) x
    ∙ ap
        (λ s.
          tested os after v.server_name (in_context "test failed: " (os.test (s, disk.upstreams))))
        (enabled_sites-put disk.available disk.enabled v.server_name (whole (render v)) n)
    ∙ ap (λ o. tested os after v.server_name (in_context "test failed: " o)) t

enable-done :
    (config : NginxConfig) (os : NginxSystem) (disk : Disk) (name : String) (file : SiteFile)
    → os.symlink ≡ ok tt
    → get disk.available name ≡ some file
    → let disk' : Disk = record disk { enabled = put (unlinked os disk name) name tt } in
      enable_virtual_host config os disk name ≡ (disk', reload_if config.auto_reload os disk')
unfolding enable_virtual_host
enable-done config os disk name file l g =
    ap (enabled_of config os disk name) g ∙ ap (linked config os disk name) l

-- A reverse proxy for a new site is created without an error, but when it is enabled the reload
-- fails, and it is enabled all the same: the configuration has the location `/` twice. This is for
-- an nginx that accepts the sites there were before and refuses a site with a location given twice.
pub create_reverse_proxy-enable :
    (config : NginxConfig) (os : NginxSystem) (disk : Disk) (name upstream : String) (port : ℕ)
    → os.create ≡ ok tt
    → os.execute ≡ ok tt
    → os.symlink ≡ ok tt
    → os.test (reading disk) ≡ ok tt
    → config.auto_reload ≡ true
    → NotEnabled disk.enabled name
    → upstream ≢ ""
    → RefusesRepeated os
    → let s = create_reverse_proxy os disk name upstream port in
      let t = enable_virtual_host config os s.0 name in
      (s.1 ≡ ok tt)
      × ((e : String) × (t.1 ≡ err ("reload failed: " <> e)))
      × (get t.0.enabled name ≡ some tt)
unfolding create_reverse_proxy reload
create_reverse_proxy-enable config os disk name upstream port c x l t a n u r =
    let host : VirtualHost = reverse_proxy_host name upstream port in
    let site : SiteFile = whole (render host) in
    let made : Disk = with_site disk name site in
    let after : Disk = record made { enabled = put (unlinked os made name) name tt } in
    let there : get after.available name ≡ some site = get-put_same disk.available name site in
    let on : get after.enabled name ≡ some tt = get-put_same (unlinked os made name) name tt in
    let (e, refused) =
      r (reading after) name (render host)
        (get-enabled_sites after.available after.enabled name on ∙ ap some there)
        (proxy-repeats name upstream port u) in
    let first : create_reverse_proxy os disk name upstream port ≡ (made, ok tt) =
      create_virtual_host-done os disk host c x t n in
    let second : enable_virtual_host config os made name ≡ (after, err ("reload failed: " <> e)) =
      enable-done config os made name site l there
      ∙ ap (λ b. (after, reload_if b os after)) a
      ∙ ap (λ o. (after, in_context "reload failed: " o)) refused in
    subst
      (λ s.
        let t = enable_virtual_host config os s.0 name in
        (s.1 ≡ ok tt)
        × ((e : String) × (t.1 ≡ err ("reload failed: " <> e)))
        × (get t.0.enabled name ≡ some tt))
      (sym first)
      (subst
        (λ t.
          (◌≡◌ {A = Result (Unit {0})} (ok tt) (ok tt))
          × ((e : String) × (t.1 ≡ err ("reload failed: " <> e)))
          × (get t.0.enabled name ≡ some tt))
        (sym second) (refl, (e, refl), on))
