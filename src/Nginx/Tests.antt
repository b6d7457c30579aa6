-- ===== src/Nginx/Tests.antt =====
-- The theorems on nginx's sites at a machine with one site or none.
use mandau.Base.{◌≡◌, refl, String, none, some, [], ◌∷◌, get, put, ok, err, ◌<>◌}
use mandau.Nginx.{
  VirtualHost, whole, Disk, init_nginx, create_virtual_host, enable_virtual_host, render,
}
use mandau.Nginx.Sites.{create_virtual_host-refused, create_virtual_host-untested}
use mandau.Nginx.Proxies.{create_reverse_proxy, create_reverse_proxy-enable, reverse_proxy_host}
use mandau.Nginx.Strict.{empty, strict, strict-RefusesRepeated}

create_reverse_proxy-enable_example :
    let s = create_reverse_proxy strict empty "web" "http://localhost:3000" 80 in
    let t = enable_virtual_host (init_nginx []) strict s.0 "web" in
    (s.1 ≡ ok tt)
    × ((e : String) × (t.1 ≡ err ("reload failed: " <> e)))
    × (get t.0.enabled "web" ≡ some tt)
unfolding init_nginx
create_reverse_proxy-enable_example =
    create_reverse_proxy-enable (init_nginx []) strict empty "web" "http://localhost:3000" 80 refl
      refl refl refl refl tt (λ e. cc e) strict-RefusesRepeated

abbrev proxy : VirtualHost
proxy = reverse_proxy_host "web" "http://localhost:3000" 80

abbrev plain : VirtualHost
plain = reverse_proxy_host "web" "" 80

-- A site that has been enabled.
abbrev serving : Disk
serving = record {
  available = ("web", whole (render plain)) ∷ [];
  enabled = ("web", tt) ∷ [];
  upstreams = [];
}

create_virtual_host-refused_example :
    (get (create_virtual_host strict serving proxy).0.available "web" ≡ none)
    × ((create_virtual_host strict serving proxy).0.enabled ≡ ("web", tt) ∷ [])
    × ((create_virtual_host strict serving proxy).1
        ≡ err ("invalid config: " <> "test failed: " <> "duplicate location"))
unfolding get put render
create_virtual_host-refused_example =
    create_virtual_host-refused strict serving proxy "duplicate location" refl refl refl refl

create_virtual_host-untested_example :
    (create_virtual_host strict empty proxy).1 ≡ (create_virtual_host strict empty plain).1
create_virtual_host-untested_example = create_virtual_host-untested strict empty proxy plain refl tt
