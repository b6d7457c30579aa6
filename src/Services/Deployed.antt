-- ===== src/Services/Deployed.antt =====
-- What `DeployWebService` of pkg/agent/service/manager.go comes to on a host with nginx.
use Prim.Native.String.{count}
use text.Mathlib.TextLemmas.{length-append}
use mandau.Base.{
  ◌≡◌, ◌≢◌, refl, sym, ap, subst, ◌∙◌, String, true, some, [], ◌∷◌, get, put, get-put_same, Result,
  ok, err, ◌<>◌, in_context, arith,
}
use mandau.Core.AgentId.{decimal}
use mandau.Nginx.{reading, enable_virtual_host}
use mandau.Nginx.Sites.{NotEnabled}
use mandau.Nginx.Proxies.{RefusesRepeated, create_reverse_proxy, create_reverse_proxy-enable}
use mandau.Services.Firewall.{ended}
use mandau.Services.Systemd.{
  render_unit, create_service, unit_written, daemon_reload, enable_service, start_service,
  systemctl, Units,
}
use mandau.Services.Deploy.{
  ServiceManager, WebServiceConfig, Host, Deploying, web_unit, local_url, deploy_web_service, ◌>>>◌,
  service_steps, site_steps, open_steps, enable_step, command_step,
}

local_url-ne : (c : WebServiceConfig) → local_url c ≢ ""
local_url-ne c e = omega (arith, ap count e, length-append "http://127.0.0.1:" (decimal c.port))

-- The host when the service has been created.
abbrev with_unit : WebServiceConfig → Host → Host
with_unit c h = record h { units = put h.units c.name (some (render_unit (web_unit c))) }

abbrev started : ServiceManager → WebServiceConfig → Host → Result String → Deploying
started m c h r =
    (with_unit c h, in_context "start service: " (in_context "start failed: " (ended r)))

-- The service is created and enabled, if the commands for it end well, and how it starts is how the
-- command for that ends.
service_steps-enabled :
    (m : ServiceManager) (c : WebServiceConfig) (h : Host) (o o' : String)
    → m.create_unit ≡ ok tt
    → m.write_unit ≡ ok tt
    → m.exec (systemctl ("daemon-reload" ∷ [])) ≡ ok o
    → m.exec (systemctl ("enable" ∷ c.name ∷ [])) ≡ ok o'
    → service_steps m c h ≡ started m c h (m.exec (systemctl ("start" ∷ c.name ∷ [])))
unfolding service_steps create_service daemon_reload enable_service start_service
service_steps-enabled m c h o o' cu wu dr en =
    ap (λ r. after (unit_written m.exec h.units (web_unit c) r m.write_unit)) cu
    ∙ ap (λ r. after (unit_written m.exec h.units (web_unit c) (ok tt) r)) wu
    ∙ ap
        (λ r. after (
          put h.units c.name (some (render_unit (web_unit c))),
          in_context "daemon-reload failed: " (ended r),
        ))
        dr
    ∙ ap
        (λ r.
          (with_unit c h, in_context "enable service: " (in_context "enable failed: " (ended r)))
          >>> start)
        en
  where
    start : Host → Deploying
    start = command_step m c "start service: " (start_service m.exec c.name)

    after : Units × Result (Unit {0}) → Deploying
    after (units, r) =
        (record h { units = units }, in_context "create service: " r)
        >>> command_step m c "enable service: " (enable_service m.exec c.name)
        >>> start

site_steps-refused :
    (m : ServiceManager) (c : WebServiceConfig) (h : Host) (e : String)
    → (create_reverse_proxy m.nginx_system h.sites c.domain (local_url c) 80).1 ≡ ok tt
    → (enable_virtual_host m.nginx m.nginx_system
        (create_reverse_proxy m.nginx_system h.sites c.domain (local_url c) 80).0
        c.domain).1
      ≡ err e
    → site_steps m c (h, ok tt) ≡ (
      record h {
        sites =
            (enable_virtual_host m.nginx m.nginx_system
              (create_reverse_proxy m.nginx_system h.sites c.domain (local_url c) 80).0
              c.domain).0;
      },
      err ("enable nginx vhost: " <> e),
    )
unfolding site_steps
site_steps-refused m c h e made refused =
    let s : mandau.Nginx.Disk × Result (Unit {0}) =
      create_reverse_proxy m.nginx_system h.sites c.domain (local_url c) 80 in
    let t : mandau.Nginx.Disk × Result (Unit {0}) =
      enable_virtual_host m.nginx m.nginx_system s.0 c.domain in
    ap (λ r. (record h { sites = s.0 }, in_context "create nginx config: " r) >>> enable_step m c)
      made
    ∙ ap (λ r. (record h { sites = t.0 }, in_context "enable nginx vhost: " r)) refused

-- What a deployment comes to that could create and enable its service, by how the command that starts
-- it ends. If it fails, the deployment ends there, and no site has changed; if it ends well, nginx
-- refuses the new site, which stays enabled. Either way the unit is there and no renewal is set up.
abbrev pub Unserved : WebServiceConfig → Host → Deploying → Result String → Type 0
Unserved c h d (err e) =
    (d.1 ≡ err ("start service: " <> "start failed: " <> e))
    × (get d.0.units c.name ≡ some (some (render_unit (web_unit c))))
    × (d.0.sites ≡ h.sites)
    × (d.0.cron_jobs ≡ h.cron_jobs)
Unserved c h d (ok output) =
    ((e : String) × (d.1 ≡ err ("enable nginx vhost: " <> "reload failed: " <> e)))
    × (get d.0.units c.name ≡ some (some (render_unit (web_unit c))))
    × (get d.0.sites.enabled c.domain ≡ some tt)
    × (d.0.cron_jobs ≡ h.cron_jobs)

-- On a machine on which files are written, the unit can be created and enabled, and an nginx that is
-- reloaded accepts the sites there were but loads no site that gives a location twice, the deployment of
-- a web service for a domain that is not served yet always fails. If the service does not start, that
-- is the error, and the sites are left as they were. If it starts, the error comes when nginx is to load
-- the new site, which gives the location `/` twice, and the site stays enabled. In both cases the unit
-- file stays, and no renewal is set up.
pub deploy_web_service-refused :
    (m : ServiceManager) (c : WebServiceConfig) (h : Host) (o o' : String)
    → m.create_unit ≡ ok tt
    → m.write_unit ≡ ok tt
    → m.exec (systemctl ("daemon-reload" ∷ [])) ≡ ok o
    → m.exec (systemctl ("enable" ∷ c.name ∷ [])) ≡ ok o'
    → m.nginx_system.create ≡ ok tt
    → m.nginx_system.execute ≡ ok tt
    → m.nginx_system.symlink ≡ ok tt
    → m.nginx_system.test (reading h.sites) ≡ ok tt
    → m.nginx.auto_reload ≡ true
    → NotEnabled h.sites.enabled c.domain
    → RefusesRepeated m.nginx_system
    → Unserved c h (deploy_web_service m c h) (m.exec (systemctl ("start" ∷ c.name ∷ [])))
unfolding deploy_web_service site_steps open_steps
deploy_web_service-refused m c h o o' cu wu dr sv nc ne ns nt ar en rr =
    subst (λ d. Unserved c h (open_steps m c (site_steps m c d)) start)
      (sym (service_steps-enabled m c h o o' cu wu dr sv)) (by_start start)
  where
    start : Result String
    start = m.exec (systemctl ("start" ∷ c.name ∷ []))

    stays : get (with_unit c h).units c.name ≡ some (some (render_unit (web_unit c)))
    stays = get-put_same h.units c.name (some (render_unit (web_unit c)))

    by_start :
        (r : Result String) → Unserved c h (open_steps m c (site_steps m c (started m c h r))) r
    by_start (err e) = (refl, stays, refl, refl)
    by_start (ok output) =
        let (made, (e, refused), on) =
          create_reverse_proxy-enable m.nginx m.nginx_system h.sites c.domain (local_url c) 80 nc ne
            ns nt ar en (local_url-ne c) rr in
        subst (λ d. Unserved c h (open_steps m c d) (ok output))
          (sym (site_steps-refused m c (with_unit c h) ("reload failed: " <> e) made refused))
          ((e, refl), stays, on, refl)
