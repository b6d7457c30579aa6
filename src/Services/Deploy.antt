-- ===== src/Services/Deploy.antt =====
-- `DeployWebService` of pkg/agent/service/manager.go, and `ObtainCertificate` of
-- plugins/security/acme/plugin.go.
use mandau.Base.{
  ℕ, String, Bool, true, false, some, List, [], ◌∷◌, ◌++◌, Map, if◌then◌else◌, Result, ok, err,
  ◌<>◌, in_context,
}
use mandau.Base.Int.{pos}
use mandau.Core.AgentId.{decimal}
use mandau.Cron.{CronConfig, CronJob, Directory, CronSystem, add_cron_job}
use mandau.Nginx.{
  NginxConfig, NginxSystem, VirtualHost, SslConfig, create_virtual_host, enable_virtual_host,
}
use mandau.Nginx.Proxies.{create_reverse_proxy}
use mandau.Services.{Exec}
use mandau.Services.Firewall.{Backend, allow_port}
use mandau.Services.Systemd.{ServiceUnit, Units, create_service, enable_service, start_service}

pub record AcmeConfig : Type 0 where
  pub email : String
  pub cert_dir : String
  pub provider : String
  pub production : Bool
  pub webroot : String

pub record Certificate : Type 0 where
  pub domain : String
  pub cert_path : String
  pub key_path : String

unfoldable certbot_args : AcmeConfig → String → List String
certbot_args config domain =
    ("certonly" ∷ "--webroot" ∷ "-w" ∷ config.webroot ∷ "-d" ∷ domain ∷ "--email" ∷ config.email
      ∷ "--agree-tos" ∷ "--non-interactive" ∷ [])
    ++ (if config.production then [] else "--staging" ∷ [])

abbrev certified : AcmeConfig → String → Result String → Result Certificate
certified config domain (err e) = err ("certbot failed: " <> e)
certified config domain (ok output) = ok (record {
  domain = domain;
  cert_path = config.cert_dir <> "/" <> domain <> "/fullchain.pem";
  key_path = config.cert_dir <> "/" <> domain <> "/privkey.pem";
})

unfoldable obtain_certificate : Exec → AcmeConfig → String → Result Certificate
unfolding certbot_args
obtain_certificate exec config domain =
    certified config domain
      (exec (record { program = "certbot"; arguments = certbot_args config domain }))

pub record WebServiceConfig : Type 0 where
  pub name : String
  pub description : String
  pub domain : String
  pub port : ℕ
  pub command : String
  pub working_dir : String
  pub user : String
  pub ssl : Bool
  pub environment : Map String

-- The initialised plugins, and what the machine does in the deployment.
pub record ServiceManager : Type 0 where
  pub nginx : NginxConfig
  pub nginx_system : NginxSystem
  pub exec : Exec
  pub create_unit : Result (Unit {0})
  pub write_unit : Result (Unit {0})
  pub firewall : Backend
  pub upper : String → String
  pub cron : CronConfig
  pub cron_system : CronSystem
  pub acme : AcmeConfig

-- The files of the host that a deployment writes.
pub record Host : Type 0 where
  pub units : Units
  pub sites : mandau.Nginx.Disk
  pub cron_jobs : Directory

abbrev pub web_unit : WebServiceConfig → ServiceUnit
web_unit c = record {
  name = c.name;
  description = c.description;
  after = [];
  requires = [];
  unit_type = "";
  user = c.user;
  group = "";
  working_dir = c.working_dir;
  exec_start = c.command;
  exec_stop = "";
  exec_reload = "";
  environment = c.environment;
  restart = "always";
  restart_sec = 10;
  kill_mode = "";
  limit_nofile = 0;
  limit_nproc = 0;
  cpu_quota = "";
  memory_limit = "";
  private_tmp = false;
  protect_system = "";
  protect_home = false;
  no_new_privileges = false;
  read_write_paths = [];
  read_only_paths = [];
  inaccessible_paths = [];
  custom_unit = "";
  custom_service = "";
  custom_install = "";
}

abbrev pub local_url : WebServiceConfig → String
local_url c = "http://127.0.0.1:" <> decimal c.port

abbrev ssl_host : WebServiceConfig → Certificate → VirtualHost
ssl_host c cert = record {
  server_name = c.domain;
  listen = 443;
  root = "";
  index = [];
  locations = [];
  ssl = some (record {
    certificate = cert.cert_path;
    certificate_key = cert.key_path;
    protocols = "TLSv1.2" ∷ "TLSv1.3" ∷ [];
    ciphers = "";
  });
  upstream_name = "";
  proxy_pass = local_url c;
  access_log = "";
  error_log = "";
  custom_config = "";
}

abbrev renewal_job : WebServiceConfig → CronJob
renewal_job c = record {
  name = c.name <> "-cert-renewal";
  schedule = "0 0 * * *";
  command = "certbot renew && nginx -s reload";
  user = "";
  enabled = false;
}

abbrev pub Deploying : Type 0
Deploying = Host × Result (Unit {0})

-- The next step, unless the one before failed: what that did stays done.
infixl 5 ◌>>>◌
abbrev pub ◌>>>◌ : Deploying → (Host → Deploying) → Deploying
(h, ok u) >>> next = next h
(h, err e) >>> next = (h, err e)

module _ (m : ServiceManager) (c : WebServiceConfig) where
  abbrev create_step : Host → Deploying
  create_step h =
      let (units, r) = create_service m.exec m.create_unit m.write_unit h.units (web_unit c) in
      (record h { units = units }, in_context "create service: " r)

  abbrev pub command_step : String → Result (Unit {0}) → Host → Deploying
  command_step what r h = (h, in_context what r)

  abbrev site_step : String → mandau.Nginx.Disk × Result (Unit {0}) → Host → Deploying
  site_step what (sites, r) h = (record h { sites = sites }, in_context what r)

  abbrev ssl_sites : Result Certificate → Host → Deploying
  ssl_sites (err e) h = (h, err ("obtain certificate: " <> e))
  ssl_sites (ok cert) h =
      site_step "create SSL vhost: " (create_virtual_host m.nginx_system h.sites (ssl_host c cert))
        h

  abbrev ssl_step : Bool → Host → Deploying
  ssl_step false h = (h, ok tt)
  ssl_step true h = ssl_sites (obtain_certificate m.exec m.acme c.domain) h

  abbrev cron_step : Bool → Host → Deploying
  cron_step false h = (h, ok tt)
  cron_step true h =
      let (cron_jobs, r) = add_cron_job m.cron m.cron_system h.cron_jobs (renewal_job c) in
      (record h { cron_jobs = cron_jobs }, in_context "add cron job: " r)

  -- The service is created, enabled and started; the site is created and enabled; the ports are
  -- opened, and the certificate and its renewal set up.
  unfoldable pub service_steps : Host → Deploying
  unfolding create_service enable_service start_service
  service_steps h =
      create_step h
      >>> command_step "enable service: " (enable_service m.exec c.name)
      >>> command_step "start service: " (start_service m.exec c.name)

  abbrev pub enable_step : Host → Deploying
  enable_step g =
      site_step "enable nginx vhost: " (enable_virtual_host m.nginx m.nginx_system g.sites c.domain)
        g

  unfoldable pub site_steps : Deploying → Deploying
  unfolding create_reverse_proxy enable_virtual_host decimal
  site_steps d =
      d
      >>> (λ g.
          site_step "create nginx config: "
            (create_reverse_proxy m.nginx_system g.sites c.domain (local_url c) 80) g)
      >>> enable_step

  unfoldable pub open_steps : Deploying → Deploying
  unfolding allow_port obtain_certificate create_virtual_host add_cron_job decimal
  open_steps d =
      d
      >>> command_step "open firewall port 80: "
          (allow_port m.exec m.upper m.firewall (pos 80) "tcp")
      >>> command_step "open firewall port 443: "
          (allow_port m.exec m.upper m.firewall (pos 443) "tcp")
      >>> ssl_step c.ssl
      >>> cron_step c.ssl

  unfoldable pub deploy_web_service : Host → Deploying
  unfolding service_steps site_steps open_steps
  deploy_web_service h = open_steps (site_steps (service_steps h))
