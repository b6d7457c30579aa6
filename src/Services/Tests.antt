-- ===== src/Services/Tests.antt =====
-- A deployment on a machine on which all goes well.
use mandau.Base.{refl, true, false, [], ok, ◌<>◌}
use mandau.Nginx.{init_nginx}
use mandau.Nginx.Strict.{empty, strict, strict-RefusesRepeated}
use mandau.Services.Firewall.{ufw}
use mandau.Services.Deploy.{ServiceManager, WebServiceConfig, Host, deploy_web_service}
use mandau.Services.Deployed.{Unserved, deploy_web_service-refused}

abbrev manager : ServiceManager
manager = record {
  nginx = init_nginx [];
  nginx_system = strict;
  exec = λ command. ok "";
  create_unit = ok tt;
  write_unit = ok tt;
  firewall = ufw;
  upper = λ s. s;
  cron = record { cron_dir = "/etc/cron.d"; user = "root" };
  cron_system = record {
    join = λ dir file. dir <> "/" <> file;
    base = λ file. file;
    glob = λ pattern dir. ok [];
    write_file = ok tt;
    after_failure = λ dir. dir;
    remove = ok tt;
    read_file = λ file. ok tt;
  };
  acme = record {
    email = "";
    cert_dir = "/etc/letsencrypt/live";
    provider = "letsencrypt";
    production = false;
    webroot = "/var/www/html";
  };
}

abbrev shop : WebServiceConfig
shop = record {
  name = "shop";
  description = "The shop";
  domain = "shop.example";
  port = 3000;
  command = "/usr/bin/shop";
  working_dir = "";
  user = "shop";
  ssl = true;
  environment = [];
}

abbrev bare_host : Host
bare_host = record { units = []; sites = empty; cron_jobs = [] }

deploy_web_service-refused_example :
    Unserved shop bare_host (deploy_web_service manager shop bare_host) (ok "")
unfolding init_nginx
deploy_web_service-refused_example =
    deploy_web_service-refused manager shop bare_host "" "" refl refl refl refl refl refl refl refl
      refl tt strict-RefusesRepeated
