-- ===== src/Nginx.antt =====
-- plugins/services/nginx/plugin.go. Sites are known by their server names, each the file of that name
-- in the directory of available sites and maybe a link to it in that of the enabled ones. What the
-- template writes is a `ServerBlock`, and a file whose writing broke off is `torn`.
pub mod Sites
pub mod Proxies
pub mod Strict
mod Tests
use mandau.Base.{
  ℕ, String, Bool, true, false, not, Option, none, some, List, [], ◌∷◌, ◌++◌, Map, get, put, delete,
  if◌then◌else◌, ◌==◌, Result, ok, err, ◌<>◌, in_context,
}
use mandau.Plugin.{Value, text_at}

pub record NginxConfig : Type 0 where
  pub config_dir : String
  pub enabled_dir : String
  pub available_dir : String
  pub reload_command : String
  pub test_command : String
  pub auto_reload : Bool

pub record Location : Type 0 where
  pub path : String
  pub proxy_pass : String
  pub root : String
  pub try_files : List String
  pub headers : Map String

pub record SslConfig : Type 0 where
  pub certificate : String
  pub certificate_key : String
  pub protocols : List String
  pub ciphers : String

pub record VirtualHost : Type 0 where
  pub server_name : String
  pub listen : ℕ
  pub root : String
  pub index : List String
  pub locations : List Location
  pub ssl : Option SslConfig
  pub upstream_name : String
  pub proxy_pass : String
  pub access_log : String
  pub error_log : String
  pub custom_config : String

-- A block `location`: its path, and the directives in it.
pub record LocationBlock : Type 0 where
  pub path : String
  pub proxy_pass : Option String
  pub proxy_set_header : Map String
  pub root : Option String
  pub try_files : List String

pub record ServerBlock : Type 0 where
  pub listen : ℕ
  pub server_name : String
  pub root : Option String
  pub index : List String
  pub ssl : Option SslConfig
  pub access_log : String
  pub error_log : String
  pub locations : List LocationBlock
  pub custom_config : String

abbrev unless_empty : String → Option String
unless_empty s = if s == "" then none else some s

abbrev location_block : Location → LocationBlock
location_block l = record {
  path = l.path;
  proxy_pass = unless_empty l.proxy_pass;
  proxy_set_header = if l.proxy_pass == "" then [] else l.headers;
  root = unless_empty l.root;
  try_files = l.try_files;
}

abbrev location_blocks : List Location → List LocationBlock
location_blocks [] = []
location_blocks (l ∷ ls) = location_block l ∷ location_blocks ls

abbrev proxy_headers : Map String
proxy_headers =
    ("Host", "$host")
    ∷ ("X-Real-IP", "$remote_addr")
    ∷ ("X-Forwarded-For", "$proxy_add_x_forwarded_for")
    ∷ ("X-Forwarded-Proto", "$scheme")
    ∷ []

-- The block that the template adds for the host's own upstream.
abbrev proxy_block : String → List LocationBlock
proxy_block pass =
    if pass == ""
    then []
    else record {
      path = "/";
      proxy_pass = some pass;
      proxy_set_header = proxy_headers;
      root = none;
      try_files = [];
    }
      ∷ []

abbrev log_file : String → String → String → String
log_file given name kind = if given == "" then "/var/log/nginx/" <> name <> kind else given

-- What the template writes for a virtual host.
unfoldable pub render : VirtualHost → ServerBlock
render v = record {
  listen = v.listen;
  server_name = v.server_name;
  root = unless_empty v.root;
  index = if v.root == "" then [] else v.index;
  ssl = v.ssl;
  access_log = log_file v.access_log v.server_name "-access.log";
  error_log = log_file v.error_log v.server_name "-error.log";
  locations = location_blocks v.locations ++ proxy_block v.proxy_pass;
  custom_config = v.custom_config;
}

pub data SiteFile : Type 0 where
  whole : ServerBlock → SiteFile
  torn : SiteFile

pub record Upstream : Type 0 where
  pub name : String
  pub backends : List String
  pub algorithm : String

-- The files of available sites, the links of enabled ones, and the files of upstreams.
pub record Disk : Type 0 where
  pub available : Map SiteFile
  pub enabled : Map (Unit {0})
  pub upstreams : Map (Option Upstream)

-- What nginx reads: for each link the file behind it, if there is one, and the upstreams.
abbrev pub enabled_sites : Map SiteFile → Map (Unit {0}) → Map (Option SiteFile)
enabled_sites available [] = []
enabled_sites available ((name, u) ∷ enabled) =
    (name, get available name) ∷ enabled_sites available enabled

abbrev pub Reading : Type 0
Reading = Map (Option SiteFile) × Map (Option Upstream)

abbrev pub reading : Disk → Reading
reading disk = (enabled_sites disk.available disk.enabled, disk.upstreams)

-- How the calls of the system end, and what nginx says to what it reads: to the test command and to
-- the reload command.
pub record NginxSystem : Type 0 where
  pub create : Result (Unit {0})
  pub execute : Result (Unit {0})
  pub symlink : Result (Unit {0})
  pub remove : Result (Unit {0})
  pub test : Reading → Result (Unit {0})
  pub reload : Reading → Result (Unit {0})

unfoldable pub init_nginx : Map Value → NginxConfig
unfolding text_at
init_nginx config = record {
  config_dir = dir_or (text_at config "config_dir");
  enabled_dir = "/etc/nginx/sites-enabled";
  available_dir = "/etc/nginx/sites-available";
  reload_command = "nginx -s reload";
  test_command = "nginx -t";
  auto_reload = true;
}
  where
    dir_or : Option String → String
    dir_or none = "/etc/nginx"
    dir_or (some dir) = dir

unfoldable pub test_config : NginxSystem → Disk → Result (Unit {0})
test_config os disk = in_context "test failed: " (os.test (reading disk))

unfoldable pub reload : NginxSystem → Disk → Result (Unit {0})
reload os disk = in_context "reload failed: " (os.reload (reading disk))

abbrev pub reload_if : Bool → NginxSystem → Disk → Result (Unit {0})
reload_if false os disk = ok tt
reload_if true os disk = reload os disk

abbrev pub with_site : Disk → String → SiteFile → Disk
with_site disk name file = record disk { available = put disk.available name file }

abbrev pub removing {ℓ} : {A : Type ℓ} → NginxSystem → Option A → Result (Unit {0})
removing os none = err "no such file or directory"
removing os (some a) = os.remove

-- A map after the attempt to remove a file.
abbrev pub without {ℓ} : {A : Type ℓ} → Map A → String → Result (Unit {0}) → Map A
without m name (err e) = m
without m name (ok u) = delete m name

-- A file that makes the test fail is removed.
abbrev pub tested : NginxSystem → Disk → String → Result (Unit {0}) → Disk × Result (Unit {0})
tested os disk name (ok u) = (disk, ok tt)
tested os disk name (err e) = (
  record disk { available = without disk.available name (removing os (get disk.available name)) },
  err ("invalid config: " <> e),
)

abbrev pub executed :
    NginxSystem → Disk → VirtualHost → Result (Unit {0}) → Disk × Result (Unit {0})
executed os disk v (err e) = (with_site disk v.server_name torn, err ("execute template: " <> e))
executed os disk v (ok u) =
    let disk' : Disk = with_site disk v.server_name (whole (render v)) in
    tested os disk' v.server_name (test_config os disk')

abbrev pub created : NginxSystem → Disk → VirtualHost → Result (Unit {0}) → Disk × Result (Unit {0})
created os disk v (err e) = (disk, err ("create config: " <> e))
created os disk v (ok u) = executed os disk v os.execute

unfoldable pub create_virtual_host : NginxSystem → Disk → VirtualHost → Disk × Result (Unit {0})
unfolding render test_config
create_virtual_host os disk v = created os disk v os.create

-- The links of the other sites, if the old link of this one can be removed.
abbrev pub unlinked : NginxSystem → Disk → String → Map (Unit {0})
unlinked os disk name = without disk.enabled name (removing os (get disk.enabled name))

abbrev pub linked :
    NginxConfig → NginxSystem → Disk → String → Result (Unit {0}) → Disk × Result (Unit {0})
linked config os disk name (err e) =
    (record disk { enabled = unlinked os disk name }, err ("create symlink: " <> e))
linked config os disk name (ok u) =
    let disk' : Disk = record disk { enabled = put (unlinked os disk name) name tt } in
    (disk', reload_if config.auto_reload os disk')

abbrev pub enabled_of :
    NginxConfig → NginxSystem → Disk → String → Option SiteFile → Disk × Result (Unit {0})
enabled_of config os disk name none = (disk, err ("config not found: " <> name))
enabled_of config os disk name (some file) = linked config os disk name os.symlink

unfoldable pub enable_virtual_host :
    NginxConfig → NginxSystem → Disk → String → Disk × Result (Unit {0})
unfolding reload
enable_virtual_host config os disk name = enabled_of config os disk name (get disk.available name)

abbrev disabled_of :
    NginxConfig → NginxSystem → Disk → String → Result (Unit {0}) → Disk × Result (Unit {0})
disabled_of config os disk name (err e) = (disk, err ("remove symlink: " <> e))
disabled_of config os disk name (ok u) =
    let disk' : Disk = record disk { enabled = delete disk.enabled name } in
    (disk', reload_if config.auto_reload os disk')

unfoldable disable_virtual_host :
    NginxConfig → NginxSystem → Disk → String → Disk × Result (Unit {0})
unfolding reload
disable_virtual_host config os disk name =
    disabled_of config os disk name (removing os (get disk.enabled name))

abbrev deleted_of : Disk → String → Result (Unit {0}) → Disk × Result (Unit {0})
deleted_of disk name (err e) = (disk, err ("delete config: " <> e))
deleted_of disk name (ok u) = (record disk { available = delete disk.available name }, ok tt)

-- The outcome of disabling is dropped.
unfoldable delete_virtual_host :
    NginxConfig → NginxSystem → Disk → String → Disk × Result (Unit {0})
unfolding disable_virtual_host
delete_virtual_host config os disk name =
    let disk' : Disk = (disable_virtual_host config os disk name).0 in
    deleted_of disk' name (removing os (get disk'.available name))
