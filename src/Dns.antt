-- ===== src/Dns.antt =====
-- plugins/services/dns/plugin.go. A zone file is known by the domain in its name `db.<domain>`, and is
-- the list of the lines that say something: comments, blank lines and the spaces between words are left
-- out. A file whose writing broke off is `torn`. named.conf is the list of its zone statements.
pub mod Zones
pub mod Again
mod Tests
use mandau.Base.{
  ℕ, zero, suc, String, Bool, Option, none, some, List, [], ◌∷◌, ◌++◌, map, Map, get, put, Result,
  ok, err, ◌<>◌, ◌>>=◌, in_context,
}
use mandau.Base.Int.{ℤ, pos, negsuc}

pub record DnsConfig : Type 0 where
  pub zone_dir : String
  pub named_conf : String
  pub reload_cmd : String

record DnsPlugin : Type 0 where
  pub name : String
  pub version : String
  pub config : Option DnsConfig

pub record SoaRecord : Type 0 where
  pub primary : String
  pub admin : String
  pub serial : ℤ
  pub refresh : ℤ
  pub retry : ℤ
  pub expire : ℤ
  pub minimum_ttl : ℤ

pub record ARecord : Type 0 where
  pub name : String
  pub ip : String
  pub ttl : ℤ

pub record AaaaRecord : Type 0 where
  pub name : String
  pub ip : String
  pub ttl : ℤ

pub record CnameRecord : Type 0 where
  pub name : String
  pub target : String
  pub ttl : ℤ

pub record MxRecord : Type 0 where
  pub priority : ℤ
  pub host : String
  pub ttl : ℤ

pub record TxtRecord : Type 0 where
  pub name : String
  pub value : String
  pub ttl : ℤ

pub record DnsZone : Type 0 where
  pub domain : String
  pub ttl : ℤ
  pub soa : SoaRecord
  pub ns : List String
  pub a : List ARecord
  pub aaaa : List AaaaRecord
  pub cname : List CnameRecord
  pub mx : List MxRecord
  pub txt : List TxtRecord

-- A line of a zone file: `$TTL`, `@ IN SOA`, `@ IN NS`, and the records with their own time to live.
pub data ZoneLine : Type 0 where
  ttl_line : ℤ → ZoneLine
  soa_line : SoaRecord → ZoneLine
  ns_line : String → ZoneLine
  a_line : String → ℤ → String → ZoneLine
  aaaa_line : String → ℤ → String → ZoneLine
  cname_line : String → ℤ → String → ZoneLine
  mx_line : ℤ → ℤ → String → ZoneLine
  txt_line : String → ℤ → String → ZoneLine

-- `{{if .TTL}}{{.TTL}}{{else}}{{$.TTL}}{{end}}`
abbrev pub ttl_or : ℤ → ℤ → ℤ
ttl_or d (pos zero) = d
ttl_or d (pos (suc n)) = pos (suc n)
ttl_or d (negsuc n) = negsuc n

abbrev pub a_of : ℤ → ARecord → ZoneLine
a_of d r = a_line r.name (ttl_or d r.ttl) r.ip

abbrev pub cname_of : ℤ → CnameRecord → ZoneLine
cname_of d r = cname_line r.name (ttl_or d r.ttl) (r.target <> ".")

-- What the template writes for a zone.
unfoldable pub render_zone : DnsZone → List ZoneLine
render_zone z =
    ttl_line z.ttl
      ∷ soa_line (record z.soa { primary = z.soa.primary <> "."; admin = z.soa.admin <> "." })
      ∷ map (λ s. ns_line (s <> ".")) z.ns
    ++ map (a_of z.ttl) z.a
    ++ map (λ (r : AaaaRecord). aaaa_line r.name (ttl_or z.ttl r.ttl) r.ip) z.aaaa
    ++ map (cname_of z.ttl) z.cname
    ++ map (λ (r : MxRecord). mx_line (ttl_or z.ttl r.ttl) r.priority (r.host <> ".")) z.mx
    ++ map (λ (r : TxtRecord). txt_line r.name (ttl_or z.ttl r.ttl) r.value) z.txt

pub data ZoneFile : Type 0 where
  whole : List ZoneLine → ZoneFile
  torn : ZoneFile

-- A statement `zone` of type master: the domain and the file.
pub record ZoneStatement : Type 0 where
  pub domain : String
  pub file : String

pub record Disk : Type 0 where
  pub zones : Map ZoneFile
  pub named_conf : List ZoneStatement

-- How the system's calls end, what a failed write leaves of named.conf and of a zone file, and what
-- the name server says to the files when it reloads them: nothing, or the output of a command that
-- failed.
pub record DnsSystem : Type 0 where
  pub create : Result (Unit {0})
  pub execute : Result (Unit {0})
  pub open_conf : Result (Unit {0})
  pub write_conf : Result (Unit {0})
  pub after_failure : List ZoneStatement → List ZoneStatement
  pub read_file : Result (Unit {0})
  pub write_file : Result (Unit {0})
  pub after_write : ZoneFile → ZoneFile
  pub reload : Disk → Result (Unit {0})

unfoldable new_dns : DnsPlugin
new_dns = record { name = "dns-manager"; version = "1.0.0"; config = none }

-- The outcome of making the directory is dropped.
unfoldable init_dns : DnsPlugin → DnsPlugin
init_dns p = record p {
  config = some (record {
    zone_dir = "/etc/bind/zones";
    named_conf = "/etc/bind/named.conf.local";
    reload_cmd = "rndc reload";
  });
}

abbrev pub zone_file : DnsConfig → String → String
zone_file config domain = config.zone_dir <> "/" <> "db." <> domain

abbrev pub with_zone_file : Disk → String → ZoneFile → Disk
with_zone_file disk domain file = record disk { zones = put disk.zones domain file }

unfoldable pub reload_dns : DnsSystem → Disk → Result (Unit {0})
reload_dns os disk = in_context "reload failed: " (os.reload disk)

abbrev pub statement_written :
    DnsSystem → Disk → ZoneStatement → Result (Unit {0}) → Disk × Result (Unit {0})
statement_written os disk s (err e) =
    (record disk { named_conf = os.after_failure disk.named_conf }, err e)
statement_written os disk s (ok u) = (record disk { named_conf = disk.named_conf ++ s ∷ [] }, ok tt)

abbrev pub conf_opened :
    DnsSystem → Disk → ZoneStatement → Result (Unit {0}) → Disk × Result (Unit {0})
conf_opened os disk s (err e) = (disk, err e)
conf_opened os disk s (ok u) = statement_written os disk s os.write_conf

unfoldable pub add_zone_config : DnsSystem → Disk → String → String → Disk × Result (Unit {0})
add_zone_config os disk domain file =
    conf_opened os disk (record { domain = domain; file = file }) os.open_conf

abbrev pub configured : DnsSystem → Disk × Result (Unit {0}) → Disk × Result (Unit {0})
configured os (disk, err e) = (disk, err ("add zone config: " <> e))
configured os (disk, ok u) = (disk, reload_dns os disk)

abbrev pub zone_executed :
    DnsConfig → DnsSystem → Disk → DnsZone → Result (Unit {0}) → Disk × Result (Unit {0})
zone_executed config os disk z (err e) =
    (with_zone_file disk z.domain torn, err ("execute template: " <> e))
zone_executed config os disk z (ok u) = configured os (
    add_zone_config os (with_zone_file disk z.domain (whole (render_zone z))) z.domain
      (zone_file config z.domain))

abbrev pub zone_created :
    DnsConfig → DnsSystem → Disk → DnsZone → Result (Unit {0}) → Disk × Result (Unit {0})
zone_created config os disk z (err e) = (disk, err ("create zone file: " <> e))
zone_created config os disk z (ok u) = zone_executed config os disk z os.execute

unfoldable pub create_zone : DnsConfig → DnsSystem → Disk → DnsZone → Disk × Result (Unit {0})
unfolding render_zone add_zone_config reload_dns
create_zone config os disk z = zone_created config os disk z os.create

abbrev pub reading_zone : DnsSystem → Option ZoneFile → Result ZoneFile
reading_zone os none = err "no such file or directory"
reading_zone os (some file) = os.read_file >>= λ u. ok file

abbrev appended : ZoneFile → ZoneLine → ZoneFile
appended torn line = torn
appended (whole lines) line = whole (lines ++ line ∷ [])

abbrev file_written :
    DnsSystem → Disk → String → ZoneFile → ZoneLine → Result (Unit {0}) → Disk × Result (Unit {0})
file_written os disk domain file line (err e) =
    (with_zone_file disk domain (os.after_write file), err e)
file_written os disk domain file line (ok u) =
    let disk' : Disk = with_zone_file disk domain (appended file line) in
    (disk', reload_dns os disk')

abbrev pub line_added :
    DnsSystem → Disk → String → ZoneLine → Result ZoneFile → Disk × Result (Unit {0})
line_added os disk domain line (err e) = (disk, err e)
line_added os disk domain line (ok file) = file_written os disk domain file line os.write_file

unfoldable pub add_a_record :
    DnsSystem → Disk → String → String → String → ℤ → Disk × Result (Unit {0})
unfolding reload_dns
add_a_record os disk domain name ip ttl =
    line_added os disk domain (a_line name ttl ip) (reading_zone os (get disk.zones domain))

unfoldable pub add_cname_record :
    DnsSystem → Disk → String → String → String → ℤ → Disk × Result (Unit {0})
unfolding reload_dns
add_cname_record os disk domain name target ttl =
    line_added os disk domain (cname_line name ttl (target <> "."))
      (reading_zone os (get disk.zones domain))
