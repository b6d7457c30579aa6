-- ===== src/Dns/Tests.antt =====
-- A zone with records, and a name server that loads no named.conf that states a domain twice.
use mandau.Base.{
  ℕ, ◌≡◌, refl, sym, ap, ◌∙◌, String, Bool, true, false, ◌||◌, List, [], ◌∷◌, ◌++◌, exists, get,
  some, Result, ok, err, ◌<>◌, ◌==◌, eq_refl, arith,
}
use mandau.Base.Int.{ℤ, pos, negsuc}
use mandau.Dns.{
  DnsConfig, DnsZone, DnsSystem, Disk, ZoneStatement, whole, render_zone, create_zone, zone_file,
}
use mandau.Dns.Zones.{
  Addition, a_record, cname_record, add_all, with_records, Serves, add_all-create_zone,
}
use mandau.Dns.Again.{RefusesTwice, create_zone-again}

abbrev states : String → List ZoneStatement → Bool
states domain ss = exists (λ (t : ZoneStatement). t.domain == domain) ss

abbrev twice : List ZoneStatement → Bool
twice [] = false
twice (s ∷ ss) = states s.domain ss || twice ss

abbrev verdict : Bool → Result (Unit {0})
verdict true = err "zone already exists"
verdict false = ok tt

abbrev bind : DnsSystem
bind = record {
  create = ok tt;
  execute = ok tt;
  open_conf = ok tt;
  write_conf = ok tt;
  after_failure = λ conf. conf;
  read_file = ok tt;
  write_file = ok tt;
  after_write = λ file. file;
  reload = λ disk. verdict (twice disk.named_conf);
}

states_lem :
    (before after : List ZoneStatement) (s t : ZoneStatement)
    → s.domain ≡ t.domain
    → states s.domain (before ++ t ∷ after) ≡ true
states_lem [] after s t d = rw (sym d, eq_refl s.domain) refl
states_lem (b ∷ before) after s t d = ground (arith, states_lem before after s t d)

twice_lem :
    (before between after : List ZoneStatement) (s t : ZoneStatement)
    → s.domain ≡ t.domain
    → twice (before ++ (s ∷ between ++ t ∷ after)) ≡ true
twice_lem [] between after s t d = rw (states_lem between after s t d) refl
twice_lem (b ∷ before) between after s t d = ground (arith, twice_lem before between after s t d)

bind-RefusesTwice : RefusesTwice bind
bind-RefusesTwice disk before between after s t n d =
    ("zone already exists", ap verdict (ap twice n ∙ twice_lem before between after s t d))

abbrev config : DnsConfig
config = record {
  zone_dir = "/etc/bind/zones";
  named_conf = "/etc/bind/named.conf.local";
  reload_cmd = "rndc reload";
}

abbrev shop : DnsZone
shop = record {
  domain = "shop.example";
  ttl = pos 3600;
  soa = record {
    primary = "ns1.shop.example";
    admin = "admin.shop.example";
    serial = pos 2024010101;
    refresh = pos 7200;
    retry = pos 3600;
    expire = pos 1209600;
    minimum_ttl = pos 86400;
  };
  ns = "ns1.shop.example" ∷ [];
  a = record { name = "@"; ip = "192.0.2.1"; ttl = pos 0 } ∷ [];
  aaaa = [];
  cname = [];
  mx = record { priority = pos 10; host = "mail.shop.example"; ttl = pos 0 } ∷ [];
  txt = [];
}

abbrev empty : Disk
empty = record { zones = []; named_conf = [] }

abbrev calls : List Addition
calls = a_record "api" "192.0.2.2" (pos 300) ∷ cname_record "www" "shop.example" (pos 600) ∷ []

abbrev size : ℤ → ℕ
size (pos n) = n
size (negsuc n) = n

add_all-create_zone_example :
    Serves
      (add_all bind (create_zone config bind empty shop).0 "shop.example" calls)
      "shop.example"
      (with_records shop calls)
    × ((with_records shop calls).soa ≡ shop.soa)
add_all-create_zone_example =
    add_all-create_zone config bind empty shop calls refl refl refl refl
      (λ e. omega (arith, ap size e), (λ e. omega (arith, ap size e), tt))

abbrev stated : ZoneStatement
stated = record { domain = "shop.example"; file = "/etc/bind/db.shop" }

abbrev used : Disk
used = record { zones = []; named_conf = stated ∷ [] }

create_zone-again_example :
    let r = create_zone config bind used shop in
    ((e : String) × (r.1 ≡ err ("reload failed: " <> e)))
    × (r.0.named_conf
        ≡ used.named_conf
          ++ record { domain = "shop.example"; file = zone_file config "shop.example" } ∷ [])
    × (get r.0.zones "shop.example" ≡ some (whole (render_zone shop)))
create_zone-again_example =
    create_zone-again config bind used shop [] [] stated refl refl refl refl bind-RefusesTwice refl
      refl
