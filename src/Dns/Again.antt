-- ===== src/Dns/Again.antt =====
-- A zone of plugins/services/dns/plugin.go that named.conf has is created again.
use mandau.Base.{
  ◌≡◌, refl, sym, ap, subst, ◌∙◌, String, List, [], ◌∷◌, ◌++◌, append_assoc, get, get-put_same,
  some, Result, ok, err, ◌<>◌, in_context,
}
use mandau.Dns.{
  DnsConfig, DnsZone, DnsSystem, Disk, ZoneStatement, whole, render_zone, create_zone, zone_created,
  zone_executed, configured, add_zone_config, conf_opened, statement_written, zone_file,
  with_zone_file, reload_dns,
}

-- The name server does not load a named.conf that states a domain twice.
abbrev pub RefusesTwice : DnsSystem → Type 0
RefusesTwice os =
    (disk : Disk) (before between after : List ZoneStatement) (s t : ZoneStatement)
    → disk.named_conf ≡ before ++ (s ∷ between ++ t ∷ after)
    → s.domain ≡ t.domain
    → (e : String) × (os.reload disk ≡ err e)

-- If named.conf has a statement for the domain of a zone, and the name server loads no named.conf that
-- states a domain twice, then `CreateZone`, though each of its writes goes well, ends with the error
-- of the reload: it adds a second statement for the domain, which stays, and so does the new zone file.
pub create_zone-again :
    (config : DnsConfig) (os : DnsSystem) (disk : Disk) (z : DnsZone)
    (before after : List ZoneStatement) (s : ZoneStatement)
    → os.create ≡ ok tt
    → os.execute ≡ ok tt
    → os.open_conf ≡ ok tt
    → os.write_conf ≡ ok tt
    → RefusesTwice os
    → disk.named_conf ≡ before ++ s ∷ after
    → s.domain ≡ z.domain
    → let r = create_zone config os disk z in
      ((e : String) × (r.1 ≡ err ("reload failed: " <> e)))
      × (r.0.named_conf
          ≡ disk.named_conf ++ record { domain = z.domain; file = zone_file config z.domain } ∷ [])
      × (get r.0.zones z.domain ≡ some (whole (render_zone z)))
unfolding create_zone add_zone_config reload_dns
create_zone-again config os disk z before after s c x o w h n d =
    let (e, refused) = h full before after [] s mine stated d in
    subst Refused (sym known) (
      (e, ap (in_context "reload failed: ") refused),
      refl,
      get-put_same disk.zones z.domain (whole (render_zone z)),
    )
  where
    mine : ZoneStatement
    mine = record { domain = z.domain; file = zone_file config z.domain }

    filed : Disk
    filed = with_zone_file disk z.domain (whole (render_zone z))

    full : Disk
    full = record filed { named_conf = disk.named_conf ++ mine ∷ [] }

    stated : full.named_conf ≡ before ++ (s ∷ after ++ mine ∷ [])
    stated = ap (λ l. l ++ mine ∷ []) n ∙ append_assoc before (s ∷ after) (mine ∷ [])

    Refused : Disk × Result (Unit {0}) → Type 0
    Refused r =
        ((e : String) × (r.1 ≡ err ("reload failed: " <> e)))
        × (r.0.named_conf ≡ disk.named_conf ++ mine ∷ [])
        × (get r.0.zones z.domain ≡ some (whole (render_zone z)))

    known : create_zone config os disk z ≡ (full, reload_dns os full)
    known =
        ap (zone_created config os disk z) c
        ∙ ap (zone_executed config os disk z) x
        ∙ ap (λ r. configured os (conf_opened os filed mine r)) o
        ∙ ap (λ r. configured os (statement_written os filed mine r)) w
