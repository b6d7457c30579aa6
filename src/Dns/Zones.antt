-- ===== src/Dns/Zones.antt =====
-- What becomes of a zone file of plugins/services/dns/plugin.go when records are added to it.
use mandau.Base.{
  ◌≡◌, ◌≢◌, refl, sym, ap, subst, ◌∙◌, zero, suc, String, some, List, [], ◌∷◌, ◌++◌, map,
  append_assoc, All, get, get-put_same, Result, ok, err, ◌<>◌,
}
use mandau.Base.Int.{ℤ, pos, negsuc}
use mathlib.Core.List.{Perm, map-append, perm_append_comm}
use mathlib.Core.List.Perm
use mandau.Dns.{
  DnsConfig, DnsZone, DnsSystem, Disk, ZoneLine, ZoneStatement, statement_written, conf_opened,
  whole, a_line, cname_line, a_of, cname_of, ttl_or, render_zone, create_zone, zone_created,
  zone_executed, configured, add_zone_config, add_a_record, add_cname_record, reading_zone,
  line_added, zone_file, with_zone_file,
}

-- A call of `AddARecord` or of `AddCNAMERecord`: the name, the address or the target, and the TTL.
pub data Addition : Type 0 where
  a_record : String → String → ℤ → Addition
  cname_record : String → String → ℤ → Addition

abbrev add : DnsSystem → Disk → String → Addition → Disk × Result (Unit {0})
add os disk domain (a_record name ip ttl) = add_a_record os disk domain name ip ttl
add os disk domain (cname_record name target ttl) = add_cname_record os disk domain name target ttl

abbrev pub add_all : DnsSystem → Disk → String → List Addition → Disk
add_all os disk domain [] = disk
add_all os disk domain (x ∷ xs) = add_all os (add os disk domain x).0 domain xs

-- The zone that has the record of a call too.
abbrev with_record : DnsZone → Addition → DnsZone
with_record z (a_record name ip ttl) = record z {
  a = z.a ++ record { name = name; ip = ip; ttl = ttl } ∷ [];
}
with_record z (cname_record name target ttl) = record z {
  cname = z.cname ++ record { name = name; target = target; ttl = ttl } ∷ [];
}

abbrev pub with_records : DnsZone → List Addition → DnsZone
with_records z [] = z
with_records z (x ∷ xs) = with_records (with_record z x) xs

with_record-soa : (z : DnsZone) (x : Addition) → (with_record z x).soa ≡ z.soa
with_record-soa z (a_record name ip ttl) = refl
with_record-soa z (cname_record name target ttl) = refl

with_records-soa : (z : DnsZone) (xs : List Addition) → (with_records z xs).soa ≡ z.soa
with_records-soa z [] = refl
with_records-soa z (x ∷ xs) = with_records-soa (with_record z x) xs ∙ with_record-soa z x

abbrev line_of : Addition → ZoneLine
line_of (a_record name ip ttl) = a_line name ttl ip
line_of (cname_record name target ttl) = cname_line name ttl (target <> ".")

abbrev ttl_of : Addition → ℤ
ttl_of (a_record name ip ttl) = ttl
ttl_of (cname_record name target ttl) = ttl

-- The call gives a time to live of its own.
abbrev pub Timed : Addition → Type 0
Timed x = ttl_of x ≢ pos zero

ttl_or-set : (d t : ℤ) → t ≢ pos zero → ttl_or d t ≡ t
ttl_or-set d (pos zero) h = absurd (h refl)
ttl_or-set d (pos (suc n)) h = refl
ttl_or-set d (negsuc n) h = refl

-- The last member goes before the others of the second list.
move_last {ℓ} : {A : Type ℓ} (p q : List A) (x : A) → Perm ((p ++ q) ++ x ∷ []) ((p ++ x ∷ []) ++ q)
move_last p q x =
    subst (λ l. Perm l ((p ++ x ∷ []) ++ q)) (sym (append_assoc p q (x ∷ [])))
      (subst (Perm (p ++ (q ++ x ∷ []))) (sym (append_assoc p (x ∷ []) q))
        (Perm.append_left p (perm_append_comm q (x ∷ []))))

append-map {ℓ κ} :
    {A : Type ℓ} {B : Type κ} (f : A → B) (p : List B) (xs : List A) (x : A)
    → (p ++ map f xs) ++ f x ∷ [] ≡ p ++ map f (xs ++ x ∷ [])
append-map f p xs x =
    append_assoc p (map f xs) (f x ∷ []) ∙ ap (λ l. p ++ l) (sym (map-append f xs (x ∷ [])))

-- More lists may follow those in which the last member found its place.
then {ℓ} :
    {A : Type ℓ} (p p' q : List A) (x : A)
    → Perm (p ++ x ∷ []) p'
    → Perm ((p ++ q) ++ x ∷ []) (p' ++ q)
then p p' q x h = Perm.trans (move_last p q x) (Perm.append_right q h)

at_end {ℓ κ} :
    {A : Type ℓ} {B : Type κ} (f : A → B) (p : List B) (xs : List A) (x : A)
    → Perm ((p ++ map f xs) ++ f x ∷ []) (p ++ map f (xs ++ x ∷ []))
at_end f p xs x =
    subst (Perm ((p ++ map f xs) ++ f x ∷ [])) (append-map f p xs x)
      (Perm.refl ((p ++ map f xs) ++ f x ∷ []))

-- A line that is added to a zone's file makes it, up to the order, the file of the zone with it.
render_zone-with_record :
    (z : DnsZone) (x : Addition)
    → Timed x
    → Perm (render_zone z ++ line_of x ∷ []) (render_zone (with_record z x))
unfolding render_zone
render_zone-with_record z (a_record name ip ttl) t =
    subst
      (λ u.
        Perm (render_zone z ++ a_line name u ip ∷ [])
          (render_zone (with_record z (a_record name ip ttl))))
      (ttl_or-set z.ttl ttl t)
      (Perm.cons _ (
        Perm.cons _ (
          then _ _ _ _ (
            then _ _ _ _ (
              then _ _ _ _ (
                then _ _ _ _
                  (at_end (a_of z.ttl) _ z.a (record { name = name; ip = ip; ttl = ttl }))))))))
render_zone-with_record z (cname_record name target ttl) t =
    subst
      (λ u.
        Perm (render_zone z ++ cname_line name u (target <> ".") ∷ [])
          (render_zone (with_record z (cname_record name target ttl))))
      (ttl_or-set z.ttl ttl t)
      (Perm.cons _ (
        Perm.cons _ (
          then _ _ _ _ (
            then _ _ _ _ (
              at_end (cname_of z.ttl) _ z.cname
                (record { name = name; target = target; ttl = ttl }))))))

line_added-whole :
    (os : DnsSystem) (disk : Disk) (domain : String) (lines : List ZoneLine) (line : ZoneLine)
    → os.read_file ≡ ok tt
    → os.write_file ≡ ok tt
    → get disk.zones domain ≡ some (whole lines)
    → (line_added os disk domain line (reading_zone os (get disk.zones domain))).0
      ≡ with_zone_file disk domain (whole (lines ++ line ∷ []))
line_added-whole os disk domain lines line r w g = rw (g, r, w) refl

add-whole :
    (os : DnsSystem) (disk : Disk) (domain : String) (lines : List ZoneLine) (x : Addition)
    → os.read_file ≡ ok tt
    → os.write_file ≡ ok tt
    → get disk.zones domain ≡ some (whole lines)
    → (add os disk domain x).0 ≡ with_zone_file disk domain (whole (lines ++ line_of x ∷ []))
unfolding add_a_record add_cname_record
add-whole os disk domain lines (a_record name ip ttl) r w g =
    line_added-whole os disk domain lines (a_line name ttl ip) r w g
add-whole os disk domain lines (cname_record name target ttl) r w g =
    line_added-whole os disk domain lines (cname_line name ttl (target <> ".")) r w g

-- The file of the domain is, up to the order of its lines, what the template writes for the zone.
abbrev pub Serves : Disk → String → DnsZone → Type 0
Serves disk domain z =
    (lines : List ZoneLine) × (get disk.zones domain ≡ some (whole lines))
    × Perm lines (render_zone z)

add-Serves :
    (os : DnsSystem) (disk : Disk) (domain : String) (z : DnsZone) (x : Addition)
    → os.read_file ≡ ok tt
    → os.write_file ≡ ok tt
    → Timed x
    → Serves disk domain z
    → Serves (add os disk domain x).0 domain (with_record z x)
add-Serves os disk domain z x r w t (lines, g, p) =
    subst (λ d. Serves d domain (with_record z x)) (sym (add-whole os disk domain lines x r w g))
      (
        lines ++ line_of x ∷ [],
        get-put_same disk.zones domain (whole (lines ++ line_of x ∷ [])),
        Perm.trans (Perm.append_right (line_of x ∷ []) p) (render_zone-with_record z x t),
      )

add_all-Serves :
    (os : DnsSystem) (disk : Disk) (domain : String) (z : DnsZone) (xs : List Addition)
    → os.read_file ≡ ok tt
    → os.write_file ≡ ok tt
    → All Timed xs
    → Serves disk domain z
    → Serves (add_all os disk domain xs) domain (with_records z xs)
add_all-Serves os disk domain z [] r w t s = s
add_all-Serves os disk domain z (x ∷ xs) r w t s =
    add_all-Serves os (add os disk domain x).0 domain (with_record z x) xs r w t.1
      (add-Serves os disk domain z x r w t.0 s)

add_zone_config-zones :
    (os : DnsSystem) (disk : Disk) (domain file : String)
    → (add_zone_config os disk domain file).0.zones ≡ disk.zones
unfolding add_zone_config
add_zone_config-zones os disk domain file = opened os.open_conf
  where
    s : ZoneStatement
    s = record { domain = domain; file = file }

    wrote : (r : Result (Unit {0})) → (statement_written os disk s r).0.zones ≡ disk.zones
    wrote (ok u) = refl
    wrote (err e) = refl

    opened : (r : Result (Unit {0})) → (conf_opened os disk s r).0.zones ≡ disk.zones
    opened (ok u) = wrote os.write_conf
    opened (err e) = refl

configured-disk : (os : DnsSystem) (s : Disk × Result (Unit {0})) → (configured os s).0 ≡ s.0
configured-disk os (disk, ok u) = refl
configured-disk os (disk, err e) = refl

create_zone-Serves :
    (config : DnsConfig) (os : DnsSystem) (disk : Disk) (z : DnsZone)
    → os.create ≡ ok tt
    → os.execute ≡ ok tt
    → Serves (create_zone config os disk z).0 z.domain z
unfolding create_zone
create_zone-Serves config os disk z c x = (
  render_zone z,
  ap (λ r. get (zone_created config os disk z r).0.zones z.domain) c
      ∙ ap (λ r. get (zone_executed config os disk z r).0.zones z.domain) x
      ∙ ap (λ d. get d.zones z.domain) (configured-disk os (add_zone_config os after z.domain file))
      ∙ ap (λ m. get m z.domain) (add_zone_config-zones os after z.domain file)
      ∙ get-put_same disk.zones z.domain (whole (render_zone z)),
  Perm.refl (render_zone z),
)
  where
    after : Disk
    after = with_zone_file disk z.domain (whole (render_zone z))

    file : String
    file = zone_file config z.domain

-- If the zone file can be created, read and written, then after `CreateZone` and any number of calls of
-- `AddARecord` and `AddCNAMERecord` that each give a TTL other than 0, the file has, up to the order of
-- its lines, what `CreateZone` would write for the zone with those records and the serial that it had
-- at first. This holds whatever becomes of named.conf and of the reloads.
pub add_all-create_zone :
    (config : DnsConfig) (os : DnsSystem) (disk : Disk) (z : DnsZone) (xs : List Addition)
    → os.create ≡ ok tt
    → os.execute ≡ ok tt
    → os.read_file ≡ ok tt
    → os.write_file ≡ ok tt
    → All Timed xs
    → let disk' = add_all os (create_zone config os disk z).0 z.domain xs in
      Serves disk' z.domain (with_records z xs) × ((with_records z xs).soa ≡ z.soa)
add_all-create_zone config os disk z xs c x r w t = (
  add_all-Serves os (create_zone config os disk z).0 z.domain z xs r w t
      (create_zone-Serves config os disk z c x),
  with_records-soa z xs,
)
