-- ===== src/Zone/Table.antt =====
-- What `zns_zone_table_init` and `zns_zone_report_one` leave behind, for a device that reports as
-- the kernel documents.
use dm_zns_base.Prelude.{
  ℕ, ◌+◌, ◌<◌, ◌≤◌, ◌≡◌, refl, ap, ◌≢◌, true, Bool-cases, ==_iff, ne→==, tests, inl, inr, none,
  some, List, [], ◌∷◌, ◌++◌, ltb, ◌==◌, if◌then◌else◌, length, set, replicate, arith,
}
use dm_zns_base.Kernel.{Errno, Ret, ok, err}
use dm_zns_base.Zone.{
  BlkZone, ZnsZone, ZnsZoneTable, Report, reported, failed, Callback, Device, zone_of, report_cb,
  report_one_cb, zeroed_zone, report_one, report_one_ret, is_seqwrite_req, empty_table, table_init,
  table_init_end, table_destroy,
}
use mathlib.Core.List.{append_assoc}

-- The documented course of a report: the callback is run on each zone in order, with its position,
-- and the first error ends the report.
abbrev pub deliver : (S : Type 0) → Callback S → ℕ → List BlkZone → S → Report × S
deliver S cb index [] s = (reported index, s)
deliver S cb index (z ∷ zs) s =
    let (answer, s') = cb z index s in
    elim answer [ none ↦ deliver S cb (index + 1) zs s' | some e ↦ (failed e, s') ]

-- A report of at most `nr` zones from `sector` on delivers the zones `zs`.
abbrev pub Reports : Device → ℕ → ℕ → List BlkZone → Type 1
Reports bdev sector nr zs =
    (S : Type 0) (cb : Callback S) (s : S)
    → bdev.report_zones S sector nr cb s ≡ deliver S cb 0 zs s

-- The descriptors of the reported zones, numbered from `index`.
abbrev pub zones_of : ℕ → List BlkZone → List ZnsZone
zones_of index [] = []
zones_of index (z ∷ zs) = zone_of index z ∷ zones_of (index + 1) zs

fill : List ZnsZone → ℕ → List BlkZone → List ZnsZone
fill ys index [] = ys
fill ys index (z ∷ zs) = fill (set ys index (zone_of index z)) (index + 1) zs

set-append :
    (xs ys : List ZnsZone) (y v : ZnsZone) → set (xs ++ (y ∷ ys)) (length xs) v ≡ xs ++ (v ∷ ys)
set-append [] ys y v = refl
set-append (x ∷ xs) ys y v = ap (λ t. x ∷ t) (set-append xs ys y v)

length-snoc : (xs : List ZnsZone) (x : ZnsZone) → length (xs ++ (x ∷ [])) ≡ length xs + 1
length-snoc [] x = omega arith
length-snoc (y ∷ xs) x = omega (arith, length-snoc xs x)

-- Filling the zeroed end of the array writes the descriptors in order.
fill-append :
    (zs : List BlkZone) (xs : List ZnsZone) (i : ℕ)
    → i ≡ length xs
    → fill (xs ++ replicate (length zs) zeroed_zone) i zs ≡ xs ++ zones_of i zs
unfolding fill
fill-append [] xs i e = refl
fill-append (z ∷ zs) xs i e =
    rw (e, set-append xs (replicate (length zs) zeroed_zone) zeroed_zone (zone_of (length xs) z))
      (rw
        (
          ← append_assoc xs (zone_of (length xs) z ∷ []) (replicate (length zs) zeroed_zone),
          ← append_assoc xs (zone_of (length xs) z ∷ []) (zones_of (length xs + 1) zs),
        )
        (fill-append zs (xs ++ (zone_of (length xs) z ∷ [])) (length xs + 1)
          (omega (arith, length-snoc xs (zone_of (length xs) z)))))

-- The callback fills the array as far as it goes.
deliver-report_cb :
    (zs : List BlkZone) (n i : ℕ) (ys : List ZnsZone)
    → i + length zs ≤ n
    → deliver ZnsZoneTable report_cb i zs (record { zones = some ys; nr_zones = n })
      ≡ (reported (i + length zs), record { zones = some (fill ys i zs); nr_zones = n })
unfolding fill report_cb
deliver-report_cb [] n i ys h = ground arith
deliver-report_cb (z ∷ zs) n i ys h =
    ground (arith, deliver-report_cb zs n (i + 1) (set ys i (zone_of i z)))

-- A zone too many ends the report.
deliver-report_cb_overflow :
    (zs : List BlkZone) (n i : ℕ) (ys : List ZnsZone)
    → i ≤ n
    → n < i + length zs
    → (deliver ZnsZoneTable report_cb i zs (record { zones = some ys; nr_zones = n })).0
      ≡ failed Errno.eoverflow
unfolding report_cb
deliver-report_cb_overflow [] n i ys h k = absurd (omega arith)
deliver-report_cb_overflow (z ∷ zs) n i ys h k =
    ground (arith, deliver-report_cb_overflow zs n (i + 1) (set ys i (zone_of i z)))

-- The table of a device that reports the zones `zs`: one descriptor for each, in order.
abbrev pub table_of : List BlkZone → ZnsZoneTable
table_of zs = record { zones = some (zones_of 0 zs); nr_zones = length zs }

end_failed :
    (n : ℕ) (p : Report × ZnsZoneTable) (e : Errno)
    → p.0 ≡ failed e
    → table_init_end n p ≡ (err e, some empty_table)
unfolding table_destroy
end_failed n (r, t) e h = rw h

-- The array that `kcalloc` hands out.
abbrev fresh : ℕ → ZnsZoneTable
fresh n = record { zones = some (replicate n zeroed_zone); nr_zones = n }

end_fits :
    (n : ℕ) (zs : List BlkZone)
    → length zs ≤ n
    → table_init_end n (deliver ZnsZoneTable report_cb 0 zs (fresh n))
      ≡ (if length zs == n then (ok, some (table_of zs)) else (err Errno.eio, some empty_table))
unfolding table_destroy
end_fits n zs h =
    rw (deliver-report_cb zs n 0 (replicate n zeroed_zone) (omega arith))
      (elim (Bool-cases (length zs == n)) [
        | inl same ↦
            let e : length zs ≡ n = (==_iff _ _).0 same in
            rw (← e) (ground (arith, fill-append zs [] 0 refl))
        | inr differ ↦ ground arith
      ])

end_lem :
    (n : ℕ) (zs : List BlkZone)
    → table_init_end n (deliver ZnsZoneTable report_cb 0 zs (fresh n)) ≡ (
        if length zs == n
        then (ok, some (table_of zs))
        else (err (if ltb n (length zs) then Errno.eoverflow else Errno.eio), some empty_table))
end_lem n zs = elim (Bool-cases (ltb n (length zs))) [
  | inl many ↦
      rw
        (
          many,
          end_failed n (deliver ZnsZoneTable report_cb 0 zs (fresh n)) Errno.eoverflow (
              deliver-report_cb_overflow zs n 0 (replicate n zeroed_zone) (omega arith)
                (omega tests)),
        )
        (ground arith)
  | inr few ↦ rw (few, end_fits n zs (ground arith))
]

-- On a zoned device with zones, and with memory, `zns_zone_table_init` ends in one of three ways:
-- the device reports exactly its zone count, and the table holds one descriptor for each reported
-- zone, in order; it reports fewer, and the result is -EIO; it reports more, and the result is
-- -EOVERFLOW. In the last two cases the table is left empty.
pub table_init_lem :
    (bdev : Device) (table : ZnsZoneTable) (zs : List BlkZone)
    → bdev.is_zoned ≡ true
    → bdev.nr_zones ≢ 0
    → Reports bdev 0 bdev.nr_zones zs
    → table_init true (some table) (some bdev) ≡ (
        if length zs == bdev.nr_zones then (ok, some (table_of zs)) else (
          err (if ltb bdev.nr_zones (length zs) then Errno.eoverflow else Errno.eio),
          some empty_table,
        ))
unfolding table_init table_destroy
table_init_lem bdev table zs zoned nonempty reports =
    rw (zoned, ne→== bdev.nr_zones 0 nonempty, reports ZnsZoneTable report_cb (fresh bdev.nr_zones))
      (end_lem bdev.nr_zones zs)

-- What the single report of `zns_zone_report_one` gives, case by case of the zones reported.
abbrev pub report_one_of : List BlkZone → Ret × ZnsZone
report_one_of [] = (err Errno.eio, zeroed_zone)
report_one_of (z ∷ []) =
    if is_seqwrite_req z.zone_type then (ok, zone_of 0 z) else (err Errno.einval, zeroed_zone)
report_one_of (z ∷ y ∷ zs) =
    (err Errno.einval, if is_seqwrite_req z.zone_type then zone_of 0 z else zeroed_zone)

report_one_deliver :
    (zs : List BlkZone)
    → (let (report, zone) = deliver ZnsZone report_one_cb 0 zs zeroed_zone in
        (report_one_ret report, zone))
      ≡ report_one_of zs
unfolding report_one_cb
report_one_deliver [] = refl
report_one_deliver (z ∷ []) = ground arith
report_one_deliver (z ∷ y ∷ zs) = ground arith

-- `zns_zone_report_one` succeeds exactly for one report of a zone that must be written in sequence,
-- and then returns that zone's descriptor with id 0; nothing reported is -EIO, and another type or
-- a second zone is -EINVAL.
pub report_one_lem :
    (bdev : Device) (sector : ℕ) (zs : List BlkZone)
    → Reports bdev sector 1 zs
    → report_one bdev sector ≡ report_one_of zs
unfolding report_one
report_one_lem bdev sector zs reports =
    rw (reports ZnsZone report_one_cb zeroed_zone) (report_one_deliver zs)
