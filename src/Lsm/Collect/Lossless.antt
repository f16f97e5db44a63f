-- ===== src/Lsm/Collect/Lossless.antt =====
-- src/engines/zns-engine-lsm.c: a collection, however it ends, loses no data.
use mathlib.Core.Path.{subst}
use mathlib.Core.Option.{some-injective}
use dm_zns_base.Prelude.{
  ℕ, suc, ◌+◌, ◌<◌, ◌≡◌, ◌≢◌, refl, sym, ◌∙◌, ap, true, Option, none, some, ◌==◌, if◌then◌else◌,
  get_elem?, arith, Bool-cases, inl, inr, add64, All-get_elem?,
}
use dm_zns_base.Kernel.{Errno, Ret, ok, err, fault}
use dm_zns_base.Zone.{ZnsZone}
use dm_zns_base.Block.{Block}
use dm_zns_base.Allocator.{set_reserve_after_reset}
use dm_zns_base.Lsm.Index.{GcZone, slot_of}
use dm_zns_base.Lsm.State.{Env, ZnsLsm, then_do}
use dm_zns_base.Lsm.Collect.{
  reset_victim, injected, clean_zone, clean_valid, clean_victim, context, gc_clean,
  run_gc_if_needed, relocate_slots, new_reserve, zone_was_reset,
}
use dm_zns_base.Lsm.Collect.Reset.{IsResetConfined, unused}
use dm_zns_base.Lsm.Collect.Whole.{IsGround, IsWhole}
use dm_zns_base.Lsm.Collect.Kept.{Kept}
use dm_zns_base.Lsm.Publish.{valid_of, gc_zone_of, gc_validate_victim}
use dm_zns_base.Lsm.Index.Counts.{IsCounted}
use dm_zns_base.Prelude.{leb, ◌||◌, get_elem?-some, lt-length_of_get_elem?}
use dm_zns_base.Gc.{Victim}
use dm_zns_base.Lsm.Collect.Cleaned.{
  relocate_slots-Kept, Safe, Kept-Safe, Safe-trans, Safe-of, stop-Safe, zone_reset-Safe,
}

module _ {D X : Type 0} (env : Env D X) (content : D → ℕ → Block) (base : ℕ → Option ℕ)
    (world : IsGround env content) where
  abbrev Preserved : ZnsLsm D X → ZnsLsm D X → Type 0
  Preserved = Safe env content base world

  Safe-refl : (s : ZnsLsm D X) → IsWhole env content base s → Preserved s s
  Safe-refl s w = record { whole = w; data_same = λ k. refl; block_same = refl }

  module _ (reset : IsResetConfined env content) where
    -- The index counts no block in the zone, so it has none.
    uncounted :
        (s : ZnsLsm D X) (w : IsWhole env content base s) (id : ℕ) (z : ZnsZone)
        → get_elem? s.allocator.zones id ≡ some z
        → (valid_of (gc_zone_of s.indexes.gc_zones id) == 0) ≡ true
        → (slot k : ℕ) → slot_of w.ready.agree.zones id slot ≡ some (suc k)
        → ⊥
    uncounted s w id z at none_left slot k h =
        let (g, there, _) = w.ready.agree.matches.shape id z at in
        let count : (g.nr_valid_blocks == 0) ≡ true =
          subst (λ o. (valid_of o == 0) ≡ true) there
            (subst (λ gs. (valid_of (gc_zone_of gs id) == 0) ≡ true) w.ready.agree.present
              none_left) in
        unused w.ready.agree.zones id slot k g
          (All-get_elem? IsCounted w.ready.agree.zones id w.ready.agree.matches.counted there) there
          (ground (arith, count)) h

    reset_victim-Safe :
        (s : ZnsLsm D X) (id : ℕ) (z0 z : ZnsZone)
        → IsWhole env content base s
        → get_elem? s.allocator.zones id ≡ some z
        → z0.start_sector ≡ z.start_sector
        → z0.length ≡ z.length
        → id ≢ s.allocator.reserve_zone
        → Preserved s (reset_victim env id z0 s).1
    reset_victim-Safe s id z0 z w at start len ne =
        elim (Bool-cases (valid_of (gc_zone_of s.indexes.gc_zones id) == 0)) [
          | inr some_left ↦ rw some_left (Safe-refl s w)
          | inl none_left ↦ rw none_left (counted (uncounted s w id z at none_left))
        ]
      where
        after : ℕ
        after = add64 s.gc_zone_reset_attempts 1

        counted :
            ((slot k : ℕ) → slot_of w.ready.agree.zones id slot ≡ some (suc k) → ⊥)
            → Preserved s
                (then_do
                  (if injected env.fail_gc_zone_reset_at (add64 s.gc_zone_reset_attempts 1)
                    then (
                      err Errno.eio,
                      record s { gc_zone_reset_attempts = add64 s.gc_zone_reset_attempts 1 },
                    )
                    else zone_was_reset env
                        (record s { gc_zone_reset_attempts = add64 s.gc_zone_reset_attempts 1 })
                        (env.zone_reset s.disk z0.start_sector z0.length))
                  (λ t.
                    new_reserve env
                      (record t { gc_resets = add64 t.gc_resets 1 })
                      (set_reserve_after_reset (some t.allocator) id))).1
        counted unused_zone =
            elim (Bool-cases
              (injected env.fail_gc_zone_reset_at (add64 s.gc_zone_reset_attempts 1))) [
                | inl fails ↦ rw fails (
                    zone_reset-Safe env content base world reset s w id z z0 at start len ne
                      unused_zone (err Errno.eio, s.disk) (λ x out. refl))
                | inr works ↦ rw works (
                    zone_reset-Safe env content base world reset s w id z z0 at start len ne
                      unused_zone (env.zone_reset s.disk z0.start_sector z0.length)
                      (λ x out. reset s.disk z0.start_sector z0.length x (rw (start, len) out)))
              ]

    cleaned :
        (s : ZnsLsm D X) (id : ℕ) (z0 : ZnsZone) (r : Ret × ZnsLsm D X)
        → IsWhole env content base s
        → get_elem? s.allocator.zones id ≡ some z0
        → id ≢ s.allocator.reserve_zone
        → Kept env content base world s r.1
        → Preserved s (then_do r (reset_victim env id z0)).1
    cleaned s id z0 (err e, t) w at ne k = Kept-Safe env content base world s t k
    cleaned s id z0 (fault, t) w at ne k = Kept-Safe env content base world s t k
    cleaned s id z0 (ok, t) w at ne k =
        let (z, there) = get_elem?-some t.allocator.zones id (
          omega (
            arith,
            lt-length_of_get_elem? s.allocator.zones id at,
            w.ready.zones.count,
            k.whole.ready.zones.count,
            k.frame.count,
          )) in
        let (y, before, grown) = k.frame.zones id z there in
        let same : z0 ≡ y = some-injective _ _ (sym at ∙ before) in
        Safe-trans env content base world s t _ (Kept-Safe env content base world s t k) (
          reset_victim-Safe t id z0 z k.whole there
            (ap (λ (v : ZnsZone). v.start_sector) same ∙ sym grown.start)
            (ap (λ (v : ZnsZone). v.length) same ∙ sym grown.length)
            (λ e. ne (e ∙ k.frame.reserve)))

    clean_zone-Safe :
        (s : ZnsLsm D X) (id : ℕ) (o : Option ZnsZone) (og : Option GcZone)
        → IsWhole env content base s
        → get_elem? s.allocator.zones id ≡ o
        → id ≢ s.allocator.reserve_zone
        → s.allocator.reserve_zone < s.allocator.nr_zones
        → Preserved s (clean_zone env s id o og).1
    clean_zone-Safe s id none og w at ne lt = Safe-refl s w
    clean_zone-Safe s id (some z) none w at ne lt = Safe-refl s w
    clean_zone-Safe s id (some z) (some g) w at ne lt = elim (Bool-cases (env.grants s.requests)) [
      | inr refused ↦ rw refused (
          Safe-of env content base world s (record s { requests = s.requests + 1 }) w refl refl refl
            refl refl refl refl)
      | inl granted ↦
          let s' = record s { requests = s.requests + 1 } in
          let counted = Safe-of env content base world s s' w refl refl refl refl refl refl refl in
          rw granted (
            stop-Safe env content base world s
              (then_do (relocate_slots env g.nr_blocks id z.start_sector 0 s')
                (reset_victim env id z))
              (Safe-trans env content base world s s' _ counted (
                cleaned s' id z (relocate_slots env g.nr_blocks id z.start_sector 0 s')
                  counted.whole at ne
                  (relocate_slots-Kept env content base world g.nr_blocks id z.start_sector 0 s'
                    counted.whole lt
                    (λ y h.
                      ap (λ (v : ZnsZone). v.start_sector) (some-injective _ _ (sym h ∙ at)))))))
    ]

    -- A victim that passes is not the reserve, and there is a reserve.
    passed :
        (s : ZnsLsm D X) (id : ℕ)
        → gc_validate_victim s id ≡ ok
        → (id ≢ s.allocator.reserve_zone) × (s.allocator.reserve_zone < s.allocator.nr_zones)
    unfolding gc_validate_victim
    passed s id h =
        elim (Bool-cases (
          leb s.allocator.nr_zones id
          || ((id == s.allocator.reserve_zone)
              || leb s.allocator.nr_zones s.allocator.reserve_zone))) [
                | inl bad ↦ absurd (ground (arith, bad, h))
                | inr good ↦ ((λ e. ground (arith, good, e)), ground (arith, good))
              ]

    -- A collection of a zone loses no data, however it ends: a block that has data before has the same
    -- data after it, and the state is whole again. The device keeps what a write or a reset does not
    -- cover, and the tables on the device are not written meanwhile.
    gc_clean-Safe :
        (s : ZnsLsm D X) (id : ℕ) → IsWhole env content base s → Preserved s (gc_clean env s id).1
    unfolding gc_clean
    gc_clean-Safe s id w = by_verdict (gc_validate_victim s id) refl
      where
        by_verdict :
            (v : Ret) → gc_validate_victim s id ≡ v → Preserved s (clean_valid env s id v).1
        by_verdict (err e) h = Safe-refl s w
        by_verdict fault h = Safe-refl s w
        by_verdict ok h = let (ne, lt) = passed s id h in clean_zone-Safe s id _ _ w refl ne lt

    -- The collection that a write asks for changes the data of no block and keeps the indexes in
    -- agreement, whichever zone the policy answers, and whichever read, write, publication or reset
    -- fails. (Conditions: the indexes agree with what a read finds; a write and a reset change at most
    -- what they cover, and what the device reads without an error is what is there, though reads may
    -- fail; the tables on the device are not written meanwhile.)
    pub run_gc_if_needed-Safe :
        (s : ZnsLsm D X) → IsWhole env content base s → Preserved s (run_gc_if_needed env s).1
    unfolding run_gc_if_needed
    run_gc_if_needed-Safe s w =
        elim (Bool-cases (leb s.allocator.nr_zones s.allocator.reserve_zone)) [
          | inl bad ↦ rw bad (Safe-refl s w)
          | inr good ↦ rw good (elim (Bool-cases (env.should_gc (context env s))) [
            | inr unneeded ↦ rw unneeded (Safe-refl s w)
            | inl needed ↦ rw needed (by_victim (env.select_victim (context env s)))
          ])
        ]
      where
        by_victim : (v : Victim) → Preserved s (clean_victim env s v).1
        by_victim (Victim.zone id) = gc_clean-Safe s id w
        by_victim (Victim.none_found e) = Safe-refl s w
        by_victim (Victim.negative n) = Safe-refl s w
