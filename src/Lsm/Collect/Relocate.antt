-- ===== src/Lsm/Collect/Relocate.antt =====
-- src/engines/zns-engine-lsm.c: the move of one live block changes where it is, and no block's data.
use dm_zns_base.Lsm.Collect.Whole.{IsGround, IsWhole, located, data_of}
use mathlib.Core.Path.{subst, subst⁻¹}
use dm_zns_base.Prelude.{
  ℕ, ◌*◌, ◌%◌, ◌<◌, ◌≡◌, ◌≢◌, refl, sym, ◌∙◌, ap, Option, some, ◌==◌, if◌then◌else◌, u64_mod, arith,
  Bool-cases, inl, inr, eq→==, get_elem?, get_elem?-some, add64,
}
use dm_zns_base.Kernel.{Errno, Ret, ok, err, fault, Ptr}
use dm_zns_base.Zone.{ZnsZone, can_append}
use dm_zns_base.Block.{Block}
use dm_zns_base.Block.Io.{block_read, block_write}
use dm_zns_base.Allocator.{Allocator, alloc_gc}
use dm_zns_base.Allocator.Reserve.{alloc_gc_lem, moved_gc}
use dm_zns_base.Lsm.State.{Env, ZnsLsm, then_do}
use dm_zns_base.Lsm.Publish.{publish_write}
use dm_zns_base.Lsm.Publish.Agreement.{IsReady, Aside, memory_of, Settled}
use dm_zns_base.Lsm.Publish.Fresh.{Advance, Advance-Frame, Frame, alloc_gc-Advance}
use dm_zns_base.Lsm.Collect.{
  source_read, injected, wrote, moved, move_counted, move_to, destination, gc_relocate_block,
  source_read,
}
use dm_zns_base.Lsm.Collect.Kept.{Kept, Kept-trans, Kept-of, Kept-refl}
use dm_zns_base.Lsm.Collect.Taken.{
  written, written-Kept, publish-Settled, back_to, now_at, other_data, settled-IsWhole,
  unsettled-IsWhole, unsettled-data,
}

module _ {D X : Type 0} (env : Env D X) (content : D → ℕ → Block) (base : ℕ → Option ℕ)
    (world : IsGround env content) where
  -- The step keeps the data, and if it reports success the block `k` is at `p`.
  record MovedTo (s : ZnsLsm D X) (k p : ℕ) (r : Ret × ZnsLsm D X) : Type 0 where
    kept : Kept env content base world s r.1
    at_p : r.0 ≡ ok → located env content base r.1 k ≡ some p

  not_moved :
      (s t : ZnsLsm D X) (k p : ℕ) (ret : Ret)
      → ret ≢ ok
      → Kept env content base world s t
      → MovedTo s k p (ret, t)
  not_moved s t k p ret ne h = record { kept = h; at_p = λ e. absurd (ne e) }

  -- What the move of the block `k` leaves: every block has the data that it had, and the indexes agree;
  -- and if it reports success, the block is at the write pointer of the reserve.
  pub record Relocated (s : ZnsLsm D X) (k : ℕ) (r : Ret × ZnsLsm D X) : Type 0 where
    pub kept : Kept env content base world s r.1
    pub in_reserve :
        r.0 ≡ ok
        → (z : ZnsZone) × (get_elem? s.allocator.zones s.allocator.reserve_zone ≡ some z)
          × (located env content base r.1 k ≡ some z.write_pointer)

  module _ (s : ZnsLsm D X) (w : IsWhole env content base s) (a : Allocator) (p : ℕ)
      (step : Advance s.allocator p a) where
    module _ (disk : D) (same : (x : ℕ) → x ≢ p → content disk x ≡ content s.disk x) (n : ℕ)
        (k q : ℕ) (at : located env content base s k ≡ some q)
        (copied : content disk p ≡ content s.disk q) where
      abbrev moved_to : ZnsLsm D X
      moved_to = written env content base world s w a p step disk same n

      moved_data :
          (t : ZnsLsm D X)
          → IsReady env t
          → Aside env moved_to t
          → ((j : ℕ) → memory_of env t j ≡ (if j == k then some p else memory_of env s j))
          → (j : ℕ) → data_of env content base t j ≡ data_of env content base s j
      unfolding written
      moved_data t ready aside now j = elim (Bool-cases (j == k)) [
        | inl this ↦
            let j_k : j ≡ k = ground (arith, this) in
            let there : located env content base t j ≡ some p =
              now_at env content base world s w a p step disk same n k (w.range k q at) t ready
                aside now j
              ∙ ground (arith, this) in
            let was : located env content base s j ≡ some q =
              ap (located env content base s) j_k ∙ at in
            rw (there, was) (ap some (ap (λ d. content d p) aside.disk ∙ copied))
        | inr other ↦
            other_data env content base world s w a p step disk same n k (w.range k q at) t ready
              aside now aside.disk j other
      ]

      published-MovedTo : (r : Ret × ZnsLsm D X) → Settled env moved_to k p r → MovedTo s k p r
      unfolding written
      published-MovedTo _ (Settled.unsettled e t ready aside now loads halted) =
          not_moved s t k p (err e) (λ h. absurd (ground arith))
            record {
              whole =
                  unsettled-IsWhole env content base world s w a p step disk same n k
                    (w.range k q at) t ready aside now loads;
              data_same =
                  unsettled-data env content base world s w a p step disk same n k (w.range k q at)
                    t ready aside now;
              frame =
                  subst (Frame s.allocator) (sym aside.allocator)
                    (Advance-Frame s.allocator a p w.ready.zones step);
              block_same = aside.block;
              sstables_same = aside.sstables;
              flushing_same = aside.flushing;
            }
      published-MovedTo _ (Settled.settled t ready aside now loads halted) = record {
        kept = record {
          whole =
              settled-IsWhole env content base world s w a p step disk same n k (w.range k q at) t
                ready aside now loads;
          data_same = moved_data t ready aside now;
          frame =
              subst (Frame s.allocator) (sym aside.allocator)
                (Advance-Frame s.allocator a p w.ready.zones step);
          block_same = aside.block;
          sstables_same = aside.sstables;
          flushing_same = aside.flushing;
        };
        at_p = λ _.
            now_at env content base world s w a p step disk same n k (w.range k q at) t ready aside
              now k
            ∙ ap (λ b. if b then some p else located env content base s k) (eq→== k k refl);
      }

    counted : (k : ℕ) (r : Ret × ZnsLsm D X) → MovedTo s k p r → MovedTo s k p (moved env r)
    counted k (ok, t) h = record {
      kept = Kept-trans env content base world s t (move_counted env t) h.kept (
          Kept-of env content base world t (move_counted env t) h.kept.whole refl refl refl refl
            refl refl refl (λ x. refl));
      at_p = λ _. h.at_p refl;
    }
    counted k (err e, t) h = h
    counted k (fault, t) h = h

    module _ (k q : ℕ) (at : located env content base s k ≡ some q) (buffer : Block)
        (source : buffer ≡ content s.disk q) where
      abbrev attempts : ℕ
      attempts = add64 s.gc_move_write_attempts 1

      before_write : ZnsLsm D X
      before_write = record s { allocator = a; gc_move_write_attempts = attempts }

      after_write :
          (r : Ret × Block × D)
          → block_write env.layer s.disk p buffer ≡ r
          → MovedTo s k p (
              then_do
                (wrote env before_write r)
                (λ t. moved env (publish_write env t (k * t.sectors_per_block % u64_mod) p)))
      unfolding before_write written
      after_write (ret, out, disk) e = cases ret e
        where
          same :
              (ret : Ret)
              → block_write env.layer s.disk p buffer ≡ (ret, out, disk)
              → (x : ℕ) → x ≢ p
              → content disk x ≡ content s.disk x
          same ret e x ne =
              ap (λ (r : Ret × Block × D). content r.2 x) (sym e)
              ∙ world.confined s.disk p buffer x ne

          cases :
              (ret : Ret)
              → block_write env.layer s.disk p buffer ≡ (ret, out, disk)
              → MovedTo s k p (
                  then_do
                    (wrote env before_write (ret, out, disk))
                    (λ t. moved env (publish_write env t (k * t.sectors_per_block % u64_mod) p)))
          cases (err x) e =
              not_moved s _ k p (err x) (λ h. absurd (ground arith))
                (written-Kept env content base world s w a p step disk (same (err x) e) attempts)
          cases fault e =
              not_moved s _ k p fault (λ h. absurd (ground arith))
                (written-Kept env content base world s w a p step disk (same fault e) attempts)
          cases ok e =
              counted k
                (publish_write env
                  (written env content base world s w a p step disk (same ok e) attempts) _ p)
                (published-MovedTo disk (same ok e) attempts k q at
                  (world.dev.writes s.disk disk p buffer out e p
                    ∙ (ap (λ c. if c then buffer else content s.disk p) (eq→== p p refl) ∙ source))
                  (publish_write env
                    (written env content base world s w a p step disk (same ok e) attempts) _ p)
                  (publish-Settled env content base world s w a p step disk (same ok e) attempts _ k
                    (back_to env content base world s w a p step disk (same ok e) attempts k
                      (w.range k q at))
                    (w.range k q at)))

      move_to-MovedTo : MovedTo s k p (move_to env (record s { allocator = a }) k p buffer)
      unfolding before_write written
      move_to-MovedTo = elim (Bool-cases (injected env.fail_gc_move_write_at attempts)) [
        | inl fails ↦
            rw (move_to, fails)
              (not_moved s _ k p (err Errno.eio) (λ h. absurd (ground arith))
                (written-Kept env content base world s w a p step s.disk (λ x ne. refl) attempts))
        | inr goes ↦ rw (move_to, goes) (after_write (block_write env.layer s.disk p buffer) refl)
      ]

  module _ (s : ZnsLsm D X) (w : IsWhole env content base s) (k q : ℕ)
      (at : located env content base s k ≡ some q)
      (lt : s.allocator.reserve_zone < s.allocator.nr_zones) where
    -- With the block of the allocator, or without.
    reserve_moved :
        (z : ZnsZone)
        → get_elem? s.allocator.zones s.allocator.reserve_zone ≡ some z
        → (r : Ret × ZnsLsm D X) → MovedTo s k z.write_pointer r
        → Relocated s k r
    reserve_moved z e r h = record { kept = h.kept; in_reserve = λ done. (z, e, h.at_p done) }

    destination-Relocated :
        (buffer : Block)
        → buffer ≡ content s.disk q
        → Relocated s k (destination env s k buffer (alloc_gc (some s.allocator) (some 0)))
    destination-Relocated buffer source =
        let (z, e) =
          get_elem?-some s.allocator.zones s.allocator.reserve_zone
            (omega (arith, w.ready.zones.count, lt)) in
        let answer = alloc_gc_lem s.allocator 0 z lt e in
        elim (Bool-cases (can_append z s.allocator.sectors_per_block)) [
          | inl has_room ↦
              let given : alloc_gc (some s.allocator) (some 0)
                  ≡ (ok, some z.write_pointer, some (moved_gc s.allocator z)) =
                answer ∙ ground (arith, has_room) in
              subst⁻¹
                (λ (r : Ret × Ptr ℕ × Ptr Allocator). Relocated s k (destination env s k buffer r))
                given
                (reserve_moved z e _ (
                  move_to-MovedTo s w (moved_gc s.allocator z) z.write_pointer
                    (alloc_gc-Advance s.allocator (moved_gc s.allocator z) 0 z.write_pointer
                      w.ready.zones lt given)
                    k q at buffer source))
          | inr no_room ↦
              let refused : alloc_gc (some s.allocator) (some 0)
                  ≡ (err Errno.enospc, some 0, some s.allocator) =
                answer ∙ ground (arith, no_room) in
              subst⁻¹
                (λ (r : Ret × Ptr ℕ × Ptr Allocator). Relocated s k (destination env s k buffer r))
                refused
                (record {
                  kept = Kept-refl env content base world s w;
                  in_reserve = λ h. absurd (ground arith);
                })
        ]

  -- The move of a live block changes the data of no block and keeps the indexes in agreement, whether
  -- the read of its source, the choice of a place, the write of the copy or its publication fails, or
  -- none of them; and if it reports success, the block is at the write pointer of the reserve. (Conditions: the indexes agree with what a read finds; a write changes at most the
  -- sector it covers, and what the device reads without an error is what is there; the block is live
  -- at that sector, and the reserve is a zone of the device.)
  pub gc_relocate_block-Relocated :
      (s : ZnsLsm D X) (k q : ℕ) (buffer : Block)
      → IsWhole env content base s
      → located env content base s k ≡ some q
      → s.allocator.reserve_zone < s.allocator.nr_zones
      → Relocated s k (gc_relocate_block env s k q buffer)
  unfolding gc_relocate_block
  gc_relocate_block-Relocated s k q buffer w at lt =
      by_read (block_read env.layer s.disk q buffer) refl
    where
      by_read :
          (r : Ret × Block × D)
          → block_read env.layer s.disk q buffer ≡ r
          → Relocated s k (source_read env k s r)
      by_read (ret, out, disk) e = by_ret ret e
        where
          same :
              (ret : Ret)
              → block_read env.layer s.disk q buffer ≡ (ret, out, disk)
              → (x : ℕ) → content disk x ≡ content s.disk x
          same ret e x =
              ap (λ (r : Ret × Block × D). content r.2 x) (sym e)
              ∙ world.dev.reads_keep s.disk q buffer x

          read :
              (ret : Ret)
              → block_read env.layer s.disk q buffer ≡ (ret, out, disk)
              → Kept env content base world s (record s { disk = disk })
          read ret e =
              Kept-of env content base world s (record s { disk = disk }) w refl refl refl refl refl
                refl refl (same ret e)

          by_ret :
              (ret : Ret)
              → block_read env.layer s.disk q buffer ≡ (ret, out, disk)
              → Relocated s k (source_read env k s (ret, out, disk))
          by_ret (err x) e = record {
            kept = read (err x) e;
            in_reserve = λ h. absurd (ground arith);
          }
          by_ret fault e = record { kept = read fault e; in_reserve = λ h. absurd (ground arith) }
          by_ret ok e =
              let rest =
                destination-Relocated (record s { disk = disk }) (read ok e).whole k q at lt out
                  (world.dev.reads s.disk disk q buffer out e ∙ sym (same ok e q)) in
              record {
                kept =
                    Kept-trans env content base world s (record s { disk = disk }) _ (read ok e)
                      rest.kept;
                in_reserve = rest.in_reserve;
              }
