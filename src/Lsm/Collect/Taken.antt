-- ===== src/Lsm/Collect/Taken.antt =====
-- src/engines/zns-engine-lsm.c: a write to a sector that was just allocated, and its publication. No
-- block is there.
use native.Mathlib.Nat.{mul-div_cancel, mod-eq_of_lt, le-mul_of_pos_right}
use mathlib.Core.Option
use mathlib.Core.Path.{subst}
use mathlib.Core.Option.{some-injective}
use dm_zns_base.Prelude.{
  ℕ, suc, ◌*◌, ◌/◌, ◌%◌, ◌<◌, ◌≡◌, ◌≢◌, refl, sym, ◌∙◌, ap, Bool, true, false, Option, some, ◌==◌,
  if◌then◌else◌, u64_mod, arith, Bool-cases, Option-cases, inl, inr,
}
use dm_zns_base.Kernel.{Ret, ok}
use dm_zns_base.Block.{Block}
use dm_zns_base.Allocator.{Allocator}
use dm_zns_base.Generations.Compact.{over}
use dm_zns_base.Lsm.Index.{slot_of, slot_at}
use dm_zns_base.Lsm.Index.Agree.{At, Matches}
use dm_zns_base.Lsm.State.{Env, ZnsLsm}
use dm_zns_base.Lsm.Publish.{publish_write}
use dm_zns_base.Lsm.Publish.Agreement.{
  IsReady, Aside, memory_of, Published, Settled, publish_write-Published, Published-Settled,
}
use dm_zns_base.Lsm.Publish.Fresh.{
  Advance, Advance-Frame, IsTidy, new_slot, new-free, Advance-At, Advance-new,
}
use dm_zns_base.Lsm.Collect.Kept.{Kept, data-same}
use dm_zns_base.Lsm.Collect.Whole.{IsGround, IsWhole, IsWhole-of, IsWhole-Advance, located, data_of}

pub bound-lt : (a b n : ℕ) → 0 < b → a * b < n → a < n
bound-lt a b n pos h = omega (arith, le-mul_of_pos_right {m = b} a pos, h)

choose :
    (b : Bool) (p : ℕ) (x y : Option ℕ)
    → over (if b then some p else x) y ≡ (if b then some p else over x y)
choose true p x y = refl
choose false p x y = refl

choose_suc :
    (b : Bool) (p : ℕ) (x : Option ℕ)
    → (if b then some (suc p) else Option.map suc x) ≡ Option.map suc (if b then some p else x)
choose_suc true p x = refl
choose_suc false p x = refl

module _ {D X : Type 0} (env : Env D X) (content : D → ℕ → Block) (base : ℕ → Option ℕ)
    (world : IsGround env content) where
  module _ (s : ZnsLsm D X) (w : IsWhole env content base s) (a : Allocator) (p : ℕ)
      (step : Advance s.allocator p a) where
    taken : ZnsLsm D X
    taken = record s { allocator = a }

    new-At : At a s.sectors_per_block p step.zone (new_slot s.allocator a p w.ready.zones step)
    new-At =
        subst (λ b. At a b p step.zone (new_slot s.allocator a p w.ready.zones step))
          w.ready.same_block (Advance-new s.allocator a p w.ready.zones step w.tidy)

    agreed :
        Matches
          (env.xa.load s.indexes.latest)
          s.allocator
          s.allocator.sectors_per_block
          w.ready.agree.zones
    agreed =
        subst (λ b. Matches (env.xa.load s.indexes.latest) s.allocator b w.ready.agree.zones)
          (sym w.ready.same_block) w.ready.agree.matches

    new_free :
        slot_of w.ready.agree.zones step.zone (new_slot s.allocator a p w.ready.zones step) ≡ some 0
    new_free =
        new-free s.allocator a p w.ready.zones step (env.xa.load s.indexes.latest)
          w.ready.agree.zones w.tidy agreed

    -- No block is at the sector.
    pub unowned : (k q : ℕ) → located env content base s k ≡ some q → q ≢ p
    unowned k q h same =
        let known = w.known k ∙ ap (Option.map suc) h in
        let (q', is, held) = agreed.forward k (suc q) known in
        let here : q' ≡ p = omega (arith, is, same) in
        let at = Advance-At s.allocator a p w.ready.zones step p (
          subst (λ x. At s.allocator s.allocator.sectors_per_block x held.zone held.slot) here
            held.at) in
        let new = Advance-new s.allocator a p w.ready.zones step w.tidy in
        let slots : (ok, held.zone, held.slot)
            ≡ (ok, step.zone, new_slot s.allocator a p w.ready.zones step) =
          sym at ∙ new in
        let owned =
          sym (ap (λ (r : Ret × ℕ × ℕ). slot_of w.ready.agree.zones r.1 r.2) slots)
          ∙ held.recorded in
        let free : slot_of w.ready.agree.zones step.zone
              (new_slot s.allocator a p w.ready.zones step)
            ≡ some 0 =
          new_free in
        let both : some (suc k) ≡ some 0 = sym owned ∙ free in absurd (ground (arith, both))

    -- After a write to the sector, with any outcome.
    module _ (disk : D) (same : (x : ℕ) → x ≢ p → content disk x ≡ content s.disk x) (n : ℕ) where
      unfoldable pub written : ZnsLsm D X
      written = record s { allocator = a; gc_move_write_attempts = n; disk = disk }

      pub written-Kept : Kept env content base world s written
      unfolding written
      written-Kept = record {
        whole =
            IsWhole-of env content base (record s { allocator = a }) written refl refl refl refl
              refl refl (IsWhole-Advance env content base s a p w step);
        data_same =
            data-same env content base world s written (λ k. refl)
              (λ k q h. same q (unowned k q h));
        frame = Advance-Frame s.allocator a p w.ready.zones step;
        block_same = refl;
        sstables_same = refl;
        flushing_same = refl;
      }

      -- The sector of the allocator has a slot of its own: the publication settles.
      pub block_pos : 0 < s.sectors_per_block
      block_pos = omega (arith, w.ready.zones.block_pos, w.ready.same_block)

      -- The first sector of a block is in the block.
      pub back_to :
          (k : ℕ)
          → suc k * s.sectors_per_block < u64_mod
          → k * s.sectors_per_block % u64_mod / s.sectors_per_block ≡ k
      back_to k fits =
          ap (λ x. x / s.sectors_per_block) (mod-eq_of_lt (grind (arith, fits, block_pos)))
          ∙ mul-div_cancel k block_pos

      pub publish-Settled :
          (l k : ℕ)
          → l / s.sectors_per_block ≡ k
          → suc k * s.sectors_per_block < u64_mod
          → Settled env written k p (publish_write env written l p)
      unfolding written
      publish-Settled l k here fits =
          Published-Settled env world.array written k p _ new-At
            (ap (λ gs. slot_at gs step.zone (new_slot s.allocator a p w.ready.zones step))
                w.ready.agree.present
              ∙ new_free)
            (subst (λ j. Published env written j p (publish_write env written l p)) here
              (publish_write-Published env world.array world.tree written l p
                written-Kept.whole.ready
                (rw here (bound-lt (suc k) s.sectors_per_block u64_mod block_pos fits))))

      -- The publication for block `k`, wherever it was before.
      module _ (k : ℕ) (fits : suc k * s.sectors_per_block < u64_mod) (t : ZnsLsm D X)
          (ready : IsReady env t) (aside : Aside env written t) where
        tidy : IsTidy t.allocator
        unfolding written
        tidy = subst IsTidy (sym aside.allocator) written-Kept.whole.tidy

        pub unsettled-IsWhole :
            ((j : ℕ) → memory_of env t j ≡ memory_of env s j)
            → ((j : ℕ) → env.xa.load t.indexes.latest j ≡ env.xa.load s.indexes.latest j)
            → IsWhole env content base t
        unfolding written
        unsettled-IsWhole now loads = record {
          ready = ready;
          tidy = tidy;
          known =
              λ j. loads j ∙ (w.known j ∙ ap (λ x. Option.map suc (over x (base j))) (sym (now j)));
          range =
              λ j x h. rw aside.block (w.range j x (sym (ap (λ y. over y (base j)) (now j)) ∙ h));
        }

        pub unsettled-data :
            ((j : ℕ) → memory_of env t j ≡ memory_of env s j)
            → (j : ℕ) → data_of env content base t j ≡ data_of env content base s j
        unfolding written
        unsettled-data now =
            data-same env content base world s t (λ j. ap (λ x. over x (base j)) (now j))
              (λ j x h. ap (λ d. content d x) aside.disk ∙ same x (unowned j x h))

        module _
            (now : (j : ℕ)
              → memory_of env t j ≡ (if j == k then some p else memory_of env s j)) where
          pub now_at :
              (j : ℕ)
              → located env content base t j
                ≡ (if j == k then some p else located env content base s j)
          now_at j = ap (λ x. over x (base j)) (now j) ∙ choose (j == k) p _ (base j)

          -- Every other block is at a sector that the write left alone.
          pub other_data :
              t.disk ≡ disk
              → (j : ℕ) → (j == k) ≡ false
              → data_of env content base t j ≡ data_of env content base s j
          other_data here j other =
              let there : located env content base t j ≡ located env content base s j =
                now_at j ∙ ground (arith, other) in
              ap (Option.map (content t.disk)) there
              ∙ (elim (Option-cases (located env content base s j)) [
                | inl e ↦ rw e refl
                | inr (x, e) ↦ rw e (ap some (ap (λ d. content d x) here ∙ same x (unowned j x e)))
              ])

          pub settled-IsWhole :
              ((j : ℕ)
                → env.xa.load t.indexes.latest j
                  ≡ (if j == k then some (suc p) else env.xa.load s.indexes.latest j))
              → IsWhole env content base t
          unfolding written
          settled-IsWhole loads = record {
            ready = ready;
            tidy = tidy;
            known = λ j.
                loads j
                ∙ (ap (λ x. if j == k then some (suc p) else x) (w.known j)
                    ∙ (choose_suc (j == k) p (located env content base s j)
                        ∙ ap (Option.map suc) (sym (now_at j))));
            range = λ j x h. rw aside.block (elim (Bool-cases (j == k)) [
              | inl this ↦
                  subst (λ i. suc i * s.sectors_per_block < u64_mod) (ground (arith, this)) fits
              | inr other ↦ w.range j x (sym (now_at j ∙ ground (arith, other)) ∙ h)
            ]);
          }
