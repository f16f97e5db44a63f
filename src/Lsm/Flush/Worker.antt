-- ===== src/Lsm/Flush/Worker.antt =====
-- src/engines/zns-engine-lsm.c: a run of the flush worker ends, and what it leaves.
use mathlib.Core.Path.{subst⁻¹}
use dm_zns_base.Prelude.{
  ℕ, zero, suc, ◌+◌, ◌≤◌, ◌<◌, ◌≡◌, ◌≢◌, refl, sym, ◌∙◌, ap, Bool, false, none, some, arith,
  Option-cases, inl, inr,
}
use dm_zns_base.Kernel.{Ret, ok, err, fault, Ptr, is_live}
use dm_zns_base.Memtable.{Memtable}
use dm_zns_base.Block.{Block}
use dm_zns_base.Lsm.State.{Env, ZnsLsm, then_do}
use dm_zns_base.Lsm.Flush.{
  claim_flush_victim, write_victim, maybe_queue_flush, finish_flush, flush_round, flush_loop,
  flush_worker,
}
use dm_zns_base.Lsm.Flush.Steps.{
  IsWorld, IsStore, Same, claim_eq, claim-Same, Attempt, write_victim-Attempt,
}

-- The frozen tables that are not on the device.
abbrev pub left : {D X : Type 0} → ZnsLsm D X → ℕ
left s = is_live s.flushing + is_live s.tables.immutable

module _ {D X : Type 0} (env : Env D X) (content : D → ℕ → Block)
    (world : IsWorld env content) where
  Same-trans :
      (s t u : ZnsLsm D X) (v : IsStore env content world s)
      → (h : Same env content world s v t) → Same env content world t h.0 u
      → Same env content world s v u
  Same-trans s t u v (v', same, l) (v'', same', l') =
      (v'', (λ k. same' k ∙ same k), omega (arith, l, l'))

  -- How the loop ends: with both slots empty, or on an error, with a table left.
  pub record Drained (s : ZnsLsm D X) (v : IsStore env content world s) (r : Ret) (t : ZnsLsm D X)
      : Type 0 where
    pub same : Same env content world s v t
    pub ended : r ≢ fault
    pub empty : r ≡ ok → (t.flushing ≡ none) × (t.tables.immutable ≡ none)
    pub kept : r ≢ ok → t.flushing ≢ none

  Drained-trans :
      (s t : ZnsLsm D X) (v : IsStore env content world s) (r : Ret × ZnsLsm D X)
      → (h : Same env content world s v t) → Drained t h.0 r.0 r.1
      → Drained s v r.0 r.1
  Drained-trans s t v r h d = record {
    same = Same-trans s t r.1 v h d.same;
    ended = d.ended;
    empty = d.empty;
    kept = d.kept;
  }

  -- The state that the loop goes on with has one table less.
  claim-left :
      (s t : ZnsLsm D X) (f : Memtable)
      → (claim_flush_victim s).flushing ≡ some f
      → t.flushing ≡ none
      → t.tables ≡ (claim_flush_victim s).tables
      → left t < left s
  claim-left s t f e none_left same = elim (claim_eq env content world s) [
    | inl (g, is, here) ↦
        let im : t.tables.immutable ≡ s.tables.immutable =
          ap (λ x. x.immutable) same ∙ ap (λ (u : ZnsLsm D X). u.tables.immutable) here in
        omega (arith, ap is_live none_left, ap is_live is, ap is_live im)
    | inr (is, here) ↦
        let im : t.tables.immutable ≡ none =
          ap (λ x. x.immutable) same ∙ ap (λ (u : ZnsLsm D X). u.tables.immutable) here in
        let was : s.tables.immutable ≡ some f =
          sym (ap (λ (u : ZnsLsm D X). u.flushing) here) ∙ e in
        omega (arith, ap is_live none_left, ap is_live is, ap is_live im, ap is_live was)
  ]

  -- What follows an attempt, when the rest of the loop does as it should.
  attempted-Drained :
      (n : ℕ) (s : ZnsLsm D X) (v : IsStore env content world s) (r : Ret × ZnsLsm D X)
      (f : Memtable)
      → (c : Same env content world s v (claim_flush_victim s))
      → ((t : ZnsLsm D X) (u : IsStore env content world t)
          → left t < left s
          → Drained t u (flush_loop env n t).0 (flush_loop env n t).1)
      → (claim_flush_victim s).flushing ≡ some f
      → Attempt env content world (claim_flush_victim s) c.0 r.0 r.1
      → Drained s v (then_do r (flush_loop env n)).0 (then_do r (flush_loop env n)).1
  attempted-Drained n s v (ok, t) f c rest e a =
      Drained-trans s t v (flush_loop env n t) (Same-trans s (claim_flush_victim s) t v c a.same)
        (rest t _ (claim-left s t f e (a.released refl) a.tables_same))
  attempted-Drained n s v (err x, t) f c rest e a = record {
    same = Same-trans s (claim_flush_victim s) t v c a.same;
    ended = λ y. absurd (ground arith);
    empty = λ y. absurd (ground arith);
    kept = λ y z. absurd (ground (arith, sym z ∙ (a.retained y ∙ e)));
  }
  attempted-Drained n s v (fault, t) f c rest e a = absurd (a.ended refl)

  abbrev Round : (s : ZnsLsm D X) → IsStore env content world s → ℕ → Ptr Memtable → Type 0
  Round s v n p =
      Drained s v (flush_round env (flush_loop env n) (claim_flush_victim s) p).0
        (flush_round env (flush_loop env n) (claim_flush_victim s) p).1

  flush_loop-Drained :
      (n : ℕ) (s : ZnsLsm D X) (v : IsStore env content world s)
      → left s < n
      → Drained s v (flush_loop env n s).0 (flush_loop env n s).1
  unfolding flush_loop
  flush_loop-Drained zero s v h = absurd (omega (arith, h))
  flush_loop-Drained (suc n) s v h = elim (Option-cases (claim_flush_victim s).flushing) [
    | inl e ↦ subst⁻¹ (Round s v n) e (record {
      same = claim-Same env content world s v;
      ended = λ x. absurd (ground arith);
      empty = λ _. (e, no_immutable e);
      kept = λ x. absurd (x refl);
    })
    | inr (f, e) ↦ subst⁻¹ (Round s v n) e (
        attempted-Drained n s v (write_victim env (claim_flush_victim s) f) f
          (claim-Same env content world s v)
          (λ t u fewer. flush_loop-Drained n t u (omega (arith, fewer, h))) e
          (write_victim-Attempt env content world (claim_flush_victim s) f
            (claim-Same env content world s v).0 e))
  ]
    where
      no_immutable :
          (claim_flush_victim s).flushing ≡ none → (claim_flush_victim s).tables.immutable ≡ none
      no_immutable e = elim (claim_eq env content world s) [
        | inl (g, is, here) ↦
            absurd (ground (arith, sym e ∙ (ap (λ (u : ZnsLsm D X). u.flushing) here ∙ is)))
        | inr (is, here) ↦ ap (λ (u : ZnsLsm D X). u.tables.immutable) here
      ]

  -- A change of the two flags of the worker.
  abbrev pub flags : ZnsLsm D X → Bool → Bool → ZnsLsm D X
  flags s in_flight queued = record s { flush_in_flight = in_flight; flush_queued = queued }

  flags-Same :
      (s : ZnsLsm D X) (in_flight queued : Bool) (v : IsStore env content world s)
      → Same env content world s v (flags s in_flight queued)
  flags-Same s in_flight queued v = (
    record {
      readable = record {
        memory = v.readable.memory;
        runs = v.readable.runs;
        listed = v.readable.listed;
        on_disk = v.readable.on_disk;
      };
      flushing_valid = v.flushing_valid;
      immutable_fits = v.immutable_fits;
      flushing_fits = v.flushing_fits;
      end_small = v.end_small;
    },
    (λ k. refl),
    omega arith,
  )

  finish-idle :
      (t : ZnsLsm D X)
      → t.flushing ≡ none
      → t.tables.immutable ≡ none
      → finish_flush (ok, t) ≡ (ok, record t { flush_in_flight = false })
  unfolding finish_flush maybe_queue_flush
  finish-idle t e e' = rw (e, e') refl

  -- What a run of the worker leaves.
  pub record Flushed (s : ZnsLsm D X) (v : IsStore env content world s) (r : Ret) (t : ZnsLsm D X)
      : Type 0 where
    pub same : Same env content world s v t
    pub ended : r ≢ fault
    pub empty : r ≡ ok → (t.flushing ≡ none) × (t.tables.immutable ≡ none)
    pub kept : r ≢ ok → t.flushing ≢ none
    pub idle : t.flush_in_flight ≡ false

  finish-Flushed :
      (s : ZnsLsm D X) (v : IsStore env content world s) (r : Ret × ZnsLsm D X)
      → Drained s v r.0 r.1
      → Flushed s v (finish_flush r).0 (finish_flush r).1
  unfolding finish_flush
  finish-Flushed s v (ok, t) d =
      subst⁻¹ (λ (q : Ret × ZnsLsm D X). Flushed s v q.0 q.1)
        (finish-idle t (d.empty refl).0 (d.empty refl).1)
        (record {
          same =
              Same-trans s t (flags t false t.flush_queued) v d.same
                (flags-Same t false t.flush_queued d.same.0);
          ended = d.ended;
          empty = d.empty;
          kept = d.kept;
          idle = refl;
        })
  finish-Flushed s v (err e, t) d = record {
    same =
        Same-trans s t (flags t false t.flush_queued) v d.same
          (flags-Same t false t.flush_queued d.same.0);
    ended = d.ended;
    empty = d.empty;
    kept = d.kept;
    idle = refl;
  }
  finish-Flushed s v (fault, t) d = absurd (d.ended refl)

  -- On a device that keeps its blocks, whose layer answers every write and never with -ENODATA, a run
  -- of the flush worker ends, no later read answers differently, and the write pointer of the log has
  -- not gone back. After a success both frozen tables are on the device; after a failure one is still
  -- in the flushing slot. (Conditions: the tables in memory are valid and hold 64-bit numbers, fewer
  -- than 2 ^ 32 entries each, the list of tables is on the device below the write pointer of the log,
  -- whose end is a 64-bit number, memory, and no other thread in between.)
  pub flush_worker-Flushed :
      (s : ZnsLsm D X)
      → (v : IsStore env content world s)
      → Flushed s v (flush_worker env s).0 (flush_worker env s).1
  unfolding flush_worker
  flush_worker-Flushed s v =
      let first = flags-Same s s.flush_in_flight false v in
      finish-Flushed s v (flush_loop env 3 (record s { flush_queued = false })) (
        Drained-trans s (flags s s.flush_in_flight false) v _ first
          (flush_loop-Drained 3 (record s { flush_queued = false }) first.0 (few s)))
    where
      live-le : {A : Type 0} (p : Ptr A) → is_live p ≤ 1
      live-le none = omega arith
      live-le (some x) = omega arith

      few : (s : ZnsLsm D X) → left (record s { flush_queued = false }) < 3
      few s = omega (arith, live-le s.flushing, live-le s.tables.immutable)
