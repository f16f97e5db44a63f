-- ===== src/Lsm/Flush/Steps.antt =====
-- src/engines/zns-engine-lsm.c: no step of a flush changes what a read answers.
use mathlib.Core.Option
use mathlib.Core.Path.{subst, subst⁻¹}
use dm_zns_base.Prelude.{
  ℕ, ◌+◌, ◌≤◌, ◌<◌, ◌≡◌, ◌≢◌, refl, sym, ◌∙◌, ap, Bool, true, Option, none, some, List, [], ◌∷◌,
  ◌==◌, ltb, if◌then◌else◌, length, u32_mod, u64_mod, arith, Bool-cases, Option-cases, inl, inr,
  ◌⊎◌, add64, not, ◌&&◌, ◌||◌,
}
use dm_zns_base.Kernel.{Errno, Ret, ok, err, fault, Ptr}
use dm_zns_base.Memtable.{Entry, Memtable, Rbtree, IsRbtree}
use dm_zns_base.Memtable.Sorted.{find_in}
use dm_zns_base.Sstable.Scan.{Growing, scan_memtable-Scanned}
use dm_zns_base.Memtable.Laws.{IsValid}
use dm_zns_base.Block.{Block}
use dm_zns_base.Block.Io.{IsDevice}
use dm_zns_base.Generations.Compact.{over}
use dm_zns_base.Generations.Active.{IsValidPtr, reads, reading_at}
use dm_zns_base.Sstable.{Sstable}
use dm_zns_base.Sstable.Writer.{write_table, zeroed_sstable}
use dm_zns_base.Sstable.Found.{AllInRange}
use dm_zns_base.Sstable.Agree.{walk-Growing, reading-walk}
use dm_zns_base.Sstable.Written.{Stored, write_table-Stored}
use dm_zns_base.Sstable.Confined.{IsConfined, write_table-SameBelow}
use dm_zns_base.Sstable.Outcome.{IsPlain, IsPlainLayer, write_table-IsPlain, write_table-empty}
use dm_zns_base.Lsm.State.{Env, ZnsLsm}
use dm_zns_base.Lsm.Reading.Log.{Run, OnDisk, AllOnDisk-kept, log_reading, run_reading, Runs, table}
use dm_zns_base.Lsm.Reading.Newest.{IsReadable, mapping}
use dm_zns_base.Lsm.Flush.{
  maybe_queue_flush, present, claim_flush_victim, give_up, advance_meta_wp, attempted, write_victim,
  publish_sstable, release_flush_victim,
}

-- Where the write pointer of the log goes.
abbrev raised : ℕ → ℕ → ℕ
raised wp consumed =
    if consumed == 0 then wp else if ltb wp (add64 wp consumed) then add64 wp consumed else wp

raised-upper : (wp consumed : ℕ) → wp ≤ raised wp consumed
raised-upper wp consumed = ground arith

give_up_eq :
    {D X : Type 0} (s : ZnsLsm D X) (consumed : ℕ)
    → give_up s consumed ≡ record s { meta_wp = raised s.meta_wp consumed }
unfolding give_up advance_meta_wp
give_up_eq s consumed = elim (Bool-cases (consumed == 0)) [ inl e ↦ rw e refl | inr e ↦ rw e refl ]

-- The worker is queued, or nothing is changed: two flags at most.
pub maybe_queue_eq :
    {D X : Type 0} (s : ZnsLsm D X)
    → (in_flight : Bool) × (queued : Bool) × (maybe_queue_flush s
        ≡ record s { flush_in_flight = in_flight; flush_queued = queued })
unfolding maybe_queue_flush
maybe_queue_eq s =
    elim (Bool-cases
      (not s.flush_in_flight && (present s.tables.immutable || present s.flushing))) [
        | inl e ↦ (true, true, rw e refl)
        | inr e ↦ (s.flush_in_flight, s.flush_queued, rw e refl)
      ]

over_assoc : (a b c : Option ℕ) → over (over a b) c ≡ over a (over b c)
over_assoc none b c = refl
over_assoc (some p) b c = refl

over-none : (a : Option ℕ) → over a none ≡ a
over-none none = refl
over-none (some p) = refl

-- A memory table that a table on the device can hold.
abbrev pub Fits : Rbtree → Ptr Memtable → Type 0
Fits rb none = Unit
Fits rb (some m) = (length (rb.walk m.root) < u32_mod) × AllInRange (rb.walk m.root)

-- The block layer and the tree that a flush relies on.
pub record IsWorld {D X : Type 0} (env : Env D X) (content : D → ℕ → Block) : Type 0 where
  pub dev : IsDevice env.layer content
  pub confined : IsConfined env.layer content
  pub plain : IsPlainLayer env.layer
  pub tree : IsRbtree env.rb
  pub granted : (n : ℕ) → env.grants n ≡ true

enodata-cases : (e : Errno) → (e ≡ Errno.enodata) ⊎ (e ≢ Errno.enodata)
enodata-cases Errno.enodata = inl refl
enodata-cases Errno.eio = inr (λ h. absurd (ground arith))
enodata-cases Errno.enomem = inr (λ h. absurd (ground arith))
enodata-cases Errno.ebusy = inr (λ h. absurd (ground arith))
enodata-cases Errno.eexist = inr (λ h. absurd (ground arith))
enodata-cases Errno.enodev = inr (λ h. absurd (ground arith))
enodata-cases Errno.einval = inr (λ h. absurd (ground arith))
enodata-cases Errno.enospc = inr (λ h. absurd (ground arith))
enodata-cases Errno.eoverflow = inr (λ h. absurd (ground arith))
enodata-cases Errno.eopnotsupp = inr (λ h. absurd (ground arith))
enodata-cases (Errno.other n) = inr (λ h. absurd (ground arith))

List-cases : (es : List Entry) → (es ≡ []) ⊎ (0 < length es)
List-cases [] = inl refl
List-cases (x ∷ es) = inr (omega arith)

module _ {D X : Type 0} (env : Env D X) (content : D → ℕ → Block)
    (world : IsWorld env content) where
  -- A state that a read sees, whose frozen tables fit on the device.
  pub record IsStore (s : ZnsLsm D X) : Type 0 where
    pub readable : IsReadable env content world.dev s
    pub flushing_valid : IsValidPtr s.flushing
    pub immutable_fits : Fits env.rb s.tables.immutable
    pub flushing_fits : Fits env.rb s.flushing
    pub end_small : s.meta_end < u64_mod

  abbrev pub maps : (s : ZnsLsm D X) → IsStore s → ℕ → Option ℕ
  maps s v = mapping env content world.dev s v.readable

  -- What is the same in a later state.
  abbrev pub Same : (s : ZnsLsm D X) → IsStore s → ZnsLsm D X → Type 0
  Same s v t = (v' : IsStore t) × ((k : ℕ) → maps t v' k ≡ maps s v k) × (s.meta_wp ≤ t.meta_wp)

  -- The state after a claim that found the flushing slot empty.
  abbrev pub claimed : ZnsLsm D X → ZnsLsm D X
  claimed s = record s {
    flushing = s.tables.immutable;
    tables = record s.tables { immutable = none };
  }

  claimed-Same : (s : ZnsLsm D X) (v : IsStore s) → s.flushing ≡ none → Same s v (claimed s)
  claimed-Same s v e = (
    record {
      readable = record {
        memory = record {
          current = v.readable.memory.current;
          is_active = v.readable.memory.is_active;
          active_valid = v.readable.memory.active_valid;
          immutable_valid = tt;
        };
        runs = v.readable.runs;
        listed = v.readable.listed;
        on_disk = v.readable.on_disk;
      };
      flushing_valid = v.readable.memory.immutable_valid;
      immutable_fits = tt;
      flushing_fits = v.immutable_fits;
      end_small = v.end_small;
    },
    (λ k.
        let a = reading_at s.tables.active k in
        let im = reading_at s.tables.immutable k in
        let old = log_reading v.readable.runs k in
        ap (λ x. over (over x im) old) (over-none a)
        ∙ sym (
            ap (λ x. over x old)
              (ap (λ f. over (over a im) (reading_at f k)) e ∙ over-none (over a im)))),
    omega arith,
  )

  pub claim_eq :
      (s : ZnsLsm D X)
      → ((f : Memtable) × (s.flushing ≡ some f) × (claim_flush_victim s ≡ s))
        ⊎ ((s.flushing ≡ none) × (claim_flush_victim s ≡ claimed s))
  unfolding claim_flush_victim
  claim_eq s = elim (Option-cases s.flushing) [
    | inl e ↦ inr (e, rw e refl)
    | inr (f, e) ↦ inl (f, e, rw e refl)
  ]

  -- A claim moves the immutable table to the flushing slot if that is empty, and no read notices.
  pub claim-Same : (s : ZnsLsm D X) (v : IsStore s) → Same s v (claim_flush_victim s)
  claim-Same s v = elim (claim_eq s) [
    | inl (f, e, same) ↦ subst⁻¹ (Same s v) same (v, (λ k. refl), omega arith)
    | inr (e, same) ↦ subst⁻¹ (Same s v) same (claimed-Same s v e)
  ]

  -- What an attempt to write the table of the flushing slot leaves: a state that reads as before,
  -- with the slot empty after a success and as it was after a failure.
  pub record Attempt (s : ZnsLsm D X) (v : IsStore s) (r : Ret) (t : ZnsLsm D X) : Type 0 where
    pub same : Same s v t
    pub tables_same : t.tables ≡ s.tables
    pub released : r ≡ ok → t.flushing ≡ none
    pub retained : r ≢ ok → t.flushing ≡ s.flushing
    pub ended : r ≢ fault

  module _ (s : ZnsLsm D X) (v : IsStore s) (disk : D) (consumed : ℕ)
      (below : (x : ℕ) → x < s.meta_wp → content disk x ≡ content s.disk x) where
    -- The state after the sectors of the attempt are given up, less the requests counted.
    abbrev gave : ZnsLsm D X
    gave = record s { disk = disk; meta_wp = raised s.meta_wp consumed; requests = s.requests + 2 }

    still_on_disk : Runs env content world.dev (raised s.meta_wp consumed) disk v.readable.runs
    still_on_disk =
        AllOnDisk-kept env.layer env.crc32_le content world.dev s.meta_wp
          (raised s.meta_wp consumed) s.disk disk v.readable.runs (raised-upper s.meta_wp consumed)
          below v.readable.on_disk

    -- A failed attempt, which keeps the table in its slot.
    failed-Attempt : (e : Errno) → Attempt s v (err e) gave
    failed-Attempt e = record {
      same = (
        record {
          readable = record {
            memory = v.readable.memory;
            runs = v.readable.runs;
            listed = v.readable.listed;
            on_disk = still_on_disk;
          };
          flushing_valid = v.flushing_valid;
          immutable_fits = v.immutable_fits;
          flushing_fits = v.flushing_fits;
          end_small = v.end_small;
        },
        (λ k. refl),
        raised-upper s.meta_wp consumed,
      );
      tables_same = refl;
      released = λ h. absurd (ground arith);
      retained = λ h. refl;
      ended = λ h. absurd (ground arith);
    }

    -- The slot is emptied, and the reading does not need it.
    dropped-Attempt :
        ((k : ℕ) → reading_at s.flushing k ≡ none)
        → Attempt s v ok (record gave { flushing = none })
    dropped-Attempt unread = record {
      same = (
        record {
          readable = record {
            memory = v.readable.memory;
            runs = v.readable.runs;
            listed = v.readable.listed;
            on_disk = still_on_disk;
          };
          flushing_valid = tt;
          immutable_fits = v.immutable_fits;
          flushing_fits = tt;
          end_small = v.end_small;
        },
        (λ k.
            ap (λ x. over (over (reads s.tables k) x) (log_reading v.readable.runs k))
              (sym (unread k))),
        raised-upper s.meta_wp consumed,
      );
      tables_same = refl;
      released = λ h. refl;
      retained = λ h. absurd (h refl);
      ended = λ h. absurd (ground arith);
    }

    -- The table of the slot is on the device.
    published-Attempt :
        (sst : Sstable) (run : Run) (nr seq total : ℕ)
        → sst ≡ table env.layer env.crc32_le content world.dev run
        → OnDisk env.layer env.crc32_le content world.dev (raised s.meta_wp consumed) disk run
        → ((k : ℕ) → reading_at s.flushing k ≡ run_reading run k)
        → Attempt s v ok (record gave {
          flushing = none;
          sstables = sst ∷ s.sstables;
          nr_sstables = nr;
          nr_sst_entries = total;
          next_sst_seq = seq;
        })
    published-Attempt sst run nr seq total is there reads_same = record {
      same = (
        record {
          readable = record {
            memory = v.readable.memory;
            runs = run ∷ v.readable.runs;
            listed = λ i. is i ∷ v.readable.listed i;
            on_disk = (there, still_on_disk);
          };
          flushing_valid = tt;
          immutable_fits = v.immutable_fits;
          flushing_fits = tt;
          end_small = v.end_small;
        },
        (λ k.
            let old = log_reading v.readable.runs k in
            let now = reads s.tables k in
            ap (λ x. over x (over (run_reading run k) old)) (over-none now)
            ∙ (sym (over_assoc now (run_reading run k) old)
                ∙ ap (λ x. over (over now x) old) (sym (reads_same k)))),
        raised-upper s.meta_wp consumed,
      );
      tables_same = refl;
      released = λ h. refl;
      retained = λ h. absurd (h refl);
      ended = λ h. absurd (ground arith);
    }

  attempted_err :
      (s : ZnsLsm D X) (e : Errno) (sst : Ptr Sstable) (consumed : ℕ) (disk : D)
      → e ≢ Errno.enodata
      → attempted s (err e, sst, consumed, disk)
        ≡ (err e, give_up (record s { disk = disk }) consumed)
  unfolding attempted
  attempted_err s Errno.eio sst consumed disk h = refl
  attempted_err s Errno.enomem sst consumed disk h = refl
  attempted_err s Errno.ebusy sst consumed disk h = refl
  attempted_err s Errno.eexist sst consumed disk h = refl
  attempted_err s Errno.enodev sst consumed disk h = refl
  attempted_err s Errno.einval sst consumed disk h = refl
  attempted_err s Errno.enospc sst consumed disk h = refl
  attempted_err s Errno.enodata sst consumed disk h = absurd (h refl)
  attempted_err s Errno.eoverflow sst consumed disk h = refl
  attempted_err s Errno.eopnotsupp sst consumed disk h = refl
  attempted_err s (Errno.other n) sst consumed disk h = refl

  module _ (s : ZnsLsm D X) (victim : Memtable) (v : IsStore s) (e : s.flushing ≡ some victim) where
    victim_valid : IsValid victim
    victim_valid = subst IsValidPtr e v.flushing_valid

    victim-Fits : Fits env.rb (some victim)
    victim-Fits = subst (Fits env.rb) e v.flushing_fits

    victim-Growing : Growing (env.rb.walk victim.root)
    victim-Growing = walk-Growing env.rb world.tree victim victim_valid

    slot_reading :
        (k : ℕ)
        → reading_at s.flushing k
          ≡ Option.map (λ x. x.physical_sector) (find_in k (env.rb.walk victim.root))
    slot_reading k =
        ap (λ f. reading_at f k) e ∙ sym (reading-walk env.rb world.tree victim k victim_valid)

    -- The result of the write.
    abbrev outcome : Ret × Ptr Sstable × ℕ × D
    outcome =
        write_table env.layer env.crc32_le env.rb (env.grants s.requests)
          (env.grants (s.requests + 1)) s.disk victim s.meta_wp s.meta_end s.next_sst_seq

    abbrev counted_state : ZnsLsm D X
    counted_state = record s { requests = s.requests + 2 }

    abbrev Ended : Ret × Ptr Sstable × ℕ × D → Type 0
    Ended q = Attempt s v (attempted counted_state q).0 (attempted counted_state q).1

    outcome_below : (x : ℕ) → x < s.meta_wp → content outcome.3 x ≡ content s.disk x
    outcome_below =
        write_table-SameBelow env.layer env.crc32_le content world.confined world.dev env.rb
          (env.grants s.requests) (env.grants (s.requests + 1)) s.disk victim s.meta_wp s.meta_end
          s.next_sst_seq victim-Growing victim-Fits.0 v.end_small

    failed-Ended :
        (x : Errno) (sst : Ptr Sstable) (consumed : ℕ) (disk : D)
        → x ≢ Errno.enodata
        → ((y : ℕ) → y < s.meta_wp → content disk y ≡ content s.disk y)
        → Ended (err x, sst, consumed, disk)
    failed-Ended x sst consumed disk ne below =
        subst⁻¹ (λ (q : Ret × ZnsLsm D X). Attempt s v q.0 q.1)
          (attempted_err counted_state x sst consumed disk ne
            ∙ ap (λ g. (err x, g)) (give_up_eq (record counted_state { disk = disk }) consumed))
          (failed-Attempt s v disk consumed below x)

    dropped-Ended :
        (sst : Ptr Sstable) (consumed : ℕ) (disk : D)
        → env.rb.walk victim.root ≡ []
        → ((y : ℕ) → y < s.meta_wp → content disk y ≡ content s.disk y)
        → Ended (err Errno.enodata, sst, consumed, disk)
    unfolding attempted release_flush_victim
    dropped-Ended sst consumed disk none_left below =
        subst⁻¹ (λ g. Attempt s v ok (release_flush_victim g))
          (give_up_eq (record counted_state { disk = disk }) consumed)
          (dropped-Attempt s v disk consumed below (λ k.
            slot_reading k
            ∙ ap (λ es. Option.map (λ x. x.physical_sector) (find_in k es)) none_left))

    -- The write of a memory table without entries.
    empty-Ended : env.rb.walk victim.root ≡ [] → Ended outcome
    empty-Ended none_left =
        let (x, is) =
          write_table-empty env.layer env.crc32_le world.plain env.rb (env.grants s.requests)
            (env.grants (s.requests + 1)) s.disk victim s.meta_wp s.meta_end s.next_sst_seq
            none_left in
        subst⁻¹ Ended is (elim (enodata-cases x) [
          | inl is_enodata ↦
              subst⁻¹ (λ y. Ended (err y, none, 0, s.disk)) is_enodata
                (dropped-Ended none 0 s.disk none_left (λ y lt. refl))
          | inr ne ↦ failed-Ended x none 0 s.disk ne (λ y lt. refl)
        ])

    run_of : ℕ → Run
    run_of consumed = record {
      start = s.meta_wp;
      seq = s.next_sst_seq;
      consumed = consumed;
      entries = env.rb.walk victim.root;
    }

    Stored-Ended :
        (sst : Ptr Sstable) (consumed : ℕ) (disk : D)
        → 0 < length (env.rb.walk victim.root)
        → sst ≡ some (table env.layer env.crc32_le content world.dev (run_of consumed))
        → Stored env.layer env.crc32_le content world.dev
            (env.rb.walk victim.root)
            (table env.layer env.crc32_le content world.dev (run_of consumed))
            consumed
            disk
        → ((y : ℕ) → y < s.meta_wp → content disk y ≡ content s.disk y)
        → Ended (ok, sst, consumed, disk)
    unfolding run_of attempted release_flush_victim publish_sstable
    Stored-Ended sst consumed disk pos is stored below =
        subst⁻¹ (λ x. Ended (ok, x, consumed, disk)) is
          (subst⁻¹
            (λ g. Attempt s v ok (
              release_flush_victim (
                publish_sstable g
                  (table env.layer env.crc32_le content world.dev (run_of consumed)))))
            (give_up_eq (record counted_state { disk = disk }) consumed)
            (published-Attempt s v disk consumed below _ (run_of consumed) _ _ _ refl
              (record {
                growing = victim-Growing;
                small = victim-Fits.0;
                ranges = victim-Fits.1;
                some_entry = pos;
                below = ground (arith, start, stored.used, stored.fits);
                on_disk = stored;
                starts = start;
              })
              slot_reading))
      where
        start :
            (table env.layer env.crc32_le content world.dev (run_of consumed)).start_sector
            ≡ s.meta_wp
        start =
            (scan_memtable-Scanned (env.rb.walk victim.root)
              (record zeroed_sstable { start_sector = s.meta_wp; seq = s.next_sst_seq })
              victim-Growing victim-Fits.0).start_sector

    -- The write of a memory table with entries.
    full-Ended : 0 < length (env.rb.walk victim.root) → Ended outcome
    unfolding run_of
    full-Ended pos =
        let plain =
          write_table-IsPlain env.layer env.crc32_le world.plain env.rb (env.grants s.requests)
            (env.grants (s.requests + 1)) s.disk victim s.meta_wp s.meta_end s.next_sst_seq
            victim-Growing pos victim-Fits.0 in
        let stored =
          write_table-Stored env.layer env.crc32_le content world.dev env.rb (env.grants s.requests)
            (env.grants (s.requests + 1)) s.disk victim s.meta_wp s.meta_end s.next_sst_seq
            victim-Growing victim-Fits.0 v.end_small in
        cases outcome plain stored outcome_below
      where
        cases :
            (q : Ret × Ptr Sstable × ℕ × D)
            → IsPlain q.0
            → (q.0 ≡ ok
                → (q.1 ≡ some (table env.layer env.crc32_le content world.dev (run_of q.2)))
                  × Stored env.layer env.crc32_le content world.dev
                      (env.rb.walk victim.root)
                      (table env.layer env.crc32_le content world.dev (run_of q.2))
                      q.2
                      q.3)
            → ((y : ℕ) → y < s.meta_wp → content q.3 y ≡ content s.disk y)
            → Ended q
        cases (ok, sst, consumed, disk) plain stored below =
            Stored-Ended sst consumed disk pos (stored refl).0 (stored refl).1 below
        cases (err x, sst, consumed, disk) plain stored below =
            failed-Ended x sst consumed disk (λ h. plain.1 (ap err h)) below
        cases (fault, sst, consumed, disk) plain stored below = absurd (plain.0 refl)

  -- The slot is emptied only where a table without entries, or a table that is on the device, was in it.
  pub write_victim-Attempt :
      (s : ZnsLsm D X) (victim : Memtable)
      → (v : IsStore s) → s.flushing ≡ some victim
      → Attempt s v (write_victim env s victim).0 (write_victim env s victim).1
  unfolding write_victim
  write_victim-Attempt s victim v e = elim (List-cases (env.rb.walk victim.root)) [
    | inl none_left ↦ empty-Ended s victim v e none_left
    | inr pos ↦ full-Ended s victim v e pos
  ]
