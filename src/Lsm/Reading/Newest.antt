-- ===== src/Lsm/Reading/Newest.antt =====
-- src/engines/zns-engine-lsm.c: a read answers with the newest mapping, wherever it is.
use mathlib.Core.Path.{subst⁻¹}
use dm_zns_base.Prelude.{
  ℕ, ◌/◌, ◌≡◌, refl, Option, none, some, List, if◌then◌else◌, arith, Bool-cases, inl, inr, ◌⊎◌, ◌≤◌,
  false,
}
use dm_zns_base.Kernel.{Errno, Ret, err, Ptr}
use dm_zns_base.Memtable.{Memtable}
use dm_zns_base.Memtable.Laws.{lookup_lem}
use dm_zns_base.Block.{Block}
use dm_zns_base.Block.Io.{IsDevice}
use dm_zns_base.Generations.{Tables}
use dm_zns_base.Generations.Compact.{over}
use dm_zns_base.Generations.Active.{IsValidTables, reads, reading_at, tables, eq-tables, answer_of}
use dm_zns_base.Lsm.State.{Env, ZnsLsm}
use dm_zns_base.Lsm.Reading.{lookup_memtables, lookup_sstables, read_tables, is_aligned_io, read}
use dm_zns_base.Lsm.Reading.Log.{
  Run, log_reading, log_answer, Runs, tables_of, lookup_tables-Walked,
}

-- What the three memory tables have for a block.
abbrev pub memory_reading : Tables → Ptr Memtable → ℕ → Option ℕ
memory_reading t flushing k = over (reads t k) (reading_at flushing k)

active_lookup :
    (m : Memtable) (im flushing : Ptr Memtable) (k cell : ℕ)
    → lookup_memtables (tables m im) flushing k cell
      ≡ answer_of cell (memory_reading (tables m im) flushing k)
unfolding lookup_memtables
active_lookup m none none k cell = ground (arith, lookup_lem m k cell)
active_lookup m (some im) none k cell = ground (arith, lookup_lem m k cell, lookup_lem im k cell)
active_lookup m none (some f) k cell = ground (arith, lookup_lem m k cell, lookup_lem f k cell)
active_lookup m (some im) (some f) k cell =
    ground (arith, lookup_lem m k cell, lookup_lem im k cell, lookup_lem f k cell)

pub lookup_memtables_lem :
    (t : Tables) (flushing : Ptr Memtable) (k cell : ℕ)
    → IsValidTables t
    → lookup_memtables t flushing k cell ≡ answer_of cell (memory_reading t flushing k)
lookup_memtables_lem t flushing k cell v =
    subst⁻¹ (λ u. lookup_memtables u flushing k cell ≡ answer_of cell (memory_reading u flushing k))
      (eq-tables t v) (active_lookup v.current t.immutable flushing k cell)

module _ {D X : Type 0} (env : Env D X) (content : D → ℕ → Block)
    (dev : IsDevice env.layer content) where
  -- The state of the engine that a read sees: valid memory tables, and a list of tables that are on
  -- the device, below the write pointer of the log.
  pub record IsReadable (s : ZnsLsm D X) : Type 0 where
    pub memory : IsValidTables s.tables
    pub runs : List Run
    pub listed : s.sstables ≡ tables_of env content dev runs
    pub on_disk : Runs env content dev s.meta_wp s.disk runs

  -- The mapping of a logical block: the newest one.
  abbrev pub mapping : (s : ZnsLsm D X) → IsReadable s → ℕ → Option ℕ
  mapping s v k = over (memory_reading s.tables s.flushing k) (log_reading v.runs k)

  -- What a read gives back: its answer, or -ENOMEM where one of its memory requests was refused; and a
  -- state that differs in nothing but the device, whose contents are the same, and the number of memory
  -- requests.
  abbrev pub Answered : ZnsLsm D X → ℕ → Ret × Ptr ℕ → Ret × Ptr ℕ × ZnsLsm D X → Type 0
  Answered s cell r a =
      (disk : D) × (n : ℕ) × ((x : ℕ) → content disk x ≡ content s.disk x)
      × ((a ≡ (r.0, r.1, record s { disk = disk; requests = n }))
          ⊎ ((m : ℕ) × (s.requests ≤ m)
              × (env.grants m ≡ false)
              × (a ≡ (err Errno.enomem, some cell, record s { disk = disk; requests = n }))))

  sstables-Answered :
      (s : ZnsLsm D X) (k cell : ℕ)
      → (v : IsReadable s)
      → Answered s cell (log_answer cell (log_reading v.runs k)) (lookup_sstables env s k cell)
  unfolding lookup_sstables
  sstables-Answered s k cell v =
      let (disk, n, same, e) =
        lookup_tables-Walked env content dev v.runs s.meta_wp k cell s.requests s.disk v.on_disk in
      rw v.listed (elim e [
        | inl e ↦ rw e (disk, n, same, inl refl)
        | inr (m, le, refused, e) ↦ rw e (disk, n, same, inr (m, le, refused, refl))
      ])

  tables-Answered :
      (s : ZnsLsm D X) (k cell : ℕ) (first : Option ℕ)
      → (v : IsReadable s)
      → Answered s cell
          (log_answer cell (over first (log_reading v.runs k)))
          (read_tables env s k (answer_of cell first))
  tables-Answered s k cell none v = sstables-Answered s k cell v
  tables-Answered s k cell (some p) v = (s.disk, s.requests, (λ x. refl), inl refl)

  -- A read of one aligned block answers with the newest mapping of the block, the first that the
  -- active, the immutable and the flushing table and then the tables on the device, newest first,
  -- have; it answers -ENODATA, and leaves the cell alone, if none of them has one, and every other
  -- request with -EINVAL. If a memory request is refused it may answer -ENOMEM, but never with an
  -- older mapping. It changes nothing. (Conditions: the memory tables are valid, the listed tables are
  -- on the device, and every read of the device succeeds.)
  pub read-Answered :
      (s : ZnsLsm D X) (logical_sector sectors cell : ℕ)
      → (v : IsReadable s)
      → Answered s cell
          (if is_aligned_io env s logical_sector sectors
            then log_answer cell (mapping s v (logical_sector / s.sectors_per_block))
            else (err Errno.einval, some cell))
          (read env s logical_sector sectors cell)
  unfolding read
  read-Answered s logical_sector sectors cell v =
      elim (Bool-cases (is_aligned_io env s logical_sector sectors)) [
        | inr ragged ↦ rw ragged (s.disk, s.requests, (λ x. refl), inl refl)
        | inl aligned ↦
            let k = logical_sector / s.sectors_per_block in
            rw (aligned, lookup_memtables_lem s.tables s.flushing k cell v.memory)
              (tables-Answered s k cell (memory_reading s.tables s.flushing k) v)
      ]
