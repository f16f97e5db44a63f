-- ===== src/Target.antt =====
-- src/dm-zns-base-main.c: the Device Mapper target, over the operations of the engine that is linked
-- to it (src/zns-engine.h).
--
-- What the target holds is counted: the memory of its own structure, the reference to the device
-- below, and the engine. `dm_get_device` and `dm_set_target_max_io_len` are the kernel's: their
-- results are parameters. Log messages are left out.
pub mod Ledger
mod Tests
use dm_zns_base.Prelude.{
  ℕ, ◌+◌, ◌-◌, Bool, true, false, Option, none, some, ◌||◌, ◌==◌, ltb, if◌then◌else◌,
}
use dm_zns_base.Kernel.{Errno, Ret, ok, err, fault, Ptr, is_live}
use dm_zns_base.Engine.{Bio, MapIo}

-- `ZNS_BASE_BLOCK_SECTORS`.
abbrev pub base_block_sectors : ℕ
base_block_sectors = 8

-- The operations of an engine, over what `engine->private` points to.
pub record EngineOps (E : Type 0) : Type 0 where
  pub capacity : ℕ
  pub init : Ptr E → ℕ → ℕ → ℕ → Ret × Ptr E
  pub exit : Ptr E → Ptr E
  pub map : E → Bio → ℕ → MapIo × Bio × E

-- The texts that the constructor stores in `ti->error`.
pub data Message : Type 0 where
  one_argument no_memory no_device too_long no_engine no_max_io_len : Message

-- `struct dm_target` as the target uses it, with the counts of what is held. `private` is the engine
-- of the structure that `ti->private` points to.
pub record DmTarget (E : Type 0) : Type 0 where
  pub len : ℕ
  pub error : Option Message
  pub private : Ptr E
  pub num_flush_bios : ℕ
  pub structures : ℕ
  pub devices : ℕ
  pub engines : ℕ

-- The answers of the kernel to the constructor.
pub record Answers : Type 0 where
  pub granted : Bool
  pub get_device : Ret
  pub set_max_io_len : Ret

module _ {E : Type 0} (ops : EngineOps E) where
  -- `ti->error = ...`, then the resources go back and the constructor fails.
  abbrev pub fail : Ret → Message → DmTarget E → Ret × DmTarget E
  fail ret message ti = (ret, record ti { error = some message })

  abbrev pub kfree : DmTarget E → DmTarget E
  kfree ti = record ti { structures = ti.structures - 1 }

  abbrev pub put_device : DmTarget E → DmTarget E
  put_device ti = record ti { devices = ti.devices - 1 }

  abbrev pub exit_engine : Ptr E → DmTarget E → DmTarget E
  exit_engine e ti = record ti { engines = ti.engines + is_live (ops.exit e) - is_live e }

  -- After `dm_set_target_max_io_len`.
  abbrev pub ctr_done : Ret → Ptr E → DmTarget E → Ret × DmTarget E
  ctr_done ok e ti = (ok, record ti { private = e; num_flush_bios = 1 })
  ctr_done (err x) e ti = fail (err x) Message.no_max_io_len (kfree (put_device (exit_engine e ti)))
  ctr_done fault e ti = fail fault Message.no_max_io_len (kfree (put_device (exit_engine e ti)))

  -- After `zns_engine_init`, which may leave an engine behind `engine->private`.
  abbrev pub ctr_engine : Answers → DmTarget E → Ret × Ptr E → Ret × DmTarget E
  ctr_engine answers ti (ok, e) =
      ctr_done answers.set_max_io_len e (record ti { engines = ti.engines + is_live e })
  ctr_engine answers ti (err x, e) =
      fail (err x) Message.no_engine
        (kfree (put_device (record ti { engines = ti.engines + is_live e })))
  ctr_engine answers ti (fault, e) =
      fail fault Message.no_engine
        (kfree (put_device (record ti { engines = ti.engines + is_live e })))

  -- After `dm_get_device`.
  abbrev pub ctr_device : Answers → Ret → DmTarget E → Ret × DmTarget E
  ctr_device answers ok ti =
      let held = record ti { devices = ti.devices + 1 } in
      if ops.capacity == 0 || ltb ops.capacity ti.len
      then fail (err Errno.einval) Message.too_long (kfree (put_device held))
      else ctr_engine answers held (ops.init none ti.len ti.len base_block_sectors)
  ctr_device answers (err x) ti = fail (err x) Message.no_device (kfree ti)
  ctr_device answers fault ti = fail fault Message.no_device (kfree ti)

  pub ctr : Answers → ℕ → DmTarget E → Ret × DmTarget E
  ctr answers argc ti =
      if argc == 1
      then if answers.granted
        then ctr_device answers answers.get_device (record ti { structures = ti.structures + 1 })
        else fail (err Errno.enomem) Message.no_memory ti
      else fail (err Errno.einval) Message.one_argument ti

  -- `ti->private` still points to the structure that is freed; nothing uses it again.
  pub dtr : DmTarget E → DmTarget E
  dtr ti = kfree (put_device (exit_engine ti.private ti))

  abbrev pub map_result : DmTarget E → MapIo × Bio × E → Option (MapIo × Bio × DmTarget E)
  map_result ti (verdict, bio, e) = some (verdict, bio, record ti { private = some e })

  -- There is no result without an engine: the code would follow a NULL pointer.
  pub map : DmTarget E → Bio → ℕ → Option (MapIo × Bio × DmTarget E)
  map ti bio cell = elim ti.private [ none ↦ none | some e ↦ map_result ti (ops.map e bio cell) ]
