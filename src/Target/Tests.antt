-- ===== src/Target/Tests.antt =====
-- The target over the append4k engine.
use dm_zns_base.Prelude.{◌≡◌, refl, true, none, some}
use dm_zns_base.Kernel.{Errno, ok, err}
use dm_zns_base.Target.{EngineOps, DmTarget, Answers, ctr, dtr}
use dm_zns_base.Target.Ledger.{Lawful, Constructed, ctr-Constructed, dtr-ctr}
use dm_zns_base.Append4k
use dm_zns_base.Append4k.{Append4k, made}
use dm_zns_base.Append4k.Runs.{init_one, exit_none}

-- A device of 64 sectors, with memory.
abbrev engine : EngineOps Append4k
engine = record {
  capacity = 64;
  init = Append4k.init true true;
  exit = Append4k.exit;
  map = Append4k.map_bio;
}

engine-Lawful : Lawful engine
engine-Lawful = record {
  init_one = λ len physical block. init_one true true len physical block;
  exit_none = exit_none;
}

abbrev target : DmTarget Append4k
target = record {
  len = 32;
  error = none;
  private = none;
  num_flush_bios = 0;
  structures = 0;
  devices = 0;
  engines = 0;
}

-- The last call of the constructor fails.
abbrev late : Answers
late = record { granted = true; get_device = ok; set_max_io_len = err Errno.einval }

ctr-Constructed_example : Constructed engine target (ctr engine late 1 target)
ctr-Constructed_example = ctr-Constructed engine engine-Lawful late 1 target

abbrev good : Answers
good = record late { set_max_io_len = ok }

abbrev attached : DmTarget Append4k
attached = record target {
  private = some (made 4 32 8);
  num_flush_bios = 1;
  structures = 1;
  devices = 1;
  engines = 1;
}

runs : ctr engine good 1 target ≡ (ok, attached)
unfolding ctr Append4k.init
runs = refl

dtr-ctr_example :
    ((dtr engine attached).structures ≡ 0)
    × ((dtr engine attached).devices ≡ 0)
    × ((dtr engine attached).engines ≡ 0)
dtr-ctr_example = dtr-ctr engine engine-Lawful good 1 target attached runs
