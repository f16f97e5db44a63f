-- ===== src/Target/Ledger.antt =====
-- src/dm-zns-base-main.c: what the constructor holds on each of its paths, and what the destructor
-- gives back.
use mathlib.Core.Path.{subst}
use dm_zns_base.Prelude.{
  ℕ, ◌+◌, ◌-◌, ◌≡◌, ◌≢◌, refl, ap, inl, inr, ◌≤◌, none, some, ◌==◌, ltb, if◌then◌else◌, arith,
  Bool-cases, ◌||◌,
}
use dm_zns_base.Kernel.{Ret, ok, err, fault, Ptr, is_ok, is_live}
use dm_zns_base.Target.{
  EngineOps, DmTarget, Answers, Message, ctr, dtr, ctr_device, ctr_engine, ctr_done,
}

-- What the constructor relies on: `zns_engine_init` either succeeds and leaves an engine, or fails and
-- leaves none, and `zns_engine_exit` leaves none.
pub record Lawful {E : Type 0} (ops : EngineOps E) : Type 0 where
  pub init_one :
      (len physical block : ℕ)
      → is_live (ops.init none len physical block).1
        ≡ (if is_ok (ops.init none len physical block).0 then 1 else 0)
  pub exit_none : (e : Ptr E) → ops.exit e ≡ none

-- The constructor holds one of each and has an engine, within the capacity.
pub record Holding {E : Type 0} (ops : EngineOps E) (ti out : DmTarget E) : Type 0 where
  pub structures : out.structures ≡ ti.structures + 1
  pub devices : out.devices ≡ ti.devices + 1
  pub engines : out.engines ≡ ti.engines + 1
  pub has_engine : is_live out.private ≡ 1
  pub flush_bios : out.num_flush_bios ≡ 1
  pub within : ti.len ≤ ops.capacity

-- Nothing is held that was not held before, and the error text is stored.
pub record Released {E : Type 0} (ti out : DmTarget E) : Type 0 where
  pub structures : out.structures ≡ ti.structures
  pub devices : out.devices ≡ ti.devices
  pub engines : out.engines ≡ ti.engines
  pub same_private : out.private ≡ ti.private
  pub has_error : out.error ≢ none

abbrev pub Constructed : {E : Type 0} → EngineOps E → DmTarget E → Ret × DmTarget E → Type 0
Constructed ops ti (ok, out) = Holding ops ti out
Constructed ops ti (err _, out) = Released ti out
Constructed ops ti (fault, out) = Released ti out

some-ne_none : {A : Type 0} (a : A) → some a ≢ none
some-ne_none a e = ground arith

module _ {E : Type 0} (ops : EngineOps E) (laws : Lawful ops) where
  abbrev held : DmTarget E → DmTarget E
  held ti = record ti { structures = ti.structures + 1; devices = ti.devices + 1 }

  exit_live : (e : Ptr E) → is_live (ops.exit e) ≡ 0
  exit_live e = ap (is_live) (laws.exit_none e)

  done-Constructed :
      (ret : Ret) (e : Ptr E) (ti : DmTarget E)
      → is_live e ≡ 1
      → ti.len ≤ ops.capacity
      → Constructed ops ti
          (ctr_done ops ret e (record (held ti) { engines = ti.engines + is_live e }))
  done-Constructed ok e ti live room = record {
    structures = refl;
    devices = refl;
    engines = omega (arith, live);
    has_engine = live;
    flush_bios = refl;
    within = room;
  }
  done-Constructed (err x) e ti live room = record {
    structures = omega arith;
    devices = omega arith;
    engines = omega (arith, live, exit_live e);
    same_private = refl;
    has_error = some-ne_none _;
  }
  done-Constructed fault e ti live room = record {
    structures = omega arith;
    devices = omega arith;
    engines = omega (arith, live, exit_live e);
    same_private = refl;
    has_error = some-ne_none _;
  }

  engine-Constructed :
      (answers : Answers) (ti : DmTarget E) (r : Ret × Ptr E)
      → is_live r.1 ≡ (if is_ok r.0 then 1 else 0)
      → ti.len ≤ ops.capacity
      → Constructed ops ti (ctr_engine ops answers (held ti) r)
  engine-Constructed answers ti (ok, e) live room =
      done-Constructed answers.set_max_io_len e ti live room
  engine-Constructed answers ti (err x, e) live room = record {
    structures = omega arith;
    devices = omega arith;
    engines = omega (arith, live);
    same_private = refl;
    has_error = some-ne_none _;
  }
  engine-Constructed answers ti (fault, e) live room = record {
    structures = omega arith;
    devices = omega arith;
    engines = omega (arith, live);
    same_private = refl;
    has_error = some-ne_none _;
  }

  refused : (ti : DmTarget E) (m : Message) → Released ti (record ti { error = some m })
  refused ti m = record {
    structures = refl;
    devices = refl;
    engines = refl;
    same_private = refl;
    has_error = some-ne_none m;
  }

  abbrev with_structure : DmTarget E → DmTarget E
  with_structure ti = record ti { structures = ti.structures + 1 }

  given_back :
      (ti : DmTarget E) (m : Message)
      → Released ti (record ti {
        structures = ti.structures + 1 - 1;
        devices = ti.devices + 1 - 1;
        error = some m;
      })
  given_back ti m = record {
    structures = omega arith;
    devices = omega arith;
    engines = refl;
    same_private = refl;
    has_error = some-ne_none m;
  }

  no_device :
      (ti : DmTarget E) (m : Message)
      → Released ti (record ti { structures = ti.structures + 1 - 1; error = some m })
  no_device ti m = record {
    structures = omega arith;
    devices = refl;
    engines = refl;
    same_private = refl;
    has_error = some-ne_none m;
  }

  device-Constructed :
      (answers : Answers) (ret : Ret) (ti : DmTarget E)
      → Constructed ops ti (ctr_device ops answers ret (with_structure ti))
  device-Constructed answers ok ti =
      elim (Bool-cases (ops.capacity == 0 || ltb ops.capacity ti.len)) [
        | inl long ↦ rw long (given_back ti Message.too_long)
        | inr fits ↦ rw fits (
            engine-Constructed answers ti (ops.init none ti.len ti.len 8)
              (laws.init_one ti.len ti.len 8) (ground (arith, fits)))
      ]
  device-Constructed answers (err x) ti = no_device ti Message.no_device
  device-Constructed answers fault ti = no_device ti Message.no_device

  -- For an engine that keeps its side, the constructor ends either in success, with the memory, the
  -- device and the engine held once each and a length within the usable capacity, or in
  -- an error, with an error text and nothing held that was not held before.
  pub ctr-Constructed :
      (answers : Answers) (argc : ℕ) (ti : DmTarget E)
      → Constructed ops ti (ctr ops answers argc ti)
  unfolding ctr
  ctr-Constructed answers argc ti = elim (Bool-cases (argc == 1)) [
    | inl one ↦ elim (Bool-cases answers.granted) [
      | inl memory ↦ rw (one, memory) (device-Constructed answers answers.get_device ti)
      | inr refusal ↦ rw (one, refusal) (refused ti Message.no_memory)
    ]
    | inr other ↦ rw other (refused ti Message.one_argument)
  ]

  -- After a successful constructor, the destructor gives all of it back.
  pub dtr-ctr :
      (answers : Answers) (argc : ℕ) (ti out : DmTarget E)
      → ctr ops answers argc ti ≡ (ok, out)
      → ((dtr ops out).structures ≡ ti.structures)
        × ((dtr ops out).devices ≡ ti.devices)
        × ((dtr ops out).engines ≡ ti.engines)
  unfolding dtr
  dtr-ctr answers argc ti out e =
      let h = subst (Constructed ops ti) e (ctr-Constructed answers argc ti) in
      (
        omega (arith, h.structures),
        omega (arith, h.devices),
        omega (arith, h.engines, h.has_engine, exit_live out.private),
      )
