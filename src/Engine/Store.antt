-- ===== src/Engine/Store.antt =====
-- What a run of requests does to an engine that keeps the laws of a store of blocks.
use dm_zns_base.Prelude.{ℕ, ◌≡◌, ◌≢◌, refl, sym, ◌∙◌, ap, List, [], ◌∷◌, All, arith}
use mathlib.Core.Path.{subst}
use dm_zns_base.Kernel.{Ret, ok, err, fault}
use dm_zns_base.Engine.{BioOp, Bio, BioDevice, MapIo, map_write, map_read, keep, map_op}

abbrev pub ReadOp : Type 0 → Type 0
ReadOp S = S → ℕ → ℕ → ℕ → Ret × ℕ

abbrev pub WriteOp : Type 0 → Type 0
WriteOp S = S → ℕ → ℕ → ℕ → Ret × ℕ × S

-- What an engine promises of its two operations: a write keeps the state valid, a write that
-- succeeds is read back, and a write leaves every other sector alone.
pub record Laws {S : Type 0} (IsValid : S → Type 0) (read_op : ReadOp S) (write_op : WriteOp S)
    : Type 0 where
  pub valid : (m : S) (s n cell : ℕ) → IsValid m → IsValid (write_op m s n cell).2
  pub reads :
      (m : S) (s n cell : ℕ)
      → IsValid m
      → (write_op m s n cell).0 ≡ ok
      → (c : ℕ) → read_op (write_op m s n cell).2 s n c ≡ (ok, (write_op m s n cell).1)
  pub keeps :
      (m : S) (s n cell t k c : ℕ)
      → IsValid m
      → s ≢ t
      → read_op (write_op m s n cell).2 t k c ≡ read_op m t k c

-- The request does not write to that sector.
abbrev pub Spares : ℕ → Bio → Type 0
Spares s bio = (bio.op ≡ BioOp.write) → bio.sector ≢ s

module _ {S : Type 0} where
  -- The state after a run of requests.
  abbrev pub run : (S → Bio → ℕ → MapIo × Bio × S) → S → List Bio → ℕ → S
  run step m [] cell = m
  run step m (bio ∷ bios) cell = run step (step m bio cell).2 bios cell

  -- `map_write` passes the state on.
  map_write-state : (bio : Bio) (w : Ret × ℕ × S) → (map_write bio w).2 ≡ w.2
  map_write-state bio (ok, p, m) = refl
  map_write-state bio (err _, p, m) = refl
  map_write-state bio (fault, p, m) = refl

  map_write-remapped :
      (bio : Bio) (w : Ret × ℕ × S)
      → (map_write bio w).0 ≡ MapIo.remapped
      → (w.0 ≡ ok) × ((map_write bio w).1.sector ≡ w.1)
  map_write-remapped bio (ok, p, m) h = (refl, refl)
  map_write-remapped bio (err _, p, m) h = absurd (ground arith)
  map_write-remapped bio (fault, p, m) h = absurd (ground arith)

module _ {S : Type 0} (IsValid : S → Type 0) (read_op : ReadOp S) (write_op : WriteOp S)
    (laws : Laws IsValid read_op write_op) where
  abbrev pub map_bio : S → Bio → ℕ → MapIo × Bio × S
  map_bio m bio cell = map_op read_op write_op m bio.op bio cell

  pub op-IsValid :
      (m : S) (op : BioOp) (bio : Bio) (cell : ℕ)
      → IsValid m
      → IsValid (map_op read_op write_op m op bio cell).2
  op-IsValid m BioOp.flush bio cell v = v
  op-IsValid m BioOp.read bio cell v = v
  op-IsValid m BioOp.other_op bio cell v = v
  op-IsValid m BioOp.write bio cell v =
      rw (map_write-state bio (write_op m bio.sector bio.sectors cell))
        (laws.valid m bio.sector bio.sectors cell v)

  op-keeps :
      (m : S) (op : BioOp) (bio : Bio) (cell s n c : ℕ)
      → IsValid m
      → ((op ≡ BioOp.write) → bio.sector ≢ s)
      → read_op (map_op read_op write_op m op bio cell).2 s n c ≡ read_op m s n c
  op-keeps m BioOp.flush bio cell s n c v spares = refl
  op-keeps m BioOp.read bio cell s n c v spares = refl
  op-keeps m BioOp.other_op bio cell s n c v spares = refl
  op-keeps m BioOp.write bio cell s n c v spares =
      ap (λ m'. read_op m' s n c) (map_write-state bio (write_op m bio.sector bio.sectors cell))
      ∙ laws.keeps m bio.sector bio.sectors cell s n c v (spares refl)

  pub run-keeps :
      (m : S) (bios : List Bio) (cell s n c : ℕ)
      → IsValid m
      → All (Spares s) bios
      → read_op (run map_bio m bios cell) s n c ≡ read_op m s n c
  run-keeps m [] cell s n c v h = refl
  run-keeps m (bio ∷ bios) cell s n c v h =
      run-keeps (map_bio m bio cell).2 bios cell s n c (op-IsValid m bio.op bio cell v) h.1
      ∙ op-keeps m bio.op bio cell s n c v h.0

  write-sends :
      (m : S) (w : Bio) (cell c : ℕ)
      → IsValid m
      → (map_op read_op write_op m BioOp.write w cell).0 ≡ MapIo.remapped
      → read_op (map_op read_op write_op m BioOp.write w cell).2 w.sector w.sectors c
        ≡ (ok, (map_op read_op write_op m BioOp.write w cell).1.sector)
  write-sends m w cell c v sent =
      let res = write_op m w.sector w.sectors cell in
      let out = map_write-remapped w res sent in
      ap (λ m'. read_op m' w.sector w.sectors c) (map_write-state w res)
      ∙ (laws.reads m w.sector w.sectors cell v out.0 c ∙ ap (λ p. (ok, p)) (sym out.1))

  -- A write that is sent below is read at the place it was sent to.
  op-sends :
      (m : S) (op : BioOp) (w : Bio) (cell c : ℕ)
      → IsValid m
      → op ≡ BioOp.write
      → (map_op read_op write_op m op w cell).0 ≡ MapIo.remapped
      → read_op (map_op read_op write_op m op w cell).2 w.sector w.sectors c
        ≡ (ok, (map_op read_op write_op m op w cell).1.sector)
  op-sends m op w cell c v h =
      subst
        (λ o.
          (map_op read_op write_op m o w cell).0 ≡ MapIo.remapped
          → read_op (map_op read_op write_op m o w cell).2 w.sector w.sectors c
            ≡ (ok, (map_op read_op write_op m o w cell).1.sector))
        (sym h) (write-sends m w cell c v)

  op-reads :
      (m : S) (op : BioOp) (r : Bio) (cell p : ℕ)
      → op ≡ BioOp.read
      → read_op m r.sector r.sectors cell ≡ (ok, p)
      → map_op read_op write_op m op r cell
        ≡ (MapIo.remapped, record r { sector = p; device = BioDevice.lower }, m)
  op-reads m op r cell p h e = rw h (ap (λ x. keep m (map_read r x)) e)

  -- Once a write is sent below, a read of the same sectors is sent to the same place.
  pub read_back :
      (m : S) (w r : Bio) (bios : List Bio) (cell : ℕ)
      → IsValid m
      → w.op ≡ BioOp.write
      → r.op ≡ BioOp.read
      → r.sector ≡ w.sector
      → r.sectors ≡ w.sectors
      → (map_bio m w cell).0 ≡ MapIo.remapped
      → All (Spares w.sector) bios
      → map_bio (run map_bio (map_bio m w cell).2 bios cell) r cell ≡ (
        MapIo.remapped,
        record r { sector = (map_bio m w cell).1.sector; device = BioDevice.lower },
        run map_bio (map_bio m w cell).2 bios cell,
      )
  read_back m w r bios cell v hw hr hs hn sent spares =
      let after = (map_bio m w cell).2 in
      op-reads (run map_bio after bios cell) r.op r cell (map_bio m w cell).1.sector hr (
        ap (λ s. read_op (run map_bio after bios cell) s r.sectors cell) hs
        ∙ (ap (λ n. read_op (run map_bio after bios cell) w.sector n cell) hn
            ∙ (run-keeps after bios cell w.sector w.sectors cell (op-IsValid m w.op w cell v) spares
                ∙ op-sends m w.op w cell cell v hw sent)))
