-- ===== src/Memtable/Sorted.antt =====
-- Lists of entries in the order of their keys: the view of a table that the proofs use.
use dm_zns_base.Prelude.{
  ℕ, ◌+◌, ◌≤◌, ◌<◌, ◌≡◌, refl, Bool, true, false, ltb, ◌==◌, if◌then◌else◌, Option, none, some,
  List, [], ◌∷◌, ◌++◌, length, All, arith,
}
use dm_zns_base.Memtable.{Entry}

abbrev pub Above : ℕ → List Entry → Type 0
Above k es = All (λ e. k < e.logical_block) es

abbrev pub Below : ℕ → List Entry → Type 0
Below k es = All (λ e. e.logical_block < k) es

-- Strictly ascending keys.
abbrev pub IsSorted : List Entry → Type 0
IsSorted [] = Unit
IsSorted (e ∷ es) = Above e.logical_block es × IsSorted es

abbrev pub find_in : ℕ → List Entry → Option Entry
find_in k [] = none
find_in k (e ∷ es) = if k == e.logical_block then some e else find_in k es

-- `new` in the place of an entry with its key, or between its neighbours.
abbrev pub put_in : Entry → List Entry → List Entry
put_in new [] = new ∷ []
put_in new (e ∷ es) =
    if ltb new.logical_block e.logical_block
    then new ∷ e ∷ es
    else if ltb e.logical_block new.logical_block
    then e ∷ put_in new es
    else record e { physical_sector = new.physical_sector; sequence = new.sequence } ∷ es

abbrev pub is_none : Option Entry → Bool
is_none none = true
is_none (some _) = false

pub Above-mono : (j k : ℕ) (es : List Entry) → j ≤ k → Above k es → Above j es
Above-mono j k [] h a = tt
Above-mono j k (e ∷ es) h a = (omega arith, Above-mono j k es h a.1)

pub All-append : (P : Entry → Type 0) (xs ys : List Entry) → All P (xs ++ ys) → All P xs × All P ys
All-append P [] ys a = (tt, a)
All-append P (x ∷ xs) ys a = let (l, r) = All-append P xs ys a.1 in ((a.0, l), r)

-- A sorted list, cut at an entry.
pub IsSorted-split :
    (xs : List Entry) (y : Entry) (ys : List Entry)
    → IsSorted (xs ++ (y ∷ ys))
    → Below y.logical_block xs × Above y.logical_block ys × IsSorted xs × IsSorted ys
IsSorted-split [] y ys s = (tt, s.0, tt, s.1)
IsSorted-split (x ∷ xs) y ys s =
    let (left, right) = All-append (λ e. x.logical_block < e.logical_block) xs (y ∷ ys) s.0 in
    let (b, a, l, r) = IsSorted-split xs y ys s.1 in ((right.0, b), a, (left, l), r)

pub find_in-Above : (k : ℕ) (es : List Entry) → Above k es → find_in k es ≡ none
find_in-Above k [] a = refl
find_in-Above k (e ∷ es) a = ground (arith, find_in-Above k es a.1)

-- A key at or past the cut is not looked for before it.
pub find_in-right :
    (k j : ℕ) (xs ys : List Entry) → j ≤ k → Below j xs → find_in k (xs ++ ys) ≡ find_in k ys
find_in-right k j [] ys h b = refl
find_in-right k j (x ∷ xs) ys h b = ground (arith, find_in-right k j xs ys h b.1)

-- A key before the cut is not looked for past it.
pub find_in-left : (k : ℕ) (xs ys : List Entry) → Above k ys → find_in k (xs ++ ys) ≡ find_in k xs
find_in-left k [] ys a = find_in-Above k ys a
find_in-left k (x ∷ xs) ys a = ground (arith, find_in-left k xs ys a)

pub put_in-left :
    (new : Entry) (xs : List Entry) (y : Entry) (ys : List Entry)
    → new.logical_block < y.logical_block
    → put_in new (xs ++ (y ∷ ys)) ≡ put_in new xs ++ (y ∷ ys)
put_in-left new [] y ys h = ground arith
put_in-left new (x ∷ xs) y ys h = ground (arith, put_in-left new xs y ys h)

pub put_in-right :
    (new : Entry) (j : ℕ) (xs ys : List Entry)
    → j ≤ new.logical_block
    → Below j xs
    → put_in new (xs ++ ys) ≡ xs ++ put_in new ys
put_in-right new j [] ys h b = refl
put_in-right new j (x ∷ xs) ys h b = ground (arith, put_in-right new j xs ys h b.1)

-- What a list with `new` put in has under each key.
pub find_in-put_in :
    (k : ℕ) (new : Entry) (es : List Entry)
    → IsSorted es
    → find_in k (put_in new es) ≡ (if k == new.logical_block then some new else find_in k es)
find_in-put_in k new [] s = refl
find_in-put_in k new (e ∷ es) s = ground (arith, find_in-put_in k new es s.1, find_in-Above k es)

pub Above-put_in :
    (j : ℕ) (new : Entry) (es : List Entry)
    → j < new.logical_block
    → Above j es
    → Above j (put_in new es)
Above-put_in j new [] h a = (h, tt)
Above-put_in j new (e ∷ es) h a = ground (arith, Above-put_in j new es h a.1)

pub put_in-IsSorted : (new : Entry) (es : List Entry) → IsSorted es → IsSorted (put_in new es)
put_in-IsSorted new [] s = (tt, tt)
put_in-IsSorted new (e ∷ es) s = ground (
  arith,
  put_in-IsSorted new es s.1,
  Above-put_in e.logical_block new es,
  Above-mono new.logical_block e.logical_block es,
)

pub length-put_in :
    (new : Entry) (es : List Entry)
    → IsSorted es
    → length (put_in new es)
      ≡ (if is_none (find_in new.logical_block es) then length es + 1 else length es)
length-put_in new [] s = refl
length-put_in new (e ∷ es) s = ground (
  arith,
  length-put_in new es s.1,
  find_in-Above new.logical_block es,
  Above-mono new.logical_block e.logical_block es,
)
