-- ===== src/Ledger/OwnLines.antt =====
-- The lines of one intent in journals that are put together.
use tinvest.Prelude.{
  ◌+◌, ◌≡◌, refl, Bool, List, [], ◌∷◌, ◌++◌, Option, some, Text, arith, if◌then◌else◌,
}
use tinvest.Ledger.{Stage, Record}
use tinvest.Ledger.Dangling.{of_id, last_of, count_stage}

pub of_id-append :
    (id : Text) (xs ys : List Record) → of_id id (xs ++ ys) ≡ of_id id xs ++ of_id id ys
of_id-append id [] ys = refl
of_id-append id (x ∷ xs) ys = ground (arith, of_id-append id xs ys)

pub last_of-append :
    (p : Stage → Bool) (b : Option Record) (xs ys : List Record)
    → last_of p b (xs ++ ys) ≡ last_of p (last_of p b xs) ys
last_of-append p b [] ys = refl
last_of-append p b (x ∷ xs) ys = last_of-append p (if p x.stage then some x else b) xs ys

pub count_stage-append :
    (p : Stage → Bool) (xs ys : List Record)
    → count_stage p (xs ++ ys) ≡ count_stage p xs + count_stage p ys
count_stage-append p [] ys = omega arith
count_stage-append p (x ∷ xs) ys = ground (arith, count_stage-append p xs ys)
