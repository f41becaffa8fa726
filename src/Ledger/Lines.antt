-- ===== src/Ledger/Lines.antt =====
-- Reading a journal file line by line: `readRecords`.
use tinvest.Prelude.{
  ℕ, suc, ◌+◌, true, ◌≡◌, refl, ap, ◌∙◌, List, [], ◌∷◌, ◌++◌, Text, Bool-cases, inl, inr, arith,
  ◌==◌, if◌then◌else◌,
}
use native.Mathlib.Nat.{add-zero}
use tinvest.Ledger.{Record}
use tinvest.Ledger.Codec.{Json, Reason, Line, good, bad, one_line, is_blank, read_line}

abbrev pub newline : ℕ
newline = 10

abbrev pub cons_head : ℕ → List Text → List Text
cons_head c [] = (c ∷ []) ∷ []
cons_head c (l ∷ ls) = (c ∷ l) ∷ ls

-- What ReadBytes('\n') hands out until the end of the file, without the newlines; the last line has
-- none, and is empty behind a final newline.
unfoldable pub split_lines : Text → List Text
split_lines [] = [] ∷ []
split_lines (c ∷ s) =
    let rest = split_lines s in if c == newline then [] ∷ rest else cons_head c rest

pub record Corruption : Type 0 where
  pub line : ℕ
  pub reason : Reason

-- `recs` and `corr`
pub record Scan : Type 0 where
  pub records : List Record
  pub corruptions : List Corruption

abbrev pub add_line : ℕ → Line → Scan → Scan
add_line n (good r) s = record s { records = r ∷ s.records }
add_line n (bad reason) s = record s {
  corruptions = (record { line = n; reason = reason }) ∷ s.corruptions;
}

module _ (json : Json) where
  -- The loop of readRecords behind `n` lines that were not blank. (A blank test on a line is one on
  -- the raw bytes: the newline is white space.)
  unfoldable pub scan_lines : ℕ → List Text → Scan
  scan_lines n [] = record { records = []; corruptions = [] }
  scan_lines n (l ∷ ls) =
      let skipped = scan_lines n ls in
      let rest = scan_lines (n + 1) ls in
      if is_blank l then skipped else add_line (n + 1) (read_line json l) rest

  unfoldable pub read_records : Text → Scan
  read_records file = scan_lines 0 (split_lines file)

cons_head-cons_head :
    (c d : ℕ) (xs ys : List Text)
    → cons_head c (cons_head d xs ++ ys) ≡ cons_head c (cons_head d xs) ++ ys
cons_head-cons_head c d [] ys = refl
cons_head-cons_head c d (x ∷ xs) ys = refl

cons_head-split_lines :
    (c : ℕ) (a : Text) (ys : List Text)
    → cons_head c (split_lines a ++ ys) ≡ cons_head c (split_lines a) ++ ys
unfolding split_lines
cons_head-split_lines c [] ys = refl
cons_head-split_lines c (d ∷ a) ys = elim (Bool-cases (d == newline)) [
  | inl ends ↦ rw ends refl
  | inr goes_on ↦ rw goes_on (cons_head-cons_head c d (split_lines a) ys)
]

-- A line and a newline in front of the rest of a file.
pub split_lines-newline :
    (a rest : Text) → split_lines (a ++ newline ∷ rest) ≡ split_lines a ++ split_lines rest
unfolding split_lines
split_lines-newline [] rest = refl
split_lines-newline (c ∷ a) rest = elim (Bool-cases (c == newline)) [
  | inl ends ↦ rw ends (ap (λ ls. [] ∷ ls) (split_lines-newline a rest))
  | inr goes_on ↦
      rw goes_on (
        ap (cons_head c) (split_lines-newline a rest)
        ∙ cons_head-split_lines c a (split_lines rest))
]

pub split_lines-one_line : (l : Text) → one_line l ≡ true → split_lines l ≡ l ∷ []
unfolding split_lines
split_lines-one_line [] h = refl
split_lines-one_line (c ∷ l) h = ground (arith, split_lines-one_line l)

-- One scan behind another.
abbrev pub join : Scan → Scan → Scan
join s t = record { records = s.records ++ t.records; corruptions = s.corruptions ++ t.corruptions }

-- The lines that are counted.
abbrev pub shown : List Text → ℕ
shown [] = 0
shown (l ∷ ls) = let rest = shown ls in if is_blank l then rest else suc rest

module _ (json : Json) where
  add_line-join :
      (n : ℕ) (l : Line) (s t : Scan) → add_line n l (join s t) ≡ join (add_line n l s) t
  add_line-join n (good r) s t = refl
  add_line-join n (bad reason) s t = refl

  pub scan_lines-append :
      (n : ℕ) (xs ys : List Text)
      → scan_lines json n (xs ++ ys)
        ≡ join (scan_lines json n xs) (scan_lines json (n + shown xs) ys)
  unfolding scan_lines
  scan_lines-append n [] ys = rw add-zero refl
  scan_lines-append n (l ∷ xs) ys = elim (Bool-cases (is_blank l)) [
    | inl blank ↦ rw blank (scan_lines-append n xs ys)
    | inr shows ↦
        rw (shows, suc-after)
          (ap (add_line (n + 1) (read_line json l)) (scan_lines-append (n + 1) xs ys)
            ∙ add_line-join (n + 1) (read_line json l) (scan_lines json (n + 1) xs)
                (scan_lines json (n + 1 + shown xs) ys))
  ]
    where
      suc-after : n + suc (shown xs) ≡ n + 1 + shown xs
      suc-after = omega arith
