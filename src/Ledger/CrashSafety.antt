-- ===== src/Ledger/CrashSafety.antt =====
-- The repair of a file behind an append that was cut off, and the reading of a file with one more line.
use mathlib.Core.List.{append-nil, append_assoc}
use tinvest.Prelude.{
  ℕ, ◌+◌, ◌-◌, ◌≤◌, ◌<◌, true, false, ◌≡◌, inl, inr, refl, sym, ap, ◌∙◌, [], ◌∷◌, ◌++◌, none, some,
  Text, trim_space, skip_spaces, length, length-append, drop, arith,
}
use tinvest.Ledger.{Record}
use tinvest.Ledger.Codec.{Json, good, one_line, is_blank, read_line}
use tinvest.Ledger.Lines.{
  newline, split_lines, Scan, scan_lines, read_records, split_lines-newline, split_lines-one_line,
  join, shown, add_line, scan_lines-append,
}
use tinvest.Ledger.Repair.{
  ends_in_newline, last_index, window, window_start, truncate_body, truncate_at,
  ends_in_newline-cons, split_at, repair_torn_tail, IsClean, ends_in_newline-append,
  ends_in_newline-one_line, last_index-one_line, last_index-append, drop-append, length-drop,
  split_at-append,
}

truncate_at-eq : (f : Text) → 0 < length f → truncate_at f ≡ truncate_body f
unfolding truncate_at
truncate_at-eq [] h = absurd (omega arith)
truncate_at-eq (c ∷ f) h = refl

-- What the last `window` bytes of a file with a torn tail show.
module _ (a t : Text) (h : 0 < length t) (o : one_line t ≡ true) (w : length t < window) where
  abbrev tail_start : ℕ
  tail_start = window_start (length (a ++ newline ∷ t))

  tail_start-le : tail_start ≤ length a
  tail_start-le = ground (arith, length-append a (newline ∷ t))

  buffer-eq : drop tail_start (a ++ newline ∷ t) ≡ drop tail_start a ++ newline ∷ t
  buffer-eq = drop-append tail_start a (newline ∷ t) tail_start-le

  buffer-not_ended : ends_in_newline (drop tail_start (a ++ newline ∷ t)) ≡ false
  buffer-not_ended =
      ap ends_in_newline buffer-eq
      ∙ ends_in_newline-append (drop tail_start a) (newline ∷ t) (omega arith)
      ∙ ends_in_newline-cons newline t h
      ∙ ends_in_newline-one_line t o

  buffer-last_index :
      last_index newline (drop tail_start (a ++ newline ∷ t)) ≡ some (length a - tail_start)
  buffer-last_index =
      ap (last_index newline) buffer-eq
      ∙ last_index-append (drop tail_start a) t o
      ∙ ap some (length-drop tail_start a)

  truncate_at-tail : truncate_at (a ++ newline ∷ t) ≡ some (length a + 1)
  unfolding truncate_body
  truncate_at-tail =
      truncate_at-eq (a ++ newline ∷ t) (omega (arith, length-append a (newline ∷ t)))
      ∙ ground (arith, buffer-not_ended, buffer-last_index, tail_start-le)

truncate_at-whole :
    (t : Text) → 0 < length t → one_line t ≡ true → length t < window → truncate_at t ≡ some 0
unfolding truncate_body
truncate_at-whole t h o w =
    truncate_at-eq t h
    ∙ ground (arith, ends_in_newline-one_line t o, last_index-one_line t o, whole)
  where
    small : window_start (length t) ≡ 0
    small = ground arith

    whole : drop (window_start (length t)) t ≡ t
    whole = ap (λ n. drop n t) small

truncate_at-clean : (a : Text) → truncate_at (a ++ newline ∷ []) ≡ none
unfolding truncate_body
truncate_at-clean a =
    truncate_at-eq (a ++ newline ∷ []) (omega (arith, length-append a (newline ∷ [])))
    ∙ ground (arith, ended)
  where
    start : ℕ
    start = window_start (length (a ++ newline ∷ []))

    within : start ≤ length a
    within = ground (arith, length-append a (newline ∷ []))

    ended : ends_in_newline (drop start (a ++ newline ∷ [])) ≡ true
    ended =
        ap ends_in_newline (drop-append start a (newline ∷ []) within)
        ∙ ends_in_newline-append (drop start a) (newline ∷ []) (omega arith)
        ∙ unfold ends_in_newline in refl

repair-empty :
    (t : Text)
    → one_line t ≡ true
    → length t < window
    → repair_torn_tail t ≡ record { file = []; torn = t }
unfolding repair_torn_tail truncate_at
repair-empty [] o w = refl
repair-empty (c ∷ t) o w = ap (split_at (c ∷ t)) (truncate_at-whole (c ∷ t) (omega arith) o w)

snoc-append : (a t : Text) → (a ++ newline ∷ []) ++ t ≡ a ++ newline ∷ t
snoc-append a t = append_assoc a (newline ∷ []) t

split_at-none : (f : Text) → split_at f none ≡ record { file = f; torn = [] }
split_at-none f = refl

repair-closed :
    (a t : Text)
    → one_line t ≡ true
    → length t < window
    → repair_torn_tail ((a ++ newline ∷ []) ++ t) ≡ record { file = a ++ newline ∷ []; torn = t }
unfolding repair_torn_tail
repair-closed a [] o w =
    rw (append-nil (a ++ newline ∷ [])) (ap (split_at (a ++ newline ∷ [])) (truncate_at-clean a))
repair-closed a (c ∷ t) o w =
    ap (split_at ((a ++ newline ∷ []) ++ c ∷ t))
      (ap truncate_at (snoc-append a (c ∷ t)) ∙ truncate_at-tail a (c ∷ t) (omega arith) o w)
    ∙ split_at-append (length a + 1) (a ++ newline ∷ []) (c ∷ t)
        (omega (arith, length-append a (newline ∷ [])))

-- The repair of a clean file with a torn line behind it, shorter than the window, gives the clean
-- file back and hands the torn bytes to the sidecar.
pub repair_torn_tail-lem :
    (f t : Text)
    → IsClean f
    → one_line t ≡ true
    → length t < window
    → repair_torn_tail (f ++ t) ≡ record { file = f; torn = t }
repair_torn_tail-lem f t (inl e) o w = rw e (repair-empty t o w)
repair_torn_tail-lem f t (inr (a, e)) o w = rw e (repair-closed a t o w)

-- A scan with one more record at its end.
abbrev pub with_record : Record → Scan → Scan
with_record r s = record s { records = s.records ++ r ∷ [] }

-- The empty rest behind a final newline holds nothing.
scan_lines-end :
    (json : Json) (n : ℕ)
    → scan_lines json n (split_lines []) ≡ record { records = []; corruptions = [] }
unfolding scan_lines split_lines is_blank trim_space skip_spaces
scan_lines-end json n = refl

module _ (json : Json) (r : Record) (line : Text) (reads : read_line json line ≡ good r)
    (unbroken : one_line line ≡ true) (visible : is_blank line ≡ false) where
  scan_lines-line :
      (n : ℕ)
      → scan_lines json n (split_lines (line ++ newline ∷ []))
        ≡ record { records = r ∷ []; corruptions = [] }
  scan_lines-line n =
      ap (scan_lines json n) (
        split_lines-newline line []
        ∙ ap (λ ls. ls ++ split_lines []) (split_lines-one_line line unbroken))
      ∙ unfold scan_lines in
        rw (visible, reads) (ap (add_line (n + 1) (good r)) (scan_lines-end json (n + 1)))

  pub read_records-line :
      (f : Text)
      → IsClean f
      → read_records json (f ++ (line ++ newline ∷ [])) ≡ with_record r (read_records json f)
  unfolding read_records
  read_records-line f (inl e) =
      rw e (scan_lines-line 0 ∙ sym (ap (with_record r) (scan_lines-end json 0)))
  read_records-line f (inr (a, e)) = rw e (
      ap (λ t. scan_lines json 0 (split_lines t))
        (append_assoc a (newline ∷ []) (line ++ newline ∷ []))
      ∙ behind (line ++ newline ∷ [])
      ∙ ap (join (scan_lines json 0 (split_lines a))) (scan_lines-line _)
      ∙ added
      ∙ sym (
          ap (with_record r)
            (behind [] ∙ ap (join (scan_lines json 0 (split_lines a))) (scan_lines-end json _))))
    where
      behind :
          (rest : Text)
          → scan_lines json 0 (split_lines (a ++ newline ∷ rest))
            ≡ join
                (scan_lines json 0 (split_lines a))
                (scan_lines json (0 + shown (split_lines a)) (split_lines rest))
      behind rest =
          ap (scan_lines json 0) (split_lines-newline a rest)
          ∙ scan_lines-append json 0 (split_lines a) (split_lines rest)

      added :
          join (scan_lines json 0 (split_lines a)) (record { records = r ∷ []; corruptions = [] })
          ≡ with_record r
              (join (scan_lines json 0 (split_lines a)) (record { records = []; corruptions = [] }))
      added = rw (append-nil (scan_lines json 0 (split_lines a)).records) refl
