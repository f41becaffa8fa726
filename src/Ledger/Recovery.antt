-- ===== src/Ledger/Recovery.antt =====
-- An append that is cut off at any byte, and the next start's repair.
use mathlib.Core.List.{append-nil, append_assoc}
use tinvest.Prelude.{
  ℕ, zero, suc, ◌≤◌, ◌<◌, true, false, ◌≡◌, inl, inr, refl, sym, ap, ◌∙◌, [], ◌∷◌, ◌++◌, some,
  Option-cases, Bool-cases, Text, length, take, arith, leb, leb→le, if◌then◌else◌,
}
use tinvest.Ledger.{Record}
use tinvest.Ledger.Codec.{
  Json, IsJson, IsLossless, one_line, is_blank, marshal_record, read_line-marshal_record,
}
use tinvest.Ledger.Lines.{newline, read_records}
use tinvest.Ledger.Repair.{window, repair_torn_tail, IsClean}
use tinvest.Ledger.CrashSafety.{repair_torn_tail-lem, with_record, read_records-line}

module _ (json : Json) (h : IsJson json) (r : Record) (line : Text) (whole : IsLossless json r)
    (e : marshal_record json r ≡ some line) where
  last_marshal : (crc : ℕ) × (json.marshal r crc ≡ some line)
  unfolding marshal_record
  last_marshal = elim (Option-cases (json.marshal r 0)) [
    | inl failed ↦ cc (rw (failed, marshal_record) at e)
    | inr (base, marshalled) ↦ (json.checksum base, ground arith)
  ]

  line-one_line : one_line line ≡ true
  line-one_line = h.unbroken r last_marshal.0 line last_marshal.1

  line-visible : is_blank line ≡ false
  line-visible = h.visible r last_marshal.0 line last_marshal.1

  read_records-append :
      (f : Text)
      → IsClean f
      → read_records json (f ++ (line ++ newline ∷ [])) ≡ with_record r (read_records json f)
  read_records-append =
      read_records-line json r line (read_line-marshal_record json h r line whole e) line-one_line
        line-visible

one_line-take : (k : ℕ) (s : Text) → one_line s ≡ true → one_line (take k s) ≡ true
one_line-take zero s h = refl
one_line-take (suc k) [] h = refl
one_line-take (suc k) (c ∷ s) h = ground (arith, one_line-take k s)

length-take-le : (k : ℕ) (s : Text) → length (take k s) ≤ length s
length-take-le zero s = omega arith
length-take-le (suc k) [] = omega arith
length-take-le (suc k) (c ∷ s) = omega (arith, length-take-le k s)

take-append_short : (k : ℕ) (s t : Text) → k ≤ length s → take k (s ++ t) ≡ take k s
take-append_short zero s t h = refl
take-append_short (suc k) [] t h = absurd (omega arith)
take-append_short (suc k) (c ∷ s) t h = ap (λ u. c ∷ u) (take-append_short k s t (omega arith))

take-snoc_long : (k c : ℕ) (s : Text) → length s < k → take k (s ++ c ∷ []) ≡ s ++ c ∷ []
take-snoc_long zero c s h = absurd (omega arith)
take-snoc_long (suc zero) c [] h = refl
take-snoc_long (suc (suc k)) c [] h = refl
take-snoc_long (suc k) c (x ∷ s) h = ap (λ u. x ∷ u) (take-snoc_long k c s (omega arith))

IsClean-append : (f s : Text) → IsClean (f ++ (s ++ newline ∷ []))
IsClean-append f s = inr (f ++ s, sym (append_assoc f s (newline ∷ [])))

-- A journal file in good order, an append of a record that survives encoding/json (a stage of the
-- ledger's own, valid UTF-8, a payload in json.Marshal's form) and whose line is shorter than the
-- repair's window,
-- and a crash that leaves the first k bytes of that line and its newline: after the next start's
-- repair the file is in good order again, and it reads as before, or as before with the new record
-- at the end if the newline was written; corruptions reported before are the same, and none is new.
pub crash_recovery :
    (json : Json)
    → IsJson json
    → (r : Record) (line f : Text) (k : ℕ) → IsLossless json r
    → marshal_record json r ≡ some line
    → IsClean f
    → length line < window
    → let left = (repair_torn_tail (f ++ take k (line ++ newline ∷ []))).file in
      IsClean left
      × (read_records json left ≡ (
          if leb k (length line) then read_records json f else with_record r (read_records json f)))
crash_recovery json h r line f k whole e clean short = elim (Bool-cases (leb k (length line))) [
  | inl cut ↦
      rw (cut, take-append_short k line (newline ∷ []) (leb→le k (length line) cut))
        (rw
          (repair_torn_tail-lem f (take k line) clean
            (one_line-take k line (line-one_line json h r line whole e))
            (omega (arith, length-take-le k line)))
          (clean, refl))
  | inr written ↦
      rw (written, take-snoc_long k newline line (ground arith))
        (rw (whole_file) (IsClean-append f line, read_records-append json h r line whole e f clean))
]
  where
    whole_file : (repair_torn_tail (f ++ (line ++ newline ∷ []))).file ≡ f ++ (line ++ newline ∷ [])
    whole_file =
        ap (λ t. (repair_torn_tail t).file) (sym (append-nil (f ++ (line ++ newline ∷ []))))
        ∙ ap (λ p. p.file)
            (repair_torn_tail-lem (f ++ (line ++ newline ∷ [])) [] (IsClean-append f line) refl
              (omega arith))
