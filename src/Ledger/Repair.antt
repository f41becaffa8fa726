-- ===== src/Ledger/Repair.antt =====
-- The repair of a torn final write (`repairTornTail`), on the bytes of one journal file.
use tinvest.Prelude.{
  ℕ, zero, suc, ◌+◌, ◌-◌, ◌≤◌, ◌<◌, Bool, true, false, ◌≡◌, refl, [], ◌∷◌, ◌++◌, Option, none, some,
  Text, length, length-append, take, drop, ap, ◌∙◌, ◌⊎◌, arith, ◌==◌, ltb, if◌then◌else◌,
}
use tinvest.Ledger.Codec.{one_line}
use tinvest.Ledger.Lines.{newline}

-- The last byte of a buffer.
unfoldable pub ends_in_newline : Text → Bool
ends_in_newline [] = false
ends_in_newline (c ∷ []) = c == newline
ends_in_newline (c ∷ d ∷ s) = ends_in_newline (d ∷ s)

-- bytes.LastIndexByte
unfoldable pub last_index : ℕ → Text → Option ℕ
last_index b [] = none
last_index b (c ∷ s) = elim (last_index b s) [
  | some i ↦ some (suc i)
  | none ↦ if c == b then some 0 else none
]

abbrev pub window : ℕ
window = 65536

-- Where the last `window` bytes of a file begin.
abbrev pub window_start : ℕ → ℕ
window_start size = if ltb window size then size - window else 0

-- `truncateAt` of a file that is not empty; none where the file is left as it is.
unfoldable pub truncate_body : Text → Option ℕ
truncate_body file =
    let from = window_start (length file) in
    let buf = drop from file in
    if ends_in_newline buf then none else elim (last_index newline buf) [
      | some idx ↦ some (from + idx + 1)
      | none ↦ if from == 0 then some 0 else none
    ]

unfoldable pub truncate_at : Text → Option ℕ
truncate_at [] = none
truncate_at (c ∷ s) = truncate_body (c ∷ s)

-- The file after the repair, and the bytes that go to the sidecar.
pub record Repaired : Type 0 where
  pub file : Text
  pub torn : Text

abbrev pub split_at : Text → Option ℕ → Repaired
split_at file none = record { file = file; torn = [] }
split_at file (some at) = record { file = take at file; torn = drop at file }

unfoldable pub repair_torn_tail : Text → Repaired
repair_torn_tail file = split_at file (truncate_at file)

-- A clean file: empty, or closed by a newline.
abbrev pub IsClean : Text → Type 0
IsClean f = (f ≡ []) ⊎ ((a : Text) × (f ≡ a ++ newline ∷ []))

pub ends_in_newline-cons :
    (c : ℕ) (t : Text) → 0 < length t → ends_in_newline (c ∷ t) ≡ ends_in_newline t
unfolding ends_in_newline
ends_in_newline-cons c [] h = absurd (omega arith)
ends_in_newline-cons c (d ∷ t) h = refl

pub ends_in_newline-append :
    (a t : Text) → 0 < length t → ends_in_newline (a ++ t) ≡ ends_in_newline t
ends_in_newline-append [] t h = refl
ends_in_newline-append (c ∷ a) t h =
    ends_in_newline-cons c (a ++ t) (omega (arith, length-append a t))
    ∙ ends_in_newline-append a t h

pub ends_in_newline-one_line : (t : Text) → one_line t ≡ true → ends_in_newline t ≡ false
unfolding ends_in_newline
ends_in_newline-one_line [] h = refl
ends_in_newline-one_line (c ∷ []) h = ground arith
ends_in_newline-one_line (c ∷ d ∷ t) h = ends_in_newline-one_line (d ∷ t) (ground arith)

pub last_index-one_line : (t : Text) → one_line t ≡ true → last_index newline t ≡ none
unfolding last_index
last_index-one_line [] h = refl
last_index-one_line (c ∷ t) h = ground (arith, last_index-one_line t)

pub last_index-append :
    (a t : Text) → one_line t ≡ true → last_index newline (a ++ newline ∷ t) ≡ some (length a)
unfolding last_index
last_index-append [] t h = ground (arith, last_index-one_line t h)
last_index-append (c ∷ a) t h = ground (arith, last_index-append a t h)

pub drop-append : (n : ℕ) (a t : Text) → n ≤ length a → drop n (a ++ t) ≡ drop n a ++ t
drop-append zero a t h = refl
drop-append (suc n) [] t h = absurd (omega arith)
drop-append (suc n) (c ∷ a) t h = drop-append n a t (omega arith)

pub length-drop : (n : ℕ) (a : Text) → length (drop n a) ≡ length a - n
length-drop zero a = omega arith
length-drop (suc n) [] = omega arith
length-drop (suc n) (c ∷ a) = omega (arith, length-drop n a)

pub split_at-append :
    (n : ℕ) (a t : Text) → n ≡ length a → split_at (a ++ t) (some n) ≡ record { file = a; torn = t }
split_at-append zero [] t e = refl
split_at-append zero (c ∷ a) t e = absurd (omega arith)
split_at-append (suc n) [] t e = absurd (omega arith)
split_at-append (suc n) (c ∷ a) t e =
    ap (λ (r : Repaired). record { file = c ∷ r.file; torn = r.torn })
      (split_at-append n a t (omega arith))
