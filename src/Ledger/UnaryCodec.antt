-- ===== src/Ledger/UnaryCodec.antt =====
-- A codec of every record, in unary, for the ledger's theorems at concrete inputs.
use mathlib.Core.Option.{some-injective}
use tinvest.Prelude.{
  ℕ, zero, suc, ◌%◌, ◌≡◌, refl, sym, ap, ◌∙◌, true, false, List, [], ◌∷◌, Option, none, some, Text,
  all_digits, trim_space-plain, all_plain-digits, length, arith, ◌==◌, if◌then◌else◌,
}
use tinvest.Prelude.Int.{ℤ, pos, negsuc}
use tinvest.Strconv.RoundTrip.{starts_digit}
use tinvest.Ledger.{
  Stage, intent_created, send_started, broker_confirmed, broker_rejected, reconciled, other_stage,
  Record,
}
use tinvest.Ledger.Codec.{Json, IsJson, IsOwnStage, one_line, is_blank}

-- Numbers: as many `1` as they count, and `0`.
abbrev write_number : ℕ → Text → Text
write_number zero rest = 48 ∷ rest
write_number (suc n) rest = 49 ∷ write_number n rest

abbrev one_more : List ℕ → List ℕ
one_more [] = []
one_more (n ∷ ns) = suc n ∷ ns

abbrev read_numbers : Text → List ℕ
read_numbers [] = []
read_numbers (c ∷ s) = if c == 48 then 0 ∷ read_numbers s else one_more (read_numbers s)

read_numbers-write_number :
    (n : ℕ) (s : Text) → read_numbers (write_number n s) ≡ n ∷ read_numbers s
read_numbers-write_number zero s = refl
read_numbers-write_number (suc n) s = ap one_more (read_numbers-write_number n s)

-- Texts: each byte past 0, and 0 at the end.
abbrev write_text : Text → Text → Text
write_text [] rest = write_number 0 rest
write_text (c ∷ t) rest = write_number (suc c) (write_text t rest)

abbrev onto_first : ℕ → List Text → List Text
onto_first c [] = []
onto_first c (t ∷ ts) = (c ∷ t) ∷ ts

abbrev split_texts : List ℕ → List Text
split_texts [] = []
split_texts (zero ∷ ns) = [] ∷ split_texts ns
split_texts (suc c ∷ ns) = onto_first c (split_texts ns)

split_texts-write_text :
    (t s : Text) → split_texts (read_numbers (write_text t s)) ≡ t ∷ split_texts (read_numbers s)
split_texts-write_text [] s = refl
split_texts-write_text (c ∷ t) s =
    ap split_texts (read_numbers-write_number (suc c) (write_text t s))
    ∙ ap (onto_first c) (split_texts-write_text t s)

abbrev write_texts : List Text → Text
write_texts [] = []
write_texts (t ∷ ts) = write_text t (write_texts ts)

abbrev read_texts : Text → List Text
read_texts s = split_texts (read_numbers s)

read_texts-write_texts : (ts : List Text) → read_texts (write_texts ts) ≡ ts
read_texts-write_texts [] = refl
read_texts-write_texts (t ∷ ts) =
    split_texts-write_text t (write_texts ts) ∙ ap (λ us. t ∷ us) (read_texts-write_texts ts)

abbrev write_int : ℤ → Text
write_int (pos n) = 0 ∷ n ∷ []
write_int (negsuc n) = 1 ∷ n ∷ []

abbrev read_int : Text → ℤ
read_int (zero ∷ n ∷ []) = pos n
read_int (suc k ∷ n ∷ []) = negsuc n
read_int _ = pos 0

read_int-write_int : (z : ℤ) → read_int (write_int z) ≡ z
read_int-write_int (pos n) = refl
read_int-write_int (negsuc n) = refl

abbrev write_code : Option ℤ → Text
write_code none = []
write_code (some z) = write_int z

abbrev read_code : Text → Option ℤ
read_code [] = none
read_code (c ∷ t) = some (read_int (c ∷ t))

read_code-write_code : (o : Option ℤ) → read_code (write_code o) ≡ o
read_code-write_code none = refl
read_code-write_code (some (pos n)) = refl
read_code-write_code (some (negsuc n)) = refl

abbrev write_stage : Stage → Text
write_stage intent_created = []
write_stage send_started = 1 ∷ []
write_stage broker_confirmed = 2 ∷ 2 ∷ []
write_stage broker_rejected = 3 ∷ 3 ∷ 3 ∷ []
write_stage reconciled = 4 ∷ 4 ∷ 4 ∷ 4 ∷ []
write_stage (other_stage t) = t

abbrev read_stage : Text → Stage
read_stage [] = intent_created
read_stage (a ∷ []) = send_started
read_stage (a ∷ b ∷ []) = broker_confirmed
read_stage (a ∷ b ∷ c ∷ []) = broker_rejected
read_stage (a ∷ b ∷ c ∷ d ∷ rest) = reconciled

read_stage-write_stage : (s : Stage) → IsOwnStage s → read_stage (write_stage s) ≡ s
read_stage-write_stage intent_created own = refl
read_stage-write_stage send_started own = refl
read_stage-write_stage broker_confirmed own = refl
read_stage-write_stage broker_rejected own = refl
read_stage-write_stage reconciled own = refl
read_stage-write_stage (other_stage t) own = absurd own

abbrev first_of : Text → ℕ
first_of [] = 0
first_of (n ∷ rest) = n

abbrev to_texts : Record → ℕ → List Text
to_texts r crc =
    (crc ∷ [])
    ∷ (r.seq ∷ [])
    ∷ r.ts
    ∷ write_stage r.stage
    ∷ r.intent_id
    ∷ r.kind
    ∷ r.account_id
    ∷ r.profile
    ∷ write_int r.attempt
    ∷ r.payload_hash
    ∷ r.payload
    ∷ r.order_id
    ∷ r.stop_order_id
    ∷ r.exchange_order_id
    ∷ r.tracking_id
    ∷ r.error
    ∷ write_code r.exit_code
    ∷ []

abbrev nth : ℕ → List Text → Text
nth n [] = []
nth zero (t ∷ ts) = t
nth (suc n) (t ∷ ts) = nth n ts

abbrev from_texts : List Text → Option (Record × ℕ)
from_texts [] = none
from_texts (t ∷ ts) = some (
  record {
    seq = first_of (nth 0 ts);
    ts = nth 1 ts;
    stage = read_stage (nth 2 ts);
    intent_id = nth 3 ts;
    kind = nth 4 ts;
    account_id = nth 5 ts;
    profile = nth 6 ts;
    attempt = read_int (nth 7 ts);
    payload_hash = nth 8 ts;
    payload = nth 9 ts;
    order_id = nth 10 ts;
    stop_order_id = nth 11 ts;
    exchange_order_id = nth 12 ts;
    tracking_id = nth 13 ts;
    error = nth 14 ts;
    exit_code = read_code (nth 15 ts);
  },
  first_of t,
)

-- Checksums are small, since they are written in unary too.
abbrev pub unary : Json
unary = record {
  marshal = λ r crc. some (write_texts (to_texts r crc));
  unmarshal = λ t. from_texts (read_texts t);
  raw = some;
  is_utf8 = λ t. true;
  checksum = λ t. length t % 7;
}

from_texts-to_texts :
    (r : Record) (crc : ℕ) → IsOwnStage r.stage → from_texts (to_texts r crc) ≡ some (r, crc)
from_texts-to_texts r crc own =
    ap (λ x. some (record r { stage = x; attempt = a; exit_code = o }, crc))
      (read_stage-write_stage r.stage own)
    ∙ ap (λ x. some (record r { attempt = x; exit_code = o }, crc)) (read_int-write_int r.attempt)
    ∙ ap (λ x. some (record r { exit_code = x }, crc)) (read_code-write_code r.exit_code)
  where
    a : ℤ
    a = read_int (write_int r.attempt)

    o : Option ℤ
    o = read_code (write_code r.exit_code)

all_digits-write_number : (n : ℕ) (s : Text) → all_digits (write_number n s) ≡ all_digits s
all_digits-write_number zero s = refl
all_digits-write_number (suc n) s = all_digits-write_number n s

all_digits-write_text : (t s : Text) → all_digits (write_text t s) ≡ all_digits s
all_digits-write_text [] s = refl
all_digits-write_text (c ∷ t) s =
    all_digits-write_number (suc c) (write_text t s) ∙ all_digits-write_text t s

all_digits-write_texts : (ts : List Text) → all_digits (write_texts ts) ≡ true
all_digits-write_texts [] = refl
all_digits-write_texts (t ∷ ts) =
    all_digits-write_text t (write_texts ts) ∙ all_digits-write_texts ts

one_line-digits : (t : Text) → all_digits t ≡ true → one_line t ≡ true
one_line-digits [] h = refl
one_line-digits (c ∷ t) h = ground (arith, one_line-digits t)

is_blank-digits : (t : Text) → all_digits t ≡ true → starts_digit t ≡ true → is_blank t ≡ false
unfolding is_blank
is_blank-digits [] h d = cc
is_blank-digits (c ∷ t) h d = rw (trim_space-plain (c ∷ t) (all_plain-digits (c ∷ t) h)) refl

written :
    (r : Record) (crc : ℕ) (t : Text)
    → unary.marshal r crc ≡ some t
    → t ≡ write_texts (to_texts r crc)
written r crc t e = sym (some-injective (write_texts (to_texts r crc)) t e)

pub unary-IsJson : IsJson unary
unary-IsJson = record {
  reads = λ r crc t whole small e.
      ap (λ u. from_texts (read_texts u)) (written r crc t e)
      ∙ ap from_texts (read_texts-write_texts (to_texts r crc))
      ∙ from_texts-to_texts r crc whole.own_stage;
  narrow = λ t. omega arith;
  unbroken = λ r crc t e.
      ap one_line (written r crc t e)
      ∙ one_line-digits (write_texts (to_texts r crc)) (all_digits-write_texts (to_texts r crc));
  visible = λ r crc t e.
      ap is_blank (written r crc t e)
      ∙ is_blank-digits (write_texts (to_texts r crc)) (all_digits-write_texts (to_texts r crc))
          refl;
}
