-- ===== src/Ledger/Codec.antt =====
-- How one record becomes a line: encoding/json and hash/crc32 are parameters, and the checksum
-- around them is the ledger's own (`record.marshal`, `record.crcOK`).
use tinvest.Prelude.{
  ℕ, ◌<◌, ◌^◌, Bool, true, false, ◌≡◌, ◌&&◌, not, [], ◌∷◌, Option, none, some, Option-cases, inl,
  inr, Text, trim_space, is_empty, arith, ◌==◌, if◌then◌else◌,
}
use tinvest.Prelude.Int.{ℤ, pos, negsuc}
use tinvest.Ledger.{Record, Stage, other_stage}

-- No newline byte in a text.
abbrev pub one_line : Text → Bool
one_line [] = true
one_line (c ∷ s) = not (c == 10) && one_line s

-- `len(bytes.TrimSpace(raw)) == 0`
unfoldable pub is_blank : Text → Bool
is_blank s = is_empty (trim_space s)

-- json.Marshal and json.Unmarshal of a record with its `crc` field, json.Marshal of a raw message,
-- utf8.Valid, and crc32.Checksum.
pub record Json : Type 0 where
  pub marshal : Record → ℕ → Option Text
  pub unmarshal : Text → Option (Record × ℕ)
  pub raw : Text → Option Text
  pub is_utf8 : Text → Bool
  pub checksum : Text → ℕ

-- The integers of 64 bits, whose exit code is absent or one of them.
abbrev pub IsInt64 : ℤ → Type 0
IsInt64 (pos n) = n < 2 ^ 63
IsInt64 (negsuc n) = n < 2 ^ 63

abbrev pub IsExitCode : Option ℤ → Type 0
IsExitCode none = Unit
IsExitCode (some z) = IsInt64 z

-- A stage of the ledger's own.
abbrev pub IsOwnStage : Stage → Type 0
IsOwnStage (other_stage t) = ⊥
IsOwnStage _ = Unit

-- The records that survive encoding/json: its strings replace what is not UTF-8, and a raw message is
-- written in json.Marshal's own form.
pub record IsLossless (json : Json) (r : Record) : Type 0 where
  pub seq_fits : r.seq < 2 ^ 63
  pub attempt_fits : IsInt64 r.attempt
  pub exit_code_fits : IsExitCode r.exit_code
  pub own_stage : IsOwnStage r.stage
  pub raw_payload : is_empty r.payload ≡ false → json.raw r.payload ≡ some r.payload
  pub ts_utf8 : json.is_utf8 r.ts ≡ true
  pub intent_id_utf8 : json.is_utf8 r.intent_id ≡ true
  pub kind_utf8 : json.is_utf8 r.kind ≡ true
  pub account_id_utf8 : json.is_utf8 r.account_id ≡ true
  pub profile_utf8 : json.is_utf8 r.profile ≡ true
  pub payload_hash_utf8 : json.is_utf8 r.payload_hash ≡ true
  pub order_id_utf8 : json.is_utf8 r.order_id ≡ true
  pub stop_order_id_utf8 : json.is_utf8 r.stop_order_id ≡ true
  pub exchange_order_id_utf8 : json.is_utf8 r.exchange_order_id ≡ true
  pub tracking_id_utf8 : json.is_utf8 r.tracking_id ≡ true
  pub error_utf8 : json.is_utf8 r.error ≡ true

-- What the ledger relies on: a lossless record reads back as itself, a checksum has 32 bits, and JSON is
-- neither blank nor broken over lines (json.Marshal escapes every control byte).
pub record IsJson (json : Json) : Type 0 where
  pub reads :
      (r : Record) (crc : ℕ) (t : Text)
      → IsLossless json r
      → crc < 2 ^ 32
      → json.marshal r crc ≡ some t
      → json.unmarshal t ≡ some (r, crc)
  pub narrow : (t : Text) → json.checksum t < 2 ^ 32
  pub unbroken : (r : Record) (crc : ℕ) (t : Text) → json.marshal r crc ≡ some t → one_line t ≡ true
  pub visible : (r : Record) (crc : ℕ) (t : Text) → json.marshal r crc ≡ some t → is_blank t ≡ false

module _ (json : Json) where
  -- `record.marshal`
  unfoldable pub marshal_record : Record → Option Text
  marshal_record r = elim (json.marshal r 0) [
    | none ↦ none
    | some base ↦ json.marshal r (json.checksum base)
  ]

  -- `record.crcOK`, on the stored checksum.
  unfoldable pub crc_ok : Record → ℕ → Bool
  crc_ok r stored = elim (json.marshal r 0) [
    | none ↦ false
    | some base ↦ json.checksum base == stored
  ]

-- The reason of a Corruption.
pub data Reason : Type 0 where
  invalid_json crc_mismatch : Reason

pub data Line : Type 0 where
  good : Record → Line
  bad : Reason → Line

module _ (json : Json) where
  -- The switch of readRecords.
  unfoldable pub read_line : Text → Line
  read_line content = elim (json.unmarshal content) [
    | none ↦ bad invalid_json
    | some (r, crc) ↦ if crc_ok json r crc then good r else bad crc_mismatch
  ]

  -- A line that the ledger wrote of a lossless record passes its own checksum, and reads back as its record.
  pub read_line-marshal_record :
      IsJson json
      → (r : Record) (t : Text) → IsLossless json r
      → marshal_record json r ≡ some t
      → read_line t ≡ good r
  unfolding read_line marshal_record crc_ok
  read_line-marshal_record h r t whole e = elim (Option-cases (json.marshal r 0)) [
    | inl failed ↦ cc (rw (failed, marshal_record) at e)
    | inr (base, marshalled) ↦
        let line : json.marshal r (json.checksum base) ≡ some t = ground arith in
        let back = h.reads r (json.checksum base) t whole (h.narrow base) line in ground arith
  ]
