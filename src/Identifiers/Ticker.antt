-- ===== src/Identifiers/Ticker.antt =====
-- What the classification of an instrument identifier says of its text.
use tinvest.Prelude.{
  ◌≡◌, inl, inr, refl, ap, ◌∙◌, true, false, ◌||◌, [], ◌∷◌, ◌++◌, Text, is_empty, trim_space, ◌==◌,
  ==_iff, Bool-cases, if_intro, arith,
}
use tinvest.Identifiers.{
  fits, uid_pattern, is_figi, IdKind, ParsedId, empty_id, side_missing, unrecognized, Classified,
  classified, invalid, contains_at, before_at, after_at, classify_trimmed, classify_id,
  validate_order_id,
}
use tinvest.Identifiers.Uuid.{validate_order_id-fits}

-- A text is a ticker and a class code: the first is up to the first `@`.
pub record IsTicker (s t c : Text) : Type 0 where
  pub joined : s ≡ t ++ (b'@' ∷ c)
  pub named : is_empty t ≡ false
  pub classed : is_empty c ≡ false
  pub first : contains_at t ≡ false

-- What a trimmed text is, by its classification.
abbrev pub IsKind : Text → ParsedId → IdKind → Type 0
IsKind s p IdKind.ticker = IsTicker s p.ticker_part p.class_code
IsKind s p IdKind.uid = (validate_order_id s ≡ true) × (contains_at s ≡ false)
IsKind s p IdKind.figi =
    (is_figi s ≡ true) × (validate_order_id s ≡ false) × (contains_at s ≡ false)
IsKind s p IdKind.unknown = true ≡ false

abbrev pub IsReading : Text → Classified → Type 0
IsReading s (classified p) = (p.raw ≡ s) × IsKind s p p.kind
IsReading s (invalid empty_id) = is_empty s ≡ true
IsReading s (invalid side_missing) =
    (contains_at s ≡ true) × ((is_empty (before_at s) || is_empty (after_at s)) ≡ true)
IsReading s (invalid unrecognized) =
    (contains_at s ≡ false) × (validate_order_id s ≡ false) × (is_figi s ≡ false)

split-lem :
    (s : Text)
    → contains_at s ≡ true
    → (s ≡ before_at s ++ (b'@' ∷ after_at s)) × (contains_at (before_at s) ≡ false)
unfolding before_at after_at
split-lem [] h = cc h
split-lem (c ∷ s) h = elim (Bool-cases (c == b'@')) [
  | inl at ↦ rw at (ap (λ x. x ∷ s) ((==_iff c b'@').0 at), refl)
  | inr other ↦
      let (same, fresh) = split-lem s (rw other at h) in
      rw (other) (ap (λ t. c ∷ t) same, rw other fresh)
]

-- A classified identifier is read as what its text is: a ticker is a non-empty text without `@`, up to
-- the first `@` of the text, and its class code the non-empty rest; a uid is a text that would also
-- pass as an order id; a FIGI is neither. A refused text is empty, lacks a side of its `@`, or is none
-- of the three.
pub classify_id-IsReading : (s : Text) → IsReading (trim_space s) (classify_id s)
unfolding classify_id classify_trimmed
classify_id-IsReading s = read (trim_space s)
  where
    read : (s : Text) → IsReading s (classify_trimmed s)
    read s =
        if_intro (IsReading s) (is_empty s) (invalid empty_id) _ (λ e. e)
          (λ full.
            if_intro (IsReading s) (contains_at s) _ _
              (λ at.
                if_intro (IsReading s) (is_empty (before_at s) || is_empty (after_at s))
                  (invalid side_missing) _ (λ lacks. (at, lacks))
                  (λ both.
                    let (same, fresh) = split-lem s at in
                    (
                      refl,
                      record {
                        joined = same;
                        named = ground arith;
                        classed = ground arith;
                        first = fresh;
                      },
                    )))
              (λ no_at.
                if_intro (IsReading s) (fits uid_pattern s) _ _
                  (λ hit. (refl, (validate_order_id-fits s ∙ hit, no_at)))
                  (λ miss.
                    let other = validate_order_id-fits s ∙ miss in
                    if_intro (IsReading s) (is_figi s) _ _ (λ f. (refl, (f, other, no_at)))
                      (λ nf. (no_at, other, nf)))))
