-- ===== src/StreamRunner/Messages.antt =====
-- The messages of a session, and what the loop makes of them.
use mathlib.Core.List.{append_assoc}
use tinvest.Prelude.{
  ◌≡◌, refl, ap, Bool, true, false, not, List, [], ◌∷◌, ◌++◌, Option, none, some, arith,
  if◌then◌else◌,
}
use tinvest.StreamRunner.{
  Handlers, Told, event, message, Input, context_done, reconcile_failed, reconcile_succeeded,
  receive_failed, received, timed_out,
}

module _ {A : Type 0} where
  abbrev pub deliveries : List (Told A) → List A
  deliveries [] = []
  deliveries (event e ∷ log) = deliveries log
  deliveries (message m ∷ log) = m ∷ deliveries log

  abbrev pub keep : (A → Bool) → List A → List A
  keep p [] = []
  keep p (m ∷ ms) = let rest = keep p ms in if p m then m ∷ rest else rest

  -- The messages of a run, and those in front of its reconciliation's end and behind it.
  abbrev pub messages : List (Input A) → List A
  messages [] = []
  messages (received m ∷ inputs) = m ∷ messages inputs
  messages (context_done ∷ inputs) = messages inputs
  messages (reconcile_failed b e ∷ inputs) = messages inputs
  messages (reconcile_succeeded b f ∷ inputs) = messages inputs
  messages (receive_failed b c e ∷ inputs) = messages inputs
  messages (timed_out ∷ inputs) = messages inputs

  abbrev pub early : List (Input A) → List A
  early [] = []
  early (received m ∷ inputs) = m ∷ early inputs
  early (context_done ∷ inputs) = early inputs
  early (reconcile_failed b e ∷ inputs) = early inputs
  early (reconcile_succeeded b f ∷ inputs) = []
  early (receive_failed b c e ∷ inputs) = early inputs
  early (timed_out ∷ inputs) = early inputs

  -- none if the reconciliation has not ended.
  abbrev pub late : List (Input A) → Option (List A)
  late [] = none
  late (received m ∷ inputs) = late inputs
  late (context_done ∷ inputs) = late inputs
  late (reconcile_failed b e ∷ inputs) = late inputs
  late (reconcile_succeeded b f ∷ inputs) = some (messages inputs)
  late (receive_failed b c e ∷ inputs) = late inputs
  late (timed_out ∷ inputs) = late inputs

  pub deliveries-append :
      (xs ys : List (Told A)) → deliveries (xs ++ ys) ≡ deliveries xs ++ deliveries ys
  deliveries-append [] ys = refl
  deliveries-append (event e ∷ xs) ys = deliveries-append xs ys
  deliveries-append (message m ∷ xs) ys = ap (λ ms. m ∷ ms) (deliveries-append xs ys)

  pub keep-append : (p : A → Bool) (xs ys : List A) → keep p (xs ++ ys) ≡ keep p xs ++ keep p ys
  keep-append p [] ys = refl
  keep-append p (x ∷ xs) ys = ground (arith, keep-append p xs ys)

  -- What is handed over of the messages in front of the reconciliation's end, those that were buffered
  -- before included; and behind it.
  abbrev pub handed : {F : Type 0} → Handlers A F → List A → List A → Option (List A) → List A
  handed h buffered ms none = keep (λ m. not (h.buffers m)) ms
  handed h buffered ms (some rest) =
      keep (λ m. not (h.buffers m)) ms
      ++ (keep h.keep_after (buffered ++ keep h.buffers ms) ++ keep h.keep_live rest)

  pub handed-buffered :
      {F : Type 0} (h : Handlers A F) (buffered ms : List A) (m : A) (rest : Option (List A))
      → h.buffers m ≡ true
      → handed h (buffered ++ m ∷ []) ms rest ≡ handed h buffered (m ∷ ms) rest
  handed-buffered h buffered ms m none e = rw e refl
  handed-buffered h buffered ms m (some rest) e = rw e (
      ap
        (λ xs.
          keep (λ m'. not (h.buffers m')) ms ++ (keep h.keep_after xs ++ keep h.keep_live rest))
        (append_assoc buffered (m ∷ []) (keep h.buffers ms)))

  pub handed-live :
      {F : Type 0} (h : Handlers A F) (buffered ms : List A) (m : A) (rest : Option (List A))
      → h.buffers m ≡ false
      → m ∷ handed h buffered ms rest ≡ handed h buffered (m ∷ ms) rest
  handed-live h buffered ms m none e = rw e refl
  handed-live h buffered ms m (some rest) e = rw e refl
