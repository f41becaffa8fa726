-- ===== src/StopMatch/Reflects.antt =====
-- Tests against what they are meant to test, for the matching of stop orders.
use tinvest.Prelude.{
  ◌≡◌, ◌⊎◌, inl, inr, refl, sym, ap, ◌∙◌, Bool, true, false, not, ◌&&◌, [], ◌∷◌, Option, none, some,
  Text, text_eq, text_eq_sound, text_eq_refl, is_empty, if◌then◌else◌, both_true, ==_refl, arith,
}
use tinvest.Prelude.Int.{ℤ, pos, negsuc, eq_ℤ}
use tinvest.StopOrders.{is_none}

-- A test that passes exactly for what it is meant to.
abbrev pub Reflects : Bool → Type 0 → Type 0
Reflects b P = (b ≡ true → P) × (P → b ≡ true)

pub both-Reflects :
    {P Q : Type 0} (a b : Bool) → Reflects a P → Reflects b Q → Reflects (a && b) (P × Q)
both-Reflects a b f g =
    (λ h. let (x, y) = both_true a b h in (f.0 x, g.0 y), λ h. joined a b (f.1 h.0) (g.1 h.1))
  where
    joined : (a b : Bool) → a ≡ true → b ≡ true → (a && b) ≡ true
    joined a b x y = ground arith

pub text_eq-Reflects : (s t : Text) → Reflects (text_eq s t) (s ≡ t)
text_eq-Reflects s t = (text_eq_sound s t, λ h. ap (λ u. text_eq s u) (sym h) ∙ text_eq_refl s)

pub eq_ℤ-Reflects : (a b : ℤ) → Reflects (eq_ℤ a b) (a ≡ b)
eq_ℤ-Reflects a b = (sound a b, λ h. ap (λ z. eq_ℤ a z) (sym h) ∙ same a)
  where
    sound : (a b : ℤ) → eq_ℤ a b ≡ true → a ≡ b
    sound (pos m) (pos n) h = ap pos (ground arith)
    sound (pos m) (negsuc n) h = cc
    sound (negsuc m) (pos n) h = cc
    sound (negsuc m) (negsuc n) h = ap negsuc (ground arith)

    same : (a : ℤ) → eq_ℤ a a ≡ true
    same (pos n) = ==_refl n
    same (negsuc n) = ==_refl n

pub is_none-Reflects : {A : Type 0} (o : Option A) → Reflects (is_none o) (o ≡ none)
is_none-Reflects none = (λ h. refl, λ h. refl)
is_none-Reflects (some a) = (λ h. cc, λ h. cc)

pub is_empty-Reflects : (s : Text) → Reflects (is_empty s) (s ≡ [])
is_empty-Reflects [] = (λ h. refl, λ h. refl)
is_empty-Reflects (c ∷ s) = (λ h. cc, λ h. cc)

-- A test behind a case.
pub unless-Reflects :
    {G X Y : Type 0} (b x y : Bool)
    → Reflects b G
    → Reflects x X
    → Reflects y Y
    → Reflects (if not b then x else y) (((¬ G) × X) ⊎ (G × Y))
unless-Reflects true x y f g h = (
  λ e. inr (f.0 refl, h.0 e),
  λ k. elim k [ inl left ↦ absurd (left.0 (f.0 refl)) | inr right ↦ h.1 right.1 ],
)
unless-Reflects false x y f g h = (
  λ e. inl (λ c. cc (f.1 c), g.0 e),
  λ k. elim k [ inl left ↦ g.1 left.1 | inr right ↦ cc (f.1 right.0) ],
)

pub case-Reflects :
    {G X Y : Type 0} (b x y : Bool)
    → Reflects b G
    → Reflects x X
    → Reflects y Y
    → Reflects (if b then x else y) ((G × X) ⊎ ((¬ G) × Y))
case-Reflects true x y f g h = (
  λ e. inl (f.0 refl, g.0 e),
  λ k. elim k [ inl left ↦ g.1 left.1 | inr right ↦ absurd (right.0 (f.0 refl)) ],
)
case-Reflects false x y f g h = (
  λ e. inr (λ c. cc (f.1 c), h.0 e),
  λ k. elim k [ inl left ↦ cc (f.1 left.0) | inr right ↦ h.1 right.1 ],
)

pub when-Reflects :
    {G Y : Type 0} (b y : Bool)
    → Reflects b G
    → Reflects y Y
    → Reflects (if b then y else false) (G × Y)
when-Reflects true y f h = (λ e. (f.0 refl, h.0 e), λ k. h.1 k.1)
when-Reflects false y f h = (λ e. cc, λ k. cc (f.1 k.0))

pub reject-Reflects :
    {G Y : Type 0} (b y : Bool)
    → Reflects b G
    → Reflects y Y
    → Reflects (if not b then false else y) (G × Y)
reject-Reflects true y f h = (λ e. (f.0 refl, h.0 e), λ k. h.1 k.1)
reject-Reflects false y f h = (λ e. cc, λ k. cc (f.1 k.0))
