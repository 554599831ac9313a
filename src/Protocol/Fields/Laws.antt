-- ===== src/Protocol/Fields/Laws.antt =====
-- What the fixed-width text fields hold: text without NUL, padded with NUL.
use ws_gateway.Common.{
  ℕ, zero, suc, ◌+◌, ◌-◌, ◌≤◌, ◌<◌, ◌≡◌, ◌↔◌, refl, sym, ap, ◌∙◌, true, false, ◌&&◌, some, [], ◌∷◌,
  ◌++◌, arith, ◌==◌, length, drop, take-append, copy_from_slice, replicate, all, All, and_iff,
}
use ws_gateway.Protocol.Fields.{
  Bytes, is_ascii, is_ascii_byte, start, utf8_run, from_utf8_or_empty, pack_ascii_field, first_zero,
  is_valid_ascii_field, ascii_field_str,
}

-- Text that fits a field: ASCII with no NUL.
abbrev pub IsText : Bytes → Type 0
IsText = All λ b. (0 < b) × (b < 128)

-- The field of width `n` that holds `s`.
abbrev pub padded : ℕ → Bytes → Bytes
padded n s = s ++ replicate (n - length s) 0

first_zero-cons : (b : ℕ) (f : Bytes) → first_zero (suc b ∷ f) ≡ suc (first_zero f)
unfolding first_zero
first_zero-cons b f = ground arith

first_zero-zero : (f : Bytes) → first_zero (0 ∷ f) ≡ 0
unfolding first_zero
first_zero-zero f = refl

valid-zero : (f : Bytes) → is_valid_ascii_field (0 ∷ f) ≡ all (λ b. b == 0) f
unfolding is_valid_ascii_field first_zero
valid-zero f = refl

valid-suc :
    (b : ℕ) (f : Bytes)
    → is_valid_ascii_field (suc b ∷ f) ≡ (is_ascii_byte (suc b) && is_valid_ascii_field f)
unfolding is_valid_ascii_field
valid-suc b f = rw first_zero-cons (ground arith)

all_zero : (f : Bytes) → all (λ b. b == 0) f ≡ true → f ≡ replicate (length f) 0
all_zero [] h = refl
all_zero (zero ∷ f) h = ap (λ t. 0 ∷ t) (all_zero f h)
all_zero (suc b ∷ f) h = absurd (ground arith)

replicate-all_zero : (k : ℕ) → all (λ b. b == 0) (replicate k 0) ≡ true
replicate-all_zero zero = refl
replicate-all_zero (suc k) = replicate-all_zero k

first_zero-text : (s : Bytes) (k : ℕ) → IsText s → first_zero (s ++ replicate k 0) ≡ length s
unfolding first_zero
first_zero-text [] zero h = refl
first_zero-text [] (suc k) h = refl
first_zero-text (zero ∷ s) k h = absurd (omega arith)
first_zero-text (suc b ∷ s) k h =
    first_zero-cons b (s ++ replicate k 0) ∙ ap suc (first_zero-text s k h.1)

-- Only a text padded with NUL is accepted.
pub is_valid_ascii_field-IsText :
    (f : Bytes)
    → is_valid_ascii_field f ≡ true
    → (s : Bytes) × (k : ℕ) × IsText s × (f ≡ s ++ replicate k 0)
is_valid_ascii_field-IsText [] h = ([], 0, tt, refl)
is_valid_ascii_field-IsText (zero ∷ f) h =
    ([], suc (length f), tt, ap (λ t. 0 ∷ t) (all_zero f (sym (valid-zero f) ∙ h)))
is_valid_ascii_field-IsText (suc b ∷ f) h =
    let parts =
      (and_iff (is_ascii_byte (suc b)) (is_valid_ascii_field f)).0 (sym (valid-suc b f) ∙ h) in
    let (s, k, t, e) = is_valid_ascii_field-IsText f parts.1 in
    (suc b ∷ s, k, ((ground arith, ground arith), t), ap (λ r. suc b ∷ r) e)

pub text-is_valid_ascii_field :
    (s : Bytes) (k : ℕ) → IsText s → is_valid_ascii_field (s ++ replicate k 0) ≡ true
text-is_valid_ascii_field [] zero h = unfold is_valid_ascii_field first_zero in refl
text-is_valid_ascii_field [] (suc k) h = valid-zero _ ∙ replicate-all_zero k
text-is_valid_ascii_field (zero ∷ s) k h = absurd (omega arith)
text-is_valid_ascii_field (suc b ∷ s) k h =
    ground (arith, valid-suc b (s ++ replicate k 0), text-is_valid_ascii_field s k h.1)

utf8_run-text : (s : Bytes) → IsText s → utf8_run start s ≡ true
unfolding utf8_run
utf8_run-text [] h = refl
utf8_run-text (b ∷ s) h = ground (arith, utf8_run-text s h.1)

-- The view of a padded text is the text.
pub ascii_field_str-text : (s : Bytes) (k : ℕ) → IsText s → ascii_field_str (s ++ replicate k 0) ≡ s
unfolding ascii_field_str from_utf8_or_empty
ascii_field_str-text s k h =
    rw (first_zero-text s k h, take-append s (replicate k 0), from_utf8_or_empty, utf8_run-text s h)

drop-replicate {ℓ} : {A : Type ℓ} (k n : ℕ) (a : A) → drop k (replicate n a) ≡ replicate (n - k) a
drop-replicate zero n a = ap (λ (m : ℕ). replicate m a) (let e : n ≡ n - 0 = omega arith in e)
drop-replicate (suc k) zero a =
    ap (λ (m : ℕ). replicate m a) (let e : 0 ≡ 0 - suc k = omega arith in e)
drop-replicate (suc k) (suc n) a =
    drop-replicate k n a
    ∙ ap (λ (m : ℕ). replicate m a) (let e : n - k ≡ suc n - suc k = omega arith in e)

copy-padded : (n : ℕ) (s : Bytes) → copy_from_slice 0 s (replicate n 0) ≡ padded n s
copy-padded n s =
    let e : 0 + length s ≡ length s = omega arith in
    rw (e, drop-replicate (length s) n (let z : ℕ = 0 in z))

-- A string is packed exactly when it is ASCII and fits, and then it is padded with NUL.
pub pack_ascii_field_iff :
    (n : ℕ) (s f : Bytes)
    → (pack_ascii_field n s ≡ some f) ↔ ((is_ascii s ≡ true) × (length s ≤ n) × (f ≡ padded n s))
unfolding pack_ascii_field
pack_ascii_field_iff n s f =
    (λ h. ground (arith, copy-padded n s), λ h. ground (arith, copy-padded n s))

-- A NUL inside a text makes the field malformed.
pub embedded_nul :
    (s : Bytes) (b : ℕ) (rest : Bytes)
    → IsText s
    → 0 < b
    → is_valid_ascii_field (s ++ 0 ∷ b ∷ rest) ≡ false
embedded_nul [] b rest h p = valid-zero (b ∷ rest) ∙ ground arith
embedded_nul (zero ∷ s) b rest h p = absurd (omega arith)
embedded_nul (suc c ∷ s) b rest h p =
    ground (arith, valid-suc c (s ++ 0 ∷ b ∷ rest), embedded_nul s b rest h.1 p)
