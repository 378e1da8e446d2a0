-- ===== src/Agent/Gpu/Sanitized.antt =====
-- The label of a GPU's model.
use Prim.Native.Char.{Char, code}
use mathlib.Core.Path.{subst}
use cluster_api_provider_bri.Prelude.{
  ◌≡◌, ◌≢◌, ◌↔◌, ◌⊎◌, ◌≤◌, ℕ, arith, refl, ap, ◌∙◌, String, Bool, true, false, if◌then◌else◌,
  if_true, if_false, trim_right, keep_unless,
}
use cluster_api_provider_bri.Agent.Gpu.{
  is_valid_label_char, is_underscore, map_label, sanitize_label_for_k8s,
}

-- The code points of "A" to "Z", "a" to "z", "0" to "9", "-", "." and "_".
abbrev pub IsLabelCode : ℕ → Type 0
IsLabelCode n =
    (65 ≤ n) × (n ≤ 90)
    ⊎ (97 ≤ n) × (n ≤ 122)
    ⊎ (48 ≤ n) × (n ≤ 57)
    ⊎ (n ≡ 45)
    ⊎ (n ≡ 46)
    ⊎ (n ≡ 95)

valid-IsLabelCode : (n : ℕ) → is_valid_label_char n ≡ true → IsLabelCode n
unfolding is_valid_label_char
valid-IsLabelCode n h = ground arith

IsLabelCode-valid : (n : ℕ) → IsLabelCode n → is_valid_label_char n ≡ true
unfolding is_valid_label_char
IsLabelCode-valid n h = ground arith

abbrev AreValid : String → Type 0
AreValid String.[] = Unit {0}
AreValid (String.◌∷◌ c s) = IsLabelCode (code c) × AreValid s

-- The last character is not an underscore.
abbrev IsTrimmed : String → Type 0
IsTrimmed String.[] = Unit {0}
IsTrimmed (String.◌∷◌ c String.[]) = code c ≢ 95
IsTrimmed (String.◌∷◌ c (String.◌∷◌ d s)) = IsTrimmed (String.◌∷◌ d s)

-- Only letters, digits, "-", "_" and ".", and no underscore at the end.
pub record IsLabelText (s : String) : Type 0 where
  pub valid : AreValid s
  pub trimmed : IsTrimmed s

valid_char :
    (c : Char) (b : Bool)
    → is_valid_label_char (code c) ≡ b
    → IsLabelCode (code (if b then c else "_"))
valid_char c true valid = valid-IsLabelCode (code c) valid
valid_char c false invalid = ground arith

map_label-AreValid : (s : String) → AreValid (map_label s)
unfolding map_label
map_label-AreValid String.[] = tt
map_label-AreValid (String.◌∷◌ c s) =
    (valid_char c (is_valid_label_char (code c)) refl, map_label-AreValid s)

branch-AreValid :
    (b : Bool) (s t : String) → AreValid s → AreValid t → AreValid (if b then s else t)
branch-AreValid true s t v w = v
branch-AreValid false s t v w = w

kept-IsTrimmed :
    (c : Char) (b : Bool) → is_underscore c ≡ b → IsTrimmed (if b then "" else String.◌∷◌ c "")
kept-IsTrimmed c true e = tt
kept-IsTrimmed c false e = λ same. ground arith

keep-AreValid :
    (c : Char) (s : String)
    → IsLabelCode (code c)
    → AreValid s
    → AreValid (keep_unless is_underscore c s)
keep-AreValid c String.[] h v = branch-AreValid (is_underscore c) "" (String.◌∷◌ c "") tt (h, tt)
keep-AreValid c (String.◌∷◌ d s) h v = (h, v)

keep-IsTrimmed : (c : Char) (s : String) → IsTrimmed s → IsTrimmed (keep_unless is_underscore c s)
keep-IsTrimmed c String.[] h = kept-IsTrimmed c (is_underscore c) refl
keep-IsTrimmed c (String.◌∷◌ d s) h = h

trim-IsLabelText : (s : String) → AreValid s → IsLabelText (trim_right is_underscore s)
unfolding trim_right
trim-IsLabelText String.[] v = record { valid = tt; trimmed = tt }
trim-IsLabelText (String.◌∷◌ c s) (h, v) = record {
  valid = keep-AreValid c (trim_right is_underscore s) h ((trim-IsLabelText s v).valid);
  trimmed = keep-IsTrimmed c (trim_right is_underscore s) ((trim-IsLabelText s v).trimmed);
}

AreValid-map_label : (s : String) → AreValid s → map_label s ≡ s
unfolding map_label
AreValid-map_label String.[] v = refl
AreValid-map_label (String.◌∷◌ c s) (h, v) =
    ap (λ d. String.◌∷◌ d (map_label s)) (if_true c "_" (IsLabelCode-valid (code c) h))
    ∙ ap (String.◌∷◌ c) (AreValid-map_label s v)

IsTrimmed-trim : (s : String) → IsTrimmed s → trim_right is_underscore s ≡ s
unfolding trim_right
IsTrimmed-trim String.[] h = refl
IsTrimmed-trim (String.◌∷◌ c String.[]) h = if_false "" (String.◌∷◌ c "") (ground arith)
IsTrimmed-trim (String.◌∷◌ c (String.◌∷◌ d s)) h =
    ap (keep_unless is_underscore c) (IsTrimmed-trim (String.◌∷◌ d s) h)

sanitize-IsLabelText : (s : String) → IsLabelText (sanitize_label_for_k8s s)
unfolding sanitize_label_for_k8s
sanitize-IsLabelText s = trim-IsLabelText (map_label s) (map_label-AreValid s)

IsLabelText-sanitize : (s : String) → IsLabelText s → sanitize_label_for_k8s s ≡ s
unfolding sanitize_label_for_k8s
IsLabelText-sanitize s good =
    ap (trim_right is_underscore) (AreValid-map_label s good.valid) ∙ IsTrimmed-trim s good.trimmed

-- The label of a model has only letters, digits, "-", "_" and ".", and no underscore at its end, and
-- the texts that are kept as they are are exactly those.
pub sanitize_iff :
    (s : String)
    → IsLabelText (sanitize_label_for_k8s s) × ((sanitize_label_for_k8s s ≡ s) ↔ IsLabelText s)
sanitize_iff s = (
  sanitize-IsLabelText s,
  (λ same. subst IsLabelText same (sanitize-IsLabelText s), IsLabelText-sanitize s),
)
