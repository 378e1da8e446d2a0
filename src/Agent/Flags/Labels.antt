-- ===== src/Agent/Flags/Labels.antt =====
-- The labels that a flag prints are the labels that it reads.
use Prim.Native.Char.{Char, code}
use Prim.Native.String.append.{nil, cons}
use Prim.Native.String.compare.{cons-nil}
use mathlib.Core.Path.{subst}
use mathlib.Core.List.{append-nil, append_assoc}
use text.Mathlib.Text.{is_eq}
use cluster_api_provider_bri.Prelude.{
  ◌≡◌, refl, sym, ap, ◌∙◌, ℕ, ◌==◌, String, ◌<>◌, false, Option, none, some, [], ◌∷◌, ◌++◌,
  if_false, str_eq, arith,
}
use cluster_api_provider_bri.Prelude.{split, join, trim_space, cons_head}
use cluster_api_provider_bri.Prelude.Dict.{Dict, lookup, insert}
use cluster_api_provider_bri.Agent.Flags.{
  set_split, with_pair, cut, pair_text, pair_texts, to_string, set_pair, set_pairs, set,
  next_setting,
}

-- The character does not occur.
abbrev Lacks : ℕ → String → Type 0
Lacks n String.[] = Unit {0}
Lacks n (String.◌∷◌ c s) = (code c == n ≡ false) × Lacks n s

nil_append : (t : String) → "" <> t ≡ t
nil_append t = λ i. nil t i

cons_append : (c : Char) (s t : String) → String.◌∷◌ c s <> t ≡ String.◌∷◌ c (s <> t)
cons_append c s t = λ i. cons c s t i

comma_append : (t : String) → "," <> t ≡ String.◌∷◌ "," t
comma_append t = cons_append "," "" t ∙ ap (String.◌∷◌ ",") (nil_append t)

equals_append : (t : String) → "=" <> t ≡ String.◌∷◌ "=" t
equals_append t = cons_append "=" "" t ∙ ap (String.◌∷◌ "=") (nil_append t)

split-Lacks : (s : String) → Lacks b',' s → split b',' s ≡ s ∷ []
unfolding split
split-Lacks String.[] h = refl
split-Lacks (String.◌∷◌ c s) (h, hs) =
    if_false ("" ∷ split b',' s) (cons_head c (split b',' s)) h
    ∙ ap (cons_head c) (split-Lacks s hs)

split-at : (t : String) → split b',' (String.◌∷◌ "," t) ≡ "" ∷ split b',' t
unfolding split
split-at t = refl

split-other :
    (c : Char) (s : String)
    → code c == b',' ≡ false
    → split b',' (String.◌∷◌ c s) ≡ cons_head c (split b',' s)
unfolding split
split-other c s h = if_false ("" ∷ split b',' s) (cons_head c (split b',' s)) h

split-comma : (s t : String) → Lacks b',' s → split b',' (s <> ("," <> t)) ≡ s ∷ split b',' t
split-comma String.[] t h = ap (split b',') (nil_append ("," <> t) ∙ comma_append t) ∙ split-at t
split-comma (String.◌∷◌ c s) t (h, hs) =
    ap (split b',') (cons_append c s ("," <> t))
    ∙ split-other c (s <> ("," <> t)) h
    ∙ ap (cons_head c) (split-comma s t hs)

abbrev cons_key : Char → Option (String × String) → Option (String × String)
cons_key c none = none
cons_key c (some p) = some (String.◌∷◌ c p.0, p.1)

cut-at : (v : String) → cut b'=' (String.◌∷◌ "=" v) ≡ some ("", v)
unfolding cut
cut-at v = refl

cut-other :
    (c : Char) (s : String)
    → code c == b'=' ≡ false
    → cut b'=' (String.◌∷◌ c s) ≡ cons_key c (cut b'=' s)
unfolding cut
cut-other c s h = if_false (some ("", s)) (cons_key c (cut b'=' s)) h

cut-equals : (k v : String) → Lacks b'=' k → cut b'=' (pair_text (k, v)) ≡ some (k, v)
cut-equals String.[] v h = ap (cut b'=') (nil_append ("=" <> v) ∙ equals_append v) ∙ cut-at v
cut-equals (String.◌∷◌ c k) v (h, hs) =
    ap (cut b'=') (cons_append c k ("=" <> v))
    ∙ cut-other c (k <> ("=" <> v)) h
    ∙ ap (cons_key c) (cut-equals k v hs)

-- A label that the flag can carry: no comma, no equality sign in the key, no space at an end.
pub record IsLabel (p : String × String) : Type 0 where
  pub key_plain : Lacks b'=' p.0
  pub key_whole : Lacks b',' p.0
  pub value_whole : Lacks b',' p.1
  pub key_trimmed : trim_space p.0 ≡ p.0
  pub value_trimmed : trim_space p.1 ≡ p.1

abbrev pub AreLabels : Dict String → Type 0
AreLabels [] = Unit {0}
AreLabels (p ∷ m) = IsLabel p × AreLabels m

-- Each key is neither in the map before nor among the keys in front of it.
unfoldable pub AreNew : Dict String → Dict String → Type 0
unfolding lookup
AreNew before [] = Unit {0}
AreNew before ((k, v) ∷ m) = (lookup k before ≡ none) × AreNew (before ++ ((k, v) ∷ [])) m

append-Lacks : (n : ℕ) (s t : String) → Lacks n s → Lacks n t → Lacks n (s <> t)
append-Lacks n String.[] t h k = subst (Lacks n) (sym (nil_append t)) k
append-Lacks n (String.◌∷◌ c s) t (h, hs) k =
    subst (Lacks n) (sym (cons_append c s t)) (h, append-Lacks n s t hs k)

pair_text-Lacks : (p : String × String) → IsLabel p → Lacks b',' (pair_text p)
pair_text-Lacks (k, v) label =
    append-Lacks b',' k ("=" <> v) label.key_whole
      (append-Lacks b',' "=" v (refl, tt) label.value_whole)

pair_text-nonempty : (p : String × String) → str_eq (pair_text p) "" ≡ false
pair_text-nonempty (String.[], v) =
    ap (λ t. str_eq t "") (nil_append ("=" <> v) ∙ equals_append v)
    ∙ ap is_eq (λ i. cons-nil "=" v i)
pair_text-nonempty (String.◌∷◌ c k, v) =
    ap (λ t. str_eq t "") (cons_append c k ("=" <> v))
    ∙ ap is_eq (λ i. cons-nil c (k <> ("=" <> v)) i)

insert-new :
    (k v : String) (m : Dict String) → lookup k m ≡ none → insert k v m ≡ m ++ ((k, v) ∷ [])
unfolding lookup insert
insert-new k v [] new = refl
insert-new k v ((j, w) ∷ m) new = ground (arith, insert-new k v m)

set_pair-pair_text :
    (p : String × String) (before : Dict String)
    → IsLabel p
    → lookup p.0 before ≡ none
    → set_pair (pair_text p) before ≡ (before ++ (p ∷ []), none)
unfolding set_pair
set_pair-pair_text (k, v) before label new =
    ap (λ o. with_pair o before) (cut-equals k v label.key_plain)
    ∙ ap (λ x. (insert x (trim_space v) before, none)) label.key_trimmed
    ∙ ap (λ x. (insert k x before, none)) label.value_trimmed
    ∙ ap (λ m. (m, none)) (insert-new k v before new)

split-join :
    (p : String × String) (m : Dict String)
    → AreLabels (p ∷ m)
    → split b',' (to_string (p ∷ m)) ≡ pair_texts (p ∷ m)
unfolding to_string
split-join p [] labels = split-Lacks (pair_text p) (pair_text-Lacks p labels.0)
split-join p (q ∷ m) labels =
    split-comma (pair_text p) (join "," (pair_texts (q ∷ m))) (pair_text-Lacks p labels.0)
    ∙ ap (λ ts. pair_text p ∷ ts) (split-join q m labels.1)

set_pairs-pair_texts :
    (m before : Dict String)
    → AreLabels m
    → AreNew before m
    → set_pairs (pair_texts m) before ≡ (before ++ m, none)
unfolding set_pairs AreNew
set_pairs-pair_texts [] before labels new = ap (λ l. (l, none)) (sym (append-nil before))
set_pairs-pair_texts ((k, v) ∷ m) before (label, labels) (fresh, new) =
    if_false (set_pairs (pair_texts m) before)
      (next_setting (set_pairs (pair_texts m)) (set_pair (pair_text (k, v)) before))
      (pair_text-nonempty (k, v))
    ∙ ap (next_setting (set_pairs (pair_texts m))) (set_pair-pair_text (k, v) before label fresh)
    ∙ set_pairs-pair_texts m (before ++ ((k, v) ∷ [])) labels new
    ∙ ap (λ l. (l, none)) (append_assoc before ((k, v) ∷ []) m)

-- Reading the text that a nonempty map of labels prints to adds exactly these labels to the map, in
-- their order and without an error, if their keys are new and no label has a comma, a key with an
-- equality sign or white space at an end.
pub set-to_string :
    (p : String × String) (m before : Dict String)
    → AreLabels (p ∷ m)
    → AreNew before (p ∷ m)
    → set (to_string (p ∷ m)) before ≡ (before ++ (p ∷ m), none)
unfolding set to_string AreNew
set-to_string p [] before labels new =
    ap (λ ts. set_split (to_string (p ∷ [])) ts before) (split-join p [] labels)
    ∙ set_pair-pair_text p before labels.0 new.0
set-to_string p (q ∷ m) before labels new =
    ap (λ ts. set_split (to_string (p ∷ q ∷ m)) ts before) (split-join p (q ∷ m) labels)
    ∙ set_pairs-pair_texts (p ∷ q ∷ m) before labels new
