-- ===== src/Rules/Line/Written.antt =====
-- A rule's line is read back into what was written (rules/common/base.go).
use clash_for_android.Prelude.{
  ℕ, ◌≡◌, refl, ap, ◌∙◌, true, false, List, [], ◌∷◌, ◌++◌, Bytes, bytes_eq, split, trim, map, All,
  ◌==◌,
}
use clash_for_android.Rules.Line.{
  upper, join, trim_arr, is_one_of, Fields, comma_types, match_type, last_item, but_last, read_all,
  parse_rule_payload,
}

-- A field has no comma, and no space at its ends.
pub record IsField (p : Bytes) : Type 0 where
  pub no_comma : All (λ (c : ℕ). (c == b',') ≡ false) p
  pub trimmed : trim (λ c. c == b' ') p ≡ p

-- What a line says: a MATCH rule with its target; a rule of a type that may have commas in its
-- payload, of which these are the parts; or any other rule.
pub data Written : Type 0 where
  match_rule_line : Bytes → Written
  comma_line : Bytes → List Bytes → Bytes → Written
  plain_line : Bytes → Bytes → Bytes → List Bytes → Written

abbrev pub items : Written → List Bytes
items (match_rule_line target) = match_type ∷ target ∷ []
items (comma_line tp parts target) = tp ∷ (parts ++ (target ∷ []))
items (plain_line tp payload target params) = tp ∷ payload ∷ target ∷ params

abbrev pub fields : Written → Fields
fields (match_rule_line target) = record {
  tp = match_type;
  payload = [];
  target = target;
  params = [];
}
fields (comma_line tp parts target) = record {
  tp = tp;
  payload = join parts;
  target = target;
  params = [];
}
fields (plain_line tp payload target params) = record {
  tp = tp;
  payload = payload;
  target = target;
  params = params;
}

-- The type is in upper case, and is one of those that may have commas exactly on such a line.
abbrev pub IsTyped : Written → Type 0
IsTyped (match_rule_line target) = Unit
IsTyped (comma_line tp parts target) =
    (map upper tp ≡ tp) × (bytes_eq tp match_type ≡ false) × (is_one_of tp comma_types ≡ true)
IsTyped (plain_line tp payload target params) =
    (map upper tp ≡ tp) × (bytes_eq tp match_type ≡ false) × (is_one_of tp comma_types ≡ false)

split-none : (p : Bytes) → All (λ (c : ℕ). (c == b',') ≡ false) p → split b',' p ≡ p ∷ []
unfolding split
split-none [] h = refl
split-none (c ∷ p) h = rw (h.0, split-none p h.1) refl

split-append :
    (p s : Bytes)
    → All (λ (c : ℕ). (c == b',') ≡ false) p
    → split b',' (p ++ (b',' ∷ s)) ≡ p ∷ split b',' s
unfolding split
split-append [] s h = refl
split-append (c ∷ p) s h = rw (h.0, split-append p s h.1) refl

split-join :
    (p : Bytes) (ps : List Bytes) → All IsField (p ∷ ps) → split b',' (join (p ∷ ps)) ≡ p ∷ ps
split-join p [] h = split-none p h.0.no_comma
split-join p (q ∷ ps) h =
    split-append p (join (q ∷ ps)) h.0.no_comma ∙ ap (◌∷◌ p) (split-join q ps h.1)

trim_arr-IsField : (ps : List Bytes) → All IsField ps → trim_arr ps ≡ ps
unfolding trim_arr
trim_arr-IsField [] h = refl
trim_arr-IsField (p ∷ ps) h = rw (h.0.trimmed, trim_arr-IsField ps h.1) refl

last_item-append : (x : Bytes) (xs : List Bytes) (t : Bytes) → last_item x (xs ++ (t ∷ [])) ≡ t
last_item-append x [] t = refl
last_item-append x (y ∷ ys) t = last_item-append y ys t

but_last-append : (x : Bytes) (xs : List Bytes) (t : Bytes) → but_last x (xs ++ (t ∷ [])) ≡ x ∷ xs
but_last-append x [] t = refl
but_last-append x (y ∷ ys) t = ap (◌∷◌ x) (but_last-append y ys t)

read_all-items : (w : Written) → IsTyped w → read_all true (items w) ≡ fields w
read_all-items (match_rule_line target) h = refl
read_all-items (comma_line tp [] target) h = rw (h.0, h.1, h.2) refl
read_all-items (comma_line tp (x ∷ xs) target) h =
    rw (h.0, h.1, h.2, last_item-append x xs target, but_last-append x xs target) refl
read_all-items (plain_line tp payload target params) h = rw (h.0, h.1, h.2) refl

parse-join :
    (p : Bytes) (ps : List Bytes)
    → All IsField (p ∷ ps)
    → parse_rule_payload (join (p ∷ ps)) true ≡ read_all true (p ∷ ps)
unfolding parse_rule_payload
parse-join p ps h =
    ap (λ (x : List Bytes). read_all true (trim_arr x)) (split-join p ps h)
    ∙ ap (read_all true) (trim_arr-IsField (p ∷ ps) h)

-- A line with a target is read back into its type, payload, target and parameters, if no field has
-- a comma or a space at its ends and the type is in upper case: for MATCH, which has a target only;
-- for the types whose payload may have commas, which has no parameters and whose payload is all
-- that stands between the type and the target; and for all other types.
pub parse_rule_payload-join :
    (w : Written)
    → IsTyped w
    → All IsField (items w)
    → parse_rule_payload (join (items w)) true ≡ fields w
parse_rule_payload-join (match_rule_line target) h f = parse-join match_type (target ∷ []) f ∙ refl
parse_rule_payload-join (comma_line tp parts target) h f =
    parse-join tp (parts ++ (target ∷ [])) f ∙ read_all-items (comma_line tp parts target) h
parse_rule_payload-join (plain_line tp payload target params) h f =
    parse-join tp (payload ∷ target ∷ params) f
    ∙ read_all-items (plain_line tp payload target params) h
