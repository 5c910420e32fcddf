-- ===== src/Rules/Line.antt =====
-- rules/common/base.go: the fields of a rule's line.
pub mod Written
use clash_for_android.Prelude.{
  ℕ, ◌-◌, ◌+◌, Bool, true, false, not, ◌&&◌, ◌||◌, List, [], ◌∷◌, ◌++◌, Bytes, codes, bytes_eq,
  split, trim, any, map, leb, ◌==◌, if◌then◌else◌,
}

-- strings.ToUpper on ASCII, and strings.Join with a comma.
abbrev pub upper : ℕ → ℕ
upper c = if leb b'a' c && leb c b'z' then c - 32 else c

abbrev pub join : List Bytes → Bytes
join [] = []
join (p ∷ []) = p
join (p ∷ q ∷ ps) = p ++ (b',' ∷ join (q ∷ ps))

-- `trimArr`
unfoldable pub trim_arr : List Bytes → List Bytes
unfolding trim
trim_arr [] = []
trim_arr (e ∷ arr) = trim (λ c. c == b' ') e ∷ trim_arr arr

abbrev pub is_one_of : Bytes → List Bytes → Bool
is_one_of v = any (bytes_eq v)

-- `ParseParams`: whether the source is matched, and whether no name is resolved.
unfoldable pub parse_params : List Bytes → Bool × Bool
parse_params params =
    let is_src = is_one_of (codes "src") params in
    (is_src, if is_src then true else is_one_of (codes "no-resolve") params)

pub record Fields : Type 0 where
  pub tp : Bytes
  pub payload : Bytes
  pub target : Bytes
  pub params : List Bytes

abbrev pub comma_types : List Bytes
comma_types =
    codes "NOT"
    ∷ codes "OR"
    ∷ codes "AND"
    ∷ codes "SUB-RULE"
    ∷ codes "DOMAIN-REGEX"
    ∷ codes "PROCESS-NAME-REGEX"
    ∷ codes "PROCESS-PATH-REGEX"
    ∷ []

abbrev pub match_type : Bytes
match_type = codes "MATCH"

-- The last of some items, and those before it.
abbrev pub last_item : Bytes → List Bytes → Bytes
last_item x [] = x
last_item x (y ∷ ys) = last_item y ys

abbrev pub but_last : Bytes → List Bytes → List Bytes
but_last x [] = []
but_last x (y ∷ ys) = x ∷ but_last y ys

-- The items after the type, of which there is at least one.
abbrev pub comma_fields : Bool → Bytes → Bytes → List Bytes → Fields
comma_fields true tp x xs = record {
  tp = tp;
  payload = join (but_last x xs);
  target = last_item x xs;
  params = [];
}
comma_fields false tp x xs = record { tp = tp; payload = join (x ∷ xs); target = []; params = [] }

abbrev pub plain_fields : Bool → Bytes → Bytes → List Bytes → Fields
plain_fields need_target tp x [] = record { tp = tp; payload = x; target = []; params = [] }
plain_fields true tp x (y ∷ ys) = record { tp = tp; payload = x; target = y; params = ys }
plain_fields false tp x (y ∷ ys) = record { tp = tp; payload = x; target = []; params = y ∷ ys }

abbrev pub read_items : Bool → Bytes → List Bytes → Fields
read_items need_target tp [] = record { tp = tp; payload = []; target = []; params = [] }
read_items need_target tp (x ∷ xs) =
    if bytes_eq tp match_type
    then record { tp = tp; payload = []; target = x; params = [] }
    else if is_one_of tp comma_types
    then comma_fields need_target tp x xs
    else plain_fields need_target tp x xs

abbrev pub read_all : Bool → List Bytes → Fields
read_all need_target [] = record { tp = []; payload = []; target = []; params = [] }
read_all need_target (tp ∷ items) = read_items need_target (map upper tp) items

-- `ParseRulePayload`; strings.Split gives at least one item.
unfoldable pub parse_rule_payload : Bytes → Bool → Fields
unfolding trim_arr split
parse_rule_payload rule_raw need_target = read_all need_target (trim_arr (split b',' rule_raw))
