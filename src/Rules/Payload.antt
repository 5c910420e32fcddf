-- ===== src/Rules/Payload.antt =====
-- rules/logic/logic.go: the parts in parentheses of a logic rule's payload.
pub mod Nested
pub mod Sorted
pub mod Parts
use clash_for_android.Prelude.{
  ℕ, zero, suc, ◌+◌, ◌-◌, Bool, true, false, not, ◌&&◌, Option, none, some, List, [], ◌∷◌, ◌++◌,
  Bytes, ltb, ◌==◌, if◌then◌else◌, length, take, drop, any, map,
}

pub record Range : Type 0 where
  pub start : ℕ
  pub end_at : ℕ
  pub index : ℕ

-- `containRange`
abbrev pub contain_range : Range → ℕ → ℕ → Bool
contain_range r pre_start pre_end = ltb pre_start r.start && ltb r.end_at pre_end

-- The state of the loop of `format`: the open parentheses, the last one first, how many there were,
-- and the ranges that are closed.
pub record Scan : Type 0 where
  pub stack : List Range
  pub num : ℕ
  pub sub_ranges : List Range

abbrev pub open_at : ℕ → Scan → Scan
open_at i s = record s {
  stack = record { start = i; end_at = 0; index = s.num } ∷ s.stack;
  num = s.num + 1;
}

abbrev pub close_at : ℕ → Scan → List Range → Option Scan
close_at i s [] = none
close_at i s (r ∷ rs) =
    some (record s { stack = rs; sub_ranges = s.sub_ranges ++ (record r { end_at = i } ∷ []) })

abbrev pub scan_char : ℕ → ℕ → Scan → Option Scan
scan_char i c s =
    if c == b'(' then some (open_at i s) else if c == b')' then close_at i s s.stack else some s

abbrev pub and_scan : (Scan → Option Scan) → Option Scan → Option Scan
and_scan rest none = none
and_scan rest (some s) = rest s

-- The loop, from an index on; `none` is the error of a ')' without its '('.
abbrev pub scan : ℕ → Bytes → Scan → Option Scan
scan i [] s = some s
scan i (c ∷ cs) s = and_scan (scan (i + 1) cs) (scan_char i c s)

abbrev pub set_at : ℕ → Range → List Range → List Range
set_at i r [] = []
set_at zero r (x ∷ xs) = r ∷ xs
set_at (suc i) r (x ∷ xs) = x ∷ set_at i r xs

abbrev pub no_range : Range
no_range = record { start = 0; end_at = 0; index = 0 }

abbrev pub zeros : List Range → List Range
zeros [] = []
zeros (r ∷ rs) = no_range ∷ zeros rs

-- The ranges in the order of their indices.
abbrev pub put_in_order : List Range → List Range → List Range
put_in_order [] sorted = sorted
put_in_order (r ∷ rs) sorted = put_in_order rs (set_at r.index r sorted)

-- A '(' that is left open is an error too.
abbrev pub if_closed : Scan → List Range → Option (List Range)
if_closed s [] = some (put_in_order s.sub_ranges (zeros s.sub_ranges))
if_closed s (r ∷ rs) = none

abbrev pub all_closed : Option Scan → Option (List Range)
all_closed none = none
all_closed (some s) = if_closed s s.stack

-- `format`
unfoldable pub format : Bytes → Option (List Range)
format payload = all_closed (scan 0 payload (record { stack = []; num = 0; sub_ranges = [] }))

-- The loop of `findSubRuleRange`.
abbrev pub find_outer : ℕ → List Range → List Range → List Range
find_outer payload_len taken [] = taken
find_outer payload_len taken (rr ∷ rs) =
    let whole = rr.start == 0 && rr.end_at + 1 == payload_len in
    let contain_in_sub = any (λ (r : Range). contain_range rr r.start r.end_at) taken in
    find_outer payload_len
      (if whole then taken else if contain_in_sub then taken else taken ++ (rr ∷ [])) rs

unfoldable pub find_sub_rule_range : Bytes → List Range → List Range
find_sub_rule_range payload ranges = find_outer (length payload) [] ranges

-- `payload[subRange.start+1 : subRange.end]`
abbrev pub inside : Bytes → Range → Bytes
inside payload r = take (r.end_at - (r.start + 1)) (drop (r.start + 1) payload)

abbrev pub cut : Bytes → Option (List Range) → Option (List Bytes)
cut payload none = none
cut payload (some ranges) = some (map (inside payload) (find_sub_rule_range payload ranges))

-- The payloads that `parsePayload` gives to the rules inside, once its regular expression has found
-- parentheses; `none` is the error of `format`.
unfoldable pub sub_payloads : Bytes → Option (List Bytes)
unfolding format find_sub_rule_range
sub_payloads payload = cut payload (format payload)
