-- ===== src/Rules/Payload/Parts.antt =====
-- The parts that a logic rule is built of are the groups inside its payload
-- (rules/logic/logic.go).
use mathlib.Core.List.{append_assoc, append-nil}
use clash_for_android.Prelude.{
  ℕ, ◌+◌, ◌-◌, ◌≤◌, ◌<◌, ◌≡◌, refl, sym, ap, ◌∙◌, Bool, true, false, ◌&&◌, some, List, [], ◌∷◌,
  ◌++◌, Bytes, ◌==◌, if◌then◌else◌, length, drop, any, map, All, length-append, take-append,
  drop-append, arith,
}
use clash_for_android.Rules.Payload.{
  Range, contain_range, find_outer, find_sub_rule_range, inside, cut, sub_payloads,
}
use clash_for_android.Rules.Payload.Nested.{
  Forest, leaf, text, group, print, IsPlain, size, range_at, opening,
}
use clash_for_android.Rules.Payload.Sorted.{format-print}

-- The groups of a text that are in no other group, and their ranges.
abbrev pub groups : Forest → List Forest
groups leaf = []
groups (text c f) = groups f
groups (group g f) = g ∷ groups f

abbrev outer : ℕ → ℕ → Forest → List Range
outer i k leaf = []
outer i k (text c f) = outer (i + 1) k f
outer i k (group g f) = range_at i k g ∷ outer (i + 1 + length (print g) + 1) (k + 1 + size g) f

abbrev contained : Range → List Range → Bool
contained rr taken = any (λ (r : Range). contain_range rr r.start r.end_at) taken

contained-middle :
    (rr t : Range) (a b : List Range)
    → t.start < rr.start
    → rr.end_at < t.end_at
    → contained rr (a ++ (t ∷ b)) ≡ true
contained-middle rr t [] b h k = ground arith
contained-middle rr t (x ∷ a) b h k = ground (arith, contained-middle rr t a b h k)

-- Ranges that end before the given one starts.
abbrev Before : ℕ → List Range → Type 0
Before i = All (λ (t : Range). t.end_at < i)

contained-Before :
    (rr : Range) (taken : List Range) → Before rr.end_at taken → contained rr taken ≡ false
contained-Before rr [] h = refl
contained-Before rr (t ∷ taken) h = ground (arith, contained-Before rr taken h.1)

Before-weaken : (i j : ℕ) (taken : List Range) → i ≤ j → Before i taken → Before j taken
Before-weaken i j [] le h = tt
Before-weaken i j (t ∷ taken) le h = (omega (arith, h.0), Before-weaken i j taken le h.1)

Before-append :
    (i : ℕ) (taken : List Range) (r : Range)
    → Before i taken
    → r.end_at < i
    → Before i (taken ++ (r ∷ []))
Before-append i [] r h lt = (lt, tt)
Before-append i (t ∷ taken) r h lt = (h.0, Before-append i taken r h.1 lt)

module _ (n : ℕ) where
  abbrev is_whole : Range → Bool
  is_whole rr = rr.start == 0 && rr.end_at + 1 == n

  find_outer-whole :
      (taken rs : List Range) (rr : Range)
      → is_whole rr ≡ true
      → find_outer n taken (rr ∷ rs) ≡ find_outer n taken rs
  find_outer-whole taken rs rr w =
      ap
        (λ (b : Bool).
          find_outer n
            (if b then taken else if contained rr taken then taken else taken ++ (rr ∷ [])) rs)
        w

  find_outer-contained :
      (taken rs : List Range) (rr : Range)
      → is_whole rr ≡ false
      → contained rr taken ≡ true
      → find_outer n taken (rr ∷ rs) ≡ find_outer n taken rs
  find_outer-contained taken rs rr w c =
      ap
        (λ (b : Bool).
          find_outer n
            (if b then taken else if contained rr taken then taken else taken ++ (rr ∷ [])) rs)
        w
      ∙ ap (λ (b : Bool). find_outer n (if b then taken else taken ++ (rr ∷ [])) rs) c

  find_outer-apart :
      (taken rs : List Range) (rr : Range)
      → is_whole rr ≡ false
      → contained rr taken ≡ false
      → find_outer n taken (rr ∷ rs) ≡ find_outer n (taken ++ (rr ∷ [])) rs
  find_outer-apart taken rs rr w c =
      ap
        (λ (b : Bool).
          find_outer n
            (if b then taken else if contained rr taken then taken else taken ++ (rr ∷ [])) rs)
        w
      ∙ ap (λ (b : Bool). find_outer n (if b then taken else taken ++ (rr ∷ [])) rs) c

  find_outer-inner :
      (f : Forest) (i k : ℕ) (t : Range) (a b rest : List Range)
      → t.start < i
      → i + length (print f) ≤ t.end_at
      → find_outer n (a ++ (t ∷ b)) (opening i k f ++ rest) ≡ find_outer n (a ++ (t ∷ b)) rest
  find_outer-inner leaf i k t a b rest h le = refl
  find_outer-inner (text c f) i k t a b rest h le =
      find_outer-inner f (i + 1) k t a b rest (omega arith) (omega arith)
  find_outer-inner (group g f) i k t a b rest h le =
      let rr = range_at i k g in
      let j = i + 1 + length (print g) + 1 in
      let m = k + 1 + size g in
      let len : length (print (group g f)) ≡ 1 + length (print g) + 1 + length (print f) =
        omega (arith, length-append (print g) (b')' ∷ print f)) in
      let inner = opening (i + 1) (k + 1) g in
      let first : is_whole rr ≡ false = ground arith in
      let inside_t = contained-middle rr t a b h (omega (arith, len)) in
      find_outer-contained (a ++ (t ∷ b)) ((inner ++ opening j m f) ++ rest) rr first inside_t
      ∙ ap (find_outer n (a ++ (t ∷ b))) (append_assoc inner (opening j m f) rest)
      ∙ (find_outer-inner g (i + 1) (k + 1) t a b (opening j m f ++ rest) (omega arith)
            (omega (arith, len))
          ∙ find_outer-inner f j m t a b rest (omega arith) (omega (arith, len)))

  find_outer-opening :
      (f : Forest) (i k : ℕ) (taken rest : List Range)
      → 0 < i
      → Before i taken
      → find_outer n taken (opening i k f ++ rest) ≡ find_outer n (taken ++ outer i k f) rest
  find_outer-opening leaf i k taken rest h before = rw (append-nil taken) refl
  find_outer-opening (text c f) i k taken rest h before =
      find_outer-opening f (i + 1) k taken rest (omega arith)
        (Before-weaken i (i + 1) taken (omega arith) before)
  find_outer-opening (group g f) i k taken rest h before =
      let rr = range_at i k g in
      let j = i + 1 + length (print g) + 1 in
      let m = k + 1 + size g in
      let inner = opening (i + 1) (k + 1) g in
      let first : is_whole rr ≡ false = ground arith in
      let apart =
        contained-Before rr taken (Before-weaken i rr.end_at taken (omega arith) before) in
      find_outer-apart taken ((inner ++ opening j m f) ++ rest) rr first apart
      ∙ ap (find_outer n (taken ++ (rr ∷ []))) (append_assoc inner (opening j m f) rest)
      ∙ (find_outer-inner g (i + 1) (k + 1) rr taken [] (opening j m f ++ rest) (omega arith)
            (omega arith)
          ∙ find_outer-opening f j m (taken ++ (rr ∷ [])) rest (omega arith) (
              Before-append j taken rr (Before-weaken i j taken (omega arith) before) (omega arith))
          ∙ ap (λ (x : List Range). find_outer n x rest)
              (append_assoc taken (rr ∷ []) (outer j m f)))

inside-middle :
    (pre h post : Bytes) (i k : ℕ) (g : Forest)
    → length pre ≡ i
    → inside (pre ++ (b'(' ∷ (print g ++ post))) (range_at i k g) ≡ print g
inside-middle pre h post i k g e =
    let rest = print g ++ post in
    let size_1 : length (pre ++ (b'(' ∷ [])) ≡ i + 1 =
      omega (arith, e, length-append pre (b'(' ∷ [])) in
    let dropped : drop (i + 1) (pre ++ (b'(' ∷ rest)) ≡ rest =
      ap (drop (i + 1)) (sym (append_assoc pre (b'(' ∷ []) rest))
      ∙ ap (λ (x : ℕ). drop x ((pre ++ (b'(' ∷ [])) ++ rest)) (sym size_1)
      ∙ drop-append (pre ++ (b'(' ∷ [])) rest in
    let width : i + 1 + length (print g) - (i + 1) ≡ length (print g) = omega arith in
    rw (dropped, width) (take-append (print g) post)

map-inside-outer :
    (f : Forest) (i k : ℕ) (pre post payload : Bytes)
    → length pre ≡ i
    → payload ≡ pre ++ (print f ++ post)
    → map (inside payload) (outer i k f) ≡ map print (groups f)
map-inside-outer leaf i k pre post payload e p = refl
map-inside-outer (text c f) i k pre post payload e p =
    map-inside-outer f (i + 1) k (pre ++ (c ∷ [])) post payload
      (omega (arith, e, length-append pre (c ∷ [])))
      (p ∙ sym (append_assoc pre (c ∷ []) (print f ++ post)))
map-inside-outer (group g f) i k pre post payload e p =
    let open_g = b'(' ∷ (print g ++ (b')' ∷ [])) in
    let here : inside payload (range_at i k g) ≡ print g =
      ap (λ (x : Bytes). inside x (range_at i k g))
        (p ∙ ap (λ (x : Bytes). pre ++ (b'(' ∷ x)) (append_assoc (print g) (b')' ∷ print f) post))
      ∙ inside-middle pre [] (b')' ∷ (print f ++ post)) i k g e in
    let size_g : length (pre ++ open_g) ≡ i + 1 + length (print g) + 1 =
      omega (arith, e, length-append pre open_g, length-append (print g) (b')' ∷ [])) in
    let there : payload ≡ (pre ++ open_g) ++ (print f ++ post) = p ∙ simp append_assoc in
    ap
      (λ (x : Bytes).
        x ∷ map (inside payload) (outer (i + 1 + length (print g) + 1) (k + 1 + size g) f))
      here
    ∙ ap (◌∷◌ (print g)) (
        map-inside-outer f (i + 1 + length (print g) + 1) (k + 1 + size g) (pre ++ open_g) post
          payload size_g there)

-- A payload in parentheses, with matching parentheses inside, is split into what stands in its
-- outermost inner groups, in their order: neither the whole payload nor a group within a group is a
-- part.
pub sub_payloads-print :
    (g : Forest) → IsPlain g → sub_payloads (print (group g leaf)) ≡ some (map print (groups g))
unfolding sub_payloads find_sub_rule_range
sub_payloads-print g h =
    let payload = print (group g leaf) in
    let n = length payload in
    let len : n ≡ length (print g) + 2 = omega (arith, length-append (print g) (b')' ∷ [])) in
    let whole : (0 + 1 + length (print g) + 1 == n) ≡ true = ground (arith, len) in
    let chosen : find_sub_rule_range payload (opening 0 0 (group g leaf)) ≡ outer 1 1 g =
      find_outer-whole n [] (opening 1 1 g ++ []) (range_at 0 0 g) whole
      ∙ find_outer-opening n g 1 1 [] [] (omega arith) tt in
    ap (cut payload) (format-print (group g leaf) (h, tt))
    ∙ ap (λ (x : List Range). some (map (inside payload) x)) chosen
    ∙ ap some (map-inside-outer g 1 1 (b'(' ∷ []) (b')' ∷ []) payload refl refl)
