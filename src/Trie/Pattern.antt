-- ===== src/Trie/Pattern.antt =====
-- Which domain patterns a search meets (component/trie).
use mathlib.Core.List.{reverse}
use clash_for_android.Prelude.{
  ℕ, ◌≡◌, refl, ◌∙◌, Bool, true, false, ◌||◌, Option, none, some, List, [], ◌∷◌, Bytes, bytes_eq,
  if◌then◌else◌, Option-cases, Bool-cases, inl, inr, ◌⊎◌, any,
}
use clash_for_android.Trie.Node.{Node, new_node, optimize, get_child}
use clash_for_android.Trie.Domain.{
  wildcard, dot_wildcard, complex_wildcard, valid_and_split_domain, insert_parts, insert_valid,
  insert_domain, search,
}
use clash_for_android.Trie.Store.{value, path_eq, value-insert_path, value-optimize}
use clash_for_android.Trie.Search.{first_of, search_in, search_path-search_in}

-- A pattern and a domain, both from the last part: a part stands for itself, `*` for any part, and
-- an empty part at the end for one part or more.
pub data Matches : List Bytes → List Bytes → Type 0 where
  done : Matches [] []
  same : (p : Bytes) {q ps : List Bytes} → Matches q ps → Matches (p ∷ q) (p ∷ ps)
  star : (p : Bytes) {q ps : List Bytes} → Matches q ps → Matches (wildcard ∷ q) (p ∷ ps)
  dot : (p : Bytes) (ps : List Bytes) → Matches (dot_wildcard ∷ []) (p ∷ ps)

-- The paths that the parts of a domain stand for.
abbrev pub paths_of : Option (List Bytes) → List (List Bytes)
paths_of none = []
paths_of (some []) = []
paths_of (some (part ∷ parts)) =
    if bytes_eq part complex_wildcard
    then reverse parts ∷ reverse (dot_wildcard ∷ parts) ∷ []
    else reverse (part ∷ parts) ∷ []

module _ {T : Type 0} where
  -- A search gives the data of a pattern that matches, or nothing if no pattern with data does.
  abbrev pub Found : (List Bytes → Option T) → List Bytes → Option T → Type 0
  Found f ps r =
      ((v : T) × (q : List Bytes) × (r ≡ some v) × (f q ≡ some v) × Matches q ps)
      ⊎ ((r ≡ none) × ((q : List Bytes) → Matches q ps → f q ≡ none))

  none_below :
      (f : List Bytes → Option T) (p : Bytes) (ps q : List Bytes)
      → ((q : List Bytes) → Matches q ps → f (p ∷ q) ≡ none)
      → ((q : List Bytes) → Matches q ps → f (wildcard ∷ q) ≡ none)
      → f (dot_wildcard ∷ []) ≡ none
      → Matches q (p ∷ ps)
      → f q ≡ none
  none_below f p ps q h k d (same p' m) = h _ m
  none_below f p ps q h k d (star p' m) = k _ m
  none_below f p ps q h k d (dot p' ps') = d

  only_empty :
      (f : List Bytes → Option T) (q : List Bytes) → f [] ≡ none → Matches q [] → f q ≡ none
  only_empty f q e done = e

  search_in-Found : (f : List Bytes → Option T) (ps : List Bytes) → Found f ps (search_in f ps)
  search_in-Found f [] = elim (Option-cases (f [])) [
    | inl e ↦ inr (e, λ q m. only_empty f q e m)
    | inr (v, e) ↦ inl (v, [], e, e, done)
  ]
  search_in-Found f (p ∷ ps) = elim (search_in-Found (λ q. f (p ∷ q)) ps) [
    | inl (v, q, r, e, m) ↦ inl (v, p ∷ q, rw r, e, same p m)
    | inr (r, h) ↦ elim (search_in-Found (λ q. f (wildcard ∷ q)) ps) [
      | inl (v, q, r', e, m) ↦ inl (v, wildcard ∷ q, rw (r, r'), e, star p m)
      | inr (r', k) ↦ elim (Option-cases (f (dot_wildcard ∷ []))) [
        | inl e ↦ inr (rw (r, r') e, λ q m. none_below f p ps q h k e m)
        | inr (v, e) ↦ inl (v, dot_wildcard ∷ [], rw (r, r') e, e, dot p ps)
      ]
    ]
  ]

  abbrev or_same : Node T → Option (Node T) → Node T
  or_same n none = n
  or_same n (some n') = n'

  -- The trie after some insertions, the first one first; those of invalid domains change nothing.
  abbrev pub insert_all : List (Bytes × T) → Node T → Node T
  insert_all [] n = n
  insert_all ((d, v) ∷ rest) n = insert_all rest (or_same n (insert_domain d v n))

  -- What the insertions leave at a path: the data of the last one for it.
  abbrev pub held : List (Bytes × T) → List Bytes → Option T
  held [] q = none
  held ((d, v) ∷ rest) q =
      first_of (held rest q)
        (if any (λ p. path_eq p q) (paths_of (valid_and_split_domain d)) then some v else none)

  either :
      (a b : Bool) (x y : Option T)
      → (if b then x else if a then x else y) ≡ (if a || (b || false) then x else y)
  either true true x y = refl
  either true false x y = refl
  either false true x y = refl
  either false false x y = refl

  alone : (a : Bool) (x y : Option T) → (if a then x else y) ≡ (if a || false then x else y)
  alone true x y = refl
  alone false x y = refl

  or_below :
      (o : Option T) (b : Bool) (v : T) (w : Option T)
      → first_of o (if b then some v else w) ≡ first_of (first_of o (if b then some v else none)) w
  or_below (some u) b v w = refl
  or_below none true v w = refl
  or_below none false v w = refl

  -- One insertion.
  value-insert_valid :
      (v : T) (n : Node T) (o : Option (List Bytes)) (q : List Bytes)
      → value q (or_same n (insert_valid v n o))
        ≡ (if any (λ p. path_eq p q) (paths_of o) then some v else value q n)
  unfolding insert_parts
  value-insert_valid v n none q = refl
  value-insert_valid v n (some []) q = refl
  value-insert_valid v n (some (part ∷ parts)) q =
      elim (Bool-cases (bytes_eq part complex_wildcard)) [
        | inl plus ↦
            rw (plus, value-insert_path, value-insert_path) (either _ _ (some v) (value q n))
        | inr other ↦ rw (other, value-insert_path) (alone _ (some v) (value q n))
      ]

  value-insert_all :
      (h : List (Bytes × T)) (n : Node T) (q : List Bytes)
      → value q (insert_all h n) ≡ first_of (held h q) (value q n)
  unfolding insert_domain
  value-insert_all [] n q = refl
  value-insert_all ((d, v) ∷ rest) n q =
      value-insert_all rest (or_same n (insert_domain d v n)) q
      ∙ rw (value-insert_valid v n (valid_and_split_domain d) q)
          (or_below (held rest q) _ v (value q n))

  value-new_node : (q : List Bytes) → value q (new_node {T = T}) ≡ none
  unfolding value get_child
  value-new_node [] = refl
  value-new_node (p ∷ q) = refl

  first_of-none : (o : Option T) → first_of o none ≡ o
  first_of-none none = refl
  first_of-none (some v) = refl

  search_in_ext :
      (f g : List Bytes → Option T) (ps : List Bytes)
      → ((q : List Bytes) → f q ≡ g q)
      → search_in f ps ≡ search_in g ps
  search_in_ext f g [] h = h []
  search_in_ext f g (p ∷ ps) h = rw (
    search_in_ext (λ q. f (p ∷ q)) (λ q. g (p ∷ q)) ps (λ q. h (p ∷ q)),
    search_in_ext (λ q. f (wildcard ∷ q)) (λ q. g (wildcard ∷ q)) ps (λ q. h (wildcard ∷ q)),
    h (dot_wildcard ∷ []),
  )

  -- After any insertions into a new trie, and whether or not it is optimized then, a search for a
  -- valid domain that does not start with a dot is the search in the map of what was inserted
  -- last for each pattern. It gives the data of a pattern that matches the domain, or nothing if no
  -- pattern that was inserted does.
  pub search_lem :
      (h : List (Bytes × T)) (domain : Bytes) (c : ℕ) (part : Bytes) (parts : List Bytes)
      → valid_and_split_domain domain ≡ some ((c ∷ part) ∷ parts)
      → (search domain (insert_all h new_node) ≡ search_in (held h) (reverse ((c ∷ part) ∷ parts)))
        × (search domain (optimize (insert_all h new_node))
            ≡ search_in (held h) (reverse ((c ∷ part) ∷ parts)))
        × Found (held h) (reverse ((c ∷ part) ∷ parts)) (search domain (insert_all h new_node))
  unfolding search
  search_lem h domain c part parts e =
      let ps = reverse ((c ∷ part) ∷ parts) in
      let t = insert_all h (new_node {T = T}) in
      let stored : (q : List Bytes) → value q t ≡ held h q =
        λ q. value-insert_all h new_node q ∙ rw value-new_node (first_of-none (held h q)) in
      let plain = search_path-search_in ps t ∙ search_in_ext (λ q. value q t) (held h) ps stored in
      let tidy =
        search_path-search_in ps (optimize t)
        ∙ search_in_ext (λ q. value q (optimize t)) (held h) ps
            (λ q. value-optimize q t ∙ stored q) in
      (rw e plain, rw e tidy, rw (e, plain) (search_in-Found (held h) ps))
