-- ===== src/Trie/Store.antt =====
-- What is stored where in the trie, and what an insertion changes (component/trie).
use clash_for_android.Prelude.{
  ◌≡◌, refl, ◌∙◌, ap, Bool, true, false, ◌&&◌, Option, none, some, List, [], ◌∷◌, Bytes, bytes_eq,
  bytes_eq_iff, bytes_eq_refl, if◌then◌else◌, arith, Bool-cases, Option-cases, inl, inr,
}
use clash_for_android.Trie.Node.{
  Node, mk_node, Children, no_child, child_node, child_map, Entries, end, entry, find_entry,
  find_child, get_child, put_entry, add_to, add_child, new_node, or_new, replace_in, replace_child,
  added, get_or_new_child, data_of, set_data, optimize, optimize_entries,
}
use clash_for_android.Trie.Domain.{insert_path}

module _ {T : Type 0} where
  abbrev pub value_in : (Node T → Option T) → Option (Node T) → Option T
  value_in f none = none
  value_in f (some c) = f c

  -- The data at a path, whose parts go from the last of the domain to the first.
  unfoldable pub value : List Bytes → Node T → Option T
  value [] n = data_of n
  value (part ∷ parts) n = value_in (value parts) (get_child part n)

-- Two paths are the same.
abbrev pub path_eq : List Bytes → List Bytes → Bool
path_eq [] [] = true
path_eq (a ∷ p) (b ∷ q) = bytes_eq a b && path_eq p q
path_eq _ _ = false

module _ {T : Type 0} where
  find_entry-put_entry :
      (s q : Bytes) (c : Node T) (es : Entries T)
      → find_entry q (put_entry s c es) ≡ (if bytes_eq s q then some c else find_entry q es)
  find_entry-put_entry s q c end = refl
  find_entry-put_entry s q c (entry k n es) =
      ground
        (arith, bytes_eq_iff k s, bytes_eq_iff k q, bytes_eq_iff s q, find_entry-put_entry s q c es)

  -- A child that is missing is added under its name only.
  find_child-add_to :
      (s q : Bytes) (c : Node T) (cs : Children T)
      → find_child q (add_to s c cs) ≡ (if bytes_eq s q then some c else find_child q cs)
  find_child-add_to s q c no_child = refl
  find_child-add_to s q c (child_node k n) = find_entry-put_entry s q c (entry k n end)
  find_child-add_to s q c (child_map es) = find_entry-put_entry s q c es

  find_child-replace_in :
      (s q : Bytes) (c d : Node T) (cs : Children T)
      → find_child s cs ≡ some d
      → find_child q (replace_in s c cs) ≡ (if bytes_eq s q then some c else find_child q cs)
  find_child-replace_in s q c d no_child e = cc
  find_child-replace_in s q c d (child_node k n) e =
      ground (arith, bytes_eq_iff k s, bytes_eq_iff k q, bytes_eq_iff s q)
  find_child-replace_in s q c d (child_map es) e = find_entry-put_entry s q c es

  get_child-added :
      (s q : Bytes) (o : Option (Node T)) (n : Node T)
      → get_child s n ≡ o
      → get_child q (added s o n) ≡ (if bytes_eq s q then some (or_new o) else get_child q n)
  unfolding get_child add_child
  get_child-added s q none (mk_node cs v) e = find_child-add_to s q new_node cs
  get_child-added s q (some c) (mk_node cs v) e =
      ground (arith, bytes_eq_iff s q, ap (λ (k : Bytes). find_child k cs))

  get_child-replace_child :
      (s q : Bytes) (c d : Node T) (n : Node T)
      → get_child s n ≡ some d
      → get_child q (replace_child s c n) ≡ (if bytes_eq s q then some c else get_child q n)
  unfolding get_child replace_child
  get_child-replace_child s q c d (mk_node cs v) e = find_child-replace_in s q c d cs e

  -- The children after an insertion below the part `s`.
  get_child-insert_path :
      (s q : Bytes) (p : List Bytes) (v : T) (n : Node T)
      → get_child q (insert_path (s ∷ p) v n)
        ≡ (if bytes_eq s q then some (insert_path p v (or_new (get_child s n))) else get_child q n)
  unfolding insert_path get_or_new_child
  get_child-insert_path s q p v n =
      let o = get_child s n in
      let here : get_child s (added s o n) ≡ some (or_new o) =
        get_child-added s s o n refl ∙ rw (bytes_eq_refl s) in
      get_child-replace_child s q (insert_path p v (or_new o)) (or_new o) (added s o n) here
      ∙ ground (arith, get_child-added s q o n refl)

  data_of-insert_path :
      (s : Bytes) (p : List Bytes) (v : T) (n : Node T)
      → data_of (insert_path (s ∷ p) v n) ≡ data_of n
  unfolding insert_path get_or_new_child replace_child get_child add_child
  data_of-insert_path s p v (mk_node cs d) = elim (Option-cases (find_child s cs)) [
    | inl e ↦ rw e
    | inr (c, e) ↦ rw e
  ]

  value-or_new : (p : List Bytes) (o : Option (Node T)) → value p (or_new o) ≡ value_in (value p) o
  unfolding value get_child
  value-or_new [] none = refl
  value-or_new (a ∷ p) none = refl
  value-or_new p (some c) = refl

  value-set_data :
      (q : List Bytes) (v : T) (n : Node T)
      → value q (insert_path [] v n) ≡ (if path_eq [] q then some v else value q n)
  unfolding value insert_path set_data get_child
  value-set_data [] v (mk_node cs d) = refl
  value-set_data (b ∷ q) v (mk_node cs d) = refl

  -- An insertion changes the data at its path and nowhere else.
  pub value-insert_path :
      (p q : List Bytes) (v : T) (n : Node T)
      → value q (insert_path p v n) ≡ (if path_eq p q then some v else value q n)
  unfolding value
  value-insert_path [] q v n = value-set_data q v n
  value-insert_path (a ∷ p) [] v n = data_of-insert_path a p v n
  value-insert_path (a ∷ p) (b ∷ q) v n = elim (Bool-cases (bytes_eq a b)) [
    | inl same ↦
        rw (get_child-insert_path, same)
          (value-insert_path p q v (or_new (get_child a n))
            ∙ ap (λ (o : Option T). if path_eq p q then some v else o)
                (value-or_new q (get_child a n)
                  ∙ ap (λ (k : Bytes). value_in (value q) (get_child k n))
                      ((bytes_eq_iff a b).0 same)))
    | inr other ↦ rw (get_child-insert_path, other)
  ]

  abbrev optimized : Option (Node T) → Option (Node T)
  optimized none = none
  optimized (some n) = some (optimize n)

  find_entry-optimize_entries :
      (s : Bytes) (es : Entries T)
      → find_entry s (optimize_entries es) ≡ optimized (find_entry s es)
  unfolding optimize
  find_entry-optimize_entries s end = refl
  find_entry-optimize_entries s (entry k n es) = ground (arith, find_entry-optimize_entries s es)

  get_child-optimize :
      (s : Bytes) (n : Node T) → get_child s (optimize n) ≡ optimized (get_child s n)
  unfolding optimize get_child
  get_child-optimize s (mk_node no_child d) = refl
  get_child-optimize s (mk_node (child_node k n) d) = ground arith
  get_child-optimize s (mk_node (child_map end) d) = refl
  get_child-optimize s (mk_node (child_map (entry k n end)) d) = ground arith
  get_child-optimize s (mk_node (child_map (entry k n (entry j m es))) d) =
      find_entry-optimize_entries s (entry k n (entry j m es))

  data_of-optimize : (n : Node T) → data_of (optimize n) ≡ data_of n
  unfolding optimize
  data_of-optimize (mk_node cs d) = refl

  -- `Optimize` keeps the data at every path.
  pub value-optimize : (q : List Bytes) (n : Node T) → value q (optimize n) ≡ value q n
  unfolding value
  value-optimize [] n = data_of-optimize n
  value-optimize (a ∷ q) n = elim (Option-cases (get_child a n)) [
    | inl e ↦ rw (get_child-optimize, e)
    | inr (c, e) ↦ rw (get_child-optimize, e) (value-optimize q c)
  ]
