-- ===== src/Group/Fallback/Alive.antt =====
-- Which member a fallback group uses (`findAliveProxy` of outboundgroup/fallback.go).
use clash_for_android.Prelude.{
  ◌≡◌, ◌≢◌, refl, String, Bool, false, Option, none, some, List, [], ◌∷◌, ◌++◌, arith,
  if◌then◌else◌, str_eq, str_eq_refl, All, keep,
}
use clash_for_android.Health.Proxy.{Member, Heap, is_alive}
use clash_for_android.Group.Base.{members}
use clash_for_android.Group.Base.Cache.{IsCoherent, visible, get_proxies_lem}
use clash_for_android.Group.Selector.{first, or_first}
use clash_for_android.Group.Fallback.{Fallback, alive_loop, find_alive_proxy}

-- The first member that is alive for the URL.
abbrev pub first_alive : Heap → String → List Member → Option Member
first_alive heap url ps = first (keep (λ p. is_alive heap url p) ps)

-- No member has the name.
abbrev pub Unnamed : String → List Member → Type 0
Unnamed name = All (λ (p : Member). str_eq p.name name ≡ false)

alive_loop-auto :
    (heap : Heap) (url : String) (ps : List Member)
    → alive_loop heap url "" ps ≡ (first_alive heap url ps, "")
unfolding alive_loop
alive_loop-auto heap url [] = refl
alive_loop-auto heap url (p ∷ ps) = ground (arith, alive_loop-auto heap url ps)

alive_loop-fixed :
    (heap : Heap) (url : String) (pre post : List Member) (s : Member)
    → str_eq s.name "" ≡ false
    → Unnamed s.name pre
    → alive_loop heap url s.name (pre ++ s ∷ post)
      ≡ (if is_alive heap url s then (some s, s.name) else (first_alive heap url post, ""))
unfolding alive_loop
alive_loop-fixed heap url [] post s n u =
    ground (arith, str_eq_refl s.name, alive_loop-auto heap url post)
alive_loop-fixed heap url (p ∷ pre) post s n (u, us) =
    ground (arith, alive_loop-fixed heap url pre post s n us)

first-visible-ne : (compat : Member) (ps : List Member) → first (visible compat ps) ≢ none
first-visible-ne compat [] = λ e. cc
first-visible-ne compat (p ∷ ps) = λ e. cc

visible-append :
    (compat : Member) (pre post : List Member) (s : Member)
    → visible compat (pre ++ s ∷ post) ≡ pre ++ s ∷ post
visible-append compat [] post s = refl
visible-append compat (p ∷ pre) post s = refl

module _ (heap : Heap) (compat : Member) (touching : Bool) (f : Fallback)
    (coherent : IsCoherent f.group) where
  -- With no member fixed, the group uses the first member that is alive, or the first one if none
  -- is; it never panics, and it fixes nothing.
  pub find_alive_proxy-auto :
      f.selected ≡ ""
      → ((find_alive_proxy heap compat touching f).0
          ≡ or_first
              (visible compat (members f.group))
              (first_alive heap f.test_url (visible compat (members f.group))))
        × ((find_alive_proxy heap compat touching f).1.selected ≡ "")
        × (first (visible compat (members f.group)) ≢ none)
  unfolding find_alive_proxy
  find_alive_proxy-auto e =
      let (served, _, _) = get_proxies_lem compat touching f.group coherent in
      let found = alive_loop-auto heap f.test_url (visible compat (members f.group)) in
      (rw (served, e, found), rw (served, e, found), first-visible-ne compat (members f.group))

  -- With a member fixed that is the first of its name, the group uses it if it is alive. If it is
  -- not, the choice is forgotten and the group uses the first member after it that is alive, or
  -- the first member of all: one before it that is alive is passed over, this time.
  pub find_alive_proxy-fixed :
      (pre post : List Member) (s : Member)
      → members f.group ≡ pre ++ s ∷ post
      → f.selected ≡ s.name
      → str_eq s.name "" ≡ false
      → Unnamed s.name pre
      → ((find_alive_proxy heap compat touching f).0 ≡ (
          if is_alive heap f.test_url s
          then some s
          else or_first (pre ++ s ∷ post) (first_alive heap f.test_url post)))
        × ((find_alive_proxy heap compat touching f).1.selected
            ≡ (if is_alive heap f.test_url s then s.name else ""))
  unfolding find_alive_proxy
  find_alive_proxy-fixed pre post s split chosen n u =
      let (served, _, _) = get_proxies_lem compat touching f.group coherent in
      let found = alive_loop-fixed heap f.test_url pre post s n u in
      (
        rw (served, split, visible-append compat pre post s, chosen, found) (ground arith),
        rw (served, split, visible-append compat pre post s, chosen, found) (ground arith),
      )
