-- ===== src/Group/Base.antt =====
-- outboundgroup/groupbase.go: the members of a group, from its providers, its filters and a cache.
-- A regular expression of the filters is the test that it makes on a name.
pub mod Members
pub mod Cache
pub mod Failures
use clash_for_android.Prelude.{
  ℕ, zero, suc, ◌+◌, ◌%◌, ◌^◌, ◌==◌, String, Bool, true, false, not, ◌&&◌, ◌||◌, Option, none, some,
  List, [], ◌∷◌, ◌++◌, map, if◌then◌else◌, ltb, length, any, keep, Bytes, codes, bytes_eq, str_eq,
}
use clash_for_android.Health.Kind.{AdapterType, to_string}
use clash_for_android.Health.Proxy.{Member}

-- A proxy provider as a group sees it: its version is counted up when its proxies change.
pub record Provider : Type 0 where
  pub version : ℕ
  pub compatible : Bool
  pub proxies : List Member
  pub touched : Bool

abbrev pub Filter : Type 0
Filter = String → Bool

pub record Group : Type 0 where
  pub name : String
  pub filter_regs : List Filter
  pub exclude_filter_regs : List Filter
  pub exclude_types : List String
  pub providers : List Provider
  pub failed_times : ℕ
  pub failed_time : ℕ
  pub failed_testing : Bool
  pub test_timeout : ℕ
  pub max_failed_times : ℕ
  pub provider_versions : List ℕ
  pub provider_proxies : List Member

abbrev or_default : ℕ → ℕ → ℕ
or_default n d = if n == 0 then d else n

-- NewGroupBase, the filters already compiled and the texts of the options already split.
unfoldable pub new_group :
    String → List Filter → List Filter → List String → ℕ → ℕ → List Provider → Group
new_group name filters excludes types timeout max_failed providers = record {
  name = name;
  filter_regs = filters;
  exclude_filter_regs = excludes;
  exclude_types = types;
  providers = providers;
  failed_times = 0;
  failed_time = 0;
  failed_testing = false;
  test_timeout = or_default timeout 5000;
  max_failed_times = or_default max_failed 5;
  provider_versions = [];
  provider_proxies = [];
}

unfoldable pub touch_provider : Provider → Provider
touch_provider p = record p { touched = true }

unfoldable pub touch : Group → Group
touch g = record g { providers = map touch_provider g.providers }

-- strings.EqualFold against the ASCII name of a type: letters fold to lower case, and so do the
-- two other characters that Unicode folds to an ASCII letter.
abbrev pub fold_case : ℕ → ℕ
fold_case c =
    if not (ltb c b'A') && ltb c 91
    then c + 32
    else if c == 0x212a
    then b'k'
    else if c == 0x17f
    then b's'
    else c

unfoldable pub equal_fold : String → String → Bool
equal_fold s t = bytes_eq (map fold_case (codes s)) (map fold_case (codes t))

-- The loops fill a set of names and a list, which grow together: `proxiesSet` and `newProxies`.
abbrev pub Picked : Type 0
Picked = List String × List Member

unfoldable pub add_unseen : Member → Picked → Picked
add_unseen p (names, out) =
    if any (str_eq p.name) names then (names, out) else (p.name ∷ names, out ++ (p ∷ []))

unfoldable pub pick_matching : Filter → List Member → Picked → Picked
unfolding add_unseen
pick_matching f [] acc = acc
pick_matching f (p ∷ ps) acc = pick_matching f ps (if f p.name then add_unseen p acc else acc)

unfoldable pub pick_all : List Filter → List Member → Picked → Picked
unfolding pick_matching
pick_all [] ps acc = acc
pick_all (f ∷ fs) ps acc = pick_all fs ps (pick_matching f ps acc)

abbrev from_provider : List Filter → Provider → List Member
from_provider [] pd = pd.proxies
from_provider (f ∷ fs) pd =
    if pd.compatible then pd.proxies else (pick_all (f ∷ fs) pd.proxies ([], [])).1

unfoldable pub gather : List Filter → List Provider → List Member
unfolding pick_all
gather fs [] = []
gather fs (pd ∷ pds) = from_provider fs pd ++ gather fs pds

-- With several providers and several filters the whole list is put in the order of the filters.
unfoldable pub reorder : Group → List Member → List Member
unfolding pick_all
reorder g ps =
    if ltb 1 (length g.providers) && ltb 1 (length g.filter_regs)
    then (pick_matching (λ _. true) ps (pick_all g.filter_regs ps ([], []))).1
    else ps

unfoldable pub excluded_name : Group → Member → Bool
excluded_name g p = any (λ reg. reg p.name) g.exclude_filter_regs

unfoldable pub excluded_type : Group → Member → Bool
unfolding equal_fold to_string
excluded_type g p = any (λ t. equal_fold (to_string p.kind) t) g.exclude_types

-- The members, before the fallback to COMPATIBLE.
unfoldable pub members : Group → List Member
unfolding gather reorder excluded_name excluded_type
members g =
    keep (λ p. not (excluded_type g p))
      (keep (λ p. not (excluded_name g p)) (reorder g (gather g.filter_regs g.providers)))

abbrev pub versions : List Provider → List ℕ
versions = map (λ (pd : Provider). pd.version)

abbrev pub cached_or : Member → List ℕ → List Member → Group → List Member × Group
cached_or compat vs [] g = (compat ∷ [], g)
cached_or compat vs (p ∷ ps) g =
    (p ∷ ps, record g { provider_versions = vs; provider_proxies = p ∷ ps })

-- baseProvider.setProxies of adapter/provider/provider.go: new proxies and the next version, for
-- the i-th provider of a group. The version is a uint32.
unfoldable pub set_proxies : ℕ → List Member → List Provider → List Provider
set_proxies i ps [] = []
set_proxies zero ps (pd ∷ pds) =
    record pd { proxies = ps; version = (pd.version + 1) % 2 ^ 32 } ∷ pds
set_proxies (suc i) ps (pd ∷ pds) = pd ∷ set_proxies i ps pds

unfoldable pub update_provider : ℕ → List Member → Group → Group
unfolding set_proxies
update_provider i ps g = record g { providers = set_proxies i ps g.providers }

-- The part of `GetProxies` under the lock.
unfoldable pub cached_proxies : Member → Group → List Member × Group
unfolding members
cached_proxies compat g =
    let vs = versions g.providers in
    if bytes_eq vs g.provider_versions
    then (g.provider_proxies, g)
    else cached_or compat vs (members g) g

-- `GetProxies`. `compat` is the proxy named COMPATIBLE of the tunnel.
unfoldable pub get_proxies : Member → Bool → Group → List Member × Group
unfolding cached_proxies touch
get_proxies compat touching g = cached_proxies compat (if touching then touch g else g)
