-- ===== src/ServiceHealth/Target.antt =====
-- platform/internal/machine/servicehealth/servicehealth.go and monitor.go: what a monitor accepts,
-- and when its workers begin. `url.Parse` is a parameter: the scheme and the host of a URL, or an
-- error. A non-positive time.Duration is 0: the code tests only whether one is positive.
use Prim.Native.Nat.{bit_xor}
use opdl.Base.{
  ℕ, ◌*◌, ◌%◌, ◌^◌, String, Bool, not, List, [], ◌∷◌, ◌++◌, map, Option, none, some, ltb, leb, ◌==◌,
  nat_eq, string_eq, contains, bytes, is_blank, if◌then◌else◌,
}
use opdl.ServiceHealth.Tracker.{Tracker, new_tracker}

pub record Target : Type 0 where
  pub service : String
  pub role : String
  pub url : String
  pub interval : ℕ
  pub timeout : ℕ
  pub retries : ℕ

pub record Url : Type 0 where
  pub scheme : String
  pub host : String

pub data TargetError : Type 0 where
  service_required not_a_url no_scheme no_host interval_not_positive timeout_not_positive :
      TargetError
  timeout_not_shorter retries_too_few : TargetError

-- The `switch` on the parsed URL and the terms.
unfoldable pub validate_terms : Url → Target → Option TargetError
validate_terms parsed t =
    if parsed.scheme == ""
    then some no_scheme
    else if parsed.host == ""
    then some no_host
    else if t.interval == 0
    then some interval_not_positive
    else if t.timeout == 0
    then some timeout_not_positive
    else if leb t.interval t.timeout
    then some timeout_not_shorter
    else if ltb t.retries 1
    then some retries_too_few
    else none

-- `Target.validate`; `none` is a nil error.
unfoldable pub validate_target : (parse : String → Option Url) → Target → Option TargetError
unfolding validate_terms
validate_target parse t =
    if is_blank t.service
    then some service_required
    else elim (parse t.url) [ none ↦ some not_a_url | some parsed ↦ validate_terms parsed t ]

-- `Deps`: whether each seam is composed, and the observer.
pub record Deps : Type 0 where
  pub has_prober : Bool
  pub has_sink : Bool
  pub has_clock : Bool
  pub observer : String

pub data DepsError : Type 0 where
  prober_required sink_required clock_required observer_required : DepsError

unfoldable pub validate_deps : Deps → Option DepsError
validate_deps d =
    if not d.has_prober
    then some prober_required
    else if not d.has_sink
    then some sink_required
    else if not d.has_clock
    then some clock_required
    else if is_blank d.observer
    then some observer_required
    else none

-- FNV-1a, 64 bits (hash/fnv).
abbrev pub word : ℕ
word = 2 ^ 64

unfoldable pub fnv64a : ℕ → List ℕ → ℕ
fnv64a h [] = h
fnv64a h (b ∷ bs) = fnv64a (bit_xor h b * 1099511628211 % word) bs

unfoldable pub jitter_for : (observer service : String) → (interval : ℕ) → ℕ
unfolding fnv64a
jitter_for observer service interval =
    if interval == 0
    then 0
    else fnv64a 14695981039346656037 (bytes observer ++ (0 ∷ bytes service)) % interval

pub record Worker : Type 0 where
  pub target : Target
  pub track : Tracker
  pub jitter : ℕ

pub data StartError : Type 0 where
  bad_deps : DepsError → StartError
  bad_target : TargetError → StartError
  targeted_twice : String → StartError

pub data Started (A : Type 0) : Type 0 where
  started : A → Started A
  refused : StartError → Started A

-- The loop of `Start` over the targets; `named` are the services so far.
unfoldable pub check_targets :
    (parse : String → Option Url) → (named : List String) → List Target → Option StartError
check_targets parse named [] = none
check_targets parse named (t ∷ ts) =
    let rest = check_targets parse (t.service ∷ named) ts in
    elim (validate_target parse t) [
      | some e ↦ some (bad_target e)
      | none ↦ if contains named t.service then some (targeted_twice t.service) else rest
    ]

unfoldable pub new_worker : String → Target → Worker
new_worker observer t = record {
  target = t;
  track = new_tracker t.retries;
  jitter = jitter_for observer t.service t.interval;
}

-- The workers that `Start` sets going.
unfoldable pub start : (parse : String → Option Url) → Deps → List Target → Started (List Worker)
start parse d ts = elim (validate_deps d) [
  | some e ↦ refused (bad_deps e)
  | none ↦ elim (check_targets parse [] ts) [
    | some e ↦ refused e
    | none ↦ started (map (new_worker d.observer) ts)
  ]
]
