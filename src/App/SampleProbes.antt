-- ===== src/App/SampleProbes.antt =====
-- The readers of a concrete descriptor compose probe addresses.
use opdl.Base.{
  ◌≡◌, refl, sym, inl, inr, ◌⊎◌, String, false, List, [], ◌∷◌, some, arith, ◌==◌, string_eq, eq_iff,
  Bool-cases, All, subst, trim_space, lookup,
}
use opdl.ServiceHealth.Target.{Url}
use opdl.Deployment.Sample.{parsers, urls}
use opdl.App.Targets.{ReadsProbes}

lookup-All :
    {V : Type 0} (P : V → Type 0) (entries : List (String × V)) (t : String) (v : V)
    → All (λ e. P e.1) entries
    → lookup t entries ≡ some v
    → P v
unfolding lookup
lookup-All P [] t v h e = absurd (ground arith)
lookup-All P ((held, value) ∷ rest) t v (here, later) e = elim (Bool-cases (held == t)) [
  | inl same ↦ let i : value ≡ v = ground arith in subst P i here
  | inr other ↦ lookup-All P rest t v later (ground arith)
]

abbrev after_first : {A : Type 0} → List A → List A
after_first [] = []
after_first (x ∷ xs) = xs

abbrev HasScheme : Url → Type 0
HasScheme u = (u.scheme == "") ≡ false

-- The only path without a scheme.
path_known :
    (path : String) (u : Url) → lookup path urls ≡ some u → u.scheme ≡ "" → path ≡ "/health"
unfolding lookup
path_known path u e h = elim (Bool-cases ("/health" == path)) [
  | inl same ↦ sym ((eq_iff "/health" path).0 same)
  | inr other ↦
      let schemed : HasScheme u =
        lookup-All HasScheme (after_first urls) path u
          (refl, (refl, (refl, (refl, (refl, (refl, tt)))))) (ground arith) in
      absurd (ground (arith, eq_iff u.scheme ""))
]

ip_known :
    (t ip : String)
    → parsers.parse_ip t ≡ some ip
    → (t ≡ "127.0.0.1") ⊎ ((t ≡ "10.0.0.5") ⊎ (t ≡ "10.0.0.6"))
ip_known t ip e = ground (arith, eq_iff "127.0.0.1" t, eq_iff "10.0.0.5" t, eq_iff "10.0.0.6" t)

abbrev address : String → Url
address host = record { scheme = "http"; host = host }

pub probes : ReadsProbes parsers
unfolding trim_space lookup
probes = record {
  ips = λ t ip e. elim (ip_known t ip e) [
    | inl a ↦ rw a refl
    | inr (inl a) ↦ rw a refl
    | inr (inr a) ↦ rw a refl
  ];
  urls = λ t ip path port target e r scheme host slash.
      let p = path_known path target r scheme in
      elim (ip_known t ip e) [
        | inl a ↦ rw (a, p) (address "127.0.0.1", refl, refl, refl)
        | inr (inl a) ↦ rw (a, p) (address "10.0.0.5", refl, refl, refl)
        | inr (inr a) ↦ rw (a, p) (address "10.0.0.6", refl, refl, refl)
      ];
}
