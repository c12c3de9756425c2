-- ===== src/Resolve/Mesh.antt =====
-- What builder/internal/resolve derives for a whole site: the cluster's routes, the inventory and
-- the freshness of its reports.
use mathlib.Core.List.{map-append, Memᴰ}
use opdl.Base.{
  ℕ, ◌+◌, ◌*◌, ◌^◌, ◌<◌, ◌≡◌, refl, ap, ◌∙◌, String, Bool, true, false, ◌&&◌, ltb, List, [], ◌∷◌,
  ◌++◌, map, Option, none, some, arith, eq_iff, ◌==◌, string_eq, contains, if◌then◌else◌,
}
use opdl.Resolve.Blueprint.{Machine, Endpoints, endpoints}
use opdl.Resolve.Descriptor.{
  role_primary, role_standby, Formats, fresh, not_fresh, overflows, derive_fresh, nats_route_url,
  is_standby, peer_routes, nats_routes,
}

-- A report stays current for two intervals and one timeout, exactly, if that fits an int64 number
-- of nanoseconds, and resolution fails if it does not, the timeout itself being one that fits.
derive_fresh-exact :
    (i t : ℕ)
    → t < 2 ^ 63
    → derive_fresh (some i) (some t)
      ≡ (if ltb (2 * i + t) (2 ^ 63) then fresh (2 * i + t) else not_fresh overflows)
unfolding derive_fresh
derive_fresh-exact i t h = ground arith

-- A deployed instance of the site.
pub record Member : Type 0 where
  pub machine : String
  pub role : String
  pub url : String

abbrev member_of : Formats → Machine → String → Option Endpoints → List Member
member_of f m role none = []
member_of f m role (some e) =
    record { machine = m.name; role = role; url = nats_route_url f m.ip e.nats_cluster_port } ∷ []

-- Every deployed instance, machine by machine, the primary first.
abbrev pub members : Formats → List Machine → List Member
members f [] = []
members f (m ∷ ms) =
    member_of f m role_primary (endpoints m false)
    ++ (member_of f m role_standby (endpoints m true) ++ members f ms)

abbrev pub is_self : String → String → Member → Bool
is_self self role x = (x.machine == self) && (x.role == role)

abbrev pub others : String → String → List Member → List Member
others self role [] = []
others self role (x ∷ xs) =
    let rest = others self role xs in if is_self self role x then rest else x ∷ rest

abbrev urls : List Member → List String
urls = map (λ x. x.url)

others-append :
    (self role : String) (xs ys : List Member)
    → others self role (xs ++ ys) ≡ others self role xs ++ others self role ys
others-append self role [] ys = refl
others-append self role (x ∷ xs) ys = ground (arith, others-append self role xs ys)

urls-others-append :
    (self role : String) (xs ys : List Member)
    → urls (others self role (xs ++ ys)) ≡ urls (others self role xs) ++ urls (others self role ys)
urls-others-append self role xs ys =
    ap urls (others-append self role xs ys)
    ∙ map-append (λ x. x.url) (others self role xs) (others self role ys)

is_self_comm :
    (x y : Member) → is_self x.machine x.role y ≡ false → is_self y.machine y.role x ≡ false
is_self_comm x y h = ground (
  arith,
  eq_iff x.machine y.machine,
  eq_iff y.machine x.machine,
  eq_iff x.role y.role,
  eq_iff y.role x.role,
)

peer_routes-others :
    (f : Formats) (self role : String) (m : Machine) (peer_role : String) (e : Option Endpoints)
    → endpoints m (is_standby peer_role) ≡ e
    → peer_routes f self role m peer_role ≡ urls (others self role (member_of f m peer_role e))
unfolding peer_routes
peer_routes-others f self role m peer_role none h = rw (h, peer_routes) (ground arith)
peer_routes-others f self role m peer_role (some e) h = rw (h, peer_routes) (ground arith)

-- The routes of an instance are the addresses of all other deployed instances of the site, in the
-- site's order.
nats_routes-others :
    (f : Formats) (ms : List Machine) (self role : String)
    → nats_routes f ms self role ≡ map (λ x. x.url) (others self role (members f ms))
unfolding nats_routes
nats_routes-others f [] self role = refl
nats_routes-others f (m ∷ ms) self role = rw (
  urls-others-append self role (member_of f m role_primary (endpoints m false)) _,
  urls-others-append self role (member_of f m role_standby (endpoints m true)) (members f ms),
  peer_routes-others f self role m role_primary (endpoints m false) refl,
  peer_routes-others f self role m role_standby (endpoints m true) refl,
  nats_routes-others f ms self role,
)

contains-others :
    (xs : List Member) (self role : String) (y : Member)
    → Memᴰ y xs
    → is_self self role y ≡ false
    → contains (urls (others self role xs)) y.url ≡ true
contains-others [] self role y m h = elim m [ ]
contains-others (x ∷ xs) self role y (Memᴰ.head e) h = ground (arith, eq_iff y.url y.url)
contains-others (x ∷ xs) self role y (Memᴰ.tail m) h =
    ground (arith, contains-others xs self role y m h)

-- The cluster is a full mesh: of any two different deployed instances of a site each routes to the
-- other.
pub nats_routes-mutual :
    (f : Formats) (ms : List Machine) (x y : Member)
    → Memᴰ x (members f ms)
    → Memᴰ y (members f ms)
    → is_self x.machine x.role y ≡ false
    → (contains (nats_routes f ms x.machine x.role) y.url ≡ true)
      × (contains (nats_routes f ms y.machine y.role) x.url ≡ true)
nats_routes-mutual f ms x y mx my h =
    rw (nats_routes-others f ms x.machine x.role, nats_routes-others f ms y.machine y.role)
      (
        contains-others _ x.machine x.role y my h,
        contains-others _ y.machine y.role x mx (is_self_comm x y h),
      )
