-- ===== src/Macmap/Lookup.antt =====
-- `validate` and `Lookup` of pkg/macmap/macmap.go.
use gokrazy_router.Prelude.{
  ℕ, ◌+◌, ◌≤◌, ◌≡◌, refl, ◌↔◌, Bool, true, false, List, [], ◌∷◌, ◌++◌, arith, All, Text, text_eq,
  text_eq_refl, to_lower, Dict, lookup, insert, lookup_or, lookup-insert, ℤ, pos, negsuc, int_lt,
}
use gokrazy_router.Macmap.{
  Client, MapFile, Result, ok, err, out_of_range, validate_clients, validate, find_vlan,
  lookup_vlan,
}

-- the address is not in the map of those seen
abbrev pub Unseen : Text → Dict Bool → Type 0
Unseen mac macs = lookup_or mac false macs ≡ false

-- the addresses are distinct, and none has been seen
abbrev pub AreFresh : Dict Bool → List Client → Type 0
AreFresh macs [] = Unit
AreFresh macs (c ∷ cs) = Unseen c.mac macs × AreFresh (insert c.mac true macs) cs

abbrev pub InRange : List Client → Type 0
InRange cs = All (λ c. out_of_range c.vlan ≡ false) cs

validate_clients-ok :
    (i : ℕ) (macs : Dict Bool) (cs : List Client)
    → validate_clients i macs cs ≡ ok tt
    → AreFresh macs cs × InRange cs
unfolding validate_clients
validate_clients-ok i macs [] h = (tt, tt)
validate_clients-ok i macs (c ∷ cs) h =
    let seen : lookup_or c.mac false macs ≡ false = ground arith in
    let range : out_of_range c.vlan ≡ false = ground arith in
    let (f, r) = validate_clients-ok (i + 1) (insert c.mac true macs) cs (ground arith) in
    ((seen, f), (range, r))

ok-validate_clients :
    (i : ℕ) (macs : Dict Bool) (cs : List Client)
    → AreFresh macs cs
    → InRange cs
    → validate_clients i macs cs ≡ ok tt
unfolding validate_clients
ok-validate_clients i macs [] f r = refl
ok-validate_clients i macs (c ∷ cs) f r =
    ground (arith, ok-validate_clients (i + 1) (insert c.mac true macs) cs f.1 r.1)

clients_first : (mf : MapFile) → validate mf ≡ ok tt → validate_clients 0 [] mf.clients ≡ ok tt
unfolding validate
clients_first mf h = of_result (validate_clients 0 [] mf.clients) refl
  where
    of_result :
        (r : Result (Unit {0}))
        → validate_clients 0 [] mf.clients ≡ r
        → validate_clients 0 [] mf.clients ≡ ok tt
    of_result (ok u) e = e
    of_result (err x) e = cc (e, rw (e, validate) at h)

-- acceptance by the map of the addresses seen and the test of the range
pub accepts_iff :
    (mf : MapFile)
    → (validate mf ≡ ok tt)
      ↔ (AreFresh [] mf.clients × InRange mf.clients × (out_of_range mf.default_vlan ≡ false))
unfolding validate
accepts_iff mf = (
  λ h.
      let clients_ok : validate_clients 0 [] mf.clients ≡ ok tt = clients_first mf h in
      let (f, r) = validate_clients-ok 0 [] mf.clients clients_ok in (f, r, ground arith),
  λ h. ground (arith, ok-validate_clients 0 [] mf.clients h.0 h.1),
)

-- an address that has been seen is not among the fresh ones
fresh-append :
    (macs : Dict Bool) (before after : List Client) (c : Client)
    → AreFresh macs (before ++ c ∷ after)
    → lookup_or c.mac false macs ≡ false
fresh-append macs [] after c f = f.0
fresh-append macs (b ∷ before) after c f = ground (
  arith,
  fresh-append (insert b.mac true macs) before after c f.1,
  lookup-insert b.mac c.mac true macs,
)

first_differs :
    (macs : Dict Bool) (b c : Client) (before after : List Client)
    → AreFresh (insert b.mac true macs) (before ++ c ∷ after)
    → text_eq b.mac c.mac ≡ false
first_differs macs b c before after f = ground (
  arith,
  fresh-append (insert b.mac true macs) before after c f,
  lookup-insert b.mac c.mac true macs,
)

find_vlan-client :
    (macs : Dict Bool) (d : ℤ) (before after : List Client) (c : Client)
    → AreFresh macs (before ++ c ∷ after)
    → find_vlan c.mac d (before ++ c ∷ after) ≡ c.vlan
unfolding find_vlan
find_vlan-client macs d [] after c f = rw (text_eq_refl c.mac)
find_vlan-client macs d (b ∷ before) after c f =
    rw (first_differs macs b c before after f.1)
      (find_vlan-client (insert b.mac true macs) d before after c f.1)

-- In an accepted file, a lookup of an address whose lower case is the address of a client, as the file has it,
-- gives the VLAN of that client.
pub lookup_vlan-client :
    (mf : MapFile) (before after : List Client) (c : Client) (mac : Text)
    → validate mf ≡ ok tt
    → mf.clients ≡ before ++ c ∷ after
    → to_lower mac ≡ c.mac
    → lookup_vlan mf mac ≡ c.vlan
unfolding lookup_vlan
lookup_vlan-client mf before after c mac v e m =
    rw (m, e)
      (find_vlan-client [] mf.default_vlan before after c (rw e at ((accepts_iff mf).0 v).0))

-- no later client has the address of an earlier one
abbrev pub AreDistinct : List Client → Type 0
AreDistinct [] = Unit
AreDistinct (c ∷ cs) = All (λ d. text_eq c.mac d.mac ≡ false) cs × AreDistinct cs

-- a number from 0 to 4094
abbrev pub IsVlan : ℤ → Type 0
IsVlan v = (n : ℕ) × (v ≡ pos n) × (n ≤ 4094)

in_range_iff : (v : ℤ) → (out_of_range v ≡ false) ↔ IsVlan v
unfolding out_of_range int_lt
in_range_iff (pos n) = (
  λ h. (n, refl, ground (arith, h)),
  λ h. (let (k, e, le) = h in let same : n ≡ k = cc e in ground (arith, le, same)),
)
in_range_iff (negsuc n) = (λ h. absurd cc, λ h. (let (k, e, le) = h in absurd cc))

pub InRange-iff : (cs : List Client) → InRange cs ↔ All (λ c. IsVlan c.vlan) cs
InRange-iff [] = (λ h. tt, λ h. tt)
InRange-iff (c ∷ cs) = (
  λ h. ((in_range_iff c.vlan).0 h.0, (InRange-iff cs).0 h.1),
  λ h. ((in_range_iff c.vlan).1 h.0, (InRange-iff cs).1 h.1),
)

-- one address more in the map
Unseen-iff :
    (mac : Text) (macs : Dict Bool) (cs : List Client)
    → All (λ d. Unseen d.mac (insert mac true macs)) cs
      ↔ (All (λ d. text_eq mac d.mac ≡ false) cs × All (λ d. Unseen d.mac macs) cs)
Unseen-iff mac macs [] = (λ h. (tt, tt), λ h. tt)
Unseen-iff mac macs (d ∷ ds) =
    let step = lookup-insert mac d.mac true macs in
    let rest = Unseen-iff mac macs ds in
    (
      λ h. (
        (ground (arith, step, h.0), (rest.0 h.1).0),
        (ground (arith, step, h.0), (rest.0 h.1).1),
      ),
      λ h. (ground (arith, step, h.0.0, h.1.0), rest.1 (h.0.1, h.1.1)),
    )

AreFresh-iff :
    (macs : Dict Bool) (cs : List Client)
    → AreFresh macs cs ↔ (AreDistinct cs × All (λ d. Unseen d.mac macs) cs)
AreFresh-iff macs [] = (λ h. (tt, tt), λ h. tt)
AreFresh-iff macs (c ∷ cs) =
    let rest = AreFresh-iff (insert c.mac true macs) cs in
    let one = Unseen-iff c.mac macs cs in
    (
      λ h.
          (let (d, u) = rest.0 h.1 in
            let (differ, unseen) = one.0 u in ((differ, d), (h.0, unseen))),
      λ h. (h.1.0, rest.1 (h.0.1, one.1 (h.0.0, h.1.1))),
    )

none_seen : (cs : List Client) → All (λ d. Unseen d.mac []) cs
unfolding lookup
none_seen [] = tt
none_seen (c ∷ cs) = (refl, none_seen cs)

-- `validate` accepts a file exactly if the addresses of its clients differ from each other as texts, and the VLAN of
-- each client and the default VLAN are from 0 to 4094.
pub validate_iff :
    (mf : MapFile)
    → (validate mf ≡ ok tt)
      ↔ (AreDistinct mf.clients × All (λ c. IsVlan c.vlan) mf.clients × IsVlan mf.default_vlan)
validate_iff mf = (
  λ h.
      (let (f, r, d) = (accepts_iff mf).0 h in
        (
          ((AreFresh-iff [] mf.clients).0 f).0,
          (InRange-iff mf.clients).0 r,
          (in_range_iff mf.default_vlan).0 d,
        )),
  λ h. (accepts_iff mf).1 (
    (AreFresh-iff [] mf.clients).1 (h.0, none_seen mf.clients),
    (InRange-iff mf.clients).1 h.1,
    (in_range_iff mf.default_vlan).1 h.2,
  ),
)
