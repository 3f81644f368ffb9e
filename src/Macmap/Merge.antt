-- ===== src/Macmap/Merge.antt =====
-- `Merge` of pkg/macmap/macmap.go.
use mathlib.Core.List.{append_assoc, append-nil}
use gokrazy_router.Prelude.{
  ◌≡◌, refl, sym, ap, ◌∙◌, inl, inr, Bool, true, false, none, List, [], ◌∷◌, ◌++◌, arith,
  Bool-cases, All, All-append, Text, text_eq, to_lower, Dict, lookup, insert, lookup_or,
  lookup-insert, ℤ,
}
use gokrazy_router.Macmap.{
  Client, MapFile, ok, out_of_range, validate, find_vlan, lookup_vlan, merge_onto, existing_macs,
  merge,
}
use gokrazy_router.Macmap.Lookup.{Unseen, AreFresh, InRange, accepts_iff}

-- two maps that answer alike
abbrev SameMacs : Dict Bool → Dict Bool → Type 0
SameMacs a b = (m : Text) → lookup_or m false a ≡ lookup_or m false b

existing_macs-append :
    (macs : Dict Bool) (cs : List Client) (c : Client)
    → existing_macs macs (cs ++ c ∷ []) ≡ insert c.mac true (existing_macs macs cs)
unfolding existing_macs
existing_macs-append macs [] c = refl
existing_macs-append macs (x ∷ cs) c = existing_macs-append (insert x.mac true macs) cs c

AreFresh-append :
    (macs : Dict Bool) (cs : List Client) (c : Client)
    → AreFresh macs cs
    → Unseen c.mac (existing_macs macs cs)
    → AreFresh macs (cs ++ c ∷ [])
unfolding existing_macs
AreFresh-append macs [] c f u = (u, tt)
AreFresh-append macs (x ∷ cs) c f u = (f.0, AreFresh-append (insert x.mac true macs) cs c f.1 u)

-- a client that `Merge` can take: its address is in lower case and its VLAN in range
abbrev pub IsMergeable : Client → Type 0
IsMergeable c = (to_lower c.mac ≡ c.mac) × (out_of_range c.vlan ≡ false)

insert_same :
    (mac : Text) (existing : Dict Bool) (clients : List Client) (c : Client)
    → mac ≡ c.mac
    → SameMacs existing (existing_macs [] clients)
    → SameMacs (insert mac true existing) (existing_macs [] (clients ++ c ∷ []))
insert_same mac existing clients c e same m =
    rw (existing_macs-append [] clients c, ← e)
      (ground (
        arith,
        lookup-insert mac m true existing,
        lookup-insert mac m true (existing_macs [] clients),
        same m,
      ))

merge_onto-AreFresh :
    (clients : List Client) (existing : Dict Bool) (cs : List Client)
    → SameMacs existing (existing_macs [] clients)
    → AreFresh [] clients
    → InRange clients
    → All IsMergeable cs
    → AreFresh [] (merge_onto clients existing cs) × InRange (merge_onto clients existing cs)
unfolding merge_onto
merge_onto-AreFresh clients existing [] same f r h = (f, r)
merge_onto-AreFresh clients existing (c ∷ cs) same f r h =
    elim (Bool-cases (lookup_or c.mac false existing)) [
      | inl old ↦ rw (h.0.0, old) (merge_onto-AreFresh clients existing cs same f r h.1)
      | inr new ↦
          rw (h.0.0, new)
            (merge_onto-AreFresh (clients ++ c ∷ []) (insert c.mac true existing) cs
              (insert_same c.mac existing clients c refl same)
              (AreFresh-append [] clients c f (sym (same c.mac) ∙ new))
              (All-append (λ c. out_of_range c.vlan ≡ false) clients (c ∷ []) r (h.0.1, tt)) h.1)
    ]

-- Merging into an accepted file clients in lower case and in range gives an accepted file.
pub merge-validate :
    (mf other : MapFile)
    → validate mf ≡ ok tt
    → All IsMergeable other.clients
    → validate (merge mf other) ≡ ok tt
unfolding merge
merge-validate mf other v h =
    let (f, r, d) = (accepts_iff mf).0 v in
    let (f', r') =
      merge_onto-AreFresh mf.clients (existing_macs [] mf.clients) other.clients (λ m. refl) f r
        h in
    (accepts_iff _).1 (f', r', d)

merge_onto-append :
    (clients : List Client) (existing : Dict Bool) (cs : List Client)
    → (extra : List Client) × (merge_onto clients existing cs ≡ clients ++ extra)
unfolding merge_onto
merge_onto-append clients existing [] = ([], sym (append-nil clients))
merge_onto-append clients existing (c ∷ cs) =
    elim (Bool-cases (lookup_or (to_lower c.mac) false existing)) [
      | inl old ↦ rw old (merge_onto-append clients existing cs)
      | inr new ↦
          let (extra, e) =
            merge_onto-append (clients ++ c ∷ []) (insert (to_lower c.mac) true existing) cs in
          (c ∷ extra, rw new (e ∙ append_assoc clients (c ∷ []) extra))
    ]

-- `Merge` keeps every client of the file, in its place, and only adds behind.
pub merge_keeps :
    (mf other : MapFile) → (extra : List Client) × ((merge mf other).clients ≡ mf.clients ++ extra)
unfolding merge
merge_keeps mf other = merge_onto-append mf.clients (existing_macs [] mf.clients) other.clients

-- no client has the address
abbrev pub HasNot : Text → List Client → Type 0
HasNot mac cs = All (λ c. text_eq c.mac mac ≡ false) cs

find_vlan-append :
    (mac : Text) (d : ℤ) (xs ys : List Client)
    → HasNot mac xs
    → find_vlan mac d (xs ++ ys) ≡ find_vlan mac d ys
unfolding find_vlan
find_vlan-append mac d [] ys h = refl
find_vlan-append mac d (x ∷ xs) ys h = rw h.0 (find_vlan-append mac d xs ys h.1)

lookup-existing_macs :
    (mac : Text) (macs : Dict Bool) (cs : List Client)
    → HasNot mac cs
    → lookup mac (existing_macs macs cs) ≡ lookup mac macs
unfolding existing_macs
lookup-existing_macs mac macs [] h = refl
lookup-existing_macs mac macs (c ∷ cs) h =
    lookup-existing_macs mac (insert c.mac true macs) cs h.1
    ∙ ground (arith, lookup-insert c.mac mac true macs)

lookup_nil : (mac : Text) → lookup {V = Bool} mac [] ≡ none
unfolding lookup
lookup_nil mac = refl

find_vlan_other :
    (mac : Text) (d : ℤ) (c : Client) → text_eq c.mac mac ≡ false → find_vlan mac d (c ∷ []) ≡ d
unfolding find_vlan
find_vlan_other mac d c h = rw h

added_one :
    (mf : MapFile) (c : Client)
    → lookup (to_lower c.mac) (existing_macs [] mf.clients) ≡ none
    → merge_onto mf.clients (existing_macs [] mf.clients) (c ∷ []) ≡ mf.clients ++ c ∷ []
unfolding merge_onto
added_one mf c fresh = ground arith

-- A client whose address has upper-case letters is added as it is spelt, and no lookup finds it: the
-- file answers with the default VLAN, whatever VLAN the client came with.
pub merge_upper_case :
    (mf other : MapFile) (c : Client)
    → other.clients ≡ c ∷ []
    → text_eq c.mac (to_lower c.mac) ≡ false
    → HasNot (to_lower c.mac) mf.clients
    → ((merge mf other).clients ≡ mf.clients ++ c ∷ [])
      × (lookup_vlan (merge mf other) c.mac ≡ mf.default_vlan)
unfolding merge lookup_vlan
merge_upper_case mf other c e upper h =
    let fresh : lookup (to_lower c.mac) (existing_macs [] mf.clients) ≡ none =
      lookup-existing_macs (to_lower c.mac) [] mf.clients h ∙ lookup_nil (to_lower c.mac) in
    (
      rw e (added_one mf c fresh),
      rw e (
          ap (find_vlan (to_lower c.mac) mf.default_vlan) (added_one mf c fresh)
          ∙ find_vlan-append (to_lower c.mac) mf.default_vlan mf.clients (c ∷ []) h
          ∙ find_vlan_other (to_lower c.mac) mf.default_vlan c upper),
    )
