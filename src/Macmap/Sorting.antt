-- ===== src/Macmap/Sorting.antt =====
-- `VLANs` and `sortInts` of pkg/macmap/macmap.go: the order of the IDs, and which there are.
use mathlib.Core.List.{reverse-append}
use gokrazy_router.Prelude.{
  ◌≡◌, refl, ap, ◌∙◌, inl, inr, Bool, true, false, ◌||◌, List, [], ◌∷◌, ◌++◌, reverse, arith,
  Bool-cases, All, All-append, ℤ, int_eq, int_eq_iff, int_lt,
}
use gokrazy_router.Prelude.Int.{int_lt_trans, int_lt_total}
use gokrazy_router.Macmap.{
  Client, MapFile, has_id, add_id, seen_ids, sink, sort_onto, sort_ints, vlans,
}

-- each ID less than all before it
abbrev IsDescending : List ℤ → Type 0
IsDescending [] = Unit
IsDescending (x ∷ xs) = All (λ y. int_lt y x ≡ true) xs × IsDescending xs

abbrev pub IsAscending : List ℤ → Type 0
IsAscending [] = Unit
IsAscending (x ∷ xs) = All (λ y. int_lt x y ≡ true) xs × IsAscending xs

-- no ID stands twice
abbrev IsNodup : List ℤ → Type 0
IsNodup [] = Unit
IsNodup (x ∷ xs) = (has_id x xs ≡ false) × IsNodup xs

All-sink :
    (z x : ℤ) (ys : List ℤ)
    → int_lt x z ≡ true
    → All (λ y. int_lt y z ≡ true) ys
    → All (λ y. int_lt y z ≡ true) (sink x ys)
unfolding sink
All-sink z x [] h k = (h, tt)
All-sink z x (y ∷ ys) h k = elim (Bool-cases (int_lt x y)) [
  | inl t ↦ rw t (k.0, All-sink z x ys h k.1)
  | inr f ↦ rw f (h, k)
]

All-below :
    (x z : ℤ) (ys : List ℤ)
    → int_lt z x ≡ true
    → All (λ y. int_lt y z ≡ true) ys
    → All (λ y. int_lt y x ≡ true) ys
All-below x z [] h k = tt
All-below x z (y ∷ ys) h k = (int_lt_trans y z x k.0 h, All-below x z ys h k.1)

has_id-sink : (id x : ℤ) (ys : List ℤ) → has_id id (sink x ys) ≡ (int_eq x id || has_id id ys)
unfolding sink has_id
has_id-sink id x [] = refl
has_id-sink id x (y ∷ ys) = ground (arith, has_id-sink id x ys)

-- an ID that is not there yet goes to its place
sink-IsDescending :
    (x : ℤ) (ys : List ℤ) → has_id x ys ≡ false → IsDescending ys → IsDescending (sink x ys)
unfolding sink has_id
sink-IsDescending x [] h d = (tt, tt)
sink-IsDescending x (y ∷ ys) h d = elim (Bool-cases (int_lt x y)) [
  | inl t ↦ rw t (All-sink y x ys t d.0, sink-IsDescending x ys (ground arith) d.1)
  | inr f ↦
      let less : int_lt y x ≡ true = ground (arith, int_lt_total x y f, int_eq_iff y x) in
      rw f ((less, All-below x y ys less d.0), d)
]

-- none of the IDs is among the others
abbrev Apart : List ℤ → List ℤ → Type 0
Apart xs done = All (λ x. has_id x done ≡ false) xs

Apart-sink :
    (x : ℤ) (xs done : List ℤ) → has_id x xs ≡ false → Apart xs done → Apart xs (sink x done)
unfolding has_id
Apart-sink x [] done h a = tt
Apart-sink x (z ∷ xs) done h a = (
  ground (arith, has_id-sink z x done, int_eq_iff z x, int_eq_iff x z),
  Apart-sink x xs done (ground arith) a.1,
)

sort_onto-IsDescending :
    (done xs : List ℤ)
    → IsDescending done
    → IsNodup xs
    → Apart xs done
    → IsDescending (sort_onto done xs)
unfolding sort_onto
sort_onto-IsDescending done [] d n a = d
sort_onto-IsDescending done (x ∷ xs) d n a =
    sort_onto-IsDescending (sink x done) xs (sink-IsDescending x done a.0 d) n.1
      (Apart-sink x xs done n.0 a.1)

has_id-sort_onto :
    (id : ℤ) (done xs : List ℤ) → has_id id (sort_onto done xs) ≡ (has_id id done || has_id id xs)
unfolding sort_onto has_id
has_id-sort_onto id done [] = ground arith
has_id-sort_onto id done (x ∷ xs) =
    ground (arith, has_id-sort_onto id (sink x done) xs, has_id-sink id x done)

has_id-append : (id : ℤ) (xs ys : List ℤ) → has_id id (xs ++ ys) ≡ (has_id id xs || has_id id ys)
unfolding has_id
has_id-append id [] ys = refl
has_id-append id (x ∷ xs) ys = ground (arith, has_id-append id xs ys)

has_id_last : (id x : ℤ) (xs : List ℤ) → (has_id id xs || has_id id (x ∷ [])) ≡ has_id id (x ∷ xs)
unfolding has_id
has_id_last id x xs = ground arith

has_id-reverse : (id : ℤ) (xs : List ℤ) → has_id id (reverse xs) ≡ has_id id xs
has_id-reverse id [] = refl
has_id-reverse id (x ∷ xs) =
    ap (has_id id) (reverse-append (x ∷ []) xs)
    ∙ has_id-append id (reverse xs) (x ∷ [])
    ∙ ap (λ b. b || has_id id (x ∷ [])) (has_id-reverse id xs)
    ∙ has_id_last id x xs

IsAscending-append :
    (xs : List ℤ) (z : ℤ)
    → IsAscending xs
    → All (λ y. int_lt y z ≡ true) xs
    → IsAscending (xs ++ z ∷ [])
IsAscending-append [] z a b = (tt, tt)
IsAscending-append (x ∷ xs) z a b =
    (All-append (λ y. int_lt x y ≡ true) xs (z ∷ []) a.0 (b.0, tt), IsAscending-append xs z a.1 b.1)

All-reverse {κ} : (P : ℤ → Type κ) (xs : List ℤ) → All P xs → All P (reverse xs)
All-reverse P [] h = tt
All-reverse P (x ∷ xs) h =
    rw (reverse-append (x ∷ []) xs)
      (All-append P (reverse xs) (x ∷ []) (All-reverse P xs h.1) (h.0, tt))

reverse-IsAscending : (xs : List ℤ) → IsDescending xs → IsAscending (reverse xs)
reverse-IsAscending [] d = tt
reverse-IsAscending (x ∷ xs) d = rw (reverse-append (x ∷ []) xs) (
    IsAscending-append (reverse xs) x (reverse-IsAscending xs d.1)
      (All-reverse (λ y. int_lt y x ≡ true) xs d.0))

seen_ids-IsNodup : (seen : List ℤ) (cs : List Client) → IsNodup seen → IsNodup (seen_ids seen cs)
unfolding seen_ids
seen_ids-IsNodup seen [] n = n
seen_ids-IsNodup seen (c ∷ cs) n = seen_ids-IsNodup (add_id c.vlan seen) cs (ground arith)

-- some client of the list is in the VLAN
unfoldable pub has_client : ℤ → List Client → Bool
has_client id [] = false
has_client id (c ∷ cs) = int_eq c.vlan id || has_client id cs

has_id-seen_ids :
    (id : ℤ) (seen : List ℤ) (cs : List Client)
    → has_id id (seen_ids seen cs) ≡ (has_id id seen || has_client id cs)
unfolding seen_ids has_id has_client
has_id-seen_ids id seen [] = ground arith
has_id-seen_ids id seen (c ∷ cs) =
    ground (arith, has_id-seen_ids id (add_id c.vlan seen) cs, int_eq_iff c.vlan id)

Apart-nil : (xs : List ℤ) → Apart xs []
unfolding has_id
Apart-nil [] = tt
Apart-nil (x ∷ xs) = (refl, Apart-nil xs)

has_id_nil : (id : ℤ) (ids : List ℤ) → (has_id id [] || has_id id ids) ≡ has_id id ids
unfolding has_id
has_id_nil id ids = refl

has_id_one :
    (id : ℤ) (mf : MapFile)
    → (has_id id (mf.default_vlan ∷ []) || has_client id mf.clients)
      ≡ (int_eq mf.default_vlan id || has_client id mf.clients)
unfolding has_id
has_id_one id mf = ground arith

-- `VLANs` is in strictly ascending order, so it has no ID twice; an ID is in it exactly if it is the
-- default or the VLAN of a client.
vlans-IsAscending :
    (mf : MapFile)
    → IsAscending (vlans mf)
      × ((id : ℤ) → has_id id (vlans mf) ≡ (int_eq mf.default_vlan id || has_client id mf.clients))
unfolding vlans sort_ints
vlans-IsAscending mf =
    let ids = seen_ids (mf.default_vlan ∷ []) mf.clients in
    (
      reverse-IsAscending (sort_onto [] ids) (
          sort_onto-IsDescending [] ids tt
            (seen_ids-IsNodup (mf.default_vlan ∷ []) mf.clients (unfold has_id in (refl, tt)))
            (Apart-nil ids)),
      λ id.
          has_id-reverse id (sort_onto [] ids)
          ∙ has_id-sort_onto id [] ids
          ∙ has_id_nil id ids
          ∙ has_id-seen_ids id (mf.default_vlan ∷ []) mf.clients
          ∙ has_id_one id mf,
    )
