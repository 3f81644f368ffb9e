-- ===== src/Nat/Names.antt =====
-- The names of bridges as `ifname` of pkg/nat/nat.go writes them.
use gokrazy_router.Prelude.{
  ℕ, zero, suc, ◌-◌, ◌≤◌, ◌≡◌, refl, sym, ap, ◌∙◌, inl, inr, [], ◌∷◌, ◌++◌, arith, ◌==◌, ==_iff,
  Bool-cases, All, length, drop, Text, text_eq, text_eq_iff, text_eq_refl, ℤ, pos, negsuc, int_eq,
}
use gokrazy_router.Prelude.Decimal.{print_nat, print_int}
use gokrazy_router.Prelude.Decimal.Laws.{print_nat_inj, print_nat-All, length-print_nat, IsNumeral}
use gokrazy_router.Nat.{copy_into, ifname}
use gokrazy_router.Vlan.{bridge_name}

-- the IDs that 802.1Q gives to VLANs
abbrev pub IsVlanId : ℤ → Type 0
IsVlanId (pos n) = n ≤ 4094
IsVlanId (negsuc n) = ⊥

-- copies of short names without zero bytes differ
copy_into_inj :
    (n : ℕ) (a b : Text)
    → All IsNumeral a
    → All IsNumeral b
    → length a ≤ n
    → length b ≤ n
    → copy_into n a ≡ copy_into n b
    → a ≡ b
unfolding copy_into
copy_into_inj n [] [] ha hb la lb h = refl
copy_into_inj zero (x ∷ a) b ha hb la lb h = absurd (omega arith)
copy_into_inj zero a (y ∷ b) ha hb la lb h = absurd (omega arith)
copy_into_inj (suc n) [] (y ∷ b) ha hb la lb h =
    absurd (omega (arith, ap {B = ℕ} (λ t. elim t [ [] ↦ 0 | c ∷ cs ↦ c ]) h))
copy_into_inj (suc n) (x ∷ a) [] ha hb la lb h =
    absurd (omega (arith, ap {B = ℕ} (λ t. elim t [ [] ↦ 0 | c ∷ cs ↦ c ]) h))
copy_into_inj (suc n) (x ∷ a) (y ∷ b) ha hb la lb h =
    cc (copy_into_inj n a b ha.1 hb.1 (omega arith) (omega arith) (ap (drop 1) h), h)

copied_inj :
    (m n : ℕ) → m ≤ 4094 → n ≤ 4094 → copy_into 9 (print_nat m) ≡ copy_into 9 (print_nat n) → m ≡ n
copied_inj m n hm hn h = print_nat_inj m n (
    copy_into_inj 9 (print_nat m) (print_nat n) (print_nat-All m) (print_nat-All n)
      (omega (arith, length-print_nat 3 m (omega arith)))
      (omega (arith, length-print_nat 3 n (omega arith))) h)

text_eq-copy_into :
    (m n : ℕ)
    → m ≤ 4094
    → n ≤ 4094
    → text_eq (copy_into 9 (print_nat m)) (copy_into 9 (print_nat n)) ≡ (m == n)
text_eq-copy_into m n hm hn = elim (Bool-cases (m == n)) [
  | inl same ↦ rw ((==_iff m n).0 same) (text_eq_refl (copy_into 9 (print_nat n)) ∙ ground arith)
  | inr other ↦
      elim (Bool-cases (text_eq (copy_into 9 (print_nat m)) (copy_into 9 (print_nat n)))) [
        | inl eq ↦ absurd (ground (arith, copied_inj m n hm hn ((text_eq_iff _ _).0 eq)))
        | inr ne ↦ ne ∙ sym other
      ]
]

unfoldable pub zeros : ℕ → Text
zeros zero = []
zeros (suc n) = 0 ∷ zeros n

copy_into-fill :
    (n : ℕ) (name : Text) → length name ≤ n → copy_into n name ≡ name ++ zeros (n - length name)
unfolding copy_into zeros
copy_into-fill zero [] h = refl
copy_into-fill (suc n) [] h =
    let shift : suc n - 0 ≡ suc (n - 0) = omega arith in
    rw shift (ap (λ t. 0 ∷ t) (copy_into-fill n [] (omega arith)))
copy_into-fill zero (c ∷ cs) h = absurd (omega arith)
copy_into-fill (suc n) (c ∷ cs) h =
    let shift : suc n - length (c ∷ cs) ≡ n - length cs = omega arith in
    rw shift (ap (λ t. c ∷ t) (copy_into-fill n cs (omega arith)))

pub differ-names :
    (i j : ℤ)
    → IsVlanId i
    → IsVlanId j
    → text_eq (ifname (bridge_name i)) (ifname (bridge_name j)) ≡ int_eq i j
unfolding ifname bridge_name copy_into text_eq int_eq print_int
differ-names (pos m) (pos n) hi hj = text_eq-copy_into m n hi hj
differ-names (pos m) (negsuc n) hi hj = absurd hj
differ-names (negsuc m) j hi hj = absurd hi

-- A name of at most fifteen bytes stands in the sixteen bytes of an interface name as it is, with zeros behind it,
-- one at least; and bridges of different VLAN IDs up to 4094 have different names there.
pub ifname-bridge_name_inj :
    (name : Text) (i j : ℤ)
    → length name ≤ 15
    → IsVlanId i
    → IsVlanId j
    → (ifname name ≡ name ++ zeros (16 - length name))
      × (text_eq (ifname (bridge_name i)) (ifname (bridge_name j)) ≡ int_eq i j)
unfolding ifname
ifname-bridge_name_inj name i j short hi hj =
    (copy_into-fill 16 name (omega arith), differ-names i j hi hj)
