-- ===== src/Dhcp/Pool/Cycle.antt =====
-- What the scan of `allocate` in pkg/dhcp/dhcp.go finds, and when it ends.
use gokrazy_router.Prelude.{
  ℕ, zero, suc, ◌+◌, ◌-◌, ◌^◌, ◌≤◌, ◌<◌, ◌≡◌, sym, ap, ◌∙◌, ◌≢◌, ◌⊎◌, inl, inr, Bool, true, false,
  arith, ltb, leb, if◌then◌else◌, Bool-cases,
}
use gokrazy_router.Net.{Ip, ip_equal, inc_ip, ip_greater}
use gokrazy_router.Net.Value.{
  IsIp4, value, value-inc_ip, inc_ip-IsIp4, ip_greater_iff, ip_equal_iff, value-injective,
}
use gokrazy_router.Dhcp.Pool.{Scan, out_of_fuel, full, found, advance, scan}

-- a configured range: two addresses in order, the last below 255.255.255.255
pub record IsRange (range_start range_end : Ip) : Type 0 where
  pub start_ip : IsIp4 range_start
  pub end_ip : IsIp4 range_end
  pub ordered : value range_start ≤ value range_end
  pub below_top : value range_end + 1 < 2 ^ 32

pub record InPool (range_start range_end ip : Ip) : Type 0 where
  pub is_ip : IsIp4 ip
  pub from_start : value range_start ≤ value ip
  pub to_end : value ip ≤ value range_end

-- The circle of numbers from `lo` to `hi`, walked from `start`.
module _ (lo hi start : ℕ) where
  abbrev next_number : ℕ → ℕ
  next_number v = if ltb hi (v + 1) then lo else v + 1

  -- how many numbers are left from `v` on, round the circle, up to `start`
  abbrev left_from : ℕ → ℕ
  left_from v = if ltb v start then start - v else start - lo + (hi + 1 - v)

  -- `w` lies on the way from `start` to `v`
  abbrev IsBehind : ℕ → ℕ → Type 0
  IsBehind v w = if leb start v then (start ≤ w) × (w < v) else (start ≤ w) ⊎ (w < v)

  module _ (start_lo : lo ≤ start) (start_hi : start ≤ hi) where
    left_from-pos : (v : ℕ) → v ≤ hi → 0 < left_from v
    left_from-pos v h = ground arith

    left_from-next :
        (v : ℕ)
        → lo ≤ v
        → v ≤ hi
        → next_number v ≢ start
        → left_from (next_number v) + 1 ≤ left_from v
    left_from-next v l h ne = ground arith

    -- the step adds `v` to what lies behind
    IsBehind-next :
        (v w : ℕ)
        → lo ≤ v
        → v ≤ hi
        → lo ≤ w
        → w ≤ hi
        → next_number v ≢ start
        → IsBehind (next_number v) w
        → (w ≡ v) ⊎ IsBehind v w
    IsBehind-next v w lv hv lw hw ne b = ground arith

    -- back at the start, all lies behind
    IsBehind-all :
        (v w : ℕ)
        → lo ≤ v
        → v ≤ hi
        → lo ≤ w
        → w ≤ hi
        → next_number v ≡ start
        → (w ≡ v) ⊎ IsBehind v w
    IsBehind-all v w lv hv lw hw e = ground arith

    IsBehind-start : (w : ℕ) → ¬ IsBehind start w
    IsBehind-start w b = ground arith

module _ {lo hi : Ip} (range : IsRange lo hi) where
  value-advance :
      (ip : Ip)
      → InPool lo hi ip
      → value (advance lo hi ip)
        ≡ (if ltb (value hi) (value ip + 1) then value lo else value ip + 1)
  unfolding advance
  value-advance ip p = ground (
    arith,
    value-inc_ip ip p.is_ip,
    ip_greater_iff (inc_ip ip) hi (inc_ip-IsIp4 ip p.is_ip) range.end_ip,
  )

  advance-IsIp4 : (ip : Ip) → InPool lo hi ip → IsIp4 (advance lo hi ip)
  unfolding advance
  advance-IsIp4 ip p = elim (Bool-cases (ip_greater (inc_ip ip) hi)) [
    | inl h ↦ rw h range.start_ip
    | inr h ↦ rw h (inc_ip-IsIp4 ip p.is_ip)
  ]

  -- the pool is closed under the step
  pub advance-InPool : (ip : Ip) → InPool lo hi ip → InPool lo hi (advance lo hi ip)
  advance-InPool ip p =
      let e = value-advance ip p in
      record {
        is_ip = advance-IsIp4 ip p;
        from_start = ground (arith, range.ordered, p.from_start);
        to_end = ground (arith, range.ordered);
      }

  module _ (taken : Ip → Bool) (start : Ip) (start_in : InPool lo hi start) where
    abbrev Seen : Ip → Type 0
    Seen ip =
        (x : Ip)
        → InPool lo hi x
        → IsBehind (value lo) (value hi) (value start) (value ip) (value x)
        → taken x ≡ true

    -- what the scan's answer says of the pool
    abbrev pub Answers : Scan → Type 0
    Answers out_of_fuel = ⊥
    Answers full = (x : Ip) → InPool lo hi x → taken x ≡ true
    Answers (found ip) = InPool lo hi ip × (taken ip ≡ false)

    -- one address is known once what lies behind it is, and it is taken itself
    taken_from :
        (ip : Ip)
        → InPool lo hi ip
        → taken ip ≡ true
        → Seen ip
        → (x : Ip) → InPool lo hi x
        → (value x ≡ value ip) ⊎ IsBehind (value lo) (value hi) (value start) (value ip) (value x)
        → taken x ≡ true
    taken_from ip p t seen x q (inl e) = rw (value-injective x ip q.is_ip p.is_ip e) t
    taken_from ip p t seen x q (inr b) = seen x q b

    abbrev number : Ip → ℕ
    number ip = next_number (value lo) (value hi) (value start) (value ip)

    scan-full :
        (ip : Ip)
        → InPool lo hi ip
        → taken ip ≡ true
        → Seen ip
        → number ip ≡ value start
        → (x : Ip) → InPool lo hi x
        → taken x ≡ true
    scan-full ip p t seen e x q = taken_from ip p t seen x q (
        IsBehind-all (value lo) (value hi) (value start) start_in.from_start start_in.to_end
          (value ip) (value x) p.from_start p.to_end q.from_start q.to_end e)

    Seen-advance :
        (ip : Ip)
        → InPool lo hi ip
        → taken ip ≡ true
        → Seen ip
        → number ip ≢ value start
        → Seen (advance lo hi ip)
    Seen-advance ip p t seen ne x q b = taken_from ip p t seen x q (
        IsBehind-next (value lo) (value hi) (value start) start_in.from_start start_in.to_end
          (value ip) (value x) p.from_start p.to_end q.from_start q.to_end ne
          (rw (value-advance ip p) at b))

    advance-ne :
        (ip : Ip)
        → InPool lo hi ip
        → ip_equal (advance lo hi ip) start ≡ false
        → number ip ≢ value start
    advance-ne ip p more e =
        let next = advance lo hi ip in
        let same =
          value-injective next start (advance-IsIp4 ip p) start_in.is_ip (value-advance ip p ∙ e) in
        cc (more, (ip_equal_iff next start (advance-IsIp4 ip p) start_in.is_ip).1 same)

    scan-Answers :
        (fuel : ℕ) (ip : Ip)
        → InPool lo hi ip
        → left_from (value lo) (value hi) (value start) (value ip) ≤ fuel
        → Seen ip
        → Answers (scan fuel taken lo hi start ip)
    unfolding scan
    scan-Answers zero ip p enough seen = absurd (
        omega (
          arith,
          left_from-pos (value lo) (value hi) (value start) start_in.from_start start_in.to_end
              (value ip) p.to_end,
        ))
    scan-Answers (suc fuel) ip p enough seen = elim (Bool-cases (taken ip)) [
      | inr free ↦ rw free (p, free)
      | inl t ↦ elim (Bool-cases (ip_equal (advance lo hi ip) start)) [
        | inl round ↦
            let same = (ip_equal_iff _ _ (advance-IsIp4 ip p) start_in.is_ip).0 round in
            rw (t, round) (scan-full ip p t seen (sym (value-advance ip p) ∙ ap value same))
        | inr more ↦
            let apart = advance-ne ip p more in
            rw (t, more)
              (scan-Answers fuel (advance lo hi ip) (advance-InPool ip p)
                (rw (value-advance ip p) (
                  omega (
                    arith,
                    left_from-next (value lo) (value hi) (value start) start_in.from_start
                        start_in.to_end (value ip) p.from_start p.to_end apart,
                  )))
                (Seen-advance ip p t seen apart))
      ]
    ]

    -- With fuel for each address of an ordered range below the last address of all, the scan from an
    -- address of the pool, `start`, ends. It finds an address of the
    -- pool that is free, or every address of the pool is taken.
    pub scan-start-Answers :
        (fuel : ℕ) → value hi - value lo + 1 ≤ fuel → Answers (scan fuel taken lo hi start start)
    scan-start-Answers fuel enough =
        scan-Answers fuel start start_in
          (ground (arith, range.ordered, start_in.from_start, start_in.to_end))
          (λ x q b. absurd (
            IsBehind-start (value lo) (value hi) (value start) start_in.from_start start_in.to_end
              (value x) b))
