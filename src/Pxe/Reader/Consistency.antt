-- ===== src/Pxe/Reader/Consistency.antt =====
-- The table of active transfers of pkg/pxe/pxe.go, and the transfers that run.
use gokrazy_router.Prelude.{
  ℕ, ◌-◌, ◌≤◌, ◌≡◌, refl, sym, ◌∙◌, inl, inr, false, Option, none, some, List, [], ◌∷◌, ◌++◌, arith,
  ◌==◌, if◌then◌else◌, ==_iff, Bool-cases, Option-cases, Text, text_eq, text_eq_iff, text_eq_refl,
  is_empty, Dict, lookup, lookup-insert, lookup-erase,
}
use gokrazy_router.Pxe.Request.{parse_rrq}
use gokrazy_router.Pxe.Transfer.{Ready, set_ready}
use gokrazy_router.Pxe.Reader.{
  Table, new_table, new_transfer, started, key_of, admit, requested_name, read_packet, leave,
  update, count_key, Event, packet, first_block, ended, end_transfer, step, run,
}

abbrev pub entries : Option Ready → ℕ
entries none = 0
entries (some r) = 1

-- as many calls run for a key as the table has entries for it
abbrev pub IsConsistent : Table → Type 0
IsConsistent t = (key : Text) → count_key key t.running ≡ entries (lookup key t.active)

count_key-leave :
    (key k : Text) (ks : List Text)
    → count_key k (leave key ks) ≡ (if text_eq key k then count_key k ks - 1 else count_key k ks)
unfolding count_key leave
count_key-leave key k [] = ground arith
count_key-leave key k (j ∷ js) =
    ground (arith, count_key-leave key k js, text_eq_iff key k, text_eq_iff j k, text_eq_iff j key)

admit-IsConsistent :
    (key filename : Text) (opts : Dict Text) (t : Table)
    → IsConsistent t
    → IsConsistent (admit key filename opts t).1
unfolding admit count_key
admit-IsConsistent key filename opts t ok k = elim (Option-cases (lookup key t.active)) [
  | inr (r, e) ↦ ground (arith, e, ok k)
  | inl e ↦
      ground (arith, e, ok k, ok key, lookup-insert key k new_transfer t.active, text_eq_iff key k)
]

update-entries :
    (key k : Text) (f : Ready → Ready) (m : Dict Ready)
    → entries (lookup k (update key f m)) ≡ entries (lookup k m)
update-entries key k f m = elim (Option-cases (lookup key m)) [
  | inl e ↦ ground (arith, e)
  | inr (r, e) ↦ ground (arith, e, lookup-insert key k (f r) m, text_eq_iff key k)
]

read_packet-IsConsistent :
    (client : Text) (pkt : List ℕ) (t : Table)
    → IsConsistent t
    → IsConsistent (read_packet client pkt t).1
unfolding read_packet
read_packet-IsConsistent client (hi ∷ lo ∷ rest) t ok = λ k.
    let pkt = hi ∷ lo ∷ rest in
    let name = requested_name pkt in
    ground (arith, ok k, admit-IsConsistent (key_of client name) name (parse_rrq pkt).opts t ok k)
read_packet-IsConsistent client (hi ∷ []) t ok = ok
read_packet-IsConsistent client [] t ok = ok

end_transfer-IsConsistent :
    (key : Text) (t : Table) → IsConsistent t → IsConsistent (end_transfer key t)
unfolding end_transfer
end_transfer-IsConsistent key t ok k = ground (
  arith,
  ok k,
  ok key,
  count_key-leave key k t.running,
  lookup-erase key k t.active,
  text_eq_iff key k,
)

step-IsConsistent : (e : Event) (t : Table) → IsConsistent t → IsConsistent (step e t)
unfolding step
step-IsConsistent (packet client pkt) t ok = read_packet-IsConsistent client pkt t ok
step-IsConsistent (first_block key block) t ok =
    λ k. ok k ∙ sym (update-entries key k (set_ready block) t.active)
step-IsConsistent (ended key) t ok = end_transfer-IsConsistent key t ok

pub run-IsConsistent : (es : List Event) (t : Table) → IsConsistent t → IsConsistent (run es t)
unfolding run
run-IsConsistent [] t ok = ok
run-IsConsistent (e ∷ es) t ok = run-IsConsistent es (step e t) (step-IsConsistent e t ok)

pub new_table-IsConsistent : IsConsistent new_table
unfolding count_key lookup
new_table-IsConsistent key = refl

-- After any events, at most one transfer runs for a client and a file, and one runs exactly where the
-- table has an entry.
pub run_unique :
    (es : List Event) (key : Text)
    → (count_key key (run es new_table).running ≤ 1)
      × (count_key key (run es new_table).running ≡ entries (lookup key (run es new_table).active))
run_unique es key =
    let ok = run-IsConsistent es new_table new_table-IsConsistent key in
    (
      elim (Option-cases (lookup key (run es new_table).active)) [
        | inl e ↦ ground (arith, ok, e)
        | inr (r, e) ↦ ground (arith, ok, e)
      ],
      ok,
    )

entries-le-one : (o : Option Ready) → entries o ≤ 1
entries-le-one none = omega arith
entries-le-one (some r) = omega arith

no_entry : (o : Option Ready) → entries o ≡ 0 → o ≡ none
no_entry none h = refl
no_entry (some r) h = absurd (omega (arith, h))

pub count_key-end_transfer :
    (key : Text) (t : Table) → IsConsistent t → count_key key (end_transfer key t).running ≡ 0
unfolding end_transfer
count_key-end_transfer key t ok = ground (
  arith,
  ok key,
  entries-le-one (lookup key t.active),
  count_key-leave key key t.running,
  text_eq_refl key,
)

pub active-end_transfer :
    (key : Text) (t : Table) → IsConsistent t → lookup key (end_transfer key t).active ≡ none
unfolding end_transfer
active-end_transfer key t ok = elim (Bool-cases (count_key key t.running == 0)) [
  | inl e ↦
      rw e
        (no_entry (lookup key t.active) (sym (ok key) ∙ (==_iff (count_key key t.running) 0).0 e))
  | inr e ↦ rw e (rw (lookup-erase key key t.active) (ground (arith, text_eq_refl key)))
]

run-append : (es fs : List Event) (t : Table) → run (es ++ fs) t ≡ run fs (run es t)
unfolding run
run-append [] fs t = refl
run-append (e ∷ es) fs t = run-append es fs (step e t)

admit-started :
    (key filename : Text) (opts : Dict Text) (t : Table)
    → lookup key t.active ≡ none
    → count_key key t.running ≡ 0
    → ((admit key filename opts t).0 ≡ started key filename opts)
      × (count_key key (admit key filename opts t).1.running ≡ 1)
unfolding admit count_key
admit-started key filename opts t free idle =
    (ground (arith, free), ground (arith, free, idle, text_eq_refl key))

-- a request for a file that no transfer sends to this client starts one
read_packet-started :
    (t : Table) (client : Text) (rest : List ℕ)
    → let pkt = 0 ∷ 1 ∷ rest in
      let name = requested_name pkt in
      let key = key_of client name in
      let result = read_packet client pkt t in
      IsConsistent t
      → is_empty name ≡ false
      → count_key key t.running ≡ 0
      → (result.0 ≡ started key name (parse_rrq pkt).opts) × (count_key key result.1.running ≡ 1)
unfolding read_packet
read_packet-started t client rest ok some_name idle =
    let name = requested_name (0 ∷ 1 ∷ rest) in
    let key = key_of client name in
    let free = no_entry (lookup key t.active) (sym (ok key) ∙ idle) in
    rw (some_name) (admit-started key name (parse_rrq (0 ∷ 1 ∷ rest)).opts t free idle)

-- Liveness: whatever packets were read and transfers begun and ended before, a request for a file name
-- that is not empty starts a transfer once the one for the same client and file has ended.
pub read_packet-restarts :
    (es : List Event) (client : Text) (rest : List ℕ)
    → let pkt = 0 ∷ 1 ∷ rest in
      let name = requested_name pkt in
      let key = key_of client name in
      let result = read_packet client pkt (run (es ++ ended key ∷ []) new_table) in
      is_empty name ≡ false
      → (result.0 ≡ started key name (parse_rrq pkt).opts) × (count_key key result.1.running ≡ 1)
unfolding run step
read_packet-restarts es client rest some_name =
    let key = key_of client (requested_name (0 ∷ 1 ∷ rest)) in
    let before = run es new_table in
    let ok = run-IsConsistent es new_table new_table-IsConsistent in
    rw (run-append es (ended key ∷ []) new_table) (
      read_packet-started (end_transfer key before) client rest
        (end_transfer-IsConsistent key before ok) some_name (count_key-end_transfer key before ok))
