-- ===== src/Status/Accounts.antt =====
-- The accounts of a client in pkg/status/status.go: the tags of the rules, and the history over the
-- sessions.
use gokrazy_router.Prelude.{
  ℕ, ◌-◌, ◌≡◌, refl, ap, ◌∙◌, ◌≢◌, inl, inr, Bool, true, none, some, [], ◌∷◌, ◌++◌, arith,
  Bool-cases, Option-cases, length, take, drop, length-append, take-append-drop, Text, text_eq,
  text_eq_iff, text_eq_refl, Dict, lookup, insert, lookup-insert,
}
use gokrazy_router.Net.{Ip, to4}
use gokrazy_router.Status.State.{ClientEntry, Monitor}
use gokrazy_router.Status.Sample.{extract_ip}
use gokrazy_router.Status.Track.{add_client}

drop-append : (xs ys : Text) → drop (length xs) (xs ++ ys) ≡ ys
drop-append [] ys = refl
drop-append (x ∷ xs) ys = drop-append xs ys

take-append : (xs ys : Text) → take (length xs) (xs ++ ys) ≡ xs
take-append [] ys = refl
take-append (x ∷ xs) ys = ap (◌∷◌ x) (take-append xs ys)

pub extract_ip-append : (ip suffix : Text) → extract_ip (ip ++ suffix) suffix ≡ ip
unfolding extract_ip
extract_ip-append [] suffix = ground arith
extract_ip-append (x ∷ xs) suffix =
    let n : length ((x ∷ xs) ++ suffix) - length suffix ≡ length (x ∷ xs) =
      omega (arith, length-append (x ∷ xs) suffix) in
    rw (n, drop-append (x ∷ xs) suffix, take-append (x ∷ xs) suffix, text_eq_refl suffix)
      (ground (arith, length-append xs suffix))

append-extract_ip : (s suffix : Text) → extract_ip s suffix ≢ [] → s ≡ extract_ip s suffix ++ suffix
unfolding extract_ip
append-extract_ip s suffix h =
    let n = length s - length suffix in
    ground (arith, text_eq_iff (drop n s) suffix, take-append-drop n s)

-- The IP in the tag of a rule reads back, and a text that an IP is read from is the tag of that IP.
pub extract_ip_lem :
    (ip suffix s : Text)
    → (extract_ip (ip ++ suffix) suffix ≡ ip)
      × (extract_ip s suffix ≢ [] → s ≡ extract_ip s suffix ++ suffix)
extract_ip_lem ip suffix s = (extract_ip-append ip suffix, append-extract_ip s suffix)

abbrev history_of : ClientEntry → ℕ × ℕ × ℕ × ℕ
history_of e = (e.hist_tx_bytes, e.hist_rx_bytes, e.hist_tx_pkts, e.hist_rx_pkts)

-- the four historical counters of a client, where an unknown client has none
abbrev pub history : Text → Dict ClientEntry → ℕ × ℕ × ℕ × ℕ
history key clients = elim (lookup key clients) [ none ↦ (0, 0, 0, 0) | some e ↦ history_of e ]

history-insert :
    (k key : Text) (e : ClientEntry) (clients : Dict ClientEntry)
    → history_of e ≡ history k clients
    → history key (insert k e clients) ≡ history key clients
history-insert k key e clients h = elim (Bool-cases (text_eq k key)) [
  | inl t ↦
      let out : history key (insert k e clients) ≡ history_of e =
        rw (history, lookup-insert k key e clients, t) in
      out ∙ h ∙ ap (λ j. history j clients) ((text_eq_iff k key).0 t)
  | inr f ↦ rw (history, lookup-insert k key e clients, f)
]

module _ (ip_string : Ip → Text) where
  -- `AddClient` changes nothing of a connected client, and the history of no client at all.
  pub add_client_lem :
      (now : ℕ) (flush_ok : Bool) (ip : Ip) (mac via key : Text) (m : Monitor)
      → ((e : ClientEntry)
          → lookup (ip_string (to4 ip)) m.clients ≡ some e
          → e.connected ≡ true
          → add_client ip_string now flush_ok ip mac via m ≡ (m, [], true))
        × (history key (add_client ip_string now flush_ok ip mac via m).0.clients
            ≡ history key m.clients)
  unfolding add_client
  add_client_lem now flush_ok ip mac via key m =
      let k = ip_string (to4 ip) in
      (
        λ e h c. ground arith,
        elim (Option-cases (lookup k m.clients)) [
          | inl h ↦ rw (add_client, h) (history-insert k key _ m.clients (rw (history, h)))
          | inr (e, h) ↦ elim (Bool-cases e.connected) [
            | inl c ↦ rw (add_client, h, c)
            | inr c ↦ rw (add_client, h, c) (history-insert k key _ m.clients (rw (history, h)))
          ]
        ],
      )
