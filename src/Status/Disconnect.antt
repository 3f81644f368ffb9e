-- ===== src/Status/Disconnect.antt =====
-- The traffic counters of a client that disconnects, in pkg/status/status.go.
use gokrazy_router.Prelude.{
  ℕ, ◌≡◌, refl, ◌∙◌, inl, inr, true, false, none, some, List, [], ◌∷◌, ◌++◌, arith, Bool-cases, All,
  Text, codes, text_eq, text_eq_iff, text_eq_refl, is_empty, Dict, lookup, insert, lookup_or,
  lookup-insert,
}
use gokrazy_router.Net.{Ip, to4}
use gokrazy_router.Status.State.{Counter, Rule, del_rule, ClientEntry, Monitor, add64}
use gokrazy_router.Status.Sample.{
  extract_ip, put_counters, gather, live_counters, client_info, no_counter,
}
use gokrazy_router.Status.Track.{
  add_counters, read_and_delete, read_and_delete_rules, remove_client, disconnected,
}
use gokrazy_router.Status.Accounts.{extract_ip-append}

-- no rule of the list counts for the IP
abbrev pub Others : Text → Text → List Rule → Type 0
Others suffix ip rs = All (λ r. text_eq (extract_ip r.user_data suffix) ip ≡ false) rs

lookup-put_counters :
    (ip key : Text) (cs : List Counter) (out : Dict Counter)
    → text_eq ip key ≡ false
    → lookup key (put_counters insert ip cs out) ≡ lookup key out
unfolding put_counters
lookup-put_counters ip key [] out h = refl
lookup-put_counters ip key (c ∷ cs) out h =
    lookup-put_counters ip key cs (insert ip c out) h ∙ rw (lookup-insert ip key c out, h)

lookup-gather :
    (suffix key : Text) (rs : List Rule) (out : Dict Counter)
    → Others suffix key rs
    → lookup key (gather insert suffix rs out) ≡ lookup key out
unfolding gather
lookup-gather suffix key [] out h = refl
lookup-gather suffix key (r ∷ rs) out h =
    let ip = extract_ip r.user_data suffix in
    lookup-gather suffix key rs _ h.1 ∙ elim (Bool-cases (is_empty ip)) [
      | inl e ↦ rw e
      | inr e ↦ rw e (lookup-put_counters ip key r.counters out h.0)
    ]

gather-append :
    (suffix : Text) (xs ys : List Rule) (out : Dict Counter)
    → gather insert suffix (xs ++ ys) out ≡ gather insert suffix ys (gather insert suffix xs out)
unfolding gather
gather-append suffix [] ys out = refl
gather-append suffix (x ∷ xs) ys out = gather-append suffix xs ys _

-- the rule that `AddClient` makes, with its counter
abbrev pub counting : Text → Text → Counter → Rule
counting key suffix c = record { user_data = key ++ suffix; counters = c ∷ [] }

live-counting :
    (suffix key : Text) (before after : List Rule) (c : Counter)
    → is_empty key ≡ false
    → Others suffix key after
    → lookup_or key no_counter (live_counters suffix (before ++ counting key suffix c ∷ after)) ≡ c
unfolding gather put_counters
live-counting suffix key before after c ne h =
    let start = gather insert suffix before [] in
    let found : lookup key (live_counters suffix (before ++ counting key suffix c ∷ after))
        ≡ some c =
      rw
        (
          gather-append suffix before (counting key suffix c ∷ after) [],
          gather,
          extract_ip-append key suffix,
          ne,
        )
        (lookup-gather suffix key after (insert key c start) h
          ∙ rw (lookup-insert key key c start, text_eq_refl key)) in
    rw (lookup_or, found)

live-Others :
    (suffix key : Text) (before after : List Rule)
    → Others suffix key before
    → Others suffix key after
    → lookup_or key no_counter (live_counters suffix (before ++ after)) ≡ no_counter
live-Others suffix key before after hb ha =
    let found : lookup key (live_counters suffix (before ++ after)) ≡ none =
      rw (gather-append suffix before after []) (
        lookup-gather suffix key after _ ha
        ∙ lookup-gather suffix key before [] hb
        ∙ unfold lookup in refl) in
    rw (lookup_or, found)

read_and_delete-Others :
    (suffix key : Text) (sum : Counter) (rs : List Rule)
    → Others suffix key rs
    → read_and_delete (key ++ suffix) sum rs ≡ (sum, [])
unfolding read_and_delete
read_and_delete-Others suffix key sum [] h = refl
read_and_delete-Others suffix key sum (r ∷ rs) h =
    elim (Bool-cases (text_eq r.user_data (key ++ suffix))) [
      | inr f ↦ rw f (read_and_delete-Others suffix key sum rs h.1)
      | inl t ↦
          let same = (text_eq_iff r.user_data (key ++ suffix)).0 t in
          let e : extract_ip r.user_data suffix ≡ key = rw same (extract_ip-append key suffix) in
          absurd (ground (arith, e, h.0, text_eq_refl key))
    ]

read_and_delete-counting :
    (suffix key : Text) (before after : List Rule) (c sum : Counter)
    → Others suffix key before
    → Others suffix key after
    → read_and_delete (key ++ suffix) sum (before ++ counting key suffix c ∷ after)
      ≡ (add_counters sum (c ∷ []), del_rule (counting key suffix c) ∷ [])
unfolding read_and_delete
read_and_delete-counting suffix key [] after c sum hb ha = rw (
  text_eq_refl (key ++ suffix),
  read_and_delete-Others suffix key (add_counters sum (c ∷ [])) after ha,
)
read_and_delete-counting suffix key (r ∷ before) after c sum hb ha =
    elim (Bool-cases (text_eq r.user_data (key ++ suffix))) [
      | inr f ↦ rw f (read_and_delete-counting suffix key before after c sum hb.1 ha)
      | inl t ↦
          let same = (text_eq_iff r.user_data (key ++ suffix)).0 t in
          let e : extract_ip r.user_data suffix ≡ key = rw same (extract_ip-append key suffix) in
          absurd (ground (arith, e, hb.0, text_eq_refl key))
    ]

add64_history : (hist n : ℕ) → add64 (add64 hist (add64 0 n)) 0 ≡ add64 hist n
add64_history hist n = omega arith

module _ (ip_string : Ip → Text) where
  remove_client-counting :
      (now : ℕ) (ip : Ip) (m : Monitor) (e : ClientEntry) (rx tx : Counter)
      (rb ra tb ta : List Rule)
      → lookup (ip_string (to4 ip)) m.clients ≡ some e
      → e.connected ≡ true
      → Others (codes "/rx") (ip_string (to4 ip)) rb
      → Others (codes "/rx") (ip_string (to4 ip)) ra
      → Others (codes "/tx") (ip_string (to4 ip)) tb
      → Others (codes "/tx") (ip_string (to4 ip)) ta
      → let key = ip_string (to4 ip) in
        let rx_rule = counting key (codes "/rx") rx in
        let tx_rule = counting key (codes "/tx") tx in
        remove_client ip_string now true
          (some (rb ++ rx_rule ∷ ra))
          (some (tb ++ tx_rule ∷ ta))
          ip
          m
        ≡ (
          record m {
            clients =
                insert key
                  (disconnected ip_string now
                    (add_counters no_counter (rx ∷ []))
                    (add_counters no_counter (tx ∷ []))
                    e)
                  m.clients;
          },
          del_rule rx_rule ∷ del_rule tx_rule ∷ [],
          true,
        )
  unfolding remove_client insert to4 read_and_delete_rules text_eq
  remove_client-counting now ip m e rx tx rb ra tb ta h c hrb hra htb hta =
      let key = ip_string (to4 ip) in
      rw (
        remove_client,
        h,
        c,
        read_and_delete_rules,
        read_and_delete-counting (codes "/rx") key rb ra rx no_counter hrb hra,
        read_and_delete-counting (codes "/tx") key tb ta tx no_counter htb hta,
      )

  -- A disconnect neither loses nor counts twice: where each chain has one rule for a connected client,
  -- `RemoveClient` asks for the deletion of these two rules, and without them `GetStatus` reports the
  -- totals that it reported before, for the same MAC, as of a disconnected client with no upload running.
  pub remove_client_lem :
      (now : ℕ) (ip : Ip) (m : Monitor) (e : ClientEntry) (rx tx : Counter)
      (rx_before rx_after tx_before tx_after : List Rule)
      → is_empty (ip_string (to4 ip)) ≡ false
      → lookup (ip_string (to4 ip)) m.clients ≡ some e
      → e.connected ≡ true
      → Others (codes "/rx") (ip_string (to4 ip)) rx_before
      → Others (codes "/rx") (ip_string (to4 ip)) rx_after
      → Others (codes "/tx") (ip_string (to4 ip)) tx_before
      → Others (codes "/tx") (ip_string (to4 ip)) tx_after
      → let key = ip_string (to4 ip) in
        let rx_rule = counting key (codes "/rx") rx in
        let tx_rule = counting key (codes "/tx") tx in
        let r =
          remove_client ip_string now true
            (some (rx_before ++ rx_rule ∷ rx_after))
            (some (tx_before ++ tx_rule ∷ tx_after))
            ip
            m in
        let was =
          client_info m
            (live_counters (codes "/rx") (rx_before ++ rx_rule ∷ rx_after))
            (live_counters (codes "/tx") (tx_before ++ tx_rule ∷ tx_after))
            key
            e in
        (r.1 ≡ del_rule rx_rule ∷ del_rule tx_rule ∷ [])
        × ((later : ClientEntry) × (lookup key r.0.clients ≡ some later)
            × (let now_is =
                  client_info r.0
                    (live_counters (codes "/rx") (rx_before ++ rx_after))
                    (live_counters (codes "/tx") (tx_before ++ tx_after))
                    key
                    later in
                (now_is.total_rx_bytes ≡ was.total_rx_bytes)
                × (now_is.total_tx_bytes ≡ was.total_tx_bytes)
                × (now_is.total_rx_pkts ≡ was.total_rx_pkts)
                × (now_is.total_tx_pkts ≡ was.total_tx_pkts)
                × (now_is.mac ≡ e.mac)
                × (now_is.rx_bytes ≡ 0)
                × (now_is.connected ≡ false)))
  unfolding client_info add_counters
  remove_client_lem now ip m e rx tx rb ra tb ta ne h c hrb hra htb hta =
      let key = ip_string (to4 ip) in
      let gone =
        disconnected ip_string now (add_counters no_counter (rx ∷ []))
          (add_counters no_counter (tx ∷ [])) e in
      rw (remove_client-counting now ip m e rx tx rb ra tb ta h c hrb hra htb hta) (
        refl,
        (
          gone,
          lookup-insert key key gone m.clients ∙ rw (text_eq_refl key),
          rw
              (
                live-counting (codes "/rx") key rb ra rx ne hra,
                live-counting (codes "/tx") key tb ta tx ne hta,
                live-Others (codes "/rx") key rb ra hrb hra,
                live-Others (codes "/tx") key tb ta htb hta,
              )
              (
                add64_history _ _,
                add64_history _ _,
                add64_history _ _,
                add64_history _ _,
                refl,
                refl,
                refl,
              ),
        ),
      )
