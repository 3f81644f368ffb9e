-- ===== src/Nat.antt =====
-- pkg/nat/nat.go: the nftables rules for masquerading and for the isolation of VLANs. A call of the
-- nftables library adds a message to a batch, which `Flush` sends; `Flush` and the lookup of an
-- interface are parameters, which act on a world of their own.
pub mod Names
pub mod Isolation
use gokrazy_router.Prelude.{ℕ, zero, suc, Option, none, some, List, [], ◌∷◌, ◌++◌, Text, codes}
use gokrazy_router.Prelude.Action.{Action, Outcome, failed, done, and_then, ◌>>=◌, return}
use gokrazy_router.Net.{Ip, IpNet, to4}

-- `ifname`: sixteen bytes, cut or filled up with zeros
unfoldable pub copy_into : ℕ → Text → Text
copy_into zero name = []
copy_into (suc n) [] = 0 ∷ copy_into n []
copy_into (suc n) (c ∷ cs) = c ∷ copy_into n cs

unfoldable pub ifname : Text → Text
unfolding copy_into
ifname name = copy_into 16 name

pub data MetaKey : Type 0 where
  iifname oifname : MetaKey

-- the expressions of a rule, which all use register 1; `cmp` is a test for equality
pub data Expr : Type 0 where
  payload : ℕ → ℕ → Expr
  bitwise : ℕ → List ℕ → List ℕ → Expr
  cmp : List ℕ → Expr
  load_meta : MetaKey → Expr
  masq verdict_drop : Expr

pub data Hook : Type 0 where
  nat_postrouting filter_forward : Hook

pub record Chain : Type 0 where
  pub name : Text
  pub table : Text
  pub hook : Hook

-- what a batch has to send
pub data Message : Type 0 where
  add_table : Text → Message
  add_chain : Chain → Message
  add_rule : Chain → List Expr → Message
  del_table : Text → Message

-- `Manager`
pub record Manager : Type 0 where
  pub table : Text
  pub chain : Chain
  pub fwd_chain : Option Chain
  pub out_iface : Text

abbrev pub table_name : Text
table_name = codes "gokrazy_nat"

abbrev pub postrouting : Chain
postrouting = record { name = codes "postrouting"; table = table_name; hook = nat_postrouting }

-- the expressions that `Setup` and `AddSource` write
unfoldable pub masquerade : Text → IpNet → List Expr
masquerade out_iface src_net =
    payload 12 4
    ∷ bitwise 4 src_net.mask (0 ∷ 0 ∷ 0 ∷ 0 ∷ [])
    ∷ cmp (to4 src_net.ip)
    ∷ load_meta oifname
    ∷ cmp (ifname out_iface)
    ∷ masq
    ∷ []

-- drops what is forwarded from one interface to another
unfoldable pub drop_rule : Text → Text → List Expr
drop_rule from to =
    load_meta iifname ∷ cmp (ifname from) ∷ load_meta oifname ∷ cmp (ifname to) ∷ verdict_drop ∷ []

-- the loop of `AddIsolation`
unfoldable pub isolation_rules : Chain → Text → List Text → List Message
unfolding drop_rule
isolation_rules chain isolated [] = []
isolation_rules chain isolated (other ∷ others) =
    add_rule chain (drop_rule isolated other)
    ∷ add_rule chain (drop_rule other isolated)
    ∷ isolation_rules chain isolated others

abbrev pub forward_chain : Manager → Chain
forward_chain m = record { name = codes "forward"; table = m.table; hook = filter_forward }

-- the forward chain, and the message that adds it the first time
unfoldable pub ensure_chain : Manager → Chain × List Message
ensure_chain m = elim m.fwd_chain [
  | some chain ↦ (chain, [])
  | none ↦ (forward_chain m, add_chain (forward_chain m) ∷ [])
]

module _ {World : Type 0} (flush : List Message → Action World (Unit {0})) where
  -- `Setup`
  unfoldable pub setup : (Text → Action World ℕ) → Text → IpNet → Action World Manager
  unfolding masquerade
  setup interface_by_name out_iface src_net = do
    _ ← interface_by_name out_iface
    _ ← flush (
        add_table table_name
        ∷ add_chain postrouting
        ∷ add_rule postrouting (masquerade out_iface src_net)
        ∷ [])
    return (record {
      table = table_name;
      chain = postrouting;
      fwd_chain = none;
      out_iface = out_iface;
    })

  -- `AddSource`
  unfoldable pub add_source : Manager → IpNet → Action World (Unit {0})
  unfolding masquerade
  add_source m src_net = flush (add_rule m.chain (masquerade m.out_iface src_net) ∷ [])

  -- `AddIsolation`, with the manager after it: the chain is kept also when the batch fails
  unfoldable pub add_isolation :
      Manager → Text → List Text → World → Manager × Outcome (Unit {0}) × World
  unfolding isolation_rules ensure_chain
  add_isolation m isolated others w =
      let chain = (ensure_chain m).0 in
      let batch = (ensure_chain m).1 ++ isolation_rules chain isolated others in
      let sent = flush batch w in (record m { fwd_chain = some chain }, sent.0, sent.1)

  -- `Cleanup`; an error is only logged
  unfoldable pub cleanup : Option Manager → World → World
  cleanup none w = w
  cleanup (some m) w = (flush (del_table m.table ∷ []) w).1
