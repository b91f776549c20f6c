-- ===== src/Conversation.antt =====
-- The conversations of a peer link (node/src/conversation.rs): a link's table of open conversations,
-- what each end's calls do to it, and where the reader puts a frame. The tasks and channels around
-- the table are not modelled: a queue is the items that the reader is told to put in it.
pub mod Header
pub mod Bounds
pub mod Steps
pub mod Reach
pub mod Once
use glade.Prelude.{
  ℕ, zero, suc, ◌+◌, ◌*◌, ◌/◌, ◌%◌, ◌^◌, Bool, true, false, not, ◌&&◌, ◌||◌, Option, none, some,
  List, [], ◌∷◌, ◌++◌, Bytes, ◌==◌, nat_eq, if◌then◌else◌, ltb, leb, Result, ok, err,
}
use glade.Prelude.BTreeMap.{BTreeMap, get, insert, remove}
use glade.Prelude.Order.{nat_ord}

abbrev pub frame_kind : ℕ
frame_kind = 0

abbrev pub end_kind : ℕ
end_kind = 1

abbrev pub reset_kind : ℕ
reset_kind = 2

-- How many conversations the peer may hold open at once.
abbrev pub peer_open : ℕ
peer_open = 100

pub data Item : Type 0 where
  frame : Bytes → Item
  ended : Item

pub data Out : Type 0 where
  send : Bytes → Out
  close : Out

-- Whether the peer may still send, and whether this end has sent its END.
pub record Route : Type 0 where
  pub tx : Bool
  pub done : Bool

pub record Table : Type 0 where
  pub next : ℕ
  pub peer_high : ℕ
  pub routes : BTreeMap ℕ Route
  pub over : Bool

-- A link: its table, what the writer is given, and whether the writer still takes it.
pub record Linked : Type 0 where
  pub table : Table
  pub out : List Out
  pub writing : Bool

-- What the reader does with a frame.
pub data Routed : Type 0 where
  deliver : ℕ → Item → Routed
  opened : ℕ → Item → Routed
  dropped : Routed

pub data Number : Type 0 where
  unsent : Number
  sent : ℕ → Number

pub data Failed : Type 0 where
  gone spent : Failed

unfoldable pub start : Bool → Linked
start dialed = record {
  table = record { next = if dialed then 1 else 2; peer_high = 0; routes = []; over = false };
  out = [];
  writing = true;
}

-- id.to_le_bytes()
unfoldable pub le_bytes : ℕ → Bytes
le_bytes id = id % 256 ∷ id / 256 % 256 ∷ id / 65536 % 256 ∷ id / 16777216 % 256 ∷ []

-- A header alone.
unfoldable pub marker : ℕ → ℕ → Bytes
marker id kind = le_bytes id ++ kind ∷ []

-- A frame's number, kind and body; none for one too short, or of a kind that no end sends.
unfoldable pub header : Bytes → Option (ℕ × ℕ × Bytes)
header (a ∷ b ∷ c ∷ d ∷ kind ∷ body) =
    if leb kind reset_kind then some (a + b * 256 + c * 65536 + d * 16777216, kind, body) else none
header _ = none

unfoldable pub send_out : Out → Linked → Linked
send_out o l = if l.writing then record l { out = l.out ++ o ∷ [] } else l

abbrev pub with_table : Table → Linked → Linked
with_table t l = record l { table = t }

-- The frame goes out, unless the writer has stopped.
unfoldable pub queue : ℕ → ℕ → Bytes → Linked → Result Failed ℕ × Linked
queue id kind body l =
    if l.writing
    then (ok id, send_out (Out.send (le_bytes id ++ kind ∷ body)) l)
    else (err Failed.gone, l)

-- A conversation with no number takes this end's next, if `u32` holds the one after.
unfoldable pub put : Number → ℕ → Bytes → Linked → Result Failed ℕ × Linked
put number kind body l = if l.table.over then (err Failed.gone, l) else (elim number [
  | Number.sent id ↦ queue id kind body l
  | Number.unsent ↦
      if ltb (l.table.next + 2) (2 ^ 32)
      then queue l.table.next kind body (
          with_table
            (record l.table {
              next = l.table.next + 2;
              routes = insert l.table.next (record { tx = true; done = false }) l.table.routes;
            })
            l)
      else (err Failed.spent, l)
])

-- This end is done with a conversation.
unfoldable pub forget : ℕ → ℕ → Table → Table
forget id kind t = elim (get id t.routes) [
  | none ↦ t
  | some route ↦
      if kind == reset_kind || not route.tx
      then record t { routes = remove id t.routes }
      else record t { routes = insert id (record { tx = route.tx; done = true }) t.routes }
]

unfoldable pub finish : Number → ℕ → Linked → Linked
finish Number.unsent kind l = l
finish (Number.sent id) kind l =
    let told = if l.table.over then l else send_out (Out.send (marker id kind)) l in
    with_table (forget id kind l.table) told

-- The link has ended: every open conversation is let go.
unfoldable pub link_ended : Linked → Linked
link_ended l = send_out Out.close (with_table (record l.table { routes = []; over = true }) l)

unfoldable pub end : Linked → Linked
end l = send_out Out.close (with_table (record l.table { over = true }) l)

-- How many of the open conversations have numbers of a parity.
unfoldable pub held : ℕ → BTreeMap ℕ Route → ℕ
held peers [] = 0
held peers ((id, route) ∷ routes) =
    let rest = held peers routes in if id % 2 == peers then suc rest else rest

-- The peer's frame for an open conversation.
unfoldable pub route_open : ℕ → ℕ → Bytes → Route → Linked → Routed × Linked
route_open id kind body route l =
    if not route.tx
    then (Routed.dropped, l)
    else if kind == frame_kind
    then (Routed.deliver id (Item.frame body), l)
    else (
      if kind == end_kind then Routed.deliver id Item.ended else Routed.dropped,
      with_table
          (record l.table {
            routes =
                if route.done
                then remove id l.table.routes
                else insert id (record { tx = false; done = false }) l.table.routes;
          })
          l,
    )

-- A number that is not open: the peer's next, or nothing.
unfoldable pub route_new : ℕ → ℕ → Bytes → ℕ → Linked → Routed × Linked
route_new id kind body peers l =
    if not (id % 2 == peers) || leb id l.table.peer_high
    then (Routed.dropped, l)
    else if kind == reset_kind
    then (Routed.dropped, with_table (record l.table { peer_high = id }) l)
    else if leb peer_open (held peers l.table.routes)
    then (
      Routed.dropped,
      send_out (Out.send (marker id reset_kind)) (with_table (record l.table { peer_high = id }) l),
    )
    else (
      Routed.opened id (if kind == frame_kind then Item.frame body else Item.ended),
      with_table
          (record l.table {
            peer_high = id;
            routes = insert id (record { tx = kind == frame_kind; done = false }) l.table.routes;
          })
          l,
    )

unfoldable pub route : ℕ → ℕ → Bytes → ℕ → Linked → Routed × Linked
route id kind body peers l = elim (get id l.table.routes) [
  | some r ↦ route_open id kind body r l
  | none ↦ route_new id kind body peers l
]
