-- ===== src/Edge/Redis/Lifecycle.antt =====
-- packages/plugins/redis/index.ts: `connect`, `start`, `isReady` and `close` of
-- ManagedRedisConnection, beside its commands. What the client reports of itself, `isOpen` and
-- `isReady`, changes by itself; the calls of the client are kept, the newest first. A command calls
-- the client whatever the connection has been told, once its arguments have passed their checks.
use protege_mais.Base.{
  ℕ, ◌≤◌, ◌≡◌, refl, sym, ap, ◌∙◌, inl, inr, Bool, true, false, not, ◌||◌, Option, List, [], ◌∷◌,
  arith, if◌then◌else◌, Bool-cases, default, keep, count, Result, ok, err,
}
use mathlib.Core.Path.{subst}
use protege_mais.Text.{codes}
use protege_mais.Common.Errors.{Foreign, named}

pub data ClientCall : Type 0 where
  connecting closing_down pinging commanding : ClientCall

pub record Connection : Type 0 where
  pub connect_task : Bool
  pub close_task : Bool
  pub closing : Bool
  pub client_open : Bool
  pub client_ready : Bool
  pub calls : List ClientCall

abbrev pub new_connection : Connection
new_connection = record {
  connect_task = false;
  close_task = false;
  closing = false;
  client_open = false;
  client_ready = false;
  calls = [];
}

-- The task that `connect` returns is the one that the first call made.
unfoldable pub connect : Connection → Result Foreign (Unit {0}) × Connection
connect c = if c.closing then (err (named (codes "Error")), c) else (
  ok tt,
  record c {
    connect_task = true;
    calls = if c.connect_task then c.calls else connecting ∷ c.calls;
  },
)

unfoldable pub start : Connection → Connection
unfolding connect
start c = (connect c).1

-- `pong` is what `ping` gives: whether it is PONG, or a rejection.
unfoldable pub is_ready : Option Bool → Connection → Bool × Connection
is_ready pong c =
    if not c.client_ready || c.closing
    then (false, c)
    else (default pong false, record c { calls = pinging ∷ c.calls })

-- A command with arguments that pass: its call of the client.
abbrev pub command : Connection → Connection
command c = record c { calls = commanding ∷ c.calls }

unfoldable pub close_once : Connection → Connection
close_once c = record c {
  closing = true;
  calls = if c.client_open then closing_down ∷ c.calls else c.calls;
}

unfoldable pub close : Connection → Connection
unfolding close_once
close c = if c.close_task then c else record (close_once c) { close_task = true }

-- What happens to a connection.
pub data Event : Type 0 where
  connects starts closes commands : Event
  asks_ready : (pong : Option Bool) → Event
  client_reports : (opened ready : Bool) → Event

abbrev pub happen : Event → Connection → Connection
happen connects c = (connect c).1
happen starts c = start c
happen closes c = close c
happen commands c = command c
happen (asks_ready pong) c = (is_ready pong c).1
happen (client_reports opened ready) c = record c { client_open = opened; client_ready = ready }

abbrev pub history : List Event → Connection → Connection
history [] c = c
history (e ∷ events) c = history events (happen e c)

abbrev is_connecting : ClientCall → Bool
is_connecting connecting = true
is_connecting closing_down = false
is_connecting pinging = false
is_connecting commanding = false

abbrev is_closing_down : ClientCall → Bool
is_closing_down connecting = false
is_closing_down closing_down = true
is_closing_down pinging = false
is_closing_down commanding = false

abbrev is_own : ClientCall → Bool
is_own connecting = true
is_own closing_down = true
is_own pinging = true
is_own commanding = false

abbrev pub connections : List ClientCall → ℕ
connections = count is_connecting

abbrev pub closings : List ClientCall → ℕ
closings = count is_closing_down

-- The calls that are no command's.
abbrev pub own_calls : List ClientCall → List ClientCall
own_calls = keep is_own

-- The tasks and the calls belong together.
pub record Tidy (c : Connection) : Type 0 where
  pub connected_once : connections c.calls ≡ (if c.connect_task then 1 else 0)
  pub closed_once : closings c.calls ≤ (if c.close_task then 1 else 0)
  pub shut : c.closing ≡ c.close_task

happen-Tidy : (e : Event) (c : Connection) → Tidy c → Tidy (happen e c)
unfolding connect start close close_once is_ready
happen-Tidy connects c t = record {
  connected_once = ground (arith, t.connected_once);
  closed_once = ground (arith, t.closed_once);
  shut = ground (arith, t.shut);
}
happen-Tidy starts c t = record {
  connected_once = ground (arith, t.connected_once);
  closed_once = ground (arith, t.closed_once);
  shut = ground (arith, t.shut);
}
happen-Tidy closes c t = record {
  connected_once = ground (arith, t.connected_once);
  closed_once = ground (arith, t.closed_once);
  shut = ground (arith, t.shut);
}
happen-Tidy commands c t = record {
  connected_once = t.connected_once;
  closed_once = t.closed_once;
  shut = t.shut;
}
happen-Tidy (asks_ready pong) c t = record {
  connected_once = ground (arith, t.connected_once);
  closed_once = ground (arith, t.closed_once);
  shut = ground (arith, t.shut);
}
happen-Tidy (client_reports opened ready) c t = record {
  connected_once = t.connected_once;
  closed_once = t.closed_once;
  shut = t.shut;
}

pub history-Tidy : (events : List Event) (c : Connection) → Tidy c → Tidy (history events c)
history-Tidy [] c t = t
history-Tidy (e ∷ events) c t = history-Tidy events (happen e c) (happen-Tidy e c t)

connect_closed : (c : Connection) → c.closing ≡ true → (connect c).1 ≡ c
unfolding connect
connect_closed c h = rw h refl

start_closed : (c : Connection) → c.closing ≡ true → start c ≡ c
unfolding start
start_closed c h = connect_closed c h

close_closed : (c : Connection) → c.close_task ≡ true → close c ≡ c
unfolding close
close_closed c h = rw h refl

-- Of a tidy connection, whether this call closed it or an earlier one.
close_lem : (c : Connection) → Tidy c → ((close c).closing ≡ true) × ((close c).close_task ≡ true)
unfolding close close_once
close_lem c t = elim (Bool-cases c.close_task) [
  | inl done ↦ rw done (t.shut ∙ done, refl)
  | inr first ↦ rw first (refl, refl)
]

ready_closed :
    (pong : Option Bool) (c : Connection) → c.closing ≡ true → is_ready pong c ≡ (false, c)
unfolding is_ready
ready_closed pong c h = ground (arith, h)

-- A connection that stays closed and makes no call of its own any more.
abbrev Quiet : Connection → Connection → Type 0
Quiet before after = (after.closing ≡ true) × (own_calls after.calls ≡ own_calls before.calls)

-- What follows is the same from the same connection.
unmoved :
    (events : List Event) (c d : Connection)
    → d ≡ c
    → Quiet c (history events c)
    → Quiet c (history events d)
unmoved events c d same h = subst (λ x. Quiet c (history events x)) (sym same) h

closed_stays :
    (events : List Event) (c : Connection)
    → c.closing ≡ true
    → c.close_task ≡ true
    → Quiet c (history events c)
closed_stays [] c h t = (h, refl)
closed_stays (connects ∷ events) c h t =
    unmoved events c (happen connects c) (connect_closed c h) (closed_stays events c h t)
closed_stays (starts ∷ events) c h t =
    unmoved events c (happen starts c) (start_closed c h) (closed_stays events c h t)
closed_stays (closes ∷ events) c h t =
    unmoved events c (happen closes c) (close_closed c t) (closed_stays events c h t)
closed_stays (commands ∷ events) c h t = closed_stays events (happen commands c) h t
closed_stays (asks_ready pong ∷ events) c h t =
    unmoved events c (happen (asks_ready pong) c) (ap (λ r. r.1) (ready_closed pong c h))
      (closed_stays events c h t)
closed_stays (client_reports opened ready ∷ events) c h t =
    closed_stays events (happen (client_reports opened ready) c) h t

-- Whatever is called on a connection and whatever its client reports, the client is asked to connect
-- at most once and to close at most once. Once `close` was called, whatever follows, only commands
-- still call the client: it is not asked to connect, to close or for a ping any more, `connect`
-- rejects, and the connection is never ready, whatever Redis answers.
pub history-close :
    (before after : List Event) (pong : Option Bool)
    → let closed = close (history before new_connection) in
      let later = history after closed in
      (connections later.calls ≤ 1)
      × (closings later.calls ≤ 1)
      × (own_calls later.calls ≡ own_calls closed.calls)
      × ((connect later).0 ≡ err (named (codes "Error")))
      × (is_ready pong later ≡ (false, later))
unfolding connect
history-close before after pong =
    let c = history before new_connection in
    let closed = close c in
    let later = history after closed in
    let t =
      history-Tidy before new_connection
        (record { connected_once = refl; closed_once = omega arith; shut = refl }) in
    let (a, b) = close_lem c t in
    let (shut, same) = closed_stays after closed a b in
    let tidy = history-Tidy after closed (happen-Tidy closes c t) in
    (
      ground (arith, tidy.connected_once),
      ground (arith, tidy.closed_once),
      same,
      rw shut refl,
      ready_closed pong later shut,
    )
