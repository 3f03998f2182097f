-- ===== src/Lighthouse/Html.antt =====
-- The rendering half of cmd/lighthouse/dashboard.go.
use quicmeshpoc.Common.{
  ℕ, Bytes, List, [], ◌∷◌, ◌++◌, Option, none, some, ◌==◌, ltb, text, decimal, lookup, keys, Map,
  ◌+◌, ◌-◌, ◌/◌, ◌%◌, if◌then◌else◌,
}
use mathlib.Core.List.{reverse}
use quicmeshpoc.Lighthouse.State.{
  second, handoff_timeout, Registration, LogEntry, Handoff, Lighthouse, Host,
}

-- html.EscapeString, byte by byte
unfoldable pub esc_byte : ℕ → Bytes
unfolding text
esc_byte c =
    if c == b'&'
    then text "&amp;"
    else if c == 39
    then text "&#39;"
    else if c == b'<'
    then text "&lt;"
    else if c == b'>'
    then text "&gt;"
    else if c == 34
    then text "&#34;"
    else c ∷ []

unfoldable pub esc : Bytes → Bytes
unfolding esc_byte
esc [] = []
esc (c ∷ s) = esc_byte c ++ esc s

-- A duration of `n` nanoseconds rounded to whole seconds, halves up.
unfoldable pub round_seconds : ℕ → ℕ
round_seconds n = (n + second / 2) / second

-- An age of `s` seconds.
unfoldable pub age_text : ℕ → Bytes
unfolding text decimal
age_text s =
    if ltb s 60
    then decimal s ++ text "s"
    else decimal (s / 60) ++ text "m" ++ decimal (s % 60) ++ text "s"

-- An instant that is still to come shows as negative seconds.
unfoldable pub since : ℕ → ℕ → Bytes
unfolding age_text round_seconds
since now t =
    if ltb now t
    then (let s = round_seconds (t - now) in
        if s == 0 then text "0s" else text "-" ++ decimal s ++ text "s")
    else age_text (round_seconds (now - t))

unfoldable pub handoff_status : ℕ → Handoff → Bytes × Bytes
unfolding since text
handoff_status now h =
    if h.completed
    then (
      text "<span class=\"badge ok\">handed off ✔</span>",
      since now h.completed_at ++ text " ago",
    )
    else if ltb handoff_timeout (now - h.started)
    then (text "<span class=\"badge fail\">timed out ✕</span>", since now h.started ++ text " ago")
    else if h.picked_up
    then (text "<span class=\"badge go\">punching…</span>", since now h.started ++ text " ago")
    else (text "<span class=\"badge wait\">waiting…</span>", since now h.started ++ text " ago")

-- One `<tr>` of the table of nodes; a key that has no entry is not visited.
unfoldable pub node_row : ℕ → Bytes → Option Registration → Bytes
unfolding esc since text
node_row now id none = []
node_row now id (some reg) =
    text "<tr><td><b>"
    ++ esc id
    ++ text "</b></td><td><code>"
    ++ esc reg.addr
    ++ text "</code></td><td>"
    ++ since now reg.last_seen
    ++ text " ago</td></tr>"

unfoldable pub node_rows : ℕ → Map Registration → List Bytes → Bytes
unfolding node_row
node_rows now nodes [] = []
node_rows now nodes (id ∷ ids) = node_row now id (lookup id nodes) ++ node_rows now nodes ids

unfoldable pub handoff_row : ℕ → Handoff → Bytes
unfolding esc handoff_status text
handoff_row now h =
    let (state, when) = handoff_status now h in
    text "<tr><td>"
    ++ esc h.from
    ++ text "</td><td>"
    ++ esc h.to
    ++ text "</td><td>"
    ++ state
    ++ text "</td><td>"
    ++ when
    ++ text "</td></tr>"

unfoldable pub handoff_rows : ℕ → List Handoff → Bytes
unfolding handoff_row
handoff_rows now [] = []
handoff_rows now (h ∷ hs) = handoff_row now h ++ handoff_rows now hs

unfoldable pub event_row : (ℕ → Bytes) → LogEntry → Bytes
unfolding esc text
event_row time_of_day e =
    text "<li><span class=\"ts\">"
    ++ time_of_day e.at
    ++ text "</span> "
    ++ esc e.msg
    ++ text "</li>"

unfoldable pub event_rows : (ℕ → Bytes) → List LogEntry → Bytes
unfolding event_row
event_rows time_of_day [] = []
event_rows time_of_day (e ∷ es) = event_row time_of_day e ++ event_rows time_of_day es

unfoldable pub nodes_section : ℕ → Map Registration → List Bytes → Bytes
unfolding node_rows text
nodes_section now [] order =
    text "<section><h2>🟢 Online nodes</h2>"
    ++ text "<p class=\"muted\">none</p>"
    ++ text "</section>"
nodes_section now (n ∷ ns) order =
    text "<section><h2>🟢 Online nodes</h2>"
    ++ text "<table><tr><th>node</th><th>public address</th><th>last seen</th></tr>"
    ++ node_rows now (n ∷ ns) order
    ++ text "</table>"
    ++ text "</section>"

unfoldable pub handoffs_section : ℕ → List Handoff → Bytes
unfolding handoff_rows text
handoffs_section now [] =
    text "<section><h2>🤝 Handoffs</h2>"
    ++ text "<p class=\"muted\">none yet</p>"
    ++ text "</section>"
handoffs_section now (h ∷ hs) =
    text "<section><h2>🤝 Handoffs</h2>"
    ++ text "<table><tr><th>from</th><th>to</th><th>state</th><th>when</th></tr>"
    ++ handoff_rows now (reverse (h ∷ hs))
    ++ text "</table>"
    ++ text "</section>"

unfoldable pub events_section : (ℕ → Bytes) → List LogEntry → Bytes
unfolding event_rows text
events_section time_of_day [] =
    text "<section><h2>📜 Activity log</h2>"
    ++ text "<p class=\"muted\">quiet…</p>"
    ++ text "</section>"
events_section time_of_day (e ∷ es) =
    text "<section><h2>📜 Activity log</h2>"
    ++ text "<ul class=\"log\">"
    ++ event_rows time_of_day (reverse (e ∷ es))
    ++ text "</ul>"
    ++ text "</section>"

-- `i` is the reading of the clock and the loop over the nodes that this call makes.
unfoldable pub snapshot_html : Host → ℕ → Lighthouse → Bytes
unfolding nodes_section handoffs_section events_section
snapshot_html host i l =
    nodes_section (host.now i) l.nodes (host.order i (keys l.nodes))
    ++ handoffs_section (host.now i) l.handoffs
    ++ events_section host.time_of_day l.events
