-- ===== src/Sender.antt =====
-- The heartbeats of the core to its workers, core/application/heartbeat/sender.go, over the
-- transport. `writes` says which connections take the bytes.
use vyx.Base.{
  ℕ, ◌≡◌, refl, sym, ap, ◌∙◌, arith, Bool, true, false, List, [], ◌∷◌, ◌++◌, Option, none, some,
  if◌then◌else◌, Text, str_eq, str_eq_iff, lookup, lookup-insert, ◌↔◌, Option-cases, Bool-cases,
  inl, inr,
}
use mathlib.Core.List.{append_assoc, append-nil}
use vyx.Framing.{Message, write}
use vyx.Transport.{Conn, Transport, get_conn, send}

-- TypeHeartbeat is 3.
abbrev pub heartbeat : Message
heartbeat = record { type = 3; payload = [] }

-- A failure for one worker is only logged.
unfoldable pub send_each : (Text → Bool) → List Text → Transport → Transport
send_each writes [] t = t
send_each writes (id ∷ ids) t = send_each writes ids (send (writes id) id heartbeat t).1

-- The IDs of the live workers, `none` where they cannot be listed.
unfoldable pub send_all : (Text → Bool) → Option (List Text) → Transport → Transport
send_all writes none t = t
send_all writes (some ids) t = send_each writes ids t

-- One frame for each time that the ID is in the list.
unfoldable pub frames_for : Text → List Text → List ℕ
frames_for id [] = []
frames_for id (j ∷ js) =
    let rest = frames_for id js in if str_eq j id then write heartbeat ++ rest else rest

abbrev pub with_written : Bool → List ℕ → Option Conn → Option Conn
with_written taken bytes none = none
with_written false bytes (some c) = some c
with_written true bytes (some c) = some (record c { written = c.written ++ bytes })

get_conn-send :
    (b : Bool) (id j : Text) (t : Transport)
    → get_conn j (send b id heartbeat t).1
      ≡ (if str_eq id j then with_written b (write heartbeat) (get_conn j t) else get_conn j t)
unfolding send get_conn
get_conn-send b id j t = elim (Option-cases (lookup id t.connections)) [
  | inl n ↦ rw (send, get_conn, n) (ground (arith, str_eq_iff id j))
  | inr (c, h) ↦ elim (Bool-cases b) [
    | inl w ↦
        rw
          (
            send,
            get_conn,
            h,
            w,
            lookup-insert id j (record c { written = c.written ++ write heartbeat }) t.connections,
          )
          (ground (arith, str_eq_iff id j))
    | inr f ↦ rw (send, get_conn, h, f) (ground (arith, str_eq_iff id j))
  ]
]

with_written-append :
    (b : Bool) (xs ys : List ℕ) (o : Option Conn)
    → with_written b ys (with_written b xs o) ≡ with_written b (xs ++ ys) o
with_written-append b xs ys none = refl
with_written-append false xs ys (some c) = refl
with_written-append true xs ys (some c) =
    ap (λ w. some (record c { written = w })) (append_assoc c.written xs ys)

with_written_nothing : (b : Bool) (o : Option Conn) → with_written b [] o ≡ o
with_written_nothing b none = refl
with_written_nothing false (some c) = refl
with_written_nothing true (some c) =
    ap (λ w. some (record c { written = w })) (append-nil c.written)

-- Each connection that takes bytes gets one frame for each time that its worker is listed, behind
-- what was written before; workers without a connection, or whose connection fails, change nothing
-- for the others.
pub get_conn-send_each :
    (writes : Text → Bool) (ids : List Text) (j : Text) (t : Transport)
    → get_conn j (send_each writes ids t)
      ≡ with_written (writes j) (frames_for j ids) (get_conn j t)
unfolding send_each frames_for
get_conn-send_each writes [] j t = sym (with_written_nothing (writes j) (get_conn j t))
get_conn-send_each writes (id ∷ ids) j t =
    get_conn-send_each writes ids j (send (writes id) id heartbeat t).1
    ∙ rw (get_conn-send (writes id) id j t) (after (str_eq id j) (str_eq_iff id j))
  where
    after :
        (b : Bool)
        → ((b ≡ true) ↔ (id ≡ j))
        → with_written
            (writes j)
            (frames_for j ids)
            (if b then with_written (writes id) (write heartbeat) (get_conn j t) else get_conn j t)
          ≡ with_written
              (writes j)
              (if b then write heartbeat ++ frames_for j ids else frames_for j ids)
              (get_conn j t)
    after false e = refl
    after true e =
        rw (e.0 refl)
          (with_written-append (writes j) (write heartbeat) (frames_for j ids) (get_conn j t))
