-- ===== src/WebSocket/Session.antt =====
-- What a WebSocket session takes from the responses of its worker, and who may open one.
use vyx.Base.{
  ℕ, zero, suc, ◌<◌, ◌≡◌, refl, ap, sym, subst, ◌∙◌, ◌⊎◌, inl, inr, Bool-cases, ◌==◌, str_eq, arith,
  true, false, ◌||◌, List, [], ◌∷◌, Option, none, some, Text, str_eq_iff, str_eq_refl, Dict, lookup,
  insert, lookup-insert, is_some, length,
}
use vyx.Dispatcher.{member, has_required_role}
use vyx.Framing.{Message}
use vyx.Transport.{
  Conn, Transport, got, waits, receive_response, receive_from, take_response, get_conn,
}
use vyx.WebSocket.{
  Codec, WsMessage, role_set, any_in, of_session, for_client, Pumped, blocked, passed_on,
  pump_worker_to_client,
}

is_some-role_set :
    (r : Text) (rs : List Text) (set : Dict (Unit {0}))
    → is_some (lookup r (role_set rs set)) ≡ (member r rs || is_some (lookup r set))
unfolding role_set member
is_some-role_set r [] set = refl
is_some-role_set r (x ∷ rs) set =
    ground
      (arith, is_some-role_set r rs (insert x tt set), lookup-insert x r tt set, str_eq_iff x r)

any_in-has_required_role :
    (caller required : List Text)
    → any_in required (role_set caller []) ≡ has_required_role caller required
unfolding any_in has_required_role lookup
any_in-has_required_role caller [] = refl
any_in-has_required_role caller (r ∷ rs) =
    ground (arith, is_some-role_set r caller [], any_in-has_required_role caller rs)

abbrev pub keep_some : Option Text → List Text → List Text
keep_some none ds = ds
keep_some (some d) ds = d ∷ ds

unfoldable pub wanted : Codec → Text → List Message → List Text
wanted k session [] = []
wanted k session (m ∷ ms) = keep_some (for_client k session m) (wanted k session ms)

-- A message for the client of a session: of type TypeWSMessage (0x07), with a payload that can be
-- decoded and names this session.
pub record IsFor (k : Codec) (session : Text) (m : Message) (d : Text) : Type 0 where
  pub typed : m.type ≡ 7
  pub message : WsMessage
  pub read : k.unmarshal m.payload ≡ some message
  pub named : message.session_id ≡ session
  pub holds : message.content ≡ d

-- The contents of the messages for the client among some, in order.
abbrev pub Contents : Codec → Text → List Message → List Text → Type 0
Contents k session [] ds = ds ≡ []
Contents k session (m ∷ ms) ds =
    ((d : Text) × (rest : List Text) × (ds ≡ d ∷ rest)
      × IsFor k session m d
      × Contents k session ms rest)
    ⊎ (((d : Text) → IsFor k session m d → ⊥) × Contents k session ms ds)

of_session-cases :
    (k : Codec) (session : Text) (m : Message) (o : Option WsMessage)
    → m.type ≡ 7
    → k.unmarshal m.payload ≡ o
    → ((d : Text) × (of_session session o ≡ some d) × IsFor k session m d)
      ⊎ ((of_session session o ≡ none) × ((d : Text) → IsFor k session m d → ⊥))
of_session-cases k session m none t e =
    inr (refl, λ d h. let bad : none ≡ some h.message = sym e ∙ h.read in cc bad)
of_session-cases k session m (some x) t e = elim (Bool-cases (str_eq x.session_id session)) [
  | inl same ↦ inl (
    x.content,
    rw same refl,
    record {
      typed = t;
      message = x;
      read = e;
      named = (str_eq_iff x.session_id session).0 same;
      holds = refl;
    },
  )
  | inr other ↦ inr (
    rw other refl,
    λ d h.
        let one : some x ≡ some h.message = sym e ∙ h.read in
        let mine : x.session_id ≡ session = cc (one, h.named) in
        let yes' = (str_eq_iff x.session_id session).1 mine in cc (other, yes'),
  )
]

for_client-cases :
    (k : Codec) (session : Text) (m : Message)
    → ((d : Text) × (for_client k session m ≡ some d) × IsFor k session m d)
      ⊎ ((for_client k session m ≡ none) × ((d : Text) → IsFor k session m d → ⊥))
unfolding for_client
for_client-cases k session m = elim (Bool-cases (m.type == 7)) [
  | inl t ↦ rw t (of_session-cases k session m (k.unmarshal m.payload) (ground arith) refl)
  | inr t ↦ rw t (inr (refl, λ d h. let seven = h.typed in ground arith))
]

wanted-Contents :
    (k : Codec) (session : Text) (ms : List Message) → Contents k session ms (wanted k session ms)
unfolding wanted
wanted-Contents k session [] = refl
wanted-Contents k session (m ∷ ms) = elim (for_client-cases k session m) [
  | inl (d, e, h) ↦ rw e (inl (d, _, refl, h, wanted-Contents k session ms))
  | inr (e, no') ↦ rw e (inr (no', wanted-Contents k session ms))
]

-- The pump has passed on these, and taken all others away with them.
record Emptied (c : Conn) (worker : Text) (ds : List Text) (p : Pumped) : Type 0 where
  passes : p.delivered ≡ ds
  waiting : p.stands ≡ blocked
  emptied : get_conn worker p.transport ≡ some (record c { responses = [] })

-- The pump has passed on the messages for its client among those that waited, waits itself, and has
-- left none of them to others.
pub record Drained (k : Codec) (session : Text) (c : Conn) (worker : Text) (q : List Message)
    (p : Pumped) : Type 0 where
  pub passes : Contents k session q p.delivered
  pub waiting : p.stands ≡ blocked
  pub emptied : get_conn worker p.transport ≡ some (record c { responses = [] })

abbrev left : Conn → Text → List Message → Transport → Transport
left c worker q t = record t {
  connections = insert worker (record c { responses = q }) t.connections;
}

get_conn-left :
    (c : Conn) (worker : Text) (q : List Message) (t : Transport)
    → get_conn worker (left c worker q t) ≡ some (record c { responses = q })
unfolding get_conn
get_conn-left c worker q t =
    rw (lookup-insert worker worker (record c { responses = q }) t.connections, str_eq_refl worker)
      refl

receive_response-got :
    (worker : Text) (t : Transport) (c : Conn) (m : Message) (q : List Message)
    → get_conn worker t ≡ some c
    → c.responses ≡ m ∷ q
    → receive_response false worker t ≡ (got m, left c worker q t)
unfolding receive_response take_response receive_from
receive_response-got worker t c m q g e = rw (receive_response, g, e) refl

receive_response-waits :
    (worker : Text) (t : Transport) (c : Conn)
    → get_conn worker t ≡ some c
    → c.responses ≡ []
    → c.pump_err ≡ none
    → receive_response false worker t ≡ (waits, left c worker [] t)
unfolding receive_response take_response receive_from
receive_response-waits worker t c g e n = rw (receive_response, g, e, n) refl

passed_on-Emptied :
    (c : Conn) (worker : Text) (ds : List Text) (o : Option Text) (t : Transport) (p : Pumped)
    → Emptied c worker ds p
    → Emptied c worker (keep_some o ds) (passed_on (λ d. true) o t p)
passed_on-Emptied c worker ds none t p v = v
passed_on-Emptied c worker ds (some d) t p v = record {
  passes = ap (◌∷◌ d) v.passes;
  waiting = v.waiting;
  emptied = v.emptied;
}

pump_worker_to_client-Emptied :
    (fuel : ℕ) (k : Codec) (session worker : Text) (t : Transport) (c : Conn) (q : List Message)
    → get_conn worker t ≡ some c
    → c.responses ≡ q
    → c.pump_err ≡ none
    → length q < fuel
    → Emptied c worker
        (wanted k session q)
        (pump_worker_to_client fuel k session (λ d. true) worker t)
unfolding pump_worker_to_client wanted
pump_worker_to_client-Emptied zero k session worker t c q g e n f = elim f [ ]
pump_worker_to_client-Emptied (suc fuel) k session worker t c [] g e n f =
    rw (pump_worker_to_client, receive_response-waits worker t c g e n)
      (record { passes = refl; waiting = refl; emptied = get_conn-left c worker [] t })
pump_worker_to_client-Emptied (suc fuel) k session worker t c (m ∷ q) g e n f =
    let rest =
      pump_worker_to_client-Emptied fuel k session worker (left c worker q t)
        (record c { responses = q }) q (get_conn-left c worker q t) refl n (omega arith) in
    rw (pump_worker_to_client, receive_response-got worker t c m q g e)
      (passed_on-Emptied c worker (wanted k session q) (for_client k session m) _ _
        (record { passes = rest.passes; waiting = rest.waiting; emptied = rest.emptied }))

-- On an open connection, the pump of a session with a client that takes everything gives it the
-- contents of the messages that were waiting and name its session, in order, and then waits; no response is left for
-- anyone else, whether it answers a request or belongs to another session.
pub pump_worker_to_client-Drained :
    (fuel : ℕ) (k : Codec) (session worker : Text) (t : Transport) (c : Conn) (q : List Message)
    → get_conn worker t ≡ some c
    → c.responses ≡ q
    → c.pump_err ≡ none
    → length q < fuel
    → Drained k session c worker q (pump_worker_to_client fuel k session (λ d. true) worker t)
pump_worker_to_client-Drained fuel k session worker t c q g e n f =
    let v = pump_worker_to_client-Emptied fuel k session worker t c q g e n f in
    record {
      passes = subst (Contents k session q) (sym v.passes) (wanted-Contents k session q);
      waiting = v.waiting;
      emptied = v.emptied;
    }
