-- ===== src/Push/Listen/Deliver.antt =====
-- What a push to a user sends.
use gpush.Prelude.{
  ℕ, ◌+◌, ◌≡◌, refl, ap, sym, ◌∙◌, inl, inr, List, [], ◌∷◌, ◌++◌, append_assoc, append-nil, Option,
  none, some, Bool, true, if◌then◌else◌, Option-cases, arith, drop,
}
use gpush.Prelude.Int32.{negative, minus}
use gpush.Proto.{
  head_at, sizeof_head, magic_number, logic_construct_packet, push_req, json_push_req,
}
use gpush.Proto.Word.{htonl}
use gpush.Connect.Client.Messages.{Sess, PushRequest}
use gpush.Net.EventLoop.{get_connection}
use gpush.Push.Server.{
  SvCon, Svlist, Env, get_server, send_packet, send_push_request, send_to_server,
}
use gpush.Push.Server.Linked.{Linked}
use gpush.Push.Listen.{
  Json, returns, send_all, push_all, push_to, json_response, field, sn_key, type_key, payload_key,
  to_id_key, handle_push_request, handle_packet,
}

module _ (E : Env) where
  -- The packet that a session's push is, from a connection.
  unfoldable pub push_packet : SvCon → PushRequest → Sess → List ℕ
  push_packet c preq s =
      logic_construct_packet (record { magic = magic_number; len = 0; cmd = push_req })
        (E.push_request (record preq { from_sessid = c.sessid; to_sessid = s.sessid }))

  -- The packet for a session, if the event loop has a connection to its server, with that connection.
  unfoldable pub delivery : Svlist → PushRequest → Sess → List (ℕ × List ℕ)
  delivery l preq s = elim (get_server s.consvid l) [
    | none ↦ []
    | some p ↦ elim (get_connection p l.cons) [
      | none ↦ []
      | some c ↦ (p, push_packet c preq s) ∷ []
    ]
  ]

  -- Those of the sessions, in their order.
  unfoldable pub deliveries : Svlist → PushRequest → List Sess → List (ℕ × List ℕ)
  deliveries l preq [] = []
  deliveries l preq (s ∷ ss) = delivery l preq s ++ deliveries l preq ss

  -- How many of them the sockets take.
  unfoldable pub taken : List (ℕ × List ℕ) → ℕ
  taken [] = 0
  taken ((p, msg) ∷ sends) =
      let rest = taken sends in if negative (E.send p msg) then rest else rest + 1

  abbrev pub after_sends : Svlist → List (ℕ × List ℕ) → Svlist
  after_sends l sends = record l { sent = l.sent ++ sends }

  deliveries-sent :
      (l : Svlist) (sent : List (ℕ × List ℕ)) (preq : PushRequest) (ss : List Sess)
      → deliveries (record l { sent = sent }) preq ss ≡ deliveries l preq ss
  unfolding deliveries delivery get_server
  deliveries-sent l sent preq [] = refl
  deliveries-sent l sent preq (s ∷ ss) =
      ap (λ rest. delivery l preq s ++ rest) (deliveries-sent l sent preq ss)

  taken-append : (xs ys : List (ℕ × List ℕ)) → taken (xs ++ ys) ≡ taken xs + taken ys
  unfolding taken
  taken-append [] ys = omega arith
  taken-append ((p, msg) ∷ xs) ys = ground (arith, taken-append xs ys)

  send_to_server-delivery :
      (preq : PushRequest) (s : Sess) (l : Svlist)
      → Linked l
      → (ret : ℕ) × (send_to_server E s.consvid (record preq { to_sessid = s.sessid }) l
          ≡ some (after_sends l (delivery l preq s), ret))
        × (taken (delivery l preq s) ≡ (if negative ret then 0 else 1))
  unfolding send_to_server delivery get_server send_push_request send_packet push_packet taken
  send_to_server-delivery preq s l k = elim (Option-cases (get_connection s.consvid l.svcons)) [
    | inl nowhere ↦ (
      minus 1,
      rw (nowhere, send_to_server)
          (rw (nowhere, delivery)
            (ap (λ (xs : List (ℕ × List ℕ)). some (record l { sent = xs }, minus 1))
              (sym (append-nil l.sent)))),
      rw (nowhere, delivery) refl,
    )
    | inr (p, listed) ↦
        let (c, lives, serves) = k.leads s.consvid p listed in
        (
          E.send p (push_packet c preq s),
          rw (listed, send_to_server)
              (rw (lives, send_to_server) (rw (listed, delivery) (rw (lives, delivery) refl))),
          rw (listed, delivery) (rw (lives, delivery) refl),
        )
  ]

  same_result :
      (l : Svlist) (xs ys : List (ℕ × List ℕ)) (m n : ℕ)
      → xs ≡ ys
      → m ≡ n
      → ◌≡◌ {A = Option (Svlist × ℕ)}
          (some (record l { sent = xs }, m))
          (some (record l { sent = ys }, n))
  same_result l xs ys m n p q = rw (p, q) refl

  count_lem : (b : Bool) (n : ℕ) → (if b then n else n + 1) ≡ (if b then 0 else 1) + n
  count_lem b n = ground arith

  send_all-deliveries :
      (preq : PushRequest) (ss : List Sess) (l : Svlist)
      → Linked l
      → send_all E preq ss l
        ≡ some (after_sends l (deliveries l preq ss), taken (deliveries l preq ss))
  unfolding send_all deliveries taken
  send_all-deliveries preq [] l k =
      ap (λ (xs : List (ℕ × List ℕ)). some (record l { sent = xs }, 0)) (sym (append-nil l.sent))
  send_all-deliveries preq (s ∷ ss) l k =
      let (ret, first, took) = send_to_server-delivery preq s l k in
      let l1 = after_sends l (delivery l preq s) in
      let k1 : Linked l1 = record { unique = k.unique; leads = k.leads } in
      let rest = send_all-deliveries preq ss l1 k1 in
      let same = deliveries-sent l (l.sent ++ delivery l preq s) preq ss in
      rw (first, send_all)
        (rw (rest, send_all)
          (same_result l _ _ _ _
            (ap (λ (d : List (ℕ × List ℕ)). (l.sent ++ delivery l preq s) ++ d) same
              ∙ append_assoc l.sent (delivery l preq s) (deliveries l preq ss))
            (count_lem (negative ret) (taken (deliveries l1 preq ss))
              ∙ ap (λ (n : ℕ). n + taken (deliveries l1 preq ss)) (sym took)
              ∙ ap (λ (d : List (ℕ × List ℕ)). taken (delivery l preq s) + taken d) same
              ∙ sym (taken-append (delivery l preq s) (deliveries l preq ss)))))

  push_all-deliveries :
      {J : Type 0} (T : Json J) (l : Svlist) (sn : J) (preq : PushRequest) (s : Sess)
      (ss : List Sess)
      → Linked l
      → let sends = deliveries l preq (s ∷ ss) in
        push_all E T l sn preq (s ∷ ss)
        ≡ returns
            (after_sends l sends)
            (json_response E T
                (record { status = 0; sn = some sn; message = []; count = some (taken sends) })
              ∷ [])
            (taken sends)
  unfolding push_all
  push_all-deliveries T l sn preq s ss k = rw (send_all-deliveries preq (s ∷ ss) l k, push_all) refl

module _ {J : Type 0} (E : Env) (T : Json J) (l : Svlist) (req : List ℕ) (v sn to : J) (type : ℕ)
    (payload text id : List ℕ) (get_session : List ℕ → List Sess) where
  -- Where the map of the event loop is linked, a JSON push to a user with sessions is sent once for
  -- each session whose server the loop has a connection to, in the order of the sessions, with the
  -- session's id as its target and the connection's as its source; the answer and the result count
  -- the packets that the sockets take.
  pub handle_packet-deliveries :
      (s : Sess) (ss : List Sess)
      → htonl (head_at req).cmd ≡ json_push_req
      → T.parse (drop sizeof_head req) ≡ some v
      → T.member v sn_key ≡ some sn
      → field E T T.as_int type_key v ≡ some type
      → field E T T.as_string payload_key v ≡ some payload
      → field E T T.as_string sn_key v ≡ some text
      → T.member v to_id_key ≡ some to
      → T.is_string to ≡ true
      → T.as_string to ≡ some id
      → T.sessions ≡ some get_session
      → get_session id ≡ s ∷ ss
      → Linked l
      → let sends =
          deliveries E l
            (record { from_sessid = []; to_sessid = []; sn = text; type = type; payload = payload })
            (s ∷ ss) in
        handle_packet E T l req
        ≡ returns
            (after_sends E l sends)
            (json_response E T
                (record { status = 0; sn = some sn; message = []; count = some (taken E sends) })
              ∷ [])
            (taken E sends)
  unfolding handle_packet handle_push_request push_to
  handle_packet-deliveries s ss cmd parsed has_sn has_type has_payload has_text has_to is_text
        has_id cache found k =
      let preq : PushRequest = record {
        from_sessid = [];
        to_sessid = [];
        sn = text;
        type = type;
        payload = payload;
      } in
      rw (cmd, handle_packet)
        (rw (parsed, handle_push_request)
          (rw (has_sn, handle_push_request)
            (rw (has_type, handle_push_request)
              (rw (has_payload, handle_push_request)
                (rw (has_text, handle_push_request)
                  (rw (cache, push_to)
                    (rw (has_to, push_to)
                      (rw (is_text, push_to)
                        (rw (has_id, push_to)
                          (rw (found) (push_all-deliveries E T l sn preq s ss k)))))))))))
