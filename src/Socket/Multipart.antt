-- ===== src/Socket/Multipart.antt =====
-- Multipart messages over a pair of connected sockets.
use pyzmq.Base.{
  ℕ, zero, suc, ◌<◌, ap, ◌≡◌, refl, sym, ◌∙◌, Bool, true, false, Option, some, List, [], ◌∷◌, ◌++◌,
  map, Result, ok, err, type_error, arith, length, Bytes,
}
use mathlib.Core.Path.{subst}
use mathlib.Core.List.{append_assoc, append-nil}
use pyzmq.Base.Exec.{◌>>=◌, continue-ok}
use pyzmq.Socket.{
  Part, buffer, frame, unsupported, Flags, Kwargs, Driver, send, with_routing_id, with_group,
  all_supported, send_parts, send_checked, send_multipart, get_rcvmore, recv_rest, recv_multipart,
}

-- What libzmq documents of two connected sockets with room to send: the frames that were sent are
-- received in order, each once, with their SNDMORE bit as RCVMORE. `wire` are the frames on their
-- way.
pub record IsFifo {Net : Type 0} (drv : Driver Net) (wire : Net → List (Bytes × Bool))
    : Type 0 where
  pub sends :
      (b : Bytes) (flags : Flags) (kwargs : Kwargs) (net : Net)
      → (t : Option ℕ) × ((drv.send (buffer b) flags kwargs net).0 ≡ ok t)
  pub appends :
      (b : Bytes) (flags : Flags) (kwargs : Kwargs) (net : Net)
      → wire (drv.send (buffer b) flags kwargs net).1 ≡ wire net ++ ((b, flags.sndmore) ∷ [])
  pub receives :
      (b : Bytes) (more : Bool) (rest : List (Bytes × Bool)) (flags : ℕ) (kwargs : Kwargs)
      (net : Net)
      → wire net ≡ (b, more) ∷ rest
      → ((drv.recv flags kwargs net).0 ≡ ok b)
        × (wire (drv.recv flags kwargs net).1 ≡ rest)
        × (drv.rcvmore (drv.recv flags kwargs net).1 ≡ ok more)

-- The frames of a message, of which all but the last say that more follow.
pub framed : Bytes → List Bytes → List (Bytes × Bool)
framed b [] = (b, false) ∷ []
framed b (c ∷ cs) = (b, true) ∷ framed c cs

module _ {Net : Type 0} (drv : Driver Net) where
  all_supported-buffers : (bs : List Bytes) → all_supported drv (map buffer bs) ≡ true
  unfolding all_supported
  all_supported-buffers [] = refl
  all_supported-buffers (b ∷ bs) = all_supported-buffers bs

  all_supported-unsupported :
      (ps qs : List Part) → all_supported drv (ps ++ (unsupported ∷ qs)) ≡ false
  unfolding all_supported
  all_supported-unsupported [] qs = refl
  all_supported-unsupported (buffer b ∷ ps) qs = all_supported-unsupported ps qs
  all_supported-unsupported (frame b r g ∷ ps) qs = all_supported-unsupported ps qs
  all_supported-unsupported (unsupported ∷ ps) qs = refl

  -- If some part has no buffer interface, wherever it stands in the list, then `send_multipart`
  -- raises `TypeError` and has sent nothing.
  pub send_multipart_refused :
      (before after : List Part) (flags : Flags) (kwargs : Kwargs) (net : Net)
      → send_multipart drv (before ++ (unsupported ∷ after)) flags kwargs net
        ≡ (err type_error, net)
  unfolding send_multipart
  send_multipart_refused before after flags kwargs net =
      rw (all_supported-unsupported before after) refl

module _ {Net : Type 0} (drv : Driver Net) (wire : Net → List (Bytes × Bool))
    (fifo : IsFifo drv wire) where
  -- Sending returns, and puts the frames on the wire.
  send_parts-framed :
      (b : Bytes) (bs : List Bytes) (kwargs : Kwargs) (others : ℕ) (net : Net)
      → let flags : Flags = record { sndmore = false; others = others } in
        let r = send_parts drv (buffer b) (map buffer bs) flags kwargs net in
        ((t : Option ℕ) × (r.0 ≡ ok t)) × (wire r.1 ≡ wire net ++ framed b bs)
  unfolding send_parts send with_routing_id with_group framed
  send_parts-framed b [] kwargs others net =
      (fifo.sends b _ kwargs net, fifo.appends b _ kwargs net)
  send_parts-framed b (c ∷ cs) kwargs others net =
      let flags : Flags = record { sndmore = true; others = others } in
      let net' = (drv.send (buffer b) flags kwargs net).1 in
      let (t, e) = fifo.sends b flags kwargs net in
      let (sent, on_wire) = send_parts-framed c cs kwargs others net' in
      subst
        (λ (r : Result (Option ℕ) × Net).
          ((u : Option ℕ) × (r.0 ≡ ok u)) × (wire r.1 ≡ wire net ++ ((b, true) ∷ framed c cs)))
        (sym (continue-ok (drv.send (buffer b) flags kwargs net).0 _ net' t e))
        (
          sent,
          on_wire
              ∙ ap (λ (w : List (Bytes × Bool)). w ++ framed c cs) (fifo.appends b flags kwargs net)
              ∙ append_assoc (wire net) ((b, true) ∷ []) (framed c cs),
        )

  -- The loop collects the frames up to the first that no frame follows.
  recv_rest-framed :
      (b : Bytes) (bs : List Bytes) (fuel : ℕ) (flags : ℕ) (kwargs : Kwargs) (got : List Bytes)
      (net : Net) (rest : List (Bytes × Bool))
      → length bs < fuel
      → wire net ≡ framed b bs ++ rest
      → let r =
          (drv.recv flags kwargs >>= λ part. recv_rest drv fuel flags kwargs (got ++ (part ∷ [])))
            net in
        (r.0 ≡ ok (some (got ++ (b ∷ bs)))) × (wire r.1 ≡ rest)
  unfolding framed recv_rest get_rcvmore
  recv_rest-framed b bs zero flags kwargs got net rest h w = absurd (omega arith)
  recv_rest-framed b [] (suc fuel) flags kwargs got net rest h w =
      let (e, left, more) = fifo.receives b false rest flags kwargs net w in
      let net' = (drv.recv flags kwargs net).1 in
      subst
        (λ (r : Result (Option (List Bytes)) × Net).
          (r.0 ≡ ok (some (got ++ (b ∷ [])))) × (wire r.1 ≡ rest))
        (sym (
          continue-ok (drv.recv flags kwargs net).0 _ net' b e
          ∙ continue-ok (drv.rcvmore net') _ net' false more))
        (refl, left)
  recv_rest-framed b (c ∷ cs) (suc fuel) flags kwargs got net rest h w =
      let (e, left, more) = fifo.receives b true (framed c cs ++ rest) flags kwargs net w in
      let net' = (drv.recv flags kwargs net).1 in
      let (all_of, after) =
        recv_rest-framed c cs fuel flags kwargs (got ++ (b ∷ [])) net' rest (omega arith) left in
      subst
        (λ (r : Result (Option (List Bytes)) × Net).
          (r.0 ≡ ok (some (got ++ (b ∷ c ∷ cs)))) × (wire r.1 ≡ rest))
        (sym (
          continue-ok (drv.recv flags kwargs net).0 _ net' b e
          ∙ continue-ok (drv.rcvmore net') _ net' true more))
        (all_of ∙ ap (λ (l : List Bytes). ok (some l)) (append_assoc got (b ∷ []) (c ∷ cs)), after)

  -- On connected sockets, a message of one frame or more that is sent when nothing is on the way is
  -- received whole, its frames in order, and nothing is left on the way; fuel for as many rounds as
  -- the message has frames is enough.
  pub recv_multipart-send_multipart :
      (b : Bytes) (bs : List Bytes) (others : ℕ) (kwargs : Kwargs) (flags fuel : ℕ) (net : Net)
      → wire net ≡ []
      → length bs < fuel
      → let sent =
          send_multipart drv
            (map buffer (b ∷ bs))
            (record { sndmore = false; others = others })
            kwargs
            net in
        let r = recv_multipart drv fuel flags kwargs sent.1 in
        ((t : Option ℕ) × (sent.0 ≡ ok t)) × (r.0 ≡ ok (some (b ∷ bs))) × (wire r.1 ≡ [])
  unfolding send_multipart send_checked recv_multipart all_supported
  recv_multipart-send_multipart b bs others kwargs flags fuel net empty h =
      let (sent, on_wire) = send_parts-framed b bs kwargs others net in
      let received =
        recv_rest-framed b bs fuel flags kwargs []
          (send_parts drv (buffer b) (map buffer bs) (record { sndmore = false; others = others })
            kwargs net).1
          [] h
          (on_wire
            ∙ ap (λ (w : List (Bytes × Bool)). w ++ framed b bs) empty
            ∙ sym (append-nil (framed b bs))) in
      rw (all_supported-buffers drv bs) (sent, received.0, received.1)
