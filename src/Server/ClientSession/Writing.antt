-- ===== src/Server/ClientSession/Writing.antt =====
-- The frames that `ClientSession` (server/src/client_session.cpp) writes, whatever the order of the
-- sends and of the outcomes of the operations.
use collaborative_text_edito.Common.{
  ℕ, suc, ◌≡◌, inl, inr, refl, ap, sym, subst, ◌∙◌, arith, Bool, true, false, Option, none, some,
  List, [], ◌∷◌, ◌++◌, map, map-append, append-nil, append_assoc, Bytes, take, if◌then◌else◌,
  Bool-cases, Option-cases,
}
use collaborative_text_edito.Protocol.Frame.{encode_frame, header_of}
use collaborative_text_edito.Server.ClientSession.{
  Connection, reads_body, closed, gone, do_write, push, send, on_written, on_header, on_body,
}
use collaborative_text_edito.Server.ClientSession.Wire.{
  Wire, after, Step, sends, sends_late, wrote, write_failed, header_read, body_read, fresh, Reach,
  first, later, Position, quiet, busy, stuck, IsOrdered,
}

queued_more :
    (ps : List Bytes) (done queue : List Bytes) (p : Bytes)
    → map encode_frame ps ≡ done ++ queue
    → map encode_frame (ps ++ p ∷ []) ≡ done ++ (queue ++ encode_frame p ∷ [])
queued_more ps done queue p e =
    map-append encode_frame ps (p ∷ [])
    ∙ ap (λ l. l ++ encode_frame p ∷ []) e
    ∙ append_assoc done queue (encode_frame p ∷ [])

pushed :
    (w : Wire) (payload : Bytes)
    → IsOrdered w
    → IsOrdered (
        after
          (record w { accepted = w.accepted ++ payload ∷ [] })
          (push w.connection payload).0
          (push w.connection payload).1)
unfolding push do_write
pushed w payload o = elim o.position [
  | quiet q x f ↦ rw x (
      rw q (record {
        position = busy (encode_frame payload) [] refl refl refl;
        queued = queued_more w.accepted w.written [] payload (o.queued ∙ ap (w.written ++◌) q);
        one_begun =
            ap (λ l. l ++ encode_frame payload ∷ [])
              (o.one_begun ∙ ap (λ l. w.written ++ take 1 l) q ∙ append-nil w.written);
        told_once = o.told_once;
      }))
  | busy front rest q x f ↦ rw x (record {
    position =
        busy front (rest ++ encode_frame payload ∷ []) (ap (λ l. l ++ encode_frame payload ∷ []) q)
          refl f;
    queued = queued_more w.accepted w.written w.connection.write_queue payload o.queued;
    one_begun = rw q (o.one_begun ∙ ap (λ l. w.written ++ take 1 l) q);
    told_once = o.told_once;
  })
  | stuck front rest q x d f ↦ rw x (record {
    position =
        stuck front (rest ++ encode_frame payload ∷ []) (ap (λ l. l ++ encode_frame payload ∷ []) q)
          refl d f;
    queued = queued_more w.accepted w.written w.connection.write_queue payload o.queued;
    one_begun = rw q (o.one_begun ∙ ap (λ l. w.written ++ take 1 l) q);
    told_once = o.told_once;
  })
]

-- A send of a connection that is there.
send-open :
    (c : Connection) (payload : Bytes) → c.disconnected ≡ false → send c payload ≡ push c payload
unfolding send
send-open c payload e = rw e refl

accepts :
    (disconnected : Bool) (ps : List Bytes) (payload : Bytes)
    → disconnected ≡ false
    → (if disconnected then ps else ps ++ payload ∷ []) ≡ ps ++ payload ∷ []
accepts disconnected ps payload e = rw e refl

sent :
    (w : Wire) (payload : Bytes)
    → IsOrdered w
    → w.connection.disconnected ≡ false
    → IsOrdered (
        after
          (record w {
            accepted = if w.connection.disconnected then w.accepted else w.accepted ++ payload ∷ [];
          })
          (send w.connection payload).0
          (send w.connection payload).1)
sent w payload o e =
    subst
      (λ (ps : List Bytes). IsOrdered (
        after (record w { accepted = ps }) (send w.connection payload).0
          (send w.connection payload).1))
      (sym (accepts w.connection.disconnected w.accepted payload e))
      (subst (λ r. IsOrdered (after (record w { accepted = w.accepted ++ payload ∷ [] }) r.0 r.1))
        (sym (send-open w.connection payload e)) (pushed w payload o))

-- The handler of a write that went well.
completed :
    (w : Wire) (front : Bytes) (rest : List Bytes)
    → IsOrdered w
    → w.connection.write_queue ≡ front ∷ rest
    → w.connection.writing ≡ true
    → IsOrdered (
        after
          (record w { in_flight = none; written = w.written ++ front ∷ [] })
          (on_written w.connection false).0
          (on_written w.connection false).1)
unfolding on_written do_write
completed w front [] o q x = rw q (record {
  position = quiet refl refl refl;
  queued = o.queued ∙ ap (w.written ++◌) q ∙ sym (append-nil (w.written ++ front ∷ []));
  one_begun =
      o.one_begun ∙ ap (λ l. w.written ++ take 1 l) q ∙ sym (append-nil (w.written ++ front ∷ []));
  told_once = o.told_once;
})
completed w front (next ∷ rest) o q x = rw q (record {
  position = busy next rest refl x refl;
  queued =
      o.queued ∙ ap (w.written ++◌) q ∙ sym (append_assoc w.written (front ∷ []) (next ∷ rest));
  one_begun = ap (λ l. l ++ next ∷ []) (o.one_begun ∙ ap (λ l. w.written ++ take 1 l) q);
  told_once = o.told_once;
})

-- Whatever ends the connection.
left :
    (w : Wire) (in_flight : Option Bytes)
    → IsOrdered w
    → Position (record w.connection { disconnected = true }) in_flight
    → IsOrdered
        (after (record w { in_flight = in_flight }) (gone w.connection).0 (gone w.connection).1)
unfolding gone
left w in_flight o p = elim (Bool-cases w.connection.disconnected) [
  | inl d ↦ rw d (record {
    position = p;
    queued = o.queued;
    one_begun = o.one_begun;
    told_once = o.told_once ∙ ap (λ (b : Bool). if b then 1 else 0) d;
  })
  | inr d ↦ rw d (record {
    position = p;
    queued = o.queued;
    one_begun = o.one_begun;
    told_once = ap suc (o.told_once ∙ ap (λ (b : Bool). if b then 1 else 0) d);
  })
]

still :
    (c : Connection) (f : Option Bytes)
    → Position c f
    → Position (record c { disconnected = true }) f
still c f (quiet q x e) = quiet q x e
still c f (busy front rest q x e) = busy front rest q x e
still c f (stuck front rest q x d e) = stuck front rest q x refl e

failed_write :
    (c : Connection) (frame : Bytes) (f : Option Bytes)
    → Position c f
    → f ≡ some frame
    → Position (record c { disconnected = true }) none
failed_write c frame f (quiet q x e) h = cc
failed_write c frame f (busy front rest q x e) h = stuck front rest q x refl refl
failed_write c frame f (stuck front rest q x d e) h = cc

wrote-IsOrdered :
    (w : Wire) (frame : Bytes)
    → IsOrdered w
    → Position w.connection w.in_flight
    → w.in_flight ≡ some frame
    → IsOrdered (
        after
          (record w { in_flight = none; written = w.written ++ frame ∷ [] })
          (on_written w.connection false).0
          (on_written w.connection false).1)
wrote-IsOrdered w frame o (quiet q x e) h = cc
wrote-IsOrdered w frame o (busy front rest q x e) h =
    let same : frame ≡ front = ground arith in rw same (completed w front rest o q x)
wrote-IsOrdered w frame o (stuck front rest q x d e) h = cc

refused_header :
    (c : Connection) (header : Bytes)
    → header_of header ≡ none
    → on_header c false header ≡ ((gone c).0, closed ∷ (gone c).1)
unfolding on_header
refused_header c header e = rw (e, on_header) refl

allowed_header :
    (c : Connection) (header : Bytes) (length : ℕ)
    → header_of header ≡ some length
    → on_header c false header ≡ (c, reads_body length ∷ [])
unfolding on_header
allowed_header c header length e = rw (e, on_header) refl

header-IsOrdered :
    (w : Wire) (header : Bytes)
    → IsOrdered w
    → IsOrdered
        (after w (on_header w.connection false header).0 (on_header w.connection false header).1)
header-IsOrdered w header o = elim (Option-cases (header_of header)) [
  | inl e ↦
      subst (λ r. IsOrdered (after w r.0 r.1)) (sym (refused_header w.connection header e))
        (left w w.in_flight o (still w.connection w.in_flight o.position))
  | inr (length, e) ↦
      subst (λ r. IsOrdered (after w r.0 r.1)) (sym (allowed_header w.connection header length e)) o
]

marked :
    (w : Wire)
    → IsOrdered w
    → w.connection.disconnected ≡ true
    → IsOrdered (record w { connection = record w.connection { disconnected = true } })
marked w o d = record {
  position = still w.connection w.in_flight o.position;
  queued = o.queued;
  one_begun = o.one_begun;
  told_once = o.told_once ∙ ap (λ (b : Bool). if b then 1 else 0) d;
}

Step-IsOrdered : {w w' : Wire} → IsOrdered w → Step w w' → IsOrdered w'
unfolding on_written on_header on_body send
Step-IsOrdered {w} o (sends payload) = elim (Bool-cases w.connection.disconnected) [
  | inl d ↦ rw d (marked w o d)
  | inr d ↦ sent w payload o d
]
Step-IsOrdered {w} o (sends_late payload) = pushed w payload o
Step-IsOrdered {w} o (wrote frame e) = wrote-IsOrdered w frame o o.position e
Step-IsOrdered {w} o (write_failed frame e) =
    left w none o (failed_write w.connection frame w.in_flight o.position e)
Step-IsOrdered {w} o (header_read true header) =
    left w w.in_flight o (still w.connection w.in_flight o.position)
Step-IsOrdered {w} o (header_read false header) = header-IsOrdered w header o
Step-IsOrdered {w} o (body_read true body) =
    left w w.in_flight o (still w.connection w.in_flight o.position)
Step-IsOrdered o (body_read false body) = o

fresh-IsOrdered : IsOrdered fresh
fresh-IsOrdered = record {
  position = quiet refl refl refl;
  queued = refl;
  one_begun = refl;
  told_once = refl;
}

-- After any sends and outcomes: the frames of the accepted payloads, in the order of the sends, are
-- those that were written, followed by those that wait; of these at most the first one was begun, and
-- it is the one under way, if one is; and `on_disconnect_` was called once if the connection is gone,
-- and else not.
pub Reach-IsOrdered : {w : Wire} → Reach w → IsOrdered w
Reach-IsOrdered first = fresh-IsOrdered
Reach-IsOrdered (later r st) = Step-IsOrdered (Reach-IsOrdered r) st
