-- ===== src/Server/ClientSession/Wire.antt =====
-- The connection of `ClientSession` (server/src/client_session.cpp) with its operations under way.
use collaborative_text_edito.Common.{
  ℕ, suc, ◌≡◌, Bool, true, false, Option, none, some, List, [], ◌∷◌, ◌++◌, map, Bytes, take,
  if◌then◌else◌,
}
use collaborative_text_edito.Protocol.Frame.{encode_frame}
use collaborative_text_edito.Server.ClientSession.{
  Connection, Effect, writes, disconnect, opened, push, send, on_written, on_header, on_body,
}

-- The connection with the write that is under way, and what has happened: the payloads of the sends
-- that were not refused, the frames whose writing was begun, those that were written, and how often
-- `on_disconnect_` was called.
pub record Wire : Type 0 where
  pub connection : Connection
  pub in_flight : Option Bytes
  pub accepted : List Bytes
  pub begun : List Bytes
  pub written : List Bytes
  pub told : ℕ

abbrev pub noted : Wire → Effect → Wire
noted w (writes frame) = record w { in_flight = some frame; begun = w.begun ++ frame ∷ [] }
noted w disconnect = record w { told = suc w.told }
noted w _ = w

abbrev pub after : Wire → Connection → List Effect → Wire
after w c [] = record w { connection = c }
after w c (e ∷ es) = after (noted w e) c es

-- `send` looks at `disconnected_` before it takes the lock: in `sends_late` the connection may have
-- gone since. The outcome of a write comes once for each write that was begun; the outcomes of reads may come at
-- any time.
pub data Step (w : Wire) : Wire → Type 0 where
  sends :
      (payload : Bytes)
      → Step w (
          after
            (record w {
              accepted =
                  if w.connection.disconnected then w.accepted else w.accepted ++ payload ∷ [];
            })
            (send w.connection payload).0
            (send w.connection payload).1)
  sends_late :
      (payload : Bytes)
      → Step w (
          after
            (record w { accepted = w.accepted ++ payload ∷ [] })
            (push w.connection payload).0
            (push w.connection payload).1)
  wrote :
      (frame : Bytes)
      → w.in_flight ≡ some frame
      → Step w (
          after
            (record w { in_flight = none; written = w.written ++ frame ∷ [] })
            (on_written w.connection false).0
            (on_written w.connection false).1)
  write_failed :
      (frame : Bytes)
      → w.in_flight ≡ some frame
      → Step w (
          after
            (record w { in_flight = none })
            (on_written w.connection true).0
            (on_written w.connection true).1)
  header_read :
      (failed : Bool) (header : Bytes)
      → Step w (
          after w (on_header w.connection failed header).0 (on_header w.connection failed header).1)
  body_read :
      (failed : Bool) (body : Bytes)
      → Step w (after w (on_body w.connection failed body).0 (on_body w.connection failed body).1)

abbrev pub fresh : Wire
fresh = record {
  connection = opened;
  in_flight = none;
  accepted = [];
  begun = [];
  written = [];
  told = 0;
}

pub data Reach : Wire → Type 0 where
  first : Reach fresh
  later : {w w' : Wire} → Reach w → Step w w' → Reach w'

-- Where the write that is under way stands in the queue; after a failure none is.
pub data Position (c : Connection) (in_flight : Option Bytes) : Type 0 where
  quiet : c.write_queue ≡ [] → c.writing ≡ false → in_flight ≡ none → Position c in_flight
  busy :
      (front : Bytes) (rest : List Bytes)
      → c.write_queue ≡ front ∷ rest
      → c.writing ≡ true
      → in_flight ≡ some front
      → Position c in_flight
  stuck :
      (front : Bytes) (rest : List Bytes)
      → c.write_queue ≡ front ∷ rest
      → c.writing ≡ true
      → c.disconnected ≡ true
      → in_flight ≡ none
      → Position c in_flight

pub record IsOrdered (w : Wire) : Type 0 where
  pub position : Position w.connection w.in_flight
  pub queued : map encode_frame w.accepted ≡ w.written ++ w.connection.write_queue
  pub one_begun : w.begun ≡ w.written ++ take 1 w.connection.write_queue
  pub told_once : w.told ≡ (if w.connection.disconnected then 1 else 0)
