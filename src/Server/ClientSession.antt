-- ===== src/Server/ClientSession.antt =====
-- server/src/client_session.cpp, server/include/server/client_session.h: the socket of a client. Each
-- function returns the new state and, in their order, the asynchronous operations that it starts and
-- the callbacks that it makes; the handler of an operation is a function that takes its outcome. A
-- handler that holds the lock is one step.
pub mod Wire
pub mod Writing
pub mod Received
pub mod Reading
use collaborative_text_edito.Common.{
  ℕ, ◌+◌, Bool, true, false, Option, none, some, List, [], ◌∷◌, ◌++◌, Bytes, if◌then◌else◌,
}
use collaborative_text_edito.Protocol.Frame.{encode_frame, header_of}

pub record Connection : Type 0 where
  pub write_queue : List Bytes
  pub writing : Bool
  pub disconnected : Bool

pub data Effect : Type 0 where
  reads_header : Effect
  reads_body : (length : ℕ) → Effect
  writes : Bytes → Effect
  message : Bytes → Effect
  disconnect closed : Effect

abbrev pub opened : Connection
opened = record { write_queue = []; writing = false; disconnected = false }

unfoldable pub start : List Effect
start = reads_header ∷ []

-- `if (!disconnected_.exchange(true)) on_disconnect_(self);`
unfoldable pub gone : Connection → Connection × List Effect
gone c = (record c { disconnected = true }, if c.disconnected then [] else disconnect ∷ [])

unfoldable pub do_write : Connection → Connection × List Effect
do_write c = elim c.write_queue [
  | [] ↦ (record c { writing = false }, [])
  | front ∷ rest ↦ (c, writes front ∷ [])
]

-- What `send` does with the lock held.
unfoldable pub push : Connection → Bytes → Connection × List Effect
unfolding do_write encode_frame
push c payload =
    let c' = record c { write_queue = c.write_queue ++ encode_frame payload ∷ [] } in
    if c.writing then (c', []) else do_write (record c' { writing = true })

unfoldable pub send : Connection → Bytes → Connection × List Effect
unfolding push
send c payload = if c.disconnected then (c, []) else push c payload

abbrev pub popped : List Bytes → List Bytes
popped [] = []
popped (front ∷ rest) = rest

-- The handler of `async_write`.
unfoldable pub on_written : Connection → (failed : Bool) → Connection × List Effect
unfolding gone do_write
on_written c true = gone c
on_written c false =
    let c' = record c { write_queue = popped c.write_queue } in
    elim c'.write_queue [ [] ↦ (record c' { writing = false }, []) | front ∷ rest ↦ do_write c' ]

-- The handlers of the two `async_read`.
unfoldable pub on_header : Connection → (failed : Bool) → Bytes → Connection × List Effect
unfolding gone
on_header c true header = gone c
on_header c false header = elim (header_of header) [
  | none ↦ (let (c', told) = gone c in (c', closed ∷ told))
  | some length ↦ (c, reads_body length ∷ [])
]

unfoldable pub on_body : Connection → (failed : Bool) → Bytes → Connection × List Effect
unfolding gone
on_body c true body = gone c
on_body c false body = (c, message body ∷ reads_header ∷ [])
