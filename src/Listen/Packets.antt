-- ===== src/Listen/Packets.antt =====
-- ListenPackets of cmd/hadock/listen.go: the connections that are accepted, each with a goroutine that
-- sends the packets it decodes to one queue, as a step relation.
pub mod Origins
use hadock.Common.{
  Bool, true, false, ℕ, ◌+◌, ◌<◌, ◌≡◌, List, [], ◌∷◌, ◌++◌, Bytes, length, ◌==◌, if◌then◌else◌,
}
use hadock.Proto.{Packet}

-- `size == 0` makes room for one packet.
abbrev pub queue_capacity : ℕ → ℕ
queue_capacity size = if size == 0 then 1 else size

-- What was sent over each connection, in the order in which they were accepted; what the goroutine
-- of each has still to send to the queue; the queue; and what was received from it. A packet in the
-- queue stands with the number of its connection, which the program does not keep. Last, whether the
-- queue was closed, and whether a goroutine has panicked, which ends the program.
pub record Server : Type 0 where
  pub accepted : List Bytes
  pub pending : ℕ → List Packet
  pub queue : List (ℕ × Packet)
  pub received : List (ℕ × Packet)
  pub closed : Bool
  pub panicked : Bool

abbrev pub new_server : Server
new_server = record {
  accepted = [];
  pending = λ k. [];
  queue = [];
  received = [];
  closed = false;
  panicked = false;
}

-- An error of s.Accept: the queue is closed, whatever connections there are.
abbrev pub close_queue : Server → Server
close_queue s = record s { closed = true }

-- A send to the queue once it is closed.
abbrev pub panic : Server → Server
panic s = record s { panicked = true }

abbrev pub set_pending : ℕ → List Packet → (ℕ → List Packet) → ℕ → List Packet
set_pending k ps f j = if j == k then ps else f j

-- `decode` gives the packets of the bytes of a connection. What the cascading proxy takes of them does not
-- change them: its Write reports no error.
module _ (capacity : ℕ) (decode : Bytes → List Packet) where
  -- s.Accept
  abbrev pub accept_conn : Bytes → Server → Server
  accept_conn bs s = record s {
    accepted = s.accepted ++ (bs ∷ []);
    pending = set_pending (length s.accepted) (decode bs) s.pending;
  }

  -- q <- p
  abbrev pub enqueue_packet : ℕ → Packet → List Packet → Server → Server
  enqueue_packet k p ps s = record s {
    pending = set_pending k ps s.pending;
    queue = s.queue ++ ((k, p) ∷ []);
  }

  -- The loop of Convert takes a packet.
  abbrev pub dequeue : ℕ × Packet → List (ℕ × Packet) → Server → Server
  dequeue x xs s = record s { queue = xs; received = s.received ++ (x ∷ []) }

  pub data Step : Server → Server → Type 0 where
    accepts :
        (bs : Bytes) (s : Server)
        → s.closed ≡ false
        → s.panicked ≡ false
        → Step s (accept_conn bs s)
    accept_fails : (s : Server) → s.closed ≡ false → s.panicked ≡ false → Step s (close_queue s)
    sends :
        (k : ℕ) (p : Packet) (ps : List Packet) (s : Server)
        → s.pending k ≡ p ∷ ps
        → length s.queue < capacity
        → s.closed ≡ false
        → s.panicked ≡ false
        → Step s (enqueue_packet k p ps s)
    send_panics :
        (k : ℕ) (p : Packet) (ps : List Packet) (s : Server)
        → s.pending k ≡ p ∷ ps
        → s.closed ≡ true
        → s.panicked ≡ false
        → Step s (panic s)
    takes :
        (x : ℕ × Packet) (xs : List (ℕ × Packet)) (s : Server)
        → s.queue ≡ x ∷ xs
        → s.panicked ≡ false
        → Step s (dequeue x xs s)

  -- The states that ListenPackets comes to.
  pub data Reach : Server → Type 0 where
    start : Reach new_server
    later : {s t : Server} → Reach s → Step s t → Reach t
