-- ===== src/Hdk2udp/Relay/Losses.antt =====
-- What sendTo of cmd/hdk2udp/main.go loses.
use hadock.Common.{
  ℕ, ◌+◌, ◌%◌, ◌≡◌, refl, sym, ◌∙◌, true, false, Option, none, some, List, [], ◌∷◌, ◌++◌,
  append-nil, append_assoc, Bytes, u16, arith,
}
use hadock.Hdk2udp.Parameters.{ParameterData, parameter_data}
use hadock.Hdk2udp.Relay.{
  Attempt, goes_out, fails, breaks, Turn, Sender, new_sender, write, log_write, send_marshalled,
  send_turn, send_to,
}

-- What goes out, and the connections that are made.
abbrev pub gone : Option Bytes → Attempt → ℕ → List (ℕ × Bytes)
gone none a c = []
gone (some bs) goes_out c = (c, bs) ∷ []
gone (some bs) fails c = []
gone (some bs) (breaks b) c = []

abbrev pub dialled : Option Bytes → Attempt → ℕ
dialled (some bs) (breaks true) = 1
dialled _ _ = 0

abbrev pub failed : Option Bytes → ℕ → List ℕ
failed none i = i ∷ []
failed (some bs) i = []

module _ (channel_int32 acquisition_time generation_time : ℕ → ℕ)
    (encode : ParameterData → Option Bytes) (n : Bytes) where
  -- The k-th message, encoded under its number.
  abbrev pub encoded : ℕ → Turn → Option Bytes
  encoded k t =
      encode (
        parameter_data channel_int32 acquisition_time generation_time t.now t.message n (k % 65536))

  -- What arrives of turns that begin by the k-th message, over connections from the number c on.
  abbrev pub arrivals_from : ℕ → ℕ → List Turn → List (ℕ × Bytes)
  arrivals_from k c [] = []
  arrivals_from k c (t ∷ ts) =
      gone (encoded k t) t.attempt c
      ++ arrivals_from (k + 1) (c + dialled (encoded k t) t.attempt) ts

  -- The numbers of the messages that cannot be encoded.
  abbrev pub failures_from : ℕ → List Turn → List ℕ
  failures_from k [] = []
  failures_from k (t ∷ ts) = failed (encoded k t) (k % 65536) ++ failures_from (k + 1) ts

  -- What a turn adds.
  record IsTurned (o : Option Bytes) (a : Attempt) (s r : Sender) : Type 0 where
    same_i : r.i ≡ s.i
    connection_lem : r.connection ≡ s.connection + dialled o a
    arrived_lem : r.arrived ≡ s.arrived ++ gone o a s.connection
    marshal_errors_lem : r.marshal_errors ≡ s.marshal_errors ++ failed o s.i
    same_write_errors : r.write_errors ≡ s.write_errors

  send_marshalled-IsTurned :
      (o : Option Bytes) (a : Attempt) (s : Sender)
      → IsTurned o a s (send_marshalled channel_int32 acquisition_time generation_time encode o a s)
  unfolding send_marshalled log_write write
  send_marshalled-IsTurned none a s = record {
    same_i = refl;
    connection_lem = omega arith;
    arrived_lem = sym (append-nil s.arrived);
    marshal_errors_lem = refl;
    same_write_errors = refl;
  }
  send_marshalled-IsTurned (some bs) goes_out s = record {
    same_i = refl;
    connection_lem = omega arith;
    arrived_lem = refl;
    marshal_errors_lem = sym (append-nil s.marshal_errors);
    same_write_errors = refl;
  }
  send_marshalled-IsTurned (some bs) fails s = record {
    same_i = refl;
    connection_lem = omega arith;
    arrived_lem = sym (append-nil s.arrived);
    marshal_errors_lem = sym (append-nil s.marshal_errors);
    same_write_errors = refl;
  }
  send_marshalled-IsTurned (some bs) (breaks false) s = record {
    same_i = refl;
    connection_lem = omega arith;
    arrived_lem = sym (append-nil s.arrived);
    marshal_errors_lem = sym (append-nil s.marshal_errors);
    same_write_errors = refl;
  }
  send_marshalled-IsTurned (some bs) (breaks true) s = record {
    same_i = refl;
    connection_lem = refl;
    arrived_lem = sym (append-nil s.arrived);
    marshal_errors_lem = sym (append-nil s.marshal_errors);
    same_write_errors = refl;
  }

  -- What some turns add.
  pub record IsSent (k : ℕ) (ts : List Turn) (s r : Sender) : Type 0 where
    pub arrived_lem : r.arrived ≡ s.arrived ++ arrivals_from k s.connection ts
    pub marshal_errors_lem : r.marshal_errors ≡ s.marshal_errors ++ failures_from k ts
    pub same_write_errors : r.write_errors ≡ s.write_errors

  send_to_from :
      (k : ℕ) (ts : List Turn) (s : Sender)
      → s.i ≡ k % 65536
      → IsSent (k + 1) ts s (send_to channel_int32 acquisition_time generation_time encode n ts s)
  unfolding send_to send_turn
  send_to_from k [] s h = record {
    arrived_lem = sym (append-nil s.arrived);
    marshal_errors_lem = sym (append-nil s.marshal_errors);
    same_write_errors = refl;
  }
  send_to_from k (t ∷ ts) s h =
      let e : u16 (s.i + 1) ≡ (k + 1) % 65536 = omega arith in
      let o = encoded (k + 1) t in
      let s' : Sender = record s { i = (k + 1) % 65536 } in
      let r =
        send_marshalled channel_int32 acquisition_time generation_time encode o t.attempt s' in
      let turned = send_marshalled-IsTurned o t.attempt s' in
      let sent = send_to_from (k + 1) ts r turned.same_i in
      rw e (record {
        arrived_lem =
            sent.arrived_lem
            ∙ rw (turned.arrived_lem, turned.connection_lem) (append_assoc s.arrived _ _);
        marshal_errors_lem =
            sent.marshal_errors_lem
            ∙ rw turned.marshal_errors_lem (append_assoc s.marshal_errors _ _);
        same_write_errors = sent.same_write_errors ∙ turned.same_write_errors;
      })

  -- Whatever turns there are: conn.Write never reports an error, so that sendTo logs none; what arrives
  -- are the messages that are encoded and whose write goes out, each under the number of its turn modulo
  -- 2 ^ 16 and over the last connection that was made, and nothing of the others is sent later; the
  -- messages that cannot be encoded are logged, and use up their numbers as well.
  pub send_to-arrivals_from :
      (ts : List Turn)
      → let s = send_to channel_int32 acquisition_time generation_time encode n ts new_sender in
        (s.arrived ≡ arrivals_from 1 0 ts)
        × (s.marshal_errors ≡ failures_from 1 ts)
        × (s.write_errors ≡ [])
  send_to-arrivals_from ts =
      let h = send_to_from 0 ts new_sender refl in
      (h.arrived_lem, h.marshal_errors_lem, h.same_write_errors)
