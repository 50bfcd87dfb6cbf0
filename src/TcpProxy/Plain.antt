-- ===== src/TcpProxy/Plain.antt =====
-- What proxy.go sends behind a new connection.
use hadock.Common.{
  ℕ, ◌+◌, ◌≡◌, refl, sym, ◌∙◌, true, false, List, [], ◌∷◌, ◌++◌, append-nil, append_assoc, Bytes,
  take,
}
use hadock.Hdk2udp.Relay.{Attempt, goes_out, fails, breaks}
use hadock.TcpProxy.{
  dial_proxy, Level, plain, Proxy, Event, reconnect, pass_on, pass_part, write_as, write, run,
}

-- What is sent of a write over the connection c: its bytes as they are, or the first of them where it
-- fails.
abbrev pub passed : Attempt → Event → ℕ → ℕ × Bytes
passed goes_out e c = (c, e.bytes)
passed _ e c = (c, take e.taken e.bytes)

abbrev pub next_conn : Attempt → ℕ → ℕ
next_conn (breaks true) c = c + 1
next_conn _ c = c

-- What is sent of writes, over connections from the number c on.
abbrev pub as_written : ℕ → List Event → List (ℕ × Bytes)
as_written c [] = []
as_written c (e ∷ es) = passed e.attempt e c ∷ as_written (next_conn e.attempt c) es

module _ {G : Type 0} (new_writer : Level → G) (deflate : G → Bytes → G × Bytes) where
  -- A proxy without compression.
  record IsPlain (c : ℕ) (p : Proxy G) : Type 0 where
    conn_lem : p.conn ≡ c
    writer_lem : p.writer ≡ plain c

  write_as-IsPlain :
      (a : Attempt) (e : Event) (c : ℕ) (p : Proxy G)
      → IsPlain c p
      → IsPlain (next_conn a c) (write_as new_writer deflate a e p)
        × ((write_as new_writer deflate a e p).sent ≡ p.sent ++ (passed a e c ∷ []))
  unfolding write_as pass_on reconnect
  write_as-IsPlain goes_out e c p h =
      rw h.writer_lem (record { conn_lem = h.conn_lem; writer_lem = refl }, refl)
  write_as-IsPlain fails e c p h =
      rw h.writer_lem (record { conn_lem = h.conn_lem; writer_lem = refl }, refl)
  write_as-IsPlain (breaks false) e c p h =
      rw h.writer_lem (record { conn_lem = h.conn_lem; writer_lem = refl }, refl)
  write_as-IsPlain (breaks true) e c p h =
      rw (h.writer_lem, h.conn_lem) (record { conn_lem = refl; writer_lem = refl }, refl)

  run-as_written :
      (c : ℕ) (es : List Event) (p : Proxy G)
      → IsPlain c p
      → (run new_writer deflate p es).sent ≡ p.sent ++ as_written c es
  unfolding run write
  run-as_written c [] p h = sym (append-nil p.sent)
  run-as_written c (e ∷ es) p h =
      let (q, s) = write_as-IsPlain e.attempt e c p h in
      run-as_written (next_conn e.attempt c) es (write_as new_writer deflate e.attempt e p) q
      ∙ rw s (append_assoc p.sent _ _)

  -- Whatever level DialProxy was given and whatever was written before: once a write has led to a
  -- new connection, nothing of the writes behind it is compressed. Over this connection and those
  -- that follow it go the bytes of each write as they are: all of them where the write succeeds, and
  -- where it fails the first of them, as many as the connection took; none are sent again.
  pub run-reconnected :
      (level : Bytes) (es fs : List Event) (e : Event)
      → e.attempt ≡ breaks true
      → let p =
          write new_writer deflate e
            (run new_writer deflate (dial_proxy new_writer deflate level) es) in
        (p.writer ≡ plain p.conn)
        × ((run new_writer deflate p fs).sent ≡ p.sent ++ as_written p.conn fs)
  unfolding write write_as reconnect
  run-reconnected level es fs e h =
      let q = run new_writer deflate (dial_proxy new_writer deflate level) es in
      let r = pass_part new_writer deflate q.writer e.bytes e.taken q in
      rw h (
        refl,
        run-as_written (r.conn + 1) fs (reconnect new_writer deflate r)
            (record { conn_lem = refl; writer_lem = refl }),
      )
