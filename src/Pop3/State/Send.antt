-- ===== src/Pop3/State/Send.antt =====
-- What a reply does to the state of a connection.
use pdc_pop3d.Prelude.{
  ℕ, ◌+◌, ◌%◌, ◌^◌, ◌≤◌, ◌≡◌, refl, sym, ap, ◌∙◌, [], ◌++◌, append-nil, append_assoc, some, length,
  length-append, arith,
}
pub use pdc_pop3d.Step.{bind_run, then_run}
use pdc_pop3d.CString.{Bytes, IsText, cstr_of_text}
use pdc_pop3d.Buffer.{Buffer}
use pdc_pop3d.Socket.{Wire, IsHonest, IsReading, max_bytes}
use pdc_pop3d.Socket.Send.{IsFresh, Sent-all, send_n_data-Sent}
use pdc_pop3d.Pop3.State.{State, Env, send_n, send_data}

-- The state with another write buffer, wire and count of bytes.
abbrev pub after_send : {D : Type 0} → State D → Buffer → Wire → ℕ → State D
after_send s b w n = record s {
  conn = record s.conn { info_write_buff = b };
  shared = record s.shared { stats = record s.shared.stats { bytes_transfered = n } };
  wire = w;
}

module _ {D : Type 0} (env : Env D) where
  -- A connection between two replies: its write buffer is empty, the kernel is honest, and the peer
  -- goes on reading.
  pub record Ready (s : State D) : Type 0 where
    pub honest : IsHonest env.kernel
    pub reading : IsReading env.kernel
    pub fresh : IsFresh s.conn.info_write_buff

  -- `s'` is `s` after some output: all of it is on the wire, its bytes are counted in the statistics,
  -- which wrap around, the descriptor is as often closed as before, and the connection is ready for
  -- more. Nothing else has changed but the number of `send` calls and what lies in the cells of the
  -- write buffer, which is empty.
  pub record Sends (bytes : Bytes) (s s' : State D) : Type 0 where
    pub ready : Ready s'
    pub all_sent : s'.wire.sent ≡ s.wire.sent ++ bytes
    pub same_closes : s'.wire.closes ≡ s.wire.closes
    pub counted :
        s'.shared.stats.bytes_transfered % 2 ^ 64
        ≡ (s.shared.stats.bytes_transfered + length bytes) % 2 ^ 64
    pub frame : s' ≡ after_send s s'.conn.info_write_buff s'.wire s'.shared.stats.bytes_transfered

  pub Sends-refl : (s : State D) → Ready s → Sends [] s s
  Sends-refl s r = record {
    ready = r;
    all_sent = sym (append-nil s.wire.sent);
    same_closes = refl;
    counted = omega arith;
    frame = refl;
  }

  pub Sends-trans :
      (a b : Bytes) (s s' s'' : State D) → Sends a s s' → Sends b s' s'' → Sends (a ++ b) s s''
  Sends-trans a b s s' s'' p q = record {
    ready = q.ready;
    all_sent = q.all_sent ∙ ap (λ x. x ++ b) p.all_sent ∙ append_assoc s.wire.sent a b;
    same_closes = q.same_closes ∙ p.same_closes;
    counted = omega (arith, p.counted, q.counted, length-append a b);
    frame =
        q.frame
        ∙ ap (λ x. after_send x s''.conn.info_write_buff s''.wire s''.shared.stats.bytes_transfered)
            p.frame;
  }

  pub send_n-Sends :
      (bytes : Bytes) (s : State D)
      → Ready s
      → length bytes ≤ max_bytes
      → (s' : State D) × (send_n env bytes s ≡ some (tt, s')) × Sends bytes s s'
  unfolding send_n
  send_n-Sends bytes s r h =
      let n = s.shared.stats.bytes_transfered in
      let (b', w', run, sent) =
        send_n_data-Sent env.kernel bytes s.conn.info_write_buff s.wire n r.honest r.fresh h in
      (
        after_send s b' w' ((n + length bytes) % 2 ^ 64),
        rw (send_n, run),
        record {
          ready = record { honest = r.honest; reading = r.reading; fresh = sent.fresh };
          all_sent = Sent-all env.kernel bytes s.wire b' w' r.reading sent;
          same_closes = sent.same_closes;
          counted = omega arith;
          frame = refl;
        },
      )

  -- A constant reply: a string with no NUL in it.
  pub send_data-Sends :
      (text : Bytes) (s : State D)
      → Ready s
      → IsText text
      → length text ≤ max_bytes
      → (s' : State D) × (send_data env text s ≡ some (tt, s')) × Sends text s s'
  unfolding send_data
  send_data-Sends text s r t h = rw (cstr_of_text text t) (send_n-Sends text s r h)
