-- ===== src/Pop3/State/Kept.antt =====
-- What every step of a client's thread keeps of its `struct Connection`, src/server_utils.h.
use pdc_pop3d.Prelude.{◌≤◌, length, ◌≡◌, refl, inl, inr, Option-cases}
use pdc_pop3d.CString.{Bytes, cstr}
use pdc_pop3d.Step.Post.{pure-Post, none-Post, same-Post}
use pdc_pop3d.Step.Keeps.{Keeps, bind-Keeps, pure-Keeps, modify-Keeps}
use pdc_pop3d.Buffer.{Buffer}
use pdc_pop3d.Socket.{send_n_data}
use pdc_pop3d.Pop3.State.{
  Connection, Shared, State, Env, ◌>>◌, pure, modify_conn, modify_shared, send_n, send_data,
}
use pdc_pop3d.Pop3.State.Send.{after_send}
use pdc_pop3d.Pop3.Files.{max_emails}

-- The mails fit their array, and the read buffer is `b`.
pub record Holds (b : Buffer) (c : Connection) : Type 0 where
  pub cells : length c.mails ≡ max_emails
  pub room : c.num_emails ≤ max_emails
  pub read_is : c.info_read_buff ≡ b

module _ {D : Type 0} (env : Env D) (b : Buffer) where
  abbrev pub Sound : State D → Type 0
  Sound s = Holds b s.conn

  pub send_n-Keeps : (bytes : Bytes) → Keeps Sound (send_n env bytes)
  unfolding send_n
  send_n-Keeps bytes = record {
    kept = λ s i.
        elim (Option-cases (
          send_n_data env.kernel bytes s.conn.info_write_buff s.wire
            s.shared.stats.bytes_transfered)) [
              | inl e ↦ none-Post (λ _. Sound) (send_n env bytes) s (rw (e, send_n) refl)
              | inr ((b', w, n), e) ↦
                  same-Post (λ _. Sound) (send_n env bytes) (pure tt) s (after_send s b' w n)
                    (rw (e, send_n) refl)
                    (pure-Post (λ _. Sound) tt (after_send s b' w n)
                      (record { cells = i.cells; room = i.room; read_is = i.read_is }))
            ];
  }

  pub send_data-Keeps : (text : Bytes) → Keeps Sound (send_data env text)
  unfolding send_data
  send_data-Keeps text = send_n-Keeps (cstr text)

  -- A reply with a result.
  pub reply-Keeps : {A : Type 0} (text : Bytes) (a : A) → Keeps Sound (send_data env text >> pure a)
  reply-Keeps text a =
      bind-Keeps Sound (send_data env text) (λ _. pure a) (send_data-Keeps text)
        (λ _. pure-Keeps Sound a)

  pub modify_conn-Keeps :
      (f : Connection → Connection)
      → ((c : Connection) → Holds b c → Holds b (f c))
      → Keeps Sound (modify_conn f)
  modify_conn-Keeps f k = modify-Keeps Sound (λ s. record s { conn = f s.conn }) (λ s i. k s.conn i)

  pub modify_shared-Keeps : (f : Shared D → Shared D) → Keeps Sound (modify_shared f)
  modify_shared-Keeps f = modify-Keeps Sound (λ s. record s { shared = f s.shared }) (λ s i. i)
