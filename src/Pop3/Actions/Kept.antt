-- ===== src/Pop3/Actions/Kept.antt =====
-- The commands on a list of mails, src/parser/pop3_parserADT.c, keep its array and the read buffer.
use pdc_pop3d.Prelude.{
  ℕ, ◌+◌, ◌∙◌, Option, none, some, List, [], ◌∷◌, if◌then◌else◌, take, map_first, length, ltb,
  ltb→lt, Bool-cases, inl, inr, refl, length-map_first, ℤ, pos, negsuc,
}
use pdc_pop3d.CString.{Bytes}
use pdc_pop3d.Step.Post.{pure-Post, same-Post, none-Post}
use pdc_pop3d.Pop3.Actions.Marks.{length-mark, marked, set_status-run}
use pdc_pop3d.Step.Keeps.{Keeps, bind-Keeps, pure-Keeps, get-Keeps, if-Keeps}
use pdc_pop3d.Buffer.{Buffer}
use pdc_pop3d.Pop3.Reply
use pdc_pop3d.Pop3.State.{
  Connection, MailStatus, unchanged, deleted, Mail, State, Env, M, ◌>>=◌, ◌>>◌, pure, get,
  modify_conn, send_n, send_data,
}
use pdc_pop3d.Pop3.State.Kept.{Holds, Sound, send_n-Keeps, reply-Keeps, modify_conn-Keeps}
use pdc_pop3d.Pop3.Actions.{
  is_authorization, mail_index, set_status, stat_response, calculate_total_email_bytes, list_header,
  email_info, forbidden, stat_action, list_from, list_action, invalid_index, dele_action,
  noop_action, rset_action, capa_action, default_action,
}

module _ {D : Type 0} (env : Env D) (b : Buffer) where
  pub forbidden-Keeps : Keeps (Sound env b) (forbidden env)
  unfolding forbidden
  forbidden-Keeps = reply-Keeps env b Reply.err_unknown_command (negsuc 0)

  -- A command that is forbidden before a user has logged in.
  pub guarded-Keeps :
      (f : State D → M D ℤ)
      → ((s : State D) → Holds b s.conn → Keeps (Sound env b) (f s))
      → Keeps
          (Sound env b)
          (get >>= λ s. if is_authorization s.conn.status then forbidden env else f s)
  guarded-Keeps f k =
      get-Keeps (Sound env b) (λ s. if is_authorization s.conn.status then forbidden env else f s)
        (λ s i.
          if-Keeps (Sound env b) (is_authorization s.conn.status) (forbidden env) (f s)
            forbidden-Keeps (k s i))

  pub set_status-Keeps : (n : ℕ) (st : MailStatus) → Keeps (Sound env b) (set_status n st)
  unfolding set_status
  set_status-Keeps n st = record {
    kept = λ s i. elim (Bool-cases (ltb n (length s.conn.mails))) [
      | inl e ↦
          same-Post (λ _. Sound env b) (set_status n st) (pure tt) s (marked n st s)
            (set_status-run n st s (ltb→lt n (length s.conn.mails) e))
            (pure-Post (λ _. Sound env b) tt (marked n st s)
              (record {
                cells = length-mark n st s.conn.mails ∙ i.cells;
                room = i.room;
                read_is = i.read_is;
              }))
      | inr e ↦ none-Post (λ _. Sound env b) (set_status n st) s (rw e refl)
    ];
  }

  pub stat_action-Keeps : (argument : Bytes) → Keeps (Sound env b) (stat_action env argument)
  unfolding stat_action
  stat_action-Keeps argument =
      guarded-Keeps
        (λ s.
          send_n env (stat_response s.conn.num_emails (calculate_total_email_bytes s.conn))
          >> pure (pos 0))
        (λ s i.
          bind-Keeps (Sound env b) _ _
            (send_n-Keeps env b
              (stat_response s.conn.num_emails (calculate_total_email_bytes s.conn)))
            (λ _. pure-Keeps (Sound env b) (pos 0)))

  list_from-Keeps : (n : ℕ) (ms : List Mail) → Keeps (Sound env b) (list_from env n ms)
  unfolding list_from
  list_from-Keeps n [] = pure-Keeps (Sound env b) tt
  list_from-Keeps n (m ∷ ms) =
      bind-Keeps (Sound env b) (send_n env (email_info n m)) (λ _. list_from env (n + 1) ms)
        (send_n-Keeps env b (email_info n m)) (λ _. list_from-Keeps (n + 1) ms)

  pub list_action-Keeps : (argument : Bytes) → Keeps (Sound env b) (list_action env argument)
  unfolding list_action
  list_action-Keeps argument =
      let I = Sound env b in
      guarded-Keeps
        (λ s.
          send_n env (list_header s.conn.num_emails)
          >> (list_from env 0 (take s.conn.num_emails s.conn.mails)
              >> (send_data env Reply.simple_dot >> pure (pos 0))))
        (λ s i. bind-Keeps I _ _ (send_n-Keeps env b (list_header s.conn.num_emails)) (λ _.
          bind-Keeps I _ _ (list_from-Keeps 0 (take s.conn.num_emails s.conn.mails))
            (λ _. reply-Keeps env b Reply.simple_dot (pos 0))))

  pub invalid_index-Keeps : Keeps (Sound env b) (invalid_index env)
  unfolding invalid_index
  invalid_index-Keeps = reply-Keeps env b Reply.err_invalid_email_index (pos 1)

  abbrev dele_found : Option ℕ → M D ℤ
  dele_found o = elim o [
    | none ↦ invalid_index env
    | some i ↦ (do set_status i deleted; send_data env Reply.ok_marked_deleted; pure (pos 0))
  ]

  dele_found-Keeps : (o : Option ℕ) → Keeps (Sound env b) (dele_found o)
  dele_found-Keeps none = invalid_index-Keeps
  dele_found-Keeps (some n) =
      bind-Keeps (Sound env b) (set_status n deleted) _ (set_status-Keeps n deleted)
        (λ _. reply-Keeps env b Reply.ok_marked_deleted (pos 0))

  pub dele_action-Keeps : (argument : Bytes) → Keeps (Sound env b) (dele_action env argument)
  unfolding dele_action
  dele_action-Keeps argument =
      guarded-Keeps (λ s. dele_found (mail_index argument s.conn.num_emails))
        (λ s i. dele_found-Keeps (mail_index argument s.conn.num_emails))

  pub noop_action-Keeps : (argument : Bytes) → Keeps (Sound env b) (noop_action env argument)
  unfolding noop_action
  noop_action-Keeps argument =
      guarded-Keeps (λ s. send_data env Reply.ok_response >> pure (pos 0))
        (λ s i. reply-Keeps env b Reply.ok_response (pos 0))

  abbrev unmarked : Connection → Connection
  unmarked c = record c {
    mails = map_first c.num_emails (λ m. record m { status = unchanged }) c.mails;
  }

  pub rset_action-Keeps : (argument : Bytes) → Keeps (Sound env b) (rset_action env argument)
  unfolding rset_action
  rset_action-Keeps argument =
      guarded-Keeps (λ s. modify_conn unmarked >> (send_data env Reply.ok_response >> pure (pos 0)))
        (λ s i.
          bind-Keeps (Sound env b) (modify_conn unmarked) _
            (modify_conn-Keeps env b unmarked (λ c i. record {
              cells = length-map_first c.num_emails _ c.mails ∙ i.cells;
              room = i.room;
              read_is = i.read_is;
            }))
            (λ _. reply-Keeps env b Reply.ok_response (pos 0)))

  pub capa_action-Keeps : (argument : Bytes) → Keeps (Sound env b) (capa_action env argument)
  unfolding capa_action
  capa_action-Keeps argument =
      let capa : M D ℤ = send_data env Reply.ok_capa >> pure (pos 0) in
      get-Keeps (Sound env b) (λ s. if is_authorization s.conn.status then capa else capa)
        (λ s i.
          if-Keeps (Sound env b) (is_authorization s.conn.status) _ _
            (reply-Keeps env b Reply.ok_capa (pos 0)) (reply-Keeps env b Reply.ok_capa (pos 0)))

  pub default_action-Keeps : (argument : Bytes) → Keeps (Sound env b) (default_action env argument)
  unfolding default_action
  default_action-Keeps argument = reply-Keeps env b Reply.err_default_action (pos 0)
