-- ===== src/Pop3/Actions.antt =====
-- STAT, LIST, DELE, NOOP, RSET, CAPA and the default action of src/parser/pop3_parserADT.c. An
-- action returns its result beside the new state.
pub mod Index
pub mod Reactions
pub mod Kept
pub mod Marks
use pdc_pop3d.Prelude.{
  ℕ, zero, suc, ◌+◌, ◌-◌, ◌%◌, ◌^◌, Bool, true, false, Option, none, some, List, [], ◌∷◌, ◌++◌, leb,
  ltb, length, ◌==◌, if◌then◌else◌, get_or, set, take, map_first, ℤ, pos, negsuc,
}
use pdc_pop3d.CString.{Bytes, codes, crlf}
use pdc_pop3d.Numbers.{decimal, atoi}
use pdc_pop3d.Pop3.Reply
use pdc_pop3d.Pop3.State.{
  ConnectionStatus, authorization, MailStatus, unchanged, deleted, Mail, Connection, State, Env, M,
  ◌>>=◌, ◌>>◌, pure, get, modify_conn, send_n, send_data,
}
use pdc_pop3d.Pop3.Files.{snprintf}

abbrev pub max_response_length : ℕ
max_response_length = 512

abbrev pub is_authorization : ConnectionStatus → Bool
is_authorization authorization = true
is_authorization _ = false

unfoldable pub sum_octets : ℕ → List Mail → ℕ
sum_octets acc [] = acc
sum_octets acc (m ∷ ms) = sum_octets ((acc + m.octets) % 2 ^ 64) ms

unfoldable pub calculate_total_email_bytes : Connection → ℕ
unfolding sum_octets
calculate_total_email_bytes c = sum_octets 0 (take c.num_emails c.mails)

-- A cell of `mails` behind the array; no valid index reaches it.
abbrev pub no_mail : Mail
no_mail = record { index = 0; octets = 0; filename = []; folder = []; status = unchanged }

-- `(size_t)mailIndex >= conn->num_emails || mailIndex < 0` at `mailIndex = atoi(argument) - 1`:
-- the index, if it is valid.
unfoldable pub mail_index : Bytes → ℕ → Option ℕ
mail_index argument num_emails = elim (atoi argument) [
  | pos n ↦ if n == 0 then none else if leb num_emails (n - 1) then none else some (n - 1)
  | negsuc n ↦ none
]

-- `mails[i].status = status`. A write behind the array is undefined: `none`.
unfoldable pub set_status : {D : Type 0} → ℕ → MailStatus → M D (Unit {0})
set_status i status s =
    if ltb i (length s.conn.mails)
    then modify_conn
        (λ c. record c {
          mails = set c.mails i (record (get_or c.mails i no_mail) { status = status });
        })
        s
    else none

-- "+OK %zu %zu\r\n"
unfoldable pub stat_response : ℕ → ℕ → Bytes
stat_response n total =
    snprintf max_response_length (codes "+OK " ++ decimal n ++ b' ' ∷ decimal total ++ crlf)

-- "+OK %zu messages:\r\n"
unfoldable pub list_header : ℕ → Bytes
list_header n =
    snprintf max_response_length (codes "+OK " ++ decimal n ++ codes " messages:" ++ crlf)

-- "%zu %zu\r\n" in a buffer of 64
unfoldable pub email_info : ℕ → Mail → Bytes
email_info i m = snprintf 64 (decimal (i + 1) ++ b' ' ∷ decimal m.octets ++ crlf)

module _ {D : Type 0} (env : Env D) where
  -- The answer to a command that is forbidden before a user has logged in.
  unfoldable pub forbidden : M D ℤ
  forbidden = do send_data env Reply.err_unknown_command; pure (negsuc 0)

  unfoldable pub stat_action : Bytes → M D ℤ
  stat_action argument = do
    s ← get
    if is_authorization s.conn.status then forbidden else (do
      send_n env (stat_response s.conn.num_emails (calculate_total_email_bytes s.conn))
      pure (pos 0))

  -- The loop over the mails, at index `i`.
  unfoldable pub list_from : ℕ → List Mail → M D (Unit {0})
  list_from i [] = pure tt
  list_from i (m ∷ ms) = send_n env (email_info i m) >> list_from (i + 1) ms

  unfoldable pub list_action : Bytes → M D ℤ
  unfolding list_from
  list_action argument = do
    s ← get
    if is_authorization s.conn.status then forbidden else (do
      send_n env (list_header s.conn.num_emails)
      list_from 0 (take s.conn.num_emails s.conn.mails)
      send_data env Reply.simple_dot
      pure (pos 0))

  unfoldable pub invalid_index : M D ℤ
  invalid_index = do send_data env Reply.err_invalid_email_index; pure (pos 1)

  unfoldable pub dele_action : Bytes → M D ℤ
  dele_action argument = do
    s ← get
    if is_authorization s.conn.status
        then forbidden
        else elim (mail_index argument s.conn.num_emails) [
          | none ↦ invalid_index
          | some i ↦ (do set_status i deleted; send_data env Reply.ok_marked_deleted; pure (pos 0))
        ]

  unfoldable pub noop_action : Bytes → M D ℤ
  noop_action argument = do
    s ← get
    if is_authorization s.conn.status
        then forbidden
        else (do send_data env Reply.ok_response; pure (pos 0))

  unfoldable pub rset_action : Bytes → M D ℤ
  rset_action argument = do
    s ← get
    if is_authorization s.conn.status then forbidden else (do
      modify_conn (λ c. record c {
        mails = map_first c.num_emails (λ m. record m { status = unchanged }) c.mails;
      })
      send_data env Reply.ok_response
      pure (pos 0))

  -- Both branches of the source send the same text.
  unfoldable pub capa_action : Bytes → M D ℤ
  capa_action argument = do
    s ← get
    if is_authorization s.conn.status
        then (do send_data env Reply.ok_capa; pure (pos 0))
        else (do send_data env Reply.ok_capa; pure (pos 0))

  unfoldable pub default_action : Bytes → M D ℤ
  default_action argument = do send_data env Reply.err_default_action; pure (pos 0)
