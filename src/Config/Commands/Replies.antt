-- ===== src/Config/Commands/Replies.antt =====
-- The actions of src/parser/config_parserADT.c do what their outcome says.
use pdc_pop3d.Prelude.{
  true, false, ◌||◌, ◌≡◌, refl, sym, subst, append-nil, [], ◌++◌, ltb, ◌==◌, if◌then◌else◌, ℤ, pos,
  negsuc, Bool-cases, inl, inr,
}
use pdc_pop3d.CString.{Bytes, codes, strlen, equal}
use pdc_pop3d.Numbers.{decimal_int}
use pdc_pop3d.Global.{GlobalConfiguration}
use pdc_pop3d.Step.{◌>>=◌, ◌>>◌, pure, get}
use pdc_pop3d.Config.State.{ConfigState, Udp, C, say}
use pdc_pop3d.Config.State.Runs.{
  IsWorking, IsIdle, sent, after, Runs, pure-Runs, bind-Runs, get-Runs, modify-Runs, say-Runs,
  say_then-Runs,
}
use pdc_pop3d.Config.Texts
use pdc_pop3d.Config.Commands
use pdc_pop3d.Config.Commands.Outcome.{Outcome, line, named, answered, command_outcome}

abbrev transformation_text : GlobalConfiguration → Bytes
transformation_text c =
    if c.transformation then Texts.suc_transformation_true else Texts.suc_transformation_false

module _ (udp : Udp) (works : IsWorking udp) where
  -- A step from a state with an idle buffer that has the outcome `o`.
  abbrev pub Has : C ℤ → ConfigState → Outcome → Type 0
  Has m s o = Runs m s o.code o.conf o.datagrams

  pub report-Runs :
      (label value : Bytes) (s : ConfigState)
      → IsIdle s.server.info_write_buff
      → Runs (Commands.report udp label value) s (pos 0) s.conf (line label value)
  unfolding Commands.report
  report-Runs label value s i =
      bind-Runs (say udp label) _ s tt (pos 0) s.conf s.conf (sent label)
        (sent value ++ sent Texts.new_line) (say-Runs udp works label s i)
        (λ w k j.
          bind-Runs (say udp value) _ (after s s.conf (sent label) w k) tt (pos 0) s.conf s.conf
            (sent value) (sent Texts.new_line)
            (say-Runs udp works value (after s s.conf (sent label) w k) j)
            (λ w' k' j'. say_then-Runs udp works Texts.new_line (pos 0) _ j'))

  -- A change of the configuration, and the report of what stands there then.
  set_report-Runs :
      (f : GlobalConfiguration → GlobalConfiguration) (read : GlobalConfiguration → Bytes)
      (label v : Bytes) (s : ConfigState)
      → read (f s.conf) ≡ v
      → IsIdle s.server.info_write_buff
      → Runs
          (Commands.configure f >> (get >>= λ s. Commands.report udp label (read s.conf)))
          s
          (pos 0)
          (f s.conf)
          (line label v)
  set_report-Runs f read label v s r i = modify-Runs f _ s (pos 0) (f s.conf) (line label v) (
      get-Runs (λ s. Commands.report udp label (read s.conf)) (record s { conf = f s.conf }) (pos 0)
        (f s.conf) (line label v)
        (subst
          (λ x.
            Runs (Commands.report udp label x) (record s { conf = f s.conf }) (pos 0) (f s.conf)
              (line label v))
          (sym r) (report-Runs label v (record s { conf = f s.conf }) i)))

  settrf-Runs :
      (v : Bytes) (s : ConfigState)
      → IsIdle s.server.info_write_buff
      → Has (Commands.settrf_action udp v) s (command_outcome Commands.settrf v s.conf s.stats)
  unfolding Commands.settrf_action command_outcome
  settrf-Runs v s i = elim (Bool-cases (equal v (codes "true"))) [
    | inl e ↦ rw e (
        modify-Runs (λ c. record c { transformation = true }) _ s (pos 0) _ _
          (say_then-Runs udp works Texts.suc_new_transformation_true (pos 0) _ i))
    | inr e ↦ elim (Bool-cases (equal v (codes "false"))) [
      | inl f ↦
          rw (e, f)
            (modify-Runs (λ c. record c { transformation = false }) _ s (pos 0) _ _
              (say_then-Runs udp works Texts.suc_new_transformation_false (pos 0) _ i))
      | inr f ↦
          rw (e, f) (say_then-Runs udp works Texts.suc_new_transformation_false (negsuc 0) s i)
    ]
  ]

  setatt-Runs :
      (v : Bytes) (s : ConfigState)
      → IsIdle s.server.info_write_buff
      → Has (Commands.setatt_action udp v) s (command_outcome Commands.setatt v s.conf s.stats)
  unfolding Commands.setatt_action command_outcome
  setatt-Runs v s i = elim (Bool-cases (strlen v == 10)) [
    | inl e ↦ rw e (
        set_report-Runs (λ c. record c { authorization_token = v }) (λ c. c.authorization_token)
          Texts.suc_new_auth_token v s refl i)
    | inr e ↦ rw e (say_then-Runs udp works Texts.err_auth_token_length (pos 0) s i)
  ]

  -- The test of a name that is refused, and of one that is taken.
  refused-Runs :
      (v : Bytes) (s : ConfigState)
      → IsIdle s.server.info_write_buff
      → (strlen v == 0 || ltb Commands.max_bytes_names (strlen v)) ≡ true
      → Runs (Commands.validate_arg_size udp v) s false s.conf (sent Texts.err_argument_size)
  unfolding Commands.validate_arg_size
  refused-Runs v s i e = rw e (say_then-Runs udp works Texts.err_argument_size false s i)

  taken-Runs :
      (v : Bytes) (s : ConfigState)
      → IsIdle s.server.info_write_buff
      → (strlen v == 0 || ltb Commands.max_bytes_names (strlen v)) ≡ false
      → Runs (Commands.validate_arg_size udp v) s true s.conf []
  unfolding Commands.validate_arg_size
  taken-Runs v s i e = rw e (pure-Runs true s i)

  set_name-Runs :
      (f : Bytes → GlobalConfiguration → GlobalConfiguration) (read : GlobalConfiguration → Bytes)
      (label v : Bytes) (s : ConfigState)
      → ((c : GlobalConfiguration) → read (f v c) ≡ v)
      → IsIdle s.server.info_write_buff
      → Has
          (Commands.set_name udp f read label v)
          s
          (named v s.conf (answered (f v s.conf) (line label v)))
  unfolding Commands.set_name
  set_name-Runs f read label v s r i =
      elim (Bool-cases (strlen v == 0 || ltb Commands.max_bytes_names (strlen v))) [
        | inl e ↦ rw e (
            subst (Runs (Commands.set_name udp f read label v) s (pos 1) s.conf)
              (append-nil (sent Texts.err_argument_size))
              (bind-Runs (Commands.validate_arg_size udp v) _ s false (pos 1) s.conf s.conf
                (sent Texts.err_argument_size) [] (refused-Runs v s i e)
                (λ w k j. pure-Runs (pos 1) _ j)))
        | inr e ↦ rw e (
            bind-Runs (Commands.validate_arg_size udp v) _ s true (pos 0) s.conf (f v s.conf) []
              (line label v) (taken-Runs v s i e)
              (λ w k j. set_report-Runs (f v) read label v (after s s.conf [] w k) (r s.conf) j))
      ]

  -- A report of what the state holds.
  reporting-Runs :
      (label : Bytes) (value : ConfigState → Bytes) (s : ConfigState)
      → IsIdle s.server.info_write_buff
      → Runs
          (get >>= λ s. Commands.report udp label (value s))
          s
          (pos 0)
          s.conf
          (line label (value s))
  reporting-Runs label value s i =
      get-Runs (λ s. Commands.report udp label (value s)) s (pos 0) s.conf (line label (value s))
        (report-Runs label (value s) s i)

  pub config_action-Runs :
      (c : Commands.ConfigCommand) (v : Bytes) (s : ConfigState)
      → IsIdle s.server.info_write_buff
      → Has (Commands.config_action udp c v) s (command_outcome c v s.conf s.stats)
  unfolding Commands.config_action command_outcome Commands.getbuf_action Commands.getlgf_action
      Commands.getmdf_action Commands.getatt_action Commands.getinf_action Commands.gettfn_action
      Commands.settfn_action Commands.setlgf_action Commands.setmdf_action Commands.gethtu_action
      Commands.getccu_action Commands.getbtf_action Commands.gettrf_action
      Commands.config_default_action
  config_action-Runs Commands.getbuf v s i =
      reporting-Runs Texts.suc_buffer_size (λ s. decimal_int s.conf.buffers_size) s i
  config_action-Runs Commands.getlgf v s i =
      reporting-Runs Texts.suc_logs_folder (λ s. s.conf.logs_folder) s i
  config_action-Runs Commands.getmdf v s i =
      reporting-Runs Texts.suc_maildir_folder (λ s. s.conf.maildir_folder) s i
  config_action-Runs Commands.getatt v s i =
      reporting-Runs Texts.suc_auth_token (λ s. s.conf.authorization_token) s i
  config_action-Runs Commands.getinf v s i = say_then-Runs udp works Texts.suc_inf (pos 0) s i
  config_action-Runs Commands.gettfn v s i =
      reporting-Runs Texts.suc_transformation_function (λ s. s.conf.transformation_script) s i
  config_action-Runs Commands.settfn v s i =
      set_name-Runs (λ v c. record c { transformation_script = v }) (λ c. c.transformation_script)
        Texts.suc_new_transformation_function v s (λ c. refl) i
  config_action-Runs Commands.setlgf v s i =
      set_name-Runs (λ v c. record c { logs_folder = v }) (λ c. c.logs_folder)
        Texts.suc_new_logs_folder v s (λ c. refl) i
  config_action-Runs Commands.setmdf v s i =
      set_name-Runs (λ v c. record c { maildir_folder = v }) (λ c. c.maildir_folder)
        Texts.suc_new_maildir_folder v s (λ c. refl) i
  config_action-Runs Commands.setatt v s i = setatt-Runs v s i
  config_action-Runs Commands.gethtu v s i =
      reporting-Runs Texts.suc_historic_total_users (λ s. decimal_int s.stats.total_clients) s i
  config_action-Runs Commands.getccu v s i =
      reporting-Runs Texts.suc_concurrent_users (λ s. decimal_int s.stats.concurrent_clients) s i
  config_action-Runs Commands.getbtf v s i =
      reporting-Runs Texts.suc_bytes_transferred (λ s. decimal_int s.stats.concurrent_clients) s i
  config_action-Runs Commands.gettrf v s i =
      get-Runs (λ s. say udp (transformation_text s.conf) >> pure (pos 0)) s (pos 0) s.conf
        (sent (transformation_text s.conf))
        (say_then-Runs udp works (transformation_text s.conf) (pos 0) s i)
  config_action-Runs Commands.settrf v s i = settrf-Runs v s i
  config_action-Runs Commands.error_command v s i =
      say_then-Runs udp works Texts.err_unknown_command (pos 0) s i
