-- ===== src/Config/Commands/Bounds.antt =====
-- The commands of src/parser/config_parserADT.c keep the strings of the configuration within the
-- arrays of `struct GlobalConfiguration`, src/global_config.h.
use pdc_pop3d.Prelude.{
  ◌≤◌, ◌<◌, ◌≡◌, refl, Bool, true, false, not, ◌||◌, ◌++◌, if◌then◌else◌, ◌==◌, ltb, arith, pos,
  negsuc,
}
use pdc_pop3d.CString.{Bytes, codes, strlen, equal}
use pdc_pop3d.Step.{◌>>=◌, ◌>>◌, pure, get}
use pdc_pop3d.Step.Post.{Post, pure-Post, unless-Post, bind-Post}
use pdc_pop3d.Step.Keeps.{Keeps, bind-Keeps, pure-Keeps, modify-Keeps, get-Keeps, if-Keeps}
use pdc_pop3d.Numbers.{decimal_int}
use pdc_pop3d.Global.{GlobalConfiguration}
use pdc_pop3d.Config.Automaton.{Request}
use pdc_pop3d.Config.State.{ConfigState, Udp, C, is_minus_one, say}
use pdc_pop3d.Config.State.Send.{say-Keeps}
use pdc_pop3d.Config.Texts
use pdc_pop3d.Config.Commands
use pdc_pop3d.Text.{has_argument, strncasecmp}

-- `logs_folder[256]`, `maildir_folder[256]`, `authorization_token[11]` and
-- `transformation_script[10000]`, each with room for the NUL.
pub record FitsArrays (c : GlobalConfiguration) : Type 0 where
  pub logs_fits : strlen c.logs_folder < 256
  pub maildir_fits : strlen c.maildir_folder < 256
  pub token_fits : strlen c.authorization_token < 11
  pub script_fits : strlen c.transformation_script < 10000

abbrev pub Safe : ConfigState → Type 0
Safe s = FitsArrays s.conf

with_strings :
    {c : GlobalConfiguration}
    → strlen c.logs_folder < 256
    → strlen c.maildir_folder < 256
    → strlen c.authorization_token < 11
    → strlen c.transformation_script < 10000
    → FitsArrays c
with_strings l m t s = record { logs_fits = l; maildir_fits = m; token_fits = t; script_fits = s }

module _ (udp : Udp) where
  report-Keeps : (label value : Bytes) → Keeps Safe (Commands.report udp label value)
  unfolding Commands.report
  report-Keeps label value =
      bind-Keeps Safe (say udp label) _ (say-Keeps udp FitsArrays label) (λ _.
        bind-Keeps Safe (say udp value) _ (say-Keeps udp FitsArrays value) (λ _.
          bind-Keeps Safe (say udp Texts.new_line) _ (say-Keeps udp FitsArrays Texts.new_line)
            (λ _. pure-Keeps Safe (pos 0))))

  pub say_then-Keeps : {A : Type 0} (text : Bytes) (a : A) → Keeps Safe (say udp text >> pure a)
  say_then-Keeps text a =
      bind-Keeps Safe (say udp text) _ (say-Keeps udp FitsArrays text) (λ _. pure-Keeps Safe a)

  -- A report of what the state holds.
  reporting-Keeps :
      (label : Bytes) (value : ConfigState → Bytes)
      → Keeps Safe (get >>= λ s. Commands.report udp label (value s))
  reporting-Keeps label value =
      get-Keeps Safe (λ s. Commands.report udp label (value s))
        (λ s i. report-Keeps label (value s))

  set_report-Keeps :
      (f : GlobalConfiguration → GlobalConfiguration) (label : Bytes) (read : ConfigState → Bytes)
      → ((c : GlobalConfiguration) → FitsArrays c → FitsArrays (f c))
      → Keeps Safe (Commands.configure f >> (get >>= λ s. Commands.report udp label (read s)))
  set_report-Keeps f label read k =
      bind-Keeps Safe (Commands.configure f) _ (modify-Keeps Safe _ (λ s i. k s.conf i))
        (λ _. reporting-Keeps label read)

  set_name-Keeps :
      (f : Bytes → GlobalConfiguration → GlobalConfiguration) (read : GlobalConfiguration → Bytes)
      (label v : Bytes)
      → (strlen v ≤ 128 → (c : GlobalConfiguration) → FitsArrays c → FitsArrays (f v c))
      → Keeps Safe (Commands.set_name udp f read label v)
  unfolding Commands.set_name Commands.validate_arg_size
  set_name-Keeps f read label v k = record { kept = λ s i. tested s i _ refl }
    where
      invalid :
          (s : ConfigState)
          → Safe s
          → Post (say udp Texts.err_argument_size >> pure false) s (λ b s'. (b ≡ false) × Safe s')
      invalid s i =
          bind-Post (λ _. Safe) (λ b s'. (b ≡ false) × Safe s') (say udp Texts.err_argument_size)
            (λ _. pure false) s ((say-Keeps udp FitsArrays Texts.err_argument_size).kept s i)
            (λ a s' i'. pure-Post (λ b s'. (b ≡ false) × Safe s') false s' (refl, i'))

      tested :
          (s : ConfigState)
          → Safe s
          → (b : Bool) → (strlen v == 0 || ltb Commands.max_bytes_names (strlen v)) ≡ b
          → Post
              ((if b then say udp Texts.err_argument_size >> pure false else pure true) >>= λ valid.
                if valid
                then Commands.configure (f v)
                  >> (get >>= λ s. Commands.report udp label (read s.conf))
                else pure (pos 1))
              s
              (λ _. Safe)
      tested s i true e =
          bind-Post (λ b s'. (b ≡ false) × Safe s') (λ _. Safe)
            (say udp Texts.err_argument_size >> pure false)
            (λ valid.
              if valid
              then Commands.configure (f v)
                >> (get >>= λ s. Commands.report udp label (read s.conf))
              else pure (pos 1))
            s (invalid s i)
            (λ b s' p.
              unless-Post (λ _. Safe) b
                (Commands.configure (f v) >> (get >>= λ s. Commands.report udp label (read s.conf)))
                (pure (pos 1)) s' p.0 (pure-Post (λ _. Safe) (pos 1) s' p.1))
      tested s i false e =
          (set_report-Keeps (f v) label (λ s. read s.conf) (k (ground arith))).kept s i

  setatt-Keeps : (v : Bytes) → Keeps Safe (Commands.setatt_action udp v)
  unfolding Commands.setatt_action
  setatt-Keeps v = tested _ refl
    where
      tested :
          (b : Bool)
          → (strlen v == 10) ≡ b
          → Keeps Safe (
              if b
              then Commands.configure (λ c. record c { authorization_token = v })
                >> (get >>= λ s.
                    Commands.report udp Texts.suc_new_auth_token s.conf.authorization_token)
              else say udp Texts.err_auth_token_length >> pure (pos 0))
      tested true e =
          set_report-Keeps (λ c. record c { authorization_token = v }) Texts.suc_new_auth_token
            (λ s. s.conf.authorization_token)
            (λ c i. with_strings i.logs_fits i.maildir_fits (ground arith) i.script_fits)
      tested false e = say_then-Keeps Texts.err_auth_token_length (pos 0)

  settrf-Keeps : (v : Bytes) → Keeps Safe (Commands.settrf_action udp v)
  unfolding Commands.settrf_action
  settrf-Keeps v =
      if-Keeps Safe (equal v (codes "true")) _ _
        (bind-Keeps Safe _ _
          (modify-Keeps Safe _
            (λ s i. with_strings i.logs_fits i.maildir_fits i.token_fits i.script_fits))
          (λ _. say_then-Keeps Texts.suc_new_transformation_true (pos 0)))
        (if-Keeps Safe (equal v (codes "false")) _ _
          (bind-Keeps Safe _ _
            (modify-Keeps Safe _
              (λ s i. with_strings i.logs_fits i.maildir_fits i.token_fits i.script_fits))
            (λ _. say_then-Keeps Texts.suc_new_transformation_false (pos 0)))
          (say_then-Keeps Texts.suc_new_transformation_false (negsuc 0)))

  config_action-Keeps :
      (c : Commands.ConfigCommand) (v : Bytes) → Keeps Safe (Commands.config_action udp c v)
  unfolding Commands.config_action Commands.getbuf_action Commands.getlgf_action
      Commands.getmdf_action Commands.getatt_action Commands.getinf_action Commands.gettfn_action
      Commands.settfn_action Commands.setlgf_action Commands.setmdf_action Commands.gethtu_action
      Commands.getccu_action Commands.getbtf_action Commands.gettrf_action
      Commands.config_default_action
  config_action-Keeps Commands.getbuf v =
      reporting-Keeps Texts.suc_buffer_size (λ s. decimal_int s.conf.buffers_size)
  config_action-Keeps Commands.getlgf v =
      reporting-Keeps Texts.suc_logs_folder (λ s. s.conf.logs_folder)
  config_action-Keeps Commands.getmdf v =
      reporting-Keeps Texts.suc_maildir_folder (λ s. s.conf.maildir_folder)
  config_action-Keeps Commands.getatt v =
      reporting-Keeps Texts.suc_auth_token (λ s. s.conf.authorization_token)
  config_action-Keeps Commands.getinf v = say_then-Keeps Texts.suc_inf (pos 0)
  config_action-Keeps Commands.gettfn v =
      reporting-Keeps Texts.suc_transformation_function (λ s. s.conf.transformation_script)
  config_action-Keeps Commands.settfn v =
      set_name-Keeps (λ v c. record c { transformation_script = v }) (λ c. c.transformation_script)
        Texts.suc_new_transformation_function v
        (λ h c i. with_strings i.logs_fits i.maildir_fits i.token_fits (omega arith))
  config_action-Keeps Commands.setlgf v =
      set_name-Keeps (λ v c. record c { logs_folder = v }) (λ c. c.logs_folder)
        Texts.suc_new_logs_folder v
        (λ h c i. with_strings (omega arith) i.maildir_fits i.token_fits i.script_fits)
  config_action-Keeps Commands.setmdf v =
      set_name-Keeps (λ v c. record c { maildir_folder = v }) (λ c. c.maildir_folder)
        Texts.suc_new_maildir_folder v
        (λ h c i. with_strings i.logs_fits (omega arith) i.token_fits i.script_fits)
  config_action-Keeps Commands.setatt v = setatt-Keeps v
  config_action-Keeps Commands.gethtu v =
      reporting-Keeps Texts.suc_historic_total_users (λ s. decimal_int s.stats.total_clients)
  config_action-Keeps Commands.getccu v =
      reporting-Keeps Texts.suc_concurrent_users (λ s. decimal_int s.stats.concurrent_clients)
  config_action-Keeps Commands.getbtf v =
      reporting-Keeps Texts.suc_bytes_transferred (λ s. decimal_int s.stats.concurrent_clients)
  config_action-Keeps Commands.gettrf v =
      get-Keeps Safe
        (λ s.
          say udp (
            if s.conf.transformation
            then Texts.suc_transformation_true
            else Texts.suc_transformation_false)
          >> pure (pos 0))
        (λ s i. say_then-Keeps _ (pos 0))
  config_action-Keeps Commands.settrf v = settrf-Keeps v
  config_action-Keeps Commands.error_command v = say_then-Keeps Texts.err_unknown_command (pos 0)

  refuse-Keeps :
      (b : Bool) (text : Bytes) → Keeps Safe (if b then say udp text >> pure false else pure true)
  refuse-Keeps b text = if-Keeps Safe b _ _ (say_then-Keeps text false) (pure-Keeps Safe true)

  token-Keeps : (token : Bytes) → Keeps Safe (Commands.is_valid_token udp token)
  unfolding Commands.is_valid_token
  token-Keeps token =
      get-Keeps Safe
        (λ s.
          if not (strlen token == 10)
            || not (Commands.same_front s.conf.authorization_token token 10)
          then say udp Texts.err_invalid_auth_token >> pure false
          else pure true)
        (λ s i.
          refuse-Keeps
            (not (strlen token == 10)
              || not (Commands.same_front s.conf.authorization_token token 10))
            Texts.err_invalid_auth_token)

  get_set-Keeps :
      (operation argument : Bytes) → Keeps Safe (Commands.is_valid_get_set udp operation argument)
  unfolding Commands.is_valid_get_set
  get_set-Keeps operation argument =
      if-Keeps Safe (Commands.is_zero (strncasecmp operation (codes "GET") 3)) _ _
        (refuse-Keeps (has_argument argument) Texts.err_invalid_object_code)
        (if-Keeps Safe (Commands.is_zero (strncasecmp operation (codes "SET") 3)) _ _
          (refuse-Keeps (not (has_argument argument)) Texts.err_argument_expected_set)
          (say_then-Keeps Texts.err_second_command_get_set false))

  object_code-Keeps :
      (object_code : Bytes) → Keeps Safe (Commands.is_valid_object_code udp object_code)
  unfolding Commands.is_valid_object_code
  object_code-Keeps object_code =
      if-Keeps Safe (Commands.is_object_code object_code Commands.object_codes) _ _
        (pure-Keeps Safe true) (say_then-Keeps Texts.err_invalid_object_code false)

  and_then-Keeps : (p q : C Bool) → Keeps Safe p → Keeps Safe q → Keeps Safe (Commands.and_then p q)
  and_then-Keeps p q h k =
      bind-Keeps Safe p _ h (λ b. if-Keeps Safe b q (pure false) k (pure-Keeps Safe false))

  execute-Keeps : (r : Request) → Keeps Safe (Commands.execute udp r)
  unfolding Commands.execute
  execute-Keeps r =
      let c = Commands.get_config_command (r.operation ++ r.object_code) in
      bind-Keeps Safe (Commands.config_action udp c r.argument) _ (config_action-Keeps c r.argument)
        (λ ret.
          if-Keeps Safe (is_minus_one ret) _ _
            (say-Keeps udp FitsArrays Texts.err_executing_command) (pure-Keeps Safe tt))

  pub handle_request-Keeps : (r : Request) → Keeps Safe (Commands.handle_request udp r)
  unfolding Commands.handle_request
  handle_request-Keeps r =
      bind-Keeps Safe
        (Commands.and_then (Commands.is_valid_token udp r.token) (
          Commands.and_then (Commands.is_valid_get_set udp r.operation r.argument)
            (Commands.is_valid_object_code udp r.object_code)))
        _
        (and_then-Keeps _ _ (token-Keeps r.token) (
          and_then-Keeps _ _ (get_set-Keeps r.operation r.argument)
            (object_code-Keeps r.object_code)))
        (λ valid. if-Keeps Safe valid _ _ (execute-Keeps r) (pure-Keeps Safe tt))
