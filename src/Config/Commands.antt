-- ===== src/Config/Commands.antt =====
-- The commands of the configuration service: src/parser/config_parserADT.c. An action returns its
-- result beside the new state.
pub mod Outcome
pub mod Replies
pub mod Lookup
pub mod Validation
pub mod Bounds
use pdc_pop3d.Prelude.{
  ℕ, ◌+◌, ◌-◌, Bool, true, false, not, ◌&&◌, ◌||◌, Option, none, some, List, [], ◌∷◌, ◌++◌, ltb,
  ◌==◌, if◌then◌else◌, length, take, ℤ, pos, negsuc,
}
use pdc_pop3d.CString.{Bytes, codes, cstr, strlen, equal}
use pdc_pop3d.Numbers.{decimal_int}
use pdc_pop3d.Text.{has_argument, strncasecmp, u_strlen}
use pdc_pop3d.Step.{◌>>=◌, ◌>>◌, pure, get, modify}
use pdc_pop3d.Parser.{parser_init, feed_all}
use pdc_pop3d.Global.{GlobalConfiguration}
use pdc_pop3d.Config.Automaton.{Request, config_parser_automaton, request_of}
use pdc_pop3d.Config.State.{ConfigState, Udp, C, is_minus_one, say}
use pdc_pop3d.Config.Texts

abbrev pub max_bytes_names : ℕ
max_bytes_names = 128

abbrev pub is_zero : ℤ → Bool
is_zero (pos n) = n == 0
is_zero (negsuc n) = false

-- A change of the configuration.
abbrev pub configure : (GlobalConfiguration → GlobalConfiguration) → C (Unit {0})
configure f = modify (λ s. record s { conf = f s.conf })

module _ (udp : Udp) where
  -- Three datagrams: what it is, its value, and the end of the line.
  unfoldable pub report : Bytes → Bytes → C ℤ
  report label value = do say udp label; say udp value; say udp Texts.new_line; pure (pos 0)

  unfoldable pub getbuf_action : Bytes → C ℤ
  getbuf_action argument = do
    s ← get
    report Texts.suc_buffer_size (decimal_int s.conf.buffers_size)

  unfoldable pub getlgf_action : Bytes → C ℤ
  getlgf_action argument = do s ← get; report Texts.suc_logs_folder s.conf.logs_folder

  unfoldable pub getmdf_action : Bytes → C ℤ
  getmdf_action argument = do s ← get; report Texts.suc_maildir_folder s.conf.maildir_folder

  unfoldable pub getatt_action : Bytes → C ℤ
  getatt_action argument = do s ← get; report Texts.suc_auth_token s.conf.authorization_token

  unfoldable pub getinf_action : Bytes → C ℤ
  getinf_action argument = do say udp Texts.suc_inf; pure (pos 0)

  unfoldable pub gettfn_action : Bytes → C ℤ
  gettfn_action argument = do
    s ← get
    report Texts.suc_transformation_function s.conf.transformation_script

  unfoldable pub validate_arg_size : Bytes → C Bool
  validate_arg_size arg =
      if strlen arg == 0 || ltb max_bytes_names (strlen arg)
      then (do say udp Texts.err_argument_size; pure false)
      else pure true

  -- The setters that take an argument of 1 to 128 characters: `f` copies it, and the value that is
  -- then reported is read back from the configuration.
  unfoldable pub set_name :
      (Bytes → GlobalConfiguration → GlobalConfiguration)
      → (GlobalConfiguration → Bytes)
      → Bytes
      → Bytes
      → C ℤ
  set_name f read label argument = do
    valid ← validate_arg_size argument
    if valid then (do configure (f argument); s ← get; report label (read s.conf)) else pure (pos 1)

  unfoldable pub settfn_action : Bytes → C ℤ
  settfn_action =
      set_name (λ v c. record c { transformation_script = v }) (λ c. c.transformation_script)
        Texts.suc_new_transformation_function

  unfoldable pub setlgf_action : Bytes → C ℤ
  setlgf_action =
      set_name (λ v c. record c { logs_folder = v }) (λ c. c.logs_folder) Texts.suc_new_logs_folder

  unfoldable pub setmdf_action : Bytes → C ℤ
  setmdf_action =
      set_name (λ v c. record c { maildir_folder = v }) (λ c. c.maildir_folder)
        Texts.suc_new_maildir_folder

  unfoldable pub setatt_action : Bytes → C ℤ
  setatt_action argument =
      if strlen argument == 10
      then (do
        configure (λ c. record c { authorization_token = argument })
        s ← get
        report Texts.suc_new_auth_token s.conf.authorization_token)
      else (do say udp Texts.err_auth_token_length; pure (pos 0))

  unfoldable pub gethtu_action : Bytes → C ℤ
  gethtu_action argument = do
    s ← get
    report Texts.suc_historic_total_users (decimal_int s.stats.total_clients)

  unfoldable pub getccu_action : Bytes → C ℤ
  getccu_action argument = do
    s ← get
    report Texts.suc_concurrent_users (decimal_int s.stats.concurrent_clients)

  -- The code reports `concurrent_clients` here too.
  unfoldable pub getbtf_action : Bytes → C ℤ
  getbtf_action argument = do
    s ← get
    report Texts.suc_bytes_transferred (decimal_int s.stats.concurrent_clients)

  unfoldable pub settrf_action : Bytes → C ℤ
  settrf_action argument =
      if equal argument (codes "true")
      then (do
        configure (λ c. record c { transformation = true })
        say udp Texts.suc_new_transformation_true
        pure (pos 0))
      else if equal argument (codes "false")
      then (do
        configure (λ c. record c { transformation = false })
        say udp Texts.suc_new_transformation_false
        pure (pos 0))
      else (do say udp Texts.suc_new_transformation_false; pure (negsuc 0))

  unfoldable pub gettrf_action : Bytes → C ℤ
  gettrf_action argument = do
    s ← get
    say udp (
        if s.conf.transformation
        then Texts.suc_transformation_true
        else Texts.suc_transformation_false)
    pure (pos 0)

  unfoldable pub config_default_action : Bytes → C ℤ
  config_default_action argument = do say udp Texts.err_unknown_command; pure (pos 0)

-- `config_command`
pub data ConfigCommand : Type 0 where
  getbuf getlgf getmdf getatt getinf gettfn settfn setlgf setmdf setatt : ConfigCommand
  gethtu getccu getbtf gettrf settrf error_command : ConfigCommand

-- `config_commands[i].name`
unfoldable pub config_name : ConfigCommand → Bytes
config_name getbuf = codes "GETBUF"
config_name getlgf = codes "GETLGF"
config_name getmdf = codes "GETMDF"
config_name getatt = codes "GETATT"
config_name getinf = codes "GETINF"
config_name gettfn = codes "GETTFN"
config_name settfn = codes "SETTFN"
config_name setlgf = codes "SETLGF"
config_name setmdf = codes "SETMDF"
config_name setatt = codes "SETATT"
config_name gethtu = codes "GETHTU"
config_name getccu = codes "GETCCU"
config_name getbtf = codes "GETBTF"
config_name gettrf = codes "GETTRF"
config_name settrf = codes "SETTRF"
config_name error_command = codes "Error command"

-- The order of the loop of `get_config_command`.
abbrev pub config_table : List ConfigCommand
config_table =
    getbuf ∷ getlgf ∷ getmdf ∷ getatt ∷ getinf ∷ gettfn ∷ settfn ∷ setlgf ∷ setmdf ∷ setatt ∷ gethtu
    ∷ getccu ∷ getbtf ∷ gettrf ∷ settrf ∷ []

unfoldable pub find_config_command : Bytes → List ConfigCommand → ConfigCommand
find_config_command command [] = error_command
find_config_command command (c ∷ cs) =
    if is_zero (strncasecmp command (config_name c) 6) then c else find_config_command command cs

unfoldable pub get_config_command : Bytes → ConfigCommand
unfolding find_config_command
get_config_command command = find_config_command command config_table

-- The names of `config_object_code`, in its order.
abbrev pub object_codes : List Bytes
object_codes =
    codes "BUF"
    ∷ codes "LGF"
    ∷ codes "MDF"
    ∷ codes "ATT"
    ∷ codes "INF"
    ∷ codes "TFN"
    ∷ codes "HTU"
    ∷ codes "CCU"
    ∷ codes "BTF"
    ∷ codes "TRF"
    ∷ []

-- The loop of `is_valid_object_code`.
unfoldable pub is_object_code : Bytes → List Bytes → Bool
is_object_code object_code [] = false
is_object_code object_code (n ∷ ns) =
    if is_zero (strncasecmp object_code n 3) then true else is_object_code object_code ns

-- `strncmp(s, t, n) == 0`, on the bytes of two strings.
abbrev pub same_front : Bytes → Bytes → ℕ → Bool
same_front s t n = equal (take n s) (take n t)

-- `p && q`, where `q` runs only if `p` holds.
abbrev pub and_then : C Bool → C Bool → C Bool
and_then p q = p >>= λ b. if b then q else pure false

module _ (udp : Udp) where
  -- `config_commands[i].action`
  unfoldable pub config_action : ConfigCommand → Bytes → C ℤ
  config_action getbuf = getbuf_action udp
  config_action getlgf = getlgf_action udp
  config_action getmdf = getmdf_action udp
  config_action getatt = getatt_action udp
  config_action getinf = getinf_action udp
  config_action gettfn = gettfn_action udp
  config_action settfn = settfn_action udp
  config_action setlgf = setlgf_action udp
  config_action setmdf = setmdf_action udp
  config_action setatt = setatt_action udp
  config_action gethtu = gethtu_action udp
  config_action getccu = getccu_action udp
  config_action getbtf = getbtf_action udp
  config_action gettrf = gettrf_action udp
  config_action settrf = settrf_action udp
  config_action error_command = config_default_action udp

  unfoldable pub is_valid_token : Bytes → C Bool
  is_valid_token token = do
    s ← get
    if not (strlen token == 10) || not (same_front s.conf.authorization_token token 10)
        then (do say udp Texts.err_invalid_auth_token; pure false)
        else pure true

  unfoldable pub is_valid_get_set : Bytes → Bytes → C Bool
  is_valid_get_set operation argument =
      if is_zero (strncasecmp operation (codes "GET") 3)
      then if has_argument argument
        then (do say udp Texts.err_invalid_object_code; pure false)
        else pure true
      else if is_zero (strncasecmp operation (codes "SET") 3)
      then if not (has_argument argument)
        then (do say udp Texts.err_argument_expected_set; pure false)
        else pure true
      else (do say udp Texts.err_second_command_get_set; pure false)

  unfoldable pub is_valid_object_code : Bytes → C Bool
  is_valid_object_code object_code =
      if is_object_code object_code object_codes
      then pure true
      else (do say udp Texts.err_invalid_object_code; pure false)

  -- The body of the branch that a valid request enters.
  unfoldable pub execute : Request → C (Unit {0})
  execute r = do
    ret ← config_action (get_config_command (r.operation ++ r.object_code)) r.argument
    if is_minus_one ret then say udp Texts.err_executing_command else pure tt

  unfoldable pub handle_request : Request → C (Unit {0})
  unfolding execute
  handle_request r = do
    valid ←
        and_then (is_valid_token r.token)
          (and_then (is_valid_get_set r.operation r.argument) (is_valid_object_code r.object_code))
    if valid then execute r else pure tt
