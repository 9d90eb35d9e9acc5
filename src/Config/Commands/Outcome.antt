-- ===== src/Config/Commands/Outcome.antt =====
-- What a request to src/parser/config_parserADT.c is to do, without the network and its buffer: the
-- configuration that it leaves, and the datagrams that answer it.
use pdc_pop3d.Prelude.{
  ℕ, Bool, ◌∷◌, [], take, Option, none, some, true, false, not, ◌&&◌, ◌||◌, List, ◌++◌, ltb, ◌==◌,
  if◌then◌else◌, ℤ, pos, negsuc,
}
use pdc_pop3d.CString.{Bytes, codes, strlen, equal}
use pdc_pop3d.Numbers.{decimal_int}
use pdc_pop3d.Text.Compare.{folded}
use pdc_pop3d.Global.{GlobalConfiguration, GlobalStatistics}
use pdc_pop3d.Config.Automaton.{Request}
use pdc_pop3d.Config.State.Runs.{sent}
use pdc_pop3d.Config.Texts
use pdc_pop3d.Config.Commands.{
  ConfigCommand, getbuf, getlgf, getmdf, getatt, getinf, gettfn, settfn, setlgf, setmdf, setatt,
  gethtu, getccu, getbtf, gettrf, settrf, error_command,
}

pub record Outcome : Type 0 where
  pub code : ℤ
  pub conf : GlobalConfiguration
  pub datagrams : List Bytes

abbrev pub line : Bytes → Bytes → List Bytes
line label value = sent label ++ (sent value ++ sent Texts.new_line)

-- The configuration with its answer.
abbrev pub answered : GlobalConfiguration → List Bytes → Outcome
answered c ds = record { code = pos 0; conf = c; datagrams = ds }

-- A name is taken if it has 1 to 128 characters.
abbrev pub named : Bytes → GlobalConfiguration → Outcome → Outcome
named arg c o =
    if strlen arg == 0 || ltb 128 (strlen arg)
    then record { code = pos 1; conf = c; datagrams = sent Texts.err_argument_size }
    else o

-- The words agree in their first `n` characters but for the case.
abbrev pub same_word : ℕ → Bytes → Bytes → Bool
same_word n a b = equal (folded n a) (folded n b)

-- The commands of the protocol: an operation with an object code.
abbrev pub protocol : List (Bytes × ConfigCommand)
protocol =
    (codes "GETBUF", getbuf)
    ∷ (codes "GETLGF", getlgf)
    ∷ (codes "GETMDF", getmdf)
    ∷ (codes "GETATT", getatt)
    ∷ (codes "GETINF", getinf)
    ∷ (codes "GETTFN", gettfn)
    ∷ (codes "SETTFN", settfn)
    ∷ (codes "SETLGF", setlgf)
    ∷ (codes "SETMDF", setmdf)
    ∷ (codes "SETATT", setatt)
    ∷ (codes "GETHTU", gethtu)
    ∷ (codes "GETCCU", getccu)
    ∷ (codes "GETBTF", getbtf)
    ∷ (codes "GETTRF", gettrf)
    ∷ (codes "SETTRF", settrf)
    ∷ []

-- The object codes of the protocol.
abbrev pub objects : List Bytes
objects =
    codes "BUF"
    ∷ codes "LGF"
    ∷ codes "MDF"
    ∷ codes "ATT"
    ∷ codes "INF"
    ∷ codes "TFN"
    ∷ codes "HTU"
    ∷ codes "CCU"
    ∷ codes "BTF"
    ∷ codes "TRF"
    ∷ []

abbrev pub command_named : List (Bytes × ConfigCommand) → Bytes → ConfigCommand
command_named [] w = error_command
command_named ((n, c) ∷ rows) w = if same_word 6 w n then c else command_named rows w

abbrev pub is_object : List Bytes → Bytes → Bool
is_object [] w = false
is_object (n ∷ ns) w = if same_word 3 w n then true else is_object ns w

unfoldable pub command_outcome :
    ConfigCommand → Bytes → GlobalConfiguration → GlobalStatistics → Outcome
command_outcome getbuf v c st = answered c (line Texts.suc_buffer_size (decimal_int c.buffers_size))
command_outcome getlgf v c st = answered c (line Texts.suc_logs_folder c.logs_folder)
command_outcome getmdf v c st = answered c (line Texts.suc_maildir_folder c.maildir_folder)
command_outcome getatt v c st = answered c (line Texts.suc_auth_token c.authorization_token)
command_outcome getinf v c st = answered c (sent Texts.suc_inf)
command_outcome gettfn v c st =
    answered c (line Texts.suc_transformation_function c.transformation_script)
command_outcome settfn v c st = named v c (
    answered (record c { transformation_script = v })
      (line Texts.suc_new_transformation_function v))
command_outcome setlgf v c st =
    named v c (answered (record c { logs_folder = v }) (line Texts.suc_new_logs_folder v))
command_outcome setmdf v c st =
    named v c (answered (record c { maildir_folder = v }) (line Texts.suc_new_maildir_folder v))
command_outcome setatt v c st =
    if strlen v == 10
    then answered (record c { authorization_token = v }) (line Texts.suc_new_auth_token v)
    else answered c (sent Texts.err_auth_token_length)
command_outcome gethtu v c st =
    answered c (line Texts.suc_historic_total_users (decimal_int st.total_clients))
command_outcome getccu v c st =
    answered c (line Texts.suc_concurrent_users (decimal_int st.concurrent_clients))
command_outcome getbtf v c st =
    answered c (line Texts.suc_bytes_transferred (decimal_int st.concurrent_clients))
command_outcome gettrf v c st = answered c (
    sent
      (if c.transformation then Texts.suc_transformation_true else Texts.suc_transformation_false))
command_outcome settrf v c st =
    if equal v (codes "true")
    then answered (record c { transformation = true }) (sent Texts.suc_new_transformation_true)
    else if equal v (codes "false")
    then answered (record c { transformation = false }) (sent Texts.suc_new_transformation_false)
    else record { code = negsuc 0; conf = c; datagrams = sent Texts.suc_new_transformation_false }
command_outcome error_command v c st = answered c (sent Texts.err_unknown_command)

-- A result of -1.
abbrev pub failed : ℤ → Bool
failed (pos n) = false
failed (negsuc n) = n == 0

-- A result of -1 is reported behind the answer.
abbrev pub reported : Outcome → Outcome
reported o =
    answered o.conf
      (o.datagrams ++ (if failed o.code then sent Texts.err_executing_command else []))

-- The tests that a request meets, in their order, and the text of the first that fails.
abbrev pub refused_by : Bool → Bool → Bool → Bool → Bool → Option Bytes
refused_by wrong_token is_get is_set given known =
    if wrong_token
    then some Texts.err_invalid_auth_token
    else if is_get && given
    then some Texts.err_invalid_object_code
    else if not is_get && not is_set
    then some Texts.err_second_command_get_set
    else if not is_get && not given
    then some Texts.err_argument_expected_set
    else if known
    then none
    else some Texts.err_invalid_object_code

unfoldable pub refusal : Request → GlobalConfiguration → Option Bytes
refusal r c =
    refused_by
      (not (strlen r.token == 10) || not (equal (take 10 c.authorization_token) (take 10 r.token)))
      (same_word 3 r.operation (codes "GET")) (same_word 3 r.operation (codes "SET"))
      (not (strlen r.argument == 0)) (is_object objects r.object_code)

unfoldable pub request_outcome : Request → GlobalConfiguration → GlobalStatistics → Outcome
request_outcome r c st = elim (refusal r c) [
  | some text ↦ answered c (sent text)
  | none ↦
      reported
        (command_outcome (command_named protocol (r.operation ++ r.object_code)) r.argument c st)
]
