-- ===== src/Args/Tests.antt =====
-- A command line.
use pdc_pop3d.Prelude.{◌≡◌, ◌≤◌, ◌↔◌, refl, some, false, List, [], ◌∷◌, length, arith}
use pdc_pop3d.CString.{codes}
use pdc_pop3d.Numbers.{decimal, is_digit, is_white, skip_white, read_digits}
use pdc_pop3d.Global.{GlobalConfiguration}
use pdc_pop3d.Args.{
  Given, pop3_port, new_user, configured, max_users, port, port_signed, port_unsigned, only_digits,
  split_colon, user, add_user, parse_option, parse_options, parse_args,
}
use pdc_pop3d.Args.Ports.{port-decimal_iff}
use pdc_pop3d.Args.Users.{parse_args-users}

port-decimal_example : (port (decimal 1110) ≡ some 1110) ↔ (1110 ≤ 65535)
port-decimal_example = port-decimal_iff 1110 (omega arith)

abbrev conf : GlobalConfiguration
conf = record {
  pop3_addr = [];
  pop3_port = 0;
  conf_addr = [];
  conf_port = 0;
  users = [];
  buffers_size = 2048;
  logs_folder = codes "logs";
  mailroot_folder = codes "/tmp";
  maildir_folder = codes "Maildir";
  authorization_token = codes "adminadmin";
  transformation = false;
  transformation_script = [];
}

abbrev line : List Given
line = new_user (codes "joe:secret") ∷ pop3_port (codes " +2110") ∷ []

abbrev started : GlobalConfiguration
started = record conf {
  pop3_addr = codes "0.0.0.0";
  pop3_port = 2110;
  conf_addr = codes "127.0.0.1";
  conf_port = 9090;
  users = record { name = codes "joe"; pass = codes "secret"; semaphore = 1 } ∷ [];
}

line-started : parse_args line false conf ≡ configured started
unfolding parse_args parse_options parse_option add_user user split_colon port port_signed
    port_unsigned only_digits is_digit is_white skip_white read_digits
line-started = refl

parse_args-users_example : length started.users ≤ max_users
parse_args-users_example = parse_args-users line false conf started refl line-started
