-- ===== src/Args.antt =====
-- The command line: src/args.c. A call that ends the process leaves its exit code.
pub mod Ports
pub mod Users
mod Tests
use pdc_pop3d.Prelude.{
  ℕ, zero, suc, ◌+◌, ◌-◌, Bool, true, false, not, ◌&&◌, ◌||◌, Option, none, some, List, [], ◌∷◌,
  ◌++◌, ltb, ◌==◌, if◌then◌else◌, length,
}
use pdc_pop3d.CString.{Bytes, codes}
use pdc_pop3d.Numbers.{is_digit, skip_white, read_digits}
use pdc_pop3d.Global.{User, GlobalConfiguration}

abbrev pub max_users : ℕ
max_users = 10

-- `USHRT_MAX`
abbrev pub ushrt_max : ℕ
ushrt_max = 65535

-- Digits, and nothing behind them: `end != s` and `*end == 0`.
unfoldable pub only_digits : Bytes → Bool
only_digits [] = false
only_digits (c ∷ []) = is_digit c
only_digits (c ∷ s) = is_digit c && only_digits s

-- `port`, with what `strtol` reads: white space, a sign, and digits. A number out of the range of
-- `long` is out of that of a port too.
unfoldable pub port_unsigned : Bool → Bytes → Option ℕ
port_unsigned negative digits =
    let v = read_digits 0 digits in
    if not (only_digits digits) || (negative && not (v == 0)) || ltb ushrt_max v
    then none
    else some v

unfoldable pub port_signed : Bytes → Option ℕ
unfolding port_unsigned
port_signed [] = none
port_signed (c ∷ s) =
    if c == b'-'
    then port_unsigned true s
    else if c == b'+'
    then port_unsigned false s
    else port_unsigned false (c ∷ s)

unfoldable pub port : Bytes → Option ℕ
unfolding port_signed
port s = port_signed (skip_white s)

-- What stands before the first ':', and what behind it.
unfoldable pub split_colon : Bytes → Option (Bytes × Bytes)
split_colon [] = none
split_colon (c ∷ s) =
    let rest = split_colon s in
    if c == b':' then some ([], s) else elim rest [ none ↦ none | some (n, p) ↦ some (c ∷ n, p) ]

unfoldable pub user : Bytes → Option User
unfolding split_colon
user s = elim (split_colon s) [
  | none ↦ none
  | some (n, p) ↦ some (record { name = n; pass = p; semaphore = 1 })
]

-- What `getopt_long` gives: a letter of the switch with its argument, or another value.
pub data Given : Type 0 where
  help version unknown : Given
  pop3_addr conf_addr pop3_port conf_port maildir new_user transformation : Bytes → Given

-- The configuration, or the exit code of the process.
pub data Parsed : Type 0 where
  configured : GlobalConfiguration → Parsed
  exited : ℕ → Parsed

abbrev pub with_port : Option ℕ → (ℕ → GlobalConfiguration) → Parsed
with_port none f = exited 1
with_port (some n) f = configured (f n)

-- The branch of `-u`; `nusers` is the number of users so far, and the configuration has no others.
unfoldable pub add_user : Bytes → ℕ → GlobalConfiguration → Parsed
add_user s nusers c =
    if ltb nusers max_users
    then elim (user s) [
      | none ↦ exited 1
      | some u ↦ configured (record c { users = c.users ++ u ∷ [] })
    ]
    else exited 1

-- The body of the loop.
unfoldable pub parse_option : Given → ℕ → GlobalConfiguration → Parsed
parse_option help nusers c = exited 1
parse_option version nusers c = exited 0
parse_option unknown nusers c = exited 1
parse_option (pop3_addr s) nusers c = configured (record c { pop3_addr = s })
parse_option (conf_addr s) nusers c = configured (record c { conf_addr = s })
parse_option (pop3_port s) nusers c = with_port (port s) (λ n. record c { pop3_port = n })
parse_option (conf_port s) nusers c = with_port (port s) (λ n. record c { conf_port = n })
parse_option (maildir s) nusers c = configured (record c { maildir_folder = s })
parse_option (new_user s) nusers c = add_user s nusers c
parse_option (transformation s) nusers c = configured (record c { transformation_script = s })

abbrev pub counts_user : Given → Bool
counts_user (new_user s) = true
counts_user _ = false

-- The loop, and the operands that are left behind it.
unfoldable pub parse_options : List Given → Bool → ℕ → GlobalConfiguration → Parsed
parse_options [] operands nusers c = if operands then exited 1 else configured c
parse_options (g ∷ gs) operands nusers c = elim (parse_option g nusers c) [
  | exited code ↦ exited code
  | configured c' ↦ parse_options gs operands (if counts_user g then nusers + 1 else nusers) c'
]

unfoldable pub parse_args : List Given → Bool → GlobalConfiguration → Parsed
parse_args gs operands c = parse_options gs operands 0 (record c {
  pop3_addr = codes "0.0.0.0";
  pop3_port = 1110;
  conf_addr = codes "127.0.0.1";
  conf_port = 9090;
})
