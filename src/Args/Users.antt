-- ===== src/Args/Users.antt =====
-- The users of src/args.c.
use pdc_pop3d.Prelude.{
  ℕ, ◌+◌, ◌≤◌, ◌≡◌, ap, subst, Bool, true, false, Option, none, some, List, [], ◌∷◌, inl, inr,
  arith, ltb, ltb→lt, if◌then◌else◌, Bool-cases, Option-cases, length, length-append,
}
use pdc_pop3d.CString.{Bytes}
use pdc_pop3d.Global.{User, GlobalConfiguration}
use pdc_pop3d.Args.{
  max_users, port, user, Given, help, version, unknown, pop3_addr, conf_addr, pop3_port, conf_port,
  maildir, new_user, transformation, Parsed, configured, exited, with_port, add_user, parse_option,
  counts_user, parse_options, parse_args,
}

-- As many users as were counted, and they fit their array; nothing if the process has ended.
UsersFit : ℕ → Parsed → Type 0
UsersFit n (exited code) = Unit
UsersFit n (configured c) = (length c.users ≡ n) × (n ≤ max_users)

abbrev users_after : Given → ℕ → ℕ
users_after g nusers = if counts_user g then nusers + 1 else nusers

port-UsersFit :
    (o : Option ℕ) (f : ℕ → GlobalConfiguration) (n : ℕ)
    → ((k : ℕ) → length (f k).users ≡ n)
    → n ≤ max_users
    → UsersFit n (with_port o f)
unfolding UsersFit
port-UsersFit none f n h k = tt
port-UsersFit (some v) f n h k = (h v, k)

add_user-UsersFit :
    (s : Bytes) (nusers : ℕ) (c : GlobalConfiguration)
    → length c.users ≡ nusers
    → UsersFit (nusers + 1) (add_user s nusers c)
unfolding UsersFit add_user
add_user-UsersFit s nusers c h = elim (Bool-cases (ltb nusers max_users)) [
  | inr e ↦ rw (e, add_user) tt
  | inl e ↦ elim (Option-cases (user s)) [
    | inl u ↦ rw (e, u, add_user) tt
    | inr (u, f) ↦
        rw (e, f, add_user)
          (omega (arith, length-append c.users (u ∷ [])), omega (arith, ltb→lt nusers max_users e))
  ]
]

option-UsersFit :
    (g : Given) (nusers : ℕ) (c : GlobalConfiguration)
    → length c.users ≡ nusers
    → nusers ≤ max_users
    → UsersFit (users_after g nusers) (parse_option g nusers c)
unfolding UsersFit parse_option
option-UsersFit help nusers c h k = tt
option-UsersFit version nusers c h k = tt
option-UsersFit unknown nusers c h k = tt
option-UsersFit (pop3_addr s) nusers c h k = (h, k)
option-UsersFit (conf_addr s) nusers c h k = (h, k)
option-UsersFit (pop3_port s) nusers c h k = port-UsersFit (port s) _ nusers (λ _. h) k
option-UsersFit (conf_port s) nusers c h k = port-UsersFit (port s) _ nusers (λ _. h) k
option-UsersFit (maildir s) nusers c h k = (h, k)
option-UsersFit (new_user s) nusers c h k = add_user-UsersFit s nusers c h
option-UsersFit (transformation s) nusers c h k = (h, k)

-- The users that the process starts with.
users_of : Parsed → List User
users_of (exited code) = []
users_of (configured c) = c.users

-- What follows an option.
behind :
    (p : Parsed) (rest : GlobalConfiguration → Parsed) {n : ℕ}
    → UsersFit n p
    → ((c : GlobalConfiguration)
        → (length c.users ≡ n) × (n ≤ max_users)
        → length (users_of (rest c)) ≤ max_users)
    → length (users_of (elim p [ exited code ↦ exited code | configured c ↦ rest c ])) ≤ max_users
unfolding UsersFit users_of
behind (exited code) rest f k = omega arith
behind (configured c) rest f k = k c f

options-fit :
    (gs : List Given) (operands : Bool) (nusers : ℕ) (c : GlobalConfiguration)
    → length c.users ≡ nusers
    → nusers ≤ max_users
    → length (users_of (parse_options gs operands nusers c)) ≤ max_users
unfolding users_of parse_options UsersFit
options-fit [] true nusers c h k = omega arith
options-fit [] false nusers c h k = omega (arith, h, k)
options-fit (g ∷ gs) operands nusers c h k =
    behind (parse_option g nusers c) (parse_options gs operands (users_after g nusers))
      (option-UsersFit g nusers c h k)
      (λ c' f. options-fit gs operands (users_after g nusers) c' f.0 f.1)

-- From a configuration without users, no command line leads to more users than their array of 10
-- holds.
pub parse_args-users :
    (gs : List Given) (operands : Bool) (c c' : GlobalConfiguration)
    → c.users ≡ []
    → parse_args gs operands c ≡ configured c'
    → length c'.users ≤ max_users
unfolding users_of parse_args
parse_args-users gs operands c c' h e =
    subst (λ p. length (users_of p) ≤ max_users) e
      (options-fit gs operands 0 _ (ap length h) (omega arith))
