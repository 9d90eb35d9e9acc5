-- ===== src/Pop3/Tests/Logins.antt =====
-- Logging in.
use pdc_pop3d.Prelude.{◌≡◌, ◌⊎◌, ◌++◌, refl, some, [], ◌∷◌, false, arith, pos}
use pdc_pop3d.CString.{codes, equal}
use pdc_pop3d.Pop3.Reply
use pdc_pop3d.Pop3.State.{State}
use pdc_pop3d.Pop3.State.Send.{Ready, Sends}
use pdc_pop3d.Pop3.Login.{pass_action}
use pdc_pop3d.Pop3.Login.Safety.{HasUser, pass_action_safe}
use pdc_pop3d.Pop3.Login.Outcome.{
  IsFirst, taken, LoadsFrom, in_transaction, pass_action_logs_in, pass_action_waits,
}
use pdc_pop3d.Pop3.Tests.{env, joe, conf, client, state, state-Ready, client-FitsArray}

state-named : equal client.username [] ≡ false
unfolding equal
state-named = refl

joe-IsFirst : IsFirst conf.users client.username [] (joe 1) []
joe-IsFirst = record { users_are = refl; others = tt; name_is = refl }

pass_action_logs_in_example :
    (s1 s2 s3 : State (Unit {0})) × (pass_action env (joe 1).pass state ≡ some (pos 1, s3))
    × Sends env Reply.ok_logged_in (taken env [] (joe 1) [] state) s1
    × LoadsFrom env (codes "cur") (in_transaction env s1) s2
    × LoadsFrom env (codes "new") s2 s3
pass_action_logs_in_example =
    pass_action_logs_in env [] (joe 1) [] state state-Ready client-FitsArray state-named joe-IsFirst
      (omega arith)

-- What the login above leaves.
abbrev behind : State (Unit {0})
behind =
    (pass_action_logs_in env [] (joe 1) [] state state-Ready client-FitsArray state-named
      joe-IsFirst (omega arith)).2

pass_run : pass_action env (codes "secret") state ≡ some (pos 1, behind)
pass_run =
    (pass_action_logs_in env [] (joe 1) [] state state-Ready client-FitsArray state-named
      joe-IsFirst (omega arith)).3

pass_action_safe_example :
    (behind.conn.status ≡ client.status) ⊎ HasUser conf.users client.username (codes "secret")
pass_action_safe_example = pass_action_safe env (codes "secret") state behind (pos 1) pass_run

abbrev busy : State (Unit {0})
busy = record state { shared = record state.shared { conf = record conf { users = joe 0 ∷ [] } } }

busy-Ready : Ready env busy
busy-Ready = record {
  honest = state-Ready.honest;
  reading = state-Ready.reading;
  fresh = state-Ready.fresh;
}

joe_waits-IsFirst : IsFirst busy.shared.conf.users client.username [] (joe 0) []
joe_waits-IsFirst = record { users_are = refl; others = tt; name_is = refl }

pass_action_waits_example :
    (s' : State (Unit {0})) × (pass_action env (joe 0).pass busy ≡ some (pos 1, s'))
    × (s'.wire.sent
        ≡ busy.wire.sent ++ Reply.err_user_already_logged_in ++ Reply.ok_permission_granted)
    × (s'.conn.status ≡ busy.conn.status)
    × (s'.conn.mails ≡ busy.conn.mails)
pass_action_waits_example =
    pass_action_waits env [] (joe 0) [] busy busy-Ready state-named joe_waits-IsFirst refl
