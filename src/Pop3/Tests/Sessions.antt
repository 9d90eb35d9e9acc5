-- ===== src/Pop3/Tests/Sessions.antt =====
-- A session in two segments, cut in the middle of a line end.
use pdc_pop3d.Prelude.{ℕ, refl, map, List, [], ◌∷◌, ◌++◌, length-replicate, arith}
use pdc_pop3d.CString.{Bytes, codes, crlf}
use pdc_pop3d.Socket.{max_bytes}
use pdc_pop3d.Buffer.Contents.{IsValid}
use pdc_pop3d.Pop3.State.Kept.{Holds}
use pdc_pop3d.Pop3.Actions.{no_mail}
use pdc_pop3d.Pop3.Session.{got, session, strstr_crlf}
use pdc_pop3d.Pop3.Session.Search.{IsPiece}
use pdc_pop3d.Pop3.Session.Framing.{Executed}
use pdc_pop3d.Pop3.Session.Turns.{session_frames}
use pdc_pop3d.Pop3.Tests.{env, state}

abbrev segments : List Bytes
segments = (codes "STAT" ++ 13 ∷ []) ∷ (10 ∷ codes "NOOP" ++ crlf ++ codes "LI") ∷ []

stat-IsPiece : IsPiece (codes "STAT")
unfolding strstr_crlf
stat-IsPiece = record {
  is_text = (omega arith, (omega arith, (omega arith, (omega arith, tt))));
  no_end = refl;
}

noop-IsPiece : IsPiece (codes "NOOP")
unfolding strstr_crlf
noop-IsPiece = record {
  is_text = (omega arith, (omega arith, (omega arith, (omega arith, tt))));
  no_end = refl;
}

li-IsPiece : IsPiece (codes "LI")
unfolding strstr_crlf
li-IsPiece = record { is_text = (omega arith, (omega arith, tt)); no_end = refl }

state-Holds : Holds state.conn.info_read_buff state.conn
state-Holds = record {
  cells = omega (arith, length-replicate 63 no_mail);
  room = omega arith;
  read_is = refl;
}

read_buffer-IsValid : IsValid state.conn.info_read_buff
read_buffer-IsValid = record {
  read_le = omega arith;
  write_le = omega arith;
  storage = omega (arith, length-replicate {A = ℕ} max_bytes 0);
}

session_frames_example :
    Executed env (codes "STAT" ∷ codes "NOOP" ∷ []) state (session env 0 0 (map got segments) state)
session_frames_example =
    session_frames env segments (codes "STAT" ∷ codes "NOOP" ∷ []) (codes "LI") state
      (stat-IsPiece, (noop-IsPiece, tt)) li-IsPiece (omega arith, (omega arith, tt)) (omega arith)
      refl state-Holds read_buffer-IsValid refl (omega arith)
