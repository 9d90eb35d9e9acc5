-- ===== src/Pop3/Reply.antt =====
-- The replies of the POP3 server: the constants of src/parser/pop3_parserADT.c.
use pdc_pop3d.Prelude.{◌++◌}
use pdc_pop3d.CString.{Bytes, codes, crlf}

abbrev pub ok_marked_deleted : Bytes
ok_marked_deleted = codes "+OK Marked to be deleted. " ++ crlf

abbrev pub ok_sign_off : Bytes
ok_sign_off = codes "+OK POP3 server signing off." ++ crlf

abbrev pub ok_response : Bytes
ok_response = codes "+OK" ++ crlf

abbrev pub ok_logged_in : Bytes
ok_logged_in = codes "+OK Logged in." ++ crlf

abbrev pub ok_capa : Bytes
ok_capa =
    codes "+OK"
    ++ crlf
    ++ codes "CAPA"
    ++ crlf
    ++ codes "USER"
    ++ crlf
    ++ codes "PIPELINING"
    ++ crlf
    ++ codes "."
    ++ crlf

abbrev pub ok_permission_granted : Bytes
ok_permission_granted = codes "+OK Waitings up! Permission granted." ++ crlf

abbrev pub err_auth : Bytes
err_auth = codes "-ERR [AUTH] Authentication failed." ++ crlf

abbrev pub err_unknown_command : Bytes
err_unknown_command = codes "-ERR Unknown command." ++ crlf

abbrev pub err_bad_argument : Bytes
err_bad_argument = codes "-ERR Bad argument." ++ crlf

abbrev pub err_invalid_email_index : Bytes
err_invalid_email_index = codes "-ERR Invalid email index." ++ crlf

abbrev pub err_default_action : Bytes
err_default_action = codes "-ERR Command not found." ++ crlf

abbrev pub err_no_username : Bytes
err_no_username = codes "-ERR No username given." ++ crlf

abbrev pub err_user_already_logged_in : Bytes
err_user_already_logged_in =
    codes "-ERR User is already logged in and performing an operation. Waiting for clearance..."
    ++ crlf

abbrev pub dot : Bytes
dot = crlf ++ codes "." ++ crlf

abbrev pub simple_dot : Bytes
simple_dot = codes "." ++ crlf
